-- ===== src/Stats/Percentile.antt =====
-- `SnapshotNow`, `BuildLatencySnapshot`, `PercentileValue` and `StreamMetrics::Snapshot`. `double` is a parameter.
pub mod Sorted
pub mod Order
pub mod Unordered
use proto_test_msquic.Prelude.{
  ℕ, zero, suc, ◌+◌, ◌-◌, ◌^◌, ◌≤◌, ◌<◌, ◌≡◌, List, [], ◌∷◌, Option, none, some, length, get_elem?,
  min, ltb, leb, if◌then◌else◌, arith,
}
use proto_test_msquic.Prelude.Float.{Float64}
use proto_test_msquic.Stats.{Stats, StreamMetrics}

-- `std::numeric_limits<uint64_t>::max()`, which stands for "n/a"
abbrev pub no_latency : ℕ
no_latency = 2 ^ 64 - 1

-- `std::sort`
unfoldable pub insert_sorted : ℕ → List ℕ → List ℕ
insert_sorted x [] = x ∷ []
insert_sorted x (y ∷ ys) = let rest = insert_sorted x ys in if leb x y then x ∷ y ∷ ys else y ∷ rest

unfoldable pub sort : List ℕ → List ℕ
unfolding insert_sorted
sort [] = []
sort (x ∷ xs) = insert_sorted x (sort xs)

-- `sorted[i]`, with the value for an empty vector where there is none
abbrev pub at_index : List ℕ → ℕ → ℕ
at_index xs i = elim (get_elem? xs i) [ none ↦ no_latency | some v ↦ v ]

pub record LatencySnapshot : Type 0 where
  pub p50_ns : ℕ
  pub p75_ns : ℕ
  pub p99_ns : ℕ

abbrev pub empty_latency : LatencySnapshot
empty_latency = record { p50_ns = no_latency; p75_ns = no_latency; p99_ns = no_latency }

-- `Stats::Snapshot`
pub record StatsSnapshot : Type 0 where
  pub sent_bytes : ℕ
  pub recv_bytes : ℕ
  pub sent_messages : ℕ
  pub recv_messages : ℕ
  pub latency : LatencySnapshot

pub record LatencyDetailSnapshot (Double : Type 0) : Type 0 where
  pub count : ℕ
  pub min_ns : ℕ
  pub max_ns : ℕ
  pub p90_ns : ℕ
  pub p95_ns : ℕ
  pub p99_ns : ℕ
  pub p999_ns : ℕ
  pub mean_ns : Double
  pub stddev_ns : Double
  pub bucket_counts : List ℕ

pub record StreamMetricSnapshot (Double : Type 0) : Type 0 where
  pub sent_messages : ℕ
  pub echoed_messages : ℕ
  pub sent_bytes : ℕ
  pub echoed_bytes : ℕ
  pub latency : LatencySnapshot
  pub latency_detail : LatencyDetailSnapshot Double

-- `counts[i] += 1`, where there is an `i`-th one
abbrev pub increment : List ℕ → ℕ → List ℕ
increment [] i = []
increment (n ∷ counts) zero = suc n ∷ counts
increment (n ∷ counts) (suc i) = n ∷ increment counts i

abbrev pub zero_buckets : List ℕ
zero_buckets = 0 ∷ 0 ∷ 0 ∷ 0 ∷ 0 ∷ 0 ∷ 0 ∷ []

module _ (F : Float64) where
  open F use {Double, of_uint, literal, add, sub, mul, div, sqrt, to_uint, less_eq}

  -- The index that a percentile takes: the scaled position, rounded, and held to the last one.
  unfoldable pub percentile_index : ℕ → Double → ℕ
  percentile_index size percentile =
      min (to_uint (add (mul percentile (of_uint (size - 1))) (literal 5 10))) (size - 1)

  unfoldable pub percentile_value : List ℕ → Double → ℕ
  unfolding percentile_index
  percentile_value [] percentile = no_latency
  percentile_value (x ∷ xs) percentile =
      at_index (x ∷ xs) (percentile_index (length (x ∷ xs)) percentile)

  unfoldable pub build_latency_snapshot : List ℕ → LatencySnapshot
  unfolding percentile_value sort
  build_latency_snapshot [] = empty_latency
  build_latency_snapshot (x ∷ xs) =
      let samples = sort (x ∷ xs) in
      record {
        p50_ns = percentile_value samples (literal 50 100);
        p75_ns = percentile_value samples (literal 75 100);
        p99_ns = percentile_value samples (literal 99 100);
      }

  -- `SnapshotNow`: the counters are read one by one, here all at the same time
  unfoldable pub snapshot_now : Stats → StatsSnapshot
  unfolding build_latency_snapshot
  snapshot_now s = record {
    sent_bytes = s.sent_bytes;
    recv_bytes = s.recv_bytes;
    sent_messages = s.sent_messages;
    recv_messages = s.recv_messages;
    latency = build_latency_snapshot s.latency_samples;
  }

  -- The bucket of a sample, by its milliseconds: at most 0.5, 1, 2, 5, 10, 50, or more.
  unfoldable pub bucket_of : ℕ → ℕ
  bucket_of sample =
      let ms = div (of_uint sample) (literal 1000000 1) in
      if less_eq ms (literal 5 10)
      then 0
      else if less_eq ms (literal 1 1)
      then 1
      else if less_eq ms (literal 2 1)
      then 2
      else if less_eq ms (literal 5 1)
      then 3
      else if less_eq ms (literal 10 1)
      then 4
      else if less_eq ms (literal 50 1)
      then 5
      else 6

  -- `bucket_counts[i] += 1` for each sample
  unfoldable pub count_buckets : List ℕ → List ℕ → List ℕ
  unfolding bucket_of
  count_buckets [] counts = counts
  count_buckets (sample ∷ samples) counts =
      count_buckets samples (increment counts (bucket_of sample))

  -- `sum += sample`, and `variance_sum += delta * delta`
  unfoldable pub sum_samples : List ℕ → Double → Double
  sum_samples [] sum = sum
  sum_samples (sample ∷ samples) sum = sum_samples samples (add sum (of_uint sample))

  unfoldable pub sum_squares : List ℕ → Double → Double → Double
  sum_squares [] mean sum = sum
  sum_squares (sample ∷ samples) mean sum =
      let delta = sub (of_uint sample) mean in sum_squares samples mean (add sum (mul delta delta))

  abbrev pub empty_detail : LatencyDetailSnapshot Double
  empty_detail = record {
    count = 0;
    min_ns = no_latency;
    max_ns = no_latency;
    p90_ns = no_latency;
    p95_ns = no_latency;
    p99_ns = no_latency;
    p999_ns = no_latency;
    mean_ns = literal 0 1;
    stddev_ns = literal 0 1;
    bucket_counts = zero_buckets;
  }

  unfoldable pub latency_detail : List ℕ → LatencyDetailSnapshot Double
  unfolding percentile_value sort count_buckets sum_samples sum_squares
  latency_detail [] = empty_detail
  latency_detail (x ∷ xs) =
      let samples = sort (x ∷ xs) in
      let size = of_uint (length samples) in
      let mean = div (sum_samples samples (literal 0 1)) size in
      record {
        count = length samples;
        min_ns = at_index samples 0;
        max_ns = at_index samples (length samples - 1);
        p90_ns = percentile_value samples (literal 90 100);
        p95_ns = percentile_value samples (literal 95 100);
        p99_ns = percentile_value samples (literal 99 100);
        p999_ns = percentile_value samples (literal 999 1000);
        mean_ns = mean;
        stddev_ns = sqrt (div (sum_squares samples mean (literal 0 1)) size);
        bucket_counts = count_buckets samples zero_buckets;
      }

  -- `StreamMetrics::Snapshot`
  unfoldable pub snapshot : StreamMetrics → StreamMetricSnapshot Double
  unfolding build_latency_snapshot latency_detail
  snapshot m = record {
    sent_messages = m.sent_messages;
    echoed_messages = m.echoed_messages;
    sent_bytes = m.sent_bytes;
    echoed_bytes = m.echoed_bytes;
    latency = build_latency_snapshot m.latency_samples;
    latency_detail = latency_detail m.latency_samples;
  }
