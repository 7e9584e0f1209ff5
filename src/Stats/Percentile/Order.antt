-- ===== src/Stats/Percentile/Order.antt =====
-- The percentiles are samples, in order; the buckets count every sample once.
use mathlib.Core.List.{Mem, mem-cons_self, mem-cons_of_mem}
use mathlib.Core.List.Perm
use proto_test_msquic.Prelude.{
  ℕ, zero, suc, ◌+◌, ◌-◌, ◌^◌, ◌≤◌, ◌<◌, ◌≡◌, refl, ◌∙◌, true, List, [], ◌∷◌, length, arith,
}
use proto_test_msquic.Prelude.Float.{Float64, Between, IsMonotone}
use proto_test_msquic.Stats.Percentile.{
  sort, at_index, percentile_index, percentile_value, build_latency_snapshot, increment, bucket_of,
  count_buckets, zero_buckets, latency_detail,
}
use proto_test_msquic.Stats.Percentile.Sorted.{
  IsAscending, sort-IsAscending, length-sort, sort-perm, at_index_mono,
}

at_index-mem : (xs : List ℕ) (i : ℕ) → i < length xs → Mem (at_index xs i) xs
at_index-mem [] i h = absurd (omega arith)
at_index-mem (x ∷ xs) zero h = mem-cons_self
at_index-mem (x ∷ xs) (suc i) h = mem-cons_of_mem _ (at_index-mem xs i (omega arith))

abbrev pub total : List ℕ → ℕ
total [] = 0
total (n ∷ ns) = n + total ns

total-increment :
    (counts : List ℕ) (i : ℕ) → i < length counts → total (increment counts i) ≡ suc (total counts)
total-increment [] i h = absurd (omega arith)
total-increment (n ∷ counts) zero h = omega arith
total-increment (n ∷ counts) (suc i) h = omega (arith, total-increment counts i (omega arith))

length-increment : (counts : List ℕ) (i : ℕ) → length (increment counts i) ≡ length counts
length-increment [] i = refl
length-increment (n ∷ counts) zero = refl
length-increment (n ∷ counts) (suc i) = omega (arith, length-increment counts i)

module _ (F : Float64) where
  open F use {Double, literal, less_eq}

  percentile_index-lt : (size : ℕ) (p : Double) → 0 < size → percentile_index F size p < size
  unfolding percentile_index
  percentile_index-lt size p h = omega arith

  -- The percentile of a list that is not empty is one of its items, whatever the rounding does: the
  -- index is never out of range.
  percentile_value-eq :
      (xs : List ℕ) (p : Double)
      → 0 < length xs
      → percentile_value F xs p ≡ at_index xs (percentile_index F (length xs) p)
  unfolding percentile_value
  percentile_value-eq [] p h = absurd (omega arith)
  percentile_value-eq (x ∷ xs) p h = refl

  pub percentile_value-mem :
      (xs : List ℕ) (p : Double) → 0 < length xs → Mem (percentile_value F (sort xs) p) xs
  percentile_value-mem xs p h =
      rw (percentile_value-eq (sort xs) p (omega (arith, length-sort xs))) (
        (Perm.mem_iff (sort-perm xs)).0 (
          at_index-mem (sort xs) _
            (percentile_index-lt (length (sort xs)) p (omega (arith, length-sort xs)))))

  bucket_of-lt : (sample : ℕ) → bucket_of F sample < 7
  unfolding bucket_of
  bucket_of-lt sample = ground arith

  count_buckets-total :
      (samples counts : List ℕ)
      → length counts ≡ 7
      → total (count_buckets F samples counts) ≡ length samples + total counts
  unfolding count_buckets
  count_buckets-total [] counts h = omega arith
  count_buckets-total (s ∷ samples) counts h = omega (
    arith,
    count_buckets-total samples (increment counts (bucket_of F s))
        (omega (arith, length-increment counts (bucket_of F s))),
    total-increment counts (bucket_of F s) (omega (arith, bucket_of-lt s)),
  )

module _ (F : Float64) (m : IsMonotone F) where
  open F use {Double, literal, less_eq}

  percentile_index_mono :
      (size : ℕ) (p q : Double)
      → size ≤ 2 ^ 53
      → 0 < size
      → Between F 1 p
      → Between F 1 q
      → less_eq p q ≡ true
      → percentile_index F size p ≤ percentile_index F size q
  unfolding percentile_index
  percentile_index_mono size p q small pos u v h =
      let k : size - 1 < 2 ^ 53 = omega arith in
      let below = m.mul_bounded p (size - 1) k u in
      let above = m.mul_bounded q (size - 1) k v in
      let half = m.half_unit in
      let ordered =
        m.to_uint_mono _ _ (size - 1 + 1) (omega arith)
          (m.add_bounded _ (literal 5 10) (size - 1) k below half)
          (m.add_bounded _ (literal 5 10) (size - 1) k above half)
          (m.add_mono _ _ (literal 5 10) (size - 1) k below above half
            (m.mul_mono p q (size - 1) k u v h)) in
      omega arith

  percentile_value_mono :
      (xs : List ℕ) (p q : Double)
      → length xs ≤ 2 ^ 53
      → 0 < length xs
      → IsAscending xs
      → Between F 1 p
      → Between F 1 q
      → less_eq p q ≡ true
      → percentile_value F xs p ≤ percentile_value F xs q
  percentile_value_mono xs p q small n v a b h =
      rw (percentile_value-eq F xs p n, percentile_value-eq F xs q n)
        (at_index_mono xs _ _ v (percentile_index_mono (length xs) p q small n a b h)
          (percentile_index-lt F (length xs) q n))

  -- Of a list of latencies that is not empty and has at most 2^53 samples, each of the three
  -- percentiles is one of the samples, and none is below the one before it, where the doubles'
  -- operations keep the order and the bounds of the numbers between 0 and 2^53.
  pub latency_snapshot_ordered :
      (samples : List ℕ)
      → 0 < length samples
      → length samples ≤ 2 ^ 53
      → let r = build_latency_snapshot F samples in
        (r.p50_ns ≤ r.p75_ns)
        × (r.p75_ns ≤ r.p99_ns)
        × Mem r.p50_ns samples
        × Mem r.p75_ns samples
        × Mem r.p99_ns samples
  unfolding build_latency_snapshot
  latency_snapshot_ordered [] n small = absurd (omega arith)
  latency_snapshot_ordered (x ∷ xs) n small =
      let samples = sort (x ∷ xs) in
      let pos : 0 < length samples = omega (arith, length-sort (x ∷ xs)) in
      let few : length samples ≤ 2 ^ 53 = omega (arith, length-sort (x ∷ xs)) in
      (
        percentile_value_mono samples _ _ few pos (sort-IsAscending (x ∷ xs)) m.p50_unit m.p75_unit
            m.p50_le_p75,
        percentile_value_mono samples _ _ few pos (sort-IsAscending (x ∷ xs)) m.p75_unit m.p99_unit
            m.p75_le_p99,
        percentile_value-mem F (x ∷ xs) _ n,
        percentile_value-mem F (x ∷ xs) _ n,
        percentile_value-mem F (x ∷ xs) _ n,
      )

-- The seven buckets of a stream's latencies add up to the number of samples, and so does the
-- count.
pub latency_detail_counts :
    (F : Float64) (samples : List ℕ)
    → let r = latency_detail F samples in
      (total r.bucket_counts ≡ length samples) × (r.count ≡ length samples)
unfolding latency_detail
latency_detail_counts F [] = (refl, refl)
latency_detail_counts F (x ∷ xs) = (
  count_buckets-total F (sort (x ∷ xs)) zero_buckets refl ∙ omega (arith, length-sort (x ∷ xs)),
  length-sort (x ∷ xs),
)
