-- ===== src/Printer.antt =====
-- `StatsPrinter` and the format functions. Each printed line is a text; `fixed` is the library's
-- `std::fixed << std::setprecision(digits)`.
pub mod Rounds
pub mod Summary
use proto_test_msquic.Prelude.{
  ℕ, Bool, true, false, List, [], ◌∷◌, ◌++◌, concat, ◌==◌, if◌then◌else◌,
}
use proto_test_msquic.Prelude.Float.{Float64}
use proto_test_msquic.Config.Text.{Text, codes}
use proto_test_msquic.Config.Number.{to_string}
use proto_test_msquic.Stats.{Stats, sub64, StatsCall, record_calls}
use proto_test_msquic.Stats.Percentile.{
  no_latency, LatencySnapshot, LatencyDetailSnapshot, StatsSnapshot, snapshot_now,
}

-- A round of the loop: its test, then the sleep, in which other threads write the statistics, and
-- the time after it.
pub record PrinterTurn : Type 0 where
  pub stop_requested : Bool
  pub calls : List StatsCall
  pub now_ns : ℕ

module _ (F : Float64) (fixed : F.Double → ℕ → Text) where
  unfoldable pub format_rate_mbps : ℕ → F.Double → Text
  format_rate_mbps bytes seconds =
      if F.less_eq seconds (F.literal 0 1)
      then codes "0.00"
      else let bits = F.mul (F.of_uint bytes) (F.literal 8 1) in
        fixed (F.div (F.div bits seconds) (F.literal 1000000 1)) 2

  unfoldable pub format_double : F.Double → ℕ → Text
  format_double value precision = fixed value precision

  unfoldable pub format_latency_ms : ℕ → Text
  format_latency_ms ns =
      if ns == no_latency then codes "n/a" else fixed (F.div (F.of_uint ns) (F.literal 1000000 1)) 3

  unfoldable pub format_latency_summary : LatencySnapshot → Text
  unfolding format_latency_ms
  format_latency_summary latency = concat (
      format_latency_ms latency.p50_ns
      ∷ codes "/"
      ∷ format_latency_ms latency.p75_ns
      ∷ codes "/"
      ∷ format_latency_ms latency.p99_ns
      ∷ [])

  -- The counts of the buckets, with commas between them.
  unfoldable pub format_buckets : List ℕ → Text
  unfolding to_string
  format_buckets [] = []
  format_buckets (n ∷ []) = to_string n
  format_buckets (n ∷ m ∷ ns) = to_string n ++ (codes "," ++ format_buckets (m ∷ ns))

  unfoldable pub format_latency_detail_summary : LatencyDetailSnapshot F.Double → Text
  unfolding to_string format_double format_latency_ms format_buckets
  format_latency_detail_summary latency =
      let million = F.literal 1000000 1 in
      concat (
        codes "count="
        ∷ to_string latency.count
        ∷ codes " mean_ms="
        ∷ format_double (F.div latency.mean_ns million) 3
        ∷ codes " stddev_ms="
        ∷ format_double (F.div latency.stddev_ns million) 3
        ∷ codes " min_ms="
        ∷ format_latency_ms latency.min_ns
        ∷ codes " p90_ms="
        ∷ format_latency_ms latency.p90_ns
        ∷ codes " p95_ms="
        ∷ format_latency_ms latency.p95_ns
        ∷ codes " p99_ms="
        ∷ format_latency_ms latency.p99_ns
        ∷ codes " p999_ms="
        ∷ format_latency_ms latency.p999_ns
        ∷ codes " max_ms="
        ∷ format_latency_ms latency.max_ns
        ∷ codes " buckets_ms[<=0.5,<=1,<=2,<=5,<=10,<=50,>50]="
        ∷ format_buckets latency.bucket_counts
        ∷ [])

  -- `std::chrono::duration<double>(now - previous_time).count()`
  unfoldable pub elapsed_seconds : ℕ → ℕ → F.Double
  elapsed_seconds now_ns previous_ns =
      F.div (F.of_uint (sub64 now_ns previous_ns)) (F.literal 1000000000 1)

  -- `static_cast<uint64_t>(messages / std::max(seconds, 0.001))`
  unfoldable pub message_rate : ℕ → F.Double → ℕ
  message_rate messages seconds =
      let least = F.literal 1 1000 in
      F.to_uint (F.div (F.of_uint messages) (if F.less seconds least then least else seconds))

  -- The line of a round, of the three differences, the seconds and the latencies.
  unfoldable pub format_line : Text → ℕ → ℕ → ℕ → F.Double → LatencySnapshot → Text
  unfolding format_rate_mbps message_rate to_string format_latency_summary
  format_line name sent_bytes recv_bytes recv_messages seconds latency = concat (
      codes "["
      ∷ name
      ∷ codes "] tx="
      ∷ format_rate_mbps sent_bytes seconds
      ∷ codes " Mbps rx="
      ∷ format_rate_mbps recv_bytes seconds
      ∷ codes " Mbps msg/s="
      ∷ to_string (message_rate recv_messages seconds)
      ∷ codes " latency_ms(p50/p75/p99)="
      ∷ format_latency_summary latency
      ∷ [])

  -- The locals of `Run`, the statistics that the printer reads, and what it has printed.
  pub record PrinterRun : Type 0 where
    pub stats : Stats
    pub previous : StatsSnapshot
    pub previous_time : ℕ
    pub output : List Text

  unfoldable pub start_printer : Stats → ℕ → PrinterRun
  start_printer stats now_ns = record {
    stats = stats;
    previous = snapshot_now F stats;
    previous_time = now_ns;
    output = [];
  }

  -- The body of the loop.
  unfoldable pub print_round : Text → List StatsCall → ℕ → PrinterRun → PrinterRun
  print_round name calls now_ns p =
      let stats = record_calls calls p.stats in
      let current = snapshot_now F stats in
      let line =
        format_line name (sub64 current.sent_bytes p.previous.sent_bytes)
          (sub64 current.recv_bytes p.previous.recv_bytes)
          (sub64 current.recv_messages p.previous.recv_messages)
          (elapsed_seconds now_ns p.previous_time) current.latency in
      record {
        stats = stats;
        previous = current;
        previous_time = now_ns;
        output = p.output ++ line ∷ [];
      }

  -- The loop, up to the round whose test fails.
  unfoldable pub print_rounds : Text → List PrinterTurn → PrinterRun → PrinterRun
  print_rounds name [] p = p
  print_rounds name (turn ∷ turns) p =
      let rest = print_rounds name turns (print_round name turn.calls turn.now_ns p) in
      if turn.stop_requested then p else rest
