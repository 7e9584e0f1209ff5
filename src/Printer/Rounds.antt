-- ===== src/Printer/Rounds.antt =====
-- The lines that `StatsPrinter` prints, against the calls that were made between them.
use proto_test_msquic.Prelude.{
  ℕ, ◌%◌, ◌^◌, ◌<◌, ◌≡◌, refl, sym, ap, ◌∙◌, inl, inr, Bool-cases, List, [], ◌∷◌, ◌++◌, tally,
  append-nil, append_assoc, if◌then◌else◌, arith,
}
use proto_test_msquic.Prelude.Float.{Float64}
use proto_test_msquic.Config.Text.{Text}
use proto_test_msquic.Stats.{
  Stats, add64, sub64, add_sent, add_received, add_latency_ns, StatsCall, sent, received, latency,
  record_call, record_calls,
}
use proto_test_msquic.Stats.Percentile.{LatencySnapshot, snapshot_now, build_latency_snapshot}
use proto_test_msquic.Printer.{
  PrinterTurn, PrinterRun, format_line, elapsed_seconds, start_printer, print_round, print_rounds,
}

-- What a call adds to the bytes sent, the bytes received and the messages received.
abbrev pub bytes_sent : StatsCall → ℕ
bytes_sent (sent bytes) = bytes
bytes_sent (received bytes) = 0
bytes_sent (latency ns) = 0

abbrev pub bytes_received : StatsCall → ℕ
bytes_received (sent bytes) = 0
bytes_received (received bytes) = bytes
bytes_received (latency ns) = 0

abbrev pub messages_received : StatsCall → ℕ
messages_received (sent bytes) = 0
messages_received (received bytes) = 1
messages_received (latency ns) = 0

-- The counters are 64-bit words.
pub record IsWord (s : Stats) : Type 0 where
  pub sent_bytes_fits : s.sent_bytes < 2 ^ 64
  pub recv_bytes_fits : s.recv_bytes < 2 ^ 64
  pub recv_messages_fits : s.recv_messages < 2 ^ 64

record_call-IsWord : (c : StatsCall) (s : Stats) → IsWord s → IsWord (record_call c s)
unfolding record_call
record_call-IsWord (sent b) s v = record {
  sent_bytes_fits = omega arith;
  recv_bytes_fits = v.recv_bytes_fits;
  recv_messages_fits = v.recv_messages_fits;
}
record_call-IsWord (received b) s v = record {
  sent_bytes_fits = v.sent_bytes_fits;
  recv_bytes_fits = omega arith;
  recv_messages_fits = omega arith;
}
record_call-IsWord (latency ns) s v = record {
  sent_bytes_fits = v.sent_bytes_fits;
  recv_bytes_fits = v.recv_bytes_fits;
  recv_messages_fits = v.recv_messages_fits;
}

record_calls-IsWord : (cs : List StatsCall) (s : Stats) → IsWord s → IsWord (record_calls cs s)
unfolding record_calls
record_calls-IsWord [] s v = v
record_calls-IsWord (c ∷ cs) s v = record_calls-IsWord cs _ (record_call-IsWord c s v)

-- The counters of `t` are those of `s` and what the calls add.
abbrev Counts : List StatsCall → Stats → Stats → Type 0
Counts cs s t =
    (t.sent_bytes ≡ add64 s.sent_bytes (tally bytes_sent cs))
    × (t.recv_bytes ≡ add64 s.recv_bytes (tally bytes_received cs))
    × (t.recv_messages ≡ add64 s.recv_messages (tally messages_received cs))

after_call :
    (c : StatsCall) (cs : List StatsCall) (s t : Stats)
    → Counts cs (record_call c s) t
    → Counts (c ∷ cs) s t
unfolding record_call add_sent add_received add_latency_ns
after_call (sent b) cs s t v = omega arith
after_call (received b) cs s t v = omega arith
after_call (latency ns) cs s t v = omega arith

-- A counter after calls, modulo 2^64.
record_calls-Counts : (cs : List StatsCall) (s : Stats) → IsWord s → Counts cs s (record_calls cs s)
unfolding record_calls record_call add_sent add_received add_latency_ns
record_calls-Counts [] s v = (
  omega (arith, v.sent_bytes_fits),
  omega (arith, v.recv_bytes_fits),
  omega (arith, v.recv_messages_fits),
)
record_calls-Counts (c ∷ cs) s v =
    after_call c cs s (record_calls cs (record_call c s))
      (record_calls-Counts cs (record_call c s) (record_call-IsWord c s v))

-- A difference of two readings of a counter is what was added between them.
read_again : (b a n : ℕ) → a < 2 ^ 64 → b ≡ add64 a n → sub64 b a ≡ n % 2 ^ 64
read_again b a n h e = omega arith

module _ (F : Float64) (fixed : F.Double → ℕ → Text) (name : Text) where
  -- The lines of the rounds, each made of what was recorded in its round, modulo 2^64.
  unfoldable pub lines : ℕ → Stats → List PrinterTurn → List Text
  lines time s [] = []
  lines time s (turn ∷ turns) =
      let cs = turn.calls in
      let t = record_calls cs s in
      let line =
        format_line F fixed name (tally bytes_sent cs % 2 ^ 64) (tally bytes_received cs % 2 ^ 64)
          (tally messages_received cs % 2 ^ 64) (elapsed_seconds F fixed turn.now_ns time)
          (build_latency_snapshot F t.latency_samples) in
      let rest = lines turn.now_ns t turns in if turn.stop_requested then [] else line ∷ rest

  -- The printer has read the statistics as they are.
  abbrev IsCurrent : ℕ → PrinterRun F fixed → Type 0
  IsCurrent time p = (p.previous ≡ snapshot_now F p.stats) × (p.previous_time ≡ time)

  line_eq :
      (seconds : F.Double) (latencies : LatencySnapshot) {a b c i j k : ℕ}
      → a ≡ i
      → b ≡ j
      → c ≡ k
      → format_line F fixed name a b c seconds latencies
        ≡ format_line F fixed name i j k seconds latencies
  line_eq seconds latencies e f g = rw (e, f, g)

  print_round-lines :
      (turn : PrinterTurn) (time : ℕ) (p : PrinterRun F fixed)
      → IsWord p.stats
      → IsCurrent time p
      → (print_round F fixed name turn.calls turn.now_ns p).output
        ≡ p.output
          ++ format_line F fixed name
              (tally bytes_sent turn.calls % 2 ^ 64)
              (tally bytes_received turn.calls % 2 ^ 64)
              (tally messages_received turn.calls % 2 ^ 64)
              (elapsed_seconds F fixed turn.now_ns time)
              (build_latency_snapshot F (record_calls turn.calls p.stats).latency_samples)
            ∷ []
  unfolding print_round snapshot_now
  print_round-lines turn time p v c =
      let n = record_calls-Counts turn.calls p.stats v in
      let t = record_calls turn.calls p.stats in
      rw (c.0, c.1)
        (ap (λ l. p.output ++ l ∷ [])
          (line_eq _ _ (read_again t.sent_bytes p.stats.sent_bytes _ v.sent_bytes_fits n.0)
            (read_again t.recv_bytes p.stats.recv_bytes _ v.recv_bytes_fits n.1)
            (read_again t.recv_messages p.stats.recv_messages _ v.recv_messages_fits n.2)))

  after_round :
      (turn : PrinterTurn) (p : PrinterRun F fixed)
      → IsWord p.stats
      → IsWord (print_round F fixed name turn.calls turn.now_ns p).stats
  unfolding print_round
  after_round turn p v = record_calls-IsWord turn.calls p.stats v

  round-IsCurrent :
      (turn : PrinterTurn) (p : PrinterRun F fixed)
      → IsCurrent turn.now_ns (print_round F fixed name turn.calls turn.now_ns p)
  unfolding print_round
  round-IsCurrent turn p = (refl, refl)

  stats-print_round :
      (turn : PrinterTurn) (p : PrinterRun F fixed)
      → (print_round F fixed name turn.calls turn.now_ns p).stats ≡ record_calls turn.calls p.stats
  unfolding print_round
  stats-print_round turn p = refl

  print_rounds-lines :
      (turns : List PrinterTurn) (time : ℕ) (p : PrinterRun F fixed)
      → IsWord p.stats
      → IsCurrent time p
      → (print_rounds F fixed name turns p).output ≡ p.output ++ lines time p.stats turns
  unfolding print_rounds lines
  print_rounds-lines [] time p v c = sym (append-nil p.output)
  print_rounds-lines (turn ∷ turns) time p v c =
      let q = print_round F fixed name turn.calls turn.now_ns p in
      elim (Bool-cases turn.stop_requested) [
        | inl e ↦ rw e (sym (append-nil p.output))
        | inr e ↦ rw e (
            print_rounds-lines turns turn.now_ns q (after_round turn p v) (round-IsCurrent turn p)
            ∙ rw (stats-print_round turn p, print_round-lines turn time p v c)
                (append_assoc p.output _ _))
      ]

  -- Where the counters are 64-bit words at the start, the lines that StatsPrinter prints until it
  -- is stopped are those of its rounds: each gives the rates of the bytes and messages that other
  -- threads recorded since the line before, modulo 2^64, over the time since then, and the
  -- latencies of all samples up to then.
  pub start_printer-lines :
      (turns : List PrinterTurn) (s : Stats) (time : ℕ)
      → IsWord s
      → (print_rounds F fixed name turns (start_printer F fixed s time)).output ≡ lines time s turns
  unfolding start_printer
  start_printer-lines turns s time v =
      print_rounds-lines turns time (start_printer F fixed s time) v (refl, refl)
