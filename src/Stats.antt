-- ===== src/Stats.antt =====
-- `Stats` and `StreamMetrics`: the counters, atomic 64-bit words that wrap, and the latencies.
pub mod Percentile
use proto_test_msquic.Prelude.{ℕ, ◌+◌, ◌-◌, ◌%◌, ◌^◌, ◌≡◌, List, [], ◌∷◌, ◌++◌, arith}

abbrev pub u64_mod : ℕ
u64_mod = 2 ^ 64

abbrev pub add64 : ℕ → ℕ → ℕ
add64 a b = (a + b) % u64_mod

abbrev pub sub64 : ℕ → ℕ → ℕ
sub64 a b = (a + u64_mod - b) % u64_mod

pub record Stats : Type 0 where
  pub sent_bytes : ℕ
  pub recv_bytes : ℕ
  pub sent_messages : ℕ
  pub recv_messages : ℕ
  pub latency_samples : List ℕ

unfoldable pub add_sent : Stats → ℕ → Stats
add_sent s bytes = record s {
  sent_bytes = add64 s.sent_bytes bytes;
  sent_messages = add64 s.sent_messages 1;
}

unfoldable pub add_received : Stats → ℕ → Stats
add_received s bytes = record s {
  recv_bytes = add64 s.recv_bytes bytes;
  recv_messages = add64 s.recv_messages 1;
}

unfoldable pub add_latency_ns : Stats → ℕ → Stats
add_latency_ns s latency_ns = record s { latency_samples = s.latency_samples ++ latency_ns ∷ [] }

-- A call by which a thread writes the counters or the latencies.
pub data StatsCall : Type 0 where
  sent : ℕ → StatsCall
  received : ℕ → StatsCall
  latency : ℕ → StatsCall

unfoldable pub record_call : StatsCall → Stats → Stats
unfolding add_sent add_received add_latency_ns
record_call (sent bytes) s = add_sent s bytes
record_call (received bytes) s = add_received s bytes
record_call (latency ns) s = add_latency_ns s ns

-- The calls in the order in which they take effect.
unfoldable pub record_calls : List StatsCall → Stats → Stats
unfolding record_call
record_calls [] s = s
record_calls (c ∷ cs) s = record_calls cs (record_call c s)

pub record StreamMetrics : Type 0 where
  pub sent_messages : ℕ
  pub echoed_messages : ℕ
  pub sent_bytes : ℕ
  pub echoed_bytes : ℕ
  pub latency_samples : List ℕ

-- `StreamMetrics::AddSent` and `StreamMetrics::AddReceived`
unfoldable pub add_stream_sent : StreamMetrics → ℕ → StreamMetrics
add_stream_sent m bytes = record m {
  sent_bytes = add64 m.sent_bytes bytes;
  sent_messages = add64 m.sent_messages 1;
}

unfoldable pub add_stream_received : StreamMetrics → ℕ → ℕ → StreamMetrics
add_stream_received m bytes latency_ns = record m {
  echoed_bytes = add64 m.echoed_bytes bytes;
  echoed_messages = add64 m.echoed_messages 1;
  latency_samples = m.latency_samples ++ latency_ns ∷ [];
}
