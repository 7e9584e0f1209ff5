-- ===== src/LoadClient.antt =====
-- `LoadClientController`: the client behind the SCTP transport, its streams and its state.
-- The pacing doubles are those of a `Float64`, and `clock k` is the k-th value that `NowNs` returns.
pub mod Wire
pub mod Profile
pub mod Message
pub mod Pacing
pub mod Receive
pub mod Pump
pub mod Sending
pub mod Control
use proto_test_msquic.Prelude.{
  ℕ, ◌+◌, ◌-◌, ◌%◌, ◌^◌, Bool, true, false, List, [], ◌∷◌, ◌++◌, Option, none, some, Map, get_elem?,
  set, ltb, if◌then◌else◌,
}
use proto_test_msquic.Config.Text.{Text}
use proto_test_msquic.Config.Profiles.{StreamProfile}
use proto_test_msquic.Config.Load.{AppConfig}
use proto_test_msquic.Frame.{Bytes}
use proto_test_msquic.Stats.{Stats, StreamMetrics, sub64}

-- `LoadClientStreamState`
pub record ClientStream (Double : Type 0) : Type 0 where
  pub profile : StreamProfile
  pub receive_buffer : Bytes
  pub next_sequence : ℕ
  pub echoed_messages : ℕ
  pub next_send_time_ns : Double

-- `LoadClientConnectionState`; `has_connection` is `connection != nullptr`.
pub record ClientConnection (Double : Type 0) : Type 0 where
  pub has_connection : Bool
  pub streams : Map (ClientStream Double)
  pub next_send_time_ns : Double
  pub next_send_stream_ordinal : ℕ
  pub connected : Bool
  pub send_closed : Bool

-- What the controller asks of a connection, in order.
pub data Action : Type 0 where
  send_copy : ℕ → ℕ → Bytes → Action
  close_send : ℕ → Action
  close : ℕ → Action

pub record Client (Double : Type 0) : Type 0 where
  pub states : Map (ClientConnection Double)
  pub closed_connections : List ℕ
  pub stats : Stats
  pub stream_metrics : List StreamMetrics
  pub stop_sending : Bool
  pub global_next_send_time_ns : Double
  pub next_paced_connection_index : ℕ
  pub clock_reads : ℕ
  pub actions : List Action
  -- an index outside `stream_metrics_` was used: the program's behaviour is undefined from there on
  pub undefined : Bool

-- What leaves a callback by a throw.
pub data ClientError : Type 0 where
  profile_out_of_range : ClientError
  bad_frame : ClientError
  send_failed : ClientError

-- A `StreamProfile` that nothing has set: the defaults of its fields.
abbrev pub unset_profile : StreamProfile
unset_profile = record { name = []; message_size = 1024; max_inflight = 64; send_pps = 0 }

-- `stream_metrics_[i].f(...)` at an index that may lie outside.
abbrev pub with_metrics :
    (StreamMetrics → StreamMetrics) → List StreamMetrics → ℕ → List StreamMetrics × Bool
with_metrics f ms i = elim (get_elem? ms i) [ none ↦ (ms, true) | some m ↦ (set ms i (f m), false) ]

-- `stream_id - config_.sctp_stream_id` as an index: an int, which wraps to a huge one if negative.
unfoldable pub metrics_index : AppConfig → ℕ → ℕ
metrics_index config stream_id = sub64 stream_id config.sctp_stream_id

-- `StreamIdFromOrdinal`, a uint16_t
unfoldable pub stream_id_from_ordinal : AppConfig → ℕ → ℕ
stream_id_from_ordinal config ordinal = (config.sctp_stream_id + ordinal) % 2 ^ 16
