-- ===== src/QuicClient.antt =====
-- `Client`: the QUIC client of src/main.cpp, its connections' states and what its handlers ask of
-- MsQuic. MsQuic is outside: whether its calls succeed are parameters.
pub mod Send
pub mod Events
pub mod Window
pub mod Run
pub mod Active
pub mod Handlers
pub mod Counted
pub mod Lifecycle
use proto_test_msquic.Prelude.{
  ℕ, zero, suc, ◌+◌, Bool, true, false, ◌||◌, ◌&&◌, not, List, [], ◌∷◌, ◌++◌, Option, none, some,
  ltb, ◌==◌, if◌then◌else◌, get_elem?, set,
}
use proto_test_msquic.Prelude.Float.{Float64}
use proto_test_msquic.Config.Profiles.{StreamProfile}
use proto_test_msquic.Config.Load.{AppConfig}
use proto_test_msquic.Config.Load.Active.{active_send_connection_count}
use proto_test_msquic.Frame.{Bytes}
use proto_test_msquic.Stats.{Stats, StreamMetrics}
use proto_test_msquic.LoadClient.Pacing.{
  PacingMode, unlimited, total_pps, per_client_pps, determine_pacing_mode, zero_ns, second_ns,
}

-- `StreamContext`; its `ordinal` is its place in the connection's list.
pub record StreamContext (Double : Type 0) : Type 0 where
  pub profile : StreamProfile
  pub receive_buffer : Bytes
  pub next_sequence : ℕ
  pub echoed_messages : ℕ
  pub next_send_time_ns : Double
  pub stream_started : Bool
  pub shutdown_started : Bool
  pub closed : Bool

-- `ConnectionContext`; `has_connection` is `connection != nullptr`.
pub record ConnectionContext (Double : Type 0) : Type 0 where
  pub index : ℕ
  pub has_connection : Bool
  pub stream_contexts : List (StreamContext Double)
  pub next_send_time_ns : Double
  pub next_send_stream_ordinal : ℕ
  pub connected : Bool
  pub closed : Bool

-- The calls of MsQuic, in order. A stream is named by its ordinal; `connection_shutdown` carries
-- the error code.
pub data ClientCall : Type 0 where
  stream_send : ℕ → Bytes → ClientCall
  stream_shutdown stream_close : ℕ → ClientCall
  connection_shutdown : ℕ → ClientCall
  connection_close : ClientCall

-- A connection with what its handlers share with the others.
pub record QuicClient (Double : Type 0) : Type 0 where
  pub connection : ConnectionContext Double
  pub stats : Stats
  pub stream_metrics : List StreamMetrics
  pub stop_sending : Bool
  pub active_connections : ℕ
  pub clock_reads : ℕ
  pub calls : List ClientCall
  -- an index outside `stream_metrics_` was used
  pub undefined : Bool

abbrev pub call : {D : Type 0} → ClientCall → QuicClient D → QuicClient D
call c s = record s { calls = s.calls ++ c ∷ [] }

unfoldable pub set_streams : {D : Type 0} → List (StreamContext D) → QuicClient D → QuicClient D
set_streams streams s = record s {
  connection = record (s.connection) { stream_contexts = streams };
}

-- `stream_contexts[ordinal] = ...`
unfoldable pub set_stream : {D : Type 0} → ℕ → StreamContext D → QuicClient D → QuicClient D
unfolding set_streams
set_stream ordinal stream s = set_streams (set s.connection.stream_contexts ordinal stream) s

module _ {D : Type 0} where
  -- `AllStreamsDrained`, which passes over the streams that are closed
  unfoldable pub streams_drained : List (StreamContext D) → Bool
  streams_drained [] = true
  streams_drained (stream ∷ streams) =
      let rest = streams_drained streams in
      if not stream.closed && not (stream.next_sequence == stream.echoed_messages)
      then false
      else rest

  -- `AllStreamsClosed`
  unfoldable pub streams_closed : List (StreamContext D) → Bool
  streams_closed [] = true
  streams_closed (stream ∷ streams) =
      let rest = streams_closed streams in if stream.closed then rest else false

module _ (F : Float64) where
  -- A total rate is shared evenly by the connections that send, each of which has its own pace.
  unfoldable pub interval_of_mode : AppConfig → ℕ → PacingMode → F.Double
  interval_of_mode config active unlimited = zero_ns F
  interval_of_mode config active total_pps =
      if config.send_pps == 0 || active == 0
      then zero_ns F
      else F.div (F.mul (second_ns F) (F.of_uint active)) (F.of_uint config.send_pps)
  interval_of_mode config active per_client_pps =
      if config.send_pps_per_client == 0 || active == 0
      then zero_ns F
      else F.div (second_ns F) (F.of_uint config.send_pps_per_client)

  unfoldable pub pacing_interval_ns : AppConfig → F.Double
  unfolding interval_of_mode
  pacing_interval_ns config =
      interval_of_mode config (active_send_connection_count config) (determine_pacing_mode config)
