-- ===== src/LoadClient/Pump.antt =====
-- `LoadClientController::PumpSends`: the frames that are chosen under the lock; LoadClient/Sending
-- has their sending.
-- An iteration of the chosen loops is a step on a `Pump`, which is what the lock protects of one
-- connection, the readings of the clock, and the local `sends`.
pub mod Bounds
pub mod Drained
pub mod Frames
pub mod Inflight
pub mod Kept
pub mod Stopping
use proto_test_msquic.Prelude.{
  ℕ, zero, suc, ◌+◌, ◌*◌, ◌%◌, ◌^◌, ◌≡◌, Bool, true, false, ◌&&◌, ◌||◌, not, List, [], ◌∷◌, ◌++◌,
  Option, none, some, length, Map, find, put, find_or, ltb, leb, ◌==◌, if◌then◌else◌,
}
use proto_test_msquic.Prelude.Float.{Float64}
use proto_test_msquic.Config.Load.{AppConfig, is_empty}
use proto_test_msquic.Config.Load.Active.{should_send_on_connection}
use proto_test_msquic.Frame.{Bytes}
use proto_test_msquic.Stats.{add64, add_sent, add_stream_sent, sub64}
use proto_test_msquic.LoadClient.{
  ClientStream, ClientConnection, Client, Action, send_copy, close_send, close, ClientError,
  profile_out_of_range, send_failed, unset_profile, with_metrics, metrics_index,
  stream_id_from_ordinal,
}
use proto_test_msquic.LoadClient.Profile.{stream_profile_for_ordinal}
use proto_test_msquic.LoadClient.Pacing.{
  determine_pacing_mode, is_per_client, pacing_interval_ns, pace, second_ns, zero_ns,
}
use proto_test_msquic.LoadClient.Message.{make_frame, restamp}

-- How an attempt on a stream went: a frame was pushed, `continue`, or a throw.
pub data Attempt : Type 0 where
  taken : Attempt
  passed : Attempt
  broken : ClientError → Attempt

-- How the outer loop went.
pub data PumpStop : Type 0 where
  finished : PumpStop
  failed : ClientError → PumpStop
  out_of_fuel : PumpStop

module _ (F : Float64) where
  pub record Pump : Type 0 where
    pub connection : ClientConnection F.Double
    pub clock_reads : ℕ
    pub sends : List (ℕ × Bytes)

  unfoldable pub new_stream : ClientStream F.Double
  new_stream = record {
    profile = unset_profile;
    receive_buffer = [];
    next_sequence = 0;
    echoed_messages = 0;
    next_send_time_ns = F.literal 0 1;
  }

  unfoldable pub new_connection : ClientConnection F.Double
  new_connection = record {
    has_connection = false;
    streams = [];
    next_send_time_ns = F.literal 0 1;
    next_send_stream_ordinal = 0;
    connected = false;
    send_closed = false;
  }

  -- `if (profile.name.empty()) { profile = StreamProfileForOrdinal(...) }`, which may throw.
  unfoldable pub with_profile :
      AppConfig → ℕ → ClientStream F.Double → Option (ClientStream F.Double)
  with_profile config ordinal stream =
      if is_empty stream.profile.name
      then elim (stream_profile_for_ordinal config ordinal) [
        | none ↦ none
        | some p ↦ some (record stream { profile = p })
      ]
      else some stream

  unfoldable pub inflight : ClientStream F.Double → ℕ
  inflight stream = sub64 stream.next_sequence stream.echoed_messages

  abbrev pub put_stream : ℕ → ClientStream F.Double → Pump → Pump
  put_stream stream_id stream p = record p {
    connection = record (p.connection) { streams = put stream_id stream p.connection.streams };
  }

  module _ (clock : ℕ → ℕ) (config : AppConfig) where
    -- The frame of a stream that may send: `sends.push_back` and the ordinal that comes next.
    unfoldable pub push_frame : ℕ → ClientStream F.Double → Pump → Pump
    push_frame ordinal stream p =
        let stream_id = stream_id_from_ordinal config ordinal in
        let after = record stream { next_sequence = add64 stream.next_sequence 1 } in
        record {
          connection = record (p.connection) {
            streams = put stream_id after p.connection.streams;
            next_send_stream_ordinal = (ordinal + 1) % 2 ^ 32 % config.stream_count;
          };
          clock_reads = p.clock_reads + 1;
          sends =
              p.sends
              ++ (
                stream_id,
                make_frame stream.profile.message_size stream.next_sequence (clock p.clock_reads),
              )
                ∷ [];
        }

    -- The gate of a stream with a rate of its own: whether to send, the stream, the clock.
    unfoldable pub pace_stream : ClientStream F.Double → ℕ → Bool × (ClientStream F.Double × ℕ)
    pace_stream stream reads =
        let interval = F.div (second_ns F) (F.of_uint stream.profile.send_pps) in
        let gate = pace F stream.next_send_time_ns interval (F.of_uint (clock reads)) in
        if ltb 0 stream.profile.send_pps
        then (gate.0, (record stream { next_send_time_ns = gate.1 }, reads + 1))
        else (true, (stream, reads))

    unfoldable pub attempt_profiled : ℕ → ClientStream F.Double → Pump → Pump × Attempt
    attempt_profiled ordinal stream p =
        let stream_id = stream_id_from_ordinal config ordinal in
        let g = pace_stream stream p.clock_reads in
        let q = record p { clock_reads = g.1.1 } in
        if leb stream.profile.max_inflight (inflight stream)
        then (put_stream stream_id stream p, passed)
        else if g.0
        then (push_frame ordinal g.1.0 q, taken)
        else (put_stream stream_id g.1.0 q, passed)

    -- The body of `for (attempt = 0; ...)`
    unfoldable pub attempt_stream : ℕ → Pump → Pump × Attempt
    attempt_stream ordinal p =
        let stream_id = stream_id_from_ordinal config ordinal in
        let stream = find_or stream_id new_stream p.connection.streams in
        elim (with_profile config ordinal stream) [
          | none ↦ (put_stream stream_id stream p, broken profile_out_of_range)
          | some known ↦ attempt_profiled ordinal known p
        ]

    -- The loop over the attempts: `left` of them, from `attempt` on; `first` is the ordinal that
    -- `next_send_stream_ordinal` holds, which only a frame that is taken moves.
    unfoldable pub select_stream : ℕ → ℕ → Pump → Pump × Attempt
    select_stream zero attempt p = (p, passed)
    select_stream (suc left) attempt p =
        let first = p.connection.next_send_stream_ordinal in
        let r = attempt_stream ((first + attempt) % 2 ^ 32 % config.stream_count) p in
        elim r.1 [ taken ↦ r | passed ↦ select_stream left (attempt + 1) r.0 | broken e ↦ r ]

    -- The gate of a connection with a rate of its own.
    unfoldable pub pace_connection : Pump → Bool × Pump
    pace_connection p =
        let gate =
          pace F p.connection.next_send_time_ns (pacing_interval_ns F config)
            (F.of_uint (clock p.clock_reads)) in
        if is_per_client (determine_pacing_mode config)
        then (
          gate.0,
          record p {
            connection = record (p.connection) { next_send_time_ns = gate.1 };
            clock_reads = p.clock_reads + 1;
          },
        )
        else (true, p)

    -- The outer loop: the connection's identifier, `max_messages` and `stop_sending_`.
    module _ (connection_id max_messages : ℕ) (stop_sending : Bool) where
      unfoldable pub pump_loop : ℕ → Pump → Pump × PumpStop
      pump_loop zero p = (p, out_of_fuel)
      pump_loop (suc fuel) p =
          let g = pace_connection p in
          let r = select_stream config.stream_count 0 g.1 in
          elim (should_send_on_connection config connection_id
            && (ltb (length p.sends) max_messages && not stop_sending)) [
              | false ↦ (p, finished)
              | true ↦ elim g.0 [
                | false ↦ (g.1, finished)
                | true ↦ elim r.1 [
                  | taken ↦ pump_loop fuel r.0
                  | passed ↦ (r.0, finished)
                  | broken e ↦ (r.0, failed e)
                ]
              ]
            ]
