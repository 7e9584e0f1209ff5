-- ===== src/LoadClient/Sending.antt =====
-- `LoadClientController::PumpSends`: what follows the choosing of frames, and the whole of it.
use proto_test_msquic.Prelude.{
  ℕ, zero, suc, ◌+◌, Bool, true, false, ◌&&◌, ◌||◌, not, List, [], ◌∷◌, ◌++◌, Option, none, some,
  length, Map, find, put, ◌==◌, if◌then◌else◌,
}
use proto_test_msquic.Prelude.Float.{Float64}
use proto_test_msquic.Config.Load.{AppConfig}
use proto_test_msquic.Frame.{Bytes}
use proto_test_msquic.Stats.{add_sent, add_stream_sent}
use proto_test_msquic.LoadClient.{
  ClientStream, ClientConnection, Client, send_copy, close_send, close, ClientError, send_failed,
  with_metrics, metrics_index, stream_id_from_ordinal,
}
use proto_test_msquic.LoadClient.Message.{restamp}
use proto_test_msquic.LoadClient.Pump.{Pump, PumpStop, finished, failed, out_of_fuel, pump_loop}

module _ (F : Float64) where
  -- `AllStreamsDrained`: `left` ordinals from `ordinal` on.
  unfoldable pub streams_drained : AppConfig → ℕ → ℕ → Map (ClientStream F.Double) → Bool
  streams_drained config zero ordinal streams = true
  streams_drained config (suc left) ordinal streams =
      let rest = streams_drained config left (ordinal + 1) streams in
      elim (find (stream_id_from_ordinal config ordinal) streams) [
        | none ↦ rest
        | some stream ↦ if stream.next_sequence == stream.echoed_messages then rest else false
      ]

  unfoldable pub all_streams_drained : AppConfig → ClientConnection F.Double → Bool
  unfolding streams_drained
  all_streams_drained config state = streams_drained config config.stream_count 0 state.streams

  module _ (clock : ℕ → ℕ) (config : AppConfig) (accepts : ℕ → ℕ → Bytes → Bool) where
    -- `for (send : sends) { ... SendCopy ... }`: at a throw the connection is closed.
    unfoldable pub transmit :
        ℕ → List (ℕ × Bytes) → Client F.Double → Client F.Double × Option ClientError
    transmit connection_id [] s = (s, none)
    transmit connection_id ((stream_id, frame) ∷ sends) s =
        let stamped = restamp frame (clock s.clock_reads) in
        let metrics =
          with_metrics (λ m. add_stream_sent m (length frame)) s.stream_metrics
            (metrics_index config stream_id) in
        let rest = transmit connection_id sends (record s {
          clock_reads = s.clock_reads + 1;
          actions = s.actions ++ send_copy connection_id stream_id stamped ∷ [];
          stats = add_sent s.stats (length frame);
          stream_metrics = metrics.0;
          undefined = s.undefined || metrics.1;
        }) in
        if accepts connection_id stream_id stamped then rest else (
          record s {
            clock_reads = s.clock_reads + 1;
            actions = s.actions ++ close connection_id ∷ [];
          },
          some send_failed,
        )

    -- `if (should_close_send) { CloseSend }`: `shuts` says whether it returns.
    unfoldable pub finish_sends :
        (ℕ → Bool) → ℕ → Bool → Client F.Double → Client F.Double × Option ClientError
    finish_sends shuts connection_id false s = (s, none)
    finish_sends shuts connection_id true s =
        if shuts connection_id
        then (record s { actions = s.actions ++ close_send connection_id ∷ [] }, none)
        else (record s { actions = s.actions ++ close connection_id ∷ [] }, some send_failed)

    -- What a call returns when its last part ended: the number, or what was thrown.
    unfoldable pub pump_result :
        ℕ → Client F.Double × Option ClientError → Client F.Double × (ℕ × Option ClientError)
    pump_result n (s, none) = (s, (n, none))
    pump_result n (s, some e) = (s, (0, some e))

    unfoldable pub after_transmit :
        (ℕ → Bool)
        → ℕ
        → Bool
        → ℕ
        → Client F.Double × Option ClientError
        → Client F.Double × (ℕ × Option ClientError)
    unfolding pump_result
    after_transmit shuts connection_id closing n (s, none) =
        pump_result n (finish_sends shuts connection_id closing s)
    after_transmit shuts connection_id closing n (s, some e) = (s, (0, some e))

    -- What follows the lock.
    unfoldable pub after_lock :
        (ℕ → Bool)
        → ℕ
        → Bool
        → List (ℕ × Bytes)
        → Client F.Double
        → Client F.Double × (ℕ × Option ClientError)
    unfolding after_transmit
    after_lock shuts connection_id closing sends s =
        after_transmit shuts connection_id closing (length sends) (transmit connection_id sends s)

    abbrev pub store : ℕ → ClientConnection F.Double → ℕ → Client F.Double → Client F.Double
    store connection_id state reads s = record s {
      states = put connection_id state s.states;
      clock_reads = reads;
    }

    -- What follows the loop: `send_closed` under the lock, then the sending.
    unfoldable pub unlock :
        (ℕ → Bool)
        → ℕ
        → Pump F
        → PumpStop
        → Client F.Double
        → Client F.Double × (ℕ × Option ClientError)
    unlock shuts connection_id p finished s =
        let closing =
          s.stop_sending
          && (all_streams_drained config p.connection && not p.connection.send_closed) in
        after_lock shuts connection_id closing p.sends (
          store connection_id
            (record (p.connection) { send_closed = p.connection.send_closed || closing })
            p.clock_reads s)
    unlock shuts connection_id p (failed e) s =
        (store connection_id p.connection p.clock_reads s, (0, some e))
    unlock shuts connection_id p out_of_fuel s =
        (store connection_id p.connection p.clock_reads s, (0, none))

    unfoldable pub pump_connection :
        (ℕ → Bool)
        → ℕ
        → ℕ
        → ClientConnection F.Double
        → Client F.Double
        → Client F.Double × (ℕ × Option ClientError)
    pump_connection shuts connection_id max_messages state s =
        let p : Pump F = record { connection = state; clock_reads = s.clock_reads; sends = [] } in
        let r =
          pump_loop F clock config connection_id max_messages s.stop_sending (suc max_messages) p in
        unlock shuts connection_id r.0 r.1 s

    -- The number of frames sent, and what was thrown.
    unfoldable pub pump_sends :
        (ℕ → Bool) → ℕ → ℕ → Client F.Double → Client F.Double × (ℕ × Option ClientError)
    pump_sends shuts connection_id max_messages s = elim (find connection_id s.states) [
      | none ↦ (s, (0, none))
      | some state ↦
          if not state.connected || (not state.has_connection || state.send_closed)
          then (s, (0, none))
          else pump_connection shuts connection_id max_messages state s
    ]
