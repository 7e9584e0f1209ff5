-- ===== src/QuicClient/Send.antt =====
-- `Client::PumpSends`, `Client::StartStreams`, `Client::RequestStopSending`.
pub mod Bounds
pub mod Finish
use proto_test_msquic.Prelude.{
  ℕ, zero, suc, ◌+◌, ◌%◌, ◌^◌, Bool, true, false, ◌||◌, ◌&&◌, not, List, [], ◌∷◌, ◌++◌, none, some,
  length, get_elem?, ltb, leb, if◌then◌else◌,
}
use proto_test_msquic.Prelude.Float.{Float64}
use proto_test_msquic.Config.Load.{AppConfig, is_empty}
use proto_test_msquic.Config.Load.Active.{should_send_on_connection}
use proto_test_msquic.Frame.{Bytes}
use proto_test_msquic.Stats.{add64, add_sent, add_stream_sent, sub64}
use proto_test_msquic.LoadClient.{with_metrics}
use proto_test_msquic.LoadClient.Profile.{stream_profile_for_ordinal}
use proto_test_msquic.LoadClient.Pacing.{pace, is_paced, zero_ns, second_ns}
use proto_test_msquic.LoadClient.Message.{make_frame, restamp}
use proto_test_msquic.QuicClient.{
  StreamContext, ClientCall, stream_send, stream_shutdown, stream_close, connection_shutdown,
  QuicClient, call, set_streams, set_stream, streams_drained, pacing_interval_ns,
}

-- What an attempt on a stream gave: the stream to send on, or `continue`.
pub data Choice : Type 0 where
  selected : ℕ → Choice
  skipped : Choice

pub data SendStop : Type 0 where
  done refused out_of_fuel : SendStop

module _ (F : Float64) where
  unfoldable pub inflight : StreamContext F.Double → ℕ
  inflight stream = sub64 stream.next_sequence stream.echoed_messages

  module _ (clock : ℕ → ℕ) (config : AppConfig) where
    -- The gate of a stream with a rate of its own.
    unfoldable pub pace_stream : StreamContext F.Double → ℕ → Bool × (StreamContext F.Double × ℕ)
    pace_stream stream reads =
        let interval = F.div (second_ns F) (F.of_uint stream.profile.send_pps) in
        let gate = pace F stream.next_send_time_ns interval (F.of_uint (clock reads)) in
        if ltb 0 stream.profile.send_pps
        then (gate.0, (record stream { next_send_time_ns = gate.1 }, reads + 1))
        else (true, (stream, reads))

    -- The body of `for (attempt = 0; ...)` for a candidate that is there. A stream without a name
    -- is passed over, but only after its turn was counted.
    unfoldable pub try_candidate :
        ℕ → StreamContext F.Double → QuicClient F.Double → QuicClient F.Double × Choice
    unfolding set_stream
    try_candidate ordinal candidate s =
        let g = pace_stream candidate s.clock_reads in
        let t = record (set_stream ordinal g.1.0 s) { clock_reads = g.1.1 } in
        let next = (ordinal + 1) % 2 ^ 32 % length s.connection.stream_contexts in
        if not candidate.stream_started || (candidate.shutdown_started || candidate.closed)
        then (s, skipped)
        else if leb candidate.profile.max_inflight (inflight candidate)
        then (s, skipped)
        else if not g.0 || is_empty candidate.profile.name
        then (t, skipped)
        else (
          record t { connection = record (t.connection) { next_send_stream_ordinal = next } },
          selected ordinal,
        )

    unfoldable pub try_ordinal : ℕ → QuicClient F.Double → QuicClient F.Double × Choice
    try_ordinal ordinal s = elim (get_elem? s.connection.stream_contexts ordinal) [
      | none ↦ (s, skipped)
      | some candidate ↦ try_candidate ordinal candidate s
    ]

    -- `left` attempts from `attempt` on.
    unfoldable pub choose_stream : ℕ → ℕ → QuicClient F.Double → QuicClient F.Double × Choice
    choose_stream zero attempt s = (s, skipped)
    choose_stream (suc left) attempt s =
        let first = s.connection.next_send_stream_ordinal in
        let r = try_ordinal ((first + attempt) % 2 ^ 32 % length s.connection.stream_contexts) s in
        elim r.1 [ selected i ↦ r | skipped ↦ choose_stream left (attempt + 1) r.0 ]

    -- The gate of the connection: without an interval it only waits for a first time.
    unfoldable pub pace_connection : QuicClient F.Double → Bool × QuicClient F.Double
    pace_connection s =
        let interval = pacing_interval_ns F config in
        let now_ns = F.of_uint (clock s.clock_reads) in
        let time = s.connection.next_send_time_ns in
        let start = if F.equal time (zero_ns F) then now_ns else time in
        let gate =
          if F.less (zero_ns F) interval
          then pace F time interval now_ns
          else (not (F.less now_ns start), start) in
        if is_paced config
        then (
          gate.0,
          record s {
            connection = record (s.connection) { next_send_time_ns = gate.1 };
            clock_reads = s.clock_reads + 1;
          },
        )
        else (true, s)

    module _ (accepts : ℕ → Bytes → Bool) where
      -- The frame is built with time 0 and stamped just before `StreamSend`; a refusal shuts the
      -- connection down.
      unfoldable pub send_on :
          ℕ → StreamContext F.Double → QuicClient F.Double → QuicClient F.Double × Bool
      unfolding set_stream
      send_on ordinal stream s =
          let after = record stream { next_sequence = add64 stream.next_sequence 1 } in
          let frame =
            restamp (make_frame stream.profile.message_size stream.next_sequence 0)
              (clock s.clock_reads) in
          let metrics =
            with_metrics (λ m. add_stream_sent m (length frame)) s.stream_metrics ordinal in
          let t = record (set_stream ordinal after s) { clock_reads = s.clock_reads + 1 } in
          if accepts ordinal frame
          then (
            record t {
              calls = t.calls ++ stream_send ordinal frame ∷ [];
              stats = add_sent t.stats (length frame);
              stream_metrics = metrics.0;
              undefined = t.undefined || metrics.1;
            },
            true,
          )
          else (call (connection_shutdown 1) t, false)

      -- The selected stream is there: the ordinal is below the number of streams.
      unfoldable pub send_selected : ℕ → QuicClient F.Double → QuicClient F.Double × Bool
      send_selected ordinal s = elim (get_elem? s.connection.stream_contexts ordinal) [
        | none ↦ (s, false)
        | some stream ↦ send_on ordinal stream s
      ]

      unfoldable pub send_loop :
          ℕ → ℕ → ℕ → QuicClient F.Double → QuicClient F.Double × (ℕ × SendStop)
      send_loop max_messages zero count s = (s, (count, out_of_fuel))
      send_loop max_messages (suc fuel) count s =
          let g = pace_connection s in
          let c = choose_stream (length g.1.connection.stream_contexts) 0 g.1 in
          elim (should_send_on_connection config s.connection.index
            && (ltb count max_messages && not s.stop_sending)) [
              | false ↦ (s, (count, done))
              | true ↦ elim g.0 [
                | false ↦ (g.1, (count, done))
                | true ↦ elim c.1 [
                  | skipped ↦ (c.0, (count, done))
                  | selected ordinal ↦
                      let t = send_selected ordinal c.0 in
                      elim t.1 [
                        | true ↦ send_loop max_messages fuel (count + 1) t.0
                        | false ↦ (t.0, (count, refused))
                      ]
                ]
              ]
            ]

      -- The graceful end of every stream that runs: the streams from `ordinal` on, and their calls.
      unfoldable pub shut_streams :
          ℕ → List (StreamContext F.Double) → List (StreamContext F.Double) × List ClientCall
      shut_streams ordinal [] = ([], [])
      shut_streams ordinal (stream ∷ streams) =
          let rest = shut_streams (ordinal + 1) streams in
          if not stream.shutdown_started && (not stream.closed && stream.stream_started)
          then (
            record stream { shutdown_started = true } ∷ rest.0,
            stream_shutdown ordinal ∷ rest.1,
          )
          else (stream ∷ rest.0, rest.1)

      unfoldable pub shut_drained : QuicClient F.Double → QuicClient F.Double
      unfolding shut_streams set_streams
      shut_drained s =
          let r = shut_streams 0 s.connection.stream_contexts in
          if s.stop_sending && streams_drained s.connection.stream_contexts
          then record (set_streams r.0 s) { calls = s.calls ++ r.1 }
          else s

      unfoldable pub finish_pump : QuicClient F.Double × (ℕ × SendStop) → QuicClient F.Double × ℕ
      finish_pump (s, (count, done)) = (shut_drained s, count)
      finish_pump (s, (count, refused)) = (s, count)
      finish_pump (s, (count, out_of_fuel)) = (s, count)

      unfoldable pub pump_sends : ℕ → QuicClient F.Double → QuicClient F.Double × ℕ
      unfolding finish_pump
      pump_sends max_messages s = finish_pump (send_loop max_messages (suc max_messages) 0 s)

      unfoldable pub request_stop_sending : QuicClient F.Double → QuicClient F.Double
      request_stop_sending s =
          if ltb 0 (length s.connection.stream_contexts)
          then (pump_sends 0 s).0
          else if s.connection.has_connection
          then call (connection_shutdown 0) s
          else s

    -- `StartStreams`: `left` streams from `ordinal` on; the second part says that the profiles' `at`
    -- threw.
    module _ (opens starts : ℕ → Bool) where
      unfoldable pub open_streams : ℕ → ℕ → QuicClient F.Double → QuicClient F.Double × Bool
      unfolding set_streams
      open_streams zero ordinal s = (s, false)
      open_streams (suc left) ordinal s = elim (stream_profile_for_ordinal config ordinal) [
        | none ↦ (s, true)
        | some p ↦
            let stream : StreamContext F.Double = record {
              profile = p;
              receive_buffer = [];
              next_sequence = 0;
              echoed_messages = 0;
              next_send_time_ns = zero_ns F;
              stream_started = false;
              shutdown_started = false;
              closed = false;
            } in
            let rest =
              open_streams left (ordinal + 1)
                (set_streams (s.connection.stream_contexts ++ stream ∷ []) s) in
            if not (opens ordinal)
            then (call (connection_shutdown 1) s, false)
            else if not (starts ordinal)
            then (call (connection_shutdown 1) (call (stream_close ordinal) s), false)
            else rest
      ]

      unfoldable pub start_streams : QuicClient F.Double → QuicClient F.Double × Bool
      start_streams s =
          if ltb 0 (length s.connection.stream_contexts)
          then (s, false)
          else open_streams config.stream_count 0 s
