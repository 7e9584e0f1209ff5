-- ===== src/QuicClient/Window/Echoes.antt =====
-- The window of the QUIC client's streams over the events of a stream: echoes make room, and the
-- pumping that follows them fills it.
use proto_test_msquic.Prelude.{
  ℕ, ◌^◌, ◌≤◌, ◌<◌, ◌≡◌, refl, Bool, true, false, if_preserves, [], ◌++◌, some, length, concat,
  get_elem?, All-set, All-get_elem?, arith,
}
use proto_test_msquic.Prelude.Float.{Float64}
use proto_test_msquic.Config.Load.{AppConfig}
use proto_test_msquic.Frame.{Bytes, Stop, need_more, thrown, out_of_fuel, drain, collect}
use proto_test_msquic.Frame.Loop.{drain_induction}
use proto_test_msquic.Frame.Collected.{drain-counter}
use proto_test_msquic.Stats.{add64}
use proto_test_msquic.LoadClient.Receive.{no_limit}
use proto_test_msquic.QuicClient.{StreamContext, QuicClient, set_streams, set_stream}
use proto_test_msquic.QuicClient.Send.{inflight}
use proto_test_msquic.QuicClient.Events.{
  StreamEvent, start_complete, receive, shutdown_complete, other, Receipt, receive_frame,
  pump_unpaced, received, on_stream_event,
}
use proto_test_msquic.QuicClient.Window.{
  IsWindowed, AreWindowed, IsWindowed-same, pump_sends-AreWindowed,
}

module _ (F : Float64) where
  -- The echoes that an event brings to a stream.
  unfoldable pub echoes : StreamEvent → StreamContext F.Double → ℕ
  echoes (start_complete started) stream = 0
  echoes (receive buffers) stream =
      length
        (drain collect stream.profile.message_size (stream.receive_buffer ++ concat buffers)
          []).state
  echoes shutdown_complete stream = 0
  echoes other stream = 0

  -- Echoes of messages in flight make room.
  after_echoes :
      (stream : StreamContext F.Double) (n : ℕ) (buffer : Bytes)
      → n ≤ inflight F stream
      → IsWindowed F stream
      → IsWindowed F (record stream {
        receive_buffer = buffer;
        echoed_messages = add64 stream.echoed_messages n;
      })
  unfolding inflight
  after_echoes stream n buffer h v = record {
    within = omega (arith, v.within, v.sequence_fits, v.echoed_fits);
    sequence_fits = v.sequence_fits;
    echoed_fits = omega arith;
  }

  module _ (clock : ℕ → ℕ) (config : AppConfig) where
    drain-connection :
        (ordinal size : ℕ) (buffer : Bytes) (r : Receipt F clock config)
        → (drain (receive_frame F clock config ordinal size) size buffer r).state.client.connection
          ≡ r.client.connection
    unfolding receive_frame
    drain-connection ordinal size =
        drain_induction (receive_frame F clock config ordinal size) size
          (λ b s r. r.state.client.connection ≡ s.client.connection) (λ b s e. refl)
          (λ b s x e. refl) (λ b s k r e ih. ih)

    drain-echoed :
        (ordinal size : ℕ) (buffer : Bytes) (r : Receipt F clock config)
        → r.echoed_messages < 2 ^ 64
        → (drain (receive_frame F clock config ordinal size) size buffer r).state.echoed_messages
          ≡ add64 r.echoed_messages (length (drain collect size buffer []).state)
    unfolding receive_frame
    drain-echoed ordinal size buffer r h =
        drain-counter (receive_frame F clock config ordinal size) size (λ x. x.echoed_messages)
          (λ k b x. refl) buffer r h

    module _ (accepts : ℕ → Bytes → Bool) where
      pump_unpaced-AreWindowed :
          (s : QuicClient F.Double)
          → AreWindowed F s
          → AreWindowed F (pump_unpaced F clock config accepts s)
      unfolding pump_unpaced
      pump_unpaced-AreWindowed s v =
          if_preserves (AreWindowed F) _ _ _ v
            (pump_sends-AreWindowed F clock config accepts no_limit s v)

      set_stream-AreWindowed :
          (ordinal : ℕ) (stream : StreamContext F.Double) (s : QuicClient F.Double)
          → IsWindowed F stream
          → AreWindowed F s
          → AreWindowed F (set_stream ordinal stream s)
      unfolding set_stream set_streams
      set_stream-AreWindowed ordinal stream s w v =
          All-set (IsWindowed F) s.connection.stream_contexts ordinal stream w v

      received-AreWindowed :
          (ordinal echoed : ℕ) (buffer : Bytes) (stop : Stop) (client : QuicClient F.Double)
          (stream : StreamContext F.Double)
          → IsWindowed F (record stream { receive_buffer = buffer; echoed_messages = echoed })
          → AreWindowed F client
          → AreWindowed F
              (received F clock config accepts ordinal stream (record {
                state = record { echoed_messages = echoed; client = client };
                buffer = buffer;
                stop = stop;
              })).0
      unfolding received
      received-AreWindowed ordinal echoed buffer need_more client stream w v =
          pump_unpaced-AreWindowed _ (set_stream-AreWindowed ordinal _ client w v)
      received-AreWindowed ordinal echoed buffer (thrown x) client stream w v =
          set_stream-AreWindowed ordinal _ client w v
      received-AreWindowed ordinal echoed buffer out_of_fuel client stream w v =
          set_stream-AreWindowed ordinal _ client w v

      -- An event for a stream of the QUIC client that brings no more echoes than the stream has
      -- messages in flight keeps every stream of the connection within its profile's max_inflight
      -- and its counters within 64 bits, with the pumping that it starts.
      pub on_stream_event-AreWindowed :
          (event : StreamEvent) (ordinal : ℕ) (stream : StreamContext F.Double)
          (s : QuicClient F.Double)
          → get_elem? s.connection.stream_contexts ordinal ≡ some stream
          → echoes event stream ≤ inflight F stream
          → AreWindowed F s
          → AreWindowed F (on_stream_event F clock config accepts event ordinal stream s).0
      unfolding on_stream_event echoes
      on_stream_event-AreWindowed (start_complete false) ordinal stream s at few v = v
      on_stream_event-AreWindowed (start_complete true) ordinal stream s at few v =
          let w = All-get_elem? (IsWindowed F) s.connection.stream_contexts ordinal stream v at in
          let started = record stream { stream_started = true } in
          pump_unpaced-AreWindowed (set_stream ordinal started s) (
            set_stream-AreWindowed ordinal started s
              (IsWindowed-same F stream started refl refl refl w) v)
      on_stream_event-AreWindowed (receive buffers) ordinal stream s at few v =
          let size = stream.profile.message_size in
          let start : Receipt F clock config = record {
            echoed_messages = stream.echoed_messages;
            client = s;
          } in
          let bytes = stream.receive_buffer ++ concat buffers in
          let w = All-get_elem? (IsWindowed F) s.connection.stream_contexts ordinal stream v at in
          let r = drain (receive_frame F clock config ordinal size) size bytes start in
          received-AreWindowed ordinal r.state.echoed_messages r.buffer r.stop r.state.client stream
            (rw (drain-echoed ordinal size bytes start w.echoed_fits)
              (after_echoes stream _ r.buffer few w))
            (rw (drain-connection ordinal size bytes start) v)
      on_stream_event-AreWindowed shutdown_complete ordinal stream s at few v =
          let w = All-get_elem? (IsWindowed F) s.connection.stream_contexts ordinal stream v at in
          let ended = record stream { closed = true } in
          let kept : AreWindowed F (set_stream ordinal ended s) =
            set_stream-AreWindowed ordinal ended s (IsWindowed-same F stream ended refl refl refl w)
              v in
          if_preserves (AreWindowed F) _ _ _ kept kept
      on_stream_event-AreWindowed other ordinal stream s at few v = v
