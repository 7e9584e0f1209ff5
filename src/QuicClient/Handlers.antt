-- ===== src/QuicClient/Handlers.antt =====
-- The handlers of the QUIC client's stream events and the pacer's rounds, as far as
-- `active_connections_` is concerned.
use proto_test_msquic.Prelude.{
  ℕ, ◌≡◌, refl, ◌∙◌, Bool, true, Option, none, some, get_elem?, ltb, length, if_preserves,
}
use proto_test_msquic.Prelude.Float.{Float64}
use proto_test_msquic.Config.Load.{AppConfig}
use proto_test_msquic.LoadClient.Pacing.{is_paced}
use proto_test_msquic.LoadClient.Receive.{no_limit}
use proto_test_msquic.Frame.{
  Bytes, FrameError, Stop, need_more, thrown, out_of_fuel, LoopEnd, drain,
}
use proto_test_msquic.Frame.Loop.{drain_induction}
use proto_test_msquic.QuicClient.{
  StreamContext, stream_close, connection_shutdown, QuicClient, call, set_streams, set_stream,
  streams_closed,
}
use proto_test_msquic.QuicClient.Events.{
  StreamEvent, start_complete, receive, ConnectionEvent, connected, Receipt, receive_frame,
  pump_unpaced, received, on_stream_event, on_connection_event, force_shutdown,
}
use proto_test_msquic.QuicClient.Events
use proto_test_msquic.QuicClient.Active.{close_calls, accounts, call-accounts, pump_sends-accounts}
use proto_test_msquic.QuicClient.Run.{pace_connection, handle_stream}

module _ (F : Float64) (clock : ℕ → ℕ) (config : AppConfig) where
  drain-accounts :
      (i fallback : ℕ) (buffer : Bytes) (r : Receipt F clock config)
      → accounts (drain (receive_frame F clock config i fallback) fallback buffer r).state.client
        ≡ accounts r.client
  unfolding receive_frame
  drain-accounts i fallback buffer r =
      drain_induction (receive_frame F clock config i fallback) fallback
        (λ b (u : Receipt F clock config) (z : LoopEnd (Receipt F clock config)).
          accounts z.state.client ≡ accounts u.client)
        (λ b u e. refl) (λ b u x e. refl) (λ b u k z e h. h) buffer r

  module _ (accepts : ℕ → Bytes → Bool) where
    pump_unpaced-accounts :
        (s : QuicClient F.Double) → accounts (pump_unpaced F clock config accepts s) ≡ accounts s
    unfolding pump_unpaced
    pump_unpaced-accounts s =
        if_preserves (λ (x : QuicClient F.Double). accounts x ≡ accounts s) (is_paced config) _ _
          refl (pump_sends-accounts F clock config accepts no_limit s)

    stop-accounts :
        (stop : Stop) (t : QuicClient F.Double)
        → let z : QuicClient F.Double × Option FrameError = elim stop [
          | need_more ↦ (pump_unpaced F clock config accepts t, none)
          | thrown e ↦ (t, some e)
          | out_of_fuel ↦ (t, none)
        ] in
          accounts z.0 ≡ accounts t
    stop-accounts need_more t = pump_unpaced-accounts t
    stop-accounts (thrown e) t = refl
    stop-accounts out_of_fuel t = refl

    received-accounts :
        (i : ℕ) (stream : StreamContext F.Double) (r : LoopEnd (Receipt F clock config))
        → accounts (received F clock config accepts i stream r).0 ≡ accounts r.state.client
    unfolding received set_stream set_streams
    received-accounts i stream r =
        let after = record stream {
          receive_buffer = r.buffer;
          echoed_messages = r.state.echoed_messages;
        } in
        stop-accounts r.stop (set_stream i after r.state.client)

    on_stream_event-accounts :
        (event : StreamEvent) (i : ℕ) (stream : StreamContext F.Double) (s : QuicClient F.Double)
        → accounts (on_stream_event F clock config accepts event i stream s).0 ≡ accounts s
    unfolding on_stream_event set_stream set_streams close_calls
    on_stream_event-accounts (start_complete started) i stream s =
        if_preserves (λ (x : QuicClient F.Double × Option FrameError). accounts x.0 ≡ accounts s)
          started _ _ (pump_unpaced-accounts _) (call-accounts (connection_shutdown 1) s refl)
    on_stream_event-accounts (receive buffers) i stream s =
        received-accounts i stream _ ∙ drain-accounts i stream.profile.message_size _ _
    on_stream_event-accounts Events.StreamEvent.shutdown_complete i stream s =
        let t = call (stream_close i) (set_stream i (record stream { closed = true }) s) in
        let one =
          call-accounts (stream_close i) (set_stream i (record stream { closed = true }) s) refl in
        if_preserves (λ (x : QuicClient F.Double). accounts x ≡ accounts s)
          (streams_closed t.connection.stream_contexts) _ _
          (call-accounts (connection_shutdown 0) t refl ∙ one) one
    on_stream_event-accounts Events.StreamEvent.other i stream s = refl

    pub handle_stream-accounts :
        (i : ℕ) (event : StreamEvent) (s : QuicClient F.Double)
        → accounts (handle_stream F clock config accepts i event s) ≡ accounts s
    unfolding handle_stream
    handle_stream-accounts i event s = go (get_elem? s.connection.stream_contexts i)
      where
        go :
            (o : Option (StreamContext F.Double))
            → let z : QuicClient F.Double = elim o [
              | none ↦ s
              | some stream ↦ (on_stream_event F clock config accepts event i stream s).0
            ] in
              accounts z ≡ accounts s
        go none = refl
        go (some stream) = on_stream_event-accounts event i stream s

    pub pace_connection-accounts :
        (s : QuicClient F.Double) → accounts (pace_connection F clock config accepts s) ≡ accounts s
    unfolding pace_connection
    pace_connection-accounts s =
        if_preserves (λ (x : QuicClient F.Double). accounts x ≡ accounts s)
          (ltb 0 (length s.connection.stream_contexts)) _ _
          (pump_sends-accounts F clock config accepts 1 s) refl
