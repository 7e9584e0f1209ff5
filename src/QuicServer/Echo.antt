-- ===== src/QuicServer/Echo.antt =====
-- What a stream of the QUIC server echoes, over any sequence of MsQuic's events for it.
use proto_test_msquic.Prelude.{
  ℕ, ◌≡◌, refl, ap, sym, ◌∙◌, Bool, true, ◌&&◌, not, inl, inr, Bool-cases, List, [], ◌∷◌, ◌++◌,
  concat, All, append-nil, append_assoc, ◌==◌, arith,
}
use proto_test_msquic.Config.Load.{AppConfig}
use proto_test_msquic.Frame.{Bytes, Stop, need_more, thrown, out_of_fuel, drain, collect}
use proto_test_msquic.Frame.Peek.{IsFrame, peek_short}
use proto_test_msquic.Frame.Loop.{drain_stop}
use proto_test_msquic.Frame.Chunks.{IsDrained, drain-IsDrained, drain-concat}
use proto_test_msquic.Frame.Collected.{drain-chunk}
use proto_test_msquic.QuicServer.{
  StreamEvent, receive, send_complete, peer_send_shutdown, shutdown_complete, other, StreamCall,
  stream_send, stream_shutdown, stream_close, ServerStream, Status, success, send_failed, bad_frame,
  maybe_shutdown_stream, send_frames, echo_frames, received, on_stream_event,
}
use proto_test_msquic.QuicServer.Shutdown.{send_frames-context}

-- The frames that `StreamSend` accepted, in order.
unfoldable pub frames_sent : List StreamCall → List Bytes
frames_sent [] = []
frames_sent (stream_send frame ∷ cs) = frame ∷ frames_sent cs
frames_sent (stream_shutdown ∷ cs) = frames_sent cs
frames_sent (stream_close ∷ cs) = frames_sent cs

frames_sent-append :
    (xs ys : List StreamCall) → frames_sent (xs ++ ys) ≡ frames_sent xs ++ frames_sent ys
unfolding frames_sent
frames_sent-append [] ys = refl
frames_sent-append (stream_send frame ∷ xs) ys = ap (◌∷◌ frame) (frames_sent-append xs ys)
frames_sent-append (stream_shutdown ∷ xs) ys = frames_sent-append xs ys
frames_sent-append (stream_close ∷ xs) ys = frames_sent-append xs ys

frames_sent-snoc :
    (xs : List StreamCall) (c : StreamCall)
    → frames_sent (c ∷ []) ≡ []
    → frames_sent (xs ++ c ∷ []) ≡ frames_sent xs
frames_sent-snoc xs c e =
    frames_sent-append xs (c ∷ []) ∙ ap (◌++◌ (frames_sent xs)) e ∙ append-nil _

-- The bytes that an event brings.
unfoldable pub event_bytes : StreamEvent → Bytes
event_bytes (receive buffers fin) = concat buffers
event_bytes send_complete = []
event_bytes peer_send_shutdown = []
event_bytes shutdown_complete = []
event_bytes other = []

unfoldable pub all_bytes : List StreamEvent → Bytes
unfolding event_bytes
all_bytes [] = []
all_bytes (event ∷ events) = event_bytes event ++ all_bytes events

-- The stream sent `frames` since `s`, and keeps `rest` of what it received.
abbrev HasEchoed : ServerStream → List Bytes → Bytes → ServerStream → Type 0
HasEchoed s frames rest t =
    (frames_sent t.calls ≡ frames_sent s.calls ++ frames) × (t.context.receive_buffer ≡ rest)

maybe_shutdown_stream-HasEchoed :
    (s : ServerStream) (frames : List Bytes) (rest : Bytes) (t : ServerStream)
    → HasEchoed s frames rest t
    → HasEchoed s frames rest (maybe_shutdown_stream t)
unfolding maybe_shutdown_stream frames_sent
maybe_shutdown_stream-HasEchoed s frames rest t v =
    elim (Bool-cases (
      t.context.peer_finished
      && (t.context.pending_sends == 0 && not t.context.shutdown_started))) [
        | inr e ↦ rw (e, maybe_shutdown_stream) v
        | inl e ↦
            rw (e, maybe_shutdown_stream) (frames_sent-snoc t.calls stream_shutdown refl ∙ v.0, v.1)
      ]

module _ (accepts : Bytes → Bool) (accepted : (w : Bytes) → accepts w ≡ true) where
  send_frames_accepted :
      (frames : List Bytes) (s : ServerStream)
      → let r = send_frames accepts frames s in
        (r.1 ≡ true) × (frames_sent r.0.calls ≡ frames_sent s.calls ++ frames)
  unfolding send_frames frames_sent
  send_frames_accepted [] s = (refl, sym (append-nil (frames_sent s.calls)))
  send_frames_accepted (frame ∷ frames) s =
      let ih = send_frames_accepted frames _ in
      rw (accepted frame, send_frames)
        (
          ih.0,
          ih.1
              ∙ ap (λ (x : List Bytes). x ++ frames) (frames_sent-append s.calls _)
              ∙ append_assoc (frames_sent s.calls) (frame ∷ []) frames,
        )

  echo_frames_accepted :
      (frames : List Bytes) (s : ServerStream)
      → let r = echo_frames accepts frames s in
        (r.1 ≡ success) × HasEchoed s frames s.context.receive_buffer r.0
  unfolding echo_frames
  echo_frames_accepted frames s =
      let e = send_frames_accepted frames s in
      let t = (send_frames accepts frames s).0 in
      rw e.0 (
        refl,
        maybe_shutdown_stream-HasEchoed s frames s.context.receive_buffer t
            (e.1, ap (λ c. c.receive_buffer) (send_frames-context accepts frames s)),
      )

  module _ (config : AppConfig) where
    received_drained :
        (fin : Bool) (stop : Stop) (frames : List Bytes) (rest : Bytes) (s : ServerStream)
        → stop ≡ need_more
        → let t = received accepts fin (record { state = frames; buffer = rest; stop = stop }) s in
          (t.1 ≡ success) × HasEchoed s frames rest t.0
    unfolding received
    received_drained fin need_more frames rest s e = echo_frames_accepted frames _
    received_drained fin (thrown x) frames rest s e = absurd (cc)
    received_drained fin out_of_fuel frames rest s e = absurd (cc)

    -- An event that brings no byte.
    no_bytes :
        (s t : ServerStream)
        → IsDrained config.message_size s.context.receive_buffer
        → HasEchoed s [] s.context.receive_buffer t
        → let q = drain collect config.message_size (s.context.receive_buffer ++ []) [] in
          HasEchoed s q.state q.buffer t
    no_bytes s t d v =
        rw
          (
            append-nil s.context.receive_buffer,
            drain_stop collect config.message_size s.context.receive_buffer [] d,
          )
          v

    after_change :
        (s : ServerStream) (pending : ℕ) (finished : Bool)
        → IsDrained config.message_size s.context.receive_buffer
        → let q = drain collect config.message_size (s.context.receive_buffer ++ []) [] in
          HasEchoed s q.state q.buffer (
            maybe_shutdown_stream (record s {
              context = record (s.context) { pending_sends = pending; peer_finished = finished };
            }))
    after_change s pending finished d =
        let t : ServerStream = record s {
          context = record (s.context) { pending_sends = pending; peer_finished = finished };
        } in
        no_bytes s (maybe_shutdown_stream t) d (
          maybe_shutdown_stream-HasEchoed s [] s.context.receive_buffer t
            (sym (append-nil (frames_sent s.calls)), refl))

    on_stream_event_drained :
        (event : StreamEvent) (s : ServerStream)
        → IsDrained config.message_size s.context.receive_buffer
        → let q =
            drain collect config.message_size (s.context.receive_buffer ++ event_bytes event) [] in
          let r = on_stream_event accepts config event s in
          q.stop ≡ need_more → (r.1 ≡ success) × HasEchoed s q.state q.buffer r.0
    unfolding on_stream_event event_bytes frames_sent
    on_stream_event_drained (receive buffers fin) s d e = received_drained fin _ _ _ s e
    on_stream_event_drained send_complete s d e = (refl, after_change s _ s.context.peer_finished d)
    on_stream_event_drained peer_send_shutdown s d e =
        (refl, after_change s s.context.pending_sends true d)
    on_stream_event_drained shutdown_complete s d e = (
      refl,
      no_bytes s (record s { calls = s.calls ++ stream_close ∷ [] }) d
          (
            frames_sent-snoc s.calls stream_close refl ∙ sym (append-nil (frames_sent s.calls)),
            refl,
          ),
    )
    on_stream_event_drained other s d e =
        (refl, no_bytes s s d (sym (append-nil (frames_sent s.calls)), refl))

-- Events for a stream, up to the first that does not return success.
next_status : Status → ServerStream × Status → ServerStream → ServerStream × Status
next_status success rest s = rest
next_status send_failed rest s = (s, send_failed)
next_status (bad_frame e) rest s = (s, bad_frame e)

module _ (accepts : Bytes → Bool) (config : AppConfig) where
  pub on_events : List StreamEvent → ServerStream → ServerStream × Status
  on_events [] s = (s, success)
  on_events (event ∷ events) s =
      let r = on_stream_event accepts config event s in
      let rest = on_events events r.0 in next_status r.1 rest r.0

  module _ (accepted : (w : Bytes) → accepts w ≡ true) where
    after_event :
        (event : StreamEvent) (events : List StreamEvent) (s : ServerStream)
        → (on_stream_event accepts config event s).1 ≡ success
        → on_events (event ∷ events) s ≡ on_events events (on_stream_event accepts config event s).0
    unfolding on_events next_status
    after_event event events s e = rw e refl

    on_events_drained :
        (events : List StreamEvent) (s : ServerStream) (b : Bytes)
        → s.context.receive_buffer ≡ b
        → IsDrained config.message_size b
        → let q = drain collect config.message_size (b ++ all_bytes events) [] in
          let t = on_events events s in
          q.stop ≡ need_more → (t.1 ≡ success) × HasEchoed s q.state q.buffer t.0
    unfolding on_events all_bytes
    on_events_drained [] s b e d stop =
        rw (append-nil b, drain_stop collect config.message_size b [] d)
          (refl, (sym (append-nil (frames_sent s.calls)), e))
    on_events_drained (event ∷ events) s b e d stop =
        let size = config.message_size in
        let r1 = drain collect size (b ++ event_bytes event) [] in
        let r2 = drain collect size (r1.buffer ++ all_bytes events) [] in
        let cut = drain-chunk size b (event_bytes event) (all_bytes events) stop in
        let one = first_event event s b e d cut.0 in
        let t = (on_stream_event accepts config event s).0 in
        let ih =
          on_events_drained events t r1.buffer one.1.1
            (drain-IsDrained collect size (b ++ event_bytes event) [] cut.0)
            (sym (ap (λ x. x.stop) cut.1) ∙ stop) in
        rw (after_event event events s one.0, cut.1)
          (
            ih.0,
            (
              ih.1.0
                  ∙ ap (λ (x : List Bytes). x ++ r2.state) one.1.0
                  ∙ append_assoc (frames_sent s.calls) r1.state r2.state,
              ih.1.1,
            ),
          )
      where
        first_event :
            (event : StreamEvent) (s : ServerStream) (b : Bytes)
            → s.context.receive_buffer ≡ b
            → IsDrained config.message_size b
            → let q = drain collect config.message_size (b ++ event_bytes event) [] in
              let r = on_stream_event accepts config event s in
              q.stop ≡ need_more → (r.1 ≡ success) × HasEchoed s q.state q.buffer r.0
        first_event event s b e d h =
            rw (← e) (on_stream_event_drained accepts accepted config event s (rw e d) (rw e h))

    -- Where MsQuic accepts every StreamSend and the stream's buffer is empty: if all the bytes
    -- that the events bring are whole frames and an incomplete one behind them, then every event
    -- returns success, whatever completions and ends of sending come between them, the frames are
    -- sent back once each and in order, and the buffer keeps the incomplete one.
    pub on_events_echo :
        (events : List StreamEvent) (frames : List Bytes) (tail : Bytes) (s : ServerStream)
        → s.context.receive_buffer ≡ []
        → all_bytes events ≡ concat frames ++ tail
        → All (IsFrame config.message_size) frames
        → IsDrained config.message_size tail
        → let t = on_events events s in
          (t.1 ≡ success)
          × (frames_sent t.0.calls ≡ frames_sent s.calls ++ frames)
          × (t.0.context.receive_buffer ≡ tail)
    on_events_echo events frames tail s e cut framed d =
        let size = config.message_size in
        let all : drain collect size (all_bytes events) []
            ≡ record { state = frames; buffer = tail; stop = need_more } =
          ap (λ x. drain collect size x []) cut
          ∙ drain-concat size frames tail [] framed
          ∙ drain_stop collect size tail frames d in
        let r =
          on_events_drained events s [] e (peek_short size [] (omega arith))
            (ap (λ x. x.stop) all) in
        (r.0, r.1.0 ∙ ap (λ x. frames_sent s.calls ++ x.state) all, r.1.1 ∙ ap (λ x. x.buffer) all)
