-- ===== src/QuicServer/Shutdown.antt =====
-- The end of a stream of the QUIC server.
use proto_test_msquic.Prelude.{
  ℕ, ◌+◌, ◌≡◌, refl, sym, ap, ◌∙◌, ◌≢◌, inl, inr, Bool, true, ◌&&◌, not, Bool-cases, List, [], ◌∷◌,
  ◌++◌, ◌==◌, if◌then◌else◌, arith,
}
use proto_test_msquic.Config.Load.{AppConfig}
use proto_test_msquic.Frame.{Bytes, Stop, need_more, thrown, out_of_fuel}
use proto_test_msquic.Frame.{collect}
use proto_test_msquic.Frame.Chunks.{drain_total}
use proto_test_msquic.QuicServer.{
  StreamEvent, receive, send_complete, peer_send_shutdown, shutdown_complete, other, StreamCall,
  stream_send, stream_shutdown, stream_close, ServerStream, success, maybe_shutdown_stream,
  send_frames, echo_frames, received, on_stream_event,
}

-- The calls of `StreamShutdown`, and those of `StreamSend` that were accepted.
unfoldable pub shutdowns : List StreamCall → ℕ
shutdowns [] = 0
shutdowns (stream_send b ∷ cs) = shutdowns cs
shutdowns (stream_shutdown ∷ cs) = shutdowns cs + 1
shutdowns (stream_close ∷ cs) = shutdowns cs

pub shutdowns-append :
    (xs ys : List StreamCall) → shutdowns (xs ++ ys) ≡ shutdowns xs + shutdowns ys
unfolding shutdowns
shutdowns-append [] ys = omega arith
shutdowns-append (stream_send b ∷ xs) ys = shutdowns-append xs ys
shutdowns-append (stream_shutdown ∷ xs) ys = omega (arith, shutdowns-append xs ys)
shutdowns-append (stream_close ∷ xs) ys = shutdowns-append xs ys

closed : (cs : List StreamCall) → shutdowns (cs ++ stream_close ∷ []) ≡ shutdowns cs
unfolding shutdowns
closed cs = omega (arith, shutdowns-append cs (stream_close ∷ []))

-- A stream was shut down once if the flag says so, else not, and only one that the peer finished.
pub record IsOnce (s : ServerStream) : Type 0 where
  pub counted : shutdowns s.calls ≡ (if s.context.shutdown_started then 1 else 0)
  pub after_peer : s.context.shutdown_started ≡ true → s.context.peer_finished ≡ true

-- A stream that the peer finished and whose sends have all completed has been shut down.
unfoldable pub IsSettled : ServerStream → Type 0
IsSettled s =
    s.context.peer_finished ≡ true → s.context.pending_sends ≡ 0 → s.context.shutdown_started ≡ true

maybe_shutdown_stream-IsOnce : (s : ServerStream) → IsOnce s → IsOnce (maybe_shutdown_stream s)
unfolding maybe_shutdown_stream shutdowns
maybe_shutdown_stream-IsOnce s v =
    elim (Bool-cases (
      s.context.peer_finished
      && (s.context.pending_sends == 0 && not s.context.shutdown_started))) [
        | inr e ↦ rw (e, maybe_shutdown_stream) v
        | inl e ↦
            rw (e, maybe_shutdown_stream)
              (record {
                counted =
                    ground (arith, v.counted, shutdowns-append s.calls (stream_shutdown ∷ []));
                after_peer = λ h. ground arith;
              })
      ]

maybe_shutdown_stream-IsSettled : (s : ServerStream) → IsSettled (maybe_shutdown_stream s)
unfolding maybe_shutdown_stream IsSettled
maybe_shutdown_stream-IsSettled s =
    elim (Bool-cases (
      s.context.peer_finished
      && (s.context.pending_sends == 0 && not s.context.shutdown_started))) [
        | inr e ↦ rw (e, maybe_shutdown_stream) λ f p. ground arith
        | inl e ↦ rw (e, maybe_shutdown_stream) λ f p. refl
      ]

IsOnce-same :
    (s t : ServerStream)
    → t.context ≡ s.context
    → shutdowns t.calls ≡ shutdowns s.calls
    → IsOnce s
    → IsOnce t
IsOnce-same s t e f v = record {
  counted = f ∙ v.counted ∙ ap (λ c. if c.shutdown_started then 1 else 0) (sym e);
  after_peer =
      λ h. ap (λ c. c.peer_finished) e ∙ v.after_peer (ap (λ c. c.shutdown_started) (sym e) ∙ h);
}

module _ (accepts : Bytes → Bool) where
  pub send_frames-context :
      (frames : List Bytes) (s : ServerStream)
      → (send_frames accepts frames s).0.context ≡ s.context
  unfolding send_frames
  send_frames-context [] s = refl
  send_frames-context (frame ∷ frames) s = elim (Bool-cases (accepts frame)) [
    | inl e ↦ rw (e, send_frames) (send_frames-context frames _)
    | inr e ↦ rw (e, send_frames) refl
  ]

  send_frames-shutdowns :
      (frames : List Bytes) (s : ServerStream)
      → shutdowns (send_frames accepts frames s).0.calls ≡ shutdowns s.calls
  unfolding send_frames shutdowns
  send_frames-shutdowns [] s = refl
  send_frames-shutdowns (frame ∷ frames) s = elim (Bool-cases (accepts frame)) [
    | inl e ↦
        rw (e, send_frames)
          (omega (
            arith,
            send_frames-shutdowns frames _,
            shutdowns-append s.calls (stream_send frame ∷ []),
          ))
    | inr e ↦ rw (e, send_frames) refl
  ]

  echo_frames-IsOnce :
      (frames : List Bytes) (s : ServerStream) → IsOnce s → IsOnce (echo_frames accepts frames s).0
  unfolding echo_frames
  echo_frames-IsOnce frames s v =
      let r = send_frames accepts frames s in
      let w : IsOnce r.0 =
        IsOnce-same s r.0 (send_frames-context frames s) (send_frames-shutdowns frames s) v in
      elim (Bool-cases r.1) [
        | inl e ↦ rw (e, echo_frames) (maybe_shutdown_stream-IsOnce r.0 w)
        | inr e ↦ rw (e, echo_frames) w
      ]

  received-IsOnce :
      (fin : Bool) (stop : Stop) (frames : List Bytes) (rest : Bytes) (s : ServerStream)
      → IsOnce s
      → IsOnce (received accepts fin (record { state = frames; buffer = rest; stop = stop }) s).0
  unfolding received
  received-IsOnce fin need_more frames rest s v =
      echo_frames-IsOnce frames _
        (record { counted = v.counted; after_peer = λ h. ground (arith, v.after_peer h) })
  received-IsOnce fin (thrown e) frames rest s v = record {
    counted = v.counted;
    after_peer = v.after_peer;
  }
  received-IsOnce fin out_of_fuel frames rest s v = record {
    counted = v.counted;
    after_peer = v.after_peer;
  }

  -- Whatever the event is and however it ends, StreamShutdown was called once if the stream's flag
  -- says so, else not at all, and never on a stream that the peer has not finished, provided that
  -- this held before.
  pub on_stream_event-IsOnce :
      (config : AppConfig) (event : StreamEvent) (s : ServerStream)
      → IsOnce s
      → IsOnce (on_stream_event accepts config event s).0
  unfolding on_stream_event
  on_stream_event-IsOnce config (receive buffers fin) s v = received-IsOnce fin _ _ _ s v
  on_stream_event-IsOnce config send_complete s v =
      maybe_shutdown_stream-IsOnce _ (record { counted = v.counted; after_peer = v.after_peer })
  on_stream_event-IsOnce config peer_send_shutdown s v =
      maybe_shutdown_stream-IsOnce _ (record { counted = v.counted; after_peer = λ h. refl })
  on_stream_event-IsOnce config shutdown_complete s v = IsOnce-same s _ refl (closed s.calls) v
  on_stream_event-IsOnce config other s v = v

  echo_frames-IsSettled :
      (frames : List Bytes) (s : ServerStream)
      → let r = echo_frames accepts frames s in r.1 ≡ success → IsSettled r.0
  unfolding echo_frames
  echo_frames-IsSettled frames s =
      let r = send_frames accepts frames s in
      elim (Bool-cases r.1) [
        | inl e ↦ rw (e, echo_frames) λ h. maybe_shutdown_stream-IsSettled r.0
        | inr e ↦ rw (e, echo_frames) λ h. absurd (cc)
      ]

  received-IsSettled :
      (fin : Bool) (stop : Stop) (frames : List Bytes) (rest : Bytes) (s : ServerStream)
      → stop ≢ out_of_fuel
      → let r = received accepts fin (record { state = frames; buffer = rest; stop = stop }) s in
        r.1 ≡ success → IsSettled r.0
  unfolding received
  received-IsSettled fin need_more frames rest s n h = echo_frames-IsSettled frames _ h
  received-IsSettled fin (thrown e) frames rest s n h = absurd (cc)
  received-IsSettled fin out_of_fuel frames rest s n h = absurd (n refl)

  -- After an event that returns success, a stream that the peer finished and that waits for no
  -- completion has been shut down, provided that this held before.
  pub on_stream_event-IsSettled :
      (config : AppConfig) (event : StreamEvent) (s : ServerStream)
      → IsSettled s
      → let r = on_stream_event accepts config event s in r.1 ≡ success → IsSettled r.0
  unfolding on_stream_event IsSettled
  on_stream_event-IsSettled config (receive buffers fin) s v h =
      received-IsSettled fin _ _ _ s (drain_total collect config.message_size _ []) h
  on_stream_event-IsSettled config send_complete s v h = maybe_shutdown_stream-IsSettled _
  on_stream_event-IsSettled config peer_send_shutdown s v h = maybe_shutdown_stream-IsSettled _
  on_stream_event-IsSettled config shutdown_complete s v h = v
  on_stream_event-IsSettled config other s v h = v
