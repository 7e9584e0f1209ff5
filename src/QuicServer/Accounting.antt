-- ===== src/QuicServer/Accounting.antt =====
-- `pending_sends` of the QUIC server against the sends that MsQuic has not completed.
use proto_test_msquic.Prelude.{
  ℕ, ◌+◌, ◌%◌, ◌^◌, ◌≤◌, ◌<◌, ◌≡◌, ◌≢◌, refl, sym, ap, ◌∙◌, inl, inr, Bool, true, ◌&&◌, not,
  Bool-cases, List, [], ◌∷◌, ◌++◌, length, ◌==◌, arith,
}
use proto_test_msquic.Config.Load.{AppConfig}
use proto_test_msquic.Frame.{Bytes, Stop, need_more, thrown, out_of_fuel}
use proto_test_msquic.Frame.{collect}
use proto_test_msquic.Frame.Chunks.{drain_total}
use proto_test_msquic.QuicServer.{
  StreamEvent, receive, send_complete, peer_send_shutdown, shutdown_complete, other, StreamCall,
  stream_send, stream_shutdown, stream_close, ServerStream, success, maybe_shutdown_stream,
  send_frames, echo_frames, received, on_stream_event,
}
use proto_test_msquic.QuicServer.Shutdown.{send_frames-context}

unfoldable pub sends : List StreamCall → ℕ
sends [] = 0
sends (stream_send b ∷ cs) = sends cs + 1
sends (stream_shutdown ∷ cs) = sends cs
sends (stream_close ∷ cs) = sends cs

sends-append : (xs ys : List StreamCall) → sends (xs ++ ys) ≡ sends xs + sends ys
unfolding sends
sends-append [] ys = omega arith
sends-append (stream_send b ∷ xs) ys = omega (arith, sends-append xs ys)
sends-append (stream_shutdown ∷ xs) ys = sends-append xs ys
sends-append (stream_close ∷ xs) ys = sends-append xs ys

sends-shutdown : (cs : List StreamCall) → sends (cs ++ stream_shutdown ∷ []) ≡ sends cs
unfolding sends
sends-shutdown cs = omega (arith, sends-append cs (stream_shutdown ∷ []))

sends-close : (cs : List StreamCall) → sends (cs ++ stream_close ∷ []) ≡ sends cs
unfolding sends
sends-close cs = omega (arith, sends-append cs (stream_close ∷ []))

sends-send : (cs : List StreamCall) (b : Bytes) → sends (cs ++ stream_send b ∷ []) ≡ sends cs + 1
unfolding sends
sends-send cs b = omega (arith, sends-append cs (stream_send b ∷ []))

-- The completions that an event is.
unfoldable pub completions : StreamEvent → ℕ
completions (receive buffers fin) = 0
completions send_complete = 1
completions peer_send_shutdown = 0
completions shutdown_complete = 0
completions other = 0

-- After `done` completions, the counter holds the accepted sends that are still under way.
abbrev pub IsAccounted : ℕ → ServerStream → Type 0
IsAccounted done s = s.context.pending_sends + done ≡ sends s.calls

maybe_shutdown_stream-IsAccounted :
    (done : ℕ) (s : ServerStream) → IsAccounted done s → IsAccounted done (maybe_shutdown_stream s)
unfolding maybe_shutdown_stream
maybe_shutdown_stream-IsAccounted done s v =
    elim (Bool-cases (
      s.context.peer_finished
      && (s.context.pending_sends == 0 && not s.context.shutdown_started))) [
        | inr e ↦ rw (e, maybe_shutdown_stream) v
        | inl e ↦ rw (e, maybe_shutdown_stream) (v ∙ sym (sends-shutdown s.calls))
      ]

maybe_shutdown_stream-sends :
    (s : ServerStream) → sends (maybe_shutdown_stream s).calls ≡ sends s.calls
unfolding maybe_shutdown_stream
maybe_shutdown_stream-sends s =
    elim (Bool-cases (
      s.context.peer_finished
      && (s.context.pending_sends == 0 && not s.context.shutdown_started))) [
        | inr e ↦ rw (e, maybe_shutdown_stream) refl
        | inl e ↦ rw (e, maybe_shutdown_stream) (sends-shutdown s.calls)
      ]

module _ (accepts : Bytes → Bool) where
  send_frames-sends :
      (frames : List Bytes) (s : ServerStream)
      → (send_frames accepts frames s).1 ≡ true
      → sends (send_frames accepts frames s).0.calls ≡ sends s.calls + length frames
  unfolding send_frames
  send_frames-sends [] s = λ h. omega arith
  send_frames-sends (frame ∷ frames) s = elim (Bool-cases (accepts frame)) [
    | inl e ↦
        rw (e, send_frames)
          λ h. omega (arith, send_frames-sends frames _ h, sends-send s.calls frame)
    | inr e ↦ rw (e, send_frames) λ h. absurd (cc)
  ]

  echo_frames-IsAccounted :
      (done pending : ℕ) (frames : List Bytes) (s : ServerStream)
      → let r = echo_frames accepts frames s in
        r.1 ≡ success
        → s.context.pending_sends ≡ (pending + length frames) % 2 ^ 32
        → pending + done ≡ sends s.calls
        → sends r.0.calls < 2 ^ 32
        → IsAccounted done r.0
  unfolding echo_frames
  echo_frames-IsAccounted done pending frames s =
      let r = send_frames accepts frames s in
      elim (Bool-cases r.1) [
        | inr e ↦ rw (e, echo_frames) λ h. absurd (cc)
        | inl e ↦
            rw (e, echo_frames)
              λ h count v few. maybe_shutdown_stream-IsAccounted done r.0 (
                accounted r.0 count v few
                  (ap (λ c. c.pending_sends) (send_frames-context accepts frames s))
                  (send_frames-sends frames s e))
      ]
    where
      accounted :
          (t : ServerStream)
          → s.context.pending_sends ≡ (pending + length frames) % 2 ^ 32
          → pending + done ≡ sends s.calls
          → sends (maybe_shutdown_stream t).calls < 2 ^ 32
          → t.context.pending_sends ≡ s.context.pending_sends
          → sends t.calls ≡ sends s.calls + length frames
          → IsAccounted done t
      accounted t count v few same sent = omega (arith, maybe_shutdown_stream-sends t)

  received-IsAccounted :
      (done : ℕ) (fin : Bool) (stop : Stop) (frames : List Bytes) (rest : Bytes) (s : ServerStream)
      → IsAccounted done s
      → stop ≢ out_of_fuel
      → let r = received accepts fin (record { state = frames; buffer = rest; stop = stop }) s in
        r.1 ≡ success → sends r.0.calls < 2 ^ 32 → IsAccounted done r.0
  unfolding received
  received-IsAccounted done fin need_more frames rest s v n h few =
      echo_frames-IsAccounted done s.context.pending_sends frames _ h refl v few
  received-IsAccounted done fin (thrown e) frames rest s v n h few = absurd (cc)
  received-IsAccounted done fin out_of_fuel frames rest s v n h few = absurd (n refl)

  -- If pending_sends holds the accepted sends that MsQuic has not completed, a completion is one
  -- of those, the event returns success and fewer than 2^32 frames were sent on the stream, then
  -- pending_sends holds them after the event.
  pub on_stream_event-IsAccounted :
      (config : AppConfig) (event : StreamEvent) (done : ℕ) (s : ServerStream)
      → IsAccounted done s
      → done + completions event ≤ sends s.calls
      → let r = on_stream_event accepts config event s in
        r.1 ≡ success → sends r.0.calls < 2 ^ 32 → IsAccounted (done + completions event) r.0
  unfolding on_stream_event completions
  on_stream_event-IsAccounted config (receive buffers fin) done s v m h few =
      let same : done + 0 ≡ done = omega arith in
      rw same (
        received-IsAccounted done fin _ _ _ s v (drain_total collect config.message_size _ []) h
          few)
  on_stream_event-IsAccounted config send_complete done s v m h few =
      maybe_shutdown_stream-IsAccounted _ _ (ground arith)
  on_stream_event-IsAccounted config peer_send_shutdown done s v m h few =
      maybe_shutdown_stream-IsAccounted _ _ (omega arith)
  on_stream_event-IsAccounted config shutdown_complete done s v m h few =
      omega (arith, sends-close s.calls)
  on_stream_event-IsAccounted config other done s v m h few = omega arith
