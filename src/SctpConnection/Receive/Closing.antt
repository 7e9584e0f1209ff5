-- ===== src/SctpConnection/Receive/Closing.antt =====
-- How the reading loops end, and what they report then.
use proto_test_msquic.Prelude.{
  ℕ, ◌+◌, ◌≡◌, refl, ap, ◌∙◌, ◌⊎◌, inl, inr, Bool, true, false, not, Bool-cases, List, [], ◌∷◌,
  ◌++◌, Option, none, some, arith, if◌then◌else◌,
}
use proto_test_msquic.Frame.{Bytes}
use proto_test_msquic.SctpConnection.{
  Call, ssl_shutdown, shutdown_write, shutdown_both, close_fd, on_data, on_peer_closed, on_closed,
  on_transport_error, Connection, record_call, close, close_socket, finish,
}
use proto_test_msquic.SctpConnection.Receive.{
  Read, got, end_of_stream, interrupted, again, want, lost, failed, tls_failed, Turn, hand_over,
  part, receive_turn, receive_loop, poll_turn, poll_loop, handle_poll_events,
}

-- The calls of `OnClosed`.
unfoldable pub closings : List Call → ℕ
closings [] = 0
closings (on_closed ∷ cs) = closings cs + 1
closings (on_data i b ∷ cs) = closings cs
closings (on_peer_closed ∷ cs) = closings cs
closings (on_transport_error ∷ cs) = closings cs
closings (ssl_shutdown ∷ cs) = closings cs
closings (shutdown_write ∷ cs) = closings cs
closings (shutdown_both ∷ cs) = closings cs
closings (close_fd ∷ cs) = closings cs

closings-append : (xs ys : List Call) → closings (xs ++ ys) ≡ closings xs + closings ys
unfolding closings
closings-append [] ys = omega arith
closings-append (on_closed ∷ xs) ys = omega (arith, closings-append xs ys)
closings-append (on_data i b ∷ xs) ys = closings-append xs ys
closings-append (on_peer_closed ∷ xs) ys = closings-append xs ys
closings-append (on_transport_error ∷ xs) ys = closings-append xs ys
closings-append (ssl_shutdown ∷ xs) ys = closings-append xs ys
closings-append (shutdown_write ∷ xs) ys = closings-append xs ys
closings-append (shutdown_both ∷ xs) ys = closings-append xs ys
closings-append (close_fd ∷ xs) ys = closings-append xs ys

-- One more call, that is not `OnClosed`.
closings-record_call :
    (c : Call) (s : Connection)
    → closings (c ∷ []) ≡ 0
    → closings (record_call c s).calls ≡ closings s.calls
closings-record_call c s h = omega (arith, closings-append s.calls (c ∷ []))

close_socket-closings : (s : Connection) → closings (close_socket s).calls ≡ closings s.calls
unfolding close_socket closings
close_socket-closings s = ground (arith, closings-append s.calls (close_fd ∷ []))

close_socket-closed : (s : Connection) → (close_socket s).closed ≡ s.closed
unfolding close_socket
close_socket-closed s = ground arith

close-closings :
    (s : Connection) → (closings (close s).calls ≡ closings s.calls) × ((close s).closed ≡ true)
unfolding close closings
close-closings s = elim (Bool-cases s.closed) [
  | inl e ↦ rw (e, close) (refl, refl)
  | inr e ↦
      let t = record s { closed = true; calls = s.calls ++ shutdown_both ∷ [] } in
      rw (e, close)
        (
          close_socket-closings t ∙ omega (arith, closings-append s.calls (shutdown_both ∷ [])),
          close_socket-closed t,
        )
]

finish-closings :
    (s : Connection)
    → (closings (finish s).calls ≡ closings s.calls + 1) × ((finish s).closed ≡ true)
unfolding finish closings
finish-closings s =
    let c = close-closings s in
    (omega (arith, c.0, closings-append (close s).calls (on_closed ∷ [])), c.1)

-- Nothing was closed, or the function gave the connection up.
abbrev pub Settles : Connection → Connection × Option Bool → Type 0
Settles s r =
    (closings r.0.calls ≡ closings s.calls)
    ⊎ ((closings r.0.calls ≡ closings s.calls + 1) × (r.1 ≡ some false) × (r.0.closed ≡ true))

module _ (takes : ℕ → Bytes → Bool) (parts : Bool) where
  receive_turn-closings :
      (r : Read) (c : Bool) (s : Connection)
      → closings (receive_turn takes parts r c s).0.calls ≡ closings s.calls
  unfolding receive_turn hand_over part closings
  receive_turn-closings (got i b) c s = ground (
    arith,
    closings-append s.calls (on_data i b ∷ []),
    closings-append (s.calls ++ on_data i b ∷ []) (on_transport_error ∷ []),
  )
  receive_turn-closings end_of_stream c s = ground (
    arith,
    closings-append s.calls (on_peer_closed ∷ []),
    closings-append (s.calls ++ on_peer_closed ∷ []) (on_transport_error ∷ []),
  )
  receive_turn-closings interrupted c s = refl
  receive_turn-closings again c s = refl
  receive_turn-closings want c s = ground (arith, closings-append s.calls (on_transport_error ∷ []))
  receive_turn-closings lost c s = ground (
    arith,
    closings-append s.calls (on_peer_closed ∷ []),
    closings-append (s.calls ++ on_peer_closed ∷ []) (on_transport_error ∷ []),
  )
  receive_turn-closings failed c s =
      ground (arith, closings-append s.calls (on_transport_error ∷ []))
  receive_turn-closings tls_failed c s =
      ground (arith, closings-append s.calls (on_transport_error ∷ []))

  -- When ReceiveLoop ends, it has called OnClosed once and the connection is closed; as long as it
  -- has not ended, it has not called OnClosed.
  pub receive_loop-closings :
      (turns : List Turn) (s : Connection)
      → let r = receive_loop takes parts turns s in
        (closings r.0.calls ≡ closings s.calls + (if r.1 then 1 else 0))
        × (r.1 ≡ true → r.0.closed ≡ true)
  unfolding receive_loop
  receive_loop-closings [] s = (omega arith, λ h. cc)
  receive_loop-closings (turn ∷ turns) s =
      let r = receive_turn takes parts turn.read turn.closed s in
      let same = receive_turn-closings turn.read turn.closed s in
      elim (Bool-cases turn.stop) [
        | inl e ↦ let f = finish-closings s in rw (e, receive_loop) (f.0, λ h. f.1)
        | inr e ↦ elim (Bool-cases r.1) [
          | inl g ↦
              let ih = receive_loop-closings turns r.0 in
              rw (e, g, receive_loop) (rw same at ih.0, ih.1)
          | inr g ↦
              let f = finish-closings r.0 in rw (e, g, receive_loop) (rw same at f.0, λ h. f.1)
        ]
      ]

  hand_over-closings :
      (i : ℕ) (b : Bytes) (s : Connection)
      → closings (hand_over takes parts i b s).calls ≡ closings s.calls
  hand_over-closings i b s = unfold receive_turn in receive_turn-closings (got i b) false s

  part-closings : (s : Connection) → closings (part takes parts s).calls ≡ closings s.calls
  part-closings s = unfold receive_turn in receive_turn-closings end_of_stream false s

  gives_up :
      (s t : Connection) → closings t.calls ≡ closings s.calls → Settles s (finish t, some false)
  gives_up s t e = let f = finish-closings t in inr (f.0 ∙ ap (λ n. n + 1) e, refl, f.1)

  errs : (s : Connection) → Settles s (finish (record_call on_transport_error s), some false)
  unfolding closings
  errs s =
      gives_up s (record_call on_transport_error s)
        (omega (arith, closings-append s.calls (on_transport_error ∷ [])))

  hands_on :
      (b : Bool) (s t : Connection)
      → closings t.calls ≡ closings s.calls
      → Settles s (if b then (t, none) else (finish t, some false))
  hands_on true s t e = inl e
  hands_on false s t e = gives_up s t e

  poll_turn-Settles : (r : Read) (s : Connection) → Settles s (poll_turn takes parts r s)
  unfolding poll_turn
  poll_turn-Settles (got i b) s =
      hands_on (takes i b) s (hand_over takes parts i b s) (hand_over-closings i b s)
  poll_turn-Settles end_of_stream s = gives_up s (part takes parts s) (part-closings s)
  poll_turn-Settles interrupted s = errs s
  poll_turn-Settles again s = inl refl
  poll_turn-Settles want s = inl refl
  poll_turn-Settles lost s = errs s
  poll_turn-Settles failed s = errs s
  poll_turn-Settles tls_failed s = errs s

  -- What a turn's result and the rest of the loop give.
  turn-Settles :
      (stop closed : Bool) (s t : Connection) (o : Option Bool) (rest : Connection × Option Bool)
      → Settles s (t, o)
      → Settles t rest
      → Settles s (elim stop [
        | true ↦ (s, some (not closed))
        | false ↦ elim o [ none ↦ rest | some b ↦ (t, some b) ]
      ])
  turn-Settles true closed s t o rest one more = inl refl
  turn-Settles false closed s t (some b) rest one more = one
  turn-Settles false closed s t none rest (inl e) (inl f) = inl (f ∙ e)
  turn-Settles false closed s t none rest (inl e) (inr (f, g, h)) =
      inr (f ∙ ap (λ n. n + 1) e, g, h)
  turn-Settles false closed s t none rest (inr (e, f, g)) more = absurd (cc)

  poll_loop-Settles :
      (turns : List Turn) (s : Connection) → Settles s (poll_loop takes parts turns s)
  unfolding poll_loop
  poll_loop-Settles [] s = inl refl
  poll_loop-Settles (turn ∷ turns) s =
      let r = poll_turn takes parts turn.read s in
      turn-Settles turn.stop turn.closed s r.0 r.1 (poll_loop takes parts turns r.0)
        (poll_turn-Settles turn.read s) (poll_loop-Settles turns r.0)

  choice-Settles :
      (closed bad : Bool) (s : Connection) (r : Connection × Option Bool)
      → Settles s r
      → Settles s (if closed then (s, some false) else if bad then (finish s, some false) else r)
  choice-Settles true bad s r h = inl refl
  choice-Settles false true s r h = gives_up s s refl
  choice-Settles false false s r h = h

  -- polls
  pub handle_poll_events-Settles :
      (bad : Bool) (turns : List Turn) (s : Connection)
      → Settles s (handle_poll_events takes parts bad turns s)
  unfolding handle_poll_events
  handle_poll_events-Settles bad turns s =
      choice-Settles s.closed bad s (poll_loop takes parts turns s) (poll_loop-Settles turns s)
