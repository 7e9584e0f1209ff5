-- ===== src/SctpTransport/PollReports.antt =====
-- What the polling threads report of a connection's end.
use proto_test_msquic.Prelude.{
  ℕ, ◌≡◌, ◌∙◌, ◌⊎◌, inl, inr, Bool, true, false, List, [], ◌∷◌, Option, none, some, Map,
  if◌then◌else◌, if_preserves, All, arith,
}
use proto_test_msquic.Frame.{Bytes}
use proto_test_msquic.SctpConnection.{Connection, finish}
use proto_test_msquic.SctpConnection.Receive.{Turn, poll_loop, handle_poll_events}
use proto_test_msquic.SctpConnection.Receive.Closing.{closings, Settles, handle_poll_events-Settles}
use proto_test_msquic.SctpTransport.{Entry}
use proto_test_msquic.SctpTransport.Poll.{
  PollResult, poll_interrupted, poll_failed, poll_timed_out, poll_ready, PollTurn, Polled,
  none_open, serve_connection, serve, after_poll, server_round, client_round, run_rounds,
  server_loop, client_loop,
}

-- `OnClosed` has not been called, or once and the connection is closed.
abbrev pub IsReported : Connection → Type 0
IsReported c = (closings c.calls ≡ 0) ⊎ ((closings c.calls ≡ 1) × (c.closed ≡ true))

abbrev pub AreReported : Map Entry → Type 0
AreReported m = All (λ p. IsReported p.1.connection) m

settled-IsReported :
    (c : Connection) (r : Connection × Option Bool)
    → closings c.calls ≡ 0
    → Settles c r
    → IsReported r.0
settled-IsReported c r h (inl e) = inl (e ∙ h)
settled-IsReported c r h (inr (e, f, g)) = inr (omega (arith, e, h), g)

-- A conditional on `closed_` that is set leaves the connection as it is.
closed-IsReported :
    (closed : Bool) (c : Connection) (o : Option Bool) (r : Connection × Option Bool)
    → closed ≡ true
    → IsReported c
    → IsReported (if closed then (c, o) else r).0
closed-IsReported true c o r e h = h
closed-IsReported false c o r e h = absurd (cc)

run_rounds-AreReported :
    (round : PollTurn → Map Entry → Polled)
    → ((turn : PollTurn) (m : Map Entry) → AreReported m → AreReported (round turn m).connections)
    → (turns : List PollTurn) (m : Map Entry) → AreReported m
    → AreReported (run_rounds round turns m).connections
unfolding run_rounds
run_rounds-AreReported round step [] m h = h
run_rounds-AreReported round step (turn ∷ turns) m h =
    let r = round turn m in
    if_preserves (λ (x : Polled). AreReported x.connections) turn.stop _ _ h
      (if_preserves (λ (x : Polled). AreReported x.connections) r.goes_on _ _
        (run_rounds-AreReported round step turns r.connections (step turn m h)) (step turn m h))

module _ (takes : ℕ → Bytes → Bool) (parts : Bool) where
  handle_poll_events-IsReported :
      (bad : Bool) (turns : List Turn) (c : Connection)
      → IsReported c
      → IsReported (handle_poll_events takes parts bad turns c).0
  handle_poll_events-IsReported bad turns c (inl h) =
      settled-IsReported c (handle_poll_events takes parts bad turns c) h
        (handle_poll_events-Settles takes parts bad turns c)
  handle_poll_events-IsReported bad turns c (inr (h, e)) =
      unfold handle_poll_events in
      closed-IsReported c.closed c (some false)
        (if bad then (finish c, some false) else poll_loop takes parts turns c) e (inr (h, e))

  serve_connection-IsReported :
      (o : Option Bool) (turns : List Turn) (c : Connection)
      → IsReported c
      → IsReported (serve_connection takes parts o turns c)
  unfolding serve_connection
  serve_connection-IsReported none turns c h = h
  serve_connection-IsReported (some bad) turns c h =
      if_preserves IsReported c.fd_open _ _ (handle_poll_events-IsReported bad turns c h) h

  serve-AreReported :
      (turn : PollTurn) (m : Map Entry) → AreReported m → AreReported (serve takes parts turn m)
  unfolding serve
  serve-AreReported turn [] h = tt
  serve-AreReported turn ((id, e) ∷ m) h = (
    serve_connection-IsReported (turn.revents id) (turn.reads id) e.connection h.0,
    serve-AreReported turn m h.1,
  )

  after_poll-AreReported :
      (result : PollResult) (turn : PollTurn) (m : Map Entry)
      → AreReported m
      → AreReported (after_poll takes parts result turn m).connections
  unfolding after_poll
  after_poll-AreReported poll_interrupted turn m h = h
  after_poll-AreReported poll_failed turn m h = h
  after_poll-AreReported poll_timed_out turn m h = h
  after_poll-AreReported poll_ready turn m h = serve-AreReported turn m h

  server_round-AreReported :
      (turn : PollTurn) (m : Map Entry)
      → AreReported m
      → AreReported (server_round takes parts turn m).connections
  unfolding server_round
  server_round-AreReported turn [] h = tt
  server_round-AreReported turn (e ∷ m) h = after_poll-AreReported turn.result turn (e ∷ m) h

  client_round-AreReported :
      (turn : PollTurn) (m : Map Entry)
      → AreReported m
      → AreReported (client_round takes parts turn m).connections
  unfolding client_round
  client_round-AreReported turn [] h = tt
  client_round-AreReported turn (e ∷ m) h =
      if_preserves (λ (r : Polled). AreReported r.connections) (none_open (e ∷ m)) _ _ h
        (after_poll-AreReported turn.result turn (e ∷ m) h)

  -- If OnClosed was reported at most once for each connection of the table, and only for closed
  -- ones, then so it is after any rounds of the server's PollLoop, and of the client's.
  pub poll_loop-AreReported :
      (turns : List PollTurn) (m : Map Entry)
      → AreReported m
      → AreReported (server_loop takes parts turns m).connections
        × AreReported (client_loop takes parts turns m).connections
  unfolding server_loop client_loop
  poll_loop-AreReported turns m h = (
    run_rounds-AreReported (server_round takes parts) server_round-AreReported turns m h,
    run_rounds-AreReported (client_round takes parts) client_round-AreReported turns m h,
  )
