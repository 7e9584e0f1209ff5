-- ===== src/SctpConnection/Receive.antt =====
-- The loops that read: `SctpConnection::ReceiveLoop`, and `HandlePollEvents` with TLS.
-- What the reading calls return, in order, is an argument, and so is what the handler's callbacks
-- do: `takes` says whether `OnData` returns, `parts` whether `OnPeerClosed` does.
pub mod Closing
use proto_test_msquic.Prelude.{
  ℕ, zero, suc, ◌+◌, ◌≤◌, ◌≡◌, refl, sym, ap, ◌∙◌, ◌⊎◌, inl, inr, Bool, true, false, not,
  Bool-cases, List, [], ◌∷◌, ◌++◌, Option, none, some, arith, if◌then◌else◌,
}
use proto_test_msquic.Frame.{Bytes}
use proto_test_msquic.SctpConnection.{
  Call, ssl_shutdown, shutdown_write, shutdown_both, close_fd, on_data, on_peer_closed, on_closed,
  on_transport_error, Connection, record_call, close, close_socket, finish,
}

-- A read: bytes on a stream (the default one, where the message does not say), the end, EINTR,
-- EAGAIN, a TLS wait, a lost peer (ENOTCONN, ECONNRESET, EPIPE), another errno, another TLS error.
pub data Read : Type 0 where
  got : ℕ → Bytes → Read
  end_of_stream interrupted again want lost failed tls_failed : Read

-- An iteration: whether the loop's own test ends it, the read, and `closed_` as it is seen after.
pub record Turn : Type 0 where
  pub stop : Bool
  pub read : Read
  pub closed : Bool

module _ (takes : ℕ → Bytes → Bool) (parts : Bool) where
  -- `OnData`, then `OnTransportError` if it throws.
  unfoldable pub hand_over : ℕ → Bytes → Connection → Connection
  hand_over stream_id bytes s =
      let t = record_call (on_data stream_id bytes) s in
      if takes stream_id bytes then t else record_call on_transport_error t

  unfoldable pub part : Connection → Connection
  part s =
      let t = record_call on_peer_closed s in if parts then t else record_call on_transport_error t

  -- The body of `ReceiveLoop` after its test, and whether the loop goes on.
  unfoldable pub receive_turn : Read → Bool → Connection → Connection × Bool
  unfolding hand_over part
  receive_turn (got stream_id bytes) closed s = (hand_over stream_id bytes s, takes stream_id bytes)
  receive_turn end_of_stream closed s = (part s, false)
  receive_turn interrupted closed s = (s, true)
  receive_turn again closed s = (s, not closed)
  receive_turn want closed s = (if closed then record_call on_transport_error s else s, not closed)
  receive_turn lost closed s = (part s, false)
  receive_turn failed closed s = (if closed then s else record_call on_transport_error s, false)
  receive_turn tls_failed closed s = (record_call on_transport_error s, false)

  -- The loop and what follows it; the second part says that it has ended.
  unfoldable pub receive_loop : List Turn → Connection → Connection × Bool
  receive_loop [] s = (s, false)
  receive_loop (turn ∷ turns) s =
      let r = receive_turn turn.read turn.closed s in
      let rest = receive_loop turns r.0 in
      elim turn.stop [
        | true ↦ (finish s, true)
        | false ↦ elim r.1 [ true ↦ rest | false ↦ (finish r.0, true) ]
      ]

  -- The body of the loop of `HandlePollEvents` after its test, and what the function returns then,
  -- unless the loop goes on.
  unfoldable pub poll_turn : Read → Connection → Connection × Option Bool
  unfolding hand_over part
  poll_turn (got stream_id bytes) s =
      let t = hand_over stream_id bytes s in
      if takes stream_id bytes then (t, none) else (finish t, some false)
  poll_turn end_of_stream s = (finish (part s), some false)
  poll_turn interrupted s = (finish (record_call on_transport_error s), some false)
  poll_turn again s = (s, some true)
  poll_turn want s = (s, some true)
  poll_turn lost s = (finish (record_call on_transport_error s), some false)
  poll_turn failed s = (finish (record_call on_transport_error s), some false)
  poll_turn tls_failed s = (finish (record_call on_transport_error s), some false)

  -- A turn's `stop` ends the loop, with `closed_` as it is seen then.
  unfoldable pub poll_loop : List Turn → Connection → Connection × Option Bool
  poll_loop [] s = (s, none)
  poll_loop (turn ∷ turns) s =
      let r = poll_turn turn.read s in
      let rest = poll_loop turns r.0 in
      elim turn.stop [
        | true ↦ (s, some (not turn.closed))
        | false ↦ elim r.1 [ none ↦ rest | some b ↦ (r.0, some b) ]
      ]

  -- `bad` stands for POLLERR, POLLHUP and POLLNVAL.
  unfoldable pub handle_poll_events : Bool → List Turn → Connection → Connection × Option Bool
  handle_poll_events bad turns s =
      if s.closed
      then (s, some false)
      else if bad
      then (finish s, some false)
      else poll_loop turns s
