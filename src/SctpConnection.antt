-- ===== src/SctpConnection.antt =====
-- `SctpConnection`: its flags, its send queue, and the calls of its users.
-- The fields are atomics and the queue has a mutex, so that each function here is a step which the
-- threads take one after another; SctpConnection/Send has the interleavings of the sending thread,
-- SctpConnection/Blocking the loops that write, and SctpConnection/Receive those that read.
pub mod Send
pub mod Blocking
pub mod Receive
use proto_test_msquic.Prelude.{
  ℕ, Bool, true, false, List, [], ◌∷◌, ◌++◌, Option, none, some, if◌then◌else◌,
}
use proto_test_msquic.Frame.{Bytes}

-- `SctpConnection::PendingSend`
pub record PendingSend : Type 0 where
  pub stream_id : ℕ
  pub data_bytes : Bytes

-- The calls of the socket and of the event handler, in order.
pub data Call : Type 0 where
  ssl_shutdown shutdown_write shutdown_both close_fd : Call
  on_data : ℕ → Bytes → Call
  on_peer_closed on_closed on_transport_error : Call

-- `uses_tls` is `ssl_ != nullptr`, `fd_open` is `fd_ >= 0`.
pub record Connection : Type 0 where
  pub uses_tls : Bool
  pub fd_open : Bool
  pub closed : Bool
  pub send_closed : Bool
  pub send_close_requested : Bool
  pub pending_sends : List PendingSend
  pub calls : List Call

abbrev pub record_call : Call → Connection → Connection
record_call c s = record s { calls = s.calls ++ c ∷ [] }

-- What `shutdown(fd, SHUT_WR)` does: succeed, fail with ENOTCONN or EBADF, or fail otherwise.
pub data ShutResult : Type 0 where
  shut not_connected shut_failed : ShutResult

-- The queue's part of `SendCopy`, without TLS.
unfoldable pub queue_send : ℕ → Bytes → Connection → Connection
queue_send stream_id bytes s = record s {
  pending_sends = s.pending_sends ++ record { stream_id = stream_id; data_bytes = bytes } ∷ [];
}

unfoldable pub send_copy : ℕ → Bytes → Connection → Connection
unfolding queue_send
send_copy stream_id bytes s = if s.closed then s else queue_send stream_id bytes s

-- `CloseFd`
unfoldable pub close_socket : Connection → Connection
close_socket s =
    if s.fd_open then record s { fd_open = false; calls = s.calls ++ close_fd ∷ [] } else s

unfoldable pub close : Connection → Connection
unfolding close_socket
close s =
    if s.closed
    then s
    else close_socket (record s { closed = true; calls = s.calls ++ shutdown_both ∷ [] })

-- `CloseSend`, and whether it throws; `result` is what `shutdown` would do.
unfoldable pub close_tls : ShutResult → Connection → Connection × Bool
close_tls shut s = (record s { calls = s.calls ++ ssl_shutdown ∷ shutdown_write ∷ [] }, false)
close_tls not_connected s = (record s { calls = s.calls ++ ssl_shutdown ∷ [] }, false)
close_tls shut_failed s = (record s { calls = s.calls ++ ssl_shutdown ∷ [] }, true)

unfoldable pub close_send : ShutResult → Connection → Connection × Bool
unfolding close_tls
close_send result s =
    let t = record s { send_closed = true } in
    if s.send_closed
    then (s, false)
    else if s.fd_open
    then (if s.uses_tls
        then close_tls result t
        else (record t { send_close_requested = true }, false))
    else (t, false)

-- How a loop of the connection gives up: `Close` and `OnClosed`.
unfoldable pub finish : Connection → Connection
unfolding close
finish s = record_call on_closed (close s)
