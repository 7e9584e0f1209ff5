-- ===== src/SctpConnection/Send.antt =====
-- The sending thread `SctpConnection::SendLoop` beside the threads that call `SendCopy`,
-- `CloseSend` and `Close`: a step relation for a connection without TLS.
pub mod Channel
pub mod Order
pub mod Closing
pub mod Drain
pub mod Wait
use proto_test_msquic.Prelude.{
  ℕ, ◌≤◌, ◌≡◌, Bool, true, false, ◌||◌, ◌&&◌, not, ◌≢◌, if◌then◌else◌, List, [], ◌∷◌, ◌++◌, map,
  length, take, drop,
}
use proto_test_msquic.Frame.{Bytes}
use proto_test_msquic.SctpConnection.{
  PendingSend, Connection, record_call, on_transport_error, queue_send, close, close_send, shut,
  finish,
}

-- Where the sending thread stands: before the predicate of `send_cv_.wait`; behind it, when it was
-- false, still with the mutex; blocked, the mutex released; in `SendBlocking` with the bytes that
-- are left; before `shutdown`; or at its end.
pub data Sender : Type 0 where
  waiting tested asleep : Sender
  sending : PendingSend → Sender
  closing ended : Sender

-- A byte on the wire carries its stream.
abbrev pub tag : PendingSend → List (ℕ × ℕ)
tag p = map (λ b. (p.stream_id, b)) p.data_bytes

-- `wire` is what the socket took. `accepted` is kept for the theorems alone: the bytes of all the
-- `SendCopy` calls; so is `late`, which says that one of them came after `CloseSend`.
pub record System : Type 0 where
  pub connection : Connection
  pub sender : Sender
  pub wire : List (ℕ × ℕ)
  pub write_shut : Bool
  pub accepted : List (ℕ × ℕ)
  pub late : Bool

-- What `notify_one` does to the thread, if it is called: only a thread that is blocked wakes.
unfoldable pub notified : Bool → Sender → Sender
notified b waiting = waiting
notified b tested = tested
notified b asleep = if b then waiting else asleep
notified b (sending p) = sending p
notified b closing = closing
notified b ended = ended

-- `SendCopy`: the push under the mutex, and the notification.
unfoldable pub enqueue : PendingSend → System → System
unfolding queue_send notified
enqueue p s = record s {
  sender = notified true s.sender;
  connection = queue_send p.stream_id p.data_bytes s.connection;
  accepted = s.accepted ++ tag p;
  late = s.late || s.connection.send_closed;
}

-- `CloseSend`, which takes no mutex: the flag, and a notification by the call that set it.
unfoldable pub request : System → System
unfolding notified
request s = record s {
  connection = (close_send shut s.connection).0;
  sender = notified (not s.connection.send_closed && s.connection.fd_open) s.sender;
}

-- `Close`, which takes no mutex either.
unfoldable pub close_down : System → System
unfolding notified
close_down s = record s {
  connection = close s.connection;
  sender = notified (not s.connection.closed) s.sender;
}

-- `sendmsg` took `n` bytes.
unfoldable pub write_some : ℕ → PendingSend → System → System
write_some n p s = record s {
  sender = sending (record p { data_bytes = drop n p.data_bytes });
  wire = s.wire ++ tag (record p { data_bytes = take n p.data_bytes });
}

-- `OnTransportError`, `Close` and `OnClosed`, after which the thread ends.
unfoldable pub give_up : System → System
unfolding finish
give_up s = record s {
  connection = finish (record_call on_transport_error s.connection);
  sender = ended;
}

-- A step of one thread. A caller's test of `closed_` and its push are two steps in the program: the
-- push is possible whatever `closed_` says by then, and a call that saw it true does nothing. So it
-- is with the sender's tests before it takes from its queue, and with `closed_`, which the predicate
-- reads first. A push needs the mutex, which the
-- thread holds from its test of the predicate until it is blocked; `CloseSend` and `Close` do not;
-- what they and a push change and the notification behind it are one step.
-- `wake_up` is a wait that returns without a notification.
pub data Step : System → System → Type 0 where
  push : (s : System) (p : PendingSend) → s.sender ≢ tested → Step s (enqueue p s)
  request_close : (s : System) → Step s (request s)
  close_it : (s : System) → Step s (close_down s)
  wake_up : (s : System) → s.sender ≡ asleep → Step s (record s { sender = waiting })
  see_nothing :
      (s : System)
      → s.sender ≡ waiting
      → s.connection.pending_sends ≡ []
      → s.connection.send_close_requested ≡ false
      → Step s (record s { sender = tested })
  fall_asleep : (s : System) → s.sender ≡ tested → Step s (record s { sender = asleep })
  see_closed :
      (s : System)
      → s.sender ≡ waiting
      → s.connection.closed ≡ true
      → Step s (record s { sender = ended })
  see_stop : (s : System) → s.sender ≡ waiting → Step s (record s { sender = ended })
  take_next :
      (s : System) (p : PendingSend) (ps : List PendingSend)
      → s.sender ≡ waiting
      → s.connection.pending_sends ≡ p ∷ ps
      → Step s (record s {
        sender = sending p;
        connection = record (s.connection) { pending_sends = ps };
      })
  see_request :
      (s : System)
      → s.sender ≡ waiting
      → s.connection.pending_sends ≡ []
      → s.connection.send_close_requested ≡ true
      → Step s (record s { sender = closing })
  write :
      (s : System) (p : PendingSend) (n : ℕ)
      → s.sender ≡ sending p
      → n ≤ length p.data_bytes
      → Step s (write_some n p s)
  write_done :
      (s : System) (p : PendingSend)
      → s.sender ≡ sending p
      → p.data_bytes ≡ []
      → Step s (record s { sender = waiting })
  write_failed : (s : System) (p : PendingSend) → s.sender ≡ sending p → Step s (give_up s)
  shut_done :
      (s : System) → s.sender ≡ closing → Step s (record s { sender = ended; write_shut = true })
  shut_failed : (s : System) → s.sender ≡ closing → Step s (give_up s)

pub data Reach (s : System) : System → Type 0 where
  here : Reach s s
  next : {t u : System} → Reach s t → Step t u → Reach s u

-- A connection as `StartReceiveLoop` finds it.
unfoldable pub start : System
start = record {
  connection = record {
    uses_tls = false;
    fd_open = true;
    closed = false;
    send_closed = false;
    send_close_requested = false;
    pending_sends = [];
    calls = [];
  };
  sender = waiting;
  wire = [];
  write_shut = false;
  accepted = [];
  late = false;
}
