-- ===== src/SctpConnection/Send/Closing.antt =====
-- The graceful end of a connection's sending side.
use proto_test_msquic.Prelude.{
  Bool, not, ◌&&◌, ◌≡◌, refl, sym, ap, ◌∙◌, ◌≢◌, true, false, [], ◌++◌, append-nil, arith,
}
use proto_test_msquic.SctpConnection.{
  PendingSend, Connection, queue_send, close, close_send, finish, record_call, on_transport_error,
}
use proto_test_msquic.SctpConnection.Send.{
  Sender, waiting, tested, asleep, sending, notified, request, close_down, wake_up, see_nothing,
  fall_asleep, closing, ended, System, enqueue, write_some, give_up, Step, push, request_close,
  close_it, see_closed, see_stop, take_next, see_request, write, write_done, write_failed,
  shut_done, shut_failed, Reach, here, next, start,
}
use proto_test_msquic.SctpConnection.Send.Channel.{tags, in_hand, is_live}
use proto_test_msquic.SctpConnection.Send.Order.{IsOrdered, Reach-IsOrdered}

-- The thread is about to shut its side down, or has done so, only when it was asked to; unless a
-- `SendCopy` came after `CloseSend`, there is nothing left to send by then.
pub record IsClosing (s : System) : Type 0 where
  pub asked : s.connection.send_close_requested ≡ true → s.connection.send_closed ≡ true
  pub closing_asked : s.sender ≡ closing → s.connection.send_close_requested ≡ true
  pub closing_empty : s.sender ≡ closing → s.late ≡ false → s.connection.pending_sends ≡ []
  pub shut_ended : s.write_shut ≡ true → s.sender ≡ ended
  pub shut_asked : s.write_shut ≡ true → s.connection.send_closed ≡ true
  pub shut_all : s.write_shut ≡ true → s.late ≡ false → s.wire ≡ s.accepted

start-IsClosing : IsClosing start
unfolding start
start-IsClosing = record {
  asked = λ h. cc;
  closing_asked = λ h. cc;
  closing_empty = λ h. cc;
  shut_ended = λ h. cc;
  shut_asked = λ h. cc;
  shut_all = λ h. cc;
}

-- What `Close` and `finish` leave alone.
record Keeps (c d : Connection) : Type 0 where
  requested : d.send_close_requested ≡ c.send_close_requested
  send_closed : d.send_closed ≡ c.send_closed
  pending : d.pending_sends ≡ c.pending_sends

close-Keeps : (c : Connection) → Keeps c (close c)
unfolding close
close-Keeps c = record {
  requested = ground arith;
  send_closed = ground arith;
  pending = ground arith;
}

-- A step to a place that is not `closing`, with the connection's flags as they were.
moved-IsClosing :
    (s t : System)
    → (t.sender ≡ closing → s.sender ≡ closing)
    → (s.sender ≡ ended → t.sender ≡ ended)
    → t.write_shut ≡ s.write_shut
    → t.late ≡ s.late
    → (s.write_shut ≡ true → t.wire ≡ s.wire)
    → t.accepted ≡ s.accepted
    → Keeps s.connection t.connection
    → IsClosing s
    → IsClosing t
moved-IsClosing s t m n w l r a k v = record {
  asked = ground (arith, v.asked, k.requested, k.send_closed);
  closing_asked = λ h. k.requested ∙ v.closing_asked (m h);
  closing_empty = λ h b. k.pending ∙ v.closing_empty (m h) (sym l ∙ b);
  shut_ended = λ h. n (v.shut_ended (sym w ∙ h));
  shut_asked = λ h. k.send_closed ∙ v.shut_asked (sym w ∙ h);
  shut_all = λ h b. r (sym w ∙ h) ∙ v.shut_all (sym w ∙ h) (sym l ∙ b) ∙ sym a;
}

notified-closing : (b : Bool) (t : Sender) → notified b t ≡ closing → t ≡ closing
unfolding notified
notified-closing b waiting h = cc
notified-closing b tested h = cc
notified-closing true asleep h = cc
notified-closing false asleep h = cc
notified-closing b (sending p) h = cc
notified-closing b closing h = refl
notified-closing b ended h = cc

notified-ended : (b : Bool) (t : Sender) → t ≡ ended → notified b t ≡ ended
unfolding notified
notified-ended b t h = rw h refl

push-IsClosing : (s : System) (p : PendingSend) → IsClosing s → IsClosing (enqueue p s)
unfolding enqueue queue_send
push-IsClosing s p v = record {
  asked = v.asked;
  closing_asked = λ h. v.closing_asked (notified-closing true s.sender h);
  closing_empty =
      λ h b. let c = v.asked (v.closing_asked (notified-closing true s.sender h)) in ground arith;
  shut_ended = λ h. notified-ended true s.sender (v.shut_ended h);
  shut_asked = v.shut_asked;
  shut_all = λ h b. let c = v.shut_asked h in ground arith;
}

request-IsClosing : (s : System) → IsClosing s → IsClosing (request s)
unfolding request close_send
request-IsClosing s v =
    let b = not s.connection.send_closed && s.connection.fd_open in
    record {
      asked = ground (arith, v.asked);
      closing_asked = λ h. let c = v.closing_asked (notified-closing b s.sender h) in ground arith;
      closing_empty =
          λ h k. let c = v.closing_empty (notified-closing b s.sender h) k in ground arith;
      shut_ended = λ h. notified-ended b s.sender (v.shut_ended h);
      shut_asked = λ h. let c = v.shut_asked h in ground arith;
      shut_all = v.shut_all;
    }

Keeps-refl : (c : Connection) → Keeps c c
Keeps-refl c = record { requested = refl; send_closed = refl; pending = refl }

-- The thread ends: nothing of the flags changes but those that `finish` does not touch.
ended-IsClosing :
    (s t : System)
    → (s.sender ≡ ended → t.sender ≡ ended)
    → (t.sender ≡ closing → s.sender ≡ closing)
    → t.write_shut ≡ s.write_shut
    → t.late ≡ s.late
    → t.wire ≡ s.wire
    → t.accepted ≡ s.accepted
    → Keeps s.connection t.connection
    → IsClosing s
    → IsClosing t
ended-IsClosing s t n m w l r a k v = moved-IsClosing s t m n w l (λ h. r) a k v

shut-IsClosing :
    (s : System)
    → s.sender ≡ closing
    → IsOrdered s
    → IsClosing s
    → IsClosing (record s { sender = ended; write_shut = true })
unfolding in_hand is_live tags
shut-IsClosing s w o v = record {
  asked = v.asked;
  closing_asked = λ h. cc;
  closing_empty = λ h. cc;
  shut_ended = λ h. refl;
  shut_asked = λ h. v.asked (v.closing_asked w);
  shut_all = λ h b.
      let none_left : o.unsent ≡ [] = o.kept (rw w refl) ∙ rw (w, v.closing_empty w b) refl in
      sym (append-nil s.wire) ∙ ap (◌++◌ s.wire) (sym none_left) ∙ o.split;
}

give_up-IsClosing : (s : System) → s.sender ≢ ended → IsClosing s → IsClosing (give_up s)
unfolding give_up finish
give_up-IsClosing s n v =
    let k = close-Keeps (record_call on_transport_error s.connection) in
    ended-IsClosing s _ (λ h. refl) (λ h. cc) refl refl refl refl
      (record { requested = k.requested; send_closed = k.send_closed; pending = k.pending }) v

Step-IsClosing : {s t : System} → Step s t → IsOrdered s → IsClosing s → IsClosing t
unfolding write_some close_down
Step-IsClosing (push s p n) o v = push-IsClosing s p v
Step-IsClosing (request_close s) o v = request-IsClosing s v
Step-IsClosing (close_it s) o v =
    let b = not s.connection.closed in
    moved-IsClosing s _ (notified-closing b s.sender) (notified-ended b s.sender) refl refl
      (λ h. refl) refl (close-Keeps s.connection) v
Step-IsClosing (wake_up s w) o v =
    moved-IsClosing s _ (λ h. cc) (λ h. cc) refl refl (λ h. refl) refl (Keeps-refl s.connection) v
Step-IsClosing (see_nothing s w e r) o v =
    moved-IsClosing s _ (λ h. cc) (λ h. cc) refl refl (λ h. refl) refl (Keeps-refl s.connection) v
Step-IsClosing (fall_asleep s w) o v =
    moved-IsClosing s _ (λ h. cc) (λ h. cc) refl refl (λ h. refl) refl (Keeps-refl s.connection) v
Step-IsClosing (see_closed s w c) o v =
    ended-IsClosing s _ (λ h. refl) (λ h. cc) refl refl refl refl (Keeps-refl s.connection) v
Step-IsClosing (see_stop s w) o v =
    ended-IsClosing s _ (λ h. refl) (λ h. cc) refl refl refl refl (Keeps-refl s.connection) v
Step-IsClosing (take_next s p ps w e) o v = record {
  asked = v.asked;
  closing_asked = λ h. cc;
  closing_empty = λ h. cc;
  shut_ended = λ h. let c = v.shut_ended h in cc;
  shut_asked = v.shut_asked;
  shut_all = v.shut_all;
}
Step-IsClosing (see_request s w e r) o v = record {
  asked = v.asked;
  closing_asked = λ h. r;
  closing_empty = λ h b. e;
  shut_ended = λ h. let c = v.shut_ended h in cc;
  shut_asked = v.shut_asked;
  shut_all = v.shut_all;
}
Step-IsClosing (write s p n w le) o v =
    moved-IsClosing s _ (λ h. cc) (λ h. cc) refl refl (λ h. let c = v.shut_ended h in cc) refl
      (Keeps-refl s.connection) v
Step-IsClosing (write_done s p w e) o v =
    moved-IsClosing s _ (λ h. cc) (λ h. cc) refl refl (λ h. refl) refl (Keeps-refl s.connection) v
Step-IsClosing (write_failed s p w) o v = give_up-IsClosing s (λ h. cc) v
Step-IsClosing (shut_done s w) o v = shut-IsClosing s w o v
Step-IsClosing (shut_failed s w) o v = give_up-IsClosing s (λ h. cc) v

Reach-IsClosing : {s : System} → Reach start s → IsClosing s
Reach-IsClosing here = start-IsClosing
Reach-IsClosing (next r st) = Step-IsClosing st (Reach-IsOrdered r) (Reach-IsClosing r)

pub Reach-shut_ended : {s : System} → Reach start s → s.write_shut ≡ true → s.sender ≡ ended
Reach-shut_ended r h = (Reach-IsClosing r).shut_ended h

-- Whatever the order of the steps of the sending thread and of the threads that call SendCopy,
-- CloseSend and Close: when the sending thread has shut the sending side down, and no SendCopy
-- came after CloseSend, the socket took exactly the bytes of all the calls of SendCopy, in their
-- order and each on its stream, and CloseSend was called.
pub Reach-wire_whole :
    {s : System}
    → Reach start s
    → s.write_shut ≡ true
    → s.late ≡ false
    → (s.wire ≡ s.accepted) × (s.connection.send_closed ≡ true)
Reach-wire_whole r h b = ((Reach-IsClosing r).shut_all h b, (Reach-IsClosing r).shut_asked h)
