-- ===== src/SctpConnection/Send/Order.antt =====
-- The order of the bytes on the wire.
use proto_test_msquic.Prelude.{
  ℕ, ◌≡◌, refl, sym, ap, ◌∙◌, true, List, [], ◌∷◌, ◌++◌, take, drop, append_assoc,
}
use proto_test_msquic.SctpConnection.{PendingSend, queue_send, close, close_send, shut}
use proto_test_msquic.SctpConnection.Send.{
  request, close_down, wake_up, see_nothing, fall_asleep, sending, tag, System, enqueue, write_some,
  give_up, Step, push, request_close, close_it, see_closed, see_stop, take_next, see_request, write,
  write_done, write_failed, shut_done, shut_failed, Reach, here, next, start,
}
use proto_test_msquic.SctpConnection.Send.Channel.{
  tags, tag-split, in_hand, in_hand-snoc, is_live, notified-is_live, notified-in_hand,
  close-pending_sends, close_send-pending_sends,
}

-- What the wire lacks of the bytes accepted: what the thread will write, while it lives.
pub record IsOrdered (s : System) : Type 0 where
  pub unsent : List (ℕ × ℕ)
  pub split : s.wire ++ unsent ≡ s.accepted
  pub kept : is_live s.sender ≡ true → unsent ≡ in_hand s.sender (tags s.connection.pending_sends)

start-IsOrdered : IsOrdered start
unfolding start in_hand tags
start-IsOrdered = record { unsent = []; split = refl; kept = λ h. refl }

-- A step that leaves the bytes alone.
same-IsOrdered :
    (s t : System)
    → t.wire ≡ s.wire
    → t.accepted ≡ s.accepted
    → (is_live t.sender ≡ true
        → (is_live s.sender ≡ true)
          × (in_hand t.sender (tags t.connection.pending_sends)
              ≡ in_hand s.sender (tags s.connection.pending_sends)))
    → IsOrdered s
    → IsOrdered t
same-IsOrdered s t w a k v = record {
  unsent = v.unsent;
  split = ap (λ (xs : List (ℕ × ℕ)). xs ++ v.unsent) w ∙ v.split ∙ sym a;
  kept = λ h. let m = k h in v.kept m.0 ∙ sym m.1;
}

write-IsOrdered :
    (s : System) (p : PendingSend) (n : ℕ)
    → s.sender ≡ sending p
    → IsOrdered s
    → IsOrdered (write_some n p s)
unfolding write_some in_hand is_live
write-IsOrdered s p n w v =
    let front = tag (record p { data_bytes = take n p.data_bytes }) in
    let back = tag (record p { data_bytes = drop n p.data_bytes }) in
    let later = tags s.connection.pending_sends in
    let e : v.unsent ≡ front ++ (back ++ later) =
      v.kept (rw w refl)
      ∙ rw w (ap (λ (xs : List (ℕ × ℕ)). xs ++ later) (tag-split p n))
      ∙ append_assoc front back later in
    record {
      unsent = back ++ later;
      split = append_assoc s.wire front (back ++ later) ∙ ap (◌++◌ s.wire) (sym e) ∙ v.split;
      kept = λ h. refl;
    }

Step-IsOrdered : {s t : System} → Step s t → IsOrdered s → IsOrdered t
unfolding request close_down enqueue queue_send give_up is_live in_hand tags
Step-IsOrdered (push s p n) v = record {
  unsent = v.unsent ++ tag p;
  split =
      sym (append_assoc s.wire v.unsent (tag p)) ∙ ap (λ (xs : List (ℕ × ℕ)). xs ++ tag p) v.split;
  kept = λ h.
      let k = sym (notified-is_live true s.sender) ∙ h in
      ap (λ (xs : List (ℕ × ℕ)). xs ++ tag p) (v.kept k)
      ∙ sym (in_hand-snoc s.sender s.connection.pending_sends p k)
      ∙ sym (notified-in_hand true s.sender (s.connection.pending_sends ++ p ∷ []));
}
Step-IsOrdered (request_close s) v =
    same-IsOrdered s _ refl refl
      (λ h. (
        sym (notified-is_live _ s.sender) ∙ h,
        notified-in_hand _ s.sender (close_send shut s.connection).0.pending_sends
            ∙ ap (λ ps. in_hand s.sender (tags ps)) (close_send-pending_sends s.connection),
      ))
      v
Step-IsOrdered (close_it s) v =
    same-IsOrdered s _ refl refl
      (λ h. (
        sym (notified-is_live _ s.sender) ∙ h,
        notified-in_hand _ s.sender (close s.connection).pending_sends
            ∙ ap (λ ps. in_hand s.sender (tags ps)) (close-pending_sends s.connection),
      ))
      v
Step-IsOrdered (wake_up s w) v = same-IsOrdered s _ refl refl (λ h. (rw w refl, rw w refl)) v
Step-IsOrdered (see_nothing s w e r) v =
    same-IsOrdered s _ refl refl (λ h. (rw w refl, rw w refl)) v
Step-IsOrdered (fall_asleep s w) v = same-IsOrdered s _ refl refl (λ h. (rw w refl, rw w refl)) v
Step-IsOrdered (see_closed s w c) v = same-IsOrdered s _ refl refl (λ h. cc) v
Step-IsOrdered (see_stop s w) v = same-IsOrdered s _ refl refl (λ h. cc) v
Step-IsOrdered (take_next s p ps w e) v =
    same-IsOrdered s _ refl refl (λ h. (rw w refl, rw (w, e) refl)) v
Step-IsOrdered (see_request s w e r) v =
    same-IsOrdered s _ refl refl (λ h. (rw w refl, rw w refl)) v
Step-IsOrdered (write s p n w le) v = write-IsOrdered s p n w v
Step-IsOrdered (write_done s p w e) v =
    same-IsOrdered s _ refl refl (λ h. (rw w refl, rw (w, e) refl)) v
Step-IsOrdered (write_failed s p w) v = same-IsOrdered s _ refl refl (λ h. cc) v
Step-IsOrdered (shut_done s w) v = same-IsOrdered s _ refl refl (λ h. cc) v
Step-IsOrdered (shut_failed s w) v = same-IsOrdered s _ refl refl (λ h. cc) v

pub Reach-IsOrdered : {s : System} → Reach start s → IsOrdered s
Reach-IsOrdered here = start-IsOrdered
Reach-IsOrdered (next r st) = Step-IsOrdered st (Reach-IsOrdered r)
