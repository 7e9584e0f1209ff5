-- ===== src/SctpConnection/Send/Wait.antt =====
-- The wait of the sending thread on `send_cv_`.
use proto_test_msquic.Prelude.{◌≡◌, ◌≢◌, ◌∙◌, refl, Bool, true, false, []}
use proto_test_msquic.SctpConnection.Send.{
  Sender, waiting, tested, asleep, sending, closing, ended, notified, System, enqueue, request,
  close_down, write_some, give_up, Step, push, request_close, close_it, wake_up, see_nothing,
  fall_asleep, see_closed, see_stop, take_next, see_request, write, write_done, write_failed,
  shut_done, shut_failed, Reach, here, next, start,
}
use proto_test_msquic.SctpConnection.Send.Channel.{close-pending_sends, close_send-pending_sends}

-- The predicate of the wait was false: the thread is blocked, or will be.
unfoldable pub at_wait : Sender → Bool
at_wait waiting = false
at_wait tested = true
at_wait asleep = true
at_wait (sending p) = false
at_wait closing = false
at_wait ended = false

-- A notification does not put the thread to sleep.
notified-at_wait : (b : Bool) (t : Sender) → at_wait (notified b t) ≡ true → at_wait t ≡ true
unfolding at_wait notified
notified-at_wait b waiting h = h
notified-at_wait b tested h = h
notified-at_wait b asleep h = refl
notified-at_wait b (sending p) h = h
notified-at_wait b closing h = h
notified-at_wait b ended h = h

-- A push finds the thread without the mutex, and wakes it.
push-at_wait : (t : Sender) → t ≢ tested → at_wait (notified true t) ≡ false
unfolding at_wait notified
push-at_wait waiting n = refl
push-at_wait tested n = absurd (n refl)
push-at_wait asleep n = refl
push-at_wait (sending p) n = refl
push-at_wait closing n = refl
push-at_wait ended n = refl

IsResting : System → Type 0
IsResting s = at_wait s.sender ≡ true → s.connection.pending_sends ≡ []

Step-IsResting : {s t : System} → Step s t → IsResting s → IsResting t
unfolding IsResting enqueue request close_down write_some give_up at_wait
Step-IsResting (push s p n) v = λ h. let k = push-at_wait s.sender n in absurd (cc)
Step-IsResting (request_close s) v =
    λ h. close_send-pending_sends s.connection ∙ v (notified-at_wait _ s.sender h)
Step-IsResting (close_it s) v =
    λ h. close-pending_sends s.connection ∙ v (notified-at_wait _ s.sender h)
Step-IsResting (wake_up s w) v = λ h. absurd (cc)
Step-IsResting (see_nothing s w e r) v = λ h. e
Step-IsResting (fall_asleep s w) v = λ h. v (rw w refl)
Step-IsResting (see_closed s w c) v = λ h. absurd (cc)
Step-IsResting (see_stop s w) v = λ h. absurd (cc)
Step-IsResting (take_next s p ps w e) v = λ h. absurd (cc)
Step-IsResting (see_request s w e r) v = λ h. absurd (cc)
Step-IsResting (write s p n w le) v = λ h. absurd (cc)
Step-IsResting (write_done s p w e) v = λ h. absurd (cc)
Step-IsResting (write_failed s p w) v = λ h. absurd (cc)
Step-IsResting (shut_done s w) v = λ h. absurd (cc)
Step-IsResting (shut_failed s w) v = λ h. absurd (cc)

-- A thread whose predicate was false has an empty queue: no push is slept through.
pub Reach-pending_sends :
    {s : System} → Reach start s → at_wait s.sender ≡ true → s.connection.pending_sends ≡ []
unfolding start IsResting at_wait
Reach-pending_sends here h = refl
Reach-pending_sends (next r st) h = Step-IsResting st (Reach-pending_sends r) h

-- A step of the sending thread itself: no caller's, no wait that returns without a notification,
-- and not the end of the whole program.
unfoldable pub IsOwn : {s t : System} → Step s t → Type 0
IsOwn (push s p n) = ⊥
IsOwn (request_close s) = ⊥
IsOwn (close_it s) = ⊥
IsOwn (wake_up s w) = ⊥
IsOwn (see_stop s w) = ⊥
IsOwn (see_nothing s w e r) = Unit
IsOwn (fall_asleep s w) = Unit
IsOwn (see_closed s w c) = Unit
IsOwn (take_next s p ps w e) = Unit
IsOwn (see_request s w e r) = Unit
IsOwn (write s p n w le) = Unit
IsOwn (write_done s p w e) = Unit
IsOwn (write_failed s p w) = Unit
IsOwn (shut_done s w) = Unit
IsOwn (shut_failed s w) = Unit

-- A run of the sending thread alone.
pub data OwnRun (s : System) : System → Type 0 where
  stay : OwnRun s s
  go : {t u : System} → OwnRun s t → (st : Step t u) → IsOwn st → OwnRun s u

own-at_wait :
    {s t : System} (st : Step s t)
    → IsOwn st
    → at_wait s.sender ≡ true
    → (at_wait t.sender ≡ true) × (t.write_shut ≡ s.write_shut)
unfolding IsOwn at_wait
own-at_wait (push s p n) o h = absurd o
own-at_wait (request_close s) o h = absurd o
own-at_wait (close_it s) o h = absurd o
own-at_wait (wake_up s w) o h = absurd o
own-at_wait (see_stop s w) o h = absurd o
own-at_wait (see_nothing s w e r) o h = (refl, refl)
own-at_wait (fall_asleep s w) o h = (refl, refl)
own-at_wait (see_closed s w c) o h = let k = rw w at h in absurd (cc)
own-at_wait (take_next s p ps w e) o h = let k = rw w at h in absurd (cc)
own-at_wait (see_request s w e r) o h = let k = rw w at h in absurd (cc)
own-at_wait (write s p n w le) o h = let k = rw w at h in absurd (cc)
own-at_wait (write_done s p w e) o h = let k = rw w at h in absurd (cc)
own-at_wait (write_failed s p w) o h = let k = rw w at h in absurd (cc)
own-at_wait (shut_done s w) o h = let k = rw w at h in absurd (cc)
own-at_wait (shut_failed s w) o h = let k = rw w at h in absurd (cc)

-- Once its predicate was false, the thread alone never shuts the sending side down.
pub OwnRun-write_shut :
    {s t : System}
    → OwnRun s t
    → at_wait s.sender ≡ true
    → (at_wait t.sender ≡ true) × (t.write_shut ≡ s.write_shut)
OwnRun-write_shut stay h = (h, refl)
OwnRun-write_shut (go r st o) h =
    let before = OwnRun-write_shut r h in
    let after = own-at_wait st o before.0 in (after.0, after.1 ∙ before.1)
