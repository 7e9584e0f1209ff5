-- ===== src/SctpConnection/Send/Drain.antt =====
-- How the sending thread finishes once it was asked to close, or does not.
use proto_test_msquic.Prelude.{
  ℕ, ◌≡◌, refl, sym, ap, ◌∙◌, ◌⊎◌, inl, inr, true, false, Bool-cases, List, [], ◌∷◌, ◌++◌, length,
  drop, append-nil, arith,
}
use proto_test_msquic.SctpConnection.{PendingSend}
use proto_test_msquic.SctpConnection.Send.{
  Sender, waiting, tested, asleep, sending, closing, ended, System, write_some, Step, take_next,
  see_request, write, write_done, shut_done, Reach, here, next, start,
}
use proto_test_msquic.SctpConnection.Send.Channel.{tags, in_hand, is_live}
use proto_test_msquic.SctpConnection.Send.Order.{Reach-IsOrdered}
use proto_test_msquic.SctpConnection.Send.Closing.{Reach-wire_whole, Reach-shut_ended}
use proto_test_msquic.SctpConnection.Send.Wait.{
  at_wait, Reach-pending_sends, IsOwn, OwnRun, stay, go, OwnRun-write_shut,
}

OwnRun-Reach : {s t : System} → OwnRun s t → Reach s t
OwnRun-Reach stay = here
OwnRun-Reach (go r st o) = next (OwnRun-Reach r) st

Reach-trans : {s t u : System} → Reach s t → Reach t u → Reach s u
Reach-trans r here = r
Reach-trans r (next q st) = next (Reach-trans r q) st

OwnRun-trans : {s t u : System} → OwnRun s t → OwnRun t u → OwnRun s u
OwnRun-trans r stay = r
OwnRun-trans r (go q st o) = go (OwnRun-trans r q) st o

-- A run to the end of the sending side, in which no other thread takes a step.
record Drained (s : System) : Type 0 where
  last : System
  run : OwnRun s last
  shut_down : last.write_shut ≡ true
  same_accepted : last.accepted ≡ s.accepted
  same_late : last.late ≡ s.late
  same_closed : last.connection.closed ≡ s.connection.closed

Step-Drained :
    {s t : System} (st : Step s t)
    → IsOwn st
    → t.accepted ≡ s.accepted
    → t.late ≡ s.late
    → t.connection.closed ≡ s.connection.closed
    → Drained t
    → Drained s
unfolding IsOwn
Step-Drained st o a l c d = record {
  last = d.last;
  run = OwnRun-trans (go stay st o) d.run;
  shut_down = d.shut_down;
  same_accepted = d.same_accepted ∙ a;
  same_late = d.same_late ∙ l;
  same_closed = d.same_closed ∙ c;
}

closing-Drained : (s : System) → s.sender ≡ closing → Drained s
unfolding IsOwn
closing-Drained s w = record {
  last = record s { sender = ended; write_shut = true };
  run = go stay (shut_done s w) tt;
  shut_down = refl;
  same_accepted = refl;
  same_late = refl;
  same_closed = refl;
}

drop-length : (xs : List ℕ) → drop (length xs) xs ≡ []
drop-length [] = refl
drop-length (x ∷ xs) = drop-length xs

-- The message in hand is written by one call, if what comes then drains.
sending-Drained :
    (s : System) (p : PendingSend)
    → s.sender ≡ sending p
    → ((wire : _) → Drained (record s { sender = waiting; wire = wire }))
    → Drained s
unfolding write_some IsOwn
sending-Drained s p w later =
    let n = length p.data_bytes in
    let t = write_some n p s in
    let rest = record p { data_bytes = drop n p.data_bytes } in
    Step-Drained (write s p n w (omega arith)) tt refl refl refl (
      Step-Drained (write_done t rest refl (drop-length p.data_bytes)) tt refl refl refl
        (later t.wire))

waiting-Drained :
    (ps : List PendingSend) (s : System)
    → s.sender ≡ waiting
    → s.connection.pending_sends ≡ ps
    → s.connection.send_close_requested ≡ true
    → Drained s
unfolding IsOwn
waiting-Drained [] s w e r =
    Step-Drained (see_request s w e r) tt refl refl refl
      (closing-Drained (record s { sender = closing }) refl)
waiting-Drained (p ∷ ps) s w e r =
    let t = record s {
      sender = sending p;
      connection = record (s.connection) { pending_sends = ps };
    } in
    Step-Drained (take_next s p ps w e) tt refl refl refl (
      sending-Drained t p refl
        (λ wire. waiting-Drained ps (record t { sender = waiting; wire = wire }) refl refl r))

-- A thread that runs and is not at its wait.
awake-Drained :
    (sender : Sender) (s : System)
    → s.sender ≡ sender
    → is_live sender ≡ true
    → at_wait sender ≡ false
    → s.connection.send_close_requested ≡ true
    → Drained s
unfolding is_live at_wait
awake-Drained waiting s w h a r = waiting-Drained s.connection.pending_sends s w refl r
awake-Drained tested s w h a r = absurd (cc)
awake-Drained asleep s w h a r = absurd (cc)
awake-Drained (sending p) s w h a r = sending-Drained s p w (λ wire.
    waiting-Drained s.connection.pending_sends (record s { sender = waiting; wire = wire }) refl
      refl r)
awake-Drained closing s w h a r = closing-Drained s w
awake-Drained ended s w h a r = absurd (cc)

-- A run of the thread alone ends with the sending side shut down, all bytes written, and no `Close`.
pub record IsFinishable (s : System) : Type 0 where
  pub last : System
  pub run : OwnRun s last
  pub shut_down : last.write_shut ≡ true
  pub all_written : last.wire ≡ s.accepted
  pub not_closed : last.connection.closed ≡ false

-- The thread found nothing to do before the request, and is blocked or will be: all bytes are
-- written, but no run of the thread alone shuts the sending side down.
pub record IsLost (s : System) : Type 0 where
  pub resting : at_wait s.sender ≡ true
  pub nothing_left : s.connection.pending_sends ≡ []
  pub all_written : s.wire ≡ s.accepted
  pub never_shut : {t : System} → OwnRun s t → t.write_shut ≡ false

waiting_split :
    (t : Sender) (ps : List PendingSend)
    → at_wait t ≡ true
    → ps ≡ []
    → (is_live t ≡ true) × (in_hand t (tags ps) ≡ [])
unfolding at_wait is_live in_hand tags
waiting_split waiting ps h e = absurd (cc)
waiting_split tested ps h e = (refl, rw e refl)
waiting_split asleep ps h e = (refl, rw e refl)
waiting_split (sending p) ps h e = absurd (cc)
waiting_split closing ps h e = absurd (cc)
waiting_split ended ps h e = absurd (cc)

not_shut : {s : System} → Reach start s → is_live s.sender ≡ true → s.write_shut ≡ false
unfolding is_live
not_shut {s} r h = elim (Bool-cases s.write_shut) [
  | inl e ↦ let k = Reach-shut_ended r e in let g = rw k at h in absurd (cc)
  | inr e ↦ e
]

resting-IsLost : {s : System} → Reach start s → at_wait s.sender ≡ true → IsLost s
resting-IsLost {s} r h =
    let o = Reach-IsOrdered r in
    let e = Reach-pending_sends r h in
    let parts = waiting_split s.sender s.connection.pending_sends h e in
    record {
      resting = h;
      nothing_left = e;
      all_written =
          sym (append-nil s.wire) ∙ ap (◌++◌ s.wire) (sym (o.kept parts.0 ∙ parts.1)) ∙ o.split;
      never_shut = λ run. (OwnRun-write_shut run h).1 ∙ not_shut r parts.0;
    }

-- From every reachable state in which the sending thread runs, CloseSend was called with no
-- SendCopy after it, and nothing has closed the connection: either a run of the thread alone ends
-- with the sending side shut down, all bytes of the calls of SendCopy written, and the connection
-- still not closed; or the thread is blocked or about to block, with an empty queue and all bytes
-- of the calls written, and no run of the thread alone, in which its wait does not return without
-- a notification, ever shuts the sending side down.
pub Reach-IsFinishable :
    {s : System}
    → Reach start s
    → is_live s.sender ≡ true
    → s.connection.send_close_requested ≡ true
    → s.connection.closed ≡ false
    → s.late ≡ false
    → IsFinishable s ⊎ IsLost s
Reach-IsFinishable {s} r live asked open_yet in_time = elim (Bool-cases (at_wait s.sender)) [
  | inl h ↦ inr (resting-IsLost r h)
  | inr h ↦
      let d = awake-Drained s.sender s refl live h asked in
      let whole =
        Reach-wire_whole (Reach-trans r (OwnRun-Reach d.run)) d.shut_down (d.same_late ∙ in_time) in
      inl (record {
        last = d.last;
        run = d.run;
        shut_down = d.shut_down;
        all_written = whole.0 ∙ d.same_accepted;
        not_closed = d.same_closed ∙ open_yet;
      })
]
