-- ===== src/SctpConnection/Send/Channel.antt =====
-- What the sending side of a connection promises: a channel of bytes in order, that may break off.
use proto_test_msquic.Prelude.{
  ℕ, ◌≡◌, refl, sym, ap, ◌∙◌, Bool, true, false, List, [], ◌∷◌, ◌++◌, map, map-append, take, drop,
  append-nil, append_assoc, take-append-drop, arith,
}
use proto_test_msquic.SctpConnection.{PendingSend, Connection, queue_send, close, close_send, shut}
use proto_test_msquic.SctpConnection.Send.{
  Sender, waiting, tested, asleep, sending, closing, ended, notified, request, close_down, wake_up,
  see_nothing, fall_asleep, tag, System, enqueue, write_some, give_up, Step, push, request_close,
  close_it, see_closed, see_stop, take_next, see_request, write, write_done, write_failed,
  shut_done, shut_failed,
}

-- The specification: bytes that were written and bytes that wait. Writing takes from the front of
-- those that wait; a channel that breaks off loses them and takes no more.
pub record Channel : Type 0 where
  pub written : List (ℕ × ℕ)
  pub queued : List (ℕ × ℕ)
  pub is_open : Bool

infix 40 ◌⟶◌
pub data ◌⟶◌ (c d : Channel) : Type 0 where
  idle : d ≡ c → c ⟶ d
  accept : (xs : List (ℕ × ℕ)) → c.is_open ≡ true → d ≡ record c { queued = c.queued ++ xs } → c ⟶ d
  deliver :
      (xs ys : List (ℕ × ℕ))
      → c.is_open ≡ true
      → c.queued ≡ xs ++ ys
      → d ≡ record c { written = c.written ++ xs; queued = ys }
      → c ⟶ d
  break_off : d ≡ record c { queued = []; is_open = false } → c ⟶ d

unfoldable pub tags : List PendingSend → List (ℕ × ℕ)
tags [] = []
tags (p ∷ ps) = tag p ++ tags ps

pub tags-snoc : (ps : List PendingSend) (p : PendingSend) → tags (ps ++ p ∷ []) ≡ tags ps ++ tag p
unfolding tags
tags-snoc [] p = append-nil (tag p)
tags-snoc (q ∷ ps) p =
    ap (◌++◌ (tag q)) (tags-snoc ps p) ∙ sym (append_assoc (tag q) (tags ps) (tag p))

pub tag-split :
    (p : PendingSend) (n : ℕ)
    → tag p
      ≡ tag (record p { data_bytes = take n p.data_bytes })
        ++ tag (record p { data_bytes = drop n p.data_bytes })
tag-split p n =
    ap (map (λ b. (p.stream_id, b))) (sym (take-append-drop n p.data_bytes))
    ∙ map-append (λ b. (p.stream_id, b)) (take n p.data_bytes) (drop n p.data_bytes)

-- The bytes that the thread will still write before it looks at `closed_` again, and all of them.
unfoldable pub in_hand : Sender → List (ℕ × ℕ) → List (ℕ × ℕ)
in_hand waiting later = later
in_hand tested later = later
in_hand asleep later = later
in_hand (sending p) later = tag p ++ later
in_hand closing later = later
in_hand ended later = []

unfoldable pub is_live : Sender → Bool
is_live waiting = true
is_live tested = true
is_live asleep = true
is_live (sending p) = true
is_live closing = true
is_live ended = false

abbrev pub channel_of : Sender → List (ℕ × ℕ) → List PendingSend → Channel
channel_of t wire ps = record { written = wire; queued = in_hand t (tags ps); is_open = is_live t }

-- The channel that a connection is.
unfoldable pub channel : System → Channel
channel s = channel_of s.sender s.wire s.connection.pending_sends

channel_with : List (ℕ × ℕ) → List (ℕ × ℕ) → Channel
channel_with wire queued = record { written = wire; queued = queued; is_open = true }

pub close-pending_sends : (c : Connection) → (close c).pending_sends ≡ c.pending_sends
unfolding close
close-pending_sends c = ground arith

pub close_send-pending_sends :
    (c : Connection) → (close_send shut c).0.pending_sends ≡ c.pending_sends
unfolding close_send
close_send-pending_sends c = ground arith

pub in_hand-snoc :
    (t : Sender) (ps : List PendingSend) (p : PendingSend)
    → is_live t ≡ true
    → in_hand t (tags (ps ++ p ∷ [])) ≡ in_hand t (tags ps) ++ tag p
unfolding in_hand is_live
in_hand-snoc waiting ps p h = tags-snoc ps p
in_hand-snoc tested ps p h = tags-snoc ps p
in_hand-snoc asleep ps p h = tags-snoc ps p
in_hand-snoc (sending q) ps p h =
    ap (◌++◌ (tag q)) (tags-snoc ps p) ∙ sym (append_assoc (tag q) (tags ps) (tag p))
in_hand-snoc closing ps p h = tags-snoc ps p
in_hand-snoc ended ps p h = cc

-- A notification leaves the channel as it is.
channel-notified :
    (b : Bool) (t : Sender) (wire : List (ℕ × ℕ)) (ps : List PendingSend)
    → channel_of (notified b t) wire ps ≡ channel_of t wire ps
unfolding notified in_hand is_live
channel-notified b waiting wire ps = refl
channel-notified b tested wire ps = refl
channel-notified true asleep wire ps = refl
channel-notified false asleep wire ps = refl
channel-notified b (sending p) wire ps = refl
channel-notified b closing wire ps = refl
channel-notified b ended wire ps = refl

pub notified-is_live : (b : Bool) (t : Sender) → is_live (notified b t) ≡ is_live t
notified-is_live b t = ap (λ c. c.is_open) (channel-notified b t [] [])

pub notified-in_hand :
    (b : Bool) (t : Sender) (ps : List PendingSend)
    → in_hand (notified b t) (tags ps) ≡ in_hand t (tags ps)
notified-in_hand b t ps = ap (λ c. c.queued) (channel-notified b t [] ps)

push-refines :
    (t : Sender) (wire : List (ℕ × ℕ)) (ps : List PendingSend) (p : PendingSend)
    → channel_of t wire ps ⟶ channel_of (notified true t) wire (ps ++ p ∷ [])
unfolding in_hand is_live tags channel_with notified
push-refines waiting wire ps p = accept (tag p) refl (ap (channel_with wire) (tags-snoc ps p))
push-refines tested wire ps p = accept (tag p) refl (ap (channel_with wire) (tags-snoc ps p))
push-refines asleep wire ps p = accept (tag p) refl (ap (channel_with wire) (tags-snoc ps p))
push-refines (sending q) wire ps p =
    accept (tag p) refl (ap (channel_with wire) (in_hand-snoc (sending q) ps p refl))
push-refines closing wire ps p = accept (tag p) refl (ap (channel_with wire) (tags-snoc ps p))
push-refines ended wire ps p = idle refl

write-refines :
    (wire : List (ℕ × ℕ)) (ps : List PendingSend) (p : PendingSend) (n : ℕ)
    → channel_of (sending p) wire ps
      ⟶ channel_of
          (sending (record p { data_bytes = drop n p.data_bytes }))
          (wire ++ tag (record p { data_bytes = take n p.data_bytes }))
          ps
unfolding in_hand is_live
write-refines wire ps p n =
    let front = tag (record p { data_bytes = take n p.data_bytes }) in
    let back = tag (record p { data_bytes = drop n p.data_bytes }) in
    deliver front (back ++ tags ps) refl
      (ap (λ (xs : List (ℕ × ℕ)). xs ++ tags ps) (tag-split p n)
        ∙ append_assoc front back (tags ps))
      refl

-- Each step of a connection's threads, seen as the bytes on the wire and the bytes still to be
-- sent, is a step of a channel: one that accepts bytes at its end, delivers a first part of what
-- waits, breaks off for good, or does nothing.
pub Step-refines : {s t : System} → Step s t → channel s ⟶ channel t
unfolding channel request close_down enqueue queue_send write_some give_up in_hand is_live tags
Step-refines (push s p n) = push-refines s.sender s.wire s.connection.pending_sends p
Step-refines (request_close s) = idle (
    channel-notified _ s.sender s.wire (close_send shut s.connection).0.pending_sends
    ∙ ap (channel_of s.sender s.wire) (close_send-pending_sends s.connection))
Step-refines (close_it s) = idle (
    channel-notified _ s.sender s.wire (close s.connection).pending_sends
    ∙ ap (channel_of s.sender s.wire) (close-pending_sends s.connection))
Step-refines (wake_up s w) = idle (rw w refl)
Step-refines (see_nothing s w e r) = idle (rw w refl)
Step-refines (fall_asleep s w) = idle (rw w refl)
Step-refines (see_closed s w c) = break_off refl
Step-refines (see_stop s w) = break_off refl
Step-refines (take_next s p ps w e) = idle (rw (w, e) refl)
Step-refines (see_request s w e r) = idle (rw w refl)
Step-refines (write s p n w le) = rw w (write-refines s.wire s.connection.pending_sends p n)
Step-refines (write_done s p w e) = idle (rw (w, e) refl)
Step-refines (write_failed s p w) = break_off refl
Step-refines (shut_done s w) = break_off refl
Step-refines (shut_failed s w) = break_off refl
