-- ===== src/LoadClient/Wire.antt =====
-- What `PumpSends` gives to `SendCopy` on one stream.
pub mod Sent
use proto_test_msquic.Prelude.{
  ℕ, suc, ◌+◌, ◌^◌, ◌<◌, ◌≡◌, ◌≢◌, refl, sym, ap, ◌∙◌, inl, inr, Bool, true, false, ◌&&◌, ◌||◌, not,
  Bool-cases, Option, Option-cases, List, [], ◌∷◌, ◌++◌, none, some, map, length, length-append,
  All, append-nil, append_assoc, find, find_or, find_or-put_self, find_or_of, ◌==◌, if◌then◌else◌,
  arith,
}
use proto_test_msquic.Prelude.Float.{Float64}
use proto_test_msquic.Config.Profiles.{StreamProfile}
use proto_test_msquic.Config.Load.{AppConfig, is_empty}
use proto_test_msquic.Frame.{Bytes}
use proto_test_msquic.Stats.{add64}
use proto_test_msquic.LoadClient.{
  ClientStream, ClientConnection, Client, Action, send_copy, close_send, close, ClientError,
}
use proto_test_msquic.LoadClient.Message.{make_frame, restamp}
use proto_test_msquic.LoadClient.Profile.{stream_profile_for_ordinal}
use proto_test_msquic.LoadClient.Pump.{
  Pump, PumpStop, finished, failed, out_of_fuel, new_stream, new_connection, pump_loop,
}
use proto_test_msquic.LoadClient.Pump.Bounds.{pump_loop-bounds}
use proto_test_msquic.LoadClient.Pump.Kept.{AreKept-refl, Completes, pump_loop-AreKept}
use proto_test_msquic.LoadClient.Pump.Frames.{
  of_stream, Made, IsMade, frame_of, IsQueued, pump_loop-IsQueued,
}
use proto_test_msquic.LoadClient.Sending.{
  all_streams_drained, transmit, finish_sends, pump_result, after_transmit, after_lock, store,
  unlock, pump_connection, pump_sends,
}
use proto_test_msquic.LoadClient.Receive.Chunks.{stream_of}
use proto_test_msquic.LoadClient.Receive.Pumped.{transmit_accepted, after_lock_accepted}

-- A message of a stream: its sequence number, when its frame was made, and when it was sent.
pub record Message : Type 0 where
  pub sequence : ℕ
  pub made_ns : ℕ
  pub sent_ns : ℕ

pub record IsMessage (m : Message) : Type 0 where
  pub sequence_fits : m.sequence < 2 ^ 64
  pub made_fits : m.made_ns < 2 ^ 64
  pub sent_fits : m.sent_ns < 2 ^ 64

-- The frame as `SendCopy` takes it: made under the lock, and stamped again before the call.
abbrev pub wire_frame : ℕ → Message → Bytes
wire_frame size m = restamp (make_frame size m.sequence m.made_ns) m.sent_ns

-- The frames that the client gave to `SendCopy` on a stream, in order.
unfoldable pub frames_copied : ℕ → ℕ → List Action → List Bytes
frames_copied c i [] = []
frames_copied c i (send_copy d j w ∷ actions) =
    let rest = frames_copied c i actions in if d == c && j == i then w ∷ rest else rest
frames_copied c i (close_send d ∷ actions) = frames_copied c i actions
frames_copied c i (close d ∷ actions) = frames_copied c i actions

frames_copied-append :
    (c i : ℕ) (xs ys : List Action)
    → frames_copied c i (xs ++ ys) ≡ frames_copied c i xs ++ frames_copied c i ys
unfolding frames_copied
frames_copied-append c i [] ys = refl
frames_copied-append c i (send_copy d j w ∷ xs) ys = elim (Bool-cases (d == c && j == i)) [
  | inl e ↦
      rw (e, frames_copied) (ap (λ (ws : List Bytes). w ∷ ws) (frames_copied-append c i xs ys))
  | inr e ↦ rw (e, frames_copied) (frames_copied-append c i xs ys)
]
frames_copied-append c i (close_send d ∷ xs) ys = frames_copied-append c i xs ys
frames_copied-append c i (close d ∷ xs) ys = frames_copied-append c i xs ys

-- More frames of a stream than before, for the messages that were made.
pub record IsExtended (size c i : ℕ) (made : List Made) (before after : List Action) : Type 0 where
  pub messages : List Message
  pub valid : All IsMessage messages
  pub same_length : length messages ≡ length made
  pub extended :
      frames_copied c i after ≡ frames_copied c i before ++ map (wire_frame size) messages

module _ (F : Float64) (clock : ℕ → ℕ) (config : AppConfig) (accepts : ℕ → ℕ → Bytes → Bool)
    (shuts : ℕ → Bool) (accepted : (i j : ℕ) (w : Bytes) → accepts i j w ≡ true)
    (shut : (i : ℕ) → shuts i ≡ true) (timely : (k : ℕ) → clock k < 2 ^ 64) (c i : ℕ) where
  -- A frame of another stream.
  skip-IsExtended :
      (size : ℕ) (made : List Made) (actions after : List Action) (j : ℕ) (w : Bytes)
      → (j == i) ≡ false
      → IsExtended size c i made (actions ++ send_copy c j w ∷ []) after
      → IsExtended size c i made actions after
  unfolding frames_copied
  skip-IsExtended size made actions after j w h v =
      let other : (c == c && j == i) ≡ false = ground arith in
      let same : frames_copied c i (actions ++ send_copy c j w ∷ []) ≡ frames_copied c i actions =
        frames_copied-append c i actions (send_copy c j w ∷ [])
        ∙ rw (other, frames_copied) (append-nil (frames_copied c i actions)) in
      record {
        messages = v.messages;
        valid = v.valid;
        same_length = v.same_length;
        extended =
            v.extended ∙ ap (λ (ws : List Bytes). ws ++ map (wire_frame size) v.messages) same;
      }

  take-IsExtended :
      (size : ℕ) (m : Made) (made : List Made) (actions after : List Action) (j now : ℕ) (w : Bytes)
      → (j == i) ≡ true
      → IsMade m
      → now < 2 ^ 64
      → w ≡ frame_of size m
      → IsExtended size c i made (actions ++ send_copy c j (restamp w now) ∷ []) after
      → IsExtended size c i (m ∷ made) actions after
  unfolding frames_copied
  take-IsExtended size m made actions after j now w h k t e v =
      let mine : (c == c && j == i) ≡ true = ground arith in
      let first : Message = record { sequence = m.sequence; made_ns = m.made_ns; sent_ns = now } in
      let same : frames_copied c i (actions ++ send_copy c j (restamp w now) ∷ [])
          ≡ frames_copied c i actions ++ wire_frame size first ∷ [] =
        frames_copied-append c i actions (send_copy c j (restamp w now) ∷ [])
        ∙ rw (mine, frames_copied)
            (ap (λ (x : Bytes). frames_copied c i actions ++ restamp x now ∷ []) e) in
      record {
        messages = first ∷ v.messages;
        valid = (
          record { sequence_fits = k.sequence_fits; made_fits = k.made_fits; sent_fits = t },
          v.valid,
        );
        same_length = omega (arith, v.same_length);
        extended =
            v.extended
            ∙ ap (λ (ws : List Bytes). ws ++ map (wire_frame size) v.messages) same
            ∙ append_assoc (frames_copied c i actions) (wire_frame size first ∷ [])
                (map (wire_frame size) v.messages);
      }

  head-IsExtended :
      (size j now : ℕ) (w : Bytes) (ws : List Bytes) (made : List Made)
      (actions after : List Action)
      → (j == i) ≡ true
      → All IsMade made
      → now < 2 ^ 64
      → w ∷ ws ≡ map (frame_of size) made
      → ((rest : List Made)
          → All IsMade rest
          → ws ≡ map (frame_of size) rest
          → IsExtended size c i rest (actions ++ send_copy c j (restamp w now) ∷ []) after)
      → IsExtended size c i made actions after
  head-IsExtended size j now w ws [] actions after h v t e later = absurd (cc)
  head-IsExtended size j now w ws (m ∷ made) actions after h v t e later =
      take-IsExtended size m made actions after j now w h v.0 t (cc) (later made v.1 (cc))

  pub transmit-IsExtended :
      (size : ℕ) (sends : List (ℕ × Bytes)) (made : List Made) (s : Client F.Double)
      → All IsMade made
      → of_stream i sends ≡ map (frame_of size) made
      → IsExtended size c i made s.actions (transmit F clock config accepts c sends s).0.actions
  unfolding transmit of_stream
  transmit-IsExtended size [] [] s v e = record {
    messages = [];
    valid = tt;
    same_length = refl;
    extended = sym (append-nil (frames_copied c i s.actions));
  }
  transmit-IsExtended size [] (m ∷ made) s v e = absurd (cc)
  transmit-IsExtended size ((j, w) ∷ sends) made s v e = elim (Bool-cases (j == i)) [
    | inr h ↦
        rw (accepted c j _, transmit)
          (skip-IsExtended size made s.actions _ j _ h
            (transmit-IsExtended size sends made _ v (rw (h, of_stream) at e)))
    | inl h ↦
        rw (accepted c j _, transmit)
          (head-IsExtended size j (clock s.clock_reads) w (of_stream i sends) made s.actions _ h v
            (timely s.clock_reads) (rw (h, of_stream) at e)
            (λ rest u k. transmit-IsExtended size sends rest _ u k))
  ]

  -- CloseSend gives no frame.
  pub after_lock-frames :
      (closing : Bool) (sends : List (ℕ × Bytes)) (s : Client F.Double)
      → frames_copied c i (after_lock F clock config accepts shuts c closing sends s).0.actions
        ≡ frames_copied c i (transmit F clock config accepts c sends s).0.actions
  unfolding after_lock after_transmit finish_sends pump_result frames_copied
  after_lock-frames closing sends s =
      let t = transmit F clock config accepts c sends s in
      after closing (length sends) t
        (transmit_accepted F clock config accepts shuts accepted shut c sends s).0
    where
      finished_frames :
          (closing : Bool) (n : ℕ) (t : Client F.Double)
          → frames_copied c i
              (pump_result F clock config accepts n
                (finish_sends F clock config accepts shuts c closing t)).0.actions
            ≡ frames_copied c i t.actions
      finished_frames false n t = refl
      finished_frames true n t =
          rw (shut c, finish_sends)
            (frames_copied-append c i t.actions (close_send c ∷ [])
              ∙ append-nil (frames_copied c i t.actions))

      after :
          (closing : Bool) (n : ℕ) (t : Client F.Double × Option ClientError)
          → t.1 ≡ none
          → frames_copied c i (after_transmit F clock config accepts shuts c closing n t).0.actions
            ≡ frames_copied c i t.0.actions
      after closing n (t, none) e = finished_frames closing n t
      after closing n (t, some x) e = absurd (cc)
