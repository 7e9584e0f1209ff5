-- ===== src/Frame/Loop.antt =====
-- The receive loop: it ends, it loses no byte, and bytes that arrive later continue it.
use proto_test_msquic.Prelude.{
  ℕ, zero, suc, ◌<◌, ◌≡◌, ◌≢◌, ◌⊎◌, inl, inr, refl, sym, ◌∙◌, Option, none, some, Result, ok, err,
  length, drop, length-drop, arith,
}
use proto_test_msquic.Frame.{
  Bytes, FrameError, try_peek_frame_size, need_more, thrown, out_of_fuel, LoopEnd, frame_loop,
  drain,
}
use proto_test_msquic.Frame.Peek.{peek_bounds}

peek_cases :
    (r : Result FrameError (Option ℕ))
    → (r ≡ ok none) ⊎ ((k : ℕ) × (r ≡ ok (some k))) ⊎ ((e : FrameError) × (r ≡ err e))
peek_cases (ok none) = inl refl
peek_cases (ok (some k)) = inr (inl (k, refl))
peek_cases (err e) = inr (inr (e, refl))

module _ {S : Type 0} (body : ℕ → Bytes → S → S) (fallback : ℕ) where
  frame_loop_stop :
      (fuel : ℕ) (buffer : Bytes) (s : S)
      → try_peek_frame_size buffer fallback ≡ ok none
      → frame_loop body (suc fuel) fallback buffer s
        ≡ record { state = s; buffer = buffer; stop = need_more }
  unfolding frame_loop
  frame_loop_stop fuel buffer s h = rw (h, frame_loop)

  frame_loop_error :
      (fuel : ℕ) (buffer : Bytes) (s : S) (e : FrameError)
      → try_peek_frame_size buffer fallback ≡ err e
      → frame_loop body (suc fuel) fallback buffer s
        ≡ record { state = s; buffer = buffer; stop = thrown e }
  unfolding frame_loop
  frame_loop_error fuel buffer s e h = rw (h, frame_loop)

  frame_loop_round :
      (fuel : ℕ) (buffer : Bytes) (s : S) (k : ℕ)
      → try_peek_frame_size buffer fallback ≡ ok (some k)
      → frame_loop body (suc fuel) fallback buffer s
        ≡ frame_loop body fuel fallback (drop k buffer) (body k buffer s)
  unfolding frame_loop
  frame_loop_round fuel buffer s k h = rw (h, frame_loop)

  -- The bytes left after a round are fewer.
  round_shrinks :
      (buffer : Bytes) (k fuel : ℕ)
      → try_peek_frame_size buffer fallback ≡ ok (some k)
      → length buffer < suc fuel
      → length (drop k buffer) < fuel
  round_shrinks buffer k fuel h lt =
      let b = peek_bounds fallback buffer k h in omega (arith, length-drop k buffer)

  -- Enough fuel is given when it exceeds the bytes.
  pub frame_loop_total :
      (fuel : ℕ) (buffer : Bytes) (s : S)
      → length buffer < fuel
      → (frame_loop body fuel fallback buffer s).stop ≢ out_of_fuel
  frame_loop_total zero buffer s h = absurd (omega arith)
  frame_loop_total (suc fuel) buffer s h = elim (peek_cases (try_peek_frame_size buffer fallback)) [
    | inl e ↦ rw (frame_loop_stop fuel buffer s e) (λ p. cc)
    | inr (inl (k, e)) ↦
        rw (frame_loop_round fuel buffer s k e) (
          frame_loop_total fuel (drop k buffer) (body k buffer s) (round_shrinks buffer k fuel e h))
    | inr (inr (x, e)) ↦ rw (frame_loop_error fuel buffer s x e) (λ p. cc)
  ]

  -- Any two amounts of fuel that exceed the bytes give the same end.
  pub frame_loop_fuel :
      (f g : ℕ) (buffer : Bytes) (s : S)
      → length buffer < f
      → length buffer < g
      → frame_loop body f fallback buffer s ≡ frame_loop body g fallback buffer s
  frame_loop_fuel zero g buffer s p q = absurd (omega arith)
  frame_loop_fuel (suc f) zero buffer s p q = absurd (omega arith)
  frame_loop_fuel (suc f) (suc g) buffer s p q =
      elim (peek_cases (try_peek_frame_size buffer fallback)) [
        | inl e ↦ frame_loop_stop f buffer s e ∙ sym (frame_loop_stop g buffer s e)
        | inr (inl (k, e)) ↦
            frame_loop_round f buffer s k e
            ∙ frame_loop_fuel f g (drop k buffer) (body k buffer s) (round_shrinks buffer k f e p)
                (round_shrinks buffer k g e q)
            ∙ sym (frame_loop_round g buffer s k e)
        | inr (inr (x, e)) ↦ frame_loop_error f buffer s x e ∙ sym (frame_loop_error g buffer s x e)
      ]

  -- One round of `drain`.
  pub drain_round :
      (buffer : Bytes) (s : S) (k : ℕ)
      → try_peek_frame_size buffer fallback ≡ ok (some k)
      → drain body fallback buffer s ≡ drain body fallback (drop k buffer) (body k buffer s)
  unfolding drain
  drain_round buffer s k h =
      frame_loop_round (length buffer) buffer s k h
      ∙ frame_loop_fuel (length buffer) (suc (length (drop k buffer))) (drop k buffer)
          (body k buffer s) (round_shrinks buffer k (length buffer) h (omega arith)) (omega arith)

  pub drain_stop :
      (buffer : Bytes) (s : S)
      → try_peek_frame_size buffer fallback ≡ ok none
      → drain body fallback buffer s ≡ record { state = s; buffer = buffer; stop = need_more }
  unfolding drain
  drain_stop buffer s h = frame_loop_stop (length buffer) buffer s h

  pub drain_error :
      (buffer : Bytes) (s : S) (e : FrameError)
      → try_peek_frame_size buffer fallback ≡ err e
      → drain body fallback buffer s ≡ record { state = s; buffer = buffer; stop = thrown e }
  unfolding drain
  drain_error buffer s e h = frame_loop_error (length buffer) buffer s e h

  -- Induction over the rounds of `drain`, one case for each way that the peek answers.
  pub drain_induction {ℓ} :
      (P : Bytes → S → LoopEnd S → Type ℓ)
      → ((buffer : Bytes) (s : S)
          → try_peek_frame_size buffer fallback ≡ ok none
          → P buffer s (record { state = s; buffer = buffer; stop = need_more }))
      → ((buffer : Bytes) (s : S) (e : FrameError)
          → try_peek_frame_size buffer fallback ≡ err e
          → P buffer s (record { state = s; buffer = buffer; stop = thrown e }))
      → ((buffer : Bytes) (s : S) (k : ℕ) (r : LoopEnd S)
          → try_peek_frame_size buffer fallback ≡ ok (some k)
          → P (drop k buffer) (body k buffer s) r
          → P buffer s r)
      → (buffer : Bytes) (s : S) → P buffer s (drain body fallback buffer s)
  drain_induction P stop error round buffer s = go (suc (length buffer)) buffer s (omega arith)
    where
      go : (n : ℕ) (b : Bytes) (t : S) → length b < n → P b t (drain body fallback b t)
      go zero b t h = absurd (omega arith)
      go (suc n) b t h = elim (peek_cases (try_peek_frame_size b fallback)) [
        | inl e ↦ rw (drain_stop b t e) (stop b t e)
        | inr (inl (k, e)) ↦
            rw (drain_round b t k e)
              (round b t k _ e (go n (drop k b) (body k b t) (round_shrinks b k n e h)))
        | inr (inr (x, e)) ↦ rw (drain_error b t x e) (error b t x e)
      ]
