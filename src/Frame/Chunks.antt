-- ===== src/Frame/Chunks.antt =====
-- Frames against the stream of bytes: nothing is lost, what was framed comes out as it was framed,
-- and the way in which the stream is cut into chunks does not matter.
use proto_test_msquic.Prelude.{
  ℕ, suc, ◌≤◌, ◌≡◌, ◌≢◌, refl, ap, ◌∙◌, List, [], ◌∷◌, ◌++◌, some, none, ok, length, take, drop,
  concat, All, All-append, take-append, drop-append, take-append-drop, take-append_self,
  drop-append_self, append-nil, append_assoc, arith,
}
use proto_test_msquic.Frame.{
  Bytes, FrameError, header_size, try_peek_frame_size, Stop, need_more, thrown, out_of_fuel, drain,
  collect,
}
use proto_test_msquic.Frame.Peek.{
  IsFrame, peek_bounds, peek-IsFrame, peek-append_some, peek-append_error, peek-frame,
}
use proto_test_msquic.Frame.Loop.{frame_loop_total, drain_round, drain_error, drain_induction}

-- The body reads the frame and no byte behind it.
abbrev pub IsLocal : {S : Type 0} → (ℕ → Bytes → S → S) → Type 0
IsLocal {S} body =
    (k : ℕ) (buffer more : Bytes) (s : S)
    → header_size ≤ k
    → k ≤ length buffer
    → body k (buffer ++ more) s ≡ body k buffer s

pub collect-IsLocal : IsLocal collect
collect-IsLocal k buffer more s low high = rw (take-append k buffer more high)

-- No frame is left in the buffer.
abbrev pub IsDrained : ℕ → Bytes → Type 0
IsDrained fallback buffer = try_peek_frame_size buffer fallback ≡ ok none

pub concat-snoc {ℓ} :
    {A : Type ℓ} (xss : List (List A)) (xs : List A) → concat (xss ++ xs ∷ []) ≡ concat xss ++ xs
concat-snoc [] xs = append-nil xs
concat-snoc (ys ∷ xss) xs = rw (concat-snoc xss xs, append_assoc)

module _ (fallback : ℕ) where
  -- The frames that the receive loop took off and the bytes that it kept are the bytes that were
  -- there, in their order, however the loop ended.
  pub drain_lossless :
      (buffer : Bytes) (sends : List Bytes)
      → let r = drain collect fallback buffer sends in
        concat r.state ++ r.buffer ≡ concat sends ++ buffer
  drain_lossless =
      drain_induction collect fallback (λ b s r. concat r.state ++ r.buffer ≡ concat s ++ b)
        (λ b s e. refl) (λ b s x e. refl)
        λ b s k r e ih.
          ih
          ∙ rw (concat-snoc s (take k b), append_assoc)
              (ap (◌++◌ (concat s)) (take-append-drop k b))

  pub drain-All-IsFrame :
      (buffer : Bytes) (sends : List Bytes)
      → All (IsFrame fallback) sends
      → All (IsFrame fallback) (drain collect fallback buffer sends).state
  drain-All-IsFrame =
      drain_induction collect fallback
        (λ b s r. All (IsFrame fallback) s → All (IsFrame fallback) r.state) (λ b s e h. h)
        (λ b s x e h. h)
        λ b s k r e ih h. ih (All-append (IsFrame fallback) s _ h (peek-IsFrame fallback b k e, tt))

module _ {S : Type 0} (body : ℕ → Bytes → S → S) (fallback : ℕ) where
  -- The receive loop ends on every buffer and for every body, by itself: its fuel does not run
  -- out.
  pub drain_total : (buffer : Bytes) (s : S) → (drain body fallback buffer s).stop ≢ out_of_fuel
  unfolding drain
  drain_total buffer s = frame_loop_total body fallback (suc (length buffer)) buffer s (omega arith)

  pub drain-IsDrained :
      (buffer : Bytes) (s : S)
      → let r = drain body fallback buffer s in r.stop ≡ need_more → IsDrained fallback r.buffer
  drain-IsDrained =
      drain_induction body fallback (λ b s r. r.stop ≡ need_more → IsDrained fallback r.buffer)
        (λ b s e h. e) (λ b s x e h. cc) (λ b s k r e ih h. ih h)

  module _ (local : IsLocal body) where
    round_after :
        (b more : Bytes) (s : S) (k : ℕ)
        → try_peek_frame_size b fallback ≡ ok (some k)
        → drain body fallback (b ++ more) s ≡ drain body fallback (drop k b ++ more) (body k b s)
    round_after b more s k e =
        let n = peek_bounds fallback b k e in
        drain_round body fallback (b ++ more) s k (peek-append_some fallback b more k e)
        ∙ rw (drop-append k b more n.1, local k b more s n.0 n.1)

    -- For a loop body that reads only its frame: if the receive loop over a buffer ended for want
    -- of bytes, the loop over the buffer with more bytes behind it does what the loop does from
    -- that end on with these bytes.
    pub drain-append :
        (buffer more : Bytes) (s : S)
        → let r = drain body fallback buffer s in
          r.stop ≡ need_more
          → drain body fallback (buffer ++ more) s ≡ drain body fallback (r.buffer ++ more) r.state
    drain-append buffer more s =
        drain_induction body fallback
          (λ b t r.
            r.stop ≡ need_more
            → drain body fallback (b ++ more) t ≡ drain body fallback (r.buffer ++ more) r.state)
          (λ b t e h. refl) (λ b t x e h. cc) (λ b t k r e ih h. round_after b more t k e ∙ ih h)
          buffer s

    -- After a throw they change nothing but the bytes that are kept.
    pub drain-append_error :
        (buffer more : Bytes) (s : S) (x : FrameError)
        → let r = drain body fallback buffer s in
          r.stop ≡ thrown x
          → drain body fallback (buffer ++ more) s
            ≡ record { state = r.state; buffer = r.buffer ++ more; stop = thrown x }
    drain-append_error buffer more s x =
        drain_induction body fallback
          (λ b t r.
            r.stop ≡ thrown x
            → drain body fallback (b ++ more) t
              ≡ record { state = r.state; buffer = r.buffer ++ more; stop = thrown x })
          (λ b t e h. cc)
          (λ b t y e h.
            drain_error body fallback (b ++ more) t y (peek-append_error fallback b more y e) ∙ cc)
          (λ b t k r e ih h. round_after b more t k e ∙ ih h) buffer s

-- A loop that ends for want of bytes has not thrown on fewer of them.
pub drain_prefix :
    {S : Type 0} (body : ℕ → Bytes → S → S) (fallback : ℕ) (local : IsLocal body)
    (buffer more : Bytes) (s : S)
    → (drain body fallback (buffer ++ more) s).stop ≡ need_more
    → (drain body fallback buffer s).stop ≡ need_more
drain_prefix body fallback local buffer more s h = go (drain body fallback buffer s).stop refl
  where
    go :
        (t : Stop)
        → (drain body fallback buffer s).stop ≡ t
        → (drain body fallback buffer s).stop ≡ need_more
    go need_more e = e
    go (thrown x) e =
        let k = ap (λ r. r.stop) (drain-append_error body fallback local buffer more s x e) in
        absurd (cc)
    go out_of_fuel e = absurd (drain_total body fallback buffer s e)

-- Whole frames at the front of the buffer come out one by one, and the loop goes on behind them.
pub drain-concat :
    (fallback : ℕ) (frames : List Bytes) (tail : Bytes) (sends : List Bytes)
    → All (IsFrame fallback) frames
    → drain collect fallback (concat frames ++ tail) sends
      ≡ drain collect fallback tail (sends ++ frames)
drain-concat fallback [] tail sends h = rw append-nil
drain-concat fallback (w ∷ ws) tail sends h = rw (append_assoc w (concat ws) tail) (
    drain_round collect fallback (w ++ (concat ws ++ tail)) sends (length w)
      (peek-frame fallback w (concat ws ++ tail) h.0)
    ∙ rw (drop-append_self w (concat ws ++ tail), take-append_self w (concat ws ++ tail))
        (drain-concat fallback ws tail (sends ++ w ∷ []) h.1 ∙ rw append_assoc))
