-- ===== src/Frame/Collected.antt =====
-- What the receive loop collects, where the bytes come in two parts, and any other body of the loop
-- against the body that collects.
use proto_test_msquic.Prelude.{
  ℕ, ◌^◌, ◌<◌, ◌≡◌, refl, ap, sym, ◌∙◌, List, [], ◌∷◌, ◌++◌, take, length, length-append,
  append-nil, append_assoc, arith,
}
use proto_test_msquic.Stats.{add64}
use proto_test_msquic.Frame.{Bytes, need_more, drain, collect}
use proto_test_msquic.Frame.Loop.{drain_stop, drain_error, drain_round, drain_induction}
use proto_test_msquic.Frame.Chunks.{collect-IsLocal, drain_prefix, drain-append}

-- Frames that were collected before the loop stay in front of those that it collects.
drain_before :
    (fallback : ℕ) (buffer : Bytes) (before : List Bytes)
    → let r = drain collect fallback buffer [] in
      drain collect fallback buffer before
      ≡ record { state = before ++ r.state; buffer = r.buffer; stop = r.stop }
drain_before fallback buffer before =
    sym (ap (drain collect fallback buffer) (append-nil before)) ∙ go buffer []
  where
    go :
        (b : Bytes) (s : List Bytes)
        → let r = drain collect fallback b s in
          drain collect fallback b (before ++ s)
          ≡ record { state = before ++ r.state; buffer = r.buffer; stop = r.stop }
    go =
        drain_induction collect fallback
          (λ b s r.
            drain collect fallback b (before ++ s)
            ≡ record { state = before ++ r.state; buffer = r.buffer; stop = r.stop })
          (λ b s e. drain_stop collect fallback b (before ++ s) e)
          (λ b s x e. drain_error collect fallback b (before ++ s) x e)
          λ b s k r e ih.
            drain_round collect fallback b (before ++ s) k e
            ∙ rw (append_assoc before s (take k b ∷ [])) ih

-- If the loop over all bytes ends for want of more, so does the loop over their first part, and the
-- rest is collected behind it.
pub drain-chunk :
    (fallback : ℕ) (b chunk rest : Bytes)
    → (drain collect fallback (b ++ (chunk ++ rest)) []).stop ≡ need_more
    → let r1 = drain collect fallback (b ++ chunk) [] in
      let r2 = drain collect fallback (r1.buffer ++ rest) [] in
      (r1.stop ≡ need_more)
      × (drain collect fallback (b ++ (chunk ++ rest)) []
          ≡ record { state = r1.state ++ r2.state; buffer = r2.buffer; stop = r2.stop })
drain-chunk fallback b chunk rest h =
    let r1 = drain collect fallback (b ++ chunk) [] in
    let n : r1.stop ≡ need_more =
      drain_prefix collect fallback collect-IsLocal (b ++ chunk) rest []
        (rw (append_assoc b chunk rest) h) in
    (
      n,
      sym (ap (λ x. drain collect fallback x []) (append_assoc b chunk rest))
          ∙ drain-append collect fallback collect-IsLocal (b ++ chunk) rest [] n
          ∙ drain_before fallback (r1.buffer ++ rest) r1.state,
    )

module _ {S : Type 0} (body : ℕ → Bytes → S → S) (fallback : ℕ) where
  -- The end of the loop does not depend on its body.
  pub drain-end :
      (buffer : Bytes) (s : S)
      → let r = drain body fallback buffer s in
        let q = drain collect fallback buffer [] in (r.buffer ≡ q.buffer) × (r.stop ≡ q.stop)
  drain-end buffer s = go buffer s []
    where
      go :
          (b : Bytes) (t : S) (frames : List Bytes)
          → let r = drain body fallback b t in
            let q = drain collect fallback b frames in (r.buffer ≡ q.buffer) × (r.stop ≡ q.stop)
      go =
          drain_induction body fallback
            (λ b t r.
              (frames : List Bytes)
              → let q = drain collect fallback b frames in
                (r.buffer ≡ q.buffer) × (r.stop ≡ q.stop))
            (λ b t e frames. rw (drain_stop collect fallback b frames e) (refl, refl))
            (λ b t x e frames. rw (drain_error collect fallback b frames x e) (refl, refl))
            (λ b t k r e ih frames. rw (drain_round collect fallback b frames k e) (ih _))

  -- A counter that the body raises by one counts the frames.
  module _ (counter : S → ℕ)
      (counts : (k : ℕ) (b : Bytes) (s : S) → counter (body k b s) ≡ add64 (counter s) 1) where
    counter_fits :
        (buffer : Bytes) (s : S)
        → counter s < 2 ^ 64
        → counter (drain body fallback buffer s).state < 2 ^ 64
    counter_fits =
        drain_induction body fallback (λ b s r. counter s < 2 ^ 64 → counter r.state < 2 ^ 64)
          (λ b s e h. h) (λ b s x e h. h) (λ b s k r e ih h. ih (omega (arith, counts k b s)))

    pub drain-counter :
        (buffer : Bytes) (s : S)
        → counter s < 2 ^ 64
        → counter (drain body fallback buffer s).state
          ≡ add64 (counter s) (length (drain collect fallback buffer []).state)
    drain-counter buffer s h = omega (arith, go buffer s [], counter_fits buffer s h)
      where
        go :
            (b : Bytes) (t : S) (frames : List Bytes)
            → add64 (counter (drain body fallback b t).state) (length frames)
              ≡ add64 (counter t) (length (drain collect fallback b frames).state)
        go =
            drain_induction body fallback
              (λ b t r.
                (frames : List Bytes)
                → add64 (counter r.state) (length frames)
                  ≡ add64 (counter t) (length (drain collect fallback b frames).state))
              (λ b t e frames. rw (drain_stop collect fallback b frames e) refl)
              (λ b t x e frames. rw (drain_error collect fallback b frames x e) refl)
              (λ b t k r e ih frames. rw (drain_round collect fallback b frames k e) (
                omega (
                  arith,
                  ih (collect k b frames),
                  counts k b t,
                  length-append frames (take k b ∷ []),
                )))
