-- ===== src/Stats/Percentile/Unordered.antt =====
-- The counters and the latencies are written by several threads: what a snapshot shows against the
-- order of their calls of `AddSent`, `AddReceived` and `AddLatencyNs`.
use mathlib.Core.Logic.{∥∥₁_elim}
use mathlib.Core.List.{Perm, Permᴰ}
use native.Mathlib.Nat.{ℕ_set}
use proto_test_msquic.Prelude.{
  ℕ, ◌≡◌, refl, ap, sym, ◌∙◌, List, [], ◌∷◌, ◌++◌, length, arith, subst,
}
use proto_test_msquic.Prelude.Float.{Float64}
use proto_test_msquic.Stats.{
  Stats, add64, StatsCall, sent, received, latency, record_call, record_calls,
}
use proto_test_msquic.Stats.Percentile.{insert_sorted, sort, build_latency_snapshot, snapshot_now}
use proto_test_msquic.Stats.Percentile.Sorted.{length-sort}

insert_sorted_comm :
    (x y : ℕ) (zs : List ℕ)
    → insert_sorted x (insert_sorted y zs) ≡ insert_sorted y (insert_sorted x zs)
unfolding insert_sorted
insert_sorted_comm x y [] = ground arith
insert_sorted_comm x y (z ∷ zs) = ground (arith, insert_sorted_comm x y zs)

-- A sample that was added last, or first.
sort-snoc : (xs : List ℕ) (x : ℕ) → sort (xs ++ x ∷ []) ≡ insert_sorted x (sort xs)
unfolding sort
sort-snoc [] x = refl
sort-snoc (y ∷ ys) x = ap (insert_sorted y) (sort-snoc ys x) ∙ insert_sorted_comm y x (sort ys)

-- The same counters, and the same samples in some order.
abbrev Agrees : Stats → Stats → Type 0
Agrees s t =
    (s.sent_bytes ≡ t.sent_bytes)
    × (s.recv_bytes ≡ t.recv_bytes)
    × (s.sent_messages ≡ t.sent_messages)
    × (s.recv_messages ≡ t.recv_messages)
    × (sort s.latency_samples ≡ sort t.latency_samples)

Agrees-trans : (s t u : Stats) → Agrees s t → Agrees t u → Agrees s u
Agrees-trans s t u v w = (v.0 ∙ w.0, v.1 ∙ w.1, v.2 ∙ w.2, v.3 ∙ w.3, v.4 ∙ w.4)

record_call-Agrees :
    (c : StatsCall) (s t : Stats) → Agrees s t → Agrees (record_call c s) (record_call c t)
unfolding record_call
record_call-Agrees (sent b) s t v =
    (ap (λ x. add64 x b) v.0, v.1, ap (λ x. add64 x 1) v.2, v.3, v.4)
record_call-Agrees (received b) s t v =
    (v.0, ap (λ x. add64 x b) v.1, v.2, ap (λ x. add64 x 1) v.3, v.4)
record_call-Agrees (latency ns) s t v = (
  v.0,
  v.1,
  v.2,
  v.3,
  sort-snoc s.latency_samples ns ∙ ap (insert_sorted ns) v.4 ∙ sym (sort-snoc t.latency_samples ns),
)

add64_swap : (a b c : ℕ) → add64 (add64 a b) c ≡ add64 (add64 a c) b
add64_swap a b c = omega arith

record_call_swap :
    (c d : StatsCall) (s : Stats)
    → Agrees (record_call c (record_call d s)) (record_call d (record_call c s))
unfolding record_call
record_call_swap (sent b) (sent c) s = (add64_swap s.sent_bytes c b, refl, refl, refl, refl)
record_call_swap (sent b) (received c) s = (refl, refl, refl, refl, refl)
record_call_swap (sent b) (latency c) s = (refl, refl, refl, refl, refl)
record_call_swap (received b) (sent c) s = (refl, refl, refl, refl, refl)
record_call_swap (received b) (received c) s = (refl, add64_swap s.recv_bytes c b, refl, refl, refl)
record_call_swap (received b) (latency c) s = (refl, refl, refl, refl, refl)
record_call_swap (latency b) (sent c) s = (refl, refl, refl, refl, refl)
record_call_swap (latency b) (received c) s = (refl, refl, refl, refl, refl)
record_call_swap (latency b) (latency c) s = (
  refl,
  refl,
  refl,
  refl,
  sort-snoc (s.latency_samples ++ c ∷ []) b
      ∙ ap (insert_sorted b) (sort-snoc s.latency_samples c)
      ∙ insert_sorted_comm b c (sort s.latency_samples)
      ∙ sym (ap (insert_sorted c) (sort-snoc s.latency_samples b))
      ∙ sym (sort-snoc (s.latency_samples ++ b ∷ []) c),
)

record_calls-Agrees :
    (cs : List StatsCall) (s t : Stats)
    → Agrees s t
    → Agrees (record_calls cs s) (record_calls cs t)
unfolding record_calls
record_calls-Agrees [] s t v = v
record_calls-Agrees (c ∷ cs) s t v = record_calls-Agrees cs _ _ (record_call-Agrees c s t v)

module _ (cs ds : List StatsCall)
    (agree : (t : Stats) → Agrees (record_calls cs t) (record_calls ds t)) (s : Stats) where
  same_head : (c d : StatsCall) → c ≡ d → Agrees (record_calls (c ∷ cs) s) (record_calls (d ∷ ds) s)
  unfolding record_calls
  same_head c d e =
      subst (λ x. Agrees (record_calls cs (record_call c s)) (record_calls ds (record_call x s))) e
        (agree (record_call c s))

swapped_heads :
    (a b c d : StatsCall) (cs : List StatsCall) (s : Stats)
    → a ≡ d
    → b ≡ c
    → Agrees (record_calls (a ∷ b ∷ cs) s) (record_calls (c ∷ d ∷ cs) s)
unfolding record_calls
swapped_heads a b c d cs s e f =
    subst
      (λ x.
        Agrees (record_calls cs (record_call b (record_call a s)))
          (record_calls cs (record_call d (record_call x s))))
      f
      (subst
        (λ x.
          Agrees (record_calls cs (record_call b (record_call a s)))
            (record_calls cs (record_call x (record_call b s))))
        e (record_calls-Agrees cs _ _ (record_call_swap b a s)))

record_calls_permuted :
    {cs ds : List StatsCall}
    → Permᴰ cs ds
    → (s : Stats) → Agrees (record_calls cs s) (record_calls ds s)
unfolding record_calls
record_calls_permuted Permᴰ.nil s = (refl, refl, refl, refl, refl)
record_calls_permuted (Permᴰ.cons {l₁ = cs} {l₂ = ds} e p) s =
    same_head cs ds (record_calls_permuted p) s _ _ e
record_calls_permuted (Permᴰ.swap {l = cs} e f) s = swapped_heads _ _ _ _ cs s e f
record_calls_permuted (Permᴰ.trans p q) s =
    Agrees-trans _ _ _ (record_calls_permuted p s) (record_calls_permuted q s)

build_latency_snapshot-eq :
    (F : Float64) (xs ys : List ℕ)
    → sort xs ≡ sort ys
    → build_latency_snapshot F xs ≡ build_latency_snapshot F ys
unfolding build_latency_snapshot
build_latency_snapshot-eq F [] [] e = refl
build_latency_snapshot-eq F [] (y ∷ ys) e =
    absurd (omega (arith, ap length e, length-sort (y ∷ ys), length-sort []))
build_latency_snapshot-eq F (x ∷ xs) [] e =
    absurd (omega (arith, ap length e, length-sort (x ∷ xs), length-sort []))
build_latency_snapshot-eq F (x ∷ xs) (y ∷ ys) e = cc

-- In whatever order the calls of AddSent, AddReceived and AddLatencyNs of the threads take effect,
-- SnapshotNow shows the same counters and percentiles.
pub snapshot_now-perm :
    (F : Float64) (cs ds : List StatsCall) (s : Stats)
    → Perm cs ds
    → snapshot_now F (record_calls cs s) ≡ snapshot_now F (record_calls ds s)
unfolding snapshot_now
snapshot_now-perm F cs ds s p =
    let v : Agrees (record_calls cs s) (record_calls ds s) =
      ∥∥₁_elim p (hlevel ℕ_set) (λ q. record_calls_permuted q s) in
    let xs = (record_calls cs s).latency_samples in
    let ys = (record_calls ds s).latency_samples in
    cc (v.0, v.1, v.2, v.3, build_latency_snapshot-eq F xs ys v.4)
