-- ===== src/Stats/Percentile/Sorted.antt =====
-- The sort, and the order of what is read from a sorted list.
use mathlib.Core.List.Perm
use mathlib.Core.List.{Perm}
use proto_test_msquic.Prelude.{
  ℕ, zero, suc, ◌≤◌, ◌<◌, ◌≡◌, refl, List, [], ◌∷◌, All, length, leb, inl, inr, Bool-cases, arith,
}
use proto_test_msquic.Stats.Percentile.{insert_sorted, sort, at_index}

-- No item is above a later one.
abbrev pub IsAscending : List ℕ → Type 0
IsAscending [] = Unit
IsAscending (x ∷ xs) = All (λ y. x ≤ y) xs × IsAscending xs

All-le_trans : (a b : ℕ) (xs : List ℕ) → a ≤ b → All (λ y. b ≤ y) xs → All (λ y. a ≤ y) xs
All-le_trans a b [] h v = tt
All-le_trans a b (x ∷ xs) h v = (omega arith, All-le_trans a b xs h v.1)

All-insert_sorted :
    (a x : ℕ) (xs : List ℕ) → a ≤ x → All (λ y. a ≤ y) xs → All (λ y. a ≤ y) (insert_sorted x xs)
unfolding insert_sorted
All-insert_sorted a x [] h v = (h, tt)
All-insert_sorted a x (y ∷ ys) h v = ground (arith, All-insert_sorted a x ys h v.1)

insert_sorted-IsAscending :
    (x : ℕ) (xs : List ℕ) → IsAscending xs → IsAscending (insert_sorted x xs)
unfolding insert_sorted
insert_sorted-IsAscending x [] v = (tt, tt)
insert_sorted-IsAscending x (y ∷ ys) v = elim (Bool-cases (leb x y)) [
  | inl e ↦ rw e ((ground arith, All-le_trans x y ys (ground arith) v.0), v)
  | inr e ↦ rw e (All-insert_sorted y x ys (ground arith) v.0, insert_sorted-IsAscending x ys v.1)
]

pub sort-IsAscending : (xs : List ℕ) → IsAscending (sort xs)
unfolding sort
sort-IsAscending [] = tt
sort-IsAscending (x ∷ xs) = insert_sorted-IsAscending x (sort xs) (sort-IsAscending xs)

length-insert_sorted : (x : ℕ) (xs : List ℕ) → length (insert_sorted x xs) ≡ suc (length xs)
unfolding insert_sorted
length-insert_sorted x [] = refl
length-insert_sorted x (y ∷ ys) = ground (arith, length-insert_sorted x ys)

pub length-sort : (xs : List ℕ) → length (sort xs) ≡ length xs
unfolding sort
length-sort [] = refl
length-sort (x ∷ xs) = omega (arith, length-insert_sorted x (sort xs), length-sort xs)

insert_sorted-perm : (x : ℕ) (xs : List ℕ) → Perm (insert_sorted x xs) (x ∷ xs)
unfolding insert_sorted
insert_sorted-perm x [] = Perm.refl (x ∷ [])
insert_sorted-perm x (y ∷ ys) = elim (Bool-cases (leb x y)) [
  | inl e ↦ rw e (Perm.refl (x ∷ y ∷ ys))
  | inr e ↦ rw e (Perm.trans (Perm.cons y (insert_sorted-perm x ys)) (Perm.swap x y ys))
]

pub sort-perm : (xs : List ℕ) → Perm (sort xs) xs
unfolding sort
sort-perm [] = Perm.refl []
sort-perm (x ∷ xs) = Perm.trans (insert_sorted-perm x (sort xs)) (Perm.cons x (sort-perm xs))

at_index-All :
    (a : ℕ) (xs : List ℕ) (i : ℕ) → i < length xs → All (λ y. a ≤ y) xs → a ≤ at_index xs i
at_index-All a [] i h v = absurd (omega arith)
at_index-All a (x ∷ xs) zero h v = v.0
at_index-All a (x ∷ xs) (suc i) h v = at_index-All a xs i (omega arith) v.1

-- A later place holds no smaller item.
pub at_index_mono :
    (xs : List ℕ) (i j : ℕ) → IsAscending xs → i ≤ j → j < length xs → at_index xs i ≤ at_index xs j
at_index_mono [] i j v h k = absurd (omega arith)
at_index_mono (x ∷ xs) zero zero v h k = omega arith
at_index_mono (x ∷ xs) zero (suc j) v h k = at_index-All x xs j (omega arith) v.0
at_index_mono (x ∷ xs) (suc i) zero v h k = absurd (omega arith)
at_index_mono (x ∷ xs) (suc i) (suc j) v h k = at_index_mono xs i j v.1 (omega arith) (omega arith)
