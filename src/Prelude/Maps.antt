-- ===== src/Prelude/Maps.antt =====
-- `std::map` with integer keys: entries in ascending order, as the program iterates over them.
use Prim.Native.Nat.{ℕ}
use mathlib.Core.Path.{◌≡◌, refl}
use mathlib.Core.Bool.{false}
use mathlib.Core.Option.{Option, none, some}
use mathlib.Core.List.{List, [], ◌∷◌}
use native.Mathlib.Omega.{arith}
use proto_test_msquic.Prelude.Tests.{ltb, ◌==◌, if◌then◌else◌}

abbrev pub Map : Type 0 → Type 0
Map V = List (ℕ × V)

module _ {V : Type 0} where
  unfoldable pub find : ℕ → Map V → Option V
  find k [] = none
  find k ((j, v) ∷ m) = if j == k then some v else find k m

  -- `m[k] = v`
  unfoldable pub put : ℕ → V → Map V → Map V
  put k v [] = (k, v) ∷ []
  put k v ((j, w) ∷ m) =
      let rest = put k v m in
      if j == k then (k, v) ∷ m else if ltb k j then (k, v) ∷ (j, w) ∷ m else (j, w) ∷ rest

  -- `m.erase(k)`
  unfoldable pub erase : ℕ → Map V → Map V
  erase k [] = []
  erase k ((j, v) ∷ m) = let rest = erase k m in if j == k then rest else (j, v) ∷ rest

  -- `m[k]`, which makes an entry of the type's default where there is none
  unfoldable pub find_or : ℕ → V → Map V → V
  unfolding find
  find_or k default m = elim (find k m) [ none ↦ default | some v ↦ v ]

  abbrev pub keys : Map V → List ℕ
  keys [] = []
  keys ((k, v) ∷ m) = k ∷ keys m

  pub find-put :
      (k j : ℕ) (v : V) (m : Map V) → find j (put k v m) ≡ (if k == j then some v else find j m)
  unfolding find put
  find-put k j v [] = refl
  find-put k j v ((i, w) ∷ m) = ground (arith, find-put k j v m)

  pub find-erase : (k j : ℕ) (m : Map V) → find j (erase k m) ≡ (if k == j then none else find j m)
  unfolding find erase
  find-erase k j [] = ground arith
  find-erase k j ((i, w) ∷ m) = ground (arith, find-erase k j m)

  pub find-put_self : (k : ℕ) (v : V) (m : Map V) → find k (put k v m) ≡ some v
  find-put_self k v m = ground (arith, find-put k k v m)

  pub find-put_ne : (k j : ℕ) (v : V) (m : Map V) → (k == j) ≡ false → find j (put k v m) ≡ find j m
  find-put_ne k j v m h = ground (arith, find-put k j v m)

  pub find_or_of : (k : ℕ) (v d : V) (m : Map V) → find k m ≡ some v → find_or k d m ≡ v
  unfolding find_or
  find_or_of k v d m e = rw (e, find_or) refl

  pub find_or-put_self : (k : ℕ) (v d : V) (m : Map V) → find_or k d (put k v m) ≡ v
  unfolding find_or
  find_or-put_self k v d m = ground (arith, find-put_self k v m)

  pub find_or-put_ne :
      (k j : ℕ) (v d : V) (m : Map V) → (k == j) ≡ false → find_or j d (put k v m) ≡ find_or j d m
  unfolding find_or
  find_or-put_ne k j v d m h = ground (arith, find-put_ne k j v m h)

  pub put-put : (k : ℕ) (v w : V) (m : Map V) → put k w (put k v m) ≡ put k w m
  unfolding put
  put-put k v w [] = ground arith
  put-put k v w ((j, u) ∷ m) = ground (arith, put-put k v w m)
