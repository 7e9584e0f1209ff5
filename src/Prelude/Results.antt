-- ===== src/Prelude/Results.antt =====
-- A function of the program that may throw returns a `Result`; the errors are a parameter.
use mathlib.Core.Path.{◌≡◌, refl, subst}
use proto_test_msquic.Prelude.Tests.{if◌then◌else◌}
use mathlib.Core.Bool.{Bool, true, false}

pub data Result {ℓ κ} (E : Type κ) (A : Type ℓ) : Type (ℓ ⊔ κ) where
  ok : A → Result E A
  err : E → Result E A

-- A statement after one that may throw, with and without its value.
infixl 5 ◌>>=◌ ◌>>◌
abbrev pub ◌>>=◌ {ℓ κ ι} :
    {E : Type ι} {A : Type ℓ} {B : Type κ} → Result E A → (A → Result E B) → Result E B
err x >>= next = err x
ok value >>= next = next value

abbrev pub ◌>>◌ {ℓ ι} : {E : Type ι} {B : Type ℓ} → Result E (Unit {0}) → Result E B → Result E B
first >> next = first >>= λ done. next

-- `if (c) { throw e; }`
abbrev pub throw_if {ι} : {E : Type ι} → Bool → E → Result E (Unit {0})
throw_if true e = err e
throw_if false e = ok tt

module _ {ℓ κ ι} {E : Type ι} {A : Type ℓ} {B : Type κ} where
  -- If two statements together returned, so did each.
  pub >>=-eq-ok :
      (first : Result E A) (next : A → Result E B) {result : B}
      → (first >>= next) ≡ ok result
      → (value : A) × (first ≡ ok value) × (next value ≡ ok result)
  >>=-eq-ok (err x) next e = cc
  >>=-eq-ok (ok value) next e = (value, refl, e)

-- Two continuations that agree after `m`, the second in two parts.
pub >>=-split {ℓ κ ι μ} :
    {E : Type ι} {A : Type ℓ} {B : Type κ} {C : Type μ} (m : Result E A) (f : A → Result E B)
    (g : B → Result E C) (h : A → Result E C)
    → ((a : A) → h a ≡ (f a >>= g))
    → (m >>= h) ≡ (m >>= f >>= g)
>>=-split (ok a) f g h e = e a
>>=-split (err x) f g h e = refl

pub ok-injective {ℓ ι} :
    {E : Type ι} {A : Type ℓ} {a b : A} → ◌≡◌ {A = Result E A} (ok a) (ok b) → a ≡ b
ok-injective e = cc

-- If the result is a value, it satisfies `P`.
pub record Yields {ℓ κ ι} {E : Type ι} {A : Type ℓ} (P : A → Type κ) (m : Result E A)
    : Type (ℓ ⊔ κ ⊔ ι) where
  pub at : (a : A) → m ≡ ok a → P a

module _ {ℓ ι μ} {E : Type ι} {B : Type ℓ} {P : B → Type μ} where
  pub Yields-value : {b : B} → P b → Yields {E = E} P (ok b)
  Yields-value h = record { at = λ a e. subst P (ok-injective e) h }

  pub Yields-error : (x : E) → Yields P (err x)
  Yields-error x = record { at = λ a e. absurd (cc) }

  pub Yields-throw_if :
      (b : Bool) (e : E) {k : Result E B} → (b ≡ false → Yields P k) → Yields P (throw_if b e >> k)
  Yields-throw_if true e h = Yields-error _
  Yields-throw_if false e h = h refl

  pub Yields-if :
      (b : Bool) {m k : Result E B}
      → (b ≡ true → Yields P m)
      → (b ≡ false → Yields P k)
      → Yields P (if b then m else k)
  Yields-if true h g = h refl
  Yields-if false h g = g refl

module _ {ℓ κ ι μ} {E : Type ι} {A : Type ℓ} {B : Type κ} {P : B → Type μ} where
  pub Yields-bind :
      (m : Result E A) {f : A → Result E B}
      → ((a : A) → m ≡ ok a → Yields P (f a))
      → Yields P (m >>= f)
  Yields-bind (ok a) h = h a refl
  Yields-bind (err e) h = Yields-error e

-- A check that was passed, and what comes behind it.
pub throw_if-eq-ok {ℓ ι} :
    {E : Type ι} {A : Type ℓ} (b : Bool) (e : E) (k : Result E A) {a : A}
    → (throw_if b e >> k) ≡ ok a
    → (b ≡ false) × (k ≡ ok a)
throw_if-eq-ok true e k h = absurd (cc)
throw_if-eq-ok false e k h = (refl, h)
