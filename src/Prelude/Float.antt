-- ===== src/Prelude/Float.antt =====
-- The `double` arithmetic of the program: a parameter, since the language has no floats.
use Prim.Native.Nat.{ℕ, ◌+◌, ◌-◌, ◌*◌, ◌/◌, ◌^◌, ◌≤◌, ◌<◌}
use mathlib.Core.Path.{◌≡◌}
use mathlib.Core.Bool.{Bool, true}
use proto_test_msquic.Prelude.Tests.{ltb, leb, ◌==◌}

-- The operations that main.cpp uses: a conversion from an unsigned integer, a decimal literal
-- (numerator and denominator), sum, difference, product, quotient, square root, the conversion back
-- that cuts the fraction off, and the comparisons.
pub record Float64 : Type 1 where
  pub Double : Type 0
  pub of_uint : ℕ → Double
  pub literal : ℕ → ℕ → Double
  pub add : Double → Double → Double
  pub sub : Double → Double → Double
  pub mul : Double → Double → Double
  pub div : Double → Double → Double
  pub sqrt : Double → Double
  pub to_uint : Double → ℕ
  pub less : Double → Double → Bool
  pub less_eq : Double → Double → Bool
  pub equal : Double → Double → Bool

-- A double between 0 and an integer: NaN, the infinities and negative numbers are not.
abbrev pub Between : (F : Float64) → ℕ → F.Double → Type 0
Between F n a = (F.less_eq (F.of_uint 0) a ≡ true) × (F.less_eq a (F.of_uint n) ≡ true)

-- What IEEE 754 promises of the percentiles' arithmetic, where every integer below 2^53 is exact:
-- rounding keeps the order and the bounds. `half` and the percentiles are literals of the program.
pub record IsMonotone (F : Float64) : Type 0 where
  pub half_unit : Between F 1 (F.literal 5 10)
  pub p50_unit : Between F 1 (F.literal 50 100)
  pub p75_unit : Between F 1 (F.literal 75 100)
  pub p99_unit : Between F 1 (F.literal 99 100)
  pub p50_le_p75 : F.less_eq (F.literal 50 100) (F.literal 75 100) ≡ true
  pub p75_le_p99 : F.less_eq (F.literal 75 100) (F.literal 99 100) ≡ true
  pub mul_mono :
      (a b : F.Double) (scale : ℕ)
      → scale < 2 ^ 53
      → Between F 1 a
      → Between F 1 b
      → F.less_eq a b ≡ true
      → F.less_eq (F.mul a (F.of_uint scale)) (F.mul b (F.of_uint scale)) ≡ true
  pub mul_bounded :
      (a : F.Double) (scale : ℕ)
      → scale < 2 ^ 53
      → Between F 1 a
      → Between F scale (F.mul a (F.of_uint scale))
  pub add_mono :
      (a b c : F.Double) (n : ℕ)
      → n < 2 ^ 53
      → Between F n a
      → Between F n b
      → Between F 1 c
      → F.less_eq a b ≡ true
      → F.less_eq (F.add a c) (F.add b c) ≡ true
  pub add_bounded :
      (a c : F.Double) (n : ℕ)
      → n < 2 ^ 53
      → Between F n a
      → Between F 1 c
      → Between F (n + 1) (F.add a c)
  pub to_uint_mono :
      (a b : F.Double) (n : ℕ)
      → n ≤ 2 ^ 53
      → Between F n a
      → Between F n b
      → F.less_eq a b ≡ true
      → F.to_uint a ≤ F.to_uint b

-- Decimal fractions with three places, cut off: an instance that runs.
abbrev pub milli : Float64
milli = record {
  Double = ℕ;
  of_uint = λ n. n * 1000;
  literal = λ a b. a * 1000 / b;
  add = λ a b. a + b;
  sub = λ a b. a - b;
  mul = λ a b. a * b / 1000;
  div = λ a b. a * 1000 / b;
  sqrt = λ a. a;
  to_uint = λ a. a / 1000;
  less = ltb;
  less_eq = leb;
  equal = ◌==◌;
}
