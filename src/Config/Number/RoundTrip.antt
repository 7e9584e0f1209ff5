-- ===== src/Config/Number/RoundTrip.antt =====
-- `ParseNumber` against `std::to_string`: numbers are read back as they were printed.
use native.Mathlib.Nat.{pow-succ'}
use proto_test_msquic.Prelude.{
  ℕ, zero, suc, ◌+◌, ◌-◌, ◌*◌, ◌/◌, ◌%◌, ◌^◌, ◌≤◌, ◌<◌, ◌≡◌, ap, sym, ◌∙◌, true, [], ◌∷◌, none,
  some, ok, Bool-cases, inl, inr, arith, ltb, ltb→lt, lt→ltb, le→ltb, if◌then◌else◌,
}
use proto_test_msquic.Config.Text.{Text}
use proto_test_msquic.Config.Number.{
  is_digit, read_digits, read_number, stoull, parse_number, decimal, to_string, Width, u16, u32,
  u64, max_of, max_u16, max_u32, max_u64,
}

-- One more digit of a number that is being read.
read_digits_step :
    (a d : ℕ) (after : Text)
    → d < 10
    → read_digits a ((b'0' + d) ∷ after) ≡ read_digits (a * 10 + d) after
unfolding read_digits
read_digits_step a d after h =
    let e : a * 10 + (b'0' + d - b'0') ≡ a * 10 + d = omega arith in
    let t : is_digit (b'0' + d) ≡ true = ground arith in rw (t, e)

read_digits-decimal :
    (fuel n : ℕ) (after : Text)
    → n < 10 ^ fuel
    → read_digits 0 (decimal fuel n after) ≡ read_digits n after
unfolding decimal
read_digits-decimal zero n after h = ap (λ k. read_digits k after) (omega arith)
read_digits-decimal (suc fuel) n after h = elim (Bool-cases (ltb n 10)) [
  | inl small ↦
      rw small (
        read_digits_step 0 n after (ltb→lt n 10 small)
        ∙ ap (λ k. read_digits k after) (omega arith))
  | inr large ↦ rw large (
      read_digits-decimal fuel (n / 10) _ (omega (arith, pow-succ' 10 fuel))
      ∙ read_digits_step (n / 10) (n % 10) after (omega arith)
      ∙ ap (λ k. read_digits k after) (omega arith))
]

decimal_head :
    (fuel n : ℕ) (after : Text)
    → n < 10 ^ suc fuel
    → (c : ℕ) × (s : Text) × (decimal (suc fuel) n after ≡ c ∷ s) × (is_digit c ≡ true)
unfolding decimal
decimal_head zero n after h = (
  b'0' + n,
  after,
  rw (lt→ltb n 10 (omega (arith, pow-succ' 10 0))),
  ground (arith, pow-succ' 10 0),
)
decimal_head (suc fuel) n after h = elim (Bool-cases (ltb n 10)) [
  | inl small ↦ (b'0' + n, after, rw small, ground arith)
  | inr large ↦
      let (c, s, e, d) =
        decimal_head fuel (n / 10) ((b'0' + n % 10) ∷ after)
          (omega (arith, pow-succ' 10 (suc fuel))) in
      (c, s, rw large e, d)
]

-- A text that begins with a digit has no sign, and no space is skipped.
stoull_digit :
    (c : ℕ) (s : Text)
    → is_digit c ≡ true
    → stoull (c ∷ s)
      ≡ (if ltb max_u64 (read_digits 0 (c ∷ s)) then none else some (read_digits 0 (c ∷ s)))
unfolding stoull read_number
stoull_digit c s h = ground arith

stoull_minus :
    (c : ℕ) (s : Text)
    → is_digit c ≡ true
    → stoull (b'-' ∷ c ∷ s) ≡ (
        if ltb max_u64 (read_digits 0 (c ∷ s))
        then none
        else some ((2 ^ 64 - read_digits 0 (c ∷ s)) % 2 ^ 64))
unfolding stoull read_number
stoull_minus c s h = ground arith

read_digits-to_string : (n : ℕ) → n ≤ max_u64 → read_digits 0 (to_string n) ≡ n
unfolding to_string read_digits
read_digits-to_string n h = unfold to_string in read_digits-decimal 20 n [] (omega arith)

stoull-to_string : (n : ℕ) → n ≤ max_u64 → stoull (to_string n) ≡ some n
unfolding to_string
stoull-to_string n h =
    let (c, s, e, d) = decimal_head 19 n [] (omega arith) in
    let r : read_digits 0 (c ∷ s) ≡ n = rw (← e) (read_digits-to_string n h) in
    rw (e, stoull_digit c s d, r, le→ltb max_u64 n h)

pub max-le-max_u64 : (w : Width) → max_of w ≤ max_u64
max-le-max_u64 u16 = omega arith
max-le-max_u64 u32 = omega arith
max-le-max_u64 u64 = omega arith

-- ParseNumber reads every number that fits the type back from its decimal digits.
pub parse_number-to_string :
    (w : Width) (n : ℕ) (name : Text) → n ≤ max_of w → parse_number w (to_string n) name ≡ ok n
unfolding parse_number
parse_number-to_string u16 n name h = rw (stoull-to_string n (omega arith), le→ltb max_u16 n h)
parse_number-to_string u32 n name h = rw (stoull-to_string n (omega arith), le→ltb max_u32 n h)
parse_number-to_string u64 n name h = rw (stoull-to_string n h)

-- ParseNumber<uint64_t> accepts a minus sign: -n is read as 2^64 - n, for n from 1 to 2^64 - 1.
pub parse_number_negative :
    (n : ℕ) (name : Text)
    → 0 < n
    → n ≤ max_u64
    → parse_number u64 (b'-' ∷ to_string n) name ≡ ok (2 ^ 64 - n)
unfolding parse_number
parse_number_negative n name low high =
    let (c, s, e, d) = decimal_head 19 n [] (omega arith) in
    let e' : to_string n ≡ c ∷ s = unfold to_string in e in
    let r : read_digits 0 (c ∷ s) ≡ n =
      sym (ap (read_digits 0) e') ∙ read_digits-to_string n high in
    let m : (2 ^ 64 - n) % 2 ^ 64 ≡ 2 ^ 64 - n = omega arith in
    rw (e', stoull_minus c s d, r, le→ltb max_u64 n high, m)
