-- ===== src/Config/Number.antt =====
-- `ParseNumber` over `std::stoul`, `std::stoull` and `std::stoi`, and `std::to_string`.
-- The standard functions skip white space, take one sign, read digits as long as there are any, and
-- ignore what follows; the unsigned ones negate modulo 2^64 after a minus sign.
pub mod RoundTrip
use proto_test_msquic.Prelude.{
  ℕ, zero, suc, ◌+◌, ◌-◌, ◌*◌, ◌/◌, ◌%◌, ◌^◌, ◌≤◌, ◌≡◌, arith, Bool, true, false, ◌&&◌, ◌||◌, List,
  [], ◌∷◌, Option, none, some, Result, ok, err, ◌>>=◌, ltb, leb, ◌==◌, if◌then◌else◌,
}
use proto_test_msquic.Config.Text.{Text, ConfigError, invalid_value}

-- `negsuc n` is -(n + 1).
pub data ℤ : Type 0 where
  pos : ℕ → ℤ
  negsuc : ℕ → ℤ

abbrev pub is_space : ℕ → Bool
is_space c = c == 32 || (leb 9 c && leb c 13)

abbrev pub is_digit : ℕ → Bool
is_digit c = leb b'0' c && leb c b'9'

unfoldable pub skip_spaces : Text → Text
skip_spaces [] = []
skip_spaces (c ∷ s) = let rest = skip_spaces s in if is_space c then rest else c ∷ s

-- The digits at the front, added to the number that was read before them.
unfoldable pub read_digits : ℕ → Text → ℕ
read_digits n [] = n
read_digits n (c ∷ s) =
    let rest = read_digits (n * 10 + (c - b'0')) s in if is_digit c then rest else n

-- At least one digit is wanted.
unfoldable pub read_number : Text → Option ℕ
unfolding read_digits
read_number [] = none
read_number (c ∷ s) = if is_digit c then some (read_digits 0 (c ∷ s)) else none

-- The sign and the magnitude; `none` is `std::invalid_argument`.
unfoldable pub scan_sign : Text → Option (Bool × ℕ)
unfolding read_number
scan_sign [] = none
scan_sign (c ∷ s) =
    if c == b'-'
    then elim (read_number s) [ none ↦ none | some n ↦ some (true, n) ]
    else if c == b'+'
    then elim (read_number s) [ none ↦ none | some n ↦ some (false, n) ]
    else elim (read_number (c ∷ s)) [ none ↦ none | some n ↦ some (false, n) ]

abbrev pub max_u16 : ℕ
max_u16 = 2 ^ 16 - 1

abbrev pub max_u32 : ℕ
max_u32 = 2 ^ 32 - 1

abbrev pub max_u64 : ℕ
max_u64 = 2 ^ 64 - 1

-- `std::stoul` and `std::stoull`, both over 64 bits; `none` is an exception.
unfoldable pub stoull : Text → Option ℕ
unfolding skip_spaces scan_sign
stoull text = elim (scan_sign (skip_spaces text)) [
  | none ↦ none
  | some (negative, n) ↦
      if ltb max_u64 n then none else if negative then some ((2 ^ 64 - n) % 2 ^ 64) else some n
]

-- `std::stoi`
unfoldable pub stoi : Text → Option ℤ
unfolding skip_spaces scan_sign
stoi text = elim (scan_sign (skip_spaces text)) [
  | none ↦ none
  | some (negative, n) ↦
      if negative
      then (if ltb (2 ^ 31) n then none else if n == 0 then some (pos 0) else some (negsuc (n - 1)))
      else if ltb (2 ^ 31 - 1) n
      then none
      else some (pos n)
]

-- The `catch` of `ParseNumber`, for every type.
abbrev or_invalid : {A : Type 0} → Text → Text → Option A → Result ConfigError A
or_invalid name text none = err (invalid_value name text)
or_invalid name text (some a) = ok a

abbrev at_most : ℕ → Option ℕ → Option ℕ
at_most limit none = none
at_most limit (some n) = if ltb limit n then none else some n

pub data Width : Type 0 where
  u16 u32 u64 : Width

abbrev pub max_of : Width → ℕ
max_of u16 = max_u16
max_of u32 = max_u32
max_of u64 = max_u64

-- `ParseNumber<uint16_t>`, `<uint32_t>`, `<uint64_t>` and `<int>`
unfoldable pub parse_number : Width → Text → Text → Result ConfigError ℕ
unfolding stoull
parse_number u16 text name = or_invalid name text (at_most max_u16 (stoull text))
parse_number u32 text name = or_invalid name text (at_most max_u32 (stoull text))
parse_number u64 text name = or_invalid name text (stoull text)

unfoldable pub parse_int : Text → Text → Result ConfigError ℤ
unfolding stoi
parse_int text name = or_invalid name text (stoi text)

-- `std::to_string` of an unsigned number, its digits before those in `after`.
unfoldable pub decimal : ℕ → ℕ → Text → Text
decimal zero n after = after
decimal (suc fuel) n after =
    let more = decimal fuel (n / 10) ((b'0' + n % 10) ∷ after) in
    if ltb n 10 then (b'0' + n) ∷ after else more

unfoldable pub to_string : ℕ → Text
unfolding decimal
to_string n = decimal 20 n []

pub stoull-le-max : (text : Text) {n : ℕ} → stoull text ≡ some n → n ≤ max_u64
unfolding stoull
stoull-le-max text h = ground arith

-- A number that ParseNumber accepts fits its type.
pub parse_number-le-max :
    (w : Width) (text name : Text) {n : ℕ} → parse_number w text name ≡ ok n → n ≤ max_of w
unfolding parse_number
parse_number-le-max u16 text name h = ground arith
parse_number-le-max u32 text name h = ground arith
parse_number-le-max u64 text name h = ground (arith, stoull-le-max text)
