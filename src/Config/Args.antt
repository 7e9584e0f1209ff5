-- ===== src/Config/Args.antt =====
-- `ParseProtocol`, `ParseArgs`, `FindArg`, `GetBool`, `GetRequired`, `GetNumber`, `GetString`.
use proto_test_msquic.Prelude.{
  ℕ, ◌≡◌, ◌↔◌, All, refl, ap, sym, ◌∙◌, Bool, true, false, ◌&&◌, ◌||◌, List, [], ◌∷◌, ◌++◌, Option,
  none, some, Result, ok, err, ◌>>=◌, >>=-split, >>=-eq-ok, Bool-cases, inl, inr, arith, ◌==◌,
  if◌then◌else◌,
}
use proto_test_msquic.Config.Text.{
  Text, codes, ConfigError, usage, unsupported_protocol, expected_key_value, invalid_boolean,
  missing_required, text_eq, text_eq_eq, Values, lookup, insert, lookup-insert_self,
  lookup-insert_ne,
}
use proto_test_msquic.Config.Number.{ℤ, Width, parse_number, parse_int}

pub data Protocol : Type 0 where
  ms_quic sctp : Protocol

unfoldable pub protocol_name : Protocol → Text
protocol_name ms_quic = codes "msquic"
protocol_name sctp = codes "sctp"

unfoldable pub parse_protocol : Text → Result ConfigError Protocol
unfolding text_eq
parse_protocol value =
    if text_eq value (codes "msquic")
    then ok ms_quic
    else if text_eq value (codes "sctp")
    then ok sctp
    else err (unsupported_protocol value)

pub record Args : Type 0 where
  pub mode : Text
  pub values : Values

-- `token.find('=')`: the text before the first `=` and the text behind it.
unfoldable pub split_eq : Text → Option (Text × Text)
split_eq [] = none
split_eq (c ∷ s) =
    let rest = split_eq s in
    if c == b'=' then some ([], s) else elim rest [ none ↦ none | some (k, v) ↦ some (c ∷ k, v) ]

-- `--key=value`, or `--key` for `--key=1`, behind the two dashes
unfoldable pub parse_option : Text → Values → Values
unfolding split_eq insert
parse_option token values = elim (split_eq token) [
  | none ↦ insert token (codes "1") values
  | some (k, v) ↦ insert k v values
]

-- `token.rfind("--", 0)` and `token.erase(0, 2)`
unfoldable pub strip_dashes : Text → Option Text
strip_dashes [] = none
strip_dashes (a ∷ []) = none
strip_dashes (a ∷ b ∷ name) = if a == b'-' && b == b'-' then some name else none

-- One round of the loop over `argv`.
unfoldable pub parse_token : Text → Values → Result ConfigError Values
unfolding parse_option text_eq strip_dashes
parse_token token values =
    if text_eq token (codes "--help") || text_eq token (codes "-h")
    then ok (insert (codes "help") (codes "1") values)
    else elim (strip_dashes token) [
      | none ↦ err (expected_key_value token)
      | some name ↦ ok (parse_option name values)
    ]

unfoldable pub parse_tokens : List Text → Values → Result ConfigError Values
unfolding parse_token
parse_tokens [] values = ok values
parse_tokens (t ∷ ts) values = parse_token t values >>= λ v. parse_tokens ts v

-- `argv`, the program's name first
unfoldable pub parse_args : List Text → Result ConfigError Args
unfolding parse_tokens
parse_args [] = err usage
parse_args (program ∷ []) = err usage
parse_args (program ∷ mode ∷ tokens) = do
  values ← parse_tokens tokens []
  ok (record { mode = mode; values = values })

unfoldable pub find_arg : Args → Text → Option Text
unfolding lookup
find_arg args key = lookup key args.values

unfoldable pub get_bool : Args → Text → Bool → Result ConfigError Bool
unfolding find_arg
get_bool args key default_value = elim (find_arg args key) [
  | none ↦ ok default_value
  | some value ↦
      if text_eq value (codes "1") || text_eq value (codes "true") || text_eq value (codes "yes")
      then ok true
      else if text_eq value (codes "0")
          || text_eq value (codes "false")
          || text_eq value (codes "no")
      then ok false
      else err (invalid_boolean key value)
]

unfoldable pub get_required : Args → Text → Result ConfigError Text
unfolding find_arg
get_required args key = elim (find_arg args key) [
  | none ↦ err (missing_required key)
  | some value ↦ ok value
]

-- `GetNumber<T>` for the unsigned types, and for `int`
unfoldable pub number_or : Width → Text → ℕ → Option Text → Result ConfigError ℕ
number_or w key default_value none = ok default_value
number_or w key default_value (some value) = parse_number w value key

unfoldable pub get_number : Width → Args → Text → ℕ → Result ConfigError ℕ
unfolding find_arg parse_number number_or
get_number w args key default_value = number_or w key default_value (find_arg args key)

unfoldable pub get_int : Args → Text → ℤ → Result ConfigError ℤ
unfolding find_arg parse_int
get_int args key default_value = elim (find_arg args key) [
  | none ↦ ok default_value
  | some value ↦ parse_int value key
]

unfoldable pub get_string : Args → Text → Text → Text
unfolding find_arg
get_string args key default_value = elim (find_arg args key) [
  | none ↦ default_value
  | some value ↦ value
]

parse_protocol_name : (p : Protocol) → parse_protocol (protocol_name p) ≡ ok p
unfolding parse_protocol protocol_name
parse_protocol_name ms_quic = refl
parse_protocol_name sctp = refl

accepted : (value : Text) (p : Protocol) → parse_protocol value ≡ ok p → value ≡ protocol_name p
unfolding parse_protocol protocol_name
accepted value p h =
    ground (arith, text_eq_eq value (codes "msquic"), text_eq_eq value (codes "sctp"))

-- ParseProtocol accepts the two names that ProtocolName writes, each as its protocol, and no other
-- text.
pub parse_protocol_iff :
    (value : Text) (p : Protocol) → (parse_protocol value ≡ ok p) ↔ (value ≡ protocol_name p)
parse_protocol_iff value p = (accepted value p, λ e. rw e (parse_protocol_name p))

-- The key of an option holds no `=`.
abbrev pub IsKey : Text → Type 0
IsKey = All (λ c. (c == b'=') ≡ false)

split_eq-append : (k v : Text) → IsKey k → split_eq (k ++ b'=' ∷ v) ≡ some (k, v)
unfolding split_eq
split_eq-append [] v h = refl
split_eq-append (c ∷ k) v h = rw (h.0, split_eq-append k v h.1)

abbrev pub option_text : Text → Text → Text
option_text k v = b'-' ∷ b'-' ∷ (k ++ b'=' ∷ v)

split_eq-option : (k v : Text) → IsKey k → split_eq (option_text k v) ≡ some (b'-' ∷ b'-' ∷ k, v)
unfolding split_eq
split_eq-option k v h = rw (split_eq-append k v h)

not_flag :
    (k v flag : Text) → IsKey k → split_eq flag ≡ none → text_eq (option_text k v) flag ≡ false
not_flag k v flag h n = elim (Bool-cases (text_eq (option_text k v) flag)) [
  | inl e ↦
      let q : split_eq flag ≡ some (b'-' ∷ b'-' ∷ k, v) =
        ap split_eq (sym (text_eq_eq (option_text k v) flag e)) ∙ split_eq-option k v h in
      absurd (cc)
  | inr e ↦ e
]

parse_token_option :
    (k v : Text) (values : Values)
    → IsKey k
    → parse_token (option_text k v) values ≡ ok (insert k v values)
unfolding parse_token split_eq
parse_token_option k v values h =
    rw (not_flag k v (codes "--help") h refl, split_eq-append k v h, parse_option)

parse_tokens-append :
    (ts us : List Text) (values : Values)
    → parse_tokens (ts ++ us) values ≡ (parse_tokens ts values >>= λ v. parse_tokens us v)
unfolding parse_tokens
parse_tokens-append [] us values = refl
parse_tokens-append (t ∷ ts) us values =
    >>=-split (parse_token t values) _ _ _ (parse_tokens-append ts us)

-- If a command line is accepted, it is also accepted with an option behind it whose key holds no
-- '=': the option's value is found under its key, and what is found under every other key is as it
-- was.
pub parse_args_option :
    (program mode k v : Text) (ts : List Text) (a : Args)
    → IsKey k
    → parse_args (program ∷ mode ∷ ts) ≡ ok a
    → (b : Args) × (parse_args (program ∷ mode ∷ ts ++ option_text k v ∷ []) ≡ ok b)
      × (b.mode ≡ mode)
      × (find_arg b k ≡ some v)
      × ((j : Text) → text_eq k j ≡ false → find_arg b j ≡ find_arg a j)
unfolding parse_args find_arg
parse_args_option program mode k v ts a h e =
    let (values, p, q) = >>=-eq-ok (parse_tokens ts []) _ e in
    let r : parse_tokens (ts ++ option_text k v ∷ []) [] ≡ ok (insert k v values) =
      parse_tokens-append ts (option_text k v ∷ []) [] ∙ rw p (last_token values) in
    (
      record { mode = mode; values = insert k v values },
      rw r,
      refl,
      lookup-insert_self k v values,
      λ j n. lookup-insert_ne j k v values n ∙ ap (lookup j) (found_before values q),
    )
  where
    last_token :
        (values : Values) → parse_tokens (option_text k v ∷ []) values ≡ ok (insert k v values)
    last_token values = unfold parse_tokens in rw (parse_token_option k v values h)

    found_before :
        (values : Values)
        → ◌≡◌ {A = Result ConfigError Args} (ok (record { mode = mode; values = values })) (ok a)
        → values ≡ a.values
    found_before values q = ground arith
