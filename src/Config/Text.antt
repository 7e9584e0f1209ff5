-- ===== src/Config/Text.antt =====
-- `std::string` and `std::map<std::string, std::string>` as main.cpp uses them, and what it throws.
use Prim.Native.Char.{code}
use proto_test_msquic.Prelude.{
  ℕ, ◌≡◌, refl, ap, sym, ◌∙◌, Bool, true, false, ◌&&◌, List, [], ◌∷◌, Option, none, some, String,
  Bool-cases, inl, inr, arith, ◌==◌, if◌then◌else◌,
}

abbrev pub Text : Type 0
Text = List ℕ

-- The bytes of an ASCII literal.
abbrev pub codes : String → Text
codes String.[] = []
codes (String.◌∷◌ c s) = code c ∷ codes s

-- The exceptions of the command line, one for each `throw`; the texts that a message quotes are
-- the arguments.
pub data ConfigError : Type 0 where
  usage : ConfigError
  unsupported_protocol : Text → ConfigError
  expected_key_value : Text → ConfigError
  invalid_value : Text → Text → ConfigError
  invalid_boolean : Text → Text → ConfigError
  missing_required : Text → ConfigError
  invalid_profile_entry : Text → ConfigError
  profile_message_size_small profile_max_inflight_zero profile_count_zero : ConfigError
  message_size_small server_count_zero stream_count_zero : ConfigError
  tls_multi_stream : ConfigError
  clients_zero max_inflight_zero : ConfigError
  send_server_index_negative send_server_index_high : ConfigError
  both_send_rates profile_and_send_rate : ConfigError
  bad_mode : ConfigError
  profile_out_of_range : ConfigError

unfoldable pub text_eq : Text → Text → Bool
text_eq [] [] = true
text_eq (a ∷ x) (b ∷ y) = a == b && text_eq x y
text_eq [] (b ∷ y) = false
text_eq (a ∷ x) [] = false

pub text_eq_refl : (x : Text) → text_eq x x ≡ true
unfolding text_eq
text_eq_refl [] = refl
text_eq_refl (a ∷ x) = ground (arith, text_eq_refl x)

pub text_eq_eq : (x y : Text) → text_eq x y ≡ true → x ≡ y
unfolding text_eq
text_eq_eq [] [] h = refl
text_eq_eq [] (b ∷ y) h = cc
text_eq_eq (a ∷ x) [] h = cc
text_eq_eq (a ∷ x) (b ∷ y) h = ground (arith, text_eq_eq x y)

-- `args.values`, in no particular order: it is only looked up.
abbrev pub Values : Type 0
Values = List (Text × Text)

unfoldable pub lookup : Text → Values → Option Text
unfolding text_eq
lookup k [] = none
lookup k ((j, v) ∷ m) = if text_eq j k then some v else lookup k m

-- `args.values[key] = value`
unfoldable pub insert : Text → Text → Values → Values
unfolding text_eq
insert k v [] = (k, v) ∷ []
insert k v ((j, w) ∷ m) = if text_eq j k then (k, v) ∷ m else (j, w) ∷ insert k v m

module _ (k : Text) where
  lookup_hit : (v : Text) (m : Values) → lookup k ((k, v) ∷ m) ≡ some v
  unfolding lookup
  lookup_hit v m = rw (text_eq_refl k)

  lookup_miss : (j w : Text) (m : Values) → text_eq j k ≡ false → lookup k ((j, w) ∷ m) ≡ lookup k m
  unfolding lookup
  lookup_miss j w m h = rw h

  -- What was written last under a key is what is found there.
  pub lookup-insert_self : (v : Text) (m : Values) → lookup k (insert k v m) ≡ some v
  unfolding insert
  lookup-insert_self v [] = lookup_hit v []
  lookup-insert_self v ((j, w) ∷ m) = elim (Bool-cases (text_eq j k)) [
    | inl e ↦ rw e (lookup_hit v m)
    | inr e ↦ rw e (lookup_miss j w (insert k v m) e ∙ lookup-insert_self v m)
  ]

  pub lookup-insert_ne :
      (j v : Text) (m : Values) → text_eq j k ≡ false → lookup k (insert j v m) ≡ lookup k m
  unfolding insert lookup
  lookup-insert_ne j v [] h = lookup_miss j v [] h
  lookup-insert_ne j v ((i, w) ∷ m) h = elim (Bool-cases (text_eq i j)) [
    | inl e ↦ rw e (lookup_miss j v m h ∙ rw (text_eq_eq i j e) (sym (lookup_miss j w m h)))
    | inr e ↦ rw e (same_tail i w m (insert j v m) (lookup-insert_ne j v m h))
  ]
    where
      same_tail :
          (i w : Text) (m n : Values)
          → lookup k n ≡ lookup k m
          → lookup k ((i, w) ∷ n) ≡ lookup k ((i, w) ∷ m)
      same_tail i w m n e = ap (λ r. if text_eq i k then some w else r) e
