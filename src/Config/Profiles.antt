-- ===== src/Config/Profiles.antt =====
-- `SplitString` and `ParseStreamProfiles`: --stream-profile=name:size:pps:max_inflight[:count],...
use proto_test_msquic.Prelude.{
  ℕ, zero, suc, ◌+◌, ◌≤◌, ◌<◌, ◌≡◌, refl, ap, false, List, [], ◌∷◌, ◌++◌, Option, none, some,
  Result, ok, err, ◌>>=◌, ◌>>◌, throw_if, Yields, Yields-bind, Yields-throw_if, Yields-value,
  Yields-error, All, All-append, length, arith, ltb, ◌==◌, if◌then◌else◌,
}
use proto_test_msquic.Config.Text.{
  Text, codes, ConfigError, invalid_profile_entry, profile_message_size_small,
  profile_max_inflight_zero, profile_count_zero,
}
use proto_test_msquic.Config.Number.{
  u32, u64, max_u32, max_u64, parse_number, parse_number-le-max, to_string,
}

-- `AppConfig::StreamProfile`
pub record StreamProfile : Type 0 where
  pub name : Text
  pub message_size : ℕ
  pub max_inflight : ℕ
  pub send_pps : ℕ

-- `std::getline` in a loop: a part ends before each delimiter and at the end of the text, but
-- nothing is read behind a delimiter that ends the text.
abbrev pub push_char : ℕ → List Text → List Text
push_char c [] = (c ∷ []) ∷ []
push_char c (part ∷ parts) = (c ∷ part) ∷ parts

unfoldable pub split_string : Text → ℕ → List Text
split_string [] delimiter = []
split_string (c ∷ input) delimiter =
    let parts = split_string input delimiter in
    if c == delimiter then [] ∷ parts else push_char c parts

-- `for (i = 0; i < count; ++i) profiles.push_back(...)`: `left` rounds from `i` on.
unfoldable pub expand_profiles : ℕ → ℕ → ℕ → StreamProfile → List StreamProfile
expand_profiles zero i count profile = []
expand_profiles (suc left) i count profile =
    record profile {
      name = if count == 1 then profile.name else profile.name ++ (codes "-" ++ to_string i);
    }
    ∷ expand_profiles left (i + 1) count profile

-- `fields.size() == 5 ? ParseNumber<uint32_t>(fields[4], ...) : 1`
unfoldable pub parse_count : Option Text → Result ConfigError ℕ
parse_count none = ok 1
parse_count (some text) = parse_number u32 text (codes "stream-profile count")

-- The fields of one entry, checked and expanded. `count_field` is `none` where there are four.
unfoldable pub parse_profile :
    Text → Text → Text → Text → Option Text → Result ConfigError (List StreamProfile)
unfolding expand_profiles parse_count
parse_profile name size pps inflight count_field = do
  message_size ← parse_number u32 size (codes "stream-profile message_size")
  send_pps ← parse_number u64 pps (codes "stream-profile send_pps")
  max_inflight ← parse_number u32 inflight (codes "stream-profile max_inflight")
  count ← parse_count count_field
  throw_if (ltb message_size 24) profile_message_size_small
  throw_if (max_inflight == 0) profile_max_inflight_zero
  throw_if (count == 0) profile_count_zero
  ok (
      expand_profiles count 0 count (record {
        name = name;
        message_size = message_size;
        max_inflight = max_inflight;
        send_pps = send_pps;
      }))

-- Four or five fields, or an error that quotes the entry.
unfoldable pub parse_fields : Text → List Text → Result ConfigError (List StreamProfile)
unfolding parse_profile
parse_fields raw (name ∷ size ∷ pps ∷ inflight ∷ []) = parse_profile name size pps inflight none
parse_fields raw (name ∷ size ∷ pps ∷ inflight ∷ count ∷ []) =
    parse_profile name size pps inflight (some count)
parse_fields raw _ = err (invalid_profile_entry raw)

-- An empty entry is skipped.
unfoldable pub parse_entry : Text → Result ConfigError (List StreamProfile)
unfolding parse_fields split_string
parse_entry [] = ok []
parse_entry (c ∷ raw) = parse_fields (c ∷ raw) (split_string (c ∷ raw) b':')

unfoldable pub parse_entries : List Text → Result ConfigError (List StreamProfile)
unfolding parse_entry
parse_entries [] = ok []
parse_entries (raw ∷ entries) = do
  profiles ← parse_entry raw
  rest ← parse_entries entries
  ok (profiles ++ rest)

unfoldable pub parse_stream_profiles : Text → Result ConfigError (List StreamProfile)
unfolding parse_entries split_string
parse_stream_profiles value = parse_entries (split_string value b',')

-- What every profile of an accepted list keeps.
pub record IsProfile (p : StreamProfile) : Type 0 where
  pub holds_header : 24 ≤ p.message_size
  pub size_fits : p.message_size ≤ max_u32
  pub sends_some : 0 < p.max_inflight
  pub inflight_fits : p.max_inflight ≤ max_u32
  pub pps_fits : p.send_pps ≤ max_u64

expand_profiles-All :
    (left i count : ℕ) (p : StreamProfile)
    → IsProfile p
    → All IsProfile (expand_profiles left i count p)
unfolding expand_profiles
expand_profiles-All zero i count p v = tt
expand_profiles-All (suc left) i count p v =
    (omega arith, expand_profiles-All left (i + 1) count p v)

pub length-expand_profiles :
    (left i count : ℕ) (p : StreamProfile) → length (expand_profiles left i count p) ≡ left
unfolding expand_profiles
length-expand_profiles zero i count p = refl
length-expand_profiles (suc left) i count p = ap suc (length-expand_profiles left (i + 1) count p)

module _ (name size pps inflight : Text) (count_field : Option Text) where
  parse_profile-All : Yields (All IsProfile) (parse_profile name size pps inflight count_field)
  unfolding parse_profile
  parse_profile-All = Yields-bind (parse_number u32 size _) λ m em.
      Yields-bind (parse_number u64 pps _) λ r er. Yields-bind (parse_number u32 inflight _) λ x ex.
        Yields-bind (parse_count count_field) λ n en. Yields-throw_if (ltb m 24) _ λ sm.
          Yields-throw_if (x == 0) _ λ sx.
            Yields-throw_if (n == 0) _
              λ sn. Yields-value (expand_profiles-All n 0 n _ (checked m r x em er ex sm sx))
    where
      checked :
          (m r x : ℕ)
          → parse_number u32 size (codes "stream-profile message_size") ≡ ok m
          → parse_number u64 pps (codes "stream-profile send_pps") ≡ ok r
          → parse_number u32 inflight (codes "stream-profile max_inflight") ≡ ok x
          → ltb m 24 ≡ false
          → (x == 0) ≡ false
          → IsProfile (record { name = name; message_size = m; max_inflight = x; send_pps = r })
      checked m r x em er ex sm sx = record {
        holds_header = ground arith;
        size_fits = parse_number-le-max u32 size _ em;
        sends_some = ground arith;
        inflight_fits = parse_number-le-max u32 inflight _ ex;
        pps_fits = parse_number-le-max u64 pps _ er;
      }

parse_fields-All :
    (raw : Text) (fields : List Text) → Yields (All IsProfile) (parse_fields raw fields)
unfolding parse_fields
parse_fields-All raw [] = Yields-error _
parse_fields-All raw (a ∷ []) = Yields-error _
parse_fields-All raw (a ∷ b ∷ []) = Yields-error _
parse_fields-All raw (a ∷ b ∷ c ∷ []) = Yields-error _
parse_fields-All raw (a ∷ b ∷ c ∷ d ∷ []) = parse_profile-All a b c d none
parse_fields-All raw (a ∷ b ∷ c ∷ d ∷ e ∷ []) = parse_profile-All a b c d (some e)
parse_fields-All raw (a ∷ b ∷ c ∷ d ∷ e ∷ f ∷ fs) = Yields-error _

parse_entries-All : (entries : List Text) → Yields (All IsProfile) (parse_entries entries)
unfolding parse_entries parse_entry
parse_entries-All [] = Yields-value tt
parse_entries-All (raw ∷ entries) = Yields-bind (parse_entry raw) λ ps ep.
    Yields-bind (parse_entries entries) λ qs eq.
      Yields-value
        (All-append IsProfile ps qs ((entry raw).at ps ep) ((parse_entries-All entries).at qs eq))
  where
    entry : (raw : Text) → Yields (All IsProfile) (parse_entry raw)
    entry [] = Yields-value tt
    entry (c ∷ s) = parse_fields-All (c ∷ s) _

-- Every profile of an accepted --stream-profile holds a header, may send, and fits its types.
pub parse_stream_profiles-All :
    (value : Text) (ps : List StreamProfile)
    → parse_stream_profiles value ≡ ok ps
    → All IsProfile ps
unfolding parse_stream_profiles
parse_stream_profiles-All value ps h = (parse_entries-All (split_string value b',')).at ps h
