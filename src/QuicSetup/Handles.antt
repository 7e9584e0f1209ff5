-- ===== src/QuicSetup/Handles.antt =====
-- The handles of MsQuic that `Server` and `Client` of QUIC hold as members: `MsQuicApi`,
-- `Registration` and `Configuration`, from their constructors to their destructors.
use proto_test_msquic.Prelude.{
  ℕ, ◌+◌, ◌≡◌, refl, Bool, true, false, List, [], ◌∷◌, ◌++◌, Result, ok, err, tally, if◌then◌else◌,
}
use proto_test_msquic.Config.Text.{Text}
use proto_test_msquic.Config.Load.{AppConfig}
use proto_test_msquic.QuicSetup.{
  QuicSettings, Credential, SetupError, open_failed, load_failed, configure,
}

pub data Handle : Type 0 where
  api registration configuration : Handle

-- A handle that MsQuic gave out, and one that was given back to it.
pub data HandleCall : Type 0 where
  opened closed : Handle → HandleCall

-- The calls up to here, and whether the constructor returned.
abbrev pub Built : Type 0
Built = List HandleCall × Bool

unfoldable pub open_api : Bool → Built
open_api opens = if opens then (opened api ∷ [], true) else ([], false)

unfoldable pub close_api : List HandleCall → List HandleCall
close_api calls = calls ++ closed api ∷ []

unfoldable pub open_registration : Bool → List HandleCall → Built
open_registration opens calls =
    if opens then (calls ++ opened registration ∷ [], true) else (calls, false)

unfoldable pub close_registration : List HandleCall → List HandleCall
close_registration calls = calls ++ closed registration ∷ []

-- A constructor that throws runs no destructor of its own.
unfoldable pub open_configuration :
    Result SetupError (QuicSettings × Credential) → List HandleCall → Built
open_configuration (ok value) calls = (calls ++ opened configuration ∷ [], true)
open_configuration (err open_failed) calls = (calls, false)
open_configuration (err load_failed) calls = (calls ++ opened configuration ∷ [], false)

unfoldable pub close_configuration : List HandleCall → List HandleCall
close_configuration calls = calls ++ closed configuration ∷ []

-- The members in their order. Where one throws, those before it are destroyed, the last one first;
-- where all are there, the program runs, and then they are destroyed.
unfoldable pub with_configuration : Built → List HandleCall
unfolding close_api close_registration close_configuration
with_configuration (calls, true) = close_api (close_registration (close_configuration calls))
with_configuration (calls, false) = close_api (close_registration calls)

unfoldable pub with_registration :
    Result SetupError (QuicSettings × Credential) → Built → List HandleCall
unfolding open_configuration with_configuration
with_registration configured (calls, true) =
    with_configuration (open_configuration configured calls)
with_registration configured (calls, false) = close_api calls

unfoldable pub with_api :
    Bool → Result SetupError (QuicSettings × Credential) → Built → List HandleCall
unfolding open_registration with_registration
with_api registers configured (calls, true) =
    with_registration configured (open_registration registers calls)
with_api registers configured (calls, false) = calls

unfoldable pub lifetime :
    Bool
    → Bool
    → (QuicSettings → Text → Bool)
    → (Credential → Bool)
    → AppConfig
    → Bool
    → List HandleCall
unfolding open_api with_api configure
lifetime loads_api registers opens loads config is_client =
    with_api registers (configure opens loads config is_client) (open_api loads_api)

abbrev is_same : Handle → Handle → ℕ
is_same api api = 1
is_same registration registration = 1
is_same configuration configuration = 1
is_same api registration = 0
is_same api configuration = 0
is_same registration api = 0
is_same registration configuration = 0
is_same configuration api = 0
is_same configuration registration = 0

-- How often a handle was opened, and closed.
abbrev pub openings : Handle → HandleCall → ℕ
openings h (opened k) = is_same h k
openings h (closed k) = 0

abbrev pub closings : Handle → HandleCall → ℕ
closings h (opened k) = 0
closings h (closed k) = is_same h k

-- A configuration whose credential was refused.
abbrev pub lost_configuration :
    Bool → Bool → Result SetupError (QuicSettings × Credential) → Handle → ℕ
lost_configuration true true (err load_failed) configuration = 1
lost_configuration true true (err load_failed) api = 0
lost_configuration true true (err load_failed) registration = 0
lost_configuration true true (err open_failed) h = 0
lost_configuration true true (ok value) h = 0
lost_configuration true false r h = 0
lost_configuration false b r h = 0

balanced :
    (loads_api registers : Bool) (r : Result SetupError (QuicSettings × Credential)) (h : Handle)
    → let calls = with_api registers r (open_api loads_api) in
      tally (openings h) calls
      ≡ tally (closings h) calls + lost_configuration loads_api registers r h
unfolding with_api open_api
balanced true true (ok value) api = refl
balanced true true (ok value) registration = refl
balanced true true (ok value) configuration = refl
balanced true true (err open_failed) api = refl
balanced true true (err open_failed) registration = refl
balanced true true (err open_failed) configuration = refl
balanced true true (err load_failed) api = refl
balanced true true (err load_failed) registration = refl
balanced true true (err load_failed) configuration = refl
balanced true false r api = refl
balanced true false r registration = refl
balanced true false r configuration = refl
balanced false b r h = refl

-- However the calls of MsQuic end, each handle that it gave to the members is given back once, but
-- for a configuration whose credential MsQuic refused, which is never closed.
pub lifetime-handles :
    (loads_api registers : Bool) (opens : QuicSettings → Text → Bool) (loads : Credential → Bool)
    (config : AppConfig) (is_client : Bool) (h : Handle)
    → let calls = lifetime loads_api registers opens loads config is_client in
      tally (openings h) calls
      ≡ tally (closings h) calls
        + lost_configuration loads_api registers (configure opens loads config is_client) h
unfolding lifetime
lifetime-handles loads_api registers opens loads config is_client h =
    balanced loads_api registers (configure opens loads config is_client) h
