-- ===== src/LoadClient/Profile.antt =====
-- `DefaultStreamProfile`, `StreamProfileForOrdinal` and `HasStreamProfilePacing`.
use proto_test_msquic.Prelude.{ℕ, Bool, false, ◌||◌, List, [], ◌∷◌, Option, some, get_elem?, ltb}
use proto_test_msquic.Config.Text.{codes}
use proto_test_msquic.Config.Profiles.{StreamProfile}
use proto_test_msquic.Config.Load.{AppConfig, is_empty}
use proto_test_msquic.Prelude.{if◌then◌else◌}

unfoldable pub has_pacing : List StreamProfile → Bool
has_pacing [] = false
has_pacing (p ∷ ps) = ltb 0 p.send_pps || has_pacing ps

unfoldable pub has_stream_profile_pacing : AppConfig → Bool
unfolding has_pacing
has_stream_profile_pacing config = has_pacing config.stream_profiles

unfoldable pub default_stream_profile : AppConfig → StreamProfile
default_stream_profile config = record {
  name = codes "default";
  message_size = config.message_size;
  max_inflight = config.max_inflight;
  send_pps = config.send_pps_per_client;
}

-- `vector::at`: `none` is `std::out_of_range`.
unfoldable pub stream_profile_for_ordinal : AppConfig → ℕ → Option StreamProfile
unfolding default_stream_profile
stream_profile_for_ordinal config ordinal =
    if is_empty config.stream_profiles
    then some (default_stream_profile config)
    else get_elem? config.stream_profiles ordinal
