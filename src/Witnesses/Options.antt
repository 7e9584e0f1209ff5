-- ===== src/Witnesses/Options.antt =====
-- Instances of the theorems on the command line and the configuration.
use proto_test_msquic.Prelude.{◌-◌, ◌^◌, ◌≡◌, refl, false, List, [], ◌∷◌, ◌++◌, some, ok, arith}
use proto_test_msquic.Config.Text.{Text, codes, text_eq, lookup, insert}
use proto_test_msquic.Config.Number.{
  u16, u64, parse_number, stoull, read_number, read_digits, skip_spaces, scan_sign, to_string,
}
use proto_test_msquic.Config.Number.RoundTrip.{parse_number-to_string, parse_number_negative}
use proto_test_msquic.Program.{quic_client, choose, choose_mode}
use proto_test_msquic.Program.Choices.{IsFit, choose-IsFit}
use proto_test_msquic.Config.Args.{
  Args, parse_protocol, parse_args, parse_tokens, parse_token, parse_option, split_eq, strip_dashes,
  get_number, number_or, get_int, get_bool, get_string, get_required, find_arg, option_text,
  parse_args_option,
}
use proto_test_msquic.Config.Load.{
  AppConfig, default_config, load_config, load_common, load_profiles, with_profiles, check_common,
  load_mode, load_client, checked_client, check_client,
}
use proto_test_msquic.Config.Load.Checked.{IsLoaded}
use proto_test_msquic.Config.Load.Modes.{load_config-IsLoaded}

parse_number-to_string_example : parse_number u16 (to_string 4433) (codes "base-port") ≡ ok 4433
parse_number-to_string_example = parse_number-to_string u16 4433 (codes "base-port") (omega arith)

parse_number_negative_example :
    parse_number u64 (b'-' ∷ to_string 1) (codes "send-pps") ≡ ok (2 ^ 64 - 1)
parse_number_negative_example =
    parse_number_negative 1 (codes "send-pps") (omega arith) (omega arith)

only_mode :
    parse_args (codes "loadtest" ∷ codes "server" ∷ [])
    ≡ ok (record { mode = codes "server"; values = [] })
unfolding parse_args parse_tokens
only_mode = refl

parse_args_option_example :
    (b : Args) × (parse_args (
        codes "loadtest" ∷ codes "server" ∷ []
        ++ option_text (codes "cert-file") (codes "a.pem") ∷ [])
      ≡ ok b)
    × (b.mode ≡ codes "server")
    × (find_arg b (codes "cert-file") ≡ some (codes "a.pem"))
    × ((j : Text)
        → text_eq (codes "cert-file") j ≡ false
        → find_arg b j ≡ find_arg (record { mode = codes "server"; values = [] }) j)
parse_args_option_example =
    parse_args_option (codes "loadtest") (codes "server") (codes "cert-file") (codes "a.pem") []
      (record { mode = codes "server"; values = [] })
      (refl, (refl, (refl, (refl, (refl, (refl, (refl, (refl, (refl, tt))))))))) only_mode

abbrev client_args : Args
client_args = record {
  mode = codes "client";
  values = (codes "target", codes "127.0.0.1") ∷ (codes "server-count", codes "2") ∷ [];
}

abbrev client_config : AppConfig
client_config = record default_config { mode = codes "client"; server_count = 2 }

accepted : load_config client_args ≡ ok client_config
unfolding load_config load_common load_profiles with_profiles check_common load_mode load_client
    checked_client check_client get_number number_or get_int get_bool get_string get_required
    find_arg lookup text_eq parse_protocol parse_number stoull read_number read_digits skip_spaces
    scan_sign
accepted = refl

load_config-IsLoaded_example : IsLoaded client_config
load_config-IsLoaded_example = load_config-IsLoaded client_args client_config accepted

abbrev client_line : List Text
client_line =
    codes "loadtest" ∷ codes "client" ∷ codes "--target=127.0.0.1" ∷ codes "--server-count=2" ∷ []

client_chosen : choose client_line ≡ ok (quic_client client_config)
unfolding choose choose_mode parse_args parse_tokens parse_token parse_option split_eq strip_dashes
    insert load_config load_common load_profiles with_profiles check_common load_mode load_client
    checked_client check_client get_number number_or get_int get_bool get_string get_required
    find_arg lookup text_eq parse_protocol parse_number stoull read_number read_digits skip_spaces
    scan_sign
client_chosen = refl

choose-IsFit_example : IsFit (quic_client client_config)
choose-IsFit_example = choose-IsFit client_line (quic_client client_config) client_chosen
