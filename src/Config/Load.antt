-- ===== src/Config/Load.antt =====
-- `AppConfig` and `LoadConfig`.
pub mod Checked
pub mod Modes
pub mod Active
use proto_test_msquic.Prelude.{
  ℕ, ◌%◌, ◌^◌, ◌-◌, Bool, true, false, ◌&&◌, ◌||◌, not, List, [], ◌∷◌, Option, none, some, Result,
  ok, err, ◌>>=◌, ◌>>◌, throw_if, length, ltb, leb, ◌==◌, if◌then◌else◌,
}
use proto_test_msquic.Config.Text.{
  Text, codes, ConfigError, message_size_small, server_count_zero, stream_count_zero,
  tls_multi_stream, clients_zero, max_inflight_zero, send_server_index_negative,
  send_server_index_high, both_send_rates, profile_and_send_rate, bad_mode, text_eq,
}
use proto_test_msquic.Config.Number.{ℤ, pos, negsuc, Width, u16, u32, u64}
use proto_test_msquic.Config.Args.{
  Args, Protocol, ms_quic, sctp, parse_protocol, find_arg, get_bool, get_required, get_number,
  get_int, get_string,
}
use proto_test_msquic.Config.Profiles.{StreamProfile, parse_stream_profiles}

-- The defaults stand in `default_config`.
pub record AppConfig : Type 0 where
  pub mode : Text
  pub protocol : Protocol
  pub alpn : Text
  pub base_port : ℕ
  pub server_count : ℕ
  pub stream_count : ℕ
  pub message_size : ℕ
  pub idle_timeout_ms : ℕ
  pub stats_interval_ms : ℕ
  pub bind : Text
  pub cert_file : Text
  pub key_file : Text
  pub password : Text
  pub target : Text
  pub client_count : ℕ
  pub max_inflight : ℕ
  pub send_server_index : ℤ
  pub send_pps : ℕ
  pub send_pps_per_client : ℕ
  pub duration_sec : ℕ
  pub drain_timeout_ms : ℕ
  pub verify_peer : Bool
  pub sctp_nodelay : Bool
  pub sctp_stream_id : ℕ
  pub sctp_tls : Bool
  pub ca_file : Text
  pub stream_profiles : List StreamProfile

abbrev pub default_alpn : Text
default_alpn = codes "msquic-load"

abbrev pub default_config : AppConfig
default_config = record {
  mode = [];
  protocol = ms_quic;
  alpn = default_alpn;
  base_port = 15443;
  server_count = 1;
  stream_count = 1;
  message_size = 1024;
  idle_timeout_ms = 30000;
  stats_interval_ms = 1000;
  bind = codes "0.0.0.0";
  cert_file = [];
  key_file = [];
  password = [];
  target = codes "127.0.0.1";
  client_count = 1;
  max_inflight = 64;
  send_server_index = negsuc 0;
  send_pps = 0;
  send_pps_per_client = 0;
  duration_sec = 30;
  drain_timeout_ms = 5000;
  verify_peer = false;
  sctp_nodelay = true;
  sctp_stream_id = 0;
  sctp_tls = false;
  ca_file = [];
  stream_profiles = [];
}

abbrev pub is_sctp : Protocol → Bool
is_sctp ms_quic = false
is_sctp sctp = true

abbrev pub is_empty {ℓ} : {A : Type ℓ} → List A → Bool
is_empty [] = true
is_empty (x ∷ xs) = false

-- `static_cast<int>` of a uint32_t
abbrev pub to_int : ℕ → ℤ
to_int n = if ltb n (2 ^ 31) then pos n else negsuc (2 ^ 32 - n - 1)

abbrev pub ltb_ℤ : ℤ → ℤ → Bool
ltb_ℤ (pos a) (pos b) = ltb a b
ltb_ℤ (pos a) (negsuc b) = false
ltb_ℤ (negsuc a) (pos b) = true
ltb_ℤ (negsuc a) (negsuc b) = ltb b a

-- --stream-profile replaces the list and the number of streams.
unfoldable pub with_profiles : AppConfig → Option Text → Result ConfigError AppConfig
with_profiles config none = ok config
with_profiles config (some value) = do
  profiles ← parse_stream_profiles value
  ok (record config { stream_count = length profiles % 2 ^ 32; stream_profiles = profiles })

unfoldable pub load_profiles : Args → AppConfig → Result ConfigError AppConfig
unfolding with_profiles
load_profiles args config = with_profiles config (find_arg args (codes "stream-profile"))

-- The options that both modes take.
unfoldable pub load_common : Args → Result ConfigError AppConfig
unfolding load_profiles
load_common args = do
  protocol ← parse_protocol (get_string args (codes "protocol") (codes "msquic"))
  base_port ← get_number u16 args (codes "base-port") 15443
  server_count ← get_number u32 args (codes "server-count") 1
  stream_count ← get_number u32 args (codes "stream-count") 1
  message_size ← get_number u32 args (codes "message-size") 1024
  idle_timeout_ms ← get_number u64 args (codes "idle-timeout-ms") 30000
  stats_interval_ms ← get_number u64 args (codes "stats-interval-ms") 1000
  sctp_nodelay ← get_bool args (codes "sctp-nodelay") true
  sctp_stream_id ← get_number u16 args (codes "sctp-stream-id") 0
  sctp_tls ← get_bool args (codes "sctp-tls") false
  load_profiles args (record default_config {
    mode = args.mode;
    protocol = protocol;
    alpn = get_string args (codes "alpn") default_alpn;
    base_port = base_port;
    server_count = server_count;
    stream_count = stream_count;
    message_size = message_size;
    idle_timeout_ms = idle_timeout_ms;
    stats_interval_ms = stats_interval_ms;
    sctp_nodelay = sctp_nodelay;
    sctp_stream_id = sctp_stream_id;
    sctp_tls = sctp_tls;
    ca_file = get_string args (codes "ca") [];
  })

-- The checks that both modes make.
unfoldable pub check_common : AppConfig → Result ConfigError (Unit {0})
check_common config = do
  throw_if (ltb config.message_size 24) message_size_small
  throw_if (config.server_count == 0) server_count_zero
  throw_if (config.stream_count == 0) stream_count_zero
  throw_if (is_sctp config.protocol && config.sctp_tls && ltb 1 config.stream_count)
      tls_multi_stream
  ok tt

-- A server that serves TLS wants a certificate and a key: msquic always, sctp with --sctp-tls.
unfoldable pub load_server : Args → AppConfig → Result ConfigError AppConfig
load_server args config =
    let bound = record config { bind = get_string args (codes "bind") (codes "0.0.0.0") } in
    if not (is_sctp config.protocol) || config.sctp_tls
    then (do
      cert_file ← get_required args (codes "cert")
      key_file ← get_required args (codes "key")
      ok (record bound {
        cert_file = cert_file;
        key_file = key_file;
        password = get_string args (codes "password") [];
      }))
    else ok bound

unfoldable pub check_client : AppConfig → Result ConfigError (Unit {0})
check_client config = do
  throw_if (config.client_count == 0) clients_zero
  throw_if (config.max_inflight == 0) max_inflight_zero
  throw_if (ltb_ℤ config.send_server_index (negsuc 0)) send_server_index_negative
  throw_if (not (ltb_ℤ config.send_server_index (to_int config.server_count)))
      send_server_index_high
  throw_if (ltb 0 config.send_pps && ltb 0 config.send_pps_per_client) both_send_rates
  throw_if
      (not (is_empty config.stream_profiles)
        && (ltb 0 config.send_pps || ltb 0 config.send_pps_per_client))
      profile_and_send_rate
  ok tt

-- The checks on a client's options, which are returned.
unfoldable pub checked_client : AppConfig → Result ConfigError AppConfig
unfolding check_client
checked_client config = do check_client config; ok config

unfoldable pub load_client : Args → AppConfig → Result ConfigError AppConfig
unfolding checked_client
load_client args config = do
  target ← get_required args (codes "target")
  client_count ← get_number u32 args (codes "clients") 1
  max_inflight ← get_number u32 args (codes "max-inflight") 64
  send_server_index ← get_int args (codes "send-server-index") (negsuc 0)
  send_pps ← get_number u64 args (codes "send-pps") 0
  send_pps_per_client ← get_number u64 args (codes "send-pps-per-client") 0
  duration_sec ← get_number u64 args (codes "duration-sec") 30
  drain_timeout_ms ← get_number u64 args (codes "drain-timeout-ms") 5000
  verify_peer ← get_bool args (codes "verify-peer") false
  checked_client (record config {
    target = target;
    client_count = client_count;
    max_inflight = max_inflight;
    send_server_index = send_server_index;
    send_pps = send_pps;
    send_pps_per_client = send_pps_per_client;
    duration_sec = duration_sec;
    drain_timeout_ms = drain_timeout_ms;
    verify_peer = verify_peer;
  })

unfoldable pub load_mode : Args → AppConfig → Result ConfigError AppConfig
unfolding load_server load_client text_eq
load_mode args config =
    if text_eq config.mode (codes "server")
    then load_server args config
    else if text_eq config.mode (codes "client")
    then load_client args config
    else err bad_mode

unfoldable pub load_config : Args → Result ConfigError AppConfig
unfolding load_common check_common load_mode
load_config args = do config ← load_common args; check_common config; load_mode args config
