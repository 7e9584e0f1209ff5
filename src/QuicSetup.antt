-- ===== src/QuicSetup.antt =====
-- `Configuration`: the settings and the credential that MsQuic is given.
-- Whether `ConfigurationOpen` and `ConfigurationLoadCredential` succeed is an argument.
pub mod Handles
use proto_test_msquic.Prelude.{ℕ, Bool, not, Option, none, some, Result, ok, err, if◌then◌else◌}
use proto_test_msquic.Config.Text.{Text}
use proto_test_msquic.Config.Load.{AppConfig, is_empty}

-- `QUIC_SETTINGS`: a field is none unless its `IsSet` is.
pub record QuicSettings : Type 0 where
  pub idle_timeout_ms : Option ℕ
  pub peer_bidi_stream_count : Option ℕ

-- `QUIC_CREDENTIAL_CONFIG` by its type; a client's says whether it validates certificates.
pub data Credential : Type 0 where
  client_none : Bool → Credential
  certificate_file : Text → Text → Credential
  certificate_file_protected : Text → Text → Text → Credential

pub data SetupError : Type 0 where
  open_failed load_failed : SetupError

unfoldable pub quic_settings : AppConfig → Bool → QuicSettings
quic_settings config is_client = record {
  idle_timeout_ms = some config.idle_timeout_ms;
  peer_bidi_stream_count = if is_client then none else some config.stream_count;
}

unfoldable pub credential : AppConfig → Bool → Credential
credential config is_client =
    if is_client
    then client_none config.verify_peer
    else if not (is_empty config.password)
    then certificate_file_protected config.cert_file config.key_file config.password
    else certificate_file config.cert_file config.key_file

-- The constructor; `opens` and `loads` say what the two calls do with what they are given.
unfoldable pub configure :
    (QuicSettings → Text → Bool)
    → (Credential → Bool)
    → AppConfig
    → Bool
    → Result SetupError (QuicSettings × Credential)
unfolding quic_settings credential
configure opens loads config is_client =
    if opens (quic_settings config is_client) config.alpn
    then (if loads (credential config is_client)
        then ok (quic_settings config is_client, credential config is_client)
        else err load_failed)
    else err open_failed
