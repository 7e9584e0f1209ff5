-- ===== src/SctpTransport/Tls.antt =====
-- `SctpTlsContext`, in a build whose OpenSSL has SCTP. What OpenSSL's calls return are arguments.
use proto_test_msquic.Prelude.{
  ℕ, Bool, true, false, List, [], ◌∷◌, Option, none, some, Result, ok, err, ◌>>=◌, if◌then◌else◌,
}
use proto_test_msquic.Config.Load.{AppConfig, is_empty}

pub data Role : Type 0 where
  server client : Role

pub data VerifyMode : Type 0 where
  verify_none verify_peer : VerifyMode

-- The calls that may fail.
pub data TlsCall : Type 0 where
  auth_enabled ctx_new use_certificate use_private_key check_private_key load_verify_locations :
      TlsCall
  default_verify_paths bio_new ssl_new ssl_accept ssl_connect : TlsCall

-- `SSL_CTX_set_verify`, with the calls that follow it.
pub record Context : Type 0 where
  pub role : Role
  pub mode : VerifyMode

-- Calls in order, until the first that fails, which throws.
unfoldable pub require : (TlsCall → Bool) → List TlsCall → Result TlsCall (Unit {0})
require succeeds [] = ok tt
require succeeds (c ∷ cs) = let rest = require succeeds cs in if succeeds c then rest else err c

-- The constructor with TLS: what it requires, and the verification it sets.
unfoldable pub context_calls : AppConfig → Role → List TlsCall
context_calls config server =
    auth_enabled ∷ ctx_new ∷ use_certificate ∷ use_private_key ∷ check_private_key ∷ []
context_calls config client =
    auth_enabled
    ∷ ctx_new
    ∷ (if config.verify_peer
        then (if is_empty config.ca_file then default_verify_paths else load_verify_locations) ∷ []
        else [])

unfoldable pub verify_mode : AppConfig → Role → VerifyMode
verify_mode config server = verify_none
verify_mode config client = if config.verify_peer then verify_peer else verify_none

-- The constructor: nothing without TLS.
unfoldable pub open_context : (TlsCall → Bool) → AppConfig → Role → Result TlsCall (Option Context)
unfolding context_calls verify_mode
open_context succeeds config role =
    if config.sctp_tls
    then (require succeeds (context_calls config role) >>= λ done.
        ok (some (record { role = role; mode = verify_mode config role })))
    else ok none

unfoldable pub prime_socket : (TlsCall → Bool) → Option Context → Result TlsCall (Unit {0})
unfolding require
prime_socket succeeds none = ok tt
prime_socket succeeds (some context) = require succeeds (bio_new ∷ [])

-- `SSL_accept` or `SSL_connect`
abbrev pub handshake_call : Role → TlsCall
handshake_call server = ssl_accept
handshake_call client = ssl_connect

-- The result, and the number of SSL objects that are left; `true` is a connection with TLS.
unfoldable pub create_and_handshake : (TlsCall → Bool) → Option Context → Result TlsCall Bool × ℕ
create_and_handshake succeeds none = (ok false, 0)
create_and_handshake succeeds (some context) =
    if succeeds ssl_new
    then (if succeeds bio_new
        then (if succeeds (handshake_call context.role)
            then (ok true, 1)
            else (err (handshake_call context.role), 0))
        else (err bio_new, 0))
    else (err ssl_new, 0)
