-- ===== src/Program/Choices.antt =====
-- What `main` runs, and the configuration that it runs with.
use proto_test_msquic.Prelude.{
  ◌≡◌, refl, inl, inr, Bool, true, false, List, Option, none, some, Result, ok, ◌>>=◌, Yields,
  Yields-value, Yields-bind, if◌then◌else◌,
}
use proto_test_msquic.Config.Text.{Text, codes, ConfigError, text_eq, text_eq_eq, text_eq_refl}
use proto_test_msquic.Config.Args.{Args, find_arg, parse_args}
use proto_test_msquic.Config.Load.{AppConfig, is_sctp, load_config}
use proto_test_msquic.Config.Load.Checked.{IsClient, IsMode, IsLoaded}
use proto_test_msquic.Config.Load.Modes.{load_config-IsLoaded}
use proto_test_msquic.Program.{
  Choice, print_usage, sctp_server, sctp_client, quic_server, quic_client, choose_mode, choose,
}

-- A choice's configuration passes the checks, is for its protocol, and for its mode.
abbrev pub IsFit : Choice → Type 0
IsFit print_usage = Unit {0}
IsFit (sctp_server c) = IsLoaded c × (is_sctp c.protocol ≡ true) × (c.mode ≡ codes "server")
IsFit (sctp_client c) = IsLoaded c × (is_sctp c.protocol ≡ true) × IsClient c
IsFit (quic_server c) = IsLoaded c × (is_sctp c.protocol ≡ false) × (c.mode ≡ codes "server")
IsFit (quic_client c) = IsLoaded c × (is_sctp c.protocol ≡ false) × IsClient c

-- A mode that is not "server" is a client's.
other_mode-IsClient :
    (c : AppConfig) → text_eq c.mode (codes "server") ≡ false → IsMode c → IsClient c
other_mode-IsClient c f (inl e) =
    let same : text_eq c.mode (codes "server") ≡ true = rw e (text_eq_refl (codes "server")) in
    absurd (cc)
other_mode-IsClient c f (inr (e, k)) = k

choose_mode-IsFit : (c : AppConfig) → IsLoaded c → IsFit (choose_mode c)
unfolding choose_mode
choose_mode-IsFit c l = go (is_sctp c.protocol) (text_eq c.mode (codes "server")) refl refl
  where
    go :
        (sctp server : Bool)
        → is_sctp c.protocol ≡ sctp
        → text_eq c.mode (codes "server") ≡ server
        → IsFit (
            if sctp
            then (if server then sctp_server c else sctp_client c)
            else if server
            then quic_server c
            else quic_client c)
    go true true p m = (l, p, text_eq_eq c.mode _ m)
    go true false p m = (l, p, other_mode-IsClient c m l.for_mode)
    go false true p m = (l, p, text_eq_eq c.mode _ m)
    go false false p m = (l, p, other_mode-IsClient c m l.for_mode)

-- What main goes on to run, if it neither fails nor prints the usage, is for the protocol of its
-- configuration, which passed all checks of LoadConfig: a server runs only in the mode "server",
-- and a client only with a configuration that passed the checks of a client.
pub choose-IsFit : (tokens : List Text) (choice : Choice) → choose tokens ≡ ok choice → IsFit choice
unfolding choose
choose-IsFit tokens choice = yields.at choice
  where
    chosen :
        (args : Args) (o : Option Text)
        → let r : Result ConfigError Choice = elim o [
          | some value ↦ ok print_usage
          | none ↦ load_config args >>= λ config. ok (choose_mode config)
        ] in
          Yields IsFit r
    chosen args none =
        Yields-bind (load_config args)
          λ c e. Yields-value (choose_mode-IsFit c (load_config-IsLoaded args c e))
    chosen args (some value) = Yields-value tt

    yields : Yields IsFit (choose tokens)
    yields = Yields-bind (parse_args tokens) λ args e. chosen args (find_arg args (codes "help"))
