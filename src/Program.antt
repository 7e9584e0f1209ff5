-- ===== src/Program.antt =====
-- `main`: which of the four programs runs, and the loop of `SctpClient::Run`.
pub mod Choices
use proto_test_msquic.Prelude.{
  ℕ, Bool, true, false, ◌&&◌, not, List, [], ◌∷◌, none, some, Result, ok, ◌>>=◌, if◌then◌else◌,
}
use proto_test_msquic.Prelude.Float.{Float64}
use proto_test_msquic.Frame.{Bytes}
use proto_test_msquic.Config.Text.{Text, codes, ConfigError, text_eq}
use proto_test_msquic.Config.Args.{find_arg, parse_args}
use proto_test_msquic.Config.Load.{AppConfig, is_sctp, load_config}
use proto_test_msquic.LoadClient.{Client}
use proto_test_msquic.LoadClient.Control.{is_done, request_stop_sending, force_shutdown_all}

-- What `main` goes on to do.
pub data Choice : Type 0 where
  print_usage : Choice
  sctp_server sctp_client quic_server quic_client : AppConfig → Choice

unfoldable pub choose_mode : AppConfig → Choice
choose_mode config =
    if is_sctp config.protocol
    then (if text_eq config.mode (codes "server") then sctp_server config else sctp_client config)
    else if text_eq config.mode (codes "server")
    then quic_server config
    else quic_client config

-- An error is printed with the usage, and the exit status is 1.
unfoldable pub choose : List Text → Result ConfigError Choice
unfolding choose_mode
choose tokens = do
  args ← parse_args tokens
  elim (find_arg args (codes "help")) [
    | some value ↦ ok print_usage
    | none ↦ load_config args >>= λ config. ok (choose_mode config)
  ]

module _ (F : Float64) (clock : ℕ → ℕ) (config : AppConfig) (accepts : ℕ → ℕ → Bytes → Bool)
    (shuts : ℕ → Bool) where
  -- An iteration of the loop of `SctpClient::Run`: its tests, and what the other threads do while
  -- it waits.
  pub record RunTurn : Type 0 where
    pub stop_wanted : Bool
    pub past_deadline : Bool
    pub past_drain_deadline : Bool
    pub others : Client F.Double → Client F.Double

  -- `stop_requested_` with the controller's state.
  pub record SctpRun : Type 0 where
    pub stop_requested : Bool
    pub controller : Client F.Double

  unfoldable pub run_turn : RunTurn → SctpRun → SctpRun × Bool
  run_turn turn s =
      let stopped : SctpRun = record {
        stop_requested = true;
        controller = request_stop_sending F clock config accepts shuts s.controller;
      } in
      let t = if turn.past_deadline && not s.stop_requested then stopped else s in
      let waited = record t { controller = turn.others t.controller } in
      if turn.stop_wanted
      then (s, false)
      else if turn.past_drain_deadline
      then (t, false)
      else (waited, not (is_done F config.client_count waited.controller))

  unfoldable pub run_loop : List RunTurn → SctpRun → SctpRun
  unfolding run_turn
  run_loop [] s = s
  run_loop (turn ∷ turns) s =
      let r = run_turn turn s in let rest = run_loop turns r.0 in if r.1 then rest else r.0

  -- `Run` between `Start` and `Stop` of the transport.
  unfoldable pub run : List RunTurn → SctpRun → SctpRun
  unfolding run_loop
  run turns s =
      let t = run_loop turns s in record t { controller = force_shutdown_all F t.controller }
