-- ===== src/SctpTransport/Poll.antt =====
-- `PollLoop` of the server and of the client, which poll the connections that use TLS.
-- What `poll` and the reads return is an argument of each round; `takes` and `parts` say whether
-- the handler's `OnData` and `OnPeerClosed` return.
use proto_test_msquic.Prelude.{
  ℕ, ◌+◌, Bool, true, false, List, [], ◌∷◌, Option, none, some, Map, if◌then◌else◌,
}
use proto_test_msquic.Frame.{Bytes}
use proto_test_msquic.SctpConnection.{Connection}
use proto_test_msquic.SctpConnection.Receive.{Turn, handle_poll_events}
use proto_test_msquic.SctpTransport.{Entry}

-- `poll`: EINTR, another errno, a timeout, or events.
pub data PollResult : Type 0 where
  poll_interrupted poll_failed poll_timed_out poll_ready : PollResult

-- A round: whether the loop's test ends it, what `poll` returns, each connection's `revents` (none
-- if 0, else whether it has an error's bit), and what its reads then return.
pub record PollTurn : Type 0 where
  pub stop : Bool
  pub result : PollResult
  pub revents : ℕ → Option Bool
  pub reads : ℕ → List Turn

-- The table, the calls of `OnTransportError` for `poll`, and whether the loop goes on.
pub record Polled : Type 0 where
  pub connections : Map Entry
  pub errors : ℕ
  pub goes_on : Bool

-- Whether no connection has a descriptor, so that `pollfds` is empty.
unfoldable pub none_open : Map Entry → Bool
none_open [] = true
none_open ((id, e) ∷ m) = let rest = none_open m in if e.connection.fd_open then false else rest

-- A loop of rounds.
unfoldable pub run_rounds : (PollTurn → Map Entry → Polled) → List PollTurn → Map Entry → Polled
run_rounds round [] m = record { connections = m; errors = 0; goes_on = true }
run_rounds round (turn ∷ turns) m =
    let r = round turn m in
    let rest = run_rounds round turns r.connections in
    if turn.stop
    then record { connections = m; errors = 0; goes_on = false }
    else if r.goes_on
    then record rest { errors = r.errors + rest.errors }
    else r

module _ (takes : ℕ → Bytes → Bool) (parts : Bool) where
  -- A connection, if it was polled and has events.
  unfoldable pub serve_connection : Option Bool → List Turn → Connection → Connection
  serve_connection none turns c = c
  serve_connection (some bad) turns c =
      if c.fd_open then (handle_poll_events takes parts bad turns c).0 else c

  unfoldable pub serve : PollTurn → Map Entry → Map Entry
  unfolding serve_connection
  serve turn [] = []
  serve turn ((id, e) ∷ m) =
      (
        id,
        record e { connection = serve_connection (turn.revents id) (turn.reads id) e.connection },
      )
      ∷ serve turn m

  -- After the call of `poll`, which is the same in both loops.
  unfoldable pub after_poll : PollResult → PollTurn → Map Entry → Polled
  unfolding serve
  after_poll poll_interrupted turn m = record { connections = m; errors = 0; goes_on = true }
  after_poll poll_failed turn m = record { connections = m; errors = 1; goes_on = false }
  after_poll poll_timed_out turn m = record { connections = m; errors = 0; goes_on = true }
  after_poll poll_ready turn m = record { connections = serve turn m; errors = 0; goes_on = true }

  unfoldable pub server_round : PollTurn → Map Entry → Polled
  unfolding after_poll
  server_round turn [] = record { connections = []; errors = 0; goes_on = true }
  server_round turn (e ∷ m) = after_poll turn.result turn (e ∷ m)

  unfoldable pub client_round : PollTurn → Map Entry → Polled
  unfolding after_poll none_open
  client_round turn [] = record { connections = []; errors = 0; goes_on = false }
  client_round turn (e ∷ m) =
      if none_open (e ∷ m)
      then record { connections = e ∷ m; errors = 0; goes_on = true }
      else after_poll turn.result turn (e ∷ m)

  unfoldable pub server_loop : List PollTurn → Map Entry → Polled
  unfolding run_rounds server_round
  server_loop turns m = run_rounds server_round turns m

  unfoldable pub client_loop : List PollTurn → Map Entry → Polled
  unfolding run_rounds client_round
  client_loop turns m = run_rounds client_round turns m
