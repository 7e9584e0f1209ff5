-- ===== src/SctpTransport/Client.antt =====
-- `SctpClientTransport`: `Start` and `Stop`.
-- What the system's calls, TLS and the handler do is an argument of each step.
use proto_test_msquic.Prelude.{
  ℕ, zero, suc, ◌+◌, ◌%◌, ◌^◌, Bool, true, false, ◌&&◌, ◌||◌, not, List, [], ◌∷◌, ◌++◌, Option,
  none, some, Map, put, if◌then◌else◌,
}
use proto_test_msquic.Config.Load.{AppConfig}
use proto_test_msquic.SctpTransport.{
  SocketOption, client_options, configure_socket, Entry, TransportCall, socket_opened,
  socket_closed, connecting, handshake_threw, on_connected, receive_started, polling_started,
  new_connection, close_entries, end_connection,
}

pub record ClientTransport : Type 0 where
  pub connections : Map Entry
  pub calls : List TransportCall
  -- what `Stop` took from the table
  pub closed_connections : Map Entry

abbrev pub new_client : ClientTransport
new_client = record { connections = []; calls = []; closed_connections = [] }

abbrev pub call : TransportCall → ClientTransport → ClientTransport
call c s = record s { calls = s.calls ++ c ∷ [] }

-- The outcomes of one round of `Start`: `socket`, `setsockopt`, `PrimeSocket`,
-- `ResolveIpv4Address`, `connect`, the handshake, the constructor of `SctpConnection`, and
-- `OnConnected` with the start of the threads.
pub record ConnectTurn : Type 0 where
  pub socket : Option ℕ
  pub sets : SocketOption → Bool
  pub primes : Bool
  pub resolves : Bool
  pub connects : Bool
  pub shakes : Bool
  pub constructs : Bool
  pub takes : Bool

-- The body of the `try`.
unfoldable pub prepares : AppConfig → ConnectTurn → Bool
unfolding configure_socket client_options
prepares config turn =
    configure_socket turn.sets (client_options config)
    && (not config.sctp_tls || turn.primes)
    && turn.resolves
    && turn.connects

unfoldable pub server_port : AppConfig → ℕ → ℕ
server_port config i = (config.base_port + i % config.server_count) % 2 ^ 32 % 2 ^ 16

-- What follows the `try` for the connection `i`, and whether it returns.
unfoldable pub register : AppConfig → ℕ → ConnectTurn → ℕ → ClientTransport → ClientTransport × Bool
unfolding new_connection
register config i turn fd s =
    let t = record s {
      connections = put i (new_connection config.sctp_tls fd) s.connections;
      calls = s.calls ++ on_connected i ∷ [];
    } in
    if (not config.sctp_tls || turn.shakes) && turn.constructs
    then (if config.sctp_tls || not turn.takes then t else call (receive_started i) t, turn.takes)
    else (call (handshake_threw fd) s, false)

-- A round of `Start`, and whether it returns.
unfoldable pub open_connection :
    AppConfig → ℕ → ConnectTurn → Option ℕ → ClientTransport → ClientTransport × Bool
unfolding prepares server_port register
open_connection config i turn none s = (s, false)
open_connection config i turn (some fd) s =
    if prepares config turn
    then register config i turn fd
        (record s { calls = s.calls ++ socket_opened fd ∷ connecting (server_port config i) ∷ [] })
    else (record s { calls = s.calls ++ socket_opened fd ∷ socket_closed fd ∷ [] }, false)

-- The rounds from `i` on, `count` of them.
unfoldable pub open_connections :
    AppConfig → (ℕ → ConnectTurn) → ℕ → ℕ → ClientTransport → ClientTransport × Bool
unfolding open_connection
open_connections config turn zero i s = (s, true)
open_connections config turn (suc count) i s =
    let r = open_connection config i (turn i) (turn i).socket s in
    let rest = open_connections config turn count (i + 1) r.0 in if r.1 then rest else r

unfoldable pub start : AppConfig → (ℕ → ConnectTurn) → ClientTransport → ClientTransport × Bool
unfolding open_connections
start config turn s =
    let r = open_connections config turn config.client_count 0 s in
    if r.1 && config.sctp_tls then (call polling_started r.0, true) else r

unfoldable pub stop : ClientTransport → ClientTransport
unfolding close_entries
stop s = record s {
  connections = [];
  closed_connections = s.closed_connections ++ close_entries s.connections;
}

-- The connections `ids` end, one after another.
unfoldable pub end_connections : List ℕ → ClientTransport → ClientTransport
unfolding end_connection
end_connections [] s = s
end_connections (id ∷ ids) s =
    end_connections ids (record s { connections = end_connection id s.connections })
