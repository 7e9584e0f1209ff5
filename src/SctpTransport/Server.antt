-- ===== src/SctpTransport/Server.antt =====
-- `SctpServerTransport`: `Start`, the accepting threads, and `Stop`.
-- What the system's calls, TLS and the handler do is an argument of each step.
use proto_test_msquic.Prelude.{
  ℕ, ◌+◌, ◌%◌, ◌^◌, Bool, true, false, ◌&&◌, ◌||◌, not, List, [], ◌∷◌, ◌++◌, Option, none, some,
  Map, put, map, zero, suc, if◌then◌else◌,
}
use proto_test_msquic.Config.Load.{AppConfig}
use proto_test_msquic.SctpTransport.{
  SocketOption, server_options, configure_socket, Entry, TransportCall, socket_opened,
  socket_closed, listening, on_connected, on_connected_threw, receive_started, on_transport_error,
  polling_started, new_connection, close_entries, end_connection,
}

pub record ServerTransport : Type 0 where
  pub stopped : Bool
  pub next_connection_id : ℕ
  pub connections : Map Entry
  pub listeners : List ℕ
  pub calls : List TransportCall
  -- what `Stop` took from the table
  pub closed_connections : Map Entry

abbrev pub new_server : ServerTransport
new_server = record {
  stopped = false;
  next_connection_id = 0;
  connections = [];
  listeners = [];
  calls = [];
  closed_connections = [];
}

abbrev pub call : TransportCall → ServerTransport → ServerTransport
call c s = record s { calls = s.calls ++ c ∷ [] }

-- The outcomes of one round of `Start`: `socket`, `setsockopt`, `PrimeSocket`, `inet_pton`, `bind`
-- and `listen`.
pub record ListenTurn : Type 0 where
  pub socket : Option ℕ
  pub sets : SocketOption → Bool
  pub primes : Bool
  pub parses : Bool
  pub binds : Bool
  pub listens : Bool

-- The body of the `try`.
unfoldable pub prepares : AppConfig → ListenTurn → Bool
unfolding configure_socket server_options
prepares config turn =
    configure_socket turn.sets (server_options config)
    && (not config.sctp_tls || turn.primes)
    && turn.parses
    && turn.binds
    && turn.listens

-- A round of `Start` for the port with index `i`, and whether it returns.
unfoldable pub open_listener :
    AppConfig → ℕ → ListenTurn → Option ℕ → ServerTransport → ServerTransport × Bool
unfolding prepares
open_listener config i turn none s = (s, false)
open_listener config i turn (some fd) s =
    if prepares config turn
    then (
      record s {
        listeners = s.listeners ++ fd ∷ [];
        calls =
            s.calls ++ socket_opened fd ∷ listening ((config.base_port + i) % 2 ^ 32 % 2 ^ 16) ∷ [];
      },
      true,
    )
    else (record s { calls = s.calls ++ socket_opened fd ∷ socket_closed fd ∷ [] }, false)

-- The rounds from `i` on, `count` of them.
unfoldable pub open_listeners :
    AppConfig → (ℕ → ListenTurn) → ℕ → ℕ → ServerTransport → ServerTransport × Bool
unfolding open_listener
open_listeners config turn zero i s = (s, true)
open_listeners config turn (suc count) i s =
    let r = open_listener config i (turn i) (turn i).socket s in
    let rest = open_listeners config turn count (i + 1) r.0 in if r.1 then rest else r

unfoldable pub start : AppConfig → (ℕ → ListenTurn) → ServerTransport → ServerTransport × Bool
unfolding open_listeners
start config turn s =
    open_listeners config turn config.server_count 0
      (if config.sctp_tls then call polling_started s else s)

-- An accepted socket: its descriptor, and whether `setsockopt`, the handshake, the constructor of
-- `SctpConnection`, and `OnConnected` with the start of the threads succeed.
pub record Accepted : Type 0 where
  pub fd : ℕ
  pub sets : SocketOption → Bool
  pub shakes : Bool
  pub constructs : Bool
  pub connects : Bool

-- The `catch` of `AcceptLoop`.
unfoldable pub drop_socket : ℕ → ServerTransport → ServerTransport
drop_socket fd s = record s { calls = s.calls ++ socket_closed fd ∷ on_transport_error ∷ [] }

-- From the insertion into the table on.
unfoldable pub register : AppConfig → ℕ → Accepted → ServerTransport → ServerTransport
unfolding drop_socket new_connection
register config id turn s =
    let t = record s {
      connections = put id (new_connection config.sctp_tls turn.fd) s.connections;
      calls = s.calls ++ on_connected id ∷ [];
    } in
    if turn.connects
    then (if config.sctp_tls then t else call (receive_started id) t)
    else drop_socket turn.fd (call (on_connected_threw turn.fd) t)

-- An accepted socket in `AcceptLoop`.
unfoldable pub accept_socket : AppConfig → Accepted → ServerTransport → ServerTransport
unfolding register drop_socket configure_socket server_options
accept_socket config turn s =
    let t = call (socket_opened turn.fd) s in
    let u = record t { next_connection_id = (s.next_connection_id + 1) % 2 ^ 32 } in
    if configure_socket turn.sets (server_options config) && (not config.sctp_tls || turn.shakes)
    then (if turn.constructs
        then register config s.next_connection_id turn u
        else drop_socket turn.fd u)
    else drop_socket turn.fd t

-- What `accept` returns: a socket, EINTR, or another errno.
pub data Accept : Type 0 where
  accepted : Accepted → Accept
  accept_interrupted accept_failed : Accept

-- A round of `AcceptLoop` after its test, and whether the loop goes on.
unfoldable pub accept_turn : AppConfig → Accept → ServerTransport → ServerTransport × Bool
unfolding accept_socket
accept_turn config (accepted turn) s = (accept_socket config turn s, true)
accept_turn config accept_interrupted s = (s, true)
accept_turn config accept_failed s = (if s.stopped then s else call on_transport_error s, false)

-- The first half of `Stop`, up to the joins, and the second.
unfoldable pub stop_listening : ServerTransport → ServerTransport
stop_listening s = record s {
  stopped = true;
  listeners = [];
  calls = s.calls ++ map socket_closed s.listeners;
}

unfoldable pub stop_connections : ServerTransport → ServerTransport
unfolding close_entries
stop_connections s = record s {
  connections = [];
  closed_connections = s.closed_connections ++ close_entries s.connections;
}

unfoldable pub stop : ServerTransport → ServerTransport
unfolding stop_listening stop_connections
stop s = if s.stopped then s else stop_connections (stop_listening s)

-- What happens between `Start` and `Stop`: an accepting thread's round, or a connection's end.
pub data Event : Type 0 where
  accepting : Accept → Event
  ended : ℕ → Event

unfoldable pub run_events : AppConfig → List Event → ServerTransport → ServerTransport
unfolding accept_turn end_connection
run_events config [] s = s
run_events config (accepting a ∷ es) s = run_events config es (accept_turn config a s).0
run_events config (ended id ∷ es) s =
    run_events config es (record s { connections = end_connection id s.connections })
