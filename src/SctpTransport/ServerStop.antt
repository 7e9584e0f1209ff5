-- ===== src/SctpTransport/ServerStop.antt =====
-- The server's descriptors between `Start` and `Stop`.
use proto_test_msquic.Prelude.{
  tally, tally-append, ℕ, zero, suc, ◌+◌, ◌^◌, ◌<◌, ◌≤◌, ◌≡◌, refl, ◌∙◌, Bool, false, List, [], ◌∷◌,
  length, Option, none, some, if_preserves, arith,
}
use proto_test_msquic.Config.Load.{AppConfig}
use proto_test_msquic.SctpTransport.{close_entries}
use proto_test_msquic.SctpTransport.Descriptors.{
  same, opens, closes, throws, entry_closes, end_connection-held, end_connection-IsTable,
  close_entries-closes,
}
use proto_test_msquic.SctpTransport.Server.{
  ServerTransport, new_server, ListenTurn, prepares, open_listener, open_listeners, start,
  drop_socket, register, accept_socket, Accept, accepted, accept_interrupted, accept_failed,
  accept_turn, stop_listening, stop_connections, stop, Event, accepting, ended, run_events,
}
use proto_test_msquic.SctpTransport.ServerBalance.{
  IsBalanced, start-IsBalanced, stop_listening-IsBalanced, accept_turn-IsBalanced,
}

accept_turn-next :
    (config : AppConfig) (a : Accept) (s : ServerTransport)
    → s.next_connection_id + 1 < 2 ^ 32
    → (accept_turn config a s).0.next_connection_id ≤ s.next_connection_id + 1
unfolding accept_turn accept_socket register drop_socket
accept_turn-next config (accepted turn) s lt = ground arith
accept_turn-next config accept_interrupted s lt = omega arith
accept_turn-next config accept_failed s lt = ground arith

run_events-IsBalanced :
    (f : ℕ) (config : AppConfig) (es : List Event) (s : ServerTransport)
    → s.next_connection_id + length es < 2 ^ 32
    → IsBalanced f 0 s
    → IsBalanced f 0 (run_events config es s)
unfolding run_events
run_events-IsBalanced f config [] s lt b = b
run_events-IsBalanced f config (accepting a ∷ es) s lt b =
    run_events-IsBalanced f config es (accept_turn config a s).0
      (omega (arith, accept_turn-next config a s (omega arith)))
      (accept_turn-IsBalanced f config a s (omega arith) b)
run_events-IsBalanced f config (ended id ∷ es) s lt b =
    run_events-IsBalanced f config es _ (omega arith) (record {
      balance = omega (arith, b.balance, end_connection-held f id s.connections);
      table = end_connection-IsTable id s.next_connection_id s.connections b.table;
    })

-- `Stop` has not run, and no identifier has been given out.
abbrev IsStarting : ServerTransport → Type 0
IsStarting s = (s.stopped ≡ false) × (s.next_connection_id ≡ 0)

open_listener-IsStarting :
    (config : AppConfig) (i : ℕ) (turn : ListenTurn) (o : Option ℕ) (s : ServerTransport)
    → IsStarting s
    → IsStarting (open_listener config i turn o s).0
unfolding open_listener
open_listener-IsStarting config i turn none s h = h
open_listener-IsStarting config i turn (some fd) s h =
    if_preserves (λ (x : ServerTransport × Bool). IsStarting x.0) (prepares config turn) _ _ h h

open_listeners-IsStarting :
    (config : AppConfig) (turn : ℕ → ListenTurn) (count i : ℕ) (s : ServerTransport)
    → IsStarting s
    → IsStarting (open_listeners config turn count i s).0
unfolding open_listeners
open_listeners-IsStarting config turn zero i s h = h
open_listeners-IsStarting config turn (suc count) i s h =
    let r = open_listener config i (turn i) (turn i).socket s in
    let one = open_listener-IsStarting config i (turn i) (turn i).socket s h in
    if_preserves (λ (x : ServerTransport × Bool). IsStarting x.0) r.1 _ _
      (open_listeners-IsStarting config turn count (i + 1) r.0 one) one

accept_turn-stopped :
    (config : AppConfig) (a : Accept) (s : ServerTransport)
    → (accept_turn config a s).0.stopped ≡ s.stopped
unfolding accept_turn accept_socket register drop_socket
accept_turn-stopped config (accepted turn) s = ground arith
accept_turn-stopped config accept_interrupted s = refl
accept_turn-stopped config accept_failed s = ground arith

run_events-stopped :
    (config : AppConfig) (es : List Event) (s : ServerTransport)
    → (run_events config es s).stopped ≡ s.stopped
unfolding run_events
run_events-stopped config [] s = refl
run_events-stopped config (accepting a ∷ es) s =
    run_events-stopped config es _ ∙ accept_turn-stopped config a s
run_events-stopped config (ended id ∷ es) s = run_events-stopped config es _

start-IsStarting :
    (config : AppConfig) (turn : ℕ → ListenTurn) → IsStarting (start config turn new_server).0
unfolding start
start-IsStarting config turn =
    open_listeners-IsStarting config turn config.server_count 0 _
      (if_preserves IsStarting config.sctp_tls _ _ (refl, refl) (refl, refl))

stop-tally :
    (f : ℕ) (s : ServerTransport)
    → IsBalanced f 0 s
    → let r = stop_connections (stop_listening s) in
      tally (closes f) r.calls + tally (entry_closes f) r.closed_connections
      ≡ tally (opens f) r.calls + tally (throws f) r.calls
unfolding stop_connections
stop-tally f s b =
    let t = stop_listening s in
    let bt = stop_listening-IsBalanced f s b in
    omega (
      arith,
      bt.balance,
      listeners_gone,
      tally-append (entry_closes f) t.closed_connections (close_entries t.connections),
      close_entries-closes f t.next_connection_id t.connections bt.table,
    )
  where
    listeners_gone : tally (same f) (stop_listening s).listeners ≡ 0
    listeners_gone = unfold stop_listening in refl

-- From Start to Stop of the SCTP server, with fewer than 2^32 rounds and ends of connections
-- between them, each descriptor is closed as often as it was opened, and once more for each
-- exception that leaves OnConnected or what follows it.
pub stop-descriptors :
    (config : AppConfig) (turn : ℕ → ListenTurn) (es : List Event) (f : ℕ)
    → length es < 2 ^ 32
    → let s = stop (run_events config es (start config turn new_server).0) in
      tally (closes f) s.calls + tally (entry_closes f) s.closed_connections
      ≡ tally (opens f) s.calls + tally (throws f) s.calls
unfolding stop
stop-descriptors config turn es f lt =
    let s0 = (start config turn new_server).0 in
    let (running, next) = start-IsStarting config turn in
    let s = run_events config es s0 in
    let balanced =
      run_events-IsBalanced f config es s0 (omega (arith, next)) (start-IsBalanced f config turn) in
    rw (run_events-stopped config es s0 ∙ running, stop) (stop-tally f s balanced)
