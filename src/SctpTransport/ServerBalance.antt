-- ===== src/SctpTransport/ServerBalance.antt =====
-- The server's descriptors at every step: where those that were opened are.
use proto_test_msquic.Prelude.{
  tally, tally-append, ℕ, zero, suc, ◌+◌, ◌^◌, ◌%◌, ◌<◌, ◌≡◌, refl, ◌&&◌, ◌||◌, not, Bool, List, [],
  ◌∷◌, ◌++◌, put, map, Option, none, some, if_preserves, All, arith,
}
use proto_test_msquic.Config.Load.{AppConfig}
use proto_test_msquic.SctpTransport.{
  TransportCall, socket_opened, socket_closed, on_connected, on_connected_threw, new_connection,
  configure_socket, server_options,
}
use proto_test_msquic.SctpTransport.Descriptors.{
  same, opens, closes, throws, entry_held, entry_closes, IsSettled, IsTable, closing_calls,
  closes-map, opens-map, throws-map, put-entry_held, All-imp, All-put,
}
use proto_test_msquic.SctpTransport.Server.{
  ServerTransport, new_server, call, ListenTurn, prepares, open_listener, open_listeners, start,
  Accepted, drop_socket, register, accept_socket, Accept, accepted, accept_interrupted,
  accept_failed, accept_turn, stop_listening,
}

-- The descriptors that are closed or in someone's hands are those that were opened, but for what a
-- `catch` closed that the table has. `out` of them are in the hands of the step that runs.
pub record IsBalanced (f out : ℕ) (s : ServerTransport) : Type 0 where
  pub balance :
      tally (closes f) s.calls
        + tally (same f) s.listeners
        + tally (entry_held f) s.connections
        + tally (entry_closes f) s.closed_connections
        + out
      ≡ tally (opens f) s.calls + tally (throws f) s.calls
  pub table : IsTable s.next_connection_id s.connections

module _ (f : ℕ) where
  -- `cs` are the calls of a step that changes neither the listeners nor the table.
  calls-IsBalanced :
      (out left : ℕ) (s : ServerTransport) (cs : List TransportCall)
      → tally (closes f) cs + left ≡ tally (opens f) cs + tally (throws f) cs + out
      → IsBalanced f out s
      → IsBalanced f left (record s { calls = s.calls ++ cs })
  calls-IsBalanced out left s cs h b = record {
    balance = omega (
      arith,
      b.balance,
      h,
      tally-append (closes f) s.calls cs,
      tally-append (opens f) s.calls cs,
      tally-append (throws f) s.calls cs,
    );
    table = b.table;
  }

  listener-IsBalanced :
      (g : ℕ) (s : ServerTransport) (cs : List TransportCall)
      → tally (closes f) cs + same f g ≡ tally (opens f) cs + tally (throws f) cs
      → IsBalanced f 0 s
      → IsBalanced f 0 (record s { listeners = s.listeners ++ g ∷ []; calls = s.calls ++ cs })
  listener-IsBalanced g s cs h b = record {
    balance = omega (
      arith,
      b.balance,
      h,
      tally-append (closes f) s.calls cs,
      tally-append (opens f) s.calls cs,
      tally-append (throws f) s.calls cs,
      tally-append (same f) s.listeners (g ∷ []),
    );
    table = b.table;
  }

  open_listener-IsBalanced :
      (config : AppConfig) (i : ℕ) (turn : ListenTurn) (o : Option ℕ) (s : ServerTransport)
      → IsBalanced f 0 s
      → IsBalanced f 0 (open_listener config i turn o s).0
  unfolding open_listener opens closes throws
  open_listener-IsBalanced config i turn none s b = b
  open_listener-IsBalanced config i turn (some fd) s b =
      if_preserves (λ (x : ServerTransport × Bool). IsBalanced f 0 x.0) (prepares config turn) _ _
        (listener-IsBalanced fd s _ (omega arith) b) (calls-IsBalanced 0 0 s _ (omega arith) b)

  open_listeners-IsBalanced :
      (config : AppConfig) (turn : ℕ → ListenTurn) (count i : ℕ) (s : ServerTransport)
      → IsBalanced f 0 s
      → IsBalanced f 0 (open_listeners config turn count i s).0
  unfolding open_listeners
  open_listeners-IsBalanced config turn zero i s b = b
  open_listeners-IsBalanced config turn (suc count) i s b =
      let r = open_listener config i (turn i) (turn i).socket s in
      let one = open_listener-IsBalanced config i (turn i) (turn i).socket s b in
      if_preserves (λ (x : ServerTransport × Bool). IsBalanced f 0 x.0) r.1 _ _
        (open_listeners-IsBalanced config turn count (i + 1) r.0 one) one

  new_server-IsBalanced : IsBalanced f 0 new_server
  new_server-IsBalanced = record { balance = refl; table = record { fresh = tt; settled = tt } }

  pub start-IsBalanced :
      (config : AppConfig) (turn : ℕ → ListenTurn) → IsBalanced f 0 (start config turn new_server).0
  unfolding start opens closes throws
  start-IsBalanced config turn = open_listeners-IsBalanced config turn config.server_count 0 _ (
      if_preserves (IsBalanced f 0) config.sctp_tls _ _
        (calls-IsBalanced 0 0 new_server _ refl new_server-IsBalanced) new_server-IsBalanced)

  drop_socket-IsBalanced :
      (fd : ℕ) (s : ServerTransport)
      → IsBalanced f (same f fd) s
      → IsBalanced f 0 (drop_socket fd s)
  unfolding drop_socket opens closes throws
  drop_socket-IsBalanced fd s b = calls-IsBalanced (same f fd) 0 s _ (omega arith) b

  -- The identifier `id` is given out, and larger than those in the table.
  insert-IsBalanced :
      (id : ℕ) (tls : Bool) (fd : ℕ) (s : ServerTransport)
      → All (λ p. p.0 < id) s.connections
      → id < s.next_connection_id
      → IsBalanced f (same f fd) s
      → IsBalanced f 0 (record s {
        connections = put id (new_connection tls fd) s.connections;
        calls = s.calls ++ on_connected id ∷ [];
      })
  unfolding new_connection closing_calls opens closes throws
  insert-IsBalanced id tls fd s below lt b = record {
    balance = ground (
      arith,
      b.balance,
      put-entry_held f id (new_connection tls fd) s.connections below,
      tally-append (closes f) s.calls (on_connected id ∷ []),
      tally-append (opens f) s.calls (on_connected id ∷ []),
      tally-append (throws f) s.calls (on_connected id ∷ []),
    );
    table = record {
      fresh = All-put (λ p. p.0 < s.next_connection_id) id _ s.connections lt b.table.fresh;
      settled =
          All-put (λ p. IsSettled p.1.connection) id _ s.connections (λ e. absurd (cc))
            b.table.settled;
    };
  }

  register-IsBalanced :
      (config : AppConfig) (id : ℕ) (turn : Accepted) (s : ServerTransport)
      → All (λ p. p.0 < id) s.connections
      → id < s.next_connection_id
      → IsBalanced f (same f turn.fd) s
      → IsBalanced f 0 (register config id turn s)
  unfolding register opens closes throws
  register-IsBalanced config id turn s below lt b =
      let t = record s {
        connections = put id (new_connection config.sctp_tls turn.fd) s.connections;
        calls = s.calls ++ on_connected id ∷ [];
      } in
      let bt = insert-IsBalanced id config.sctp_tls turn.fd s below lt b in
      if_preserves (IsBalanced f 0) turn.connects _ _
        (if_preserves (IsBalanced f 0) config.sctp_tls _ _ bt (calls-IsBalanced 0 0 t _ refl bt))
        (drop_socket-IsBalanced turn.fd (call (on_connected_threw turn.fd) t)
          (calls-IsBalanced 0 (same f turn.fd) t _ (omega arith) bt))

  accept_socket-IsBalanced :
      (config : AppConfig) (turn : Accepted) (s : ServerTransport)
      → s.next_connection_id + 1 < 2 ^ 32
      → IsBalanced f 0 s
      → IsBalanced f 0 (accept_socket config turn s)
  unfolding accept_socket opens closes throws
  accept_socket-IsBalanced config turn s lt b =
      let t = call (socket_opened turn.fd) s in
      let u = record t { next_connection_id = (s.next_connection_id + 1) % 2 ^ 32 } in
      let bt = calls-IsBalanced 0 (same f turn.fd) s (socket_opened turn.fd ∷ []) (omega arith) b in
      let bu : IsBalanced f (same f turn.fd) u = record {
        balance = bt.balance;
        table = record {
          fresh =
              All-imp (λ p. p.0 < s.next_connection_id) _ s.connections (λ p h. omega arith)
                b.table.fresh;
          settled = b.table.settled;
        };
      } in
      if_preserves (IsBalanced f 0)
        (configure_socket turn.sets (server_options config) && (not config.sctp_tls || turn.shakes))
        _ _
        (if_preserves (IsBalanced f 0) turn.constructs _ _
          (register-IsBalanced config s.next_connection_id turn u b.table.fresh (omega arith) bu)
          (drop_socket-IsBalanced turn.fd u bu))
        (drop_socket-IsBalanced turn.fd t bt)

  pub stop_listening-IsBalanced :
      (s : ServerTransport) → IsBalanced f 0 s → IsBalanced f 0 (stop_listening s)
  unfolding stop_listening
  stop_listening-IsBalanced s b = record {
    balance = omega (
      arith,
      b.balance,
      tally-append (closes f) s.calls (map socket_closed s.listeners),
      tally-append (opens f) s.calls (map socket_closed s.listeners),
      tally-append (throws f) s.calls (map socket_closed s.listeners),
      closes-map f s.listeners,
      opens-map f s.listeners,
      throws-map f s.listeners,
    );
    table = b.table;
  }

  pub accept_turn-IsBalanced :
      (config : AppConfig) (a : Accept) (s : ServerTransport)
      → s.next_connection_id + 1 < 2 ^ 32
      → IsBalanced f 0 s
      → IsBalanced f 0 (accept_turn config a s).0
  unfolding accept_turn opens closes throws
  accept_turn-IsBalanced config (accepted turn) s lt b = accept_socket-IsBalanced config turn s lt b
  accept_turn-IsBalanced config accept_interrupted s lt b = b
  accept_turn-IsBalanced config accept_failed s lt b =
      if_preserves (IsBalanced f 0) s.stopped _ _ b (calls-IsBalanced 0 0 s _ refl b)
