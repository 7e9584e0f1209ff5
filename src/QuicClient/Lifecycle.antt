-- ===== src/QuicClient/Lifecycle.antt =====
-- `active_connections_` over a whole run of the QUIC client.
use proto_test_msquic.Prelude.{
  ℕ, zero, suc, ◌+◌, ◌-◌, ◌%◌, ◌^◌, ◌<◌, ◌≤◌, ◌≡◌, refl, ap, Bool, true, false, ◌&&◌, not, List, [],
  ◌∷◌, ◌++◌, tally, tally-append, if◌then◌else◌, if_preserves, arith,
}
use proto_test_msquic.Prelude.Float.{Float64}
use proto_test_msquic.Config.Load.{AppConfig}
use proto_test_msquic.Frame.{Bytes}
use proto_test_msquic.QuicClient.{
  ConnectionContext, connection_shutdown, connection_close, QuicClient, call,
}
use proto_test_msquic.QuicClient.Events.{
  StreamEvent, start_complete, receive, ConnectionEvent, connected, Receipt, receive_frame,
  pump_unpaced, received, on_stream_event, on_connection_event, force_shutdown,
}
use proto_test_msquic.QuicClient.Events
use proto_test_msquic.QuicClient.Active.{
  close_calls, accounts, call-accounts, request_stop_sending-accounts, start_streams-accounts,
}
use proto_test_msquic.QuicClient.Send.{start_streams, request_stop_sending}
use proto_test_msquic.QuicClient.Handlers.{handle_stream-accounts, pace_connection-accounts}
use proto_test_msquic.QuicClient.Run.{
  QuicClients, pace_connection, handle_stream, ClientEvent, connection_event, stream_event,
  pacer_round, RunTurn, handle_event, handle_events, stop_all, run_turn, run_loop, run,
  open_connections, start_connections, new_connection, connection_port,
}
use proto_test_msquic.QuicClient.Counted.{
  is_open, open_count, IsKept, IsCounted, IsHandler, accounts-IsKept, accounts-IsHandler,
  on_connection-IsCounted, for_all-IsCounted,
}

module _ (F : Float64) (clock : ℕ → ℕ) (config : AppConfig) where
  -- The end of a connection that is marked as `closed` says.
  ended-IsKept :
      (closed : Bool) (v : QuicClient F.Double)
      → v.connection.closed ≡ closed
      → is_open v.connection ≤ v.active_connections
      → v.active_connections < 2 ^ 32
      → let r : QuicClient F.Double × Bool = if closed then (v, false) else (
        call connection_close (record v {
          connection = record (v.connection) { closed = true };
          active_connections = (v.active_connections + 2 ^ 32 - 1) % 2 ^ 32;
        }),
        false,
      ) in
        IsKept v r.0
  unfolding close_calls
  ended-IsKept true v e h fits = (refl, refl)
  ended-IsKept false v e h fits =
      let some_active : 1 ≤ v.active_connections = ground (arith, e, h) in
      (
        ground (arith, e, some_active, fits),
        omega (arith, some_active, fits, tally-append close_calls v.calls (connection_close ∷ [])),
      )

  on_connection_event-IsKept :
      (opens starts : ℕ → Bool) (event : ConnectionEvent)
      → IsHandler (λ v. (on_connection_event F clock config opens starts event v).0)
  unfolding on_connection_event
  on_connection_event-IsKept opens starts connected v h fits =
      let w = record v { connection = record (v.connection) { connected = true } } in
      accounts-IsKept v (start_streams F clock config opens starts w).0
        (start_streams-accounts F clock config opens starts w)
  on_connection_event-IsKept opens starts Events.ConnectionEvent.shutdown_complete v h fits =
      ended-IsKept v.connection.closed v refl h fits
  on_connection_event-IsKept opens starts Events.ConnectionEvent.other v h fits =
      accounts-IsKept v v refl

  force_shutdown-IsKept : IsHandler (force_shutdown F clock config)
  unfolding force_shutdown close_calls
  force_shutdown-IsKept v h fits = accounts-IsKept v (force_shutdown F clock config v) (
      if_preserves (λ (x : QuicClient F.Double). accounts x ≡ accounts v)
        (not v.connection.closed && v.connection.has_connection) _ _
        (call-accounts (connection_shutdown 0) v refl) refl)

  module _ (accepts : ℕ → Bytes → Bool) where
    module _ (n : ℕ) (fits : n < 2 ^ 32) where
      handle_event-IsCounted :
          (e : ClientEvent F) (s : QuicClients F.Double)
          → IsCounted n s
          → IsCounted n (handle_event F clock config accepts e s)
      unfolding handle_event
      handle_event-IsCounted (connection_event i opens starts event) s k =
          on_connection-IsCounted n i
            (λ v. (on_connection_event F clock config opens starts event v).0) s fits
            (on_connection_event-IsKept opens starts event) k
      handle_event-IsCounted (stream_event i ordinal event) s k =
          on_connection-IsCounted n i (handle_stream F clock config accepts ordinal event) s fits
            (accounts-IsHandler (handle_stream F clock config accepts ordinal event)
              (handle_stream-accounts F clock config accepts ordinal event))
            k
      handle_event-IsCounted pacer_round s k =
          for_all-IsCounted n (pace_connection F clock config accepts) s fits
            (accounts-IsHandler (pace_connection F clock config accepts)
              (pace_connection-accounts F clock config accepts))
            k

      handle_events-IsCounted :
          (es : List (ClientEvent F)) (s : QuicClients F.Double)
          → IsCounted n s
          → IsCounted n (handle_events F clock config accepts es s)
      unfolding handle_events
      handle_events-IsCounted [] s k = k
      handle_events-IsCounted (e ∷ es) s k =
          handle_events-IsCounted es _ (handle_event-IsCounted e s k)

      stop_all-IsCounted :
          (s : QuicClients F.Double)
          → IsCounted n s
          → IsCounted n (stop_all F clock config accepts s)
      unfolding stop_all
      stop_all-IsCounted s k =
          for_all-IsCounted n (request_stop_sending F clock config accepts) _ fits
            (accounts-IsHandler (request_stop_sending F clock config accepts)
              (request_stop_sending-accounts F clock config accepts))
            (record { counted = k.counted; closed_once = k.closed_once })

      run_turn-IsCounted :
          (turn : RunTurn F) (s : QuicClients F.Double)
          → IsCounted n s
          → IsCounted n (run_turn F clock config accepts turn s).0
      unfolding run_turn
      run_turn-IsCounted turn s k =
          let t =
            if_preserves (IsCounted n) (turn.past_deadline && not s.shared.stop_sending) _ _
              (stop_all-IsCounted s k) k in
          if_preserves (λ (x : QuicClients F.Double × Bool). IsCounted n x.0) turn.stop_requested _
            _ k
            (if_preserves (λ (x : QuicClients F.Double × Bool). IsCounted n x.0)
              turn.past_drain_deadline _ _ t (handle_events-IsCounted turn.events _ t))

      run_loop-IsCounted :
          (turns : List (RunTurn F)) (s : QuicClients F.Double)
          → IsCounted n s
          → IsCounted n (run_loop F clock config accepts turns s)
      unfolding run_loop
      run_loop-IsCounted [] s k = k
      run_loop-IsCounted (turn ∷ turns) s k =
          let r = run_turn F clock config accepts turn s in
          let one = run_turn-IsCounted turn s k in
          if_preserves (IsCounted n) r.1 _ _ (run_loop-IsCounted turns r.0 one) one

  -- The branches of a round of `StartConnections`, of which one goes on.
  opened-IsCounted :
      (n : ℕ) (opened started : Bool) (rest : QuicClients F.Double × Bool)
      → (x y : QuicClients F.Double) → (rest.1 ≡ true → IsCounted n rest.0)
      → let z : QuicClients F.Double × Bool =
          if opened then (if started then rest else (x, false)) else (y, false) in
        z.1 ≡ true → IsCounted n z.0
  opened-IsCounted n true true rest x y h e = h e
  opened-IsCounted n true false rest x y h e = absurd (cc)
  opened-IsCounted n false started rest x y h e = absurd (cc)

  open_connections-IsCounted :
      (opens starts : ℕ → Bool) (n left i : ℕ) (s : QuicClients F.Double)
      → tally close_calls s.shared.calls ≡ 0
      → s.shared.active_connections ≡ n
      → open_count s.connections + left ≡ n
      → (open_connections F config opens starts left i s).1 ≡ true
      → IsCounted n (open_connections F config opens starts left i s).0
  unfolding open_connections
  open_connections-IsCounted opens starts n zero i s h k l e = record {
    counted = omega (arith, k, l);
    closed_once = omega (arith, h, k);
  }
  open_connections-IsCounted opens starts n (suc left) i s h k l e =
      let t = record s {
        connections = s.connections ++ new_connection F i ∷ [];
        ports = s.ports ++ connection_port F config i ∷ [];
      } in
      opened-IsCounted n (opens i) (starts i)
        (open_connections F config opens starts left (i + 1) t) _ s
        (open_connections-IsCounted opens starts n left (i + 1) t h k
          (omega (arith, l, tally-append is_open s.connections (new_connection F i ∷ []))))
        e

  -- For a client without connections, with client_count below 2^32 and no call of MsQuic yet: if
  -- StartConnections returns, then after any run of the QUIC client's loop, with any events of
  -- MsQuic and rounds of the pacer in between, active_connections_ is the number of connections
  -- that are not closed, and together with the calls of ConnectionClose it makes client_count.
  pub run-active_connections :
      (accepts : ℕ → Bytes → Bool) (opens starts : ℕ → Bool)
      → (turns : List (RunTurn F)) (last : List (ClientEvent F)) (s : QuicClients F.Double)
      → config.client_count < 2 ^ 32
      → s.connections ≡ []
      → s.shared.calls ≡ []
      → (start_connections F config opens starts s).1 ≡ true
      → let r =
          run F clock config accepts turns last (start_connections F config opens starts s).0 in
        (r.shared.active_connections ≡ open_count r.connections)
        × (tally close_calls r.shared.calls + r.shared.active_connections ≡ config.client_count)
  unfolding run start_connections
  run-active_connections accepts opens starts turns last s fits none_yet quiet e =
      let n = config.client_count in
      let started =
        open_connections-IsCounted opens starts n n 0
          (record s { shared = record (s.shared) { active_connections = n } })
          (ap (λ cs. tally close_calls cs) quiet) refl
          (omega (arith, ap (λ (cs : List (ConnectionContext F.Double)). open_count cs) none_yet))
          e in
      let looped = run_loop-IsCounted accepts n fits turns _ started in
      let forced =
        for_all-IsCounted n (force_shutdown F clock config) _ fits force_shutdown-IsKept looped in
      let r = handle_events-IsCounted accepts n fits last _ forced in (r.counted, r.closed_once)
