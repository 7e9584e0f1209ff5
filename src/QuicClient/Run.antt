-- ===== src/QuicClient/Run.antt =====
-- `Client::StartConnections`, `Client::Run`, and the rounds of `Client::PacerLoop`: the client with
-- all its connections. What MsQuic's calls return is an argument, and so is what its events are.
use proto_test_msquic.Prelude.{
  ℕ, zero, suc, ◌+◌, ◌%◌, ◌^◌, Bool, true, false, ◌&&◌, not, List, [], ◌∷◌, ◌++◌, none, some,
  length, get_elem?, set, ltb, ◌==◌, if◌then◌else◌,
}
use proto_test_msquic.Prelude.Float.{Float64}
use proto_test_msquic.Config.Load.{AppConfig}
use proto_test_msquic.Frame.{Bytes}
use proto_test_msquic.LoadClient.Pacing.{zero_ns}
use proto_test_msquic.QuicClient.{ConnectionContext, QuicClient, call, connection_close}
use proto_test_msquic.QuicClient.Send.{pump_sends, request_stop_sending}
use proto_test_msquic.QuicClient.Events.{
  StreamEvent, ConnectionEvent, on_stream_event, on_connection_event, force_shutdown,
}

-- `connections_`, the port of each, and what they share; the `connection` in `shared` is the one
-- that was handled last.
pub record QuicClients (Double : Type 0) : Type 0 where
  pub connections : List (ConnectionContext Double)
  pub ports : List ℕ
  pub shared : QuicClient Double

-- A handler of the connection `i`.
unfoldable pub on_connection :
    {D : Type 0} → ℕ → (QuicClient D → QuicClient D) → QuicClients D → QuicClients D
on_connection i handler s = elim (get_elem? s.connections i) [
  | none ↦ s
  | some c ↦
      let r = handler (record (s.shared) { connection = c }) in
      record s { connections = set s.connections i r.connection; shared = r }
]

-- `for (auto& connection : connections_)`, for `left` of them from `i` on
unfoldable pub for_each :
    {D : Type 0} → (QuicClient D → QuicClient D) → ℕ → ℕ → QuicClients D → QuicClients D
unfolding on_connection
for_each handler zero i s = s
for_each handler (suc left) i s = for_each handler left (i + 1) (on_connection i handler s)

unfoldable pub for_all :
    {D : Type 0} → (QuicClient D → QuicClient D) → QuicClients D → QuicClients D
unfolding for_each
for_all handler s = for_each handler (length s.connections) 0 s

module _ (F : Float64) where
  abbrev pub new_connection : ℕ → ConnectionContext F.Double
  new_connection i = record {
    index = i;
    has_connection = true;
    stream_contexts = [];
    next_send_time_ns = zero_ns F;
    next_send_stream_ordinal = 0;
    connected = false;
    closed = false;
  }

  module _ (config : AppConfig) where
    unfoldable pub connection_port : ℕ → ℕ
    connection_port i = (config.base_port + i % config.server_count) % 2 ^ 32 % 2 ^ 16

    -- The rounds from `i` on; `opens` and `starts` say whether `ConnectionOpen` and
    -- `ConnectionStart` succeed. The second part says whether the function returns.
    unfoldable pub open_connections :
        (ℕ → Bool) → (ℕ → Bool) → ℕ → ℕ → QuicClients F.Double → QuicClients F.Double × Bool
    unfolding connection_port
    open_connections opens starts zero i s = (s, true)
    open_connections opens starts (suc left) i s =
        let rest = open_connections opens starts left (i + 1) (record s {
          connections = s.connections ++ new_connection i ∷ [];
          ports = s.ports ++ connection_port i ∷ [];
        }) in
        if opens i
        then (if starts i
            then rest
            else (record s { shared = call connection_close s.shared }, false))
        else (s, false)

    unfoldable pub start_connections :
        (ℕ → Bool) → (ℕ → Bool) → QuicClients F.Double → QuicClients F.Double × Bool
    unfolding open_connections
    start_connections opens starts s =
        open_connections opens starts config.client_count 0
          (record s { shared = record (s.shared) { active_connections = config.client_count } })

  -- What happens on the other threads: an event of MsQuic, or a round of the pacer.
  pub data ClientEvent : Type 0 where
    connection_event : ℕ → (ℕ → Bool) → (ℕ → Bool) → ConnectionEvent → ClientEvent
    stream_event : ℕ → ℕ → StreamEvent → ClientEvent
    pacer_round : ClientEvent

  -- An iteration of the loop of `Run`: its three tests, and the events while it waits.
  pub record RunTurn : Type 0 where
    pub stop_requested : Bool
    pub past_deadline : Bool
    pub past_drain_deadline : Bool
    pub events : List ClientEvent

  module _ (clock : ℕ → ℕ) (config : AppConfig) (accepts : ℕ → Bytes → Bool) where
    -- The body of the pacer's loop over the connections.
    unfoldable pub pace_connection : QuicClient F.Double → QuicClient F.Double
    pace_connection s =
        let t = (pump_sends F clock config accepts 1 s).0 in
        if ltb 0 (length s.connection.stream_contexts) then t else s

    -- A stream event for the stream `ordinal`, if it is there.
    unfoldable pub handle_stream : ℕ → StreamEvent → QuicClient F.Double → QuicClient F.Double
    handle_stream ordinal event s = elim (get_elem? s.connection.stream_contexts ordinal) [
      | none ↦ s
      | some stream ↦ (on_stream_event F clock config accepts event ordinal stream s).0
    ]

    unfoldable pub handle_event : ClientEvent → QuicClients F.Double → QuicClients F.Double
    unfolding on_connection for_all pace_connection handle_stream
    handle_event (connection_event i opens starts event) s =
        on_connection i (λ v. (on_connection_event F clock config opens starts event v).0) s
    handle_event (stream_event i ordinal event) s = on_connection i (handle_stream ordinal event) s
    handle_event pacer_round s = for_all pace_connection s

    unfoldable pub handle_events : List ClientEvent → QuicClients F.Double → QuicClients F.Double
    unfolding handle_event
    handle_events [] s = s
    handle_events (e ∷ es) s = handle_events es (handle_event e s)

    -- `stop_sending_.exchange(true)` and the calls of `RequestStopSending`.
    unfoldable pub stop_all : QuicClients F.Double → QuicClients F.Double
    unfolding for_all
    stop_all s =
        for_all (request_stop_sending F clock config accepts)
          (record s { shared = record (s.shared) { stop_sending = true } })

    -- An iteration, and whether the loop goes on.
    unfoldable pub run_turn : RunTurn → QuicClients F.Double → QuicClients F.Double × Bool
    unfolding handle_events stop_all
    run_turn turn s =
        let t = if turn.past_deadline && not s.shared.stop_sending then stop_all s else s in
        let waited = handle_events turn.events t in
        if turn.stop_requested
        then (s, false)
        else if turn.past_drain_deadline
        then (t, false)
        else (waited, not (waited.shared.active_connections == 0))

    unfoldable pub run_loop : List RunTurn → QuicClients F.Double → QuicClients F.Double
    unfolding run_turn
    run_loop [] s = s
    run_loop (turn ∷ turns) s =
        let r = run_turn turn s in let rest = run_loop turns r.0 in if r.1 then rest else r.0

    -- `Run` after `StartConnections`, with the events of the final wait.
    unfoldable pub run :
        List RunTurn → List ClientEvent → QuicClients F.Double → QuicClients F.Double
    unfolding run_loop for_all handle_events
    run turns last s =
        handle_events last (for_all (force_shutdown F clock config) (run_loop turns s))
