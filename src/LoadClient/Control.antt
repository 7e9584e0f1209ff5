-- ===== src/LoadClient/Control.antt =====
-- The other operations of `LoadClientController`: connecting, closing, stopping, and the pacer.
use proto_test_msquic.Prelude.{
  ℕ, zero, suc, ◌+◌, ◌%◌, Bool, true, false, ◌&&◌, ◌||◌, not, List, [], ◌∷◌, ◌++◌, Option, none,
  some, length, get_elem?, Map, keys, find, find_or, put, ltb, leb, ◌==◌, if◌then◌else◌,
}
use proto_test_msquic.Prelude.Float.{Float64}
use proto_test_msquic.Config.Load.{AppConfig}
use proto_test_msquic.Config.Load.Active.{should_send_on_connection}
use proto_test_msquic.Frame.{Bytes}
use proto_test_msquic.LoadClient.{
  ClientStream, ClientConnection, Client, Action, close, ClientError, profile_out_of_range,
  stream_id_from_ordinal,
}
use proto_test_msquic.LoadClient.Profile.{stream_profile_for_ordinal}
use proto_test_msquic.LoadClient.Pacing.{
  determine_pacing_mode, is_per_client, is_total, is_paced, pacing_interval_ns,
  initial_per_client_send_time_ns, zero_ns,
}
use proto_test_msquic.LoadClient.Pump.{new_stream, new_connection}
use proto_test_msquic.LoadClient.Sending.{pump_sends}
use proto_test_msquic.LoadClient.Receive.{no_limit}

abbrev pub contains : ℕ → List ℕ → Bool
contains x [] = false
contains x (y ∷ ys) = x == y || contains x ys

module _ (F : Float64) where
  -- `OnClosed`: `closed_connections_` is a set.
  unfoldable pub on_closed : ℕ → Client F.Double → Client F.Double
  on_closed connection_id s =
      if contains connection_id s.closed_connections
      then s
      else record s { closed_connections = s.closed_connections ++ connection_id ∷ [] }

  -- The condition of `WaitUntilDone`
  unfoldable pub is_done : ℕ → Client F.Double → Bool
  is_done expected_connections s = leb expected_connections (length s.closed_connections)

  -- `Close` of every connection that there is
  unfoldable pub closes : Map (ClientConnection F.Double) → List Action
  closes [] = []
  closes ((id, state) ∷ states) =
      let rest = closes states in if state.has_connection then close id ∷ rest else rest

  unfoldable pub force_shutdown_all : Client F.Double → Client F.Double
  unfolding closes
  force_shutdown_all s = record s { actions = s.actions ++ closes s.states }

  module _ (clock : ℕ → ℕ) (config : AppConfig) (accepts : ℕ → ℕ → Bytes → Bool)
      (shuts : ℕ → Bool) where
    -- `for (ordinal = 0; ...) { streams[id].profile = StreamProfileForOrdinal(...); }`: `left`
    -- rounds from `ordinal` on, and whether the profiles' `at` threw.
    unfoldable pub add_streams :
        ℕ → ℕ → Map (ClientStream F.Double) → Map (ClientStream F.Double) × Bool
    add_streams zero ordinal streams = (streams, false)
    add_streams (suc left) ordinal streams =
        let stream_id = stream_id_from_ordinal config ordinal in
        let stream = find_or stream_id (new_stream F) streams in
        elim (stream_profile_for_ordinal config ordinal) [
          | none ↦ (put stream_id stream streams, true)
          | some p ↦
              add_streams left (ordinal + 1) (put stream_id (record stream { profile = p }) streams)
        ]

    -- The time of the first message: the clock is read for a client with a rate that sends here.
    unfoldable pub first_send_time : ℕ → ClientConnection F.Double → ℕ → F.Double × ℕ
    first_send_time connection_id state reads =
        if is_per_client (determine_pacing_mode config)
          && should_send_on_connection config connection_id
        then (
          initial_per_client_send_time_ns F config connection_id (F.of_uint (clock reads)),
          reads + 1,
        )
        else (state.next_send_time_ns, reads)

    unfoldable pub on_connected : ℕ → Client F.Double → Client F.Double × Option ClientError
    on_connected connection_id s =
        let state = find_or connection_id (new_connection F) s.states in
        let first = first_send_time connection_id state s.clock_reads in
        let r = add_streams config.stream_count 0 state.streams in
        let t = record s {
          states =
              put connection_id
                (record state {
                  has_connection = true;
                  connected = true;
                  next_send_time_ns = first.0;
                  streams = r.0;
                })
                s.states;
          clock_reads = first.1;
        } in
        let u = pump_sends F clock config accepts shuts connection_id no_limit t in
        if r.1
        then (t, some profile_out_of_range)
        else if is_paced config
        then (t, none)
        else (u.0, u.1.1)

    -- `for (id : ids) { try { PumpSends(id, 0); } catch ... }`
    unfoldable pub pump_all : List ℕ → Client F.Double → Client F.Double
    pump_all [] s = s
    pump_all (id ∷ ids) s = pump_all ids (pump_sends F clock config accepts shuts id 0 s).0

    unfoldable pub request_stop_sending : Client F.Double → Client F.Double
    unfolding pump_all
    request_stop_sending s = pump_all (keys s.states) (record s { stop_sending = true })

    -- Whether it is a connection's turn; it sets a connection's first time.
    unfoldable pub may_send_paced_message : ℕ → F.Double → Client F.Double → Client F.Double × Bool
    may_send_paced_message connection_id now_ns s =
        if not (is_per_client (determine_pacing_mode config))
        then (s, true)
        else elim (find connection_id s.states) [
          | none ↦ (s, false)
          | some state ↦
              let next =
                if F.equal state.next_send_time_ns (zero_ns F)
                then now_ns
                else state.next_send_time_ns in
              if not state.connected
                || (not state.has_connection
                    || (state.send_closed || not (should_send_on_connection config connection_id)))
              then (s, false)
              else (
                record s {
                  states = put connection_id (record state { next_send_time_ns = next }) s.states;
                },
                F.less_eq next now_ns,
              )
        ]

    -- `global_next_send_time_ns_` after a message of a total rate
    unfoldable pub next_global_time : F.Double → F.Double → F.Double
    next_global_time time now_ns =
        let interval = pacing_interval_ns F config in
        let later = F.add time interval in
        if F.less (F.add later (F.mul interval (F.literal 4 1))) now_ns then now_ns else later

    -- One turn: whether the loop over the connections goes on, and whether a message went out.
    unfoldable pub paced_turn : ℕ → ℕ → F.Double → Client F.Double → Client F.Double × (Bool × Bool)
    paced_turn idx id now_ns s =
        let may = may_send_paced_message id now_ns s in
        let r = pump_sends F clock config accepts shuts id 1 may.0 in
        let total = is_total (determine_pacing_mode config) in
        if may.1 && ltb 0 r.1.0
        then (
          record (r.0) {
            next_paced_connection_index = idx + 1;
            global_next_send_time_ns =
                if total
                then next_global_time r.0.global_next_send_time_ns now_ns
                else r.0.global_next_send_time_ns;
          },
          (not total, true),
        )
        else (if may.1 then r.0 else may.0, (true, false))

    -- `for (attempt = 0; attempt < ids.size(); ++attempt)`: `left` turns from `attempt` on.
    unfoldable pub paced_turns : List ℕ → ℕ → F.Double → ℕ → ℕ → Client F.Double → Client F.Double
    paced_turns ids start now_ns zero attempt s = s
    paced_turns ids start now_ns (suc left) attempt s =
        let idx = (start + attempt) % length ids in
        elim (get_elem? ids idx) [
          | none ↦ s
          | some id ↦
              let t = paced_turn idx id now_ns s in
              elim t.1.0 [
                | true ↦ paced_turns ids start now_ns left (attempt + 1) t.0
                | false ↦ t.0
              ]
        ]

    -- One iteration of `PacerLoop`, less its sleeping.
    unfoldable pub pacer_round : Client F.Double → Client F.Double
    pacer_round s =
        let ids = keys s.states in
        let now_ns = F.of_uint (clock s.clock_reads) in
        let t = record s { clock_reads = s.clock_reads + 1 } in
        if s.stop_sending
        then pump_all ids s
        else if is_total (determine_pacing_mode config) && F.less now_ns s.global_next_send_time_ns
        then t
        else if length ids == 0
        then t
        else paced_turns ids (s.next_paced_connection_index % length ids) now_ns (length ids) 0 t
