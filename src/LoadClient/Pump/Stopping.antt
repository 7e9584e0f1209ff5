-- ===== src/LoadClient/Pump/Stopping.antt =====
-- `PumpSends` after `RequestStopSending`.
use proto_test_msquic.Prelude.{
  ℕ, suc, ◌≡◌, refl, sym, ap, ◌∙◌, ◌⊎◌, inl, inr, Bool, true, false, ◌&&◌, ◌||◌, not, Bool-cases,
  Option, List, [], ◌∷◌, ◌++◌, none, some, length, find, find-put_self, ltb, if◌then◌else◌,
  append-nil, arith,
}
use proto_test_msquic.Prelude.Float.{Float64}
use proto_test_msquic.Config.Load.{AppConfig}
use proto_test_msquic.Config.Load.Active.{should_send_on_connection}
use proto_test_msquic.Frame.{Bytes}
use proto_test_msquic.LoadClient.{ClientConnection, Client, Action, close_send, ClientError}
use proto_test_msquic.LoadClient.Pump.{Pump, finished, pump_loop}
use proto_test_msquic.LoadClient.Sending.{
  all_streams_drained, transmit, finish_sends, pump_result, after_transmit, after_lock, unlock,
  pump_connection, pump_sends,
}
use proto_test_msquic.LoadClient.Pump.Drained.{AreEchoed, all_streams_drained_iff}

module _ (F : Float64) (clock : ℕ → ℕ) (config : AppConfig) where
  -- The loop's first test fails.
  pump_loop-stopped :
      (connection_id max_messages fuel : ℕ) (p : Pump F)
      → pump_loop F clock config connection_id max_messages true (suc fuel) p ≡ (p, finished)
  unfolding pump_loop
  pump_loop-stopped connection_id max_messages fuel p =
      let shut : (should_send_on_connection config connection_id
            && (ltb (length p.sends) max_messages && not true))
          ≡ false =
        ground arith in
      rw (shut, pump_loop) refl

  module _ (accepts : ℕ → ℕ → Bytes → Bool) (shuts : ℕ → Bool)
      (connection_id max_messages : ℕ) where
    Stopped :
        ClientConnection F.Double
        → Client F.Double
        → Client F.Double × (ℕ × Option ClientError)
        → Type 0
    Stopped state s r =
        let drained = all_streams_drained F config state in
        (r.1 ≡ (0, none))
        × (r.0.actions ≡ s.actions ++ (if drained then close_send connection_id ∷ [] else []))
        × (find connection_id r.0.states ≡ some (record state { send_closed = drained }))

    after_lock_empty :
        (closing : Bool) (s : Client F.Double)
        → shuts connection_id ≡ true
        → after_lock F clock config accepts shuts connection_id closing [] s ≡ (
          record s {
            actions = s.actions ++ (if closing then close_send connection_id ∷ [] else []);
          },
          (0, none),
        )
    unfolding after_lock after_transmit pump_result transmit finish_sends
    after_lock_empty true s returns = rw (returns, finish_sends) refl
    after_lock_empty false s returns =
        ap (λ (x : List Action). (record s { actions = x }, (0, none))) (sym (append-nil s.actions))

    unlock-Stopped :
        (state : ClientConnection F.Double) (reads : ℕ) (s : Client F.Double)
        → s.stop_sending ≡ true
        → state.send_closed ≡ false
        → shuts connection_id ≡ true
        → Stopped state s (
            unlock F clock config accepts shuts connection_id
              (record { connection = state; clock_reads = reads; sends = [] })
              finished
              s)
    unfolding Stopped unlock
    unlock-Stopped state reads s stop unclosed returns =
        let drained = all_streams_drained F config state in
        let closing = s.stop_sending && (drained && not state.send_closed) in
        let c : closing ≡ drained = ground arith in
        let d : (state.send_closed || closing) ≡ drained = ground arith in
        rw (after_lock_empty closing _ returns) (
          refl,
          ap (λ (b : Bool). s.actions ++ (if b then close_send connection_id ∷ [] else [])) c,
          find-put_self connection_id _ s.states
              ∙ ap (λ (b : Bool). some (record state { send_closed = b })) d,
        )

    Stopped-cases :
        (state : ClientConnection F.Double) (s : Client F.Double)
        (r : Client F.Double × (ℕ × Option ClientError))
        → Stopped state s r
        → (r.1 ≡ (0, none))
          × ((AreEchoed F config state
                × (r.0.actions ≡ s.actions ++ close_send connection_id ∷ [])
                × (find connection_id r.0.states ≡ some (record state { send_closed = true })))
              ⊎ (¬ AreEchoed F config state
                  × (r.0.actions ≡ s.actions)
                  × (find connection_id r.0.states ≡ some (record state { send_closed = false }))))
    unfolding Stopped
    Stopped-cases state s r v = elim (Bool-cases (all_streams_drained F config state)) [
      | inl e ↦
          let w = rw e at v in (v.0, inl ((all_streams_drained_iff F config state).0 e, w.1, w.2))
      | inr e ↦
          let w = rw e at v in
          let d : ¬ AreEchoed F config state =
            λ h. let k = (all_streams_drained_iff F config state).1 h in cc in
          (v.0, inr (d, w.1 ∙ append-nil s.actions, w.2))
    ]

    -- Once sending was stopped, PumpSends for an open connection whose CloseSend returns throws
    -- nothing and sends no frame. Either each stream of the configuration that the connection has
    -- got as many echoes as it made messages, and the sending side is closed and marked so; or
    -- some stream did not, and nothing is asked of the transport and no mark is set.
    pub pump_sends-stopped :
        (state : ClientConnection F.Double) (s : Client F.Double)
        → s.stop_sending ≡ true
        → find connection_id s.states ≡ some state
        → state.connected ≡ true
        → state.has_connection ≡ true
        → state.send_closed ≡ false
        → shuts connection_id ≡ true
        → let r = pump_sends F clock config accepts shuts connection_id max_messages s in
          (r.1 ≡ (0, none))
          × ((AreEchoed F config state
                × (r.0.actions ≡ s.actions ++ close_send connection_id ∷ [])
                × (find connection_id r.0.states ≡ some (record state { send_closed = true })))
              ⊎ (¬ AreEchoed F config state
                  × (r.0.actions ≡ s.actions)
                  × (find connection_id r.0.states ≡ some (record state { send_closed = false }))))
    unfolding pump_sends pump_connection Stopped
    pump_sends-stopped state s stop found is_connected has unclosed returns =
        let usable : (not state.connected || (not state.has_connection || state.send_closed))
            ≡ false =
          ground arith in
        let p : Pump F = record { connection = state; clock_reads = s.clock_reads; sends = [] } in
        let run : pump_loop F clock config connection_id max_messages s.stop_sending
              (suc max_messages) p
            ≡ (p, finished) =
          ap (λ b. pump_loop F clock config connection_id max_messages b (suc max_messages) p) stop
          ∙ pump_loop-stopped connection_id max_messages max_messages p in
        rw (found, usable, run, pump_sends)
          (Stopped-cases state s (unlock F clock config accepts shuts connection_id p finished s)
            (unlock-Stopped state s.clock_reads s stop unclosed returns))
