-- ===== src/LoadClient/Receive/Pumped.antt =====
-- `PumpSends` where the transport takes every frame: it throws nothing, and what the streams of the
-- connection received stays.
use proto_test_msquic.Prelude.{
  ℕ, suc, ◌<◌, ◌≡◌, refl, ap, ◌∙◌, inl, inr, Bool, true, false, ◌&&◌, ◌||◌, not, Bool-cases, Option,
  Option-cases, none, some, List, [], ◌∷◌, length, find, find_or, find_or-put_self, find_or_of,
}
use proto_test_msquic.Prelude.Float.{Float64}
use proto_test_msquic.Config.Profiles.{StreamProfile}
use proto_test_msquic.Config.Load.{AppConfig}
use proto_test_msquic.Frame.{Bytes}
use proto_test_msquic.Stats.{add_sent}
use proto_test_msquic.LoadClient.{ClientConnection, Client, ClientError}
use proto_test_msquic.LoadClient.Profile.{stream_profile_for_ordinal}
use proto_test_msquic.LoadClient.Pump.{
  Pump, PumpStop, finished, failed, out_of_fuel, new_connection, pump_loop,
}
use proto_test_msquic.LoadClient.Pump.Kept.{
  Keeps, Keeps-refl, AreKept, AreKept-refl, Completes, pump_loop-AreKept,
}
use proto_test_msquic.LoadClient.Sending.{
  all_streams_drained, transmit, finish_sends, pump_result, after_transmit, after_lock, store,
  unlock, pump_connection, pump_sends,
}
use proto_test_msquic.LoadClient.Receive.Chunks.{stream_of}

module _ (F : Float64) where
  -- The streams of all connections and the messages received are the same.
  abbrev pub Same : Client F.Double → Client F.Double → Type 0
  Same s t = (t.states ≡ s.states) × (t.stats.recv_messages ≡ s.stats.recv_messages)

  -- The streams of a connection keep what they received.
  pub record AreReceived (c : ℕ) (s t : Client F.Double) : Type 0 where
    pub kept : (i : ℕ) → Keeps F (stream_of F c i s) (stream_of F c i t)
    pub received : t.stats.recv_messages ≡ s.stats.recv_messages

  pub AreReceived-refl : (c : ℕ) (s : Client F.Double) → AreReceived c s s
  AreReceived-refl c s = record { kept = λ i. Keeps-refl F (stream_of F c i s); received = refl }

  module _ (clock : ℕ → ℕ) (config : AppConfig) (accepts : ℕ → ℕ → Bytes → Bool) (shuts : ℕ → Bool)
      (accepted : (i j : ℕ) (w : Bytes) → accepts i j w ≡ true) (shut : (i : ℕ) → shuts i ≡ true)
      (c : ℕ) where
    pub transmit_accepted :
        (sends : List (ℕ × Bytes)) (s : Client F.Double)
        → let r = transmit F clock config accepts c sends s in (r.1 ≡ none) × Same s r.0
    unfolding transmit add_sent
    transmit_accepted [] s = (refl, (refl, refl))
    transmit_accepted ((i, frame) ∷ sends) s = rw (accepted c i _) (transmit_accepted sends _)

    finish_sends_shut :
        (closing : Bool) (s : Client F.Double)
        → let r = finish_sends F clock config accepts shuts c closing s in (r.1 ≡ none) × Same s r.0
    unfolding finish_sends
    finish_sends_shut false s = (refl, (refl, refl))
    finish_sends_shut true s = rw (shut c) (refl, (refl, refl))

    pump_result_ok :
        (n : ℕ) (x : Client F.Double × Option ClientError)
        → x.1 ≡ none
        → let r = pump_result F clock config accepts n x in (r.1.1 ≡ none) × (r.0 ≡ x.0)
    unfolding pump_result
    pump_result_ok n (s, none) e = (refl, refl)
    pump_result_ok n (s, some x) e = absurd (cc)

    after_transmit_accepted :
        (closing : Bool) (n : ℕ) (s : Client F.Double) (x : Client F.Double × Option ClientError)
        → x.1 ≡ none
        → Same s x.0
        → let r = after_transmit F clock config accepts shuts c closing n x in
          (r.1.1 ≡ none) × Same s r.0
    unfolding after_transmit
    after_transmit_accepted closing n s (t, none) e v =
        let f = finish_sends_shut closing t in
        let g = pump_result_ok n (finish_sends F clock config accepts shuts c closing t) f.0 in
        (g.0, rw g.1 (f.1.0 ∙ v.0, f.1.1 ∙ v.1))
    after_transmit_accepted closing n s (t, some x) e v = absurd (cc)

    pub after_lock_accepted :
        (closing : Bool) (sends : List (ℕ × Bytes)) (s : Client F.Double)
        → let r = after_lock F clock config accepts shuts c closing sends s in
          (r.1.1 ≡ none) × Same s r.0
    unfolding after_lock
    after_lock_accepted closing sends s =
        let t = transmit_accepted sends s in
        after_transmit_accepted closing (length sends) s (transmit F clock config accepts c sends s)
          t.0 t.1

    stored :
        (state conn : ClientConnection F.Double) (reads : ℕ) (s t : Client F.Double)
        → find c s.states ≡ some state
        → AreKept F state.streams conn.streams
        → Same (store F clock config accepts c conn reads s) t
        → AreReceived c s t
    unfolding AreKept stream_of
    stored state conn reads s t found kept same =
        let old : find_or c (new_connection F) s.states ≡ state =
          find_or_of c state (new_connection F) s.states found in
        let new : find_or c (new_connection F) t.states ≡ conn =
          ap (find_or c (new_connection F)) same.0
          ∙ find_or-put_self c conn (new_connection F) s.states in
        record { kept = λ i. rw (old, new) (kept i); received = same.1 }

    unlock_accepted :
        (state : ClientConnection F.Double) (p : Pump F) (stop : PumpStop) (s : Client F.Double)
        → find c s.states ≡ some state
        → AreKept F state.streams p.connection.streams
        → Completes stop
        → let r = unlock F clock config accepts shuts c p stop s in
          (r.1.1 ≡ none) × AreReceived c s r.0
    unfolding unlock
    unlock_accepted state p finished s found kept h =
        let closing =
          s.stop_sending
          && (all_streams_drained F config p.connection && not p.connection.send_closed) in
        let conn = record (p.connection) { send_closed = p.connection.send_closed || closing } in
        let r =
          after_lock_accepted closing p.sends
            (store F clock config accepts c conn p.clock_reads s) in
        (r.0, stored state conn p.clock_reads s _ found kept r.1)
    unlock_accepted state p (failed e) s found kept h = absurd h
    unlock_accepted state p out_of_fuel s found kept h = (
      refl,
      stored state p.connection p.clock_reads s
          (store F clock config accepts c p.connection p.clock_reads s) found kept (refl, refl),
    )

    module _ (streams_given : 0 < config.stream_count)
        (profiled : (i : ℕ)
          → i < config.stream_count
          → (p : StreamProfile) × (stream_profile_for_ordinal config i ≡ some p)) where
      pump_connection_accepted :
          (max_messages : ℕ) (state : ClientConnection F.Double) (s : Client F.Double)
          → find c s.states ≡ some state
          → let r = pump_connection F clock config accepts shuts c max_messages state s in
            (r.1.1 ≡ none) × AreReceived c s r.0
      unfolding pump_connection
      pump_connection_accepted max_messages state s found =
          let p : Pump F = record { connection = state; clock_reads = s.clock_reads; sends = [] } in
          let r = pump_loop F clock config c max_messages s.stop_sending (suc max_messages) p in
          let k =
            pump_loop-AreKept F clock config state.streams streams_given profiled c max_messages
              s.stop_sending (suc max_messages) p (AreKept-refl F state.streams) in
          unlock_accepted state r.0 r.1 s found k.0 k.1

      -- PumpSends throws nothing, and the streams of its connection keep what they received.
      pub pump_sends_accepted :
          (max_messages : ℕ) (s : Client F.Double)
          → let r = pump_sends F clock config accepts shuts c max_messages s in
            (r.1.1 ≡ none) × AreReceived c s r.0
      unfolding pump_sends
      pump_sends_accepted max_messages s = elim (Option-cases (find c s.states)) [
        | inl e ↦ rw (e, pump_sends) (refl, AreReceived-refl c s)
        | inr (state, e) ↦
            elim (Bool-cases
              (not state.connected || (not state.has_connection || state.send_closed))) [
                | inl h ↦ rw (e, h, pump_sends) (refl, AreReceived-refl c s)
                | inr h ↦ rw (e, h, pump_sends) (pump_connection_accepted max_messages state s e)
              ]
      ]
