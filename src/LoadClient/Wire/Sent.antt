-- ===== src/LoadClient/Wire/Sent.antt =====
-- What all calls of `PumpSends` for a connection give to `SendCopy` on one of its streams.
use proto_test_msquic.Prelude.{
  ℕ, suc, ◌+◌, ◌^◌, ◌<◌, ◌≡◌, ◌≢◌, refl, sym, ap, ◌∙◌, inl, inr, Bool, true, false, ◌&&◌, ◌||◌, not,
  Bool-cases, Option-cases, List, [], ◌++◌, some, map, map-append, length, length-append, All,
  All-append, find, find_or, find_or-put_self, find_or_of, arith,
}
use proto_test_msquic.Prelude.Float.{Float64}
use proto_test_msquic.Config.Profiles.{StreamProfile}
use proto_test_msquic.Config.Load.{AppConfig, is_empty}
use proto_test_msquic.Frame.{Bytes}
use proto_test_msquic.Stats.{add64}
use proto_test_msquic.LoadClient.{ClientStream, ClientConnection, Client}
use proto_test_msquic.LoadClient.Profile.{stream_profile_for_ordinal}
use proto_test_msquic.LoadClient.Pump.{
  Pump, PumpStop, finished, failed, out_of_fuel, new_stream, new_connection, pump_loop,
}
use proto_test_msquic.LoadClient.Pump.Bounds.{pump_loop-bounds}
use proto_test_msquic.LoadClient.Pump.Kept.{AreKept-refl, Completes, pump_loop-AreKept}
use proto_test_msquic.LoadClient.Pump.Frames.{of_stream, Made, IsQueued, pump_loop-IsQueued}
use proto_test_msquic.LoadClient.Sending.{
  all_streams_drained, after_lock, store, unlock, pump_connection, pump_sends,
}
use proto_test_msquic.LoadClient.Receive.Chunks.{stream_of}
use proto_test_msquic.LoadClient.Receive.Pumped.{after_lock_accepted}
use proto_test_msquic.LoadClient.Wire.{
  Message, IsMessage, wire_frame, frames_copied, IsExtended, transmit-IsExtended, after_lock-frames,
}

module _ (F : Float64) (clock : ℕ → ℕ) (config : AppConfig) (accepts : ℕ → ℕ → Bytes → Bool)
    (shuts : ℕ → Bool) (accepted : (i j : ℕ) (w : Bytes) → accepts i j w ≡ true)
    (shut : (i : ℕ) → shuts i ≡ true) (timely : (k : ℕ) → clock k < 2 ^ 64) (c i : ℕ) where
  module _ (profile : StreamProfile) (named : is_empty profile.name ≡ false) (n : ℕ)
      (low : n < 2 ^ 64) where
    -- What the client gave to SendCopy on the stream is a frame for each number from `n` up to
    -- its counter.
    pub record IsSent (s : Client F.Double) : Type 0 where
      pub messages : List Message
      pub valid : All IsMessage messages
      pub on_wire : frames_copied c i s.actions ≡ map (wire_frame profile.message_size) messages
      pub counted : (stream_of F c i s).next_sequence ≡ add64 n (length messages)
      pub same_profile : (stream_of F c i s).profile ≡ profile

    added : (a b k : ℕ) → k ≡ a + b → add64 (add64 n a) b ≡ add64 n k
    added a b k e = omega arith

    extend-IsSent :
        (s t : Client F.Double) (v : IsSent s) (made : List Made)
        → IsExtended profile.message_size c i made s.actions t.actions
        → (stream_of F c i t).next_sequence ≡ add64 (add64 n (length v.messages)) (length made)
        → (stream_of F c i t).profile ≡ profile
        → IsSent t
    extend-IsSent s t v made x e same = record {
      messages = v.messages ++ x.messages;
      valid = All-append IsMessage v.messages x.messages v.valid x.valid;
      on_wire =
          x.extended
          ∙ ap (λ (ws : List Bytes). ws ++ map (wire_frame profile.message_size) x.messages)
              v.on_wire
          ∙ sym (map-append (wire_frame profile.message_size) v.messages x.messages);
      counted =
          e
          ∙ added (length v.messages) (length made) (length (v.messages ++ x.messages))
              (omega (arith, length-append v.messages x.messages, x.same_length));
      same_profile = same;
    }

    module _ (streams_given : 0 < config.stream_count)
        (profiled : (j : ℕ)
          → j < config.stream_count
          → (p : StreamProfile) × (stream_profile_for_ordinal config j ≡ some p)) where
      unlock-IsSent :
          (s : Client F.Double) (v : IsSent s) (p : Pump F) (stop : PumpStop)
          → IsQueued F clock config timely i profile named (add64 n (length v.messages)) p
          → Completes stop
          → stop ≢ out_of_fuel
          → IsSent (unlock F clock config accepts shuts c p stop s).0
      unfolding unlock stream_of
      unlock-IsSent s v p finished q h k =
          let closing =
            s.stop_sending
            && (all_streams_drained F config p.connection && not p.connection.send_closed) in
          let conn = record (p.connection) { send_closed = p.connection.send_closed || closing } in
          let u = store F clock config accepts c conn p.clock_reads s in
          let r = after_lock F clock config accepts shuts c closing p.sends u in
          let states =
            (after_lock_accepted F clock config accepts shuts accepted shut c closing p.sends
              u).1.0 in
          let new : find_or c (new_connection F) r.0.states ≡ conn =
            ap (find_or c (new_connection F)) states
            ∙ find_or-put_self c conn (new_connection F) s.states in
          let stream : stream_of F c i r.0 ≡ find_or i (new_stream F) conn.streams =
            ap (λ (x : ClientConnection F.Double). find_or i (new_stream F) x.streams) new in
          let x =
            transmit-IsExtended F clock config accepts shuts accepted shut timely c i
              profile.message_size p.sends q.made u q.valid q.frames in
          extend-IsSent s r.0 v q.made
            (record {
              messages = x.messages;
              valid = x.valid;
              same_length = x.same_length;
              extended =
                  after_lock-frames F clock config accepts shuts accepted shut timely c i closing
                    p.sends u
                  ∙ x.extended;
            })
            (ap (λ (y : ClientStream F.Double). y.next_sequence) stream ∙ q.counted)
            (ap (λ (y : ClientStream F.Double). y.profile) stream ∙ q.same_profile)
      unlock-IsSent s v p (failed e) q h k = absurd h
      unlock-IsSent s v p out_of_fuel q h k = absurd (k refl)

      pump_connection-IsSent :
          (max_messages : ℕ) (state : ClientConnection F.Double) (s : Client F.Double)
          → find c s.states ≡ some state
          → IsSent s
          → IsSent (pump_connection F clock config accepts shuts c max_messages state s).0
      unfolding pump_connection of_stream stream_of
      pump_connection-IsSent max_messages state s found v =
          let p : Pump F = record { connection = state; clock_reads = s.clock_reads; sends = [] } in
          let r = pump_loop F clock config c max_messages s.stop_sending (suc max_messages) p in
          let old : stream_of F c i s ≡ find_or i (new_stream F) state.streams =
            ap (λ (x : ClientConnection F.Double). find_or i (new_stream F) x.streams)
              (find_or_of c state (new_connection F) s.states found) in
          let k =
            pump_loop-AreKept F clock config state.streams streams_given profiled c max_messages
              s.stop_sending (suc max_messages) p (AreKept-refl F state.streams) in
          let bounds =
            pump_loop-bounds F clock config c max_messages s.stop_sending (suc max_messages) p
              (omega arith) (omega arith) in
          let start : IsQueued F clock config timely i profile named (add64 n (length v.messages))
              p =
            record {
              made = [];
              valid = tt;
              frames = refl;
              counted =
                  sym (ap (λ (x : ClientStream F.Double). x.next_sequence) old)
                  ∙ v.counted
                  ∙ sym (added (length v.messages) 0 (length v.messages) (omega arith));
              same_profile =
                  sym (ap (λ (x : ClientStream F.Double). x.profile) old) ∙ v.same_profile;
            } in
          let q =
            pump_loop-IsQueued F clock config timely i profile named (add64 n (length v.messages)) c
              max_messages s.stop_sending (suc max_messages) p start in
          unlock-IsSent s v r.0 r.1 q k.1 bounds.0

      -- PumpSends for the stream's connection.
      pub pump_sends-IsSent :
          (max_messages : ℕ) (s : Client F.Double)
          → IsSent s
          → IsSent (pump_sends F clock config accepts shuts c max_messages s).0
      unfolding pump_sends
      pump_sends-IsSent max_messages s v = elim (Option-cases (find c s.states)) [
        | inl e ↦ rw (e, pump_sends) v
        | inr (state, e) ↦
            elim (Bool-cases
              (not state.connected || (not state.has_connection || state.send_closed))) [
                | inl h ↦ rw (e, h, pump_sends) v
                | inr h ↦ rw (e, h, pump_sends) (pump_connection-IsSent max_messages state s e v)
              ]
      ]
