-- ===== src/LoadClient/Pump/Bounds.antt =====
-- `PumpSends`: how many frames a call chooses, and that its loop ends.
use proto_test_msquic.Prelude.{
  ℕ, zero, suc, ◌+◌, ◌%◌, ◌^◌, ◌≤◌, ◌<◌, ◌≡◌, ◌≢◌, refl, ap, ◌∙◌, ◌⊎◌, inl, inr, Bool, ◌&&◌, not,
  Bool-cases, Option-cases, find_or, length, length-append, ltb, leb, arith,
}
use proto_test_msquic.Prelude.Float.{Float64}
use proto_test_msquic.Config.Load.{AppConfig}
use proto_test_msquic.Config.Load.Active.{should_send_on_connection}
use proto_test_msquic.LoadClient.{ClientStream, ClientError, stream_id_from_ordinal}
use proto_test_msquic.LoadClient.Pump.{
  Pump, Attempt, taken, passed, broken, out_of_fuel, new_stream, with_profile, inflight, push_frame,
  pace_stream, attempt_profiled, attempt_stream, select_stream, pace_connection, pump_loop,
}

pub Attempt-cases :
    (a : Attempt) → (a ≡ taken) ⊎ ((a ≡ passed) ⊎ ((e : ClientError) × (a ≡ broken e)))
Attempt-cases taken = inl refl
Attempt-cases passed = inr (inl refl)
Attempt-cases (broken e) = inr (inr (e, refl))

-- How many frames there are after an attempt that found `n`.
abbrev pub sends_after : ℕ → Attempt → ℕ
sends_after n taken = n + 1
sends_after n passed = n
sends_after n (broken e) = n

module _ (F : Float64) (clock : ℕ → ℕ) (config : AppConfig) where
  push_frame-length :
      (ordinal : ℕ) (stream : ClientStream F.Double) (p : Pump F)
      → length (push_frame F clock config ordinal stream p).sends ≡ length p.sends + 1
  unfolding push_frame
  push_frame-length ordinal stream p = length-append p.sends _

  attempt_profiled-length :
      (ordinal : ℕ) (stream : ClientStream F.Double) (p : Pump F)
      → let r = attempt_profiled F clock config ordinal stream p in
        length r.0.sends ≡ sends_after (length p.sends) r.1
  unfolding attempt_profiled
  attempt_profiled-length ordinal stream p =
      elim (Bool-cases (leb stream.profile.max_inflight (inflight F stream))) [
        | inl e ↦ rw (e, attempt_profiled) refl
        | inr e ↦ elim (Bool-cases (pace_stream F clock config stream p.clock_reads).0) [
          | inl g ↦ rw (e, g, attempt_profiled) (push_frame-length ordinal _ _)
          | inr g ↦ rw (e, g, attempt_profiled) refl
        ]
      ]

  attempt_stream-length :
      (ordinal : ℕ) (p : Pump F)
      → let r = attempt_stream F clock config ordinal p in
        length r.0.sends ≡ sends_after (length p.sends) r.1
  unfolding attempt_stream
  attempt_stream-length ordinal p =
      elim (Option-cases (
        with_profile F config ordinal
          (find_or (stream_id_from_ordinal config ordinal) (new_stream F) p.connection.streams))) [
            | inl e ↦ rw (e, attempt_stream) refl
            | inr (s, e) ↦ rw (e, attempt_stream) (attempt_profiled-length ordinal s p)
          ]

  pub select_stream-length :
      (left attempt : ℕ) (p : Pump F)
      → let r = select_stream F clock config left attempt p in
        length r.0.sends ≡ sends_after (length p.sends) r.1
  unfolding select_stream
  select_stream-length zero attempt p = refl
  select_stream-length (suc left) attempt p =
      let ordinal =
        (p.connection.next_send_stream_ordinal + attempt) % 2 ^ 32 % config.stream_count in
      let r = attempt_stream F clock config ordinal p in
      let one = attempt_stream-length ordinal p in
      elim (Attempt-cases r.1) [
        | inl e ↦ rw (e, select_stream) one
        | inr (inl e) ↦
            rw (e, select_stream)
              (select_stream-length left (attempt + 1) r.0
                ∙ ap (λ n. sends_after n (select_stream F clock config left (attempt + 1) r.0).1)
                    (one ∙ ap (sends_after (length p.sends)) e))
        | inr (inr (x, e)) ↦ rw (e, select_stream) one
      ]

  pace_connection-sends : (p : Pump F) → (pace_connection F clock config p).1.sends ≡ p.sends
  unfolding pace_connection
  pace_connection-sends p = ground arith

  module _ (connection_id max_messages : ℕ) (stop_sending : Bool) where
    -- With fuel for the messages that are still allowed the loop of PumpSends ends by itself, and
    -- it never chooses more than max_messages.
    pub pump_loop-bounds :
        (fuel : ℕ) (p : Pump F)
        → length p.sends ≤ max_messages
        → max_messages < fuel + length p.sends
        → let r = pump_loop F clock config connection_id max_messages stop_sending fuel p in
          (r.1 ≢ out_of_fuel) × (length r.0.sends ≤ max_messages)
    unfolding pump_loop
    pump_loop-bounds zero p low high = absurd (omega arith)
    pump_loop-bounds (suc fuel) p low high =
        let g = pace_connection F clock config p in
        let r = select_stream F clock config config.stream_count 0 g.1 in
        let same : length g.1.sends ≡ length p.sends = ap length (pace_connection-sends p) in
        let one = select_stream-length config.stream_count 0 g.1 in
        elim (Bool-cases (
          should_send_on_connection config connection_id
          && (ltb (length p.sends) max_messages && not stop_sending))) [
            | inr e ↦ rw (e, pump_loop) (cc, low)
            | inl e ↦
                let room : length p.sends < max_messages = ground arith in
                elim (Bool-cases g.0) [
                  | inr h ↦ rw (e, h, pump_loop) (cc, omega arith)
                  | inl h ↦ elim (Attempt-cases r.1) [
                    | inl t ↦
                        let n : length r.0.sends ≡ length p.sends + 1 =
                          one ∙ ap (sends_after (length g.1.sends)) t ∙ ap (λ n. n + 1) same in
                        rw (e, h, t, pump_loop)
                          (pump_loop-bounds fuel r.0 (omega arith) (omega arith))
                    | inr (inl t) ↦
                        let n : length r.0.sends ≡ length p.sends =
                          one ∙ ap (sends_after (length g.1.sends)) t ∙ same in
                        rw (e, h, t, pump_loop) (cc, omega arith)
                    | inr (inr (x, t)) ↦
                        let n : length r.0.sends ≡ length p.sends =
                          one ∙ ap (sends_after (length g.1.sends)) t ∙ same in
                        rw (e, h, t, pump_loop) (cc, omega arith)
                  ]
                ]
          ]
