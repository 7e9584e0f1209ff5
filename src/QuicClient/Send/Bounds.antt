-- ===== src/QuicClient/Send/Bounds.antt =====
-- `Client::PumpSends`: its loop ends, and how much it sends.
use proto_test_msquic.Prelude.{
  ℕ, zero, suc, ◌+◌, ◌≤◌, ◌<◌, ◌≡◌, ◌≢◌, refl, ◌⊎◌, inl, inr, Bool, ◌&&◌, not, Bool-cases, length,
  ltb, arith,
}
use proto_test_msquic.Prelude.Float.{Float64}
use proto_test_msquic.Config.Load.{AppConfig}
use proto_test_msquic.Config.Load.Active.{should_send_on_connection}
use proto_test_msquic.Frame.{Bytes}
use proto_test_msquic.QuicClient.{QuicClient}
use proto_test_msquic.QuicClient.Send.{
  Choice, selected, skipped, SendStop, done, refused, out_of_fuel, choose_stream, pace_connection,
  send_selected, send_loop, finish_pump, pump_sends,
}

pub Choice-cases : (c : Choice) → ((i : ℕ) × (c ≡ selected i)) ⊎ (c ≡ skipped)
Choice-cases (selected i) = inl (i, refl)
Choice-cases skipped = inr refl

module _ (F : Float64) (clock : ℕ → ℕ) (config : AppConfig) (accepts : ℕ → Bytes → Bool)
    (max_messages : ℕ) where
  -- With fuel for the messages that are still allowed the loop of the QUIC client's PumpSends ends
  -- by itself, and the count that it ends with is at most max_messages.
  pub send_loop-bounds :
      (fuel count : ℕ) (s : QuicClient F.Double)
      → count ≤ max_messages
      → max_messages < fuel + count
      → let r = send_loop F clock config accepts max_messages fuel count s in
        (r.1.1 ≢ out_of_fuel) × (r.1.0 ≤ max_messages)
  unfolding send_loop
  send_loop-bounds zero count s low high = absurd (omega arith)
  send_loop-bounds (suc fuel) count s low high =
      let g = pace_connection F clock config s in
      let c = choose_stream F clock config (length g.1.connection.stream_contexts) 0 g.1 in
      elim (Bool-cases (
        should_send_on_connection config s.connection.index
        && (ltb count max_messages && not s.stop_sending))) [
          | inr e ↦ rw (e, send_loop) (cc, low)
          | inl e ↦
              let room : count < max_messages = ground arith in
              elim (Bool-cases g.0) [
                | inr h ↦ rw (e, h, send_loop) (cc, low)
                | inl h ↦ elim (Choice-cases c.1) [
                  | inr t ↦ rw (e, h, t, send_loop) (cc, low)
                  | inl (i, t) ↦
                      let u = send_selected F clock config accepts i c.0 in
                      elim (Bool-cases u.1) [
                        | inr a ↦ rw (e, h, t, a, send_loop) (cc, low)
                        | inl a ↦
                            rw (e, h, t, a, send_loop)
                              (send_loop-bounds fuel (count + 1) u.0 (omega arith) (omega arith))
                      ]
                ]
              ]
        ]

  finish_pump-count :
      (r : QuicClient F.Double × (ℕ × SendStop)) → (finish_pump F clock config accepts r).1 ≡ r.1.0
  unfolding finish_pump
  finish_pump-count (s, (count, done)) = refl
  finish_pump-count (s, (count, refused)) = refl
  finish_pump-count (s, (count, out_of_fuel)) = refl

  -- A call reports at most `max_messages`, in every state.
  pub pump_sends-le-max :
      (s : QuicClient F.Double)
      → (pump_sends F clock config accepts max_messages s).1 ≤ max_messages
  unfolding pump_sends
  pump_sends-le-max s =
      let r = send_loop F clock config accepts max_messages (suc max_messages) 0 s in
      let bounds : (r.1.1 ≢ out_of_fuel) × (r.1.0 ≤ max_messages) =
        send_loop-bounds (suc max_messages) 0 s (omega arith) (omega arith) in
      omega (arith, bounds.1, finish_pump-count r)
