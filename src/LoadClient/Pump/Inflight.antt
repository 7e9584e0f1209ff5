-- ===== src/LoadClient/Pump/Inflight.antt =====
-- The window of a stream: `next_sequence - echoed_messages` against `max_inflight`.
use proto_test_msquic.Prelude.{
  ℕ, zero, suc, ◌+◌, ◌%◌, ◌^◌, ◌≤◌, ◌<◌, ◌≡◌, refl, sym, ap, ◌∙◌, inl, inr, Bool, true, false, ◌&&◌,
  not, Bool-cases, Option-cases, none, some, length, Map, find_or, put, find_or-put_self,
  find_or-put_ne, ==_iff, leb, ltb, ◌==◌, subst, arith,
}
use proto_test_msquic.Prelude.Float.{Float64}
use proto_test_msquic.Config.Profiles.{StreamProfile}
use proto_test_msquic.Config.Load.{AppConfig, is_empty}
use proto_test_msquic.Config.Load.Active.{should_send_on_connection}
use proto_test_msquic.LoadClient.{ClientStream, stream_id_from_ordinal}
use proto_test_msquic.LoadClient.Profile.{stream_profile_for_ordinal}
use proto_test_msquic.LoadClient.Pump.{
  Pump, new_stream, with_profile, inflight, push_frame, pace_stream, attempt_profiled,
  attempt_stream, select_stream, pace_connection, pump_loop,
}
use proto_test_msquic.LoadClient.Pump.Bounds.{Attempt-cases}

module _ (F : Float64) where
  -- A stream has at most as many messages in flight as its profile allows, none while it has no
  -- profile of the configuration, and its counters are 64-bit words.
  pub record IsWindowed (stream : ClientStream F.Double) : Type 0 where
    pub within : inflight F stream ≤ stream.profile.max_inflight
    pub idle : is_empty stream.profile.name ≡ true → inflight F stream ≡ 0
    pub sequence_fits : stream.next_sequence < 2 ^ 64
    pub echoed_fits : stream.echoed_messages < 2 ^ 64

  unfoldable pub AreWindowed : Map (ClientStream F.Double) → Type 0
  AreWindowed streams = (j : ℕ) → IsWindowed (find_or j (new_stream F) streams)

  pub AreWindowed-put :
      (k : ℕ) (stream : ClientStream F.Double) (streams : Map (ClientStream F.Double))
      → IsWindowed stream
      → AreWindowed streams
      → AreWindowed (put k stream streams)
  unfolding AreWindowed
  AreWindowed-put k stream streams v w = λ j. elim (Bool-cases (k == j)) [
    | inl e ↦
        let same : k ≡ j = (==_iff k j).0 e in
        rw (← same, find_or-put_self k stream (new_stream F) streams) v
    | inr e ↦ rw (find_or-put_ne k j stream (new_stream F) streams e) (w j)
  ]

  module _ (clock : ℕ → ℕ) (config : AppConfig)
      (named : (i : ℕ) (p : StreamProfile)
        → stream_profile_for_ordinal config i ≡ some p
        → is_empty p.name ≡ false) where
    with_profile-IsWindowed :
        (i : ℕ) (s t : ClientStream F.Double)
        → with_profile F config i s ≡ some t
        → IsWindowed s
        → IsWindowed t × (is_empty t.profile.name ≡ false)
    unfolding with_profile inflight
    with_profile-IsWindowed i s t e v = elim (Bool-cases (is_empty s.profile.name)) [
      | inl h ↦ elim (Option-cases (stream_profile_for_ordinal config i)) [
        | inl n ↦
            let e0 : with_profile F config i s ≡ none = rw (h, n, with_profile) refl in absurd (cc)
        | inr (p, n) ↦
            let e0 : with_profile F config i s ≡ some (record s { profile = p }) =
              rw (h, n, with_profile) refl in
            let same : record s { profile = p } ≡ t = cc in
            let none_inflight : inflight F s ≡ 0 = v.idle h in
            subst (λ x. IsWindowed x × (is_empty x.profile.name ≡ false)) same
              (
                record {
                  within = omega arith;
                  idle = λ x. none_inflight;
                  sequence_fits = v.sequence_fits;
                  echoed_fits = v.echoed_fits;
                },
                named i p n,
              )
      ]
      | inr h ↦
          let e0 : with_profile F config i s ≡ some s = rw (h, with_profile) refl in
          let same : s ≡ t = cc in
          subst (λ x. IsWindowed x × (is_empty x.profile.name ≡ false)) same (v, h)
    ]

    push_frame-IsWindowed :
        (stream : ClientStream F.Double)
        → IsWindowed stream
        → is_empty stream.profile.name ≡ false
        → inflight F stream < stream.profile.max_inflight
        → IsWindowed (record stream { next_sequence = (stream.next_sequence + 1) % 2 ^ 64 })
    unfolding inflight
    push_frame-IsWindowed stream v n room = record {
      within = omega (arith, v.sequence_fits, v.echoed_fits);
      idle = λ h. absurd (cc);
      sequence_fits = omega arith;
      echoed_fits = v.echoed_fits;
    }

    pace_stream-IsWindowed :
        (stream : ClientStream F.Double) (reads : ℕ)
        → IsWindowed stream
        → let t = (pace_stream F clock config stream reads).1.0 in
          IsWindowed t × (t.profile ≡ stream.profile) × (inflight F t ≡ inflight F stream)
    unfolding pace_stream inflight
    pace_stream-IsWindowed stream reads v = elim (Bool-cases (ltb 0 stream.profile.send_pps)) [
      | inl e ↦
          rw (e, pace_stream)
            (
              record {
                within = v.within;
                idle = v.idle;
                sequence_fits = v.sequence_fits;
                echoed_fits = v.echoed_fits;
              },
              refl,
              refl,
            )
      | inr e ↦ rw (e, pace_stream) (v, refl, refl)
    ]

    attempt_profiled-AreWindowed :
        (ordinal : ℕ) (stream : ClientStream F.Double) (p : Pump F)
        → IsWindowed stream
        → is_empty stream.profile.name ≡ false
        → AreWindowed p.connection.streams
        → AreWindowed (attempt_profiled F clock config ordinal stream p).0.connection.streams
    unfolding attempt_profiled push_frame
    attempt_profiled-AreWindowed ordinal stream p v n w =
        let g = pace_stream F clock config stream p.clock_reads in
        let k = stream_id_from_ordinal config ordinal in
        let paced = pace_stream-IsWindowed stream p.clock_reads v in
        elim (Bool-cases (leb stream.profile.max_inflight (inflight F stream))) [
          | inl e ↦ rw (e, attempt_profiled) (AreWindowed-put k stream _ v w)
          | inr e ↦ elim (Bool-cases g.0) [
            | inl h ↦
                rw (e, h, attempt_profiled)
                  (AreWindowed-put k _ _
                    (push_frame-IsWindowed g.1.0 paced.0 (ap (λ x. is_empty x.name) paced.1 ∙ n)
                      (room stream g.1.0 paced.1 paced.2 e))
                    w)
            | inr h ↦ rw (e, h, attempt_profiled) (AreWindowed-put k g.1.0 _ paced.0 w)
          ]
        ]
      where
        room :
            (s t : ClientStream F.Double)
            → t.profile ≡ s.profile
            → inflight F t ≡ inflight F s
            → leb s.profile.max_inflight (inflight F s) ≡ false
            → inflight F t < t.profile.max_inflight
        room s t e f h =
            let m : t.profile.max_inflight ≡ s.profile.max_inflight = ap (λ p. p.max_inflight) e in
            ground arith

    attempt_stream-AreWindowed :
        (ordinal : ℕ) (p : Pump F)
        → AreWindowed p.connection.streams
        → AreWindowed (attempt_stream F clock config ordinal p).0.connection.streams
    unfolding attempt_stream AreWindowed
    attempt_stream-AreWindowed ordinal p w =
        let k = stream_id_from_ordinal config ordinal in
        let stream = find_or k (new_stream F) p.connection.streams in
        elim (Option-cases (with_profile F config ordinal stream)) [
          | inl e ↦ rw (e, attempt_stream) (AreWindowed-put k stream _ (w k) w)
          | inr (s, e) ↦
              let v = with_profile-IsWindowed ordinal stream s e (w k) in
              rw (e, attempt_stream) (attempt_profiled-AreWindowed ordinal s p v.0 v.1 w)
        ]

    select_stream-AreWindowed :
        (left attempt : ℕ) (p : Pump F)
        → AreWindowed p.connection.streams
        → AreWindowed (select_stream F clock config left attempt p).0.connection.streams
    unfolding select_stream
    select_stream-AreWindowed zero attempt p w = w
    select_stream-AreWindowed (suc left) attempt p w =
        let ordinal =
          (p.connection.next_send_stream_ordinal + attempt) % 2 ^ 32 % config.stream_count in
        let r = attempt_stream F clock config ordinal p in
        let one = attempt_stream-AreWindowed ordinal p w in
        elim (Attempt-cases r.1) [
          | inl e ↦ rw (e, select_stream) one
          | inr (inl e) ↦
              rw (e, select_stream) (select_stream-AreWindowed left (attempt + 1) r.0 one)
          | inr (inr (x, e)) ↦ rw (e, select_stream) one
        ]

    pace_connection-streams :
        (p : Pump F)
        → (pace_connection F clock config p).1.connection.streams ≡ p.connection.streams
    unfolding pace_connection
    pace_connection-streams p = ground arith

    -- Where every profile of the configuration has a name, choosing frames keeps every stream of
    -- the connection within its profile's max_inflight and its counters within 64 bits, whatever
    -- the rates, the clock and the stop flag are.
    pub pump_loop-AreWindowed :
        (connection_id max_messages : ℕ) (stop_sending : Bool) (fuel : ℕ) (p : Pump F)
        → AreWindowed p.connection.streams
        → AreWindowed
            (pump_loop F clock config connection_id max_messages stop_sending fuel
              p).0.connection.streams
    unfolding pump_loop
    pump_loop-AreWindowed connection_id max_messages stop_sending zero p w = w
    pump_loop-AreWindowed connection_id max_messages stop_sending (suc fuel) p w =
        let g = pace_connection F clock config p in
        let r = select_stream F clock config config.stream_count 0 g.1 in
        let start : AreWindowed g.1.connection.streams =
          subst AreWindowed (sym (pace_connection-streams p)) w in
        let one = select_stream-AreWindowed config.stream_count 0 g.1 start in
        elim (Bool-cases (
          should_send_on_connection config connection_id
          && (ltb (length p.sends) max_messages && not stop_sending))) [
            | inr e ↦ rw (e, pump_loop) w
            | inl e ↦ elim (Bool-cases g.0) [
              | inr h ↦ rw (e, h, pump_loop) start
              | inl h ↦ elim (Attempt-cases r.1) [
                | inl t ↦
                    rw (e, h, t, pump_loop)
                      (pump_loop-AreWindowed connection_id max_messages stop_sending fuel r.0 one)
                | inr (inl t) ↦ rw (e, h, t, pump_loop) one
                | inr (inr (x, t)) ↦ rw (e, h, t, pump_loop) one
              ]
            ]
          ]
