-- ===== src/LoadClient/Pump/Kept.antt =====
-- What `PumpSends` leaves alone of a stream: what it received, the echoes, and its profile; and that
-- choosing frames throws nothing where every stream has a profile.
use native.Mathlib.Nat.{mod-lt}
use proto_test_msquic.Prelude.{
  ℕ, zero, suc, ◌+◌, ◌%◌, ◌^◌, ◌<◌, ◌≡◌, ◌≢◌, refl, sym, ap, subst, inl, inr, Bool, true, false,
  ◌&&◌, not, Bool-cases, Option-cases, none, some, length, Map, put, find_or, find_or-put_self,
  find_or-put_ne, ==_iff, leb, ltb, ◌==◌, arith,
}
use proto_test_msquic.Prelude.Float.{Float64}
use proto_test_msquic.Config.Profiles.{StreamProfile}
use proto_test_msquic.Config.Load.{AppConfig, is_empty}
use proto_test_msquic.Config.Load.Active.{should_send_on_connection}
use proto_test_msquic.LoadClient.{ClientStream, ClientError, stream_id_from_ordinal}
use proto_test_msquic.LoadClient.Profile.{stream_profile_for_ordinal}
use proto_test_msquic.LoadClient.Pump.{
  Pump, PumpStop, finished, failed, out_of_fuel, Attempt, taken, passed, broken, new_stream,
  with_profile, inflight, push_frame, pace_stream, attempt_profiled, attempt_stream, select_stream,
  pace_connection, pump_loop,
}
use proto_test_msquic.LoadClient.Pump.Bounds.{Attempt-cases}

-- The loop does not fail.
abbrev pub Completes : PumpStop → Type 0
Completes finished = Unit
Completes (failed e) = ⊥
Completes out_of_fuel = Unit

module _ (F : Float64) where
  -- A later state `t` of a stream has received and counted the same, under the same profile once
  -- it has one.
  pub record Keeps (s t : ClientStream F.Double) : Type 0 where
    pub same_buffer : t.receive_buffer ≡ s.receive_buffer
    pub same_echoes : t.echoed_messages ≡ s.echoed_messages
    pub same_profile : is_empty s.profile.name ≡ false → t.profile ≡ s.profile

  pub Keeps-refl : (s : ClientStream F.Double) → Keeps s s
  Keeps-refl s = record { same_buffer = refl; same_echoes = refl; same_profile = λ h. refl }

  -- A change of the counters and times that a pumping writes.
  Keeps-change :
      (s t : ClientStream F.Double) (next : ℕ) (time : F.Double)
      → Keeps s t
      → Keeps s (record t { next_sequence = next; next_send_time_ns = time })
  Keeps-change s t next time v = record {
    same_buffer = v.same_buffer;
    same_echoes = v.same_echoes;
    same_profile = v.same_profile;
  }

  -- Every stream of a connection keeps what it had in `before`.
  unfoldable pub AreKept : Map (ClientStream F.Double) → Map (ClientStream F.Double) → Type 0
  AreKept before streams =
      (j : ℕ) → Keeps (find_or j (new_stream F) before) (find_or j (new_stream F) streams)

  pub AreKept-refl : (streams : Map (ClientStream F.Double)) → AreKept streams streams
  unfolding AreKept
  AreKept-refl streams = λ j. Keeps-refl (find_or j (new_stream F) streams)

  AreKept-put :
      (k : ℕ) (stream : ClientStream F.Double) (before streams : Map (ClientStream F.Double))
      → Keeps (find_or k (new_stream F) before) stream
      → AreKept before streams
      → AreKept before (put k stream streams)
  unfolding AreKept
  AreKept-put k stream before streams v w = λ j. elim (Bool-cases (k == j)) [
    | inl e ↦
        let same : k ≡ j = (==_iff k j).0 e in
        rw (← same, find_or-put_self k stream (new_stream F) streams) v
    | inr e ↦ rw (find_or-put_ne k j stream (new_stream F) streams e) (w j)
  ]

  Succeeds : Attempt → Type 0
  Succeeds taken = Unit
  Succeeds passed = Unit
  Succeeds (broken e) = ⊥

  module _ (clock : ℕ → ℕ) (config : AppConfig) (before : Map (ClientStream F.Double)) where
    with_profile-Keeps :
        (i : ℕ) (r s t : ClientStream F.Double)
        → with_profile F config i s ≡ some t
        → Keeps r s
        → Keeps r t
    unfolding with_profile
    with_profile-Keeps i r s t e v = elim (Bool-cases (is_empty s.profile.name)) [
      | inl h ↦ elim (Option-cases (stream_profile_for_ordinal config i)) [
        | inl n ↦
            let e0 : with_profile F config i s ≡ none = rw (h, n, with_profile) refl in absurd (cc)
        | inr (p, n) ↦
            let e0 : with_profile F config i s ≡ some (record s { profile = p }) =
              rw (h, n, with_profile) refl in
            let same : record s { profile = p } ≡ t = cc in
            subst (Keeps r) same (record {
              same_buffer = v.same_buffer;
              same_echoes = v.same_echoes;
              same_profile = λ g. absurd (unnamed r s h v g);
            })
      ]
      | inr h ↦
          let e0 : with_profile F config i s ≡ some s = rw (h, with_profile) refl in
          let same : s ≡ t = cc in subst (Keeps r) same v
    ]
      where
        unnamed :
            (r s : ClientStream F.Double)
            → is_empty s.profile.name ≡ true
            → Keeps r s
            → is_empty r.profile.name ≡ false
            → ⊥
        unnamed r s h v g =
            let e : is_empty s.profile.name ≡ is_empty r.profile.name =
              ap (λ p. is_empty p.name) (v.same_profile g) in
            cc

    pace_stream-Keeps :
        (r stream : ClientStream F.Double) (reads : ℕ)
        → Keeps r stream
        → Keeps r (pace_stream F clock config stream reads).1.0
    unfolding pace_stream
    pace_stream-Keeps r stream reads v = elim (Bool-cases (ltb 0 stream.profile.send_pps)) [
      | inl e ↦ rw (e, pace_stream) (Keeps-change r stream stream.next_sequence _ v)
      | inr e ↦ rw (e, pace_stream) v
    ]

    attempt_profiled-AreKept :
        (ordinal : ℕ) (stream : ClientStream F.Double) (p : Pump F)
        → Keeps (find_or (stream_id_from_ordinal config ordinal) (new_stream F) before) stream
        → AreKept before p.connection.streams
        → let r = attempt_profiled F clock config ordinal stream p in
          AreKept before r.0.connection.streams × Succeeds r.1
    unfolding attempt_profiled push_frame Succeeds
    attempt_profiled-AreKept ordinal stream p v w =
        let g = pace_stream F clock config stream p.clock_reads in
        let k = stream_id_from_ordinal config ordinal in
        let r = find_or k (new_stream F) before in
        let paced = pace_stream-Keeps r stream p.clock_reads v in
        elim (Bool-cases (leb stream.profile.max_inflight (inflight F stream))) [
          | inl e ↦ rw (e, attempt_profiled) (AreKept-put k stream before _ v w, tt)
          | inr e ↦ elim (Bool-cases g.0) [
            | inl h ↦
                rw (e, h, attempt_profiled)
                  (
                    AreKept-put k _ before _ (Keeps-change r g.1.0 _ g.1.0.next_send_time_ns paced)
                        w,
                    tt,
                  )
            | inr h ↦ rw (e, h, attempt_profiled) (AreKept-put k g.1.0 before _ paced w, tt)
          ]
        ]

    -- Every stream of the configuration has a profile, and there is one stream at least.
    module _ (streams_given : 0 < config.stream_count)
        (profiled : (i : ℕ)
          → i < config.stream_count
          → (p : StreamProfile) × (stream_profile_for_ordinal config i ≡ some p)) where
      with_profile-ne-none :
          (i : ℕ) (s : ClientStream F.Double)
          → i < config.stream_count
          → with_profile F config i s ≢ none
      unfolding with_profile
      with_profile-ne-none i s h = elim (Bool-cases (is_empty s.profile.name)) [
        | inl e ↦ rw (e, (profiled i h).1, with_profile) (λ x. cc)
        | inr e ↦ rw (e, with_profile) (λ x. cc)
      ]

      attempt_stream-AreKept :
          (ordinal : ℕ) (p : Pump F)
          → ordinal < config.stream_count
          → AreKept before p.connection.streams
          → let r = attempt_stream F clock config ordinal p in
            AreKept before r.0.connection.streams × Succeeds r.1
      unfolding attempt_stream AreKept
      attempt_stream-AreKept ordinal p h w =
          let k = stream_id_from_ordinal config ordinal in
          let stream = find_or k (new_stream F) p.connection.streams in
          elim (Option-cases (with_profile F config ordinal stream)) [
            | inl e ↦ absurd (with_profile-ne-none ordinal stream h e)
            | inr (s, e) ↦
                let r = find_or k (new_stream F) before in
                rw (e, attempt_stream)
                  (attempt_profiled-AreKept ordinal s p
                    (with_profile-Keeps ordinal r stream s e (w k)) w)
          ]

      not_broken : (a : Attempt) (e : ClientError) → a ≡ broken e → Succeeds a → ⊥
      unfolding Succeeds
      not_broken taken e h v = cc
      not_broken passed e h v = cc
      not_broken (broken x) e h v = v

      select_stream-AreKept :
          (left attempt : ℕ) (p : Pump F)
          → AreKept before p.connection.streams
          → let r = select_stream F clock config left attempt p in
            AreKept before r.0.connection.streams × Succeeds r.1
      unfolding select_stream Succeeds
      select_stream-AreKept zero attempt p w = (w, tt)
      select_stream-AreKept (suc left) attempt p w =
          let ordinal =
            (p.connection.next_send_stream_ordinal + attempt) % 2 ^ 32 % config.stream_count in
          let r = attempt_stream F clock config ordinal p in
          let one = attempt_stream-AreKept ordinal p (mod-lt _ streams_given) w in
          elim (Attempt-cases r.1) [
            | inl e ↦ rw (e, select_stream) one
            | inr (inl e) ↦
                rw (e, select_stream) (select_stream-AreKept left (attempt + 1) r.0 one.0)
            | inr (inr (x, e)) ↦ absurd (not_broken r.1 x e one.1)
          ]

      pace_connection-streams :
          (p : Pump F)
          → (pace_connection F clock config p).1.connection.streams ≡ p.connection.streams
      unfolding pace_connection
      pace_connection-streams p = ground arith

      pub pump_loop-AreKept :
          (connection_id max_messages : ℕ) (stop_sending : Bool) (fuel : ℕ) (p : Pump F)
          → AreKept before p.connection.streams
          → let r = pump_loop F clock config connection_id max_messages stop_sending fuel p in
            AreKept before r.0.connection.streams × Completes r.1
      unfolding pump_loop
      pump_loop-AreKept connection_id max_messages stop_sending zero p w = (w, tt)
      pump_loop-AreKept connection_id max_messages stop_sending (suc fuel) p w =
          let g = pace_connection F clock config p in
          let r = select_stream F clock config config.stream_count 0 g.1 in
          let start : AreKept before g.1.connection.streams =
            subst (AreKept before) (sym (pace_connection-streams p)) w in
          let one = select_stream-AreKept config.stream_count 0 g.1 start in
          elim (Bool-cases (
            should_send_on_connection config connection_id
            && (ltb (length p.sends) max_messages && not stop_sending))) [
              | inr e ↦ rw (e, pump_loop) (w, tt)
              | inl e ↦ elim (Bool-cases g.0) [
                | inr h ↦ rw (e, h, pump_loop) (start, tt)
                | inl h ↦ elim (Attempt-cases r.1) [
                  | inl t ↦
                      rw (e, h, t, pump_loop)
                        (pump_loop-AreKept connection_id max_messages stop_sending fuel r.0 one.0)
                  | inr (inl t) ↦ rw (e, h, t, pump_loop) (one.0, tt)
                  | inr (inr (x, t)) ↦ absurd (not_broken r.1 x t one.1)
                ]
              ]
            ]
