-- ===== src/LoadClient/Pump/Drained.antt =====
-- `AllStreamsDrained` of the SCTP client, and what it says of the streams.
use proto_test_msquic.Prelude.{
  ℕ, zero, suc, ◌+◌, ◌<◌, Map, ◌≤◌, ◌≡◌, ◌≢◌, refl, inl, inr, true, Bool-cases, Option-cases, some,
  find, ==_iff, ◌==◌, arith,
}
use proto_test_msquic.Prelude.Float.{Float64}
use proto_test_msquic.Config.Load.{AppConfig}
use proto_test_msquic.LoadClient.{stream_id_from_ordinal, ClientStream, ClientConnection}
use proto_test_msquic.LoadClient.Sending.{streams_drained, all_streams_drained}

module _ (F : Float64) (config : AppConfig) where
  -- Each stream of the configuration that the connection has got as many echoes as it made
  -- messages.
  pub AreEchoed : ClientConnection F.Double → Type 0
  AreEchoed state =
      (i : ℕ) (stream : ClientStream F.Double)
      → i < config.stream_count
      → find (stream_id_from_ordinal config i) state.streams ≡ some stream
      → stream.next_sequence ≡ stream.echoed_messages

  -- The same from an ordinal on.
  AreEchoedFrom : ℕ → ℕ → Map (ClientStream F.Double) → Type 0
  AreEchoedFrom left ordinal streams =
      (i : ℕ) (stream : ClientStream F.Double)
      → ordinal ≤ i
      → i < ordinal + left
      → find (stream_id_from_ordinal config i) streams ≡ some stream
      → stream.next_sequence ≡ stream.echoed_messages

  streams_drained_sound :
      (left ordinal : ℕ) (streams : Map (ClientStream F.Double))
      → streams_drained F config left ordinal streams ≡ true
      → AreEchoedFrom left ordinal streams
  unfolding AreEchoedFrom streams_drained
  streams_drained_sound zero ordinal streams h = λ i stream a b e. absurd (omega arith)
  streams_drained_sound (suc left) ordinal streams h = λ i stream a b e.
      elim (Bool-cases (ordinal == i)) [
        | inl t ↦
            let same : ordinal ≡ i = (==_iff ordinal i).0 t in
            let found : find (stream_id_from_ordinal config ordinal) streams ≡ some stream =
              rw same e in
            let k = rw (found, streams_drained) at h in ground arith
        | inr t ↦
            let other : ordinal ≢ i = λ e. let k = (==_iff ordinal i).1 e in cc in
            streams_drained_sound left (ordinal + 1) streams (rest h) i stream (omega arith)
              (omega arith) e
      ]
    where
      rest :
          streams_drained F config (suc left) ordinal streams ≡ true
          → streams_drained F config left (ordinal + 1) streams ≡ true
      rest h = elim (Option-cases (find (stream_id_from_ordinal config ordinal) streams)) [
        | inl e ↦ rw (e, streams_drained) at h
        | inr (x, e) ↦ let k = rw (e, streams_drained) at h in ground arith
      ]

  streams_drained_complete :
      (left ordinal : ℕ) (streams : Map (ClientStream F.Double))
      → AreEchoedFrom left ordinal streams
      → streams_drained F config left ordinal streams ≡ true
  unfolding AreEchoedFrom streams_drained
  streams_drained_complete zero ordinal streams v = refl
  streams_drained_complete (suc left) ordinal streams v =
      let ih =
        streams_drained_complete left (ordinal + 1) streams
          (λ i stream a b. v i stream (omega arith) (omega arith)) in
      elim (Option-cases (find (stream_id_from_ordinal config ordinal) streams)) [
        | inl e ↦ rw (e, streams_drained) ih
        | inr (x, e) ↦
            let same = v ordinal x (omega arith) (omega arith) e in
            rw (e, streams_drained) (ground (arith, ih))
      ]

  pub all_streams_drained_iff :
      (state : ClientConnection F.Double)
      → (all_streams_drained F config state ≡ true → AreEchoed state)
        × (AreEchoed state → all_streams_drained F config state ≡ true)
  unfolding all_streams_drained AreEchoed AreEchoedFrom
  all_streams_drained_iff state = (
    λ h i stream b e.
        streams_drained_sound config.stream_count 0 state.streams h i stream (omega arith)
          (omega arith) e,
    λ v.
        streams_drained_complete config.stream_count 0 state.streams
          (λ i stream a b e. v i stream (omega arith) e),
  )
