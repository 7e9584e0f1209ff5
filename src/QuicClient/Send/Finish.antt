-- ===== src/QuicClient/Send/Finish.antt =====
-- The end of the QUIC client's streams, once sending was stopped and every echo is there.
use proto_test_msquic.Prelude.{
  ℕ, zero, suc, ◌<◌, none, some, some_injective, subst, ◌⊎◌, ◌∙◌, get_elem?, tally, tally-append,
  ◌==◌, ==_iff, ◌+◌, ◌≡◌, refl, ap, inl, inr, Bool, true, false, ◌&&◌, ◌||◌, not, Bool-cases, List,
  [], ◌∷◌, if◌then◌else◌, arith,
}
use proto_test_msquic.Prelude.Float.{Float64}
use proto_test_msquic.Config.Load.{AppConfig}
use proto_test_msquic.Frame.{Bytes}
use proto_test_msquic.QuicClient.{
  StreamContext, ClientCall, stream_shutdown, stream_send, stream_close, connection_shutdown,
  connection_close, QuicClient, set_streams, streams_drained,
}
use proto_test_msquic.QuicClient.Send.{shut_streams, shut_drained}

-- The shutdowns of the stream at an ordinal.
abbrev pub shutdowns_at : ℕ → ClientCall → ℕ
shutdowns_at j (stream_shutdown i) = if i == j then 1 else 0
shutdowns_at j (stream_send i bytes) = 0
shutdowns_at j (stream_close i) = 0
shutdowns_at j (connection_shutdown i) = 0
shutdowns_at j connection_close = 0

module _ (F : Float64) where
  -- A stream that runs and that nobody has shut down.
  unfoldable pub is_running : StreamContext F.Double → Bool
  is_running stream = not stream.shutdown_started && (not stream.closed && stream.stream_started)

  unfoldable pub any_running : List (StreamContext F.Double) → Bool
  any_running [] = false
  any_running (stream ∷ streams) = is_running stream || any_running streams

  -- Whether there is a running stream at an ordinal, as a number.
  pub running_at : ℕ → List (StreamContext F.Double) → ℕ
  running_at j streams = elim (get_elem? streams j) [
    | none ↦ 0
    | some stream ↦ if is_running stream then 1 else 0
  ]

  -- Each stream that is not closed got as many echoes as it made messages.
  pub AreEchoed : List (StreamContext F.Double) → Type 0
  AreEchoed streams =
      (j : ℕ) (stream : StreamContext F.Double)
      → get_elem? streams j ≡ some stream
      → stream.closed ≡ false
      → stream.next_sequence ≡ stream.echoed_messages

  drained_at :
      (streams : List (StreamContext F.Double)) (j : ℕ) (stream : StreamContext F.Double)
      → streams_drained streams ≡ true
      → get_elem? streams j ≡ some stream
      → stream.closed ≡ false
      → stream.next_sequence ≡ stream.echoed_messages
  unfolding streams_drained
  drained_at [] j stream h e k = absurd (cc)
  drained_at (x ∷ xs) zero stream h e k =
      let c : x.closed ≡ false = ap (λ y. y.closed) (some_injective e) ∙ k in
      let same : x.next_sequence ≡ x.echoed_messages = ground arith in
      subst (λ (y : StreamContext F.Double). y.next_sequence ≡ y.echoed_messages) (some_injective e)
        same
  drained_at (x ∷ xs) (suc j) stream h e k = drained_at xs j stream (ground arith) e k

  streams_drained_sound :
      (streams : List (StreamContext F.Double)) → streams_drained streams ≡ true → AreEchoed streams
  unfolding AreEchoed
  streams_drained_sound streams h = λ j stream e k. drained_at streams j stream h e k

  streams_drained_complete :
      (streams : List (StreamContext F.Double)) → AreEchoed streams → streams_drained streams ≡ true
  unfolding AreEchoed streams_drained
  streams_drained_complete [] v = refl
  streams_drained_complete (x ∷ xs) v =
      let ih = streams_drained_complete xs (λ j. v (suc j)) in
      elim (Bool-cases x.closed) [
        | inl c ↦ ground (arith, ih)
        | inr c ↦ let same = v 0 x refl c in ground (arith, ih)
      ]

  module _ (clock : ℕ → ℕ) (config : AppConfig) (accepts : ℕ → Bytes → Bool) where
    shut_streams-running :
        (ordinal : ℕ) (streams : List (StreamContext F.Double))
        → any_running (shut_streams F clock config accepts ordinal streams).0 ≡ false
    unfolding shut_streams any_running is_running
    shut_streams-running ordinal [] = refl
    shut_streams-running ordinal (stream ∷ streams) =
        let ih = shut_streams-running (ordinal + 1) streams in
        elim (Bool-cases (is_running stream)) [
          | inl e ↦ rw (e, shut_streams, any_running) ih
          | inr e ↦ rw (e, shut_streams, any_running) (ground (arith, ih))
        ]

    shut_streams_below :
        (j ordinal : ℕ) (streams : List (StreamContext F.Double))
        → j < ordinal
        → tally (shutdowns_at j) (shut_streams F clock config accepts ordinal streams).1 ≡ 0
    unfolding shut_streams is_running
    shut_streams_below j ordinal [] h = refl
    shut_streams_below j ordinal (stream ∷ streams) h =
        let ih = shut_streams_below j (ordinal + 1) streams (omega arith) in
        elim (Bool-cases (is_running stream)) [
          | inl e ↦ rw (e, shut_streams) (ground (arith, ih))
          | inr e ↦ rw (e, shut_streams) ih
        ]

    zero-plus : (n : ℕ) → 0 + n ≡ n
    zero-plus n = omega arith

    shut_streams-count :
        (j k ordinal : ℕ) (streams : List (StreamContext F.Double))
        → j ≡ ordinal + k
        → tally (shutdowns_at j) (shut_streams F clock config accepts ordinal streams).1
          ≡ running_at k streams
    unfolding shut_streams is_running running_at
    shut_streams-count j k ordinal [] h = refl
    shut_streams-count j zero ordinal (stream ∷ streams) h =
        let ih = shut_streams_below j (ordinal + 1) streams (omega arith) in
        let here : (ordinal == j) ≡ true = (==_iff ordinal j).1 (omega arith) in
        elim (Bool-cases (is_running stream)) [
          | inl e ↦ rw (e, here, shut_streams) (omega (arith, ih))
          | inr e ↦ rw (e, shut_streams) ih
        ]
    shut_streams-count j (suc k) ordinal (stream ∷ streams) h =
        let ih = shut_streams-count j k (ordinal + 1) streams (omega arith) in
        let other : (ordinal == j) ≡ false = ground arith in
        elim (Bool-cases (is_running stream)) [
          | inl e ↦ rw (e, other, shut_streams) (zero-plus _ ∙ ih)
          | inr e ↦ rw (e, shut_streams) ih
        ]

    -- Once sending was stopped, at the end of PumpSends of the QUIC client: either each stream
    -- that is not closed got as many echoes as it made messages, and every stream that was running
    -- is shut down once, no other stream is, and none is left running; or some stream did not, and
    -- nothing changes.
    pub shut_drained-running :
        (s : QuicClient F.Double)
        → s.stop_sending ≡ true
        → let r = shut_drained F clock config accepts s in
          let streams = s.connection.stream_contexts in
          (AreEchoed streams
            × (any_running r.connection.stream_contexts ≡ false)
            × ((j : ℕ)
                → tally (shutdowns_at j) r.calls
                  ≡ tally (shutdowns_at j) s.calls + running_at j streams))
          ⊎ (¬ AreEchoed streams × (r ≡ s))
    unfolding shut_drained set_streams
    shut_drained-running s stop =
        let streams = s.connection.stream_contexts in
        let l = shut_streams F clock config accepts 0 streams in
        elim (Bool-cases (streams_drained streams)) [
          | inl e ↦
              let both : (s.stop_sending && streams_drained streams) ≡ true = ground arith in
              rw (both, shut_drained)
                (inl (
                  streams_drained_sound streams e,
                  shut_streams-running 0 streams,
                  λ j.
                      tally-append (shutdowns_at j) s.calls l.1
                      ∙ ap (λ k. tally (shutdowns_at j) s.calls + k)
                          (shut_streams-count j j 0 streams (omega arith)),
                ))
          | inr e ↦
              let both : (s.stop_sending && streams_drained streams) ≡ false = ground arith in
              let d : ¬ AreEchoed streams = λ v. let k = streams_drained_complete streams v in cc in
              rw (both, shut_drained) (inr (d, refl))
        ]
