-- ===== src/QuicClient/Window.antt =====
-- The window of the QUIC client's streams: `next_sequence - echoed_messages` against
-- `max_inflight`.
pub mod Echoes
use proto_test_msquic.Prelude.{
  ℕ, zero, suc, ◌+◌, ◌%◌, ◌^◌, ◌≤◌, ◌<◌, ◌≡◌, refl, sym, ap, subst, ◌∙◌, ◌⊎◌, inl, inr, Bool, true,
  false, ◌&&◌, ◌||◌, not, Bool-cases, Option-cases, if_preserves, List, [], ◌∷◌, ◌++◌, none, some,
  length, concat, get_elem?, set, get_elem?-set_self, some_injective, All, All-set, All-get_elem?,
  ltb, leb, arith,
}
use proto_test_msquic.Prelude.Float.{Float64}
use proto_test_msquic.Config.Load.{AppConfig, is_empty}
use proto_test_msquic.Config.Load.Active.{should_send_on_connection}
use proto_test_msquic.Frame.{Bytes}
use proto_test_msquic.Stats.{add64}
use proto_test_msquic.QuicClient.{
  StreamContext, ClientCall, QuicClient, set_streams, set_stream, streams_drained,
}
use proto_test_msquic.QuicClient.Send.{
  Choice, selected, skipped, SendStop, done, refused, out_of_fuel, inflight, pace_stream,
  try_candidate, try_ordinal, choose_stream, pace_connection, send_on, send_selected, send_loop,
  shut_streams, shut_drained, finish_pump, pump_sends,
}
use proto_test_msquic.QuicClient.Send.Bounds.{Choice-cases}

module _ (F : Float64) where
  -- A stream has at most as many messages in flight as its profile allows, and its counters are
  -- 64-bit words.
  pub record IsWindowed (stream : StreamContext F.Double) : Type 0 where
    pub within : inflight F stream ≤ stream.profile.max_inflight
    pub sequence_fits : stream.next_sequence < 2 ^ 64
    pub echoed_fits : stream.echoed_messages < 2 ^ 64

  abbrev pub AreWindowed : QuicClient F.Double → Type 0
  AreWindowed s = All IsWindowed s.connection.stream_contexts

  -- What the window reads of a stream.
  pub IsWindowed-same :
      (s t : StreamContext F.Double)
      → t.profile ≡ s.profile
      → t.next_sequence ≡ s.next_sequence
      → t.echoed_messages ≡ s.echoed_messages
      → IsWindowed s
      → IsWindowed t
  unfolding inflight
  IsWindowed-same s t e f g v = record {
    within = rw (e, f, g) v.within;
    sequence_fits = rw f v.sequence_fits;
    echoed_fits = rw g v.echoed_fits;
  }

  HasRoom : StreamContext F.Double → Type 0
  HasRoom stream = inflight F stream < stream.profile.max_inflight

  module _ (clock : ℕ → ℕ) (config : AppConfig) where
    pace_stream-same :
        (stream : StreamContext F.Double) (reads : ℕ)
        → let t = (pace_stream F clock config stream reads).1.0 in
          (t.profile ≡ stream.profile)
          × (t.next_sequence ≡ stream.next_sequence)
          × (t.echoed_messages ≡ stream.echoed_messages)
    unfolding pace_stream
    pace_stream-same stream reads = elim (Bool-cases (ltb 0 stream.profile.send_pps)) [
      | inl e ↦ rw (e, pace_stream) (refl, refl, refl)
      | inr e ↦ rw (e, pace_stream) (refl, refl, refl)
    ]

    HasRoom-same :
        (s t : StreamContext F.Double)
        → (t.profile ≡ s.profile)
          × (t.next_sequence ≡ s.next_sequence)
          × (t.echoed_messages ≡ s.echoed_messages)
        → leb s.profile.max_inflight (inflight F s) ≡ false
        → HasRoom t
    unfolding inflight HasRoom
    HasRoom-same s t same free = rw (same.0, same.1, same.2) (ground arith)

    -- A chosen stream has room for a message.
    Chosen : QuicClient F.Double × Choice → Type 0
    Chosen (s, skipped) = AreWindowed s
    Chosen (s, selected i) =
        AreWindowed s
        × ((stream : StreamContext F.Double)
            → get_elem? s.connection.stream_contexts i ≡ some stream
            → HasRoom stream)

    try_candidate-Chosen :
        (ordinal : ℕ) (candidate : StreamContext F.Double) (s : QuicClient F.Double)
        → get_elem? s.connection.stream_contexts ordinal ≡ some candidate
        → AreWindowed s
        → Chosen (try_candidate F clock config ordinal candidate s)
    unfolding try_candidate Chosen set_stream set_streams
    try_candidate-Chosen ordinal candidate s at v =
        let streams = s.connection.stream_contexts in
        let paced = (pace_stream F clock config candidate s.clock_reads).1.0 in
        let same = pace_stream-same candidate s.clock_reads in
        let windowed : IsWindowed paced =
          IsWindowed-same candidate paced same.0 same.1 same.2
            (All-get_elem? IsWindowed streams ordinal candidate v at) in
        let kept : All IsWindowed (set streams ordinal paced) =
          All-set IsWindowed streams ordinal paced windowed v in
        let passes =
          not candidate.stream_started || (candidate.shutdown_started || candidate.closed) in
        let gate = (pace_stream F clock config candidate s.clock_reads).0 in
        elim (Bool-cases passes) [
          | inl p ↦ rw (p, try_candidate) v
          | inr p ↦ elim (Bool-cases (leb candidate.profile.max_inflight (inflight F candidate))) [
            | inl full ↦ rw (p, full, try_candidate) v
            | inr free ↦ elim (Bool-cases (not gate || is_empty candidate.profile.name)) [
              | inl shut ↦ rw (p, free, shut, try_candidate) kept
              | inr open_gate ↦
                  rw (p, free, open_gate, try_candidate)
                    (
                      kept,
                      λ stream e.
                          subst HasRoom
                            (some_injective
                              (sym (get_elem?-set_self streams ordinal candidate paced at) ∙ e))
                            (HasRoom-same candidate paced same free),
                    )
            ]
          ]
        ]

    try_ordinal-Chosen :
        (ordinal : ℕ) (s : QuicClient F.Double)
        → AreWindowed s
        → Chosen (try_ordinal F clock config ordinal s)
    unfolding try_ordinal Chosen
    try_ordinal-Chosen ordinal s v =
        elim (Option-cases (get_elem? s.connection.stream_contexts ordinal)) [
          | inl e ↦ rw (e, try_ordinal) v
          | inr (candidate, e) ↦ rw (e, try_ordinal) (try_candidate-Chosen ordinal candidate s e v)
        ]

    Chosen-AreWindowed : (r : QuicClient F.Double × Choice) → Chosen r → AreWindowed r.0
    unfolding Chosen
    Chosen-AreWindowed (s, skipped) v = v
    Chosen-AreWindowed (s, selected i) v = v.0

    choose_stream-Chosen :
        (left attempt : ℕ) (s : QuicClient F.Double)
        → AreWindowed s
        → Chosen (choose_stream F clock config left attempt s)
    unfolding choose_stream Chosen
    choose_stream-Chosen zero attempt s v = v
    choose_stream-Chosen (suc left) attempt s v =
        let ordinal =
          (s.connection.next_send_stream_ordinal + attempt)
          % 2 ^ 32
          % length s.connection.stream_contexts in
        let r = try_ordinal F clock config ordinal s in
        let one = try_ordinal-Chosen ordinal s v in
        elim (Choice-cases r.1) [
          | inl (i, e) ↦ rw (e, choose_stream) one
          | inr e ↦
              rw (e, choose_stream)
                (choose_stream-Chosen left (attempt + 1) r.0 (Chosen-AreWindowed r one))
        ]

    room_at :
        (r : QuicClient F.Double × Choice) (i : ℕ)
        → r.1 ≡ selected i
        → Chosen r
        → Chosen (r.0, selected i)
    room_at (s, c) i e v = subst (λ x. Chosen (s, x)) e v

    after_send :
        (stream : StreamContext F.Double)
        → HasRoom stream
        → IsWindowed stream
        → IsWindowed (record stream { next_sequence = add64 stream.next_sequence 1 })
    unfolding inflight HasRoom
    after_send stream room v = record {
      within = omega (arith, v.sequence_fits, v.echoed_fits);
      sequence_fits = omega arith;
      echoed_fits = v.echoed_fits;
    }

    pace_connection-streams :
        (s : QuicClient F.Double)
        → (pace_connection F clock config s).1.connection.stream_contexts
          ≡ s.connection.stream_contexts
    unfolding pace_connection
    pace_connection-streams s = ground arith

    module _ (accepts : ℕ → Bytes → Bool) where
      send_on-AreWindowed :
          (ordinal : ℕ) (stream : StreamContext F.Double) (s : QuicClient F.Double)
          → HasRoom stream
          → IsWindowed stream
          → AreWindowed s
          → AreWindowed (send_on F clock config accepts ordinal stream s).0
      unfolding send_on set_stream set_streams
      send_on-AreWindowed ordinal stream s room w v =
          if_preserves (λ (x : QuicClient F.Double × Bool). AreWindowed x.0) _ _ _
            (All-set IsWindowed _ ordinal _ (after_send stream room w) v)
            (All-set IsWindowed _ ordinal _ (after_send stream room w) v)

      send_selected-AreWindowed :
          (ordinal : ℕ) (s : QuicClient F.Double)
          → Chosen (s, selected ordinal)
          → AreWindowed (send_selected F clock config accepts ordinal s).0
      unfolding send_selected Chosen
      send_selected-AreWindowed ordinal s v =
          elim (Option-cases (get_elem? s.connection.stream_contexts ordinal)) [
            | inl e ↦ rw (e, send_selected) v.0
            | inr (stream, e) ↦
                rw (e, send_selected)
                  (send_on-AreWindowed ordinal stream s (v.1 stream e)
                    (All-get_elem? IsWindowed s.connection.stream_contexts ordinal stream v.0 e)
                    v.0)
          ]

      send_loop-AreWindowed :
          (max_messages fuel count : ℕ) (s : QuicClient F.Double)
          → AreWindowed s
          → AreWindowed (send_loop F clock config accepts max_messages fuel count s).0
      unfolding send_loop
      send_loop-AreWindowed max_messages zero count s v = v
      send_loop-AreWindowed max_messages (suc fuel) count s v =
          let g = pace_connection F clock config s in
          let c = choose_stream F clock config (length g.1.connection.stream_contexts) 0 g.1 in
          let start : AreWindowed g.1 =
            subst (All IsWindowed) (sym (pace_connection-streams s)) v in
          let chosen = choose_stream-Chosen (length g.1.connection.stream_contexts) 0 g.1 start in
          elim (Bool-cases (
            should_send_on_connection config s.connection.index
            && (ltb count max_messages && not s.stop_sending))) [
              | inr e ↦ rw (e, send_loop) v
              | inl e ↦ elim (Bool-cases g.0) [
                | inr h ↦ rw (e, h, send_loop) start
                | inl h ↦ elim (Choice-cases c.1) [
                  | inr t ↦ rw (e, h, t, send_loop) (Chosen-AreWindowed c chosen)
                  | inl (i, t) ↦
                      let u = send_selected F clock config accepts i c.0 in
                      let sent = send_selected-AreWindowed i c.0 (room_at c i t chosen) in
                      elim (Bool-cases u.1) [
                        | inr a ↦ rw (e, h, t, a, send_loop) sent
                        | inl a ↦
                            rw (e, h, t, a, send_loop)
                              (send_loop-AreWindowed max_messages fuel (count + 1) u.0 sent)
                      ]
                ]
              ]
            ]

      shut_streams-IsWindowed :
          (ordinal : ℕ) (streams : List (StreamContext F.Double))
          → All IsWindowed streams
          → All IsWindowed (shut_streams F clock config accepts ordinal streams).0
      unfolding shut_streams
      shut_streams-IsWindowed ordinal [] v = tt
      shut_streams-IsWindowed ordinal (stream ∷ streams) v =
          let ih = shut_streams-IsWindowed (ordinal + 1) streams v.1 in
          let rest = (shut_streams F clock config accepts (ordinal + 1) streams).0 in
          let ended = record stream { shutdown_started = true } in
          let shut : All IsWindowed (ended ∷ rest) =
            (IsWindowed-same stream ended refl refl refl v.0, ih) in
          let left : All IsWindowed (stream ∷ rest) = (v.0, ih) in
          elim (Bool-cases
            (not stream.shutdown_started && (not stream.closed && stream.stream_started))) [
              | inl e ↦ rw (e, shut_streams) shut
              | inr e ↦ rw (e, shut_streams) left
            ]

      shut_drained-AreWindowed :
          (s : QuicClient F.Double)
          → AreWindowed s
          → AreWindowed (shut_drained F clock config accepts s)
      unfolding shut_drained set_streams
      shut_drained-AreWindowed s v =
          if_preserves AreWindowed _ _ _ (shut_streams-IsWindowed 0 s.connection.stream_contexts v)
            v

      finish_pump-AreWindowed :
          (r : QuicClient F.Double × (ℕ × SendStop))
          → AreWindowed r.0
          → AreWindowed (finish_pump F clock config accepts r).0
      unfolding finish_pump
      finish_pump-AreWindowed (s, (count, done)) v = shut_drained-AreWindowed s v
      finish_pump-AreWindowed (s, (count, refused)) v = v
      finish_pump-AreWindowed (s, (count, out_of_fuel)) v = v

      -- PumpSends of the QUIC client keeps every stream within its profile's max_inflight and its
      -- counters within 64 bits, in every state and whatever MsQuic accepts.
      pub pump_sends-AreWindowed :
          (max_messages : ℕ) (s : QuicClient F.Double)
          → AreWindowed s
          → AreWindowed (pump_sends F clock config accepts max_messages s).0
      unfolding pump_sends
      pump_sends-AreWindowed max_messages s v =
          finish_pump-AreWindowed _ (send_loop-AreWindowed max_messages (suc max_messages) 0 s v)
