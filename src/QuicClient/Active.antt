-- ===== src/QuicClient/Active.antt =====
-- The QUIC client's sending and its opening of streams, as far as `active_connections_` is concerned.
use proto_test_msquic.Prelude.{
  ℕ, zero, suc, ◌+◌, ◌%◌, ◌^◌, ◌≡◌, refl, ap, ◌∙◌, inl, inr, Bool, true, false, ◌&&◌, not, List, [],
  ◌∷◌, ◌++◌, Option, none, some, ltb, Option-cases, tally, tally-append, get_elem?, length,
  if_preserves, arith,
}
use proto_test_msquic.Prelude.Float.{Float64}
use proto_test_msquic.Config.Load.{AppConfig}
use proto_test_msquic.Config.Load.Active.{should_send_on_connection}
use proto_test_msquic.Frame.{Bytes}
use proto_test_msquic.QuicClient.{
  StreamContext, ClientCall, stream_send, stream_shutdown, stream_close, connection_shutdown,
  connection_close, QuicClient, call, set_streams, set_stream, streams_drained,
}
use proto_test_msquic.QuicClient.Send.{
  Choice, selected, skipped, SendStop, done, refused, out_of_fuel, try_candidate, try_ordinal,
  choose_stream, pace_connection, send_on, send_selected, send_loop, shut_streams, shut_drained,
  finish_pump, pump_sends, request_stop_sending, open_streams, start_streams,
}
use proto_test_msquic.LoadClient.Pacing.{is_paced}
use proto_test_msquic.LoadClient.Profile.{stream_profile_for_ordinal}

-- The calls of `ConnectionClose`.
unfoldable pub close_calls : ClientCall → ℕ
close_calls connection_close = 1
close_calls (connection_shutdown e) = 0
close_calls (stream_send i b) = 0
close_calls (stream_shutdown i) = 0
close_calls (stream_close i) = 0

-- What only the end of a connection changes: the number of active connections, the mark of the
-- connection at hand, and the calls of `ConnectionClose`.
abbrev pub accounts : {D : Type 0} → QuicClient D → ℕ × (Bool × ℕ)
accounts s = (s.active_connections, (s.connection.closed, tally close_calls s.calls))

pub call-accounts :
    {D : Type 0} (c : ClientCall) (s : QuicClient D)
    → close_calls c ≡ 0
    → accounts (call c s) ≡ accounts s
call-accounts c s h =
    ap (λ n. (s.active_connections, (s.connection.closed, n)))
      (omega (arith, h, tally-append close_calls s.calls (c ∷ [])))

-- Calls of other kinds, beside changes that do not count.
calls-accounts :
    {D : Type 0} (cs : List ClientCall) (s : QuicClient D)
    → tally close_calls cs ≡ 0
    → let after : ℕ × (Bool × ℕ) =
        (s.active_connections, (s.connection.closed, tally close_calls (s.calls ++ cs))) in
      after ≡ accounts s
calls-accounts cs s h =
    ap (λ n. (s.active_connections, (s.connection.closed, n)))
      (omega (arith, h, tally-append close_calls s.calls cs))

module _ (F : Float64) (clock : ℕ → ℕ) (config : AppConfig) where
  try_candidate-accounts :
      (i : ℕ) (c : StreamContext F.Double) (s : QuicClient F.Double)
      → accounts (try_candidate F clock config i c s).0 ≡ accounts s
  unfolding try_candidate set_stream set_streams
  try_candidate-accounts i c s = ground arith

  try_option-accounts :
      (i : ℕ) (o : Option (StreamContext F.Double)) (s : QuicClient F.Double)
      → let t : QuicClient F.Double × Choice = elim o [
        | none ↦ (s, skipped)
        | some c ↦ try_candidate F clock config i c s
      ] in
        accounts t.0 ≡ accounts s
  try_option-accounts i none s = refl
  try_option-accounts i (some c) s = try_candidate-accounts i c s

  choice-accounts :
      (c : Choice) (r rest : QuicClient F.Double × Choice) (s : QuicClient F.Double)
      → accounts r.0 ≡ accounts s
      → accounts rest.0 ≡ accounts r.0
      → let t : QuicClient F.Double × Choice = elim c [ selected i ↦ r | skipped ↦ rest ] in
        accounts t.0 ≡ accounts s
  choice-accounts (selected i) r rest s h k = h
  choice-accounts skipped r rest s h k = k ∙ h

  choose_stream-accounts :
      (left attempt : ℕ) (s : QuicClient F.Double)
      → accounts (choose_stream F clock config left attempt s).0 ≡ accounts s
  unfolding choose_stream try_ordinal
  choose_stream-accounts zero attempt s = refl
  choose_stream-accounts (suc left) attempt s =
      let i =
        (s.connection.next_send_stream_ordinal + attempt)
        % 2 ^ 32
        % length s.connection.stream_contexts in
      let r = try_ordinal F clock config i s in
      choice-accounts r.1 r (choose_stream F clock config left (attempt + 1) r.0) s
        (try_option-accounts i (get_elem? s.connection.stream_contexts i) s)
        (choose_stream-accounts left (attempt + 1) r.0)

  pace_connection-accounts :
      (s : QuicClient F.Double) → accounts (pace_connection F clock config s).1 ≡ accounts s
  unfolding pace_connection
  pace_connection-accounts s =
      if_preserves (λ (x : Bool × QuicClient F.Double). accounts x.1 ≡ accounts s) (is_paced config)
        _ _ refl refl

  module _ (accepts : ℕ → Bytes → Bool) where
    send_on-accounts :
        (i : ℕ) (stream : StreamContext F.Double) (s : QuicClient F.Double)
        → accounts (send_on F clock config accepts i stream s).0 ≡ accounts s
    unfolding send_on set_stream set_streams close_calls
    send_on-accounts i stream s =
        if_preserves (λ (x : QuicClient F.Double × Bool). accounts x.0 ≡ accounts s) (accepts i _) _
          _ (calls-accounts (stream_send i _ ∷ []) s refl)
          (calls-accounts (connection_shutdown 1 ∷ []) s refl)

    send_selected-accounts :
        (i : ℕ) (s : QuicClient F.Double)
        → accounts (send_selected F clock config accepts i s).0 ≡ accounts s
    unfolding send_selected
    send_selected-accounts i s = go (get_elem? s.connection.stream_contexts i)
      where
        go :
            (o : Option (StreamContext F.Double))
            → let t : QuicClient F.Double × Bool = elim o [
              | none ↦ (s, false)
              | some stream ↦ send_on F clock config accepts i stream s
            ] in
              accounts t.0 ≡ accounts s
        go none = refl
        go (some stream) = send_on-accounts i stream s

    -- The branches of a round of the loop, given its gates, its choice and the states they leave.
    sent-accounts :
        (sent : Bool) (most fuel count : ℕ) (t s : QuicClient F.Double)
        → accounts t ≡ accounts s
        → ((n : ℕ) (u : QuicClient F.Double)
            → accounts (send_loop F clock config accepts most fuel n u).0 ≡ accounts u)
        → let r : QuicClient F.Double × (ℕ × SendStop) = elim sent [
          | true ↦ send_loop F clock config accepts most fuel (count + 1) t
          | false ↦ (t, (count, refused))
        ] in
          accounts r.0 ≡ accounts s
    sent-accounts true most fuel count t s h ih = ih (count + 1) t ∙ h
    sent-accounts false most fuel count t s h ih = h

    round-accounts :
        (goes paced : Bool) (c : Choice) (most fuel count : ℕ) (s g r : QuicClient F.Double)
        → accounts g ≡ accounts s
        → accounts r ≡ accounts g
        → ((n : ℕ) (u : QuicClient F.Double)
            → accounts (send_loop F clock config accepts most fuel n u).0 ≡ accounts u)
        → let z : QuicClient F.Double × (ℕ × SendStop) = elim goes [
          | false ↦ (s, (count, done))
          | true ↦ elim paced [
            | false ↦ (g, (count, done))
            | true ↦ elim c [
              | skipped ↦ (r, (count, done))
              | selected ordinal ↦
                  let t = send_selected F clock config accepts ordinal r in
                  elim t.1 [
                    | true ↦ send_loop F clock config accepts most fuel (count + 1) t.0
                    | false ↦ (t.0, (count, refused))
                  ]
            ]
          ]
        ] in
          accounts z.0 ≡ accounts s
    round-accounts false paced c most fuel count s g r hg hr ih = refl
    round-accounts true false c most fuel count s g r hg hr ih = hg
    round-accounts true true skipped most fuel count s g r hg hr ih = hr ∙ hg
    round-accounts true true (selected i) most fuel count s g r hg hr ih =
        let t = send_selected F clock config accepts i r in
        sent-accounts t.1 most fuel count t.0 s (send_selected-accounts i r ∙ (hr ∙ hg)) ih

    send_loop-accounts :
        (most fuel count : ℕ) (s : QuicClient F.Double)
        → accounts (send_loop F clock config accepts most fuel count s).0 ≡ accounts s
    unfolding send_loop
    send_loop-accounts most zero count s = refl
    send_loop-accounts most (suc fuel) count s =
        let g = pace_connection F clock config s in
        let streams = length g.1.connection.stream_contexts in
        let c = choose_stream F clock config streams 0 g.1 in
        round-accounts
          (should_send_on_connection config s.connection.index
            && (ltb count most && not s.stop_sending))
          g.0 c.1 most fuel count s g.1 c.0 (pace_connection-accounts s)
          (choose_stream-accounts streams 0 g.1) (send_loop-accounts most fuel)

    shut_streams-closes :
        (i : ℕ) (streams : List (StreamContext F.Double))
        → tally close_calls (shut_streams F clock config accepts i streams).1 ≡ 0
    unfolding shut_streams close_calls
    shut_streams-closes i [] = refl
    shut_streams-closes i (stream ∷ streams) =
        let ih = shut_streams-closes (i + 1) streams in ground (arith, ih)

    shut_drained-accounts :
        (s : QuicClient F.Double) → accounts (shut_drained F clock config accepts s) ≡ accounts s
    unfolding shut_drained set_streams
    shut_drained-accounts s =
        let r = shut_streams F clock config accepts 0 s.connection.stream_contexts in
        if_preserves (λ (x : QuicClient F.Double). accounts x ≡ accounts s)
          (s.stop_sending && streams_drained s.connection.stream_contexts) _ _
          (calls-accounts r.1 s (shut_streams-closes 0 s.connection.stream_contexts)) refl

    finish_pump-accounts :
        (r : QuicClient F.Double × (ℕ × SendStop))
        → accounts (finish_pump F clock config accepts r).0 ≡ accounts r.0
    unfolding finish_pump
    finish_pump-accounts (s, (count, done)) = shut_drained-accounts s
    finish_pump-accounts (s, (count, refused)) = refl
    finish_pump-accounts (s, (count, out_of_fuel)) = refl

    pub pump_sends-accounts :
        (most : ℕ) (s : QuicClient F.Double)
        → accounts (pump_sends F clock config accepts most s).0 ≡ accounts s
    unfolding pump_sends
    pump_sends-accounts most s =
        finish_pump-accounts (send_loop F clock config accepts most (suc most) 0 s)
        ∙ send_loop-accounts most (suc most) 0 s

    pub request_stop_sending-accounts :
        (s : QuicClient F.Double)
        → accounts (request_stop_sending F clock config accepts s) ≡ accounts s
    unfolding request_stop_sending close_calls
    request_stop_sending-accounts s =
        if_preserves (λ (x : QuicClient F.Double). accounts x ≡ accounts s)
          (ltb 0 (length s.connection.stream_contexts)) _ _ (pump_sends-accounts 0 s)
          (if_preserves (λ (x : QuicClient F.Double). accounts x ≡ accounts s)
            s.connection.has_connection _ _ (call-accounts (connection_shutdown 0) s refl) refl)

  module _ (opens starts : ℕ → Bool) where
    open_streams-accounts :
        (left i : ℕ) (s : QuicClient F.Double)
        → accounts (open_streams F clock config opens starts left i s).0 ≡ accounts s
    unfolding open_streams set_streams close_calls
    open_streams-accounts zero i s = refl
    open_streams-accounts (suc left) i s =
        elim (Option-cases (stream_profile_for_ordinal config i)) [
          | inl e ↦ rw (e, open_streams) refl
          | inr (p, e) ↦
              let shut : accounts (call (connection_shutdown 1) s) ≡ accounts s =
                call-accounts (connection_shutdown 1) s refl in
              rw (e, open_streams)
                (if_preserves (λ (x : QuicClient F.Double × Bool). accounts x.0 ≡ accounts s)
                  (not (opens i)) _ _ shut
                  (if_preserves (λ (x : QuicClient F.Double × Bool). accounts x.0 ≡ accounts s)
                    (not (starts i)) _ _
                    (call-accounts (connection_shutdown 1) (call (stream_close i) s) refl
                      ∙ call-accounts (stream_close i) s refl)
                    (open_streams-accounts left (i + 1) _)))
        ]

    pub start_streams-accounts :
        (s : QuicClient F.Double)
        → accounts (start_streams F clock config opens starts s).0 ≡ accounts s
    unfolding start_streams
    start_streams-accounts s =
        if_preserves (λ (x : QuicClient F.Double × Bool). accounts x.0 ≡ accounts s)
          (ltb 0 (length s.connection.stream_contexts)) _ _ refl
          (open_streams-accounts config.stream_count 0 s)
