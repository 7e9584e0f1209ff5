-- ===== src/LoadClient/Receive/Stream.antt =====
-- The echoes of a stream, cut into any callbacks: the whole of the client's `OnData`.
use proto_test_msquic.Prelude.{
  ℕ, ◌+◌, ◌^◌, ◌<◌, ◌≡◌, refl, ap, sym, ◌∙◌, Bool, true, false, inl, inr, Bool-cases, List, [], ◌∷◌,
  ◌++◌, Option, none, some, length, length-append, append-nil, concat, All, arith,
}
use proto_test_msquic.Prelude.Float.{Float64}
use proto_test_msquic.Config.Profiles.{StreamProfile}
use proto_test_msquic.Config.Load.{AppConfig, is_empty}
use proto_test_msquic.Frame.{Bytes, need_more, drain, collect}
use proto_test_msquic.Frame.Peek.{IsFrame, peek_short}
use proto_test_msquic.Frame.Loop.{drain_stop}
use proto_test_msquic.Frame.Chunks.{IsDrained, drain-IsDrained, drain-concat}
use proto_test_msquic.Frame.Collected.{drain-chunk}
use proto_test_msquic.Stats.{add64}
use proto_test_msquic.LoadClient.{ClientStream, Client, ClientError}
use proto_test_msquic.LoadClient.Profile.{stream_profile_for_ordinal}
use proto_test_msquic.LoadClient.Pacing.{is_paced}
use proto_test_msquic.LoadClient.Receive.{receive, on_data, no_limit}
use proto_test_msquic.LoadClient.Receive.Chunks.{
  stream_of, after_frames, receive_on_drained, receive_profiled,
}
use proto_test_msquic.LoadClient.Receive.Pumped.{AreReceived, AreReceived-refl, pump_sends_accepted}

module _ (F : Float64) (clock : ℕ → ℕ) (config : AppConfig) (accepts : ℕ → ℕ → Bytes → Bool)
    (shuts : ℕ → Bool) (c i : ℕ) where
  -- A stream's bytes in several callbacks, up to the first that throws.
  pub on_chunks : List Bytes → Client F.Double → Client F.Double × Option ClientError
  on_chunks [] s = (s, none)
  on_chunks (chunk ∷ chunks) s =
      let r = on_data F clock config accepts shuts c i chunk s in
      let rest = on_chunks chunks r.0 in elim r.1 [ none ↦ rest | some e ↦ (r.0, some e) ]

  -- The stream has a profile, and holds the bytes and the echoes that are given; the counters are
  -- 64-bit words.
  pub record Holds (profile : StreamProfile) (b : Bytes) (n : ℕ) (m : ℕ) (s : Client F.Double)
      : Type 0 where
    pub profile_is : (stream_of F c i s).profile ≡ profile
    pub buffer_is : (stream_of F c i s).receive_buffer ≡ b
    pub echoes_are : (stream_of F c i s).echoed_messages ≡ n
    pub received_are : s.stats.recv_messages ≡ m

  module _ (accepted : (i j : ℕ) (w : Bytes) → accepts i j w ≡ true)
      (shut : (i : ℕ) → shuts i ≡ true) (streams_given : 0 < config.stream_count)
      (profiled : (i : ℕ)
        → i < config.stream_count
        → (p : StreamProfile) × (stream_profile_for_ordinal config i ≡ some p)) where
    on_data_after :
        (bytes : Bytes) (s : Client F.Double)
        → let r = receive F clock config c i bytes s in
          let t = on_data F clock config accepts shuts c i bytes s in
          r.1 ≡ none → (t.1 ≡ none) × AreReceived F c r.0 t.0
    unfolding on_data
    on_data_after bytes s e =
        let r = receive F clock config c i bytes s in
        let pumped =
          pump_sends_accepted F clock config accepts shuts accepted shut c streams_given profiled
            no_limit r.0 in
        elim (Bool-cases (is_paced config)) [
          | inl p ↦ rw (e, p, on_data) (e, AreReceived-refl F c r.0)
          | inr p ↦ rw (e, p, on_data) pumped
        ]

    receive_drained :
        (bytes : Bytes) (s : Client F.Double) (profile : StreamProfile) (b : Bytes) (n m : ℕ)
        → is_empty profile.name ≡ false
        → n < 2 ^ 64
        → m < 2 ^ 64
        → Holds profile b n m s
        → let q = drain collect profile.message_size (b ++ bytes) [] in
          let t = receive F clock config c i bytes s in
          q.stop ≡ need_more
          → (t.1 ≡ none)
            × Holds profile q.buffer (add64 n (length q.state)) (add64 m (length q.state)) t.0
    receive_drained bytes s profile b n m named h k v d =
        let stream = stream_of F c i s in
        let q = drain collect profile.message_size (b ++ bytes) [] in
        let same : drain collect stream.profile.message_size (stream.receive_buffer ++ bytes) []
            ≡ q =
          rw (v.profile_is, v.buffer_is) refl in
        let one =
          receive_on_drained F clock config c i bytes stream s (rw v.echoes_are h)
            (rw v.received_are k) (ap (λ x. x.stop) same ∙ d) in
        let by_stream =
          receive_profiled F clock config c i bytes s
            (ap (λ (p : StreamProfile). is_empty p.name) v.profile_is ∙ named) in
        let after : stream_of F c i (receive F clock config c i bytes s).0
            ≡ after_frames F stream (length q.state) q.buffer =
          ap (λ (x : Client F.Double × Option ClientError). stream_of F c i x.0) by_stream
          ∙ one.1
          ∙ ap (λ x. after_frames F stream (length x.state) x.buffer) same in
        (
          ap (λ (x : Client F.Double × Option ClientError). x.1) by_stream ∙ one.0,
          record {
            profile_is = ap (λ (x : ClientStream F.Double). x.profile) after ∙ v.profile_is;
            buffer_is = ap (λ (x : ClientStream F.Double). x.receive_buffer) after;
            echoes_are =
                ap (λ (x : ClientStream F.Double). x.echoed_messages) after
                ∙ ap (λ x. add64 x (length q.state)) v.echoes_are;
            received_are =
                ap (λ (x : Client F.Double × Option ClientError). x.0.stats.recv_messages) by_stream
                ∙ one.2
                ∙ ap (λ x. add64 s.stats.recv_messages (length x.state)) same
                ∙ ap (λ x. add64 x (length q.state)) v.received_are;
          },
        )

    pub AreReceived-Holds :
        (profile : StreamProfile) (b : Bytes) (n m : ℕ) (s t : Client F.Double)
        → is_empty profile.name ≡ false
        → AreReceived F c s t
        → Holds profile b n m s
        → Holds profile b n m t
    AreReceived-Holds profile b n m s t named a v =
        let k = a.kept i in
        let e = ap (λ (p : StreamProfile). is_empty p.name) v.profile_is ∙ named in
        record {
          profile_is = k.same_profile e ∙ v.profile_is;
          buffer_is = k.same_buffer ∙ v.buffer_is;
          echoes_are = k.same_echoes ∙ v.echoes_are;
          received_are = a.received ∙ v.received_are;
        }

    on_data_drained :
        (bytes : Bytes) (s : Client F.Double) (profile : StreamProfile) (b : Bytes) (n m : ℕ)
        → is_empty profile.name ≡ false
        → n < 2 ^ 64
        → m < 2 ^ 64
        → Holds profile b n m s
        → let q = drain collect profile.message_size (b ++ bytes) [] in
          let t = on_data F clock config accepts shuts c i bytes s in
          q.stop ≡ need_more
          → (t.1 ≡ none)
            × Holds profile q.buffer (add64 n (length q.state)) (add64 m (length q.state)) t.0
    on_data_drained bytes s profile b n m named h k v d =
        let one = receive_drained bytes s profile b n m named h k v d in
        let after = on_data_after bytes s one.0 in
        (
          after.0,
          AreReceived-Holds profile _ _ _ (receive F clock config c i bytes s).0
              (on_data F clock config accepts shuts c i bytes s).0 named after.1 one.1,
        )

    after_chunk :
        (chunk : Bytes) (chunks : List Bytes) (s : Client F.Double)
        → (on_data F clock config accepts shuts c i chunk s).1 ≡ none
        → on_chunks (chunk ∷ chunks) s
          ≡ on_chunks chunks (on_data F clock config accepts shuts c i chunk s).0
    unfolding on_chunks
    after_chunk chunk chunks s e = rw (e, on_chunks)

    -- If the loop over all the bytes at once ends for want of more, the callbacks together count
    -- what it collects and leave in the buffer what it leaves.
    on_chunks_drained :
        (chunks : List Bytes) (s : Client F.Double) (profile : StreamProfile) (b : Bytes) (n m : ℕ)
        → is_empty profile.name ≡ false
        → n < 2 ^ 64
        → m < 2 ^ 64
        → Holds profile b n m s
        → IsDrained profile.message_size b
        → let q = drain collect profile.message_size (b ++ concat chunks) [] in
          let t = on_chunks chunks s in
          q.stop ≡ need_more
          → (t.1 ≡ none)
            × Holds profile q.buffer (add64 n (length q.state)) (add64 m (length q.state)) t.0
    unfolding on_chunks
    on_chunks_drained [] s profile b n m named h k v d stop =
        let none_more : (x : ℕ) → x < 2 ^ 64 → add64 x 0 ≡ x = λ x g. omega arith in
        rw
          (
            append-nil b,
            drain_stop collect profile.message_size b [] d,
            none_more n h,
            none_more m k,
          )
          (refl, v)
    on_chunks_drained (chunk ∷ chunks) s profile b n m named h k v d stop =
        let size = profile.message_size in
        let r1 = drain collect size (b ++ chunk) [] in
        let r2 = drain collect size (r1.buffer ++ concat chunks) [] in
        let cut = drain-chunk size b chunk (concat chunks) stop in
        let one = on_data_drained chunk s profile b n m named h k v cut.0 in
        let s1 = (on_data F clock config accepts shuts c i chunk s).0 in
        let ih =
          on_chunks_drained chunks s1 profile r1.buffer (add64 n (length r1.state))
            (add64 m (length r1.state)) named (omega arith) (omega arith) one.1
            (drain-IsDrained collect size (b ++ chunk) [] cut.0)
            (sym (ap (λ x. x.stop) cut.1) ∙ stop) in
        rw
          (
            after_chunk chunk chunks s one.0,
            cut.1,
            ← both n (length r1.state) (length r2.state) _ (length-append r1.state r2.state),
            ← both m (length r1.state) (length r2.state) _ (length-append r1.state r2.state),
          )
          ih
      where
        both : (e x y z : ℕ) → z ≡ x + y → add64 (add64 e x) y ≡ add64 e z
        both e x y z h = omega arith

    -- Where every SendCopy and CloseSend of the client returns, every stream of the configuration
    -- has a profile, and the stream has its own and an empty buffer: frames that come back cut
    -- into any chunks, with an incomplete frame behind them, raise the stream's echoes and the
    -- messages received by their number, modulo 2^64, with the pumping that goes on between the
    -- chunks; no callback throws, the buffer keeps the incomplete frame, and the profile stays.
    pub on_chunks_counted :
        (chunks frames : List Bytes) (tail : Bytes) (profile : StreamProfile) (n m : ℕ)
        (s : Client F.Double)
        → is_empty profile.name ≡ false
        → n < 2 ^ 64
        → m < 2 ^ 64
        → Holds profile [] n m s
        → concat chunks ≡ concat frames ++ tail
        → All (IsFrame profile.message_size) frames
        → IsDrained profile.message_size tail
        → let t = on_chunks chunks s in
          (t.1 ≡ none) × Holds profile tail (add64 n (length frames)) (add64 m (length frames)) t.0
    on_chunks_counted chunks frames tail profile n m s named h k v cut framed d =
        let size = profile.message_size in
        let all : drain collect size (concat chunks) []
            ≡ record { state = frames; buffer = tail; stop = need_more } =
          ap (λ x. drain collect size x []) cut
          ∙ drain-concat size frames tail [] framed
          ∙ drain_stop collect size tail frames d in
        let r =
          on_chunks_drained chunks s profile [] n m named h k v (peek_short size [] (omega arith))
            (ap (λ x. x.stop) all) in
        rw all at r
