-- ===== src/LoadServer/Echo.antt =====
-- The server echoes every whole frame once, in order, however the bytes were cut into callbacks.
use proto_test_msquic.Prelude.{
  ℕ, ◌≡◌, refl, ap, sym, ◌∙◌, Bool, true, List, [], ◌∷◌, ◌++◌, Option, none, some, concat, All,
  append-nil, append_assoc, find_or-put_self, arith,
}
use proto_test_msquic.Config.Load.{AppConfig}
use proto_test_msquic.Frame.{Bytes, need_more, drain, collect}
use proto_test_msquic.Frame.Peek.{IsFrame, peek_short}
use proto_test_msquic.Frame.Loop.{drain_stop}
use proto_test_msquic.Frame.Chunks.{IsDrained, drain-IsDrained, drain-concat}
use proto_test_msquic.Frame.Collected.{drain-chunk}
use proto_test_msquic.LoadServer.{
  Server, ServerConnection, SendCall, HandlerError, buffer_of, buffer_of-connections, set_buffer,
  echo_frames, echo_or_throw, on_data,
}

-- The calls of `SendCopy` that echo the frames.
abbrev pub calls : ℕ → ℕ → List Bytes → List SendCall
calls c stream [] = []
calls c stream (w ∷ ws) =
    record { connection_id = c; stream_id = stream; data_bytes = w } ∷ calls c stream ws

calls-append :
    (c stream : ℕ) (xs ys : List Bytes)
    → calls c stream (xs ++ ys) ≡ calls c stream xs ++ calls c stream ys
calls-append c stream [] ys = refl
calls-append c stream (x ∷ xs) ys = cc (calls-append c stream xs ys)

module _ (accepts : ℕ → ℕ → Bytes → Bool) (config : AppConfig) (c stream : ℕ) where
  buffer_of-set_buffer :
      (bytes : Bytes) (s : Server) → buffer_of c stream (set_buffer c stream bytes s) ≡ bytes
  unfolding buffer_of set_buffer
  buffer_of-set_buffer bytes s =
      rw (find_or-put_self {V = ServerConnection} c) (find_or-put_self stream bytes [] _)

  sent-set_buffer : (bytes : Bytes) (s : Server) → (set_buffer c stream bytes s).sent ≡ s.sent
  unfolding set_buffer
  sent-set_buffer bytes s = refl

  -- Every call of `SendCopy` returns.
  module _ (accepted : (i j : ℕ) (w : Bytes) → accepts i j w ≡ true) where
    echo_frames_accepted :
        (ws : List Bytes) (s : Server)
        → let r = echo_frames accepts c stream ws s in
          (r.1 ≡ none)
          × (r.0.sent ≡ s.sent ++ calls c stream ws)
          × (r.0.connections ≡ s.connections)
    unfolding echo_frames
    echo_frames_accepted [] s = (refl, sym (append-nil s.sent), refl)
    echo_frames_accepted (w ∷ ws) s =
        let ih = echo_frames_accepted ws _ in
        rw (accepted c stream w) (ih.0, ih.1 ∙ append_assoc s.sent _ _, ih.2)

    echo_or_throw_accepted :
        (ws : List Bytes) (rest : Bytes) (s : Server)
        → let r =
            echo_or_throw accepts c stream
              (record { state = ws; buffer = rest; stop = need_more })
              s in
          (r.1 ≡ none)
          × (r.0.sent ≡ s.sent ++ calls c stream ws)
          × (r.0.connections ≡ s.connections)
    unfolding echo_or_throw
    echo_or_throw_accepted ws rest s = echo_frames_accepted ws s

    -- What one callback does when the loop ends for want of bytes.
    pub on_data_drained :
        (bytes : Bytes) (s : Server)
        → let r = drain collect config.message_size (buffer_of c stream s ++ bytes) [] in
          let t = on_data accepts config c stream bytes s in
          r.stop ≡ need_more
          → (t.1 ≡ none)
            × (t.0.sent ≡ s.sent ++ calls c stream r.state)
            × (buffer_of c stream t.0 ≡ r.buffer)
    unfolding on_data
    on_data_drained bytes s h =
        let r = drain collect config.message_size (buffer_of c stream s ++ bytes) [] in
        let e = echo_or_throw_accepted r.state r.buffer (set_buffer c stream r.buffer s) in
        rw h (
          e.0,
          e.1
              ∙ ap (λ (x : List SendCall). x ++ calls c stream r.state)
                  (sent-set_buffer r.buffer s),
          buffer_of-connections c stream _ _ e.2 ∙ buffer_of-set_buffer r.buffer s,
        )

    pub on_data_from :
        (bytes : Bytes) (s : Server) (b : Bytes)
        → buffer_of c stream s ≡ b
        → let r = drain collect config.message_size (b ++ bytes) [] in
          let t = on_data accepts config c stream bytes s in
          r.stop ≡ need_more
          → (t.1 ≡ none)
            × (t.0.sent ≡ s.sent ++ calls c stream r.state)
            × (buffer_of c stream t.0 ≡ r.buffer)
    on_data_from bytes s b e h = rw (← e) (on_data_drained bytes s (rw e h))

-- A stream's bytes in several callbacks, up to the first that throws.
module _ (accepts : ℕ → ℕ → Bytes → Bool) (config : AppConfig) (c stream : ℕ) where
  pub on_chunks : List Bytes → Server → Server × Option HandlerError
  on_chunks [] s = (s, none)
  on_chunks (chunk ∷ chunks) s =
      let r = on_data accepts config c stream chunk s in
      let rest = on_chunks chunks r.0 in elim r.1 [ none ↦ rest | some e ↦ (r.0, some e) ]

  module _ (accepted : (i j : ℕ) (w : Bytes) → accepts i j w ≡ true) where
    after_chunk :
        (chunk : Bytes) (chunks : List Bytes) (s : Server)
        → (on_data accepts config c stream chunk s).1 ≡ none
        → on_chunks (chunk ∷ chunks) s
          ≡ on_chunks chunks (on_data accepts config c stream chunk s).0
    unfolding on_chunks
    after_chunk chunk chunks s e = rw (e, on_chunks)

    -- If the loop over all the bytes at once ends for want of more, the callbacks together send
    -- what it collects and leave in the buffer what it leaves.
    on_chunks_drained :
        (chunks : List Bytes) (s : Server) (b : Bytes)
        → buffer_of c stream s ≡ b
        → IsDrained config.message_size b
        → let r = drain collect config.message_size (b ++ concat chunks) [] in
          let t = on_chunks chunks s in
          r.stop ≡ need_more
          → (t.1 ≡ none)
            × (t.0.sent ≡ s.sent ++ calls c stream r.state)
            × (buffer_of c stream t.0 ≡ r.buffer)
    unfolding on_chunks
    on_chunks_drained [] s b e d h =
        rw (append-nil b, drain_stop collect config.message_size b [] d)
          (refl, sym (append-nil s.sent), e)
    on_chunks_drained (chunk ∷ chunks) s b e d h =
        let size = config.message_size in
        let rest = concat chunks in
        let r1 = drain collect size (b ++ chunk) [] in
        let r2 = drain collect size (r1.buffer ++ rest) [] in
        let cut = drain-chunk size b chunk rest h in
        let one = on_data_from accepts config c stream accepted chunk s b e cut.0 in
        let ih =
          on_chunks_drained chunks (on_data accepts config c stream chunk s).0 r1.buffer one.2
            (drain-IsDrained collect size (b ++ chunk) [] cut.0)
            (sym (ap (λ x. x.stop) cut.1) ∙ h) in
        rw (after_chunk chunk chunks s one.0, cut.1)
          (
            ih.0,
            ih.1
                ∙ ap (λ (x : List SendCall). x ++ calls c stream r2.state) one.1
                ∙ append_assoc s.sent (calls c stream r1.state) (calls c stream r2.state)
                ∙ ap (◌++◌ s.sent) (sym (calls-append c stream r1.state r2.state)),
            ih.2,
          )

    -- Where every SendCopy returns and the stream's buffer was empty, frames that arrive cut into
    -- any chunks, with an incomplete frame behind them, are each echoed once, in order, on their
    -- connection and stream; no callback throws, and the buffer keeps the incomplete frame.
    pub on_chunks_echo :
        (chunks frames : List Bytes) (tail : Bytes) (s : Server)
        → buffer_of c stream s ≡ []
        → concat chunks ≡ concat frames ++ tail
        → All (IsFrame config.message_size) frames
        → IsDrained config.message_size tail
        → let t = on_chunks chunks s in
          (t.1 ≡ none)
          × (t.0.sent ≡ s.sent ++ calls c stream frames)
          × (buffer_of c stream t.0 ≡ tail)
    on_chunks_echo chunks frames tail s e cut framed d =
        let size = config.message_size in
        let all : drain collect size (concat chunks) []
            ≡ record { state = frames; buffer = tail; stop = need_more } =
          ap (λ x. drain collect size x []) cut
          ∙ drain-concat size frames tail [] framed
          ∙ drain_stop collect size tail frames d in
        let r =
          on_chunks_drained chunks s [] e (peek_short size [] (omega arith))
            (ap (λ x. x.stop) all) in
        (r.0, r.1 ∙ ap (λ x. s.sent ++ calls c stream x.state) all, r.2 ∙ ap (λ x. x.buffer) all)
