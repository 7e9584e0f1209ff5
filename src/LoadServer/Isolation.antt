-- ===== src/LoadServer/Isolation.antt =====
-- A callback touches its own stream alone, and the counters count what was handed to the transport.
use proto_test_msquic.Prelude.{
  ℕ, ◌+◌, ◌%◌, ◌≡◌, refl, ap, ◌∙◌, inl, inr, Bool, false, ◌&&◌, List, [], ◌∷◌, ◌++◌, length,
  length-append, Bool-cases, find_or, find_or-put_self, find_or-put_ne, arith, ◌==◌, ==_iff,
}
use proto_test_msquic.Config.Load.{AppConfig}
use proto_test_msquic.Frame.{Bytes, Stop, need_more, thrown, out_of_fuel}
use proto_test_msquic.Stats.{u64_mod}
use proto_test_msquic.LoadServer.{
  Server, ServerConnection, new_connection, SendCall, buffer_of, buffer_of-connections, set_buffer,
  echo_frames, echo_or_throw, on_data,
}

-- The bytes of all the calls.
abbrev pub sent_size : List SendCall → ℕ
sent_size [] = 0
sent_size (x ∷ xs) = length x.data_bytes + sent_size xs

sent_size-append : (xs ys : List SendCall) → sent_size (xs ++ ys) ≡ sent_size xs + sent_size ys
sent_size-append [] ys = omega arith
sent_size-append (x ∷ xs) ys = omega (arith, sent_size-append xs ys)

-- Both directions are counted alike, and they count the calls of `SendCopy` that returned and the
-- bytes of these, modulo 2^64.
pub record IsCounted (s : Server) : Type 0 where
  pub messages_sent : s.stats.sent_messages ≡ length s.sent % u64_mod
  pub messages_received : s.stats.recv_messages ≡ length s.sent % u64_mod
  pub bytes_sent : s.stats.sent_bytes ≡ sent_size s.sent % u64_mod
  pub bytes_received : s.stats.recv_bytes ≡ sent_size s.sent % u64_mod

module _ (accepts : ℕ → ℕ → Bytes → Bool) where
  echo_frames-IsCounted :
      (c stream : ℕ) (ws : List Bytes) (s : Server)
      → IsCounted s
      → IsCounted (echo_frames accepts c stream ws s).0
  unfolding echo_frames
  echo_frames-IsCounted c stream [] s v = v
  echo_frames-IsCounted c stream (w ∷ ws) s v = elim (Bool-cases (accepts c stream w)) [
    | inl e ↦
        let call : SendCall = record { connection_id = c; stream_id = stream; data_bytes = w } in
        rw e (
          echo_frames-IsCounted c stream ws _ (record {
            messages_sent = omega (arith, length-append s.sent (call ∷ []), v.messages_sent);
            messages_received =
                omega (arith, length-append s.sent (call ∷ []), v.messages_received);
            bytes_sent = omega (arith, sent_size-append s.sent (call ∷ []), v.bytes_sent);
            bytes_received = omega (arith, sent_size-append s.sent (call ∷ []), v.bytes_received);
          }))
    | inr e ↦ rw e v
  ]

  echo_or_throw-IsCounted :
      (c stream : ℕ) (t : Stop) (ws : List Bytes) (b : Bytes) (s : Server)
      → IsCounted s
      → IsCounted (echo_or_throw accepts c stream (record { state = ws; buffer = b; stop = t }) s).0
  unfolding echo_or_throw
  echo_or_throw-IsCounted c stream need_more ws b s v = echo_frames-IsCounted c stream ws s v
  echo_or_throw-IsCounted c stream (thrown e) ws b s v = v
  echo_or_throw-IsCounted c stream out_of_fuel ws b s v = v

  -- Whatever a callback's bytes are and wherever it throws, the counters of both directions agree,
  -- modulo 2^64, with the calls of SendCopy that returned, provided that they did before.
  pub on_data-IsCounted :
      (config : AppConfig) (c stream : ℕ) (bytes : Bytes) (s : Server)
      → IsCounted s
      → IsCounted (on_data accepts config c stream bytes s).0
  unfolding on_data set_buffer
  on_data-IsCounted config c stream bytes s v = echo_or_throw-IsCounted c stream _ _ _ _ (record {
    messages_sent = v.messages_sent;
    messages_received = v.messages_received;
    bytes_sent = v.bytes_sent;
    bytes_received = v.bytes_received;
  })

  echo_frames-connections :
      (c stream : ℕ) (ws : List Bytes) (s : Server)
      → (echo_frames accepts c stream ws s).0.connections ≡ s.connections
  unfolding echo_frames
  echo_frames-connections c stream [] s = refl
  echo_frames-connections c stream (w ∷ ws) s = elim (Bool-cases (accepts c stream w)) [
    | inl e ↦ rw e (echo_frames-connections c stream ws _)
    | inr e ↦ rw e
  ]

  echo_or_throw-connections :
      (c stream : ℕ) (t : Stop) (ws : List Bytes) (b : Bytes) (s : Server)
      → (echo_or_throw accepts c stream
          (record { state = ws; buffer = b; stop = t })
          s).0.connections
        ≡ s.connections
  unfolding echo_or_throw
  echo_or_throw-connections c stream need_more ws b s = echo_frames-connections c stream ws s
  echo_or_throw-connections c stream (thrown e) ws b s = refl
  echo_or_throw-connections c stream out_of_fuel ws b s = refl

  buffer_of-set_buffer_ne :
      (c stream d other : ℕ) (bytes : Bytes) (s : Server)
      → (c == d && stream == other) ≡ false
      → buffer_of d other (set_buffer c stream bytes s) ≡ buffer_of d other s
  unfolding buffer_of set_buffer
  buffer_of-set_buffer_ne c stream d other bytes s h = elim (Bool-cases (c == d)) [
    | inl e ↦
        let same : c ≡ d = (==_iff c d).0 e in
        let apart : (stream == other) ≡ false = ground arith in
        rw (← same, find_or-put_self {V = ServerConnection} c)
          (find_or-put_ne stream other bytes [] _ apart)
    | inr e ↦
        ap (λ (x : ServerConnection). find_or other [] x.receive_buffers)
          (find_or-put_ne c d _ new_connection s.connections e)
  ]

  -- A callback leaves alone the buffers of other connections, and of other streams of the same
  -- one.
  pub on_data-buffer_of_ne :
      (config : AppConfig) (c stream d other : ℕ) (bytes : Bytes) (s : Server)
      → (c == d && stream == other) ≡ false
      → buffer_of d other (on_data accepts config c stream bytes s).0 ≡ buffer_of d other s
  unfolding on_data
  on_data-buffer_of_ne config c stream d other bytes s h =
      buffer_of-connections d other _ _ (echo_or_throw-connections c stream _ _ _ _)
      ∙ buffer_of-set_buffer_ne c stream d other _ s h
