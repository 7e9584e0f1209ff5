-- ===== src/EndToEnd.antt =====
-- A stream from the client to the echo server and back, over SCTP: `SendCopy` and `OnData` of both
-- controllers. What the transport takes on a stream it hands over in order, cut into any chunks.
use proto_test_msquic.Prelude.{
  false, ℕ, ◌^◌, ◌≤◌, ◌<◌, ◌≡◌, refl, ap, sym, ◌∙◌, Bool, true, ◌&&◌, List, [], ◌∷◌, ◌++◌, map,
  some, none, inl, inr, Bool-cases, length, append-nil, concat, All, ◌==◌, if◌then◌else◌, arith,
}
use proto_test_msquic.Prelude.Float.{Float64}
use proto_test_msquic.Config.Profiles.{StreamProfile}
use proto_test_msquic.Config.Load.{AppConfig, is_empty}
use proto_test_msquic.Frame.{Bytes, header_size}
use proto_test_msquic.Frame.Peek.{IsFrame, peek_short}
use proto_test_msquic.Stats.{add64}
use proto_test_msquic.LoadServer.{Server, SendCall, buffer_of}
use proto_test_msquic.LoadServer.Echo
use proto_test_msquic.LoadServer.Echo.{calls, on_chunks_echo}
use proto_test_msquic.LoadClient.{Client}
use proto_test_msquic.LoadClient.Message.{make_frame-IsFrame, restamp-make_frame}
use proto_test_msquic.LoadClient.Profile.{stream_profile_for_ordinal}
use proto_test_msquic.LoadClient.Receive.Chunks.{stream_of}
use proto_test_msquic.LoadClient.Receive.Pumped.{pump_sends_accepted}
use proto_test_msquic.LoadClient.Receive.Stream.{
  Holds, on_chunks, AreReceived-Holds, on_chunks_counted,
}
use proto_test_msquic.LoadClient.Sending.{pump_sends}
use proto_test_msquic.LoadClient.Wire.{Message, IsMessage, wire_frame, frames_copied}
use proto_test_msquic.LoadClient.Wire.Sent.{IsSent, pump_sends-IsSent}

module _ (size : ℕ) (low : header_size ≤ size) (high : size < 2 ^ 32) where
  wire_frames-IsFrame :
      (fallback : ℕ) (ms : List Message)
      → All IsMessage ms
      → All (IsFrame fallback) (map (wire_frame size) ms)
  wire_frames-IsFrame fallback [] v = tt
  wire_frames-IsFrame fallback (m ∷ ms) v =
      let w = v.0 in
      let same =
        restamp-make_frame size m.sequence m.made_ns low high w.sequence_fits w.made_fits
          m.sent_ns in
      (
        rw same (
            make_frame-IsFrame size m.sequence m.sent_ns low high w.sequence_fits w.sent_fits
              fallback),
        wire_frames-IsFrame fallback ms v.1,
      )

add64-zero : (n : ℕ) → n < 2 ^ 64 → n ≡ add64 n 0
add64-zero n h = omega arith

length-map : {A B : Type 0} (f : A → B) (xs : List A) → length (map f xs) ≡ length xs
length-map f [] = refl
length-map f (x ∷ xs) = omega (arith, length-map f xs)

-- The bytes that the server gave to `SendCopy` on a stream, in order.
unfoldable pub bytes_to : ℕ → ℕ → List SendCall → Bytes
bytes_to c j [] = []
bytes_to c j (s ∷ ss) =
    let rest = bytes_to c j ss in
    if s.connection_id == c && s.stream_id == j then s.data_bytes ++ rest else rest

empty_parts : (xs ys : Bytes) → xs ++ ys ≡ [] → (xs ≡ []) × (ys ≡ [])
empty_parts [] ys e = (refl, e)
empty_parts (x ∷ xs) ys e = absurd (cc)

bytes_to-append :
    (c j : ℕ) (xs ys : List SendCall)
    → bytes_to c j xs ≡ []
    → bytes_to c j (xs ++ ys) ≡ bytes_to c j ys
unfolding bytes_to
bytes_to-append c j [] ys e = refl
bytes_to-append c j (x ∷ xs) ys e = elim (Bool-cases (x.connection_id == c && x.stream_id == j)) [
  | inl h ↦
      let both = empty_parts x.data_bytes (bytes_to c j xs) (rw h at e) in
      rw (h, both.0) (bytes_to-append c j xs ys both.1)
  | inr h ↦ rw h (bytes_to-append c j xs ys (rw h at e))
]

bytes_to-calls : (c j : ℕ) (ws : List Bytes) → bytes_to c j (calls c j ws) ≡ concat ws
unfolding bytes_to
bytes_to-calls c j [] = refl
bytes_to-calls c j (w ∷ ws) = ground (arith, bytes_to-calls c j ws)

module _ (F : Float64) (clock : ℕ → ℕ) (client_config server_config : AppConfig)
    (accepts client_accepts : ℕ → ℕ → Bytes → Bool) (shuts : ℕ → Bool)
    (accepted : (i j : ℕ) (w : Bytes) → accepts i j w ≡ true)
    (client_accepted : (i j : ℕ) (w : Bytes) → client_accepts i j w ≡ true)
    (shut : (i : ℕ) → shuts i ≡ true) (timely : (k : ℕ) → clock k < 2 ^ 64)
    (streams_given : 0 < client_config.stream_count)
    (profiled : (i : ℕ)
      → i < client_config.stream_count
      → (p : StreamProfile) × (stream_profile_for_ordinal client_config i ≡ some p))
    (c i server_c server_i : ℕ) where
  -- Calls of `PumpSends` for the stream's connection, each with its `max_messages`.
  pub pump_all : List ℕ → Client F.Double → Client F.Double
  pump_all [] s = s
  pump_all (limit ∷ limits) s =
      pump_all limits (pump_sends F clock client_config client_accepts shuts c limit s).0

  module _ (profile : StreamProfile) (named : is_empty profile.name ≡ false) (n m : ℕ)
      (h : n < 2 ^ 64) where
    Begun : Client F.Double → Type 0
    Begun s =
        Holds F clock client_config client_accepts shuts c i profile [] n m s
        × IsSent F clock client_config client_accepts shuts client_accepted shut timely c i profile
            named n h s

    pump_all-Begun : (limits : List ℕ) (s : Client F.Double) → Begun s → Begun (pump_all limits s)
    unfolding pump_all Begun
    pump_all-Begun [] s v = v
    pump_all-Begun (limit ∷ limits) s v =
        let r = pump_sends F clock client_config client_accepts shuts c limit s in
        let kept =
          pump_sends_accepted F clock client_config client_accepts shuts client_accepted shut c
            streams_given profiled limit s in
        pump_all-Begun limits r.0 (
          AreReceived-Holds F clock client_config client_accepts shuts c i client_accepted shut
              streams_given profiled profile [] n m s r.0 named kept.1 v.0,
          pump_sends-IsSent F clock client_config client_accepts shuts client_accepted shut timely c
              i profile named n h streams_given profiled limit s v.1,
        )

  -- Where every SendCopy and CloseSend returns, the clock fits 64 bits and every stream of the
  -- client's configuration has a profile, and a stream, whose messages have a size that holds a
  -- header and fits 32 bits, keeps no bytes at either side, has no message in flight, and nothing
  -- was sent on it: if PumpSends is called for its connection any number of times, then
  -- next_sequence has grown by the number of frames that the calls gave to SendCopy on the stream,
  -- modulo 2^64. If the transport loses and adds no byte of these frames, nor of what the server
  -- gives to SendCopy, however it cuts them, then no callback throws, every message that the
  -- client's stream had in flight has its echo, whatever more the client sends meanwhile, no byte
  -- is left over in its buffer, and the messages received have grown by the number of the frames,
  -- modulo 2^64.
  pub round_trip :
      (start : Client F.Double) (limits : List ℕ) (t : Server) (up down : List Bytes)
      (profile : StreamProfile) (n m : ℕ)
      → let s = pump_all limits start in
        let served = Echo.on_chunks accepts server_config server_c server_i up t in
        let back = on_chunks F clock client_config client_accepts shuts c i down s in
        is_empty profile.name ≡ false
        → n < 2 ^ 64
        → m < 2 ^ 64
        → Holds F clock client_config client_accepts shuts c i profile [] n m start
        → (stream_of F c i start).next_sequence ≡ n
        → frames_copied c i start.actions ≡ []
        → header_size ≤ profile.message_size
        → profile.message_size < 2 ^ 32
        → buffer_of server_c server_i t ≡ []
        → bytes_to server_c server_i t.sent ≡ []
        → concat up ≡ concat (frames_copied c i s.actions)
        → concat down ≡ bytes_to server_c server_i served.0.sent
        → ((stream_of F c i s).next_sequence ≡ add64 n (length (frames_copied c i s.actions)))
          × (served.1 ≡ none)
          × (back.1 ≡ none)
          × ((stream_of F c i back.0).echoed_messages ≡ (stream_of F c i s).next_sequence)
          × ((stream_of F c i back.0).receive_buffer ≡ [])
          × (back.0.stats.recv_messages ≡ add64 m (length (frames_copied c i s.actions)))
  unfolding Begun
  round_trip start limits t up down profile n m named h k v numbered unsent low high empty quiet
        up_cut down_cut =
      let size = profile.message_size in
      let s = pump_all limits start in
      let begun = pump_all-Begun profile named n m h limits start (
        v,
        record {
          messages = [];
          valid = tt;
          on_wire = unsent;
          counted = numbered ∙ add64-zero n h;
          same_profile = v.profile_is;
        },
      ) in
      let sent = begun.1 in
      let ms = sent.messages in
      let ws = map (wire_frame size) ms in
      let count : length ws ≡ length (frames_copied c i s.actions) =
        ap (λ (xs : List Bytes). length xs) (sym sent.on_wire) in
      let all_sent : (stream_of F c i s).next_sequence ≡ add64 n (length ws) =
        sent.counted ∙ ap (add64 n) (sym (length-map (wire_frame size) ms)) in
      let echo =
        on_chunks_echo accepts server_config server_c server_i accepted up ws [] t empty
          (up_cut ∙ ap (λ (xs : List Bytes). concat xs) sent.on_wire ∙ sym (append-nil (concat ws)))
          (wire_frames-IsFrame size low high server_config.message_size ms sent.valid)
          (peek_short server_config.message_size [] (omega arith)) in
      let returned : concat down ≡ concat ws ++ [] =
        down_cut
        ∙ ap (bytes_to server_c server_i) echo.1
        ∙ bytes_to-append server_c server_i t.sent (calls server_c server_i ws) quiet
        ∙ bytes_to-calls server_c server_i ws
        ∙ sym (append-nil (concat ws)) in
      let counted =
        on_chunks_counted F clock client_config client_accepts shuts c i client_accepted shut
          streams_given profiled down ws [] profile n m s named h k begun.0 returned
          (wire_frames-IsFrame size low high size ms sent.valid)
          (peek_short size [] (omega arith)) in
      (
        all_sent ∙ ap (add64 n) count,
        echo.0,
        counted.0,
        counted.1.echoes_are ∙ sym all_sent,
        counted.1.buffer_is,
        counted.1.received_are ∙ ap (add64 m) count,
      )
