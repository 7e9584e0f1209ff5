-- ===== src/LoadClient/Receive/Chunks.antt =====
-- The echoes that one callback of the client takes, up to its pumping.
use proto_test_msquic.Prelude.{
  ℕ, ◌^◌, ◌<◌, ◌≡◌, refl, ap, ◌∙◌, false, [], ◌++◌, none, length, find_or, find_or-put_self,
}
use proto_test_msquic.Prelude.Float.{Float64}
use proto_test_msquic.Config.Load.{AppConfig, is_empty}
use proto_test_msquic.Frame.{Bytes, need_more, drain, collect}
use proto_test_msquic.Frame.Collected.{drain-end, drain-counter}
use proto_test_msquic.Stats.{add64, add_received, add_latency_ns}
use proto_test_msquic.LoadClient.{ClientStream, ClientConnection, Client}
use proto_test_msquic.LoadClient.Pump.{new_stream, new_connection, with_profile}
use proto_test_msquic.LoadClient.Receive.{
  Receipt, receive_frame, store_stream, stop_error, receive_on, receive,
}

module _ (F : Float64) where
  -- The state of a stream of a connection.
  unfoldable pub stream_of : ℕ → ℕ → Client F.Double → ClientStream F.Double
  stream_of c i s = find_or i (new_stream F) (find_or c (new_connection F) s.states).streams

  -- A stream that received `n` frames and kept the bytes `rest` of what came.
  abbrev pub after_frames : ClientStream F.Double → ℕ → Bytes → ClientStream F.Double
  after_frames stream n rest = record stream {
    receive_buffer = rest;
    echoed_messages = add64 stream.echoed_messages n;
  }

  module _ (clock : ℕ → ℕ) (config : AppConfig) (c i : ℕ) where
    stream_of-store_stream :
        (stream : ClientStream F.Double) (s : Client F.Double)
        → stream_of c i (store_stream F clock config c i stream s) ≡ stream
    unfolding stream_of store_stream
    stream_of-store_stream stream s =
        ap (λ (x : ClientConnection F.Double). find_or i (new_stream F) x.streams)
          (find_or-put_self c _ (new_connection F) s.states)
        ∙ find_or-put_self i stream (new_stream F) _

    -- The two counters of the loop.
    drain-echoes :
        (size : ℕ) (buffer : Bytes) (r : Receipt F clock config)
        → r.echoed_messages < 2 ^ 64
        → r.client.stats.recv_messages < 2 ^ 64
        → let t = drain (receive_frame F clock config i size) size buffer r in
          let n = length (drain collect size buffer []).state in
          (t.state.echoed_messages ≡ add64 r.echoed_messages n)
          × (t.state.client.stats.recv_messages ≡ add64 r.client.stats.recv_messages n)
    unfolding receive_frame add_received add_latency_ns
    drain-echoes size buffer r h k = (
      drain-counter (receive_frame F clock config i size) size (λ x. x.echoed_messages)
          (λ k b x. refl) buffer r h,
      drain-counter (receive_frame F clock config i size) size (λ x. x.client.stats.recv_messages)
          (λ k b x. refl) buffer r k,
    )

    stats-store_stream :
        (stream : ClientStream F.Double) (s : Client F.Double)
        → (store_stream F clock config c i stream s).stats ≡ s.stats
    unfolding store_stream
    stats-store_stream stream s = refl

    -- What one callback does on a stream whose profile is known, when the loop ends for want of
    -- bytes.
    pub receive_on_drained :
        (bytes : Bytes) (stream : ClientStream F.Double) (s : Client F.Double)
        → stream.echoed_messages < 2 ^ 64
        → s.stats.recv_messages < 2 ^ 64
        → let size = stream.profile.message_size in
          let q = drain collect size (stream.receive_buffer ++ bytes) [] in
          let t = receive_on F clock config c i bytes stream s in
          q.stop ≡ need_more
          → (t.1 ≡ none)
            × (stream_of c i t.0 ≡ after_frames stream (length q.state) q.buffer)
            × (t.0.stats.recv_messages ≡ add64 s.stats.recv_messages (length q.state))
    unfolding receive_on stop_error
    receive_on_drained bytes stream s h k e =
        let size = stream.profile.message_size in
        let start : Receipt F clock config = record {
          echoed_messages = stream.echoed_messages;
          client = s;
        } in
        let buffer = stream.receive_buffer ++ bytes in
        let r = drain (receive_frame F clock config i size) size buffer start in
        let same = drain-end (receive_frame F clock config i size) size buffer start in
        let n = drain-echoes size buffer start h k in
        (
          ap (stop_error F clock config) (same.1 ∙ e),
          stream_of-store_stream
                (record stream {
                  receive_buffer = r.buffer;
                  echoed_messages = r.state.echoed_messages;
                })
                r.state.client
              ∙ cc (same.0, n.0),
          ap (λ x. x.recv_messages)
                (stats-store_stream
                  (record stream {
                    receive_buffer = r.buffer;
                    echoed_messages = r.state.echoed_messages;
                  })
                  r.state.client)
              ∙ n.1,
        )

    pub receive_profiled :
        (bytes : Bytes) (s : Client F.Double)
        → is_empty (stream_of c i s).profile.name ≡ false
        → receive F clock config c i bytes s
          ≡ receive_on F clock config c i bytes (stream_of c i s) s
    unfolding receive with_profile stream_of
    receive_profiled bytes s e = rw (e, receive) refl
