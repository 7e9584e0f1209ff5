-- ===== src/LoadClient/Receive/Counters.antt =====
-- What `OnData` of the client counts: a stream's echoes, the messages received, the latencies.
use proto_test_msquic.Prelude.{
  ℕ, ◌≡◌, refl, ap, ◌∙◌, ◌++◌, length, length-append, find_or, find_or-put_self, arith,
}
use proto_test_msquic.Prelude.Float.{Float64}
use proto_test_msquic.Config.Load.{AppConfig}
use proto_test_msquic.Frame.{Bytes, drain}
use proto_test_msquic.Frame.Loop.{drain_induction}
use proto_test_msquic.Stats.{add64, add_received, add_latency_ns}
use proto_test_msquic.LoadClient.{ClientStream, ClientConnection, Client}
use proto_test_msquic.LoadClient.Pump.{new_stream, new_connection}
use proto_test_msquic.LoadClient.Receive.{Receipt, receive_frame, store_stream, receive_on}

module _ (F : Float64) where
  -- The echoes that a stream has counted.
  unfoldable pub echoed_of : ℕ → ℕ → Client F.Double → ℕ
  echoed_of connection_id stream_id s =
      (find_or stream_id (new_stream F)
        (find_or connection_id (new_connection F) s.states).streams).echoed_messages

  module _ (clock : ℕ → ℕ) (config : AppConfig) where
    drain-echoed :
        (stream_id size : ℕ) (buffer : Bytes) (s : Receipt F clock config)
        → let r = drain (receive_frame F clock config stream_id size) size buffer s in
          add64 r.state.echoed_messages s.client.stats.recv_messages
          ≡ add64 s.echoed_messages r.state.client.stats.recv_messages
    unfolding receive_frame add_received add_latency_ns
    drain-echoed stream_id size =
        drain_induction (receive_frame F clock config stream_id size) size
          (λ b s r.
            add64 r.state.echoed_messages s.client.stats.recv_messages
            ≡ add64 s.echoed_messages r.state.client.stats.recv_messages)
          (λ b s e. refl) (λ b s x e. refl) (λ b s k r e ih. omega arith)

    drain-latencies :
        (stream_id size : ℕ) (buffer : Bytes) (s : Receipt F clock config)
        → let r = drain (receive_frame F clock config stream_id size) size buffer s in
          add64 (length r.state.client.stats.latency_samples) s.client.stats.recv_messages
          ≡ add64 (length s.client.stats.latency_samples) r.state.client.stats.recv_messages
    unfolding receive_frame add_received add_latency_ns
    drain-latencies stream_id size =
        drain_induction (receive_frame F clock config stream_id size) size
          (λ b s r.
            add64 (length r.state.client.stats.latency_samples) s.client.stats.recv_messages
            ≡ add64 (length s.client.stats.latency_samples) r.state.client.stats.recv_messages)
          (λ b s e. refl) (λ b s x e. refl)
          (λ b s k r e ih. omega (arith, length-append s.client.stats.latency_samples))

    echoed_of-store_stream :
        (c i : ℕ) (stream : ClientStream F.Double) (s : Client F.Double)
        → echoed_of c i (store_stream F clock config c i stream s) ≡ stream.echoed_messages
    unfolding echoed_of store_stream
    echoed_of-store_stream c i stream s =
        ap (λ (x : ClientConnection F.Double). (find_or i (new_stream F) x.streams).echoed_messages)
          (find_or-put_self c _ (new_connection F) s.states)
        ∙ ap (λ (x : ClientStream F.Double). x.echoed_messages)
            (find_or-put_self i stream (new_stream F) _)

    stats-store_stream :
        (c i : ℕ) (stream : ClientStream F.Double) (s : Client F.Double)
        → (store_stream F clock config c i stream s).stats ≡ s.stats
    unfolding store_stream
    stats-store_stream c i stream s = refl

    -- However the loop of the client's OnData ends, the stream's echoes, the messages received and
    -- the latencies grow by the same number, modulo 2^64.
    pub receive_on-counts :
        (c i : ℕ) (bytes : Bytes) (stream : ClientStream F.Double) (s : Client F.Double)
        → let t = (receive_on F clock config c i bytes stream s).0 in
          (add64 (echoed_of c i t) s.stats.recv_messages
            ≡ add64 stream.echoed_messages t.stats.recv_messages)
          × (add64 (length t.stats.latency_samples) s.stats.recv_messages
              ≡ add64 (length s.stats.latency_samples) t.stats.recv_messages)
    unfolding receive_on
    receive_on-counts c i bytes stream s =
        rw (echoed_of-store_stream c i, stats-store_stream c i)
          (
            drain-echoed i stream.profile.message_size (stream.receive_buffer ++ bytes) _,
            drain-latencies i stream.profile.message_size (stream.receive_buffer ++ bytes) _,
          )
