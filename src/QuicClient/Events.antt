-- ===== src/QuicClient/Events.antt =====
-- `Client::OnStreamEvent`, `Client::OnConnectionEvent` and `Client::ForceShutdown`.
use proto_test_msquic.Prelude.{
  ℕ, ◌+◌, ◌-◌, ◌%◌, ◌^◌, Bool, true, false, ◌||◌, ◌&&◌, not, List, ◌++◌, Option, none, some, concat,
  if◌then◌else◌,
}
use proto_test_msquic.Prelude.Float.{Float64}
use proto_test_msquic.Config.Load.{AppConfig}
use proto_test_msquic.Frame.{
  Bytes, FrameError, need_more, thrown, out_of_fuel, LoopEnd, decode_header, frame_size_from_header,
  drain,
}
use proto_test_msquic.Stats.{add64, add_received, add_latency_ns, add_stream_received, sub64}
use proto_test_msquic.LoadClient.{with_metrics}
use proto_test_msquic.LoadClient.Pacing.{is_paced}
use proto_test_msquic.LoadClient.Receive.{no_limit}
use proto_test_msquic.QuicClient.{
  StreamContext, stream_close, connection_shutdown, connection_close, QuicClient, call, set_stream,
  streams_closed,
}
use proto_test_msquic.QuicClient.Send.{pump_sends, start_streams}

-- START_COMPLETE says whether the stream was opened; `other` is the default case, and that of
-- SEND_COMPLETE, which frees a buffer.
pub data StreamEvent : Type 0 where
  start_complete : Bool → StreamEvent
  receive : List Bytes → StreamEvent
  shutdown_complete other : StreamEvent

-- The two events of a connection that are only logged belong to `other`.
pub data ConnectionEvent : Type 0 where
  connected shutdown_complete other : ConnectionEvent

module _ (F : Float64) (clock : ℕ → ℕ) (config : AppConfig) where
  -- What the loop of a RECEIVE writes besides the buffer.
  pub record Receipt : Type 0 where
    pub echoed_messages : ℕ
    pub client : QuicClient F.Double

  unfoldable pub receive_frame : ℕ → ℕ → ℕ → Bytes → Receipt → Receipt
  receive_frame ordinal message_size size buffer r =
      let header = decode_header buffer in
      let actual_frame_size = frame_size_from_header header message_size in
      let latency_ns = sub64 (clock r.client.clock_reads) header.send_timestamp_ns in
      let metrics =
        with_metrics (λ m. add_stream_received m actual_frame_size latency_ns)
          r.client.stream_metrics ordinal in
      record {
        echoed_messages = add64 r.echoed_messages 1;
        client = record (r.client) {
          clock_reads = r.client.clock_reads + 1;
          stats = add_latency_ns (add_received r.client.stats actual_frame_size) latency_ns;
          stream_metrics = metrics.0;
          undefined = r.client.undefined || metrics.1;
        };
      }

  module _ (accepts : ℕ → Bytes → Bool) where
    unfoldable pub pump_unpaced : QuicClient F.Double → QuicClient F.Double
    pump_unpaced s =
        let t = (pump_sends F clock config accepts no_limit s).0 in if is_paced config then s else t

    unfoldable pub received :
        ℕ → StreamContext F.Double → LoopEnd Receipt → QuicClient F.Double × Option FrameError
    unfolding set_stream
    received ordinal stream r =
        let t =
          set_stream ordinal
            (record stream { receive_buffer = r.buffer; echoed_messages = r.state.echoed_messages })
            r.state.client in
        elim r.stop [
          | need_more ↦ (pump_unpaced t, none)
          | thrown e ↦ (t, some e)
          | out_of_fuel ↦ (t, none)
        ]

    unfoldable pub on_stream_event :
        StreamEvent
        → ℕ
        → StreamContext F.Double
        → QuicClient F.Double
        → QuicClient F.Double × Option FrameError
    unfolding set_stream
    on_stream_event (start_complete started) ordinal stream s =
        let t = set_stream ordinal (record stream { stream_started = true }) s in
        if started then (pump_unpaced t, none) else (call (connection_shutdown 1) s, none)
    on_stream_event (receive buffers) ordinal stream s = received ordinal stream (
        drain (receive_frame ordinal stream.profile.message_size) stream.profile.message_size
          (stream.receive_buffer ++ concat buffers)
          (record { echoed_messages = stream.echoed_messages; client = s }))
    on_stream_event shutdown_complete ordinal stream s =
        let t =
          call (stream_close ordinal) (set_stream ordinal (record stream { closed = true }) s) in
        (
          if streams_closed t.connection.stream_contexts then call (connection_shutdown 0) t else t,
          none,
        )
    on_stream_event other ordinal stream s = (s, none)

  unfoldable pub on_connection_event :
      (ℕ → Bool) → (ℕ → Bool) → ConnectionEvent → QuicClient F.Double → QuicClient F.Double × Bool
  on_connection_event opens starts connected s =
      start_streams F clock config opens starts
        (record s { connection = record (s.connection) { connected = true } })
  on_connection_event opens starts shutdown_complete s =
      if s.connection.closed then (s, false) else (
        call connection_close (record s {
          connection = record (s.connection) { closed = true };
          active_connections = (s.active_connections + 2 ^ 32 - 1) % 2 ^ 32;
        }),
        false,
      )
  on_connection_event opens starts other s = (s, false)

  unfoldable pub force_shutdown : QuicClient F.Double → QuicClient F.Double
  force_shutdown s =
      if not s.connection.closed && s.connection.has_connection
      then call (connection_shutdown 0) s
      else s
