-- ===== src/LoadClient/Receive.antt =====
-- `LoadClientController::OnData`: the echoes that come back on a stream.
pub mod Counters
pub mod Chunks
pub mod Pumped
pub mod Stream
use proto_test_msquic.Prelude.{
  ℕ, ◌+◌, ◌-◌, ◌%◌, ◌^◌, Bool, true, ◌||◌, ◌++◌, Option, none, some, find_or, put, if◌then◌else◌,
}
use proto_test_msquic.Prelude.Float.{Float64}
use proto_test_msquic.Config.Load.{AppConfig}
use proto_test_msquic.Frame.{
  Bytes, Stop, need_more, thrown, out_of_fuel, decode_header, frame_size_from_header, drain,
}
use proto_test_msquic.Stats.{add64, add_received, add_latency_ns, add_stream_received, sub64}
use proto_test_msquic.LoadClient.{
  ClientStream, Client, ClientError, profile_out_of_range, bad_frame, with_metrics, metrics_index,
}
use proto_test_msquic.LoadClient.Pacing.{is_paced}
use proto_test_msquic.LoadClient.Pump.{new_stream, new_connection, with_profile}
use proto_test_msquic.LoadClient.Sending.{pump_sends}

-- `std::numeric_limits<size_t>::max()`, the default of `max_messages`
abbrev pub no_limit : ℕ
no_limit = 2 ^ 64 - 1

module _ (F : Float64) (clock : ℕ → ℕ) (config : AppConfig) where
  -- What the loop writes besides the buffer.
  pub record Receipt : Type 0 where
    pub echoed_messages : ℕ
    pub client : Client F.Double

  -- One frame: its latency is that of the header's own time, and its size is the header's. The
  -- frame that the loop takes off is of this size, since the peek computes it the same way.
  unfoldable pub receive_frame : ℕ → ℕ → ℕ → Bytes → Receipt → Receipt
  receive_frame stream_id message_size size buffer r =
      let header = decode_header buffer in
      let actual_frame_size = frame_size_from_header header message_size in
      let latency_ns = sub64 (clock r.client.clock_reads) header.send_timestamp_ns in
      let metrics =
        with_metrics (λ m. add_stream_received m actual_frame_size latency_ns)
          r.client.stream_metrics (metrics_index config stream_id) in
      record {
        echoed_messages = add64 r.echoed_messages 1;
        client = record (r.client) {
          clock_reads = r.client.clock_reads + 1;
          stats = add_latency_ns (add_received r.client.stats actual_frame_size) latency_ns;
          stream_metrics = metrics.0;
          undefined = r.client.undefined || metrics.1;
        };
      }

  unfoldable pub store_stream : ℕ → ℕ → ClientStream F.Double → Client F.Double → Client F.Double
  store_stream connection_id stream_id stream s =
      let state = find_or connection_id (new_connection F) s.states in
      record s {
        states =
            put connection_id
              (record state { has_connection = true; streams = put stream_id stream state.streams })
              s.states;
      }

  unfoldable pub stop_error : Stop → Option ClientError
  stop_error need_more = none
  stop_error (thrown e) = some bad_frame
  stop_error out_of_fuel = none

  -- The part under the lock, for a stream with its profile.
  unfoldable pub receive_on :
      ℕ → ℕ → Bytes → ClientStream F.Double → Client F.Double → Client F.Double × Option ClientError
  receive_on connection_id stream_id bytes stream s =
      let size = stream.profile.message_size in
      let r =
        drain (receive_frame stream_id size) size (stream.receive_buffer ++ bytes)
          (record { echoed_messages = stream.echoed_messages; client = s }) in
      (
        store_stream connection_id stream_id
            (record stream { receive_buffer = r.buffer; echoed_messages = r.state.echoed_messages })
            r.state.client,
        stop_error r.stop,
      )

  unfoldable pub receive : ℕ → ℕ → Bytes → Client F.Double → Client F.Double × Option ClientError
  receive connection_id stream_id bytes s =
      let state = find_or connection_id (new_connection F) s.states in
      let stream = find_or stream_id (new_stream F) state.streams in
      elim (with_profile F config (metrics_index config stream_id % 2 ^ 32) stream) [
        | none ↦ (store_stream connection_id stream_id stream s, some profile_out_of_range)
        | some known ↦ receive_on connection_id stream_id bytes known s
      ]

  unfoldable pub on_data :
      (ℕ → ℕ → Bytes → Bool)
      → (ℕ → Bool)
      → ℕ
      → ℕ
      → Bytes
      → Client F.Double
      → Client F.Double × Option ClientError
  on_data accepts shuts connection_id stream_id bytes s =
      let r = receive connection_id stream_id bytes s in
      let t = pump_sends F clock config accepts shuts connection_id no_limit r.0 in
      elim r.1 [ some e ↦ r | none ↦ if is_paced config then r else (t.0, t.1.1) ]
