-- ===== src/SctpTransport/Streams.antt =====
-- The number of streams that `ConfigureSocket` asks for, and the streams that the client uses.
use proto_test_msquic.Prelude.{ℕ, ◌+◌, ◌^◌, ◌<◌, ◌≡◌, arith}
use proto_test_msquic.Config.Load.{AppConfig}
use proto_test_msquic.LoadClient.{metrics_index, stream_id_from_ordinal}
use proto_test_msquic.SctpTransport.{negotiated_streams}

-- If sctp_stream_id + stream_count is below 2^16, then the stream that the SCTP client uses for an
-- ordinal below stream_count is below the number of streams that ConfigureSocket asks for, and
-- OnData gets the ordinal back from it.
pub stream_id_from_ordinal_lem :
    (config : AppConfig) (ordinal : ℕ)
    → config.sctp_stream_id + config.stream_count < 2 ^ 16
    → ordinal < config.stream_count
    → (stream_id_from_ordinal config ordinal < negotiated_streams config)
      × (metrics_index config (stream_id_from_ordinal config ordinal) ≡ ordinal)
unfolding stream_id_from_ordinal negotiated_streams metrics_index
stream_id_from_ordinal_lem config ordinal fits h = (omega arith, omega arith)
