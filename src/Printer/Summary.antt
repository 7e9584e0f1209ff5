-- ===== src/Printer/Summary.antt =====
-- What the programs print when they end: `PrintSummary` of `SctpServer`, `Server`, `SctpClient` and
-- `Client`, and `PrintStreamSummaries`.
use proto_test_msquic.Prelude.{
  ℕ, zero, suc, ◌+◌, ◌%◌, ◌^◌, if◌then◌else◌, ◌≡◌, refl, ap, ◌∙◌, Bool, inl, inr, Bool-cases, List,
  [], ◌∷◌, ◌++◌, ◌==◌, Option, none, some, concat, get_elem?, arith,
}
use proto_test_msquic.Prelude.Float.{Float64}
use proto_test_msquic.Config.Text.{Text, codes}
use proto_test_msquic.Config.Number.{to_string}
use proto_test_msquic.Config.Profiles.{StreamProfile}
use proto_test_msquic.Config.Load.{AppConfig}
use proto_test_msquic.Frame.{Bytes, Stop, need_more, thrown, out_of_fuel}
use proto_test_msquic.Stats.{Stats, StreamMetrics, add_sent, add_received}
use proto_test_msquic.Stats.Percentile.{
  StatsSnapshot, StreamMetricSnapshot, snapshot_now, snapshot, build_latency_snapshot,
}
use proto_test_msquic.LoadClient.{stream_id_from_ordinal}
use proto_test_msquic.LoadClient.Profile.{stream_profile_for_ordinal}
use proto_test_msquic.Printer.{
  format_latency_summary, format_latency_ms, format_latency_detail_summary,
}
use proto_test_msquic.QuicServer.{
  StreamEvent, receive, send_complete, peer_send_shutdown, shutdown_complete, other, ServerStream,
  maybe_shutdown_stream, send_frames, echo_frames, received, on_stream_event,
}

-- The text before the latencies.
unfoldable pub server_counts : StatsSnapshot → Text
unfolding to_string
server_counts snapshot = concat (
    codes "server summary: tx_messages="
    ∷ to_string snapshot.sent_messages
    ∷ codes " rx_messages="
    ∷ to_string snapshot.recv_messages
    ∷ codes " latency_ms(p50/p75/p99)="
    ∷ [])

-- `SctpServer::PrintSummary`
unfoldable pub sctp_server_summary : StatsSnapshot → Text
unfolding server_counts
sctp_server_summary snapshot = server_counts snapshot ++ codes "n/a/n/a/n/a"

-- The ports that a server announces: `left` of them, from the `i`-th on.
unfoldable pub listening_ports : ℕ → ℕ → ℕ → Text
unfolding to_string
listening_ports base_port zero i = []
listening_ports base_port (suc left) i =
    (if i == 0 then [] else codes ",")
    ++ (to_string ((base_port + i) % 2 ^ 32) ++ listening_ports base_port left (i + 1))

-- `SctpServer::Run` and `Server::Run`, once they listen
unfoldable pub sctp_listening_line : AppConfig → Text
unfolding listening_ports
sctp_listening_line config =
    codes "sctp server listening on "
    ++ (config.bind ++ (codes " ports " ++ listening_ports config.base_port config.server_count 0))

unfoldable pub quic_listening_line : AppConfig → Text
unfolding listening_ports
quic_listening_line config =
    codes "server listening on "
    ++ (config.bind ++ (codes " ports " ++ listening_ports config.base_port config.server_count 0))

module _ (F : Float64) (fixed : F.Double → ℕ → Text) where
  -- `Server::PrintSummary`
  unfoldable pub quic_server_summary : StatsSnapshot → Text
  unfolding server_counts
  quic_server_summary snapshot =
      server_counts snapshot ++ format_latency_summary F fixed snapshot.latency

  -- `SctpClient::PrintSummary` and `Client::PrintSummary`, before the streams
  unfoldable pub client_summary : StatsSnapshot → Text
  unfolding to_string
  client_summary snapshot = concat (
      codes "client summary: sent_messages="
      ∷ to_string snapshot.sent_messages
      ∷ codes " echoed_messages="
      ∷ to_string snapshot.recv_messages
      ∷ codes " sent_bytes="
      ∷ to_string snapshot.sent_bytes
      ∷ codes " echoed_bytes="
      ∷ to_string snapshot.recv_bytes
      ∷ codes " latency_ms(p50/p75/p99)="
      ∷ format_latency_summary F fixed snapshot.latency
      ∷ [])

  unfoldable pub stream_summary : Text → ℕ → StreamMetricSnapshot F.Double → Text
  unfolding to_string
  stream_summary name stream_id snapshot = concat (
      codes "client stream summary: name="
      ∷ name
      ∷ codes " stream_id="
      ∷ to_string stream_id
      ∷ codes " sent_messages="
      ∷ to_string snapshot.sent_messages
      ∷ codes " echoed_messages="
      ∷ to_string snapshot.echoed_messages
      ∷ codes " sent_bytes="
      ∷ to_string snapshot.sent_bytes
      ∷ codes " echoed_bytes="
      ∷ to_string snapshot.echoed_bytes
      ∷ codes " latency_ms(p50/p75/p99)="
      ∷ format_latency_summary F fixed snapshot.latency
      ∷ [])

  unfoldable pub stream_detail : Text → ℕ → StreamMetricSnapshot F.Double → Text
  unfolding to_string
  stream_detail name stream_id snapshot = concat (
      codes "client stream latency detail: name="
      ∷ name
      ∷ codes " stream_id="
      ∷ to_string stream_id
      ∷ codes " "
      ∷ format_latency_detail_summary F fixed snapshot.latency_detail
      ∷ [])

  -- The two lines of a stream, and then those of the streams behind it; `none` where the profile's
  -- lookup throws or the metrics have no such entry.
  unfoldable pub stream_lines :
      Option StreamProfile → Option StreamMetrics → ℕ → Option (List Text) → Option (List Text)
  stream_lines (some profile) (some metrics) stream_id (some lines) =
      let s = snapshot F metrics in
      some
        (stream_summary profile.name stream_id s ∷ stream_detail profile.name stream_id s ∷ lines)
  stream_lines (some profile) (some metrics) stream_id none = none
  stream_lines (some profile) none stream_id lines = none
  stream_lines none metrics stream_id lines = none

  -- `left` ordinals from `ordinal` on; the identifier that is printed is `StreamIdFromOrdinal`'s
  -- with SCTP, and the ordinal itself with QUIC.
  unfoldable pub print_stream_summaries :
      AppConfig → (ℕ → ℕ) → List StreamMetrics → ℕ → ℕ → Option (List Text)
  unfolding stream_lines
  print_stream_summaries config id_of metrics zero ordinal = some []
  print_stream_summaries config id_of metrics (suc left) ordinal =
      stream_lines (stream_profile_for_ordinal config ordinal) (get_elem? metrics ordinal)
        (id_of ordinal) (print_stream_summaries config id_of metrics left (ordinal + 1))

  -- `SctpClient::PrintSummary` and `Client::PrintSummary`: the first line, and those of the streams
  unfoldable pub sctp_client_summary :
      AppConfig → StatsSnapshot → List StreamMetrics → Text × Option (List Text)
  unfolding client_summary print_stream_summaries
  sctp_client_summary config snapshot metrics = (
    client_summary snapshot,
    print_stream_summaries config (stream_id_from_ordinal config) metrics config.stream_count 0,
  )

  unfoldable pub quic_client_summary :
      AppConfig → StatsSnapshot → List StreamMetrics → Text × Option (List Text)
  unfolding client_summary print_stream_summaries
  quic_client_summary config snapshot metrics = (
    client_summary snapshot,
    print_stream_summaries config (λ ordinal. ordinal) metrics config.stream_count 0,
  )

  -- Without samples the three percentiles are not available.
  format_empty : format_latency_summary F fixed (build_latency_snapshot F []) ≡ codes "n/a/n/a/n/a"
  unfolding format_latency_summary format_latency_ms build_latency_snapshot
  format_empty = refl

  no_latencies :
      (samples : List ℕ)
      → samples ≡ []
      → format_latency_summary F fixed (build_latency_snapshot F samples) ≡ codes "n/a/n/a/n/a"
  no_latencies samples e =
      ap (λ x. format_latency_summary F fixed (build_latency_snapshot F x)) e ∙ format_empty

  summaries_agree :
      (s : Stats)
      → s.latency_samples ≡ []
      → quic_server_summary (snapshot_now F s) ≡ sctp_server_summary (snapshot_now F s)
  unfolding quic_server_summary sctp_server_summary snapshot_now
  summaries_agree s e =
      ap (◌++◌ (server_counts (snapshot_now F s))) (no_latencies s.latency_samples e)

-- The handlers of a stream of the QUIC server add no sample.
maybe_shutdown_stream-stats : (s : ServerStream) → (maybe_shutdown_stream s).stats ≡ s.stats
unfolding maybe_shutdown_stream
maybe_shutdown_stream-stats s = ground arith

module _ (accepts : Bytes → Bool) where
  send_frames-samples :
      (frames : List Bytes) (s : ServerStream)
      → (send_frames accepts frames s).0.stats.latency_samples ≡ s.stats.latency_samples
  unfolding send_frames add_sent add_received
  send_frames-samples [] s = refl
  send_frames-samples (frame ∷ frames) s = elim (Bool-cases (accepts frame)) [
    | inl e ↦ rw (e, send_frames) (send_frames-samples frames _)
    | inr e ↦ rw (e, send_frames) refl
  ]

  echo_frames-samples :
      (frames : List Bytes) (s : ServerStream)
      → (echo_frames accepts frames s).0.stats.latency_samples ≡ s.stats.latency_samples
  unfolding echo_frames
  echo_frames-samples frames s =
      let r = send_frames accepts frames s in
      elim (Bool-cases r.1) [
        | inl e ↦
            rw (e, echo_frames, maybe_shutdown_stream-stats r.0) (send_frames-samples frames s)
        | inr e ↦ rw (e, echo_frames) (send_frames-samples frames s)
      ]

  received-samples :
      (fin : Bool) (stop : Stop) (frames : List Bytes) (rest : Bytes) (s : ServerStream)
      → (received accepts fin
          (record { state = frames; buffer = rest; stop = stop })
          s).0.stats.latency_samples
        ≡ s.stats.latency_samples
  unfolding received
  received-samples fin need_more frames rest s = echo_frames-samples frames _
  received-samples fin (thrown e) frames rest s = refl
  received-samples fin out_of_fuel frames rest s = refl

  on_stream_event-samples :
      (config : AppConfig) (event : StreamEvent) (s : ServerStream)
      → (on_stream_event accepts config event s).0.stats.latency_samples ≡ s.stats.latency_samples
  unfolding on_stream_event
  on_stream_event-samples config (receive buffers fin) s = received-samples fin _ _ _ s
  on_stream_event-samples config send_complete s =
      ap (λ t. t.latency_samples) (maybe_shutdown_stream-stats _)
  on_stream_event-samples config peer_send_shutdown s =
      ap (λ t. t.latency_samples) (maybe_shutdown_stream-stats _)
  on_stream_event-samples config shutdown_complete s = refl
  on_stream_event-samples config other s = refl

  -- The statistics after events on a stream, whatever each returned.
  unfoldable pub stats_after : AppConfig → List StreamEvent → ServerStream → Stats
  stats_after config [] s = s.stats
  stats_after config (event ∷ events) s =
      stats_after config events (on_stream_event accepts config event s).0

  stats_after-samples :
      (config : AppConfig) (events : List StreamEvent) (s : ServerStream)
      → (stats_after config events s).latency_samples ≡ s.stats.latency_samples
  unfolding stats_after
  stats_after-samples config [] s = refl
  stats_after-samples config (event ∷ events) s =
      stats_after-samples config events _ ∙ on_stream_event-samples config event s

  -- From statistics without samples, after any events on a stream, the summary that the QUIC
  -- server formats is, for the same counters, the one whose latencies SctpServer writes as a
  -- constant.
  pub quic_server_summary-stats_after :
      (F : Float64) (fixed : F.Double → ℕ → Text) (config : AppConfig) (events : List StreamEvent)
      (s : ServerStream)
      → s.stats.latency_samples ≡ []
      → let snapshot = snapshot_now F (stats_after config events s) in
        quic_server_summary F fixed snapshot ≡ sctp_server_summary snapshot
  quic_server_summary-stats_after F fixed config events s e =
      summaries_agree F fixed _ (stats_after-samples config events s ∙ e)
