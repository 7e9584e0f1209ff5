-- ===== src/Witnesses/Echoes.antt =====
-- Instances of the theorems on what comes back: echoes over SCTP and QUIC, and what is printed.
use mathlib.Core.List.Perm
use proto_test_msquic.Prelude.{
  some, ℕ, ◌+◌, ◌<◌, ◌≡◌, refl, Bool, true, false, List, [], ◌∷◌, ◌++◌, none, find, find_or, length,
  take, drop, concat, append-nil, arith,
}
use proto_test_msquic.Prelude.Float.{milli}
use proto_test_msquic.Config.Text.{Text, codes}
use proto_test_msquic.Config.Load.{default_config}
use proto_test_msquic.Frame.{Bytes, encode_header, le_bytes}
use proto_test_msquic.Frame.Peek.{IsFrame, peek_short}
use proto_test_msquic.Stats.{Stats, sent, received, latency, StatsCall, record_calls, add64}
use proto_test_msquic.Stats.Percentile.{snapshot_now}
use proto_test_msquic.Stats.Percentile.Unordered.{snapshot_now-perm}
use proto_test_msquic.Printer.{PrinterTurn, start_printer, print_rounds}
use proto_test_msquic.Printer.Rounds.{lines, start_printer-lines}
use proto_test_msquic.Printer.Summary.{
  sctp_server_summary, quic_server_summary, stats_after, quic_server_summary-stats_after,
}
use proto_test_msquic.LoadServer.{Server, buffer_of}
use proto_test_msquic.LoadServer.Echo
use proto_test_msquic.LoadClient.{ClientStream, ClientConnection, Client}
use proto_test_msquic.LoadClient.Message.{make_frame, payload, make_frame-IsFrame}
use proto_test_msquic.LoadClient.Receive.Chunks.{stream_of}
use proto_test_msquic.LoadClient.Receive.Stream.{Holds, on_chunks, on_chunks_counted}
use proto_test_msquic.LoadClient.Profile.{stream_profile_for_ordinal, default_stream_profile}
use proto_test_msquic.Config.Profiles.{StreamProfile}
use proto_test_msquic.LoadClient.Wire.{frames_copied}
use proto_test_msquic.EndToEnd.{bytes_to, pump_all, round_trip}
use proto_test_msquic.QuicServer.{receive, send_complete, ServerStream, success, StreamEvent}
use proto_test_msquic.QuicServer.Echo.{
  all_bytes, event_bytes, frames_sent, on_events, on_events_echo,
}

abbrev frame : Bytes
frame = make_frame 26 5 7

frame-IsFrame : (fallback : ℕ) → IsFrame fallback frame
frame-IsFrame = make_frame-IsFrame 26 5 7 (omega arith) (omega arith) (omega arith) (omega arith)

abbrev no_stats : Stats
no_stats = record {
  sent_bytes = 0;
  recv_bytes = 0;
  sent_messages = 0;
  recv_messages = 0;
  latency_samples = [];
}

abbrev calls : List StatsCall
calls = latency 5 ∷ latency 3 ∷ []

abbrev swapped_calls : List StatsCall
swapped_calls = latency 3 ∷ latency 5 ∷ []

snapshot_now-perm_example :
    snapshot_now milli (record_calls calls no_stats)
    ≡ snapshot_now milli (record_calls swapped_calls no_stats)
snapshot_now-perm_example =
    snapshot_now-perm milli calls swapped_calls no_stats (Perm.swap (latency 3) (latency 5) [])

abbrev fixed : ℕ → ℕ → Text
fixed value digits = value ∷ digits ∷ []

abbrev turns : List PrinterTurn
turns =
    record {
      stop_requested = false;
      calls = sent 1000 ∷ received 500 ∷ latency 7 ∷ [];
      now_ns = 2000000000;
    }
    ∷ []

start_printer-lines_example :
    (print_rounds milli fixed (codes "client") turns (start_printer milli fixed no_stats 0)).output
    ≡ lines milli fixed (codes "client") 0 no_stats turns
start_printer-lines_example =
    start_printer-lines milli fixed (codes "client") turns no_stats 0 (record {
      sent_bytes_fits = omega arith;
      recv_bytes_fits = omega arith;
      recv_messages_fits = omega arith;
    })

abbrev stream : ServerStream
stream = record {
  context = record {
    receive_buffer = [];
    pending_sends = 0;
    peer_finished = false;
    shutdown_started = false;
  };
  stats = no_stats;
  calls = [];
}

abbrev accepts_all : Bytes → Bool
accepts_all bytes = true

abbrev events : List StreamEvent
events = receive (take 10 frame ∷ []) false ∷ send_complete ∷ receive (drop 10 frame ∷ []) true ∷ []

quic_server_summary-stats_after_example :
    let snapshot = snapshot_now milli (stats_after accepts_all default_config events stream) in
    quic_server_summary milli fixed snapshot ≡ sctp_server_summary snapshot
quic_server_summary-stats_after_example =
    quic_server_summary-stats_after accepts_all milli fixed default_config events stream refl

one_frame : all_bytes events ≡ concat (frame ∷ []) ++ []
unfolding all_bytes event_bytes make_frame encode_header le_bytes payload
one_frame = refl

on_events_echo_example :
    let t = on_events accepts_all default_config events stream in
    (t.1 ≡ success)
    × (frames_sent t.0.calls ≡ frames_sent stream.calls ++ frame ∷ [])
    × (t.0.context.receive_buffer ≡ [])
on_events_echo_example =
    on_events_echo accepts_all default_config (λ w. refl) events (frame ∷ []) [] stream refl
      one_frame (frame-IsFrame 1024, tt) (peek_short 1024 [] (omega arith))

abbrev ticks : ℕ → ℕ
ticks k = k + 100

abbrev sends_all : ℕ → ℕ → Bytes → Bool
sends_all c i bytes = true

abbrev shuts_all : ℕ → Bool
shuts_all c = true

every_profile :
    (i : ℕ)
    → i < default_config.stream_count
    → (p : StreamProfile) × (stream_profile_for_ordinal default_config i ≡ some p)
unfolding stream_profile_for_ordinal
every_profile i h = (default_stream_profile default_config, refl)

-- A stream with two messages in flight.
abbrev waiting : ClientStream ℕ
waiting = record {
  profile = record { name = codes "video"; message_size = 26; max_inflight = 4; send_pps = 0 };
  receive_buffer = [];
  next_sequence = 5;
  echoed_messages = 3;
  next_send_time_ns = 0;
}

abbrev connection : ClientConnection ℕ
connection = record {
  has_connection = true;
  streams = (0, waiting) ∷ [];
  next_send_time_ns = 0;
  next_send_stream_ordinal = 0;
  connected = true;
  send_closed = false;
}

abbrev client : Client ℕ
client = record {
  states = (0, connection) ∷ [];
  closed_connections = [];
  stats = no_stats;
  stream_metrics = [];
  stop_sending = false;
  global_next_send_time_ns = 0;
  next_paced_connection_index = 0;
  clock_reads = 0;
  actions = [];
  undefined = false;
}

client-Holds :
    Holds milli ticks default_config sends_all shuts_all 0 0 waiting.profile [] 3 0 client
unfolding stream_of find_or find
client-Holds = record {
  profile_is = refl;
  buffer_is = refl;
  echoes_are = refl;
  received_are = refl;
}

cut_frame : concat (take 10 frame ∷ drop 10 frame ∷ []) ≡ concat (frame ∷ []) ++ []
unfolding make_frame encode_header le_bytes payload
cut_frame = refl

on_chunks_counted_example :
    let t =
      on_chunks milli ticks default_config sends_all shuts_all 0 0
        (take 10 frame ∷ drop 10 frame ∷ [])
        client in
    (t.1 ≡ none)
    × Holds milli ticks default_config sends_all shuts_all 0 0 waiting.profile []
        (add64 3 1)
        (add64 0 1)
        t.0
on_chunks_counted_example =
    on_chunks_counted milli ticks default_config sends_all shuts_all 0 0 (λ i j w. refl) (λ i. refl)
      (omega arith) every_profile (take 10 frame ∷ drop 10 frame ∷ []) (frame ∷ []) []
      waiting.profile 3 0 client refl (omega arith) (omega arith) client-Holds cut_frame
      (frame-IsFrame 26, tt) (peek_short 26 [] (omega arith))

abbrev server : Server
server = record { connections = []; stats = no_stats; sent = [] }

nothing_buffered : buffer_of 7 0 server ≡ []
unfolding buffer_of find_or find
nothing_buffered = refl

nothing_sent : bytes_to 7 0 [] ≡ []
unfolding bytes_to
nothing_sent = refl

abbrev steady : ℕ → ℕ
steady k = 100

-- The stream before its messages, and two calls that send three of them.
abbrev starting : Client ℕ
starting = record client {
  states = (0, record connection { streams = (0, record waiting { next_sequence = 3 }) ∷ [] }) ∷ [];
}

abbrev pumped : Client ℕ
pumped =
    pump_all milli steady default_config default_config sends_all sends_all shuts_all
      (λ i j w. refl) (λ i j w. refl) (λ i. refl) (λ k. omega arith) (omega arith) every_profile 0 0
      7 0 (2 ∷ 1 ∷ []) starting

abbrev up : List Bytes
up = concat (frames_copied 0 0 pumped.actions) ∷ []

abbrev down : List Bytes
down = bytes_to 7 0 (Echo.on_chunks sends_all default_config 7 0 up server).0.sent ∷ []

starting-Holds :
    Holds milli steady default_config sends_all shuts_all 0 0 waiting.profile [] 3 0 starting
unfolding stream_of find_or find
starting-Holds = record {
  profile_is = refl;
  buffer_is = refl;
  echoes_are = refl;
  received_are = refl;
}

starting_number : (stream_of milli 0 0 starting).next_sequence ≡ 3
unfolding stream_of find_or find
starting_number = refl

nothing_given : frames_copied 0 0 starting.actions ≡ []
unfolding frames_copied
nothing_given = refl

round_trip_example :
    let served = Echo.on_chunks sends_all default_config 7 0 up server in
    let back = on_chunks milli steady default_config sends_all shuts_all 0 0 down pumped in
    ((stream_of milli 0 0 pumped).next_sequence
      ≡ add64 3 (length (frames_copied 0 0 pumped.actions)))
    × (served.1 ≡ none)
    × (back.1 ≡ none)
    × ((stream_of milli 0 0 back.0).echoed_messages ≡ (stream_of milli 0 0 pumped).next_sequence)
    × ((stream_of milli 0 0 back.0).receive_buffer ≡ [])
    × (back.0.stats.recv_messages ≡ add64 0 (length (frames_copied 0 0 pumped.actions)))
round_trip_example =
    round_trip milli steady default_config default_config sends_all sends_all shuts_all
      (λ i j w. refl) (λ i j w. refl) (λ i. refl) (λ k. omega arith) (omega arith) every_profile 0 0
      7 0 starting (2 ∷ 1 ∷ []) server up down waiting.profile 3 0 refl (omega arith) (omega arith)
      starting-Holds starting_number nothing_given (omega arith) (omega arith) nothing_buffered
      nothing_sent (append-nil _) (append-nil _)
