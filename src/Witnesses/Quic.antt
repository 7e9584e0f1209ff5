-- ===== src/Witnesses/Quic.antt =====
-- Instances of the theorems on the QUIC handlers.
use proto_test_msquic.Prelude.{
  ◌⊎◌, tally, ℕ, ◌+◌, ◌≤◌, ◌<◌, ◌^◌, ◌≡◌, ◌≢◌, refl, Bool, true, false, [], ◌∷◌, ◌++◌, ap, sym,
  append-nil, ◌∙◌, length, arith,
}
use proto_test_msquic.Prelude.Float.{milli}
use proto_test_msquic.Config.Load.{default_config}
use proto_test_msquic.Frame.{Bytes}
use proto_test_msquic.Stats.{Stats}
use proto_test_msquic.Config.Text.{codes}
use proto_test_msquic.Frame.{drain, collect}
use proto_test_msquic.Frame.Peek.{peek_short}
use proto_test_msquic.Frame.Loop.{drain_stop}
use proto_test_msquic.Frame.Chunks.{drain-concat}
use proto_test_msquic.LoadClient.Message.{make_frame, make_frame-IsFrame}
use proto_test_msquic.QuicClient.Events
use proto_test_msquic.QuicClient.Events.{receive}
use proto_test_msquic.QuicClient.Window.{IsWindowed, AreWindowed}
use proto_test_msquic.QuicClient.Window.Echoes.{echoes, on_stream_event-AreWindowed}
use proto_test_msquic.QuicClient.{QuicClient, StreamContext}
use proto_test_msquic.QuicClient.Send
use proto_test_msquic.QuicClient.Send.{send_loop, shut_drained}
use proto_test_msquic.QuicClient.Send.Bounds.{send_loop-bounds}
use proto_test_msquic.QuicClient.Send.Finish.{
  any_running, shutdowns_at, running_at, AreEchoed, shut_drained-running,
}
use proto_test_msquic.QuicSetup.{configure}
use proto_test_msquic.QuicSetup.Handles.{
  configuration, openings, closings, lifetime, lost_configuration, lifetime-handles,
}
use proto_test_msquic.QuicServer.{
  peer_send_shutdown, ServerStream, success, on_stream_event, maybe_shutdown_stream,
}
use proto_test_msquic.QuicServer.Shutdown.{
  shutdowns, IsOnce, IsSettled, on_stream_event-IsOnce, on_stream_event-IsSettled,
}
use proto_test_msquic.QuicServer.Accounting.{
  sends, completions, IsAccounted, on_stream_event-IsAccounted,
}

abbrev ticks : ℕ → ℕ
ticks k = k + 100

abbrev no_stats : Stats
no_stats = record {
  sent_bytes = 0;
  recv_bytes = 0;
  sent_messages = 0;
  recv_messages = 0;
  latency_samples = [];
}

abbrev stream : ServerStream
stream = record {
  context = record {
    receive_buffer = [];
    pending_sends = 0;
    peer_finished = false;
    shutdown_started = false;
  };
  stats = no_stats;
  calls = [];
}

abbrev accepts_all : Bytes → Bool
accepts_all bytes = true

once : IsOnce stream
unfolding shutdowns
once = record { counted = refl; after_peer = λ h. h }

on_stream_event-IsOnce_example :
    IsOnce (on_stream_event accepts_all default_config peer_send_shutdown stream).0
on_stream_event-IsOnce_example =
    on_stream_event-IsOnce accepts_all default_config peer_send_shutdown stream once

settled : IsSettled stream
unfolding IsSettled
settled = λ f p. f

finishes : (on_stream_event accepts_all default_config peer_send_shutdown stream).1 ≡ success
unfolding on_stream_event
finishes = refl

on_stream_event-IsSettled_example :
    IsSettled (on_stream_event accepts_all default_config peer_send_shutdown stream).0
on_stream_event-IsSettled_example =
    on_stream_event-IsSettled accepts_all default_config peer_send_shutdown stream settled finishes

none_sent : IsAccounted 0 stream
unfolding sends
none_sent = refl

no_completion : 0 + completions peer_send_shutdown ≤ sends stream.calls
unfolding sends completions
no_completion = omega arith

few_sent :
    sends (on_stream_event accepts_all default_config peer_send_shutdown stream).0.calls < 2 ^ 32
unfolding sends on_stream_event maybe_shutdown_stream
few_sent = omega arith

on_stream_event-IsAccounted_example :
    IsAccounted
      (0 + completions peer_send_shutdown)
      (on_stream_event accepts_all default_config peer_send_shutdown stream).0
on_stream_event-IsAccounted_example =
    on_stream_event-IsAccounted accepts_all default_config peer_send_shutdown 0 stream none_sent
      no_completion finishes few_sent

abbrev stream_accepts : ℕ → Bytes → Bool
stream_accepts ordinal bytes = true

abbrev quic : QuicClient ℕ
quic = record {
  connection = record {
    index = 0;
    has_connection = true;
    stream_contexts =
        record {
          profile = record {
            name = codes "video";
            message_size = 64;
            max_inflight = 4;
            send_pps = 0;
          };
          receive_buffer = [];
          next_sequence = 5;
          echoed_messages = 5;
          next_send_time_ns = 0;
          stream_started = true;
          shutdown_started = false;
          closed = false;
        }
        ∷ [];
    next_send_time_ns = 0;
    next_send_stream_ordinal = 0;
    connected = true;
    closed = false;
  };
  stats = no_stats;
  stream_metrics = [];
  stop_sending = true;
  active_connections = 1;
  clock_reads = 0;
  calls = [];
  undefined = false;
}

send_loop-bounds_example :
    let r = send_loop milli ticks default_config stream_accepts 3 4 0 quic in
    (r.1.1 ≢ Send.out_of_fuel) × (r.1.0 ≤ 3)
send_loop-bounds_example =
    send_loop-bounds milli ticks default_config stream_accepts 3 4 0 quic (omega arith)
      (omega arith)

shut_drained-running_example :
    let r = shut_drained milli ticks default_config stream_accepts quic in
    let streams = quic.connection.stream_contexts in
    (AreEchoed milli streams
      × (any_running milli r.connection.stream_contexts ≡ false)
      × ((j : ℕ)
          → tally (shutdowns_at j) r.calls
            ≡ tally (shutdowns_at j) quic.calls + running_at milli j streams))
    ⊎ (¬ AreEchoed milli streams × (r ≡ quic))
shut_drained-running_example =
    shut_drained-running milli ticks default_config stream_accepts quic refl

-- A stream of the QUIC client with two messages in flight.
abbrev waiting : StreamContext ℕ
waiting = record {
  profile = record { name = codes "video"; message_size = 26; max_inflight = 4; send_pps = 0 };
  receive_buffer = [];
  next_sequence = 5;
  echoed_messages = 3;
  next_send_time_ns = 0;
  stream_started = true;
  shutdown_started = false;
  closed = false;
}

abbrev echoing_client : QuicClient ℕ
echoing_client = record {
  connection = record {
    index = 0;
    has_connection = true;
    stream_contexts = waiting ∷ [];
    next_send_time_ns = 0;
    next_send_stream_ordinal = 0;
    connected = true;
    closed = false;
  };
  stats = no_stats;
  stream_metrics = [];
  stop_sending = false;
  active_connections = 1;
  clock_reads = 0;
  calls = [];
  undefined = false;
}

one_echo : echoes milli (receive (make_frame 26 3 7 ∷ [])) waiting ≡ 1
unfolding echoes
one_echo =
    ap (λ b. length (drain collect 26 b []).state) (sym (append-nil (make_frame 26 3 7 ++ [])))
    ∙ ap (λ r. length r.state)
        (drain-concat 26 (make_frame 26 3 7 ∷ []) [] [] (
          make_frame-IsFrame 26 3 7 (omega arith) (omega arith) (omega arith) (omega arith) 26,
          tt,
        )
          ∙ drain_stop collect 26 [] (make_frame 26 3 7 ∷ []) (peek_short 26 [] (omega arith)))

few_echoes : echoes milli (receive (make_frame 26 3 7 ∷ [])) waiting ≤ Send.inflight milli waiting
unfolding Send.inflight
few_echoes = omega (arith, one_echo)

windowed : IsWindowed milli waiting
unfolding Send.inflight
windowed = record { within = omega arith; sequence_fits = omega arith; echoed_fits = omega arith }

on_stream_event-AreWindowed_example :
    AreWindowed milli
      (Events.on_stream_event milli ticks default_config stream_accepts
        (receive (make_frame 26 3 7 ∷ []))
        0
        waiting
        echoing_client).0
on_stream_event-AreWindowed_example =
    on_stream_event-AreWindowed milli ticks default_config stream_accepts
      (receive (make_frame 26 3 7 ∷ [])) 0 waiting echoing_client refl few_echoes (windowed, tt)

-- The credential of a server that MsQuic refuses.
lifetime-handles_example :
    let calls = lifetime true true (λ q alpn. true) (λ c. false) default_config false in
    tally (openings configuration) calls
    ≡ tally (closings configuration) calls
      + lost_configuration true true
          (configure (λ q alpn. true) (λ c. false) default_config false)
          configuration
lifetime-handles_example =
    lifetime-handles true true (λ q alpn. true) (λ c. false) default_config false configuration
