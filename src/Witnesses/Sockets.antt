-- ===== src/Witnesses/Sockets.antt =====
-- Instances of the theorems on the SCTP transports and on the QUIC client's connections.
use proto_test_msquic.Prelude.{
  ℕ, ◌+◌, ◌≡◌, refl, inl, Bool, true, false, List, [], ◌∷◌, Map, some, tally, arith,
}
use proto_test_msquic.Prelude.Float.{milli}
use proto_test_msquic.Frame.{Bytes}
use proto_test_msquic.Config.Load.{default_config}
use proto_test_msquic.SctpConnection.Receive.{end_of_stream}
use proto_test_msquic.SctpConnection.Receive.Closing.{closings}
use proto_test_msquic.SctpTransport.{SocketOption, Entry, new_connection}
use proto_test_msquic.SctpTransport.Descriptors.{opens, closes, throws, abandons, entry_closes}
use proto_test_msquic.SctpTransport.Server
use proto_test_msquic.SctpTransport.Server.{
  ListenTurn, Event, accepting, ended, accepted, run_events, new_server,
}
use proto_test_msquic.SctpTransport.ServerStop.{stop-descriptors}
use proto_test_msquic.SctpTransport.Client
use proto_test_msquic.SctpTransport.Client.{ConnectTurn, end_connections, new_client}
use proto_test_msquic.SctpTransport.ClientStop.{client_stop-descriptors}
use proto_test_msquic.SctpTransport.Poll.{PollTurn, poll_ready, server_loop, client_loop}
use proto_test_msquic.SctpTransport.PollReports.{AreReported, poll_loop-AreReported}
use proto_test_msquic.QuicClient.Active.{close_calls}
use proto_test_msquic.QuicClient.Events.{ConnectionEvent, connected}
use proto_test_msquic.QuicClient.Counted.{open_count}
use proto_test_msquic.QuicClient.Run.{
  QuicClients, ClientEvent, connection_event, pacer_round, RunTurn, run, start_connections,
  open_connections,
}
use proto_test_msquic.QuicClient.Lifecycle.{run-active_connections}

abbrev sets_all : SocketOption → Bool
sets_all o = true

abbrev listens_well : ℕ → ListenTurn
listens_well i = record {
  socket = some 3;
  sets = sets_all;
  primes = true;
  parses = true;
  binds = true;
  listens = true;
}

-- Descriptor 4 is accepted and served; 5 is accepted, and `OnConnected` throws.
abbrev served : List Event
served =
    accepting (
      accepted
        (record { fd = 4; sets = sets_all; shakes = true; constructs = true; connects = true }))
    ∷ ended 0
    ∷ accepting (
        accepted
          (record { fd = 5; sets = sets_all; shakes = true; constructs = true; connects = false }))
    ∷ []

stop-descriptors_example :
    let s =
      Server.stop (
        run_events default_config served (Server.start default_config listens_well new_server).0) in
    tally (closes 5) s.calls + tally (entry_closes 5) s.closed_connections
    ≡ tally (opens 5) s.calls + tally (throws 5) s.calls
stop-descriptors_example = stop-descriptors default_config listens_well served 5 (omega arith)

abbrev connects_well : ℕ → ConnectTurn
connects_well i = record {
  socket = some 3;
  sets = sets_all;
  primes = true;
  resolves = true;
  connects = true;
  shakes = true;
  constructs = true;
  takes = true;
}

client_stop-descriptors_example :
    let s =
      Client.stop
        (end_connections (0 ∷ []) (Client.start default_config connects_well new_client).0) in
    tally (closes 3) s.calls
      + tally (abandons 3) s.calls
      + tally (entry_closes 3) s.closed_connections
    ≡ tally (opens 3) s.calls
client_stop-descriptors_example = client_stop-descriptors default_config connects_well (0 ∷ []) 3

abbrev polled : List PollTurn
polled =
    record {
      stop = false;
      result = poll_ready;
      revents = λ id. some false;
      reads = λ id. record { stop = false; read = end_of_stream; closed = false } ∷ [];
    }
    ∷ []

abbrev takes_all : ℕ → Bytes → Bool
takes_all stream bytes = true

abbrev table : Map Entry
table = (0, new_connection true 4) ∷ []

fresh : AreReported table
unfolding new_connection closings
fresh = (inl refl, tt)

poll_loop-AreReported_example :
    AreReported (server_loop takes_all true polled table).connections
    × AreReported (client_loop takes_all true polled table).connections
poll_loop-AreReported_example = poll_loop-AreReported takes_all true polled table fresh

abbrev ticks : ℕ → ℕ
ticks k = k + 100

abbrev accepts_all : ℕ → Bytes → Bool
accepts_all ordinal bytes = true

abbrev succeeds : ℕ → Bool
succeeds i = true

abbrev nothing_yet : QuicClients ℕ
nothing_yet = record {
  connections = [];
  ports = [];
  shared = record {
    connection = record {
      index = 0;
      has_connection = false;
      stream_contexts = [];
      next_send_time_ns = 0;
      next_send_stream_ordinal = 0;
      connected = false;
      closed = false;
    };
    stats = record {
      sent_bytes = 0;
      recv_bytes = 0;
      sent_messages = 0;
      recv_messages = 0;
      latency_samples = [];
    };
    stream_metrics = [];
    stop_sending = false;
    active_connections = 0;
    clock_reads = 0;
    calls = [];
    undefined = false;
  };
}

-- The connection comes up and ends, and its end is told twice.
abbrev waits : List (RunTurn milli)
waits =
    record {
      stop_requested = false;
      past_deadline = true;
      past_drain_deadline = false;
      events =
          connection_event 0 succeeds succeeds connected
          ∷ pacer_round
          ∷ connection_event 0 succeeds succeeds ConnectionEvent.shutdown_complete
          ∷ [];
    }
    ∷ []

abbrev told_again : List (ClientEvent milli)
told_again = connection_event 0 succeeds succeeds ConnectionEvent.shutdown_complete ∷ []

starts_well : (start_connections milli default_config succeeds succeeds nothing_yet).1 ≡ true
unfolding start_connections open_connections
starts_well = refl

run-active_connections_example :
    let r =
      run milli ticks default_config accepts_all waits told_again
        (start_connections milli default_config succeeds succeeds nothing_yet).0 in
    (r.shared.active_connections ≡ open_count r.connections)
    × (tally close_calls r.shared.calls + r.shared.active_connections ≡ default_config.client_count)
run-active_connections_example =
    run-active_connections milli ticks default_config accepts_all succeeds succeeds waits told_again
      nothing_yet (omega arith) refl refl starts_well
