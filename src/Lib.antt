-- ===== src/Lib.antt =====
-- A model of the load tester in `src/main.cpp`: a client that sends numbered frames on the streams
-- of many connections, a server that echoes them, and the counting of both. The program runs over
-- SCTP or over QUIC (MsQuic).
--
-- The parts, and where they are modelled:
-- - Frame: `MessageHeader`, `TryPeekFrameSize` and the loop that takes frames off a receive
--   buffer, with the loop's body as a parameter, since four places of the program run it.
--   Frame/Codec is about the header's bytes, Frame/Peek about one look at the buffer, Frame/Loop
--   and Frame/Chunks about the loop.
-- - Config: `Args`, `ParseNumber`, `ParseStreamProfiles`, `LoadConfig`,
--   `ActiveSendConnectionCount`. A text is a list of bytes. `std::stoull` and `std::stoi` are
--   written out in Config/Number.
-- - Stats: the counters, 64-bit words that wrap, and the latencies with their percentiles;
--   Stats/Percentile/Unordered is about the threads that write them.
-- - Printer: `StatsPrinter` and the format functions, with Rounds about its loop; Printer/Summary has
--   what the programs print at their start and end.
-- - LoadServer: `LoadServerController`, the echo server behind the SCTP transport.
-- - LoadClient: `LoadClientController`; Profile, Message, Pacing, Pump and Sending (`PumpSends`),
--   Receive (`OnData`) and Control (connecting, closing, stopping, and the pacer's rounds).
--   Pump/Drained is about `AllStreamsDrained`, Pump/Frames and Wire are about the frames that `PumpSends` gives to `SendCopy`.
-- - SctpConnection: `SctpConnection`. Send has its sending thread beside the callers as a step
--   relation, with Channel (the channel that it refines), Order, Closing, Wait (its condition
--   variable) and Drain; Blocking the loops that write, Receive the loops that read.
-- - SctpTransport: `SctpServerTransport` and `SctpClientTransport`, with Tls (`SctpTlsContext`),
--   Resolve (`ResolveIpv4Address`), Server, Client and Poll; Descriptors, ServerBalance,
--   ServerStop and ClientStop are about what is opened and closed, PollReports about `OnClosed`,
--   Streams about the number of streams.
-- - QuicServer: the stream handler of `Server`, and Listen with its listeners and connections.
--   QuicServer/Echo is about what a stream sends back. QuicSetup: `Configuration`, with
--   Handles about what is opened and closed. QuicClient: the handlers of `Client`, with
--   Send (`PumpSends`, `StartStreams`), Events and Run (`StartConnections`, `Run`, the
--   pacer's rounds); Active, Handlers, Counted and Lifecycle are about the number of its connections, Window about its
--   streams' messages in flight.
-- - EndToEnd: a stream through both controllers of SCTP.
-- - Program: what `main` chooses, with Choices about it, and the loop of `SctpClient::Run`.
-- - Prelude: names and lemmas that the others share. Witnesses: concrete instances.
--
-- How the state corresponds: a class is a record of its fields, a `std::map` an ordered
-- association list, a callback a function from state to state. What a callback asks of the
-- transport is kept in order in a list. A throw is a value beside the state, so that what was
-- written before it stays. The callbacks of a controller run under one mutex and are atomic steps;
-- for `PumpSends` the part under the lock and the sending after it are one step. In the step
-- relation of SctpConnection/Send the test of the condition variable's predicate and the blocking
-- are two steps, and a notification between them has no effect. `NowNs` is a
-- function of the number of readings. `double` is the record `Float64` of Prelude/Float, an
-- argument of what uses it. Whether `SendCopy`, `CloseSend`, `StreamSend`, `StreamOpen` and
-- `StreamStart` succeed are arguments.
--
-- Bounds and fuel: the receive loop has as fuel the length of the buffer plus one, as each round
-- takes at least the 24 bytes of a header. The loop of `PumpSends` has `max_messages` plus one, as
-- each round that goes on adds a message. An index outside `stream_metrics_`, which is undefined
-- behaviour, sets a flag of the state. In SctpConnection and SctpTransport what the system,
-- OpenSSL and the handler's callbacks do is an argument: a list of results for a loop, a record of
-- outcomes for a round. A loop whose list runs out has not ended yet. The identifiers of the
-- server's connections wrap at 2^32.
--
-- Not modelled: threads that only wait, and their joining, the log of single events, how the
-- library prints a double (an argument of the format functions), signals, a build whose OpenSSL
-- has no SCTP, and the scripts under benchmarks/.
pub mod Prelude
pub mod Frame
pub mod Config
pub mod Stats
pub mod LoadServer
pub mod LoadClient
pub mod SctpConnection
pub mod SctpTransport
pub mod QuicSetup
pub mod QuicServer
pub mod QuicClient
pub mod EndToEnd
pub mod Printer
pub mod Program
pub mod Witnesses
