-- ===== src/SctpTransport.antt =====
-- `SctpServerTransport` and `SctpClientTransport`: the socket options, and the table of
-- connections that both keep. SctpTransport/Tls has `SctpTlsContext`, SctpTransport/Server and
-- SctpTransport/Client what the transports do, SctpTransport/Poll the threads that poll.
pub mod Streams
pub mod Tls
pub mod Resolve
pub mod Descriptors
pub mod Server
pub mod ServerBalance
pub mod ServerStop
pub mod Client
pub mod ClientStop
pub mod Poll
pub mod PollReports
use proto_test_msquic.Prelude.{
  ℕ, ◌+◌, ◌*◌, ◌%◌, ◌^◌, Bool, true, false, not, List, [], ◌∷◌, ◌++◌, Option, none, some, Map, ◌==◌,
  if◌then◌else◌,
}
use proto_test_msquic.Config.Load.{AppConfig}
use proto_test_msquic.SctpConnection.{Connection, close, finish}

-- The options with the values they are set to.
pub data SocketOption : Type 0 where
  reuse_addr snd_buf rcv_buf fragment_interleave nodelay default_sndinfo : ℕ → SocketOption
  initmsg : ℕ → ℕ → SocketOption
  recvrcvinfo : ℕ → SocketOption
  events : SocketOption

-- `sctp_stream_id + stream_count` as an unsigned int, cast to `uint16_t`
unfoldable pub negotiated_streams : AppConfig → ℕ
negotiated_streams config = (config.sctp_stream_id + config.stream_count) % 2 ^ 32 % 2 ^ 16

-- The calls of `setsockopt` in `SctpClientTransport::ConfigureSocket`, in order.
unfoldable pub client_options : AppConfig → List SocketOption
unfolding negotiated_streams
client_options config =
    snd_buf (4 * 1024 * 1024)
    ∷ rcv_buf (4 * 1024 * 1024)
    ∷ fragment_interleave 2
    ∷ nodelay (if config.sctp_nodelay then 1 else 0)
    ∷ default_sndinfo config.sctp_stream_id
    ∷ initmsg (negotiated_streams config) (negotiated_streams config)
    ∷ recvrcvinfo 1
    ∷ (if config.sctp_tls then events ∷ [] else [])

-- The same of `SctpServerTransport`.
unfoldable pub server_options : AppConfig → List SocketOption
unfolding negotiated_streams
server_options config =
    reuse_addr 1
    ∷ snd_buf (4 * 1024 * 1024)
    ∷ rcv_buf (4 * 1024 * 1024)
    ∷ fragment_interleave 2
    ∷ nodelay (if config.sctp_nodelay then 1 else 0)
    ∷ default_sndinfo config.sctp_stream_id
    ∷ initmsg (negotiated_streams config) (negotiated_streams config)
    ∷ recvrcvinfo 1
    ∷ (if config.sctp_tls then events ∷ [] else [])

-- `ConfigureSocket`, given which calls succeed: the first failure throws.
unfoldable pub configure_socket : (SocketOption → Bool) → List SocketOption → Bool
configure_socket sets [] = true
configure_socket sets (o ∷ os) =
    let rest = configure_socket sets os in if sets o then rest else false

-- A connection with its descriptor, as `connections_` holds it.
pub record Entry : Type 0 where
  pub fd : ℕ
  pub connection : Connection

-- What `Start` and the threads ask of the system and of the handler, in order.
pub data TransportCall : Type 0 where
  -- a descriptor that `socket` or `accept` returned, and `::close` by the transport itself
  socket_opened socket_closed : ℕ → TransportCall
  listening : ℕ → TransportCall
  connecting : ℕ → TransportCall
  on_connected : ℕ → TransportCall
  -- an exception after the connection with this descriptor has entered the table
  on_connected_threw : ℕ → TransportCall
  -- an exception after `connect`, before a connection has this descriptor
  handshake_threw : ℕ → TransportCall
  receive_started : ℕ → TransportCall
  on_transport_error polling_started : TransportCall

-- `std::make_shared<SctpConnection>`
unfoldable pub new_connection : Bool → ℕ → Entry
new_connection tls fd = record {
  fd = fd;
  connection = record {
    uses_tls = tls;
    fd_open = true;
    closed = false;
    send_closed = false;
    send_close_requested = false;
    pending_sends = [];
    calls = [];
  };
}

-- `HandlePollEvents` or `ReceiveLoop` of the connection `id` ends with `Close` and `OnClosed`.
unfoldable pub end_connection : ℕ → Map Entry → Map Entry
end_connection id [] = []
end_connection id ((j, e) ∷ m) =
    (j, if j == id then record e { connection = finish e.connection } else e) ∷ end_connection id m

-- The tail of both `Stop`s: every connection taken from the table is closed.
unfoldable pub close_entries : Map Entry → Map Entry
close_entries [] = []
close_entries ((id, e) ∷ m) = (id, record e { connection = close e.connection }) ∷ close_entries m
