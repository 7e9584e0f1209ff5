-- ===== src/QuicServer/Listen.antt =====
-- `Server::StartListeners`, the end of `Server::Run`, and the events of listeners and connections.
-- Whether MsQuic's calls succeed is an argument.
use proto_test_msquic.Prelude.{
  ℕ, zero, suc, ◌+◌, ◌%◌, ◌^◌, Bool, true, false, List, [], ◌∷◌, ◌++◌, map, if◌then◌else◌,
}
use proto_test_msquic.Config.Load.{AppConfig}

-- A listener is named by its index; `listener_start` carries the port.
pub data ServerCall : Type 0 where
  listener_start : ℕ → ℕ → ServerCall
  listener_close : ℕ → ServerCall
  set_callback connection_set_configuration set_stream_callback connection_close : ServerCall

pub record Listeners : Type 0 where
  pub listeners : List ℕ
  pub calls : List ServerCall

-- The rounds from `i` on, and whether the function returns. `opens`, `parses` and `starts` are
-- `ListenerOpen`, the parsing of the address and `ListenerStart`.
unfoldable pub open_listeners :
    (ℕ → Bool) → Bool → (ℕ → Bool) → AppConfig → ℕ → ℕ → Listeners → Listeners × Bool
open_listeners opens parses starts config zero i s = (s, true)
open_listeners opens parses starts config (suc left) i s =
    let close = record s { calls = s.calls ++ listener_close i ∷ [] } in
    let rest = open_listeners opens parses starts config left (i + 1) (record {
      listeners = s.listeners ++ i ∷ [];
      calls = s.calls ++ listener_start i ((config.base_port + i) % 2 ^ 32 % 2 ^ 16) ∷ [];
    }) in
    if opens i
    then (if parses then (if starts i then rest else (close, false)) else (close, false))
    else (s, false)

unfoldable pub start_listeners :
    (ℕ → Bool) → Bool → (ℕ → Bool) → AppConfig → Listeners → Listeners × Bool
unfolding open_listeners
start_listeners opens parses starts config s =
    open_listeners opens parses starts config config.server_count 0 s

-- What `Run` does once a stop is requested.
unfoldable pub close_listeners : Listeners → Listeners
close_listeners s = record { listeners = []; calls = s.calls ++ map listener_close s.listeners }

-- `QUIC_LISTENER_EVENT`
pub data ListenerEvent : Type 0 where
  new_connection other : ListenerEvent

-- The calls, and whether the handler returns success; `configures` is
-- `ConnectionSetConfiguration`.
unfoldable pub on_listener_event : Bool → ListenerEvent → List ServerCall × Bool
on_listener_event configures new_connection =
    (set_callback ∷ connection_set_configuration ∷ [], configures)
on_listener_event configures other = ([], true)

-- `QUIC_CONNECTION_EVENT`; `other` has the events that are only logged.
pub data ConnectionEvent : Type 0 where
  peer_stream_started shutdown_complete other : ConnectionEvent

-- The calls, and whether a `ServerStreamContext` is made.
unfoldable pub on_connection_event : ConnectionEvent → List ServerCall × Bool
on_connection_event peer_stream_started = (set_stream_callback ∷ [], true)
on_connection_event shutdown_complete = (connection_close ∷ [], false)
on_connection_event other = ([], false)
