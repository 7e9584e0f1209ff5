-- ===== src/LoadServer.antt =====
-- `LoadServerController`: the echo server behind the SCTP transport.
-- Its callbacks run under one mutex, so they are steps on one state. A connection is known by its
-- identifier; `SendCopy` is the transport's, and whether a call of it throws is a parameter.
pub mod Echo
pub mod Isolation
use proto_test_msquic.Prelude.{
  ℕ, zero, suc, ◌≡◌, ap, Bool, true, false, List, [], ◌∷◌, ◌++◌, Option, none, some, length, Map,
  find, put, erase, find_or, if◌then◌else◌,
}
use proto_test_msquic.Config.Load.{AppConfig}
use proto_test_msquic.Frame.{
  Bytes, FrameError, Stop, need_more, thrown, out_of_fuel, LoopEnd, drain, collect,
}
use proto_test_msquic.Stats.{Stats, add_sent, add_received}

-- `LoadServerConnectionState`; `connection`, the way back to the transport, is the map's key.
pub record ServerConnection : Type 0 where
  pub receive_buffers : Map Bytes
  pub peer_closed : Bool

abbrev pub new_connection : ServerConnection
new_connection = record { receive_buffers = []; peer_closed = false }

-- What leaves a callback that throws: the frame loop's exception, or that of `SendCopy`.
pub data HandlerError : Type 0 where
  bad_frame : FrameError → HandlerError
  send_failed : HandlerError

-- A frame handed to `SendCopy` on a stream of a connection.
pub record SendCall : Type 0 where
  pub connection_id : ℕ
  pub stream_id : ℕ
  pub data_bytes : Bytes

pub record Server : Type 0 where
  pub connections : Map ServerConnection
  pub stats : Stats
  pub sent : List SendCall

unfoldable pub on_connected : ℕ → Server → Server
unfolding find_or put
on_connected connection_id s = record s {
  connections =
      put connection_id (find_or connection_id new_connection s.connections) s.connections;
}

-- The bytes that a stream's buffer holds.
unfoldable pub buffer_of : ℕ → ℕ → Server → Bytes
unfolding find_or
buffer_of connection_id stream_id s =
    find_or stream_id [] (find_or connection_id new_connection s.connections).receive_buffers

pub buffer_of-connections :
    (c stream : ℕ) (s t : Server)
    → s.connections ≡ t.connections
    → buffer_of c stream s ≡ buffer_of c stream t
unfolding buffer_of
buffer_of-connections c stream s t e =
    ap (λ m. find_or stream [] (find_or c new_connection m).receive_buffers) e

unfoldable pub set_buffer : ℕ → ℕ → Bytes → Server → Server
unfolding find_or put
set_buffer connection_id stream_id bytes s =
    let state = find_or connection_id new_connection s.connections in
    record s {
      connections =
          put connection_id
            (record state { receive_buffers = put stream_id bytes state.receive_buffers })
            s.connections;
    }

-- `for (frame : sends) { SendCopy; AddReceived; AddSent; }`, which ends at the first throw.
module _ (accepts : ℕ → ℕ → Bytes → Bool) where
  unfoldable pub echo_frames : ℕ → ℕ → List Bytes → Server → Server × Option HandlerError
  unfolding add_sent add_received
  echo_frames connection_id stream_id [] s = (s, none)
  echo_frames connection_id stream_id (frame ∷ frames) s =
      let rest = echo_frames connection_id stream_id frames (record s {
        sent =
            s.sent
            ++ record { connection_id = connection_id; stream_id = stream_id; data_bytes = frame }
              ∷ [];
        stats = add_sent (add_received s.stats (length frame)) (length frame);
      }) in
      if accepts connection_id stream_id frame then rest else (s, some send_failed)

  -- The frames taken off are lost when the loop throws: they stand in a local vector.
  unfoldable pub echo_or_throw :
      ℕ → ℕ → LoopEnd (List Bytes) → Server → Server × Option HandlerError
  unfolding echo_frames
  echo_or_throw connection_id stream_id r s = elim r.stop [
    | need_more ↦ echo_frames connection_id stream_id r.state s
    | thrown e ↦ (s, some (bad_frame e))
    | out_of_fuel ↦ (s, none)
  ]

  unfoldable pub on_data : AppConfig → ℕ → ℕ → Bytes → Server → Server × Option HandlerError
  on_data config connection_id stream_id bytes s =
      let r = drain collect config.message_size (buffer_of connection_id stream_id s ++ bytes) [] in
      echo_or_throw connection_id stream_id r (set_buffer connection_id stream_id r.buffer s)

unfoldable pub on_peer_closed : ℕ → Server → Server
unfolding find put
on_peer_closed connection_id s = elim (find connection_id s.connections) [
  | none ↦ s
  | some state ↦ record s {
    connections = put connection_id (record state { peer_closed = true }) s.connections;
  }
]

unfoldable pub on_closed : ℕ → Server → Server
unfolding erase
on_closed connection_id s = record s { connections = erase connection_id s.connections }
