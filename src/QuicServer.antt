-- ===== src/QuicServer.antt =====
-- `Server`: the QUIC echo server of src/main.cpp, as the handlers of MsQuic's events. MsQuic is
-- outside: whether `StreamSend` accepts a buffer is a parameter, and what it is asked is recorded.
-- Its events for one stream come one after another, so a handler is a step on the stream's state.
pub mod Shutdown
pub mod Listen
pub mod Accounting
pub mod Echo
use proto_test_msquic.Prelude.{
  ℕ, ◌+◌, ◌-◌, ◌%◌, ◌^◌, ◌≡◌, Bool, true, false, ◌&&◌, ◌||◌, not, List, [], ◌∷◌, ◌++◌, length,
  concat, ltb, ◌==◌, if◌then◌else◌,
}
use proto_test_msquic.Config.Load.{AppConfig}
use proto_test_msquic.Frame.{
  Bytes, FrameError, Stop, need_more, thrown, out_of_fuel, LoopEnd, drain, collect,
}
use proto_test_msquic.Stats.{Stats, add_sent, add_received}

-- `QUIC_STREAM_EVENT`: the buffers of a RECEIVE and its FIN flag; `other` is the default case.
pub data StreamEvent : Type 0 where
  receive : List Bytes → Bool → StreamEvent
  send_complete peer_send_shutdown shutdown_complete other : StreamEvent

-- `ServerStreamContext`
pub record StreamContext : Type 0 where
  pub receive_buffer : Bytes
  pub pending_sends : ℕ
  pub peer_finished : Bool
  pub shutdown_started : Bool

-- The calls of MsQuic for a stream, in order; `stream_send` is one that was accepted.
pub data StreamCall : Type 0 where
  stream_send : Bytes → StreamCall
  stream_shutdown stream_close : StreamCall

pub record ServerStream : Type 0 where
  pub context : StreamContext
  pub stats : Stats
  pub calls : List StreamCall

-- A handler's return, or the exception that leaves it.
pub data Status : Type 0 where
  success send_failed : Status
  bad_frame : FrameError → Status

abbrev pub new_stream : Stats → ServerStream
new_stream stats = record {
  context = record {
    receive_buffer = [];
    pending_sends = 0;
    peer_finished = false;
    shutdown_started = false;
  };
  stats = stats;
  calls = [];
}

unfoldable pub maybe_shutdown_stream : ServerStream → ServerStream
maybe_shutdown_stream s =
    if s.context.peer_finished && (s.context.pending_sends == 0 && not s.context.shutdown_started)
    then record s {
      context = record (s.context) { shutdown_started = true };
      calls = s.calls ++ stream_shutdown ∷ [];
    }
    else s

module _ (accepts : Bytes → Bool) where
  -- `for (send : sends) { StreamSend; AddReceived; AddSent; }`, and whether all were accepted.
  unfoldable pub send_frames : List Bytes → ServerStream → ServerStream × Bool
  send_frames [] s = (s, true)
  send_frames (frame ∷ frames) s =
      let rest = send_frames frames (record s {
        calls = s.calls ++ stream_send frame ∷ [];
        stats = add_sent (add_received s.stats (length frame)) (length frame);
      }) in
      if accepts frame then rest else (s, false)

  -- What follows the lock of a RECEIVE.
  unfoldable pub echo_frames : List Bytes → ServerStream → ServerStream × Status
  echo_frames frames s =
      let r = send_frames frames s in
      if r.1 then (maybe_shutdown_stream r.0, success) else (r.0, send_failed)

  -- The rest of a RECEIVE when its loop has ended. At a throw the frames are lost, the count of
  -- them stays, and the FIN flag is not looked at.
  unfoldable pub received : Bool → LoopEnd (List Bytes) → ServerStream → ServerStream × Status
  received fin r s =
      let context = record (s.context) {
        receive_buffer = r.buffer;
        pending_sends = (s.context.pending_sends + length r.state) % 2 ^ 32;
      } in
      elim r.stop [
        | thrown e ↦ (record s { context = context }, bad_frame e)
        | out_of_fuel ↦ (record s { context = context }, success)
        | need_more ↦ echo_frames r.state (record s {
          context = record context { peer_finished = fin || s.context.peer_finished };
        })
      ]

  unfoldable pub on_stream_event : AppConfig → StreamEvent → ServerStream → ServerStream × Status
  on_stream_event config (receive buffers fin) s =
      received fin
        (drain collect config.message_size (s.context.receive_buffer ++ concat buffers) []) s
  on_stream_event config send_complete s = (
    maybe_shutdown_stream (record s {
      context = record (s.context) {
        pending_sends =
            if ltb 0 s.context.pending_sends
            then s.context.pending_sends - 1
            else s.context.pending_sends;
      };
    }),
    success,
  )
  on_stream_event config peer_send_shutdown s = (
    maybe_shutdown_stream (record s { context = record (s.context) { peer_finished = true } }),
    success,
  )
  on_stream_event config shutdown_complete s =
      (record s { calls = s.calls ++ stream_close ∷ [] }, success)
  on_stream_event config other s = (s, success)
