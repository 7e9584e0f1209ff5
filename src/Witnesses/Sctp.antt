-- ===== src/Witnesses/Sctp.antt =====
-- Instances of the theorems on `SctpConnection`.
use proto_test_msquic.Prelude.{
  ◌⊎◌, ◌≢◌, ℕ, ◌+◌, ◌≡◌, refl, Bool, true, false, List, [], ◌∷◌, arith, if◌then◌else◌,
}
use proto_test_msquic.Frame.{Bytes}
use proto_test_msquic.SctpConnection.{PendingSend, queue_send, close_send, close_tls}
use proto_test_msquic.SctpConnection.Send.{
  request, notified, see_nothing, fall_asleep, tested, asleep, System, Sender, waiting, sending,
  closing, enqueue, write_some, Step, push, request_close, take_next, write, write_done,
  see_request, shut_done, Reach, here, next, start,
}
use proto_test_msquic.SctpConnection.Send.Channel.{is_live, ◌⟶◌, channel, Step-refines}
use proto_test_msquic.SctpConnection.Send.Drain.{IsFinishable, IsLost, Reach-IsFinishable}
use proto_test_msquic.SctpConnection.Send.Closing.{Reach-wire_whole}
use proto_test_msquic.SctpConnection.Blocking.{
  took, interrupted, written, send_blocking, send_blocking-written,
}
use proto_test_msquic.SctpConnection.Receive.{Turn, got, end_of_stream, receive_loop}
use proto_test_msquic.SctpConnection.Receive.Closing.{closings, receive_loop-closings}

-- Three bytes for stream 1, a request to close, and the thread that sends them and shuts down.
abbrev message : PendingSend
message = record { stream_id = 1; data_bytes = 5 ∷ 6 ∷ 7 ∷ [] }

abbrev rest_of : PendingSend
rest_of = record { stream_id = 1; data_bytes = 6 ∷ 7 ∷ [] }

abbrev none_of : PendingSend
none_of = record { stream_id = 1; data_bytes = [] }

abbrev pushed : System
pushed = enqueue message start

abbrev requested : System
requested = request pushed

abbrev taken : System
taken = record requested {
  sender = sending message;
  connection = record (requested.connection) { pending_sends = [] };
}

abbrev one_written : System
one_written = write_some 1 message taken

abbrev all_written : System
all_written = write_some 2 rest_of one_written

abbrev idle_again : System
idle_again = record all_written { sender = waiting }

abbrev asked : System
asked = record idle_again { sender = closing }

abbrev shut_down : System
shut_down = record asked { sender = Sender.ended; write_shut = true }

not_tested : start.sender ≢ tested
unfolding start
not_tested = λ h. cc

take_it : Step requested taken
unfolding start request notified enqueue queue_send close_send close_tls
take_it = take_next requested message [] refl refl

write_one : Step taken one_written
write_one = write taken message 1 refl (omega arith)

write_rest : Step one_written all_written
unfolding write_some
write_rest = write one_written rest_of 2 refl (omega arith)

rest_done : Step all_written idle_again
unfolding write_some
rest_done = write_done all_written none_of refl refl

see_it : Step idle_again asked
unfolding start request notified enqueue queue_send close_send close_tls write_some
see_it = see_request idle_again refl refl refl

whole_run : Reach start shut_down
whole_run =
    next
      (next
        (next
          (next
            (next
              (next (next (next here (push start message not_tested)) (request_close pushed))
                take_it)
              write_one)
            write_rest)
          rest_done)
        see_it)
      (shut_done asked refl)

in_time : shut_down.late ≡ false
unfolding start request notified enqueue queue_send close_send close_tls write_some
in_time = refl

Reach-wire_whole_example :
    (shut_down.wire ≡ shut_down.accepted) × (shut_down.connection.send_closed ≡ true)
Reach-wire_whole_example = Reach-wire_whole whole_run refl in_time

Step-refines_example : channel taken ⟶ channel one_written
Step-refines_example = Step-refines write_one

send_blocking-written_example :
    send_blocking (took 1 ∷ interrupted ∷ took 2 ∷ []) (5 ∷ 6 ∷ 7 ∷ []) ≡ (5 ∷ 6 ∷ 7 ∷ [], written)
send_blocking-written_example =
    send_blocking-written (took 1 ∷ interrupted ∷ took 2 ∷ []) (5 ∷ 6 ∷ 7 ∷ []) refl (omega arith)

abbrev takes_all : ℕ → Bytes → Bool
takes_all stream bytes = true

abbrev turns : List Turn
turns =
    record { stop = false; read = got 1 (5 ∷ 6 ∷ []); closed = false }
    ∷ record { stop = false; read = end_of_stream; closed = false }
    ∷ []

receive_loop-closings_example :
    let r = receive_loop takes_all true turns start.connection in
    (closings r.0.calls ≡ closings start.connection.calls + (if r.1 then 1 else 0))
    × (r.1 ≡ true → r.0.closed ≡ true)
receive_loop-closings_example = receive_loop-closings takes_all true turns start.connection

-- The thread finds nothing to do, then the request comes, then the thread blocks.
abbrev looked : System
looked = record start { sender = tested }

abbrev missed : System
missed = request looked

abbrev lost : System
lost = record missed { sender = asleep }

look : Step start looked
unfolding start
look = see_nothing start refl refl refl

block : Step missed lost
unfolding start request notified
block = fall_asleep missed refl

lost_run : Reach start lost
lost_run = next (next (next here look) (request_close looked)) block

running : is_live lost.sender ≡ true
unfolding is_live
running = refl

wants_close : lost.connection.send_close_requested ≡ true
unfolding start request close_send close_tls
wants_close = refl

open_yet : lost.connection.closed ≡ false
unfolding start request close_send close_tls
open_yet = refl

early : lost.late ≡ false
unfolding start request
early = refl

Reach-IsFinishable_example : IsFinishable lost ⊎ IsLost lost
Reach-IsFinishable_example = Reach-IsFinishable lost_run running wants_close open_yet early
