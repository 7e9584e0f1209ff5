-- ===== src/Witnesses/Wire.antt =====
-- Instances of the theorems on frames, on the SCTP echo server and on the latencies.
use native.Mathlib.Nat.{mul-le-mul_right}
use mathlib.Core.List.{Mem}
use proto_test_msquic.Prelude.{
  leb, ◌/◌, ℕ, ◌*◌, ◌≤◌, ◌≡◌, ◌≢◌, refl, ap, Bool, true, [], ◌∷◌, ◌++◌, none, find, find_or, length,
  length-take, take, drop, concat, arith,
}
use proto_test_msquic.Prelude.Float.{IsMonotone, milli}
use proto_test_msquic.Config.Load.{default_config}
use proto_test_msquic.Frame.{
  Bytes, MessageHeader, message_magic, encode_header, decode_header, le_bytes, need_more,
  out_of_fuel, drain, collect,
}
use proto_test_msquic.Frame.Codec.{decode_header-encode_header}
use proto_test_msquic.Frame.Peek.{IsFrame, peek_short, peek-IsFrame, peek-frame}
use proto_test_msquic.Frame.Loop.{drain_stop}
use proto_test_msquic.Frame.Chunks.{
  IsDrained, collect-IsLocal, drain_lossless, drain_total, drain-append,
}
use proto_test_msquic.Stats.{Stats}
use proto_test_msquic.Stats.Percentile.{build_latency_snapshot}
use proto_test_msquic.Stats.Percentile.Order.{latency_snapshot_ordered}
use proto_test_msquic.LoadServer.{Server, buffer_of, on_data}
use proto_test_msquic.LoadServer.Echo.{calls, on_chunks, on_chunks_echo}
use proto_test_msquic.LoadServer.Isolation.{IsCounted, on_data-IsCounted}
use proto_test_msquic.LoadClient.Message.{make_frame, payload, make_frame-IsFrame}

abbrev frame : Bytes
frame = make_frame 26 5 7

abbrev no_stats : Stats
no_stats = record {
  sent_bytes = 0;
  recv_bytes = 0;
  sent_messages = 0;
  recv_messages = 0;
  latency_samples = [];
}

abbrev empty_server : Server
empty_server = record { connections = []; stats = no_stats; sent = [] }

abbrev always : ℕ → ℕ → Bytes → Bool
always c stream bytes = true

frame-IsFrame : IsFrame 1024 frame
frame-IsFrame =
    make_frame-IsFrame 26 5 7 (omega arith) (omega arith) (omega arith) (omega arith) 1024

nothing_buffered : buffer_of 0 3 empty_server ≡ []
unfolding buffer_of find_or find
nothing_buffered = refl

cut_frame : concat (take 10 frame ∷ drop 10 frame ∷ []) ≡ concat (frame ∷ []) ++ []
unfolding make_frame encode_header le_bytes payload
cut_frame = refl

none_left : IsDrained 1024 []
none_left = peek_short 1024 [] (omega arith)

on_chunks_echo_example :
    let t = on_chunks always default_config 0 3 (take 10 frame ∷ drop 10 frame ∷ []) empty_server in
    (t.1 ≡ none) × (t.0.sent ≡ [] ++ calls 0 3 (frame ∷ [])) × (buffer_of 0 3 t.0 ≡ [])
on_chunks_echo_example =
    on_chunks_echo always default_config 0 3 (λ i j w. refl) (take 10 frame ∷ drop 10 frame ∷ [])
      (frame ∷ []) [] empty_server nothing_buffered cut_frame (frame-IsFrame, tt) none_left

half_waits : (drain collect 1024 (take 10 frame) []).stop ≡ need_more
half_waits =
    ap (λ r. r.stop)
      (drain_stop collect 1024 (take 10 frame) []
        (peek_short 1024 (take 10 frame) (omega (arith, length-take 10 frame))))

drain-append_example :
    let r = drain collect 1024 (take 10 frame) [] in
    drain collect 1024 (take 10 frame ++ drop 10 frame) []
    ≡ drain collect 1024 (r.buffer ++ drop 10 frame) r.state
drain-append_example =
    drain-append collect 1024 collect-IsLocal (take 10 frame) (drop 10 frame) [] half_waits

drain_lossless_example :
    let r = drain collect 1024 frame [] in concat r.state ++ r.buffer ≡ concat [] ++ frame
drain_lossless_example = drain_lossless 1024 frame []

drain_total_example : (drain collect 1024 frame []).stop ≢ out_of_fuel
drain_total_example = drain_total collect 1024 frame []

abbrev header : MessageHeader
header = record { magic = message_magic; reserved = 26; sequence = 5; send_timestamp_ns = 7 }

decode_header-encode_header_example : decode_header (encode_header header ++ 1 ∷ 2 ∷ []) ≡ header
decode_header-encode_header_example = decode_header-encode_header header (1 ∷ 2 ∷ []) (record {
  magic_fits = omega arith;
  reserved_fits = omega arith;
  sequence_fits = omega arith;
  timestamp_fits = omega arith;
})

peek-IsFrame_example : IsFrame 1024 (take (length frame) (frame ++ 9 ∷ []))
peek-IsFrame_example =
    peek-IsFrame 1024 (frame ++ 9 ∷ []) (length frame)
      (peek-frame 1024 frame (9 ∷ []) frame-IsFrame)

make_frame-IsFrame_example : IsFrame 1024 (make_frame 26 5 7)
make_frame-IsFrame_example =
    make_frame-IsFrame 26 5 7 (omega arith) (omega arith) (omega arith) (omega arith) 1024

on_data-IsCounted_example : IsCounted (on_data always default_config 0 3 frame empty_server).0
on_data-IsCounted_example = on_data-IsCounted always default_config 0 3 frame empty_server (record {
  messages_sent = refl;
  messages_received = refl;
  bytes_sent = refl;
  bytes_received = refl;
})

scaled-leb :
    (a b scale : ℕ)
    → leb a b ≡ true
    → leb (a * (scale * 1000) / 1000) (b * (scale * 1000) / 1000) ≡ true
scaled-leb a b scale h =
    let low : a ≤ b = ground arith in
    let k : a * (scale * 1000) ≤ b * (scale * 1000) = mul-le-mul_right (scale * 1000) low in
    ground arith

scaled_bound :
    (a scale : ℕ) → leb a 1000 ≡ true → leb (a * (scale * 1000) / 1000) (scale * 1000) ≡ true
scaled_bound a scale h =
    let low : a ≤ 1000 = ground arith in
    let k : a * (scale * 1000) ≤ 1000 * (scale * 1000) = mul-le-mul_right (scale * 1000) low in
    ground arith

milli-IsMonotone : IsMonotone milli
milli-IsMonotone = record {
  half_unit = (refl, refl);
  p50_unit = (refl, refl);
  p75_unit = (refl, refl);
  p99_unit = (refl, refl);
  p50_le_p75 = refl;
  p75_le_p99 = refl;
  mul_mono = λ a b scale k u v h. scaled-leb a b scale h;
  mul_bounded = λ a scale k u. (ground arith, scaled_bound a scale u.1);
  add_mono = λ a b c n k u v w h. ground arith;
  add_bounded = λ a c n k u w. (ground arith, let h = u.1 in let g = w.1 in ground arith);
  to_uint_mono = λ a b n k u v h. ground arith;
}

latency_snapshot_ordered_example :
    let r = build_latency_snapshot milli (5 ∷ 1000 ∷ 3 ∷ []) in
    (r.p50_ns ≤ r.p75_ns)
    × (r.p75_ns ≤ r.p99_ns)
    × Mem r.p50_ns (5 ∷ 1000 ∷ 3 ∷ [])
    × Mem r.p75_ns (5 ∷ 1000 ∷ 3 ∷ [])
    × Mem r.p99_ns (5 ∷ 1000 ∷ 3 ∷ [])
latency_snapshot_ordered_example =
    latency_snapshot_ordered milli milli-IsMonotone (5 ∷ 1000 ∷ 3 ∷ []) (omega arith) (omega arith)
