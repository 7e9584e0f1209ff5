-- ===== src/Frame.antt =====
-- The wire format of src/main.cpp: `MessageHeader`, `FrameSizeFromHeader`, `TryPeekFrameSize`, and
-- the loop `while (true) { TryPeekFrameSize ... erase ... }` that every receiver runs on its buffer.
-- Bytes are numbers below 256, the host is little-endian, as the `memcpy` of the packed struct is.
pub mod Codec
pub mod Peek
pub mod Loop
pub mod Chunks
pub mod Collected
use proto_test_msquic.Prelude.{
  ℕ, zero, suc, ◌+◌, ◌*◌, ◌/◌, ◌%◌, ◌++◌, List, [], ◌∷◌, Option, none, some, Result, ok, err,
  length, take, drop, ltb, leb, ◌==◌, not, if◌then◌else◌,
}

abbrev pub Bytes : Type 0
Bytes = List ℕ

-- `kMessageMagic`, "MSQL"
abbrev pub message_magic : ℕ
message_magic = 0x4D53514C

-- `sizeof(MessageHeader)`, held to 24 by a `static_assert`
abbrev pub header_size : ℕ
header_size = 24

pub record MessageHeader : Type 0 where
  pub magic : ℕ
  pub reserved : ℕ
  pub sequence : ℕ
  pub send_timestamp_ns : ℕ

-- The bytes of a number, the lowest first, and the number that bytes stand for.
unfoldable pub le_bytes : ℕ → ℕ → Bytes
le_bytes zero v = []
le_bytes (suc k) v = v % 256 ∷ le_bytes k (v / 256)

unfoldable pub of_le : Bytes → ℕ
of_le [] = 0
of_le (b ∷ bs) = b + 256 * of_le bs

-- `memcpy` of the packed struct to and from a buffer
unfoldable pub encode_header : MessageHeader → Bytes
unfolding le_bytes
encode_header h =
    le_bytes 4 h.magic
    ++ (le_bytes 4 h.reserved ++ (le_bytes 8 h.sequence ++ le_bytes 8 h.send_timestamp_ns))

unfoldable pub field : ℕ → ℕ → Bytes → ℕ
unfolding of_le
field offset size buffer = of_le (take size (drop offset buffer))

unfoldable pub decode_header : Bytes → MessageHeader
unfolding field
decode_header buffer = record {
  magic = field 0 4 buffer;
  reserved = field 4 4 buffer;
  sequence = field 8 8 buffer;
  send_timestamp_ns = field 16 8 buffer;
}

unfoldable pub frame_size_from_header : MessageHeader → ℕ → ℕ
frame_size_from_header header fallback_size =
    if leb header_size header.reserved then header.reserved else fallback_size

pub data FrameError : Type 0 where
  invalid_frame_magic invalid_frame_size : FrameError

unfoldable pub try_peek_frame_size : Bytes → ℕ → Result FrameError (Option ℕ)
unfolding decode_header frame_size_from_header
try_peek_frame_size buffer fallback_size =
    if ltb (length buffer) header_size
    then ok none
    else let header = decode_header buffer in
      if not (header.magic == message_magic)
      then err invalid_frame_magic
      else let frame_size = frame_size_from_header header fallback_size in
        if ltb frame_size header_size
        then err invalid_frame_size
        else if ltb (length buffer) frame_size
        then ok none
        else ok (some frame_size)

-- How the receive loop ended: the buffer holds no whole frame, or the peek threw.
pub data Stop : Type 0 where
  need_more : Stop
  thrown : FrameError → Stop
  out_of_fuel : Stop

pub record LoopEnd (S : Type 0) : Type 0 where
  pub state : S
  pub buffer : Bytes
  pub stop : Stop

-- The loop: peek, run the body on the size and the buffer, erase the frame, go on. `S` is all that
-- the body writes; what it wrote before a throw stays written.
unfoldable pub frame_loop : {S : Type 0} → (ℕ → Bytes → S → S) → ℕ → ℕ → Bytes → S → LoopEnd S
frame_loop body zero fallback buffer s = record { state = s; buffer = buffer; stop = out_of_fuel }
frame_loop body (suc fuel) fallback buffer s = elim (try_peek_frame_size buffer fallback) [
  | err e ↦ record { state = s; buffer = buffer; stop = thrown e }
  | ok found ↦ elim found [
    | none ↦ record { state = s; buffer = buffer; stop = need_more }
    | some size ↦ frame_loop body fuel fallback (drop size buffer) (body size buffer s)
  ]
]

-- The loop with fuel for every buffer: a round takes at least 24 bytes.
unfoldable pub drain : {S : Type 0} → (ℕ → Bytes → S → S) → ℕ → Bytes → S → LoopEnd S
unfolding frame_loop
drain body fallback buffer s = frame_loop body (suc (length buffer)) fallback buffer s

-- The body of the server's loop: copy the frame and append it to `sends`.
abbrev pub collect : ℕ → Bytes → List Bytes → List Bytes
collect size buffer sends = sends ++ take size buffer ∷ []
