-- ===== src/Frame/Codec.antt =====
-- The header's bytes: what is written is read back, and bytes behind a header do not change it.
use native.Mathlib.Nat.{pow-succ'}
use proto_test_msquic.Prelude.{
  ℕ, zero, suc, ◌+◌, ◌/◌, ◌^◌, ◌≤◌, ◌<◌, ◌≡◌, refl, ap, ◌++◌, length, drop, take-append,
  drop-append, length-drop, arith,
}
use proto_test_msquic.Frame.{
  Bytes, MessageHeader, le_bytes, of_le, encode_header, decode_header, field, header_size,
}

pub length-le_bytes : (k v : ℕ) → length (le_bytes k v) ≡ k
unfolding le_bytes
length-le_bytes zero v = refl
length-le_bytes (suc k) v = ap suc (length-le_bytes k (v / 256))

pub of_le-le_bytes : (k v : ℕ) → v < 256 ^ k → of_le (le_bytes k v) ≡ v
unfolding of_le le_bytes
of_le-le_bytes zero v h = omega arith
of_le-le_bytes (suc k) v h =
    omega (arith, of_le-le_bytes k (v / 256) (omega (arith, pow-succ' 256 k)))

pub field-append :
    (offset size : ℕ) (buffer more : Bytes)
    → offset + size ≤ length buffer
    → field offset size (buffer ++ more) ≡ field offset size buffer
unfolding field
field-append offset size buffer more h = rw (drop-append offset buffer more (omega arith)) (
    ap of_le
      (take-append size (drop offset buffer) more (omega (arith, length-drop offset buffer))))

pub decode_header-append :
    (buffer more : Bytes)
    → header_size ≤ length buffer
    → decode_header (buffer ++ more) ≡ decode_header buffer
unfolding decode_header
decode_header-append buffer more h = cc (
  field-append 0 4 buffer more (omega arith),
  field-append 4 4 buffer more (omega arith),
  field-append 8 8 buffer more (omega arith),
  field-append 16 8 buffer more (omega arith),
)

-- The fields fit their types in the struct.
pub record IsHeader (h : MessageHeader) : Type 0 where
  pub magic_fits : h.magic < 2 ^ 32
  pub reserved_fits : h.reserved < 2 ^ 32
  pub sequence_fits : h.sequence < 2 ^ 64
  pub timestamp_fits : h.send_timestamp_ns < 2 ^ 64

pub length-encode_header : (h : MessageHeader) → length (encode_header h) ≡ header_size
unfolding encode_header
length-encode_header h = refl

-- A header whose fields fit their types is read back from the bytes that it was copied to,
-- whatever follows them.
pub decode_header-encode_header :
    (h : MessageHeader) (more : Bytes) → IsHeader h → decode_header (encode_header h ++ more) ≡ h
unfolding decode_header encode_header of_le
decode_header-encode_header h more v = cc (
  of_le-le_bytes 4 h.magic v.magic_fits,
  of_le-le_bytes 4 h.reserved v.reserved_fits,
  of_le-le_bytes 8 h.sequence v.sequence_fits,
  of_le-le_bytes 8 h.send_timestamp_ns v.timestamp_fits,
)
