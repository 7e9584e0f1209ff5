-- ===== src/LoadClient/Message.antt =====
-- The frames that a client sends: built in `PumpSends`, and stamped again just before `SendCopy`.
use proto_test_msquic.Prelude.{
  ℕ, zero, suc, ◌+◌, ◌-◌, ◌%◌, ◌^◌, ◌≤◌, ◌<◌, ◌≡◌, refl, ap, sym, ◌∙◌, [], ◌∷◌, ◌++◌, length, drop,
  length-append, drop-append_self, arith,
}
use proto_test_msquic.Frame.{
  Bytes, MessageHeader, message_magic, header_size, encode_header, decode_header,
  frame_size_from_header,
}
use proto_test_msquic.Frame.Codec.{decode_header-encode_header, length-encode_header}
use proto_test_msquic.Frame.Peek.{IsFrame}

-- `for (i = sizeof(header); i < frame.size(); ++i) frame[i] = (uint8_t)(header.sequence + i)`
unfoldable pub payload : ℕ → ℕ → ℕ → Bytes
payload zero i sequence = []
payload (suc left) i sequence = (sequence + i) % 256 ∷ payload left (i + 1) sequence

-- A profile's message size is at least 24, so that the header fits.
unfoldable pub make_frame : ℕ → ℕ → ℕ → Bytes
unfolding payload
make_frame message_size sequence timestamp =
    encode_header (record {
      magic = message_magic;
      reserved = message_size;
      sequence = sequence;
      send_timestamp_ns = timestamp;
    })
    ++ payload (message_size - header_size) header_size sequence

-- `memcpy` of the header out of the frame, the new time, and `memcpy` back
unfoldable pub restamp : Bytes → ℕ → Bytes
restamp frame now =
    encode_header (record (decode_header frame) { send_timestamp_ns = now })
    ++ drop header_size frame

length-payload : (left i sequence : ℕ) → length (payload left i sequence) ≡ left
unfolding payload
length-payload zero i sequence = refl
length-payload (suc left) i sequence = omega (arith, length-payload left (i + 1) sequence)

module _ (size sequence timestamp : ℕ) (low : header_size ≤ size) (high : size < 2 ^ 32)
    (fits : sequence < 2 ^ 64) (stamp_fits : timestamp < 2 ^ 64) where
  pub length-make_frame : length (make_frame size sequence timestamp) ≡ size
  unfolding make_frame
  length-make_frame = omega (
    arith,
    length-append (encode_header head) (payload (size - header_size) header_size sequence),
    length-encode_header head,
    length-payload (size - header_size) header_size sequence,
  )
    where
      head : MessageHeader
      head = record {
        magic = message_magic;
        reserved = size;
        sequence = sequence;
        send_timestamp_ns = timestamp;
      }

  pub decode_header-make_frame : decode_header (make_frame size sequence timestamp) ≡ record {
    magic = message_magic;
    reserved = size;
    sequence = sequence;
    send_timestamp_ns = timestamp;
  }
  unfolding make_frame
  decode_header-make_frame = decode_header-encode_header _ _ (record {
    magic_fits = omega arith;
    reserved_fits = high;
    sequence_fits = fits;
    timestamp_fits = stamp_fits;
  })

  size_of_header :
      (fallback : ℕ)
      → frame_size_from_header
          (record {
            magic = message_magic;
            reserved = size;
            sequence = sequence;
            send_timestamp_ns = timestamp;
          })
          fallback
        ≡ size
  unfolding frame_size_from_header
  size_of_header fallback = ground arith

  drop-make_frame :
      drop header_size (make_frame size sequence timestamp)
      ≡ payload (size - header_size) header_size sequence
  unfolding make_frame
  drop-make_frame =
      ap (λ k. drop k (make_frame size sequence timestamp)) (sym (length-encode_header head))
      ∙ drop-append_self (encode_header head) _
    where
      head : MessageHeader
      head = record {
        magic = message_magic;
        reserved = size;
        sequence = sequence;
        send_timestamp_ns = timestamp;
      }

  -- A frame that a client builds, of a size that holds a header and with numbers that fit, is one
  -- that the receivers' loops accept as a whole, at any fallback size.
  pub make_frame-IsFrame : (fallback : ℕ) → IsFrame fallback (make_frame size sequence timestamp)
  make_frame-IsFrame fallback = record {
    holds_header = omega (arith, length-make_frame);
    marked = ap (λ h. h.magic) decode_header-make_frame;
    sized =
        ap (λ h. frame_size_from_header h fallback) decode_header-make_frame
        ∙ size_of_header fallback
        ∙ sym length-make_frame;
  }

  -- Stamping a frame again before it is sent changes its time alone, for a size that holds a
  -- header and numbers that fit.
  pub restamp-make_frame :
      (now : ℕ) → restamp (make_frame size sequence timestamp) now ≡ make_frame size sequence now
  unfolding restamp make_frame
  restamp-make_frame now =
      rw (decode_header-make_frame, make_frame) (ap (◌++◌ (encode_header _)) drop-make_frame)
