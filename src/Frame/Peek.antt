-- ===== src/Frame/Peek.antt =====
-- What `TryPeekFrameSize` answers, and that bytes which arrive later do not change its answer.
use proto_test_msquic.Prelude.{
  ℕ, ◌≤◌, ◌<◌, ◌≡◌, ap, sym, ◌∙◌, ◌++◌, none, some, ok, err, length, take, drop, length-append,
  length-take, take-append-drop, arith,
}
use proto_test_msquic.Frame.{
  Bytes, decode_header, frame_size_from_header, try_peek_frame_size, FrameError, header_size,
  message_magic,
}
use proto_test_msquic.Frame.Codec.{decode_header-append}

-- A whole frame: a header with the magic whose size, or the fallback, is the length of the bytes.
pub record IsFrame (fallback : ℕ) (frame : Bytes) : Type 0 where
  pub holds_header : header_size ≤ length frame
  pub marked : (decode_header frame).magic ≡ message_magic
  pub sized : frame_size_from_header (decode_header frame) fallback ≡ length frame

module _ (fallback : ℕ) (buffer : Bytes) where
  pub peek_bounds :
      (k : ℕ)
      → try_peek_frame_size buffer fallback ≡ ok (some k)
      → (header_size ≤ k) × (k ≤ length buffer)
  unfolding try_peek_frame_size
  peek_bounds k h = ground arith

  pub peek_short : length buffer < header_size → try_peek_frame_size buffer fallback ≡ ok none
  unfolding try_peek_frame_size
  peek_short h = ground arith

  peek_found :
      (k : ℕ)
      → try_peek_frame_size buffer fallback ≡ ok (some k)
      → ((decode_header buffer).magic ≡ message_magic)
        × (frame_size_from_header (decode_header buffer) fallback ≡ k)
  unfolding try_peek_frame_size
  peek_found k h = ground arith

  pub peek_of :
      (k : ℕ)
      → header_size ≤ k
      → k ≤ length buffer
      → (decode_header buffer).magic ≡ message_magic
      → frame_size_from_header (decode_header buffer) fallback ≡ k
      → try_peek_frame_size buffer fallback ≡ ok (some k)
  unfolding try_peek_frame_size
  peek_of k low high magic size = ground arith

  pub peek_error_long :
      (e : FrameError) → try_peek_frame_size buffer fallback ≡ err e → header_size ≤ length buffer
  unfolding try_peek_frame_size
  peek_error_long e h = ground arith

  pub peek-append_some :
      (more : Bytes) (k : ℕ)
      → try_peek_frame_size buffer fallback ≡ ok (some k)
      → try_peek_frame_size (buffer ++ more) fallback ≡ ok (some k)
  unfolding try_peek_frame_size
  peek-append_some more k h =
      ground (arith, length-append buffer more, decode_header-append buffer more)

  pub peek-append_error :
      (more : Bytes) (e : FrameError)
      → try_peek_frame_size buffer fallback ≡ err e
      → try_peek_frame_size (buffer ++ more) fallback ≡ err e
  unfolding try_peek_frame_size
  peek-append_error more e h =
      ground (arith, length-append buffer more, decode_header-append buffer more)

-- What TryPeekFrameSize finds is a whole frame at the front of the buffer: it holds a header with
-- the magic, and its length is the size of the header, or the fallback.
pub peek-IsFrame :
    (fallback : ℕ) (buffer : Bytes) (k : ℕ)
    → try_peek_frame_size buffer fallback ≡ ok (some k)
    → IsFrame fallback (take k buffer)
peek-IsFrame fallback buffer k h =
    let b = peek_bounds fallback buffer k h in
    let f = peek_found fallback buffer k h in
    let n : length (take k buffer) ≡ k = omega (arith, length-take k buffer) in
    let d : decode_header buffer ≡ decode_header (take k buffer) =
      ap decode_header (sym (take-append-drop k buffer))
      ∙ decode_header-append (take k buffer) (drop k buffer) (omega arith) in
    record { holds_header = omega arith; marked = rw d at f.0; sized = rw d at (f.1) ∙ sym n }

-- Conversely a whole frame at the front of the buffer is found, whatever follows it.
pub peek-frame :
    (fallback : ℕ) (frame more : Bytes)
    → IsFrame fallback frame
    → try_peek_frame_size (frame ++ more) fallback ≡ ok (some (length frame))
peek-frame fallback frame more v =
    peek-append_some fallback frame more (length frame)
      (peek_of fallback frame (length frame) v.holds_header (omega arith) v.marked v.sized)
