-- ===== src/Protocol/Codec.antt =====
-- The streaming decoder: `FrameDecoder` of kaelix-core/src/protocol/codec.rs. A method that changes the
-- decoder returns it beside its result; the buffer is the sequence of its bytes, and the capacity that
-- is reserved for it is not modelled.
pub mod Encoder
pub mod Stream
pub mod Delivery
pub mod Cut
pub mod Total
pub mod Damage
pub mod Recovery
pub mod Oversized
use kaelix.Base.{
  ℕ, zero, suc, ◌+◌, ◌-◌, max, ltb, leb, if◌then◌else◌, u64, Bool, true, false, List, [], ◌∷◌, ◌++◌,
  length, take, drop, Option, none, some,
}
use kaelix.Protocol.Types.{
  ProtocolError, payload_too_large, frame_too_large, decoding_error, is_corruption, ProtocolResult,
  ok, err, frame_header_size, max_payload_size, max_frame_size,
}
use kaelix.Protocol.Bytes.{Buffers, bytes_eq, from_be_bytes}
use kaelix.Protocol.Frame.{Frame, protocol_magic}
use kaelix.Protocol.Frame.Wire.{deserialize}

pub record DecoderStats : Type 0 where
  pub frames_decoded : ℕ
  pub bytes_processed : ℕ
  pub incomplete_frames : ℕ
  pub corrupted_frames : ℕ
  pub buffer_size : ℕ
  pub peak_buffer_size : ℕ

pub record FrameDecoder : Type 0 where
  pub buffer : List ℕ
  pub frame_queue : List Frame
  pub expected_frame_size : Option ℕ
  pub max_frame_size : ℕ
  pub stats : DecoderStats

abbrev default_stats : DecoderStats
default_stats = record {
  frames_decoded = 0;
  bytes_processed = 0;
  incomplete_frames = 0;
  corrupted_frames = 0;
  buffer_size = 0;
  peak_buffer_size = 0;
}

unfoldable pub new : FrameDecoder
new = record {
  buffer = [];
  frame_queue = [];
  expected_frame_size = none;
  max_frame_size = max_frame_size;
  stats = default_stats;
}

unfoldable pub set_max_frame_size : FrameDecoder → ℕ → FrameDecoder
set_max_frame_size d size = record d { max_frame_size = size }

unfoldable pub reset : FrameDecoder → FrameDecoder
reset d = record d {
  buffer = [];
  frame_queue = [];
  expected_frame_size = none;
  stats = default_stats;
}

abbrev pop_front : FrameDecoder → List Frame → Option Frame × FrameDecoder
pop_front d [] = (none, d)
pop_front d (f ∷ fs) = (some f, record d { frame_queue = fs })

unfoldable pub has_frames : FrameDecoder → Bool
has_frames d = ltb 0 (length d.frame_queue)

unfoldable pub frame_count : FrameDecoder → ℕ
frame_count d = length d.frame_queue

unfoldable pub next_frame : FrameDecoder → Option Frame × FrameDecoder
next_frame d = pop_front d d.frame_queue

-- The length that the header at the front of the buffer announces, at its offset 32.
unfoldable pub announced : FrameDecoder → ℕ
unfolding from_be_bytes
announced d = from_be_bytes (take 4 (drop 32 d.buffer))

unfoldable pub peek_frame_size : FrameDecoder → ProtocolResult (Option ℕ)
peek_frame_size d =
    let payload_len = announced d in
    let total_size = frame_header_size + payload_len in
    if ltb (length d.buffer) frame_header_size
    then ok none
    else if ltb (length d.buffer) (32 + 4)
    then ok none
    else if ltb max_payload_size payload_len
    then err (payload_too_large payload_len max_payload_size)
    else if ltb d.max_frame_size total_size
    then err (frame_too_large total_size d.max_frame_size)
    else ok (some total_size)

-- The first of `count` indices from `i` on at which the buffer has the magic bytes.
unfoldable pub find_magic : ℕ → ℕ → List ℕ → Option ℕ
unfolding bytes_eq
find_magic zero i buffer = none
find_magic (suc count) i buffer =
    let later = find_magic count (suc i) buffer in
    if bytes_eq (take 4 (drop i buffer)) protocol_magic then some i else later

unfoldable pub count_decoded : DecoderStats → DecoderStats
count_decoded s = record s { frames_decoded = u64 (s.frames_decoded + 1) }

unfoldable pub count_corrupted : FrameDecoder → FrameDecoder
count_corrupted d = record d {
  stats = record (d.stats) { corrupted_frames = u64 (d.stats.corrupted_frames + 1) };
}

unfoldable pub count_incomplete : FrameDecoder → FrameDecoder
count_incomplete d = record d {
  stats = record (d.stats) { incomplete_frames = u64 (d.stats.incomplete_frames + 1) };
}

unfoldable pub frame_size : FrameDecoder → Option ℕ → ProtocolResult (Option ℕ)
frame_size d none = peek_frame_size d
frame_size d (some size) = ok (some size)

-- What one turn of the loop of `decode_stream` comes to: another turn, or the end of the call.
pub data Turn : Type 0 where
  again : ℕ → FrameDecoder → Turn
  done : ProtocolResult ℕ → FrameDecoder → Turn

module _ (b : Buffers) (hash : List ℕ → List ℕ → ℕ) where
  unfoldable pub advance_to : FrameDecoder → Option ℕ → FrameDecoder
  advance_to d none = record d { buffer = [] }
  advance_to d (some i) = record d { buffer = b.advance i d.buffer }

  -- The loop is `for i in 1..len.saturating_sub(3)`.
  unfoldable pub recover_from_corruption : FrameDecoder → FrameDecoder
  unfolding advance_to
  recover_from_corruption d = advance_to d (find_magic (length d.buffer - 3 - 1) 1 d.buffer)

  unfoldable pub decode_sized : FrameDecoder → Option ℕ → ProtocolResult Frame × FrameDecoder
  decode_sized d none = (err (decoding_error "Frame size not determined"), d)
  decode_sized d (some frame_size) =
      let frame_data = b.split_to frame_size d.buffer in
      (deserialize b hash frame_data.0, record d { buffer = frame_data.1 })

  unfoldable pub decode_single_frame : FrameDecoder → ProtocolResult Frame × FrameDecoder
  unfolding decode_sized
  decode_single_frame d = decode_sized d d.expected_frame_size

  -- The arms of the match on a decoded frame.
  unfoldable pub take_decoded : ℕ → ProtocolResult Frame × FrameDecoder → Turn
  unfolding count_decoded
  take_decoded n (ok f, d) = again (n + 1) (record d {
    frame_queue = d.frame_queue ++ (f ∷ []);
    expected_frame_size = none;
    stats = count_decoded d.stats;
  })
  take_decoded n (err e, d) =
      if is_corruption e
      then again n
          (record (recover_from_corruption (count_corrupted d)) { expected_frame_size = none })
      else done (err e) d

  unfoldable pub decode_or_wait : ℕ → ℕ → FrameDecoder → Turn
  decode_or_wait n size d =
      if leb size (length d.buffer)
      then take_decoded n (decode_single_frame d)
      else done (ok n) (count_incomplete d)

  unfoldable pub with_size : ℕ → FrameDecoder → ProtocolResult (Option ℕ) → Turn
  with_size n d (err e) = done (err e) d
  with_size n d (ok none) = done (ok n) d
  with_size n d (ok (some size)) =
      decode_or_wait n size (record d { expected_frame_size = some size })

  unfoldable pub turn : ℕ → FrameDecoder → Turn
  turn n d =
      if ltb (length d.buffer) frame_header_size
      then done (ok n) d
      else with_size n d (frame_size d d.expected_frame_size)

  -- The loop, on fuel; `none` is fuel run out.
  unfoldable pub decode_turns : ℕ → Turn → Option (ProtocolResult ℕ × FrameDecoder)
  decode_turns fuel (done r d) = some (r, d)
  decode_turns zero (again n d) = none
  decode_turns (suc fuel) (again n d) = decode_turns fuel (turn n d)

  unfoldable pub receive : List ℕ → FrameDecoder → FrameDecoder
  receive bytes d =
      let buffer = b.extend_from_slice d.buffer bytes in
      record d {
        buffer = buffer;
        stats = record (d.stats) {
          bytes_processed = u64 (d.stats.bytes_processed + length bytes);
          buffer_size = length buffer;
          peak_buffer_size = max d.stats.peak_buffer_size (length buffer);
        };
      }

  -- Each further turn takes at least a header off the buffer, so that its length is fuel enough.
  unfoldable pub decode_stream : List ℕ → FrameDecoder → Option (ProtocolResult ℕ × FrameDecoder)
  decode_stream bytes d =
      let received = receive bytes d in decode_turns (length received.buffer + 1) (again 0 received)

  -- `decode`, behind its call of `decode_stream`.
  abbrev pub first_decoded :
      ProtocolResult ℕ × FrameDecoder → ProtocolResult (Option Frame) × FrameDecoder
  unfolding next_frame
  first_decoded (err e, d) = (err e, d)
  first_decoded (ok zero, d) = (ok none, d)
  first_decoded (ok (suc n), d) = let (f, d') = next_frame d in (ok f, d')

  unfoldable pub decode :
      List ℕ → FrameDecoder → Option (ProtocolResult (Option Frame) × FrameDecoder)
  unfolding decode_stream first_decoded
  decode bytes d = elim (decode_stream bytes d) [ none ↦ none | some r ↦ some (first_decoded r) ]
