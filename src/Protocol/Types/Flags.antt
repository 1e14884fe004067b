-- ===== src/Protocol/Types/Flags.antt =====
-- The two bits of `FrameFlags` beside the frame type: kaelix-core/src/protocol/mod.rs.
use kaelix.Base.{◌≡◌, arith, Bool, true, false}
use kaelix.Protocol.Types.{
  FrameType, FrameFlags, new_flags, as_u16, from_u16, frame_type, with_compression,
  with_end_of_stream, is_compressed, is_end_of_stream, ok, data_frame, control, heartbeat, ack,
  error, close,
}

-- The flags of a new frame, with the compression and the end-of-stream bit set or not.
abbrev pub marked : Bool → Bool → FrameType → FrameFlags
unfolding new_flags as_u16 with_compression with_end_of_stream
marked true true t = with_end_of_stream (with_compression (new_flags t))
marked true false t = with_compression (new_flags t)
marked false true t = with_end_of_stream (new_flags t)
marked false false t = new_flags t

-- Setting the compression or the end-of-stream bit, or both, changes neither the other bit nor the
-- frame type that the flags are read back as.
pub flags_independent :
    (t : FrameType) (compressed last : Bool)
    → (frame_type (marked compressed last t) ≡ ok t)
      × (is_compressed (marked compressed last t) ≡ compressed)
      × (is_end_of_stream (marked compressed last t) ≡ last)
unfolding new_flags as_u16 from_u16 frame_type with_compression with_end_of_stream is_compressed
    is_end_of_stream
flags_independent data_frame c l = ground arith
flags_independent control c l = ground arith
flags_independent heartbeat c l = ground arith
flags_independent ack c l = ground arith
flags_independent error c l = ground arith
flags_independent close c l = ground arith
