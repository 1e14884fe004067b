-- ===== src/Protocol/Frame.antt =====
-- The frames and their binary form: kaelix-core/src/protocol/frame.rs. The section's parameters are the
-- buffers of the `bytes` crate and the hash of the standard library's `DefaultHasher`, fed a header and
-- a payload.
pub mod Wire
pub mod Roundtrip
pub mod Faults
pub mod Create
use Prim.Native.String.{String}
use kaelix.Base.{
  ℕ, ◌+◌, ◌-◌, ◌%◌, ◌^◌, ltb, leb, ◌==◌, not, ◌&&◌, Bool, true, false, if◌then◌else◌, List, [],
  length, take, ◌∷◌, ◌⊎◌, inl, inr, min,
}
use kaelix.Protocol.Types
use kaelix.Protocol.Types.{
  data_frame, ProtocolError, payload_too_large, invalid_stream_id, encoding_error, buffer_too_small,
  invalid_magic, unsupported_version, incomplete_frame, checksum_mismatch, ProtocolResult, ok, err,
  ◌>>=◌, ◌>>◌, fail_if, frame_header_size, max_payload_size, FrameType, FrameFlags, new_flags,
  heartbeat, ack, error,
}
use kaelix.Protocol.Bytes.{Buffers, bytes_eq}

abbrev pub protocol_magic : List ℕ
protocol_magic = 0x4B ∷ 0x41 ∷ 0x45 ∷ 0x58 ∷ []

abbrev pub protocol_version : ℕ
protocol_version = 1

pub record Frame : Type 0 where
  pub flags : FrameFlags
  pub stream_id : ℕ
  pub sequence : ℕ
  pub timestamp : ℕ
  pub payload : List ℕ

abbrev pub frame : FrameFlags → ℕ → ℕ → ℕ → List ℕ → Frame
frame flags stream_id sequence timestamp payload = record {
  flags = flags;
  stream_id = stream_id;
  sequence = sequence;
  timestamp = timestamp;
  payload = payload;
}

-- What the system's clock says: the nanoseconds since the epoch, or, for a time before it, the text of
-- the error that `current_timestamp_nanos` makes of it.
abbrev pub SystemNow : Type 0
SystemNow = String ⊎ ℕ

unfoldable pub current_timestamp_nanos : SystemNow → ProtocolResult ℕ
current_timestamp_nanos (inl e) = err (encoding_error e)
current_timestamp_nanos (inr nanos) =
    if ltb nanos (2 ^ 64)
    then ok nanos
    else err (encoding_error "Timestamp overflow: system time too far in future")

-- `Result::unwrap_or(0)`.
abbrev or_zero : ProtocolResult ℕ → ℕ
or_zero (ok n) = n
or_zero (err e) = 0

unfoldable pub with_sequence : SystemNow → FrameType → ℕ → ℕ → List ℕ → ProtocolResult Frame
unfolding current_timestamp_nanos new_flags Types.is_control
with_sequence now t stream_id sequence payload =
    fail_if (ltb max_payload_size (length payload))
      (payload_too_large (min (length payload) (2 ^ 32 - 1)) max_payload_size)
    >> fail_if (stream_id == 0 && not (Types.is_control t)) (invalid_stream_id stream_id 0 0)
    >> current_timestamp_nanos now
    >>= λ timestamp. ok (frame (new_flags t) stream_id sequence timestamp payload)

unfoldable pub new : SystemNow → FrameType → ℕ → List ℕ → ProtocolResult Frame
unfolding with_sequence
new now t stream_id payload = with_sequence now t stream_id 0 payload

unfoldable pub heartbeat_frame : SystemNow → Frame
unfolding current_timestamp_nanos new_flags
heartbeat_frame now = frame (new_flags heartbeat) 0 0 (or_zero (current_timestamp_nanos now)) []

unfoldable pub ack_frame : SystemNow → ℕ → ℕ → Frame
unfolding current_timestamp_nanos new_flags
ack_frame now stream_id sequence =
    frame (new_flags ack) stream_id sequence (or_zero (current_timestamp_nanos now)) []

-- `Frame::error`, given the bytes of the message.
unfoldable pub error_frame : SystemNow → ℕ → List ℕ → ProtocolResult Frame
unfolding new
error_frame now stream_id message = new now error stream_id message

unfoldable pub set_flags : Frame → FrameFlags → Frame
set_flags f flags = record f { flags = flags }

unfoldable pub set_sequence : Frame → ℕ → Frame
set_sequence f sequence = record f { sequence = sequence }

-- `Default`.
unfoldable pub default_frame : Frame
unfolding new_flags
default_frame = frame (new_flags data_frame) 1 0 0 []

unfoldable pub payload_size : Frame → ℕ
payload_size f = length (f.payload) % 2 ^ 32

unfoldable pub frame_size : Frame → ℕ
frame_size f = frame_header_size + length (f.payload)

-- `is_ok_and`.
abbrev is_ok_and : ProtocolResult FrameType → (FrameType → Bool) → Bool
is_ok_and (ok t) test = test t
is_ok_and (err e) test = false

unfoldable pub requires_ack : Frame → Bool
unfolding Types.frame_type Types.requires_ack
requires_ack f = is_ok_and (Types.frame_type (f.flags)) Types.requires_ack

unfoldable pub is_control : Frame → Bool
unfolding Types.frame_type Types.is_control
is_control f = is_ok_and (Types.frame_type (f.flags)) Types.is_control
