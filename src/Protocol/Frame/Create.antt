-- ===== src/Protocol/Frame/Create.antt =====
-- The constructors of frames: `with_sequence`, `new`, `heartbeat` and `ack` of
-- kaelix-core/src/protocol/frame.rs.
use kaelix.Base.{ℕ, ◌^◌, ◌≤◌, ◌<◌, ◌≡◌, ◌≢◌, ◌↔◌, ◌⊎◌, inl, inr, true, refl, List, length, arith}
use kaelix.Protocol.Types
use kaelix.Protocol.Types.{
  ProtocolResult, ok, err, max_payload_size, FrameType, frame_type, new_flags, as_u16, from_u16,
  data_frame, control, heartbeat, ack, error, close, ◌>>=◌, ◌>>◌, fail_if,
}
use kaelix.Protocol.Frame.{Frame, frame, SystemNow, with_sequence, current_timestamp_nanos}
use kaelix.Protocol.Frame.Roundtrip.{IsEncodable}

pub frame_type-new_flags : (t : FrameType) → frame_type (new_flags t) ≡ ok t
unfolding frame_type new_flags as_u16 from_u16
frame_type-new_flags data_frame = refl
frame_type-new_flags control = refl
frame_type-new_flags heartbeat = refl
frame_type-new_flags ack = refl
frame_type-new_flags error = refl
frame_type-new_flags close = refl

new_flags_small : (t : FrameType) → new_flags t < 2 ^ 16
unfolding new_flags as_u16
new_flags_small data_frame = omega arith
new_flags_small control = omega arith
new_flags_small heartbeat = omega arith
new_flags_small ack = omega arith
new_flags_small error = omega arith
new_flags_small close = omega arith

-- `with_sequence` makes a frame exactly when the payload is not over the limit, the stream is not 0 or
-- the type is a control type, and the clock's reading is after the epoch and fits in 64 bits.
with_sequence_iff :
    (now : SystemNow) (t : FrameType) (stream_id sequence : ℕ) (payload : List ℕ)
    → ((f : Frame) × (with_sequence now t stream_id sequence payload ≡ ok f)) ↔ (
        length payload ≤ max_payload_size
        × (stream_id ≢ 0 ⊎ Types.is_control t ≡ true)
        × ((nanos : ℕ) × (now ≡ inr nanos) × nanos < 2 ^ 64))
unfolding with_sequence current_timestamp_nanos
with_sequence_iff (inl e) t stream_id sequence payload =
    (λ (f, made). absurd (ground arith), λ (size, stream, (n, now, h)). absurd (ground arith))
with_sequence_iff (inr nanos) t stream_id sequence payload = (
  λ (f, made). (ground arith, ground arith, (nanos, refl, ground arith)),
  λ (size, stream, (n, now, h)).
      (frame (new_flags t) stream_id sequence nanos payload, ground arith),
)

-- A frame that `with_sequence` makes, with a stream and a sequence number that fit in their words, is
-- encodable, is of the type asked for, and carries the stream, sequence number and payload given.
pub with_sequence-IsEncodable :
    (now : SystemNow) (t : FrameType) (stream_id sequence : ℕ) (payload : List ℕ) (f : Frame)
    → stream_id < 2 ^ 32
    → sequence < 2 ^ 64
    → with_sequence now t stream_id sequence payload ≡ ok f
    → IsEncodable f
      × (frame_type f.flags ≡ ok t)
      × (f.stream_id ≡ stream_id)
      × (f.sequence ≡ sequence)
      × (f.payload ≡ payload)
unfolding with_sequence current_timestamp_nanos IsEncodable
with_sequence-IsEncodable (inl e) t stream_id sequence payload f h1 h2 made = ground arith
with_sequence-IsEncodable (inr nanos) t stream_id sequence payload f h1 h2 made =
    let parts : (f ≡ frame (new_flags t) stream_id sequence nanos payload)
        × length payload ≤ max_payload_size
        × nanos < 2 ^ 64 =
      ground arith in
    let (same, size, time) = parts in
    rw same (
      (new_flags_small t, h1, h2, time, size, (t, frame_type-new_flags t)),
      frame_type-new_flags t,
      refl,
      refl,
      refl,
    )
