-- ===== src/Protocol/Types.antt =====
-- Errors, frame types and flags: kaelix-core/src/protocol/error.rs and mod.rs.
pub mod Flags
use Prim.Native.Nat.{bit_and, bit_or}
use Prim.Native.String.{String}
use kaelix.Base.{ℕ, ◌*◌, ◌+◌, ◌==◌, not, if◌then◌else◌, Bool, true, false, List}

pub data ProtocolError : Type 0 where
  invalid_magic : List ℕ → List ℕ → ProtocolError
  unsupported_version : ℕ → ℕ → ProtocolError
  invalid_frame_type : ℕ → ProtocolError
  frame_too_large : ℕ → ℕ → ProtocolError
  payload_too_large : ℕ → ℕ → ProtocolError
  buffer_too_small : ℕ → ℕ → ProtocolError
  checksum_mismatch : ℕ → ℕ → ProtocolError
  incomplete_frame : ℕ → ℕ → ProtocolError
  invalid_stream_id : ℕ → ℕ → ℕ → ProtocolError
  sequence_out_of_order : ℕ → ℕ → ProtocolError
  encoding_error : String → ProtocolError
  decoding_error : String → ProtocolError
  -- The text of a `std::io::Error`.
  io_error : String → ProtocolError
  allocation_error : String → ProtocolError

unfoldable pub is_corruption : ProtocolError → Bool
is_corruption (invalid_magic e a) = true
is_corruption (checksum_mismatch e a) = true
is_corruption (invalid_frame_type t) = true
is_corruption _ = false

unfoldable pub is_recoverable : ProtocolError → Bool
is_recoverable (incomplete_frame e a) = true
is_recoverable (buffer_too_small r a) = true
is_recoverable (io_error e) = true
is_recoverable (allocation_error m) = true
is_recoverable _ = false

unfoldable pub is_protocol_violation : ProtocolError → Bool
is_protocol_violation (unsupported_version v s) = true
is_protocol_violation (frame_too_large a m) = true
is_protocol_violation (payload_too_large a m) = true
is_protocol_violation (invalid_stream_id s a z) = true
is_protocol_violation (sequence_out_of_order e a) = true
is_protocol_violation _ = false

pub data ProtocolResult {ℓ} (A : Type ℓ) : Type ℓ where
  ok : A → ProtocolResult A
  err : ProtocolError → ProtocolResult A

infixl 5 ◌>>=◌ ◌>>◌
abbrev pub ◌>>=◌ {ℓ κ} :
    {A : Type ℓ} {B : Type κ} → ProtocolResult A → (A → ProtocolResult B) → ProtocolResult B
ok a >>= f = f a
err e >>= f = err e

abbrev pub ◌>>◌ {ℓ} : {B : Type ℓ} → ProtocolResult (Unit {0}) → ProtocolResult B → ProtocolResult B
m >> k = m >>= λ _. k

-- `if test { return Err(e) }`.
abbrev pub fail_if : Bool → ProtocolError → ProtocolResult (Unit {0})
fail_if true e = err e
fail_if false e = ok tt

abbrev pub frame_header_size : ℕ
frame_header_size = 40

abbrev pub max_payload_size : ℕ
max_payload_size = 16 * 1024 * 1024

abbrev pub max_frame_size : ℕ
max_frame_size = frame_header_size + max_payload_size

pub data FrameType : Type 0 where
  data_frame control heartbeat ack error close : FrameType

unfoldable pub from_u16 : ℕ → ProtocolResult FrameType
from_u16 value =
    if value == 1
    then ok data_frame
    else if value == 2
    then ok control
    else if value == 3
    then ok heartbeat
    else if value == 4
    then ok ack
    else if value == 5
    then ok error
    else if value == 6
    then ok close
    else err (invalid_frame_type value)

unfoldable pub as_u16 : FrameType → ℕ
as_u16 data_frame = 1
as_u16 control = 2
as_u16 heartbeat = 3
as_u16 ack = 4
as_u16 error = 5
as_u16 close = 6

unfoldable pub requires_ack : FrameType → Bool
requires_ack data_frame = true
requires_ack control = true
requires_ack _ = false

unfoldable pub is_control : FrameType → Bool
is_control data_frame = false
is_control _ = true

-- `FrameFlags`, a u16.
abbrev pub FrameFlags : Type 0
FrameFlags = ℕ

unfoldable pub new_flags : FrameType → FrameFlags
unfolding as_u16
new_flags t = as_u16 t

unfoldable pub frame_type : FrameFlags → ProtocolResult FrameType
unfolding from_u16
frame_type flags = from_u16 (bit_and flags 0x00FF)

unfoldable pub with_compression : FrameFlags → FrameFlags
with_compression flags = bit_or flags 0x0100

unfoldable pub is_compressed : FrameFlags → Bool
is_compressed flags = not (bit_and flags 0x0100 == 0)

unfoldable pub with_end_of_stream : FrameFlags → FrameFlags
with_end_of_stream flags = bit_or flags 0x0200

unfoldable pub is_end_of_stream : FrameFlags → Bool
is_end_of_stream flags = not (bit_and flags 0x0200 == 0)
