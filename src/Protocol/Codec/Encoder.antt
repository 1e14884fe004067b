-- ===== src/Protocol/Codec/Encoder.antt =====
-- `FrameEncoder` of kaelix-core/src/protocol/codec.rs. The capacity that it reserves is not modelled.
pub mod Batch
use kaelix.Base.{Bool, ℕ, leb, if◌then◌else◌, List, [], ◌∷◌, ◌++◌, length, Option, none, some}
use kaelix.Protocol.Types.{ProtocolResult, ok, err}
use kaelix.Protocol.Bytes.{Buffers}
use kaelix.Protocol.Frame.{Frame}
use kaelix.Protocol.Frame.Wire.{serialize}

pub record FrameEncoder : Type 0 where
  pub buffer : List ℕ
  pub batch : List Frame
  pub max_batch_size : ℕ

unfoldable pub new : FrameEncoder
new = record { buffer = []; batch = []; max_batch_size = 100 }

unfoldable pub set_max_batch_size : FrameEncoder → ℕ → FrameEncoder
set_max_batch_size e size = record e { max_batch_size = size }

unfoldable pub batch_size : FrameEncoder → ℕ
batch_size e = length e.batch

unfoldable pub is_batch_empty : FrameEncoder → Bool
is_batch_empty e = leb (length e.batch) 0

unfoldable pub clear_batch : FrameEncoder → FrameEncoder
clear_batch e = record e { batch = [] }

unfoldable pub reset : FrameEncoder → FrameEncoder
reset e = record e { buffer = []; batch = [] }

module _ (b : Buffers) (hash : List ℕ → List ℕ → ℕ) where
  unfoldable pub encode : FrameEncoder → Frame → ProtocolResult (List ℕ) × FrameEncoder
  encode e f = (serialize b hash f, record e { buffer = [] })

  abbrev pub extend_one :
      ProtocolResult (List ℕ)
      → (List ℕ → ProtocolResult (Unit {0}) × List ℕ)
      → List ℕ
      → ProtocolResult (Unit {0}) × List ℕ
  extend_one (err e) others buffer = (err e, buffer)
  extend_one (ok bytes) others buffer = others (b.extend_from_slice buffer bytes)

  -- The loop of `flush_batch`: the error that ended it, if any, and the buffer.
  unfoldable pub extend_all : List Frame → List ℕ → ProtocolResult (Unit {0}) × List ℕ
  extend_all [] buffer = (ok tt, buffer)
  extend_all (f ∷ fs) buffer = extend_one (serialize b hash f) (extend_all fs) buffer

  abbrev pub flushed :
      FrameEncoder → ProtocolResult (Unit {0}) × List ℕ → ProtocolResult (List ℕ) × FrameEncoder
  flushed e (err error, buffer) = (err error, record e { buffer = buffer })
  flushed e (ok done, buffer) = (ok buffer, record e { buffer = []; batch = [] })

  abbrev pub flush_frames : FrameEncoder → List Frame → ProtocolResult (List ℕ) × FrameEncoder
  unfolding extend_all
  flush_frames e [] = (ok [], e)
  flush_frames e (f ∷ fs) = flushed e (extend_all (f ∷ fs) [])

  unfoldable pub flush_batch : FrameEncoder → ProtocolResult (List ℕ) × FrameEncoder
  flush_batch e = flush_frames e e.batch

  abbrev pub as_some :
      ProtocolResult (List ℕ) × FrameEncoder → ProtocolResult (Option (List ℕ)) × FrameEncoder
  as_some (ok bytes, e) = (ok (some bytes), e)
  as_some (err error, e) = (err error, e)

  unfoldable pub add_to_batch :
      FrameEncoder → Frame → ProtocolResult (Option (List ℕ)) × FrameEncoder
  unfolding flush_batch
  add_to_batch e f =
      let added = record e { batch = e.batch ++ (f ∷ []) } in
      if leb e.max_batch_size (length added.batch)
      then as_some (flush_batch added)
      else (ok none, added)
