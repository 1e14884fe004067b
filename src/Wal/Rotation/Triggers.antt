-- ===== src/Wal/Rotation/Triggers.antt =====
-- When a rotation falls due: kaelix-storage/src/wal/rotation.rs.
use Prim.Native.String.{String}
use kaelix.Base.{
  ℕ, ◌+◌, ◌-◌, ◌^◌, ◌≤◌, ◌<◌, ltb, u64, ◌≡◌, refl, arith, Bool, true, false, List, length, some,
}
use kaelix.Wal.Types.{segment_full, ok, err}
use kaelix.Wal.Entry.{LogEntry, Codec}
use kaelix.Wal.Segment.{WalSegment, WriteCall, CreateCalls, create, write_entry, write_serialized}
use kaelix.Wal.Segment.Capacity.{Reach-IsGoodStep, Reach-IsSound}
use kaelix.Wal.Segment.Steps.{IsSound, Extends, Reach, here}
use kaelix.Wal.Rotation.{
  RotationManager, RotationConfig, size, check_rotation_needed, check_segment, size_due,
}

-- The two segments are one that was used and the same after further use.
size_due-grows :
    (c : RotationConfig) (s t : WalSegment)
    → IsSound s
    → IsSound t
    → Extends s t
    → size_due c s ≡ true
    → size_due c t ≡ true
unfolding size_due
size_due-grows c s t one two more due =
    let before = one.position in let after = two.position in let grows = more.grows in ground arith

-- A rotation that fell due by the size of the active segment stays due, whatever is written, synced or
-- sealed meanwhile: every later check that comes after its interval and before the shutdown asks for it.
size_stays_due :
    (codec : Codec) (now system : ℕ) (m : RotationManager) (s t : WalSegment)
    → IsSound s
    → Reach codec s t
    → m.active_segment ≡ some t
    → m.shutdown_flag ≡ false
    → m.config.check_interval_ms ≤ now - m.last_check_time
    → size_due m.config s ≡ true
    → (check_rotation_needed now system m).1 ≡ ok (some size)
unfolding check_rotation_needed check_segment
size_stays_due codec now system m s t sound run active running late due =
    let (good, more) = Reach-IsGoodStep run sound in
    let still = size_due-grows m.config s t sound good more due in rw active (ground arith)

-- What does not fit behind the write position is refused, with nothing written.
refused_when_full :
    (codec : Codec) (w : WriteCall) (e : LogEntry) (bytes : List ℕ) (t : WalSegment)
    → IsSound t
    → t.metadata.sealed ≡ false
    → codec.serialize e ≡ ok bytes
    → length bytes < 2 ^ 63
    → t.metadata.capacity < t.write_position + length bytes
    → write_entry codec w e t ≡ (t, err (segment_full t.metadata.id))
unfolding write_entry write_serialized
refused_when_full codec w e bytes t sound unsealed made short full =
    let room = sound.room in
    let addressable = sound.addressable in
    let over : ltb t.metadata.capacity (u64 (t.write_position + length bytes)) ≡ true =
      ground arith in
    rw (made, unsealed, over) refl

-- A segment created with a capacity below the size limit (and below 2^63) never falls due by its size,
-- whatever is written, synced and sealed: while it is not sealed, it refuses each entry that does not
-- fit behind the write position, and writes nothing of it. Each entry takes fewer than 2^63 bytes.
pub size_never_due :
    (codec : Codec) (calls : CreateCalls) (now id : ℕ) (path : String) (capacity : ℕ)
    (use_mmap : Bool) (c : RotationConfig) {s t : WalSegment}
    → capacity < 2 ^ 63
    → create calls now id path capacity use_mmap ≡ ok s
    → Reach codec s t
    → t.metadata.capacity < c.max_segment_size
    → (size_due c t ≡ false)
      × ((w : WriteCall) (e : LogEntry) (bytes : List ℕ)
          → t.metadata.sealed ≡ false
          → codec.serialize e ≡ ok bytes
          → length bytes < 2 ^ 63
          → t.metadata.capacity < t.write_position + length bytes
          → write_entry codec w e t ≡ (t, err (segment_full t.metadata.id)))
unfolding size_due
size_never_due codec calls now id path capacity use_mmap c {s} {t} room made run small =
    let good = (Reach-IsSound codec calls now id path capacity use_mmap room made run here).0 in
    let below = good.room in
    let same = good.position in
    (ground arith, (λ w e bytes. refused_when_full codec w e bytes t good))
