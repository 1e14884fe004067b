-- ===== src/Wal/Segment/Steps.antt =====
-- The operations on a segment as steps, and what each step keeps: kaelix-storage/src/wal/segment.rs.
use Prim.Native.String.{String}
use kaelix.Base.{
  u64, ℕ, ◌+◌, ◌^◌, ◌≤◌, ◌<◌, ltb, leb, if◌then◌else◌, ◌≡◌, inl, inr, refl, arith, u64, Bool, true,
  false, List, length, length-take, take, Option, none, some, Bool-cases,
}
use kaelix.Wal.Types.{WalResult, ok, err}
use kaelix.Wal.Entry.{LogEntry, Codec}
use kaelix.Wal.Segment.{
  WalSegment, overwrite, WriteCall, all_written, seek_failed, write_failed, advanced, write_to_file,
  write_bytes, write_serialized, write_entry, sync, seal, SyncPolicy, never, always, on_batch,
  on_shutdown, interval, synced, seal_after, mark_synced,
}
use kaelix.Wal.Segment.Bytes.{length-overwrite, take-overwrite}

-- A map covers the whole file.
abbrev pub Covers : ℕ → Option ℕ → Type 0
Covers capacity none = Unit {0}
Covers capacity (some map_length) = map_length ≡ capacity

-- The file and the map are as long as the capacity, and what was written stands below the write
-- position.
pub record IsSound (s : WalSegment) : Type 0 where
  pub position : s.write_position ≡ s.metadata.size
  pub room : s.write_position ≤ s.metadata.capacity
  pub allocated : length s.content ≡ s.metadata.capacity
  pub addressable : s.metadata.capacity < 2 ^ 63
  pub covered : Covers s.metadata.capacity s.mapped

-- Writes of entries that take fewer than 2^63 bytes, whose errors of the system write no more than
-- there are; syncs; and seals.
pub data Step (codec : Codec) (s : WalSegment) : WalSegment → Type 0 where
  wrote :
      (w : WriteCall) (e : LogEntry)
      → ((bytes : List ℕ) → codec.serialize e ≡ ok bytes → length bytes < 2 ^ 63)
      → Step codec s (write_entry codec w e s).0
  synced_to_disk :
      (now : ℕ) (failed : Option String) (p : SyncPolicy) → Step codec s (sync now failed p s).0
  sealed_off : (now : ℕ) (failed : Option String) → Step codec s (seal now failed s).0

pub data Reach (codec : Codec) (s : WalSegment) : WalSegment → Type 0 where
  here : Reach codec s s
  next : {t u : WalSegment} → Reach codec s t → Step codec t u → Reach codec s u

-- The later segment keeps the bytes that the earlier one had written, and is sealed if that was.
pub record Extends (s t : WalSegment) : Type 0 where
  pub grows : s.write_position ≤ t.write_position
  pub kept : take s.write_position t.content ≡ take s.write_position s.content
  pub stays_sealed : s.metadata.sealed ≡ true → t.metadata.sealed ≡ true

pub Extends-refl : (s : WalSegment) → Extends s s
Extends-refl s = record { grows = omega arith; kept = refl; stays_sealed = λ h. h }

pub advanced-IsSound :
    (e : LogEntry) (bytes : List ℕ) (s : WalSegment)
    → IsSound s
    → s.write_position + length bytes ≤ s.metadata.capacity
    → IsSound (advanced e bytes s) × Extends s (advanced e bytes s)
unfolding advanced
advanced-IsSound e bytes s h fits =
    let wide = h.addressable in
    let whole = h.allocated in
    let filled = h.room in
    (
      record {
        position = refl;
        room = omega arith;
        allocated = omega (arith, length-overwrite s.write_position bytes s.content);
        addressable = h.addressable;
        covered = h.covered;
      },
      record {
        grows = omega arith;
        kept =
            take-overwrite s.write_position s.write_position bytes s.content (omega arith)
              (omega arith);
        stays_sealed = λ sealed. sealed;
      },
    )

pub fits :
    (capacity p n : ℕ)
    → capacity < 2 ^ 63
    → p ≤ capacity
    → n < 2 ^ 63
    → ltb capacity (u64 (p + n)) ≡ false
    → p + n ≤ capacity
fits capacity p n small below short h = ground arith

-- A state and its successor, as the lemmas show them.
abbrev pub IsGoodStep : WalSegment → WalSegment → Type 0
IsGoodStep s t = IsSound t × Extends s t

if-IsGoodStep :
    (s : WalSegment) (b : Bool) (x y : WalSegment × WalResult ℕ)
    → (b ≡ true → IsGoodStep s x.0)
    → (b ≡ false → IsGoodStep s y.0)
    → IsGoodStep s (if b then x else y).0
if-IsGoodStep s true x y h k = h refl
if-IsGoodStep s false x y h k = k refl

torn-IsGoodStep :
    (count : ℕ) (bytes : List ℕ) (s : WalSegment)
    → IsSound s
    → s.write_position + length bytes ≤ s.metadata.capacity
    → IsGoodStep s (record s { content = overwrite s.write_position (take count bytes) s.content })
torn-IsGoodStep count bytes s h room =
    let whole = h.allocated in
    let filled = h.room in
    (
      record {
        position = h.position;
        room = h.room;
        allocated = omega (
          arith,
          length-overwrite s.write_position (take count bytes) s.content,
          length-take count bytes,
        );
        addressable = h.addressable;
        covered = h.covered;
      },
      record {
        grows = omega arith;
        kept =
            take-overwrite s.write_position s.write_position (take count bytes) s.content
              (omega arith) (omega arith);
        stays_sealed = λ sealed. sealed;
      },
    )

write_bytes-IsGoodStep :
    (e : LogEntry) (bytes : List ℕ) (s : WalSegment) (w : WriteCall) (mapped : Option ℕ)
    → IsSound s
    → s.write_position + length bytes ≤ s.metadata.capacity
    → IsGoodStep s (write_bytes e bytes s w mapped).0
unfolding write_bytes write_to_file
write_bytes-IsGoodStep e bytes s all_written none h room = advanced-IsSound e bytes s h room
write_bytes-IsGoodStep e bytes s (seek_failed text) none h room = (h, Extends-refl s)
write_bytes-IsGoodStep e bytes s (write_failed count text) none h room =
    torn-IsGoodStep count bytes s h room
write_bytes-IsGoodStep e bytes s w (some map_length) h room =
    elim (Bool-cases (leb (u64 (s.write_position + length bytes)) map_length)) [
      | inl inside ↦ rw inside (advanced-IsSound e bytes s h room)
      | inr outside ↦ rw outside (h, Extends-refl s)
    ]

write_serialized-IsGoodStep :
    (e : LogEntry) (s : WalSegment) (w : WriteCall) (r : WalResult (List ℕ))
    → IsSound s
    → ((bytes : List ℕ) → r ≡ ok bytes → length bytes < 2 ^ 63)
    → IsGoodStep s (write_serialized e s w r).0
unfolding write_serialized
write_serialized-IsGoodStep e s w (err x) h short = (h, Extends-refl s)
write_serialized-IsGoodStep e s w (ok bytes) h short =
    if-IsGoodStep s s.metadata.sealed _ _ (λ sealed. (h, Extends-refl s))
      (λ free.
        if-IsGoodStep s (ltb s.metadata.capacity (u64 (s.write_position + length bytes))) _ _
          (λ full. (h, Extends-refl s))
          (λ room. write_bytes-IsGoodStep e bytes s w s.mapped h (
            fits s.metadata.capacity s.write_position (length bytes) h.addressable h.room
              (short bytes refl) room)))

synced-IsGoodStep :
    (now : ℕ) (s : WalSegment) (failed : Option String)
    → IsSound s
    → IsGoodStep s (synced now s failed).0
unfolding synced mark_synced
synced-IsGoodStep now s none h = (
  record {
    position = h.position;
    room = h.room;
    allocated = h.allocated;
    addressable = h.addressable;
    covered = h.covered;
  },
  record { grows = omega arith; kept = refl; stays_sealed = λ sealed. sealed },
)
synced-IsGoodStep now s (some text) h = (h, Extends-refl s)

sync-IsGoodStep :
    (now : ℕ) (failed : Option String) (p : SyncPolicy) (s : WalSegment)
    → IsSound s
    → IsGoodStep s (sync now failed p s).0
unfolding sync
sync-IsGoodStep now failed never s h = synced-IsGoodStep now s none h
sync-IsGoodStep now failed always s h = synced-IsGoodStep now s failed h
sync-IsGoodStep now failed on_batch s h = synced-IsGoodStep now s failed h
sync-IsGoodStep now failed on_shutdown s h = synced-IsGoodStep now s failed h
sync-IsGoodStep now failed (interval ms) s h = synced-IsGoodStep now s failed h

seal_after-IsGoodStep :
    (s : WalSegment) (r : WalSegment × WalResult (Unit {0}))
    → IsGoodStep s r.0
    → IsGoodStep s (seal_after r).0
seal_after-IsGoodStep s (t, ok u) (h, k) = (
  record {
    position = h.position;
    room = h.room;
    allocated = h.allocated;
    addressable = h.addressable;
    covered = h.covered;
  },
  record { grows = k.grows; kept = k.kept; stays_sealed = λ sealed. refl },
)
seal_after-IsGoodStep s (t, err e) h = h

pub Step-IsGoodStep :
    {codec : Codec} {s t : WalSegment} → Step codec s t → IsSound s → IsGoodStep s t
unfolding write_entry seal
Step-IsGoodStep {codec} {s} (wrote w e short) h =
    write_serialized-IsGoodStep e s w (codec.serialize e) h short
Step-IsGoodStep {codec} {s} (synced_to_disk now failed p) h = sync-IsGoodStep now failed p s h
Step-IsGoodStep {codec} {s} (sealed_off now failed) h =
    seal_after-IsGoodStep s (sync now failed always s) (sync-IsGoodStep now failed always s h)
