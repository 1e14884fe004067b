-- ===== src/Wal/Segment/Written.antt =====
-- What a write does: kaelix-storage/src/wal/segment.rs.
use kaelix.Base.{
  ℕ, ◌+◌, ◌^◌, ◌≤◌, ◌<◌, ltb, leb, if◌then◌else◌, ◌≡◌, inl, inr, refl, sym, ap, subst, ◌∙◌, arith,
  u64, Bool, true, false, List, length, take, drop, Option, none, some, Bool-cases,
}
use kaelix.Wal.Types.{WalError, segment_full, segment_sealed, WalResult, ok, err}
use kaelix.Wal.Entry.{LogEntry, Codec}
use kaelix.Wal.Segment.{
  WalSegment, slice, WriteCall, all_written, seek_failed, write_failed, advanced, write_to_file,
  write_bytes, write_serialized, write_entry, can_accept,
}
use kaelix.Wal.Segment.Bytes.{slice-overwrite, within_take}
use kaelix.Wal.Segment.Capacity.{Reach-IsGoodStep}
use kaelix.Wal.Segment.Steps.{IsSound, Covers, Reach, Extends, advanced-IsSound, fits}

abbrev pub succeeded {ℓ} : {A : Type ℓ} → WalResult A → Bool
succeeded (ok a) = true
succeeded (err e) = false

bytes_succeed :
    (e : LogEntry) (bytes : List ℕ) (s : WalSegment) (mapped : Option ℕ)
    → Covers s.metadata.capacity mapped
    → s.write_position + length bytes ≤ s.metadata.capacity
    → succeeded (write_bytes e bytes s all_written mapped).1 ≡ true
unfolding write_bytes write_to_file
bytes_succeed e bytes s none covered room = refl
bytes_succeed e bytes s (some map_length) covered room = ground arith

-- Where the system writes what it is given, a write into a segment that was created and used succeeds
-- exactly when `can_accept` says so of the length of the entry; otherwise the segment stays as it is.
write_entry_iff :
    (codec : Codec) (e : LogEntry) (bytes : List ℕ) (s : WalSegment)
    → IsSound s
    → codec.serialize e ≡ ok bytes
    → length bytes < 2 ^ 63
    → (succeeded (write_entry codec all_written e s).1 ≡ can_accept (length bytes) s)
      × (can_accept (length bytes) s ≡ false → (write_entry codec all_written e s).0 ≡ s)
unfolding write_entry can_accept write_serialized
write_entry_iff codec e bytes s sound serializes short =
    let small = sound.addressable in
    let below = sound.room in
    rw serializes (ground (arith, bytes_succeed e bytes s s.mapped sound.covered), ground arith)

-- The write went through.
IsAdvanced : LogEntry → List ℕ → WalSegment → ℕ → WalSegment × WalResult ℕ → Type 0
IsAdvanced e bytes s p r = (r.0 ≡ advanced e bytes s) × (p ≡ s.write_position)

bytes-IsAdvanced :
    (e : LogEntry) (bytes : List ℕ) (s : WalSegment) (w : WriteCall) (mapped : Option ℕ) (p : ℕ)
    → (write_bytes e bytes s w mapped).1 ≡ ok p
    → IsAdvanced e bytes s p (write_bytes e bytes s w mapped)
unfolding write_bytes write_to_file IsAdvanced
bytes-IsAdvanced e bytes s all_written none p h = (refl, ground arith)
bytes-IsAdvanced e bytes s (seek_failed text) none p h = absurd (ground arith)
bytes-IsAdvanced e bytes s (write_failed count text) none p h = absurd (ground arith)
bytes-IsAdvanced e bytes s w (some map_length) p h =
    elim (Bool-cases (leb (u64 (s.write_position + length bytes)) map_length)) [
      | inl inside ↦ rw inside (refl, ground arith)
      | inr outside ↦ absurd (ground arith)
    ]

if-IsAdvanced :
    (e : LogEntry) (bytes : List ℕ) (s : WalSegment) (p : ℕ) (b : Bool) (x : WalError)
    (y : WalSegment × WalResult ℕ)
    → (if b then (s, err x) else y).1 ≡ ok p
    → (b ≡ false) × (y.1 ≡ ok p) × ((if b then (s, err x) else y).0 ≡ y.0)
if-IsAdvanced e bytes s p true x y h = absurd (ground arith)
if-IsAdvanced e bytes s p false x y h = (refl, h, refl)

serialized-IsAdvanced :
    (e : LogEntry) (bytes : List ℕ) (s : WalSegment) (w : WriteCall) (p : ℕ)
    → (write_serialized e s w (ok bytes)).1 ≡ ok p
    → (ltb s.metadata.capacity (u64 (s.write_position + length bytes)) ≡ false)
      × ((write_serialized e s w (ok bytes)).0 ≡ advanced e bytes s)
      × (p ≡ s.write_position)
unfolding write_serialized IsAdvanced
serialized-IsAdvanced e bytes s w p h =
    let full = ltb s.metadata.capacity (u64 (s.write_position + length bytes)) in
    let rest = write_bytes e bytes s w s.mapped in
    let (free, went, same) =
      if-IsAdvanced e bytes s p s.metadata.sealed (segment_sealed s.metadata.id)
        (if full then (s, err (segment_full s.metadata.id)) else rest) h in
    let (room, through, equal) =
      if-IsAdvanced e bytes s p full (segment_full s.metadata.id) rest went in
    let (state, position) = bytes-IsAdvanced e bytes s w s.mapped p through in
    (room, same ∙ equal ∙ state, position)

advanced-slice :
    (e : LogEntry) (bytes : List ℕ) (s : WalSegment)
    → s.write_position ≤ length s.content
    → slice s.write_position (length bytes) (advanced e bytes s).content ≡ bytes
unfolding advanced
advanced-slice e bytes s h = slice-overwrite s.write_position bytes s.content h

advanced_reaches :
    (e : LogEntry) (bytes : List ℕ) (s : WalSegment)
    → s.write_position + length bytes ≤ s.metadata.capacity
    → s.metadata.capacity < 2 ^ 63
    → s.write_position + length bytes ≤ (advanced e bytes s).write_position
unfolding advanced
advanced_reaches e bytes s room small = omega arith

Extends-slice :
    (p n : ℕ) {s t : WalSegment}
    → Extends s t
    → p + n ≤ s.write_position
    → slice p n t.content ≡ slice p n s.content
unfolding slice
Extends-slice p n {s} {t} h inside =
    sym (within_take p n s.write_position t.content inside)
    ∙ ap (λ ys. take n (drop p ys)) h.kept
    ∙ within_take p n s.write_position s.content inside

-- The position that a successful write returns holds the bytes of the entry, and still does after any
-- further writes, failed ones among them, syncs and seals.
pub write_entry_persists :
    (codec : Codec) (w : WriteCall) (e : LogEntry) (bytes : List ℕ) (p : ℕ) (s t : WalSegment)
    → IsSound s
    → codec.serialize e ≡ ok bytes
    → length bytes < 2 ^ 63
    → (write_entry codec w e s).1 ≡ ok p
    → Reach codec (write_entry codec w e s).0 t
    → slice p (length bytes) t.content ≡ bytes
unfolding write_entry
write_entry_persists codec w e bytes p s t sound serializes short done run =
    let written : (write_serialized e s w (ok bytes)).1 ≡ ok p =
      ap (λ r. (write_serialized e s w r).1) (sym serializes) ∙ done in
    let (room, state, position) = serialized-IsAdvanced e bytes s w p written in
    let after : (write_serialized e s w (codec.serialize e)).0 ≡ advanced e bytes s =
      ap (λ r. (write_serialized e s w r).0) serializes ∙ state in
    let fitting =
      fits s.metadata.capacity s.write_position (length bytes) sound.addressable sound.room short
        room in
    let good = (advanced-IsSound e bytes s sound fitting).0 in
    let kept = (Reach-IsGoodStep (subst (λ r. Reach codec r t) after run) good).1 in
    let whole = sound.allocated in
    let small = sound.addressable in
    subst (λ q. slice q (length bytes) t.content ≡ bytes) (sym position)
      (Extends-slice s.write_position (length bytes) kept (advanced_reaches e bytes s fitting small)
        ∙ advanced-slice e bytes s (omega arith))
