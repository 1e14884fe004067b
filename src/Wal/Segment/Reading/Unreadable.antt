-- ===== src/Wal/Segment/Reading/Unreadable.antt =====
-- Reading back what a segment holds: kaelix-storage/src/wal/segment.rs.
use Prim.Native.String.{String}
use kaelix.Base.{
  ℕ, ◌+◌, ◌≤◌, ◌<◌, ltb, leb, ◌≡◌, inl, inr, refl, arith, Bool, List, length, drop, length-take,
  Option, none, some, Bool-cases,
}
use kaelix.Wal.Types.{WalError, io, WalResult, ok, err}
use kaelix.Wal.Entry.{LogEntry, Codec, deserialize_header}
use kaelix.Wal.Segment.{WalSegment, slice}
use kaelix.Wal.Segment.Reading.{
  scan_loop, scan_segment, open_segment, read_entry, read_from, read_mapped, read_file,
  open_scanned, opened,
}

-- No entry is read.
abbrev pub IsError {ℓ} : {A : Type ℓ} → WalResult A → Type 0
IsError (ok a) = ⊥
IsError (err e) = Unit {0}

slice-short : (p n : ℕ) (content : List ℕ) → length (slice p n content) ≤ n
unfolding slice
slice-short p n content = omega (arith, length-take n (drop p content))

header-IsError :
    (codec : Codec) (bytes : List ℕ)
    → IsError (codec.deserialize bytes)
    → IsError (deserialize_header codec bytes)
unfolding deserialize_header
header-IsError codec bytes h = elim (Bool-cases (ltb (length bytes) 24)) [
  | inl short ↦ rw short tt
  | inr long ↦ rw long h
]

module _ (codec : Codec)
    (needs_all : (bytes : List ℕ) → length bytes < 39 → IsError (codec.deserialize bytes)) where
  header-fails :
      (p : ℕ) (content : List ℕ) → IsError (deserialize_header codec (slice p 24 content))
  header-fails p content =
      header-IsError codec (slice p 24 content)
        (needs_all (slice p 24 content) (omega (arith, slice-short p 24 content)))

  mapped-IsError :
      (p : ℕ) (content : List ℕ) (n : ℕ) (r : WalResult LogEntry)
      → IsError r
      → IsError (read_mapped codec p content n r)
  unfolding read_mapped
  mapped-IsError p content n (ok e) h = absurd h
  mapped-IsError p content n (err x) h = tt

  file-IsError :
      (p : ℕ) (content : List ℕ) (r : WalResult LogEntry)
      → IsError r
      → IsError (read_file codec p content r)
  unfolding read_file
  file-IsError p content (ok e) h = absurd h
  file-IsError p content (err x) h = tt

  read_from-IsError :
      (p : ℕ) (content : List ℕ) (mapped : Option ℕ) → IsError (read_from codec p content mapped)
  unfolding read_from
  read_from-IsError p content (some n) = elim (Bool-cases (leb n p)) [
    | inl beyond ↦ rw beyond tt
    | inr inside ↦ elim (Bool-cases (ltb n (p + 24))) [
      | inl few ↦ rw (inside, few) tt
      | inr many ↦
          rw (inside, many)
            (mapped-IsError p content n (deserialize_header codec (slice p 24 content))
              (header-fails p content))
    ]
  ]
  read_from-IsError p content none = elim (Bool-cases (ltb (length content) (p + 24))) [
    | inl few ↦ rw few tt
    | inr many ↦ rw many (
        file-IsError p content (deserialize_header codec (slice p 24 content))
          (header-fails p content))
  ]

-- No position of any segment can be read: the header is read as an entry of its own from 24 bytes, but
-- bincode refuses an entry of fewer than 39.
pub read_entry-IsError :
    (codec : Codec) (position : ℕ) (s : WalSegment)
    → ((bytes : List ℕ) → length bytes < 39 → IsError (codec.deserialize bytes))
    → IsError (read_entry codec position s)
unfolding read_entry
read_entry-IsError codec position s needs_all =
    read_from-IsError codec needs_all position s.content s.mapped

error_of {ℓ} : {A : Type ℓ} (r : WalResult A) → IsError r → (e : WalError) × (r ≡ err e)
error_of (ok a) h = absurd h
error_of (err e) h = (e, refl)

scan_segment-fails :
    (codec : Codec) (content : List ℕ)
    → ((bytes : List ℕ) → length bytes < 39 → IsError (codec.deserialize bytes))
    → 24 ≤ length content
    → scan_segment codec content ≡ some (err (io "Failed to parse entry header"))
unfolding scan_segment scan_loop
scan_segment-fails codec content needs_all long =
    let (e, fails) =
      error_of (deserialize_header codec (slice 0 24 content))
        (header-fails codec needs_all 0 content) in
    ground (arith, fails)

-- Nor can a segment be opened again whose file has at least 24 bytes, written or not: the scan fails at
-- its first header, with the error that the header cannot be parsed.
open_segment-fails :
    (codec : Codec) (now id : ℕ) (path : String) (content : List ℕ) (use_mmap : Bool)
    → ((bytes : List ℕ) → length bytes < 39 → IsError (codec.deserialize bytes))
    → 24 ≤ length content
    → open_segment codec now (some id) path content use_mmap
      ≡ some (err (io "Failed to parse entry header"))
unfolding open_segment open_scanned opened
open_segment-fails codec now id path content use_mmap needs_all long =
    rw (scan_segment-fails codec content needs_all long) refl
