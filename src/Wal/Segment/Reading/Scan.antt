-- ===== src/Wal/Segment/Reading/Scan.antt =====
-- The scan of a file ends: kaelix-storage/src/wal/segment.rs.
use kaelix.Base.{
  ℕ, zero, suc, ◌+◌, ◌<◌, ltb, ◌≡◌, refl, arith, Bool, true, false, List, length, Option, none,
  some,
}
use kaelix.Wal.Types.{io, WalResult, ok, err}
use kaelix.Wal.Entry.{LogEntry, Codec, deserialize_header}
use kaelix.Wal.Segment.{slice}
use kaelix.Wal.Segment.Reading.{Scanned, scan_loop, scan_segment, nothing_scanned, found}

-- The scan did not run out of fuel.
abbrev Ended : Option (WalResult Scanned) → Type 0
Ended none = ⊥
Ended (some r) = Unit {0}

parsed-Ended :
    (codec : Codec) (content : List ℕ) (fuel : ℕ) (s : Scanned) (r : WalResult LogEntry)
    → ((e : LogEntry) → Ended (scan_loop codec content fuel (found s e)))
    → Ended (elim r [
      | err e ↦ some (err (io "Failed to parse entry header"))
      | ok entry ↦ scan_loop codec content fuel (found s entry)
    ])
parsed-Ended codec content fuel s (err e) h = tt
parsed-Ended codec content fuel s (ok e) h = h e

turn-Ended :
    (codec : Codec) (content : List ℕ) (fuel : ℕ) (s : Scanned) (b : Bool)
    → (b ≡ false → (e : LogEntry) → Ended (scan_loop codec content fuel (found s e)))
    → Ended (elim b [
      | true ↦ some (ok s)
      | false ↦ elim (deserialize_header codec (slice s.position 24 content)) [
        | err e ↦ some (err (io "Failed to parse entry header"))
        | ok entry ↦ scan_loop codec content fuel (found s entry)
      ]
    ])
turn-Ended codec content fuel s true h = tt
turn-Ended codec content fuel s false h =
    parsed-Ended codec content fuel s (deserialize_header codec (slice s.position 24 content))
      (h refl)

scan_loop-Ended :
    (codec : Codec) (content : List ℕ) (fuel : ℕ) (s : Scanned)
    → 0 < fuel
    → length content < s.position + fuel
    → Ended (scan_loop codec content fuel s)
unfolding scan_loop
scan_loop-Ended codec content zero s positive enough = absurd (omega arith)
scan_loop-Ended codec content (suc fuel) s positive enough =
    turn-Ended codec content fuel s (ltb (length content) (s.position + 24))
      (λ more. λ e. scan_loop-Ended codec content fuel (found s e) (ground arith) (ground arith))

-- The scan of any file ends, whatever its headers announce.
scan_segment-Ended : (codec : Codec) (content : List ℕ) → Ended (scan_segment codec content)
unfolding scan_segment
scan_segment-Ended codec content =
    scan_loop-Ended codec content (suc (length content)) nothing_scanned (omega arith) (omega arith)
