-- ===== src/Wal/Segment/Capacity.antt =====
-- What a segment keeps through its life: kaelix-storage/src/wal/segment.rs.
use Prim.Native.String.{String}
use kaelix.Base.{
  ℕ, ◌^◌, ◌≤◌, ◌<◌, if◌then◌else◌, ◌≡◌, refl, sym, ap, subst, ◌∙◌, arith, Bool, true, false, List,
  take, Option, none, some,
}
use kaelix.Wal.Types.{WalResult, ok, err}
use kaelix.Wal.Entry.{Codec}
use kaelix.Wal.Segment.{WalSegment, CreateCalls, create, call, maps, zeros, new_metadata}
use kaelix.Wal.Segment.Bytes.{length-zeros, take-take}
use kaelix.Wal.Segment.Steps.{
  here, next, Covers, IsSound, Reach, Extends, Extends-refl, IsGoodStep, Step-IsGoodStep,
}

take-within : (n m : ℕ) (xs ys : List ℕ) → n ≤ m → take m xs ≡ take m ys → take n xs ≡ take n ys
take-within n m xs ys small e =
    sym (take-take n m xs small) ∙ ap (take n) e ∙ take-take n m ys small

Extends-trans : {s t u : WalSegment} → Extends s t → Extends t u → Extends s u
Extends-trans {s} {t} {u} h k =
    let one = h.grows in
    let two = k.grows in
    record {
      grows = omega arith;
      kept =
          take-within s.write_position t.write_position u.content t.content h.grows k.kept ∙ h.kept;
      stays_sealed = λ sealed. k.stays_sealed (h.stays_sealed sealed);
    }

pub Reach-IsGoodStep :
    {codec : Codec} {s t : WalSegment} → Reach codec s t → IsSound s → IsGoodStep s t
Reach-IsGoodStep {codec} {s} here h = (h, Extends-refl s)
Reach-IsGoodStep (next r st) h =
    let (sound, before) = Reach-IsGoodStep r h in
    let (good, after) = Step-IsGoodStep st sound in (good, Extends-trans before after)

-- What holds of a segment that was created.
abbrev IfCreated : WalResult WalSegment → Type 0
IfCreated (ok s) = IsSound s
IfCreated (err e) = Unit {0}

call-IfCreated : (e : Option String) (r : WalResult WalSegment) → IfCreated r → IfCreated (call e r)
call-IfCreated none r h = h
call-IfCreated (some text) r h = tt

if-Covers : (b : Bool) (capacity : ℕ) → Covers capacity (if b then some capacity else none)
if-Covers true capacity = refl
if-Covers false capacity = tt

create-IsSound :
    (calls : CreateCalls) (now id : ℕ) (path : String) (capacity : ℕ) (use_mmap : Bool)
    (s : WalSegment)
    → capacity < 2 ^ 63
    → create calls now id path capacity use_mmap ≡ ok s
    → IsSound s
unfolding create new_metadata
create-IsSound calls now id path capacity use_mmap s small made =
    let mapping = if maps use_mmap capacity then calls.map_file else none in
    subst IfCreated made (
      call-IfCreated calls.create_dir _ (
        call-IfCreated calls.open_file _ (
          call-IfCreated calls.set_len _ (
            call-IfCreated mapping
              (ok (record {
                metadata = new_metadata now id path capacity;
                content = zeros capacity;
                mapped = if maps use_mmap capacity then some capacity else none;
                write_position = 0;
              }))
              (record {
                position = refl;
                room = omega arith;
                allocated = length-zeros capacity;
                addressable = small;
                covered = if-Covers (maps use_mmap capacity) capacity;
              })))))

-- Whatever is written, synced and sealed after a segment was created with a capacity below 2^63, and
-- whatever fails on the way: the write position is the recorded size and never passes the capacity, the
-- file keeps the length of the capacity, and no operation changes a byte that a former one had written
-- or unseals the segment. Each entry takes fewer than 2^63 bytes.
pub Reach-IsSound :
    (codec : Codec) (calls : CreateCalls) (now id : ℕ) (path : String) (capacity : ℕ)
    (use_mmap : Bool) {s t u : WalSegment}
    → capacity < 2 ^ 63
    → create calls now id path capacity use_mmap ≡ ok s
    → Reach codec s t
    → Reach codec t u
    → IsSound t × Extends t u
Reach-IsSound codec calls now id path capacity use_mmap {s} {t} {u} small made run further =
    let sound =
      (Reach-IsGoodStep run (create-IsSound calls now id path capacity use_mmap s small made)).0 in
    (sound, (Reach-IsGoodStep further sound).1)
