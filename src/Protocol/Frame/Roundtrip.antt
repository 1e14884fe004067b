-- ===== src/Protocol/Frame/Roundtrip.antt =====
-- What `deserialize` makes of the bytes of a frame: kaelix-core/src/protocol/frame.rs.
use mathlib.Core.List.{append_assoc}
use native.Mathlib.Nat.{mod-eq_of_lt}
use kaelix.Base.{
  ℕ, ◌+◌, ◌%◌, ◌^◌, ◌≤◌, ◌<◌, ltb, ◌==◌, not, if◌then◌else◌, ◌≡◌, false, refl, sym, ap, ◌∙◌, List,
  [], ◌∷◌, ◌++◌, length, length-append, take, take-append_length, arith, ==_refl,
}
use kaelix.Protocol.Types.{
  ProtocolResult, ok, fail_if, ◌>>=◌, ◌>>◌, max_payload_size, frame_header_size, FrameType,
  frame_type, payload_too_large, incomplete_frame, checksum_mismatch,
}
use kaelix.Protocol.Bytes.{
  Buffers, bytes_eq, to_be_bytes, length-to_be_bytes, get_u8-put, get_u16-put, get_u32-put,
  get_u64-put,
}
use kaelix.Protocol.Frame.{Frame, frame, payload_size, protocol_magic, protocol_version}
use kaelix.Protocol.Frame.Wire.{calculate_checksum, header, serialize, deserialize}

-- The layout of the header, with what follows it.
abbrev pub wire : Frame → ℕ → List ℕ → List ℕ
wire f len tail =
    protocol_magic
    ++ (to_be_bytes 1 protocol_version
        ++ (to_be_bytes 2 f.flags
            ++ (to_be_bytes 1 0
                ++ (to_be_bytes 4 f.stream_id
                    ++ (to_be_bytes 4 0
                        ++ (to_be_bytes 8 f.sequence
                            ++ (to_be_bytes 8 f.timestamp ++ (to_be_bytes 4 len ++ tail))))))))

-- A frame whose fields fit in their words, of a known type and with a payload that is not too large.
unfoldable pub IsEncodable : Frame → Type 0
IsEncodable f =
    f.flags < 2 ^ 16
    × f.stream_id < 2 ^ 32
    × f.sequence < 2 ^ 64
    × f.timestamp < 2 ^ 64
    × length f.payload ≤ max_payload_size
    × ((t : FrameType) × (frame_type f.flags ≡ ok t))

module _ (b : Buffers) (hash : List ℕ → List ℕ → ℕ) where
  header-append :
      (f : Frame) (tail : List ℕ) → header b hash f ++ tail ≡ wire f (payload_size f) tail
  unfolding header
  header-append f tail =
      simp
        (b.put_slice_lem, b.put_u8_lem, b.put_u16_lem, b.put_u32_lem, b.put_u64_lem, append_assoc)

  length-header : (f : Frame) → length (header b hash f) ≡ 36
  unfolding header
  length-header f = simp (
    b.put_slice_lem, b.put_u8_lem, b.put_u16_lem, b.put_u32_lem, b.put_u64_lem, length-append,
    length-to_be_bytes,
  )

  pub length-wire :
      (f : Frame) (len : ℕ) (tail : List ℕ) → length (wire f len tail) ≡ 36 + length tail
  length-wire f len tail = simp (length-append, length-to_be_bytes) (omega arith)

  long_enough :
      (f : Frame) (len sum : ℕ) (tail : List ℕ)
      → ltb (length (wire f len (to_be_bytes 4 sum ++ tail))) frame_header_size ≡ false
  long_enough f len sum tail = ground (
    arith,
    length-wire f len (to_be_bytes 4 sum ++ tail),
    length-append (to_be_bytes 4 sum) tail,
    length-to_be_bytes 4 sum,
  )

  magic_first :
      (rest : List ℕ) → b.copy_to_slice 4 (protocol_magic ++ rest) ≡ (protocol_magic, rest)
  magic_first rest = b.copy_to_slice_lem protocol_magic rest

  -- What `deserialize` decides from the fields that it has read.
  abbrev pub verdict : Frame → ℕ → ℕ → List ℕ → List ℕ → ProtocolResult Frame
  verdict f len sum bytes tail =
      let payload = if len == 0 then [] else b.slice_to tail len in
      let actual = calculate_checksum b hash (take 36 bytes) payload in
      fail_if (ltb max_payload_size len) (payload_too_large len max_payload_size)
      >> (fail_if (ltb (length tail) len)
            (incomplete_frame (frame_header_size + len) (frame_header_size + length tail))
          >> (fail_if (not (sum == actual)) (checksum_mismatch sum actual)
              >> (frame_type f.flags >>= λ t.
                  ok (frame f.flags f.stream_id f.sequence f.timestamp payload))))

  pub read_wire :
      (f : Frame) (len sum : ℕ) (tail : List ℕ)
      → deserialize b hash (wire f len (to_be_bytes 4 sum ++ tail))
        ≡ verdict
            (frame
              (f.flags % 2 ^ 16)
              (f.stream_id % 2 ^ 32)
              (f.sequence % 2 ^ 64)
              (f.timestamp % 2 ^ 64)
              [])
            (len % 2 ^ 32)
            (sum % 2 ^ 32)
            (wire f len (to_be_bytes 4 sum ++ tail))
            tail
  unfolding deserialize bytes_eq
  read_wire f len sum tail = simp (
    long_enough f len sum tail,
    magic_first,
    get_u8-put b,
    get_u16-put b,
    get_u32-put b,
    get_u64-put b,
  )

  take-header :
      (f : Frame) (tail : List ℕ) → take 36 (wire f (payload_size f) tail) ≡ header b hash f
  take-header f tail =
      ap (take 36) (sym (header-append f tail))
      ∙ ap (λ n. take n (header b hash f ++ tail)) (sym (length-header f))
      ∙ take-append_length (header b hash f) tail

  pub serialized :
      (f : Frame)
      → serialize b hash f
        ≡ ok (
            wire f
              (payload_size f)
              (to_be_bytes 4 (calculate_checksum b hash (header b hash f) f.payload) ++ f.payload))
  unfolding serialize
  serialized f = simp (b.put_slice_lem, b.put_u32_lem, append_assoc, header-append)

  pub word_size :
      (f : Frame) → length f.payload ≤ max_payload_size → payload_size f ≡ length f.payload
  unfolding payload_size
  word_size f h = omega arith

  slice-payload :
      (p rest : List ℕ) (len : ℕ)
      → len ≡ length p
      → (if len == 0 then [] else b.slice_to (p ++ rest) len) ≡ p
  slice-payload [] rest len e = ground arith
  slice-payload (x ∷ p) rest len e = ground (arith, b.slice_to_lem (x ∷ p) rest)

  pub wire-append : (f : Frame) (len : ℕ) (x y : List ℕ) → wire f len x ++ y ≡ wire f len (x ++ y)
  wire-append f len x y = simp append_assoc

  -- The bytes of an encodable frame with another checksum and another payload of the same length.
  pub read_payload :
      (f : Frame) (sum : ℕ) (p rest : List ℕ)
      → IsEncodable f
      → length p ≡ length f.payload
      → sum < 2 ^ 32
      → deserialize b hash (wire f (payload_size f) (to_be_bytes 4 sum ++ (p ++ rest))) ≡ (
          fail_if
            (not (sum == calculate_checksum b hash (header b hash f) p))
            (checksum_mismatch sum (calculate_checksum b hash (header b hash f) p))
          >> ok (frame f.flags f.stream_id f.sequence f.timestamp p))
  unfolding payload_size IsEncodable
  read_payload f sum p rest (h1, h2, h3, h4, h5, (t, known)) e s =
      let len = word_size f h5 in
      let fits : payload_size f % 2 ^ 32 ≡ length p = omega arith in
      let sliced = slice-payload p rest (length p) refl in
      let first = take-header f (to_be_bytes 4 sum ++ (p ++ rest)) in
      let small : ltb max_payload_size (length p) ≡ false = ground arith in
      let whole : ltb (length (p ++ rest)) (length p) ≡ false =
        ground (arith, length-append p rest) in
      read_wire f (payload_size f) sum (p ++ rest)
      ∙ simp (
        mod-eq_of_lt h1,
        mod-eq_of_lt h2,
        mod-eq_of_lt h3,
        mod-eq_of_lt h4,
        mod-eq_of_lt s,
        fits,
        small,
        whole,
        sliced,
        first,
        known,
      )

  -- An encodable frame that is serialised, with any bytes after it, deserialises to that frame.
  pub deserialize-serialize :
      (f : Frame) (rest : List ℕ)
      → IsEncodable f
      → (serialize b hash f >>= λ bytes. deserialize b hash (bytes ++ rest)) ≡ ok f
  unfolding calculate_checksum
  deserialize-serialize f rest h =
      let sum = calculate_checksum b hash (header b hash f) f.payload in
      let small : sum < 2 ^ 32 = omega arith in
      let read = read_payload f sum f.payload rest h refl small in
      simp (serialized f, append_assoc, read, ==_refl sum)
