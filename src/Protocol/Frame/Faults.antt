-- ===== src/Protocol/Frame/Faults.antt =====
-- What `deserialize` makes of damaged bytes of a frame: kaelix-core/src/protocol/frame.rs.
use mathlib.Core.List.{append_assoc}
use kaelix.Base.{
  ℕ, ◌+◌, ◌%◌, ◌^◌, ◌<◌, ltb, ◌==◌, if◌then◌else◌, ◌≡◌, false, sym, ap, ◌∙◌, List, [], ◌++◌, length,
  length-append, length-take, ltb→lt, true, ◌-◌, lt→ltb, ltb→ge, take-append_add, Bool-cases, inl,
  inr, take, arith, ◌≢◌,
}
use kaelix.Protocol.Types.{
  err, ◌>>=◌, max_payload_size, frame_header_size, incomplete_frame, buffer_too_small,
  checksum_mismatch,
}
use kaelix.Protocol.Bytes.{Buffers, to_be_bytes, length-to_be_bytes}
use kaelix.Protocol.Frame.{Frame, frame_size, payload_size}
use kaelix.Protocol.Frame.Wire.{calculate_checksum, header, serialize, deserialize}
use kaelix.Protocol.Frame.Roundtrip.{
  wire, length-wire, wire-append, read_wire, serialized, read_payload, word_size, IsEncodable,
}

module _ (b : Buffers) (hash : List ℕ → List ℕ → ℕ) where
  short :
      (bytes : List ℕ)
      → length bytes < 40
      → deserialize b hash bytes ≡ err (buffer_too_small 40 (length bytes))
  unfolding deserialize
  short bytes h = let less : ltb (length bytes) 40 ≡ true = lt→ltb (length bytes) 40 h in simp less

  pub take-wire :
      (f : Frame) (len sum : ℕ) (tail : List ℕ) (k : ℕ)
      → take (40 + k) (wire f len (to_be_bytes 4 sum ++ tail))
        ≡ wire f len (to_be_bytes 4 sum ++ take k tail)
  take-wire f len sum tail k =
      let top = wire f len (to_be_bytes 4 sum) in
      let size : length top ≡ 40 =
        length-wire b hash f len (to_be_bytes 4 sum)
        ∙ ap (λ n. 36 + n) (length-to_be_bytes 4 sum) in
      ap (take (40 + k)) (sym (wire-append b hash f len (to_be_bytes 4 sum) tail))
      ∙ ap (λ n. take (n + k) (top ++ tail)) (sym size)
      ∙ take-append_add top tail k
      ∙ wire-append b hash f len (to_be_bytes 4 sum) (take k tail)

  -- The bytes of an encodable frame whose payload was replaced by another of the same length are
  -- refused with a checksum mismatch, when the checksums of the two payloads under the frame's header differ.
  pub deserialize-tampered :
      (f : Frame) (p rest : List ℕ)
      → IsEncodable f
      → length p ≡ length f.payload
      → calculate_checksum b hash (header b hash f) f.payload
        ≢ calculate_checksum b hash (header b hash f) p
      → (serialize b hash f >>= λ bytes. deserialize b hash (take 40 bytes ++ (p ++ rest)))
        ≡ err (
            checksum_mismatch
              (calculate_checksum b hash (header b hash f) f.payload)
              (calculate_checksum b hash (header b hash f) p))
  unfolding calculate_checksum
  deserialize-tampered f p rest h e differ =
      let sum = calculate_checksum b hash (header b hash f) f.payload in
      let small : sum < 2 ^ 32 = omega arith in
      let read = read_payload b hash f sum p rest h e small in
      let apart : (sum == calculate_checksum b hash (header b hash f) p) ≡ false = ground arith in
      ap (λ r. r >>= λ bytes. deserialize b hash (take 40 bytes ++ (p ++ rest)))
        (serialized b hash f)
      ∙ ap (λ w. deserialize b hash (w ++ (p ++ rest)))
          (take-wire f (payload_size f) sum f.payload 0)
      ∙ ap (deserialize b hash) (
          wire-append b hash f (payload_size f) (to_be_bytes 4 sum ++ []) (p ++ rest)
          ∙ ap (wire f (payload_size f)) (append_assoc (to_be_bytes 4 sum) [] (p ++ rest)))
      ∙ read
      ∙ simp apart

  -- The first k bytes of an encodable frame, k less than its size, are refused: as a buffer that is too
  -- small when k is less than the 40 bytes of a header, else as an incomplete frame.
  pub deserialize-truncated :
      (f : Frame) (k : ℕ)
      → IsEncodable f
      → k < frame_size f
      → (serialize b hash f >>= λ bytes. deserialize b hash (take k bytes))
        ≡ err (
            if ltb k frame_header_size
            then buffer_too_small frame_header_size k
            else incomplete_frame (frame_size f) k)
  unfolding calculate_checksum IsEncodable frame_size payload_size
  deserialize-truncated f k (h1, h2, h3, h4, h5, t) lt =
      let sum = calculate_checksum b hash (header b hash f) f.payload in
      let tail = to_be_bytes 4 sum ++ f.payload in
      let len = word_size b hash f h5 in
      let size : length (wire f (payload_size f) tail) ≡ 40 + length f.payload = omega (
        arith,
        length-wire b hash f (payload_size f) tail,
        length-append (to_be_bytes 4 sum) f.payload,
        length-to_be_bytes 4 sum,
      ) in
      let bytes = wire f (payload_size f) tail in
      let cut = length-take k bytes in
      ap (λ r. r >>= λ bytes. deserialize b hash (take k bytes)) (serialized b hash f)
      ∙ elim (Bool-cases (ltb k 40)) [
        | inl less ↦
            let below = ltb→lt k 40 less in
            let cut_size : length (take k bytes) ≡ k = omega arith in
            short (take k bytes) (omega arith) ∙ simp (cut_size, less)
        | inr more ↦
            let above = ltb→ge k 40 more in
            let n = k - 40 in
            let whole : k ≡ 40 + n = omega arith in
            let part = length-take n f.payload in
            let kept : length (take n f.payload) ≡ n = omega arith in
            let fits : payload_size f % 2 ^ 32 ≡ length f.payload = omega arith in
            let small : ltb max_payload_size (length f.payload) ≡ false = ground arith in
            let missing : ltb n (length f.payload) ≡ true = ground arith in
            ap (λ n. deserialize b hash (take n bytes)) whole
            ∙ ap (deserialize b hash) (take-wire f (payload_size f) sum f.payload n)
            ∙ read_wire b hash f (payload_size f) sum (take n f.payload)
            ∙ simp (fits, small, kept, missing, more)
                (ap (λ m. err (incomplete_frame (frame_size f) m)) (sym whole))
      ]
