-- ===== src/Protocol/Codec/Stream.antt =====
-- The decoder on the bytes of whole frames: `decode_stream` of kaelix-core/src/protocol/codec.rs.
use mathlib.Core.List.{append_assoc, append-nil}
use kaelix.Base.{
  ℕ, ◌+◌, ◌%◌, ◌^◌, ◌≤◌, ltb, leb, ◌≡◌, ◌⊎◌, inl, inr, refl, sym, ap, ◌∙◌, true, false, List, [],
  ◌∷◌, ◌++◌, length, length-append, take, drop, take-append_length, drop-append_length, Option,
  none, some, arith,
}
use kaelix.Protocol.Types.{ok, ◌>>=◌, frame_header_size}
use kaelix.Protocol.Bytes.{
  Buffers, to_be_bytes, from_be_bytes, length-to_be_bytes, from-to_be_bytes,
}
use kaelix.Protocol.Frame
use kaelix.Protocol.Frame.{Frame, payload_size, protocol_magic, protocol_version}
use kaelix.Protocol.Frame.Wire.{calculate_checksum, header, deserialize}
use kaelix.Protocol.Frame.Roundtrip.{
  wire, length-wire, wire-append, serialized, word_size, IsEncodable, deserialize-serialize,
}
use kaelix.Protocol.Codec.{
  FrameDecoder, DecoderStats, announced, peek_frame_size, decode_single_frame, decode_sized,
  take_decoded, count_decoded, decode_or_wait, with_size, frame_size, turn, again,
}

module _ (b : Buffers) (hash : List ℕ → List ℕ → ℕ) where
  -- The bytes that `serialize` makes.
  unfoldable pub encoded : Frame → List ℕ
  encoded f =
      wire f (payload_size f)
        (to_be_bytes 4 (calculate_checksum b hash (header b hash f) f.payload) ++ f.payload)

  pub length-encoded : (f : Frame) → length (encoded f) ≡ Frame.frame_size f
  unfolding encoded Frame.frame_size
  length-encoded f =
      let sum = to_be_bytes 4 (calculate_checksum b hash (header b hash f) f.payload) in
      omega (
        arith,
        length-wire b hash f (payload_size f) (sum ++ f.payload),
        length-append sum f.payload,
        length-to_be_bytes 4 (calculate_checksum b hash (header b hash f) f.payload),
      )

  pub deserialize-encoded : (f : Frame) → IsEncodable f → deserialize b hash (encoded f) ≡ ok f
  unfolding encoded
  deserialize-encoded f h =
      ap (deserialize b hash) (sym (append-nil (encoded f)))
      ∙ ap (λ r. r >>= λ bytes. deserialize b hash (bytes ++ [])) (sym (serialized b hash f))
      ∙ deserialize-serialize b hash f [] h

  -- What stands before the payload's length.
  abbrev before_length : Frame → List ℕ
  before_length f =
      protocol_magic
      ++ (to_be_bytes 1 protocol_version
          ++ (to_be_bytes 2 f.flags
              ++ (to_be_bytes 1 0
                  ++ (to_be_bytes 4 f.stream_id
                      ++ (to_be_bytes 4 0
                          ++ (to_be_bytes 8 f.sequence ++ to_be_bytes 8 f.timestamp))))))

  length_field :
      (f : Frame) (len : ℕ) (tail : List ℕ)
      → from_be_bytes (take 4 (drop 32 (wire f len tail))) ≡ len % 2 ^ 32
  length_field f len tail =
      let before = before_length f in
      let size : length before ≡ 32 = simp (length-append, length-to_be_bytes) in
      let width = length-to_be_bytes 4 len in
      let rest = to_be_bytes 4 len ++ tail in
      let cut : wire f len tail ≡ before ++ rest = simp append_assoc in
      ap (λ w. from_be_bytes (take 4 (drop 32 w))) cut
      ∙ ap (λ n. from_be_bytes (take 4 (drop n (before ++ rest)))) (sym size)
      ∙ ap (λ w. from_be_bytes (take 4 w)) (drop-append_length before rest)
      ∙ ap (λ n. from_be_bytes (take n rest)) (sym width)
      ∙ ap from_be_bytes (take-append_length (to_be_bytes 4 len) tail)
      ∙ from-to_be_bytes 4 len

  abbrev pub receiving : List ℕ → List Frame → Option ℕ → ℕ → DecoderStats → FrameDecoder
  receiving buffer queue size limit stats = record {
    buffer = buffer;
    frame_queue = queue;
    expected_frame_size = size;
    max_frame_size = limit;
    stats = stats;
  }

  peek-wire :
      (f : Frame) (tail : List ℕ) (q : List Frame) (size : Option ℕ) (m : ℕ) (s : DecoderStats)
      → IsEncodable f
      → Frame.frame_size f ≤ m
      → 4 ≤ length tail
      → peek_frame_size (receiving (wire f (payload_size f) tail) q size m s)
        ≡ ok (some (Frame.frame_size f))
  unfolding peek_frame_size announced Frame.frame_size IsEncodable
  peek-wire f tail q size m s (h1, h2, h3, h4, h5, t) fits long =
      let field = length_field f (payload_size f) tail in
      ground (arith, field, word_size b hash f h5, length-wire b hash f (payload_size f) tail)

  -- A decoder that knows the size of the frame at the front of its buffer, or has yet to read it.
  abbrev pub Expects : Option ℕ → Frame → Type 0
  Expects size f = size ≡ none ⊎ size ≡ some (Frame.frame_size f)

  pub frame_size-wire :
      (f : Frame) (tail : List ℕ) (q : List Frame) (size : Option ℕ) (m : ℕ) (s : DecoderStats)
      → IsEncodable f
      → Frame.frame_size f ≤ m
      → 4 ≤ length tail
      → Expects size f
      → frame_size (receiving (wire f (payload_size f) tail) q size m s) size
        ≡ ok (some (Frame.frame_size f))
  unfolding frame_size
  frame_size-wire f tail q size m s h fits long (inl unknown) =
      rw unknown (peek-wire f tail q none m s h fits long)
  frame_size-wire f tail q size m s h fits long (inr known) = rw known refl

  sized-encoded :
      (f : Frame) (rest : List ℕ) (q : List Frame) (size : Option ℕ) (m : ℕ) (s : DecoderStats)
      → IsEncodable f
      → Frame.frame_size f ≤ m
      → Expects size f
      → frame_size (receiving (encoded f ++ rest) q size m s) size ≡ ok (some (Frame.frame_size f))
  unfolding encoded
  sized-encoded f rest q size m s h fits e =
      let sum = to_be_bytes 4 (calculate_checksum b hash (header b hash f) f.payload) in
      let tail = (sum ++ f.payload) ++ rest in
      let long : 4 ≤ length tail = omega (
        arith,
        length-append (sum ++ f.payload) rest,
        length-append sum f.payload,
        length-to_be_bytes 4 (calculate_checksum b hash (header b hash f) f.payload),
      ) in
      ap (λ w. frame_size (receiving w q size m s) size)
        (wire-append b hash f (payload_size f) (sum ++ f.payload) rest)
      ∙ frame_size-wire f tail q size m s h fits long e

  -- One turn of the loop takes the frame at the front of the buffer.
  pub turn-encoded :
      (n : ℕ) (f : Frame) (rest : List ℕ) (q : List Frame) (size : Option ℕ) (m : ℕ)
      (s : DecoderStats)
      → IsEncodable f
      → Frame.frame_size f ≤ m
      → Expects size f
      → turn b hash n (receiving (encoded f ++ rest) q size m s)
        ≡ again (n + 1) (receiving rest (q ++ (f ∷ [])) none m (count_decoded s))
  unfolding turn with_size decode_or_wait decode_single_frame decode_sized take_decoded
      Frame.frame_size
  turn-encoded n f rest q size m s h fits e =
      let total = length-append (encoded f) rest in
      let width = length-encoded f in
      let long : ltb (length (encoded f ++ rest)) frame_header_size ≡ false = ground arith in
      let whole : leb (40 + length f.payload) (length (encoded f ++ rest)) ≡ true = ground arith in
      let cut : b.split_to (40 + length f.payload) (encoded f ++ rest) ≡ (encoded f, rest) =
        ap (λ k. b.split_to k (encoded f ++ rest)) (sym width) ∙ b.split_to_lem (encoded f) rest in
      simp (long, sized-encoded f rest q size m s h fits e, whole, cut, deserialize-encoded f h)
