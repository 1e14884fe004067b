-- ===== src/Protocol/Codec/Damage.antt =====
-- What `decode_stream` does after a frame that does not deserialise: kaelix-core/src/protocol/codec.rs.
use mathlib.Core.List.{append_assoc}
use kaelix.Base.{
  ℕ, ◌≤◌, ◌<◌, ltb, leb, ◌≡◌, refl, sym, ap, ◌∙◌, true, false, List, ◌++◌, length, length-append,
  length-take, take, drop, take-append-drop, Option, none, some, arith,
}
use kaelix.Protocol.Types.{ProtocolError, ok, err, ◌>>=◌, incomplete_frame, is_corruption}
use kaelix.Protocol.Bytes.{Buffers}
use kaelix.Protocol.Frame
use kaelix.Protocol.Frame.{Frame, payload_size}
use kaelix.Protocol.Frame.Wire.{deserialize}
use kaelix.Protocol.Frame.Roundtrip.{serialized, IsEncodable}
use kaelix.Protocol.Frame.Faults.{deserialize-truncated}
use kaelix.Protocol.Codec.{
  FrameDecoder, DecoderStats, decode_single_frame, decode_sized, take_decoded, decode_or_wait,
  with_size, frame_size, peek_frame_size, turn, done,
}
use kaelix.Protocol.Codec.Stream.{encoded, length-encoded, receiving}

module _ (b : Buffers) (hash : List ℕ → List ℕ → ℕ) where
  -- A turn that has the whole of a frame takes it off and deserialises it.
  pub turn-whole :
      (n size : ℕ) (front rest : List ℕ) (q : List Frame) (noted : Option ℕ) (m : ℕ)
      (s : DecoderStats)
      → frame_size (receiving b hash (front ++ rest) q noted m s) noted ≡ ok (some size)
      → length front ≡ size
      → 40 ≤ size
      → turn b hash n (receiving b hash (front ++ rest) q noted m s)
        ≡ take_decoded b hash n (deserialize b hash front, receiving b hash rest q (some size) m s)
  unfolding turn with_size decode_or_wait decode_single_frame decode_sized
  turn-whole n size front rest q noted m s sized width large =
      let total = length-append front rest in
      let long : ltb (length (front ++ rest)) 40 ≡ false = ground arith in
      let whole : leb size (length (front ++ rest)) ≡ true = ground arith in
      let cut : b.split_to size (front ++ rest) ≡ (front, rest) =
        ap (λ k. b.split_to k (front ++ rest)) (sym width) ∙ b.split_to_lem front rest in
      simp (long, sized, whole, cut)

  refused :
      (n : ℕ) (e : ProtocolError) (d : FrameDecoder)
      → is_corruption e ≡ false
      → take_decoded b hash n (err e, d) ≡ done (err e) d
  unfolding take_decoded
  refused n e d other = simp other

  cut_refused :
      (g : Frame) (k : ℕ)
      → IsEncodable g
      → 40 ≤ k
      → k < Frame.frame_size g
      → deserialize b hash (take k (encoded b hash g))
        ≡ err (incomplete_frame (Frame.frame_size g) k)
  unfolding encoded
  cut_refused g k h large lt =
      let above : ltb k 40 ≡ false = ground arith in
      ap (λ r. r >>= λ bytes. deserialize b hash (take k bytes)) (sym (serialized b hash g))
      ∙ deserialize-truncated b hash g k h lt
      ∙ simp above

  -- When a whole frame of at least 40 bytes is refused for another reason than corruption, the loop ends
  -- with that error and the frame's size stays noted: if an encodable frame g that is larger stands behind
  -- it, the next turn cuts g off at the noted size and ends with the error for an incomplete frame.
  pub refused_size_stays :
      (n size : ℕ) (bad rest : List ℕ) (g : Frame) (q : List Frame) (m : ℕ) (s : DecoderStats)
      (e : ProtocolError)
      → peek_frame_size (receiving b hash (bad ++ (encoded b hash g ++ rest)) q none m s)
        ≡ ok (some size)
      → length bad ≡ size
      → 40 ≤ size
      → deserialize b hash bad ≡ err e
      → is_corruption e ≡ false
      → IsEncodable g
      → size < Frame.frame_size g
      → (turn b hash n (receiving b hash (bad ++ (encoded b hash g ++ rest)) q none m s)
          ≡ done (err e) (receiving b hash (encoded b hash g ++ rest) q (some size) m s))
        × (turn b hash n (receiving b hash (encoded b hash g ++ rest) q (some size) m s)
            ≡ done
                (err (incomplete_frame (Frame.frame_size g) size))
                (receiving b hash (drop size (encoded b hash g) ++ rest) q (some size) m s))
  unfolding frame_size is_corruption
  refused_size_stays n size bad rest g q m s e peek width large bad_refused other h lt =
      let bytes = encoded b hash g in
      let piece = take size bytes in
      let piece_size : length piece ≡ size =
        omega (arith, length-take size bytes, length-encoded b hash g) in
      let split : bytes ++ rest ≡ piece ++ (drop size bytes ++ rest) =
        ap (λ w. w ++ rest) (sym (take-append-drop size bytes))
        ∙ append_assoc piece (drop size bytes) rest in
      (
        turn-whole n size bad (bytes ++ rest) q none m s peek width large
            ∙ ap
                (λ r. take_decoded b hash n (r, receiving b hash (bytes ++ rest) q (some size) m s))
                bad_refused
            ∙ refused n e _ other,
        ap (λ w. turn b hash n (receiving b hash w q (some size) m s)) split
            ∙ turn-whole n size piece (drop size bytes ++ rest) q (some size) m s refl piece_size
                large
            ∙ ap
                (λ r.
                  take_decoded b hash n
                    (r, receiving b hash (drop size bytes ++ rest) q (some size) m s))
                (cut_refused g size h large lt)
            ∙ refused n (incomplete_frame (Frame.frame_size g) size) _ refl,
      )
