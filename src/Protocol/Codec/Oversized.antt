-- ===== src/Protocol/Codec/Oversized.antt =====
-- What `decode_stream` does with a header that announces too much: kaelix-core/src/protocol/codec.rs.
use kaelix.Base.{
  ℕ, zero, suc, ◌+◌, ◌≤◌, ltb, ◌≡◌, refl, sym, ap, ◌∙◌, false, List, [], ◌∷◌, ◌++◌, length,
  length-append, length-drop, take, drop, Option, none, some, arith,
}
use kaelix.Protocol.Types.{ProtocolResult, ProtocolError, err}
use kaelix.Protocol.Bytes.{Buffers, from_be_bytes}
use kaelix.Protocol.Frame.{Frame}
use kaelix.Protocol.Codec.{
  FrameDecoder, DecoderStats, announced, peek_frame_size, with_size, frame_size, turn, decode_turns,
  again, done, decode_stream,
}
use kaelix.Protocol.Codec.Stream.{receiving}
use kaelix.Protocol.Codec.Cut.{seen, decode_stream-start}

take-append_le : (n : ℕ) (xs ys : List ℕ) → n ≤ length xs → take n (xs ++ ys) ≡ take n xs
take-append_le zero xs ys h = refl
take-append_le (suc n) [] ys h = absurd (omega arith)
take-append_le (suc n) (x ∷ xs) ys h = ap (◌∷◌ x) (take-append_le n xs ys (omega arith))

drop-append_le : (n : ℕ) (xs ys : List ℕ) → n ≤ length xs → drop n (xs ++ ys) ≡ drop n xs ++ ys
drop-append_le zero xs ys h = refl
drop-append_le (suc n) [] ys h = absurd (omega arith)
drop-append_le (suc n) (x ∷ xs) ys h = drop-append_le n xs ys (omega arith)

module _ (b : Buffers) (hash : List ℕ → List ℕ → ℕ) where
  -- More bytes behind a header change nothing of what it announces.
  peek-append :
      (buffer more : List ℕ) (q : List Frame) (size : Option ℕ) (m : ℕ) (s s' : DecoderStats)
      → 40 ≤ length buffer
      → peek_frame_size (receiving b hash (buffer ++ more) q size m s)
        ≡ peek_frame_size (receiving b hash buffer q size m s')
  unfolding peek_frame_size announced
  peek-append buffer more q size m s s' long =
      let inside : 4 ≤ length (drop 32 buffer) = omega (arith, length-drop 32 buffer) in
      let field : from_be_bytes (take 4 (drop 32 (buffer ++ more)))
          ≡ from_be_bytes (take 4 (drop 32 buffer)) =
        ap (λ w. from_be_bytes (take 4 w)) (drop-append_le 32 buffer more (omega arith))
        ∙ ap from_be_bytes (take-append_le 4 (drop 32 buffer) more inside) in
      ground (arith, field, length-append buffer more)

  turn-refused :
      (d : FrameDecoder) (e : ProtocolError)
      → ltb (length d.buffer) 40 ≡ false
      → frame_size d d.expected_frame_size ≡ peek_frame_size d
      → peek_frame_size d ≡ err e
      → turn b hash 0 d ≡ done (err e) d
  unfolding turn with_size
  turn-refused d e full unknown refused = simp (full, unknown, refused)

  ended :
      (fuel : ℕ) (r : ProtocolResult ℕ) (d : FrameDecoder)
      → decode_turns b hash fuel (done r d) ≡ some (r, d)
  unfolding decode_turns
  ended zero r d = refl
  ended (suc fuel) r d = refl

  -- When the header at the front of the buffer announces more than a frame may have, and no size is noted,
  -- decode_stream fails with that error whatever bytes arrive: it queues nothing, keeps every byte in the
  -- buffer, and the next call meets the same error again.
  pub oversized_header_stays :
      (bytes : List ℕ) (d : FrameDecoder) (e : ProtocolError)
      → 40 ≤ length d.buffer
      → d.expected_frame_size ≡ none
      → peek_frame_size d ≡ err e
      → (d' : FrameDecoder) × (decode_stream b hash bytes d ≡ some (err e, d'))
        × (d'.frame_queue ≡ d.frame_queue)
        × (d'.buffer ≡ d.buffer ++ bytes)
        × (d'.expected_frame_size ≡ none)
        × (peek_frame_size d' ≡ err e)
  unfolding decode_turns turn with_size frame_size
  oversized_header_stays bytes d e long unknown refused =
      let whole = d.buffer ++ bytes in
      let m = d.max_frame_size in
      let left = receiving b hash whole d.frame_queue none m (seen b hash d.stats bytes whole) in
      let again_refused : peek_frame_size left ≡ err e =
        peek-append d.buffer bytes d.frame_queue none m (seen b hash d.stats bytes whole) d.stats
          long
        ∙ ap (λ o. peek_frame_size (receiving b hash d.buffer d.frame_queue o m d.stats))
            (sym unknown)
        ∙ refused in
      let full : ltb (length whole) 40 ≡ false = ground (arith, length-append d.buffer bytes) in
      let fuel : length whole + 1 ≡ suc (length whole) = omega arith in
      (
        left,
        ap (λ o. decode_stream b hash bytes (receiving b hash d.buffer d.frame_queue o m d.stats))
              unknown
            ∙ decode_stream-start b hash bytes d.buffer whole d.frame_queue none m d.stats refl
            ∙ ap (λ k. decode_turns b hash k (again 0 left)) fuel
            ∙ ap (decode_turns b hash (length whole)) (turn-refused left e full refl again_refused)
            ∙ ended (length whole) (err e) left,
        refl,
        refl,
        refl,
        again_refused,
      )
