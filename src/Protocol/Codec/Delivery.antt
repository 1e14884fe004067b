-- ===== src/Protocol/Codec/Delivery.antt =====
-- `decode_stream` on a stream of frames, whole or cut: kaelix-core/src/protocol/codec.rs.
use mathlib.Core.List.{append_assoc, append-nil}
use kaelix.Base.{
  ℕ, suc, ◌+◌, ◌-◌, ◌≤◌, ◌<◌, ltb, leb, ltb→ge, Bool-cases, ◌≡◌, inl, inr, refl, sym, ap, ◌∙◌,
  false, List, [], ◌∷◌, ◌++◌, length, length-append, length-take, take, Option, none, some, arith,
  u64,
}
use kaelix.Protocol.Types.{ok}
use kaelix.Protocol.Bytes.{Buffers, to_be_bytes, length-to_be_bytes}
use kaelix.Protocol.Frame
use kaelix.Protocol.Frame.{Frame, payload_size}
use kaelix.Protocol.Frame.Wire.{calculate_checksum, header}
use kaelix.Protocol.Frame.Roundtrip.{IsEncodable}
use kaelix.Protocol.Frame.Faults.{take-wire}
use kaelix.Protocol.Codec.{
  DecoderStats, count_decoded, count_incomplete, decode_or_wait, with_size, frame_size, turn,
  decode_turns, again, done,
}
use kaelix.Protocol.Codec.Stream.{
  encoded, length-encoded, turn-encoded, frame_size-wire, receiving, Expects,
}

-- The frames that a decoder with this limit can be sent.
unfoldable pub Deliverable : ℕ → List Frame → Type 0
Deliverable limit [] = Unit
Deliverable limit (f ∷ fs) = IsEncodable f × Frame.frame_size f ≤ limit × Deliverable limit fs

abbrev count_all : List Frame → DecoderStats → DecoderStats
unfolding count_decoded
count_all [] s = s
count_all (f ∷ fs) s = count_all fs (count_decoded s)

module _ (b : Buffers) (hash : List ℕ → List ℕ → ℕ) where
  unfoldable pub all_encoded : List Frame → List ℕ
  all_encoded [] = []
  all_encoded (f ∷ fs) = encoded b hash f ++ all_encoded fs

  enough_bytes : (fs : List Frame) → length fs ≤ length (all_encoded fs)
  unfolding all_encoded Frame.frame_size
  enough_bytes [] = omega arith
  enough_bytes (f ∷ fs) = omega (
    arith,
    length-append (encoded b hash f) (all_encoded fs),
    length-encoded b hash f,
    enough_bytes fs,
  )

  -- The turns of the loop over whole frames.
  turns-encoded :
      (fs : List Frame) (fuel n : ℕ) (rest : List ℕ) (q : List Frame) (m : ℕ) (s : DecoderStats)
      → Deliverable m fs
      → decode_turns b hash
          (length fs + fuel)
          (again n (receiving b hash (all_encoded fs ++ rest) q none m s))
        ≡ decode_turns b hash fuel
            (again (n + length fs) (receiving b hash rest (q ++ fs) none m (count_all fs s)))
  unfolding all_encoded Deliverable decode_turns count_all
  turns-encoded [] fuel n rest q m s h =
      let count : n + 0 ≡ n = omega arith in
      let none_left : 0 + fuel ≡ fuel = omega arith in simp (append-nil, none_left, count)
  turns-encoded (f ∷ fs) fuel n rest q m s (h, fits, more) =
      let left = length fs + fuel in
      let front = encoded b hash f in
      let start = receiving b hash (all_encoded (f ∷ fs) ++ rest) q none m s in
      let step : suc (length fs) + fuel ≡ suc left = omega arith in
      ap (λ k. decode_turns b hash k (again n start)) step
      ∙ ap (λ w. decode_turns b hash left (turn b hash n (receiving b hash w q none m s)))
          (append_assoc front (all_encoded fs) rest)
      ∙ ap (decode_turns b hash left)
          (turn-encoded b hash n f (all_encoded fs ++ rest) q none m s h fits (inl refl))
      ∙ turns-encoded fs fuel (n + 1) rest (q ++ (f ∷ [])) m (count_decoded s) more
      ∙ ap
          (λ queue. decode_turns b hash fuel (
            again (n + 1 + length fs)
              (receiving b hash rest queue none m (count_all fs (count_decoded s)))))
          (append_assoc q (f ∷ []) fs)
      ∙ ap
          (λ k. decode_turns b hash fuel (
            again k
              (receiving b hash rest (q ++ (f ∷ fs)) none m (count_all fs (count_decoded s)))))
          (omega arith)

  prefix-sized :
      (k : ℕ) (f : Frame) (q : List Frame) (m : ℕ) (s : DecoderStats)
      → IsEncodable f
      → Frame.frame_size f ≤ m
      → 40 ≤ k
      → frame_size (receiving b hash (take k (encoded b hash f)) q none m s) none
        ≡ ok (some (Frame.frame_size f))
  unfolding encoded
  prefix-sized k f q m s h fits le =
      let sum = calculate_checksum b hash (header b hash f) f.payload in
      let tail = to_be_bytes 4 sum ++ take (k - 40) f.payload in
      let long : 4 ≤ length tail = omega (
        arith,
        length-append (to_be_bytes 4 sum) (take (k - 40) f.payload),
        length-to_be_bytes 4 sum,
      ) in
      let whole : k ≡ 40 + (k - 40) = omega arith in
      ap (λ n. frame_size (receiving b hash (take n (encoded b hash f)) q none m s) none) whole
      ∙ ap (λ w. frame_size (receiving b hash w q none m s) none)
          (take-wire b hash f (payload_size f) sum f.payload (k - 40))
      ∙ frame_size-wire b hash f tail q none m s h fits long (inl refl)

  -- What the last turn of a call makes of the first k bytes of a frame.
  turn-prefix :
      (n k : ℕ) (f : Frame) (q : List Frame) (m : ℕ) (s : DecoderStats)
      → IsEncodable f
      → Frame.frame_size f ≤ m
      → k < Frame.frame_size f
      → (size : Option ℕ) × (s' : DecoderStats) × Expects b hash size f
        × (turn b hash n (receiving b hash (take k (encoded b hash f)) q none m s)
            ≡ done (ok n) (receiving b hash (take k (encoded b hash f)) q size m s'))
  unfolding turn with_size decode_or_wait count_incomplete Frame.frame_size
  turn-prefix n k f q m s h fits lt =
      let width = length-encoded b hash f in
      let cut = length-take k (encoded b hash f) in
      let kept : length (take k (encoded b hash f)) ≡ k = omega arith in
      elim (Bool-cases (ltb k 40)) [
        | inl less ↦ (none, s, inl refl, simp (kept, less))
        | inr more ↦
            let sized = prefix-sized k f q m s h fits (ltb→ge k 40 more) in
            let missing : leb (40 + length f.payload) k ≡ false = ground arith in
            (
              some (Frame.frame_size f),
              record s { incomplete_frames = u64 (s.incomplete_frames + 1) },
              inr refl,
              simp (kept, more, sized, missing),
            )
      ]

  pub turns-cut :
      (fs : List Frame) (f : Frame) (k : ℕ) (q : List Frame) (m : ℕ) (s : DecoderStats)
      → Deliverable m fs
      → IsEncodable f
      → Frame.frame_size f ≤ m
      → k < Frame.frame_size f
      → (size : Option ℕ) × (s' : DecoderStats) × Expects b hash size f
        × (decode_turns b hash
              (length (all_encoded fs ++ take k (encoded b hash f)) + 1)
              (again 0 (receiving b hash (all_encoded fs ++ take k (encoded b hash f)) q none m s))
            ≡ some
                (ok (length fs), receiving b hash (take k (encoded b hash f)) (q ++ fs) size m s'))
  unfolding decode_turns
  turns-cut fs f k q m s hs h fits lt =
      let part = take k (encoded b hash f) in
      let (size, s', e, last) =
        turn-prefix (0 + length fs) k f (q ++ fs) m (count_all fs s) h fits lt in
      let spare = length (all_encoded fs ++ part) - length fs in
      let fuel : length (all_encoded fs ++ part) + 1 ≡ length fs + suc spare =
        omega (arith, length-append (all_encoded fs) part, enough_bytes fs) in
      (
        size,
        s',
        e,
        ap
              (λ k.
                decode_turns b hash k
                  (again 0 (receiving b hash (all_encoded fs ++ part) q none m s)))
              fuel
            ∙ turns-encoded fs (suc spare) 0 part q m s hs
            ∙ ap (decode_turns b hash spare) last
            ∙ ap (λ n. some (ok n, receiving b hash part (q ++ fs) size m s')) (omega arith),
      )

  pub turns-rest :
      (f : Frame) (gs : List Frame) (size : Option ℕ) (q : List Frame) (m : ℕ) (s : DecoderStats)
      → Deliverable m (f ∷ gs)
      → Expects b hash size f
      → (s' : DecoderStats) × (decode_turns b hash
            (length (encoded b hash f ++ all_encoded gs) + 1)
            (again 0 (receiving b hash (encoded b hash f ++ all_encoded gs) q size m s))
          ≡ some (ok (suc (length gs)), receiving b hash [] (q ++ (f ∷ gs)) none m s'))
  unfolding decode_turns Deliverable turn Frame.frame_size
  turns-rest f gs size q m s (h, fits, more) e =
      let bytes = encoded b hash f ++ all_encoded gs in
      let spare = length bytes - suc (length gs) in
      let fuel : length bytes + 1 ≡ suc (length gs + suc spare) = omega (
        arith,
        length-append (encoded b hash f) (all_encoded gs),
        length-encoded b hash f,
        enough_bytes gs,
      ) in
      (
        count_all gs (count_decoded s),
        ap (λ k. decode_turns b hash k (again 0 (receiving b hash bytes q size m s))) fuel
            ∙ ap (decode_turns b hash (length gs + suc spare))
                (turn-encoded b hash 0 f (all_encoded gs) q size m s h fits e)
            ∙ ap
                (λ w.
                  decode_turns b hash (length gs + suc spare)
                    (again 1 (receiving b hash w (q ++ (f ∷ [])) none m (count_decoded s))))
                (sym (append-nil (all_encoded gs)))
            ∙ turns-encoded gs (suc spare) 1 [] (q ++ (f ∷ [])) m (count_decoded s) more
            ∙ ap
                (λ n. some (
                  ok n,
                  receiving b hash [] ((q ++ (f ∷ [])) ++ gs) none m
                      (count_all gs (count_decoded s)),
                ))
                (omega arith)
            ∙ ap
                (λ queue. some (
                  ok (suc (length gs)),
                  receiving b hash [] queue none m (count_all gs (count_decoded s)),
                ))
                (append_assoc q (f ∷ []) gs),
      )
