-- ===== src/Protocol/Codec/Total.antt =====
-- The loop of `decode_stream` ends: kaelix-core/src/protocol/codec.rs.
use kaelix.Base.{
  ℕ, zero, suc, ◌+◌, ◌-◌, ◌≤◌, ◌<◌, ltb, leb, leb→le, Option-cases, Bool, true, false,
  if◌then◌else◌, ◌≡◌, inl, inr, refl, sym, ap, subst, ◌∙◌, List, ◌++◌, length, length-take,
  length-drop, take, drop, take-append-drop, Option, none, some, arith,
}
use kaelix.Protocol.Types.{ProtocolResult, ok, err, is_corruption}
use kaelix.Protocol.Bytes.{Buffers}
use kaelix.Protocol.Frame.{Frame}
use kaelix.Protocol.Frame.Wire.{deserialize}
use kaelix.Protocol.Codec.{
  FrameDecoder, advance_to, find_magic, recover_from_corruption, decode_single_frame, decode_sized,
  take_decoded, count_corrupted, count_incomplete, decode_or_wait, with_size, frame_size,
  peek_frame_size, turn, Turn, decode_turns, again, done, receive, decode_stream,
}

-- A size that the decoder has noted is at least that of a header.
unfoldable pub IsReady : FrameDecoder → Type 0
IsReady d = (size : ℕ) → d.expected_frame_size ≡ some size → 40 ≤ size

-- A turn that goes on leaves fewer than `bound` bytes.
Settled : ℕ → Turn → Type 0
Settled bound (again n d) = IsReady d × length d.buffer < bound
Settled bound (done r d) = IsReady d

pub find_magic-after :
    (count i : ℕ) (buffer : List ℕ) (j : ℕ)
    → find_magic count i buffer ≡ some j
    → i ≤ j × j < i + count
unfolding find_magic
find_magic-after zero i buffer j e = ground arith
find_magic-after (suc count) i buffer j e = ground (arith, find_magic-after count (suc i) buffer j)

module _ (b : Buffers) (hash : List ℕ → List ℕ → ℕ) where
  pub advance-drop :
      (i : ℕ) (buffer : List ℕ) → i ≤ length buffer → b.advance i buffer ≡ drop i buffer
  advance-drop i buffer h =
      let size : length (take i buffer) ≡ i = omega (arith, length-take i buffer) in
      ap (b.advance i) (sym (take-append-drop i buffer))
      ∙ ap (λ n. b.advance n (take i buffer ++ drop i buffer)) (sym size)
      ∙ b.advance_lem (take i buffer) (drop i buffer)

  length-advance :
      (i : ℕ) (buffer : List ℕ) → i ≤ length buffer → length (b.advance i buffer) ≤ length buffer
  length-advance i buffer h =
      omega (arith, ap length (advance-drop i buffer h), length-drop i buffer)

  length-split_to :
      (n : ℕ) (buffer : List ℕ)
      → n ≤ length buffer
      → length ((b.split_to n buffer).1) ≡ length buffer - n
  length-split_to n buffer h =
      let size : length (take n buffer) ≡ n = omega (arith, length-take n buffer) in
      let cut : b.split_to n buffer ≡ (take n buffer, drop n buffer) =
        ap (b.split_to n) (sym (take-append-drop n buffer))
        ∙ ap (λ k. b.split_to k (take n buffer ++ drop n buffer)) (sym size)
        ∙ b.split_to_lem (take n buffer) (drop n buffer) in
      ap (λ p. length (p.1)) cut ∙ length-drop n buffer

  advance_to-shrinks :
      (d : FrameDecoder) (o : Option ℕ)
      → find_magic (length d.buffer - 3 - 1) 1 d.buffer ≡ o
      → length ((advance_to b hash d o).buffer) ≤ length d.buffer
  unfolding advance_to
  advance_to-shrinks d none e = omega arith
  advance_to-shrinks d (some i) e =
      length-advance i d.buffer
        (omega (arith, find_magic-after (length d.buffer - 3 - 1) 1 d.buffer i e))

  Settled-if :
      (bound : ℕ) (c : Bool) (x y : Turn)
      → (c ≡ true → Settled bound x)
      → (c ≡ false → Settled bound y)
      → Settled bound (if c then x else y)
  Settled-if bound true x y h k = h refl
  Settled-if bound false x y h k = k refl

  take_decoded-Settled :
      (bound n : ℕ) (r : ProtocolResult Frame) (d : FrameDecoder)
      → IsReady d
      → length d.buffer < bound
      → Settled bound (take_decoded b hash n (r, d))
  unfolding take_decoded IsReady Settled recover_from_corruption count_corrupted
  take_decoded-Settled bound n (ok f) d ready less = (λ size e. absurd (ground arith), less)
  take_decoded-Settled bound n (err e) d ready less =
      let kept = advance_to-shrinks (count_corrupted d) _ refl in
      Settled-if bound (is_corruption e) _ _ (λ c. (λ size e. absurd (ground arith), omega arith))
        (λ c. ready)

  decode_or_wait-Settled :
      (n size : ℕ) (d : FrameDecoder)
      → 40 ≤ size
      → d.expected_frame_size ≡ some size
      → Settled (length d.buffer) (decode_or_wait b hash n size d)
  unfolding decode_or_wait decode_single_frame decode_sized IsReady Settled count_incomplete
  decode_or_wait-Settled n size d large e =
      let ready : IsReady d = λ size' e'. ground arith in
      let bound = length d.buffer in
      let left = record d { buffer = (b.split_to size d.buffer).1 } in
      let frame_data = (b.split_to size d.buffer).0 in
      Settled-if bound (leb size bound) _ _
        (λ c.
          let shorter = length-split_to size d.buffer (leb→le size bound c) in
          let fits = leb→le size bound c in
          subst (λ o. Settled bound (take_decoded b hash n (decode_sized b hash d o))) (sym e)
            (take_decoded-Settled bound n (deserialize b hash frame_data) left ready (omega arith)))
        (λ c. ready)

  peek_large : (d : FrameDecoder) (size : ℕ) → peek_frame_size d ≡ ok (some size) → 40 ≤ size
  unfolding peek_frame_size
  peek_large d size e = ground arith

  frame_size_large :
      (d : FrameDecoder) (size : ℕ)
      → IsReady d
      → frame_size d d.expected_frame_size ≡ ok (some size)
      → 40 ≤ size
  unfolding frame_size IsReady
  frame_size_large d size ready e = elim (Option-cases d.expected_frame_size) [
    | inl unknown ↦ peek_large d size (ap (frame_size d) (sym unknown) ∙ e)
    | inr (noted, known) ↦
        let same : ok (some noted) ≡ ok (some size) = ap (frame_size d) (sym known) ∙ e in
        let above = ready noted known in ground arith
  ]

  with_size-Settled :
      (n : ℕ) (d : FrameDecoder) (r : ProtocolResult (Option ℕ))
      → IsReady d
      → ((size : ℕ) → r ≡ ok (some size) → 40 ≤ size)
      → Settled (length d.buffer) (with_size b hash n d r)
  unfolding with_size Settled
  with_size-Settled n d (err e) ready large = ready
  with_size-Settled n d (ok none) ready large = ready
  with_size-Settled n d (ok (some size)) ready large =
      decode_or_wait-Settled n size (record d { expected_frame_size = some size }) (large size refl)
        refl

  turn-Settled :
      (n : ℕ) (d : FrameDecoder) → IsReady d → Settled (length d.buffer) (turn b hash n d)
  unfolding turn Settled
  turn-Settled n d ready =
      Settled-if (length d.buffer) (ltb (length d.buffer) 40) _ _ (λ c. ready)
        (λ c.
          with_size-Settled n d (frame_size d d.expected_frame_size) ready
            (λ size e. frame_size_large d size ready e))

  Settled-mono : (small large : ℕ) (t : Turn) → small ≤ large → Settled small t → Settled large t
  unfolding Settled
  Settled-mono small large (again n d) h (ready, less) = (ready, omega arith)
  Settled-mono small large (done r d) h ready = ready

  turns_end :
      (fuel : ℕ) (t : Turn)
      → Settled fuel t
      → (r : ProtocolResult ℕ) × (d : FrameDecoder) × (decode_turns b hash fuel t ≡ some (r, d))
        × IsReady d
  unfolding decode_turns Settled
  turns_end fuel (done r d) ready = (r, d, refl, ready)
  turns_end zero (again n d) (ready, less) = absurd (omega arith)
  turns_end (suc fuel) (again n d) (ready, less) =
      turns_end fuel (turn b hash n d) (
        Settled-mono (length d.buffer) fuel (turn b hash n d) (omega arith)
          (turn-Settled n d ready))

  -- A decoder whose noted frame size, if any, is at least that of a header takes any bytes: the fuel
  -- given is enough, so that the call returns, and the decoder that it leaves is such a decoder again.
  pub decode_stream_returns :
      (bytes : List ℕ) (d : FrameDecoder)
      → IsReady d
      → (r : ProtocolResult ℕ) × (d' : FrameDecoder) × (decode_stream b hash bytes d ≡ some (r, d'))
        × IsReady d'
  unfolding decode_stream IsReady Settled receive
  decode_stream_returns bytes d ready =
      turns_end (length ((receive b hash bytes d).buffer) + 1) (again 0 (receive b hash bytes d))
        (ready, omega arith)
