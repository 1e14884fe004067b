-- ===== src/Protocol/Codec/Recovery.antt =====
-- What `decode_stream` does after a corrupted frame: kaelix-core/src/protocol/codec.rs.
use mathlib.Core.List.{append-nil, append_assoc}
use kaelix.Base.{
  ℕ, ◌-◌, ◌≤◌, ◌<◌, ◌≡◌, ◌≢◌, inl, refl, sym, ap, ◌∙◌, true, List, [], ◌++◌, length, length-append,
  length-drop, take, Option, none, some, arith,
}
use kaelix.Protocol.Types.{ProtocolError, err, checksum_mismatch, ◌>>=◌, is_corruption}
use kaelix.Protocol.Bytes.{Buffers, to_be_bytes, length-to_be_bytes}
use kaelix.Protocol.Frame
use kaelix.Protocol.Frame.{Frame, payload_size}
use kaelix.Protocol.Frame.Wire.{calculate_checksum, header, deserialize}
use kaelix.Protocol.Frame.Roundtrip.{serialized, wire, length-wire, wire-append, IsEncodable}
use kaelix.Protocol.Frame.Faults.{take-wire, deserialize-tampered}
use kaelix.Protocol.Codec.{
  FrameDecoder, DecoderStats, advance_to, find_magic, recover_from_corruption, take_decoded,
  count_corrupted, frame_size, turn, again,
}
use kaelix.Protocol.Codec.Total.{advance-drop, find_magic-after}
use kaelix.Protocol.Codec.Stream.{encoded, length-encoded, receiving, frame_size-wire}
use kaelix.Protocol.Codec.Damage.{turn-whole}

module _ (b : Buffers) (hash : List ℕ → List ℕ → ℕ) where
  advance_to-drops :
      (d : FrameDecoder) (o : Option ℕ)
      → find_magic (length d.buffer - 3 - 1) 1 d.buffer ≡ o
      → 0 < length d.buffer
      → length ((advance_to b hash d o).buffer) < length d.buffer
  unfolding advance_to
  advance_to-drops d none e h = h
  advance_to-drops d (some i) e h =
      let range = find_magic-after (length d.buffer - 3 - 1) 1 d.buffer i e in
      omega
        (arith, ap length (advance-drop b hash i d.buffer (omega arith)), length-drop i d.buffer)

  recover_drops :
      (d : FrameDecoder)
      → 0 < length d.buffer
      → length ((recover_from_corruption b hash d).buffer) < length d.buffer
  unfolding recover_from_corruption
  recover_drops d h = advance_to-drops d _ refl h

  queue_kept :
      (d : FrameDecoder) (o : Option ℕ) → (advance_to b hash d o).frame_queue ≡ d.frame_queue
  unfolding advance_to
  queue_kept d none = refl
  queue_kept d (some i) = refl

  after_corruption :
      (n : ℕ) (e : ProtocolError) (d : FrameDecoder)
      → is_corruption e ≡ true
      → 0 < length d.buffer
      → (d' : FrameDecoder) × (take_decoded b hash n (err e, d) ≡ again n d')
        × (d'.frame_queue ≡ d.frame_queue)
        × length d'.buffer < length d.buffer
  unfolding take_decoded count_corrupted recover_from_corruption
  after_corruption n e d corrupt h = (
    record (recover_from_corruption b hash (count_corrupted d)) { expected_frame_size = none },
    simp corrupt refl,
    queue_kept (count_corrupted d) _,
    recover_drops (count_corrupted d) h,
  )

  -- The bytes of f with the payload p.
  abbrev pub tampered : Frame → List ℕ → List ℕ
  tampered f p = take 40 (encoded b hash f) ++ p

  tampered-wire :
      (f : Frame) (p : List ℕ)
      → tampered f p
        ≡ wire f
            (payload_size f)
            (to_be_bytes 4 (calculate_checksum b hash (header b hash f) f.payload) ++ p)
  unfolding encoded
  tampered-wire f p =
      let sum = to_be_bytes 4 (calculate_checksum b hash (header b hash f) f.payload) in
      ap (λ w. w ++ p) (take-wire b hash f (payload_size f) _ f.payload 0)
      ∙ wire-append b hash f (payload_size f) (sum ++ []) p
      ∙ ap (wire f (payload_size f)) (append_assoc sum [] p)

  tampered_refused :
      (f : Frame) (p : List ℕ)
      → IsEncodable f
      → length p ≡ length f.payload
      → calculate_checksum b hash (header b hash f) f.payload
        ≢ calculate_checksum b hash (header b hash f) p
      → deserialize b hash (tampered f p)
        ≡ err (
            checksum_mismatch
              (calculate_checksum b hash (header b hash f) f.payload)
              (calculate_checksum b hash (header b hash f) p))
  unfolding encoded
  tampered_refused f p h same differ =
      ap (λ w. deserialize b hash (take 40 (encoded b hash f) ++ w)) (sym (append-nil p))
      ∙ ap (λ r. r >>= λ bytes. deserialize b hash (take 40 bytes ++ (p ++ [])))
          (sym (serialized b hash f))
      ∙ deserialize-tampered b hash f p [] h same differ

  -- When an encodable frame f within the decoder's limit arrives with another payload of the same length,
  -- whose checksum differs, and the frame g right behind it, the turn of the loop queues no frame and leaves
  -- fewer bytes than those of g.
  pub corruption_loses_next :
      (n : ℕ) (f g : Frame) (p : List ℕ) (q : List Frame) (m : ℕ) (s : DecoderStats)
      → IsEncodable f
      → Frame.frame_size f ≤ m
      → length p ≡ length f.payload
      → calculate_checksum b hash (header b hash f) f.payload
        ≢ calculate_checksum b hash (header b hash f) p
      → (d : FrameDecoder) × (turn b hash n
            (receiving b hash (tampered f p ++ encoded b hash g) q none m s)
          ≡ again n d)
        × (d.frame_queue ≡ q)
        × length d.buffer < length (encoded b hash g)
  unfolding is_corruption Frame.frame_size
  corruption_loses_next n f g p q m s h fits same differ =
      let word = calculate_checksum b hash (header b hash f) f.payload in
      let sum = to_be_bytes 4 word in
      let tail = (sum ++ p) ++ encoded b hash g in
      let long : 4 ≤ length tail = omega (
        arith,
        length-append (sum ++ p) (encoded b hash g),
        length-append sum p,
        length-to_be_bytes 4 word,
      ) in
      let sized =
        ap (λ w. frame_size (receiving b hash (w ++ encoded b hash g) q none m s) none)
          (tampered-wire f p)
        ∙ ap (λ w. frame_size (receiving b hash w q none m s) none)
            (wire-append b hash f (payload_size f) (sum ++ p) (encoded b hash g))
        ∙ frame_size-wire b hash f tail q none m s h fits long (inl refl) in
      let width : length (tampered f p) ≡ Frame.frame_size f = omega (
        arith,
        ap length (tampered-wire f p),
        length-wire b hash f (payload_size f) (sum ++ p),
        length-append sum p,
        length-to_be_bytes 4 word,
      ) in
      let left = receiving b hash (encoded b hash g) q (some (Frame.frame_size f)) m s in
      let (d, went, kept, shorter) =
        after_corruption n (checksum_mismatch word _) left refl
          (omega (arith, length-encoded b hash g)) in
      (
        d,
        turn-whole b hash n (Frame.frame_size f) (tampered f p) (encoded b hash g) q none m s sized
              width (omega arith)
            ∙ ap (λ r. take_decoded b hash n (r, left)) (tampered_refused f p h same differ)
            ∙ went,
        kept,
        shorter,
      )
