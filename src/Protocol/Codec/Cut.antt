-- ===== src/Protocol/Codec/Cut.antt =====
-- A stream of frames that reaches `decode_stream` in two pieces: kaelix-core/src/protocol/codec.rs.
use mathlib.Core.List.{append_assoc}
use kaelix.Base.{
  ℕ, suc, ◌+◌, ◌<◌, ◌≡◌, refl, sym, ap, ◌∙◌, List, [], ◌∷◌, ◌++◌, length, take, drop,
  take-append-drop, Option, none, some, max, u64,
}
use kaelix.Protocol.Types.{ok}
use kaelix.Protocol.Bytes.{Buffers}
use kaelix.Protocol.Frame
use kaelix.Protocol.Frame.{Frame}
use kaelix.Protocol.Codec.{FrameDecoder, DecoderStats, decode_turns, again, receive, decode_stream}
use kaelix.Protocol.Codec.Stream.{encoded, receiving}
use kaelix.Protocol.Codec.Delivery.{Deliverable, all_encoded, turns-cut, turns-rest}

module _ (b : Buffers) (hash : List ℕ → List ℕ → ℕ) where
  -- The statistics when the buffer has become `buffer`.
  abbrev pub seen : DecoderStats → List ℕ → List ℕ → DecoderStats
  seen s bytes buffer = record s {
    bytes_processed = u64 (s.bytes_processed + length bytes);
    buffer_size = length buffer;
    peak_buffer_size = max s.peak_buffer_size (length buffer);
  }

  pub decode_stream-start :
      (bytes buffer whole : List ℕ) (q : List Frame) (size : Option ℕ) (m : ℕ) (s : DecoderStats)
      → buffer ++ bytes ≡ whole
      → decode_stream b hash bytes (receiving b hash buffer q size m s)
        ≡ decode_turns b hash
            (length whole + 1)
            (again 0 (receiving b hash whole q size m (seen s bytes whole)))
  unfolding decode_stream receive
  decode_stream-start bytes buffer whole q size m s e =
      ap
        (λ w.
          decode_turns b hash (length w + 1)
            (again 0 (receiving b hash w q size m (seen s bytes w))))
        (b.extend_from_slice_lem buffer bytes ∙ e)

  -- A decoder with an empty buffer and no noted frame size that gets the bytes of some frames in two
  -- pieces, cut anywhere but behind the last, has after the first piece queued exactly the frames that are
  -- whole in it, in order, and after the second all the others; both calls succeed with the number of the
  -- frames that they queued, and the buffer is empty again, with no noted size. Every frame is encodable and
  -- not larger than the decoder's limit.
  pub decode_stream-cut :
      (fs : List Frame) (f : Frame) (gs : List Frame) (k : ℕ) (d : FrameDecoder)
      → d.buffer ≡ []
      → d.expected_frame_size ≡ none
      → Deliverable d.max_frame_size fs
      → Deliverable d.max_frame_size (f ∷ gs)
      → k < Frame.frame_size f
      → (d₁ : FrameDecoder) × (d₂ : FrameDecoder) × (decode_stream b hash
            (all_encoded b hash fs ++ take k (encoded b hash f))
            d
          ≡ some (ok (length fs), d₁))
        × (d₁.frame_queue ≡ d.frame_queue ++ fs)
        × (decode_stream b hash (drop k (encoded b hash f) ++ all_encoded b hash gs) d₁
            ≡ some (ok (suc (length gs)), d₂))
        × (d₂.frame_queue ≡ d₁.frame_queue ++ (f ∷ gs))
        × (d₂.buffer ≡ [])
        × (d₂.expected_frame_size ≡ none)
  unfolding Deliverable
  decode_stream-cut fs f gs k d empty unknown hs (h, fits, more) lt =
      let part = take k (encoded b hash f) in
      let first = all_encoded b hash fs ++ part in
      let second = drop k (encoded b hash f) ++ all_encoded b hash gs in
      let whole = encoded b hash f ++ all_encoded b hash gs in
      let m = d.max_frame_size in
      let (size, s₁, e, run₁) =
        turns-cut b hash fs f k d.frame_queue m (seen d.stats first first) hs h fits lt in
      let q = d.frame_queue ++ fs in
      let (s₂, run₂) = turns-rest b hash f gs size q m (seen s₁ second whole) (h, fits, more) e in
      let joined : part ++ second ≡ whole =
        sym (append_assoc part (drop k (encoded b hash f)) (all_encoded b hash gs))
        ∙ ap (λ w. w ++ all_encoded b hash gs) (take-append-drop k (encoded b hash f)) in
      (
        receiving b hash part q size m s₁,
        receiving b hash [] (q ++ (f ∷ gs)) none m s₂,
        ap
              (λ w.
                decode_stream b hash first
                  (receiving b hash w d.frame_queue d.expected_frame_size m d.stats))
              empty
            ∙ ap (λ w. decode_stream b hash first (receiving b hash [] d.frame_queue w m d.stats))
                unknown
            ∙ decode_stream-start first [] first d.frame_queue none m d.stats refl
            ∙ run₁,
        refl,
        decode_stream-start second part whole q size m s₁ joined ∙ run₂,
        refl,
        refl,
        refl,
      )
