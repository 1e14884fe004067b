-- ===== src/Protocol/Codec/Encoder/Batch.antt =====
-- What `add_to_batch` and `flush_batch` hand out: kaelix-core/src/protocol/codec.rs.
use mathlib.Core.List.{append_assoc, append-nil}
use kaelix.Base.{
  ℕ, leb, ◌≡◌, sym, ap, List, [], ◌∷◌, ◌++◌, length, length-append, ◌+◌, if◌then◌else◌, none, some,
  arith,
}
use kaelix.Protocol.Types.{ok}
use kaelix.Protocol.Bytes.{Buffers}
use kaelix.Protocol.Frame.{Frame}
use kaelix.Protocol.Frame.Roundtrip.{serialized}
use kaelix.Protocol.Codec.Stream.{encoded}
use kaelix.Protocol.Codec.Delivery.{all_encoded}
use kaelix.Protocol.Codec.Encoder.{
  FrameEncoder, extend_all, flush_batch, flush_frames, flushed, add_to_batch,
}

module _ (b : Buffers) (hash : List ℕ → List ℕ → ℕ) where
  extend_all-encoded :
      (fs : List Frame) (buffer : List ℕ)
      → extend_all b hash fs buffer ≡ (ok tt, buffer ++ all_encoded b hash fs)
  unfolding extend_all all_encoded encoded
  extend_all-encoded [] buffer = ap (λ w. (ok tt, w)) (sym (append-nil buffer))
  extend_all-encoded (f ∷ fs) buffer =
      simp (serialized b hash f, b.extend_from_slice_lem, extend_all-encoded fs, append_assoc)

  flush_frames-encoded :
      (e : FrameEncoder) (fs : List Frame) (f : Frame)
      → flush_frames b hash e (fs ++ (f ∷ []))
        ≡ (ok (all_encoded b hash (fs ++ (f ∷ []))), record e { buffer = []; batch = [] })
  unfolding flush_frames extend_all
  flush_frames-encoded e [] f = ap (flushed b hash e) (extend_all-encoded (f ∷ []) [])
  flush_frames-encoded e (x ∷ fs) f =
      ap (flushed b hash e) (extend_all-encoded (x ∷ (fs ++ (f ∷ []))) [])

  -- A frame that is added joins the batch; when the batch has then reached the maximal size, its frames
  -- are handed out in order as the bytes that `serialize` makes of each, and the batch and the buffer are
  -- empty; else nothing is handed out.
  add_to_batch-encoded :
      (e : FrameEncoder) (f : Frame)
      → add_to_batch b hash e f ≡ (
          if leb e.max_batch_size (length e.batch + 1)
          then (
            ok (some (all_encoded b hash (e.batch ++ (f ∷ [])))),
            record e { buffer = []; batch = [] },
          )
          else (ok none, record e { batch = e.batch ++ (f ∷ []) }))
  unfolding add_to_batch flush_batch
  add_to_batch-encoded e f =
      let size : length (e.batch ++ (f ∷ [])) ≡ length e.batch + 1 =
        omega (arith, length-append e.batch (f ∷ [])) in
      simp (size, flush_frames-encoded (record e { batch = e.batch ++ (f ∷ []) }) e.batch f)
