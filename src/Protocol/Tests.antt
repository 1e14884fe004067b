-- ===== src/Protocol/Tests.antt =====
-- The framing theorems at concrete frames, with buffers that are the lists of their bytes and a checksum
-- of the payload alone.
use kaelix.Base.{
  ℕ, ◌+◌, ◌<◌, ◌≡◌, refl, sym, ap, ◌∙◌, List, [], ◌∷◌, ◌++◌, length, take, drop, take-append_length,
  drop-append_length, none, some, arith,
}
use kaelix.Protocol.Types.{
  payload_too_large, max_payload_size, ok, err, ◌>>=◌, data_frame, frame_type, from_u16,
  incomplete_frame, checksum_mismatch, unsupported_version, is_corruption, ProtocolResult,
}
use kaelix.Protocol.Bytes.{Buffers, to_be_bytes, from_be_bytes, bytes_eq}
use kaelix.Protocol.Frame
use kaelix.Protocol.Frame.{Frame, frame, payload_size, with_sequence}
use kaelix.Protocol.Frame.Wire.{calculate_checksum, header, serialize, deserialize}
use kaelix.Protocol.Frame.Roundtrip.{IsEncodable, deserialize-serialize}
use kaelix.Protocol.Frame.Faults.{deserialize-tampered, deserialize-truncated}
use kaelix.Protocol.Codec
use kaelix.Protocol.Codec.{
  FrameDecoder, decode_stream, peek_frame_size, announced, turn, again, done,
}
use kaelix.Protocol.Codec.Stream.{encoded, receiving}
use kaelix.Protocol.Codec.Delivery.{Deliverable, all_encoded}
use kaelix.Protocol.Codec.Cut.{decode_stream-cut}
use kaelix.Protocol.Codec.Total.{IsReady, decode_stream_returns}
use kaelix.Protocol.Codec.Damage.{refused_size_stays}
use kaelix.Protocol.Codec.Recovery.{tampered, corruption_loses_next}
use kaelix.Protocol.Codec.Oversized.{oversized_header_stays}

abbrev get : ℕ → List ℕ → ℕ × List ℕ
unfolding from_be_bytes
get n bytes = (from_be_bytes (take n bytes), drop n bytes)

get_lem : (n : ℕ) (s b : List ℕ) → length s ≡ n → get n (s ++ b) ≡ (from_be_bytes s, b)
unfolding get
get_lem n s b e =
    ap (λ k. get k (s ++ b)) (sym e)
    ∙ ap (λ x. (from_be_bytes x, drop (length s) (s ++ b))) (take-append_length s b)
    ∙ ap (λ x. (from_be_bytes s, x)) (drop-append_length s b)

abbrev split : ℕ → List ℕ → List ℕ × List ℕ
split n bytes = (take n bytes, drop n bytes)

split_lem : (s b : List ℕ) → split (length s) (s ++ b) ≡ (s, b)
split_lem s b =
    ap (λ x. (x, drop (length s) (s ++ b))) (take-append_length s b)
    ∙ ap (λ x. (s, x)) (drop-append_length s b)

abbrev buffers : Buffers
unfolding to_be_bytes
buffers = record {
  put_slice = λ b s. b ++ s;
  put_u8 = λ b v. b ++ to_be_bytes 1 v;
  put_u16 = λ b v. b ++ to_be_bytes 2 v;
  put_u32 = λ b v. b ++ to_be_bytes 4 v;
  put_u64 = λ b v. b ++ to_be_bytes 8 v;
  copy_to_slice = split;
  get_u8 = get 1;
  get_u16 = get 2;
  get_u32 = get 4;
  get_u64 = get 8;
  slice_to = λ b n. take n b;
  extend_from_slice = λ b s. b ++ s;
  split_to = split;
  advance = drop;
  put_slice_lem = λ b s. refl;
  put_u8_lem = λ b v. refl;
  put_u16_lem = λ b v. refl;
  put_u32_lem = λ b v. refl;
  put_u64_lem = λ b v. refl;
  copy_to_slice_lem = split_lem;
  get_u8_lem = get_lem 1;
  get_u16_lem = get_lem 2;
  get_u32_lem = get_lem 4;
  get_u64_lem = get_lem 8;
  slice_to_lem = take-append_length;
  extend_from_slice_lem = λ b s. refl;
  split_to_lem = split_lem;
  advance_lem = drop-append_length;
}

abbrev checksum : List ℕ → List ℕ → ℕ
unfolding from_be_bytes
checksum header payload = from_be_bytes payload + 1

abbrev hi : Frame
hi = frame 1 42 7 1000 (104 ∷ 105 ∷ [])

hi-IsEncodable : IsEncodable hi
unfolding IsEncodable frame_type from_u16
hi-IsEncodable =
    (omega arith, omega arith, omega arith, omega arith, omega arith, (data_frame, refl))

deserialize-serialize_example :
    (serialize buffers checksum hi >>= λ bytes. deserialize buffers checksum (bytes ++ (9 ∷ [])))
    ≡ ok hi
deserialize-serialize_example = deserialize-serialize buffers checksum hi (9 ∷ []) hi-IsEncodable

serialize_runs :
    (serialize buffers checksum hi >>= λ bytes. ok (drop 32 bytes))
    ≡ ok (0 ∷ 0 ∷ 0 ∷ 2 ∷ 0 ∷ 0 ∷ 104 ∷ 106 ∷ 104 ∷ 105 ∷ [])
unfolding serialize header calculate_checksum payload_size to_be_bytes from_be_bytes
serialize_runs = refl

deserialize-tampered_example :
    (serialize buffers checksum hi >>= λ bytes.
    deserialize buffers checksum (take 40 bytes ++ (104 ∷ 106 ∷ [])))
    ≡ err (checksum_mismatch 26730 26731)
unfolding calculate_checksum from_be_bytes
deserialize-tampered_example =
    deserialize-tampered buffers checksum hi (104 ∷ 106 ∷ []) [] hi-IsEncodable refl
      (λ e. absurd (omega (arith, e)))

deserialize-truncated_example :
    (serialize buffers checksum hi >>= λ bytes. deserialize buffers checksum (take 41 bytes))
    ≡ err (incomplete_frame 42 41)
unfolding Frame.frame_size
deserialize-truncated_example =
    deserialize-truncated buffers checksum hi 41 hi-IsEncodable (omega arith)

abbrev decoder : FrameDecoder
unfolding Codec.new
decoder = Codec.new

decode_stream-cut_example :
    (d₁ : FrameDecoder) × (d₂ : FrameDecoder) × (decode_stream buffers checksum
        (all_encoded buffers checksum (hi ∷ []) ++ take 20 (encoded buffers checksum hi))
        decoder
      ≡ some (ok 1, d₁))
    × (d₁.frame_queue ≡ decoder.frame_queue ++ (hi ∷ []))
    × (decode_stream buffers checksum
          (drop 20 (encoded buffers checksum hi) ++ all_encoded buffers checksum (hi ∷ []))
          d₁
        ≡ some (ok 2, d₂))
    × (d₂.frame_queue ≡ d₁.frame_queue ++ (hi ∷ hi ∷ []))
    × (d₂.buffer ≡ [])
    × (d₂.expected_frame_size ≡ none)
unfolding Codec.new Deliverable Frame.frame_size
decode_stream-cut_example =
    decode_stream-cut buffers checksum (hi ∷ []) hi (hi ∷ []) 20 decoder refl refl
      (hi-IsEncodable, omega arith, tt)
      (hi-IsEncodable, omega arith, (hi-IsEncodable, omega arith, tt)) (omega arith)

decode_stream_returns_example :
    (r : ProtocolResult ℕ) × (d : FrameDecoder) × (decode_stream buffers checksum
        (1 ∷ 2 ∷ 3 ∷ [])
        decoder
      ≡ some (r, d))
    × IsReady d
unfolding Codec.new IsReady
decode_stream_returns_example =
    decode_stream_returns buffers checksum (1 ∷ 2 ∷ 3 ∷ []) decoder
      (λ size e. absurd (ground arith))

-- The header of an empty frame of version 2.
abbrev version_two : List ℕ
unfolding to_be_bytes
version_two =
    (0x4B ∷ 0x41 ∷ 0x45 ∷ 0x58 ∷ 2 ∷ 0 ∷ 1 ∷ 0 ∷ [])
    ++ (to_be_bytes 8 1 ++ (to_be_bytes 8 7 ++ (to_be_bytes 8 1000 ++ to_be_bytes 8 1)))

refused_size_stays_example :
    (turn buffers checksum 0 (
        receiving buffers checksum
          (version_two ++ (encoded buffers checksum hi ++ []))
          []
          none
          100
          decoder.stats)
      ≡ done (err (unsupported_version 2 1)) (
          receiving buffers checksum
            (encoded buffers checksum hi ++ [])
            []
            (some 40)
            100
            decoder.stats))
    × (turn buffers checksum 0 (
          receiving buffers checksum
            (encoded buffers checksum hi ++ [])
            []
            (some 40)
            100
            decoder.stats)
        ≡ done (err (incomplete_frame 42 40)) (
            receiving buffers checksum
              (drop 40 (encoded buffers checksum hi) ++ [])
              []
              (some 40)
              100
              decoder.stats))
unfolding Codec.new version_two to_be_bytes from_be_bytes peek_frame_size announced deserialize
    bytes_eq encoded is_corruption Frame.frame_size payload_size header calculate_checksum
refused_size_stays_example =
    refused_size_stays buffers checksum 0 40 version_two [] hi [] 100 decoder.stats
      (unsupported_version 2 1) refl refl (omega arith) refl refl hi-IsEncodable (omega arith)

corruption_loses_next_example :
    (d : FrameDecoder) × (turn buffers checksum 0 (
        receiving buffers checksum
          (tampered buffers checksum hi (104 ∷ 106 ∷ []) ++ encoded buffers checksum hi)
          []
          none
          100
          decoder.stats)
      ≡ again 0 d)
    × (d.frame_queue ≡ [])
    × length d.buffer < length (encoded buffers checksum hi)
unfolding calculate_checksum from_be_bytes Frame.frame_size
corruption_loses_next_example =
    corruption_loses_next buffers checksum 0 hi hi (104 ∷ 106 ∷ []) [] 100 decoder.stats
      hi-IsEncodable (omega arith) refl (λ e. absurd (omega (arith, e)))

-- A decoder that holds the header of a frame whose payload is too large.
abbrev swamped : FrameDecoder
unfolding to_be_bytes Codec.new
swamped = record decoder {
  buffer =
      (0x4B ∷ 0x41 ∷ 0x45 ∷ 0x58 ∷ 1 ∷ 0 ∷ 1 ∷ 0 ∷ [])
      ++ (to_be_bytes 8 1
          ++ (to_be_bytes 8 7
              ++ (to_be_bytes 8 1000 ++ (to_be_bytes 4 0x7FFFFFFF ++ to_be_bytes 4 1))));
}

oversized_header_stays_example :
    (d : FrameDecoder) × (decode_stream buffers checksum (1 ∷ 2 ∷ []) swamped
      ≡ some (err (payload_too_large 0x7FFFFFFF max_payload_size), d))
    × (d.frame_queue ≡ swamped.frame_queue)
    × (d.buffer ≡ swamped.buffer ++ (1 ∷ 2 ∷ []))
    × (d.expected_frame_size ≡ none)
    × (peek_frame_size d ≡ err (payload_too_large 0x7FFFFFFF max_payload_size))
unfolding swamped decoder Codec.new to_be_bytes from_be_bytes peek_frame_size announced
oversized_header_stays_example =
    oversized_header_stays buffers checksum (1 ∷ 2 ∷ []) swamped
      (payload_too_large 0x7FFFFFFF max_payload_size) (omega arith) refl refl
