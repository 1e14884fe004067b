-- ===== src/Protocol/Frame/Wire.antt =====
-- Serialisation: `serialize`, `deserialize` and `calculate_checksum` of
-- kaelix-core/src/protocol/frame.rs.
use kaelix.Base.{ℕ, ◌+◌, ◌%◌, ◌^◌, ltb, ◌==◌, not, if◌then◌else◌, List, [], length, take}
use kaelix.Protocol.Types.{
  payload_too_large, buffer_too_small, invalid_magic, unsupported_version, incomplete_frame,
  checksum_mismatch, ProtocolResult, ok, ◌>>=◌, ◌>>◌, fail_if, frame_header_size, max_payload_size,
  frame_type,
}
use kaelix.Protocol.Bytes.{Buffers, bytes_eq}
use kaelix.Protocol.Frame.{Frame, frame, payload_size, protocol_magic, protocol_version}

module _ (b : Buffers) (hash : List ℕ → List ℕ → ℕ) where
  unfoldable pub calculate_checksum : List ℕ → List ℕ → ℕ
  calculate_checksum header payload = hash header payload % 2 ^ 32

  -- The first 36 bytes that `serialize` writes.
  unfoldable pub header : Frame → List ℕ
  unfolding payload_size
  header f =
      let buf = b.put_slice [] protocol_magic in
      let buf = b.put_u8 buf protocol_version in
      let buf = b.put_u16 buf (f.flags) in
      let buf = b.put_u8 buf 0 in
      let buf = b.put_u32 buf (f.stream_id) in
      let buf = b.put_u32 buf 0 in
      let buf = b.put_u64 buf (f.sequence) in
      let buf = b.put_u64 buf (f.timestamp) in b.put_u32 buf (payload_size f)

  unfoldable pub serialize : Frame → ProtocolResult (List ℕ)
  serialize f =
      let checksum = calculate_checksum (header f) (f.payload) in
      ok (b.put_slice (b.put_u32 (header f) checksum) (f.payload))

  unfoldable pub deserialize : List ℕ → ProtocolResult Frame
  unfolding calculate_checksum bytes_eq frame_type
  deserialize bytes =
      fail_if (ltb (length bytes) frame_header_size)
        (buffer_too_small frame_header_size (length bytes))
      >> let magic = b.copy_to_slice 4 bytes in
        fail_if (not (bytes_eq (magic.0) protocol_magic)) (invalid_magic protocol_magic (magic.0))
        >> let version = b.get_u8 (magic.1) in
          fail_if (not (version.0 == protocol_version))
            (unsupported_version (version.0) protocol_version)
          >> let flags = b.get_u16 (version.1) in
            let reserved1 = b.get_u8 (flags.1) in
            let stream_id = b.get_u32 (reserved1.1) in
            let reserved2 = b.get_u32 (stream_id.1) in
            let sequence = b.get_u64 (reserved2.1) in
            let timestamp = b.get_u64 (sequence.1) in
            let payload_len = b.get_u32 (timestamp.1) in
            fail_if (ltb max_payload_size (payload_len.0))
              (payload_too_large (payload_len.0) max_payload_size)
            >> let expected = b.get_u32 (payload_len.1) in
              fail_if (ltb (length (expected.1)) (payload_len.0)) (
                incomplete_frame (frame_header_size + payload_len.0)
                  (frame_header_size + length (expected.1)))
              >> let payload =
                  if payload_len.0 == 0 then [] else b.slice_to (expected.1) (payload_len.0) in
                let actual = calculate_checksum (take 36 bytes) payload in
                fail_if (not (expected.0 == actual)) (checksum_mismatch (expected.0) actual)
                >> (frame_type (flags.0) >>= λ t.
                    ok (frame (flags.0) (stream_id.0) (sequence.0) (timestamp.0) payload))
