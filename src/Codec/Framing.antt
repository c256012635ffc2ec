-- ===== src/Codec/Framing.antt =====
-- src/codec/framing.rs: the two-byte length prefix of DNS over TCP.
use sagittarius.Prelude.{
  ℕ, ◌≤◌, ◌≡◌, refl, arith, ◌++◌, ltb, le→ltb, if◌then◌else◌, length, take, drop,
  take-length_append,
}
use sagittarius.Codec.Error.{Error, message_too_long, truncated_length_prefix, Result, ok, err}
use sagittarius.Codec.Reader.{Bytes, be_u16}
use sagittarius.Codec.Writer.{u16_bytes}

abbrev pub length_prefix_size : ℕ
length_prefix_size = 2

unfoldable pub try_encode_length_prefix : Bytes → Result Error Bytes
try_encode_length_prefix message =
    let msg_len = length message in
    if ltb 65535 msg_len then err (message_too_long msg_len) else ok (u16_bytes msg_len ++ message)

unfoldable pub decode_length_prefix : Bytes → Result Error ℕ
decode_length_prefix frame_start =
    if ltb (length frame_start) length_prefix_size
    then err (truncated_length_prefix (length frame_start))
    else ok (be_u16 frame_start)

-- A message of at most 65535 octets is framed; at the head of a stream, whatever follows it there,
-- the prefix gives its length, and that many octets behind the prefix are the message.
pub decode-encode :
    (message more : Bytes)
    → length message ≤ 65535
    → (frame : Bytes) × (try_encode_length_prefix message ≡ ok frame)
      × (decode_length_prefix (frame ++ more) ≡ ok (length message))
      × (take (length message) (drop length_prefix_size (frame ++ more)) ≡ message)
unfolding try_encode_length_prefix decode_length_prefix
decode-encode message more h = (
  u16_bytes (length message) ++ message,
  rw (le→ltb 65535 (length message) h) refl,
  ground arith,
  take-length_append message more,
)
