-- ===== src/Wire/Replies.antt =====
-- The replies of src/protocol.cpp: `EncodeAck`, `EncodeError`, `EncodeValue`, `EncodeScanResult` and
-- the functions that decode their payloads.
pub mod InBounds
pub mod RoundTrip
pub mod Frames
use vault_vk.Common.{
  ℕ, zero, suc, ◌+◌, ◌^◌, ◌%◌, not, List, [], ◌∷◌, ◌++◌, length, ltb, ◌==◌, if◌then◌else◌,
}
use vault_vk.Text.{Text, codes}
use vault_vk.Wire.Bytes.{Bytes, append_le, read_at, read_bytes, Read, ok, refused, beyond, ◌>>=◌}
use vault_vk.Wire.Frames.{encode_frame}

-- The casts cut the lengths to 16 and 32 bits.
abbrev pub u16 : ℕ → ℕ
u16 n = n % 2 ^ 16

abbrev pub u32 : ℕ → ℕ
u32 n = n % 2 ^ 32

-- A key or a value with its length in front.
abbrev pub short_text : Text → Bytes
short_text s = append_le 2 (u16 (length s)) ++ s

abbrev pub long_text : Text → Bytes
long_text s = append_le 4 (u32 (length s)) ++ s

abbrev pub ack_payload : ℕ → Text → Bytes
ack_payload seq message = append_le 8 seq ++ short_text message

unfoldable pub encode_ack : ℕ → Text → Bytes
unfolding encode_frame append_le
encode_ack seq message = encode_frame 0x80 0 (ack_payload seq message)

abbrev pub error_payload : ℕ → Text → Bytes
error_payload code message = append_le 2 code ++ short_text message

unfoldable pub encode_error : ℕ → Text → Bytes
unfolding encode_frame append_le
encode_error code message = encode_frame 0x81 0 (error_payload code message)

unfoldable pub encode_value : Text → Bytes
unfolding encode_frame append_le
encode_value value = encode_frame 0x82 0 (long_text value)

abbrev pub Entries : Type 0
Entries = List (Text × Text)

abbrev pub scan_body : Entries → Bytes
scan_body [] = []
scan_body ((key, value) ∷ es) = short_text key ++ (long_text value ++ scan_body es)

abbrev pub scan_payload : Entries → Bytes
scan_payload entries = append_le 2 (u16 (length entries)) ++ scan_body entries

unfoldable pub encode_scan_result : Entries → Bytes
unfolding encode_frame append_le
encode_scan_result entries = encode_frame 0x83 0 (scan_payload entries)

-- The decoders: refused stands for false, with no text where none is given.
unfoldable pub decode_ack_payload : Bytes → Read (ℕ × Text)
unfolding read_at read_bytes
decode_ack_payload p = if ltb (length p) (8 + 2) then refused [] else do
  seq ← read_at 8 0 p
  len ← read_at 2 8 p
  if not (length p == 10 + len)
      then refused []
      else do message ← read_bytes p 10 len; ok (seq, message)

unfoldable pub decode_error_payload : Bytes → Read (ℕ × Text)
unfolding read_at read_bytes
decode_error_payload p = if ltb (length p) (2 + 2) then refused [] else do
  code ← read_at 2 0 p
  len ← read_at 2 2 p
  if not (length p == 4 + len)
      then refused []
      else do message ← read_bytes p 4 len; ok (code, message)

-- `4 + len` is computed in 32 bits.
unfoldable pub decode_value_payload : Bytes → Read Text
unfolding read_at read_bytes
decode_value_payload p = if ltb (length p) 4 then refused [] else do
  len ← read_at 4 0 p
  if not (length p == u32 (4 + len)) then refused [] else read_bytes p 4 len

-- One entry at an offset, with the offset behind it.
unfoldable pub scan_entry : ℕ → Bytes → Read ((Text × Text) × ℕ)
unfolding read_at read_bytes
scan_entry off p = if ltb (length p) (off + 2) then refused (codes "scan key len truncated") else do
  key_len ← read_at 2 off p
  if ltb (length p) (off + 2 + key_len + 4) then refused (codes "scan key/value truncated") else do
    key ← read_bytes p (off + 2) key_len
    value_len ← read_at 4 (off + 2 + key_len) p
    if ltb (length p) (off + 2 + key_len + 4 + value_len)
        then refused (codes "scan value truncated")
        else do
          value ← read_bytes p (off + 2 + key_len + 4) value_len
          ok ((key, value), off + 2 + key_len + 4 + value_len)

-- The loop, with the offset that it ends at.
unfoldable pub scan_loop : ℕ → ℕ → Bytes → Read (Entries × ℕ)
unfolding scan_entry
scan_loop zero off p = ok ([], off)
scan_loop (suc n) off p = do
  (entry, next) ← scan_entry off p
  (entries, end) ← scan_loop n next p
  ok (entry ∷ entries, end)

unfoldable pub decode_scan_result_payload : Bytes → Read Entries
unfolding read_at scan_loop
decode_scan_result_payload p =
    if ltb (length p) 2 then refused (codes "scan payload too short") else do
      n ← read_at 2 0 p
      (entries, off) ← scan_loop n 2 p
      if not (off == length p) then refused (codes "scan payload trailing bytes") else ok entries
