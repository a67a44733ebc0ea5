-- ===== src/Wire/Commands.antt =====
-- `DecodeCommand` of src/protocol.cpp, and the payloads that gateway/tlv_client.py makes for it.
pub mod RoundTrip
pub mod InBounds
use vault_vk.Common.{
  ℕ, ◌+◌, ◌^◌, max, Bool, not, ◌||◌, [], ◌∷◌, ◌++◌, Option, none, some, length, ltb, ◌==◌,
  if◌then◌else◌,
}
use vault_vk.Text.{Text, codes}
use vault_vk.Wire.Bytes.{
  Bytes, append_le, range, read_at, read_bytes, Read, ok, refused, beyond, ◌>>=◌,
}
use vault_vk.Wire.Frames.{Frame}

pub record Command : Type 0 where
  pub type : ℕ
  pub key : Text
  pub value : Text
  pub prefix : Text
  pub limit : ℕ

-- `Command cmd{}` with its type.
abbrev pub blank : ℕ → Command
blank type = record { type = type; key = []; value = []; prefix = []; limit = 100 }

unfoldable pub decode_set : Bytes → Read Command
unfolding read_at read_bytes
decode_set p = if ltb (length p) (2 + 4) then refused (codes "SET payload too short") else do
  key_len ← read_at 2 0 p
  if ltb (length p) (2 + key_len + 4) then refused (codes "SET key truncated") else do
    val_len ← read_at 4 (2 + key_len) p
    if not (length p == 2 + key_len + 4 + val_len)
        then refused (codes "SET payload length mismatch")
        else do
          key ← read_bytes p 2 key_len
          value ← read_bytes p (2 + key_len + 4) val_len
          ok (record (blank 2) { key = key; value = value })

-- GET and DEL
unfoldable pub decode_key : ℕ → Bytes → Read Command
unfolding read_at read_bytes
decode_key type p = if ltb (length p) 2 then refused (codes "GET/DEL payload too short") else do
  key_len ← read_at 2 0 p
  if not (length p == 2 + key_len)
      then refused (codes "GET/DEL key length mismatch")
      else do key ← read_bytes p 2 key_len; ok (record (blank type) { key = key })

-- Bytes behind the limit are not looked at.
unfoldable pub decode_scan : Bytes → Read Command
unfolding read_at read_bytes
decode_scan p = if ltb (length p) (2 + 2) then refused (codes "SCAN payload too short") else do
  prefix_len ← read_at 2 0 p
  if ltb (length p) (2 + prefix_len + 2) then refused (codes "SCAN prefix truncated") else do
    prefix ← read_bytes p 2 prefix_len
    limit ← read_at 2 (2 + prefix_len) p
    ok (record (blank 5) { prefix = prefix; limit = if limit == 0 then 100 else limit })

unfoldable pub decode_command : Frame → Read Command
unfolding decode_set decode_key decode_scan
decode_command frame =
    if frame.type == 1
    then ok (blank 1)
    else if frame.type == 2
    then decode_set frame.payload
    else if frame.type == 3 || frame.type == 4
    then decode_key frame.type frame.payload
    else if frame.type == 5
    then decode_scan frame.payload
    else refused (codes "unsupported request opcode")

-- `struct.pack("<H", n)` and the others, which raise where the number does not fit.
abbrev pub pack : ℕ → ℕ → Option Bytes
pack w n = if ltb n (range w) then some (append_le w n) else none

infixl 5 ◌>>=?◌
abbrev ◌>>=?◌ : Option Bytes → (Bytes → Option Bytes) → Option Bytes
none >>=? f = none
some a >>=? f = f a

-- The texts are given as their UTF-8 bytes.
unfoldable pub encode_set_payload : Text → Text → Option Bytes
unfolding append_le
encode_set_payload kb vb =
    pack 2 (length kb) >>=? λ k. pack 4 (length vb) >>=? λ v. some (k ++ (kb ++ (v ++ vb)))

unfoldable pub encode_key_payload : Text → Option Bytes
unfolding append_le
encode_key_payload kb = pack 2 (length kb) >>=? λ k. some (k ++ kb)

unfoldable pub encode_scan_payload : Text → ℕ → Option Bytes
unfolding append_le
encode_scan_payload pb limit =
    pack 2 (length pb) >>=? λ k. pack 2 (max 1 limit) >>=? λ l. some (k ++ (pb ++ l))

-- What `ClusterManager` sends: an operation and its payload (gateway/cluster.py).
pub data Query : Type 0 where
  ping : Query
  set_key : (kb vb : Text) → Query
  get_key del_key : (kb : Text) → Query
  scan_keys : (pb : Text) (limit : ℕ) → Query

abbrev pub op_of : Query → ℕ
op_of ping = 1
op_of (set_key kb vb) = 2
op_of (get_key kb) = 3
op_of (del_key kb) = 4
op_of (scan_keys pb limit) = 5

unfoldable pub payload_of : Query → Option Bytes
unfolding encode_set_payload encode_key_payload encode_scan_payload
payload_of ping = some []
payload_of (set_key kb vb) = encode_set_payload kb vb
payload_of (get_key kb) = encode_key_payload kb
payload_of (del_key kb) = encode_key_payload kb
payload_of (scan_keys pb limit) = encode_scan_payload pb limit

-- `struct.pack("<BBL", op, 0, len(payload)) + payload` in `send_frame`.
unfoldable pub frame_bytes : ℕ → Bytes → Option Bytes
unfolding append_le
frame_bytes op payload = pack 4 (length payload) >>=? λ l. some (op ∷ 0 ∷ (l ++ payload))

unfoldable pub send : Query → Option Bytes
unfolding payload_of frame_bytes
send q = payload_of q >>=? frame_bytes (op_of q)
