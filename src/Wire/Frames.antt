-- ===== src/Wire/Frames.antt =====
-- `EncodeFrame` and `TryParseFrames` of src/protocol.cpp.
pub mod Stream
pub mod RoundTrip
use vault_vk.Common.{
  ℕ, zero, suc, ◌+◌, ◌*◌, ◌^◌, ◌%◌, Bool, true, false, List, [], ◌∷◌, ◌++◌, length, take, drop, ltb,
  if◌then◌else◌, get_or_else, get_elem?,
}
use vault_vk.Wire.Bytes.{Bytes, append_le, read_le}

pub record Frame : Type 0 where
  pub type : ℕ
  pub flags : ℕ
  pub payload : Bytes

abbrev pub max_payload_bytes : ℕ
max_payload_bytes = 4 * 1024 * 1024

-- `EncodeFrame`; the length is cut to 32 bits.
unfoldable pub encode_frame : ℕ → ℕ → Bytes → Bytes
unfolding append_le
encode_frame type flags payload = type ∷ flags ∷ (append_le 4 (length payload % 2 ^ 32) ++ payload)

-- What one round of the loop finds at the front of what is left of the buffer.
pub data Found : Type 0 where
  more_needed too_large : Found
  found : Frame → (rest : Bytes) → Found

unfoldable pub next_frame : Bytes → Found
unfolding read_le
next_frame [] = more_needed
next_frame (type ∷ []) = more_needed
next_frame (type ∷ flags ∷ bs) =
    if ltb (length bs) 4
    then more_needed
    else let len = read_le 4 bs in
      if ltb max_payload_bytes len
      then too_large
      else if ltb (length bs) (4 + len)
      then more_needed
      else found (record { type = type; flags = flags; payload = take len (drop 4 bs) })
          (drop len (drop 4 bs))

-- `*out_frames`, `*read_buffer` and the value returned.
pub record Parsed : Type 0 where
  pub out_frames : List Frame
  pub read_buffer : Bytes
  pub good : Bool

abbrev pub push : Frame → Parsed → Parsed
push f r = record r { out_frames = f ∷ r.out_frames }

-- The loop, on fuel; each round takes six bytes at least.
unfoldable pub parse_loop : ℕ → Bytes → Parsed
unfolding next_frame
parse_loop zero bs = record { out_frames = []; read_buffer = bs; good = true }
parse_loop (suc fuel) bs = elim (next_frame bs) [
  | more_needed ↦ record { out_frames = []; read_buffer = bs; good = true }
  | too_large ↦ record { out_frames = []; read_buffer = bs; good = false }
  | found f rest ↦ push f (parse_loop fuel rest)
]

-- `TryParseFrames`: after a frame that is too large the buffer is left as it was.
unfoldable pub try_parse_frames : Bytes → Parsed
unfolding parse_loop
try_parse_frames bs =
    let r = parse_loop (length bs) bs in if r.good then r else record r { read_buffer = bs }
