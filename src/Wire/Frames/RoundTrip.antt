-- ===== src/Wire/Frames/RoundTrip.antt =====
-- Frames that are encoded one after the other, and parsed.
use vault_vk.Common.{
  ℕ, ◌+◌, ◌^◌, ◌%◌, ◌≤◌, ◌≡◌, refl, ap, ◌∙◌, true, List, [], ◌∷◌, ◌++◌, length, length-append,
  append_assoc, drop, arith, All, take-length_append, drop-length_append,
}
use vault_vk.Wire.Bytes.{Bytes, append_le, read_le, read_le-append_le, length-append_le}
use vault_vk.Wire.Frames.{
  Frame, found, next_frame, push, parse_loop, encode_frame, max_payload_bytes,
}
use vault_vk.Wire.Frames.Stream.{parsed, parsed-found}

abbrev pub encode : Frame → Bytes
encode f = encode_frame f.type f.flags f.payload

abbrev pub encode_all : List Frame → Bytes
encode_all [] = []
encode_all (f ∷ fs) = encode f ++ encode_all fs

-- The payload is one that the parser takes.
abbrev pub Fits : Frame → Type 0
Fits f = length f.payload ≤ max_payload_bytes

drop_four : (n : ℕ) (bs : Bytes) → drop 4 (append_le 4 n ++ bs) ≡ bs
unfolding append_le
drop_four n bs = refl

next_frame_of_parts :
    (t fl : ℕ) (bs p rest : Bytes)
    → read_le 4 bs ≡ length p
    → drop 4 bs ≡ p ++ rest
    → length bs ≡ 4 + length p + length rest
    → length p ≤ max_payload_bytes
    → next_frame (t ∷ fl ∷ bs) ≡ found (record { type = t; flags = fl; payload = p }) rest
unfolding next_frame
next_frame_of_parts t fl bs p rest e d l h =
    rw (e, d, take-length_append p rest, drop-length_append p rest, l) (ground arith)

next_frame-encode :
    (f : Frame) (rest : Bytes) → Fits f → next_frame (encode f ++ rest) ≡ found f rest
unfolding encode_frame
next_frame-encode f rest h =
    let p = f.payload in
    let n = length p % 2 ^ 32 in
    next_frame_of_parts f.type f.flags ((append_le 4 n ++ p) ++ rest) p rest
      (ap (read_le 4) (append_assoc (append_le 4 n) p rest)
        ∙ read_le-append_le 4 n (p ++ rest) (omega arith)
        ∙ omega arith)
      (ap (drop 4) (append_assoc (append_le 4 n) p rest) ∙ drop_four n (p ++ rest))
      (length-append (append_le 4 n ++ p) rest
        ∙ ap (λ k. k + length rest)
            (length-append (append_le 4 n) p ∙ ap (λ k. k + length p) (length-append_le 4 n)))
      h

pub parsed-encode_all :
    (fs : List Frame)
    → All Fits fs
    → parsed (encode_all fs) ≡ record { out_frames = fs; read_buffer = []; good = true }
unfolding parse_loop
parsed-encode_all [] h = refl
parsed-encode_all (f ∷ fs) h =
    parsed-found (encode f ++ encode_all fs) (next_frame-encode f (encode_all fs) h.0)
    ∙ ap (push f) (parsed-encode_all fs h.1)

pub length-encode : (f : Frame) → length (encode f) ≡ 6 + length f.payload
unfolding encode_frame
length-encode f =
    let n = length f.payload % 2 ^ 32 in
    let l : length (append_le 4 n ++ f.payload) ≡ 4 + length f.payload =
      length-append (append_le 4 n) f.payload
      ∙ ap (λ k. k + length f.payload) (length-append_le 4 n) in
    omega (arith, l)
