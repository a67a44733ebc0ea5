-- ===== src/Wire/Replies/Frames.antt =====
-- The replies of the server as frames, and what a client that has the decoders of src/protocol.cpp
-- reads from them.
use vault_vk.Common.{
  ℕ, ◌+◌, ◌≤◌, ◌<◌, ◌^◌, ◌≡◌, refl, sym, ap, ◌∙◌, ◌==◌, true, [], ◌∷◌, append-nil, length,
  if◌then◌else◌, All,
}
use vault_vk.Text.{Text}
use vault_vk.Wire.Bytes.{Bytes, Read, ok, refused, ◌>>=◌}
use vault_vk.Wire.Frames.{Frame, max_payload_bytes, try_parse_frames}
use vault_vk.Wire.Frames.Stream.{parsed, try_parse_frames-good}
use vault_vk.Wire.Frames.RoundTrip.{encode, encode_all, parsed-encode_all}
use vault_vk.Wire.Replies.{
  Entries, encode_ack, encode_error, encode_value, encode_scan_result, ack_payload, error_payload,
  long_text, scan_payload, decode_ack_payload, decode_error_payload, decode_value_payload,
  decode_scan_result_payload,
}
use vault_vk.Wire.Replies.RoundTrip.{
  IsShort, FitsEntry, decode_ack_payload_lem, decode_error_payload_lem, decode_value_payload_lem,
  decode_scan_result_payload_lem,
}

pub data Reply : Type 0 where
  acknowledged : (seq : ℕ) (message : Text) → Reply
  failed : (code : ℕ) (message : Text) → Reply
  value_of : Text → Reply
  entries_of : Entries → Reply

unfoldable pub encoded : Reply → Bytes
unfolding encode_ack encode_error encode_value encode_scan_result
encoded (acknowledged seq message) = encode_ack seq message
encoded (failed code message) = encode_error code message
encoded (value_of value) = encode_value value
encoded (entries_of es) = encode_scan_result es

-- The decoder is chosen by the frame's type.
unfoldable pub decoded : Frame → Read Reply
unfolding decode_ack_payload decode_error_payload decode_value_payload decode_scan_result_payload
decoded f =
    if f.type == 0x80
    then (decode_ack_payload f.payload >>= λ a. ok (acknowledged a.0 a.1))
    else if f.type == 0x81
    then (decode_error_payload f.payload >>= λ a. ok (failed a.0 a.1))
    else if f.type == 0x82
    then (decode_value_payload f.payload >>= λ v. ok (value_of v))
    else if f.type == 0x83
    then (decode_scan_result_payload f.payload >>= λ es. ok (entries_of es))
    else refused []

abbrev pub frame_of_reply : Reply → Frame
frame_of_reply (acknowledged seq message) = record {
  type = 0x80;
  flags = 0;
  payload = ack_payload seq message;
}
frame_of_reply (failed code message) = record {
  type = 0x81;
  flags = 0;
  payload = error_payload code message;
}
frame_of_reply (value_of value) = record { type = 0x82; flags = 0; payload = long_text value }
frame_of_reply (entries_of es) = record { type = 0x83; flags = 0; payload = scan_payload es }

-- The numbers of a reply, and its lengths, are within their fields.
abbrev pub FitsReply : Reply → Type 0
FitsReply (acknowledged seq message) = (seq < 2 ^ 64) × IsShort message
FitsReply (failed code message) = (code < 2 ^ 16) × IsShort message
FitsReply (value_of value) = length value + 4 < 2 ^ 32
FitsReply (entries_of es) = (length es < 2 ^ 16) × All FitsEntry es

encoded-frame_of_reply : (r : Reply) → encoded r ≡ encode (frame_of_reply r)
unfolding encoded
encoded-frame_of_reply (acknowledged seq message) = refl
encoded-frame_of_reply (failed code message) = refl
encoded-frame_of_reply (value_of value) = refl
encoded-frame_of_reply (entries_of es) = refl

decoded-frame_of_reply : (r : Reply) → FitsReply r → decoded (frame_of_reply r) ≡ ok r
unfolding decoded
decoded-frame_of_reply (acknowledged seq message) h =
    ap (λ a. a >>= λ a. ok (acknowledged a.0 a.1)) (decode_ack_payload_lem seq message h.0 h.1)
decoded-frame_of_reply (failed code message) h =
    ap (λ a. a >>= λ a. ok (failed a.0 a.1)) (decode_error_payload_lem code message h.0 h.1)
decoded-frame_of_reply (value_of value) h =
    ap (λ v. v >>= λ v. ok (value_of v)) (decode_value_payload_lem value h)
decoded-frame_of_reply (entries_of es) h =
    ap (λ x. x >>= λ es. ok (entries_of es)) (decode_scan_result_payload_lem es h.0 h.1)

-- A reply that the server encodes (an acknowledgement, an error, a value or the result of a scan) is
-- parsed as one frame with nothing left over, and decoded as the same reply, when its numbers and
-- lengths fit their fields and its payload is within the parser's limit.
pub encoded-decoded :
    (r : Reply)
    → FitsReply r
    → length ((frame_of_reply r).payload) ≤ max_payload_bytes
    → (f : Frame) × (try_parse_frames (encoded r)
        ≡ record { out_frames = f ∷ []; read_buffer = []; good = true })
      × (decoded f ≡ ok r)
encoded-decoded r h k =
    let f = frame_of_reply r in
    let b : encoded r ≡ encode_all (f ∷ []) =
      encoded-frame_of_reply r ∙ sym (append-nil (encode f)) in
    let whole = ap parsed b ∙ parsed-encode_all (f ∷ []) (k, tt) in
    (
      f,
      try_parse_frames-good (encoded r) (ap (λ p. p.good) whole) ∙ whole,
      decoded-frame_of_reply r h,
    )
