-- ===== src/Wire/Commands/InBounds.antt =====
-- Where the decoders of src/protocol.cpp read in their payloads.
use vault_vk.Common.{ℕ, ◌≢◌, arith, All}
use vault_vk.Wire.Bytes.{Bytes, IsByte, beyond, read_at, read_bytes}
use vault_vk.Wire.Frames.{Frame}
use vault_vk.Wire.Commands.{decode_set, decode_key, decode_scan, decode_command}
use vault_vk.Wire.Replies.{
  decode_ack_payload, decode_error_payload, decode_value_payload, decode_scan_result_payload,
}
use vault_vk.Wire.Replies.InBounds.{
  decode_ack_payload-ne-beyond, decode_error_payload-ne-beyond, decode_value_payload-ne-beyond,
  decode_scan_result_payload-ne-beyond,
}

decode_set-ne-beyond : (p : Bytes) → decode_set p ≢ beyond
unfolding decode_set read_at read_bytes
decode_set-ne-beyond p e = ground arith

decode_key-ne-beyond : (type : ℕ) (p : Bytes) → decode_key type p ≢ beyond
unfolding decode_key read_at read_bytes
decode_key-ne-beyond type p e = ground arith

decode_scan-ne-beyond : (p : Bytes) → decode_scan p ≢ beyond
unfolding decode_scan read_at read_bytes
decode_scan-ne-beyond p e = ground arith

decode_command-ne-beyond : (f : Frame) → decode_command f ≢ beyond
unfolding decode_command
decode_command-ne-beyond f e = ground (
  arith,
  decode_set-ne-beyond f.payload,
  decode_key-ne-beyond f.type f.payload,
  decode_scan-ne-beyond f.payload,
)

-- Whatever bytes arrive, of any type and length, no decoder reads past the end of its payload: that of
-- a command, and those of an acknowledgement, an error, a value (though it adds to the length in 32
-- bits) and the result of a scan.
pub decoders-ne-beyond :
    (type flags : ℕ) (p : Bytes)
    → All IsByte p
    → (decode_command (record { type = type; flags = flags; payload = p }) ≢ beyond)
      × (decode_ack_payload p ≢ beyond)
      × (decode_error_payload p ≢ beyond)
      × (decode_value_payload p ≢ beyond)
      × (decode_scan_result_payload p ≢ beyond)
decoders-ne-beyond type flags p h = (
  decode_command-ne-beyond _,
  decode_ack_payload-ne-beyond p,
  decode_error_payload-ne-beyond p,
  decode_value_payload-ne-beyond p h,
  decode_scan_result_payload-ne-beyond p,
)
