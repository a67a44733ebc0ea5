-- ===== src/Wire/Examples.antt =====
-- Two frames that arrive in three pieces, a command from the gateway to the server, and replies.
use vault_vk.Common.{ℕ, suc, ◌≡◌, ◌≢◌, refl, true, false, List, [], ◌∷◌, arith}
use vault_vk.Wire.Bytes.{Bytes, append_le, read_at, read_bytes, ok, beyond}
use vault_vk.Wire.Frames.{Frame, encode_frame, next_frame, parse_loop, try_parse_frames}
use vault_vk.Wire.Connection.{Connection, receive, handle_all, receive-encode_all}
use vault_vk.Wire.Commands.{
  set_key, send, payload_of, encode_set_payload, frame_bytes, decode_command, decode_scan,
}
use vault_vk.Wire.Commands.RoundTrip.{command_of, send-command}
use vault_vk.Wire.Commands.InBounds.{decoders-ne-beyond}
use vault_vk.Wire.Replies.{
  decode_ack_payload, decode_error_payload, decode_value_payload, decode_scan_result_payload,
}
use vault_vk.Wire.Replies.Frames.{entries_of, encoded, decoded, encoded-decoded}

abbrev ping : Frame
ping = record { type = 1; flags = 0; payload = [] }

abbrev get_k : Frame
get_k = record { type = 3; flags = 0; payload = 1 ∷ 0 ∷ 107 ∷ [] }

abbrev chunks : List Bytes
chunks = (1 ∷ 0 ∷ 0 ∷ []) ∷ (0 ∷ 0 ∷ 0 ∷ 3 ∷ 0 ∷ 3 ∷ 0 ∷ 0 ∷ []) ∷ (0 ∷ 1 ∷ 0 ∷ 107 ∷ []) ∷ []

-- An engine that counts its frames and answers with the type of each.
abbrev counting : Frame → ℕ → ℕ × Bytes
counting f n = (suc n, f.type ∷ [])

abbrev idle : Connection ℕ
idle = record { engine = 0; rbuf = []; wbuf = [] }

receive-encode_all_example :
    receive counting chunks idle
    ≡ record (handle_all counting (ping ∷ get_k ∷ []) idle) { rbuf = [] }
unfolding encode_frame append_le
receive-encode_all_example =
    receive-encode_all counting (ping ∷ get_k ∷ []) chunks idle (omega arith, (omega arith, tt))
      refl refl

abbrev sent : Bytes
sent = 2 ∷ 0 ∷ 8 ∷ 0 ∷ 0 ∷ 0 ∷ 1 ∷ 0 ∷ 107 ∷ 1 ∷ 0 ∷ 0 ∷ 0 ∷ 118 ∷ []

send-command_example :
    (f : Frame) × (try_parse_frames sent
      ≡ record { out_frames = f ∷ []; read_buffer = []; good = true })
    × (decode_command f ≡ ok (command_of (set_key (107 ∷ []) (118 ∷ []))))
unfolding send payload_of encode_set_payload frame_bytes append_le
send-command_example = send-command (set_key (107 ∷ []) (118 ∷ [])) sent refl (omega arith)

encoded-decoded_example :
    (f : Frame) × (try_parse_frames (encoded (entries_of ((107 ∷ [], 118 ∷ []) ∷ [])))
      ≡ record { out_frames = f ∷ []; read_buffer = []; good = true })
    × (decoded f ≡ ok (entries_of ((107 ∷ [], 118 ∷ []) ∷ [])))
unfolding append_le
encoded-decoded_example =
    encoded-decoded (entries_of ((107 ∷ [], 118 ∷ []) ∷ []))
      (omega arith, ((omega arith, omega arith), tt)) (omega arith)

decoders-ne-beyond_example :
    (decode_command (record { type = 5; flags = 0; payload = 1 ∷ 0 ∷ [] }) ≢ beyond)
    × (decode_ack_payload (1 ∷ 0 ∷ []) ≢ beyond)
    × (decode_error_payload (1 ∷ 0 ∷ []) ≢ beyond)
    × (decode_value_payload (1 ∷ 0 ∷ []) ≢ beyond)
    × (decode_scan_result_payload (1 ∷ 0 ∷ []) ≢ beyond)
decoders-ne-beyond_example = decoders-ne-beyond 5 0 (1 ∷ 0 ∷ []) (omega arith, (omega arith, tt))

-- Bytes behind the limit of a scan are taken.
scan_with_more :
    decode_scan (0 ∷ 0 ∷ 7 ∷ 0 ∷ 99 ∷ [])
    ≡ ok (record { type = 5; key = []; value = []; prefix = []; limit = 7 })
unfolding decode_scan read_at read_bytes
scan_with_more = refl

-- Behind a frame that is too large nothing is taken off, and the frames in front of it are found again.
too_large_behind : try_parse_frames (1 ∷ 0 ∷ 0 ∷ 0 ∷ 0 ∷ 0 ∷ 2 ∷ 0 ∷ 0 ∷ 0 ∷ 65 ∷ 0 ∷ []) ≡ record {
  out_frames = ping ∷ [];
  read_buffer = 1 ∷ 0 ∷ 0 ∷ 0 ∷ 0 ∷ 0 ∷ 2 ∷ 0 ∷ 0 ∷ 0 ∷ 65 ∷ 0 ∷ [];
  good = false;
}
unfolding try_parse_frames parse_loop next_frame
too_large_behind = refl
