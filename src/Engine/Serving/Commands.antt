-- ===== src/Engine/Serving/Commands.antt =====
-- What the engine does with a command of the gateway.
use vault_vk.Common.{◌+◌, ◌≡◌, ◌≤◌, refl, ap, ◌∙◌, true, [], ◌∷◌, some, length, max}
use vault_vk.Text.{codes}
use vault_vk.Wire.Bytes.{Bytes, ok}
use vault_vk.Wire.Frames.{Frame, try_parse_frames, max_payload_bytes}
use vault_vk.Wire.Commands.{
  Query, ping, set_key, get_key, del_key, scan_keys, send, decode_command, Command,
}
use vault_vk.Wire.Commands.RoundTrip.{command_of, send-command}
use vault_vk.Wire.Replies.{encode_ack, encode_value, encode_scan_result}
use vault_vk.Engine.Defs.{StorageEngine, EngineOptions, World, set, delete, get}
use vault_vk.Engine.Serving.{handle_frame, perform, performed, reply_to, reply_with, scan_prefix}

-- The operation that a query asks for, and its reply.
abbrev pub asked : EngineOptions → World → Query → StorageEngine → StorageEngine × Bytes
asked o w ping e = (e, encode_ack e.wal.last_seq (codes "PONG"))
asked o w (set_key key value) e = reply_to (set o w key value e)
asked o w (get_key key) e = (e, reply_with encode_value (get key e))
asked o w (del_key key) e = reply_to (delete o w key e)
asked o w (scan_keys prefix limit) e =
    (e, reply_with encode_scan_result (scan_prefix prefix (max 1 limit) e))

perform-asked :
    (o : EngineOptions) (w : World) (q : Query) (e : StorageEngine)
    → perform o w (command_of q) e ≡ asked o w q e
unfolding perform
perform-asked o w ping e = refl
perform-asked o w (set_key key value) e = refl
perform-asked o w (get_key key) e = refl
perform-asked o w (del_key key) e = refl
perform-asked o w (scan_keys prefix limit) e = refl

handle_frame-perform :
    (o : EngineOptions) (w : World) (f : Frame) (cmd : Command) (e : StorageEngine)
    → decode_command f ≡ ok cmd
    → handle_frame o w f e ≡ perform o w cmd e
unfolding handle_frame
handle_frame-perform o w f cmd e d = ap (performed o w e) d

-- The bytes that the gateway sends for a query, within the parser's limit, are parsed by the server as
-- one frame, and the engine does with this frame the operation that the query asks for and makes its
-- reply.
pub send-handle_frame :
    (o : EngineOptions) (w : World) (q : Query) (bs : Bytes) (e : StorageEngine)
    → send q ≡ some bs
    → length bs ≤ 6 + max_payload_bytes
    → (f : Frame) × (try_parse_frames bs
        ≡ record { out_frames = f ∷ []; read_buffer = []; good = true })
      × (handle_frame o w f e ≡ asked o w q e)
send-handle_frame o w q bs e sent fits =
    let (f, parsed, decoded) = send-command q bs sent fits in
    (f, parsed, handle_frame-perform o w f (command_of q) e decoded ∙ perform-asked o w q e)
