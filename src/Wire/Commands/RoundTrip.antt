-- ===== src/Wire/Commands/RoundTrip.antt =====
-- The commands of the gateway, as the server reads them.
use vault_vk.Common.{
  Option-cases, inl, inr, ℕ, ◌+◌, ◌≤◌, ◌<◌, ◌^◌, ◌≡◌, refl, sym, ap, ◌∙◌, max, true, [], ◌∷◌, ◌++◌,
  some, length, length-append, append_assoc, append-nil, arith,
}
use vault_vk.Text.{Text}
use vault_vk.Wire.Bytes.{
  Bytes, append_le, length-append_le, read_at, read_bytes, ok, read_at_lem, read_bytes_lem,
  read_bytes_end,
}
use vault_vk.Wire.Frames.{Frame, encode_frame, try_parse_frames, max_payload_bytes}
use vault_vk.Wire.Frames.RoundTrip.{encode, encode_all, parsed-encode_all, length-encode}
use vault_vk.Wire.Frames.Stream.{parsed, try_parse_frames-good}
use vault_vk.Wire.Commands.{
  Command, blank, decode_set, decode_key, decode_scan, decode_command, encode_set_payload,
  encode_key_payload, encode_scan_payload, Query, ping, set_key, get_key, del_key, scan_keys, op_of,
  payload_of, frame_bytes, send,
}

decode_set_lem :
    (kb vb : Text)
    → length kb < 2 ^ 16
    → length vb < 2 ^ 32
    → decode_set (append_le 2 (length kb) ++ (kb ++ (append_le 4 (length vb) ++ vb)))
      ≡ ok (record (blank 2) { key = kb; value = vb })
unfolding decode_set
decode_set_lem kb vb h k =
    let x = append_le 2 (length kb) in
    let y = append_le 4 (length vb) in
    let lx : length x ≡ 2 = length-append_le 2 (length kb) in
    let ly : length y ≡ 4 = length-append_le 4 (length vb) in
    let p : Bytes = x ++ (kb ++ (y ++ vb)) in
    let l : length p ≡ 2 + length kb + 4 + length vb = simp length-append (omega (arith, lx, ly)) in
    let r1 : read_at 2 0 p ≡ ok (length kb) =
      read_at_lem 2 [] (length kb) (kb ++ (y ++ vb)) refl refl (omega arith) in
    let r2 : read_at 4 (2 + length kb) p ≡ ok (length vb) =
      read_at_lem 4 (x ++ kb) (length vb) vb (simp append_assoc refl)
        (simp length-append (omega (arith, lx))) (omega arith) in
    let r3 : read_bytes p 2 (length kb) ≡ ok kb =
      read_bytes_lem x kb (y ++ vb) refl (sym lx) refl in
    let r4 : read_bytes p (2 + length kb + 4) (length vb) ≡ ok vb =
      read_bytes_end (x ++ (kb ++ y)) vb (simp append_assoc refl)
        (simp length-append (omega (arith, lx, ly))) refl in
    ground (arith, l, r1, r2, r3, r4)

decode_key_lem :
    (type : ℕ) (kb : Text)
    → length kb < 2 ^ 16
    → decode_key type (append_le 2 (length kb) ++ kb) ≡ ok (record (blank type) { key = kb })
unfolding decode_key
decode_key_lem type kb h =
    let x = append_le 2 (length kb) in
    let lx : length x ≡ 2 = length-append_le 2 (length kb) in
    let p : Bytes = x ++ kb in
    let l : length p ≡ 2 + length kb = simp length-append (omega (arith, lx)) in
    let r1 : read_at 2 0 p ≡ ok (length kb) =
      read_at_lem 2 [] (length kb) kb refl refl (omega arith) in
    let r2 : read_bytes p 2 (length kb) ≡ ok kb = read_bytes_end x kb refl (sym lx) refl in
    ground (arith, l, r1, r2)

decode_scan_lem :
    (pb : Text) (limit : ℕ)
    → length pb < 2 ^ 16
    → max 1 limit < 2 ^ 16
    → decode_scan (append_le 2 (length pb) ++ (pb ++ append_le 2 (max 1 limit)))
      ≡ ok (record (blank 5) { prefix = pb; limit = max 1 limit })
unfolding decode_scan
decode_scan_lem pb limit h k =
    let x = append_le 2 (length pb) in
    let y = append_le 2 (max 1 limit) in
    let lx : length x ≡ 2 = length-append_le 2 (length pb) in
    let ly : length y ≡ 2 = length-append_le 2 (max 1 limit) in
    let p : Bytes = x ++ (pb ++ y) in
    let l : length p ≡ 2 + length pb + 2 = simp length-append (omega (arith, lx, ly)) in
    let r1 : read_at 2 0 p ≡ ok (length pb) =
      read_at_lem 2 [] (length pb) (pb ++ y) refl refl (omega arith) in
    let r2 : read_bytes p 2 (length pb) ≡ ok pb = read_bytes_lem x pb y refl (sym lx) refl in
    let r3 : read_at 2 (2 + length pb) p ≡ ok (max 1 limit) =
      read_at_lem 2 (x ++ pb) (max 1 limit) [] (simp (append_assoc, append-nil) refl)
        (simp length-append (omega (arith, lx))) (omega arith) in
    ground (arith, l, r1, r2, r3)

abbrev frame_of : ℕ → ℕ → Bytes → Frame
frame_of type flags payload = record { type = type; flags = flags; payload = payload }

encode_set_payload-decode :
    (flags : ℕ) (kb vb p : Text)
    → encode_set_payload kb vb ≡ some p
    → decode_command (frame_of 2 flags p) ≡ ok (record (blank 2) { key = kb; value = vb })
unfolding encode_set_payload decode_command
encode_set_payload-decode flags kb vb p e = ground (arith, decode_set_lem kb vb)

encode_key_payload-decode :
    (kb p : Text)
    → encode_key_payload kb ≡ some p
    → (type : ℕ) → decode_key type p ≡ ok (record (blank type) { key = kb })
unfolding encode_key_payload
encode_key_payload-decode kb p e type = ground (arith, decode_key_lem type kb)

encode_scan_payload-decode :
    (pb : Text) (limit : ℕ) (p : Text)
    → encode_scan_payload pb limit ≡ some p
    → decode_scan p ≡ ok (record (blank 5) { prefix = pb; limit = max 1 limit })
unfolding encode_scan_payload
encode_scan_payload-decode pb limit p e = ground (arith, decode_scan_lem pb limit)

-- The command that each query asks for.
abbrev pub command_of : Query → Command
command_of ping = blank 1
command_of (set_key kb vb) = record (blank 2) { key = kb; value = vb }
command_of (get_key kb) = record (blank 3) { key = kb }
command_of (del_key kb) = record (blank 4) { key = kb }
command_of (scan_keys pb limit) = record (blank 5) { prefix = pb; limit = max 1 limit }

payload_of-decode :
    (q : Query) (p : Bytes)
    → payload_of q ≡ some p
    → decode_command (frame_of (op_of q) 0 p) ≡ ok (command_of q)
unfolding payload_of decode_command
payload_of-decode ping p e = refl
payload_of-decode (set_key kb vb) p e = encode_set_payload-decode 0 kb vb p e
payload_of-decode (get_key kb) p e = encode_key_payload-decode kb p e 3
payload_of-decode (del_key kb) p e = encode_key_payload-decode kb p e 4
payload_of-decode (scan_keys pb limit) p e = encode_scan_payload-decode pb limit p e

frame_bytes-encode :
    (op : ℕ) (p bs : Bytes) → frame_bytes op p ≡ some bs → bs ≡ encode (frame_of op 0 p) ++ []
unfolding frame_bytes encode_frame
frame_bytes-encode op p bs e = ground (arith, append-nil p)

send_cases :
    (q : Query) (bs : Bytes)
    → send q ≡ some bs
    → (p : Bytes) × (payload_of q ≡ some p) × (frame_bytes (op_of q) p ≡ some bs)
unfolding send
send_cases q bs e = elim (Option-cases (payload_of q)) [
  | inl k ↦ absurd (ground (arith, k))
  | inr (p, k) ↦ (p, k, rw k at e)
]

-- What the gateway sends for a query, which it does unless a length does not fit its field, reaches
-- the server's parser as one frame with nothing left over, where it is not over the parser's limit,
-- and the frame is decoded as the command that the query asks for.
pub send-command :
    (q : Query) (bs : Bytes)
    → send q ≡ some bs
    → length bs ≤ 6 + max_payload_bytes
    → (f : Frame) × (try_parse_frames bs
        ≡ record { out_frames = f ∷ []; read_buffer = []; good = true })
      × (decode_command f ≡ ok (command_of q))
send-command q bs e h =
    let (p, k, s) = send_cases q bs e in
    let f = frame_of (op_of q) 0 p in
    let b : bs ≡ encode_all (f ∷ []) = frame_bytes-encode (op_of q) p bs s in
    let l : length bs ≡ 6 + length p = ap length (b ∙ append-nil (encode f)) ∙ length-encode f in
    let whole = ap parsed b ∙ parsed-encode_all (f ∷ []) (omega (arith, l), tt) in
    (f, try_parse_frames-good bs (ap (λ r. r.good) whole) ∙ whole, payload_of-decode q p k)
