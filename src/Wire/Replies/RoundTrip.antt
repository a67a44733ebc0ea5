-- ===== src/Wire/Replies/RoundTrip.antt =====
-- What the server encodes, decoded again.
use vault_vk.Common.{
  ℕ, ◌+◌, ◌<◌, ◌^◌, ◌≡◌, refl, sym, ap, ◌∙◌, [], ◌∷◌, ◌++◌, length, length-append, append_assoc,
  append-nil, ltb, ==_refl, arith, All, false,
}
use vault_vk.Text.{Text}
use vault_vk.Wire.Bytes.{
  Bytes, append_le, length-append_le, read_at, read_bytes, ok, read_at_lem, read_bytes_lem,
  read_bytes_end,
}
use vault_vk.Wire.Replies.{
  u16, u32, short_text, long_text, ack_payload, error_payload, Entries, scan_body, scan_payload,
  decode_ack_payload, decode_error_payload, decode_value_payload, scan_entry, scan_loop,
  decode_scan_result_payload,
}

-- A text whose length is kept in two bytes, and one whose length is kept in four.
abbrev pub IsShort : Text → Type 0
IsShort s = length s < 2 ^ 16

abbrev pub IsLong : Text → Type 0
IsLong s = length s < 2 ^ 32

length_of_parts : (w v : ℕ) (s : Bytes) → length (append_le w v ++ s) ≡ w + length s
length_of_parts w v s =
    length-append (append_le w v) s ∙ ap (λ k. k + length s) (length-append_le w v)

length_of_two : (w v w' v' : ℕ) → length (append_le w v ++ append_le w' v') ≡ w + w'
length_of_two w v w' v' =
    length_of_parts w v (append_le w' v') ∙ ap (λ k. w + k) (length-append_le w' v')

pub decode_ack_payload_lem :
    (seq : ℕ) (message : Text)
    → seq < 2 ^ 64
    → IsShort message
    → decode_ack_payload (ack_payload seq message) ≡ ok (seq, message)
unfolding decode_ack_payload
decode_ack_payload_lem seq message h k =
    let p = ack_payload seq message in
    let l : length p ≡ 10 + length message =
      length_of_parts 8 seq (short_text message)
      ∙ ap (λ n. 8 + n) (length_of_parts 2 (u16 (length message)) message)
      ∙ omega arith in
    let a : read_at 8 0 p ≡ ok seq = read_at_lem 8 [] seq (short_text message) refl refl h in
    let b : read_at 2 8 p ≡ ok (u16 (length message)) =
      read_at_lem 2 (append_le 8 seq) (u16 (length message)) message refl
        (sym (length-append_le 8 seq)) (omega arith) in
    let m : u16 (length message) ≡ length message = omega arith in
    let c : read_bytes p 10 (length message) ≡ ok message =
      read_bytes_end (append_le 8 seq ++ append_le 2 (u16 (length message))) message
        (simp append_assoc refl) (sym (length_of_two 8 seq 2 (u16 (length message)))) refl in
    ground (arith, l, a, b, m, c)

pub decode_error_payload_lem :
    (code : ℕ) (message : Text)
    → code < 2 ^ 16
    → IsShort message
    → decode_error_payload (error_payload code message) ≡ ok (code, message)
unfolding decode_error_payload
decode_error_payload_lem code message h k =
    let p = error_payload code message in
    let l : length p ≡ 4 + length message =
      length_of_parts 2 code (short_text message)
      ∙ ap (λ n. 2 + n) (length_of_parts 2 (u16 (length message)) message)
      ∙ omega arith in
    let a : read_at 2 0 p ≡ ok code = read_at_lem 2 [] code (short_text message) refl refl h in
    let b : read_at 2 2 p ≡ ok (u16 (length message)) =
      read_at_lem 2 (append_le 2 code) (u16 (length message)) message refl
        (sym (length-append_le 2 code)) (omega arith) in
    let m : u16 (length message) ≡ length message = omega arith in
    let c : read_bytes p 4 (length message) ≡ ok message =
      read_bytes_end (append_le 2 code ++ append_le 2 (u16 (length message))) message
        (simp append_assoc refl) (sym (length_of_two 2 code 2 (u16 (length message)))) refl in
    ground (arith, l, a, b, m, c)

-- Values of at most 2^32 - 5 bytes: with four more, `4 + len` wraps.
pub decode_value_payload_lem :
    (value : Text) → length value + 4 < 2 ^ 32 → decode_value_payload (long_text value) ≡ ok value
unfolding decode_value_payload
decode_value_payload_lem value h =
    let p = long_text value in
    let l : length p ≡ 4 + length value = length_of_parts 4 (u32 (length value)) value in
    let m : u32 (length value) ≡ length value = omega arith in
    let a : read_at 4 0 p ≡ ok (u32 (length value)) =
      read_at_lem 4 [] (u32 (length value)) value refl refl (omega arith) in
    let c : read_bytes p 4 (length value) ≡ ok value =
      read_bytes_end (append_le 4 (u32 (length value))) value refl
        (sym (length-append_le 4 (u32 (length value)))) refl in
    ground (arith, l, a, m, c)

scan_entry_lem :
    {p : Bytes} {off : ℕ} (a : Bytes) (key value : Text) (rest : Bytes)
    → p ≡ a ++ (short_text key ++ (long_text value ++ rest))
    → off ≡ length a
    → IsShort key
    → IsLong value
    → scan_entry off p ≡ ok ((key, value), off + 2 + length key + 4 + length value)
unfolding scan_entry
scan_entry_lem {p} {off} a key value rest e o h k =
    let x = append_le 2 (u16 (length key)) in
    let y = append_le 4 (u32 (length value)) in
    let lx : length x ≡ 2 = length-append_le 2 (u16 (length key)) in
    let ly : length y ≡ 4 = length-append_le 4 (u32 (length value)) in
    let m : u16 (length key) ≡ length key = omega arith in
    let m' : u32 (length value) ≡ length value = omega arith in
    let l : length p ≡ off + 2 + length key + 4 + length value + length rest =
      ap length e ∙ simp length-append (omega (arith, lx, ly, o)) in
    let r1 : read_at 2 off p ≡ ok (u16 (length key)) =
      read_at_lem 2 a (u16 (length key)) (key ++ (long_text value ++ rest))
        (e ∙ simp append_assoc refl) o (omega arith) in
    let r2 : read_bytes p (off + 2) (length key) ≡ ok key =
      read_bytes_lem (a ++ x) key (long_text value ++ rest) (e ∙ simp append_assoc refl)
        (simp length-append (omega (arith, lx, o))) refl in
    let r3 : read_at 4 (off + 2 + length key) p ≡ ok (u32 (length value)) =
      read_at_lem 4 (a ++ (x ++ key)) (u32 (length value)) (value ++ rest)
        (e ∙ simp append_assoc refl) (simp length-append (omega (arith, lx, o))) (omega arith) in
    let r4 : read_bytes p (off + 2 + length key + 4) (length value) ≡ ok value =
      read_bytes_lem (a ++ (x ++ (key ++ y))) value rest (e ∙ simp append_assoc refl)
        (simp length-append (omega (arith, lx, ly, o))) refl in
    ground (arith, l, m, m', r1, r2, r3, r4)

-- The lengths of the entry's key and value fit their fields.
abbrev pub FitsEntry : Text × Text → Type 0
FitsEntry e = IsShort e.0 × IsLong e.1

scan_loop_lem :
    {p : Bytes} {off : ℕ} (a : Bytes) (es : Entries)
    → p ≡ a ++ scan_body es
    → off ≡ length a
    → All FitsEntry es
    → scan_loop (length es) off p ≡ ok (es, length p)
unfolding scan_loop
scan_loop_lem {p} {off} a [] e o h = ap (λ n. ok ([], n)) (o ∙ sym (ap length (e ∙ append-nil a)))
scan_loop_lem {p} {off} a ((key, value) ∷ es) e o h =
    let front = a ++ (short_text key ++ long_text value) in
    let next : off + 2 + length key + 4 + length value ≡ length front = simp length-append (
      omega (
        arith,
        o,
        length-append_le 2 (u16 (length key)),
        length-append_le 4 (u32 (length value)),
      )) in
    let first = scan_entry_lem a key value (scan_body es) e o h.0.0 h.0.1 in
    let rest =
      scan_loop_lem {p = p} {off = off + 2 + length key + 4 + length value} front es
        (e ∙ simp append_assoc refl) next h.1 in
    rw (first, rest) refl

decode_scan_of_parts :
    (p : Bytes) (n : ℕ) (es : Entries)
    → ltb (length p) 2 ≡ false
    → read_at 2 0 p ≡ ok n
    → scan_loop n 2 p ≡ ok (es, length p)
    → decode_scan_result_payload p ≡ ok es
unfolding decode_scan_result_payload
decode_scan_of_parts p n es l r h = rw (l, r, h, ==_refl (length p)) refl

pub decode_scan_result_payload_lem :
    (es : Entries)
    → length es < 2 ^ 16
    → All FitsEntry es
    → decode_scan_result_payload (scan_payload es) ≡ ok es
decode_scan_result_payload_lem es h k =
    let p = scan_payload es in
    let x = append_le 2 (u16 (length es)) in
    let lx : length x ≡ 2 = length-append_le 2 (u16 (length es)) in
    let l : length p ≡ 2 + length (scan_body es) =
      length_of_parts 2 (u16 (length es)) (scan_body es) in
    let m : u16 (length es) ≡ length es = omega arith in
    decode_scan_of_parts p (u16 (length es)) es (ground (arith, l))
      (read_at_lem 2 [] (u16 (length es)) (scan_body es) refl refl (omega arith))
      (ap (λ n. scan_loop n 2 p) m ∙ scan_loop_lem x es refl (sym lx) k)
