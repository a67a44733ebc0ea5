-- ===== src/Wire/Replies/InBounds.antt =====
-- Where the decoders of replies in src/protocol.cpp read in their payloads.
use vault_vk.Common.{ℕ, zero, suc, ◌<◌, All, [], ◌∷◌, ◌≢◌, refl, arith}
use vault_vk.Wire.Bytes.{
  Bytes, IsByte, range, read_le, Read, ok, refused, beyond, read_at, read_bytes, ◌>>=◌,
}
use vault_vk.Wire.Replies.{
  decode_ack_payload, decode_error_payload, decode_value_payload, scan_entry, scan_loop,
  decode_scan_result_payload,
}

pub decode_ack_payload-ne-beyond : (p : Bytes) → decode_ack_payload p ≢ beyond
unfolding decode_ack_payload read_at read_bytes
decode_ack_payload-ne-beyond p e = ground arith

pub decode_error_payload-ne-beyond : (p : Bytes) → decode_error_payload p ≢ beyond
unfolding decode_error_payload read_at read_bytes
decode_error_payload-ne-beyond p e = ground arith

read_le_bound : (w : ℕ) (bs : Bytes) → All IsByte bs → read_le w bs < range w
unfolding read_le
read_le_bound zero bs h = omega arith
read_le_bound (suc w) [] h = omega (arith, read_le_bound w [] tt)
read_le_bound (suc w) (b ∷ bs) h = omega (arith, h.0, read_le_bound w bs h.1)

-- Although `4 + len` can wrap, it then differs from every length of four or more.
pub decode_value_payload-ne-beyond : (p : Bytes) → All IsByte p → decode_value_payload p ≢ beyond
unfolding decode_value_payload read_at read_bytes
decode_value_payload-ne-beyond p h e = let l = read_le_bound 4 p h in ground (arith, l)

scan_entry-ne-beyond : (off : ℕ) (p : Bytes) → scan_entry off p ≢ beyond
unfolding scan_entry read_at read_bytes
scan_entry-ne-beyond off p e = ground arith

bind-ne-beyond :
    {A B : Type 0} (r : Read A) (f : A → Read B)
    → r ≢ beyond
    → ((a : A) → f a ≢ beyond)
    → (r >>= f) ≢ beyond
bind-ne-beyond (ok a) f h k = k a
bind-ne-beyond (refused err) f h k = λ e. ground arith
bind-ne-beyond beyond f h k = absurd (h refl)

scan_loop-ne-beyond : (n off : ℕ) (p : Bytes) → scan_loop n off p ≢ beyond
unfolding scan_loop
scan_loop-ne-beyond zero off p = λ e. ground arith
scan_loop-ne-beyond (suc n) off p =
    bind-ne-beyond (scan_entry off p) _ (scan_entry-ne-beyond off p) (λ x.
      bind-ne-beyond (scan_loop n x.1 p) _ (scan_loop-ne-beyond n x.1 p) (λ y e. ground arith))

pub decode_scan_result_payload-ne-beyond : (p : Bytes) → decode_scan_result_payload p ≢ beyond
unfolding decode_scan_result_payload read_at
decode_scan_result_payload-ne-beyond p e = ground (arith, scan_loop-ne-beyond (read_le 2 p) 2 p)
