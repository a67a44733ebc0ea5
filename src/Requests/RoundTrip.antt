-- ===== src/Requests/RoundTrip.antt =====
-- Encoding and decoding of texts of 16-bit code units.
use vault_vk.Common.{
  ℕ, ◌+◌, ◌-◌, ◌*◌, ◌<◌, ◌≡◌, refl, ap, ap, ◌∙◌, inl, inr, true, false, ◌&&◌, ◌||◌, [], ◌∷◌, Option,
  none, some, arith, ◌==◌, if◌then◌else◌, All, Bool-cases, subst,
}
use vault_vk.Text.{Text}
use vault_vk.Requests.Encode.{
  is_alphanumeric, is_unreserved, escape, is_high, is_low, prefix, encode_unit,
  encode_uri_component,
}
use vault_vk.Requests.Decode.{
  bytes, emit, units_from, decoded, decode_uri_component, bytes-plain, units_1, decode-escape,
}

-- JavaScript's texts are made of 16-bit code units.
abbrev pub IsUnit : ℕ → Type 0
IsUnit c = c < 0x10000

-- Where there is a result, it decodes to the text.
abbrev Decodes : Text → Option Text → Type 0
Decodes s none = Unit
Decodes s (some r) = decoded r ≡ s

unreserved_is_plain : (c : ℕ) → is_unreserved c ≡ true → (c == b'%' ≡ false) × (c < 0x80)
unfolding is_unreserved is_alphanumeric
unreserved_is_plain c h = ground arith

prefix_unreserved :
    (c : ℕ) (s : Text) (o : Option Text)
    → is_unreserved c ≡ true
    → Decodes s o
    → Decodes (c ∷ s) (prefix (c ∷ []) o)
prefix_unreserved c s none h k = tt
prefix_unreserved c s (some r) h k =
    let (plain, low) = unreserved_is_plain c h in
    ap (units_from 0 0) (bytes-plain c r plain) ∙ units_1 c (bytes r) low ∙ ap (◌∷◌ c) k

prefix-escape :
    (p : ℕ) (s t : Text) (o : Option Text)
    → p < 0x110000
    → emit p s ≡ t
    → Decodes s o
    → Decodes t (prefix (escape p) o)
prefix-escape p s t none h e k = tt
prefix-escape p s t (some r) h e k = decode-escape p r h ∙ ap (emit p) k ∙ e

unit-Decodes :
    (c : ℕ) (s : Text) (o : Option Text)
    → IsUnit c
    → Decodes s o
    → Decodes (c ∷ s) (encode_unit c o)
unit-Decodes c s o h k = elim (Bool-cases (is_unreserved c)) [
  | inl e ↦ rw (e, if◌then◌else◌) (prefix_unreserved c s o e k)
  | inr e ↦ elim (Bool-cases (is_high c || is_low c)) [
    | inl e' ↦ rw (e, e', if◌then◌else◌) tt
    | inr e' ↦
        rw (e, e', if◌then◌else◌) (prefix-escape c s (c ∷ s) o (omega arith) (ground arith) k)
  ]
]

pair_emits :
    (c d : ℕ) (s : Text)
    → (is_high c && is_low d) ≡ true
    → (0x10000 + (c - 0xd800) * 1024 + (d - 0xdc00) < 0x110000)
      × (emit (0x10000 + (c - 0xd800) * 1024 + (d - 0xdc00)) s ≡ c ∷ d ∷ s)
pair_emits c d s h = ground arith

encode-Decodes : (s : Text) → All IsUnit s → Decodes s (encode_uri_component s)
unfolding encode_uri_component
encode-Decodes [] h = refl
encode-Decodes (c ∷ []) h = unit-Decodes c [] (some []) h.0 refl
encode-Decodes (c ∷ d ∷ s) h = elim (Bool-cases (is_high c && is_low d)) [
  | inl e ↦
      let (small, emits) = pair_emits c d s e in
      rw (e, if◌then◌else◌)
        (prefix-escape (0x10000 + (c - 0xd800) * 1024 + (d - 0xdc00)) s (c ∷ d ∷ s)
          (encode_uri_component s) small emits (encode-Decodes s h.1.1))
  | inr e ↦
      rw (e, if◌then◌else◌)
        (unit-Decodes c (d ∷ s) (encode_uri_component (d ∷ s)) h.0 (encode-Decodes (d ∷ s) h.1))
]

-- Decoding gives back what was encoded.
pub decode-encode :
    (s : Text) {r : Text}
    → All IsUnit s
    → encode_uri_component s ≡ some r
    → decode_uri_component r ≡ s
unfolding decode_uri_component
decode-encode s h e = subst (Decodes s) e (encode-Decodes s h)
