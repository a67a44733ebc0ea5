-- ===== src/Requests/Decode.antt =====
-- An inverse of `encodeURIComponent`: percent signs to bytes, and UTF-8 to code units.
use vault_vk.Common.{
  ℕ, zero, suc, ◌+◌, ◌-◌, ◌≤◌, ◌*◌, ◌/◌, ◌%◌, ◌<◌, ◌≡◌, refl, ap, ap, ◌∙◌, inl, inr, false, [], ◌∷◌,
  ◌++◌, List, arith, ltb, ◌==◌, if◌then◌else◌, Bool-cases,
}
use vault_vk.Text.{Text}
use vault_vk.Requests.Encode.{hex_digit, percent, escape}

abbrev unhex : ℕ → ℕ
unhex c = if ltb c b'A' then c - b'0' else c - b'A' + 10

-- The bytes of an encoded text.
abbrev pub bytes : Text → List ℕ
bytes [] = []
bytes (c ∷ []) = c ∷ []
bytes (c ∷ h ∷ []) = c ∷ h ∷ []
bytes (c ∷ h ∷ l ∷ s) =
    let after_escape = bytes s in
    let after_plain = bytes (h ∷ l ∷ s) in
    if c == b'%' then (unhex h * 16 + unhex l) ∷ after_escape else c ∷ after_plain

-- A code point as code units.
abbrev pub emit : ℕ → Text → Text
emit p s =
    if ltb p 0x10000
    then p ∷ s
    else (0xd800 + (p - 0x10000) / 1024) ∷ (0xdc00 + (p - 0x10000) % 1024) ∷ s

-- The code units of bytes, with the number of bytes that the code point still waits for, and what it
-- has so far.
abbrev pub units_from : ℕ → ℕ → List ℕ → Text
units_from n p [] = []
units_from zero p (b ∷ bs) =
    let alone = units_from 0 0 bs in
    let one = units_from 1 (b - 0xc0) bs in
    let two = units_from 2 (b - 0xe0) bs in
    let three = units_from 3 (b - 0xf0) bs in
    if ltb b 0x80 then b ∷ alone else if ltb b 0xe0 then one else if ltb b 0xf0 then two else three
units_from (suc zero) p (b ∷ bs) = emit (p * 64 + (b - 0x80)) (units_from 0 0 bs)
units_from (suc (suc n)) p (b ∷ bs) = units_from (suc n) (p * 64 + (b - 0x80)) bs

unfoldable pub decode_uri_component : Text → Text
decode_uri_component s = units_from 0 0 (bytes s)

unhex-hex_digit : (n : ℕ) → n < 16 → unhex (hex_digit n) ≡ n
unfolding hex_digit
unhex-hex_digit n h = ground arith

bytes-percent : (b : ℕ) (s : Text) → b < 256 → bytes (percent b ++ s) ≡ b ∷ bytes s
unfolding percent
bytes-percent b s h =
    let e : unhex (hex_digit (b / 16 % 16)) * 16 + unhex (hex_digit (b % 16)) ≡ b = omega (
      arith,
      unhex-hex_digit (b / 16 % 16) (omega arith),
      unhex-hex_digit (b % 16) (omega arith),
    ) in
    ap (λ x. x ∷ bytes s) e

pub bytes-plain : (c : ℕ) (s : Text) → c == b'%' ≡ false → bytes (c ∷ s) ≡ c ∷ bytes s
bytes-plain c [] h = refl
bytes-plain c (d ∷ []) h = refl
bytes-plain c (d ∷ e ∷ s) h = rw (h, if◌then◌else◌) refl

bytes_2 :
    (a b : ℕ) (s : Text) → a < 256 → b < 256 → bytes (percent a ++ percent b ++ s) ≡ a ∷ b ∷ bytes s
unfolding percent
bytes_2 a b s h k = bytes-percent a (percent b ++ s) h ∙ ap (◌∷◌ a) (bytes-percent b s k)

bytes_3 :
    (a b c : ℕ) (s : Text)
    → a < 256
    → b < 256
    → c < 256
    → bytes (percent a ++ percent b ++ percent c ++ s) ≡ a ∷ b ∷ c ∷ bytes s
unfolding percent
bytes_3 a b c s h k l =
    bytes-percent a (percent b ++ percent c ++ s) h ∙ ap (◌∷◌ a) (bytes_2 b c s k l)

bytes_4 :
    (a b c d : ℕ) (s : Text)
    → a < 256
    → b < 256
    → c < 256
    → d < 256
    → bytes (percent a ++ percent b ++ percent c ++ percent d ++ s) ≡ a ∷ b ∷ c ∷ d ∷ bytes s
unfolding percent
bytes_4 a b c d s h k l m =
    bytes-percent a (percent b ++ percent c ++ percent d ++ s) h
    ∙ ap (◌∷◌ a) (bytes_3 b c d s k l m)

pub units_1 : (p : ℕ) (bs : List ℕ) → p < 0x80 → units_from 0 0 (p ∷ bs) ≡ p ∷ units_from 0 0 bs
units_1 p bs h = ground arith

units_2 :
    (p : ℕ) (bs : List ℕ)
    → 0x80 ≤ p
    → p < 0x800
    → units_from 0 0 ((0xc0 + p / 64) ∷ (0x80 + p % 64) ∷ bs) ≡ p ∷ units_from 0 0 bs
units_2 p bs l h = ground arith

units_3 :
    (p : ℕ) (bs : List ℕ)
    → 0x800 ≤ p
    → p < 0x10000
    → units_from 0 0 ((0xe0 + p / 4096) ∷ (0x80 + p / 64 % 64) ∷ (0x80 + p % 64) ∷ bs)
      ≡ p ∷ units_from 0 0 bs
units_3 p bs l h = ground arith

units_4 :
    (p : ℕ) (bs : List ℕ)
    → 0x10000 ≤ p
    → p < 0x110000
    → units_from 0 0
        ((0xf0 + p / 262144) ∷ (0x80 + p / 4096 % 64) ∷ (0x80 + p / 64 % 64) ∷ (0x80 + p % 64) ∷ bs)
      ≡ emit p (units_from 0 0 bs)
units_4 p bs l h = ground arith

abbrev pub decoded : Text → Text
decoded s = units_from 0 0 (bytes s)

pub decode-escape : (p : ℕ) (s : Text) → p < 0x110000 → decoded (escape p ++ s) ≡ emit p (decoded s)
unfolding escape
decode-escape p s h = elim (Bool-cases (ltb p 0x80)) [
  | inl e ↦
      rw (e, if◌then◌else◌)
        (ap (units_from 0 0) (bytes-percent p s (ground arith))
          ∙ units_1 p (bytes s) (ground arith)
          ∙ ground arith)
  | inr e ↦ elim (Bool-cases (ltb p 0x800)) [
    | inl e' ↦
        rw (e, e', if◌then◌else◌)
          (ap (units_from 0 0)
              (bytes_2 (0xc0 + p / 64) (0x80 + p % 64) s (ground arith) (omega arith))
            ∙ units_2 p (bytes s) (ground arith) (ground arith)
            ∙ ground arith)
    | inr e' ↦ elim (Bool-cases (ltb p 0x10000)) [
      | inl e'' ↦
          rw (e, e', e'', if◌then◌else◌)
            (ap (units_from 0 0) (
                bytes_3 (0xe0 + p / 4096) (0x80 + p / 64 % 64) (0x80 + p % 64) s (ground arith)
                  (omega arith) (omega arith))
              ∙ units_3 p (bytes s) (ground arith) (ground arith)
              ∙ ground arith)
      | inr e'' ↦
          rw (e, e', e'', if◌then◌else◌)
            (ap (units_from 0 0) (
                bytes_4 (0xf0 + p / 262144) (0x80 + p / 4096 % 64) (0x80 + p / 64 % 64)
                  (0x80 + p % 64) s (omega arith) (omega arith) (omega arith) (omega arith))
              ∙ units_4 p (bytes s) (ground arith) h
              ∙ ground arith)
    ]
  ]
]
