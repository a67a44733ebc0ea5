-- ===== src/Requests/Encode.antt =====
-- `encodeURIComponent` of the standard library, over UTF-16 code units: none where it throws, on half
-- of a surrogate pair.
use vault_vk.Common.{
  ℕ, ◌+◌, ◌-◌, ◌*◌, ◌/◌, ◌%◌, ◌<◌, ◌≡◌, refl, ◌⊎◌, inl, inr, Bool, true, ◌&&◌, ◌||◌, [], ◌∷◌, ◌++◌,
  Option, none, some, arith, ltb, leb, ◌==◌, if◌then◌else◌, All, All-append, subst, Bool-cases,
}
use vault_vk.Text.{Text}

unfoldable pub is_alphanumeric : ℕ → Bool
is_alphanumeric c =
    (leb b'A' c && leb c b'Z') || (leb b'a' c && leb c b'z') || (leb b'0' c && leb c b'9')

-- The characters that stay as they are: letters, digits and `-_.!~*'()`.
unfoldable pub is_unreserved : ℕ → Bool
unfolding is_alphanumeric
is_unreserved c =
    is_alphanumeric c
    || c == b'-'
    || c == b'_'
    || c == b'.'
    || c == b'!'
    || c == b'~'
    || c == b'*'
    || (leb 39 c && leb c 41)

unfoldable pub hex_digit : ℕ → ℕ
hex_digit n = if ltb n 10 then b'0' + n else b'A' + (n - 10)

-- One byte as `%XX`.
unfoldable pub percent : ℕ → Text
unfolding hex_digit
percent byte = b'%' ∷ hex_digit (byte / 16 % 16) ∷ hex_digit (byte % 16) ∷ []

-- A code point in UTF-8, each byte escaped.
unfoldable pub escape : ℕ → Text
unfolding percent
escape p =
    if ltb p 0x80
    then percent p
    else if ltb p 0x800
    then percent (0xc0 + p / 64) ++ percent (0x80 + p % 64)
    else if ltb p 0x10000
    then percent (0xe0 + p / 4096) ++ percent (0x80 + p / 64 % 64) ++ percent (0x80 + p % 64)
    else percent (0xf0 + p / 262144)
      ++ percent (0x80 + p / 4096 % 64)
      ++ percent (0x80 + p / 64 % 64)
      ++ percent (0x80 + p % 64)

abbrev pub is_high : ℕ → Bool
is_high c = leb 0xd800 c && leb c 0xdbff

abbrev pub is_low : ℕ → Bool
is_low c = leb 0xdc00 c && leb c 0xdfff

abbrev pub prefix : Text → Option Text → Option Text
prefix t none = none
prefix t (some s) = some (t ++ s)

-- A unit that is no half of a pair.
abbrev pub encode_unit : ℕ → Option Text → Option Text
encode_unit c rest =
    if is_unreserved c
    then prefix (c ∷ []) rest
    else if is_high c || is_low c
    then none
    else prefix (escape c) rest

unfoldable pub encode_uri_component : Text → Option Text
unfolding is_unreserved escape
encode_uri_component [] = some []
encode_uri_component (c ∷ []) = encode_unit c (some [])
encode_uri_component (c ∷ d ∷ s) =
    let after_pair =
      prefix (escape (0x10000 + (c - 0xd800) * 1024 + (d - 0xdc00))) (encode_uri_component s) in
    let after_unit = encode_unit c (encode_uri_component (d ∷ s)) in
    if is_high c && is_low d then after_pair else after_unit

-- What an encoded text is made of; in particular no slash, question mark, ampersand, hash or equals.
abbrev pub IsEncoded : ℕ → Type 0
IsEncoded c = (is_unreserved c ≡ true) ⊎ (c ≡ b'%')

hex_digit-IsEncoded : (n : ℕ) → n < 16 → IsEncoded (hex_digit n)
unfolding hex_digit is_unreserved
hex_digit-IsEncoded n h = ground arith

percent-IsEncoded : (byte : ℕ) → All IsEncoded (percent byte)
unfolding percent
percent-IsEncoded byte = (
  inr refl,
  (
    hex_digit-IsEncoded (byte / 16 % 16) (omega arith),
    (hex_digit-IsEncoded (byte % 16) (omega arith), tt),
  ),
)

both : (byte : ℕ) (rest : Text) → All IsEncoded rest → All IsEncoded (percent byte ++ rest)
both byte rest h = All-append IsEncoded (percent byte) rest (percent-IsEncoded byte) h

escape-IsEncoded : (p : ℕ) → All IsEncoded (escape p)
unfolding escape
escape-IsEncoded p =
    let last = percent (0x80 + p % 64) in
    let third = percent (0x80 + p / 64 % 64) ++ last in
    let second = percent (0x80 + p / 4096 % 64) ++ third in
    let is_last = percent-IsEncoded (0x80 + p % 64) in
    let is_third = both (0x80 + p / 64 % 64) last is_last in
    elim (Bool-cases (ltb p 0x80)) [
      | inl e ↦ rw (e, if◌then◌else◌) (percent-IsEncoded p)
      | inr e ↦
          rw (e, if◌then◌else◌)
            (elim (Bool-cases (ltb p 0x800)) [
              | inl e' ↦ rw (e', if◌then◌else◌) (both (0xc0 + p / 64) last is_last)
              | inr e' ↦
                  rw (e', if◌then◌else◌)
                    (elim (Bool-cases (ltb p 0x10000)) [
                      | inl e'' ↦ rw (e'', if◌then◌else◌) (both (0xe0 + p / 4096) third is_third)
                      | inr e'' ↦
                          rw (e'', if◌then◌else◌)
                            (both (0xf0 + p / 262144) second
                              (both (0x80 + p / 4096 % 64) third is_third))
                    ])
            ])
    ]

-- Where there is a result, it is encoded.
abbrev WhenEncoded : Option Text → Type 0
WhenEncoded none = Unit
WhenEncoded (some t) = All IsEncoded t

prefix-WhenEncoded :
    (t : Text) (o : Option Text) → All IsEncoded t → WhenEncoded o → WhenEncoded (prefix t o)
prefix-WhenEncoded t none h k = tt
prefix-WhenEncoded t (some s) h k = All-append IsEncoded t s h k

encode_unit-WhenEncoded : (c : ℕ) (o : Option Text) → WhenEncoded o → WhenEncoded (encode_unit c o)
encode_unit-WhenEncoded c o k = elim (Bool-cases (is_unreserved c)) [
  | inl e ↦ rw (e, if◌then◌else◌) (prefix-WhenEncoded (c ∷ []) o (inl e, tt) k)
  | inr e ↦
      rw (e, if◌then◌else◌) (ground (arith, prefix-WhenEncoded (escape c) o (escape-IsEncoded c) k))
]

encode-WhenEncoded : (s : Text) → WhenEncoded (encode_uri_component s)
unfolding encode_uri_component
encode-WhenEncoded [] = tt
encode-WhenEncoded (c ∷ []) = encode_unit-WhenEncoded c (some []) tt
encode-WhenEncoded (c ∷ d ∷ s) =
    let pair = escape (0x10000 + (c - 0xd800) * 1024 + (d - 0xdc00)) in
    elim (Bool-cases (is_high c && is_low d)) [
      | inl e ↦
          rw (e, if◌then◌else◌)
            (prefix-WhenEncoded pair (encode_uri_component s)
              (escape-IsEncoded (0x10000 + (c - 0xd800) * 1024 + (d - 0xdc00)))
              (encode-WhenEncoded s))
      | inr e ↦
          rw (e, if◌then◌else◌)
            (encode_unit-WhenEncoded c (encode_uri_component (d ∷ s)) (encode-WhenEncoded (d ∷ s)))
    ]

-- An encoded text consists of unreserved characters and percent signs.
pub encode_uri_component-IsEncoded :
    (s : Text) {r : Text} → encode_uri_component s ≡ some r → All IsEncoded r
encode_uri_component-IsEncoded s e = subst WhenEncoded e (encode-WhenEncoded s)
