-- ===== src/Text/Decimal.antt =====
-- Numbers in template literals: `${n}` for a natural number, least fuel and all.
use vault_vk.Common.{
  ℕ, zero, suc, ◌+◌, ◌-◌, ◌*◌, ◌/◌, ◌%◌, ◌≤◌, ◌<◌, ◌≡◌, ap, sym, ◌∙◌, List, [], ◌∷◌, arith, ◌==◌,
  if◌then◌else◌, All,
}

-- Digits are put in front, from the last; each round divides by ten.
digits_from : ℕ → ℕ → List ℕ → List ℕ
digits_from zero n out = out
digits_from (suc fuel) n out =
    let rest = digits_from fuel (n / 10) ((b'0' + n % 10) ∷ out) in
    if n / 10 == 0 then (b'0' + n % 10) ∷ out else rest

unfoldable pub show : ℕ → List ℕ
unfolding digits_from
show n = digits_from (suc n) n []

abbrev pub read_from : ℕ → List ℕ → ℕ
read_from n [] = n
read_from n (c ∷ s) = read_from (n * 10 + (c - b'0')) s

read_from-digits_from :
    (fuel n : ℕ) (out : List ℕ) → n < fuel → read_from 0 (digits_from fuel n out) ≡ read_from n out
unfolding digits_from
read_from-digits_from zero n out h = elim h [ ]
read_from-digits_from (suc fuel) n out h =
    let e : n / 10 * 10 + (b'0' + n % 10 - b'0') ≡ n = omega arith in
    ground (
      arith,
      read_from-digits_from fuel (n / 10) ((b'0' + n % 10) ∷ out),
      ap (λ k. read_from k out) e,
    )

-- The digits shown read back as the number, so the fuel is enough.
pub read_from-show : (n : ℕ) → read_from 0 (show n) ≡ n
unfolding show
read_from-show n = read_from-digits_from (suc n) n [] (omega arith)

pub show-injective : (m n : ℕ) → show m ≡ show n → m ≡ n
show-injective m n h = sym (read_from-show m) ∙ ap (read_from 0) h ∙ read_from-show n

abbrev pub IsDigit : ℕ → Type 0
IsDigit c = (b'0' ≤ c) × (c ≤ b'9')

digits_from-IsDigit :
    (fuel n : ℕ) (out : List ℕ) → All IsDigit out → All IsDigit (digits_from fuel n out)
unfolding digits_from
digits_from-IsDigit zero n out h = h
digits_from-IsDigit (suc fuel) n out h =
    ground (arith, digits_from-IsDigit fuel (n / 10) ((b'0' + n % 10) ∷ out))

pub show-IsDigit : (n : ℕ) → All IsDigit (show n)
unfolding show
show-IsDigit n = digits_from-IsDigit (suc n) n [] tt
