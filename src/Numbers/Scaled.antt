-- ===== src/Numbers/Scaled.antt =====
-- An instance of the interface: signed numbers in thousandths, rounded towards zero. It shows that
-- the laws can hold, and runs the examples.
use vault_vk.Common.{
  ℕ, zero, suc, ap, ◌+◌, ◌-◌, ◌*◌, ◌/◌, ◌≤◌, ◌≡◌, refl, Bool, arith, leb, if◌then◌else◌,
}
use vault_vk.Numbers.Defs.{Arith, Laws}

-- `negsuc n` is -(n + 1).
pub data ℤ : Type 0 where
  pos : ℕ → ℤ
  negsuc : ℕ → ℤ

abbrev pos_part : ℤ → ℕ
pos_part (pos n) = n
pos_part (negsuc n) = 0

abbrev neg_part : ℤ → ℕ
neg_part (pos n) = 0
neg_part (negsuc n) = suc n

abbrev sub_ℕ : ℕ → ℕ → ℤ
sub_ℕ a b = if leb b a then pos (a - b) else negsuc (b - a - 1)

infix 50 ◌≤ℤ◌
abbrev ◌≤ℤ◌ : ℤ → ℤ → Type 0
a ≤ℤ b = pos_part a + neg_part b ≤ pos_part b + neg_part a

abbrev leb_ℤ : ℤ → ℤ → Bool
leb_ℤ a b = leb (pos_part a + neg_part b) (pos_part b + neg_part a)

-- The magnitude changed by a function, the sign kept.
abbrev on_magnitude : (ℕ → ℕ) → ℤ → ℤ
on_magnitude f (pos n) = pos (f n)
on_magnitude f (negsuc n) = sub_ℕ 0 (f (suc n))

abbrev tenth : ℕ → ℕ
tenth n = n / 10

abbrev scaled_dec : ℕ → ℕ → ℕ
scaled_dec m zero = m * 1000
scaled_dec m (suc k) = tenth (scaled_dec m k)

abbrev pub scaled : Arith
scaled = record {
  Num = ℤ;
  nat = λ n. pos (n * 1000);
  dec = λ m k. pos (scaled_dec m k);
  add = λ a b. sub_ℕ (pos_part a + pos_part b) (neg_part a + neg_part b);
  sub = λ a b. sub_ℕ (pos_part a + neg_part b) (neg_part a + pos_part b);
  mul = λ a b. on_magnitude (λ n. n * pos_part b / 1000) a;
  div = λ a b. on_magnitude (λ n. n * 1000 / pos_part b) a;
  max_of = λ a b. if leb_ℤ a b then b else a;
  round = λ a. on_magnitude (λ n. (n + 500) / 1000 * 1000) a;
  le = ◌≤ℤ◌;
}

scaled_dec_mono : (m m' k : ℕ) → m ≤ m' → scaled_dec m k ≤ scaled_dec m' k
scaled_dec_mono m m' zero h = omega arith
scaled_dec_mono m m' (suc k) h = omega (arith, scaled_dec_mono m m' k h)

div_mono : (a b n : ℕ) → a ≤ b → n * a / 1000 ≤ n * b / 1000
div_mono a b n h = let e : n * a ≤ n * b = grind arith in omega arith

mul_mono : (x : ℤ) (a b : ℕ) → pos 0 ≤ℤ x → a ≤ b → scaled.mul x (pos a) ≤ℤ scaled.mul x (pos b)
mul_mono (pos n) a b h k = omega (arith, div_mono a b n k)
mul_mono (negsuc n) a b h k = absurd (omega arith)

max_of_ge : (x y : ℤ) → y ≤ℤ x → scaled.max_of x y ≡ x
max_of_ge (pos m) (pos n) h = ground arith
max_of_ge (pos m) (negsuc n) h = ground arith
max_of_ge (negsuc m) (pos n) h = absurd (omega arith)
max_of_ge (negsuc m) (negsuc n) h = ground arith

on_magnitude_nonneg : (f : ℕ → ℕ) (x : ℤ) → pos 0 ≤ℤ x → pos 0 ≤ℤ on_magnitude f x
on_magnitude_nonneg f (pos n) h = omega arith
on_magnitude_nonneg f (negsuc n) h = absurd (omega arith)

sub_ℕ_nonpos : (n : ℕ) → sub_ℕ 0 n ≤ℤ pos 0
sub_ℕ_nonpos n = ground arith

on_magnitude_nonpos : (f : ℕ → ℕ) (x : ℤ) → f 0 ≡ 0 → x ≤ℤ pos 0 → on_magnitude f x ≤ℤ pos 0
on_magnitude_nonpos f (pos zero) e h = omega arith
on_magnitude_nonpos f (pos (suc n)) e h = absurd (omega arith)
on_magnitude_nonpos f (negsuc n) e h = sub_ℕ_nonpos (f (suc n))

zero_div : (n : ℕ) → 0 / n ≡ 0
zero_div n = grind arith

pub scaled-Laws : Laws scaled
scaled-Laws = record {
  nat_mono = λ a b h. omega arith;
  dec_mono = λ m m' k h. omega (arith, scaled_dec_mono m m' k h);
  sub_nonneg = λ a b h. ground arith;
  sub_nonpos = λ a b h. ground arith;
  max_of_le = λ x y h. ground arith;
  max_of_ge = max_of_ge;
  le_max_left = λ x y h k. ground arith;
  max_mono = λ x x' y y' h k. ground arith;
  mul_mono =
      λ b m m' h p e q. mul_mono b (scaled_dec m 2) (scaled_dec m' 2) h (scaled_dec_mono m m' 2 e);
  div_nonneg = λ a b dt h k. on_magnitude_nonneg (λ n. n * 1000 / pos_part dt) _ k;
  div_nonpos =
      λ a b dt h k. on_magnitude_nonpos (λ n. n * 1000 / pos_part dt) _ (zero_div (pos_part dt)) k;
  zero_div = λ dt h. ap pos (zero_div (pos_part dt));
  round_nonneg = λ x h. on_magnitude_nonneg (λ n. (n + 500) / 1000 * 1000) x h;
  round_nonpos = λ x h. on_magnitude_nonpos (λ n. (n + 500) / 1000 * 1000) x refl h;
  round_zero = refl;
}
