-- ===== src/Numbers/Defs.antt =====
-- The interface of the numbers that are not whole, and its laws.
use vault_vk.Common.{ℕ, ◌≤◌, ◌≡◌}

pub record Arith : Type 1 where
  pub Num : Type 0
  pub nat : ℕ → Num
  -- `dec m k` is the literal for m / 10^k.
  pub dec : ℕ → ℕ → Num
  pub add : Num → Num → Num
  pub sub : Num → Num → Num
  pub mul : Num → Num → Num
  pub div : Num → Num → Num
  -- `Math.max` of two and `Math.round`
  pub max_of : Num → Num → Num
  pub round : Num → Num
  pub le : Num → Num → Type 0

pub record Laws (F : Arith) : Type 0 where
  pub nat_mono : (a b : ℕ) → a ≤ b → F.le (F.nat a) (F.nat b)
  pub dec_mono : (m m' k : ℕ) → m ≤ m' → F.le (F.dec m k) (F.dec m' k)
  pub sub_nonneg : (a b : ℕ) → b ≤ a → F.le (F.nat 0) (F.sub (F.nat a) (F.nat b))
  pub sub_nonpos : (a b : ℕ) → a ≤ b → F.le (F.sub (F.nat a) (F.nat b)) (F.nat 0)
  pub max_of_le : (x y : F.Num) → F.le x y → F.max_of x y ≡ y
  pub max_of_ge : (x y : F.Num) → F.le y x → F.max_of x y ≡ x
  pub le_max_left : (x y : F.Num) → F.le x x → F.le y y → F.le x (F.max_of x y)
  pub max_mono : (x x' y y' : F.Num) → F.le x x' → F.le y y' → F.le (F.max_of x y) (F.max_of x' y')
  -- Factors from 0.01 to 10, so that the product of an infinite number is infinite too.
  pub mul_mono :
      (b : F.Num) (m m' : ℕ)
      → F.le (F.nat 0) b
      → 1 ≤ m
      → m ≤ m'
      → m' ≤ 1000
      → F.le (F.mul b (F.dec m 2)) (F.mul b (F.dec m' 2))
  -- A quotient of two counters' difference by a time of at least a thousandth of a second.
  pub div_nonneg :
      (a b : ℕ) (dt : F.Num)
      → F.le (F.dec 1 3) dt
      → F.le (F.nat 0) (F.sub (F.nat a) (F.nat b))
      → F.le (F.nat 0) (F.div (F.sub (F.nat a) (F.nat b)) dt)
  pub div_nonpos :
      (a b : ℕ) (dt : F.Num)
      → F.le (F.dec 1 3) dt
      → F.le (F.sub (F.nat a) (F.nat b)) (F.nat 0)
      → F.le (F.div (F.sub (F.nat a) (F.nat b)) dt) (F.nat 0)
  pub zero_div : (dt : F.Num) → F.le (F.dec 1 3) dt → F.div (F.nat 0) dt ≡ F.nat 0
  pub round_nonneg : (x : F.Num) → F.le (F.nat 0) x → F.le (F.nat 0) (F.round x)
  pub round_nonpos : (x : F.Num) → F.le x (F.nat 0) → F.le (F.round x) (F.nat 0)
  pub round_zero : F.round (F.nat 0) ≡ F.nat 0
