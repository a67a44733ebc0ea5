-- ===== src/Common/Window.antt =====
-- Bounded histories: `xs.slice(-n)` keeps the newest at the end, `[x, ...xs].slice(0, n)` at the
-- front.
use Prim.Native.Nat.{ℕ, zero, suc, ◌+◌, ◌-◌, ◌≤◌}
use mathlib.Core.Path.{◌≡◌, refl, sym, ap, ◌∙◌}
use mathlib.Core.List.{List, [], ◌∷◌, ◌++◌}
use native.Mathlib.Omega.{arith}
use vault_vk.Common.Lists.{length, take, drop, length-append, length-drop}

suc_add : (n m : ℕ) → suc (n + m) ≡ suc n + m
suc_add n m = omega arith

module _ {ℓ} {A : Type ℓ} where
  -- `xs.slice(-n)` for a positive n.
  abbrev pub slice_last : ℕ → List A → List A
  slice_last n xs = drop (length xs - n) xs

  pub drop-append : (n : ℕ) (xs ys : List A) → n ≤ length xs → drop n (xs ++ ys) ≡ drop n xs ++ ys
  drop-append zero xs ys h = refl
  drop-append (suc n) [] ys h = absurd (omega arith)
  drop-append (suc n) (x ∷ xs) ys h = drop-append n xs ys (omega arith)

  drop-nil : (n : ℕ) → drop {A = A} n [] ≡ []
  drop-nil zero = refl
  drop-nil (suc n) = refl

  drop-drop : (m n : ℕ) (xs : List A) → drop m (drop n xs) ≡ drop (n + m) xs
  drop-drop m zero xs = ground arith
  drop-drop m (suc n) [] = rw (drop-nil m, drop-nil (suc n + m))
  drop-drop m (suc n) (x ∷ xs) = drop-drop m n xs ∙ ap (λ k. drop k (x ∷ xs)) (suc_add n m)

  -- Cutting to one more first makes no difference.
  slice_last-slice_last :
      (n : ℕ) (xs : List A) → slice_last n (slice_last (n + 1) xs) ≡ slice_last n xs
  slice_last-slice_last n xs =
      drop-drop (length (slice_last (n + 1) xs) - n) (length xs - (n + 1)) xs
      ∙ ap (λ k. drop k xs) (omega (arith, length-drop (length xs - (n + 1)) xs))

  -- `[...xs.slice(-n), a]` is the newest n + 1 of the longer list.
  pub slice_last-concat :
      (n : ℕ) (xs : List A) (a : A) → slice_last n xs ++ a ∷ [] ≡ slice_last (n + 1) (xs ++ a ∷ [])
  slice_last-concat n xs a =
      sym (drop-append (length xs - n) xs (a ∷ []) (omega arith))
      ∙ ap (λ k. drop k (xs ++ a ∷ [])) (omega (arith, length-append xs (a ∷ [])))

  -- So a window that holds the newest n + 1 of what was pushed goes on to do so.
  pub push-slice_last :
      (n : ℕ) (xs : List A) (a : A)
      → slice_last n (slice_last (n + 1) xs) ++ a ∷ [] ≡ slice_last (n + 1) (xs ++ a ∷ [])
  push-slice_last n xs a =
      ap (λ ys. ys ++ a ∷ []) (slice_last-slice_last n xs) ∙ slice_last-concat n xs a

  pub length-slice_last-le : (n : ℕ) (xs : List A) → length (slice_last n xs) ≤ n
  length-slice_last-le n xs = omega (arith, length-drop (length xs - n) xs)

  pub slice_last_of_le : (n : ℕ) (xs : List A) → length xs ≤ n → slice_last n xs ≡ xs
  slice_last_of_le n xs h = let e : length xs - n ≡ 0 = omega arith in ap (λ k. drop k xs) e

  pub take-take-suc : (n : ℕ) (xs : List A) → take n (take (suc n) xs) ≡ take n xs
  take-take-suc zero xs = refl
  take-take-suc (suc n) [] = refl
  take-take-suc (suc n) (x ∷ xs) = ap (◌∷◌ x) (take-take-suc n xs)

  pub take-take : (n : ℕ) (xs : List A) → take n (take n xs) ≡ take n xs
  take-take zero xs = refl
  take-take (suc n) [] = refl
  take-take (suc n) (x ∷ xs) = ap (◌∷◌ x) (take-take n xs)

  -- A window that holds the newest n + 1 of a log, newest first, goes on to do so.
  pub push_front :
      (n : ℕ) (x : A) (items log : List A)
      → items ≡ take (suc n) log
      → x ∷ take n items ≡ take (suc n) (x ∷ log)
  push_front n x items log h = ap (◌∷◌ x) (ap (take n) h ∙ take-take-suc n log)
