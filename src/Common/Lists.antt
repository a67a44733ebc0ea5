-- ===== src/Common/Lists.antt =====
-- Lists measured and indexed by native numbers, with tests into Bool as the program's callbacks.
use mathlib.Core.Option.{some-injective}
use Prim.Native.Nat.{ℕ, zero, suc, ◌+◌, ◌-◌, ◌≤◌, ◌<◌, min}
use mathlib.Core.Path.{◌≡◌, refl, ap, subst}
use mathlib.Core.Logic.{inl, inr}
use mathlib.Core.Bool.{Bool, false, ◌||◌}
use mathlib.Core.List.{List, [], ◌∷◌, ◌++◌, map}
use mathlib.Core.Option.{Option, none, some}
use native.Mathlib.Omega.{arith}
use vault_vk.Common.Tests.{Bool-cases, ==_iff, ◌==◌, if◌then◌else◌}

module _ {ℓ} {A : Type ℓ} where
  abbrev pub length : List A → ℕ
  length [] = 0
  length (x ∷ xs) = suc (length xs)

  abbrev pub get_elem? : List A → ℕ → Option A
  get_elem? [] i = none
  get_elem? (x ∷ xs) zero = some x
  get_elem? (x ∷ xs) (suc i) = get_elem? xs i

  abbrev pub take : ℕ → List A → List A
  take zero xs = []
  take (suc n) [] = []
  take (suc n) (x ∷ xs) = x ∷ take n xs

  abbrev pub drop : ℕ → List A → List A
  drop zero xs = xs
  drop (suc n) [] = []
  drop (suc n) (x ∷ xs) = drop n xs

  abbrev pub remove_at : ℕ → List A → List A
  remove_at n [] = []
  remove_at zero (x ∷ xs) = xs
  remove_at (suc n) (x ∷ xs) = x ∷ remove_at n xs

  -- `xs.filter(p)`, `xs.find(p)`, `xs.some(p)`
  abbrev pub filter : (A → Bool) → List A → List A
  filter p [] = []
  filter p (x ∷ xs) = if p x then x ∷ filter p xs else filter p xs

  abbrev pub find? : (A → Bool) → List A → Option A
  find? p [] = none
  find? p (x ∷ xs) = if p x then some x else find? p xs

  pub length-append : (xs ys : List A) → length (xs ++ ys) ≡ length xs + length ys
  length-append [] ys = omega arith
  length-append (x ∷ xs) ys = omega (arith, length-append xs ys)

  pub length-take-le : (n : ℕ) (xs : List A) → length (take n xs) ≤ n
  length-take-le zero xs = omega arith
  length-take-le (suc n) [] = omega arith
  length-take-le (suc n) (x ∷ xs) = omega (arith, length-take-le n xs)

  pub length-take : (n : ℕ) (xs : List A) → length (take n xs) ≡ min n (length xs)
  length-take zero xs = omega arith
  length-take (suc n) [] = omega arith
  length-take (suc n) (x ∷ xs) = omega (arith, length-take n xs)

  pub length-drop : (n : ℕ) (xs : List A) → length (drop n xs) ≡ length xs - n
  length-drop zero xs = omega arith
  length-drop (suc n) [] = omega arith
  length-drop (suc n) (x ∷ xs) = omega (arith, length-drop n xs)

  pub get_elem?_of_lt : (xs : List A) (i : ℕ) → i < length xs → (a : A) × (get_elem? xs i ≡ some a)
  get_elem?_of_lt [] i h = elim h [ ]
  get_elem?_of_lt (x ∷ xs) zero h = (x, refl)
  get_elem?_of_lt (x ∷ xs) (suc i) h = get_elem?_of_lt xs i (omega arith)

  pub length-remove_at :
      (n : ℕ) (xs : List A) {a : A}
      → get_elem? xs n ≡ some a
      → suc (length (remove_at n xs)) ≡ length xs
  length-remove_at n [] e = ground arith
  length-remove_at zero (x ∷ xs) e = refl
  length-remove_at (suc n) (x ∷ xs) e = ap suc (length-remove_at n xs e)

  pub length-filter-le : (p : A → Bool) (xs : List A) → length (filter p xs) ≤ length xs
  length-filter-le p [] = omega arith
  length-filter-le p (x ∷ xs) = ground (arith, length-filter-le p xs)

  pub filter-filter : (p : A → Bool) (xs : List A) → filter p (filter p xs) ≡ filter p xs
  filter-filter p [] = refl
  filter-filter p (x ∷ xs) = ground (arith, filter-filter p xs)

module _ {ℓ κ} {A : Type ℓ} {B : Type κ} where
  pub map-take : (f : A → B) (n : ℕ) (xs : List A) → map f (take n xs) ≡ take n (map f xs)
  map-take f zero xs = refl
  map-take f (suc n) [] = refl
  map-take f (suc n) (x ∷ xs) = ap (◌∷◌ (f x)) (map-take f n xs)

  pub length-map : (f : A → B) (xs : List A) → length (map f xs) ≡ length xs
  length-map f [] = refl
  length-map f (x ∷ xs) = ap suc (length-map f xs)

-- A predicate by recursion, which the tactics read and build.
module _ {ℓ κ} {A : Type ℓ} (P : A → Type κ) where
  abbrev pub All : List A → Type κ
  All [] = Unit
  All (x ∷ xs) = P x × All xs

  pub All-append : (xs ys : List A) → All xs → All ys → All (xs ++ ys)
  All-append [] ys h k = k
  All-append (x ∷ xs) ys h k = (h.0, All-append xs ys h.1 k)

  pub All-take : (n : ℕ) (xs : List A) → All xs → All (take n xs)
  All-take zero xs h = tt
  All-take (suc n) [] h = tt
  All-take (suc n) (x ∷ xs) h = (h.0, All-take n xs h.1)

  pub All-drop : (n : ℕ) (xs : List A) → All xs → All (drop n xs)
  All-drop zero xs h = h
  All-drop (suc n) [] h = tt
  All-drop (suc n) (x ∷ xs) h = All-drop n xs h.1

  pub All-remove_at : (n : ℕ) (xs : List A) → All xs → All (remove_at n xs)
  All-remove_at n [] h = tt
  All-remove_at zero (x ∷ xs) h = h.1
  All-remove_at (suc n) (x ∷ xs) h = (h.0, All-remove_at n xs h.1)

  pub All-get_elem? : (n : ℕ) (xs : List A) {a : A} → All xs → get_elem? xs n ≡ some a → P a
  All-get_elem? n [] h e = cc
  All-get_elem? zero (x ∷ xs) {a} h e = subst P (some-injective x a e) h.0
  All-get_elem? (suc n) (x ∷ xs) h e = All-get_elem? n xs h.1 e

-- Lists of numbers: `ids.includes(id)`, and lists with no repetition.
abbrev pub includes : List ℕ → ℕ → Bool
includes [] a = false
includes (x ∷ xs) a = x == a || includes xs a

abbrev pub Distinct : List ℕ → Type 0
Distinct [] = Unit
Distinct (x ∷ xs) = (includes xs x ≡ false) × Distinct xs

pub includes-append :
    (xs ys : List ℕ) (a : ℕ) → includes (xs ++ ys) a ≡ (includes xs a || includes ys a)
includes-append [] ys a = refl
includes-append (x ∷ xs) ys a = ground (arith, includes-append xs ys a)

pub Distinct-concat :
    (xs : List ℕ) (a : ℕ) → Distinct xs → includes xs a ≡ false → Distinct (xs ++ a ∷ [])
Distinct-concat [] a d h = (refl, tt)
Distinct-concat (x ∷ xs) a d h =
    (ground (arith, includes-append xs (a ∷ []) x), Distinct-concat xs a d.1 (ground arith))

-- `ids.includes(id) ? ids : [...ids, id]`
abbrev pub with_id : ℕ → List ℕ → List ℕ
with_id id forced = if includes forced id then forced else forced ++ id ∷ []

pub includes-with_id :
    (id : ℕ) (forced : List ℕ) (a : ℕ)
    → includes (with_id id forced) a ≡ (includes forced a || id == a)
includes-with_id id forced a = elim (Bool-cases (includes forced id)) [
  | inl e ↦ rw (e, if◌then◌else◌) (ground (arith, ==_iff id a))
  | inr e ↦ rw (e, if◌then◌else◌) (ground (arith, includes-append forced (id ∷ []) a))
]

pub with_id-Distinct : (id : ℕ) (forced : List ℕ) → Distinct forced → Distinct (with_id id forced)
with_id-Distinct id forced d = ground (arith, Distinct-concat forced id d)

-- `ids.filter((x) => x !== a)`
abbrev pub without : ℕ → List ℕ → List ℕ
without a [] = []
without a (x ∷ xs) = if x == a then without a xs else x ∷ without a xs

pub includes-without :
    (a b : ℕ) (xs : List ℕ) → includes (without a xs) b ≡ (if a == b then false else includes xs b)
includes-without a b [] = ground arith
includes-without a b (x ∷ xs) = ground (arith, includes-without a b xs)

pub without-Distinct : (a : ℕ) (xs : List ℕ) → Distinct xs → Distinct (without a xs)
without-Distinct a [] d = tt
without-Distinct a (x ∷ xs) d = ground (arith, includes-without a x xs, without-Distinct a xs d.1)

pub without_of_not_includes : (a : ℕ) (xs : List ℕ) → includes xs a ≡ false → without a xs ≡ xs
without_of_not_includes a [] h = refl
without_of_not_includes a (x ∷ xs) h = ground (arith, without_of_not_includes a xs)

pub without-concat : (a : ℕ) (xs : List ℕ) → without a (xs ++ a ∷ []) ≡ without a xs
without-concat a [] = ground arith
without-concat a (x ∷ xs) = ground (arith, without-concat a xs)

includes-take :
    (n : ℕ) (xs : List ℕ) (a : ℕ) → includes xs a ≡ false → includes (take n xs) a ≡ false
includes-take zero xs a h = refl
includes-take (suc n) [] a h = refl
includes-take (suc n) (x ∷ xs) a h = ground (arith, includes-take n xs a)

pub Distinct-take : (n : ℕ) (xs : List ℕ) → Distinct xs → Distinct (take n xs)
Distinct-take zero xs d = tt
Distinct-take (suc n) [] d = tt
Distinct-take (suc n) (x ∷ xs) d = (includes-take n xs x d.0, Distinct-take n xs d.1)
