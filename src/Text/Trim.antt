-- ===== src/Text/Trim.antt =====
-- `trim` and the removal of a trailing run of one character.
use vault_vk.Common.{
  ℕ, ◌≡◌, refl, ap, inl, inr, Bool, true, false, ◌&&◌, ◌||◌, List, [], ◌∷◌, ◌++◌, arith, leb, ◌==◌,
  if◌then◌else◌, All, Bool-cases,
}

-- White space and line terminators of ECMAScript.
unfoldable pub is_space : ℕ → Bool
is_space c =
    (leb 9 c && leb c 13)
    || c == 32
    || c == 160
    || c == 0x1680
    || (leb 0x2000 c && leb c 0x200a)
    || c == 0x2028
    || c == 0x2029
    || c == 0x202f
    || c == 0x205f
    || c == 0x3000
    || c == 0xfeff

abbrev pub is_nil {ℓ} : {A : Type ℓ} → List A → Bool
is_nil [] = true
is_nil (x ∷ xs) = false

unfoldable pub drop_while : (ℕ → Bool) → List ℕ → List ℕ
drop_while p [] = []
drop_while p (c ∷ s) = if p c then drop_while p s else c ∷ s

-- Without the longest run of `p` at the end.
unfoldable pub trim_end_while : (ℕ → Bool) → List ℕ → List ℕ
trim_end_while p [] = []
trim_end_while p (c ∷ s) =
    let rest = trim_end_while p s in if is_nil rest && p c then [] else c ∷ rest

unfoldable pub trim : List ℕ → List ℕ
unfolding is_space drop_while trim_end_while
trim s = trim_end_while is_space (drop_while is_space s)

pub is_nil-eq : (s : List ℕ) → is_nil s ≡ true → s ≡ []
is_nil-eq [] h = refl
is_nil-eq (c ∷ s) h = cc

-- What is cut off is a run of `p`.
pub trim_end_while-append :
    (p : ℕ → Bool) (s : List ℕ)
    → (run : List ℕ) × (s ≡ trim_end_while p s ++ run) × All (λ c. p c ≡ true) run
unfolding trim_end_while
trim_end_while-append p [] = ([], refl, tt)
trim_end_while-append p (c ∷ s) =
    let (run, e, h) = trim_end_while-append p s in
    elim (Bool-cases (is_nil (trim_end_while p s) && p c)) [
      | inl t ↦ (
        c ∷ run,
        rw (t, if◌then◌else◌) (ground (arith, is_nil-eq (trim_end_while p s))),
        (ground arith, h),
      )
      | inr f ↦ (run, rw (f, if◌then◌else◌) (ap (◌∷◌ c) e), h)
    ]

-- The last element, if there is one, meets a test.
abbrev pub ends_in : (ℕ → Bool) → List ℕ → Bool
ends_in p [] = false
ends_in p (c ∷ []) = p c
ends_in p (c ∷ d ∷ s) = ends_in p (d ∷ s)

ends_in-cons :
    (p : ℕ → Bool) (c : ℕ) (s : List ℕ)
    → ends_in p (c ∷ s) ≡ (if is_nil s then p c else ends_in p s)
ends_in-cons p c [] = refl
ends_in-cons p c (d ∷ s) = refl

-- Nothing of `p` is left at the end.
pub ends_in-trim_end_while : (p : ℕ → Bool) (s : List ℕ) → ends_in p (trim_end_while p s) ≡ false
unfolding trim_end_while
ends_in-trim_end_while p [] = refl
ends_in-trim_end_while p (c ∷ s) =
    ground (arith, ends_in-trim_end_while p s, ends_in-cons p c (trim_end_while p s))

-- A text with nothing of `p` at its end is left as it is.
pub trim_end_while_of_not_ends_in :
    (p : ℕ → Bool) (s : List ℕ) → ends_in p s ≡ false → trim_end_while p s ≡ s
unfolding trim_end_while
trim_end_while_of_not_ends_in p [] h = refl
trim_end_while_of_not_ends_in p (c ∷ []) h = ground arith
trim_end_while_of_not_ends_in p (c ∷ d ∷ s) h =
    ground (arith, trim_end_while_of_not_ends_in p (d ∷ s) h)
