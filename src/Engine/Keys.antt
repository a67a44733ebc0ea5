-- ===== src/Engine/Keys.antt =====
-- Keys as `std::string` compares them, and maps from keys, as `std::unordered_map` and a sorted vector
-- hold them.
use vault_vk.Common.{
  ◌≡◌, refl, ap, ◌∙◌, Bool, true, false, ◌&&◌, ◌||◌, List, [], ◌∷◌, Option, none, some, ltb, ◌==◌,
  if◌then◌else◌, arith, Bool-cases, inl, inr,
}
use vault_vk.Text.{Text, text_eq, text_eq_iff}

-- `a < b`
unfoldable pub less : Text → Text → Bool
less s [] = false
less [] (d ∷ t) = true
less (c ∷ s) (d ∷ t) = ltb c d || (c == d && less s t)

pub text_eq_refl : (s : Text) → text_eq s s ≡ true
text_eq_refl s = (text_eq_iff s s).1 refl

pub text_eq_sym : (s t : Text) → text_eq s t ≡ text_eq t s
unfolding text_eq
text_eq_sym [] [] = refl
text_eq_sym [] (d ∷ t) = refl
text_eq_sym (c ∷ s) [] = refl
text_eq_sym (c ∷ s) (d ∷ t) = ground (arith, text_eq_sym s t)

pub less_irrefl : (s : Text) → less s s ≡ false
unfolding less
less_irrefl [] = refl
less_irrefl (c ∷ s) = ground (arith, less_irrefl s)

pub less_trans : (s t u : Text) → less s t ≡ true → less t u ≡ true → less s u ≡ true
unfolding less
less_trans [] [] u h k = ground arith
less_trans (c ∷ s) [] u h k = ground arith
less_trans s (d ∷ t) [] h k = ground arith
less_trans [] (d ∷ t) (e ∷ u) h k = refl
less_trans (c ∷ s) (d ∷ t) (e ∷ u) h k = ground (arith, less_trans s t u)

pub less_total : (s t : Text) → less s t ≡ false → text_eq s t ≡ false → less t s ≡ true
unfolding less text_eq
less_total [] [] h k = ground arith
less_total [] (d ∷ t) h k = ground arith
less_total (c ∷ s) [] h k = refl
less_total (c ∷ s) (d ∷ t) h k = ground (arith, less_total s t)

pub less-text_eq : (s t : Text) → less s t ≡ true → text_eq s t ≡ false
less-text_eq s t h = elim (Bool-cases (text_eq s t)) [
  | inr e ↦ e
  | inl e ↦ absurd (ground (arith, ap (less s) ((text_eq_iff s t).0 e), less_irrefl s))
]

-- Equal keys compare alike.
pub text_eq_left : (s t u : Text) → text_eq s t ≡ true → text_eq s u ≡ text_eq t u
text_eq_left s t u h = ap (λ x. text_eq x u) ((text_eq_iff s t).0 h)

pub less_left : (s t u : Text) → text_eq s t ≡ true → less s u ≡ less t u
less_left s t u h = ap (λ x. less x u) ((text_eq_iff s t).0 h)

pub less_right : (s t u : Text) → text_eq s t ≡ true → less u s ≡ less u t
less_right s t u h = ap (less u) ((text_eq_iff s t).0 h)

-- `std::unordered_map`: `find` and `map[k] = v`. What the map is iterated over for does not depend on
-- the order.
abbrev pub Table {ℓ} : Type ℓ → Type ℓ
Table V = List (Text × V)

module _ {ℓ} {V : Type ℓ} where
  unfoldable pub lookup : Text → Table V → Option V
  unfolding text_eq
  lookup k [] = none
  lookup k (e ∷ t) = if text_eq e.0 k then some e.1 else lookup k t

  unfoldable pub without : Text → Table V → Table V
  unfolding text_eq
  without k [] = []
  without k (e ∷ t) = if text_eq e.0 k then without k t else e ∷ without k t

  unfoldable pub put : Text → V → Table V → Table V
  unfolding without
  put k v t = (k, v) ∷ without k t

  -- Each key stands once.
  abbrev pub AreDistinct : Table V → Type ℓ
  AreDistinct [] = Unit
  AreDistinct (e ∷ t) = (lookup e.0 t ≡ none) × AreDistinct t

  lookup-without :
      (k j : Text) (t : Table V)
      → lookup j (without k t) ≡ (if text_eq k j then none else lookup j t)
  unfolding lookup without
  lookup-without k j [] = ground arith
  lookup-without k j (e ∷ t) = elim (Bool-cases (text_eq e.0 k)) [
    | inl p ↦ ground (arith, lookup-without k j t, text_eq_left e.0 k j p)
    | inr p ↦
        ground
          (arith, lookup-without k j t, text_eq_left k j e.0, text_eq_sym e.0 j, text_eq_sym e.0 k)
  ]

  pub lookup-put :
      (k j : Text) (v : V) (t : Table V)
      → lookup j (put k v t) ≡ (if text_eq k j then some v else lookup j t)
  unfolding lookup put
  lookup-put k j v t = ground (arith, lookup-without k j t)

  without-AreDistinct : (k : Text) (t : Table V) → AreDistinct t → AreDistinct (without k t)
  unfolding without
  without-AreDistinct k [] d = tt
  without-AreDistinct k (e ∷ t) d =
      ground (arith, lookup-without k e.0 t, without-AreDistinct k t d.1)

  pub put-AreDistinct : (k : Text) (v : V) (t : Table V) → AreDistinct t → AreDistinct (put k v t)
  unfolding put
  put-AreDistinct k v t d =
      (ground (arith, lookup-without k k t, text_eq_refl k), without-AreDistinct k t d)

  -- `std::sort` by key, and `std::lower_bound` with the test that the key is the one looked for.
  unfoldable pub insert : Text × V → Table V → Table V
  unfolding less
  insert e [] = e ∷ []
  insert e (x ∷ t) = if less e.0 x.0 then e ∷ x ∷ t else x ∷ insert e t

  unfoldable pub sort : Table V → Table V
  unfolding insert
  sort [] = []
  sort (e ∷ t) = insert e (sort t)

  unfoldable pub lower_bound : Text → Table V → Table V
  unfolding less
  lower_bound k [] = []
  lower_bound k (e ∷ t) = if less e.0 k then lower_bound k t else e ∷ t

  abbrev at_front : Text → Table V → Option V
  at_front k [] = none
  at_front k (e ∷ t) = if text_eq e.0 k then some e.1 else none

  unfoldable pub search : Text → Table V → Option V
  unfolding lower_bound text_eq
  search k t = at_front k (lower_bound k t)

  pub search-nil : (k : Text) → search k [] ≡ none
  unfolding search lower_bound
  search-nil k = refl

  pub search-cons :
      (k : Text) (x : Text × V) (t : Table V)
      → search k (x ∷ t)
        ≡ (if less x.0 k then search k t else if text_eq x.0 k then some x.1 else none)
  unfolding search lower_bound
  search-cons k x t = ground arith

  search-insert :
      (e : Text × V) (k : Text) (t : Table V)
      → search e.0 t ≡ none
      → search k (insert e t) ≡ (if text_eq e.0 k then some e.1 else search k t)
  unfolding insert
  search-insert e k [] h = ground (arith, search-cons k e [], search-nil k, less-text_eq e.0 k)
  search-insert e k (x ∷ t) h = ground (
    arith,
    search-insert e k t,
    search-cons k e (x ∷ t),
    search-cons k x t,
    search-cons k x (insert e t),
    search-cons e.0 x t,
    less-text_eq e.0 k,
    less_trans k e.0 x.0,
    less_trans e.0 x.0 k,
    less_trans x.0 k e.0,
    less_total x.0 e.0,
    less_total e.0 x.0,
    less_total x.0 k,
    less_total e.0 k,
    less_left e.0 k x.0,
    less_right e.0 k x.0,
    less_left x.0 k e.0,
    less_right x.0 k e.0,
    less-text_eq e.0 x.0,
    less_irrefl x.0,
    text_eq_left e.0 k x.0,
    text_eq_sym x.0 k,
    text_eq_sym x.0 e.0,
  )

  -- What a sorted table holds is what the map that it is made from holds.
  pub search-sort : (k : Text) (t : Table V) → AreDistinct t → search k (sort t) ≡ lookup k t
  unfolding sort lookup
  search-sort k [] d = search-nil k
  search-sort k (e ∷ t) d =
      search-insert e k (sort t) (search-sort e.0 t d.1 ∙ d.0)
      ∙ ap (λ o. if text_eq e.0 k then some e.1 else o) (search-sort k t d.1)
