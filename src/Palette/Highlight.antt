-- ===== src/Palette/Highlight.antt =====
-- Where the highlight can stand, and what `Enter` opens.
use vault_vk.Common.{
  ℕ, ◌+◌, ◌-◌, ◌%◌, ◌<◌, ◌≡◌, refl, ◌⊎◌, inl, inr, Bool, true, false, not, ◌&&◌, List, [], ◌∷◌,
  Option, none, some, arith, length, ltb, get_elem?, if◌then◌else◌, get_elem?_of_lt, Bool-cases,
}
use native.Mathlib.Nat.{mod-lt}
use vault_vk.Text.{Text}
use vault_vk.Text.Trim.{is_nil, trim}
use vault_vk.Palette.Defs.{
  TabId, Palette, Recent, Stored, SearchItem, filtered_search_items, opening, close_search,
  select_search_item,
}
use vault_vk.Palette.Keys.{
  Event, typed, arrow_down, arrow_up, enter, escape, toggle, open_button, hovered, clicked,
  dismissed, navigated, bell, target, on_enter, on_arrow_down, on_arrow_up, on_toggle, step, run,
  select_item, select_first,
}

-- The highlight is at the top or on a result that is shown, and a palette that is not shown has neither
-- a query nor a highlight.
pub record IsSettled (p : Palette) : Type 0 where
  pub shown :
      (p.search_active_index ≡ 0)
      ⊎ (p.search_active_index < length (filtered_search_items p.search_query))
  pub idle : p.search_open ≡ false → (p.search_query ≡ []) × (p.search_active_index ≡ 0)

IsSettled-if :
    (b : Bool) (p q : Palette) → IsSettled p → IsSettled q → IsSettled (if b then p else q)
IsSettled-if true p q h k = h
IsSettled-if false p q h k = k

close-IsSettled : (p : Palette) → IsSettled (close_search p)
unfolding close_search
close-IsSettled p = record { shown = inl refl; idle = λ _. (refl, refl) }

select-IsSettled :
    (id : TabId) (label : Text) (p : Palette) → IsSettled (select_search_item id label p)
unfolding select_search_item close_search
select-IsSettled id label p = record { shown = inl refl; idle = λ _. (refl, refl) }

mod_lt : (a n : ℕ) → 0 < n → a % n < n
mod_lt a n h = mod-lt a h

-- A new place for the highlight of an open palette.
moved :
    (p : Palette) (i : ℕ)
    → p.search_open ≡ true
    → i < length (filtered_search_items p.search_query)
    → IsSettled (record p { search_active_index = i })
moved p i o h = record { shown = inr h; idle = λ c. absurd (ground arith) }

arrow_down-IsSettled :
    (p : Palette) → p.search_open ≡ true → IsSettled p → IsSettled (on_arrow_down p)
unfolding on_arrow_down
arrow_down-IsSettled p o v =
    let n : ℕ = length (filtered_search_items p.search_query) in
    elim (Bool-cases (ltb 0 n)) [
      | inl e ↦
          rw (e, if◌then◌else◌)
            (moved p ((p.search_active_index + 1) % n) o (mod_lt _ n (ground arith)))
      | inr e ↦ rw (e, if◌then◌else◌) v
    ]

arrow_up-IsSettled : (p : Palette) → p.search_open ≡ true → IsSettled p → IsSettled (on_arrow_up p)
unfolding on_arrow_up
arrow_up-IsSettled p o v =
    let n : ℕ = length (filtered_search_items p.search_query) in
    elim (Bool-cases (ltb 0 n)) [
      | inl e ↦
          rw (e, if◌then◌else◌)
            (moved p ((p.search_active_index + n - 1) % n) o (mod_lt _ n (ground arith)))
      | inr e ↦ rw (e, if◌then◌else◌) v
    ]

select_item-IsSettled :
    (o : Option SearchItem) (p : Palette) → IsSettled p → IsSettled (select_item o p)
unfolding select_item
select_item-IsSettled none p v = v
select_item-IsSettled (some it) p v = select-IsSettled it.id it.label p

select_first-IsSettled :
    (recent : List Recent) (p : Palette) → IsSettled p → IsSettled (select_first recent p)
unfolding select_first
select_first-IsSettled [] p v = v
select_first-IsSettled (r ∷ recent) p v = select-IsSettled r.id r.label p

enter-IsSettled : (p : Palette) → IsSettled p → IsSettled (on_enter p)
unfolding on_enter
enter-IsSettled p v =
    let items : List SearchItem = filtered_search_items p.search_query in
    let chosen : Option SearchItem = target items p.search_active_index in
    let recent : Palette = select_first p.recent_searches p in
    IsSettled-if (ltb 0 (length items) && not (is_nil (trim p.search_query))) (select_item chosen p)
      (if is_nil (trim p.search_query) then recent else p) (select_item-IsSettled chosen p v)
      (IsSettled-if (is_nil (trim p.search_query)) recent p
        (select_first-IsSettled p.recent_searches p v) v)

hover-IsSettled :
    (b : Bool) (index : ℕ) (p : Palette)
    → p.search_open ≡ b
    → IsSettled p
    → IsSettled (
        if b && ltb index (length (filtered_search_items p.search_query))
        then record p { search_active_index = index }
        else p)
hover-IsSettled false index p o v = v
hover-IsSettled true index p o v =
    elim (Bool-cases (ltb index (length (filtered_search_items p.search_query)))) [
      | inl e ↦ rw (e, if◌then◌else◌) (moved p index o (ground arith))
      | inr e ↦ rw (e, if◌then◌else◌) v
    ]

-- An event that reaches an open palette only.
open-IsSettled :
    (b : Bool) (p q : Palette)
    → p.search_open ≡ b
    → IsSettled p
    → (p.search_open ≡ true → IsSettled q)
    → IsSettled (if b then q else p)
open-IsSettled true p q o v h = h o
open-IsSettled false p q o v h = v

toggle-IsSettled : (p : Palette) → IsSettled p → IsSettled (on_toggle p)
unfolding on_toggle
toggle-IsSettled p v = elim (Bool-cases p.search_open) [
  | inl e ↦ rw (e, if◌then◌else◌) (record { shown = inl refl; idle = λ _. (refl, refl) })
  | inr e ↦ rw (e, if◌then◌else◌) (record { shown = v.shown; idle = λ c. absurd (ground arith) })
]

step-IsSettled : (e : Event) (p : Palette) → IsSettled p → IsSettled (step e p)
unfolding step close_search
step-IsSettled (typed query) p v =
    open-IsSettled p.search_open p (record p { search_query = query; search_active_index = 0 }) refl
      v (λ o. record { shown = inl refl; idle = λ c. absurd (ground arith) })
step-IsSettled arrow_down p v =
    open-IsSettled p.search_open p (on_arrow_down p) refl v (λ o. arrow_down-IsSettled p o v)
step-IsSettled arrow_up p v =
    open-IsSettled p.search_open p (on_arrow_up p) refl v (λ o. arrow_up-IsSettled p o v)
step-IsSettled enter p v =
    open-IsSettled p.search_open p (on_enter p) refl v (λ o. enter-IsSettled p v)
step-IsSettled escape p v = record { shown = inl refl; idle = λ _. (refl, refl) }
step-IsSettled toggle p v = toggle-IsSettled p v
step-IsSettled open_button p v = record { shown = v.shown; idle = λ c. absurd (ground arith) }
step-IsSettled (hovered index) p v = hover-IsSettled p.search_open index p refl v
step-IsSettled (clicked id label) p v =
    open-IsSettled p.search_open p (select_search_item id label p) refl v
      (λ o. select-IsSettled id label p)
step-IsSettled dismissed p v =
    IsSettled-if p.search_open (close_search p) p
      (record { shown = inl refl; idle = λ _. (refl, refl) }) v
step-IsSettled (navigated id) p v = record { shown = v.shown; idle = v.idle }
step-IsSettled bell p v = record { shown = v.shown; idle = v.idle }

run-IsSettled : (es : List Event) (p : Palette) → IsSettled p → IsSettled (run p es)
run-IsSettled [] p v = v
run-IsSettled (e ∷ es) p v = run-IsSettled es (step e p) (step-IsSettled e p v)

-- After any events, whatever was stored: the highlight is at the top or on a result that is shown, and
-- a palette that is not shown has neither a query nor a highlight.
pub run-opening-IsSettled :
    (stored : Stored) (es : List Event) → IsSettled (run (opening stored) es)
unfolding opening
run-opening-IsSettled stored es =
    run-IsSettled es (opening stored) (record { shown = inl refl; idle = λ _. (refl, refl) })

enter_of_target :
    (p : Palette) (it : SearchItem)
    → p.search_open ≡ true
    → is_nil (trim p.search_query) ≡ false
    → 0 < length (filtered_search_items p.search_query)
    → get_elem? (filtered_search_items p.search_query) p.search_active_index ≡ some it
    → step enter p ≡ select_search_item it.id it.label p
unfolding step on_enter select_item
enter_of_target p it o q n h = ground arith

abbrev pub after : Stored → List Event → Palette
after stored es = run (opening stored) es

-- After any events, while the palette is shown with a query that is not blank and with results: the
-- highlight is on a result, and `Enter` opens that one.
pub enter_opens_highlighted :
    (stored : Stored) (es : List Event)
    → (after stored es).search_open ≡ true
    → is_nil (trim (after stored es).search_query) ≡ false
    → 0 < length (filtered_search_items (after stored es).search_query)
    → let p = after stored es in
      (it : SearchItem) × (get_elem? (filtered_search_items p.search_query) p.search_active_index
        ≡ some it)
      × (step enter p ≡ select_search_item it.id it.label p)
enter_opens_highlighted stored es o q n =
    let p : Palette = run (opening stored) es in
    let v = run-opening-IsSettled stored es in
    let (it, h) =
      get_elem?_of_lt (filtered_search_items p.search_query) p.search_active_index
        (ground (arith, v.shown)) in
    (it, h, enter_of_target p it o q n h)
