-- ===== src/Palette/Enter.antt =====
-- What `Enter` does, told by what the palette shows.
use vault_vk.Common.{
  ℕ, zero, suc, ◌+◌, ◌<◌, ◌≡◌, refl, inl, inr, true, false, List, [], ◌∷◌, map, filter, some, arith,
  length, ltb, get_elem?, if◌then◌else◌, Bool-cases,
}
use vault_vk.Text.Trim.{is_nil, trim}
use vault_vk.Palette.Defs.{
  Stored, SearchItem, Palette, filtered_search_items, select_search_item, opening,
}
use vault_vk.Palette.Keys.{Event, enter, step, on_enter, select_first, run}
use vault_vk.Palette.Shown.{Shown, suggestions, results, no_results, ResultRow, rows_from, shown}
use vault_vk.Palette.Highlight.{after, enter_opens_highlighted}

-- The items that are highlighted.
abbrev pub highlighted : List ResultRow → List SearchItem
highlighted rows = map (λ r. r.item) (filter (λ r. r.active) rows)

rows_from-none :
    (i idx : ℕ) (items : List SearchItem) → i < idx → highlighted (rows_from i idx items) ≡ []
rows_from-none i idx [] h = refl
rows_from-none i idx (it ∷ items) h = ground (arith, rows_from-none i (suc idx) items)

rows_from-one :
    (i idx j : ℕ) (items : List SearchItem) (it : SearchItem)
    → i ≡ idx + j
    → get_elem? items j ≡ some it
    → highlighted (rows_from i idx items) ≡ it ∷ []
rows_from-one i idx j [] it h e = cc
rows_from-one i idx zero (x ∷ items) it h e = ground (arith, rows_from-none i (suc idx) items)
rows_from-one i idx (suc j) (x ∷ items) it h e =
    ground (arith, rows_from-one i (suc idx) j items it (omega arith) e)

-- What `Enter` does for each of the three.
abbrev pub Enters : Shown → Palette → Type 0
Enters (suggestions recent items) p = step enter p ≡ select_first recent p
Enters (results rows) p =
    (it : SearchItem) × (highlighted rows ≡ it ∷ [])
    × (step enter p ≡ select_search_item it.id it.label p)
Enters (no_results query) p = step enter p ≡ p

enter_blank :
    (p : Palette)
    → p.search_open ≡ true
    → is_nil (trim p.search_query) ≡ true
    → step enter p ≡ select_first p.recent_searches p
unfolding step on_enter
enter_blank p o h = ground arith

enter_none :
    (p : Palette)
    → p.search_open ≡ true
    → is_nil (trim p.search_query) ≡ false
    → ltb 0 (length (filtered_search_items p.search_query)) ≡ false
    → step enter p ≡ p
unfolding step on_enter
enter_none p o h k = ground arith

-- After any events, while the palette is shown: what it shows tells what `Enter` does. With
-- suggestions it opens the latest recent page, if there is one; with results exactly one of them is
-- highlighted, and it opens that one; where no result is found it does nothing.
pub after-Enters :
    (stored : Stored) (es : List Event)
    → (after stored es).search_open ≡ true
    → Enters (shown (after stored es)) (after stored es)
unfolding shown
after-Enters stored es o =
    let p : Palette = run (opening stored) es in
    let items : List SearchItem = filtered_search_items p.search_query in
    elim (Bool-cases (is_nil (trim p.search_query))) [
      | inl h ↦ rw (h, if◌then◌else◌) (enter_blank p o h)
      | inr h ↦ elim (Bool-cases (ltb 0 (length items))) [
        | inl k ↦
            let found = enter_opens_highlighted stored es o h (ground arith) in
            rw (h, if◌then◌else◌, k)
              (
                found.0,
                rows_from-one p.search_active_index 0 p.search_active_index items found.0
                    (omega arith) found.1,
                found.2,
              )
        | inr k ↦ rw (h, if◌then◌else◌, k) (enter_none p o h k)
      ]
    ]
