-- ===== src/Palette/Recent.antt =====
-- The recent searches over any use of the palette, and what a reload makes of them.
use vault_vk.Common.{
  ℕ, ◌≤◌, ◌≡◌, refl, sym, subst, ◌∙◌, Bool, true, false, not, ◌&&◌, List, [], ◌∷◌, map, Option,
  none, some, arith, filter, take, length, length-take-le, take-take, without, includes-without,
  without-Distinct, Distinct, Distinct-take, ltb, if◌then◌else◌, map-take,
}
use vault_vk.Text.{Text}
use vault_vk.Text.Trim.{is_nil, trim}
use vault_vk.Palette.Defs.{
  TabId, tab_code, same_tab, Recent, Palette, load_recent, updated_recent, opening, close_search,
  select_search_item, absent, SearchItem, filtered_search_items,
}
use vault_vk.Palette.Keys.{
  Event, typed, arrow_down, arrow_up, enter, escape, toggle, open_button, hovered, clicked,
  dismissed, navigated, bell, target, on_enter, on_arrow_down, on_arrow_up, on_toggle, step, run,
  select_item, select_first,
}

abbrev pub codes_of : List Recent → List ℕ
codes_of = map (λ r. tab_code r.id)

-- At most six entries, no page twice, and the storage has what a reload will show.
pub record IsKept (p : Palette) : Type 0 where
  pub few : length p.recent_searches ≤ 6
  pub once : Distinct (codes_of p.recent_searches)
  pub saved : load_recent p.stored ≡ p.recent_searches

codes_of-filter :
    (id : TabId) (recent : List Recent)
    → codes_of (filter (λ x. not (same_tab x.id id)) recent)
      ≡ without (tab_code id) (codes_of recent)
codes_of-filter id [] = refl
codes_of-filter id (r ∷ recent) = ground (arith, codes_of-filter id recent)

updated_recent-Distinct :
    (id : TabId) (label : Text) (recent : List Recent)
    → Distinct (codes_of recent)
    → Distinct (codes_of (updated_recent id label recent))
unfolding updated_recent
updated_recent-Distinct id label recent d =
    let rest : List Recent = filter (λ x. not (same_tab x.id id)) recent in
    let fresh : Distinct (tab_code id ∷ codes_of rest) = rw (codes_of-filter id recent) (
      includes-without (tab_code id) (tab_code id) (codes_of recent) ∙ ground arith,
      without-Distinct (tab_code id) (codes_of recent) d,
    ) in
    subst Distinct
      (sym (map-take (λ (r : Recent). tab_code r.id) 6 (record { id = id; label = label } ∷ rest)))
      (Distinct-take 6 (tab_code id ∷ codes_of rest) fresh)

updated_recent-few :
    (id : TabId) (label : Text) (recent : List Recent) → length (updated_recent id label recent) ≤ 6
unfolding updated_recent
updated_recent-few id label recent =
    length-take-le 6
      (record { id = id; label = label } ∷ filter (λ x. not (same_tab x.id id)) recent)

take-updated_recent :
    (id : TabId) (label : Text) (recent : List Recent)
    → take 6 (updated_recent id label recent) ≡ updated_recent id label recent
unfolding updated_recent
take-updated_recent id label recent =
    take-take 6 (record { id = id; label = label } ∷ filter (λ x. not (same_tab x.id id)) recent)

select-IsKept :
    (id : TabId) (label : Text) (p : Palette) → IsKept p → IsKept (select_search_item id label p)
unfolding select_search_item close_search load_recent
select-IsKept id label p v = record {
  few = updated_recent-few id label p.recent_searches;
  once = updated_recent-Distinct id label p.recent_searches v.once;
  saved = take-updated_recent id label p.recent_searches;
}

-- All that the invariant reads.
abbrev Same : Palette → Palette → Type 0
Same p q = (q.recent_searches ≡ p.recent_searches) × (q.stored ≡ p.stored)

IsKept-of_Same : (p q : Palette) → Same p q → IsKept p → IsKept q
IsKept-of_Same p q s v = record {
  few = rw s.0 v.few;
  once = rw s.0 v.once;
  saved = rw (s.0, s.1) v.saved;
}

IsKept-if : (b : Bool) (p q : Palette) → IsKept p → IsKept q → IsKept (if b then p else q)
IsKept-if true p q h k = h
IsKept-if false p q h k = k

select_item-IsKept : (o : Option SearchItem) (p : Palette) → IsKept p → IsKept (select_item o p)
unfolding select_item
select_item-IsKept none p v = v
select_item-IsKept (some it) p v = select-IsKept it.id it.label p v

select_first-IsKept :
    (recent : List Recent) (p : Palette) → IsKept p → IsKept (select_first recent p)
unfolding select_first
select_first-IsKept [] p v = v
select_first-IsKept (r ∷ recent) p v = select-IsKept r.id r.label p v

on_enter-IsKept : (p : Palette) → IsKept p → IsKept (on_enter p)
unfolding on_enter
on_enter-IsKept p v =
    let items : List SearchItem = filtered_search_items p.search_query in
    let chosen : Option SearchItem = target items p.search_active_index in
    let recent : Palette = select_first p.recent_searches p in
    IsKept-if (ltb 0 (length items) && not (is_nil (trim p.search_query))) (select_item chosen p)
      (if is_nil (trim p.search_query) then recent else p) (select_item-IsKept chosen p v)
      (IsKept-if (is_nil (trim p.search_query)) recent p (select_first-IsKept p.recent_searches p v)
        v)

step-IsKept : (e : Event) (p : Palette) → IsKept p → IsKept (step e p)
unfolding step close_search on_arrow_down on_arrow_up on_toggle
step-IsKept (typed query) p v =
    IsKept-if p.search_open (record p { search_query = query; search_active_index = 0 }) p
      (IsKept-of_Same p _ (refl, refl) v) v
step-IsKept arrow_down p v = IsKept-of_Same p _ (ground arith) v
step-IsKept arrow_up p v = IsKept-of_Same p _ (ground arith) v
step-IsKept enter p v = IsKept-if p.search_open (on_enter p) p (on_enter-IsKept p v) v
step-IsKept escape p v = IsKept-of_Same p _ (refl, refl) v
step-IsKept toggle p v = IsKept-of_Same p _ (ground arith) v
step-IsKept open_button p v = IsKept-of_Same p _ (refl, refl) v
step-IsKept (hovered index) p v = IsKept-of_Same p _ (ground arith) v
step-IsKept (clicked id label) p v =
    IsKept-if p.search_open (select_search_item id label p) p (select-IsKept id label p v) v
step-IsKept dismissed p v = IsKept-of_Same p _ (ground arith) v
step-IsKept (navigated id) p v = IsKept-of_Same p _ (refl, refl) v
step-IsKept bell p v = IsKept-of_Same p _ (refl, refl) v

run-IsKept : (es : List Event) (p : Palette) → IsKept p → IsKept (run p es)
run-IsKept [] p v = v
run-IsKept (e ∷ es) p v = run-IsKept es (step e p) (step-IsKept e p v)

opening-IsKept : IsKept (opening absent)
unfolding opening load_recent
opening-IsKept = record { few = omega arith; once = (refl, (refl, (refl, tt))); saved = refl }

-- A browser that had nothing stored has, after any use of the palette, at most six recent pages, none
-- of them twice, and a reload shows those same pages in that order.
pub run-opening-IsKept : (es : List Event) → IsKept (run (opening absent) es)
run-opening-IsKept es = run-IsKept es (opening absent) opening-IsKept
