-- ===== src/Palette/Keys.antt =====
-- The events of the palette: the keys of its field and of the document, the mouse, and the button.
use vault_vk.Common.{
  ℕ, ◌+◌, ◌-◌, ◌%◌, true, false, not, ◌&&◌, List, [], ◌∷◌, Option, none, some, ltb, length,
  get_elem?, if◌then◌else◌,
}
use vault_vk.Text.{Text}
use vault_vk.Text.Trim.{is_nil, trim}
use vault_vk.Palette.Defs.{
  TabId, Recent, SearchItem, Palette, filtered_search_items, close_search, select_search_item,
}

pub data Event : Type 0 where
  typed : Text → Event
  arrow_down arrow_up enter escape : Event
  -- Control or Meta with K, anywhere; the Quick Search button.
  toggle open_button : Event
  -- The mouse on the result at this place, and a click on it or on a recent or suggested page.
  hovered : ℕ → Event
  clicked : TabId → Text → Event
  -- A click outside of the palette, on a page of the side bar, on the bell.
  dismissed : Event
  navigated : TabId → Event
  bell : Event

-- `filteredSearchItems[searchActiveIndex] ?? filteredSearchItems[0]`
abbrev pub target : List SearchItem → ℕ → Option SearchItem
target items index = elim (get_elem? items index) [ some it ↦ some it | none ↦ get_elem? items 0 ]

unfoldable pub select_item : Option SearchItem → Palette → Palette
select_item none p = p
select_item (some it) p = select_search_item it.id it.label p

unfoldable pub select_first : List Recent → Palette → Palette
select_first [] p = p
select_first (r ∷ rs) p = select_search_item r.id r.label p

-- `Enter`: the highlighted result, or with an empty query the latest recent page.
unfoldable pub on_enter : Palette → Palette
unfolding select_item select_first
on_enter p =
    let items = filtered_search_items p.search_query in
    if ltb 0 (length items) && not (is_nil (trim p.search_query))
    then select_item (target items p.search_active_index) p
    else if is_nil (trim p.search_query)
    then select_first p.recent_searches p
    else p

unfoldable pub on_arrow_down : Palette → Palette
on_arrow_down p =
    let n = length (filtered_search_items p.search_query) in
    if ltb 0 n then record p { search_active_index = (p.search_active_index + 1) % n } else p

unfoldable pub on_arrow_up : Palette → Palette
on_arrow_up p =
    let n = length (filtered_search_items p.search_query) in
    if ltb 0 n then record p { search_active_index = (p.search_active_index + n - 1) % n } else p

-- The document's handler: Control+K closes the notifications and opens or closes the palette.
unfoldable pub on_toggle : Palette → Palette
on_toggle p =
    let q = record p { notifications_open = false; search_open = not p.search_open } in
    if p.search_open then record q { search_query = []; search_active_index = 0 } else q

-- A key of the palette's field or a mouse event on its results can come only while it is shown (the
-- moment of its closing animation is left out), and the mouse only to a result that is shown.
abbrev while_open : Palette → Palette → Palette
while_open p q = if p.search_open then q else p

unfoldable pub step : Event → Palette → Palette
unfolding on_enter on_arrow_down on_arrow_up on_toggle
step (typed query) p = while_open p (record p { search_query = query; search_active_index = 0 })
step arrow_down p = while_open p (on_arrow_down p)
step arrow_up p = while_open p (on_arrow_up p)
step enter p = while_open p (on_enter p)
step escape p = record (close_search p) { notifications_open = false }
step toggle p = on_toggle p
step open_button p = record p { search_open = true }
step (hovered index) p =
    if p.search_open && ltb index (length (filtered_search_items p.search_query))
    then record p { search_active_index = index }
    else p
step (clicked id label) p = while_open p (select_search_item id label p)
step dismissed p = while_open p (close_search p)
step (navigated id) p = record p { tab = id }
step bell p = record p { notifications_open = not p.notifications_open }

abbrev pub run : Palette → List Event → Palette
run p [] = p
run p (e ∷ es) = run (step e p) es
