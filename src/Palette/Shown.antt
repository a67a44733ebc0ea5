-- ===== src/Palette/Shown.antt =====
-- What the palette shows below its field: suggestions, results, or that there are none.
use vault_vk.Common.{ℕ, suc, ◌==◌, Bool, List, [], ◌∷◌, ltb, length, if◌then◌else◌}
use vault_vk.Text.{Text}
use vault_vk.Text.Trim.{is_nil, trim}
use vault_vk.Palette.Defs.{Recent, SearchItem, Palette, search_items, filtered_search_items}

-- A result, and whether it is highlighted.
pub record ResultRow : Type 0 where
  pub item : SearchItem
  pub active : Bool

pub data Shown : Type 0 where
  -- The recent pages, and those to jump to.
  suggestions : List Recent → List SearchItem → Shown
  results : List ResultRow → Shown
  no_results : (search_query : Text) → Shown

-- `searchActiveIndex === idx` for each result.
abbrev pub rows_from : ℕ → ℕ → List SearchItem → List ResultRow
rows_from search_active_index idx [] = []
rows_from search_active_index idx (it ∷ items) =
    record { item = it; active = search_active_index == idx }
    ∷ rows_from search_active_index (suc idx) items

unfoldable pub shown : Palette → Shown
shown p =
    let items = filtered_search_items p.search_query in
    if is_nil (trim p.search_query)
    then suggestions p.recent_searches search_items
    else if ltb 0 (length items)
    then results (rows_from p.search_active_index 0 items)
    else no_results p.search_query
