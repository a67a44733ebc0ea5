-- ===== src/Palette/Examples.antt =====
-- A search by its first letters, and the page that `Enter` opens.
use vault_vk.Common.{◌≡◌, refl, true, false, List, [], ◌∷◌}
use vault_vk.Text.{codes, contains, to_lower}
use vault_vk.Text.Trim.{is_nil, trim}
use vault_vk.Palette.Defs.{absent, malformed, opening, filtered_search_items}
use vault_vk.Palette.Keys.{
  Event, typed, arrow_down, enter, toggle, run, step, on_arrow_down, on_toggle,
}
use vault_vk.Palette.Recent.{IsKept, run-opening-IsKept}
use vault_vk.Palette.Highlight.{after}
use vault_vk.Palette.Shown.{shown}
use vault_vk.Palette.Enter.{Enters, after-Enters}

abbrev events : List Event
events = toggle ∷ typed (codes "O") ∷ arrow_down ∷ []

run-opening-IsKept_example : IsKept (run (opening absent) (toggle ∷ typed (codes "c") ∷ enter ∷ []))
run-opening-IsKept_example = run-opening-IsKept (toggle ∷ typed (codes "c") ∷ enter ∷ [])

is_shown : (after malformed events).search_open ≡ true
unfolding step on_toggle on_arrow_down opening filtered_search_items to_lower trim contains
is_shown = refl

queried : is_nil (trim (after malformed events).search_query) ≡ false
unfolding step on_toggle on_arrow_down opening filtered_search_items to_lower trim contains
queried = refl

after-Enters_example : Enters (shown (after malformed events)) (after malformed events)
after-Enters_example = after-Enters malformed events is_shown
