-- ===== src/MiniGraph/Defs.antt =====
-- The corners, the state and the clicks of the mini graph. What the browser stores under
-- `observe_mini_graph_collapsed` and `observe_mini_graph_corner` is none where nothing is stored.
use vault_vk.Common.{
  ℕ, suc, ◌+◌, ◌%◌, Bool, true, false, List, [], ◌∷◌, Option, none, some, length, get_elem?, find?,
  get_or_else, if◌then◌else◌,
}
use vault_vk.Text.{Text, codes, text_eq}
use vault_vk.Text.Trim.{is_nil}

pub data Corner : Type 0 where
  bottom_right bottom_left top_right top_left : Corner

unfoldable pub corners : List Corner
corners = bottom_right ∷ bottom_left ∷ top_right ∷ top_left ∷ []

abbrev pub corner_text : Corner → Text
corner_text bottom_right = codes "bottom-right"
corner_text bottom_left = codes "bottom-left"
corner_text top_right = codes "top-right"
corner_text top_left = codes "top-left"

-- `MINI_GRAPH_CORNERS.indexOf(corner)`; every corner is in the list.
abbrev index_in : Corner → List Corner → ℕ
index_in c [] = 0
index_in c (d ∷ ds) =
    let rest = index_in c ds in if text_eq (corner_text d) (corner_text c) then 0 else suc rest

unfoldable pub next_corner : Corner → Corner
unfolding corners text_eq
next_corner corner =
    get_or_else (get_elem? corners ((index_in corner corners + 1) % length corners)) corner

-- `raw ? raw === "true" : true`
unfoldable pub load_collapsed : Option Text → Bool
load_collapsed none = true
load_collapsed (some raw) = if is_nil raw then true else text_eq raw (codes "true")

unfoldable pub load_corner : Option Text → Corner
unfolding corners
load_corner none = bottom_right
load_corner (some raw) =
    if is_nil raw
    then bottom_right
    else get_or_else (find? (λ c. text_eq (corner_text c) raw) corners) bottom_right

-- `String(collapsed)`
abbrev pub bool_text : Bool → Text
bool_text true = codes "true"
bool_text false = codes "false"

pub record Storage : Type 0 where
  pub collapsed : Option Text
  pub corner : Option Text

pub record MiniGraph : Type 0 where
  pub collapsed : Bool
  pub corner : Corner
  pub stored : Storage

pub data Event : Type 0 where
  expand collapse move : Event

-- The two effects, which run after the first render and after each change.
abbrev pub saved : Bool → Corner → MiniGraph
saved collapsed corner = record {
  collapsed = collapsed;
  corner = corner;
  stored = record { collapsed = some (bool_text collapsed); corner = some (corner_text corner) };
}

unfoldable pub mount : Storage → MiniGraph
mount stored = saved (load_collapsed stored.collapsed) (load_corner stored.corner)

unfoldable pub step : Event → MiniGraph → MiniGraph
step expand m = saved false m.corner
step collapse m = saved true m.corner
step move m = saved m.collapsed (next_corner m.corner)

abbrev pub run : MiniGraph → List Event → MiniGraph
run m [] = m
run m (e ∷ es) = run (step e m) es
