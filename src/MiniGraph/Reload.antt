-- ===== src/MiniGraph/Reload.antt =====
-- What a reload makes of the mini graph, and where its moves lead.
use vault_vk.Common.{
  ◌+◌, ◌-◌, ◌%◌, ℕ, zero, suc, ◌≤◌, ◌≡◌, refl, Bool, true, false, List, [], ◌∷◌, some, arith,
}
use vault_vk.Text.{text_eq}
use vault_vk.MiniGraph.Defs.{
  Corner, bottom_right, bottom_left, top_right, top_left, corners, next_corner, load_collapsed,
  load_corner, corner_text, bool_text, Storage, MiniGraph, Event, expand, collapse, move, saved,
  mount, step, run,
}

load-bool_text : (b : Bool) → load_collapsed (some (bool_text b)) ≡ b
unfolding load_collapsed text_eq
load-bool_text true = refl
load-bool_text false = refl

load-corner_text : (c : Corner) → load_corner (some (corner_text c)) ≡ c
unfolding load_corner corners text_eq
load-corner_text bottom_right = refl
load-corner_text bottom_left = refl
load-corner_text top_right = refl
load-corner_text top_left = refl

-- The storage has what is shown.
abbrev IsSaved : MiniGraph → Type 0
IsSaved m = m ≡ saved m.collapsed m.corner

step-IsSaved : (e : Event) (m : MiniGraph) → IsSaved (step e m)
unfolding step
step-IsSaved expand m = refl
step-IsSaved collapse m = refl
step-IsSaved move m = refl

run-IsSaved : (es : List Event) (m : MiniGraph) → IsSaved m → IsSaved (run m es)
run-IsSaved [] m h = h
run-IsSaved (e ∷ es) m h = run-IsSaved es (step e m) (step-IsSaved e m)

mount-saved : (b : Bool) (c : Corner) → mount (saved b c).stored ≡ saved b c
unfolding mount
mount-saved b c = rw (load-bool_text b, load-corner_text c) refl

-- Whatever was stored, and after any clicks, a reload shows the mini graph as it was.
pub mount-run :
    (stored : Storage) (es : List Event)
    → mount (run (mount stored) es).stored ≡ run (mount stored) es
unfolding mount
mount-run stored es =
    let m : MiniGraph = run (mount stored) es in
    rw (run-IsSaved es (mount stored) refl) (mount-saved m.collapsed m.corner)

-- How often a function is applied.
abbrev pub times : ℕ → (Corner → Corner) → Corner → Corner
times zero f c = c
times (suc n) f c = f (times n f c)

abbrev pub place : Corner → ℕ
place bottom_right = 0
place bottom_left = 1
place top_right = 2
place top_left = 3

-- The moves from one corner to another.
abbrev pub distance : Corner → Corner → ℕ
distance a b = (place b + 4 - place a) % 4

-- From any corner, moves lead to any other, and at most three are needed: as many as the other stands
-- behind it in the cycle bottom-right, bottom-left, top-right, top-left.
pub moves_reach : (a b : Corner) → (times (distance a b) next_corner a ≡ b) × (distance a b ≤ 3)
unfolding next_corner corners text_eq
moves_reach bottom_right bottom_right = (refl, omega arith)
moves_reach bottom_right bottom_left = (refl, omega arith)
moves_reach bottom_right top_right = (refl, omega arith)
moves_reach bottom_right top_left = (refl, omega arith)
moves_reach bottom_left bottom_right = (refl, omega arith)
moves_reach bottom_left bottom_left = (refl, omega arith)
moves_reach bottom_left top_right = (refl, omega arith)
moves_reach bottom_left top_left = (refl, omega arith)
moves_reach top_right bottom_right = (refl, omega arith)
moves_reach top_right bottom_left = (refl, omega arith)
moves_reach top_right top_right = (refl, omega arith)
moves_reach top_right top_left = (refl, omega arith)
moves_reach top_left bottom_right = (refl, omega arith)
moves_reach top_left bottom_left = (refl, omega arith)
moves_reach top_left top_right = (refl, omega arith)
moves_reach top_left top_left = (refl, omega arith)
