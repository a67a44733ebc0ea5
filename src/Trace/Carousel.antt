-- ===== src/Trace/Carousel.antt =====
-- The carousel of modules of `ArchitectureView`, which its interval turns and a click moves.
use vault_vk.Common.{◌<◌, ◌≡◌, List, [], ◌∷◌, some, arith, get_elem?, get_elem?_of_lt}
use vault_vk.Trace.Panel.{
  Panel, Event, tick, focus, page_modules, Module, overview, explorer, consensus, architecture,
  index_of, begin, cleared, step, opening, run,
}

module _ {N : Type 0} where
  -- The module in focus is one of the list.
  abbrev pub HasModule : Panel N → Type 0
  HasModule p = (m : Module) × (get_elem? page_modules p.active_module ≡ some m)

  step-active_module :
      (e : Event N) (p : Panel N) → p.active_module < 4 → (step e p).active_module < 4
  unfolding step index_of cleared begin
  step-active_module tick p h = omega arith
  step-active_module (focus overview) p h = omega arith
  step-active_module (focus explorer) p h = omega arith
  step-active_module (focus consensus) p h = omega arith
  step-active_module (focus architecture) p h = omega arith
  step-active_module e p h = ground arith

  run-active_module :
      (es : List (Event N)) (p : Panel N) → p.active_module < 4 → (run p es).active_module < 4
  run-active_module [] p h = h
  run-active_module (e ∷ es) p h = run-active_module es (step e p) (step-active_module e p h)

  -- After any turns of the carousel, clicks and traces, the index of the module in focus is one of
  -- the list of modules, so that the focused module that is shown is always there.
  pub run-opening-HasModule : (es : List (Event N)) → HasModule (run opening es)
  unfolding page_modules opening
  run-opening-HasModule es =
      get_elem?_of_lt page_modules (run opening es).active_module
        (run-active_module es opening (omega arith))
