-- ===== src/Numbers.antt =====
-- The numbers of JavaScript that are not whole, as an interface: antt has no floats. `Arith` has the
-- operations that the code calls; `Laws` has what the theorems need of them, each a property of
-- IEEE doubles while whole numbers stay below 2^53. `le x y` says that neither is NaN and that x is the
-- smaller or the same, where -0 is smaller than 0; so `le x x` says that x is not NaN.
pub mod Defs
pub mod Scaled
