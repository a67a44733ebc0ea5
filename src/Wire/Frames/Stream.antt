-- ===== src/Wire/Frames/Stream.antt =====
-- The parser on the parts of a stream.
use vault_vk.Common.{
  ℕ, zero, suc, ◌+◌, ◌*◌, ◌≤◌, ◌<◌, ◌≡◌, refl, sym, subst, Bool-cases, ap, ◌∙◌, true, false, List,
  [], ◌∷◌, ◌++◌, length, length-append, length-drop, drop, if◌then◌else◌, arith, take-append,
  drop-append, ◌⊎◌, inl, inr,
}
use vault_vk.Wire.Bytes.{Bytes, read_le}
use vault_vk.Wire.Frames.{
  Frame, Found, more_needed, too_large, found, next_frame, Parsed, push, parse_loop,
  try_parse_frames,
}

read_le-append : (w : ℕ) (a b : Bytes) → w ≤ length a → read_le w (a ++ b) ≡ read_le w a
unfolding read_le
read_le-append zero a b h = refl
read_le-append (suc w) [] b h = absurd (omega arith)
read_le-append (suc w) (x ∷ a) b h = ap (λ n. x + 256 * n) (read_le-append w a b (omega arith))

-- A frame that is found is found as well when more bytes follow, and they stay behind it.
next_frame-append :
    (a b : Bytes) (f : Frame) (rest : Bytes)
    → next_frame a ≡ found f rest
    → next_frame (a ++ b) ≡ found f (rest ++ b)
unfolding next_frame
next_frame-append [] b f rest e = cc
next_frame-append (t ∷ []) b f rest e = cc
next_frame-append (t ∷ fl ∷ bs) b f rest e =
    let len = read_le 4 bs in
    ground (
      arith,
      read_le-append 4 bs b,
      length-append bs b,
      length-drop 4 bs,
      drop-append 4 bs b,
      take-append len (drop 4 bs) b,
      drop-append len (drop 4 bs) b,
    )

next_frame-append_too_large :
    (a b : Bytes) → next_frame a ≡ too_large → next_frame (a ++ b) ≡ too_large
unfolding next_frame
next_frame-append_too_large [] b e = cc
next_frame-append_too_large (t ∷ []) b e = cc
next_frame-append_too_large (t ∷ fl ∷ bs) b e =
    ground (arith, read_le-append 4 bs b, length-append bs b)

next_frame_shorter :
    (a : Bytes) (f : Frame) (rest : Bytes) → next_frame a ≡ found f rest → length rest < length a
unfolding next_frame
next_frame_shorter [] f rest e = cc
next_frame_shorter (t ∷ []) f rest e = cc
next_frame_shorter (t ∷ fl ∷ bs) f rest e =
    ground (arith, length-drop (read_le 4 bs) (drop 4 bs), length-drop 4 bs)

abbrev pub nothing_more : Bytes → Parsed
nothing_more bs = record { out_frames = []; read_buffer = bs; good = true }

pub Found-cases :
    (x : Found)
    → (x ≡ more_needed) ⊎ (x ≡ too_large) ⊎ ((f : Frame) × (rest : Bytes) × (x ≡ found f rest))
Found-cases more_needed = inl refl
Found-cases too_large = inr (inl refl)
Found-cases (found f rest) = inr (inr (f, rest, refl))

-- A round of the loop by what it finds.
loop_found :
    (n : ℕ) (bs : Bytes) {f : Frame} {rest : Bytes}
    → next_frame bs ≡ found f rest
    → parse_loop (suc n) bs ≡ push f (parse_loop n rest)
unfolding parse_loop
loop_found n bs e = rw (parse_loop, e) refl

loop_more :
    (n : ℕ) (bs : Bytes) → next_frame bs ≡ more_needed → parse_loop (suc n) bs ≡ nothing_more bs
unfolding parse_loop
loop_more n bs e = rw (parse_loop, e) refl

loop_too_large :
    (n : ℕ) (bs : Bytes)
    → next_frame bs ≡ too_large
    → parse_loop (suc n) bs ≡ record (nothing_more bs) { good = false }
unfolding parse_loop
loop_too_large n bs e = rw (parse_loop, e) refl

loop_nil : (n : ℕ) → parse_loop n [] ≡ nothing_more []
unfolding parse_loop next_frame
loop_nil zero = refl
loop_nil (suc n) = refl

-- More fuel than bytes makes no difference.
parse_loop_fuel :
    (n m : ℕ) (bs : Bytes) → length bs ≤ n → length bs ≤ m → parse_loop n bs ≡ parse_loop m bs
parse_loop_fuel n m [] h k = loop_nil n ∙ sym (loop_nil m)
parse_loop_fuel zero m (b ∷ bs) h k = absurd (omega arith)
parse_loop_fuel (suc n) zero (b ∷ bs) h k = absurd (omega arith)
parse_loop_fuel (suc n) (suc m) (b ∷ bs) h k = elim (Found-cases (next_frame (b ∷ bs))) [
  | inl e ↦ loop_more n _ e ∙ sym (loop_more m _ e)
  | inr (inl e) ↦ loop_too_large n _ e ∙ sym (loop_too_large m _ e)
  | inr (inr (f, rest, e)) ↦
      let l = next_frame_shorter (b ∷ bs) f rest e in
      loop_found n _ e
      ∙ ap (push f) (parse_loop_fuel n m rest (omega (arith, l)) (omega (arith, l)))
      ∙ sym (loop_found m _ e)
]

-- The loop with as much fuel as it can use.
abbrev pub parsed : Bytes → Parsed
parsed bs = parse_loop (length bs) bs

parsed-loop : (n : ℕ) (bs : Bytes) → length bs ≤ n → parsed bs ≡ parse_loop n bs
parsed-loop n bs h = parse_loop_fuel (length bs) n bs (omega arith) h

pub parsed-found :
    (bs : Bytes) {f : Frame} {rest : Bytes}
    → next_frame bs ≡ found f rest
    → parsed bs ≡ push f (parsed rest)
parsed-found bs {f} {rest} e =
    parsed-loop (suc (length bs)) bs (omega arith)
    ∙ loop_found (length bs) bs e
    ∙ ap (push f)
        (sym (parsed-loop (length bs) rest (omega (arith, next_frame_shorter bs f rest e))))

parsed_more : (bs : Bytes) → next_frame bs ≡ more_needed → parsed bs ≡ nothing_more bs
parsed_more bs e = parsed-loop (suc (length bs)) bs (omega arith) ∙ loop_more (length bs) bs e

parsed_too_large :
    (bs : Bytes) → next_frame bs ≡ too_large → parsed bs ≡ record (nothing_more bs) { good = false }
parsed_too_large bs e =
    parsed-loop (suc (length bs)) bs (omega arith) ∙ loop_too_large (length bs) bs e

-- The frames in front of what the parser finds.
abbrev pub pushes : List Frame → Parsed → Parsed
pushes fs r = record r { out_frames = fs ++ r.out_frames }

-- What the parser makes of a front part, it makes of it with more bytes behind as well.
abbrev Continues : Bytes → Bytes → Parsed → Type 0
Continues a b r =
    (r.good ≡ true → parsed (a ++ b) ≡ pushes r.out_frames (parsed (r.read_buffer ++ b)))
    × (r.good ≡ false → (parsed (a ++ b)).good ≡ false)

loop-Continues : (n : ℕ) (a b : Bytes) → length a < n → Continues a b (parse_loop n a)
loop-Continues zero a b h = absurd (omega arith)
loop-Continues (suc n) a b h = elim (Found-cases (next_frame a)) [
  | inl e ↦ subst (Continues a b) (sym (loop_more n a e)) (λ g. refl, λ g. absurd (ground arith))
  | inr (inl e) ↦ subst (Continues a b) (sym (loop_too_large n a e)) (
    λ g. absurd (ground arith),
    λ g. ap (λ r. r.good) (parsed_too_large (a ++ b) (next_frame-append_too_large a b e)),
  )
  | inr (inr (f, rest, e)) ↦
      let next = parsed-found (a ++ b) (next_frame-append a b f rest e) in
      let ih = loop-Continues n rest b (omega (arith, next_frame_shorter a f rest e)) in
      subst (Continues a b) (sym (loop_found n a e))
        (λ g. next ∙ ap (push f) (ih.0 g), λ g. ap (λ r. r.good) next ∙ ih.1 g)
]

pub parsed-append :
    (a b : Bytes)
    → (parsed a).good ≡ true
    → parsed (a ++ b) ≡ pushes (parsed a).out_frames (parsed ((parsed a).read_buffer ++ b))
parsed-append a b g =
    (subst (Continues a b) (sym (parsed-loop (suc (length a)) a (omega arith)))
        (loop-Continues (suc (length a)) a b (omega arith))).0
      g

-- A front part of a good stream is good.
pub parsed-good : (a b : Bytes) → (parsed (a ++ b)).good ≡ true → (parsed a).good ≡ true
parsed-good a b g = elim (Bool-cases (parsed a).good) [
  | inl e ↦ e
  | inr e ↦
      let bad =
        (subst (Continues a b) (sym (parsed-loop (suc (length a)) a (omega arith)))
            (loop-Continues (suc (length a)) a b (omega arith))).1
          e in
      absurd (ground (arith, bad, g))
]

-- What is left over holds no whole frame.
abbrev IsLeft : Parsed → Type 0
IsLeft r = r.good ≡ true → parsed r.read_buffer ≡ nothing_more r.read_buffer

loop-IsLeft : (n : ℕ) (a : Bytes) → length a < n → IsLeft (parse_loop n a)
loop-IsLeft zero a h = absurd (omega arith)
loop-IsLeft (suc n) a h = elim (Found-cases (next_frame a)) [
  | inl e ↦ subst IsLeft (sym (loop_more n a e)) (λ g. parsed_more a e)
  | inr (inl e) ↦ subst IsLeft (sym (loop_too_large n a e)) (λ g. absurd (ground arith))
  | inr (inr (f, rest, e)) ↦
      subst IsLeft (sym (loop_found n a e))
        (loop-IsLeft n rest (omega (arith, next_frame_shorter a f rest e)))
]

pub parsed-left :
    (a : Bytes)
    → (parsed a).good ≡ true
    → parsed (parsed a).read_buffer ≡ nothing_more (parsed a).read_buffer
parsed-left a =
    subst IsLeft (sym (parsed-loop (suc (length a)) a (omega arith)))
      (loop-IsLeft (suc (length a)) a (omega arith))

pub try_parse_frames-good : (bs : Bytes) → (parsed bs).good ≡ true → try_parse_frames bs ≡ parsed bs
unfolding try_parse_frames
try_parse_frames-good bs g = rw (g, if◌then◌else◌) refl
