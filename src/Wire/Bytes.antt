-- ===== src/Wire/Bytes.antt =====
-- Little-endian numbers and slices of a payload. A read past the end of its payload, which in C++ is
-- undefined, is an outcome of its own.
use vault_vk.Common.{
  ℕ, zero, suc, ◌+◌, ◌*◌, ◌/◌, ◌%◌, ◌<◌, ◌≡◌, refl, ap, ◌∙◌, true, List, [], ◌∷◌, ◌++◌, length, sym,
  append-nil, length-append, take, drop, leb, if◌then◌else◌, arith, take-length_append,
  drop-length_append,
}
use vault_vk.Text.{Text}

abbrev pub Bytes : Type 0
Bytes = List ℕ

abbrev pub IsByte : ℕ → Type 0
IsByte b = b < 256

-- `append_le` with a value of this many bytes.
unfoldable pub append_le : ℕ → ℕ → Bytes
append_le zero v = []
append_le (suc w) v = (v % 256) ∷ append_le w (v / 256)

-- `read_le`, where there are as many bytes.
unfoldable pub read_le : ℕ → Bytes → ℕ
read_le zero bs = 0
read_le (suc w) [] = 0
read_le (suc w) (b ∷ bs) = b + 256 * read_le w bs

pub data Read {ℓ} (A : Type ℓ) : Type ℓ where
  ok : A → Read A
  refused : (err : Text) → Read A
  beyond : Read A

infixl 5 ◌>>=◌
abbrev pub ◌>>=◌ {ℓ κ} : {A : Type ℓ} {B : Type κ} → Read A → (A → Read B) → Read B
ok a >>= f = f a
refused err >>= f = refused err
beyond >>= f = beyond

-- `util::read_le<T>(p.data() + offset)`
unfoldable pub read_at : ℕ → ℕ → Bytes → Read ℕ
unfolding read_le
read_at w offset p = if leb (offset + w) (length p) then ok (read_le w (drop offset p)) else beyond

unfoldable pub read_bytes : Bytes → ℕ → ℕ → Read Text
read_bytes p offset len =
    if leb (offset + len) (length p) then ok (take len (drop offset p)) else beyond

pub length-append_le : (w v : ℕ) → length (append_le w v) ≡ w
unfolding append_le
length-append_le zero v = refl
length-append_le (suc w) v = ap suc (length-append_le w (v / 256))

-- What `w` bytes can hold.
abbrev pub range : ℕ → ℕ
range zero = 1
range (suc w) = 256 * range w

pub read_le-append_le : (w v : ℕ) (bs : Bytes) → v < range w → read_le w (append_le w v ++ bs) ≡ v
unfolding append_le read_le
read_le-append_le zero v bs h = omega arith
read_le-append_le (suc w) v bs h =
    let ih = read_le-append_le w (v / 256) bs (omega (arith, h)) in omega (arith, ih)

leb_sum : (a b c n : ℕ) → n ≡ a + (b + c) → leb (a + b) n ≡ true
leb_sum a b c n h = ground arith

-- A read where it is known what stands at its place.
pub read_at_lem :
    {p : Bytes} {offset : ℕ} (w : ℕ) (a : Bytes) (v : ℕ) (b : Bytes)
    → p ≡ a ++ (append_le w v ++ b)
    → offset ≡ length a
    → v < range w
    → read_at w offset p ≡ ok v
unfolding read_at
read_at_lem {p} {offset} w a v b e o h =
    let l : length p ≡ length a + (w + length b) =
      ap length e
      ∙ length-append a (append_le w v ++ b)
      ∙ ap (λ k. length a + k)
          (length-append (append_le w v) b ∙ ap (λ k. k + length b) (length-append_le w v)) in
    rw (o, leb_sum (length a) w (length b) (length p) l, if◌then◌else◌)
      (ap ok (
        ap (λ q. read_le w (drop (length a) q)) e
        ∙ ap (read_le w) (drop-length_append a (append_le w v ++ b))
        ∙ read_le-append_le w v b h))

pub read_bytes_lem :
    {p : Bytes} {offset len : ℕ} (a k b : Bytes)
    → p ≡ a ++ (k ++ b)
    → offset ≡ length a
    → len ≡ length k
    → read_bytes p offset len ≡ ok k
unfolding read_bytes
read_bytes_lem {p} {offset} {len} a k b e o h =
    let l : length p ≡ length a + (length k + length b) =
      ap length e ∙ length-append a (k ++ b) ∙ ap (λ n. length a + n) (length-append k b) in
    rw (o, h, leb_sum (length a) (length k) (length b) (length p) l, if◌then◌else◌)
      (ap ok (
        ap (λ q. take (length k) (drop (length a) q)) e
        ∙ ap (take (length k)) (drop-length_append a (k ++ b))
        ∙ take-length_append k b))

pub read_bytes_end :
    {p : Bytes} {offset len : ℕ} (a k : Bytes)
    → p ≡ a ++ k
    → offset ≡ length a
    → len ≡ length k
    → read_bytes p offset len ≡ ok k
read_bytes_end a k e o h = read_bytes_lem a k [] (e ∙ sym (ap (λ s. a ++ s) (append-nil k))) o h
