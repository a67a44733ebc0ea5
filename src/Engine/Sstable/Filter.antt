-- ===== src/Engine/Sstable/Filter.antt =====
-- The Bloom filter of src/sstable.cpp. Words have 64 bits, with their wrap-around; `bits_` is a list of
-- its bits.
use vault_vk.Common.{
  ℕ, zero, suc, ◌+◌, ◌*◌, ◌/◌, ◌%◌, ◌^◌, ◌≤◌, ◌<◌, ◌≡◌, refl, ap, sym, subst, ◌∙◌, Bool, true,
  false, ◌||◌, ◌&&◌, List, [], ◌∷◌, length, ◌==◌, if◌then◌else◌, arith,
}
use native.Mathlib.Nat.{mod-lt}
use vault_vk.Text.{Text}
use vault_vk.Engine.Keys.{Table}

-- `a ^ b` on words of `w` bits.
unfoldable pub xor : ℕ → ℕ → ℕ → ℕ
xor zero a b = 0
xor (suc w) a b = (a + b) % 2 + 2 * xor w (a / 2) (b / 2)

abbrev pub word : ℕ → ℕ
word n = n % 2 ^ 64

-- 0x9E3779B97F4A7C15
abbrev pub golden : ℕ
golden = 11400714819323198485

unfoldable pub hash_bytes : Text → ℕ → ℕ
unfolding xor
hash_bytes [] h = h
hash_bytes (c ∷ cs) h = hash_bytes cs (xor 64 h (word (c + golden + word (h * 2 ^ 6) + h / 2 ^ 2)))

unfoldable pub hash64 : Text → ℕ → ℕ
unfolding hash_bytes
hash64 s seed = hash_bytes s (xor 64 seed (word (golden + length s)))

pub record BloomFilter : Type 0 where
  pub bit_count : ℕ
  pub hash_count : ℕ
  pub bits : List Bool

abbrev pub zeros : ℕ → List Bool
zeros zero = []
zeros (suc n) = false ∷ zeros n

unfoldable pub fresh : ℕ → ℕ → BloomFilter
fresh bit_count hash_count = record {
  bit_count = bit_count;
  hash_count = hash_count;
  bits = zeros ((bit_count + 7) / 8 * 8);
}

abbrev pub set_bit : List Bool → ℕ → List Bool
set_bit [] i = []
set_bit (b ∷ bs) zero = true ∷ bs
set_bit (b ∷ bs) (suc i) = b ∷ set_bit bs i

abbrev pub bit_at : List Bool → ℕ → Bool
bit_at [] i = false
bit_at (b ∷ bs) zero = b
bit_at (b ∷ bs) (suc i) = bit_at bs i

-- The bit of the `i`th hash.
unfoldable pub bit_of : Text → ℕ → ℕ → ℕ
unfolding hash64
bit_of key bit_count i = hash64 key (word (golden + word (i * 1099511628211))) % bit_count

-- The loops; a round goes on what the rounds before it have done.
unfoldable pub add_loop : ℕ → Text → ℕ → List Bool → List Bool
add_loop zero key n bits = bits
add_loop (suc i) key n bits = set_bit (add_loop i key n bits) (bit_of key n i)

unfoldable pub add : Text → BloomFilter → BloomFilter
unfolding add_loop
add key b =
    if b.bit_count == 0 || b.hash_count == 0
    then b
    else record b { bits = add_loop b.hash_count key b.bit_count b.bits }

unfoldable pub test_loop : ℕ → Text → ℕ → List Bool → Bool
test_loop zero key n bits = true
test_loop (suc i) key n bits = test_loop i key n bits && bit_at bits (bit_of key n i)

unfoldable pub might_contain : Text → BloomFilter → Bool
unfolding test_loop
might_contain key b =
    if b.bit_count == 0 || b.hash_count == 0
    then true
    else test_loop b.hash_count key b.bit_count b.bits

unfoldable pub add_all {ℓ} : {V : Type ℓ} → Table V → BloomFilter → BloomFilter
unfolding add
add_all [] b = b
add_all (e ∷ t) b = add_all t (add e.0 b)

-- The filter has a byte for each eight bits, so each bit has its place.
abbrev pub HasRoom : BloomFilter → Type 0
HasRoom b = b.bit_count ≤ length b.bits

length-set_bit : (bs : List Bool) (i : ℕ) → length (set_bit bs i) ≡ length bs
length-set_bit [] i = refl
length-set_bit (b ∷ bs) zero = refl
length-set_bit (b ∷ bs) (suc i) = ap suc (length-set_bit bs i)

bit_at_set : (bs : List Bool) (i : ℕ) → i < length bs → bit_at (set_bit bs i) i ≡ true
bit_at_set [] i h = absurd (omega arith)
bit_at_set (b ∷ bs) zero h = refl
bit_at_set (b ∷ bs) (suc i) h = bit_at_set bs i (omega arith)

-- A bit that is set stays so.
bit_at_kept : (bs : List Bool) (i j : ℕ) → bit_at bs j ≡ true → bit_at (set_bit bs i) j ≡ true
bit_at_kept [] i j e = e
bit_at_kept (b ∷ bs) zero zero e = refl
bit_at_kept (b ∷ bs) zero (suc j) e = e
bit_at_kept (b ∷ bs) (suc i) zero e = e
bit_at_kept (b ∷ bs) (suc i) (suc j) e = bit_at_kept bs i j e

and_map :
    (a b c d : Bool)
    → (a ≡ true → c ≡ true)
    → (b ≡ true → d ≡ true)
    → (a && b) ≡ true
    → (c && d) ≡ true
and_map a b c d f g e = ground arith

bit_of-lt : (key : Text) (n i : ℕ) → 0 < n → bit_of key n i < n
unfolding bit_of
bit_of-lt key n i h = mod-lt _ h

abbrev Keeps : List Bool → List Bool → Type 0
Keeps bs cs = (j : ℕ) → bit_at bs j ≡ true → bit_at cs j ≡ true

add_loop-Keeps : (c : ℕ) (key : Text) (n : ℕ) (bs : List Bool) → Keeps bs (add_loop c key n bs)
unfolding add_loop
add_loop-Keeps zero key n bs j e = e
add_loop-Keeps (suc c) key n bs j e =
    bit_at_kept (add_loop c key n bs) (bit_of key n c) j (add_loop-Keeps c key n bs j e)

length-add_loop :
    (c : ℕ) (key : Text) (n : ℕ) (bs : List Bool) → length (add_loop c key n bs) ≡ length bs
unfolding add_loop
length-add_loop zero key n bs = refl
length-add_loop (suc c) key n bs =
    length-set_bit (add_loop c key n bs) (bit_of key n c) ∙ length-add_loop c key n bs

test_loop-Keeps :
    (c : ℕ) (key : Text) (n : ℕ) (bs cs : List Bool)
    → Keeps bs cs
    → test_loop c key n bs ≡ true
    → test_loop c key n cs ≡ true
unfolding test_loop
test_loop-Keeps zero key n bs cs k e = refl
test_loop-Keeps (suc c) key n bs cs k e =
    and_map _ _ _ _ (test_loop-Keeps c key n bs cs k) (k (bit_of key n c)) e

test_loop-add_loop :
    (c : ℕ) (key : Text) (n : ℕ) (bs : List Bool)
    → 0 < n
    → n ≤ length bs
    → test_loop c key n (add_loop c key n bs) ≡ true
unfolding test_loop add_loop
test_loop-add_loop zero key n bs p h = refl
test_loop-add_loop (suc c) key n bs p h =
    let front = add_loop c key n bs in
    let bit = bit_of key n c in
    let l : bit < length front =
      subst (λ m. bit < m) (sym (length-add_loop c key n bs))
        (omega (arith, bit_of-lt key n c p)) in
    let old =
      test_loop-Keeps c key n front (set_bit front bit) (bit_at_kept front bit)
        (test_loop-add_loop c key n bs p h) in
    and_map true true _ _ (λ e. old) (λ e. bit_at_set front bit l) refl

-- A key that is added is found, and every key that was found before.
pub add-HasRoom : (key : Text) (b : BloomFilter) → HasRoom b → HasRoom (add key b)
unfolding add
add-HasRoom key b h = ground (arith, length-add_loop b.hash_count key b.bit_count b.bits)

pub add-might_contain :
    (key : Text) (b : BloomFilter) → HasRoom b → might_contain key (add key b) ≡ true
unfolding add might_contain
add-might_contain key b h = ground (arith, test_loop-add_loop b.hash_count key b.bit_count b.bits)

pub add_other :
    (key other : Text) (b : BloomFilter)
    → might_contain other b ≡ true
    → might_contain other (add key b) ≡ true
unfolding add might_contain
add_other key other b e = ground (
  arith,
  test_loop-Keeps b.hash_count other b.bit_count b.bits
      (add_loop b.hash_count key b.bit_count b.bits)
      (add_loop-Keeps b.hash_count key b.bit_count b.bits),
)
