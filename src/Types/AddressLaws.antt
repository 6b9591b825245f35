-- ===== src/Types/AddressLaws.antt =====
-- Addresses: masks, bits, alignment and signed offsets.
use memflow.Prelude.{
  ℕ, zero, suc, ◌+◌, ◌-◌, ◌*◌, ◌/◌, ◌%◌, ◌^◌, ◌≤◌, ◌<◌, ◌≡◌, refl, arith, bit_and, Bool, not, true,
  leb, ◌==◌, ==_iff, le→leb, if◌then◌else◌, ap, ◌∙◌,
}
use native.Mathlib.Nat.{one-le-pow, mul-mod_right, mod-lt, div-add-mod}
use memflow.Prelude.Bits.{field_mask, bit_and_field, all_below, all_below_sound, all_from}
use memflow.Types.Address.{
  shl, bit_mask, as_mem_aligned, bit_at, extract_bits, add_signed, sub_signed, sub_address,
  wrapping_sub, wrapping_add,
}

-- Every pair of bounds up to bit 63, checked by evaluation.
mask_row : ℕ → Bool
mask_row end = all_below 64 (λ start.
    if leb start (end + 1) then bit_mask start end == field_mask start (end + 1 - start) else true)

mask_table : all_below 64 mask_row ≡ true
unfolding all_from mask_row bit_mask
mask_table = refl

-- For a `start` and an `end` up to 63, with `start` at most `end + 1`, `bit_mask` has exactly the bits
-- from `start` to `end`, both included.
pub bit_mask-field :
    (start end : ℕ)
    → start ≤ end + 1
    → start < 64
    → end < 64
    → bit_mask start end ≡ field_mask start (end + 1 - start)
unfolding mask_row
bit_mask-field start end h below lt =
    let row = all_below_sound 64 mask_row end mask_table lt in
    let entry =
      all_below_sound 64
        (λ s. if leb s (end + 1) then bit_mask s end == field_mask s (end + 1 - s) else true) start
        row below in
    (==_iff _ _).0 (rw (le→leb start (end + 1) h) at entry)

-- For an `end` up to 63 and a `start` of at most `end`, `extract_bits` leaves the bits from `start` to `end`, both included, in their
-- place, and clears the others.
pub extract_bits-field :
    (a start end : ℕ)
    → start ≤ end
    → end < 64
    → extract_bits a start end ≡ a / 2 ^ start % 2 ^ (end + 1 - start) * 2 ^ start
unfolding extract_bits
extract_bits-field a start end h lt =
    rw (bit_mask-field start end (omega arith) (omega arith) lt)
      (bit_and_field start (end + 1 - start) a)

shl_table : all_below 64 (λ j. shl 1 j == 2 ^ j) ≡ true
unfolding all_from
shl_table = refl

pub shl_one : (i : ℕ) → i < 64 → shl 1 i ≡ 2 ^ i
shl_one i h = (==_iff _ _).0 (all_below_sound 64 (λ j. shl 1 j == 2 ^ j) i shl_table h)

bit_and_one : (i a : ℕ) → bit_and a (2 ^ i) ≡ a / 2 ^ i % 2 * 2 ^ i
bit_and_one i a = ap (bit_and a) (omega arith) ∙ bit_and_field i 1 a

digit_test : (d p : ℕ) → d < 2 → 0 < p → not (d * p == 0) ≡ (d == 1)
digit_test zero p hd hp = ground arith
digit_test (suc zero) p hd hp = ground arith
digit_test (suc (suc d)) p hd hp = absurd (omega arith)

-- `bit_at` tests the binary digit, for the bits 0 to 63.
bit_at-digit : (a i : ℕ) → i < 64 → bit_at a i ≡ (a / 2 ^ i % 2 == 1)
unfolding bit_at
bit_at-digit a i h =
    rw (shl_one i h, bit_and_one i a)
      (digit_test (a / 2 ^ i % 2) (2 ^ i) (omega arith) (one-le-pow i 2 (omega arith)))

multiple : (a size : ℕ) → a - a % size ≡ size * (a / size)
multiple a size = omega (arith, div-add-mod a size)

-- An aligned address stays.
pub as_mem_aligned_twice :
    (a size : ℕ) → as_mem_aligned (as_mem_aligned a size) size ≡ as_mem_aligned a size
unfolding as_mem_aligned
as_mem_aligned_twice a size =
    let aligned : (a - a % size) % size ≡ 0 =
      rw (multiple a size) (mul-mod_right size (a / size)) in
    omega (arith, aligned)

-- An address aligned to an even size is even.
pub as_mem_aligned_even : (a half : ℕ) → as_mem_aligned a (2 * half) % 2 ≡ 0
unfolding as_mem_aligned
as_mem_aligned_even a half = rw (multiple a (2 * half)) (
    ap (λ n. n % 2) (mul-assoc_two half (a / (2 * half)))
    ∙ mul-mod_right 2 (half * (a / (2 * half))))
  where
    mul-assoc_two : (h q : ℕ) → 2 * h * q ≡ 2 * (h * q)
    mul-assoc_two h q = grind arith

-- For a size above 0, `as_mem_aligned` rounds down to a multiple of the size, by less than the size.
as_mem_aligned_bounds :
    (a size : ℕ)
    → 0 < size
    → (as_mem_aligned a size % size ≡ 0)
      × (as_mem_aligned a size ≤ a)
      × (a < as_mem_aligned a size + size)
unfolding as_mem_aligned
as_mem_aligned_bounds a size h =
    (rw (multiple a size) (mul-mod_right size (a / size)), omega arith, omega (arith, mod-lt a h))

-- For numbers below 2 ^ 64: a signed offset is added and subtracted modulo 2 ^ 64, and the difference
-- of two addresses is the offset that leads from one to the other.
pub signed_offsets :
    (a b w : ℕ)
    → a < 2 ^ 64
    → b < 2 ^ 64
    → w < 2 ^ 64
    → (add_signed a w ≡ wrapping_add a w)
      × (sub_signed a w ≡ wrapping_sub a w)
      × (add_signed b (sub_address a b) ≡ a)
      × (sub_signed a (sub_address a b) ≡ b)
unfolding add_signed sub_signed sub_address wrapping_add wrapping_sub
signed_offsets a b w ha hb hw = (ground arith, ground arith, ground arith, ground arith)
