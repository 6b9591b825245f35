-- ===== src/Mmu/TableLaws.antt =====
-- The conditions on a description, and its tables entry by entry.
use memflow.Prelude.{
  ℕ, zero, suc, ◌+◌, ◌-◌, ◌*◌, ◌%◌, ◌^◌, ◌≤◌, ◌<◌, ◌≡◌, arith, ap, ◌∙◌, bit_and, List, length,
  get_or, drop, [], ◌∷◌, lt→ltb,
}
use native.Mathlib.Nat.{mul-le-mul_right}
use memflow.Prelude.Bits.{bit_and_low, field_mask}
use memflow.Prelude.Pow.{pow-add, pow_pos}
use memflow.Types.Address.{bit_mask}
use memflow.Types.AddressLaws.{bit_mask-field}
use memflow.Mmu.Def.{ArchMmuDef, max_index_bits, pte_min_bit, split_at_step, trailing_zeros, sum}
use memflow.Mmu.Spec.{fill, max_levels}

-- The conditions that every description of the source meets.
pub record IsWellFormed (def : ArchMmuDef) : Type 0 where
  pub levels : length def.virtual_address_splits ≤ max_levels
  pub space_pos : 0 < def.address_space_bits
  pub space_le : def.address_space_bits ≤ 64
  pub entry : def.pte_size ≡ 2 ^ trailing_zeros 64 def.pte_size
  pub entry_bits :
      (step : ℕ)
      → step < length def.virtual_address_splits
      → pte_min_bit def step < def.address_space_bits
  pub split_pos : (step : ℕ) → step < length def.virtual_address_splits → 0 < split_at_step def step
  pub index_bits :
      (step : ℕ) → step < length def.virtual_address_splits → max_index_bits def step ≤ 64

pub get_or-fill {ℓ} :
    {A : Type ℓ} (f : ℕ → A) (blank other : A) (len left i k : ℕ)
    → k < left
    → i + k < len
    → get_or (fill f blank len left i) k other ≡ f (i + k)
unfolding fill
get_or-fill f blank other len zero i k h lt = absurd (omega arith)
get_or-fill f blank other len (suc left) i zero h lt =
    let e : i + 0 ≡ i = omega arith in rw (lt→ltb i len (omega arith), e)
get_or-fill f blank other len (suc left) i (suc k) h lt =
    let e : i + 1 + k ≡ i + suc k = omega arith in
    get_or-fill f blank other len left (i + 1) k (omega arith) (omega arith) ∙ ap f e

pub split-le-bits : (splits : List ℕ) (step : ℕ) → get_or splits step 0 ≤ sum (drop step splits)
split-le-bits [] zero = omega arith
split-le-bits [] (suc step) = omega arith
split-le-bits (x ∷ xs) zero = omega arith
split-le-bits (x ∷ xs) (suc step) = split-le-bits xs step

pub low_mask : (n a : ℕ) → 0 < n → n ≤ 64 → bit_and a (bit_mask 0 (n - 1)) ≡ a % 2 ^ n
low_mask n a pos le =
    let width : n - 1 + 1 - 0 ≡ n = omega arith in
    let mask : field_mask 0 n ≡ 2 ^ n - 1 = omega arith in
    rw (bit_mask-field 0 (n - 1) (omega arith) (omega arith) (omega arith), width, mask)
      (bit_and_low n a)

-- A field of `n` bits in units of `2 ^ p` stays below `2 ^ (n + p)`.
pub scaled-lt : (x n p : ℕ) → x < 2 ^ n → x * 2 ^ p < 2 ^ (n + p)
scaled-lt x n p h = omega (arith, pow-add n p, pow_pos p, mul-le-mul_right (2 ^ p) h)
