-- ===== src/Mmu/Def.antt =====
-- memflow/src/mem/virt_translate/mmu/def.rs. The `u8` sums of a real description stay below 256,
-- so they are plain sums. An index past the end of the splits panics in the source; here it reads 0.
use memflow.Prelude.{
  ℕ, zero, suc, ◌+◌, ◌-◌, ◌*◌, ◌/◌, ◌%◌, ◌^◌, bit_and, Bool, List, [], ◌∷◌, length, drop, get_or,
  ◌==◌, if◌then◌else◌,
}
use memflow.Types.Address.{Address, clamp_to_usize, shl, bit_mask}

-- `Endianess` of memflow/src/architecture/mod.rs.
pub data Endianess : Type 0 where
  little_endian big_endian : Endianess

pub record ArchMmuDef : Type 0 where
  pub virtual_address_splits : List ℕ
  pub valid_final_page_steps : List ℕ
  pub address_space_bits : ℕ
  pub endianess : Endianess
  pub addr_size : ℕ
  pub pte_size : ℕ
  pub present_bit : Address → Bool
  pub writeable_bit : Address → Bool → Bool
  pub nx_bit : Address → Bool → Bool
  pub large_page_bit : Address → Bool

-- `trailing_zeros` of a `u64`.
unfoldable pub trailing_zeros : ℕ → ℕ → ℕ
trailing_zeros zero n = 0
trailing_zeros (suc fuel) n =
    let rest = suc (trailing_zeros fuel (n / 2)) in if n % 2 == 1 then 0 else rest

abbrev pub sum : List ℕ → ℕ
sum [] = 0
sum (x ∷ xs) = x + sum xs

abbrev pub sum_pow : List ℕ → ℕ
sum_pow [] = 0
sum_pow (x ∷ []) = 0
sum_pow (x ∷ y ∷ xs) = 2 ^ x + sum_pow (y ∷ xs)

module _ (def : ArchMmuDef) where
  -- `max_index_bits` of both functions below: the loop from `step` on.
  unfoldable pub max_index_bits : ℕ → ℕ
  max_index_bits step = sum (drop step def.virtual_address_splits)

  abbrev pub split_at_step : ℕ → ℕ
  split_at_step step = get_or def.virtual_address_splits step 0

  -- The lowest address bit of a page table entry at a step.
  unfoldable pub pte_min_bit : ℕ → ℕ
  pte_min_bit step =
      split_at_step step
      + (if step == length def.virtual_address_splits - 1
          then 0
          else trailing_zeros 64 def.pte_size)

  unfoldable pub pte_addr_mask : Address → ℕ → ℕ
  pte_addr_mask pte_addr step =
      let max = def.address_space_bits - 1 in bit_and pte_addr (bit_mask (pte_min_bit step) max)

  unfoldable pub virt_addr_bit_range : ℕ → ℕ × ℕ
  virt_addr_bit_range step = (max_index_bits step - split_at_step step, max_index_bits step)

  unfoldable pub split_count : ℕ
  split_count = length def.virtual_address_splits

  unfoldable pub spare_allocs : ℕ
  spare_allocs = sum_pow def.virtual_address_splits

  unfoldable pub pt_leaf_size : ℕ → ℕ
  unfolding virt_addr_bit_range
  pt_leaf_size step =
      let (min, max) = virt_addr_bit_range step in
      clamp_to_usize (shl 1 (max - min) * def.pte_size % 2 ^ 64)

  unfoldable pub page_size_step_unchecked : ℕ → ℕ
  page_size_step_unchecked step = shl 1 (max_index_bits step)
