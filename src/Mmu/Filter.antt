-- ===== src/Mmu/Filter.antt =====
-- `virt_addr_filter` of memflow/src/mem/virt_translate/mmu/spec.rs. The failures are listed in the
-- order of the calls; `none` is the panic of `left.unwrap()`.
use memflow.Prelude.{
  ℕ, ◌-◌, ◌*◌, bit_and, bit_xor, Option, some, none, List, [], ◌∷◌, ◌++◌, get_or, ◌==◌, Bool,
  if◌then◌else◌,
}
use memflow.Error.Code.{Error}
use memflow.Error.Origin
use memflow.Error.Kind
use memflow.Types.Address.{Address, bit_mask, shl, shr, umem_bits, umem_max, wrapping_sub}
use memflow.Iter.Split.{SplitAtIndex, Addressed, data_split, split_inclusive_at}
use memflow.Mmu.Spec.{ArchMmuSpec}
use memflow.Mmu.TranslateData.{TranslationChunk, push_data, split_at_address, split_at_address_rev}

-- What the filter changes: the chunk, its stack, and the calls of the failure callback.
pub record Filtered {ℓ} (A : Type ℓ) : Type ℓ where
  pub chunk : TranslationChunk
  pub addrs_out : List (Addressed A)
  pub fail_out : List (Error × Addressed A)

abbrev pub out_of_range : Error
out_of_range = record { origin = Origin.mmu; kind = Kind.out_of_memory_range }

module _ (spec : ArchMmuSpec) where
  abbrev pub virt_bit_range : ℕ
  virt_bit_range = (get_or spec.virt_addr_bit_ranges 0 (0, 0)).1

  abbrev pub addr_bits : ℕ
  addr_bits = spec.def.addr_size * 8

  unfoldable pub virt_range : ℕ
  virt_range = shl 1 (virt_bit_range - 1)

  unfoldable pub arch_bit_range : ℕ
  arch_bit_range = shr umem_max (umem_bits - addr_bits)

  -- The check that the upper half has all its upper bits set.
  unfoldable pub is_negative : Address → Bool
  is_negative addr =
      let lhs = bit_mask virt_bit_range (addr_bits - 1) in bit_xor lhs (bit_and addr lhs) == 0

module _ {ℓ} {A : Type ℓ} ⦃s : SplitAtIndex A⦄ where
  -- `chunks.push_data(data, addrs_out)`.
  unfoldable pub accept : Addressed A → Filtered A → Filtered A
  accept piece st =
      let (chunk, addrs_out) = push_data st.chunk piece st.addrs_out in
      record { chunk = chunk; addrs_out = addrs_out; fail_out = st.fail_out }

  -- `fail_out.call` with the error of the filter.
  unfoldable pub reject : Addressed A → Filtered A → Filtered A
  reject piece st = record {
    chunk = st.chunk;
    addrs_out = st.addrs_out;
    fail_out = st.fail_out ++ (out_of_range, piece) ∷ [];
  }

  abbrev pub accept? : Option (Addressed A) → Filtered A → Filtered A
  accept? none st = st
  accept? (some piece) st = accept piece st

  abbrev pub reject? : Option (Addressed A) → Filtered A → Filtered A
  reject? none st = st
  reject? (some piece) st = reject piece st

  module _ (spec : ArchMmuSpec) where
    unfoldable pub filter_top : Addressed A → Filtered A → Filtered A
    filter_top higher st =
        if is_negative spec higher.addr then accept higher st else reject higher st

    abbrev pub filter_top? : Option (Addressed A) → Filtered A → Filtered A
    filter_top? none st = st
    filter_top? (some higher) st = filter_top higher st

    -- The arm of `if let Some(data) = higher`.
    unfoldable pub filter_higher : Option (Addressed A) → Filtered A → Filtered A
    filter_higher none st = st
    filter_higher (some piece) st =
        let (middle, higher) =
          split_at_address_rev piece (wrapping_sub (arch_bit_range spec) (virt_range spec)) in
        filter_top? higher (reject? middle st)

    -- The ranges after the trim.
    unfoldable pub filter_halves : Addressed A → Filtered A → Filtered A
    filter_halves left st =
        let (lower, higher) = split_at_address left (virt_range spec) in
        accept? lower (filter_higher higher st)

    unfoldable pub trimmed :
        Option (Addressed A) → Option (Addressed A) → Filtered A → Option (Filtered A)
    trimmed none over st = none
    trimmed (some left) over st = some (filter_halves left (reject? over st))

    unfoldable pub virt_addr_filter : Addressed A → Filtered A → Option (Filtered A)
    virt_addr_filter piece st =
        let (left, over) =
          split_inclusive_at ⦃s = data_split⦄ piece (bit_mask 0 (addr_bits spec - 1)) in
        trimmed left over st
