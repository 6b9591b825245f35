-- ===== src/Mmu/SpecLaws.antt =====
-- What a step of the walk computes, for a well-formed description.
use memflow.Prelude.{
  ℕ, ◌+◌, ◌-◌, ◌*◌, ◌/◌, ◌%◌, ◌^◌, ◌≤◌, ◌<◌, ◌≡◌, ◌≢◌, arith, ap, sym, ◌∙◌, length, ne→==,
}
use native.Mathlib.Nat.{zero-add, mul_assoc, mod-lt, mod-eq_of_lt}
use memflow.Prelude.Bits.{bit_and_field, bit_or_disjoint}
use memflow.Prelude.Pow.{pow-add, pow_pos, pow_mono, mod-pow-add, div-pow-add}
use memflow.Types.Address.{Address}
use memflow.Types.AddressLaws.{bit_mask-field}
use memflow.Types.PhysAddr.{with_page}
use memflow.Mmu.Def.{
  ArchMmuDef, max_index_bits, pte_min_bit, virt_addr_bit_range, split_at_step, trailing_zeros,
}
use memflow.Mmu.Spec.{
  FlagsType, from_def, pte_mask_of, virt_mask_of, page_mask_of, pte_addr_mask,
  virt_addr_to_pte_offset, virt_addr_to_page_offset, vtop_step, get_phys_page,
}
use memflow.Mmu.TableLaws.{IsWellFormed, get_or-fill, split-le-bits, low_mask, scaled-lt}

module _ {def : ArchMmuDef} (wf : IsWellFormed def) (step : ℕ)
    (valid : step < length def.virtual_address_splits) where
  abbrev low : ℕ
  low = pte_min_bit def step

  abbrev top : ℕ
  top = max_index_bits def step

  -- At every step of a well-formed description, the mask of a table entry keeps the bits from the
  -- lowest one of the step to the bound of the address space.
  pub pte_addr_mask-field :
      (pte : Address)
      → pte_addr_mask (from_def def) pte step
        ≡ pte / 2 ^ low % 2 ^ (def.address_space_bits - low) * 2 ^ low
  unfolding pte_addr_mask from_def
  pte_addr_mask-field pte =
      let bound = wf.entry_bits step valid in
      let width : def.address_space_bits - 1 + 1 - low ≡ def.address_space_bits - low =
        omega (arith, wf.space_pos) in
      rw
        (
          get_or-fill (pte_mask_of def) 0 0 (length def.virtual_address_splits) 8 0 step
              (omega (arith, wf.levels)) (omega arith),
          zero-add step,
          bit_mask-field low (def.address_space_bits - 1) (omega arith)
              (omega (arith, bound, wf.space_le)) (omega (arith, wf.space_le, wf.space_pos)),
          width,
        )
        (bit_and_field low (def.address_space_bits - low) pte)

  abbrev split : ℕ
  split = split_at_step def step

  split_bounds : (0 < split) × (split ≤ top) × (top ≤ 64)
  unfolding max_index_bits
  split_bounds = (
    wf.split_pos step valid,
    split-le-bits def.virtual_address_splits step,
    wf.index_bits step valid,
  )

  low_inner :
      step ≢ length def.virtual_address_splits - 1 → low ≡ split + trailing_zeros 64 def.pte_size
  unfolding pte_min_bit
  low_inner inner = rw (ne→== step (length def.virtual_address_splits - 1) inner)

  index-lt :
      (virt : ℕ)
      → step ≢ length def.virtual_address_splits - 1
      → virt / 2 ^ (top - split) % 2 ^ split * def.pte_size < 2 ^ low
  index-lt virt inner =
      let x = virt / 2 ^ (top - split) % 2 ^ split in
      omega (
        arith,
        ap (λ (t : ℕ). x * t) wf.entry,
        ap (λ (t : ℕ). 2 ^ t) (low_inner inner),
        scaled-lt x split (trailing_zeros 64 def.pte_size)
            (mod-lt (virt / 2 ^ (top - split)) (pow_pos split)),
      )

  offset-lt :
      (virt : ℕ)
      → step ≢ length def.virtual_address_splits - 1
      → virt / 2 ^ (top - split) % 2 ^ split * def.pte_size < 2 ^ 64
  offset-lt virt inner = omega (
    arith,
    index-lt virt inner,
    pow_mono low 64 (omega (arith, wf.space_le, wf.entry_bits step valid)),
  )

  -- The index into a table is the field of the address that the splits give to the step.
  pub virt_addr_to_pte_offset-index :
      (virt : Address)
      → step ≢ length def.virtual_address_splits - 1
      → virt_addr_to_pte_offset (from_def def) virt step
        ≡ virt / 2 ^ (top - split) % 2 ^ split * def.pte_size
  unfolding virt_addr_to_pte_offset from_def virt_addr_bit_range
  virt_addr_to_pte_offset-index virt inner =
      let width : top - (top - split) ≡ split = omega (arith, split_bounds) in
      let x = virt / 2 ^ (top - split) % 2 ^ split in
      let fits : x * def.pte_size % 2 ^ 64 ≡ x * def.pte_size =
        mod-eq_of_lt (offset-lt virt inner) in
      rw
        (
          get_or-fill (virt_addr_bit_range def) (0, 0) (0, 0) (length def.virtual_address_splits) 8
              0 step (omega (arith, wf.levels)) (omega arith),
          get_or-fill (virt_mask_of def) 0 0 (length def.virtual_address_splits) 8 0 step
              (omega (arith, wf.levels)) (omega arith),
          zero-add step,
          width,
          low_mask split (virt / 2 ^ (top - split)) split_bounds.0 (omega (arith, split_bounds)),
        )
        fits

  pub virt_addr_to_page_offset-rest :
      (virt : Address) → virt_addr_to_page_offset (from_def def) virt step ≡ virt % 2 ^ top
  unfolding virt_addr_to_page_offset from_def virt_addr_bit_range
  virt_addr_to_page_offset-rest virt =
      rw
        (
          get_or-fill (page_mask_of def) 0 0 (length def.virtual_address_splits) 8 0 step
              (omega (arith, wf.levels)) (omega arith),
          zero-add step,
        )
        (low_mask top virt (omega (arith, split_bounds)) split_bounds.2)

  -- At every step of a well-formed description but the last, the walk leads to the entry of the next
  -- table that the virtual address selects: the base of the table from the entry, plus the index from
  -- the splits times the size of an entry.
  pub vtop_step-entry :
      (pte virt : Address)
      → step ≢ length def.virtual_address_splits - 1
      → vtop_step (from_def def) pte virt step
        ≡ pte / 2 ^ low % 2 ^ (def.address_space_bits - low) * 2 ^ low
          + virt / 2 ^ (top - split) % 2 ^ split * def.pte_size
  unfolding vtop_step
  vtop_step-entry pte virt inner =
      rw (pte_addr_mask-field pte, virt_addr_to_pte_offset-index virt inner)
        (bit_or_disjoint low (pte / 2 ^ low % 2 ^ (def.address_space_bits - low)) _
          (index-lt virt inner))

  -- An entry whose bits below the page size are clear names the page's frame.
  frame-field :
      (pte : Address)
      → low ≤ top
      → top ≤ def.address_space_bits
      → pte / 2 ^ low % 2 ^ (top - low) ≡ 0
      → pte / 2 ^ low % 2 ^ (def.address_space_bits - low) * 2 ^ low
        ≡ pte / 2 ^ top % 2 ^ (def.address_space_bits - top) * 2 ^ top
  frame-field pte le le' aligned =
      let inner = top - low in
      let upper = def.address_space_bits - top in
      let whole : inner + upper ≡ def.address_space_bits - low = omega arith in
      let up : low + inner ≡ top = omega arith in
      let x = pte / 2 ^ low in
      let field : x % 2 ^ (def.address_space_bits - low) ≡ x / 2 ^ inner % 2 ^ upper * 2 ^ inner =
        omega (arith, mod-pow-add x inner upper, ap (λ (t : ℕ). x % 2 ^ t) whole) in
      let high : pte / 2 ^ top ≡ x / 2 ^ inner =
        sym (ap (λ (t : ℕ). pte / 2 ^ t) up) ∙ div-pow-add pte low inner in
      let place : 2 ^ top ≡ 2 ^ inner * 2 ^ low =
        omega (arith, pow-add low inner, ap (λ (t : ℕ). 2 ^ t) up) in
      rw (field, high, place) (mul_assoc (x / 2 ^ inner % 2 ^ upper) (2 ^ inner) (2 ^ low))

  -- At a step of a well-formed description whose page is no smaller than the unit of its entries and
  -- no larger than the address space, an entry with no bits set between the two gives the physical
  -- address of the frame of the page plus the offset of the virtual address in the page.
  pub get_phys_page-frame :
      (pte virt : Address) (flags : FlagsType)
      → low ≤ top
      → top ≤ def.address_space_bits
      → pte / 2 ^ low % 2 ^ (top - low) ≡ 0
      → (get_phys_page (from_def def) pte virt step flags).address
        ≡ pte / 2 ^ top % 2 ^ (def.address_space_bits - top) * 2 ^ top + virt % 2 ^ top
  unfolding get_phys_page with_page
  get_phys_page-frame pte virt flags le le' aligned =
      rw
        (
          pte_addr_mask-field pte,
          virt_addr_to_page_offset-rest virt,
          frame-field pte le le' aligned,
        )
        (bit_or_disjoint top (pte / 2 ^ top % 2 ^ (def.address_space_bits - top)) (virt % 2 ^ top)
          (mod-lt virt (pow_pos top)))
