-- ===== src/Mmu/Spec.antt =====
-- memflow/src/mem/virt_translate/mmu/spec.rs: the tables of `ArchMmuSpec`, and the functions that
-- read them. `to_le` and `from_le` are the identity on a little-endian host.
use memflow.Prelude.{
  ℕ, zero, suc, ◌+◌, ◌-◌, ◌*◌, ◌/◌, ◌%◌, ◌^◌, bit_and, bit_or, Bool, true, false, ◌&&◌, ◌||◌, List,
  [], ◌∷◌, length, get_or, set, replicate, ltb, ◌==◌, if◌then◌else◌,
}
use memflow.Types.Address.{Address, bit_mask}
use memflow.Types.Page
use memflow.Types.PhysAddr.{PhysicalAddress, with_page}
use memflow.Mmu.Def.{
  ArchMmuDef, max_index_bits, pte_min_bit, virt_addr_bit_range, spare_allocs,
  page_size_step_unchecked,
}
use memflow.Mmu.Def

abbrev pub max_levels : ℕ
max_levels = 8

pub record ArchMmuSpec : Type 0 where
  pub def : ArchMmuDef
  pub pte_addr_masks : List ℕ
  pub virt_addr_bit_ranges : List (ℕ × ℕ)
  pub virt_addr_masks : List ℕ
  pub virt_addr_page_masks : List ℕ
  pub valid_final_page_steps : List Bool
  pub pt_leaf_size : List ℕ
  pub page_size_step : List ℕ
  pub spare_allocs : ℕ

-- An array of `left` entries from index `i` on, filled for the first `len` indices.
unfoldable pub fill {ℓ} : {A : Type ℓ} → (ℕ → A) → A → ℕ → ℕ → ℕ → List A
fill f blank len zero i = []
fill f blank len (suc left) i = (if ltb i len then f i else blank) ∷ fill f blank len left (i + 1)

-- The second loop of `from_def`.
unfoldable pub mark_steps : List ℕ → List Bool → List Bool
mark_steps [] marks = marks
mark_steps (step ∷ steps) marks = mark_steps steps (set marks step true)

-- The entries that the loop of `from_def` computes for one level.
abbrev pub pte_mask_of : ArchMmuDef → ℕ → ℕ
pte_mask_of def i = bit_mask (pte_min_bit def i) (def.address_space_bits - 1)

abbrev pub virt_mask_of : ArchMmuDef → ℕ → ℕ
virt_mask_of def i = let (min, max) = virt_addr_bit_range def i in bit_mask 0 (max - min - 1)

abbrev pub page_mask_of : ArchMmuDef → ℕ → ℕ
page_mask_of def i = let (min, max) = virt_addr_bit_range def i in bit_mask 0 (max - 1)

-- `from_def`.
unfoldable pub from_def : ArchMmuDef → ArchMmuSpec
from_def def =
    let len = length def.virtual_address_splits in
    record {
      def = def;
      pte_addr_masks = fill (pte_mask_of def) 0 len max_levels 0;
      virt_addr_bit_ranges = fill (virt_addr_bit_range def) (0, 0) len max_levels 0;
      virt_addr_masks = fill (virt_mask_of def) 0 len max_levels 0;
      virt_addr_page_masks = fill (page_mask_of def) 0 len max_levels 0;
      valid_final_page_steps = mark_steps def.valid_final_page_steps (replicate max_levels false);
      pt_leaf_size = fill (Def.pt_leaf_size def) 0 len max_levels 0;
      page_size_step = fill (page_size_step_unchecked def) 0 len max_levels 0;
      spare_allocs = spare_allocs def;
    }

-- `FlagsType` of translate_data.rs: bit 0 is "writeable", bit 1 is "no-execute".
pub record FlagsType : Type 0 where
  pub writeable : Bool
  pub nx : Bool

module _ (spec : ArchMmuSpec) where
  unfoldable pub pte_addr_mask : Address → ℕ → ℕ
  pte_addr_mask pte_addr step = bit_and pte_addr (get_or spec.pte_addr_masks step 0)

  unfoldable pub virt_addr_to_pte_offset : Address → ℕ → ℕ
  virt_addr_to_pte_offset virt_addr step =
      let shift = (get_or spec.virt_addr_bit_ranges step (0, 0)).0 in
      bit_and (virt_addr / 2 ^ shift) (get_or spec.virt_addr_masks step 0)
      * spec.def.pte_size
      % 2 ^ 64

  unfoldable pub virt_addr_to_page_offset : Address → ℕ → ℕ
  virt_addr_to_page_offset virt_addr step =
      bit_and virt_addr (get_or spec.virt_addr_page_masks step 0)

  unfoldable pub vtop_step : Address → Address → ℕ → Address
  vtop_step pte_addr virt_addr step =
      bit_or (pte_addr_mask pte_addr step) (virt_addr_to_pte_offset virt_addr step)

  unfoldable pub page_size_step : ℕ → ℕ
  page_size_step step = get_or spec.page_size_step step 0

  unfoldable pub page_size_level : ℕ → ℕ
  page_size_level level = page_size_step (length spec.def.virtual_address_splits - level)

  unfoldable pub get_phys_page : Address → Address → ℕ → FlagsType → PhysicalAddress
  get_phys_page pte_addr virt_addr step prev_flags =
      let phys_addr =
        bit_or (pte_addr_mask pte_addr step) (virt_addr_to_page_offset virt_addr step) in
      with_page phys_addr
        (Page.noexec
          (Page.write Page.unknown (spec.def.writeable_bit pte_addr prev_flags.writeable))
          (spec.def.nx_bit pte_addr prev_flags.nx))
        (page_size_step step)

  unfoldable pub check_entry : Address → ℕ → Bool
  check_entry pte_addr step = step == 0 || spec.def.present_bit pte_addr

  unfoldable pub is_final_mapping : Address → ℕ → Bool
  is_final_mapping pte_addr step =
      step == length spec.def.virtual_address_splits - 1
      || (spec.def.large_page_bit pte_addr && get_or spec.valid_final_page_steps step false)
