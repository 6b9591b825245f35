-- ===== src/Mmu/Tests.antt =====
-- The x64 description, and ranges around the end of its lower half.
use memflow.Prelude.{ℕ, ◌+◌, ◌-◌, ◌*◌, ◌/◌, ◌%◌, ◌^◌, ◌≡◌, refl, arith, some, [], ◌++◌, false}
use memflow.Iter.Split.{Addressed, umem_split}
use memflow.Iter.Cells.{units, data_cells}
use memflow.Iter.BaseSplits.{umem_split-IsSplit}
use memflow.Mmu.Def.{max_index_bits, pte_min_bit, virt_addr_bit_range, trailing_zeros}
use memflow.Mmu.Spec.{FlagsType, from_def, fill, vtop_step, get_phys_page, pte_addr_mask}
use memflow.Mmu.Arch.{x64}
use memflow.Mmu.ArchLaws.{x64-IsWellFormed}
use memflow.Mmu.SpecLaws.{pte_addr_mask-field, vtop_step-entry, get_phys_page-frame}
use memflow.Mmu.TranslateData
use memflow.Mmu.Filter.{Filtered, virt_addr_filter}
use memflow.Mmu.FilterLaws.{IsSized, accepted, failed}
use memflow.Mmu.FilterWrap.{virt_addr_filter-wrapped}

abbrev read_only : FlagsType
read_only = record { writeable = false; nx = false }

x64-IsSized : IsSized (from_def x64)
unfolding from_def fill virt_addr_bit_range max_index_bits x64
x64-IsSized = record { range_pos = omega arith; range_le = omega arith; bits_le = omega arith }

pte_addr_mask-field_example :
    pte_addr_mask (from_def x64) 0x8000000012345067 0
    ≡ 0x8000000012345067 / 2 ^ 12 % 2 ^ (52 - 12) * 2 ^ 12
unfolding x64 pte_min_bit trailing_zeros
pte_addr_mask-field_example =
    pte_addr_mask-field x64-IsWellFormed 0 (omega arith) 0x8000000012345067

vtop_step-entry_example :
    vtop_step (from_def x64) 0x12345067 0x7fff12345678 1
    ≡ 0x12345067 / 2 ^ 12 % 2 ^ (52 - 12) * 2 ^ 12 + 0x7fff12345678 / 2 ^ 30 % 2 ^ 9 * 8
unfolding x64 pte_min_bit trailing_zeros max_index_bits
vtop_step-entry_example =
    vtop_step-entry x64-IsWellFormed 1 (omega arith) 0x12345067 0x7fff12345678 (omega arith)

-- The 2 MiB page of a large entry at step 3.
get_phys_page-frame_example :
    (get_phys_page (from_def x64) 0x12200000 0x7fff12345678 3 read_only).address
    ≡ 0x12200000 / 2 ^ 21 % 2 ^ (52 - 21) * 2 ^ 21 + 0x7fff12345678 % 2 ^ 21
unfolding x64 pte_min_bit trailing_zeros max_index_bits
get_phys_page-frame_example =
    get_phys_page-frame x64-IsWellFormed 3 (omega arith) 0x12200000 0x7fff12345678 read_only
      (omega arith) (omega arith) refl

-- Two units on either side of the end of the lower half.
abbrev border : Addressed ℕ
border = record { addr = 0x7ffffffffffe; meta_addr = 0; buf = 4 }

abbrev nothing : Filtered ℕ
nothing = record { chunk = TranslateData.new 0x1000 read_only; addrs_out = []; fail_out = [] }

-- The last page of the address space.
abbrev last_page : Addressed ℕ
last_page = record { addr = 0xfffffffffffff000; meta_addr = 0; buf = 0x1000 }

virt_addr_filter-wrapped_example :
    (out : Filtered ℕ) × (virt_addr_filter ⦃s = umem_split⦄ (from_def x64) last_page nothing
      ≡ some out)
    × (accepted umem_split units umem_split-IsSplit out
        ≡ accepted umem_split units umem_split-IsSplit nothing)
    × (failed umem_split units umem_split-IsSplit out
        ≡ failed umem_split units umem_split-IsSplit nothing ++ data_cells units last_page)
unfolding from_def fill virt_addr_bit_range max_index_bits x64
virt_addr_filter-wrapped_example =
    virt_addr_filter-wrapped umem_split units umem_split-IsSplit x64-IsSized last_page nothing refl
      (omega arith) (omega arith) refl
