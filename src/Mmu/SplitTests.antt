-- ===== src/Mmu/SplitTests.antt =====
-- A range over three pages, split for their table entries.
use memflow.Prelude.{ℕ, ◌≡◌, refl, arith, some, List, [], ◌∷◌, map, false}
use mathlib.Core.Option
use memflow.Types.Address.{Address, bit_mask, as_mem_aligned}
use memflow.Iter.Split.{Addressed, umem_split, split_at_umem, split_at_data}
use memflow.Mmu.Def.{
  max_index_bits, pte_min_bit, virt_addr_bit_range, trailing_zeros, page_size_step_unchecked,
}
use memflow.Mmu.Spec.{from_def, fill, vtop_step, pte_addr_mask, virt_addr_to_pte_offset}
use memflow.Mmu.Arch.{x64}
use memflow.Mmu.TranslateData.{TranslationChunk, push_data, pop_data, split_at_address}
use memflow.Iter.Cells.{units}
use memflow.Iter.BaseSplits.{umem_split-IsSplit}
use memflow.Mmu.FilterLaws.{all_pieces}
use memflow.Mmu.SplitPiecesLaws.{pushed, above, below, split_pieces-pushed}
use memflow.Mmu.TranslateData
use memflow.Mmu.SplitChunk.{
  Round, Target, Splitting, take_right, keep_left, split_pieces, close_round, split_round,
  split_rounds, split_chunk,
}

program : Unit {0}
unfolding split_at_umem split_at_data as_mem_aligned bit_mask max_index_bits pte_min_bit
    virt_addr_bit_range trailing_zeros page_size_step_unchecked from_def fill vtop_step
    pte_addr_mask virt_addr_to_pte_offset x64 push_data pop_data split_at_address take_right
    keep_left split_pieces close_round split_round split_rounds split_chunk Option.bind
program = tt

abbrev chunk : TranslationChunk
chunk = record {
  pt_addr = 0x12345067;
  addr_count = 1;
  min_addr = 0x1800;
  max_addr = 0x3800;
  step = 3;
  prev_flags = record { writeable = false; nx = false };
}

abbrev pages : List (Addressed ℕ)
pages = record { addr = 0x1800; meta_addr = 0; buf = 0x2000 } ∷ []

abbrev room : Target ℕ
room = record { chunks = []; addrs = []; chunk_capacity = 64; addr_capacity = 64 }

abbrev shown : Splitting ℕ → List (Address × ℕ) × List Address
shown r = (map (λ p. (p.addr, p.buf)) r.out_target.addrs, map (λ c. c.pt_addr) r.out_target.chunks)

-- The lowest addresses come first, each with the table entry of its page.
split_three :
    Option.map shown (split_chunk ⦃s = umem_split⦄ (from_def x64) chunk pages [] room room)
    ≡ some (
      (0x1800, 0x800) ∷ (0x2000, 0x1000) ∷ (0x3000, 0x800) ∷ [],
      0x12345008 ∷ 0x12345010 ∷ 0x12345018 ∷ [],
    )
unfolding program
split_three = refl

abbrev round : Round ℕ
round = record {
  old = chunk;
  addr_stack = pages;
  tmp_stack = [];
  new_chunk = TranslateData.new 0x12345008 (record { writeable = false; nx = false });
  addrs_out = [];
  cur_max_addr = 0;
}

split_pieces-pushed_example :
    (r2 : Round ℕ) × (split_pieces ⦃s = umem_split⦄ 0x3000 1 round ≡ some r2)
    × (r2.addr_stack ≡ [])
    × (all_pieces umem_split units umem_split-IsSplit r2.addrs_out
        ≡ pushed umem_split units umem_split-IsSplit
            (above umem_split units umem_split-IsSplit 0x3000)
            pages
            [])
    × (all_pieces umem_split units umem_split-IsSplit r2.tmp_stack
        ≡ pushed umem_split units umem_split-IsSplit
            (below umem_split units umem_split-IsSplit 0x3000)
            pages
            [])
split_pieces-pushed_example =
    split_pieces-pushed umem_split units umem_split-IsSplit 0x3000 pages [] round (omega arith)
      (omega arith, tt) refl (omega arith)
