-- ===== src/Mmu/WalkTests.antt =====
-- Two waiting chunks and room for three pieces; a chunk of two pieces at the last table.
use memflow.Prelude.{
  ℕ, ◌+◌, ◌≡◌, refl, arith, some, List, [], ◌∷◌, ◌++◌, map, false, true, inl, set, get_or,
}
use memflow.Types.Address.{Address, bit_at}
use memflow.Iter.Split.{Addressed, umem_split}
use memflow.Mmu.Spec.{from_def, check_entry, is_final_mapping}
use memflow.Mmu.Arch.{x64}
use memflow.Mmu.TranslateData.{TranslationChunk}
use memflow.Mmu.Filter.{out_of_range}
use memflow.Mmu.SplitChunk.{Target}
use memflow.Mmu.Refill.{refill_stack}
use memflow.Mmu.RefillMoves.{IsCounted, tabled, turn_onto}
use memflow.Mmu.RefillLaws.{Bounded, refill_stack_lem}
use memflow.Mmu.Walk.{Walk, translated, current, repeats, work_chunk}
use memflow.Mmu.WalkLaws.{work_chunk-failed, work_chunk-finished}

abbrev piece : ℕ → Addressed ℕ
piece a = record { addr = a; meta_addr = 0; buf = 0x1000 }

-- A chunk at the page table, whose entry is `pt_addr`.
abbrev chunk_at : Address → ℕ → TranslationChunk
chunk_at pt_addr n = record {
  pt_addr = pt_addr;
  addr_count = n;
  min_addr = 0x1000;
  max_addr = 0x5000;
  step = 3;
  prev_flags = record { writeable = false; nx = false };
}

abbrev waiting : Target ℕ
waiting = record {
  chunks = chunk_at 0x7000 2 ∷ chunk_at 0x8000 2 ∷ [];
  addrs = piece 0x1000 ∷ piece 0x2000 ∷ piece 0x3000 ∷ piece 0x4000 ∷ [];
  chunk_capacity = 8;
  addr_capacity = 8;
}

abbrev working : Target ℕ
working = record { chunks = []; addrs = []; chunk_capacity = 4; addr_capacity = 3 }

refill_stack_lem_example :
    (r : Target ℕ × Target ℕ) × (refill_stack ⦃s = umem_split⦄ working waiting ≡ some r)
    × (IsCounted r.0 × IsCounted r.1)
    × Bounded umem_split r.0
    × (turn_onto (tabled r.0.chunks r.0.addrs) (tabled r.1.chunks r.1.addrs)
        ≡ turn_onto (tabled working.chunks working.addrs) (tabled waiting.chunks waiting.addrs))
refill_stack_lem_example =
    refill_stack_lem umem_split working waiting refl refl (omega arith, omega arith)

abbrev walk : Walk ℕ
walk = record {
  working_addrs = [];
  next_working = working;
  waiting = working;
  tmp_addrs = [];
  out = [];
  out_fail = [];
  prev_pt_address = (0, 0) ∷ (0, 0) ∷ (0, 0) ∷ (0, 0) ∷ (0, 0) ∷ [];
}

abbrev two : List (Addressed ℕ)
two = piece 0x1000 ∷ piece 0x2000 ∷ []

-- An entry whose present bit is clear, and one whose present bit is set at the last table.
absent : check_entry (from_def x64) 0x9000 (3 + 1 + 1) ≡ false
unfolding from_def check_entry x64 bit_at
absent = refl

present : check_entry (from_def x64) 0x9001 (3 + 1 + 1) ≡ true
unfolding from_def check_entry x64 bit_at
present = refl

last_table : is_final_mapping (from_def x64) 0x9001 (3 + 1) ≡ true
unfolding from_def is_final_mapping x64 bit_at
last_table = refl

fresh :
    repeats (current (from_def x64) (chunk_at 0x9001 2)) (get_or walk.prev_pt_address 3 (0, 0))
    ≡ false
fresh = refl

work_chunk-failed_example :
    work_chunk ⦃s = umem_split⦄
      (from_def x64)
      (chunk_at 0x9000 2)
      (record walk { working_addrs = two ++ [] })
    ≡ some (record walk {
      prev_pt_address = set walk.prev_pt_address 3 (current (from_def x64) (chunk_at 0x9000 2));
      working_addrs = [];
      out_fail = walk.out_fail ++ map (λ entry. (out_of_range, entry)) two;
    })
work_chunk-failed_example =
    work_chunk-failed umem_split (from_def x64) (chunk_at 0x9000 2) two [] walk refl (inl absent)

work_chunk-finished_example :
    work_chunk ⦃s = umem_split⦄
      (from_def x64)
      (chunk_at 0x9001 2)
      (record walk { working_addrs = two ++ [] })
    ≡ some (record walk {
      prev_pt_address = set walk.prev_pt_address 3 (current (from_def x64) (chunk_at 0x9001 2));
      working_addrs = [];
      out =
          walk.out
          ++ map (translated (from_def x64) 0x9001 (3 + 1) (chunk_at 0x9001 2).prev_flags) two;
    })
work_chunk-finished_example =
    work_chunk-finished umem_split (from_def x64) (chunk_at 0x9001 2) two [] walk refl present fresh
      last_table
