-- ===== src/Mmu/RunTests.antt =====
-- A walk of one page through the four tables of x86-64.
use memflow.Prelude.{
  ℕ, zero, suc, ◌≡◌, refl, Option, some, none, List, [], ◌∷◌, ◌++◌, Bool, true, false, map, ◌==◌,
  ◌/◌, ◌%◌, ◌^◌, if◌then◌else◌, length, length-map, All, ap, sym, ◌∙◌,
}
use memflow.Prelude.Results.{Result, ok, err}
use mathlib.Core.Option
use memflow.Error.Code.{Error}
use memflow.Types.Address.{as_mem_aligned, bit_at, bit_mask, clamp_to_usize, wrapping_sub}
use memflow.Types.PhysAddr.{PhysicalAddress, bit_length, with_page}
use memflow.Mmu.Iterate
use memflow.Mmu.Spec
use memflow.Mmu.Refill.{move_pieces, refill}
use memflow.Mmu.Def
use memflow.Mmu.Def.{
  max_index_bits, page_size_step_unchecked, pt_leaf_size, pte_min_bit, spare_allocs, trailing_zeros,
  virt_addr_bit_range,
}
use memflow.Types.Page.{noexec, write}
use memflow.Iter.Split.{
  Addressed, umem_split, split_at_data, split_at_rev, split_inclusive_at, split_at_umem,
}
use memflow.Mmu.Spec.{
  from_def, ArchMmuSpec, check_entry, get_phys_page, is_final_mapping, mark_steps, page_size_step,
  virt_addr_to_page_offset, virt_addr_to_pte_offset, vtop_step,
}
use memflow.Mmu.Arch.{x64}
use memflow.Mmu.TranslateData.{
  TranslationChunk, pop_data, update_flags, next_max_addr_count, push_data, split_at_address,
  split_at_address_rev,
}
use memflow.Mmu.SplitChunk.{
  close_round, keep_left, split_chunk, split_pieces, split_round, split_rounds, take_right,
}
use memflow.Mmu.Filter.{
  out_of_range, accept, arch_bit_range, filter_halves, filter_higher, filter_top, is_negative,
  reject, trimmed, virt_addr_filter, virt_range,
}
use memflow.Mmu.Walk.{
  ReadMem, Translated, read_pt_address_iter, buf_to_addr, fill_init_chunk, fill_loop, finish_pieces,
  judge, load_entry, work_chunk, work_through_stack, fail_pieces,
}
use memflow.Mmu.ReadLaws.{AnswersAll}
use memflow.Mmu.KeepLaws.{IsPage}
use memflow.Mmu.RunLaws.{Runs-IsPage}
use memflow.Mmu.GiveUpLaws.{IsTold, walk_round-failed_read}
use memflow.Mmu.Iterate.{
  Walking, Calls, Round, more, done, walk_round, start, Runs, ends, goes, after_read, next_stacks,
  give_up, drain,
}

abbrev spec : ArchMmuSpec
spec = from_def x64

abbrev bytes_of : ℕ → List ℕ
bytes_of e = (e % 256) ∷ (e / 256 % 256) ∷ (e / 2 ^ 16 % 256) ∷ 0 ∷ 0 ∷ 0 ∷ 0 ∷ 0 ∷ []

-- Four tables, each with one present entry.
abbrev entry_at : PhysicalAddress → List ℕ
entry_at a =
    if a.address == 0x10000
    then bytes_of 0x11001
    else if a.address == 0x11000
    then bytes_of 0x12001
    else if a.address == 0x12000
    then bytes_of 0x13001
    else if a.address == 0x13008
    then bytes_of 0x99001
    else bytes_of 0

abbrev tables : ReadMem
tables requests size = ok (map entry_at requests)

abbrev all_taken : Error × Addressed ℕ → Bool
all_taken call = true

abbrev run_on : Option (Round ℕ) → (Walking ℕ → Option (Calls ℕ)) → Option (Calls ℕ)
run_on none rest = none
run_on (some (done calls)) rest = some calls
run_on (some (more st)) rest = rest st

abbrev run : ℕ → Walking ℕ → Option (Calls ℕ)
run zero st = none
run (suc n) st = run_on (walk_round ⦃s = umem_split⦄ spec 0x10000 tables all_taken st) (run n)

abbrev walked : Option (Calls ℕ)
walked =
    Option.bind
      (start ⦃s = umem_split⦄ spec 0x10000 tables all_taken 4 8 8
        (record { addr = 0x1234; meta_addr = 7; buf = 0x1000 } ∷ []))
      (run 12)

abbrev last_chunk : TranslationChunk
last_chunk = record {
  pt_addr = 0x13008;
  addr_count = 1;
  min_addr = 0x1234;
  max_addr = 0x2000;
  step = 3;
  prev_flags = record { writeable = false; nx = false };
}

abbrev at_last_table : Walking ℕ
at_last_table = record {
  working = record {
    chunks = last_chunk ∷ [];
    addrs = record { addr = 0x1234; meta_addr = 7; buf = 0xdcc } ∷ [];
    chunk_capacity = 4;
    addr_capacity = 4;
  };
  next_working = record { chunks = []; addrs = []; chunk_capacity = 4; addr_capacity = 4 };
  waiting = record { chunks = []; addrs = []; chunk_capacity = 8; addr_capacity = 8 };
  tmp_addrs = [];
  addrs = [];
  out = [];
  out_fail = [];
  prev_pt_address = (0, 0) ∷ (0, 0) ∷ (0, 0) ∷ (0, 0) ∷ (0, 0) ∷ [];
}

abbrev page_out : List (Translated ℕ)
page_out =
    record {
      phys = record { address = 0x99234; page_type = 8; page_size_log2 = 11 };
      meta_addr = 7;
      buf = 0xdcc;
    }
    ∷ []

abbrev after_last : Walking ℕ
after_last = record at_last_table {
  working = at_last_table.next_working;
  out = page_out;
  prev_pt_address = (0, 0) ∷ (0, 0) ∷ (0, 0) ∷ (0x99001, 0x1000) ∷ (0, 0) ∷ [];
}

abbrev last_calls : Calls ℕ
last_calls = record { out = page_out; out_fail = [] }

last_round :
    walk_round ⦃s = umem_split⦄ spec 0x10000 tables all_taken at_last_table ≡ some (more after_last)
unfolding walk_round after_read read_pt_address_iter work_through_stack work_chunk judge check_entry
    load_entry update_flags from_def x64 bit_at buf_to_addr with_page is_final_mapping next_stacks
    Iterate.fill move_pieces refill get_phys_page max_index_bits page_size_step_unchecked
    pt_leaf_size pte_min_bit spare_allocs trailing_zeros virt_addr_bit_range Spec.fill mark_steps
    Def.pte_addr_mask virt_addr_to_page_offset pop_data finish_pieces fill_init_chunk fill_loop
    as_mem_aligned bit_mask clamp_to_usize wrapping_sub noexec write bit_length Spec.pte_addr_mask
    page_size_step Option.bind
last_round = refl

over : walk_round ⦃s = umem_split⦄ spec 0x10000 tables all_taken after_last ≡ some (done last_calls)
unfolding walk_round
over = refl

tables-AnswersAll : AnswersAll tables
tables-AnswersAll requests size bufs e =
    ap length (sym (ok-injective _ _ e)) ∙ length-map requests entry_at
  where
    ok-injective : (a b : List (List ℕ)) → Path (Result (List (List ℕ)) Error) (ok a) (ok b) → a ≡ b
    ok-injective a b e = cc

Runs-IsPage_example : All (IsPage spec tables) page_out
Runs-IsPage_example =
    Runs-IsPage umem_split spec tables 0x10000 all_taken tables-AnswersAll at_last_table last_calls
      (goes last_round (ends over)) tt

abbrev out_of_memory : Error
out_of_memory = out_of_range

abbrev failing : ReadMem
failing requests size = err out_of_memory

walk_round-failed_read_example :
    (told : List (Addressed ℕ)) × IsTold all_taken out_of_memory
      (at_last_table.working.addrs ++ [])
      told
    × (walk_round ⦃s = umem_split⦄ spec 0x10000 failing all_taken at_last_table
        ≡ some (done (record { out = []; out_fail = [] ++ map (λ p. (out_of_memory, p)) told })))
unfolding read_pt_address_iter
walk_round-failed_read_example =
    walk_round-failed_read umem_split spec 0x10000 failing all_taken at_last_table (last_chunk) []
      out_of_memory refl refl

-- The page is found, and the rest of the buffer, on the next page, has no entry.
walked_out :
    walked
    ≡ some (record {
      out = page_out;
      out_fail = (out_of_range, record { addr = 0x2000; meta_addr = 3539; buf = 0x234 }) ∷ [];
    })
unfolding walk_round after_read read_pt_address_iter work_through_stack work_chunk judge check_entry
    load_entry update_flags from_def x64 bit_at buf_to_addr with_page is_final_mapping next_stacks
    Iterate.fill move_pieces refill get_phys_page max_index_bits page_size_step_unchecked
    pt_leaf_size pte_min_bit spare_allocs trailing_zeros virt_addr_bit_range Spec.fill mark_steps
    Def.pte_addr_mask virt_addr_to_page_offset pop_data finish_pieces fill_init_chunk fill_loop
    as_mem_aligned bit_mask clamp_to_usize wrapping_sub noexec write bit_length Spec.pte_addr_mask
    page_size_step Option.bind start give_up drain split_at_data split_at_rev split_inclusive_at
    accept arch_bit_range filter_halves filter_higher filter_top is_negative reject trimmed
    virt_addr_filter virt_range virt_addr_to_pte_offset vtop_step close_round keep_left split_chunk
    split_pieces split_round split_rounds take_right next_max_addr_count push_data split_at_address
    split_at_address_rev fail_pieces split_at_umem
walked_out = refl
