-- ===== src/Mmu/SplitChunk.antt =====
-- `split_chunk` of memflow/src/mem/virt_translate/mmu/translate_data.rs, for the chunk of one page
-- table. A stack is a list whose first entry is its top, and `none` is the panic of `unwrap`; the
-- panic of a push beyond the capacity of a stack is left out, the choice by capacity is not.
use memflow.Prelude.{
  ℕ, zero, suc, ◌+◌, ◌-◌, ◌*◌, ◌/◌, Option, some, none, List, ◌∷◌, Bool, false, not, ◌&&◌, ltb, leb,
  length, get_or, if◌then◌else◌, max,
}
use mathlib.Core.Option
use memflow.Types.Address.{Address, add, sub, umem_max, as_mem_aligned}
use memflow.Iter.Split.{SplitAtIndex, Addressed}
use memflow.Mmu.Spec.{ArchMmuSpec, vtop_step}
use memflow.Mmu.TranslateData
use memflow.Mmu.TranslateData.{TranslationChunk, push_data, pop_data, split_at_address}

-- A pair of stacks with the capacities that they were allocated with.
pub record Target {ℓ} (A : Type ℓ) : Type ℓ where
  pub chunks : List TranslationChunk
  pub addrs : List (Addressed A)
  pub chunk_capacity : ℕ
  pub addr_capacity : ℕ

abbrev pub with_stacks {ℓ} :
    {A : Type ℓ} → Target A → List TranslationChunk → List (Addressed A) → Target A
with_stacks t chunks addrs = record t { chunks = chunks; addrs = addrs }

-- What one round changes: the chunk that is split, with the stack that it is popped from and the
-- one for what is left of it, the chunk of the round with the stack that its pieces go to, and the
-- highest end of what is left.
pub record Round {ℓ} (A : Type ℓ) : Type ℓ where
  pub old : TranslationChunk
  pub addr_stack : List (Addressed A)
  pub tmp_stack : List (Addressed A)
  pub new_chunk : TranslationChunk
  pub addrs_out : List (Addressed A)
  pub cur_max_addr : ℕ

-- What the whole loop changes. The references to the two stacks are swapped after every round, so
-- `swapped` tells which of the caller's stacks each is.
pub record Splitting {ℓ} (A : Type ℓ) : Type ℓ where
  pub chunk : TranslationChunk
  pub addr_stack : List (Addressed A)
  pub tmp_stack : List (Addressed A)
  pub swapped : Bool
  pub out_target : Target A
  pub wait_target : Target A
  pub cur_max_addr : ℕ

-- `page_size_step_unchecked` of the description's tables.
abbrev pub size_at : ArchMmuSpec → ℕ → ℕ
size_at spec step = get_or spec.page_size_step step 0

module _ {ℓ} {A : Type ℓ} ⦃s : SplitAtIndex A⦄ where
  -- `if let Some(data) = right`.
  unfoldable pub take_right : Option (Addressed A) → Round A → Round A
  take_right none r = r
  take_right (some piece) r =
      let (new_chunk, addrs_out) = push_data r.new_chunk piece r.addrs_out in
      record r { new_chunk = new_chunk; addrs_out = addrs_out }

  -- `if let Some(data) = left`.
  unfoldable pub keep_left : Option (Addressed A) → Round A → Round A
  keep_left none r = r
  keep_left (some piece) r =
      let (old, tmp_stack) = push_data r.old piece r.tmp_stack in
      record r {
        old = old;
        tmp_stack = tmp_stack;
        cur_max_addr = max (add piece.addr (s.size piece.buf)) r.cur_max_addr;
      }

  -- The inner loop: every piece of the chunk is split at `addr`.
  unfoldable pub split_pieces : Address → ℕ → Round A → Option (Round A)
  split_pieces addr zero r = some r
  split_pieces addr (suc left) r =
      let (old, popped) = pop_data r.old r.addr_stack in
      let r2 = record r { old = old; addr_stack = popped.1 } in
      Option.bind popped.0 (λ piece.
        let (below, above) = split_at_address piece addr in
        split_pieces addr left (keep_left below (take_right above r2)))

  -- The end of a round: the new chunk goes to its stack, and the stacks are swapped.
  unfoldable pub close_round : ℕ → Bool → Splitting A → Round A → Splitting A
  close_round step to_out st r =
      let out_target = st.out_target in
      let wait_target = st.wait_target in
      let new_chunk = record r.new_chunk { step = step } in
      let chunks_out = if to_out then out_target.chunks else wait_target.chunks in
      let chunks = if ltb 0 r.new_chunk.addr_count then new_chunk ∷ chunks_out else chunks_out in
      record {
        chunk = r.old;
        addr_stack = r.tmp_stack;
        tmp_stack = r.addr_stack;
        swapped = not st.swapped;
        out_target = if to_out then with_stacks out_target chunks r.addrs_out else out_target;
        wait_target = if to_out then wait_target else with_stacks wait_target chunks r.addrs_out;
        cur_max_addr = r.cur_max_addr;
      }

  module _ (spec : ArchMmuSpec) where
    -- Whether `out_target` has room for what may be left to push.
    abbrev pub has_room : Target A → ℕ → ℕ → Bool
    has_room t addr_count remaining =
        leb (length t.chunks + remaining) t.chunk_capacity
        && leb (length t.addrs + addr_count * remaining) t.addr_capacity

    -- The body of the outer loop, at the table entry that serves `addr`.
    unfoldable pub split_round : ℕ → Address → Splitting A → Option (Splitting A)
    split_round lower addr st =
        let chunk = st.chunk in
        let remaining = (addr - lower) / size_at spec (chunk.step + 1) + 1 in
        let to_out = has_room st.out_target chunk.addr_count remaining in
        let addrs = if to_out then st.out_target.addrs else st.wait_target.addrs in
        let pt_addr = vtop_step spec chunk.pt_addr addr chunk.step in
        Option.map (close_round chunk.step to_out st) (
          split_pieces addr chunk.addr_count (record {
            old = chunk;
            addr_stack = st.addr_stack;
            tmp_stack = st.tmp_stack;
            new_chunk = TranslateData.new pt_addr chunk.prev_flags;
            addrs_out = addrs;
            cur_max_addr = 0;
          }))

    -- The outer loop, from the highest table entry down; an entry above all that is left is skipped.
    unfoldable pub split_rounds : ℕ → ℕ → ℕ → Address → Splitting A → Option (Splitting A)
    split_rounds zero lower step_size addr st = some st
    split_rounds (suc left) lower step_size addr st =
        let next = if ltb st.cur_max_addr addr then some st else split_round lower addr st in
        Option.bind next (split_rounds left lower step_size (addr - step_size))

    unfoldable pub split_chunk :
        TranslationChunk
        → List (Addressed A)
        → List (Addressed A)
        → Target A
        → Target A
        → Option (Splitting A)
    split_chunk chunk addr_stack tmp_addr_stack out_target wait_target =
        let step_size = size_at spec (chunk.step + 1) in
        let upper = as_mem_aligned (sub chunk.max_addr 1) step_size in
        let lower = as_mem_aligned chunk.min_addr step_size in
        split_rounds ((upper - lower) / step_size + 1) lower step_size upper (record {
          chunk = chunk;
          addr_stack = addr_stack;
          tmp_stack = tmp_addr_stack;
          swapped = false;
          out_target = out_target;
          wait_target = wait_target;
          cur_max_addr = umem_max;
        })
