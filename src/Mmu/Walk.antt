-- ===== src/Mmu/Walk.antt =====
-- The rounds of the page walk in memflow/src/mem/virt_translate/mmu/spec.rs and mod.rs: the read of
-- the table entries, the verdict on each chunk, and the chunk that starts the walk. Stacks are lists,
-- top first. The physical memory is a parameter; the callbacks are lists of their calls, in order,
-- and their answers are ignored, as in the source. `none` is a panic.
use memflow.Prelude.{
  ℕ, zero, suc, ◌+◌, ◌*◌, ◌^◌, Option, some, none, List, [], ◌∷◌, ◌++◌, Bool, false, not, ◌&&◌,
  ◌||◌, ltb, leb, ◌==◌, get_or, set, map, if◌then◌else◌,
}
use memflow.Prelude.Results.{Result, ok, err}
use mathlib.Core.Option
use memflow.Error.Code.{Error}
use memflow.Types.Address.{Address, as_mem_aligned}
use memflow.Types.Page
use memflow.Types.PhysAddr.{PhysicalAddress, with_page}
use memflow.Iter.Split.{SplitAtIndex, Addressed}
use memflow.Mmu.Def.{Endianess, little_endian, big_endian}
use memflow.Mmu.Spec.{ArchMmuSpec, FlagsType, check_entry, is_final_mapping, get_phys_page}
use memflow.Mmu.TranslateData
use memflow.Mmu.TranslateData.{TranslationChunk, pop_data, update_flags, next_max_addr_count}
use memflow.Mmu.Filter.{Filtered, out_of_range, virt_addr_filter}
use memflow.Mmu.SplitChunk.{Target, Splitting, size_at, split_chunk}

-- A translated piece.
pub record Translated {ℓ} (A : Type ℓ) : Type ℓ where
  pub phys : PhysicalAddress
  pub meta_addr : Address
  pub buf : A

-- What `work_through_stack` changes, without the working stack of chunks.
pub record Walk {ℓ} (A : Type ℓ) : Type ℓ where
  pub working_addrs : List (Addressed A)
  pub next_working : Target A
  pub waiting : Target A
  pub tmp_addrs : List (Addressed A)
  pub out : List (Translated A)
  pub out_fail : List (Error × Addressed A)
  pub prev_pt_address : List (Address × Address)

-- The heuristic against tables that repeat one entry.
abbrev pub repeats : Address × Address → Address × Address → Bool
repeats cur prev = cur.0 == prev.0 && not (cur.1 == prev.1)

module _ (spec : ArchMmuSpec) where
  -- `cur_addr`: the entry, and the start of what it serves.
  abbrev pub current : TranslationChunk → Address × Address
  current chunk = (chunk.pt_addr, as_mem_aligned chunk.min_addr (size_at spec (chunk.step + 1)))

module _ {ℓ} {A : Type ℓ} where
  -- `while let Some(entry)`.
  abbrev pub while_some : Option (Addressed A) → Walk A → (Addressed A → Walk A) → Walk A
  while_some none w body = w
  while_some (some entry) w body = body entry

  abbrev pub fail_entry : Walk A → List (Addressed A) → Addressed A → Walk A
  fail_entry w stack entry = record w {
    working_addrs = stack;
    out_fail = w.out_fail ++ (out_of_range, entry) ∷ [];
  }

  -- The loop of the failure branch; the chunk counts its pieces, and so its rounds.
  unfoldable pub fail_pieces : ℕ → TranslationChunk → Walk A → Walk A
  fail_pieces zero chunk w = w
  fail_pieces (suc n) chunk w =
      let (chunk2, popped) = pop_data chunk w.working_addrs in
      while_some popped.0 w (λ entry. fail_pieces n chunk2 (fail_entry w popped.1 entry))

  module _ (spec : ArchMmuSpec) where
    abbrev pub translated : Address → ℕ → FlagsType → Addressed A → Translated A
    translated pt_addr step prev_flags entry = record {
      phys = get_phys_page spec pt_addr entry.addr step prev_flags;
      meta_addr = entry.meta_addr;
      buf = entry.buf;
    }

    abbrev pub finish_entry :
        Address → ℕ → FlagsType → Walk A → List (Addressed A) → Addressed A → Walk A
    finish_entry pt_addr step prev_flags w stack entry = record w {
      working_addrs = stack;
      out = w.out ++ translated pt_addr step prev_flags entry ∷ [];
    }

    -- The loop of the success branch, with the entry, step and flags that the chunk had at its start.
    unfoldable pub finish_pieces : Address → ℕ → FlagsType → ℕ → TranslationChunk → Walk A → Walk A
    finish_pieces pt_addr step prev_flags zero chunk w = w
    finish_pieces pt_addr step prev_flags (suc n) chunk w =
        let (chunk2, popped) = pop_data chunk w.working_addrs in
        while_some popped.0 w (λ entry.
          finish_pieces pt_addr step prev_flags n chunk2
            (finish_entry pt_addr step prev_flags w popped.1 entry))

module _ {ℓ} {A : Type ℓ} ⦃s : SplitAtIndex A⦄ where
  -- The stacks after `split_chunk`; the caller's stacks may have changed roles.
  abbrev pub after_split : Walk A → Splitting A → Walk A
  after_split w sp = record w {
    working_addrs = if sp.swapped then sp.tmp_stack else sp.addr_stack;
    tmp_addrs = if sp.swapped then sp.addr_stack else sp.tmp_stack;
    next_working = sp.out_target;
    waiting = sp.wait_target;
  }

  module _ (spec : ArchMmuSpec) where
    -- The verdict on a chunk whose step is counted up already.
    unfoldable pub judge : Bool → TranslationChunk → Walk A → Option (Walk A)
    judge repeated chunk w =
        if not (check_entry spec chunk.pt_addr (chunk.step + 1)) || repeated
        then some (fail_pieces chunk.addr_count chunk w)
        else if is_final_mapping spec chunk.pt_addr chunk.step
        then some
            (finish_pieces spec chunk.pt_addr chunk.step chunk.prev_flags chunk.addr_count chunk w)
        else Option.map (after_split w)
            (split_chunk spec chunk w.working_addrs w.tmp_addrs w.next_working w.waiting)

    -- The body of the loop.
    unfoldable pub work_chunk : TranslationChunk → Walk A → Option (Walk A)
    work_chunk chunk w =
        let cur = current spec chunk in
        let prev = get_or w.prev_pt_address chunk.step (0, 0) in
        judge (repeats cur prev) (record chunk { step = chunk.step + 1 })
          (record w { prev_pt_address = set w.prev_pt_address chunk.step cur })

    -- `work_through_stack`, over the chunks of the working stack.
    unfoldable pub work_through_stack : List TranslationChunk → Walk A → Option (Walk A)
    work_through_stack [] w = some w
    work_through_stack (chunk ∷ chunks) w =
        Option.bind (work_chunk chunk w) (work_through_stack chunks)

-- The number that bytes spell, lowest byte first.
abbrev pub from_le_bytes : List ℕ → ℕ
from_le_bytes [] = 0
from_le_bytes (b ∷ bs) = b + 2 ^ 8 * from_le_bytes bs

abbrev pub from_be_onto : ℕ → List ℕ → ℕ
from_be_onto acc [] = acc
from_be_onto acc (b ∷ bs) = from_be_onto (acc * 2 ^ 8 + b) bs

-- `buf_to_addr` of `virt_to_phys_iter`.
unfoldable pub buf_to_addr : Endianess → ℕ → List ℕ → Address
buf_to_addr endianess pte_size buf =
    if pte_size == 8 || pte_size == 4
    then elim endianess [ little_endian ↦ from_le_bytes buf | big_endian ↦ from_be_onto 0 buf ]
    else 0

abbrev pub reverse_onto {ℓ} : {A : Type ℓ} → List A → List A → List A
reverse_onto [] ys = ys
reverse_onto (x ∷ xs) ys = reverse_onto xs (x ∷ ys)

-- A physical memory that answers a list of reads of a size with the bytes of each, or with an error.
abbrev pub ReadMem : Type 0
ReadMem = List PhysicalAddress → ℕ → Result (List (List ℕ)) Error

module _ (spec : ArchMmuSpec) where
  -- The address of a table entry, with the size of its table.
  abbrev pub entry_addr : TranslationChunk → PhysicalAddress
  entry_addr c = with_page c.pt_addr Page.page_table_flag (get_or spec.pt_leaf_size c.step 0)

  unfoldable pub load_entry : TranslationChunk → List ℕ → TranslationChunk
  load_entry c buf =
      let def = spec.def in
      update_flags (record c { pt_addr = buf_to_addr def.endianess def.pte_size buf }) def

  abbrev pub load_entries : List TranslationChunk → List (List ℕ) → List TranslationChunk
  load_entries [] bufs = []
  load_entries (c ∷ cs) [] = c ∷ cs
  load_entries (c ∷ cs) (buf ∷ bufs) = load_entry c buf ∷ load_entries cs bufs

  -- `read_pt_address_iter`: the entries are read from the bottom of the stack up.
  unfoldable pub read_pt_address_iter :
      ReadMem → List TranslationChunk → Result (List TranslationChunk) Error
  read_pt_address_iter mem chunks =
      let upwards = reverse_onto chunks [] in
      elim (mem (map entry_addr upwards) spec.def.pte_size) [
        | ok bufs ↦ ok (reverse_onto (load_entries upwards bufs) [])
        | err e ↦ err e
      ]

module _ {ℓ} {A : Type ℓ} ⦃s : SplitAtIndex A⦄ (spec : ArchMmuSpec) where
  -- The loop of `fill_init_chunk` in mod.rs, over at most `n` more inputs, and the inputs it leaves.
  unfoldable pub fill_loop :
      ℕ → ℕ → List (Addressed A) → Filtered A → Option (Filtered A × List (Addressed A))
  fill_loop working_addr_count zero addrs st = some (st, addrs)
  fill_loop working_addr_count (suc n) [] st = some (st, [])
  fill_loop working_addr_count (suc n) (x ∷ xs) st =
      Option.bind (virt_addr_filter spec x st) (λ next.
        let rest = fill_loop working_addr_count n xs next in
        if leb working_addr_count (next_max_addr_count next.chunk spec.def)
        then some (next, xs)
        else rest)

  -- `fill_init_chunk`: the first chunk, split if it has pieces. The failures come with it.
  unfoldable pub fill_init_chunk :
      Address
      → List (Addressed A)
      → List (Addressed A)
      → List (Addressed A)
      → Target A
      → Target A
      → Option (Option (Splitting A) × (List (Error × Addressed A) × List (Addressed A)))
  fill_init_chunk dtb addrs next_work_addrs tmp_addrs work_vecs wait_vecs =
      let none_set : FlagsType = record { writeable = false; nx = false } in
      Option.bind
        (fill_loop work_vecs.addr_capacity work_vecs.addr_capacity addrs (record {
          chunk = TranslateData.new dtb none_set;
          addrs_out = next_work_addrs;
          fail_out = [];
        }))
        (λ r.
          let split =
            Option.map some
              (split_chunk spec r.0.chunk r.0.addrs_out tmp_addrs work_vecs wait_vecs) in
          Option.map (λ o. (o, (r.0.fail_out, r.1)))
            (if ltb 0 r.0.chunk.addr_count then split else some none))
