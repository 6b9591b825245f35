-- ===== src/Mmu/Refill.antt =====
-- `refill_stack` of memflow/src/mem/virt_translate/mmu/spec.rs, where it moves waiting chunks to the
-- empty working stack. A stack is a list whose first entry is its top, and `none` is the panic of
-- `unwrap` on a missing piece.
use memflow.Prelude.{
  ℕ, zero, suc, ◌+◌, ◌-◌, Option, some, none, List, [], ◌∷◌, Bool, true, false, not, ◌&&◌, ◌||◌,
  ltb, leb, length, min, if◌then◌else◌,
}
use mathlib.Core.Option
use memflow.Iter.Split.{SplitAtIndex, Addressed}
use memflow.Mmu.TranslateData
use memflow.Mmu.TranslateData.{TranslationChunk, push_data, pop_data}
use memflow.Mmu.SplitChunk.{Target, with_stacks}

-- The chunk that is taken apart with the stack of its pieces, and the new one with its stack.
pub record Moving {ℓ} (A : Type ℓ) : Type ℓ where
  pub chunk : TranslationChunk
  pub waiting_addrs : List (Addressed A)
  pub new_chunk : TranslationChunk
  pub working_addrs : List (Addressed A)

abbrev pub no_chunks : List TranslationChunk → Bool
no_chunks [] = true
no_chunks (c ∷ cs) = false

module _ {ℓ} {A : Type ℓ} ⦃s : SplitAtIndex A⦄ where
  -- `new_chunk.push_data` of the piece.
  abbrev pub push_new : TranslationChunk → List (Addressed A) → Moving A → Addressed A → Moving A
  push_new chunk waiting_addrs m piece =
      let (new_chunk, working_addrs) = push_data m.new_chunk piece m.working_addrs in
      record {
        chunk = chunk;
        waiting_addrs = waiting_addrs;
        new_chunk = new_chunk;
        working_addrs = working_addrs;
      }

  -- The inner loop, which moves `n` pieces.
  unfoldable pub move_pieces : ℕ → Moving A → Option (Moving A)
  move_pieces zero m = some m
  move_pieces (suc n) m =
      let (chunk, popped) = pop_data m.chunk m.waiting_addrs in
      Option.bind popped.0 (λ piece. move_pieces n (push_new chunk popped.1 m piece))

-- Whether the working stack has no room for the chunk.
abbrev pub is_full {ℓ} : {A : Type ℓ} → Target A → TranslationChunk → Bool
is_full working chunk =
    leb working.chunk_capacity (length working.chunks)
    || (leb working.addr_capacity (length working.addrs)
        || (ltb working.chunk_capacity (length working.addrs + chunk.addr_count)
            && not (no_chunks working.chunks)))

-- The chunk that takes the pieces over.
abbrev pub taken_over : TranslationChunk → TranslationChunk
taken_over chunk = record (TranslateData.new chunk.pt_addr chunk.prev_flags) { step = chunk.step }

module _ {ℓ} {A : Type ℓ} ⦃s : SplitAtIndex A⦄ where
  -- The two stacks after the pieces are moved.
  abbrev pub after_move :
      List TranslationChunk → Target A → Target A → Moving A → Target A × Target A
  after_move rest working waiting m = (
    with_stacks working (m.new_chunk ∷ working.chunks) m.working_addrs,
    with_stacks waiting (if ltb 0 m.chunk.addr_count then m.chunk ∷ rest else rest) m.waiting_addrs,
  )

  abbrev pub move_chunk :
      TranslationChunk → List TranslationChunk → Target A → Target A → Option (Target A × Target A)
  move_chunk chunk rest working waiting = Option.map (after_move rest working waiting) (
      move_pieces (min chunk.addr_count (working.addr_capacity - length working.addrs)) (record {
        chunk = chunk;
        waiting_addrs = waiting.addrs;
        new_chunk = taken_over chunk;
        working_addrs = working.addrs;
      }))

  -- The loop, with fuel: it goes on while there are waiting chunks and room.
  abbrev pub refill_round :
      List TranslationChunk
      → Target A
      → Target A
      → (Target A → Target A → Option (Target A × Target A))
      → Option (Target A × Target A)
  refill_round [] working waiting again = some (working, waiting)
  refill_round (chunk ∷ rest) working waiting again =
      if is_full working chunk
      then some (working, waiting)
      else Option.bind (move_chunk chunk rest working waiting) (λ r. again r.0 r.1)

  unfoldable pub refill : ℕ → Target A → Target A → Option (Target A × Target A)
  refill zero working waiting = none
  refill (suc fuel) working waiting =
      refill_round waiting.chunks working waiting (λ w v. refill fuel w v)

-- Each round takes a chunk off the waiting stack, or fills the working stack, after which one more
-- round ends the loop: two more rounds than chunks are enough.
abbrev pub refill_stack {ℓ} :
    {A : Type ℓ} ⦃s : SplitAtIndex A⦄ → Target A → Target A → Option (Target A × Target A)
refill_stack working waiting = refill (length waiting.chunks + 2) working waiting
