-- ===== src/Iter/Chunks.antt =====
-- `PageChunkIterator` of memflow/src/iter/page_chunks.rs, which `page_chunks` and `page_chunks_by`
-- of memflow/src/iter/mod.rs return. The split predicate is a parameter, a pure function.
use memflow.Prelude.{
  ℕ, zero, suc, Option, some, none, List, [], ◌∷◌, Bool, true, false, not, ◌&&◌, ◌==◌,
  if◌then◌else◌,
}
use mathlib.Core.Option
use memflow.Types.Address.{Address, add, wrapping_add, wrapping_sub, as_mem_aligned}
use memflow.Iter.Split.{SplitAtIndex, split_inclusive_at_mut}

pub record PageChunks {ℓ} (A : Type ℓ) : Type ℓ where
  pub v : Option A
  pub cur_address : Address
  pub page_size : ℕ
  pub cur_off : ℕ

abbrev pub is_some {ℓ} : {A : Type ℓ} → Option A → Bool
is_some none = false
is_some (some x) = true

-- The offset of the last byte of the page that `cur` lies in, from `cur`.
unfoldable pub page_rest : Address → ℕ → ℕ
unfolding wrapping_add wrapping_sub as_mem_aligned
page_rest cur page_size =
    wrapping_sub (wrapping_sub (as_mem_aligned (wrapping_add cur page_size) page_size) cur) 1

module _ {ℓ} {A : Type ℓ} where
  -- `end_len` of the loop.
  unfoldable pub end_len : PageChunks A → ℕ
  unfolding wrapping_add
  end_len c = wrapping_add (page_rest c.cur_address c.page_size) c.cur_off

module _ {ℓ} {A : Type ℓ} ⦃s : SplitAtIndex A⦄ where
  -- `PageChunkIterator::new`.
  unfoldable pub new : A → Address → ℕ → PageChunks A
  new buf start_address page_size = record {
    v = if s.size buf == 0 then none else some buf;
    cur_address = start_address;
    page_size = page_size;
    cur_off = 0;
  }

  module _ (check_split_fn : Address → A → Option A → Bool) where
    -- One round of the loop of `next` with the parts of the split: it goes on `again`, or ends.
    unfoldable pub loop_round :
        Option ((Address × A) × PageChunks A)
        → PageChunks A
        → ℕ
        → Option A
        → Option A
        → Option ((Address × A) × PageChunks A)
    loop_round again c e none tail = none
    loop_round again c e (some head) tail =
        if is_some tail && not (check_split_fn c.cur_address head tail)
        then again
        else some (
          (c.cur_address, head),
          record c { v = tail; cur_address = wrapping_add c.cur_address (add e 1); cur_off = 0 },
        )

    -- The loop of `next`, with fuel; `none` is the panic of `unwrap`, or that the fuel ran out.
    unfoldable pub next_loop : ℕ → A → PageChunks A → Option ((Address × A) × PageChunks A)
    next_loop zero buf c = none
    next_loop (suc fuel) buf c =
        let e = end_len c in
        let parts = split_inclusive_at_mut buf e in
        let again = next_loop fuel buf (record c { cur_off = add e 1 }) in
        loop_round again c e parts.0 parts.1

    -- `next` on the buffer that is left.
    abbrev pub next_of : ℕ → PageChunks A → Option A → Option (Option (Address × A) × PageChunks A)
    next_of fuel c none = some (none, c)
    next_of fuel c (some buf) = Option.map (λ r. (some r.0, r.1)) (next_loop fuel buf c)

    unfoldable pub next : ℕ → PageChunks A → Option (Option (Address × A) × PageChunks A)
    next fuel c = next_of fuel c c.v

    abbrev pub collect_round :
        Option (Option (Address × A) × PageChunks A)
        → (PageChunks A → Option (List (Address × A)))
        → Option (List (Address × A))
    collect_round none rest = none
    collect_round (some (none, c)) rest = some []
    collect_round (some (some chunk, c)) rest = Option.map (◌∷◌ chunk) (rest c)

    -- All that the iterator yields, by at most `rounds` calls of `next`.
    unfoldable pub collect : ℕ → ℕ → PageChunks A → Option (List (Address × A))
    collect zero fuel c = none
    collect (suc rounds) fuel c = collect_round (next fuel c) (collect rounds fuel)

-- `page_chunks` and `mem_chunks`: every page is split off.
abbrev pub always {ℓ} : {A : Type ℓ} → Address → A → Option A → Bool
always a x rest = true
