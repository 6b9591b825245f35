-- ===== src/MemMap/Iterator.antt =====
-- `MemoryMapIterator` of memflow/src/mem/mem_map.rs, which `map` and `map_iter` return: it cuts data
-- at addresses into the parts that the map has an output for, and the rest. The calls of `fail_out`
-- are a list, in order, and the answers of the callback are ignored, as in the source.
-- `binary_search_by` of the standard library is a parameter.
use Prim.Native.Nat.{Ordering}
use memflow.Prelude.{
  ℕ, zero, suc, ◌+◌, Option, some, none, List, [], ◌∷◌, ◌++◌, ◌&&◌, leb, ltb, ◌==◌, length, drop,
  map, if◌then◌else◌,
}
use mathlib.Core.Option
use memflow.Types.Address.{Address, add, sub, saturating_sub}
use memflow.Types.PhysAddr.{PhysicalAddress}
use memflow.Iter.Split.{SplitAtIndex, Addressed}
use memflow.Iter.Cells.{size?}
use memflow.MemMap.Map.{MemoryMapping, MemoryMap, end_of}

-- The state of the iterator, without the map.
pub record MemoryMapIterator {ℓ} (T : Type ℓ) : Type ℓ where
  pub in_iter : List (Addressed T)
  pub fail_out : List (Address × T)
  pub cur_elem : Option (Addressed T)
  pub cur_map_pos : ℕ

-- `CTup3<M, Address, T>`.
pub record Mapped {ℓ} (M T : Type ℓ) : Type ℓ where
  pub output : M
  pub meta_addr : Address
  pub buf : T

abbrev pub min_bsearch_thresh : ℕ
min_bsearch_thresh = 32

-- `binary_search_by`, with the index of either answer.
abbrev pub Search {ℓ} : Type ℓ → Type ℓ
Search M = (MemoryMapping M → Ordering) → MemoryMap M → ℕ

abbrev pub call_fail {ℓ} :
    {T : Type ℓ} → List (Address × T) → Address → Option T → List (Address × T)
call_fail calls meta_addr none = calls
call_fail calls meta_addr (some buf) = calls ++ (meta_addr, buf) ∷ []

-- `Iterator::next` of the input, into `cur_elem`.
abbrev pub load {ℓ} : {T : Type ℓ} → List (Addressed T) → List (Address × T) → MemoryMapIterator T
load [] calls = record { in_iter = []; fail_out = calls; cur_elem = none; cur_map_pos = 0 }
load (x ∷ xs) calls = record { in_iter = xs; fail_out = calls; cur_elem = some x; cur_map_pos = 0 }

-- The first lines of `next`, which keep the position.
abbrev pub loaded {ℓ} :
    {T : Type ℓ}
    → Option (Addressed T)
    → List (Addressed T)
    → List (Address × T)
    → ℕ
    → MemoryMapIterator T
loaded none [] calls pos = record {
  in_iter = [];
  fail_out = calls;
  cur_elem = none;
  cur_map_pos = pos;
}
loaded none (x ∷ xs) calls pos = record {
  in_iter = xs;
  fail_out = calls;
  cur_elem = some x;
  cur_map_pos = pos;
}
loaded (some x) inputs calls pos = record {
  in_iter = inputs;
  fail_out = calls;
  cur_elem = some x;
  cur_map_pos = pos;
}

-- What is left after the part that the mapping at index `i` covers.
abbrev pub keep_rest {ℓ} :
    {T : Type ℓ}
    → ℕ
    → Address
    → Address
    → ℕ
    → Option T
    → List (Addressed T)
    → List (Address × T)
    → MemoryMapIterator T
keep_rest i addr meta_addr ret_length (some x) inputs calls = record {
  in_iter = inputs;
  fail_out = calls;
  cur_elem =
      some (record { addr = add addr ret_length; meta_addr = add meta_addr ret_length; buf = x });
  cur_map_pos = i + 1;
}
keep_rest i addr meta_addr ret_length none inputs calls = load inputs calls

module _ {ℓ} {M : Type ℓ} ⦃sm : SplitAtIndex M⦄ where
  -- The closure of the binary search.
  abbrev pub probe : Address → MemoryMapping M → Ordering
  probe addr m =
      if ltb addr m.base
      then Ordering.gt
      else if leb (end_of m) addr
      then Ordering.lt
      else Ordering.eq

  unfoldable pub start_pos : Search M → MemoryMap M → Address → ℕ → ℕ
  start_pos search ms addr pos =
      if leb min_bsearch_thresh (length ms) && pos == 0 then search (probe addr) ms else pos

  -- The loop of `get_next` over the mappings from index `i` on: the first that ends after `addr`.
  unfoldable pub find_from : Address → ℕ → MemoryMap M → Option (ℕ × MemoryMapping M)
  find_from addr i [] = none
  find_from addr i (m ∷ ms) =
      let rest = find_from addr (i + 1) ms in if ltb addr (end_of m) then some (i, m) else rest

module _ {ℓ} {M T : Type ℓ} ⦃sm : SplitAtIndex M⦄ ⦃st : SplitAtIndex T⦄ where
  -- `zip` of the parts of the output and of the data.
  abbrev pub zip_parts : Option M → Address → Option T → Option (Mapped M T)
  zip_parts (some a) meta_addr (some b) =
      some (record { output = a; meta_addr = meta_addr; buf = b })
  zip_parts a meta_addr b = none

  -- The answer from the part of the output at `addr`; `none` is the panic of `unwrap`.
  abbrev pub answer :
      Option M
      → Address
      → Option T
      → MemoryMapIterator T
      → Option (Option (Mapped M T) × MemoryMapIterator T)
  answer none meta_addr ret it = none
  answer (some left) meta_addr ret it =
      some (zip_parts (sm.split_at left (size? st ret)).0 meta_addr ret, it)

  -- The data from the start of the mapping on.
  abbrev pub take_leftover :
      ℕ
      → MemoryMapping M
      → Address
      → Address
      → Option T
      → List (Addressed T)
      → List (Address × T)
      → ℕ
      → Option (Option (Mapped M T) × MemoryMapIterator T)
  take_leftover i m addr meta_addr none inputs calls pos =
      some (none, record { in_iter = inputs; fail_out = calls; cur_elem = none; cur_map_pos = pos })
  take_leftover i m addr meta_addr (some leftover) inputs calls pos =
      let (ret, keep) = st.split_at leftover (sub (add m.base (sm.size m.output)) addr) in
      answer (sm.split_at m.output (sub addr m.base)).1 meta_addr ret
        (keep_rest i addr meta_addr (size? st ret) keep inputs calls)

  -- The body of the loop for the first mapping that ends after the data begin.
  unfoldable pub at_mapping :
      Option (ℕ × MemoryMapping M)
      → Addressed T
      → List (Addressed T)
      → List (Address × T)
      → ℕ
      → Option (Option (Mapped M T) × MemoryMapIterator T)
  at_mapping none x inputs calls pos = some (
    none,
    record {
      in_iter = inputs;
      fail_out = call_fail calls x.meta_addr (some x.buf);
      cur_elem = none;
      cur_map_pos = pos;
    },
  )
  at_mapping (some (i, m)) x inputs calls pos =
      let offset = saturating_sub m.base x.addr in
      let (left_reject, right) = st.split_at x.buf offset in
      take_leftover i m (add x.addr offset) (add x.meta_addr offset) right inputs
        (call_fail calls x.meta_addr left_reject) pos

  module _ (search : Search M) (ms : MemoryMap M) where
    abbrev pub get_next_of :
        Option (Addressed T)
        → List (Addressed T)
        → List (Address × T)
        → ℕ
        → Option (Option (Mapped M T) × MemoryMapIterator T)
    get_next_of none inputs calls pos =
        some
          (none, record { in_iter = inputs; fail_out = calls; cur_elem = none; cur_map_pos = pos })
    get_next_of (some x) inputs calls pos =
        let start = start_pos search ms x.addr pos in
        at_mapping (find_from x.addr start (drop start ms)) x inputs calls start

    unfoldable pub get_next :
        MemoryMapIterator T → Option (Option (Mapped M T) × MemoryMapIterator T)
    get_next it = get_next_of it.cur_elem it.in_iter it.fail_out it.cur_map_pos

    -- What the loop of `next` does with an answer: without an item it goes on with the next element.
    abbrev pub after_get :
        Option (Option (Mapped M T) × MemoryMapIterator T)
        → (MemoryMapIterator T → Option (Option (Mapped M T) × MemoryMapIterator T))
        → Option (Option (Mapped M T) × MemoryMapIterator T)
    after_get none again = none
    after_get (some (some item, it)) again = some (some item, it)
    after_get (some (none, it)) again = again (load it.in_iter it.fail_out)

    abbrev pub round_of :
        Option (Addressed T)
        → MemoryMapIterator T
        → (MemoryMapIterator T → Option (Option (Mapped M T) × MemoryMapIterator T))
        → Option (Option (Mapped M T) × MemoryMapIterator T)
    round_of none it again = some (none, it)
    round_of (some x) it again = after_get (get_next it) again

    -- The loop of `next`, with fuel.
    unfoldable pub next_loop :
        ℕ → MemoryMapIterator T → Option (Option (Mapped M T) × MemoryMapIterator T)
    next_loop zero it = none
    next_loop (suc fuel) it = round_of it.cur_elem it (next_loop fuel)

    -- `next`: each round of the loop takes an element, so one more round than elements is enough.
    unfoldable pub next : MemoryMapIterator T → Option (Option (Mapped M T) × MemoryMapIterator T)
    next it =
        next_loop (length it.in_iter + 2) (loaded it.cur_elem it.in_iter it.fail_out it.cur_map_pos)

    abbrev pub collect_round :
        Option (Option (Mapped M T) × MemoryMapIterator T)
        → (MemoryMapIterator T → Option (List (Mapped M T) × List (Address × T)))
        → Option (List (Mapped M T) × List (Address × T))
    collect_round none rest = none
    collect_round (some (none, it)) rest = some ([], it.fail_out)
    collect_round (some (some item, it)) rest = Option.map (λ r. (item ∷ r.0, r.1)) (rest it)

    -- All that the iterator yields, and all calls of `fail_out`, by at most `rounds` calls of `next`.
    unfoldable pub collect :
        ℕ → MemoryMapIterator T → Option (List (Mapped M T) × List (Address × T))
    collect zero it = none
    collect (suc rounds) it = collect_round (next it) (collect rounds)

-- `MemoryMapIterator::new`, which is `map_base_iter`.
unfoldable pub new {ℓ} : {T : Type ℓ} → List (Addressed T) → MemoryMapIterator T
new inputs = record { in_iter = inputs; fail_out = []; cur_elem = none; cur_map_pos = 0 }

-- `map`: one buffer, which the caller knows by its own address.
unfoldable pub map_one {ℓ} : {T : Type ℓ} → Address → T → MemoryMapIterator T
unfolding new
map_one addr buf = new (record { addr = addr; meta_addr = addr; buf = buf } ∷ [])

-- `map_iter`: the addresses are physical ones.
unfoldable pub map_iter {ℓ} :
    {T : Type ℓ} → List (PhysicalAddress × Address × T) → MemoryMapIterator T
unfolding new
map_iter inputs = new (
    map (λ (p, meta_addr, buf). record { addr = p.address; meta_addr = meta_addr; buf = buf })
      inputs)
