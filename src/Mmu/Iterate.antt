-- ===== src/Mmu/Iterate.antt =====
-- `virt_to_phys_iter` of memflow/src/mem/virt_translate/mmu/spec.rs, from its allocated stacks on. The
-- `while` loop is a step relation: `walk_round` is its body, and `Runs` its rounds up to the end. The
-- physical memory and the answers of `out_fail` after a failed read are parameters. `none` is a panic.
use memflow.Prelude.{
  ℕ, ◌≡◌, Option, some, none, List, [], ◌∷◌, ◌++◌, Bool, true, false, replicate, if◌then◌else◌,
}
use memflow.Prelude.Results.{Result, ok, err}
use mathlib.Core.Option
use memflow.Error.Code.{Error}
use memflow.Types.Address.{Address}
use memflow.Iter.Split.{SplitAtIndex, Addressed}
use memflow.Mmu.Spec.{ArchMmuSpec, max_levels}
use memflow.Mmu.TranslateData.{TranslationChunk}
use memflow.Mmu.SplitChunk.{Target, Splitting, with_stacks}
use memflow.Mmu.Refill.{no_chunks, refill_stack}
use memflow.Mmu.Walk.{
  Translated, Walk, work_through_stack, ReadMem, read_pt_address_iter, fill_init_chunk,
}

-- The stacks, the input that is left, the calls of the callbacks, and the last entries per step.
pub record Walking {ℓ} (A : Type ℓ) : Type ℓ where
  pub working : Target A
  pub next_working : Target A
  pub waiting : Target A
  pub tmp_addrs : List (Addressed A)
  pub addrs : List (Addressed A)
  pub out : List (Translated A)
  pub out_fail : List (Error × Addressed A)
  pub prev_pt_address : List (Address × Address)

-- The calls of the callbacks when the walk is over.
pub record Calls {ℓ} (A : Type ℓ) : Type ℓ where
  pub out : List (Translated A)
  pub out_fail : List (Error × Addressed A)

-- A round goes on with the next state, or is the last.
pub data Round {ℓ} (A : Type ℓ) : Type ℓ where
  more : Walking A → Round A
  done : Calls A → Round A

module _ {ℓ} {A : Type ℓ} where
  -- Pieces popped into `out_fail` until it answers no; whether it took all of them.
  unfoldable pub drain :
      (Error × Addressed A → Bool) → Error → List (Addressed A) → List (Error × Addressed A) × Bool
  drain accepts e [] = ([], true)
  drain accepts e (p ∷ ps) =
      let (calls, all) = drain accepts e ps in
      if accepts (e, p) then ((e, p) ∷ calls, all) else ((e, p) ∷ [], false)

  -- The end of the walk after a failed read.
  unfoldable pub give_up : (Error × Addressed A → Bool) → Error → Walking A → Calls A
  give_up accepts e st =
      let (working_calls, went) = drain accepts e st.working.addrs in
      let (waiting_calls, all) = drain accepts e st.waiting.addrs in
      record {
        out = st.out;
        out_fail = st.out_fail ++ (if went then working_calls ++ waiting_calls else working_calls);
      }

  -- What `fill_init_chunk` leaves; where there was nothing to split, the stacks are as before.
  abbrev pub after_fill :
      Walking A
      → Option (Splitting A) × (List (Error × Addressed A) × List (Addressed A))
      → Walking A
  after_fill st (none, (fails, rest)) = record st { addrs = rest; out_fail = st.out_fail ++ fails }
  after_fill st (some sp, (fails, rest)) =
      let next_addrs = if sp.swapped then sp.tmp_stack else sp.addr_stack in
      record st {
        working = sp.out_target;
        next_working = with_stacks st.next_working st.next_working.chunks next_addrs;
        waiting = sp.wait_target;
        tmp_addrs = if sp.swapped then sp.addr_stack else sp.tmp_stack;
        addrs = rest;
        out_fail = st.out_fail ++ fails;
      }

  abbrev pub after_refill : Walking A → Target A × Target A → Walking A
  after_refill st (working, waiting) = record st { working = working; waiting = waiting }

  -- What `work_through_stack` works on, and what it leaves.
  abbrev pub walk_of : Walking A → Walk A
  walk_of st = record {
    working_addrs = st.working.addrs;
    next_working = st.next_working;
    waiting = st.waiting;
    tmp_addrs = st.tmp_addrs;
    out = st.out;
    out_fail = st.out_fail;
    prev_pt_address = st.prev_pt_address;
  }

  abbrev pub after_walk : Walking A → Walk A → Walking A
  after_walk st w = record st {
    working = with_stacks st.working [] w.working_addrs;
    next_working = w.next_working;
    waiting = w.waiting;
    tmp_addrs = w.tmp_addrs;
    out = w.out;
    out_fail = w.out_fail;
    prev_pt_address = w.prev_pt_address;
  }

  -- `swap` of the two pairs of working stacks.
  abbrev pub swap : Walking A → Walking A
  swap st = record st { working = st.next_working; next_working = st.working }

module _ {ℓ} {A : Type ℓ} ⦃s : SplitAtIndex A⦄ (spec : ArchMmuSpec) (dtb : Address) (mem : ReadMem)
    (accepts : Error × Addressed A → Bool) where
  unfoldable pub fill : Walking A → Option (Walking A)
  fill st = Option.map (after_fill st) (
      fill_init_chunk ⦃s = s⦄ spec dtb st.addrs st.next_working.addrs st.tmp_addrs st.working
        st.waiting)

  -- The working stacks of the next round.
  unfoldable pub next_stacks : Walking A → Option (Walking A)
  next_stacks st =
      let refilled = Option.map (after_refill st) (refill_stack ⦃s = s⦄ st.working st.waiting) in
      let filled = fill st in
      if no_chunks st.next_working.chunks
      then if no_chunks st.waiting.chunks then filled else refilled
      else some (swap st)

  -- The rest of a round, with the outcome of the read.
  unfoldable pub after_read : Walking A → Result (List TranslationChunk) Error → Option (Round A)
  after_read st (err e) = some (done (give_up accepts e st))
  after_read st (ok chunks) =
      Option.bind (work_through_stack ⦃s = s⦄ spec chunks (walk_of st))
        (λ w. Option.bind (next_stacks (after_walk st w)) (λ next. some (more next)))

  abbrev pub round_on : List TranslationChunk → Walking A → Option (Round A)
  round_on [] st = some (done (record { out = st.out; out_fail = st.out_fail }))
  round_on (c ∷ cs) st = after_read st (read_pt_address_iter spec mem (c ∷ cs))

  -- The body of the loop, with its test.
  unfoldable pub walk_round : Walking A → Option (Round A)
  walk_round st = round_on st.working.chunks st

  -- The rounds of the loop from a state to the end of the walk.
  pub data Runs : Walking A → Calls A → Type ℓ where
    ends : {st : Walking A} {calls : Calls A} → walk_round st ≡ some (done calls) → Runs st calls
    goes :
        {st next : Walking A} {calls : Calls A}
        → walk_round st ≡ some (more next)
        → Runs next calls
        → Runs st calls

  -- The state at the start, in stacks with room for `elem_count` chunks and pieces, and the waiting
  -- stacks with room for more.
  unfoldable pub start : ℕ → ℕ → ℕ → List (Addressed A) → Option (Walking A)
  start elem_count waiting_chunks waiting_addr_count addrs =
      let working : Target A = record {
        chunks = [];
        addrs = [];
        chunk_capacity = elem_count;
        addr_capacity = elem_count;
      } in
      fill (record {
        working = working;
        next_working = working;
        waiting = record {
          chunks = [];
          addrs = [];
          chunk_capacity = waiting_chunks;
          addr_capacity = waiting_addr_count;
        };
        tmp_addrs = [];
        addrs = addrs;
        out = [];
        out_fail = [];
        prev_pt_address = replicate max_levels (0, 0);
      })
