-- ===== src/Mmu/RefillMoves.antt =====
-- The inner loop of `refill_stack`: moving pieces from one stack to the other keeps their order and
-- their page tables.
use memflow.Prelude.{
  ℕ, zero, suc, ◌+◌, ◌-◌, ◌≤◌, ◌<◌, ◌≡◌, refl, arith, ap, sym, ◌∙◌, Option, some, List, [], ◌∷◌,
  length, lt→ltb,
}
use mathlib.Core.Option
use memflow.Types.Address.{Address}
use memflow.Iter.Split.{SplitAtIndex, Addressed}
use memflow.Mmu.Spec.{FlagsType}
use memflow.Mmu.TranslateData.{TranslationChunk, push_data, pop_data}
use memflow.Mmu.SplitChunk.{Target}
use memflow.Mmu.Refill.{Moving, push_new, move_pieces}

-- The table that a chunk translates with.
abbrev pub Table : Type 0
Table = Address × ℕ × FlagsType

abbrev pub table : TranslationChunk → Table
table c = (c.pt_addr, c.step, c.prev_flags)

-- `n` pieces with their table, then what `later` makes of the others.
abbrev pub own {ℓ} :
    {A : Type ℓ}
    → Table
    → ℕ
    → (List (Addressed A) → List (Table × Addressed A))
    → List (Addressed A)
    → List (Table × Addressed A)
own t zero later ps = later ps
own t (suc n) later [] = []
own t (suc n) later (p ∷ ps) = (t, p) ∷ own t n later ps

-- The pieces of a stack of chunks, from the top, each with its table.
abbrev pub tabled {ℓ} :
    {A : Type ℓ} → List TranslationChunk → List (Addressed A) → List (Table × Addressed A)
tabled [] ps = []
tabled (c ∷ cs) ps = own (table c) c.addr_count (tabled cs) ps

abbrev pub count_all : List TranslationChunk → ℕ
count_all [] = 0
count_all (c ∷ cs) = c.addr_count + count_all cs

-- The chunks count the pieces of their stack.
abbrev pub IsCounted {ℓ} : {A : Type ℓ} → Target A → Type 0
IsCounted t = count_all t.chunks ≡ length t.addrs

-- One stack on top of another, turned over.
abbrev pub turn_onto {ℓ} : {A : Type ℓ} → List A → List A → List A
turn_onto [] ys = ys
turn_onto (x ∷ xs) ys = turn_onto xs (x ∷ ys)

module _ {ℓ} {A : Type ℓ} (s : SplitAtIndex A) where
  own_first :
      (t : Table) (n : ℕ) (later : List (Addressed A) → List (Table × Addressed A))
      (p : Addressed A) (ps : List (Addressed A))
      → 0 < n
      → own t n later (p ∷ ps) ≡ (t, p) ∷ own t (n - 1) later ps
  own_first t zero later p ps h = absurd (omega arith)
  own_first t (suc n) later p ps h = ap (λ k. (t, p) ∷ own t k later ps) (omega arith)

  own_more :
      (t : Table) (n : ℕ) (later : List (Addressed A) → List (Table × Addressed A))
      (p : Addressed A) (ps : List (Addressed A))
      → own t (n + 1) later (p ∷ ps) ≡ (t, p) ∷ own t n later ps
  own_more t n later p ps =
      own_first t (n + 1) later p ps (omega arith)
      ∙ ap (λ k. (t, p) ∷ own t k later ps) (omega arith)

  abbrev pub popped_once : TranslationChunk → TranslationChunk
  popped_once old = record old { addr_count = old.addr_count - 1 }

  pop_first :
      (c : TranslationChunk) (p : Addressed A) (ps : List (Addressed A))
      → 0 < c.addr_count
      → pop_data c (p ∷ ps) ≡ (popped_once c, (some p, ps))
  unfolding pop_data
  pop_first c p ps h = rw (lt→ltb 0 c.addr_count h) refl

  abbrev move_popped :
      ℕ
      → Moving A
      → TranslationChunk × (Option (Addressed A) × List (Addressed A))
      → Option (Moving A)
  move_popped n m (chunk, popped) =
      Option.bind popped.0
        (λ piece. move_pieces ⦃s = s⦄ n (push_new ⦃s = s⦄ chunk popped.1 m piece))

  -- The two stacks of a move, one turned onto the other.
  abbrev pub joined :
      List TranslationChunk → List TranslationChunk → Moving A → List (Table × Addressed A)
  joined working rest m =
      turn_onto (tabled (m.new_chunk ∷ working) m.working_addrs)
        (tabled (m.chunk ∷ rest) m.waiting_addrs)

  -- What a move of `n` pieces does.
  pub record IsMoved (working rest : List TranslationChunk) (n : ℕ) (m : Moving A)
      (o : Option (Moving A)) : Type ℓ where
    pub m' : Moving A
    pub returns : o ≡ some m'
    pub count : m'.chunk.addr_count ≡ m.chunk.addr_count - n
    pub new_count : m'.new_chunk.addr_count ≡ m.new_chunk.addr_count + n
    pub waiting_length : length m'.waiting_addrs ≡ length m.waiting_addrs - n
    pub working_length : length m'.working_addrs ≡ length m.working_addrs + n
    pub same : joined working rest m' ≡ joined working rest m

  pub move_pieces-IsMoved :
      (working rest : List TranslationChunk) (n : ℕ) (c new : TranslationChunk)
      (ps wk : List (Addressed A))
      → n ≤ c.addr_count
      → n ≤ length ps
      → table new ≡ table c
      → IsMoved working rest n
          (record { chunk = c; waiting_addrs = ps; new_chunk = new; working_addrs = wk })
          (move_pieces ⦃s = s⦄ n
            (record { chunk = c; waiting_addrs = ps; new_chunk = new; working_addrs = wk }))
  unfolding move_pieces push_data Option.bind
  move_pieces-IsMoved working rest zero c new ps wk le len e = record {
    m' = record { chunk = c; waiting_addrs = ps; new_chunk = new; working_addrs = wk };
    returns = refl;
    count = omega arith;
    new_count = omega arith;
    waiting_length = omega arith;
    working_length = omega arith;
    same = refl;
  }
  move_pieces-IsMoved working rest (suc n) c new [] wk le len e = absurd (omega arith)
  move_pieces-IsMoved working rest (suc n) c new (p ∷ ps) wk le len e =
      let m : Moving A = record {
        chunk = c;
        waiting_addrs = p ∷ ps;
        new_chunk = new;
        working_addrs = wk;
      } in
      let next = push_new ⦃s = s⦄ (popped_once c) ps m p in
      let r =
        move_pieces-IsMoved working rest n (popped_once c) next.new_chunk ps (p ∷ wk) (omega arith)
          (omega arith) e in
      let down = own_first (table c) c.addr_count (tabled rest) p ps (omega arith) in
      let up = own_more (table new) new.addr_count (tabled working) p wk in
      record {
        m' = r.m';
        returns = ap (move_popped n m) (pop_first c p ps (omega arith)) ∙ r.returns;
        count = omega (arith, r.count);
        new_count = omega (arith, r.new_count);
        waiting_length = omega (arith, r.waiting_length);
        working_length = omega (arith, r.working_length);
        same =
            r.same
            ∙ ap (λ l. turn_onto l (tabled (popped_once c ∷ rest) ps)) up
            ∙ ap
                (λ t.
                  turn_onto (tabled (new ∷ working) wk) ((t, p) ∷ tabled (popped_once c ∷ rest) ps))
                e
            ∙ ap (turn_onto (tabled (new ∷ working) wk)) (sym down);
      }
