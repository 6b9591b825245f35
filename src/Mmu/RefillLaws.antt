-- ===== src/Mmu/RefillLaws.antt =====
-- `refill_stack` loses no piece, keeps each with its page table, and stays within the capacities.
use memflow.Prelude.{
  ℕ, zero, suc, ◌+◌, ◌-◌, ◌≤◌, ◌<◌, ◌≡◌, ◌⊎◌, inl, inr, refl, arith, ap, sym, ◌∙◌, Option, some,
  List, [], ◌∷◌, true, false, ltb, leb, length, min, if◌then◌else◌, Bool-cases, le→leb, ltb→lt,
}
use mathlib.Core.Option
use memflow.Iter.Split.{SplitAtIndex, Addressed}
use memflow.Mmu.TranslateData.{TranslationChunk}
use memflow.Mmu.SplitChunk.{Target, with_stacks}
use memflow.Mmu.Refill.{
  Moving, move_pieces, is_full, taken_over, after_move, refill_round, refill, refill_stack,
}
use memflow.Mmu.RefillMoves.{
  Table, table, own, tabled, count_all, IsCounted, turn_onto, IsMoved, move_pieces-IsMoved,
}

module _ {ℓ} {A : Type ℓ} (s : SplitAtIndex A) where
  -- The working stacks hold at most what they were allocated for.
  abbrev pub Bounded : Target A → Type 0
  Bounded w = (length w.chunks ≤ w.chunk_capacity) × (length w.addrs ≤ w.addr_capacity)

  abbrev all_joined : Target A → Target A → List (Table × Addressed A)
  all_joined w v = turn_onto (tabled w.chunks w.addrs) (tabled v.chunks v.addrs)

  record IsRefilled (w v : Target A) (o : Option (Target A × Target A)) : Type ℓ where
    pub w' : Target A
    pub v' : Target A
    pub returns : o ≡ some (w', v')
    pub counted : IsCounted w' × IsCounted v'
    pub bounded : Bounded w'
    pub same : all_joined w' v' ≡ all_joined w v

  -- Rounds that are left, at least: one when the pieces have no more room.
  abbrev Enough : ℕ → Target A → Target A → Type 0
  Enough fuel w v = (length v.chunks + 2 ≤ fuel) ⊎ ((w.addr_capacity ≤ length w.addrs) × (1 ≤ fuel))

  full_addrs :
      (w : Target A) (c : TranslationChunk) → w.addr_capacity ≤ length w.addrs → is_full w c ≡ true
  full_addrs w c h = elim (Bool-cases (leb w.chunk_capacity (length w.chunks))) [
    | inl e ↦ rw e refl
    | inr e ↦ rw (e, le→leb w.addr_capacity (length w.addrs) h) refl
  ]

  has_room :
      (w : Target A) (c : TranslationChunk)
      → is_full w c ≡ false
      → (length w.chunks < w.chunk_capacity) × (length w.addrs < w.addr_capacity)
  has_room w c h = elim (Bool-cases (leb w.chunk_capacity (length w.chunks))) [
    | inl e ↦ absurd (true_ne_false (rw e at h))
    | inr e ↦ elim (Bool-cases (leb w.addr_capacity (length w.addrs))) [
      | inl f ↦ absurd (true_ne_false (rw (e, f) at h))
      | inr f ↦ (ground (arith, e), ground (arith, f))
    ]
  ]
    where
      true_ne_false : ¬ (true ≡ false)
      true_ne_false e = cc

  abbrev kept_chunk : TranslationChunk → List TranslationChunk → List TranslationChunk
  kept_chunk c rest = if ltb 0 c.addr_count then c ∷ rest else rest

  -- A chunk without pieces can go.
  tabled_kept :
      (c : TranslationChunk) (rest : List TranslationChunk) (ps : List (Addressed A))
      → tabled (kept_chunk c rest) ps ≡ tabled (c ∷ rest) ps
  tabled_kept c rest ps = elim (Bool-cases (ltb 0 c.addr_count)) [
    | inl e ↦ rw e refl
    | inr e ↦
        let none_left : c.addr_count ≡ 0 = ground (arith, e) in
        rw e (sym (ap (λ n. own (table c) n (tabled rest) ps) none_left))
  ]

  count_kept :
      (c : TranslationChunk) (rest : List TranslationChunk)
      → count_all (kept_chunk c rest) ≡ c.addr_count + count_all rest
  count_kept c rest = elim (Bool-cases (ltb 0 c.addr_count)) [
    | inl e ↦ rw e refl
    | inr e ↦ rw e (ground (arith, e))
  ]

  kept_gone :
      (c : TranslationChunk) (rest : List TranslationChunk)
      → c.addr_count ≡ 0
      → length (kept_chunk c rest) ≡ length rest
  kept_gone c rest e = let gone : ltb 0 c.addr_count ≡ false = ground (arith, e) in rw gone refl

  -- After a move, there are rounds enough.
  enough_after :
      (fuel cap moved : ℕ) (c' : TranslationChunk) (rest : List TranslationChunk) (w : Target A)
      (c : TranslationChunk)
      → length (c ∷ rest) + 2 ≤ suc fuel
      → length w.addrs < cap
      → moved ≡ length w.addrs + min c.addr_count (cap - length w.addrs)
      → c'.addr_count ≡ c.addr_count - min c.addr_count (cap - length w.addrs)
      → (length (kept_chunk c' rest) + 2 ≤ fuel) ⊎ ((cap ≤ moved) × (1 ≤ fuel))
  enough_after fuel cap moved c' rest w c h room e f = elim (Bool-cases (ltb 0 c'.addr_count)) [
    | inl some_left ↦
        let more = ltb→lt 0 c'.addr_count some_left in inr (omega (arith, more, f, e), omega arith)
    | inr none_left ↦
        let gone : c'.addr_count ≡ 0 = ground (arith, none_left) in
        inl (omega (arith, kept_gone c' rest gone))
  ]

  refill_step :
      (fuel : ℕ) (w v : Target A) (c : TranslationChunk) (rest : List TranslationChunk)
      (m : Moving A)
      → v.chunks ≡ c ∷ rest
      → is_full w c ≡ false
      → move_pieces ⦃s = s⦄ (min c.addr_count (w.addr_capacity - length w.addrs)) (record {
        chunk = c;
        waiting_addrs = v.addrs;
        new_chunk = taken_over c;
        working_addrs = w.addrs;
      })
        ≡ some m
      → refill ⦃s = s⦄ (suc fuel) w v
        ≡ refill ⦃s = s⦄ fuel (after_move ⦃s = s⦄ rest w v m).0 (after_move ⦃s = s⦄ rest w v m).1
  unfolding refill Option.bind
  refill_step fuel w v c rest m e room moved =
      ap (λ cs. refill_round ⦃s = s⦄ cs w v (λ w2 v2. refill ⦃s = s⦄ fuel w2 v2)) e
      ∙ rw (room, moved) refl

  abbrev from_waiting : List TranslationChunk → List (Addressed A) → ℕ → ℕ → Target A
  from_waiting vcs ps kc ka = record {
    chunks = vcs;
    addrs = ps;
    chunk_capacity = kc;
    addr_capacity = ka;
  }

  -- One round and the rounds after it.
  IsRefilled-after :
      (fuel : ℕ) (w : Target A) (c : TranslationChunk) (rest : List TranslationChunk)
      (ps : List (Addressed A)) (kc ka : ℕ)
      → is_full w c ≡ false
      → (mv : IsMoved s w.chunks rest
          (min c.addr_count (w.addr_capacity - length w.addrs))
          (record {
            chunk = c;
            waiting_addrs = ps;
            new_chunk = taken_over c;
            working_addrs = w.addrs;
          })
          (move_pieces ⦃s = s⦄ (min c.addr_count (w.addr_capacity - length w.addrs)) (record {
            chunk = c;
            waiting_addrs = ps;
            new_chunk = taken_over c;
            working_addrs = w.addrs;
          })))
      → IsRefilled
          (with_stacks w (mv.m'.new_chunk ∷ w.chunks) mv.m'.working_addrs)
          (from_waiting (kept_chunk mv.m'.chunk rest) mv.m'.waiting_addrs kc ka)
          (refill ⦃s = s⦄ fuel
            (with_stacks w (mv.m'.new_chunk ∷ w.chunks) mv.m'.working_addrs)
            (from_waiting (kept_chunk mv.m'.chunk rest) mv.m'.waiting_addrs kc ka))
      → IsRefilled w
          (from_waiting (c ∷ rest) ps kc ka)
          (refill ⦃s = s⦄ (suc fuel) w (from_waiting (c ∷ rest) ps kc ka))
  IsRefilled-after fuel w c rest ps kc ka room mv r = record {
    w' = r.w';
    v' = r.v';
    returns =
        refill_step fuel w (from_waiting (c ∷ rest) ps kc ka) c rest mv.m' refl room mv.returns
        ∙ r.returns;
    counted = r.counted;
    bounded = r.bounded;
    same =
        r.same
        ∙ ap (turn_onto (tabled (mv.m'.new_chunk ∷ w.chunks) mv.m'.working_addrs))
            (tabled_kept mv.m'.chunk rest mv.m'.waiting_addrs)
        ∙ mv.same;
  }

  refill-IsRefilled :
      (fuel : ℕ) (w : Target A) (vcs : List TranslationChunk) (ps : List (Addressed A)) (kc ka : ℕ)
      → IsCounted w
      → count_all vcs ≡ length ps
      → Bounded w
      → Enough fuel w (record { chunks = vcs; addrs = ps; chunk_capacity = kc; addr_capacity = ka })
      → IsRefilled w
          (record { chunks = vcs; addrs = ps; chunk_capacity = kc; addr_capacity = ka })
          (refill ⦃s = s⦄ fuel w
            (record { chunks = vcs; addrs = ps; chunk_capacity = kc; addr_capacity = ka }))
  unfolding refill Option.bind
  refill-IsRefilled zero w vcs ps kc ka cw cv b (inl h) = absurd (omega arith)
  refill-IsRefilled zero w vcs ps kc ka cw cv b (inr h) = absurd (omega arith)
  refill-IsRefilled (suc fuel) w [] ps kc ka cw cv b en = record {
    w' = w;
    v' = record { chunks = []; addrs = ps; chunk_capacity = kc; addr_capacity = ka };
    returns = refl;
    counted = (cw, cv);
    bounded = b;
    same = refl;
  }
  refill-IsRefilled (suc fuel) w (c ∷ rest) ps kc ka cw cv b en = elim (Bool-cases (is_full w c)) [
    | inl full ↦ record {
      w' = w;
      v' = record { chunks = c ∷ rest; addrs = ps; chunk_capacity = kc; addr_capacity = ka };
      returns = rw full refl;
      counted = (cw, cv);
      bounded = b;
      same = refl;
    }
    | inr room ↦
        let (chunk_room, addr_room) = has_room w c room in
        let n = min c.addr_count (w.addr_capacity - length w.addrs) in
        let mv =
          move_pieces-IsMoved s w.chunks rest n c (taken_over c) ps w.addrs (omega arith)
            (omega arith) refl in
        let w1 = with_stacks w (mv.m'.new_chunk ∷ w.chunks) mv.m'.working_addrs in
        let v1 = kept_chunk mv.m'.chunk rest in
        let counts = count_kept mv.m'.chunk rest in
        let r =
          refill-IsRefilled fuel w1 v1 mv.m'.waiting_addrs kc ka
            (omega (arith, mv.new_count, mv.working_length, cw))
            (omega (arith, counts, mv.count, mv.waiting_length, cv))
            (omega (arith, chunk_room), omega (arith, mv.working_length, addr_room))
            (still_enough en addr_room mv) in
        IsRefilled-after fuel w c rest ps kc ka room mv r
  ]
    where
      still_enough :
          (length (c ∷ rest) + 2 ≤ suc fuel) ⊎ ((w.addr_capacity ≤ length w.addrs) × (1 ≤ suc fuel))
          → length w.addrs < w.addr_capacity
          → {o : Option (Moving A)}
          → (mv : IsMoved s w.chunks rest
              (min c.addr_count (w.addr_capacity - length w.addrs))
              (record {
                chunk = c;
                waiting_addrs = ps;
                new_chunk = taken_over c;
                working_addrs = w.addrs;
              })
              o)
          → (length (kept_chunk mv.m'.chunk rest) + 2 ≤ fuel)
            ⊎ ((w.addr_capacity ≤ length mv.m'.working_addrs) × (1 ≤ fuel))
      still_enough (inl h) room mv =
          enough_after fuel w.addr_capacity (length mv.m'.working_addrs) mv.m'.chunk rest w c h room
            mv.working_length mv.count
      still_enough (inr h) room mv = absurd (omega arith)

  -- With stacks whose chunks count their pieces, and a working stack within its capacities, the
  -- stacks that `refill_stack` leaves are so again, and no round is missing. No piece is lost or
  -- doubled, none changes its page table, and the order stays: the working stack turned onto the
  -- waiting one is the same as before.
  pub refill_stack_lem :
      (working waiting : Target A)
      → IsCounted working
      → IsCounted waiting
      → Bounded working
      → (r : Target A × Target A) × (refill_stack ⦃s = s⦄ working waiting ≡ some r)
        × (IsCounted r.0 × IsCounted r.1)
        × Bounded r.0
        × (turn_onto (tabled r.0.chunks r.0.addrs) (tabled r.1.chunks r.1.addrs)
            ≡ turn_onto (tabled working.chunks working.addrs) (tabled waiting.chunks waiting.addrs))
  refill_stack_lem working waiting cw cv b =
      let r =
        refill-IsRefilled (length waiting.chunks + 2) working waiting.chunks waiting.addrs
          waiting.chunk_capacity waiting.addr_capacity cw cv b (inl (omega arith)) in
      ((r.w', r.v'), r.returns, r.counted, r.bounded, r.same)
