-- ===== src/Mmu/RunLaws.antt =====
-- What holds at the end of the walk of memflow/src/mem/virt_translate/mmu/spec.rs, by induction on
-- its rounds.
use memflow.Prelude.{◌+◌, Option, some, none, List, [], ◌∷◌, Bool, not, ◌||◌, All}
use memflow.Prelude.Results.{Result, ok, err}
use memflow.Error.Code.{Error}
use memflow.Types.Address.{Address}
use memflow.Iter.Split.{SplitAtIndex, Addressed}
use memflow.Mmu.Spec.{ArchMmuSpec, check_entry, is_final_mapping}
use memflow.Mmu.TranslateData.{TranslationChunk}
use memflow.Mmu.SplitChunk.{Splitting, split_chunk}
use memflow.Mmu.Refill.{no_chunks, refill_stack}
use memflow.Mmu.Walk.{
  Walk, after_split, judge, work_chunk, work_through_stack, ReadMem, read_pt_address_iter,
}
use memflow.Mmu.Iterate.{
  Walking, Calls, Round, more, done, give_up, after_fill, after_refill, walk_of, after_walk, swap,
  fill, next_stacks, after_read, round_on, walk_round, Runs, ends, goes,
}
use memflow.Mmu.ReadLaws.{IsRead, AnswersAll, HasRead, Loaded, read_pt_address_iter-Loaded}
use memflow.Prelude.Holds.{Holds, Holds-some, Holds-if, Holds-map, Holds-bind}
use memflow.Mmu.KeepLaws.{IsPage, present_of, ArePages, Keeps-fail_pieces, Keeps-finish_pieces}

module _ {ℓ} {A : Type ℓ} (s : SplitAtIndex A) (spec : ArchMmuSpec) (mem : ReadMem) where
  abbrev KeepsPages : Walk A → Type ℓ
  KeepsPages w = ArePages spec mem w.out

  Holds-judge :
      (repeated : Bool) (c : TranslationChunk) (w : Walk A)
      → IsRead spec mem c.pt_addr
      → KeepsPages w
      → Holds KeepsPages (judge ⦃s = s⦄ spec repeated c w)
  unfolding judge
  Holds-judge repeated c w read h =
      Holds-if KeepsPages (not (check_entry spec c.pt_addr (c.step + 1)) || repeated) _ _
        (λ t. Holds-some KeepsPages _ (Keeps-fail_pieces spec mem c.addr_count c w h))
        (λ f.
          Holds-if KeepsPages (is_final_mapping spec c.pt_addr c.step) _ _
            (λ t. Holds-some KeepsPages _ (
              Keeps-finish_pieces spec mem c.pt_addr c.step c.prev_flags read
                (present_of (check_entry spec c.pt_addr (c.step + 1)) repeated f) t c.addr_count c w
                h))
            (λ g.
              Holds-map KeepsPages (after_split ⦃s = s⦄ w)
                (split_chunk ⦃s = s⦄ spec c w.working_addrs w.tmp_addrs w.next_working w.waiting)
                (λ sp. h)))

  Holds-work_through_stack :
      (cs : List TranslationChunk) (w : Walk A)
      → All (HasRead spec mem) cs
      → KeepsPages w
      → Holds KeepsPages (work_through_stack ⦃s = s⦄ spec cs w)
  unfolding work_through_stack work_chunk
  Holds-work_through_stack [] w read h = Holds-some KeepsPages w h
  Holds-work_through_stack (c ∷ cs) w (r, rs) h =
      Holds-bind KeepsPages KeepsPages (work_chunk ⦃s = s⦄ spec c w)
        (work_through_stack ⦃s = s⦄ spec cs) (Holds-judge _ _ _ r h)
        (λ next k. Holds-work_through_stack cs next rs k)

  abbrev StatePages : Walking A → Type ℓ
  StatePages st = ArePages spec mem st.out

  -- What a round leaves.
  abbrev RoundPages : Round A → Type ℓ
  RoundPages (more st) = ArePages spec mem st.out
  RoundPages (done calls) = ArePages spec mem calls.out

  after_fill-pages :
      (st : Walking A)
      → StatePages st
      → (o : Option (Splitting A) × (List (Error × Addressed A) × List (Addressed A)))
      → StatePages (after_fill st o)
  after_fill-pages st h (none, (fails, rest)) = h
  after_fill-pages st h (some sp, (fails, rest)) = h

  module _ (dtb : Address) (accepts : Error × Addressed A → Bool) where
    Holds-fill :
        (st : Walking A) → StatePages st → Holds StatePages (fill ⦃s = s⦄ spec dtb mem accepts st)
    unfolding fill
    Holds-fill st h = Holds-map StatePages (after_fill st) _ (after_fill-pages st h)

    Holds-next_stacks :
        (st : Walking A)
        → StatePages st
        → Holds StatePages (next_stacks ⦃s = s⦄ spec dtb mem accepts st)
    unfolding next_stacks
    Holds-next_stacks st h =
        Holds-if StatePages (no_chunks st.next_working.chunks) _ _
          (λ t.
            Holds-if StatePages (no_chunks st.waiting.chunks) _ _ (λ t. Holds-fill st h)
              (λ f.
                Holds-map StatePages (after_refill st) (refill_stack ⦃s = s⦄ st.working st.waiting)
                  (λ r. h)))
          (λ f. Holds-some StatePages (swap st) h)

    Holds-after_read :
        (st : Walking A) (r : Result (List TranslationChunk) Error)
        → Loaded spec mem r
        → StatePages st
        → Holds RoundPages (after_read ⦃s = s⦄ spec dtb mem accepts st r)
    unfolding after_read give_up
    Holds-after_read st (err e) read h = Holds-some RoundPages (done (give_up accepts e st)) h
    Holds-after_read st (ok chunks) read h =
        Holds-bind KeepsPages RoundPages (work_through_stack ⦃s = s⦄ spec chunks (walk_of st)) _
          (Holds-work_through_stack chunks (walk_of st) read h)
          (λ w k.
            Holds-bind StatePages RoundPages
              (next_stacks ⦃s = s⦄ spec dtb mem accepts (after_walk st w))
              (λ next. some (more next)) (Holds-next_stacks (after_walk st w) k)
              (λ next k2. Holds-some RoundPages (more next) k2))

    Holds-round_on :
        AnswersAll mem
        → (cs : List TranslationChunk) (st : Walking A) → StatePages st
        → Holds RoundPages (round_on ⦃s = s⦄ spec dtb mem accepts cs st)
    Holds-round_on full [] st h = Holds-some RoundPages _ h
    Holds-round_on full (c ∷ cs) st h =
        Holds-after_read st (read_pt_address_iter spec mem (c ∷ cs))
          (read_pt_address_iter-Loaded spec mem full (c ∷ cs)) h

    -- With a memory that answers each request of a read that succeeds, whatever else it and the
    -- callback answer, and however many rounds the walk takes: if the translations passed on before
    -- are so, then each translation that the walk passes on was made with an entry that the memory
    -- answered, that is present, and that maps a page.
    pub Runs-IsPage :
        AnswersAll mem
        → (st : Walking A) (calls : Calls A) → Runs ⦃s = s⦄ spec dtb mem accepts st calls
        → All (IsPage spec mem) st.out
        → All (IsPage spec mem) calls.out
    unfolding walk_round
    Runs-IsPage full st calls (ends e) h = Holds-round_on full st.working.chunks st h (done calls) e
    Runs-IsPage full st calls (goes {next = next} e rest) h =
        Runs-IsPage full next calls rest (Holds-round_on full st.working.chunks st h (more next) e)
