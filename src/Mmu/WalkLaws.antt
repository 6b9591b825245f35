-- ===== src/Mmu/WalkLaws.antt =====
-- What `work_through_stack` does with the pieces of a chunk whose walk ends.
use memflow.Prelude.{
  ℕ, suc, ◌+◌, ◌≡◌, refl, arith, ap, sym, ◌∙◌, Option, some, List, [], ◌∷◌, ◌++◌, Bool, true, false,
  not, ◌||◌, get_or, set, map, length, lt→ltb, inl, inr, ◌⊎◌, Bool-cases,
}
use mathlib.Core.List.{append-nil, append_assoc}
use memflow.Types.Address.{Address}
use memflow.Iter.Split.{SplitAtIndex, Addressed}
use memflow.Mmu.Spec.{ArchMmuSpec, FlagsType, check_entry, is_final_mapping}
use memflow.Mmu.TranslateData.{TranslationChunk, pop_data}
use memflow.Mmu.Filter.{out_of_range}
use memflow.Mmu.Walk.{
  Walk, Translated, while_some, fail_entry, finish_entry, fail_pieces, finish_pieces, translated,
  current, repeats, judge, work_chunk,
}

abbrev counted_off : TranslationChunk → ℕ → TranslationChunk
counted_off c n = record c { addr_count = n }

abbrev Popped {ℓ} : Type ℓ → Type ℓ
Popped A = TranslationChunk × (Option (Addressed A) × List (Addressed A))

module _ {ℓ} {A : Type ℓ} where
  pop_counted :
      (c : TranslationChunk) (n : ℕ) (p : Addressed A) (ps : List (Addressed A))
      → pop_data (counted_off c (suc n)) (p ∷ ps) ≡ (counted_off c n, (some p, ps))
  unfolding pop_data
  pop_counted c n p ps =
      rw (lt→ltb 0 (suc n) (omega arith)) (ap (λ k. (counted_off c k, (some p, ps))) (omega arith))

  -- The walk with the pieces of a stack reported as failures, and with them translated.
  abbrev pub failed_walk : Walk A → List (Addressed A) → List (Addressed A) → Walk A
  failed_walk w ps rest = record w {
    working_addrs = rest;
    out_fail = w.out_fail ++ map (λ entry. (out_of_range, entry)) ps;
  }

  abbrev pub finished_walk :
      (Addressed A → Translated A) → Walk A → List (Addressed A) → List (Addressed A) → Walk A
  finished_walk f w ps rest = record w { working_addrs = rest; out = w.out ++ map f ps }

  fail_pieces-all :
      (c : TranslationChunk) (ps rest : List (Addressed A)) (w : Walk A)
      → fail_pieces
          (length ps)
          (counted_off c (length ps))
          (record w { working_addrs = ps ++ rest })
        ≡ failed_walk w ps rest
  unfolding fail_pieces
  fail_pieces-all c [] rest w =
      ap (λ f. record w { working_addrs = rest; out_fail = f }) (sym (append-nil w.out_fail))
  fail_pieces-all c (p ∷ ps) rest w =
      let here = record w { working_addrs = p ∷ (ps ++ rest) } in
      let body : Popped A → Walk A = λ q.
        while_some q.1.0 here
          (λ entry. fail_pieces (length ps) q.0 (fail_entry here q.1.1 entry)) in
      ap body (pop_counted c (length ps) p (ps ++ rest))
      ∙ fail_pieces-all c ps rest (record w { out_fail = w.out_fail ++ (out_of_range, p) ∷ [] })
      ∙ ap (λ f. record w { working_addrs = rest; out_fail = f })
          (append_assoc w.out_fail ((out_of_range, p) ∷ [])
            (map (λ entry. (out_of_range, entry)) ps))

  module _ (spec : ArchMmuSpec) (pt_addr : Address) (step : ℕ) (prev_flags : FlagsType) where
    finish_pieces-all :
        (c : TranslationChunk) (ps rest : List (Addressed A)) (w : Walk A)
        → finish_pieces spec pt_addr step prev_flags
            (length ps)
            (counted_off c (length ps))
            (record w { working_addrs = ps ++ rest })
          ≡ finished_walk (translated spec pt_addr step prev_flags) w ps rest
    unfolding finish_pieces
    finish_pieces-all c [] rest w =
        ap (λ f. record w { working_addrs = rest; out = f }) (sym (append-nil w.out))
    finish_pieces-all c (p ∷ ps) rest w =
        let here = record w { working_addrs = p ∷ (ps ++ rest) } in
        let body : Popped A → Walk A = λ q. while_some q.1.0 here (λ entry.
          finish_pieces spec pt_addr step prev_flags (length ps) q.0
            (finish_entry spec pt_addr step prev_flags here q.1.1 entry)) in
        let t = translated spec pt_addr step prev_flags in
        ap body (pop_counted c (length ps) p (ps ++ rest))
        ∙ finish_pieces-all c ps rest (record w { out = w.out ++ t p ∷ [] })
        ∙ ap (λ f. record w { working_addrs = rest; out = f })
            (append_assoc w.out (t p ∷ []) (map t ps))

module _ {ℓ} {A : Type ℓ} (s : SplitAtIndex A) (spec : ArchMmuSpec) (c : TranslationChunk)
    (ps rest : List (Addressed A)) (w : Walk A) (counts : c.addr_count ≡ length ps) where
  -- The state when the loop comes to the chunk, and with the chunk remembered.
  abbrev pub before : Walk A
  before = record w { working_addrs = ps ++ rest }

  abbrev pub remembered : Walk A
  remembered = record w { prev_pt_address = set w.prev_pt_address c.step (current spec c) }

  abbrev repeated : Bool
  repeated = repeats (current spec c) (get_or w.prev_pt_address c.step (0, 0))

  -- A chunk whose entry is not present, or repeats the last one of its step for other addresses:
  -- all its pieces, no others, are reported with the error of the translation, in order.
  pub work_chunk-failed :
      (check_entry spec c.pt_addr (c.step + 1 + 1) ≡ false)
        ⊎ (repeats (current spec c) (get_or w.prev_pt_address c.step (0, 0)) ≡ true)
      → work_chunk ⦃s = s⦄ spec c (record w { working_addrs = ps ++ rest })
        ≡ some (record w {
          prev_pt_address = set w.prev_pt_address c.step (current spec c);
          working_addrs = rest;
          out_fail = w.out_fail ++ map (λ entry. (out_of_range, entry)) ps;
        })
  unfolding work_chunk judge
  work_chunk-failed why = rw (branch why) (
      ap
        (λ n. some (
          fail_pieces n (counted_off (record c { step = c.step + 1 }) n)
            (record remembered { working_addrs = ps ++ rest })))
        counts
      ∙ ap some (fail_pieces-all (record c { step = c.step + 1 }) ps rest remembered))
    where
      branch :
          (check_entry spec c.pt_addr (c.step + 1 + 1) ≡ false) ⊎ (repeated ≡ true)
          → (not (check_entry spec c.pt_addr (c.step + 1 + 1)) || repeated) ≡ true
      branch (inl e) = rw e refl
      branch (inr e) = elim (Bool-cases (not (check_entry spec c.pt_addr (c.step + 1 + 1)))) [
        | inl f ↦ rw f refl
        | inr f ↦ rw (f, e) refl
      ]

  -- A chunk whose entry is present, does not repeat the last one of its step, and maps a page: all
  -- its pieces, no others, are translated with that entry and passed on, in order.
  pub work_chunk-finished :
      check_entry spec c.pt_addr (c.step + 1 + 1) ≡ true
      → repeats (current spec c) (get_or w.prev_pt_address c.step (0, 0)) ≡ false
      → is_final_mapping spec c.pt_addr (c.step + 1) ≡ true
      → work_chunk ⦃s = s⦄ spec c (record w { working_addrs = ps ++ rest })
        ≡ some (record w {
          prev_pt_address = set w.prev_pt_address c.step (current spec c);
          working_addrs = rest;
          out = w.out ++ map (translated spec c.pt_addr (c.step + 1) c.prev_flags) ps;
        })
  unfolding work_chunk judge
  work_chunk-finished present fresh final =
      rw (present, fresh, final)
        (ap
            (λ n. some (
              finish_pieces spec c.pt_addr (c.step + 1) c.prev_flags n
                (counted_off (record c { step = c.step + 1 }) n)
                (record remembered { working_addrs = ps ++ rest })))
            counts
          ∙ ap some (
              finish_pieces-all spec c.pt_addr (c.step + 1) c.prev_flags
                (record c { step = c.step + 1 }) ps rest remembered))
