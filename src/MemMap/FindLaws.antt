-- ===== src/MemMap/FindLaws.antt =====
-- The search of `MemoryMapIterator` for the mapping that an address lies in, or the next one, on a
-- map in order.
use Prim.Native.Nat.{Ordering}
use memflow.Prelude.{
  ℕ, ◌+◌, ◌^◌, ◌<◌, ◌≡◌, refl, arith, ap, sym, ◌∙◌, some, none, [], ◌∷◌, ◌++◌, ◌&&◌, length, All,
  drop, ◌⊎◌, inl, inr, Bool-cases, ltb→lt, lt→ltb, ltb, leb, ◌==◌,
}
use mathlib.Core.List.{append-nil}
use native.Mathlib.Nat.{mod-eq_of_lt}
use memflow.Types.Address.{Address}
use memflow.Iter.Split.{SplitAtIndex}
use memflow.MemMap.Map.{MemoryMapping, MemoryMap, end_of}
use memflow.MemMap.Iterator.{Search, probe, start_pos, find_from, min_bsearch_thresh}
use memflow.MemMap.Routes.{IsOrdered, Ended}

-- At most one equal element, then greater ones.
abbrev pub IsRest {ℓ} : {M : Type ℓ} → (MemoryMapping M → Ordering) → MemoryMap M → Type 0
IsRest f [] = Unit
IsRest f (m ∷ ms) = ((f m ≡ Ordering.eq) ⊎ (f m ≡ Ordering.gt)) × All (λ n. f n ≡ Ordering.gt) ms

-- The contract of `binary_search_by`: where the elements that are less come first, then at most one
-- that is equal, then those that are greater, the index is the number of those that are less.
pub record IsSearch {ℓ} {M : Type ℓ} (search : Search M) : Type ℓ where
  pub index :
      (f : MemoryMapping M → Ordering) (less more : MemoryMap M)
      → All (λ m. f m ≡ Ordering.lt) less
      → IsRest f more
      → search f (less ++ more) ≡ length less

module _ {ℓ} {M : Type ℓ} (sm : SplitAtIndex M) where
  -- A position that no mapping before it ends after the address.
  pub record IsAt (a : Address) (ms : MemoryMap M) (pos : ℕ) : Type ℓ where
    pub done : MemoryMap M
    pub rest : MemoryMap M
    pub whole : ms ≡ done ++ rest
    pub at : length done ≡ pos
    pub ended : All (Ended sm a) done

  -- The mapping that the search finds.
  pub record IsFound (a : Address) (i : ℕ) (ms : MemoryMap M) : Type ℓ where
    pub before : MemoryMap M
    pub mapping : MemoryMapping M
    pub after : MemoryMap M
    pub whole : ms ≡ before ++ mapping ∷ after
    pub found : find_from ⦃sm = sm⦄ a i ms ≡ some (i + length before, mapping)
    pub ended : All (Ended sm a) before
    pub open_end : a < mapping.base + sm.size mapping.output

  end_whole :
      (m : MemoryMapping M)
      → m.base + sm.size m.output < 2 ^ 64
      → end_of ⦃s = sm⦄ m ≡ m.base + sm.size m.output
  end_whole m fits = mod-eq_of_lt fits

  IsFound-later :
      {a : Address} {i : ℕ} {m : MemoryMapping M} {ms : MemoryMap M}
      → find_from ⦃sm = sm⦄ a i (m ∷ ms) ≡ find_from ⦃sm = sm⦄ a (i + 1) ms
      → Ended sm a m
      → IsFound a (i + 1) ms
      → IsFound a i (m ∷ ms)
  IsFound-later {i = i} {m = m} skip h f = record {
    before = m ∷ f.before;
    mapping = f.mapping;
    after = f.after;
    whole = ap (◌∷◌ m) f.whole;
    found = skip ∙ f.found ∙ ap (λ k. some (k, f.mapping)) (omega arith);
    ended = (h, f.ended);
    open_end = f.open_end;
  }

  pub find_from-cases :
      (a i low : ℕ) (ms : MemoryMap M)
      → IsOrdered sm low ms
      → ((find_from ⦃sm = sm⦄ a i ms ≡ none) × All (Ended sm a) ms) ⊎ IsFound a i ms
  unfolding find_from IsOrdered
  find_from-cases a i low [] up = inl (refl, tt)
  find_from-cases a i low (m ∷ ms) (at, pos, fits, up) =
      elim (Bool-cases (ltb a (end_of ⦃s = sm⦄ m))) [
        | inl e ↦ inr (record {
          before = [];
          mapping = m;
          after = ms;
          whole = refl;
          found = rw e (ap (λ k. some (k, m)) (omega arith));
          ended = tt;
          open_end = omega (arith, ltb→lt a _ e, end_whole m fits);
        })
        | inr e ↦
            let over : Ended sm a m = ground (arith, e, end_whole m fits) in
            elim (find_from-cases a (i + 1) (m.base + sm.size m.output) ms up) [
              | inl (none_found, ended) ↦ inl (rw e none_found, (over, ended))
              | inr f ↦ inr (IsFound-later (rw e refl) over f)
            ]
      ]

  pub IsOrdered-parts :
      (low : ℕ) (before : MemoryMap M) (m : MemoryMapping M) (after : MemoryMap M)
      → IsOrdered sm low (before ++ m ∷ after)
      → (0 < sm.size m.output)
        × (m.base + sm.size m.output < 2 ^ 64)
        × IsOrdered sm (m.base + sm.size m.output) after
  unfolding IsOrdered
  IsOrdered-parts low [] m after (at, pos, fits, up) = (pos, fits, up)
  IsOrdered-parts low (b ∷ bs) m after (at, pos, fits, up) =
      IsOrdered-parts (b.base + sm.size b.output) bs m after up

  pub IsOrdered-rest :
      (low : ℕ) (done rest : MemoryMap M)
      → IsOrdered sm low (done ++ rest)
      → (low' : ℕ) × IsOrdered sm low' rest
  unfolding IsOrdered
  IsOrdered-rest low [] rest up = (low, up)
  IsOrdered-rest low (m ∷ ms) rest (at, pos, fits, up) =
      IsOrdered-rest (m.base + sm.size m.output) ms rest up

  fits_done :
      (low : ℕ) (done rest : MemoryMap M)
      → IsOrdered sm low (done ++ rest)
      → All (λ m. m.base + sm.size m.output < 2 ^ 64) done
  unfolding IsOrdered
  fits_done low [] rest up = tt
  fits_done low (m ∷ ms) rest (at, pos, fits, up) =
      (fits, fits_done (m.base + sm.size m.output) ms rest up)

  pub drop_done : (done rest : MemoryMap M) → drop (length done) (done ++ rest) ≡ rest
  drop_done [] rest = refl
  drop_done (m ∷ ms) rest = drop_done ms rest

  probe-Ended :
      (a : Address) (ms : MemoryMap M)
      → All (λ m. m.base + sm.size m.output < 2 ^ 64) ms
      → All (Ended sm a) ms
      → All (λ m. probe ⦃sm = sm⦄ a m ≡ Ordering.lt) ms
  probe-Ended a [] fits h = tt
  probe-Ended a (m ∷ ms) (f, fs) (h, hs) =
      let whole = end_whole m f in (ground (arith, whole), probe-Ended a ms fs hs)

  probe-above :
      (a low : Address) (ms : MemoryMap M)
      → a < low
      → IsOrdered sm low ms
      → All (λ m. probe ⦃sm = sm⦄ a m ≡ Ordering.gt) ms
  unfolding IsOrdered
  probe-above a low [] lt up = tt
  probe-above a low (m ∷ ms) lt (at, pos, fits, up) = (
    rw (lt→ltb a m.base (omega arith)) refl,
    probe-above a (m.base + sm.size m.output) ms (omega (arith, at, lt)) up,
  )

  probe_open :
      (a : Address) (m : MemoryMapping M)
      → m.base + sm.size m.output < 2 ^ 64
      → a < m.base + sm.size m.output
      → (probe ⦃sm = sm⦄ a m ≡ Ordering.eq) ⊎ (probe ⦃sm = sm⦄ a m ≡ Ordering.gt)
  probe_open a m fits lt =
      let whole = end_whole m fits in
      elim (Bool-cases (ltb a m.base)) [
        | inl e ↦ inr (rw e refl)
        | inr e ↦ inl (ground (arith, e, whole))
      ]

  module _ (search : Search M) (laws : IsSearch search) where
    searched_none :
        (a low : ℕ) (ms : MemoryMap M)
        → IsOrdered sm low ms
        → All (Ended sm a) ms
        → length ms ≡ search (probe ⦃sm = sm⦄ a) ms
    searched_none a low ms up ended =
        let fits = fits_done low ms [] (rw (append-nil ms) up) in
        sym (laws.index (probe ⦃sm = sm⦄ a) ms [] (probe-Ended a ms fits ended) tt)
        ∙ ap (search (probe ⦃sm = sm⦄ a)) (append-nil ms)

    searched_found :
        (a low : ℕ) (before after : MemoryMap M) (m : MemoryMapping M)
        → IsOrdered sm low (before ++ m ∷ after)
        → All (Ended sm a) before
        → a < m.base + sm.size m.output
        → length before ≡ search (probe ⦃sm = sm⦄ a) (before ++ m ∷ after)
    searched_found a low before after m up ended lt =
        let (pos, fits, above) = IsOrdered-parts low before m after up in
        let early = probe-Ended a before (fits_done low before (m ∷ after) up) ended in
        let late = probe-above a (m.base + sm.size m.output) after lt above in
        sym (laws.index (probe ⦃sm = sm⦄ a) before (m ∷ after) early (probe_open a m fits lt, late))

    searched :
        (a low : ℕ) (ms : MemoryMap M)
        → IsOrdered sm low ms
        → IsAt a ms (search (probe ⦃sm = sm⦄ a) ms)
    searched a low ms up = elim (find_from-cases a 0 low ms up) [
      | inl (none_found, ended) ↦ record {
        done = ms;
        rest = [];
        whole = sym (append-nil ms);
        at = searched_none a low ms up ended;
        ended = ended;
      }
      | inr f ↦ record {
        done = f.before;
        rest = f.mapping ∷ f.after;
        whole = f.whole;
        at =
            searched_found a low f.before f.after f.mapping (rw f.whole at up) f.ended f.open_end
            ∙ ap (search (probe ⦃sm = sm⦄ a)) (sym f.whole);
        ended = f.ended;
      }
    ]

    -- The search of a long map starts where no mapping before ends after the address, too.
    pub start_pos-IsAt :
        (a low pos : ℕ) (ms : MemoryMap M)
        → IsOrdered sm low ms
        → IsAt a ms pos
        → IsAt a ms (start_pos ⦃sm = sm⦄ search ms a pos)
    unfolding start_pos
    start_pos-IsAt a low pos ms up here =
        elim (Bool-cases (leb min_bsearch_thresh (length ms) && pos == 0)) [
          | inl e ↦ rw e (searched a low ms up)
          | inr e ↦ rw e here
        ]
