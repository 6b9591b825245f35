-- ===== src/MemMap/NextLaws.antt =====
-- A call of `next` of `MemoryMapIterator`: rounds of `get_next` until one gives an item.
use mathlib.Core.Path.{subst}
use memflow.Prelude.{
  ℕ, zero, suc, ◌+◌, ◌≤◌, ◌<◌, ◌≡◌, refl, arith, ap, sym, ◌∙◌, Option, some, none, List, [], ◌∷◌,
  ◌++◌, length, All, ◌⊎◌, inl, inr,
}
use memflow.Types.Address.{Address}
use memflow.Iter.Split.{SplitAtIndex, Addressed}
use memflow.Iter.Cells.{cells?, IsSplit, data_cells}
use memflow.MemMap.Map.{MemoryMap}
use memflow.MemMap.Iterator.{MemoryMapIterator, Mapped, Search, load, get_next}
use memflow.MemMap.Routes.{mapped_by, missed_by, translate, IsOrdered}
use memflow.MemMap.FindLaws.{IsSearch, IsAt}
use memflow.MemMap.Pending.{
  Fits, inputs_cells, fails_cells, pending, pending-load, fail_out-load, total, cur_size,
  item_cells, CurReady, IsReady,
}
use memflow.MemMap.CallLaws.{get_next_of-IsRound}
use memflow.MemMap.KeepLaws.{size-load}
use memflow.MemMap.Iterator.{loaded, next_loop, next}

module _ {ℓ κ μ} {M T : Type ℓ} {D : Type κ} {C : Type μ} (sm : SplitAtIndex M)
    (st : SplitAtIndex T) (mcells : M → List D) (tcells : T → List C) (mlaws : IsSplit sm mcells)
    (tlaws : IsSplit st tcells) (search : Search M) (slaws : IsSearch search) (ms : MemoryMap M)
    (low : ℕ) (up : IsOrdered sm low ms) where
  abbrev pub route : Address → Option D
  route = translate sm mcells ms

  abbrev pub left_size : MemoryMapIterator T → ℕ
  left_size it = cur_size st it.cur_elem + total st it.in_iter

  -- What a call of `next` in the state `it` gives.
  pub record IsNext (it : MemoryMapIterator T)
      (r : Option (Option (Mapped M T) × MemoryMapIterator T)) : Type (ℓ ⊔ κ ⊔ μ) where
    pub item : Option (Mapped M T)
    pub it' : MemoryMapIterator T
    pub returns : r ≡ some (item, it')
    pub maps :
        cells? (item_cells mcells tcells) item ++ mapped_by route (pending tcells it')
        ≡ mapped_by route (pending tcells it)
    pub misses :
        fails_cells tcells it'.fail_out ++ missed_by route (pending tcells it')
        ≡ fails_cells tcells it.fail_out ++ missed_by route (pending tcells it)
    pub goes_on :
        ((item ≡ none) × (pending tcells it' ≡ []))
        ⊎ ((i : Mapped M T) × (item ≡ some i)
            × IsReady sm st ms it'
            × (left_size it' < left_size it))

  abbrev loop : ℕ → MemoryMapIterator T → Option (Option (Mapped M T) × MemoryMapIterator T)
  loop fuel it = next_loop ⦃sm = sm⦄ ⦃st = st⦄ search ms fuel it

  abbrev at_elem : Addressed T → List (Addressed T) → List (Address × T) → ℕ → MemoryMapIterator T
  at_elem x inputs calls pos = record {
    in_iter = inputs;
    fail_out = calls;
    cur_elem = some x;
    cur_map_pos = pos;
  }

  loop_load :
      (fuel : ℕ)
      → ((x : Addressed T) (xs : List (Addressed T)) (calls : List (Address × T))
          → Fits st x
          → All (Fits st) xs
          → length xs + 2 ≤ fuel
          → IsNext (at_elem x xs calls 0) (loop fuel (at_elem x xs calls 0)))
      → (inputs : List (Addressed T)) (calls : List (Address × T)) → All (Fits st) inputs
      → length inputs + 1 ≤ fuel
      → IsNext (load inputs calls) (loop fuel (load inputs calls))
  unfolding next_loop
  loop_load zero ih inputs calls fits enough = absurd (omega arith)
  loop_load (suc fuel) ih [] calls fits enough = record {
    item = none;
    it' = load [] calls;
    returns = refl;
    maps = refl;
    misses = refl;
    goes_on = inl (refl, refl);
  }
  loop_load (suc fuel) ih (x ∷ xs) calls (f, fs) enough = ih x xs calls f fs (omega arith)

  pending-reload :
      (it : MemoryMapIterator T)
      → it.cur_elem ≡ none
      → pending tcells (load it.in_iter it.fail_out) ≡ pending tcells it
  pending-reload it no_cur =
      pending-load tcells it.in_iter it.fail_out
      ∙ ap (λ c. cells? (data_cells tcells) c ++ inputs_cells tcells it.in_iter) (sym no_cur)

  -- An element without an item: `next` goes on with the input.
  go_on :
      (x : Addressed T) (inputs : List (Addressed T)) (calls : List (Address × T)) (pos : ℕ)
      (it : MemoryMapIterator T) (r : Option (Option (Mapped M T) × MemoryMapIterator T))
      → it.cur_elem ≡ none
      → it.in_iter ≡ inputs
      → mapped_by route (pending tcells it)
        ≡ mapped_by route (pending tcells (at_elem x inputs calls pos))
      → fails_cells tcells it.fail_out ++ missed_by route (pending tcells it)
        ≡ fails_cells tcells calls ++ missed_by route (pending tcells (at_elem x inputs calls pos))
      → IsNext (load it.in_iter it.fail_out) r
      → IsNext (at_elem x inputs calls pos) r
  go_on x inputs calls pos it r no_cur same maps misses n =
      let size = size-load sm st mcells tcells mlaws tlaws it.in_iter it.fail_out in
      let total_same = ap (total st) same in
      record {
        item = n.item;
        it' = n.it';
        returns = n.returns;
        maps = n.maps ∙ ap (mapped_by route) (pending-reload it no_cur) ∙ maps;
        misses =
            n.misses
            ∙ ap
                (λ cs.
                  fails_cells tcells (load it.in_iter it.fail_out).fail_out ++ missed_by route cs)
                (pending-reload it no_cur)
            ∙ ap (λ cs. fails_cells tcells cs ++ missed_by route (pending tcells it))
                (fail_out-load tcells it.in_iter it.fail_out)
            ∙ misses;
        goes_on = elim n.goes_on [
          | inl over ↦ inl over
          | inr (i, e, ready, lt) ↦ inr (i, e, ready, omega (arith, lt, size, total_same))
        ];
      }

  loop_some :
      (fuel : ℕ) (x : Addressed T) (inputs : List (Addressed T)) (calls : List (Address × T))
      (pos : ℕ)
      → Fits st x
      → IsAt sm x.addr ms pos
      → All (Fits st) inputs
      → length inputs + 2 ≤ fuel
      → IsNext (at_elem x inputs calls pos) (loop fuel (at_elem x inputs calls pos))
  unfolding next_loop get_next
  loop_some zero x inputs calls pos fits_x at fits enough = absurd (omega arith)
  loop_some (suc fuel) x inputs calls pos fits_x at fits enough =
      let r =
        get_next_of-IsRound sm st mcells tcells mlaws tlaws x fits_x inputs fits calls search slaws
          ms low up pos at in
      let again =
        loop_load fuel (λ y ys cs f fs le. loop_some fuel y ys cs 0 f (start_at y) fs le)
          r.it.in_iter r.it.fail_out in
      let item_maps : (o : Option (Mapped M T))
          → r.item ≡ o
          → cells? (item_cells mcells tcells) o ++ mapped_by route (pending tcells r.it)
            ≡ mapped_by route (pending tcells (at_elem x inputs calls pos)) =
        λ o e.
          ap (λ o. cells? (item_cells mcells tcells) o ++ mapped_by route (pending tcells r.it))
            (sym e)
          ∙ r.maps in
      elim r.goes_on [
        | inl (no_item, no_cur, same) ↦
            rw (r.returns, no_item)
              (go_on x inputs calls pos r.it (loop fuel (load r.it.in_iter r.it.fail_out)) no_cur
                same (item_maps none no_item) r.misses
                (again (subst (All (Fits st)) (sym same) fits) (omega (arith, ap length same))))
        | inr (i, some_item, ready, lt) ↦
            rw (r.returns, some_item)
              (record {
                item = some i;
                it' = r.it;
                returns = refl;
                maps = item_maps (some i) some_item;
                misses = r.misses;
                goes_on = inr (i, refl, ready, lt);
              })
      ]
    where
      start_at : (y : Addressed T) → IsAt sm y.addr ms 0
      start_at y = record { done = []; rest = ms; whole = refl; at = refl; ended = tt }

  -- At a position 0, what is loaded first is what `load` gives.
  loaded-none :
      (inputs : List (Addressed T)) (calls : List (Address × T))
      → loaded none inputs calls 0 ≡ load inputs calls
  loaded-none [] calls = refl
  loaded-none (x ∷ xs) calls = refl

  elem_start : (x : Addressed T) → IsAt sm x.addr ms 0
  elem_start x = record { done = []; rest = ms; whole = refl; at = refl; ended = tt }

  next_at :
      (c : Option (Addressed T)) (inputs : List (Addressed T)) (calls : List (Address × T))
      (pos : ℕ)
      → CurReady sm st ms c pos
      → All (Fits st) inputs
      → IsNext
          (record { in_iter = inputs; fail_out = calls; cur_elem = c; cur_map_pos = pos })
          (loop (length inputs + 2) (loaded c inputs calls pos))
  next_at (some x) inputs calls pos (fits_x, at) fits =
      loop_some (length inputs + 2) x inputs calls pos fits_x at fits (omega arith)
  next_at none inputs calls pos at fits =
      let n : IsNext (load inputs calls) (loop (length inputs + 2) (load inputs calls)) =
        loop_load (length inputs + 2)
          (λ y ys cs f fs le. loop_some (length inputs + 2) y ys cs 0 f (elem_start y) fs le) inputs
          calls fits (omega arith) in
      let size = size-load sm st mcells tcells mlaws tlaws inputs calls in
      record {
        item = n.item;
        it' = n.it';
        returns =
            ap (λ p. loop (length inputs + 2) (loaded none inputs calls p)) at.lower
            ∙ ap (loop (length inputs + 2)) (loaded-none inputs calls)
            ∙ n.returns;
        maps = n.maps ∙ ap (mapped_by route) (pending-load tcells inputs calls);
        misses =
            n.misses
            ∙ ap (λ cs. fails_cells tcells (load inputs calls).fail_out ++ missed_by route cs)
                (pending-load tcells inputs calls)
            ∙ ap (λ cs. fails_cells tcells cs ++ missed_by route (inputs_cells tcells inputs))
                (fail_out-load tcells inputs calls);
        goes_on = elim n.goes_on [
          | inl over ↦ inl over
          | inr (i, e, ready, lt) ↦ inr (i, e, ready, omega (arith, lt, size))
        ];
      }

  pub next-IsNext :
      (it : MemoryMapIterator T)
      → IsReady sm st ms it
      → IsNext it (next ⦃sm = sm⦄ ⦃st = st⦄ search ms it)
  unfolding next
  next-IsNext it ready =
      next_at it.cur_elem it.in_iter it.fail_out it.cur_map_pos ready.cur ready.inputs
