-- ===== src/MemMap/CollectLaws.antt =====
-- `MemoryMapIterator` run to its end.
use memflow.Prelude.{
  ℕ, zero, suc, ◌+◌, ◌<◌, ◌≡◌, refl, arith, ap, sym, ◌∙◌, Option, some, none, List, [], ◌∷◌, ◌++◌,
  All, inl, inr,
}
use mathlib.Core.List.{append-nil}
use memflow.Types.Address.{Address}
use memflow.Iter.Split.{SplitAtIndex, Addressed}
use memflow.Iter.Cells.{cells?, IsSplit}
use memflow.MemMap.Map.{MemoryMap}
use memflow.MemMap.Iterator.{MemoryMapIterator, Mapped, Search}
use memflow.MemMap.Routes.{mapped_by, missed_by, translate, IsOrdered}
use memflow.MemMap.FindLaws.{IsSearch}
use memflow.MemMap.Pending.{
  Fits, inputs_cells, fails_cells, pending, total, cur_size, item_cells, items_cells, IsReady,
}
use memflow.MemMap.Iterator.{collect, new}
use memflow.MemMap.NextLaws.{IsNext, next-IsNext}

module _ {ℓ κ μ} {M T : Type ℓ} {D : Type κ} {C : Type μ} (sm : SplitAtIndex M)
    (st : SplitAtIndex T) (mcells : M → List D) (tcells : T → List C) (mlaws : IsSplit sm mcells)
    (tlaws : IsSplit st tcells) (search : Search M) (slaws : IsSearch search) (ms : MemoryMap M)
    (low : ℕ) (up : IsOrdered sm low ms) where
  abbrev route : Address → Option D
  route = translate sm mcells ms

  abbrev left_size : MemoryMapIterator T → ℕ
  left_size it = cur_size st it.cur_elem + total st it.in_iter

  abbrev Collected :
      MemoryMapIterator T → Option (List (Mapped M T) × List (Address × T)) → Type (ℓ ⊔ κ ⊔ μ)
  Collected it o =
      (r : List (Mapped M T) × List (Address × T)) × (o ≡ some r)
      × (items_cells mcells tcells r.0 ≡ mapped_by route (pending tcells it))
      × (fails_cells tcells r.1
          ≡ fails_cells tcells it.fail_out ++ missed_by route (pending tcells it))

  next_items :
      {it : MemoryMapIterator T} {o : Option (Option (Mapped M T) × MemoryMapIterator T)}
      (n : IsNext sm st mcells tcells mlaws tlaws search slaws ms low up it o)
      (item : Option (Mapped M T))
      → n.item ≡ item
      → cells? (item_cells mcells tcells) item ++ mapped_by route (pending tcells n.it')
        ≡ mapped_by route (pending tcells it)
  next_items n item e =
      ap (λ o. cells? (item_cells mcells tcells) o ++ mapped_by route (pending tcells n.it'))
        (sym e)
      ∙ n.maps

  collect-Collected :
      (rounds : ℕ) (it : MemoryMapIterator T)
      → IsReady sm st ms it
      → left_size it < rounds
      → Collected it (collect ⦃sm = sm⦄ ⦃st = st⦄ search ms rounds it)
  unfolding collect
  collect-Collected zero it ready enough = absurd (omega arith)
  collect-Collected (suc rounds) it ready enough =
      let n = next-IsNext sm st mcells tcells mlaws tlaws search slaws ms low up it ready in
      elim n.goes_on [
        | inl (no_item, over) ↦ (
          ([], n.it'.fail_out),
          rw (n.returns, no_item) refl,
          sym (ap (mapped_by route) over) ∙ next_items n none no_item,
          sym (append-nil (fails_cells tcells n.it'.fail_out))
              ∙ ap (λ cs. fails_cells tcells n.it'.fail_out ++ missed_by route cs) (sym over)
              ∙ n.misses,
        )
        | inr (i, some_item, ready', lt) ↦
            let (r, e, items, fails) = collect-Collected rounds n.it' ready' (omega arith) in
            (
              (i ∷ r.0, r.1),
              rw (n.returns, some_item, e) refl,
              ap (λ cs. item_cells mcells tcells i ++ cs) items ∙ next_items n (some i) some_item,
              fails ∙ n.misses,
            )
      ]

  -- For a map in order, without empty mappings, overlap or wrap-around, and inputs that are not
  -- empty and do not wrap past 0, the iterator, called once more than the inputs have units, comes
  -- to its end without a panic, whatever index a correct binary search finds. Its items pair each
  -- cell of the inputs whose address lies in a mapping with the output cell of that address, in
  -- order, at the address the caller knows it by; `fail_out` is called with the other cells, in order.
  pub collect_lem :
      (inputs : List (Addressed T)) (rounds : ℕ)
      → All (Fits st) inputs
      → total st inputs < rounds
      → (r : List (Mapped M T) × List (Address × T)) × (collect ⦃sm = sm⦄ ⦃st = st⦄ search ms rounds
            (new inputs)
          ≡ some r)
        × (items_cells mcells tcells r.0 ≡ mapped_by route (inputs_cells tcells inputs))
        × (fails_cells tcells r.1 ≡ missed_by route (inputs_cells tcells inputs))
  unfolding new
  collect_lem inputs rounds fits enough =
      collect-Collected rounds (new inputs)
        (record { cur = record { lower = refl }; inputs = fits }) (omega arith)
