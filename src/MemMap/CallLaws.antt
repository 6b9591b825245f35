-- ===== src/MemMap/CallLaws.antt =====
-- A call of `get_next` of `MemoryMapIterator`, from the start position of its search.
use mathlib.Core.Path.{subst, subst⁻¹}
use memflow.Prelude.{
  ℕ, ◌+◌, ◌≡◌, ap, sym, ◌∙◌, Option, some, List, ◌∷◌, ◌++◌, length, All, All_append, length-append,
  drop, inl, inr,
}
use mathlib.Core.List.{append_assoc}
use memflow.Types.Address.{Address}
use memflow.Iter.Split.{SplitAtIndex, Addressed}
use memflow.Iter.Cells.{IsSplit}
use memflow.MemMap.Map.{MemoryMapping, MemoryMap}
use memflow.MemMap.Iterator.{Search, find_from, start_pos, at_mapping, get_next_of}
use memflow.MemMap.Routes.{IsOrdered, Ended}
use memflow.MemMap.FindLaws.{
  IsSearch, IsAt, IsFound, find_from-cases, IsOrdered-rest, drop_done, start_pos-IsAt,
}
use memflow.MemMap.Pending.{Fits, IsRound}
use memflow.MemMap.GetNextLaws.{at_none-IsRound, at_mapping-IsRound}

module _ {ℓ κ μ} {M T : Type ℓ} {D : Type κ} {C : Type μ} (sm : SplitAtIndex M)
    (st : SplitAtIndex T) (mcells : M → List D) (tcells : T → List C) (mlaws : IsSplit sm mcells)
    (tlaws : IsSplit st tcells) (x : Addressed T) (fits_x : Fits st x) (inputs : List (Addressed T))
    (fits : All (Fits st) inputs) (calls : List (Address × T)) where
  abbrev Found : MemoryMap M → Option (ℕ × MemoryMapping M) → ℕ → Type (ℓ ⊔ κ ⊔ μ)
  Found ms o pos =
      IsRound sm st mcells tcells ms x inputs calls
        (at_mapping ⦃sm = sm⦄ ⦃st = st⦄ o x inputs calls pos)

  find_from-Found :
      (low pos : ℕ) (done rest : MemoryMap M)
      → IsOrdered sm low (done ++ rest)
      → All (Ended sm x.addr) done
      → (f : IsFound sm x.addr (length done) rest)
      → Found (done ++ rest) (find_from ⦃sm = sm⦄ x.addr (length done) rest) pos
  find_from-Found low pos done rest up ended f =
      let whole : done ++ rest ≡ (done ++ f.before) ++ f.mapping ∷ f.after =
        ap (λ l. done ++ l) f.whole ∙ sym (append_assoc done f.before (f.mapping ∷ f.after)) in
      let all = All_append (Ended sm x.addr) done f.before ended f.ended in
      let index : length (done ++ f.before) ≡ length done + length f.before =
        length-append done f.before in
      let round =
        at_mapping-IsRound sm st mcells tcells mlaws tlaws low (done ++ f.before) f.after f.mapping
          (subst (IsOrdered sm low) whole up) x fits_x all f.open_end inputs fits calls pos in
      subst⁻¹ (λ o. Found (done ++ rest) o pos) f.found
        (subst (λ k. Found (done ++ rest) (some (k, f.mapping)) pos) index
          (subst⁻¹ (λ l. Found l (some (length (done ++ f.before), f.mapping)) pos) whole round))

  searched-Found :
      (low pos : ℕ) (done rest : MemoryMap M)
      → IsOrdered sm low (done ++ rest)
      → All (Ended sm x.addr) done
      → Found (done ++ rest) (find_from ⦃sm = sm⦄ x.addr (length done) rest) pos
  searched-Found low pos done rest up ended =
      let (low', up') = IsOrdered-rest sm low done rest up in
      elim (find_from-cases sm x.addr (length done) low' rest up') [
        | inl (gone, over) ↦
            subst⁻¹ (λ o. Found (done ++ rest) o pos) gone
              (at_none-IsRound sm st mcells tcells mlaws tlaws (done ++ rest) x inputs calls pos
                fits_x (All_append (Ended sm x.addr) done rest ended over))
        | inr f ↦ find_from-Found low pos done rest up ended f
      ]

  module _ (search : Search M) (slaws : IsSearch search) (ms : MemoryMap M) (low : ℕ)
      (up : IsOrdered sm low ms) where
    -- A call of `get_next` with the element `x`.
    pub get_next_of-IsRound :
        (pos : ℕ)
        → IsAt sm x.addr ms pos
        → IsRound sm st mcells tcells ms x inputs calls
            (get_next_of ⦃sm = sm⦄ ⦃st = st⦄ search ms (some x) inputs calls pos)
    get_next_of-IsRound pos at =
        let start = start_pos ⦃sm = sm⦄ search ms x.addr pos in
        let q = start_pos-IsAt sm search slaws x.addr low pos ms up at in
        let rest_at : find_from ⦃sm = sm⦄ x.addr (length q.done) q.rest
            ≡ find_from ⦃sm = sm⦄ x.addr start (drop start ms) =
          ap (find_from ⦃sm = sm⦄ x.addr (length q.done)) (sym (drop_done sm q.done q.rest))
          ∙ ap (λ l. find_from ⦃sm = sm⦄ x.addr (length q.done) (drop (length q.done) l))
              (sym q.whole)
          ∙ ap (λ k. find_from ⦃sm = sm⦄ x.addr k (drop k ms)) q.at in
        subst (λ o. Found ms o start) rest_at
          (subst⁻¹ (λ l. Found l (find_from ⦃sm = sm⦄ x.addr (length q.done) q.rest) start) q.whole
            (searched-Found low start q.done q.rest (subst (IsOrdered sm low) q.whole up) q.ended))
