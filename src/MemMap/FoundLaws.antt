-- ===== src/MemMap/FoundLaws.antt =====
-- What a map says of the cells around the mapping that `MemoryMapIterator` finds.
use memflow.Prelude.{
  ℕ, ◌+◌, ◌-◌, ◌^◌, ◌≤◌, ◌<◌, ◌≡◌, refl, arith, ap, sym, ◌∙◌, Option, none, List, [], ◌∷◌, ◌++◌,
  length, get_elem?, All, le→leb, lt→ltb,
}
use native.Mathlib.Nat.{mod-eq_of_lt}
use memflow.Types.Address.{Address}
use memflow.Iter.Split.{SplitAtIndex}
use memflow.Iter.Cells.{IsSplit, number, length-number}
use memflow.MemMap.Map.{MemoryMapping, MemoryMap}
use memflow.MemMap.Routes.{
  zip_cells, mapped_by, missed_by, numbered_missed, numbered_mapped, translate, translate-below,
  translate-Ended, IsOrdered, Ended,
}
use memflow.MemMap.FindLaws.{IsOrdered-parts}
use memflow.MemMap.PartLaws.{IsPart}

-- A mapping of the map that is the first to end after an address.
module _ {ℓ κ μ} {M T : Type ℓ} {D : Type κ} {C : Type μ} (sm : SplitAtIndex M)
    (st : SplitAtIndex T) (mcells : M → List D) (tcells : T → List C) (mlaws : IsSplit sm mcells)
    (tlaws : IsSplit st tcells) (low : ℕ) (done after : MemoryMap M) (m : MemoryMapping M)
    (up : IsOrdered sm low (done ++ m ∷ after)) (a : Address) (ended : All (Ended sm a) done)
    (open_end : a < m.base + sm.size m.output) where
  abbrev route : Address → Option D
  route = translate sm mcells (done ++ m ∷ after)

  pub before_route : (b : Address) → a ≤ b → b < m.base → route b ≡ none
  unfolding IsOrdered
  before_route b le lt =
      let (pos, fits, above) = IsOrdered-parts sm low done m after up in
      translate-Ended sm mcells done (m ∷ after) a b le ended
      ∙ translate-below sm mcells m.base (m ∷ after) b (omega arith, pos, fits, above) lt

  in_route :
      (b : Address)
      → a ≤ b
      → m.base ≤ b
      → b < m.base + sm.size m.output
      → route b ≡ get_elem? (mcells m.output) (b - m.base)
  in_route b le ge lt =
      translate-Ended sm mcells done (m ∷ after) a b le ended
      ∙ rw (le→leb m.base b ge, lt→ltb b (m.base + sm.size m.output) lt) refl

  -- The cells before the mapping have no output.
  pub left_route :
      (cs : List C) (b meta_addr : Address)
      → a ≤ b
      → length cs ≤ m.base - b
      → (mapped_by route (number b (number meta_addr cs)) ≡ [])
        × (missed_by route (number b (number meta_addr cs)) ≡ number meta_addr cs)
  left_route cs b meta_addr le lt =
      let (pos, fits, above) = IsOrdered-parts sm low done m after up in
      let len = length-number meta_addr cs in
      numbered_missed route b (number meta_addr cs) (λ j h.
        ap route (mod-eq_of_lt {n = b + j} {m = 2 ^ 64} (omega (arith, len)))
        ∙ before_route (b + j) (omega arith) (omega (arith, len)))

  -- The cells in the mapping have those of a part of its output.
  pub part_route :
      (cs : List C) (b meta_addr : Address)
      → a ≤ b
      → m.base ≤ b
      → b + length cs ≤ m.base + sm.size m.output
      → (p : IsPart sm mcells mlaws m.output (b - m.base) (length cs))
      → (mapped_by route (number b (number meta_addr cs))
          ≡ zip_cells (mcells p.part) (number meta_addr cs))
        × (missed_by route (number b (number meta_addr cs)) ≡ [])
  part_route cs b meta_addr le ge lt p =
      let (pos, fits, above) = IsOrdered-parts sm low done m after up in
      let len = length-number meta_addr cs in
      numbered_mapped route b (number meta_addr cs) (mcells p.part) (len ∙ sym p.length_part)
        (λ j h.
          ap route (mod-eq_of_lt {n = b + j} {m = 2 ^ 64} (omega (arith, len)))
          ∙ in_route (b + j) (omega arith) (omega arith) (omega (arith, len))
          ∙ ap (get_elem? (mcells m.output)) (omega arith)
          ∙ p.elems j (omega (arith, len)))
