-- ===== src/MemMap/Tests.antt =====
-- Maps of a few pages.
use Prim.Native.Nat.{Ordering}
use memflow.Prelude.{
  ℕ, suc, ◌≡◌, refl, ap, arith, some, none, List, [], ◌∷◌, ◌++◌, length, inl, inr, All,
}
use memflow.Types.Address.{Address}
use memflow.Iter.Split.{umem_split, pair_split, Addressed}
use memflow.Iter.Cells.{units, pair_cells}
use memflow.Iter.SplitLaws.{pair_split-IsSplit}
use memflow.Iter.BaseSplits.{umem_split-IsSplit}
use memflow.MemMap.Iterator.{Search, Mapped, collect, new}
use memflow.MemMap.Routes.{IsOrdered, translate, mapped_by, missed_by}
use memflow.MemMap.FindLaws.{IsRest}
use memflow.MemMap.Pending.{items_cells, inputs_cells, fails_cells}
use memflow.MemMap.CollectLaws.{collect_lem}
use memflow.MemMap.Map.{MemoryMapping, MemoryMap, Remap, push, into_vec, from_vec}
use memflow.MemMap.PushLaws.{push_between, push_below, push_swallow, push_overlap}
use memflow.MemMap.VecLaws.{IsAscending, from_vec-into_vec}

abbrev page : Address → MemoryMapping ℕ
page a = record { base = a; output = 0x1000 }

push_between_example :
    push ⦃s = umem_split⦄ (page 0x1000 ∷ page 0x5000 ∷ []) 0x2000 0x1000
    ≡ some (page 0x1000 ∷ page 0x2000 ∷ page 0x5000 ∷ [])
push_between_example =
    push_between umem_split 0x2000 0x1000 (omega arith) (page 0x1000) [] (page 0x5000 ∷ [])
      (omega arith, tt) ((omega arith, omega arith), tt)

push_below_example :
    push ⦃s = umem_split⦄ (page 0x5000 ∷ []) 0x1000 0x1000 ≡ some (page 0x5000 ∷ page 0x1000 ∷ [])
push_below_example =
    push_below umem_split 0x1000 0x1000 (omega arith) (page 0x5000 ∷ [])
      ((omega arith, omega arith), tt)

push_swallow_example :
    push ⦃s = umem_split⦄ (page 0x1000 ∷ page 0x3000 ∷ []) 0x2000 0x4000
    ≡ some (page 0x1000 ∷ record { base = 0x2000; output = 0x4000 } ∷ page 0x3000 ∷ [])
push_swallow_example =
    push_swallow umem_split 0x2000 0x4000 (omega arith) (page 0x1000) [] (page 0x3000 ∷ [])
      (omega arith, tt) ((omega arith, omega arith), tt)

push_overlap_example : push ⦃s = umem_split⦄ (page 0x1000 ∷ page 0x5000 ∷ []) 0x1800 0x1000 ≡ none
push_overlap_example =
    push_overlap umem_split 0x1800 0x1000 (omega arith) [] (page 0x5000 ∷ []) (page 0x1000)
      (omega arith) (inl (omega arith, omega arith)) ((omega arith, omega arith), tt)

abbrev remap : Remap
remap =
    record { base = 0x1000; output = (0x8000, 0x1000) }
    ∷ record { base = 0x2000; output = (0, 0x3000) }
    ∷ []

remap-IsAscending : IsAscending 0 remap
unfolding IsAscending
remap-IsAscending =
    (omega arith, omega arith, omega arith, (omega arith, omega arith, omega arith, tt))

from_vec-into_vec_example : from_vec (into_vec remap) ≡ some remap
from_vec-into_vec_example = from_vec-into_vec remap remap-IsAscending

-- Two of the pages, and data across the first, the gap and the second, then data in the first.
abbrev pages : Remap
pages =
    record { base = 0x1000; output = (0x8000, 0x2) }
    ∷ record { base = 0x1003; output = (0, 0x2) }
    ∷ []

abbrev across : List (Addressed ℕ)
across =
    record { addr = 0xfff; meta_addr = 7; buf = 5 }
    ∷ record { addr = 0x1001; meta_addr = 70; buf = 1 }
    ∷ []

-- A search that counts.
abbrev count_less {ℓ} : {M : Type ℓ} → Search M
count_less f [] = 0
count_less f (m ∷ ms) = let rest = count_less f ms in elim (f m) [ Ordering.lt ↦ suc rest | _ ↦ 0 ]

count_less-index {ℓ} :
    {M : Type ℓ} (f : MemoryMapping M → Ordering) (less more : MemoryMap M)
    → All (λ m. f m ≡ Ordering.lt) less
    → IsRest f more
    → count_less f (less ++ more) ≡ length less
count_less-index f [] [] h r = refl
count_less-index f [] (m ∷ ms) h (inl e, r) = rw e refl
count_less-index f [] (m ∷ ms) h (inr e, r) = rw e refl
count_less-index f (l ∷ ls) more (h, hs) r = rw h (ap suc (count_less-index f ls more hs r))

pages-IsOrdered : IsOrdered pair_split 0 pages
unfolding IsOrdered
pages-IsOrdered =
    (omega arith, omega arith, omega arith, (omega arith, omega arith, omega arith, tt))

collect_lem_example :
    (r : List (Mapped (Address × ℕ) ℕ) × List (Address × ℕ)) × (collect ⦃sm = pair_split⦄
        ⦃st = umem_split⦄ count_less pages 7
        (new across)
      ≡ some r)
    × (items_cells (pair_cells units) units r.0
        ≡ mapped_by (translate pair_split (pair_cells units) pages) (inputs_cells units across))
    × (fails_cells units r.1
        ≡ missed_by (translate pair_split (pair_cells units) pages) (inputs_cells units across))
collect_lem_example =
    collect_lem pair_split umem_split (pair_cells units) units
      (pair_split-IsSplit umem_split units umem_split-IsSplit) umem_split-IsSplit count_less
      (record { index = count_less-index }) pages 0 pages-IsOrdered across 7
      ((omega arith, omega arith), ((omega arith, omega arith), tt)) (omega arith)
