-- ===== src/Mmu/FilterCanonical.antt =====
-- `virt_addr_filter` accepts exactly the canonical addresses of a range.
use memflow.Prelude.{◌+◌, ◌<◌, ◌≡◌, Option, some, List, [], filter}
use memflow.Types.Address.{Address}
use memflow.Iter.Split.{SplitAtIndex, Addressed}
use memflow.Iter.Cells.{cells?, IsSplit, data_cells}
use memflow.Mmu.Spec.{ArchMmuSpec}
use memflow.Mmu.Filter.{virt_bit_range}
use memflow.Mmu.FilterLaws.{IsSized}
use memflow.Mmu.FilterParts.{canonical, uncanonical}

module _ {ℓ κ} {A : Type ℓ} {C : Type κ} (s : SplitAtIndex A) (cells : A → List C)
    (laws : IsSplit s cells) {spec : ArchMmuSpec} (sized : IsSized spec)
    (below_64 : virt_bit_range spec < 64) where
  abbrev dc : Addressed A → List (Address × (Address × C))
  dc = data_cells cells

  abbrev good : List (Address × (Address × C)) → List (Address × (Address × C))
  good = filter (canonical spec)

  abbrev bad : List (Address × (Address × C)) → List (Address × (Address × C))
  bad = filter (uncanonical spec)

  -- The trim keeps a range that ends within the addresses, whole.
  IsTrimmed : Addressed A → Option (Addressed A) × Option (Addressed A) → Type (ℓ ⊔ κ)
  IsTrimmed x (left, over) =
      (y : Addressed A) × (left ≡ some y)
      × (dc y ≡ dc x)
      × (y.addr + s.size y.buf ≡ x.addr + s.size x.buf)
      × (cells? dc over ≡ [])
