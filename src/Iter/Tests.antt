-- ===== src/Iter/Tests.antt =====
-- Concrete buffers, sizes and slices, in chunks.
use memflow.Prelude.{
  ℕ, ◌+◌, ◌-◌, ◌*◌, ◌%◌, ◌≤◌, ◌<◌, ◌≡◌, refl, arith, Option, some, List, [], ◌∷◌, Bool, leb, ◌==◌,
  All,
}
use memflow.Types.Address.{Address, wrapping_add, wrapping_sub, as_mem_aligned}
use memflow.Iter.Split.{
  umem_split, slice_split, pair_split, data_split, split_at_rev, split_at_umem,
}
use memflow.Iter.Cells.{size?, IsSplit, units, number, pair_cells, data_cells}
use memflow.Iter.BaseSplits.{umem_split-IsSplit, slice_split-IsSplit}
use memflow.Iter.SplitLaws.{pair_split-IsSplit, data_split-IsSplit, split_at_rev-size}
use memflow.Iter.Chunks.{page_rest, new, next_loop, collect, always}
use memflow.Iter.CoverLaws.{all_cells}
use memflow.Iter.PagesLaws.{page_chunks_by_cover, page_chunks_cover, next_loop_twice}

abbrev bytes : List ℕ
bytes = 1 ∷ 2 ∷ 3 ∷ 4 ∷ 5 ∷ []

abbrev id_cells : List ℕ → List ℕ
id_cells xs = xs

pair_split-IsSplit_example : IsSplit (pair_split ⦃s = slice_split⦄) (pair_cells id_cells)
pair_split-IsSplit_example = pair_split-IsSplit slice_split id_cells slice_split-IsSplit

data_split-IsSplit_example : IsSplit (data_split ⦃s = umem_split⦄) (data_cells units)
data_split-IsSplit_example = data_split-IsSplit umem_split units umem_split-IsSplit

split_at_rev-size_example :
    (size? umem_split (split_at_rev ⦃s = umem_split⦄ 10 3).0 ≡ 10 - 3 + 1)
    × (size? umem_split (split_at_rev ⦃s = umem_split⦄ 10 3).1 ≡ 3 - 1)
split_at_rev-size_example =
    split_at_rev-size umem_split units umem_split-IsSplit 10 3 (omega arith) (omega arith)
      (omega arith)

-- Every second page end is not split.
abbrev odd_pages : Address → List ℕ → Option (List ℕ) → Bool
odd_pages a head rest = a % 8 == 0

page_chunks_by_cover_example :
    (chunks : List (Address × List ℕ)) × (collect ⦃s = slice_split⦄ odd_pages 6 5
        (new ⦃s = slice_split⦄ bytes 6 4)
      ≡ some chunks)
    × (all_cells id_cells chunks ≡ number 6 bytes)
page_chunks_by_cover_example =
    page_chunks_by_cover slice_split id_cells slice_split-IsSplit odd_pages bytes 6 4 (omega arith)
      (omega arith) (omega arith)

page_chunks_cover_example :
    (chunks : List (Address × List ℕ)) × (collect ⦃s = slice_split⦄ always 6 5
        (new ⦃s = slice_split⦄ bytes 6 4)
      ≡ some chunks)
    × (all_cells id_cells chunks ≡ number 6 bytes)
    × All (λ p. (0 < slice_split.size p.1) × (p.0 % 4 + slice_split.size p.1 ≤ 4)) chunks
page_chunks_cover_example =
    page_chunks_cover slice_split id_cells slice_split-IsSplit bytes 6 4 (omega arith) (omega arith)
      refl (omega arith)

-- From address 6 with pages of 4, 2 units are left of the first page; the predicate refuses there.
abbrev from_three : Address → ℕ → Option ℕ → Bool
from_three a head rest = leb 3 head

next_loop_twice_example :
    next_loop ⦃s = umem_split⦄ from_three 2 12
      (record { v = some 12; cur_address = 6; page_size = 4; cur_off = 0 })
    ≡ some (
      (6, 4),
      record {
        v = some 8;
        cur_address = wrapping_add 6 (2 * (page_rest 6 4 + 1));
        page_size = 4;
        cur_off = 0;
      },
    )
unfolding split_at_umem page_rest wrapping_add wrapping_sub as_mem_aligned
next_loop_twice_example =
    next_loop_twice umem_split units umem_split-IsSplit from_three 0 12 6 4 2 4 10 8 (omega arith)
      (omega arith) (omega arith) refl refl refl refl
