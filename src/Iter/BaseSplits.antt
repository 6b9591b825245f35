-- ===== src/Iter/BaseSplits.antt =====
-- Sizes and slices split as the interface asks.
use memflow.Prelude.{
  ℕ, zero, suc, ◌+◌, ◌-◌, ◌≤◌, ◌<◌, ◌≡◌, refl, arith, some, List, [], ◌∷◌, ◌++◌, length, take, drop,
  min, ◌==◌, leb, Bool-cases, inl, inr, take-append-drop, length-take, replicate, length-replicate,
}
use mathlib.Core.List.{append-nil}
use native.Mathlib.Nat.{zero-add, suc-add}
use memflow.Types.Address.{umem_max, clamp_to_usize}
use memflow.Iter.Split.{
  data_split, split_at_umem, umem_split, split_at_slice, slice_split, none_if_empty, pair_split,
}
use memflow.Iter.Cells.{cells?, size?, IsSplit, units}

replicate-add {ℓ} :
    {A : Type ℓ} (n m : ℕ) (a : A) → replicate n a ++ replicate m a ≡ replicate (n + m) a
replicate-add zero m a = rw zero-add
replicate-add (suc n) m a = rw (suc-add, replicate-add n m a)

units_split :
    (n i : ℕ) → cells? units (split_at_umem n i).0 ++ cells? units (split_at_umem n i).1 ≡ units n
unfolding split_at_umem
units_split n i = elim (Bool-cases (i == 0)) [
  | inl e ↦ rw e
  | inr e ↦ elim (Bool-cases (leb n i)) [
    | inl f ↦ rw (e, f) (append-nil _)
    | inr f ↦ let back : i + (n - i) ≡ n = ground arith in rw (e, f, replicate-add, back)
  ]
]

-- A size splits into the units up to the index and those after it.
pub umem_split-IsSplit : IsSplit umem_split units
unfolding split_at_umem
umem_split-IsSplit = record {
  size_cells = λ n. length-replicate n tt;
  split_cells = λ n i h. units_split n i;
  left_size = λ n i h. ground arith;
  right_pos = λ n i r p h e. ground arith;
}

cells_none_if_empty {ℓ} : {A : Type ℓ} (xs : List A) → cells? (λ ys. ys) (none_if_empty xs) ≡ xs
cells_none_if_empty [] = refl
cells_none_if_empty (x ∷ xs) = refl

size_none_if_empty {ℓ} :
    {A : Type ℓ} (xs : List A) → size? slice_split (none_if_empty xs) ≡ length xs
size_none_if_empty [] = refl
size_none_if_empty (x ∷ xs) = refl

pos_of_none_if_empty {ℓ} :
    {A : Type ℓ} (xs ys : List A) → none_if_empty xs ≡ some ys → 0 < length ys
pos_of_none_if_empty [] ys e = cc
pos_of_none_if_empty (x ∷ xs) ys e = ground arith

clamp_self : (i : ℕ) → i ≤ umem_max → clamp_to_usize i ≡ i
unfolding clamp_to_usize
clamp_self i h = ground arith

take-min {ℓ} :
    {A : Type ℓ} (n : ℕ) (xs : List A)
    → take (min (length xs) n) xs ++ drop (min (length xs) n) xs ≡ xs
take-min n xs = take-append-drop (min (length xs) n) xs

-- A slice splits into its elements up to the index and those after it.
pub slice_split-IsSplit {ℓ} : {A : Type ℓ} → IsSplit slice_split (λ (xs : List A). xs)
unfolding split_at_slice
slice_split-IsSplit {A} = record {
  size_cells = λ xs. refl;
  split_cells = λ xs i h. rw (cells_none_if_empty, cells_none_if_empty) (take-min _ xs);
  left_size = λ xs i h. rw (size_none_if_empty, length-take, clamp_self i h) (omega arith);
  right_pos = λ xs i r p h e. pos_of_none_if_empty _ r e;
}
