-- ===== src/Iter/Split.antt =====
-- `SplitAtIndex` of memflow/src/iter/page_chunks.rs: the trait, its provided methods and the
-- implementations for sizes, slices and addressed data. A slice is a list. The `_mut` methods give
-- the same parts as the others, so one function stands for both; where their default bodies
-- differ, both are written.
use memflow.Prelude.{
  ℕ, ◌+◌, ◌-◌, Option, some, none, List, [], ◌∷◌, leb, ◌==◌, if◌then◌else◌, length, take, drop, min,
}
use mathlib.Core.Option
use memflow.Types.Address.{Address, umem_max, clamp_to_usize, add}

pub record SplitAtIndex {ℓ} (A : Type ℓ) : Type ℓ where
  pub split_at : A → ℕ → Option A × Option A
  pub size : A → ℕ

module _ {ℓ} {A : Type ℓ} ⦃s : SplitAtIndex A⦄ where
  -- `split_inclusive_at`.
  unfoldable pub split_inclusive_at : A → ℕ → Option A × Option A
  split_inclusive_at x idx = if idx == umem_max then (some x, none) else s.split_at x (idx + 1)

  -- `split_inclusive_at_mut`.
  unfoldable pub split_inclusive_at_mut : A → ℕ → Option A × Option A
  split_inclusive_at_mut x idx =
      if idx == umem_max then ((s.split_at x 0).1, none) else s.split_at x (idx + 1)

  -- `split_at_rev`: `checked_sub` fails when `idx` exceeds the length.
  unfoldable pub split_at_rev : A → ℕ → Option A × Option A
  split_at_rev x idx =
      if leb idx (s.size x) then split_inclusive_at x (s.size x - idx) else (none, some x)

-- `umem` and `usize`.
unfoldable pub split_at_umem : ℕ → ℕ → Option ℕ × Option ℕ
split_at_umem n idx =
    if idx == 0
    then (none, some n)
    else if leb n idx
    then (some n, none)
    else (some idx, some (n - idx))

instance abbrev pub umem_split : SplitAtIndex ℕ
umem_split = record { split_at = split_at_umem; size = λ n. n }

abbrev pub none_if_empty {ℓ} : {A : Type ℓ} → List A → Option (List A)
none_if_empty [] = none
none_if_empty (x ∷ xs) = some (x ∷ xs)

-- `&[T]`, `&mut [T]` and the C slices.
unfoldable pub split_at_slice {ℓ} : {A : Type ℓ} → List A → ℕ → Option (List A) × Option (List A)
unfolding clamp_to_usize
split_at_slice xs idx =
    let mid = min (length xs) (clamp_to_usize idx) in
    (none_if_empty (take mid xs), none_if_empty (drop mid xs))

instance abbrev pub slice_split {ℓ} : {A : Type ℓ} → SplitAtIndex (List A)
slice_split = record { split_at = split_at_slice; size = length }

module _ {ℓ} {A : Type ℓ} ⦃s : SplitAtIndex A⦄ where
  -- The arms of `if let Some(left) = left`.
  unfoldable pub pair_parts :
      Address → Option A → Option A → Option (Address × A) × Option (Address × A)
  pair_parts a (some l) right = (some (a, l), Option.map (λ r. (add a (s.size l), r)) right)
  pair_parts a none right = (none, Option.map (λ r. (a, r)) right)

  -- `(Address, T)` and `CTup2<Address, T>`.
  unfoldable pub split_at_pair : Address × A → ℕ → Option (Address × A) × Option (Address × A)
  split_at_pair (a, x) idx = let (left, right) = s.split_at x idx in pair_parts a left right

instance abbrev pub pair_split {ℓ} : {A : Type ℓ} ⦃s : SplitAtIndex A⦄ → SplitAtIndex (Address × A)
pair_split ⦃s⦄ = record { split_at = split_at_pair; size = λ p. s.size p.1 }

-- `CTup3<Address, Address, T>`, and `TranslateData` of
-- memflow/src/mem/virt_translate/mmu/translate_data.rs: data at an address, with the address that
-- the caller knows it by.
pub record Addressed {ℓ} (A : Type ℓ) : Type ℓ where
  pub addr : Address
  pub meta_addr : Address
  pub buf : A

module _ {ℓ} {A : Type ℓ} ⦃s : SplitAtIndex A⦄ where
  unfoldable pub tuple_parts :
      Addressed A → Option A → Option A → Option (Addressed A) × Option (Addressed A)
  tuple_parts x (some l) right = (
    some (record { addr = x.addr; meta_addr = x.meta_addr; buf = l }),
    Option.map
        (λ r. record {
          addr = add x.addr (s.size l);
          meta_addr = add x.meta_addr (s.size l);
          buf = r;
        })
        right,
  )
  tuple_parts x none right =
      (none, Option.map (λ r. record { addr = x.addr; meta_addr = x.meta_addr; buf = r }) right)

  -- `CTup3::split_at`.
  unfoldable pub split_at_tuple : Addressed A → ℕ → Option (Addressed A) × Option (Addressed A)
  split_at_tuple x idx = let (left, right) = s.split_at x.buf idx in tuple_parts x left right

  -- `TranslateData::split_at` adds the index itself.
  unfoldable pub split_at_data : Addressed A → ℕ → Option (Addressed A) × Option (Addressed A)
  split_at_data x idx =
      let (left, right) = s.split_at x.buf idx in
      (
        Option.map (λ l. record { addr = x.addr; meta_addr = x.meta_addr; buf = l }) left,
        Option.map (λ r. record { addr = add x.addr idx; meta_addr = add x.meta_addr idx; buf = r })
            right,
      )

-- `TranslateData` as a `SplitAtIndex`.
instance abbrev pub data_split {ℓ} : {A : Type ℓ} ⦃s : SplitAtIndex A⦄ → SplitAtIndex (Addressed A)
data_split ⦃s⦄ = record { split_at = split_at_data; size = λ x. s.size x.buf }
