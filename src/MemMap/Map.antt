-- ===== src/MemMap/Map.antt =====
-- `MemoryMap` of memflow/src/mem/mem_map.rs: the list of mappings, and the operations that build
-- it. `none` is the panic on overlapping regions. A `RefCell` holds its value.
use memflow.Prelude.{
  ℕ, zero, suc, ◌+◌, ◌-◌, Option, some, none, List, [], ◌∷◌, Bool, true, false, ◌&&◌, ◌||◌, ltb,
  leb, length, map, max, if◌then◌else◌,
}
use mathlib.Core.Option
use memflow.Types.Address.{Address, umem_max, add, sub}
use memflow.Iter.Split.{SplitAtIndex, umem_split, pair_split}

pub record MemoryMapping {ℓ} (M : Type ℓ) : Type ℓ where
  pub base : Address
  pub output : M

abbrev pub MemoryMap {ℓ} : Type ℓ → Type ℓ
MemoryMap M = List (MemoryMapping M)

abbrev pub is_empty {ℓ} : {M : Type ℓ} → MemoryMap M → Bool
is_empty [] = true
is_empty (m ∷ ms) = false

-- `Vec::insert`.
abbrev pub insert {ℓ} : {A : Type ℓ} → List A → ℕ → A → List A
insert xs zero v = v ∷ xs
insert [] (suc i) v = v ∷ []
insert (x ∷ xs) (suc i) v = x ∷ insert xs i v

-- How far the loop of `push` has come.
pub data Scan : Type 0 where
  overlap : Scan
  shift_idx : ℕ → Scan
  no_break : Scan

module _ {ℓ} {M : Type ℓ} ⦃s : SplitAtIndex M⦄ where
  abbrev pub end_of : MemoryMapping M → Address
  end_of m = add m.base (s.size m.output)

  -- The condition of the panic.
  abbrev pub touches : Address → Address → MemoryMapping M → Bool
  touches start end m =
      leb m.base start && ltb start (end_of m) || leb m.base end && ltb end (end_of m)

  -- The body of the loop, after the mappings at higher indices.
  unfoldable pub visit : Address → Address → ℕ → MemoryMapping M → Scan → Scan
  visit start end i m overlap = overlap
  visit start end i m (shift_idx k) = shift_idx k
  visit start end i m no_break =
      if touches start end m
      then overlap
      else if leb (end_of m) start
      then shift_idx (i + 1)
      else no_break

  -- The loop over the mappings from index `i` on, in reverse.
  unfoldable pub scan : Address → Address → ℕ → MemoryMap M → Scan
  scan start end i [] = no_break
  scan start end i (m ∷ ms) = visit start end i m (scan start end (i + 1) ms)

  unfoldable pub place : MemoryMap M → MemoryMapping M → Scan → Option (MemoryMap M)
  place ms mapping overlap = none
  place ms mapping (shift_idx k) = some (insert ms k mapping)
  place ms mapping no_break = some (insert ms (length ms) mapping)

  unfoldable pub push : MemoryMap M → Address → M → Option (MemoryMap M)
  push ms base output =
      place ms (record { base = base; output = output }) (scan base (add base (s.size output)) 0 ms)

abbrev pub Remap : Type 0
Remap = MemoryMap (Address × ℕ)

-- `PhysicalMemoryMapping`.
pub record PhysicalMemoryMapping : Type 0 where
  pub base : Address
  pub size : ℕ
  pub real_base : Address

-- `Option::unwrap_or`.
abbrev pub unwrap_or {ℓ} : {A : Type ℓ} → Option A → A → A
unwrap_or none d = d
unwrap_or (some a) d = a

-- `Iterator::max` of the ends.
abbrev pub max_end : Remap → Option Address
max_end [] = none
max_end (m ∷ ms) = some (max (add m.base m.output.1) (unwrap_or (max_end ms) 0))

unfoldable pub max_address : Remap → Address
max_address ms = sub (unwrap_or (max_end ms) umem_max) 1

unfoldable pub real_size_from : ℕ → Remap → ℕ
real_size_from acc [] = acc
real_size_from acc (m ∷ ms) = real_size_from (add acc m.output.1) ms

abbrev pub real_size : Remap → ℕ
real_size ms = real_size_from 0 ms

unfoldable pub push_remap : Remap → Address → ℕ → Address → Option Remap
push_remap ms base size real_base = push ms base (real_base, size)

unfoldable pub push_range : Remap → Address → Address → Address → Option Remap
push_range ms base end real_base =
    if ltb base end then push_remap ms base (end - base) real_base else some ms

unfoldable pub into_vec : Remap → List PhysicalMemoryMapping
into_vec ms = map (λ m. record { base = m.base; size = m.output.1; real_base = m.output.0 }) ms

-- The loop of `from_vec`.
unfoldable pub from_vec_onto : Option Remap → List PhysicalMemoryMapping → Option Remap
from_vec_onto ms [] = ms
from_vec_onto ms (p ∷ ps) =
    from_vec_onto (Option.bind ms (λ m. push_range m p.base (add p.base p.size) p.real_base)) ps

abbrev pub from_vec : List PhysicalMemoryMapping → Option Remap
from_vec ps = from_vec_onto (some []) ps
