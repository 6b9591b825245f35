-- ===== src/Iter/Cells.antt =====
-- What splitting promises: a value stands for a list of cells (the bytes of a slice, the units of a
-- size, each with its address where it is addressed), and a split cuts that list in two.
use memflow.Prelude.{
  ℕ, suc, ◌+◌, ◌%◌, ◌^◌, ◌≤◌, ◌<◌, ◌≡◌, refl, arith, Option, some, none, List, [], ◌∷◌, ◌++◌,
  length, min, ap, replicate,
}
use native.Mathlib.Nat.{add-zero}
use memflow.Iter.Split.{SplitAtIndex, Addressed}
use memflow.Types.Address.{Address, umem_max}

abbrev pub cells? {ℓ κ} : {A : Type ℓ} {C : Type κ} → (A → List C) → Option A → List C
cells? cells none = []
cells? cells (some x) = cells x

abbrev pub size? {ℓ} : {A : Type ℓ} → SplitAtIndex A → Option A → ℕ
size? s none = 0
size? s (some x) = s.size x

-- The interface that the implementations of the trait fill.
pub record IsSplit {ℓ κ} {A : Type ℓ} {C : Type κ} (s : SplitAtIndex A) (cells : A → List C)
    : Type (ℓ ⊔ κ) where
  pub size_cells : (x : A) → length (cells x) ≡ s.size x
  pub split_cells :
      (x : A) (i : ℕ)
      → i ≤ umem_max
      → cells? cells (s.split_at x i).0 ++ cells? cells (s.split_at x i).1 ≡ cells x
  pub left_size : (x : A) (i : ℕ) → i ≤ umem_max → size? s (s.split_at x i).0 ≡ min i (s.size x)
  pub right_pos :
      (x : A) (i : ℕ) (r : A) → 0 < i → i ≤ umem_max → (s.split_at x i).1 ≡ some r → 0 < s.size r

abbrev pub units : ℕ → List (Unit {0})
units n = replicate n tt

-- Cells with their addresses, which wrap at 2 ^ 64.
abbrev pub number {κ} : {C : Type κ} → ℕ → List C → List (Address × C)
number a [] = []
number a (c ∷ cs) = (a % 2 ^ 64, c) ∷ number (a + 1) cs

module _ {κ} {C : Type κ} where
  number_congr : (a b : ℕ) → a % 2 ^ 64 ≡ b % 2 ^ 64 → (cs : List C) → number a cs ≡ number b cs
  number_congr a b h [] = refl
  number_congr a b h (c ∷ cs) = rw (h, number_congr (a + 1) (b + 1) (omega arith) cs)

  pub number_mod : (a : ℕ) (cs : List C) → number (a % 2 ^ 64) cs ≡ number a cs
  number_mod a cs = number_congr (a % 2 ^ 64) a (omega arith) cs

  pub number-append :
      (a : ℕ) (xs ys : List C) → number a (xs ++ ys) ≡ number a xs ++ number (a + length xs) ys
  number-append a [] ys = rw add-zero
  number-append a (x ∷ xs) ys = rw (number-append (a + 1) xs ys, shift)
    where
      shift : a + 1 + length xs ≡ a + suc (length xs)
      shift = omega arith

  pub length-number : (a : ℕ) (xs : List C) → length (number a xs) ≡ length xs
  length-number a [] = refl
  length-number a (x ∷ xs) = ap suc (length-number (a + 1) xs)

abbrev pub pair_cells {ℓ κ} :
    {A : Type ℓ} {C : Type κ} → (A → List C) → Address × A → List (Address × C)
pair_cells cells (a, x) = number a (cells x)

-- A cell of `Addressed` data has its address and the address that the caller knows it by.
abbrev pub data_cells {ℓ κ} :
    {A : Type ℓ} {C : Type κ} → (A → List C) → Addressed A → List (Address × (Address × C))
data_cells cells x = number x.addr (number x.meta_addr (cells x.buf))
