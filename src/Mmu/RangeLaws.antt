-- ===== src/Mmu/RangeLaws.antt =====
-- Splitting the pieces of a virtual range at an address parts their cells by address.
use memflow.Prelude.{
  ℕ, ◌+◌, ◌-◌, ◌%◌, ◌^◌, ◌≤◌, ◌<◌, ◌≡◌, refl, arith, Option, some, none, List, [], ◌∷◌, ◌++◌,
  length, min, ap, ◌∙◌, leb, ◌==◌, ne→==, Bool-cases, inl, inr, All, leb→le,
}
use mathlib.Core.Option
use mathlib.Core.List.{append-nil}
use native.Mathlib.Nat.{mod-eq_of_lt}
use memflow.Types.Address.{Address, umem_max, add}
use memflow.Iter.Split.{
  SplitAtIndex, Addressed, data_split, split_at_data, split_at_rev, split_inclusive_at,
}
use memflow.Iter.Cells.{cells?, size?, IsSplit, number, length-number, data_cells}
use memflow.Iter.SplitLaws.{
  data_split-IsSplit, parts_size, data_right-size, data_right-buf, size?-length,
}
use memflow.Mmu.TranslateData.{split_at_address, split_at_address_rev}

module _ {κ} {B : Type κ} where
  abbrev pub Below : ℕ → Address × B → Type 0
  Below t c = c.0 < t

  abbrev pub From : ℕ → Address × B → Type 0
  From t c = t ≤ c.0

  number_from :
      (a t : ℕ) (xs : List B) → t ≤ a → a + length xs ≤ 2 ^ 64 → All (From t) (number a xs)
  number_from a t [] h le = tt
  number_from a t (x ∷ xs) h le =
      (omega arith, number_from (a + 1) t xs (omega arith) (omega arith))

  -- A list of consecutive addresses, cut where the address `t` is.
  number_cut :
      (a t : ℕ) (xs : List B) (l r : List (Address × B))
      → l ++ r ≡ number a xs
      → length l ≡ min (t - a) (length xs)
      → a + length xs ≤ 2 ^ 64
      → All (Below t) l × All (From t) r
  number_cut a t [] [] r e h le = (tt, rw e tt)
  number_cut a t [] (y ∷ ys) r e h le = absurd (omega arith)
  number_cut a t (x ∷ xs) [] r e h le = (tt, rw e (number_from a t (x ∷ xs) (omega arith) le))
  number_cut a t (x ∷ xs) (y ∷ ys) r e h le =
      let first : y ≡ (a % 2 ^ 64, x) = cc in
      let rest : ys ++ r ≡ number (a + 1) xs = cc in
      let inner = number_cut (a + 1) t xs ys r rest (omega arith) (omega arith) in
      ((rw first (omega arith), inner.0), inner.1)

module _ {ℓ κ} {A : Type ℓ} {C : Type κ} (s : SplitAtIndex A) (cells : A → List C)
    (laws : IsSplit s cells) where
  abbrev dc : Addressed A → List (Address × (Address × C))
  dc = data_cells cells

  cut :
      (x : Addressed A) (t : ℕ) (l r : Option (Addressed A))
      → cells? dc l ++ cells? dc r ≡ dc x
      → size? (data_split ⦃s = s⦄) l ≡ min (t - x.addr) (s.size x.buf)
      → x.addr + s.size x.buf ≤ 2 ^ 64
      → All (Below t) (cells? dc l) × All (From t) (cells? dc r)
  cut x t l r e h le =
      let len : length (number x.meta_addr (cells x.buf)) ≡ s.size x.buf =
        length-number x.meta_addr (cells x.buf) ∙ laws.size_cells x.buf in
      number_cut x.addr t (number x.meta_addr (cells x.buf)) _ _ e
        (omega (arith, len, size?-length data_split dc (data_split-IsSplit s cells laws) l, h))
        (omega (arith, len))

  -- `split_at_address` cuts a piece at the address.
  pub split_at_address-cells :
      (x : Addressed A) (t : ℕ)
      → t ≤ umem_max
      → cells? dc (split_at_address ⦃s = s⦄ x t).0 ++ cells? dc (split_at_address ⦃s = s⦄ x t).1
        ≡ dc x
  unfolding split_at_address
  split_at_address-cells x t h =
      (data_split-IsSplit s cells laws).split_cells x (t - x.addr) (omega arith)

  pub split_at_address-cut :
      (x : Addressed A) (t : ℕ)
      → t ≤ umem_max
      → x.addr + s.size x.buf ≤ 2 ^ 64
      → All (Below t) (cells? dc (split_at_address ⦃s = s⦄ x t).0)
        × All (From t) (cells? dc (split_at_address ⦃s = s⦄ x t).1)
  unfolding split_at_address
  split_at_address-cut x t h le =
      cut x t _ _ (split_at_address-cells x t h)
        ((data_split-IsSplit s cells laws).left_size x (t - x.addr) (omega arith)) le

  pub map_addr :
      (addr meta_addr : Address) (o : Option A) (y : Addressed A)
      → Option.map (λ z. record { addr = addr; meta_addr = meta_addr; buf = z }) o ≡ some y
      → y.addr ≡ addr
  map_addr addr meta_addr none y e = cc
  map_addr addr meta_addr (some z) y e = cc

  -- The right part begins at the address, or where the piece does, and ends where the piece does.
  pub split_at_address-right :
      (x : Addressed A) (t : ℕ) (y : Addressed A)
      → t ≤ umem_max
      → x.addr + s.size x.buf < 2 ^ 64
      → (split_at_address ⦃s = s⦄ x t).1 ≡ some y
      → (y.addr ≡ x.addr + (t - x.addr)) × (y.addr + s.size y.buf ≡ x.addr + s.size x.buf)
  unfolding split_at_address split_at_data
  split_at_address-right x t y h le e =
      let i = t - x.addr in
      let at : y.addr ≡ add x.addr i = map_addr _ _ _ y e in
      let right = data_right-buf s cells laws _ _ _ y e in
      let left = data_right-size s cells laws x i y.buf (omega arith) right in
      let all = parts_size s cells laws x.buf i (omega arith) in
      let sum : i + s.size y.buf ≡ s.size x.buf = omega (arith, left, all, ap (size? s) right) in
      (omega arith, omega arith)

  pub split_at_data-left :
      (x : Addressed A) (i : ℕ) (y : Addressed A)
      → (split_at_data ⦃s = s⦄ x i).0 ≡ some y
      → y.addr ≡ x.addr
  unfolding split_at_data
  split_at_data-left x i y e = map_addr _ _ _ y e

  -- Where `split_at_address_rev` cuts: one unit past the address.
  abbrev pub IsRevCut : Addressed A → ℕ → Type κ
  IsRevCut x t =
      let (l, r) = split_at_address_rev ⦃s = s⦄ x t in
      (cells? dc l ++ cells? dc r ≡ dc x)
      × (All (Below (t + 1)) (cells? dc l) × All (From (t + 1)) (cells? dc r))

  pub split_at_address_rev-cut :
      (x : Addressed A) (t : ℕ)
      → 0 < x.addr
      → x.addr + s.size x.buf < 2 ^ 64
      → t < umem_max
      → IsRevCut x t
  unfolding split_at_address_rev split_at_rev split_inclusive_at
  split_at_address_rev-cut x t pos le lt =
      let whole : add x.addr (s.size x.buf) ≡ x.addr + s.size x.buf = mod-eq_of_lt le in
      let idx = x.addr + s.size x.buf - t in
      elim (Bool-cases (leb idx (s.size x.buf))) [
        | inl e ↦
            let inside = leb→le idx (s.size x.buf) e in
            let at = s.size x.buf - idx + 1 in
            let all = (data_split-IsSplit s cells laws).split_cells x at (omega arith) in
            let left = (data_split-IsSplit s cells laws).left_size x at (omega arith) in
            rw (whole, e, ne→== (s.size x.buf - idx) umem_max (omega arith))
              (all, cut x (t + 1) _ _ all (left ∙ omega arith) (omega arith))
        | inr e ↦
            let outside : s.size x.buf < idx = ground arith in
            rw (whole, e) (refl, cut x (t + 1) none (some x) refl (omega arith) (omega arith))
      ]

  -- A piece that does not wrap lies below its end.
  pub data_cells-below :
      (x : Addressed A) (t : ℕ)
      → x.addr + s.size x.buf ≤ t
      → x.addr + s.size x.buf ≤ 2 ^ 64
      → All (Below t) (dc x)
  data_cells-below x t h le = (cut x t (some x) none (append-nil _) (omega arith) le).0

  -- The right part of either split has an address below 2 ^ 64.
  pub split_at_address_rev-right :
      (x : Addressed A) (t : ℕ) (y : Addressed A)
      → x.addr < 2 ^ 64
      → (split_at_address_rev ⦃s = s⦄ x t).1 ≡ some y
      → y.addr < 2 ^ 64
  unfolding split_at_address_rev split_at_rev split_inclusive_at split_at_data
  split_at_address_rev-right x t y lt e =
      let idx = add x.addr (s.size x.buf) - t in
      elim (Bool-cases (leb idx (s.size x.buf))) [
        | inl f ↦ elim (Bool-cases (s.size x.buf - idx == umem_max)) [
          | inl g ↦ let no = rw (f, g) at e in cc
          | inr g ↦ let at = map_addr _ _ _ y (rw (f, g) at e) in omega arith
        ]
        | inr f ↦ let same = rw f at e in let at : x.addr ≡ y.addr = cc in omega arith
      ]
