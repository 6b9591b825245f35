-- ===== src/Iter/SplitLaws.antt =====
-- The implementations of `SplitAtIndex` over another one cut the cells of a value in two.
use memflow.Prelude.{
  ℕ, zero, suc, ◌+◌, ◌-◌, ◌≤◌, ◌<◌, ◌≡◌, refl, arith, Option, some, none, List, ◌++◌, length, ap,
  ◌∙◌, sym, le→leb, ne→==, length-append,
}
use mathlib.Core.Option
use mathlib.Core.List.{append-nil}
use native.Mathlib.Nat.{add-zero}
use memflow.Types.Address.{Address, umem_max, add}
use memflow.Iter.Split.{
  SplitAtIndex, Addressed, split_at_data, data_split, umem_split, slice_split, split_at_pair,
  pair_parts, pair_split, split_inclusive_at, split_at_rev,
}
use memflow.Iter.Cells.{
  cells?, size?, IsSplit, number, number_mod, number-append, length-number, pair_cells, data_cells,
}

module _ {ℓ κ} {A : Type ℓ} {C : Type κ} (s : SplitAtIndex A) (cells : A → List C)
    (laws : IsSplit s cells) where
  -- The right part of a pair begins where the left part ends.
  pair_parts-cells :
      (a : Address) (l r : Option A)
      → cells? (pair_cells cells) (pair_parts ⦃s = s⦄ a l r).0
          ++ cells? (pair_cells cells) (pair_parts ⦃s = s⦄ a l r).1
        ≡ number a (cells? cells l ++ cells? cells r)
  unfolding pair_parts
  pair_parts-cells a (some l) (some r) = rw (number_mod, number-append, laws.size_cells)
  pair_parts-cells a (some l) none = rw (append-nil, append-nil)
  pair_parts-cells a none (some r) = refl
  pair_parts-cells a none none = refl

  pair_parts-size :
      (a : Address) (l r : Option A)
      → size? (pair_split ⦃s = s⦄) (pair_parts ⦃s = s⦄ a l r).0 ≡ size? s l
  unfolding pair_parts
  pair_parts-size a (some l) r = refl
  pair_parts-size a none r = refl

  pair_parts-right :
      (a : Address) (l r : Option A) (p : Address × A)
      → (pair_parts ⦃s = s⦄ a l r).1 ≡ some p
      → r ≡ some p.1
  unfolding pair_parts
  pair_parts-right a (some l) (some r) p e = ap (Option.map (λ q. q.1)) e
  pair_parts-right a (some l) none p e = cc
  pair_parts-right a none (some r) p e = ap (Option.map (λ q. q.1)) e
  pair_parts-right a none none p e = cc

  -- If a buffer splits into its cells, so does the buffer at an address, and each cell keeps its address.
  pub pair_split-IsSplit : IsSplit (pair_split ⦃s = s⦄) (pair_cells cells)
  unfolding split_at_pair
  pair_split-IsSplit = record {
    size_cells = λ p. length-number p.0 (cells p.1) ∙ laws.size_cells p.1;
    split_cells = λ p i h. pair_parts-cells p.0 _ _ ∙ ap (number p.0) (laws.split_cells p.1 i h);
    left_size = λ p i h. pair_parts-size p.0 _ _ ∙ laws.left_size p.1 i h;
    right_pos = λ p i q pos h e. laws.right_pos p.1 i q.1 pos h (pair_parts-right p.0 _ _ q e);
  }

  pub size?-length : (o : Option A) → length (cells? cells o) ≡ size? s o
  size?-length none = refl
  size?-length (some x) = laws.size_cells x

  -- The lengths of the two parts add up.
  pub parts_size :
      (x : A) (i : ℕ)
      → i ≤ umem_max
      → size? s (s.split_at x i).0 + size? s (s.split_at x i).1 ≡ s.size x
  parts_size x i h =
      let all = ap length (laws.split_cells x i h) in
      omega (
        arith,
        all,
        length-append (cells? cells (s.split_at x i).0) (cells? cells (s.split_at x i).1),
        size?-length (s.split_at x i).0,
        size?-length (s.split_at x i).1,
        laws.size_cells x,
      )

  pub data_right-size :
      (x : Addressed A) (i : ℕ) (r : A)
      → i ≤ umem_max
      → (s.split_at x.buf i).1 ≡ some r
      → size? s (s.split_at x.buf i).0 ≡ i
  data_right-size x zero r h e = rw (laws.left_size x.buf zero h) (omega arith)
  data_right-size x (suc i) r h e =
      let pos = laws.right_pos x.buf (suc i) r (omega arith) h e in
      let all = parts_size x.buf (suc i) h in
      omega (arith, laws.left_size x.buf (suc i) h, all, ap (size? s) e)

  data_cells-parts :
      (x : Addressed A) (i : ℕ) (l r : Option A)
      → ((y : A) → r ≡ some y → size? s l ≡ i)
      → cells?
            (data_cells cells)
            (Option.map (λ y. record { addr = x.addr; meta_addr = x.meta_addr; buf = y }) l)
          ++ cells? (data_cells cells) (
              Option.map
                (λ y. record { addr = add x.addr i; meta_addr = add x.meta_addr i; buf = y })
                r)
        ≡ number x.addr (number x.meta_addr (cells? cells l ++ cells? cells r))
  data_cells-parts x i (some l) (some r) h =
      let e : length (cells l) ≡ i = laws.size_cells l ∙ h r refl in
      rw (number_mod, number_mod, number-append, number-append, length-number, e)
  data_cells-parts x i (some l) none h = rw (append-nil, append-nil)
  data_cells-parts x i none (some r) h =
      let e : i ≡ 0 = sym (h r refl) in rw (number_mod, number_mod, e, add-zero, add-zero)
  data_cells-parts x i none none h = refl

  Option-size :
      (f : A → Addressed A) (o : Option A)
      → ((y : A) → s.size (f y).buf ≡ s.size y)
      → size? (data_split ⦃s = s⦄) (Option.map f o) ≡ size? s o
  Option-size f none h = refl
  Option-size f (some y) h = h y

  pub data_right-buf :
      (addr meta_addr : Address) (o : Option A) (q : Addressed A)
      → Option.map (λ y. record { addr = addr; meta_addr = meta_addr; buf = y }) o ≡ some q
      → o ≡ some q.buf
  data_right-buf addr meta_addr (some y) q e = ap (Option.map (λ z. z.buf)) e
  data_right-buf addr meta_addr none q e = cc

  -- If a buffer splits into its cells, so does `TranslateData`, which adds the index to both of its
  -- addresses, and each cell keeps both.
  pub data_split-IsSplit : IsSplit (data_split ⦃s = s⦄) (data_cells cells)
  unfolding split_at_data
  data_split-IsSplit = record {
    size_cells = λ x.
        length-number x.addr (number x.meta_addr (cells x.buf))
        ∙ length-number x.meta_addr (cells x.buf)
        ∙ laws.size_cells x.buf;
    split_cells = λ x i h.
        data_cells-parts x i _ _ (λ y e. data_right-size x i y h e)
        ∙ ap (λ cs. number x.addr (number x.meta_addr cs)) (laws.split_cells x.buf i h);
    left_size = λ x i h. Option-size _ _ (λ y. refl) ∙ laws.left_size x.buf i h;
    right_pos = λ x i q pos h e. laws.right_pos x.buf i q.buf pos h (data_right-buf _ _ _ q e);
  }

  -- For a size of at most 2 ^ 64 - 1 and an index from 1 to that size, `split_at_rev` keeps one unit less
  -- than the index at the right; the unit at the index from the end goes to the left part.
  pub split_at_rev-size :
      (x : A) (idx : ℕ)
      → s.size x ≤ umem_max
      → 0 < idx
      → idx ≤ s.size x
      → (size? s (split_at_rev ⦃s = s⦄ x idx).0 ≡ s.size x - idx + 1)
        × (size? s (split_at_rev ⦃s = s⦄ x idx).1 ≡ idx - 1)
  unfolding split_at_rev split_inclusive_at
  split_at_rev-size x idx h pos le =
      let at = s.size x - idx + 1 in
      rw (le→leb idx (s.size x) le, ne→== (s.size x - idx) umem_max (omega arith))
        (omega (arith, laws.left_size x at (omega arith), parts_size x at (omega arith)))
