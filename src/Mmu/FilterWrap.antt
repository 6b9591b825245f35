-- ===== src/Mmu/FilterWrap.antt =====
-- The range that ends with the 64-bit address space.
use memflow.Prelude.{
  ℕ, ◌+◌, ◌-◌, ◌^◌, ◌≤◌, ◌<◌, ◌≡◌, refl, arith, Option, some, List, [], ◌++◌, length, ap, ◌∙◌, sym,
  le→leb, ◌==◌, Bool-cases, Option-cases, inl, inr, length-append, eq_nil_of_length,
}
use mathlib.Core.List.{append-nil}
use memflow.Prelude.Pow.{pow_pos}
use memflow.Types.Address.{Address, umem_max, add, bit_mask, wrapping_sub}
use memflow.Types.AddressLaws.{bit_mask-field}
use memflow.Iter.Split.{
  SplitAtIndex, Addressed, data_split, split_inclusive_at, split_at_rev, split_at_data,
}
use memflow.Iter.Cells.{cells?, IsSplit, data_cells}
use memflow.Iter.SplitLaws.{data_split-IsSplit, size?-length}
use memflow.Mmu.Spec.{ArchMmuSpec}
use memflow.Mmu.TranslateData.{split_at_address, split_at_address_rev}
use memflow.Mmu.RangeLaws.{map_addr}
use memflow.Mmu.Filter.{
  Filtered, accept?, reject?, virt_bit_range, addr_bits, virt_range, arch_bit_range, filter_top?,
  filter_higher, filter_halves, trimmed, virt_addr_filter,
}
use memflow.Mmu.FilterLaws.{
  IsSized, virt_range-pow, Adds, accept?-Adds, reject?-Adds, Adds-then, Adds-eq, accepted, failed,
}
use memflow.Mmu.FilterParts.{lower_end, filter_top?-Adds}

module _ {ℓ κ} {A : Type ℓ} {C : Type κ} (s : SplitAtIndex A) (cells : A → List C)
    (laws : IsSplit s cells) {spec : ArchMmuSpec} (sized : IsSized spec) where
  abbrev dc : Addressed A → List (Address × (Address × C))
  dc = data_cells cells

  D : IsSplit (data_split ⦃s = s⦄) dc
  D = data_split-IsSplit s cells laws

  -- A split past the end leaves everything at the left.
  abbrev AllLeft : Addressed A → Option (Addressed A) × Option (Addressed A) → Type κ
  AllLeft y p = (cells? dc p.0 ≡ dc y) × (cells? dc p.1 ≡ [])

  all_left :
      (y : Addressed A) (i : ℕ)
      → s.size y.buf ≤ i
      → i ≤ umem_max
      → AllLeft y (split_at_data ⦃s = s⦄ y i)
  all_left y i le lt =
      let l = (split_at_data ⦃s = s⦄ y i).0 in
      let r = (split_at_data ⦃s = s⦄ y i).1 in
      let whole = D.split_cells y i lt in
      let left = D.left_size y i lt in
      let rest : cells? dc r ≡ [] = eq_nil_of_length (cells? dc r) (
        omega (
          arith,
          ap length whole,
          length-append (cells? dc l) (cells? dc r),
          D.size_cells y,
          size?-length data_split dc D l,
          left,
        )) in
      (sym (append-nil _) ∙ ap (λ c. cells? dc l ++ c) (sym rest) ∙ whole, rest)

  -- From a range whose end wraps to 0, the reverse split takes nothing.
  rev_wrapped :
      (y : Addressed A) (t : ℕ)
      → 0 < s.size y.buf
      → s.size y.buf ≤ umem_max
      → y.addr + s.size y.buf ≡ 2 ^ 64
      → AllLeft y (split_at_address_rev ⦃s = s⦄ y t)
  unfolding split_at_address_rev split_at_rev split_inclusive_at
  rev_wrapped y t pos le wraps =
      let base : add y.addr (s.size y.buf) ≡ 0 = omega arith in
      let idx : 0 - t ≡ 0 = omega arith in
      let full : s.size y.buf - 0 ≡ s.size y.buf = omega arith in
      let in_range = le→leb 0 (s.size y.buf) (omega arith) in
      elim (Bool-cases (s.size y.buf == umem_max)) [
        | inl e ↦ rw (base, idx, in_range, full, e) (refl, refl)
        | inr e ↦
            rw (base, idx, in_range, full, e)
              (all_left y (s.size y.buf + 1) (omega arith) (ground arith))
      ]

  higher_wrapped :
      (y : Addressed A) (st : Filtered A)
      → 0 < y.addr
      → 0 < s.size y.buf
      → y.addr + s.size y.buf ≡ 2 ^ 64
      → Adds s cells laws st (filter_higher ⦃s = s⦄ spec (some y) st) [] (dc y)
  unfolding filter_higher
  higher_wrapped y st low pos wraps =
      let t = wrapping_sub (arch_bit_range spec) (virt_range spec) in
      let (l, r) = split_at_address_rev ⦃s = s⦄ y t in
      let (left, right) = rev_wrapped y t pos (omega arith) wraps in
      let mid = reject? ⦃s = s⦄ l st in
      let end = filter_top? ⦃s = s⦄ spec r mid in
      let kept =
        filter_top?-Adds s cells laws spec r mid (λ z e. inr (ap (cells? dc) (sym e) ∙ right)) in
      Adds-eq s cells laws st end (cells? dc r ++ []) [] (cells? dc l ++ []) (dc y)
        (append-nil _ ∙ right) (append-nil _ ∙ left)
        (Adds-then s cells laws st mid end [] (cells? dc l) (cells? dc r) []
          (reject?-Adds s cells laws l st) kept)

  -- A right part has the cells of the whole, if the left part has none.
  right_whole :
      (x : Addressed A) (i : ℕ)
      → i ≡ 0
      → x.addr < 2 ^ 64
      → 0 < s.size x.buf
      → (y : Addressed A) × ((split_at_data ⦃s = s⦄ x i).1 ≡ some y)
        × (cells? dc (split_at_data ⦃s = s⦄ x i).0 ≡ [])
        × (dc y ≡ dc x)
        × (y.addr ≡ x.addr)
        × (s.size y.buf ≡ s.size x.buf)
  unfolding split_at_data
  right_whole x i zero_index lt pos =
      let l = (split_at_data ⦃s = s⦄ x i).0 in
      let whole = D.split_cells x i (omega arith) in
      let empty : cells? dc l ≡ [] =
        eq_nil_of_length (cells? dc l) (
          omega (arith, size?-length (data_split ⦃s = s⦄) dc D l, D.left_size x i (omega arith))) in
      let rest : cells? dc (split_at_data ⦃s = s⦄ x i).1 ≡ dc x =
        ap (λ c. c ++ cells? dc (split_at_data ⦃s = s⦄ x i).1) (sym empty) ∙ whole in
      elim (Option-cases (split_at_data ⦃s = s⦄ x i).1) [
        | inl n ↦
            let none_left = rw n at rest in
            absurd (omega (arith, ap length none_left, D.size_cells x))
        | inr (y, e) ↦
            let same = rw e at rest in
            let at : y.addr ≡ add x.addr i = map_addr s cells laws _ _ _ y e in
            (
              y,
              e,
              empty,
              same,
              omega arith,
              omega (arith, ap length same, D.size_cells x, D.size_cells y),
            )
      ]

  halves_wrapped :
      (x : Addressed A) (st : Filtered A)
      → lower_end spec ≤ x.addr
      → 0 < s.size x.buf
      → x.addr + s.size x.buf ≡ 2 ^ 64
      → Adds s cells laws st (filter_halves ⦃s = s⦄ spec x st) [] (dc x)
  unfolding filter_halves split_at_address
  halves_wrapped x st le pos wraps =
      let some_half = pow_pos (virt_bit_range spec - 1) in
      let i = lower_end spec - x.addr in
      let (y, right, empty, same, at, size) = right_whole x i (omega arith) (omega arith) pos in
      let l = (split_at_data ⦃s = s⦄ x i).0 in
      let mid = filter_higher ⦃s = s⦄ spec (some y) st in
      let end = accept? ⦃s = s⦄ l mid in
      let higher =
        higher_wrapped y st (omega (arith, at, some_half)) (omega (arith, size))
          (omega (arith, at, size)) in
      rw (virt_range-pow sized, right)
        (Adds-eq s cells laws st end (cells? dc l ++ []) [] (dc y ++ []) (dc x)
          (append-nil _ ∙ empty) (append-nil _ ∙ same)
          (Adds-then s cells laws st mid end [] (dc y) (cells? dc l) [] higher
            (accept?-Adds s cells laws l mid)))

  -- Where addresses have 64 bits and those of the virtual addresses fit in them: a range that is not
  -- empty, starts at the end of the lower half or above and ends with the address space is rejected
  -- whole, the canonical addresses of the upper half included.
  pub virt_addr_filter-wrapped :
      (x : Addressed A) (st : Filtered A)
      → addr_bits spec ≡ 64
      → lower_end spec ≤ x.addr
      → 0 < s.size x.buf
      → x.addr + s.size x.buf ≡ 2 ^ 64
      → (out : Filtered A) × (virt_addr_filter ⦃s = s⦄ spec x st ≡ some out)
        × (accepted s cells laws out ≡ accepted s cells laws st)
        × (failed s cells laws out ≡ failed s cells laws st ++ data_cells cells x)
  unfolding virt_addr_filter trimmed split_inclusive_at
  virt_addr_filter-wrapped x st bits le pos wraps =
      let mask : bit_mask 0 (addr_bits spec - 1) ≡ umem_max =
        ap (λ w. bit_mask 0 (w - 1)) bits
        ∙ bit_mask-field 0 63 (omega arith) (omega arith) (omega arith) in
      let (stack, bad) = halves_wrapped x st le pos wraps in
      (filter_halves ⦃s = s⦄ spec x st, rw mask refl, stack, bad)
