-- ===== src/Mmu/FilterParts.antt =====
-- The filter accepts exactly the canonical addresses.
use memflow.Prelude.{
  ℕ, ◌+◌, ◌-◌, ◌^◌, ◌<◌, ◌≡◌, refl, arith, Option, some, none, List, [], ◌∷◌, ◌++◌, ap, ◌∙◌, sym,
  ltb, leb, lt→ltb, le→leb, Bool, true, false, not, ◌||◌, ◌⊎◌, Bool-cases, inl, inr, All, All-imp,
  All-zip, All-append_left, All-append_right, filter, filter-append, filter_all, filter_none,
}
use mathlib.Core.List.{append-nil}
use memflow.Prelude.Pow.{pow_pos, pow_mono}
use memflow.Types.Address.{Address, wrapping_sub}
use memflow.Iter.Split.{SplitAtIndex, Addressed, data_split}
use memflow.Iter.Cells.{cells?, IsSplit, number, data_cells}
use memflow.Mmu.Spec.{ArchMmuSpec}
use memflow.Mmu.TranslateData.{split_at_address_rev}
use memflow.Mmu.RangeLaws.{
  Below, From, split_at_address_rev-cut, split_at_address_rev-right, data_cells-below,
}
use memflow.Mmu.Filter.{
  Filtered, reject, reject?, virt_bit_range, addr_bits, virt_range, arch_bit_range, is_negative,
  filter_top, filter_top?, filter_higher,
}
use memflow.Mmu.FilterLaws.{
  IsSized, middle_end, is_negative-high, Adds, accept-Adds, reject-Adds, accept?-Adds, reject?-Adds,
  Adds-then, Adds-eq,
}

module _ (spec : ArchMmuSpec) where
  -- Where the lower half ends and the upper half begins.
  abbrev pub lower_end : ℕ
  lower_end = 2 ^ (virt_bit_range spec - 1)

  abbrev pub upper_start : ℕ
  upper_start = 2 ^ addr_bits spec - lower_end

  -- An address whose upper bits are all clear, or all set.
  abbrev pub canonical {κ} : {B : Type κ} → Address × B → Bool
  canonical c = ltb c.0 lower_end || leb upper_start c.0

  abbrev pub uncanonical {κ} : {B : Type κ} → Address × B → Bool
  uncanonical c = not (canonical c)

module _ {κ} {B : Type κ} (spec : ArchMmuSpec) where
  pub lower-canonical : (c : Address × B) → Below (lower_end spec) c → canonical spec c ≡ true
  lower-canonical c h = rw (lt→ltb c.0 (lower_end spec) h)

  pub upper-canonical : (c : Address × B) → From (upper_start spec) c → canonical spec c ≡ true
  upper-canonical c h = elim (Bool-cases (ltb c.0 (lower_end spec))) [
    | inl e ↦ rw e
    | inr e ↦ rw (e, le→leb (upper_start spec) c.0 h)
  ]

  pub middle-canonical :
      (c : Address × B)
      → From (lower_end spec) c × Below (upper_start spec) c
      → canonical spec c ≡ false
  middle-canonical c (h, g) = ground arith

module _ {ℓ κ} {A : Type ℓ} {C : Type κ} (s : SplitAtIndex A) (cells : A → List C)
    (laws : IsSplit s cells) (spec : ArchMmuSpec) where
  -- A top part that passes the mask check, or has no cells, is accepted.
  pub filter_top?-Adds :
      (o : Option (Addressed A)) (st : Filtered A)
      → ((y : Addressed A)
          → o ≡ some y
          → (is_negative spec y.addr ≡ true) ⊎ (data_cells cells y ≡ []))
      → Adds s cells laws st (filter_top? ⦃s = s⦄ spec o st) (cells? (data_cells cells) o) []
  unfolding filter_top
  filter_top?-Adds none st passes = accept?-Adds s cells laws none st
  filter_top?-Adds (some y) st passes = elim (Bool-cases (is_negative spec y.addr)) [
    | inl e ↦ rw e (accept-Adds s cells laws y st)
    | inr e ↦ elim (passes y refl) [
      | inl f ↦ cc
      | inr whole ↦
          let pushed : Adds s cells laws st (reject ⦃s = s⦄ y st) [] (data_cells cells y) =
            reject-Adds s cells laws y st in
          rw (e, whole) (rw whole at pushed)
    ]
  ]

module _ {ℓ κ} {A : Type ℓ} {C : Type κ} (s : SplitAtIndex A) (cells : A → List C)
    (laws : IsSplit s cells) {spec : ArchMmuSpec} (sized : IsSized spec)
    (below_64 : virt_bit_range spec < 64) where
  abbrev dc : Addressed A → List (Address × (Address × C))
  dc = data_cells cells

  abbrev good : List (Address × (Address × C)) → List (Address × (Address × C))
  good = filter (canonical spec)

  abbrev bad : List (Address × (Address × C)) → List (Address × (Address × C))
  bad = filter (uncanonical spec)

  high_or_empty :
      (y : Addressed A) (cs : List (Address × C))
      → y.addr < 2 ^ 64
      → All (From (upper_start spec)) (number y.addr cs)
      → All (Below (2 ^ addr_bits spec)) (number y.addr cs)
      → (is_negative spec y.addr ≡ true) ⊎ (number y.addr cs ≡ [])
  high_or_empty y [] lt h g = inr refl
  high_or_empty y (c ∷ cs) lt (h, hs) (g, gs) =
      inl (is_negative-high sized y.addr below_64 (omega arith) (omega arith))

  -- Two parts, of which the second has the canonical addresses.
  middle_high :
      (m h : List (Address × (Address × C)))
      → All (From (lower_end spec)) (m ++ h)
      → All (Below (upper_start spec)) m
      → All (From (upper_start spec)) h
      → (good (m ++ h) ≡ h) × (bad (m ++ h) ≡ m)
  middle_high m h from below high =
      let ms = All-imp (middle-canonical spec) m (
        All-zip (From (lower_end spec)) (Below (upper_start spec)) m
          (All-append_left (From (lower_end spec)) m h from) below) in
      let hs = All-imp (upper-canonical spec) h high in
      let m_bad = All-imp (λ c e. ap not e) m ms in
      let h_good = All-imp (λ c e. ap not e) h hs in
      (
        filter-append (canonical spec) m h
            ∙ rw (filter_none (canonical spec) m ms, filter_all (canonical spec) h hs) refl,
        filter-append (uncanonical spec) m h
            ∙ rw (filter_all (uncanonical spec) m m_bad, filter_none (uncanonical spec) h h_good)
                (append-nil m),
      )

  pub filter_higher-Adds :
      (o : Option (Addressed A)) (st : Filtered A)
      → ((y : Addressed A)
          → o ≡ some y
          → (0 < y.addr) × (y.addr + s.size y.buf < 2 ^ addr_bits spec))
      → All (From (lower_end spec)) (cells? dc o)
      → Adds s cells laws st
          (filter_higher ⦃s = s⦄ spec o st)
          (good (cells? dc o))
          (bad (cells? dc o))
  unfolding filter_higher
  filter_higher-Adds none st bounds from = (refl, sym (append-nil _))
  filter_higher-Adds (some y) st bounds from =
      let t = wrapping_sub (arch_bit_range spec) (virt_range spec) in
      let (pos, lt) = bounds y refl in
      let big = pow_mono (addr_bits spec) 64 sized.bits_le in
      let (whole, (below, high)) =
        split_at_address_rev-cut s cells laws y t pos (omega (arith, lt, big))
          (omega (arith, middle_end sized, big, pow_pos (virt_bit_range spec - 1))) in
      let (l, r) = split_at_address_rev ⦃s = s⦄ y t in
      let start : t + 1 ≡ upper_start spec = middle_end sized in
      let middle = (rw start at below) in
      let top = (rw start at high) in
      let all_below =
        data_cells-below s cells laws y (2 ^ addr_bits spec) (omega (arith, lt))
          (omega (arith, lt, big)) in
      let rest =
        All-append_right (Below (2 ^ addr_bits spec)) (cells? dc l) (cells? dc r)
          (rw (sym whole) at all_below) in
      let parts = middle_high (cells? dc l) (cells? dc r) (rw (sym whole) at from) middle top in
      let kept = filter_top?-Adds s cells laws spec r (reject? ⦃s = s⦄ l st) (λ z e.
        high_or_empty z (number z.meta_addr (cells z.buf))
          (split_at_address_rev-right s cells laws y t z (omega (arith, lt, big)) e) (rw e at top)
          (rw e at rest)) in
      let dropped = reject?-Adds s cells laws l st in
      let end = filter_top? ⦃s = s⦄ spec r (reject? ⦃s = s⦄ l st) in
      Adds-eq s cells laws st end (cells? dc r ++ []) (good (dc y)) (cells? dc l ++ []) (bad (dc y))
        (append-nil _ ∙ sym parts.0 ∙ ap good whole) (append-nil _ ∙ sym parts.1 ∙ ap bad whole)
        (Adds-then s cells laws st (reject? ⦃s = s⦄ l st) end [] (cells? dc l) (cells? dc r) []
          dropped kept)
