-- ===== src/Mmu/FilterLaws.antt =====
-- The virtual ranges that the filter accepts.
use memflow.Prelude.{
  ℕ, zero, suc, ◌+◌, ◌-◌, ◌*◌, ◌/◌, ◌%◌, ◌^◌, ◌≤◌, ◌<◌, ◌≡◌, refl, arith, Option, some, none, List,
  [], ◌∷◌, ◌++◌, map, ap, ◌∙◌, sym, ◌==◌, true, ==_iff,
}
use memflow.Error.Code.{Error}
use mathlib.Core.List.{append-nil, append_assoc}
use native.Mathlib.Nat.{div-eq_of_lt-le, mod-eq_of_lt}
use memflow.Prelude.Bits.{all_below, all_below_sound, all_from, bit_and_field, bit_xor_self}
use memflow.Prelude.Pow.{pow-add, pow_pos, pow_mono}
use memflow.Types.Address.{Address, umem_max, shr, wrapping_sub}
use memflow.Types.AddressLaws.{bit_mask-field, shl_one}
use memflow.Iter.Split.{SplitAtIndex, Addressed, data_split}
use memflow.Iter.Cells.{cells?, IsSplit, data_cells}
use memflow.Mmu.Spec.{ArchMmuSpec}
use memflow.Mmu.TranslateData.{push_data}
use memflow.Mmu.Filter.{
  Filtered, accept, reject, accept?, reject?, virt_bit_range, addr_bits, virt_range, arch_bit_range,
  is_negative,
}

-- The bits of the virtual addresses fit in those of an address.
pub record IsSized (spec : ArchMmuSpec) : Type 0 where
  pub range_pos : 0 < virt_bit_range spec
  pub range_le : virt_bit_range spec ≤ addr_bits spec
  pub bits_le : addr_bits spec ≤ 64

ones_table : all_below 64 (λ v. shr umem_max (63 - v) == 2 ^ (v + 1) - 1) ≡ true
unfolding all_from
ones_table = refl

ones : (w : ℕ) → 0 < w → w ≤ 64 → shr umem_max (64 - w) ≡ 2 ^ w - 1
ones zero pos h = absurd (omega arith)
ones (suc v) pos h =
    let low : 64 - suc v ≡ 63 - v = omega arith in
    let high : suc v ≡ v + 1 = omega arith in
    ap (shr umem_max) low
    ∙ (==_iff _ _).0 (
        all_below_sound 64 (λ v. shr umem_max (63 - v) == 2 ^ (v + 1) - 1) v ones_table
          (omega arith))
    ∙ ap (λ n. 2 ^ n - 1) (sym high)

pub half : (b : ℕ) → 0 < b → 2 ^ b ≡ 2 * 2 ^ (b - 1)
half b h =
    let e : b - 1 + 1 ≡ b = omega arith in omega (arith, ap (λ (t : ℕ). 2 ^ t) e, pow-add (b - 1) 1)

-- The upper `b` bits of an address in the upper half are all set.
high_digits :
    (addr b w : ℕ)
    → 0 < b
    → b ≤ w
    → 2 ^ w - 2 ^ (b - 1) ≤ addr
    → addr < 2 ^ w
    → addr / 2 ^ b ≡ 2 ^ (w - b) - 1
high_digits addr b w pos le from lt =
    let e : b + (w - b) ≡ w = omega arith in
    let whole : 2 ^ w ≡ 2 ^ b * 2 ^ (w - b) = ap (λ (t : ℕ). 2 ^ t) (sym e) ∙ pow-add b (w - b) in
    let one = pow_pos (w - b) in
    let up : 2 ^ (w - b) ≡ 2 ^ (w - b) - 1 + 1 = omega arith in
    let scaled = ap (λ (t : ℕ). t * 2 ^ b) up in
    div-eq_of_lt-le (2 ^ b) (omega (arith, whole, half b pos, scaled))
      (omega (arith, whole, scaled))

module _ {spec : ArchMmuSpec} (sized : IsSized spec) where
  abbrev w : ℕ
  w = addr_bits spec

  abbrev b : ℕ
  b = virt_bit_range spec

  pub virt_range-pow : virt_range spec ≡ 2 ^ (b - 1)
  unfolding virt_range
  virt_range-pow = shl_one (b - 1) (omega (arith, sized.range_pos, sized.range_le, sized.bits_le))

  pub middle_end : wrapping_sub (arch_bit_range spec) (virt_range spec) + 1 ≡ 2 ^ w - 2 ^ (b - 1)
  unfolding wrapping_sub arch_bit_range
  middle_end =
      rw (virt_range-pow, ones w (omega (arith, sized.range_pos, sized.range_le)) sized.bits_le)
        (omega (
          arith,
          half b sized.range_pos,
          pow_mono b w sized.range_le,
          pow_pos (b - 1),
          pow_mono w 64 sized.bits_le,
        ))

  -- The mask check passes on every address of the upper half, if that has a bit above it.
  pub is_negative-high :
      (addr : ℕ) → b < 64 → 2 ^ w - 2 ^ (b - 1) ≤ addr → addr < 2 ^ w → is_negative spec addr ≡ true
  unfolding is_negative
  is_negative-high addr below_64 from lt =
      let width : w - 1 + 1 - b ≡ w - b = omega (arith, sized.range_pos, sized.range_le) in
      let high = high_digits addr b w sized.range_pos sized.range_le from lt in
      let small : (2 ^ (w - b) - 1) % 2 ^ (w - b) ≡ 2 ^ (w - b) - 1 =
        mod-eq_of_lt (omega (arith, pow_pos (w - b))) in
      rw
        (
          bit_mask-field b (w - 1) (omega (arith, sized.range_pos, sized.range_le)) below_64
              (omega (arith, sized.bits_le, sized.range_pos, sized.range_le)),
          width,
          bit_and_field b (w - b) addr,
          high,
          small,
          bit_xor_self,
        )
        refl

module _ {ℓ κ} {A : Type ℓ} {C : Type κ} (s : SplitAtIndex A) (cells : A → List C)
    (laws : IsSplit s cells) where
  -- The cells of pieces, in order.
  abbrev pub all_pieces : List (Addressed A) → List (Address × (Address × C))
  all_pieces [] = []
  all_pieces (x ∷ xs) = data_cells cells x ++ all_pieces xs

  all_pieces-append :
      (xs ys : List (Addressed A)) → all_pieces (xs ++ ys) ≡ all_pieces xs ++ all_pieces ys
  all_pieces-append [] ys = refl
  all_pieces-append (x ∷ xs) ys = rw (all_pieces-append xs ys, append_assoc)

  -- The cells on the stack, top first, and those of the failures, in the order of the calls.
  abbrev pub accepted : Filtered A → List (Address × (Address × C))
  accepted st = all_pieces st.addrs_out

  abbrev pub failed : Filtered A → List (Address × (Address × C))
  failed st = all_pieces (map (λ p. p.1) st.fail_out)

  -- What one part of the filter adds to both.
  abbrev pub Adds :
      Filtered A
      → Filtered A
      → List (Address × (Address × C))
      → List (Address × (Address × C))
      → Type κ
  Adds st st2 new bad = (accepted st2 ≡ new ++ accepted st) × (failed st2 ≡ failed st ++ bad)

  map-append :
      (xs ys : List (Error × Addressed A))
      → map (λ p. p.1) (xs ++ ys) ≡ map (λ p. p.1) xs ++ map (λ p. p.1) ys
  map-append [] ys = refl
  map-append (x ∷ xs) ys = rw (map-append xs ys)

  pub accept-Adds :
      (x : Addressed A) (st : Filtered A) → Adds st (accept ⦃s = s⦄ x st) (data_cells cells x) []
  unfolding accept push_data
  accept-Adds x st = (refl, sym (append-nil _))

  pub reject-Adds :
      (x : Addressed A) (st : Filtered A) → Adds st (reject ⦃s = s⦄ x st) [] (data_cells cells x)
  unfolding reject
  reject-Adds x st = (refl, rw (map-append, all_pieces-append, append-nil))

  pub accept?-Adds :
      (o : Option (Addressed A)) (st : Filtered A)
      → Adds st (accept? ⦃s = s⦄ o st) (cells? (data_cells cells) o) []
  accept?-Adds none st = (refl, sym (append-nil _))
  accept?-Adds (some x) st = accept-Adds x st

  pub reject?-Adds :
      (o : Option (Addressed A)) (st : Filtered A)
      → Adds st (reject? ⦃s = s⦄ o st) [] (cells? (data_cells cells) o)
  reject?-Adds none st = (refl, sym (append-nil _))
  reject?-Adds (some x) st = reject-Adds x st

  pub Adds-then :
      (st st2 st3 : Filtered A) (n1 b1 n2 b2 : List (Address × (Address × C)))
      → Adds st st2 n1 b1
      → Adds st2 st3 n2 b2
      → Adds st st3 (n2 ++ n1) (b1 ++ b2)
  Adds-then st st2 st3 n1 b1 n2 b2 (a, f) (a2, f2) =
      (rw (a2, a, append_assoc) refl, rw (f2, f, append_assoc) refl)

  pub Adds-eq :
      (st st2 : Filtered A) (n n2 b b2 : List (Address × (Address × C)))
      → n ≡ n2
      → b ≡ b2
      → Adds st st2 n b
      → Adds st st2 n2 b2
  Adds-eq st st2 n n2 b b2 en eb (a, f) =
      (a ∙ ap (λ c. c ++ accepted st) en, f ∙ ap (λ c. failed st ++ c) eb)
