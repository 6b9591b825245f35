-- ===== src/MemMap/PushLaws.antt =====
-- Where `push` puts a mapping.
use memflow.Prelude.{
  ℕ, ◌+◌, ◌^◌, ◌≤◌, ◌<◌, ◌≡◌, refl, arith, ap, sym, ◌∙◌, some, none, List, [], ◌∷◌, ◌++◌, length,
  All, ◌⊎◌, inl, inr,
}
use mathlib.Core.List.{append-nil}
use memflow.Types.Address.{Address, add}
use memflow.Iter.Split.{SplitAtIndex}
use memflow.MemMap.Map.{
  MemoryMapping, MemoryMap, insert, overlap, shift_idx, no_break, visit, scan, place, push,
}

insert_at {ℓ} :
    {A : Type ℓ} (xs ys : List A) (v : A) → insert (xs ++ ys) (length xs) v ≡ xs ++ v ∷ ys
insert_at [] ys v = refl
insert_at (x ∷ xs) ys v = rw (insert_at xs ys v) refl

insert_end {ℓ} : {A : Type ℓ} (xs : List A) (v : A) → insert xs (length xs) v ≡ xs ++ v ∷ []
insert_end [] v = refl
insert_end (x ∷ xs) v = rw (insert_end xs v) refl

module _ {ℓ} {M : Type ℓ} (s : SplitAtIndex M) (base : Address) (output : M) where
  -- A mapping that ends where the new one begins, or before.
  abbrev pub Before : MemoryMapping M → Type 0
  Before m = m.base + s.size m.output ≤ base

  -- A mapping that begins after the end of the new one, and does not wrap.
  abbrev pub After : MemoryMapping M → Type 0
  After m = (base + s.size output < m.base) × (m.base + s.size m.output < 2 ^ 64)

  -- A mapping inside the new one, not at its start.
  abbrev pub Inside : MemoryMapping M → Type 0
  Inside m = (base < m.base) × (m.base + s.size m.output ≤ base + s.size output)

  abbrev new : MemoryMapping M
  new = record { base = base; output = output }

  abbrev end : Address
  end = add base (s.size output)

  module _ (fits : base + s.size output < 2 ^ 64) where
    visit-Before :
        (i : ℕ) (m : MemoryMapping M)
        → Before m
        → visit ⦃s = s⦄ base end i m no_break ≡ shift_idx (i + 1)
    unfolding visit
    visit-Before i m h = ground arith

    visit-After :
        (i : ℕ) (m : MemoryMapping M) → After m → visit ⦃s = s⦄ base end i m no_break ≡ no_break
    unfolding visit
    visit-After i m h = ground arith

    visit-Inside :
        (i : ℕ) (m : MemoryMapping M) → Inside m → visit ⦃s = s⦄ base end i m no_break ≡ no_break
    unfolding visit
    visit-Inside i m h = ground arith

    visit_touching :
        (i : ℕ) (m : MemoryMapping M)
        → m.base + s.size m.output < 2 ^ 64
        → ((m.base ≤ base) × (base < m.base + s.size m.output))
          ⊎ ((m.base ≤ base + s.size output) × (base + s.size output < m.base + s.size m.output))
        → visit ⦃s = s⦄ base end i m no_break ≡ overlap
    unfolding visit
    visit_touching i m whole (inl h) = ground arith
    visit_touching i m whole (inr h) = ground arith

    scan-After : (i : ℕ) (ms : MemoryMap M) → All After ms → scan ⦃s = s⦄ base end i ms ≡ no_break
    unfolding scan
    scan-After i [] h = refl
    scan-After i (m ∷ ms) (h, hs) = rw (scan-After (i + 1) ms hs) (visit-After i m h)

    scan-Inside : (i : ℕ) (ms : MemoryMap M) → All Inside ms → scan ⦃s = s⦄ base end i ms ≡ no_break
    unfolding scan
    scan-Inside i [] h = refl
    scan-Inside i (m ∷ ms) (h, hs) = rw (scan-Inside (i + 1) ms hs) (visit-Inside i m h)

    -- The loop stops at the last mapping before the new one.
    scan-Before :
        (i : ℕ) (b : MemoryMapping M) (bs rest : MemoryMap M)
        → All Before (b ∷ bs)
        → ((j : ℕ) → scan ⦃s = s⦄ base end j rest ≡ no_break)
        → scan ⦃s = s⦄ base end i (b ∷ bs ++ rest) ≡ shift_idx (i + length (b ∷ bs))
    unfolding scan visit
    scan-Before i b [] rest (h, hs) on =
        rw (on (i + 1)) (visit-Before i b h ∙ ap shift_idx (omega arith))
    scan-Before i b (c ∷ cs) rest (h, hs) on =
        let deeper = scan-Before (i + 1) c cs rest hs on in
        let index : i + 1 + length (c ∷ cs) ≡ i + length (b ∷ c ∷ cs) = omega arith in
        rw deeper (ap shift_idx index)

    place_after :
        (b : MemoryMapping M) (bs rest : MemoryMap M)
        → All Before (b ∷ bs)
        → ((j : ℕ) → scan ⦃s = s⦄ base end j rest ≡ no_break)
        → push ⦃s = s⦄ (b ∷ bs ++ rest) base output ≡ some (b ∷ bs ++ new ∷ rest)
    unfolding push place
    place_after b bs rest before on =
        let index : 0 + length (b ∷ bs) ≡ length (b ∷ bs) = omega arith in
        rw (scan-Before 0 b bs rest before on, index) (ap some (insert_at (b ∷ bs) rest new))

    -- A mapping whose end does not wrap, that begins where the mappings of a first, nonempty group end or
    -- after that, and ends before those of the rest begin, which do not wrap, goes between the two groups.
    pub push_between :
        (b : MemoryMapping M) (bs later : MemoryMap M)
        → All Before (b ∷ bs)
        → All After later
        → push ⦃s = s⦄ (b ∷ bs ++ later) base output
          ≡ some (b ∷ bs ++ record { base = base; output = output } ∷ later)
    push_between b bs later before after =
        place_after b bs later before (λ j. scan-After j later after)

    -- A mapping whose end does not wrap and that ends before all mappings begin, none of which wraps,
    -- goes behind them, out of order.
    pub push_below :
        (later : MemoryMap M)
        → All After later
        → push ⦃s = s⦄ later base output
          ≡ some (later ++ record { base = base; output = output } ∷ [])
    unfolding push place
    push_below later after = rw (scan-After 0 later after) (ap some (insert_end later new))

    -- A mapping whose end does not wrap, that begins where the mappings of a first, nonempty group end or
    -- after that, and contains all the others, none from its own start on, is put before those without a
    -- panic, though it overlaps them.
    pub push_swallow :
        (b : MemoryMapping M) (bs inside : MemoryMap M)
        → All Before (b ∷ bs)
        → All Inside inside
        → push ⦃s = s⦄ (b ∷ bs ++ inside) base output
          ≡ some (b ∷ bs ++ record { base = base; output = output } ∷ inside)
    push_swallow b bs inside before within =
        place_after b bs inside before (λ j. scan-Inside j inside within)

    scan_overlap :
        (i : ℕ) (ms rest : MemoryMap M)
        → ((j : ℕ) → scan ⦃s = s⦄ base end j rest ≡ overlap)
        → scan ⦃s = s⦄ base end i (ms ++ rest) ≡ overlap
    unfolding scan visit
    scan_overlap i [] rest on = on i
    scan_overlap i (m ∷ ms) rest on = rw (scan_overlap (i + 1) ms rest on) refl

    -- A mapping whose end does not wrap, and whose start, or whose end, lies in a mapping that does not
    -- wrap and after which all others begin later than the new one ends, is refused with the panic.
    pub push_overlap :
        (ms later : MemoryMap M) (m : MemoryMapping M)
        → m.base + s.size m.output < 2 ^ 64
        → ((m.base ≤ base) × (base < m.base + s.size m.output))
          ⊎ ((m.base ≤ base + s.size output) × (base + s.size output < m.base + s.size m.output))
        → All After later
        → push ⦃s = s⦄ (ms ++ m ∷ later) base output ≡ none
    unfolding push place
    push_overlap ms later m whole hit after =
        let touch : (i : ℕ) → visit ⦃s = s⦄ base end i m no_break ≡ overlap =
          λ i. visit_touching i m whole hit in
        let reached : (j : ℕ) → scan ⦃s = s⦄ base end j (m ∷ later) ≡ overlap =
          λ j. unfold scan in rw (scan-After (j + 1) later after) (touch j) in
        rw (scan_overlap 0 ms (m ∷ later) reached) refl

    -- A mapping that begins where the last one ends or after it is appended.
    pub push_last :
        (ms : MemoryMap M)
        → All Before ms
        → push ⦃s = s⦄ ms base output ≡ some (ms ++ record { base = base; output = output } ∷ [])
    push_last [] before = push_below [] tt
    push_last (b ∷ bs) before =
        ap (λ ms. push ⦃s = s⦄ ms base output) (sym (append-nil (b ∷ bs)))
        ∙ place_after b bs [] before (λ j. scan-After j [] tt)
