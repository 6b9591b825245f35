-- ===== src/MemMap/Routes.antt =====
-- What a memory map promises, cell by cell: the output cell that an address belongs to, and, for
-- cells at addresses, those that have an output and those that have none.
use memflow.Prelude.{
  ℕ, suc, ◌+◌, ◌-◌, ◌%◌, ◌^◌, ◌≤◌, ◌<◌, ◌≡◌, refl, arith, ap, sym, ◌∙◌, Option, some, none, List,
  [], ◌∷◌, ◌++◌, ◌&&◌, ltb, leb, if◌then◌else◌, length, get_elem?, All,
}
use memflow.Types.Address.{Address}
use memflow.Iter.Split.{SplitAtIndex}
use memflow.Iter.Cells.{number}
use memflow.MemMap.Map.{MemoryMapping, MemoryMap}

abbrev pub zip_cells {ℓ κ} : {A : Type ℓ} {B : Type κ} → List A → List B → List (A × B)
zip_cells [] ys = []
zip_cells (x ∷ xs) [] = []
zip_cells (x ∷ xs) (y ∷ ys) = (x, y) ∷ zip_cells xs ys

-- What the cells of an address and of the data make of each other.
abbrev pub cons_mapped {ℓ κ} :
    {D : Type ℓ} {C : Type κ} → Option D → C → List (D × C) → List (D × C)
cons_mapped none c rest = rest
cons_mapped (some d) c rest = (d, c) ∷ rest

abbrev pub cons_missed {ℓ κ} : {D : Type ℓ} {C : Type κ} → Option D → C → List C → List C
cons_missed none c rest = c ∷ rest
cons_missed (some d) c rest = rest

-- The cells that `route` gives an output, with it, and the cells it gives none.
abbrev pub mapped_by {ℓ κ} :
    {D : Type ℓ} {C : Type κ} → (Address → Option D) → List (Address × C) → List (D × C)
mapped_by route [] = []
mapped_by route ((a, c) ∷ cs) = cons_mapped (route a) c (mapped_by route cs)

abbrev pub missed_by {ℓ κ} :
    {D : Type ℓ} {C : Type κ} → (Address → Option D) → List (Address × C) → List C
missed_by route [] = []
missed_by route ((a, c) ∷ cs) = cons_missed (route a) c (missed_by route cs)

step_in : (a j : ℕ) → (a + 1 + j) % 2 ^ 64 ≡ (a + suc j) % 2 ^ 64
step_in a j = omega arith

first : (a : ℕ) → (a + 0) % 2 ^ 64 ≡ a % 2 ^ 64
first a = omega arith

module _ {ℓ κ} {D : Type ℓ} {C : Type κ} (route : Address → Option D) where
  cons_mapped-append :
      (o : Option D) (c : C) (xs ys : List (D × C))
      → cons_mapped o c (xs ++ ys) ≡ cons_mapped o c xs ++ ys
  cons_mapped-append none c xs ys = refl
  cons_mapped-append (some d) c xs ys = refl

  cons_missed-append :
      (o : Option D) (c : C) (xs ys : List C)
      → cons_missed o c (xs ++ ys) ≡ cons_missed o c xs ++ ys
  cons_missed-append none c xs ys = refl
  cons_missed-append (some d) c xs ys = refl

  pub mapped_by-append :
      (xs ys : List (Address × C))
      → mapped_by route (xs ++ ys) ≡ mapped_by route xs ++ mapped_by route ys
  mapped_by-append [] ys = refl
  mapped_by-append ((a, c) ∷ xs) ys =
      ap (cons_mapped (route a) c) (mapped_by-append xs ys)
      ∙ cons_mapped-append (route a) c (mapped_by route xs) (mapped_by route ys)

  pub missed_by-append :
      (xs ys : List (Address × C))
      → missed_by route (xs ++ ys) ≡ missed_by route xs ++ missed_by route ys
  missed_by-append [] ys = refl
  missed_by-append ((a, c) ∷ xs) ys =
      ap (cons_missed (route a) c) (missed_by-append xs ys)
      ∙ cons_missed-append (route a) c (missed_by route xs) (missed_by route ys)

  -- Cells at addresses without an output.
  pub numbered_missed :
      (a : ℕ) (cs : List C)
      → ((j : ℕ) → j < length cs → route ((a + j) % 2 ^ 64) ≡ none)
      → (mapped_by route (number a cs) ≡ []) × (missed_by route (number a cs) ≡ cs)
  numbered_missed a [] h = (refl, refl)
  numbered_missed a (c ∷ cs) h =
      let here = ap route (sym (first a)) ∙ h 0 (omega arith) in
      let (m, f) =
        numbered_missed (a + 1) cs (λ j lt. ap route (step_in a j) ∙ h (suc j) (omega arith)) in
      rw here (m, ap (◌∷◌ c) f)

  -- Cells at addresses with the outputs `ds`, from the first one on.
  pub numbered_mapped :
      (a : ℕ) (cs : List C) (ds : List D)
      → length cs ≡ length ds
      → ((j : ℕ) → j < length cs → route ((a + j) % 2 ^ 64) ≡ get_elem? ds j)
      → (mapped_by route (number a cs) ≡ zip_cells ds cs) × (missed_by route (number a cs) ≡ [])
  numbered_mapped a [] [] e h = (refl, refl)
  numbered_mapped a [] (d ∷ ds) e h = absurd (omega arith)
  numbered_mapped a (c ∷ cs) [] e h = absurd (omega arith)
  numbered_mapped a (c ∷ cs) (d ∷ ds) e h =
      let here = ap route (sym (first a)) ∙ h 0 (omega arith) in
      let (m, f) =
        numbered_mapped (a + 1) cs ds (omega arith)
          (λ j lt. ap route (step_in a j) ∙ h (suc j) (omega arith)) in
      rw here (ap (◌∷◌ (d, c)) m, f)

module _ {ℓ} {M : Type ℓ} (sm : SplitAtIndex M) where
  -- Mappings that are not empty, do not wrap, and ascend from an address on without overlap.
  unfoldable pub IsOrdered : ℕ → MemoryMap M → Type 0
  IsOrdered low [] = Unit
  IsOrdered low (m ∷ ms) =
      (low ≤ m.base)
      × (0 < sm.size m.output)
      × (m.base + sm.size m.output < 2 ^ 64)
      × IsOrdered (m.base + sm.size m.output) ms

  abbrev pub Ended : Address → MemoryMapping M → Type 0
  Ended a m = m.base + sm.size m.output ≤ a

module _ {ℓ κ} {M : Type ℓ} {D : Type κ} (sm : SplitAtIndex M) (mcells : M → List D) where
  -- The output cell of an address: that of the first mapping the address lies in.
  abbrev pub translate : MemoryMap M → Address → Option D
  translate [] a = none
  translate (m ∷ ms) a =
      let rest = translate ms a in
      if leb m.base a && ltb a (m.base + sm.size m.output)
      then get_elem? (mcells m.output) (a - m.base)
      else rest

  pub translate-below :
      (low : ℕ) (ms : MemoryMap M) (a : Address)
      → IsOrdered sm low ms
      → a < low
      → translate ms a ≡ none
  unfolding IsOrdered
  translate-below low [] a h lt = refl
  translate-below low (m ∷ ms) a (at, pos, fits, up) lt =
      let later = translate-below (m.base + sm.size m.output) ms a up (omega (arith, at, lt)) in
      let le : m.base ≤ a → ⊥ = λ h. omega (arith, h, at, lt) in ground (arith, later, le)

  pub translate-Ended :
      (done rest : MemoryMap M) (low a : Address)
      → low ≤ a
      → All (Ended sm low) done
      → translate (done ++ rest) a ≡ translate rest a
  translate-Ended [] rest low a le h = refl
  translate-Ended (m ∷ ms) rest low a le (h, hs) =
      let later = translate-Ended ms rest low a le hs in
      let out : a < m.base + sm.size m.output → ⊥ = λ lt. omega (arith, h, le, lt) in
      ground (arith, later, out)
