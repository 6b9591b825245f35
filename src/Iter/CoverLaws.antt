-- ===== src/Iter/CoverLaws.antt =====
-- All the chunks of a buffer: they cover it, in order and at the right addresses.
use memflow.Prelude.{
  ℕ, zero, suc, ◌+◌, ◌^◌, ◌≤◌, ◌<◌, ◌≡◌, refl, arith, Option, some, none, List, [], ◌∷◌, ◌++◌, ap,
  ◌∙◌, sym, Bool, false, ◌⊎◌, All,
}
use memflow.Types.Address.{Address, wrapping_add}
use memflow.Iter.Split.{SplitAtIndex}
use memflow.Iter.Cells.{cells?, size?, IsSplit, number, pair_cells}
use memflow.Iter.ChunksLaws.{next_loop-IsStep, step_sizes, tail_pos, step_cells, step_fine}
use memflow.Iter.Chunks.{page_rest, next, collect}

-- The cells of all chunks, in order.
abbrev pub all_cells {ℓ κ} :
    {A : Type ℓ} {C : Type κ} → (A → List C) → List (Address × A) → List (Address × C)
all_cells cells [] = []
all_cells cells (p ∷ ps) = pair_cells cells p ++ all_cells cells ps

module _ {ℓ κ} {A : Type ℓ} {C : Type κ} (s : SplitAtIndex A) (cells : A → List C)
    (laws : IsSplit s cells) (check : Address → A → Option A → Bool) where
  -- A chunk is not empty, and ends with its page unless the predicate asked for more.
  abbrev pub IsFine : ℕ → Address × A → Type ℓ
  IsFine page_size (a, x) =
      (a < 2 ^ 64)
      × (0 < s.size x)
      × ((s.size x ≤ page_rest a page_size + 1)
          ⊎ ((h : A) × (t : Option A) × (check a h t ≡ false)))

  -- What the whole iteration yields for the buffer that is left.
  pub record Covers (o : Option A) (cur page_size : ℕ) (r : Option (List (Address × A)))
      : Type (ℓ ⊔ κ) where
    pub chunks : List (Address × A)
    pub collected : r ≡ some chunks
    pub covered : all_cells cells chunks ≡ number cur (cells? cells o)
    pub fine : All (IsFine page_size) chunks

  pub collect-Covers :
      (rounds fuel : ℕ) (o : Option A) (cur page_size : ℕ)
      → cur < 2 ^ 64
      → 0 < page_size
      → size? s o + page_size ≤ 2 ^ 64
      → size? s o < rounds
      → size? s o ≤ fuel
      → ((x : A) → o ≡ some x → 0 < s.size x)
      → Covers o cur page_size (
          collect ⦃s = s⦄ check rounds fuel
            (record { v = o; cur_address = cur; page_size = page_size; cur_off = 0 }))
  unfolding collect next
  collect-Covers zero fuel o cur page_size hc pos fits enough enough' full = absurd (omega arith)
  collect-Covers (suc rounds) fuel none cur page_size hc pos fits enough enough' full = record {
    chunks = [];
    collected = refl;
    covered = refl;
    fine = tt;
  }
  collect-Covers (suc rounds) fuel (some buf) cur page_size hc pos fits enough enough' full =
      let st =
        next_loop-IsStep s cells laws check fuel buf cur page_size 0 hc pos fits (full buf refl)
          (omega arith) in
      let sizes = step_sizes s cells laws check st in
      let rest =
        collect-Covers rounds fuel st.tail (wrapping_add cur st.cut) page_size
          (unfold wrapping_add in omega arith) pos (omega arith)
          (omega (arith, full buf refl, st.cut_pos)) (omega arith)
          (tail_pos s cells laws check st) in
      rw (st.returns, rest.collected)
        (record {
          chunks = (cur, st.head) ∷ rest.chunks;
          collected = refl;
          covered =
              ap (◌++◌ (number cur (cells st.head))) rest.covered
              ∙ sym (step_cells s cells laws check st);
          fine = (
            (hc, omega (arith, st.cut_pos, full buf refl), step_fine s cells laws check st refl),
            rest.fine,
          );
        })
