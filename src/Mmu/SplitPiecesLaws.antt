-- ===== src/Mmu/SplitPiecesLaws.antt =====
-- One round of `split_chunk` parts the pieces of a chunk by address.
use memflow.Prelude.{
  ℕ, ◌+◌, ◌-◌, ◌^◌, ◌≤◌, ◌<◌, ◌≡◌, refl, arith, ap, sym, ◌∙◌, Option, some, none, List, [], ◌∷◌,
  ◌++◌, Bool, true, false, not, length, leb, lt→ltb, le→leb, All, All-imp, filter, filter-append,
  filter_all, filter_none,
}
use mathlib.Core.Option
use mathlib.Core.List.{append-nil}
use memflow.Types.Address.{Address, umem_max}
use memflow.Iter.Split.{SplitAtIndex, Addressed}
use memflow.Iter.Cells.{cells?, IsSplit, data_cells}
use memflow.Mmu.TranslateData.{TranslationChunk, push_data, pop_data, split_at_address}
use memflow.Mmu.RangeLaws.{split_at_address-cells, split_at_address-cut}
use memflow.Mmu.FilterLaws.{all_pieces}
use memflow.Mmu.SplitChunk.{Round, take_right, keep_left, split_pieces}

module _ {ℓ κ} {A : Type ℓ} {C : Type κ} (s : SplitAtIndex A) (cells : A → List C)
    (laws : IsSplit s cells) where
  abbrev dc : Addressed A → List (Address × (Address × C))
  dc = data_cells cells

  abbrev Cell : Type κ
  Cell = Address × (Address × C)

  -- The cells of pieces that pass a test, pushed piece by piece.
  pub pushed : (Cell → Bool) → List (Addressed A) → List Cell → List Cell
  pushed test [] acc = acc
  pushed test (p ∷ ps) acc = pushed test ps (filter test (dc p) ++ acc)

  abbrev pub above : Address → Cell → Bool
  above addr c = leb addr c.0

  abbrev pub below : Address → Cell → Bool
  below addr c = not (leb addr c.0)

  parted :
      (x : Addressed A) (t : ℕ)
      → t ≤ umem_max
      → x.addr + s.size x.buf ≤ 2 ^ 64
      → (filter (above t) (dc x) ≡ cells? dc (split_at_address ⦃s = s⦄ x t).1)
        × (filter (below t) (dc x) ≡ cells? dc (split_at_address ⦃s = s⦄ x t).0)
  parted x t h le =
      let l = cells? dc (split_at_address ⦃s = s⦄ x t).0 in
      let r = cells? dc (split_at_address ⦃s = s⦄ x t).1 in
      let whole = split_at_address-cells s cells laws x t h in
      let (lows, highs) = split_at_address-cut s cells laws x t h le in
      let low_no = All-imp {Q = λ c. above t c ≡ false} (λ c e. ground arith) l lows in
      let high_yes = All-imp {Q = λ c. above t c ≡ true} (λ c e. le→leb t c.0 e) r highs in
      let low_yes = All-imp {Q = λ c. below t c ≡ true} (λ c e. ap not e) l low_no in
      let high_no = All-imp {Q = λ c. below t c ≡ false} (λ c e. ap not e) r high_yes in
      (
        ap (filter (above t)) (sym whole)
            ∙ filter-append (above t) l r
            ∙ rw (filter_none (above t) l low_no, filter_all (above t) r high_yes) refl,
        ap (filter (below t)) (sym whole)
            ∙ filter-append (below t) l r
            ∙ rw (filter_all (below t) l low_yes, filter_none (below t) r high_no) (append-nil l),
      )

  take_right-cells :
      (o : Option (Addressed A)) (r : Round A)
      → (all_pieces s cells laws (take_right ⦃s = s⦄ o r).addrs_out
          ≡ cells? dc o ++ all_pieces s cells laws r.addrs_out)
        × ((take_right ⦃s = s⦄ o r).tmp_stack ≡ r.tmp_stack)
        × ((take_right ⦃s = s⦄ o r).addr_stack ≡ r.addr_stack)
        × ((take_right ⦃s = s⦄ o r).old ≡ r.old)
  unfolding take_right push_data
  take_right-cells none r = (refl, refl, refl, refl)
  take_right-cells (some x) r = (refl, refl, refl, refl)

  keep_left-cells :
      (o : Option (Addressed A)) (r : Round A)
      → (all_pieces s cells laws (keep_left ⦃s = s⦄ o r).tmp_stack
          ≡ cells? dc o ++ all_pieces s cells laws r.tmp_stack)
        × ((keep_left ⦃s = s⦄ o r).addrs_out ≡ r.addrs_out)
        × ((keep_left ⦃s = s⦄ o r).addr_stack ≡ r.addr_stack)
        × (r.old.addr_count ≤ (keep_left ⦃s = s⦄ o r).old.addr_count)
  unfolding keep_left push_data
  keep_left-cells none r = (refl, refl, refl, omega arith)
  keep_left-cells (some x) r = (refl, refl, refl, omega arith)

  abbrev popped_once : TranslationChunk → TranslationChunk
  popped_once old = record old { addr_count = old.addr_count - 1 }

  pop_step :
      (old : TranslationChunk) (p : Addressed A) (stack : List (Addressed A))
      → 0 < old.addr_count
      → pop_data old (p ∷ stack) ≡ (popped_once old, (some p, stack))
  unfolding pop_data
  pop_step old p stack h = rw (lt→ltb 0 old.addr_count h) refl

  -- The rest of a round after one pop.
  abbrev after_pop :
      Address
      → ℕ
      → Round A
      → TranslationChunk × (Option (Addressed A) × List (Addressed A))
      → Option (Round A)
  after_pop addr left r (old, popped) = Option.bind popped.0 (λ piece.
      let parts = split_at_address ⦃s = s⦄ piece addr in
      split_pieces ⦃s = s⦄ addr left (
        keep_left ⦃s = s⦄ parts.0
          (take_right ⦃s = s⦄ parts.1 (record r { old = old; addr_stack = popped.1 }))))

  abbrev Fits : Addressed A → Type 0
  Fits x = x.addr + s.size x.buf ≤ 2 ^ 64

  -- A round over the top pieces of the stack, none of which wraps and which the chunk counts, takes
  -- just those off it: the cells from the address on go to the new chunk's stack, piece by piece,
  -- and the cells below it to the stack of what is left.
  pub split_pieces-pushed :
      (addr : Address) (ps rest : List (Addressed A)) (r : Round A)
      → addr ≤ umem_max
      → All (λ x. x.addr + s.size x.buf ≤ 2 ^ 64) ps
      → r.addr_stack ≡ ps ++ rest
      → length ps ≤ r.old.addr_count
      → (r2 : Round A) × (split_pieces ⦃s = s⦄ addr (length ps) r ≡ some r2)
        × (r2.addr_stack ≡ rest)
        × (all_pieces s cells laws r2.addrs_out
            ≡ pushed (above addr) ps (all_pieces s cells laws r.addrs_out))
        × (all_pieces s cells laws r2.tmp_stack
            ≡ pushed (below addr) ps (all_pieces s cells laws r.tmp_stack))
  unfolding split_pieces pushed Option.bind
  split_pieces-pushed addr [] rest r h fits e count = (r, refl, e, refl, refl)
  split_pieces-pushed addr (p ∷ ps) rest r h (fit, fits) e count =
      let popped = ap (pop_data r.old) e ∙ pop_step r.old p (ps ++ rest) (omega arith) in
      let start : Round A = record r { old = popped_once r.old; addr_stack = ps ++ rest } in
      let (l, u) = split_at_address ⦃s = s⦄ p addr in
      let taken = take_right ⦃s = s⦄ u start in
      let next = keep_left ⦃s = s⦄ l taken in
      let (up, tmp, stack, old) = take_right-cells u start in
      let (down, outs, stack2, grown) = keep_left-cells l taken in
      let (highs, lows) = parted p addr h fit in
      let enough : length ps ≤ next.old.addr_count =
        omega (arith, grown, ap (λ c. c.addr_count) old, count) in
      let (r2, ran, left, out_cells, tmp_cells) =
        split_pieces-pushed addr ps rest next h fits (stack2 ∙ stack) enough in
      (
        r2,
        ap (after_pop addr (length ps) r) popped ∙ ran,
        left,
        out_cells
            ∙ ap (pushed (above addr) ps) (
                ap (all_pieces s cells laws) outs
                ∙ up
                ∙ ap (λ c. c ++ all_pieces s cells laws r.addrs_out) (sym highs)),
        tmp_cells
            ∙ ap (pushed (below addr) ps) (
                down
                ∙ ap (λ c. cells? dc l ++ all_pieces s cells laws c) tmp
                ∙ ap (λ c. c ++ all_pieces s cells laws r.tmp_stack) (sym lows)),
      )
