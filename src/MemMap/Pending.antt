-- ===== src/MemMap/Pending.antt =====
-- What `MemoryMapIterator` still has to cut, as cells, and what one call of `get_next` owes.
use memflow.Prelude.{
  ℕ, ◌+◌, ◌^◌, ◌≤◌, ◌<◌, ◌≡◌, refl, ap, sym, ◌∙◌, Option, some, none, List, [], ◌∷◌, ◌++◌, All, ◌⊎◌,
}
use mathlib.Core.Logic.{Lift}
use mathlib.Core.List.{append-nil, append_assoc}
use memflow.Types.Address.{Address}
use memflow.Iter.Split.{SplitAtIndex, Addressed}
use memflow.Iter.Cells.{cells?, number, data_cells}
use memflow.MemMap.Map.{MemoryMap}
use memflow.MemMap.Iterator.{MemoryMapIterator, Mapped, call_fail, load}
use memflow.MemMap.Routes.{zip_cells, mapped_by, missed_by, translate}
use memflow.MemMap.FindLaws.{IsAt}

-- Data that is not empty and whose end does not wrap past 0.
abbrev pub Fits {ℓ} : {T : Type ℓ} → SplitAtIndex T → Addressed T → Type 0
Fits st x = (0 < st.size x.buf) × (x.addr + st.size x.buf ≤ 2 ^ 64)

module _ {ℓ κ} {T : Type ℓ} {C : Type κ} (tcells : T → List C) where
  abbrev pub inputs_cells : List (Addressed T) → List (Address × (Address × C))
  inputs_cells [] = []
  inputs_cells (x ∷ xs) = data_cells tcells x ++ inputs_cells xs

  -- The cells that calls of `fail_out` were given, with their addresses.
  abbrev pub fails_cells : List (Address × T) → List (Address × C)
  fails_cells [] = []
  fails_cells ((meta_addr, buf) ∷ calls) = number meta_addr (tcells buf) ++ fails_cells calls

  -- The cells that are still to come.
  abbrev pub pending : MemoryMapIterator T → List (Address × (Address × C))
  pending it = cells? (data_cells tcells) it.cur_elem ++ inputs_cells it.in_iter

  pub fails_cells-call_fail :
      (calls : List (Address × T)) (meta_addr : Address) (o : Option T)
      → fails_cells (call_fail calls meta_addr o)
        ≡ fails_cells calls ++ number meta_addr (cells? tcells o)
  fails_cells-call_fail calls meta_addr none = sym (append-nil (fails_cells calls))
  fails_cells-call_fail [] meta_addr (some buf) = append-nil (number meta_addr (tcells buf))
  fails_cells-call_fail ((a, b) ∷ calls) meta_addr (some buf) =
      ap (λ cs. number a (tcells b) ++ cs) (fails_cells-call_fail calls meta_addr (some buf))
      ∙ sym (append_assoc (number a (tcells b)) (fails_cells calls) (number meta_addr (tcells buf)))

  pub pending-load :
      (inputs : List (Addressed T)) (calls : List (Address × T))
      → pending (load inputs calls) ≡ inputs_cells inputs
  pending-load [] calls = refl
  pending-load (x ∷ xs) calls = refl

  pub fail_out-load :
      (inputs : List (Addressed T)) (calls : List (Address × T))
      → (load inputs calls).fail_out ≡ calls
  fail_out-load [] calls = refl
  fail_out-load (x ∷ xs) calls = refl

-- The sizes of what is still to come.
abbrev pub total {ℓ} : {T : Type ℓ} → SplitAtIndex T → List (Addressed T) → ℕ
total st [] = 0
total st (x ∷ xs) = st.size x.buf + total st xs

abbrev pub cur_size {ℓ} : {T : Type ℓ} → SplitAtIndex T → Option (Addressed T) → ℕ
cur_size st none = 0
cur_size st (some x) = st.size x.buf

module _ {ℓ κ μ} {M T : Type ℓ} {D : Type κ} {C : Type μ} (mcells : M → List D)
    (tcells : T → List C) where
  abbrev pub item_cells : Mapped M T → List (D × (Address × C))
  item_cells item = zip_cells (mcells item.output) (number item.meta_addr (tcells item.buf))

  abbrev pub items_cells : List (Mapped M T) → List (D × (Address × C))
  items_cells [] = []
  items_cells (i ∷ is) = item_cells i ++ items_cells is

module _ {ℓ} {M T : Type ℓ} (sm : SplitAtIndex M) (st : SplitAtIndex T) (ms : MemoryMap M) where
  abbrev pub CurReady : Option (Addressed T) → ℕ → Type ℓ
  CurReady none pos = Lift {0, ℓ} (pos ≡ 0)
  CurReady (some x) pos = Fits st x × IsAt sm x.addr ms pos

  -- The states between two calls of `next`.
  pub record IsReady (it : MemoryMapIterator T) : Type ℓ where
    pub cur : CurReady it.cur_elem it.cur_map_pos
    pub inputs : All (Fits st) it.in_iter

module _ {ℓ κ μ} {M T : Type ℓ} {D : Type κ} {C : Type μ} (sm : SplitAtIndex M)
    (st : SplitAtIndex T) (mcells : M → List D) (tcells : T → List C) (ms : MemoryMap M) where
  -- What a call that starts with the element `x` gives.
  pub record IsRound (x : Addressed T) (inputs : List (Addressed T)) (calls : List (Address × T))
      (r : Option (Option (Mapped M T) × MemoryMapIterator T)) : Type (ℓ ⊔ κ ⊔ μ) where
    pub item : Option (Mapped M T)
    pub it : MemoryMapIterator T
    pub returns : r ≡ some (item, it)
    pub maps :
        cells? (item_cells mcells tcells) item
          ++ mapped_by (translate sm mcells ms) (pending tcells it)
        ≡ mapped_by (translate sm mcells ms) (data_cells tcells x ++ inputs_cells tcells inputs)
    pub misses :
        fails_cells tcells it.fail_out ++ missed_by (translate sm mcells ms) (pending tcells it)
        ≡ fails_cells tcells calls
          ++ missed_by (translate sm mcells ms) (data_cells tcells x ++ inputs_cells tcells inputs)
    pub goes_on :
        ((item ≡ none) × (it.cur_elem ≡ none) × (it.in_iter ≡ inputs))
        ⊎ ((i : Mapped M T) × (item ≡ some i)
            × IsReady sm st ms it
            × (cur_size st it.cur_elem + total st it.in_iter < st.size x.buf + total st inputs))
