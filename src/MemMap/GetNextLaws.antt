-- ===== src/MemMap/GetNextLaws.antt =====
-- `get_next` of `MemoryMapIterator` takes one element and gives its cells what the map says of them.
use memflow.Prelude.{
  ℕ, ◌+◌, ◌-◌, ◌^◌, ◌≤◌, ◌<◌, ◌≡◌, refl, arith, ap, sym, ◌∙◌, Option, some, none, List, [], ◌∷◌,
  ◌++◌, length, All, inl, inr, Option-cases,
}
use mathlib.Core.Option
use mathlib.Core.List.{append-nil, append_assoc}
use native.Mathlib.Nat.{mod-eq_of_lt}
use memflow.Types.Address.{Address, umem_max}
use memflow.Iter.Split.{SplitAtIndex, Addressed}
use memflow.Iter.Cells.{cells?, size?, IsSplit, number, length-number, data_cells}
use memflow.Iter.SplitLaws.{parts_size, size?-length, data_right-size}
use memflow.MemMap.Map.{MemoryMapping, MemoryMap}
use memflow.MemMap.Iterator.{call_fail, take_leftover, at_mapping}
use memflow.MemMap.Routes.{
  mapped_by, missed_by, mapped_by-append, missed_by-append, numbered_missed, translate,
  translate-Ended, IsOrdered, Ended,
}
use memflow.MemMap.FindLaws.{IsOrdered-parts}
use memflow.MemMap.FoundLaws.{left_route}
use memflow.MemMap.PartLaws.{shifted, data_parts, right_pos_of}
use memflow.MemMap.Pending.{Fits, inputs_cells, fails_cells, fails_cells-call_fail, IsRound}
use memflow.MemMap.RoundLaws.{leftover-IsRound}

module _ {ℓ κ μ} {M T : Type ℓ} {D : Type κ} {C : Type μ} (sm : SplitAtIndex M)
    (st : SplitAtIndex T) (mcells : M → List D) (tcells : T → List C) (mlaws : IsSplit sm mcells)
    (tlaws : IsSplit st tcells) where
  mapped_first :
      (route : Address → Option D) (front rest : List (Address × (Address × C)))
      → mapped_by route front ≡ []
      → mapped_by route rest ≡ mapped_by route (front ++ rest)
  mapped_first route front rest e =
      ap (λ cs. cs ++ mapped_by route rest) (sym e) ∙ sym (mapped_by-append route front rest)

  missed_first :
      (route : Address → Option D) (front rest : List (Address × (Address × C)))
      (calls : List (Address × T)) (meta_addr : Address) (o : Option T)
      → missed_by route front ≡ number meta_addr (cells? tcells o)
      → fails_cells tcells (call_fail calls meta_addr o) ++ missed_by route rest
        ≡ fails_cells tcells calls ++ missed_by route (front ++ rest)
  missed_first route front rest calls meta_addr o e =
      ap (λ cs. cs ++ missed_by route rest) (fails_cells-call_fail tcells calls meta_addr o)
      ∙ append_assoc (fails_cells tcells calls) (number meta_addr (cells? tcells o))
          (missed_by route rest)
      ∙ ap (λ cs. fails_cells tcells calls ++ (cs ++ missed_by route rest)) (sym e)
      ∙ ap (λ cs. fails_cells tcells calls ++ cs) (sym (missed_by-append route front rest))

  -- No mapping ends after the data begin.
  pub at_none-IsRound :
      (ms : MemoryMap M) (x : Addressed T) (inputs : List (Addressed T))
      (calls : List (Address × T)) (pos : ℕ)
      → Fits st x
      → All (Ended sm x.addr) ms
      → IsRound sm st mcells tcells ms x inputs calls
          (at_mapping ⦃sm = sm⦄ ⦃st = st⦄ none x inputs calls pos)
  unfolding at_mapping
  at_none-IsRound ms x inputs calls pos fits ended =
      let route = translate sm mcells ms in
      let gone : (b : Address) → x.addr ≤ b → route b ≡ none = λ b le.
        ap (λ l. translate sm mcells l b) (sym (append-nil ms))
        ∙ translate-Ended sm mcells ms [] x.addr b le ended in
      let len = length-number x.meta_addr (tcells x.buf) in
      let (none_mapped, all_missed) =
        numbered_missed route x.addr (number x.meta_addr (tcells x.buf)) (λ j h.
          ap route (
            mod-eq_of_lt {n = x.addr + j} {m = 2 ^ 64}
              (omega (arith, len, tlaws.size_cells x.buf, fits)))
          ∙ gone (x.addr + j) (omega arith)) in
      record {
        item = none;
        it = record {
          in_iter = inputs;
          fail_out = call_fail calls x.meta_addr (some x.buf);
          cur_elem = none;
          cur_map_pos = pos;
        };
        returns = refl;
        maps = mapped_first route (data_cells tcells x) (inputs_cells tcells inputs) none_mapped;
        misses =
            missed_first route (data_cells tcells x) (inputs_cells tcells inputs) calls x.meta_addr
              (some x.buf) all_missed;
        goes_on = inl (refl, refl, refl);
      }

  -- The mapping `m` is the first that ends after the data begin.
  module _ (low : ℕ) (done after : MemoryMap M) (m : MemoryMapping M)
      (up : IsOrdered sm low (done ++ m ∷ after)) (x : Addressed T) (fits_x : Fits st x)
      (ended : All (Ended sm x.addr) done) (open_end : x.addr < m.base + sm.size m.output)
      (inputs : List (Addressed T)) (fits : All (Fits st) inputs) (calls : List (Address × T))
      (pos : ℕ) where
    abbrev offset : ℕ
    offset = m.base - x.addr

    abbrev left : Option T
    left = (st.split_at x.buf offset).0

    abbrev right : Option T
    right = (st.split_at x.buf offset).1

    abbrev front : List (Address × (Address × C))
    front = number x.addr (number x.meta_addr (cells? tcells left))

    abbrev route : Address → Option D
    route = translate sm mcells (done ++ m ∷ after)

    abbrev calls' : List (Address × T)
    calls' = call_fail calls x.meta_addr left

    offset_le : offset ≤ umem_max
    offset_le = let (mpos, mfits, above) = IsOrdered-parts sm low done m after up in omega arith

    front_gone :
        (mapped_by route front ≡ [])
        × (missed_by route front ≡ number x.meta_addr (cells? tcells left))
    front_gone =
        let len = size?-length st tcells tlaws left in
        left_route sm st mcells tcells mlaws tlaws low done after m up x.addr ended open_end
          (cells? tcells left) x.addr x.meta_addr (omega arith)
          (omega (arith, len, tlaws.left_size x.buf offset offset_le))

    front_cells :
        (rest : List (Address × (Address × C)))
        → cells? (data_cells tcells) (Option.map (shifted x offset) right) ≡ rest
        → front ++ (rest ++ inputs_cells tcells inputs)
          ≡ data_cells tcells x ++ inputs_cells tcells inputs
    front_cells rest e =
        sym (append_assoc front rest (inputs_cells tcells inputs))
        ∙ ap (λ cs. (front ++ cs) ++ inputs_cells tcells inputs) (sym e)
        ∙ ap (λ cs. cs ++ inputs_cells tcells inputs)
            (data_parts st tcells tlaws x offset offset_le)

    rejected-IsRound :
        right ≡ none
        → IsRound sm st mcells tcells
            (done ++ m ∷ after)
            x
            inputs
            calls
            (at_mapping ⦃sm = sm⦄ ⦃st = st⦄ (some (length done, m)) x inputs calls pos)
    unfolding at_mapping
    rejected-IsRound gone =
        let whole =
          front_cells []
            (ap (λ o. cells? (data_cells tcells) (Option.map (shifted x offset) o)) gone) in
        record {
          item = none;
          it = record { in_iter = inputs; fail_out = calls'; cur_elem = none; cur_map_pos = pos };
          returns = rw gone refl;
          maps =
              mapped_first route front (inputs_cells tcells inputs) front_gone.0
              ∙ ap (mapped_by route) whole;
          misses =
              missed_first route front (inputs_cells tcells inputs) calls x.meta_addr left
                front_gone.1
              ∙ ap (λ cs. fails_cells tcells calls ++ missed_by route cs) whole;
          goes_on = inl (refl, refl, refl);
        }

    module _ (r : T) (right_of : right ≡ some r) where
      abbrev y : Addressed T
      y = shifted x offset r

      r_size : (st.size r ≤ st.size x.buf) × (offset + st.size r ≤ st.size x.buf)
      r_size =
          let size : size? st right ≡ st.size r = ap (size? st) right_of in
          let sizes = parts_size st tcells tlaws x.buf offset offset_le in
          let cut = data_right-size st tcells tlaws x offset r offset_le right_of in
          (omega (arith, size, sizes), omega (arith, size, sizes, cut))

      y-Fits : (x.addr + offset ≡ y.addr) × Fits st y
      y-Fits =
          let ne = right_pos_of st tcells tlaws x.buf offset r fits_x.0 offset_le right_of in
          (omega (arith, r_size, ne, fits_x), (ne, omega (arith, r_size, ne, fits_x)))

      y-IsRound : IsRound sm st mcells tcells (done ++ m ∷ after) y inputs calls' (
          take_leftover ⦃sm = sm⦄ ⦃st = st⦄
            (length done)
            m
            y.addr
            y.meta_addr
            (some y.buf)
            inputs
            calls'
            pos)
      y-IsRound =
          let (mpos, mfits, above) = IsOrdered-parts sm low done m after up in
          let (at, fits_y) = y-Fits in
          leftover-IsRound sm st mcells tcells mlaws tlaws low done after m up x.addr ended open_end
            y fits_y (omega (arith, at)) (omega (arith, at)) (omega (arith, at, open_end)) inputs
            fits calls' pos

      accepted-IsRound :
          IsRound sm st mcells tcells
            (done ++ m ∷ after)
            x
            inputs
            calls
            (at_mapping ⦃sm = sm⦄ ⦃st = st⦄ (some (length done, m)) x inputs calls pos)
      unfolding at_mapping
      accepted-IsRound =
          let whole =
            front_cells (data_cells tcells y)
              (ap (λ o. cells? (data_cells tcells) (Option.map (shifted x offset) o)) right_of) in
          let rest = data_cells tcells y ++ inputs_cells tcells inputs in
          let smaller = r_size.0 in
          record {
            item = y-IsRound.item;
            it = y-IsRound.it;
            returns = rw right_of y-IsRound.returns;
            maps =
                y-IsRound.maps
                ∙ mapped_first route front rest front_gone.0
                ∙ ap (mapped_by route) whole;
            misses =
                y-IsRound.misses
                ∙ missed_first route front rest calls x.meta_addr left front_gone.1
                ∙ ap (λ cs. fails_cells tcells calls ++ missed_by route cs) whole;
            goes_on = elim y-IsRound.goes_on [
              | inl done_with ↦ inl done_with
              | inr (i, e, ready, lt) ↦ inr (i, e, ready, omega (arith, lt, smaller))
            ];
          }

    pub at_mapping-IsRound :
        IsRound sm st mcells tcells
          (done ++ m ∷ after)
          x
          inputs
          calls
          (at_mapping ⦃sm = sm⦄ ⦃st = st⦄ (some (length done, m)) x inputs calls pos)
    at_mapping-IsRound = elim (Option-cases right) [
      | inl gone ↦ rejected-IsRound gone
      | inr (r, right_of) ↦ accepted-IsRound r right_of
    ]
