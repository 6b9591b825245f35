-- ===== src/MemMap/RoundLaws.antt =====
-- The rest of a call of `get_next` with data that begin in a mapping.
use memflow.Prelude.{
  ℕ, ◌+◌, ◌-◌, ◌^◌, ◌≤◌, ◌<◌, ◌≡◌, refl, arith, ap, sym, ◌∙◌, Option, some, List, [], ◌∷◌, ◌++◌,
  length, All, All-imp, All_append, length-append, inr,
}
use mathlib.Core.Option
use mathlib.Core.List.{append_assoc}
use memflow.Types.Address.{Address, umem_max, add, sub}
use memflow.Iter.Split.{SplitAtIndex, Addressed}
use memflow.Iter.Cells.{cells?, size?, IsSplit, number, data_cells}
use memflow.Iter.SplitLaws.{parts_size, data_right-size}
use memflow.MemMap.Map.{MemoryMapping, MemoryMap}
use memflow.MemMap.Iterator.{MemoryMapIterator, keep_rest, take_leftover}
use memflow.MemMap.Routes.{
  zip_cells, mapped_by, missed_by, mapped_by-append, missed_by-append, translate, IsOrdered, Ended,
}
use memflow.MemMap.FindLaws.{IsOrdered-parts}
use memflow.MemMap.FoundLaws.{part_route}
use memflow.MemMap.PartLaws.{some_of_size, IsPart, output-IsPart, shifted, data_parts, right_pos_of}
use memflow.MemMap.Pending.{Fits, inputs_cells, fails_cells, pending, IsReady, IsRound}
use memflow.MemMap.KeepLaws.{keep_pending, keep_fail_out, keep_shift, keep_IsReady, keep_size}

module _ {ℓ κ μ} {M T : Type ℓ} {D : Type κ} {C : Type μ} (sm : SplitAtIndex M)
    (st : SplitAtIndex T) (mcells : M → List D) (tcells : T → List C) (mlaws : IsSplit sm mcells)
    (tlaws : IsSplit st tcells) where
  -- What the call returns, from the parts of the data and of the output.
  taken :
      (i pos off moff : ℕ) (m : MemoryMapping M) (y : Addressed T) (ret : T) (left part : M)
      (inputs : List (Addressed T)) (calls : List (Address × T))
      → sub (add m.base (sm.size m.output)) y.addr ≡ off
      → sub y.addr m.base ≡ moff
      → (st.split_at y.buf off).0 ≡ some ret
      → (sm.split_at m.output moff).1 ≡ some left
      → (sm.split_at left (st.size ret)).0 ≡ some part
      → take_leftover ⦃sm = sm⦄ ⦃st = st⦄ i m y.addr y.meta_addr (some y.buf) inputs calls pos
        ≡ some (
          some (record { output = part; meta_addr = y.meta_addr; buf = ret }),
          keep_rest i y.addr y.meta_addr (st.size ret) (st.split_at y.buf off).1 inputs calls,
        )
  taken i pos off moff m y ret left part inputs calls e0 e1 e2 e3 e4 = rw (e0, e1, e2, e3, e4) refl

  -- The rest of the call with data that begin in the mapping.
  module _ (low : ℕ) (done after : MemoryMap M) (m : MemoryMapping M)
      (up : IsOrdered sm low (done ++ m ∷ after)) (a : Address) (ended : All (Ended sm a) done)
      (open_end : a < m.base + sm.size m.output) (y : Addressed T) (fits_y : Fits st y)
      (le : a ≤ y.addr) (ge : m.base ≤ y.addr) (lt : y.addr < m.base + sm.size m.output)
      (inputs : List (Addressed T)) (fits : All (Fits st) inputs) where
    abbrev off : ℕ
    off = m.base + sm.size m.output - y.addr

    abbrev keep : Option T
    keep = (st.split_at y.buf off).1

    abbrev route : Address → Option D
    route = translate sm mcells (done ++ m ∷ after)

    off_le : off ≤ umem_max
    off_le = let (pos, room, above) = IsOrdered-parts sm low done m after up in omega arith

    module _ (ret : T) (ret_of : (st.split_at y.buf off).0 ≡ some ret) where
      ret_size : size? st (st.split_at y.buf off).0 ≡ st.size ret
      ret_size = ap (size? st) ret_of

      kept : (k : T) → keep ≡ some k → st.size ret ≡ off
      kept k e = sym ret_size ∙ data_right-size st tcells tlaws y off k off_le e

      keep_smaller : 0 < st.size ret → size? st keep < st.size y.buf
      keep_smaller pos = omega (arith, pos, ret_size, parts_size st tcells tlaws y.buf off off_le)

      -- What is cut off and what is kept have the cells of the data.
      cut_cells :
          number y.addr (number y.meta_addr (tcells ret))
            ++ (cells? (data_cells tcells) (Option.map (shifted y (st.size ret)) keep)
                ++ inputs_cells tcells inputs)
          ≡ data_cells tcells y ++ inputs_cells tcells inputs
      cut_cells =
          let front = number y.addr (number y.meta_addr (tcells ret)) in
          let back : ℕ → List (Address × (Address × C)) =
            λ n. cells? (data_cells tcells) (Option.map (shifted y n) keep) in
          let parts : front ++ back off ≡ data_cells tcells y =
            rw ret_of at (data_parts st tcells tlaws y off off_le) in
          let same : back (st.size ret) ≡ back off =
            ap (cells? (data_cells tcells))
              (keep_shift sm st mcells tcells mlaws tlaws (st.size ret) off y keep kept) in
          sym (append_assoc front (back (st.size ret)) (inputs_cells tcells inputs))
          ∙ ap (λ k. (front ++ k) ++ inputs_cells tcells inputs) same
          ∙ ap (λ cs. cs ++ inputs_cells tcells inputs) parts

      module _ (p : IsPart sm mcells mlaws m.output (y.addr - m.base) (length (tcells ret))) where
        abbrev after_cut : (calls : List (Address × T)) → MemoryMapIterator T
        after_cut calls = keep_rest (length done) y.addr y.meta_addr (st.size ret) keep inputs calls

        in_mapping : y.addr + length (tcells ret) ≤ m.base + sm.size m.output
        in_mapping = omega (arith, ret_size, tlaws.size_cells ret, tlaws.left_size y.buf off off_le)

        cut_route :
            (mapped_by route (number y.addr (number y.meta_addr (tcells ret)))
              ≡ zip_cells (mcells p.part) (number y.meta_addr (tcells ret)))
            × (missed_by route (number y.addr (number y.meta_addr (tcells ret))) ≡ [])
        cut_route =
            part_route sm st mcells tcells mlaws tlaws low done after m up a ended open_end
              (tcells ret) y.addr y.meta_addr le ge in_mapping p

        cut_maps :
            (calls : List (Address × T))
            → zip_cells (mcells p.part) (number y.meta_addr (tcells ret))
                ++ mapped_by route (pending tcells (after_cut calls))
              ≡ mapped_by route (data_cells tcells y ++ inputs_cells tcells inputs)
        cut_maps calls =
            let later =
              keep_pending sm st mcells tcells mlaws tlaws (length done) (st.size ret) y keep inputs
                calls in
            ap (λ cs. cs ++ mapped_by route (pending tcells (after_cut calls))) (sym cut_route.0)
            ∙ sym (
                mapped_by-append route (number y.addr (number y.meta_addr (tcells ret)))
                  (pending tcells (after_cut calls)))
            ∙ ap (λ cs. mapped_by route (number y.addr (number y.meta_addr (tcells ret)) ++ cs))
                later
            ∙ ap (mapped_by route) cut_cells

        cut_misses :
            (calls : List (Address × T))
            → fails_cells tcells (after_cut calls).fail_out
                ++ missed_by route (pending tcells (after_cut calls))
              ≡ fails_cells tcells calls
                ++ missed_by route (data_cells tcells y ++ inputs_cells tcells inputs)
        cut_misses calls =
            let later =
              keep_pending sm st mcells tcells mlaws tlaws (length done) (st.size ret) y keep inputs
                calls in
            let front = number y.addr (number y.meta_addr (tcells ret)) in
            let same =
              ap (λ cs. cs ++ missed_by route (pending tcells (after_cut calls))) (sym cut_route.1)
              ∙ sym (missed_by-append route front (pending tcells (after_cut calls)))
              ∙ ap (λ cs. missed_by route (front ++ cs)) later
              ∙ ap (missed_by route) cut_cells in
            ap (λ cs. fails_cells tcells cs ++ missed_by route (pending tcells (after_cut calls)))
              (keep_fail_out sm st mcells tcells mlaws tlaws (length done) (st.size ret) y keep
                inputs calls)
            ∙ ap (λ cs. fails_cells tcells calls ++ cs) same

        keep_ready :
            (k : T)
            → keep ≡ some k
            → (0 < st.size k)
              × (add y.addr (st.size ret) + st.size k ≤ 2 ^ 64)
              × All (Ended sm (add y.addr (st.size ret))) (done ++ m ∷ [])
        keep_ready k e =
            let (mpos, mfits, above) = IsOrdered-parts sm low done m after up in
            let n_off = kept k e in
            let size_k : size? st keep ≡ st.size k = ap (size? st) e in
            let at_end : add y.addr (st.size ret) ≡ m.base + sm.size m.output =
              omega (arith, n_off) in
            let sizes = parts_size st tcells tlaws y.buf off off_le in
            (
              right_pos_of st tcells tlaws y.buf off k fits_y.0 off_le e,
              omega (arith, at_end, n_off, size_k, sizes, ret_size, fits_y.1),
              All_append (Ended sm (add y.addr (st.size ret))) done (m ∷ [])
                  (All-imp (λ d h. omega (arith, h, at_end, open_end)) done ended)
                  (omega (arith, at_end), tt),
            )

        cut_ready :
            (calls : List (Address × T)) → IsReady sm st (done ++ m ∷ after) (after_cut calls)
        cut_ready calls =
            keep_IsReady sm st mcells tcells mlaws tlaws (done ++ m ∷ after) (done ++ m ∷ []) after
              (st.size ret) y keep inputs calls fits (sym (append_assoc done (m ∷ []) after))
              keep_ready (length done) (omega (arith, length-append done (m ∷ [])))

        cut-IsRound :
            (calls : List (Address × T)) (pos : ℕ)
            → 0 < st.size ret
            → IsRound sm st mcells tcells (done ++ m ∷ after) y inputs calls (
                take_leftover ⦃sm = sm⦄ ⦃st = st⦄
                  (length done)
                  m
                  y.addr
                  y.meta_addr
                  (some y.buf)
                  inputs
                  calls
                  pos)
        cut-IsRound calls pos ne =
            let (mpos, mfits, above) = IsOrdered-parts sm low done m after up in
            let len : length (tcells ret) ≡ st.size ret = tlaws.size_cells ret in
            record {
              item = some (record { output = p.part; meta_addr = y.meta_addr; buf = ret });
              it = after_cut calls;
              returns =
                  taken (length done) pos off (y.addr - m.base) m y ret p.left p.part inputs calls
                    (omega arith) (omega arith) ret_of p.left_of
                    (ap (λ n. (sm.split_at p.left n).0) (sym len) ∙ p.part_of);
              maps = cut_maps calls;
              misses = cut_misses calls;
              goes_on = inr (
                record { output = p.part; meta_addr = y.meta_addr; buf = ret },
                refl,
                cut_ready calls,
                keep_size sm st mcells tcells mlaws tlaws (length done) (st.size ret) y keep inputs
                    calls (keep_smaller ne),
              );
            }

    pub leftover-IsRound :
        (calls : List (Address × T)) (pos : ℕ)
        → IsRound sm st mcells tcells (done ++ m ∷ after) y inputs calls (
            take_leftover ⦃sm = sm⦄ ⦃st = st⦄
              (length done)
              m
              y.addr
              y.meta_addr
              (some y.buf)
              inputs
              calls
              pos)
    leftover-IsRound calls pos =
        let (mpos, mfits, above) = IsOrdered-parts sm low done m after up in
        let ret_min = tlaws.left_size y.buf off off_le in
        let (ret, ret_of) =
          some_of_size st (st.split_at y.buf off).0 (omega (arith, ret_min, fits_y.0)) in
        let size : size? st (st.split_at y.buf off).0 ≡ st.size ret = ap (size? st) ret_of in
        let len = tlaws.size_cells ret in
        let p =
          output-IsPart sm mcells mlaws m.output (y.addr - m.base) (length (tcells ret))
            (omega arith) (omega arith) (omega (arith, ret_min, size, len, fits_y.0))
            (omega (arith, ret_min, size, len)) in
        cut-IsRound ret ret_of p calls pos (omega (arith, ret_min, size, fits_y.0))
