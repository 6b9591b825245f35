-- ===== src/MemMap/KeepLaws.antt =====
-- What `MemoryMapIterator` keeps after a part is cut off.
use memflow.Prelude.{
  ℕ, ◌+◌, ◌^◌, ◌≤◌, ◌<◌, ◌≡◌, refl, arith, ap, Option, some, none, List, [], ◌∷◌, ◌++◌, length, All,
}
use mathlib.Core.Option
use memflow.Types.Address.{Address, add}
use memflow.Iter.Split.{SplitAtIndex, Addressed}
use memflow.Iter.Cells.{cells?, size?, IsSplit, data_cells}
use memflow.MemMap.Map.{MemoryMap}
use memflow.MemMap.Iterator.{load, keep_rest}
use memflow.MemMap.Routes.{Ended}
use memflow.MemMap.PartLaws.{shifted}
use memflow.MemMap.Pending.{
  Fits, inputs_cells, pending, pending-load, fail_out-load, total, cur_size, IsReady,
}

module _ {ℓ κ μ} {M T : Type ℓ} {D : Type κ} {C : Type μ} (sm : SplitAtIndex M)
    (st : SplitAtIndex T) (mcells : M → List D) (tcells : T → List C) (mlaws : IsSplit sm mcells)
    (tlaws : IsSplit st tcells) where
  pub keep_pending :
      (i n : ℕ) (y : Addressed T) (o : Option T) (inputs : List (Addressed T))
      (calls : List (Address × T))
      → pending tcells (keep_rest i y.addr y.meta_addr n o inputs calls)
        ≡ cells? (data_cells tcells) (Option.map (shifted y n) o) ++ inputs_cells tcells inputs
  keep_pending i n y none inputs calls = pending-load tcells inputs calls
  keep_pending i n y (some k) inputs calls = refl

  pub keep_fail_out :
      (i n : ℕ) (y : Addressed T) (o : Option T) (inputs : List (Addressed T))
      (calls : List (Address × T))
      → (keep_rest i y.addr y.meta_addr n o inputs calls).fail_out ≡ calls
  keep_fail_out i n y none inputs calls = fail_out-load tcells inputs calls
  keep_fail_out i n y (some k) inputs calls = refl

  pub keep_shift :
      (n off : ℕ) (y : Addressed T) (o : Option T)
      → ((k : T) → o ≡ some k → n ≡ off)
      → Option.map (shifted y n) o ≡ Option.map (shifted y off) o
  keep_shift n off y none h = refl
  keep_shift n off y (some k) h = ap (λ j. Option.map (shifted y j) (some k)) (h k refl)

  pub size-load :
      (inputs : List (Addressed T)) (calls : List (Address × T))
      → cur_size st (load inputs calls).cur_elem + total st (load inputs calls).in_iter
        ≡ total st inputs
  size-load [] calls = refl
  size-load (x ∷ xs) calls = refl

  pub load-IsReady :
      (ms : MemoryMap M) (inputs : List (Addressed T)) (calls : List (Address × T))
      → All (Fits st) inputs
      → IsReady sm st ms (load inputs calls)
  load-IsReady ms [] calls h = record { cur = record { lower = refl }; inputs = tt }
  load-IsReady ms (x ∷ xs) calls (h, hs) = record {
    cur = (h, record { done = []; rest = ms; whole = refl; at = refl; ended = tt });
    inputs = hs;
  }

  pub keep_IsReady :
      (ms done rest : MemoryMap M) (n : ℕ) (y : Addressed T) (o : Option T)
      (inputs : List (Addressed T)) (calls : List (Address × T))
      → All (Fits st) inputs
      → ms ≡ done ++ rest
      → ((k : T)
          → o ≡ some k
          → (0 < st.size k)
            × (add y.addr n + st.size k ≤ 2 ^ 64)
            × All (Ended sm (add y.addr n)) done)
      → (i : ℕ) → length done ≡ i + 1
      → IsReady sm st ms (keep_rest i y.addr y.meta_addr n o inputs calls)
  keep_IsReady ms done rest n y none inputs calls fits whole h i e =
      load-IsReady ms inputs calls fits
  keep_IsReady ms done rest n y (some k) inputs calls fits whole h i e =
      let (pos, room, ended) = h k refl in
      record {
        cur = (
          (pos, room),
          record { done = done; rest = rest; whole = whole; at = e; ended = ended },
        );
        inputs = fits;
      }

  pub keep_size :
      (i n : ℕ) (y : Addressed T) (o : Option T) (inputs : List (Addressed T))
      (calls : List (Address × T))
      → size? st o < st.size y.buf
      → cur_size st (keep_rest i y.addr y.meta_addr n o inputs calls).cur_elem
          + total st (keep_rest i y.addr y.meta_addr n o inputs calls).in_iter
        < st.size y.buf + total st inputs
  keep_size i n y none inputs calls h = omega (arith, size-load inputs calls)
  keep_size i n y (some k) inputs calls h = omega arith
