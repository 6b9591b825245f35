-- ===== src/MemMap/PartLaws.antt =====
-- The parts that `MemoryMapIterator` cuts off outputs and data.
use memflow.Prelude.{
  ℕ, zero, suc, ◌⊎◌, inl, inr, ◌+◌, ◌-◌, ◌≤◌, ◌<◌, ◌≡◌, refl, arith, ap, sym, ◌∙◌, Option, some,
  none, List, ◌++◌, length, get_elem?, get_elem?-append_left, get_elem?-append_right,
}
use mathlib.Core.Option
use memflow.Types.Address.{umem_max, add}
use memflow.Iter.Split.{SplitAtIndex, Addressed, data_split, split_at_data}
use memflow.Iter.Cells.{cells?, size?, IsSplit, number, data_cells}
use memflow.Iter.SplitLaws.{parts_size, size?-length, data_split-IsSplit}

module _ {ℓ} {A : Type ℓ} (s : SplitAtIndex A) where
  pub some_of_size : (o : Option A) → 0 < size? s o → (a : A) × (o ≡ some a)
  some_of_size none h = absurd (omega arith)
  some_of_size (some a) h = (a, refl)

module _ {ℓ κ} {M : Type ℓ} {D : Type κ} (sm : SplitAtIndex M) (mcells : M → List D)
    (mlaws : IsSplit sm mcells) where
  -- `n` units of an output from the index `off` on.
  pub record IsPart (output : M) (off n : ℕ) : Type (ℓ ⊔ κ) where
    pub left : M
    pub part : M
    pub left_of : (sm.split_at output off).1 ≡ some left
    pub part_of : (sm.split_at left n).0 ≡ some part
    pub length_part : length (mcells part) ≡ n
    pub elems : (j : ℕ) → j < n → get_elem? (mcells output) (off + j) ≡ get_elem? (mcells part) j

  part_elems :
      (output left part : M) (off n : ℕ)
      → off ≤ umem_max
      → n ≤ umem_max
      → (sm.split_at output off).1 ≡ some left
      → (sm.split_at left n).0 ≡ some part
      → size? sm (sm.split_at output off).0 ≡ off
      → (j : ℕ) → j < length (mcells part)
      → get_elem? (mcells output) (off + j) ≡ get_elem? (mcells part) j
  part_elems output left part off n ho hn left_of part_of size j lt =
      let front = cells? mcells (sm.split_at output off).0 in
      let back = cells? mcells (sm.split_at left n).1 in
      let whole : front ++ mcells left ≡ mcells output =
        rw left_of at (mlaws.split_cells output off ho) in
      let inner : mcells part ++ back ≡ mcells left = rw part_of at (mlaws.split_cells left n hn) in
      ap (λ cs. get_elem? cs (off + j)) (sym whole)
      ∙ get_elem?-append_right front (mcells left) j (off + j)
          (omega (arith, size?-length sm mcells mlaws (sm.split_at output off).0, size))
      ∙ ap (λ cs. get_elem? cs j) (sym inner)
      ∙ get_elem?-append_left (mcells part) back j lt

  pub output-IsPart :
      (output : M) (off n : ℕ)
      → sm.size output ≤ umem_max
      → off < sm.size output
      → 0 < n
      → n ≤ sm.size output - off
      → IsPart output off n
  output-IsPart output off n fits lt pos le =
      let front_size = mlaws.left_size output off (omega arith) in
      let sizes = parts_size sm mcells mlaws output off (omega arith) in
      let (left, left_of) =
        some_of_size sm (sm.split_at output off).1 (omega (arith, front_size, sizes)) in
      let left_size : size? sm (sm.split_at output off).1 ≡ sm.size left = ap (size? sm) left_of in
      let part_size = mlaws.left_size left n (omega arith) in
      let (part, part_of) =
        some_of_size sm (sm.split_at left n).0
          (omega (arith, front_size, sizes, left_size, part_size)) in
      let whole_size : size? sm (sm.split_at left n).0 ≡ sm.size part = ap (size? sm) part_of in
      let len : length (mcells part) ≡ n =
        omega (arith, mlaws.size_cells part, front_size, sizes, left_size, part_size, whole_size) in
      record {
        left = left;
        part = part;
        left_of = left_of;
        part_of = part_of;
        length_part = len;
        elems = λ j h.
            part_elems output left part off n (omega arith) (omega arith) left_of part_of
              (omega (arith, front_size)) j (omega (arith, len));
      }

-- Data from an index on.
abbrev pub shifted {ℓ} : {T : Type ℓ} → Addressed T → ℕ → T → Addressed T
shifted x i y = record { addr = add x.addr i; meta_addr = add x.meta_addr i; buf = y }

zero_or_pos : (n : ℕ) → (n ≡ 0) ⊎ (0 < n)
zero_or_pos zero = inl refl
zero_or_pos (suc n) = inr (omega arith)

module _ {ℓ κ} {T : Type ℓ} {C : Type κ} (st : SplitAtIndex T) (tcells : T → List C)
    (tlaws : IsSplit st tcells) where
  left_cells :
      (x : Addressed T) (o : Option T)
      → cells?
          (data_cells tcells)
          (Option.map (λ y. record { addr = x.addr; meta_addr = x.meta_addr; buf = y }) o)
        ≡ number x.addr (number x.meta_addr (cells? tcells o))
  left_cells x none = refl
  left_cells x (some y) = refl

  -- The cells of data are those of the left part, and those of the right part at the later addresses.
  pub data_parts :
      (x : Addressed T) (i : ℕ)
      → i ≤ umem_max
      → number x.addr (number x.meta_addr (cells? tcells (st.split_at x.buf i).0))
          ++ cells? (data_cells tcells) (Option.map (shifted x i) (st.split_at x.buf i).1)
        ≡ data_cells tcells x
  unfolding split_at_data
  data_parts x i h =
      ap (λ cs. cs ++ cells? (data_cells tcells) (Option.map (shifted x i) (st.split_at x.buf i).1))
        (sym (left_cells x (st.split_at x.buf i).0))
      ∙ (data_split-IsSplit st tcells tlaws).split_cells x i h

  pub right_pos_of :
      (buf : T) (i : ℕ) (r : T)
      → 0 < st.size buf
      → i ≤ umem_max
      → (st.split_at buf i).1 ≡ some r
      → 0 < st.size r
  right_pos_of buf i r pos h e =
      let left = tlaws.left_size buf i h in
      let sizes = parts_size st tcells tlaws buf i h in
      let size : size? st (st.split_at buf i).1 ≡ st.size r = ap (size? st) e in
      elim (zero_or_pos i) [
        | inl z ↦ omega (arith, z, left, sizes, size)
        | inr p ↦ tlaws.right_pos buf i r p h e
      ]
