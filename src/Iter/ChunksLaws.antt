-- ===== src/Iter/ChunksLaws.antt =====
-- One chunk: the loop of `next` ends, and what it takes off the buffer.
use memflow.Prelude.{
  ℕ, zero, suc, ◌+◌, ◌^◌, ◌≤◌, ◌<◌, ◌≡◌, refl, arith, Option, some, none, List, ◌++◌, length, min,
  ap, ◌≢◌, ◌∙◌, sym, Bool, true, false, not, ◌&&◌, Bool-cases, Option-cases, inl, inr, ◌⊎◌, ne→==,
}
use mathlib.Core.List.{append-nil}
use memflow.Types.Address.{Address, umem_max, add, wrapping_add}
use memflow.Iter.Split.{SplitAtIndex, split_inclusive_at_mut}
use memflow.Iter.Cells.{cells?, size?, IsSplit, number, number_mod, number-append}
use memflow.Iter.SplitLaws.{parts_size}
use memflow.Iter.Chunks.{PageChunks, is_some, page_rest, end_len, loop_round, next_loop}
use memflow.Iter.PageRest.{page_rest-lt}

and_left : (a b : Bool) → (a && b) ≡ true → a ≡ true
and_left a b h = ground arith

refused : (a b : Bool) → (a && not b) ≡ true → b ≡ false
refused a b h = ground arith

true_ne_false : true ≢ false
true_ne_false e = cc

module _ {ℓ κ} {A : Type ℓ} {C : Type κ} (s : SplitAtIndex A) (cells : A → List C)
    (laws : IsSplit s cells) (check : Address → A → Option A → Bool) where
  -- What one chunk takes off a buffer.
  pub record IsStep (buf : A) (cur page_size off : ℕ) (r : Option ((Address × A) × PageChunks A))
      : Type ℓ where
    pub head : A
    pub tail : Option A
    pub cut : ℕ
    pub returns :
        r
        ≡ some (
          (cur, head),
          record {
            v = tail;
            cur_address = wrapping_add cur cut;
            page_size = page_size;
            cur_off = 0;
          },
        )
    pub cut_le : cut ≤ umem_max
    pub cut_pos : 0 < cut
    pub head_part : (s.split_at buf cut).0 ≡ some head
    pub tail_part : (s.split_at buf cut).1 ≡ tail
    pub grown :
        (cut ≡ page_rest cur page_size + off + 1)
        ⊎ ((h : A) × (t : Option A) × (check cur h t ≡ false))

  pub inclusive :
      (buf : A) (e : ℕ)
      → e < umem_max
      → split_inclusive_at_mut ⦃s = s⦄ buf e ≡ s.split_at buf (e + 1)
  unfolding split_inclusive_at_mut
  inclusive buf e h = rw (ne→== e umem_max (omega arith))

  head_ne_none :
      (buf : A) (cut : ℕ)
      → 0 < cut
      → cut ≤ umem_max
      → 0 < s.size buf
      → (s.split_at buf cut).0 ≡ none
      → ⊥
  head_ne_none buf cut p h q e =
      let none_size : size? s (s.split_at buf cut).0 ≡ 0 = ap (size? s) e in
      omega (arith, none_size, laws.left_size buf cut h)

  tail_shorter :
      (buf : A) (cut : ℕ)
      → 0 < cut
      → cut ≤ umem_max
      → is_some (s.split_at buf cut).1 ≡ true
      → cut < s.size buf
  tail_shorter buf cut p h e = elim (Option-cases (s.split_at buf cut).1) [
    | inl gone ↦ absurd (true_ne_false (sym e ∙ ap is_some gone))
    | inr (t, found) ↦
        let rest_size : size? s (s.split_at buf cut).1 ≡ s.size t = ap (size? s) found in
        omega (
          arith,
          rest_size,
          laws.right_pos buf cut t p h found,
          laws.left_size buf cut h,
          parts_size s cells laws buf cut h,
        )
  ]

  widen :
      {buf : A} {cur page_size off off' : ℕ} {r : Option ((Address × A) × PageChunks A)} (h : A)
      (t : Option A)
      → check cur h t ≡ false
      → IsStep buf cur page_size off' r
      → IsStep buf cur page_size off r
  widen h t no_split st = record {
    head = st.head;
    tail = st.tail;
    cut = st.cut;
    returns = st.returns;
    cut_le = st.cut_le;
    cut_pos = st.cut_pos;
    head_part = st.head_part;
    tail_part = st.tail_part;
    grown = inr (h, t, no_split);
  }

  -- The loop ends: each round that does not split takes in more of the buffer.
  pub next_loop-IsStep :
      (fuel : ℕ) (buf : A) (cur page_size off : ℕ)
      → cur < 2 ^ 64
      → 0 < page_size
      → s.size buf + page_size ≤ 2 ^ 64
      → off < s.size buf
      → s.size buf ≤ fuel + off
      → IsStep buf cur page_size off (
          next_loop ⦃s = s⦄ check fuel buf
            (record { v = some buf; cur_address = cur; page_size = page_size; cur_off = off }))
  unfolding next_loop loop_round
  next_loop-IsStep zero buf cur page_size off hc pos fits lt enough = absurd (omega arith)
  next_loop-IsStep (suc fuel) buf cur page_size off hc pos fits lt enough =
      let rest_lt = page_rest-lt cur page_size hc pos (omega arith) in
      let e = page_rest cur page_size + off in
      let c : PageChunks A = record {
        v = some buf;
        cur_address = cur;
        page_size = page_size;
        cur_off = off;
      } in
      let whole : end_len c ≡ e = unfold end_len in omega arith in
      let next_off : add e 1 ≡ e + 1 = omega arith in
      let cut_le : e + 1 ≤ umem_max = omega arith in
      rw (whole, inclusive buf e (omega arith), next_off)
        (elim (Option-cases (s.split_at buf (e + 1)).0) [
          | inl gone ↦ absurd (head_ne_none buf (e + 1) (omega arith) cut_le (omega arith) gone)
          | inr (h, found) ↦
              rw found
                (elim (Bool-cases (
                  is_some (s.split_at buf (e + 1)).1
                  && not (check cur h (s.split_at buf (e + 1)).1))) [
                    | inl more ↦ rw more (
                        widen h (s.split_at buf (e + 1)).1 (refused _ _ more) (
                          next_loop-IsStep fuel buf cur page_size (e + 1) hc pos fits
                            (tail_shorter buf (e + 1) (omega arith) cut_le (and_left _ _ more))
                            (omega arith)))
                    | inr done ↦ rw done (record {
                      head = h;
                      tail = (s.split_at buf (e + 1)).1;
                      cut = e + 1;
                      returns = rw next_off;
                      cut_le = cut_le;
                      cut_pos = omega arith;
                      head_part = found;
                      tail_part = refl;
                      grown = inl refl;
                    })
                  ])
        ])

  parts_numbered :
      (cur cut : ℕ) (head : A) (tail : Option A)
      → (is_some tail ≡ true → s.size head ≡ cut)
      → number cur (cells head ++ cells? cells tail)
        ≡ number cur (cells head) ++ number (wrapping_add cur cut) (cells? cells tail)
  unfolding wrapping_add
  parts_numbered cur cut head none h = rw (append-nil, append-nil)
  parts_numbered cur cut head (some t) h =
      let e : length (cells head) ≡ cut = laws.size_cells head ∙ h refl in
      rw (number_mod, number-append, e)

  module _ {buf : A} {cur page_size off : ℕ} {r : Option ((Address × A) × PageChunks A)}
      (st : IsStep buf cur page_size off r) where
    pub step_sizes :
        (s.size st.head ≡ min st.cut (s.size buf)) × (s.size st.head + size? s st.tail ≡ s.size buf)
    step_sizes =
        let head_size : size? s (s.split_at buf st.cut).0 ≡ s.size st.head =
          ap (size? s) st.head_part in
        let tail_size : size? s (s.split_at buf st.cut).1 ≡ size? s st.tail =
          ap (size? s) st.tail_part in
        omega (
          arith,
          head_size,
          tail_size,
          laws.left_size buf st.cut st.cut_le,
          parts_size s cells laws buf st.cut st.cut_le,
        )

    pub tail_pos : (t : A) → st.tail ≡ some t → 0 < s.size t
    tail_pos t e = laws.right_pos buf st.cut t st.cut_pos st.cut_le (st.tail_part ∙ e)

    cut_of_tail : is_some st.tail ≡ true → s.size st.head ≡ st.cut
    cut_of_tail e =
        let shorter = tail_shorter buf st.cut st.cut_pos st.cut_le (ap is_some st.tail_part ∙ e) in
        omega (arith, step_sizes)

    pub step_cells :
        number cur (cells buf)
        ≡ number cur (cells st.head) ++ number (wrapping_add cur st.cut) (cells? cells st.tail)
    step_cells =
        let whole : cells st.head ++ cells? cells st.tail ≡ cells buf =
          rw (st.head_part, st.tail_part) at (laws.split_cells buf st.cut st.cut_le) in
        ap (number cur) (sym whole) ∙ parts_numbered cur st.cut st.head st.tail cut_of_tail

    pub step_fine :
        off ≡ 0
        → (s.size st.head ≤ page_rest cur page_size + 1)
          ⊎ ((h : A) × (t : Option A) × (check cur h t ≡ false))
    step_fine e = elim st.grown [
      | inl g ↦ inl (omega (arith, step_sizes))
      | inr refusal ↦ inr refusal
    ]
