-- ===== src/Iter/PagesLaws.antt =====
-- What `page_chunks` and `page_chunks_by` yield.
use memflow.Prelude.{
  ℕ, suc, ◌+◌, ◌*◌, ◌%◌, ◌/◌, ◌^◌, ◌≤◌, ◌<◌, ◌≡◌, refl, arith, Option, some, List, [], ap, ◌∙◌, sym,
  Bool, true, false, inl, inr, ne→==, All, All-imp, eq_nil_of_length,
}
use native.Mathlib.Decide.{dec_lt}
use native.Mathlib.Nat.{mod-lt, add-mod_right, div-add-mod, mul-le-mul_left}
use memflow.Types.Address.{Address, add, wrapping_add}
use memflow.Iter.Split.{SplitAtIndex}
use memflow.Iter.Cells.{size?, IsSplit, number}
use memflow.Iter.Chunks.{page_rest, end_len, new, loop_round, next_loop, next, collect, always}
use memflow.Iter.PageRest.{page_rest-lt, page_rest_end, page_rest_inside}
use memflow.Iter.ChunksLaws.{inclusive}
use memflow.Iter.CoverLaws.{all_cells, IsFine, Covers, collect-Covers}

-- The last page of the address space ends it.
last_page :
    (a size : ℕ)
    → a < 2 ^ 64
    → 0 < size
    → 2 ^ 64 % size ≡ 0
    → 2 ^ 64 ≤ a + size
    → 2 ^ 64 + a % size ≤ a + size
last_page a size ha pos dvd past =
    let q = 2 ^ 64 / size in
    let d = a / size in
    let space : size * q ≡ 2 ^ 64 = omega (arith, div-add-mod (2 ^ 64) size) in
    let page : size * d + a % size ≡ a = div-add-mod a size in
    elim (dec_lt (d + 1) q) [
      | yes p ↦ absurd (omega (arith, mul-le-mul_left size p, mod-lt a pos))
      | no p ↦ omega (arith, mul-le-mul_left {m = q} {n = d + 1} size (omega arith))
    ]

-- A chunk that ends with the page of its address does not leave that page.
page_of :
    (a size n : ℕ)
    → a < 2 ^ 64
    → 0 < size
    → size ≤ 2 ^ 64
    → 2 ^ 64 % size ≡ 0
    → n ≤ page_rest a size + 1
    → a % size + n ≤ size
page_of a size n ha pos le dvd h = elim (dec_lt (a + size) (2 ^ 64)) [
  | yes p ↦ omega (arith, page_rest_inside a size pos p, add-mod_right a size)
  | no p ↦
      omega
        (arith, page_rest_end a size ha le (omega arith), last_page a size ha pos dvd (omega arith))
]

module _ {ℓ κ} {A : Type ℓ} {C : Type κ} (s : SplitAtIndex A) (cells : A → List C)
    (laws : IsSplit s cells) where
  new-Covers :
      (check : Address → A → Option A → Bool) (buf : A) (start page_size : ℕ)
      → start < 2 ^ 64
      → 0 < page_size
      → s.size buf + page_size ≤ 2 ^ 64
      → Covers s cells laws check
          (some buf)
          start
          page_size
          (collect ⦃s = s⦄ check (s.size buf + 1) (s.size buf) (new ⦃s = s⦄ buf start page_size))
  unfolding new collect next
  new-Covers check buf start page_size hs pos fits = elim (dec_lt 0 (s.size buf)) [
    | yes p ↦ rw (ne→== (s.size buf) 0 (omega arith)) (
        collect-Covers s cells laws check (s.size buf + 1) (s.size buf) (some buf) start page_size
          hs pos fits (omega arith) (omega arith) (λ x e. omega (arith, p, ap (size? s) e)))
    | no p ↦
        let z : s.size buf ≡ 0 = omega arith in
        rw z (record {
          chunks = [];
          collected = refl;
          covered =
              sym (ap (number start) (eq_nil_of_length (cells buf) (laws.size_cells buf ∙ z)));
          fine = tt;
        })
  ]

  -- `page_chunks_by`, for any split predicate, a start address below 2 ^ 64 and a page size above 0,
  -- where the buffer and one page take at most 2 ^ 64 units together: the iteration ends, and its
  -- chunks are the cells of the buffer, each once, in order, at its address from the start on.
  pub page_chunks_by_cover :
      (check : Address → A → Option A → Bool) (buf : A) (start page_size : ℕ)
      → start < 2 ^ 64
      → 0 < page_size
      → s.size buf + page_size ≤ 2 ^ 64
      → (chunks : List (Address × A)) × (collect ⦃s = s⦄ check
            (s.size buf + 1)
            (s.size buf)
            (new ⦃s = s⦄ buf start page_size)
          ≡ some chunks)
        × (all_cells cells chunks ≡ number start (cells buf))
  page_chunks_by_cover check buf start page_size hs pos fits =
      let all = new-Covers check buf start page_size hs pos fits in
      (all.chunks, all.collected, all.covered)

  -- `page_chunks`, for a start address below 2 ^ 64 and a page size that divides 2 ^ 64, where the
  -- buffer and one page take at most 2 ^ 64 units together: the iteration ends, its chunks are the
  -- cells of the buffer in order at their addresses, none is empty, and none crosses the end of a page.
  pub page_chunks_cover :
      (buf : A) (start page_size : ℕ)
      → start < 2 ^ 64
      → 0 < page_size
      → 2 ^ 64 % page_size ≡ 0
      → s.size buf + page_size ≤ 2 ^ 64
      → (chunks : List (Address × A)) × (collect ⦃s = s⦄ always
            (s.size buf + 1)
            (s.size buf)
            (new ⦃s = s⦄ buf start page_size)
          ≡ some chunks)
        × (all_cells cells chunks ≡ number start (cells buf))
        × All (λ p. (0 < s.size p.1) × (p.0 % page_size + s.size p.1 ≤ page_size)) chunks
  page_chunks_cover buf start page_size hs pos dvd fits =
      let all = new-Covers always buf start page_size hs pos fits in
      (all.chunks, all.collected, all.covered, All-imp in_page all.chunks all.fine)
    where
      in_page :
          (p : Address × A)
          → IsFine s cells laws always page_size p
          → (0 < s.size p.1) × (p.0 % page_size + s.size p.1 ≤ page_size)
      in_page p (bound, full, inl short) =
          (full, page_of p.0 page_size (s.size p.1) bound pos (omega arith) dvd short)
      in_page p (bound, full, inr (h, t, refusal)) = absurd (cc)

  -- For a start address below 2 ^ 64 and a page size above 0 and below 2 ^ 63: where the predicate
  -- refuses to split off the rest of the first page and accepts the next split, the chunk is twice that
  -- rest, since the second round adds the rest of the first page again and not a whole page.
  pub next_loop_twice :
      (check : Address → A → Option A → Bool) (fuel : ℕ) (buf : A) (cur page_size : ℕ)
      (first second rest rest' : A)
      → cur < 2 ^ 64
      → 0 < page_size
      → page_size < 2 ^ 63
      → s.split_at buf (page_rest cur page_size + 1) ≡ (some first, some rest)
      → check cur first (some rest) ≡ false
      → s.split_at buf (2 * (page_rest cur page_size + 1)) ≡ (some second, some rest')
      → check cur second (some rest') ≡ true
      → next_loop ⦃s = s⦄ check
          (suc (suc fuel))
          buf
          (record { v = some buf; cur_address = cur; page_size = page_size; cur_off = 0 })
        ≡ some (
          (cur, second),
          record {
            v = some rest';
            cur_address = wrapping_add cur (2 * (page_rest cur page_size + 1));
            page_size = page_size;
            cur_off = 0;
          },
        )
  unfolding next_loop loop_round end_len
  next_loop_twice check fuel buf cur page_size first second rest rest' hc pos small e1 no_split e2
        split =
      let r = page_rest cur page_size in
      let r_lt = page_rest-lt cur page_size hc pos (omega arith) in
      let e : wrapping_add r 0 ≡ r = unfold wrapping_add in omega arith in
      let off : add r 1 ≡ r + 1 = omega arith in
      let e' : wrapping_add r (r + 1) ≡ r + (r + 1) = unfold wrapping_add in omega arith in
      let cut' : r + (r + 1) + 1 ≡ 2 * (r + 1) = omega arith in
      let off' : add (r + (r + 1)) 1 ≡ 2 * (r + 1) = omega arith in
      let part = inclusive s cells laws check buf r (omega arith) ∙ e1 in
      let part' =
        inclusive s cells laws check buf (r + (r + 1)) (omega arith)
        ∙ ap (s.split_at buf) cut'
        ∙ e2 in
      rw (e, off, e', part, part', no_split, split, off')
