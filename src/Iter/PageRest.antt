-- ===== src/Iter/PageRest.antt =====
-- How far the end of a page is.
use memflow.Prelude.{ℕ, ◌+◌, ◌%◌, ◌^◌, ◌≤◌, ◌<◌, ◌≡◌, arith}
use native.Mathlib.Nat.{mod-lt, mod-eq_of_lt}
use native.Mathlib.Decide.{dec_lt}
use memflow.Iter.Chunks.{page_rest}

-- Where the page ends the address space the rest reaches to its last address, else to the next
-- multiple of the page size.
pub page_rest_end :
    (cur size : ℕ)
    → cur < 2 ^ 64
    → size ≤ 2 ^ 64
    → 2 ^ 64 ≤ cur + size
    → page_rest cur size + cur + 1 ≡ 2 ^ 64
unfolding page_rest
page_rest_end cur size hc le past =
    let whole : (cur + size) % 2 ^ 64 % size ≡ (cur + size) % 2 ^ 64 = mod-eq_of_lt (omega arith) in
    omega arith

pub page_rest_inside :
    (cur size : ℕ)
    → 0 < size
    → cur + size < 2 ^ 64
    → page_rest cur size + cur + 1 + (cur + size) % size ≡ cur + size
unfolding page_rest
page_rest_inside cur size pos inside =
    let same : (cur + size) % 2 ^ 64 ≡ cur + size = omega arith in
    rw same (omega (arith, mod-lt (cur + size) pos))

-- The rest of the page is shorter than a page, also where the page ends the address space.
pub page_rest-lt :
    (cur size : ℕ) → cur < 2 ^ 64 → 0 < size → size ≤ 2 ^ 64 → page_rest cur size < size
page_rest-lt cur size hc pos le = elim (dec_lt (cur + size) (2 ^ 64)) [
  | yes p ↦ omega (arith, page_rest_inside cur size pos p)
  | no p ↦ omega (arith, page_rest_end cur size hc le (omega arith))
]
