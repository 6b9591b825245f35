-- ===== src/Types/PhysAddrLaws.antt =====
-- Physical addresses: what page size is remembered.
use memflow.Prelude.{ℕ, ◌+◌, ◌-◌, ◌^◌, ◌≤◌, ◌<◌, ◌≡◌, refl, arith, true, ◌==◌, ==_iff, ap, ◌∙◌}
use memflow.Prelude.Bits.{all_below, all_below_sound, all_from}
use memflow.Types.Address.{Address, as_mem_aligned}
use memflow.Types.Page.{PageType}
use memflow.Types.PhysAddr.{PhysicalAddress, with_page, page_size, has_page, page_base, bit_length}

log2_table : all_below 64 (λ k. (bit_length 64 (2 ^ k) == k + 1)) ≡ true
unfolding all_from bit_length
log2_table = refl

bit_length-pow : (k : ℕ) → k < 64 → bit_length 64 (2 ^ k) ≡ k + 1
bit_length-pow k h =
    (==_iff _ _).0 (all_below_sound 64 (λ j. bit_length 64 (2 ^ j) == j + 1) k log2_table h)

-- The page size read back for a remembered logarithm.
abbrev size_at : ℕ → ℕ
size_at k = page_size (record { address = 0; page_type = 0; page_size_log2 = k })

size_table : all_below 30 (λ k. size_at k == 2 ^ (k + 1)) ≡ true
unfolding all_from page_size
size_table = refl

page_size-log2 :
    (p : PhysicalAddress) → p.page_size_log2 < 30 → page_size p ≡ 2 ^ (p.page_size_log2 + 1)
unfolding page_size
page_size-log2 p h =
    (==_iff _ _).0
      (all_below_sound 30 (λ k. size_at k == 2 ^ (k + 1)) p.page_size_log2 size_table h)

log2-with_page :
    (a : Address) (t : PageType) (k : ℕ)
    → 1 ≤ k
    → k < 64
    → (with_page a t (2 ^ k)).page_size_log2 ≡ k - 1
unfolding with_page
log2-with_page a t k h lt = omega (arith, bit_length-pow k lt)

-- A page size that is a power of two from 4 bytes to 1 GiB is read back exactly; the page is
-- remembered as present, and its base is the address rounded down to a multiple of the size.
pub page_size-with_page :
    (a : Address) (t : PageType) (k : ℕ)
    → 2 ≤ k
    → k ≤ 30
    → (page_size (with_page a t (2 ^ k)) ≡ 2 ^ k)
      × (has_page (with_page a t (2 ^ k)) ≡ true)
      × (page_base (with_page a t (2 ^ k)) ≡ as_mem_aligned a (2 ^ k))
unfolding page_base
page_size-with_page a t k lo hi =
    let p = with_page a t (2 ^ k) in
    let log2 : p.page_size_log2 ≡ k - 1 = log2-with_page a t k (omega arith) (omega arith) in
    let size : page_size p ≡ 2 ^ k =
      page_size-log2 p (omega arith) ∙ ap (λ (n : ℕ). 2 ^ n) (omega arith) in
    let present : has_page p ≡ true = unfold has_page in rw log2 (ground arith) in
    (size, present, rw (present, size) (unfold with_page in refl))

-- At 2 GiB the `i32` of the shift turns negative: the size that is read back is not the one given.
page_size-with_page_two_gib :
    (a : Address) (t : PageType) → page_size (with_page a t (2 ^ 31)) ≡ 2 ^ 64 - 2 ^ 31
unfolding page_size
page_size-with_page_two_gib a t = rw (log2-with_page a t 31 (omega arith) (omega arith))

-- Rebuilding the page of another address from the page size that is read back keeps the remembered
-- logarithm, for pages of at most 1 GiB.
with_page-page_size :
    (p : PhysicalAddress) (a : Address)
    → p.page_size_log2 < 30
    → (with_page a p.page_type (page_size p)).page_size_log2 ≡ p.page_size_log2
with_page-page_size p a h =
    rw (page_size-log2 p h) (
      log2-with_page a p.page_type (p.page_size_log2 + 1) (omega arith) (omega arith) ∙ omega arith)
