-- ===== src/PageCache/LostSlot.antt =====
-- A slot of the page cache of memflow/src/mem/phys_mem/middleware/cache/page_cache.rs that has no
-- buffer and waits for no page, and the operations on the cache.
use memflow.Prelude.{
  ℕ, ◌*◌, ◌/◌, ◌%◌, ◌<◌, ◌≡◌, ◌≢◌, refl, arith, ap, ◌∙◌, Option, some, none, List, ◌==◌, ==_iff,
  ltb, length, get_elem?, set, get_elem?-set_self, get_elem?-set_ne, length-set, Bool-cases, inl,
  inr,
}
use memflow.Prelude.Holds.{Holds, Holds-some, Holds-if}
use memflow.Types.Address.{Address, invalid, as_mem_aligned}
use memflow.Types.AddressLaws.{as_mem_aligned_twice, as_mem_aligned_even}
use memflow.PageCache.Cache.{Bytes, PageCache, assign, page_of, page_index}

-- A write to another place, or of what is there, keeps an element.
get_elem?-assign :
    {A : Type 0} (xs : List A) (i j : ℕ) (v a : A)
    → get_elem? xs i ≡ some a
    → i < length xs
    → (j ≡ i → v ≡ a)
    → get_elem? (set xs j v) i ≡ some a
get_elem?-assign xs i j v a e lt same = elim (Bool-cases (j == i)) [
  | inl t ↦
      let here : j ≡ i = (==_iff j i).0 t in
      ap (λ k. get_elem? (set xs k v) i) here ∙ get_elem?-set_self xs i v lt ∙ ap some (same here)
  | inr f ↦
      let away : j ≢ i = λ q. let t = (==_iff j i).1 q in cc in
      get_elem?-set_ne xs {i = j} {j = i} v away ∙ e
]

-- The write changes nothing but an element.
pub Holds-assign :
    {A : Type 0} (xs : List A) (j : ℕ) (v : A) → Holds (λ ys. ys ≡ set xs j v) (assign xs j v)
Holds-assign xs j v =
    Holds-if (λ ys. ys ≡ set xs j v) (ltb j (length xs)) (some (set xs j v)) none
      (λ t. Holds-some (λ ys. ys ≡ set xs j v) (set xs j v) refl) (λ f ys e. cc)

module _ (half count : ℕ) where
  -- The slot of an address in a cache of `count` pages of an even size.
  abbrev pub slot_of : Address → ℕ
  slot_of a = as_mem_aligned a (2 * half) / (2 * half) % count

  pub slot_of-aligned : (a : Address) → slot_of (as_mem_aligned a (2 * half)) ≡ slot_of a
  slot_of-aligned a = ap (λ p. p / (2 * half) % count) (as_mem_aligned_twice a (2 * half))

  pub never_invalid : (a : Address) → as_mem_aligned a (2 * half) ≢ invalid
  never_invalid a e = let even = as_mem_aligned_even a half in absurd (omega (arith, even, e))

-- The addresses of the other slots.
abbrev pub Away : ℕ → ℕ → ℕ → Address → Type 0
Away half count idx a = slot_of half count a ≢ idx

module _ {ℓ} {V : Type ℓ} (half count idx : ℕ) where
  -- The slot `idx` of such a cache is lost.
  pub record IsLost (cache : PageCache V) : Type ℓ where
    pub page_size : cache.page_size ≡ 2 * half
    pub size : length cache.address ≡ count
    pub in_range : idx < count
    pub in_refs : idx < length cache.page_refs
    pub in_once : idx < length cache.address_once_validated
    pub held : get_elem? cache.page_refs idx ≡ some none
    pub once : get_elem? cache.address_once_validated idx ≡ some invalid

  pub index :
      (cache : PageCache V)
      → IsLost cache
      → (a : Address) → page_index cache a ≡ slot_of half count a
  unfolding page_index
  index cache l a =
      ap (λ p. as_mem_aligned a p / p % length cache.address) l.page_size
      ∙ ap (λ n. slot_of half n a) l.size

  pub page :
      (cache : PageCache V)
      → IsLost cache
      → (a : Address) → page_of cache a ≡ as_mem_aligned a (2 * half)
  page cache l a = ap (as_mem_aligned a) l.page_size

  pub with_refs :
      (cache : PageCache V) (j : ℕ) (v : Option Bytes)
      → IsLost cache
      → (j ≡ idx → v ≡ none)
      → IsLost (record cache { page_refs = set cache.page_refs j v })
  with_refs cache j v l same = record {
    page_size = l.page_size;
    size = l.size;
    in_range = l.in_range;
    in_refs = omega (arith, l.in_refs, length-set cache.page_refs j v);
    in_once = l.in_once;
    held = get_elem?-assign cache.page_refs idx j v none l.held l.in_refs same;
    once = l.once;
  }

  pub with_once :
      (cache : PageCache V) (j : ℕ) (v : Address)
      → IsLost cache
      → (j ≡ idx → v ≡ invalid)
      → IsLost (record cache { address_once_validated = set cache.address_once_validated j v })
  with_once cache j v l same = record {
    page_size = l.page_size;
    size = l.size;
    in_range = l.in_range;
    in_refs = l.in_refs;
    in_once = omega (arith, l.in_once, length-set cache.address_once_validated j v);
    held = l.held;
    once = get_elem?-assign cache.address_once_validated idx j v invalid l.once l.in_once same;
  }

  pub with_page :
      (cache : PageCache V) (j : ℕ) (a : Address) (v : V)
      → IsLost cache
      → IsLost (record cache { address = set cache.address j a; validator = v })
  with_page cache j a v l = record {
    page_size = l.page_size;
    size = length-set cache.address j a ∙ l.size;
    in_range = l.in_range;
    in_refs = l.in_refs;
    in_once = l.in_once;
    held = l.held;
    once = l.once;
  }
