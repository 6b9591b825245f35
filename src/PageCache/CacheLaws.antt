-- ===== src/PageCache/CacheLaws.antt =====
-- The cache of physical pages hands out what the memory holds.
use memflow.Prelude.{
  ℕ, zero, suc, ◌/◌, ◌<◌, ◌≡◌, ◌≢◌, refl, arith, ap, sym, ◌∙◌, some, none, ◌==◌, ==_iff, length,
  get_elem?, set, replicate, length-replicate, length-set, get_elem?-set_self, get_elem?-set_ne,
  lt→ltb, Bool-cases, inl, inr,
}
use mathlib.Core.Option.{some-injective}
use mathlib.Core.List.{List}
use native.Mathlib.Nat.{mod-lt}
use memflow.Types.Address.{Address, invalid}
use memflow.Cache.Validator.{CacheValidator, IsValidator}
use memflow.PageCache.Cache.{Bytes, PageCache, assign, page_of, page_index, with_page_size}

pub assigned {ℓ} :
    {A : Type ℓ} (xs : List A) (i : ℕ) (v : A) → i < length xs → assign xs i v ≡ some (set xs i v)
assigned xs i v h = rw (lt→ltb i (length xs) h) refl

module _ {ℓ} {V : Type ℓ} (c : CacheValidator V) {slots : V → ℕ} {IsReady : V → Type ℓ}
    (laws : IsValidator c slots IsReady) where
  -- The tables have one size, that of the validator, and a buffer in the slot of a page is the page.
  pub record IsCoherent (mem : Address → Bytes) (cache : PageCache V) : Type ℓ where
    pub ready : IsReady cache.validator
    pub slots_size : slots cache.validator ≡ length cache.address
    pub refs_size : length cache.page_refs ≡ length cache.address
    pub once_size : length cache.address_once_validated ≡ length cache.address
    pub nonempty : 0 < length cache.address
    pub agrees :
        (i : ℕ) (a : Address) (buf : Bytes)
        → get_elem? cache.address i ≡ some a
        → get_elem? cache.page_refs i ≡ some (some buf)
        → a ≢ invalid
        → buf ≡ mem a

  replicate-elem : {A : Type 0} (n i : ℕ) (v a : A) → get_elem? (replicate n v) i ≡ some a → a ≡ v
  replicate-elem zero i v a e = cc
  replicate-elem (suc n) zero v a e = sym (some-injective v a e)
  replicate-elem (suc n) (suc i) v a e = replicate-elem n i v a e

  -- A new cache with room for a page is coherent with any memory.
  pub with_page_size-IsCoherent :
      (mem : Address → Bytes) (page_size size : ℕ) (mask : ℕ) (v : V)
      → IsReady v
      → 0 < size / page_size
      → IsCoherent mem (with_page_size c page_size size mask v)
  unfolding with_page_size
  with_page_size-IsCoherent mem page_size size mask v ready pos =
      let n = size / page_size in
      record {
        ready = laws.allocate_ready v n ready;
        slots_size = laws.allocated v n ∙ sym (length-replicate n _);
        refs_size = length-replicate n _ ∙ sym (length-replicate n _);
        once_size = refl;
        nonempty = omega (arith, length-replicate n invalid, pos);
        agrees = λ i a buf at held ne. absurd (ne (replicate-elem n i invalid a at));
      }

  module _ {mem : Address → Bytes} (cache : PageCache V) (coherent : IsCoherent mem cache)
      (addr : Address) where
    abbrev idx : ℕ
    idx = page_index cache addr

    abbrev page : Address
    page = page_of cache addr

    pub page_index-lt : page_index cache addr < length cache.address
    unfolding page_index
    page_index-lt = mod-lt (page / cache.page_size) coherent.nonempty

    -- A buffer leaves a slot.
    pub taken-IsCoherent :
        IsCoherent mem (record cache { page_refs = set cache.page_refs idx none })
    taken-IsCoherent = record {
      ready = coherent.ready;
      slots_size = coherent.slots_size;
      refs_size = length-set cache.page_refs idx none ∙ coherent.refs_size;
      once_size = coherent.once_size;
      nonempty = coherent.nonempty;
      agrees = λ i a buf at held ne. elim (Bool-cases (idx == i)) [
        | inl t ↦
            let here : idx ≡ i = (==_iff idx i).0 t in
            let gone : get_elem? (set cache.page_refs idx none) idx ≡ some none =
              get_elem?-set_self cache.page_refs idx none
                (omega (arith, page_index-lt, coherent.refs_size)) in
            let found : get_elem? (set cache.page_refs idx none) idx ≡ some (some buf) =
              ap (get_elem? (set cache.page_refs idx none)) here ∙ held in
            absurd (none_ne_some (sym gone ∙ found))
        | inr f ↦
            let away : idx ≢ i = λ q. let yes = (==_iff idx i).1 q in cc in
            coherent.agrees i a buf at
              (sym (get_elem?-set_ne cache.page_refs {i = idx} {j = i} none away) ∙ held) ne
      ];
    }
      where
        none_ne_some : {b : Bytes} → ¬ (some none ≡ some (some b))
        none_ne_some e = cc
