-- ===== src/PageCache/LostOps.antt =====
-- The operations of the page cache of memflow/src/mem/phys_mem/middleware/cache/page_cache.rs leave a
-- slot without a buffer as it is.
use memflow.Prelude.{
  ℕ, ◌*◌, ◌≡◌, ◌≢◌, refl, ap, sym, ◌∙◌, Option, some, none, List, Bool, ◌==◌, ne→==, get_elem?, set,
}
use memflow.Prelude.Holds.{Holds, Holds-some, Holds-if, Holds-bind, Holds-map_of}
use mathlib.Core.Option.{some-injective}
use mathlib.Core.Path.{subst⁻¹}
use memflow.Types.Address.{Address, invalid, as_mem_aligned}
use memflow.Types.Page.{PageType}
use memflow.Cache.Validator.{CacheValidator}
use memflow.PageCache.Cache.{
  Bytes, PageValidity, is_invalid, CacheEntry, PageCache, contains, assign, page_of, page_index,
  judge_slot, take_page, cached_page_mut, put_page, mark_page_for_validation, invalidate_page_raw,
  invalidate_page, cancel_page_validation, validate_page,
}
use memflow.PageCache.LostSlot.{
  IsLost, Away, slot_of, never_invalid, index, page, with_refs, with_once, with_page, Holds-assign,
}

module _ {ℓ} {V : Type ℓ} (c : CacheValidator V) (half count idx : ℕ) where
  abbrev Lost : PageCache V → Type ℓ
  Lost = IsLost half count idx

  judge_slot-none :
      (v : V) (i : ℕ) (skip : Bool) (at once page : Address) (ref : Option Bytes)
      → ref ≡ none
      → once ≡ invalid
      → page ≢ invalid
      → judge_slot c v i skip at once page ref ≡ some is_invalid
  judge_slot-none v i skip at once page ref gone free ne =
      rw (gone, free, ne→== invalid page (λ q. ne (sym q))) refl

  -- What a lookup gives: nothing, if the slot of the address is the lost one.
  pub record IsTaken (a : Address) (r : CacheEntry × PageCache V) : Type ℓ where
    pub lost : Lost r.1
    pub address : r.0.address ≡ as_mem_aligned a (2 * half)
    pub gone : slot_of half count a ≡ idx → r.0.validity ≡ is_invalid

  module _ (cache : PageCache V) (l : Lost cache) where
    Verdict : Address → PageValidity × PageCache V → Type ℓ
    Verdict a r = Lost r.1 × (slot_of half count a ≡ idx → r.0 ≡ is_invalid)

    Holds-take_page : (a : Address) (skip : Bool) → Holds (Verdict a) (take_page c cache a skip)
    unfolding take_page Verdict
    Holds-take_page a skip =
        let i = page_index cache a in
        let here : slot_of half count a ≡ idx → i ≡ idx = λ q. index half count idx cache l a ∙ q in
        Holds-bind (λ (ref : Option Bytes). slot_of half count a ≡ idx → ref ≡ none) (Verdict a)
          (get_elem? cache.page_refs i) _
          (λ ref e q. some-injective _ _ (sym e ∙ ap (get_elem? cache.page_refs) (here q) ∙ l.held))
          (λ ref gone.
            Holds-bind (λ (at : Address). Unit {0}) (Verdict a) (get_elem? cache.address i) _
              (λ at e. tt)
              (λ at t.
                Holds-bind (λ (once : Address). slot_of half count a ≡ idx → once ≡ invalid)
                  (Verdict a) (get_elem? cache.address_once_validated i) _
                  (λ once e q.
                    some-injective _ _
                      (sym e ∙ ap (get_elem? cache.address_once_validated) (here q) ∙ l.once))
                  (λ once free.
                    Holds-map_of (λ (v : PageValidity). slot_of half count a ≡ idx → v ≡ is_invalid)
                      (Verdict a)
                      (λ v. (v, record cache { page_refs = set cache.page_refs i none }))
                      (judge_slot c cache.validator i skip at once (page_of cache a) ref)
                      (λ v e q. some-injective _ _ (
                        sym e
                        ∙ judge_slot-none cache.validator i skip at once (page_of cache a) ref
                            (gone q) (free q)
                            (λ p.
                              never_invalid half count a
                                (sym (page half count idx cache l a) ∙ p))))
                      (λ v p. (with_refs half count idx cache i none l (λ q. refl), p)))))

    pub Holds-cached_page_mut :
        (a : Address) (skip : Bool) → Holds (IsTaken a) (cached_page_mut c cache a skip)
    unfolding cached_page_mut Verdict
    Holds-cached_page_mut a skip =
        Holds-map_of (Verdict a) (IsTaken a)
          (λ r. (record { address = page_of cache a; validity = r.0 }, r.1))
          (take_page c cache a skip) (Holds-take_page a skip)
          (λ r h. record { lost = h.0; address = page half count idx cache l a; gone = h.1 })

    pub Holds-put_page :
        (a : Address) (buf : Bytes) → Away half count idx a → Holds Lost (put_page c cache a buf)
    unfolding put_page
    Holds-put_page a buf away =
        let i = page_index cache a in
        Holds-map_of (λ (ys : List (Option Bytes)). ys ≡ set cache.page_refs i (some buf)) Lost
          (λ refs. record cache { page_refs = refs }) (assign cache.page_refs i (some buf))
          (Holds-assign cache.page_refs i (some buf))
          (λ ys e.
            subst⁻¹ (λ zs. Lost (record cache { page_refs = zs })) e
              (with_refs half count idx cache i (some buf) l
                (λ q. absurd (away (sym (index half count idx cache l a) ∙ q)))))

    pub Holds-mark_page_for_validation :
        (a : Address) → Away half count idx a → Holds Lost (mark_page_for_validation c cache a)
    unfolding mark_page_for_validation
    Holds-mark_page_for_validation a away =
        let i = page_index cache a in
        let v = page_of cache a in
        Holds-map_of (λ (ys : List Address). ys ≡ set cache.address_once_validated i v) Lost
          (λ once. record cache { address_once_validated = once })
          (assign cache.address_once_validated i v) (Holds-assign cache.address_once_validated i v)
          (λ ys e.
            subst⁻¹ (λ zs. Lost (record cache { address_once_validated = zs })) e
              (with_once half count idx cache i v l
                (λ q. absurd (away (sym (index half count idx cache l a) ∙ q)))))

    -- The stores of `validate_page` and `invalidate_page_raw`.
    stored :
        (i : ℕ) (a : Address) (v : V) (address once : List Address)
        → address ≡ set cache.address i a
        → once ≡ set cache.address_once_validated i invalid
        → Lost (record cache { address = address; address_once_validated = once; validator = v })
    stored i a v address once ea eo =
        subst⁻¹
          (λ xs. Lost (record cache { address = xs; address_once_validated = once; validator = v }))
          ea
          (subst⁻¹
            (λ ys. Lost (record cache {
              address = set cache.address i a;
              address_once_validated = ys;
              validator = v;
            }))
            eo
            (with_page half count idx
              (record cache { address_once_validated = set cache.address_once_validated i invalid })
              i a v (with_once half count idx cache i invalid l (λ q. refl))))

    pub Holds-invalidate_page_raw : (a : Address) → Holds Lost (invalidate_page_raw c cache a)
    unfolding invalidate_page_raw
    Holds-invalidate_page_raw a =
        let i = page_index cache a in
        Holds-bind (λ (v : V). Unit {0}) Lost (c.invalidate_slot cache.validator i) _ (λ v e. tt)
          (λ v t.
            Holds-bind (λ (xs : List Address). xs ≡ set cache.address i invalid) Lost
              (assign cache.address i invalid) _ (Holds-assign cache.address i invalid)
              (λ xs ex.
                Holds-map_of
                  (λ (ys : List Address). ys ≡ set cache.address_once_validated i invalid) Lost
                  (λ once. record cache {
                    address = xs;
                    address_once_validated = once;
                    validator = v;
                  })
                  (assign cache.address_once_validated i invalid)
                  (Holds-assign cache.address_once_validated i invalid)
                  (λ ys ey. stored i invalid v xs ys ex ey)))

  module _ (cache : PageCache V) (l : IsLost half count idx cache) where
    pub Holds-validate_page :
        (a : Address) (buf : Bytes)
        → Away half count idx a
        → Holds Lost (validate_page c cache a buf)
    unfolding validate_page
    Holds-validate_page a buf away =
        let i = page_index cache a in
        Holds-bind (λ (xs : List Address). xs ≡ set cache.address i a) Lost
          (assign cache.address i a) _ (Holds-assign cache.address i a)
          (λ xs ex.
            Holds-bind (λ (ys : List Address). ys ≡ set cache.address_once_validated i invalid) Lost
              (assign cache.address_once_validated i invalid) _
              (Holds-assign cache.address_once_validated i invalid)
              (λ ys ey.
                Holds-bind (λ (v : V). Unit {0}) Lost (c.validate_slot cache.validator i) _
                  (λ v e. tt)
                  (λ v t.
                    Holds-put_page
                      (record cache { address = xs; address_once_validated = ys; validator = v })
                      (stored cache l i a v xs ys ex ey) a buf away)))

    pub Holds-cancel_page_validation :
        (a : Address) (buf : Bytes)
        → Away half count idx a
        → Holds Lost (cancel_page_validation c cache a buf)
    unfolding cancel_page_validation
    Holds-cancel_page_validation a buf away =
        Holds-bind (λ (once : Address). Unit {0}) Lost
          (get_elem? cache.address_once_validated (page_index cache a)) _ (λ once e. tt)
          (λ once t.
            Holds-if Lost (once == a) _ _
              (λ q.
                Holds-bind Lost Lost (invalidate_page_raw c cache a) _
                  (Holds-invalidate_page_raw cache l a)
                  (λ next n. Holds-put_page next n a buf away))
              (λ q. Holds-some Lost cache l))

    pub Holds-invalidate_page :
        (a : Address) (page_type : PageType) → Holds Lost (invalidate_page c cache a page_type)
    unfolding invalidate_page
    Holds-invalidate_page a page_type =
        Holds-if Lost (contains cache.page_type_mask page_type) _ _
          (λ q. Holds-invalidate_page_raw cache l a) (λ q. Holds-some Lost cache l)
