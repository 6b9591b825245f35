-- ===== src/PageCache/LostLaws.antt =====
-- What a failed read of a page leaves in `PageCache` of
-- memflow/src/mem/phys_mem/middleware/cache/page_cache.rs.
use memflow.Prelude.{
  ℕ, ◌/◌, ◌%◌, ◌<◌, ◌≡◌, ◌≢◌, refl, arith, ap, sym, ◌∙◌, some, none, [], ◌∷◌, ◌++◌, Bool, false,
  ne→==, length, get_elem?, set, get_elem?-set_self, get_elem?-some, length-set, ◌*◌,
}
use mathlib.Core.Option
use memflow.Types.Address.{Address, invalid, as_mem_aligned}
use memflow.Cache.Validator.{CacheValidator, IsValidator}
use memflow.PageCache.Cache.{
  Bytes, is_invalid, validatable, PageCache, page_of, page_index, take_page, cached_page_mut,
  cancel_page_validation,
}
use memflow.PageCache.Read.{Request, Reading, serve_waiting}
use memflow.PageCache.LostSlot.{IsLost, slot_of, never_invalid, index, page}
use memflow.PageCache.Uses.{Later, Later-IsLost}
use memflow.PageCache.CacheLaws.{IsCoherent, page_index-lt}
use memflow.PageCache.StoreLaws.{cancelled}

module _ {ℓ} {V : Type ℓ} (c : CacheValidator V) where
  -- A lookup in a slot without a page, whose buffer is there.
  take_free :
      (next : PageCache V) (addr : Address) (idx : ℕ) (buf : Bytes)
      → page_index next addr ≡ idx
      → page_of next addr ≢ invalid
      → get_elem? next.address idx ≡ some invalid
      → get_elem? next.address_once_validated idx ≡ some invalid
      → get_elem? next.page_refs idx ≡ some (some buf)
      → cached_page_mut c next addr false
        ≡ some (
          record { address = page_of next addr; validity = validatable buf },
          record next { page_refs = set next.page_refs idx none },
        )
  unfolding cached_page_mut take_page Option.bind
  take_free next addr idx buf here ne at once held =
      rw (here, held, at, once, ne→== invalid (page_of next addr) (λ q. ne (sym q))) refl

  -- A lookup in a slot without a page and without a buffer.
  take_lost :
      (next : PageCache V) (addr : Address) (idx : ℕ) (skip : Bool) (at : Address)
      → page_index next addr ≡ idx
      → page_of next addr ≢ invalid
      → get_elem? next.address idx ≡ some at
      → get_elem? next.address_once_validated idx ≡ some invalid
      → get_elem? next.page_refs idx ≡ some none
      → Option.map (λ r. r.0.validity) (cached_page_mut c next addr skip) ≡ some is_invalid
  unfolding cached_page_mut take_page Option.bind
  take_lost next addr idx skip at here ne a once held =
      rw (here, held, a, once, ne→== invalid (page_of next addr) (λ q. ne (sym q))) refl

  same_index :
      (cache next : PageCache V) (a : Address)
      → length next.address ≡ length cache.address
      → next.page_size ≡ cache.page_size
      → page_index next a ≡ page_index cache a
  unfolding page_index
  same_index cache next a size page_size =
      ap (λ p. as_mem_aligned a p / p % length next.address) page_size
      ∙ ap (λ n. as_mem_aligned a cache.page_size / cache.page_size % n) size

  index_of :
      (cache : PageCache V) (a b : Address)
      → page_of cache a ≡ page_of cache b
      → page_index cache a ≡ page_index cache b
  unfolding page_index
  index_of cache a b e = ap (λ p. p / cache.page_size % length cache.address) e

  slot_index :
      (cache : PageCache V) (half : ℕ) (a : Address)
      → cache.page_size ≡ 2 * half
      → page_index cache a ≡ slot_of half (length cache.address) a
  unfolding page_index
  slot_index cache half a even = ap (λ p. as_mem_aligned a p / p % length cache.address) even

  -- A slot without a page loses its buffer.
  lost_after :
      (next : PageCache V) (half count idx : ℕ)
      → next.page_size ≡ 2 * half
      → length next.address ≡ count
      → idx < count
      → idx < length next.page_refs
      → idx < length next.address_once_validated
      → get_elem? next.address_once_validated idx ≡ some invalid
      → IsLost half count idx (record next { page_refs = set next.page_refs idx none })
  lost_after next half count idx even size lt in_refs in_once once = record {
    page_size = even;
    size = size;
    in_range = lt;
    in_refs = omega (arith, in_refs, length-set next.page_refs idx none);
    in_once = in_once;
    held = get_elem?-set_self next.page_refs idx none in_refs;
    once = once;
  }

  -- A lookup in a lost slot.
  lookup_lost :
      (later : PageCache V) (half count idx : ℕ) (other : Address) (skip : Bool)
      → IsLost half count idx later
      → slot_of half count other ≡ idx
      → Option.map (λ e. e.0.validity) (cached_page_mut c later other skip) ≡ some is_invalid
  lookup_lost later half count idx other skip l same =
      let (at, a) = get_elem?-some later.address idx (omega (arith, l.in_range, l.size)) in
      take_lost later other idx skip at (index half count idx later l other ∙ same)
        (λ e. never_invalid half count other (sym (page half count idx later l other) ∙ e)) a l.once
        l.held

  module _ {slots : V → ℕ} {IsReady : V → Type ℓ} (laws : IsValidator c slots IsReady)
      {mem : Address → Bytes} (cache : PageCache V) (coherent : IsCoherent c laws mem cache) where
    abbrev count : ℕ
    count = length cache.address

    -- With a lawful validator, a coherent cache and an even page size: where the read of a marked page
    -- has failed and is cancelled, the request that waited for it fails, and its lookup takes the buffer
    -- out of the slot for good. After any number of reads, whose memory answers only what it is asked,
    -- of writes, invalidations and changes of the validator, none of which panics, a lookup of any page
    -- of that slot finds it invalid.
    pub serve_waiting-cancel_page_validation :
        (half : ℕ) (addr : Address) (buf : Bytes) (r : Reading V) (q : Request)
        → cache.page_size ≡ 2 * half
        → page_of cache q.addr.address ≡ addr
        → page_of cache addr ≡ addr
        → get_elem? cache.address_once_validated (page_index cache addr) ≡ some addr
        → (next : PageCache V) × (cancel_page_validation c cache addr buf ≡ some next)
          × (after : PageCache V) × (serve_waiting c (record r { cache = next }) q
              ≡ some
                  (record r { cache = after; out_fail = r.out_fail ++ (q.meta_addr, q.len) ∷ [] }))
          × ((later : PageCache V)
              → Later c after later
              → (other : Address) (skip : Bool) → page_index cache other ≡ page_index cache addr
              → Option.map (λ e. e.0.validity) (cached_page_mut c later other skip)
                ≡ some is_invalid)
    unfolding serve_waiting Option.bind
    serve_waiting-cancel_page_validation half addr buf r q even inside aligned marked =
        let n = cancelled c laws cache coherent addr buf marked in
        let idx = page_index cache addr in
        let lt = page_index-lt c laws cache coherent addr in
        let ne : addr ≢ invalid =
          λ e. never_invalid half count addr (ap (as_mem_aligned addr) (sym even) ∙ aligned ∙ e) in
        let page : (a : Address) → page_of n.next a ≡ page_of cache a =
          λ a. ap (as_mem_aligned a) n.page_size in
        let index : page_index n.next q.addr.address ≡ idx =
          same_index cache n.next q.addr.address n.size n.page_size
          ∙ index_of cache q.addr.address addr (inside ∙ sym aligned) in
        let after = record n.next { page_refs = set n.next.page_refs idx none } in
        let lost : IsLost half count idx after =
          lost_after n.next half count idx (n.page_size ∙ even) n.size lt
            (omega (arith, lt, n.size, n.still_coherent.refs_size))
            (omega (arith, lt, n.size, n.still_coherent.once_size)) n.once in
        (
          n.next,
          n.returns,
          after,
          rw
              (take_free n.next q.addr.address idx buf index
                (λ e. ne (sym inside ∙ sym (page q.addr.address) ∙ e)) n.at n.once n.held)
              refl,
          λ later run other skip same.
              lookup_lost later half count idx other skip
                (Later-IsLost c half count idx after later run lost)
                (sym (slot_index cache half other even) ∙ same),
        )
