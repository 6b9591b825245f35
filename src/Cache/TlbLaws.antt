-- ===== src/Cache/TlbLaws.antt =====
-- The translation lookaside buffer answers with what was cached for a page.
use memflow.Prelude.{
  ℕ, zero, suc, ◌+◌, ◌*◌, ◌/◌, ◌<◌, ◌≡◌, ◌≢◌, refl, arith, ap, sym, ◌∙◌, Option, some, true, not,
  ◌||◌, length, get_elem?, set, replicate, ltb, lt→ltb, ltb→lt, ◌==◌, ==_iff, length-replicate,
  length-set, get_elem?-set_self, get_elem?-set_ne, get_elem?-some, get_elem?-lt, Bool-cases, inl,
  inr,
}
use mathlib.Core.Option
use native.Mathlib.Nat.{mod-lt}
use memflow.Types.Address.{Address, umem_max, add, as_mem_aligned}
use memflow.Types.PhysAddr
use memflow.Types.PhysAddr.{PhysicalAddress}
use memflow.Cache.Validator.{CacheValidator, IsValidator}
use memflow.Cache.Tlb.{
  CachedEntry, invalid_entry, TlbCache, get_cache_index, new, put, cache_entry, mark_page,
  mark_pages, cache_invalid_if_uncached,
}

module _ {ℓ} {V : Type ℓ} (c : CacheValidator V) {slots : V → ℕ} {IsReady : V → Type ℓ}
    (laws : IsValidator c slots IsReady) where
  -- Every valid entry holds what `table` maps its page to.
  pub record IsCoherent (table : ℕ → Address → PhysicalAddress) (cache : TlbCache V) : Type ℓ where
    pub ready : IsReady cache.validator
    pub same_size : slots cache.validator ≡ length cache.entries
    pub nonempty : 0 < length cache.entries
    pub agrees :
        (i : ℕ) (e : CachedEntry)
        → get_elem? cache.entries i ≡ some e
        → c.is_slot_valid cache.validator i ≡ some true
        → e.phys_page ≡ table e.pt_index e.virt_page

  -- A new cache of at least one slot, over a ready validator without slots, is coherent with any table.
  pub new-IsCoherent :
      (table : ℕ → Address → PhysicalAddress) (size : ℕ) (v : V)
      → IsReady v
      → slots v ≡ 0
      → 0 < size
      → IsCoherent table (new c size v)
  unfolding new
  new-IsCoherent table size v ready none_yet pos = record {
    ready = laws.allocate_ready v size ready;
    same_size = laws.allocated v size ∙ sym (length-replicate size _);
    nonempty = omega (arith, length-replicate size invalid_entry);
    agrees = λ i e at valid.
        let lt = get_elem?-lt (replicate size invalid_entry) i e at in
        let small : i < size = omega (arith, lt, length-replicate size invalid_entry) in
        let off = laws.fresh_slots v size i ready (omega (arith, none_yet)) small in cc;
  }

  module _ {table : ℕ → Address → PhysicalAddress} (cache : TlbCache V)
      (coherent : IsCoherent table cache) where
    -- A write of a page that the table agrees with.
    put-IsCoherent :
        (idx : ℕ) (entry : CachedEntry)
        → idx < length cache.entries
        → entry.phys_page ≡ table entry.pt_index entry.virt_page
        → (next : TlbCache V) × (put c cache idx entry ≡ some next)
          × IsCoherent table next
          × (length next.entries ≡ length cache.entries)
    unfolding put
    put-IsCoherent idx entry lt same =
        let (m, ready) =
          laws.validated cache.validator idx coherent.ready
            (omega (arith, lt, coherent.same_size)) in
        let next : TlbCache V = record {
          entries = set cache.entries idx entry;
          validator = m.after;
        } in
        (
          next,
          rw (lt→ltb idx (length cache.entries) lt, m.returns) refl,
          record {
            ready = ready;
            same_size =
                m.same_slots ∙ coherent.same_size ∙ sym (length-set cache.entries idx entry);
            nonempty = omega (arith, length-set cache.entries idx entry, coherent.nonempty);
            agrees = λ i e at valid. elim (Bool-cases (i == idx)) [
              | inl t ↦
                  let here : i ≡ idx = (==_iff i idx).0 t in
                  let it = get_elem?-set_self cache.entries idx entry lt in
                  let found = rw here at at in let is : e ≡ entry = cc in rw is same
              | inr t ↦
                  let away : i ≢ idx = λ q. let yes = (==_iff i idx).1 q in cc in
                  let there =
                    get_elem?-set_ne cache.entries {i = idx} {j = i} entry (λ q. away (sym q)) in
                  coherent.agrees i e (sym there ∙ at) (sym (m.others i away) ∙ valid)
            ];
          },
          length-set cache.entries idx entry,
        )

    pub get_cache_index-lt :
        (page page_size : ℕ) → get_cache_index cache page page_size < length cache.entries
    unfolding get_cache_index
    get_cache_index-lt page page_size = mod-lt (page / page_size) coherent.nonempty

  -- What marking one page, or a run of pages, as absent leaves.
  abbrev Marked : (ℕ → Address → PhysicalAddress) → TlbCache V → Option (TlbCache V) → Type ℓ
  Marked table cache r =
      (next : TlbCache V) × (r ≡ some next)
      × IsCoherent table next
      × (length next.entries ≡ length cache.entries)

  module _ {table : ℕ → Address → PhysicalAddress} (tid : Address → ℕ) (page_size : ℕ) where
    -- `cache_entry` of the page that the table has for an address returns, and the cache stays coherent
    -- with the table and as large.
    pub cache_entry-IsCoherent :
        (cache : TlbCache V) (in_addr : Address) (out_page : PhysicalAddress)
        → IsCoherent table cache
        → out_page ≡ table (tid in_addr) (as_mem_aligned in_addr page_size)
        → (next : TlbCache V) × (cache_entry c tid page_size cache in_addr out_page ≡ some next)
          × IsCoherent table next
          × (length next.entries ≡ length cache.entries)
    unfolding cache_entry
    cache_entry-IsCoherent cache in_addr out_page coherent same =
        put-IsCoherent cache coherent _ _
          (get_cache_index-lt cache coherent (as_mem_aligned in_addr page_size) page_size) same

    mark_page-Marked :
        (pt : ℕ) (cache : TlbCache V) (page : Address)
        → IsCoherent table cache
        → table pt page ≡ PhysAddr.invalid
        → Marked table cache (mark_page c tid page_size pt cache page)
    unfolding mark_page
    mark_page-Marked pt cache page coherent absent =
        let idx = get_cache_index cache page page_size in
        let lt = get_cache_index-lt cache coherent page page_size in
        let (old, found) = get_elem?-some cache.entries idx lt in
        let (valid, asked) =
          laws.in_range cache.validator idx (omega (arith, lt, coherent.same_size)) in
        let entry : CachedEntry = record {
          pt_index = pt;
          virt_page = page;
          phys_page = PhysAddr.invalid;
        } in
        let written = put-IsCoherent cache coherent idx entry lt (sym absent) in
        elim (Bool-cases (old.pt_index == umem_max || not (PhysAddr.is_valid old.phys_page))) [
          | inl e ↦ rw (found, e) written
          | inr e ↦ elim (Bool-cases valid) [
            | inl v ↦ rw (found, e, asked, v) (cache, refl, coherent, refl)
            | inr v ↦ rw (found, e, asked, v) written
          ]
        ]

    mark_pages-Marked :
        (pt left end cur : ℕ) (cache : TlbCache V)
        → IsCoherent table cache
        → ((k : ℕ) → cur + k * page_size < end → table pt (cur + k * page_size) ≡ PhysAddr.invalid)
        → Marked table cache (mark_pages c tid page_size pt left end cur cache)
    unfolding mark_pages Option.bind
    mark_pages-Marked pt zero end cur cache coherent absent = (cache, refl, coherent, refl)
    mark_pages-Marked pt (suc left) end cur cache coherent absent =
        elim (Bool-cases (ltb cur end)) [
          | inl e ↦
              let first : cur + 0 * page_size ≡ cur = omega arith in
              let here = absent 0 (omega (arith, ltb→lt cur end e)) in
              let (next, marked, coherent2, same) =
                mark_page-Marked pt cache cur coherent (rw first at here) in
              let further : (k : ℕ)
                  → cur + page_size + k * page_size < end
                  → table pt (cur + page_size + k * page_size) ≡ PhysAddr.invalid =
                λ k h.
                  let shift : cur + (k + 1) * page_size ≡ cur + page_size + k * page_size =
                    omega arith in
                  sym (ap (table pt) shift) ∙ absent (k + 1) (omega arith) in
              let (last, rest, coherent3, same2) =
                mark_pages-Marked pt left end (cur + page_size) next coherent2 further in
              (last, rw (e, marked) rest, coherent3, same2 ∙ same)
          | inr e ↦ (cache, rw e refl, coherent, refl)
        ]

    -- `cache_invalid_if_uncached` on a coherent cache, where the table has no page for any page of the
    -- range, returns, and the cache stays coherent with the table and as large.
    pub cache_invalid_if_uncached-IsCoherent :
        (cache : TlbCache V) (in_addr : Address) (invalid_len : ℕ)
        → IsCoherent table cache
        → ((k : ℕ)
            → as_mem_aligned in_addr page_size + k * page_size
              < as_mem_aligned (add (add in_addr invalid_len) 1) page_size
            → table (tid in_addr) (as_mem_aligned in_addr page_size + k * page_size)
              ≡ PhysAddr.invalid)
        → (next : TlbCache V) × (cache_invalid_if_uncached c tid page_size cache in_addr invalid_len
            ≡ some next)
          × IsCoherent table next
          × (length next.entries ≡ length cache.entries)
    unfolding cache_invalid_if_uncached
    cache_invalid_if_uncached-IsCoherent cache in_addr invalid_len coherent absent =
        mark_pages-Marked (tid in_addr) _ _ _ cache coherent absent
