-- ===== src/Cache/TlbReads.antt =====
-- What `try_entry` answers.
use memflow.Prelude.{
  ℕ, ◌≡◌, ◌≢◌, ◌⊎◌, refl, arith, ap, sym, ◌∙◌, some, none, Bool, true, false, ◌&&◌, length, set,
  lt→ltb, ◌==◌, ==_iff, ne→==, if◌then◌else◌, length-set, get_elem?-set_self, get_elem?-set_ne,
  get_elem?-some, Bool-cases, inl, inr,
}
use memflow.Types.Address.{Address, as_mem_aligned}
use memflow.Types.PhysAddr.{PhysicalAddress}
use memflow.Cache.Validator.{CacheValidator, IsValidator}
use memflow.Cache.Tlb.{CachedEntry, TlbCache, get_cache_index, answer, put, try_entry, cache_entry}
use memflow.Cache.TlbLaws.{IsCoherent, get_cache_index-lt}

and-false : (a : Bool) → a && false ≡ false
and-false true = refl
and-false false = refl

and-split : (a b : Bool) → a && b ≡ true → (a ≡ true) × (b ≡ true)
and-split true true e = (refl, refl)
and-split true false e = cc
and-split false b e = cc

module _ {ℓ} {V : Type ℓ} (c : CacheValidator V) {slots : V → ℕ} {IsReady : V → Type ℓ}
    (laws : IsValidator c slots IsReady) (tid : Address → ℕ) (page_size : ℕ) where
  abbrev page : Address → Address
  page addr = as_mem_aligned addr page_size

  -- A cache that is coherent with a table either has nothing for an address, or answers as the table
  -- does for its page.
  pub try_entry-coherent :
      (table : ℕ → Address → PhysicalAddress) (cache : TlbCache V) (addr : Address)
      → IsCoherent c laws table cache
      → (try_entry c tid page_size cache addr ≡ some none)
        ⊎ (try_entry c tid page_size cache addr
            ≡ some (
                some (
                  answer
                    (tid addr)
                    (table (tid addr) (as_mem_aligned addr page_size))
                    addr
                    page_size)))
  unfolding try_entry
  try_entry-coherent table cache addr coherent =
      let idx = get_cache_index cache (page addr) page_size in
      let lt = get_cache_index-lt c laws cache coherent (page addr) page_size in
      let (e, found) = get_elem?-some cache.entries idx lt in
      let (valid, asked) =
        laws.in_range cache.validator idx (omega (arith, lt, coherent.same_size)) in
      elim (Bool-cases (e.pt_index == tid addr && e.virt_page == page addr)) [
        | inl t ↦ elim (Bool-cases valid) [
          | inl v ↦
              let (same_table, same_page) = and-split _ _ t in
              let tables : e.pt_index ≡ tid addr = (==_iff e.pt_index (tid addr)).0 same_table in
              let pages : e.virt_page ≡ page addr = (==_iff e.virt_page (page addr)).0 same_page in
              let holds = coherent.agrees idx e found (asked ∙ ap some v) in
              let right : e.phys_page ≡ table (tid addr) (page addr) =
                holds ∙ ap (λ t. table t e.virt_page) tables ∙ ap (table (tid addr)) pages in
              inr (rw (found, t, asked, v, right) refl)
          | inr v ↦ inl (rw (found, t, asked, v) refl)
        ]
        | inr t ↦ inl (rw (found, t) refl)
      ]

  -- After `cache_entry` on a coherent cache, every address of the same page and the same page table
  -- gets the cached page.
  pub try_entry-cache_entry :
      (table : ℕ → Address → PhysicalAddress) (cache : TlbCache V) (in_addr addr : Address)
      (out_page : PhysicalAddress)
      → IsCoherent c laws table cache
      → tid addr ≡ tid in_addr
      → as_mem_aligned addr page_size ≡ as_mem_aligned in_addr page_size
      → (next : TlbCache V) × (cache_entry c tid page_size cache in_addr out_page ≡ some next)
        × (try_entry c tid page_size next addr
            ≡ some (some (answer (tid in_addr) out_page addr page_size)))
  unfolding try_entry cache_entry put get_cache_index
  try_entry-cache_entry table cache in_addr addr out_page coherent same_table same_page =
      let idx = get_cache_index cache (page in_addr) page_size in
      let lt = get_cache_index-lt c laws cache coherent (page in_addr) page_size in
      let (m, ready) =
        laws.validated cache.validator idx coherent.ready (omega (arith, lt, coherent.same_size)) in
      let entry : CachedEntry = record {
        pt_index = tid in_addr;
        virt_page = page in_addr;
        phys_page = out_page;
      } in
      let next : TlbCache V = record {
        entries = set cache.entries idx entry;
        validator = m.after;
      } in
      let found = get_elem?-set_self cache.entries idx entry lt in
      let yes_table = (==_iff (tid in_addr) (tid in_addr)).1 refl in
      let yes_page = (==_iff (page in_addr) (page in_addr)).1 refl in
      (
        next,
        rw (lt→ltb idx (length cache.entries) lt, m.returns) refl,
        rw (same_page, length-set, found, same_table, same_page, yes_table, yes_page, m.marked)
            refl,
      )

  -- After `cache_entry` on a coherent cache, an address of another page finds nothing if its page has
  -- the same slot, and what it found before if not.
  pub try_entry-other_page :
      (table : ℕ → Address → PhysicalAddress) (cache : TlbCache V) (in_addr addr : Address)
      (out_page : PhysicalAddress)
      → IsCoherent c laws table cache
      → as_mem_aligned addr page_size ≢ as_mem_aligned in_addr page_size
      → (next : TlbCache V) × (cache_entry c tid page_size cache in_addr out_page ≡ some next)
        × (try_entry c tid page_size next addr ≡ (
            if get_cache_index cache (as_mem_aligned addr page_size) page_size
              == get_cache_index cache (as_mem_aligned in_addr page_size) page_size
            then some none
            else try_entry c tid page_size cache addr))
  unfolding try_entry cache_entry put get_cache_index
  try_entry-other_page table cache in_addr addr out_page coherent other =
      let idx = get_cache_index cache (page in_addr) page_size in
      let at = get_cache_index cache (page addr) page_size in
      let lt = get_cache_index-lt c laws cache coherent (page in_addr) page_size in
      let (m, ready) =
        laws.validated cache.validator idx coherent.ready (omega (arith, lt, coherent.same_size)) in
      let entry : CachedEntry = record {
        pt_index = tid in_addr;
        virt_page = page in_addr;
        phys_page = out_page;
      } in
      let next : TlbCache V = record {
        entries = set cache.entries idx entry;
        validator = m.after;
      } in
      let lt2 = get_cache_index-lt c laws cache coherent (page addr) page_size in
      let (old, held) = get_elem?-some cache.entries at lt2 in
      let unequal = ne→== (page in_addr) (page addr) (λ q. other (sym q)) in
      let read : try_entry c tid page_size next addr
          ≡ (if at == idx then some none else try_entry c tid page_size cache addr) =
        elim (Bool-cases (at == idx)) [
          | inl t ↦
              let here : at ≡ idx = (==_iff at idx).0 t in
              let found = get_elem?-set_self cache.entries idx entry lt in
              rw (t, length-set, here, found, unequal, and-false) refl
          | inr t ↦
              let away : at ≢ idx = λ q. let yes = (==_iff at idx).1 q in cc in
              let found =
                get_elem?-set_ne cache.entries {i = idx} {j = at} entry (λ q. away (sym q))
                ∙ held in
              elim (Bool-cases (old.pt_index == tid addr && old.virt_page == page addr)) [
                | inl q ↦ rw (t, length-set, found, q, held, q, m.others at away) refl
                | inr q ↦ rw (t, length-set, found, q, held, q) refl
              ]
        ] in
      (next, rw (lt→ltb idx (length cache.entries) lt, m.returns) refl, read)
