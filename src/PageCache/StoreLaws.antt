-- ===== src/PageCache/StoreLaws.antt =====
-- A page that is stored in the cache is found again.
use memflow.Prelude.{
  ℕ, ◌/◌, ◌%◌, ◌<◌, ◌≡◌, ◌≢◌, refl, arith, ap, sym, ◌∙◌, Option, some, none, true, false, ◌==◌,
  ==_iff, length, get_elem?, set, get_elem?-some, length-set, get_elem?-set_self, get_elem?-set_ne,
  Bool-cases, inl, inr,
}
use mathlib.Core.Option
use mathlib.Core.List.{List}
use mathlib.Core.Option.{some-injective}
use memflow.Types.Address.{Address, invalid, as_mem_aligned}
use memflow.Cache.Validator.{CacheValidator, IsValidator}
use memflow.PageCache.Cache.{
  Bytes, is_valid, PageCache, page_of, page_index, take_page, cached_page_mut, put_page,
  invalidate_page_raw, cancel_page_validation, validate_page,
}
use memflow.PageCache.CacheLaws.{assigned, IsCoherent, page_index-lt}

set_agrees :
    (mem : Address → Bytes) (address : List Address) (refs : List (Option Bytes)) (idx : ℕ)
    (addr : Address) (buf : Bytes)
    → idx < length address
    → idx < length refs
    → (addr ≢ invalid → buf ≡ mem addr)
    → ((i : ℕ) (a : Address) (b : Bytes)
        → get_elem? address i ≡ some a
        → get_elem? refs i ≡ some (some b)
        → a ≢ invalid
        → b ≡ mem a)
    → (i : ℕ) (a : Address) (b : Bytes) → get_elem? (set address idx addr) i ≡ some a
    → get_elem? (set refs idx (some buf)) i ≡ some (some b)
    → a ≢ invalid
    → b ≡ mem a
set_agrees mem address refs idx addr buf h g page agrees i a b at held ne =
    elim (Bool-cases (idx == i)) [
      | inl t ↦
          let here : idx ≡ i = (==_iff idx i).0 t in
          let is_addr : addr ≡ a = some-injective addr a (
            sym (get_elem?-set_self address idx addr h)
            ∙ ap (get_elem? (set address idx addr)) here
            ∙ at) in
          let is_buf : buf ≡ b = some-injective buf b (
            some-injective _ _ (
              sym (get_elem?-set_self refs idx (some buf) g)
              ∙ ap (get_elem? (set refs idx (some buf))) here
              ∙ held)) in
          sym is_buf ∙ page (λ q. ne (sym is_addr ∙ q)) ∙ ap mem is_addr
      | inr f ↦
          let away : idx ≢ i = λ q. let yes = (==_iff idx i).1 q in cc in
          agrees i a b (sym (get_elem?-set_ne address {i = idx} {j = i} addr away) ∙ at)
            (sym (get_elem?-set_ne refs {i = idx} {j = i} (some buf) away) ∙ held) ne
    ]

module _ {ℓ} {V : Type ℓ} (c : CacheValidator V) {slots : V → ℕ} {IsReady : V → Type ℓ}
    (laws : IsValidator c slots IsReady) {mem : Address → Bytes} (cache : PageCache V)
    (coherent : IsCoherent c laws mem cache) where
  -- What `validate_page` leaves.
  record IsStored (addr : Address) (buf : Bytes) (r : Option (PageCache V)) : Type ℓ where
    pub next : PageCache V
    pub returns : r ≡ some next
    pub still_coherent : IsCoherent c laws mem next
    pub size : length next.address ≡ length cache.address
    pub page_size : next.page_size ≡ cache.page_size
    pub at : get_elem? next.address (page_index cache addr) ≡ some addr
    pub held : get_elem? next.page_refs (page_index cache addr) ≡ some (some buf)
    pub slot : c.is_slot_valid next.validator (page_index cache addr) ≡ some true

  stored :
      (addr : Address) (buf : Bytes)
      → buf ≡ mem addr
      → IsStored addr buf (validate_page c cache addr buf)
  unfolding validate_page put_page page_index Option.bind
  stored addr buf same =
      let idx = page_index cache addr in
      let lt = page_index-lt c laws cache coherent addr in
      let refs_lt : idx < length cache.page_refs = omega (arith, lt, coherent.refs_size) in
      let (m, ready) =
        laws.validated cache.validator idx coherent.ready
          (omega (arith, lt, coherent.slots_size)) in
      let size = length-set cache.address idx addr in
      let next : PageCache V = record {
        address = set cache.address idx addr;
        page_refs = set cache.page_refs idx (some buf);
        address_once_validated = set cache.address_once_validated idx invalid;
        page_size = cache.page_size;
        page_type_mask = cache.page_type_mask;
        validator = m.after;
      } in
      record {
        next = next;
        returns =
            rw
              (
                assigned cache.address idx addr lt,
                assigned cache.address_once_validated idx invalid
                    (omega (arith, lt, coherent.once_size)),
                m.returns,
                size,
                assigned cache.page_refs idx (some buf) refs_lt,
              )
              refl;
        still_coherent = record {
          ready = ready;
          slots_size = m.same_slots ∙ coherent.slots_size ∙ sym size;
          refs_size = length-set cache.page_refs idx (some buf) ∙ coherent.refs_size ∙ sym size;
          once_size =
              length-set cache.address_once_validated idx invalid ∙ coherent.once_size ∙ sym size;
          nonempty = omega (arith, size, coherent.nonempty);
          agrees =
              set_agrees mem cache.address cache.page_refs idx addr buf lt refs_lt (λ q. same)
                coherent.agrees;
        };
        size = size;
        page_size = refl;
        at = get_elem?-set_self cache.address idx addr lt;
        held = get_elem?-set_self cache.page_refs idx (some buf) refs_lt;
        slot = m.marked;
      }

  -- A lookup in a slot whose page and buffer are known, and valid.
  found :
      (next : PageCache V) (addr : Address) (idx : ℕ) (once : Address) (buf : Bytes)
      → page_index next addr ≡ idx
      → get_elem? next.address idx ≡ some (page_of next addr)
      → get_elem? next.page_refs idx ≡ some (some buf)
      → get_elem? next.address_once_validated idx ≡ some once
      → c.is_slot_valid next.validator idx ≡ some true
      → cached_page_mut c next addr false
        ≡ some (
          record { address = page_of next addr; validity = is_valid buf },
          record next { page_refs = set next.page_refs idx none },
        )
  unfolding cached_page_mut take_page Option.bind
  found next addr idx once buf here at held o valid =
      let self : (page_of next addr == page_of next addr) ≡ true =
        (==_iff (page_of next addr) (page_of next addr)).1 refl in
      rw (here, at, held, o, self, valid) refl

  -- With a lawful validator and a coherent cache, storing the memory's page of an aligned address
  -- returns and keeps the cache coherent, and then every address of that page gets it as valid.
  pub validate_page-cached_page_mut :
      (addr addr' : Address) (buf : Bytes)
      → page_of cache addr ≡ addr
      → page_of cache addr' ≡ addr
      → buf ≡ mem addr
      → (next : PageCache V) × (validate_page c cache addr buf ≡ some next)
        × IsCoherent c laws mem next
        × (after : PageCache V) × (cached_page_mut c next addr' false
            ≡ some (record { address = addr; validity = is_valid buf }, after))
  unfolding page_index
  validate_page-cached_page_mut addr addr' buf aligned inside same =
      let s = stored addr buf same in
      let page : page_of s.next addr' ≡ addr = ap (as_mem_aligned addr') s.page_size ∙ inside in
      let here : page_index s.next addr' ≡ page_index cache addr =
        ap (λ p. p / s.next.page_size % length s.next.address) (page ∙ sym aligned)
        ∙ ap (λ n. page_of cache addr / n % length s.next.address) s.page_size
        ∙ ap (λ n. page_of cache addr / cache.page_size % n) s.size in
      let (once, o) = get_elem?-some s.next.address_once_validated (page_index cache addr) (
        omega
          (arith, page_index-lt c laws cache coherent addr, s.size, s.still_coherent.once_size)) in
      (
        s.next,
        s.returns,
        s.still_coherent,
        record s.next { page_refs = set s.next.page_refs (page_index cache addr) none },
        found s.next addr' (page_index cache addr) once buf here (s.at ∙ ap some (sym page)) s.held
              o s.slot
            ∙ ap
                (λ p. some (
                  record { address = p; validity = is_valid buf },
                  record s.next { page_refs = set s.next.page_refs (page_index cache addr) none },
                ))
                page,
      )

  -- A page whose read failed: its slot gets the buffer back, without a page.
  pub record IsCancelled (addr : Address) (buf : Bytes) (r : Option (PageCache V)) : Type ℓ where
    pub next : PageCache V
    pub returns : r ≡ some next
    pub still_coherent : IsCoherent c laws mem next
    pub size : length next.address ≡ length cache.address
    pub page_size : next.page_size ≡ cache.page_size
    pub at : get_elem? next.address (page_index cache addr) ≡ some invalid
    pub once : get_elem? next.address_once_validated (page_index cache addr) ≡ some invalid
    pub held : get_elem? next.page_refs (page_index cache addr) ≡ some (some buf)

  pub cancelled :
      (addr : Address) (buf : Bytes)
      → get_elem? cache.address_once_validated (page_index cache addr) ≡ some addr
      → IsCancelled addr buf (cancel_page_validation c cache addr buf)
  unfolding cancel_page_validation invalidate_page_raw put_page page_index Option.bind
  cancelled addr buf marked =
      let idx = page_index cache addr in
      let lt = page_index-lt c laws cache coherent addr in
      let refs_lt : idx < length cache.page_refs = omega (arith, lt, coherent.refs_size) in
      let once_lt : idx < length cache.address_once_validated =
        omega (arith, lt, coherent.once_size) in
      let (m, ready) =
        laws.invalidated cache.validator idx coherent.ready
          (omega (arith, lt, coherent.slots_size)) in
      let size = length-set cache.address idx invalid in
      let self : (addr == addr) ≡ true = (==_iff addr addr).1 refl in
      record {
        next = record {
          address = set cache.address idx invalid;
          page_refs = set cache.page_refs idx (some buf);
          address_once_validated = set cache.address_once_validated idx invalid;
          page_size = cache.page_size;
          page_type_mask = cache.page_type_mask;
          validator = m.after;
        };
        returns =
            rw
              (
                marked,
                self,
                m.returns,
                assigned cache.address idx invalid lt,
                assigned cache.address_once_validated idx invalid once_lt,
                size,
                assigned cache.page_refs idx (some buf) refs_lt,
              )
              refl;
        still_coherent = record {
          ready = ready;
          slots_size = m.same_slots ∙ coherent.slots_size ∙ sym size;
          refs_size = length-set cache.page_refs idx (some buf) ∙ coherent.refs_size ∙ sym size;
          once_size =
              length-set cache.address_once_validated idx invalid ∙ coherent.once_size ∙ sym size;
          nonempty = omega (arith, size, coherent.nonempty);
          agrees =
              set_agrees mem cache.address cache.page_refs idx invalid buf lt refs_lt
                (λ q. absurd (q refl)) coherent.agrees;
        };
        size = size;
        page_size = refl;
        at = get_elem?-set_self cache.address idx invalid lt;
        once = get_elem?-set_self cache.address_once_validated idx invalid once_lt;
        held = get_elem?-set_self cache.page_refs idx (some buf) refs_lt;
      }
