-- ===== src/Cache/Tlb.antt =====
-- `TlbCache` of memflow/src/mem/virt_translate/cache/tlb_cache.rs. The translator's
-- `translation_table_id` is a function, and an architecture is its page size. The outer `none` is
-- the panic of an index out of range.
use memflow.Prelude.{
  ℕ, zero, suc, ◌+◌, ◌-◌, ◌/◌, ◌%◌, Option, some, none, List, Bool, true, false, not, ◌&&◌, ◌||◌,
  length, get_elem?, set, replicate, ltb, ◌==◌, if◌then◌else◌,
}
use mathlib.Core.Option
use memflow.Prelude.Results.{Result, ok, err}
use memflow.Error.Code.{Error}
use memflow.Error.Origin
use memflow.Error.Kind
use memflow.Types.Address
use memflow.Types.Address.{Address, umem_max, add, as_mem_aligned}
use memflow.Types.PhysAddr
use memflow.Types.PhysAddr.{PhysicalAddress, with_page}
use memflow.Cache.Validator.{CacheValidator}

pub record TlbEntry : Type 0 where
  pub pt_index : ℕ
  pub virt_addr : Address
  pub phys_addr : PhysicalAddress

abbrev pub create_invalid : TlbEntry
create_invalid = record {
  pt_index = umem_max;
  virt_addr = Address.invalid;
  phys_addr = PhysAddr.invalid;
}

pub record CachedEntry : Type 0 where
  pub pt_index : ℕ
  pub virt_page : Address
  pub phys_page : PhysicalAddress

-- `CachedEntry::INVALID`.
abbrev pub invalid_entry : CachedEntry
invalid_entry = record {
  pt_index = umem_max;
  virt_page = Address.invalid;
  phys_page = PhysAddr.invalid;
}

pub record TlbCache {ℓ} (V : Type ℓ) : Type ℓ where
  pub entries : List CachedEntry
  pub validator : V

abbrev pub not_found : Error
not_found = record { origin = Origin.tlb_cache; kind = Kind.not_found }

module _ {ℓ} {V : Type ℓ} where
  unfoldable pub get_cache_index : TlbCache V → Address → ℕ → ℕ
  get_cache_index cache page_addr page_size = page_addr / page_size % length cache.entries

  unfoldable pub is_read_too_long : TlbCache V → ℕ → ℕ → Bool
  is_read_too_long cache page_size size = ltb (length cache.entries) (size / page_size)

-- What a cached page answers for an address in it.
unfoldable pub answer : ℕ → PhysicalAddress → Address → ℕ → Result TlbEntry Error
answer pt_index phys_page addr page_size =
    if PhysAddr.is_valid phys_page && PhysAddr.has_page phys_page
    then ok (record {
      pt_index = pt_index;
      virt_addr = addr;
      phys_addr =
          with_page
            (add (as_mem_aligned phys_page.address page_size)
              (addr - as_mem_aligned addr page_size))
            phys_page.page_type page_size;
    })
    else err not_found

module _ {ℓ} {V : Type ℓ} (c : CacheValidator V) where
  unfoldable pub new : ℕ → V → TlbCache V
  new size validator = record {
    entries = replicate size invalid_entry;
    validator = c.allocate_slots validator size;
  }

  -- The test of `try_entry`; the validator is asked only when the entry is the page's.
  abbrev pub slot_matches : V → ℕ → Bool → Option Bool
  slot_matches validator idx false = some false
  slot_matches validator idx true = c.is_slot_valid validator idx

  abbrev pub when {κ} : {B : Type κ} → Bool → B → Option B
  when true b = some b
  when false b = none

  abbrev pub try_slot :
      TlbCache V
      → ℕ
      → Address
      → ℕ
      → ℕ
      → Option CachedEntry
      → Option (Option (Result TlbEntry Error))
  try_slot cache pt_index addr page_size idx none = none
  try_slot cache pt_index addr page_size idx (some entry) =
      Option.map (λ hit. when hit (answer pt_index entry.phys_page addr page_size))
        (slot_matches cache.validator idx
          (entry.pt_index == pt_index && entry.virt_page == as_mem_aligned addr page_size))

  -- The write of an entry, and of its slot in the validator.
  unfoldable pub put : TlbCache V → ℕ → CachedEntry → Option (TlbCache V)
  put cache idx entry =
      if ltb idx (length cache.entries)
      then Option.map (λ v. record { entries = set cache.entries idx entry; validator = v })
          (c.validate_slot cache.validator idx)
      else none

  module _ (translation_table_id : Address → ℕ) (page_size : ℕ) where
    unfoldable pub try_entry : TlbCache V → Address → Option (Option (Result TlbEntry Error))
    unfolding get_cache_index
    try_entry cache addr =
        let idx = get_cache_index cache (as_mem_aligned addr page_size) page_size in
        try_slot cache (translation_table_id addr) addr page_size idx (get_elem? cache.entries idx)

    unfoldable pub cache_entry : TlbCache V → Address → PhysicalAddress → Option (TlbCache V)
    cache_entry cache in_addr out_page =
        let idx = get_cache_index cache (as_mem_aligned in_addr page_size) page_size in
        put cache idx (record {
          pt_index = translation_table_id in_addr;
          virt_page = as_mem_aligned in_addr page_size;
          phys_page = out_page;
        })

    -- Whether `cache_invalid_if_uncached` may take over an entry.
    abbrev pub is_free : V → ℕ → CachedEntry → Option Bool
    is_free validator idx entry =
        if entry.pt_index == umem_max || not (PhysAddr.is_valid entry.phys_page)
        then some true
        else Option.map not (c.is_slot_valid validator idx)

    -- The body of its loop.
    abbrev pub mark_free : TlbCache V → ℕ → CachedEntry → Option Bool → Option (TlbCache V)
    mark_free cache idx entry none = none
    mark_free cache idx entry (some false) = some cache
    mark_free cache idx entry (some true) = put cache idx entry

    abbrev pub mark_slot : TlbCache V → ℕ → CachedEntry → Option CachedEntry → Option (TlbCache V)
    mark_slot cache idx entry none = none
    mark_slot cache idx entry (some old) =
        mark_free cache idx entry (is_free cache.validator idx old)

    unfoldable pub mark_page : ℕ → TlbCache V → Address → Option (TlbCache V)
    mark_page pt_index cache cur_page =
        let idx = get_cache_index cache cur_page page_size in
        mark_slot cache idx
          (record { pt_index = pt_index; virt_page = cur_page; phys_page = PhysAddr.invalid })
          (get_elem? cache.entries idx)

    -- `step_by(page_size).take(left)` of the range from `cur` to `end`.
    unfoldable pub mark_pages : ℕ → ℕ → Address → ℕ → TlbCache V → Option (TlbCache V)
    mark_pages pt_index zero end cur cache = some cache
    mark_pages pt_index (suc left) end cur cache =
        let marked =
          Option.bind (mark_page pt_index cache cur)
            (λ next. mark_pages pt_index left end (cur + page_size) next) in
        if ltb cur end then marked else some cache

    unfoldable pub cache_invalid_if_uncached : TlbCache V → Address → ℕ → Option (TlbCache V)
    cache_invalid_if_uncached cache in_addr invalid_len =
        let page_addr = as_mem_aligned in_addr page_size in
        let end_addr = as_mem_aligned (add (add in_addr invalid_len) 1) page_size in
        mark_pages (translation_table_id in_addr) (length cache.entries) end_addr page_addr cache
