-- ===== src/Cache/Tests.antt =====
-- A translation lookaside buffer of two slots, with a counting validator.
use memflow.Prelude.{
  ℕ, ◌+◌, ◌*◌, ◌≡◌, ◌⊎◌, refl, arith, some, none, [], ◌∷◌, length, ltb, ◌==◌, ne→==, if◌then◌else◌,
}
use memflow.Types.Address.{Address, as_mem_aligned}
use memflow.Types.PhysAddr
use memflow.Types.PhysAddr.{PhysicalAddress}
use memflow.Cache.Count.{CountCacheValidator, count_validator, is_slot_valid, validate_slot}
use memflow.Cache.CountLaws.{IsReady, updates, count_validator-IsValidator, validate_slot-lifetime}
use memflow.Cache.Tlb.{
  TlbCache, answer, get_cache_index, new, try_entry, cache_entry, cache_invalid_if_uncached,
}
use memflow.Cache.TlbLaws.{
  IsCoherent, new-IsCoherent, cache_entry-IsCoherent, cache_invalid_if_uncached-IsCoherent,
}
use memflow.Cache.TlbReads.{try_entry-coherent, try_entry-cache_entry, try_entry-other_page}

abbrev fresh : CountCacheValidator
fresh = record { count = []; valid_count = 10; last_count = 3 }

fresh-IsReady : IsReady fresh
fresh-IsReady = record {
  positive = omega arith;
  valid_bound = omega arith;
  last_bound = omega arith;
}

abbrev two_slots : CountCacheValidator
two_slots = record { count = 0 ∷ 0 ∷ []; valid_count = 10; last_count = 3 }

two_slots-IsReady : IsReady two_slots
two_slots-IsReady = record {
  positive = omega arith;
  valid_bound = omega arith;
  last_bound = omega arith;
}

validate_slot-lifetime_example :
    (v2 : CountCacheValidator) × (validate_slot two_slots 1 ≡ some v2)
    × (is_slot_valid (updates 9 v2) 1 ≡ some (ltb 9 10))
validate_slot-lifetime_example =
    validate_slot-lifetime two_slots 1 9 two_slots-IsReady (omega arith) (omega arith)

-- One table, in which only the first page of the first table is mapped.
abbrev page_at : PhysicalAddress
page_at = record { address = 0x5000; page_type = 4; page_size_log2 = 11 }

abbrev table : ℕ → Address → PhysicalAddress
table pt page = if page == 0x1000 then page_at else PhysAddr.invalid

abbrev tid : Address → ℕ
tid a = 7

abbrev cache : TlbCache CountCacheValidator
cache = new count_validator 2 fresh

cache-IsCoherent : IsCoherent count_validator count_validator-IsValidator table cache
cache-IsCoherent =
    new-IsCoherent count_validator count_validator-IsValidator table 2 fresh fresh-IsReady refl
      (omega arith)

cache_entry-IsCoherent_example :
    (next : TlbCache CountCacheValidator) × (cache_entry count_validator tid 0x1000 cache 0x1234
        page_at
      ≡ some next)
    × IsCoherent count_validator count_validator-IsValidator table next
    × (length next.entries ≡ length cache.entries)
unfolding as_mem_aligned
cache_entry-IsCoherent_example =
    cache_entry-IsCoherent count_validator count_validator-IsValidator {table = table} tid 0x1000
      cache 0x1234 page_at cache-IsCoherent refl

unmapped : (k : ℕ) → table 7 (0x3000 + k * 0x1000) ≡ PhysAddr.invalid
unmapped k = rw (ne→== (0x3000 + k * 0x1000) 0x1000 (omega arith)) refl

cache_invalid_if_uncached-IsCoherent_example :
    (next : TlbCache CountCacheValidator) × (cache_invalid_if_uncached count_validator tid 0x1000
        cache 0x3456 0x5000
      ≡ some next)
    × IsCoherent count_validator count_validator-IsValidator table next
    × (length next.entries ≡ length cache.entries)
unfolding as_mem_aligned
cache_invalid_if_uncached-IsCoherent_example =
    cache_invalid_if_uncached-IsCoherent count_validator count_validator-IsValidator {table = table}
      tid 0x1000 cache 0x3456 0x5000 cache-IsCoherent (λ k h. unmapped k)

try_entry-coherent_example :
    (try_entry count_validator tid 0x1000 cache 0x1234 ≡ some none)
    ⊎ (try_entry count_validator tid 0x1000 cache 0x1234
        ≡ some (some (answer 7 (table 7 (as_mem_aligned 0x1234 0x1000)) 0x1234 0x1000)))
try_entry-coherent_example =
    try_entry-coherent count_validator count_validator-IsValidator tid 0x1000 table cache 0x1234
      cache-IsCoherent

try_entry-cache_entry_example :
    (next : TlbCache CountCacheValidator) × (cache_entry count_validator tid 0x1000 cache 0x1234
        page_at
      ≡ some next)
    × (try_entry count_validator tid 0x1000 next 0x1010
        ≡ some (some (answer 7 page_at 0x1010 0x1000)))
unfolding as_mem_aligned
try_entry-cache_entry_example =
    try_entry-cache_entry count_validator count_validator-IsValidator tid 0x1000 table cache 0x1234
      0x1010 page_at cache-IsCoherent refl refl

try_entry-other_page_example :
    (next : TlbCache CountCacheValidator) × (cache_entry count_validator tid 0x1000 cache 0x1234
        page_at
      ≡ some next)
    × (try_entry count_validator tid 0x1000 next 0x3010 ≡ (
        if get_cache_index cache (as_mem_aligned 0x3010 0x1000) 0x1000
          == get_cache_index cache (as_mem_aligned 0x1234 0x1000) 0x1000
        then some none
        else try_entry count_validator tid 0x1000 cache 0x3010))
unfolding as_mem_aligned
try_entry-other_page_example =
    try_entry-other_page count_validator count_validator-IsValidator tid 0x1000 table cache 0x1234
      0x3010 page_at cache-IsCoherent (omega arith)
