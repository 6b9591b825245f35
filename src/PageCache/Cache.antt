-- ===== src/PageCache/Cache.antt =====
-- `PageCache` of memflow/src/mem/phys_mem/middleware/cache/page_cache.rs, over any validator. A page
-- buffer is its bytes: taking one moves it out of the cache, and putting it moves it back. `none` is
-- the panic of an index out of range, or of a division by zero.
use memflow.Prelude.{
  ℕ, ◌/◌, ◌%◌, bit_and, Option, some, none, List, Bool, true, false, ◌||◌, ltb, ◌==◌, if◌then◌else◌,
  length, get_elem?, set, replicate,
}
use mathlib.Core.Option
use memflow.Types.Address.{Address, invalid, as_mem_aligned}
use memflow.Types.Page.{PageType}
use memflow.Cache.Validator.{CacheValidator}

abbrev pub Bytes : Type 0
Bytes = List ℕ

pub data PageValidity : Type 0 where
  is_invalid : PageValidity
  validatable : Bytes → PageValidity
  to_be_validated : PageValidity
  is_valid : Bytes → PageValidity

pub record CacheEntry : Type 0 where
  pub address : Address
  pub validity : PageValidity

pub record PageCache {ℓ} (V : Type ℓ) : Type ℓ where
  pub address : List Address
  pub page_refs : List (Option Bytes)
  pub address_once_validated : List Address
  pub page_size : ℕ
  pub page_type_mask : PageType
  pub validator : V

-- `PageType::contains`.
abbrev pub contains : PageType → PageType → Bool
contains mask t = bit_and mask t == t

-- An assignment to an index.
abbrev pub assign {ℓ} : {A : Type ℓ} → List A → ℕ → A → Option (List A)
assign xs i v = if ltb i (length xs) then some (set xs i v) else none

module _ {ℓ} {V : Type ℓ} where
  abbrev pub page_of : PageCache V → Address → Address
  page_of cache addr = as_mem_aligned addr cache.page_size

  unfoldable pub page_index : PageCache V → Address → ℕ
  page_index cache addr =
      as_mem_aligned addr cache.page_size / cache.page_size % length cache.address

  unfoldable pub is_cached_page_type : PageCache V → PageType → Bool
  is_cached_page_type cache page_type = contains cache.page_type_mask page_type

-- The verdict on a buffer that was in its slot.
abbrev pub judge_buffer : Bytes → Bool → Address → Address → PageValidity
judge_buffer buf holds once page =
    if holds
    then is_valid buf
    else if once == page || once == invalid
    then validatable buf
    else is_invalid

module _ {ℓ} {V : Type ℓ} (c : CacheValidator V) where
  -- `with_page_size`, for a page size that is a power of two; a buffer starts with zeros.
  unfoldable pub with_page_size : ℕ → ℕ → PageType → V → PageCache V
  with_page_size page_size size page_type_mask validator =
      let cache_entries = size / page_size in
      record {
        address = replicate cache_entries invalid;
        page_refs = replicate cache_entries (some (replicate page_size 0));
        address_once_validated = replicate cache_entries invalid;
        page_size = page_size;
        page_type_mask = page_type_mask;
        validator = c.allocate_slots validator cache_entries;
      }

  -- The first test of `take_page`; the validator is asked only for the page of the slot.
  abbrev pub slot_holds : V → ℕ → Bool → Bool → Option Bool
  slot_holds validator idx false skip_validator = some false
  slot_holds validator idx true true = some true
  slot_holds validator idx true false = c.is_slot_valid validator idx

  -- The verdict of `take_page`.
  abbrev pub judge_slot :
      V → ℕ → Bool → Address → Address → Address → Option Bytes → Option PageValidity
  judge_slot validator idx skip at once page none =
      some (if once == page then to_be_validated else is_invalid)
  judge_slot validator idx skip at once page (some buf) =
      Option.map (λ holds. judge_buffer buf holds once page)
        (slot_holds validator idx (at == page) skip)

  -- `take_page`: the buffer leaves its slot in every case.
  unfoldable pub take_page : PageCache V → Address → Bool → Option (PageValidity × PageCache V)
  take_page cache addr skip_validator =
      let idx = page_index cache addr in
      let page = page_of cache addr in
      Option.bind (get_elem? cache.page_refs idx) (λ bufopt.
        Option.bind (get_elem? cache.address idx) (λ at.
          Option.bind (get_elem? cache.address_once_validated idx) (λ once.
            Option.map (λ v. (v, record cache { page_refs = set cache.page_refs idx none }))
              (judge_slot cache.validator idx skip_validator at once page bufopt))))

  unfoldable pub cached_page_mut : PageCache V → Address → Bool → Option (CacheEntry × PageCache V)
  cached_page_mut cache addr skip_validator =
      Option.map (λ r. (record { address = page_of cache addr; validity = r.0 }, r.1))
        (take_page cache addr skip_validator)

  unfoldable pub put_page : PageCache V → Address → Bytes → Option (PageCache V)
  put_page cache addr page =
      Option.map (λ refs. record cache { page_refs = refs })
        (assign cache.page_refs (page_index cache addr) (some page))

  unfoldable pub put_entry : PageCache V → CacheEntry → Option (PageCache V)
  put_entry cache entry = elim entry.validity [
    | is_valid buf ↦ put_page cache entry.address buf
    | validatable buf ↦ put_page cache entry.address buf
    | is_invalid ↦ some cache
    | to_be_validated ↦ some cache
  ]

  unfoldable pub mark_page_for_validation : PageCache V → Address → Option (PageCache V)
  mark_page_for_validation cache addr =
      Option.map (λ once. record cache { address_once_validated = once })
        (assign cache.address_once_validated (page_index cache addr) (page_of cache addr))

  unfoldable pub invalidate_page_raw : PageCache V → Address → Option (PageCache V)
  invalidate_page_raw cache addr =
      let idx = page_index cache addr in
      Option.bind (c.invalidate_slot cache.validator idx) (λ v.
        Option.bind (assign cache.address idx invalid) (λ address.
          Option.map
            (λ once. record cache {
              address = address;
              address_once_validated = once;
              validator = v;
            })
            (assign cache.address_once_validated idx invalid)))

  unfoldable pub invalidate_page : PageCache V → Address → PageType → Option (PageCache V)
  invalidate_page cache addr page_type =
      let rest = invalidate_page_raw cache addr in
      if contains cache.page_type_mask page_type then rest else some cache

  unfoldable pub cancel_page_validation : PageCache V → Address → Bytes → Option (PageCache V)
  cancel_page_validation cache addr page_buf =
      Option.bind (get_elem? cache.address_once_validated (page_index cache addr)) (λ once.
        let rest =
          Option.bind (invalidate_page_raw cache addr) (λ next. put_page next addr page_buf) in
        if once == addr then rest else some cache)

  unfoldable pub validate_page : PageCache V → Address → Bytes → Option (PageCache V)
  validate_page cache addr page_buf =
      let idx = page_index cache addr in
      Option.bind (assign cache.address idx addr) (λ address.
        Option.bind (assign cache.address_once_validated idx invalid) (λ once.
          Option.bind (c.validate_slot cache.validator idx) (λ v.
            put_page
              (record cache { address = address; address_once_validated = once; validator = v })
              addr page_buf)))
