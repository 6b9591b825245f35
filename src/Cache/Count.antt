-- ===== src/Cache/Count.antt =====
-- `CountCacheValidator` of memflow/src/types/cache/count_validator.rs. A `usize` is a number below
-- 2 ^ 64; `invalidate_slot` subtracts without `wrapping_sub`, which wraps in a release build.
use memflow.Prelude.{
  ℕ, ◌-◌, Option, some, none, List, [], ◌++◌, Bool, length, get_elem?, set, take, replicate, ltb,
  if◌then◌else◌,
}
use mathlib.Core.Option
use memflow.Types.Address.{add, sub}
use memflow.Cache.Validator.{CacheValidator}

pub record CountCacheValidator : Type 0 where
  pub count : List ℕ
  pub valid_count : ℕ
  pub last_count : ℕ

unfoldable pub new : ℕ → CountCacheValidator
new valid_count = record { count = []; valid_count = valid_count; last_count = 0 }

-- `Default`.
abbrev pub default : CountCacheValidator
default = new 10

abbrev pub with_count : CountCacheValidator → List ℕ → CountCacheValidator
with_count v count = record {
  count = count;
  valid_count = v.valid_count;
  last_count = v.last_count;
}

-- `Vec::resize`.
abbrev pub resize {ℓ} : {A : Type ℓ} → List A → ℕ → A → List A
resize xs n a = take n xs ++ replicate (n - length xs) a

unfoldable pub allocate_slots : CountCacheValidator → ℕ → CountCacheValidator
allocate_slots v slot_count =
    with_count v (resize v.count slot_count (sub v.last_count v.valid_count))

unfoldable pub update_validity : CountCacheValidator → CountCacheValidator
update_validity v = record {
  count = v.count;
  valid_count = v.valid_count;
  last_count = add v.last_count 1;
}

unfoldable pub is_slot_valid : CountCacheValidator → ℕ → Option Bool
is_slot_valid v slot_id =
    Option.map (λ c. ltb (sub v.last_count c) v.valid_count) (get_elem? v.count slot_id)

-- A write to a slot; out of range it panics.
abbrev pub write_slot : CountCacheValidator → ℕ → ℕ → Option CountCacheValidator
write_slot v slot_id c =
    if ltb slot_id (length v.count) then some (with_count v (set v.count slot_id c)) else none

unfoldable pub validate_slot : CountCacheValidator → ℕ → Option CountCacheValidator
validate_slot v slot_id = write_slot v slot_id v.last_count

unfoldable pub invalidate_slot : CountCacheValidator → ℕ → Option CountCacheValidator
invalidate_slot v slot_id = write_slot v slot_id (sub v.last_count v.valid_count)

abbrev pub count_validator : CacheValidator CountCacheValidator
count_validator = record {
  allocate_slots = allocate_slots;
  update_validity = update_validity;
  is_slot_valid = is_slot_valid;
  validate_slot = validate_slot;
  invalidate_slot = invalidate_slot;
}
