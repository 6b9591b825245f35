-- ===== src/Types/Address.antt =====
-- memflow/src/types/address.rs with `umem = u64` and a 64-bit `usize` (the default features). An
-- `Address` is its `umem`, a number below 2 ^ 64. `+` and `-` wrap, as in a release build; a debug
-- build panics where they would.
use memflow.Prelude.{
  ℕ, ◌+◌, ◌-◌, ◌*◌, ◌/◌, ◌%◌, ◌^◌, bit_and, Bool, not, Option, some, none, ltb, ◌==◌, if◌then◌else◌,
}

abbrev pub Address : Type 0
Address = ℕ

abbrev pub umem_bits : ℕ
umem_bits = 64

abbrev pub umem_max : ℕ
umem_max = 2 ^ 64 - 1

abbrev pub null : Address
null = 0

abbrev pub invalid : Address
invalid = umem_max

-- `a + n`, `a - n`, `!a`, `a << k` and `a >> k` of a `u64`: a release build takes a shift modulo 64,
-- and a debug build panics at 64 and above.
abbrev pub add : ℕ → ℕ → ℕ
add a n = (a + n) % 2 ^ 64

abbrev pub sub : ℕ → ℕ → ℕ
sub a n = (a + 2 ^ 64 - n) % 2 ^ 64

abbrev pub complement : ℕ → ℕ
complement a = umem_max - a

abbrev pub shl : ℕ → ℕ → ℕ
shl a k = a * 2 ^ (k % 64) % 2 ^ 64

abbrev pub shr : ℕ → ℕ → ℕ
shr a k = a / 2 ^ (k % 64)

-- `a - n` of a `u8`.
abbrev pub sub_u8 : ℕ → ℕ → ℕ
sub_u8 a n = (a + 2 ^ 8 - n) % 2 ^ 8

-- `clamp_to_usize`.
unfoldable pub clamp_to_usize : ℕ → ℕ
clamp_to_usize val = let max = umem_max in if ltb max val then max else val

-- `Address::bit_mask` and `bit_mask_u8`; the bounds are `u8`s.
unfoldable pub bit_mask : ℕ → ℕ → Address
bit_mask start end =
    bit_and (shr umem_max (sub_u8 (umem_bits - 1) end)) (complement (sub (shl 1 start) 1))

unfoldable pub is_null : Address → Bool
is_null a = a == 0

unfoldable pub non_null : Address → Option Address
unfolding is_null
non_null a = if is_null a then none else some a

unfoldable pub is_valid : Address → Bool
is_valid a = not (a == invalid)

-- `as_mem_aligned` and `as_page_aligned`; the source divides by `mem_size`, so it panics at 0.
unfoldable pub as_mem_aligned : Address → ℕ → Address
as_mem_aligned a mem_size = a - a % mem_size

unfoldable pub bit_at : Address → ℕ → Bool
bit_at a idx = not (bit_and a (shl 1 idx) == 0)

unfoldable pub extract_bits : Address → ℕ → ℕ → Address
unfolding bit_mask
extract_bits a start end = bit_and a (bit_mask start end)

unfoldable pub wrapping_add : Address → Address → Address
wrapping_add a b = (a + b) % 2 ^ 64

unfoldable pub wrapping_sub : Address → Address → Address
wrapping_sub a b = (a + 2 ^ 64 - b) % 2 ^ 64

-- `saturating_sub` of `u64`.
abbrev pub saturating_sub : ℕ → ℕ → ℕ
saturating_sub a b = a - b

-- A signed operand is its two's complement pattern; `as umem` keeps the pattern.
abbrev pub is_nonneg : ℕ → Bool
is_nonneg w = ltb w (2 ^ 63)

abbrev pub negate : ℕ → ℕ
negate w = (2 ^ 64 - w) % 2 ^ 64

-- `Add<i64>` and `Sub<i64>`.
unfoldable pub add_signed : Address → ℕ → Address
add_signed a other = if is_nonneg other then add a other else sub a (negate other)

unfoldable pub sub_signed : Address → ℕ → Address
sub_signed a other = if is_nonneg other then sub a other else add a (negate other)

-- `Sub for Address`, whose result is an `imem`.
unfoldable pub sub_address : Address → Address → ℕ
sub_address a other = if ltb other a then a - other else negate (other - a)
