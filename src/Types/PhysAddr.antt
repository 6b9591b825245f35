-- ===== src/Types/PhysAddr.antt =====
-- memflow/src/types/physical_address.rs.
use memflow.Prelude.{
  ℕ, zero, suc, ◌+◌, ◌-◌, ◌*◌, ◌/◌, ◌%◌, ◌^◌, Bool, not, ltb, ◌==◌, if◌then◌else◌,
}
use memflow.Types.Address
use memflow.Types.Address.{Address}
use memflow.Types.Page
use memflow.Types.Page.{PageType, Page}

pub record PhysicalAddress : Type 0 where
  pub address : Address
  pub page_type : PageType
  pub page_size_log2 : ℕ

abbrev pub null : PhysicalAddress
null = record { address = Address.null; page_type = Page.unknown; page_size_log2 = 0 }

abbrev pub invalid : PhysicalAddress
invalid = record { address = Address.invalid; page_type = Page.unknown; page_size_log2 = 0 }

-- `64 - leading_zeros` of a `u64`: the number of binary digits. Each round halves, so 64 rounds
-- reach 0.
unfoldable pub bit_length : ℕ → ℕ → ℕ
bit_length zero n = 0
bit_length (suc fuel) n = let rest = suc (bit_length fuel (n / 2)) in if n == 0 then 0 else rest

-- `with_page`: the subtraction is on `u8`, and wraps in a release build.
unfoldable pub with_page : Address → PageType → ℕ → PhysicalAddress
with_page address page_type page_size = record {
  address = address;
  page_type = page_type;
  page_size_log2 = (bit_length 64 page_size % 2 ^ 8 + 2 ^ 8 - 2) % 2 ^ 8;
}

-- `From<umem>`, as the conversions from the integer types.
unfoldable pub from_umem : ℕ → PhysicalAddress
from_umem n = record { address = n; page_type = Page.unknown; page_size_log2 = 0 }

unfoldable pub is_valid : PhysicalAddress → Bool
unfolding Address.is_valid
is_valid p = Address.is_valid p.address

unfoldable pub has_page : PhysicalAddress → Bool
has_page p = not (p.page_size_log2 == 0)

-- `as umem` of an `i32`: the sign is extended.
abbrev pub i32_as_umem : ℕ → ℕ
i32_as_umem w = if ltb w (2 ^ 31) then w else w + (2 ^ 64 - 2 ^ 32)

-- `page_size`: the literal of `(2 << log2) as umem` is an `i32`, and in a release build the shift
-- takes its amount modulo 32.
unfoldable pub page_size : PhysicalAddress → ℕ
page_size p = i32_as_umem (2 * 2 ^ (p.page_size_log2 % 32) % 2 ^ 32)

unfoldable pub page_base : PhysicalAddress → Address
page_base p =
    if not (has_page p) then Address.invalid else Address.as_mem_aligned p.address (page_size p)

unfoldable pub containing_page : PhysicalAddress → Page
containing_page p = record {
  page_type = p.page_type;
  page_base = page_base p;
  page_size = page_size p;
}
