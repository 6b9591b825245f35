-- ===== src/Types/Tests.antt =====
-- Concrete addresses and pages.
use memflow.Prelude.{◌-◌, ◌^◌, ◌≡◌, arith, true}
use memflow.Prelude.Bits.{field_mask}
use memflow.Types.Address.{
  bit_mask, as_mem_aligned, add_signed, sub_signed, sub_address, wrapping_add, wrapping_sub,
}
use memflow.Types.AddressLaws.{bit_mask-field, signed_offsets}
use memflow.Types.PhysAddr.{with_page, page_size, has_page, page_base}
use memflow.Types.PhysAddrLaws.{page_size-with_page}

bit_mask-field_example : bit_mask 12 51 ≡ field_mask 12 40
bit_mask-field_example = bit_mask-field 12 51 (omega arith) (omega arith) (omega arith)

-- The offset is -16.
signed_offsets_example :
    (add_signed 0x20 (2 ^ 64 - 16) ≡ wrapping_add 0x20 (2 ^ 64 - 16))
    × (sub_signed 0x20 (2 ^ 64 - 16) ≡ wrapping_sub 0x20 (2 ^ 64 - 16))
    × (add_signed 0x30 (sub_address 0x20 0x30) ≡ 0x20)
    × (sub_signed 0x20 (sub_address 0x20 0x30) ≡ 0x30)
signed_offsets_example =
    signed_offsets 0x20 0x30 (2 ^ 64 - 16) (omega arith) (omega arith) (omega arith)

page_size-with_page_example :
    (page_size (with_page 0x201234 4 (2 ^ 21)) ≡ 2 ^ 21)
    × (has_page (with_page 0x201234 4 (2 ^ 21)) ≡ true)
    × (page_base (with_page 0x201234 4 (2 ^ 21)) ≡ as_mem_aligned 0x201234 (2 ^ 21))
page_size-with_page_example = page_size-with_page 0x201234 4 21 (omega arith) (omega arith)
