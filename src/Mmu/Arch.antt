-- ===== src/Mmu/Arch.antt =====
-- The MMU descriptions of memflow/src/architecture: x86/x64.rs, x86/x32.rs, x86/x32_pae.rs and
-- arm/aarch64.rs.
use memflow.Prelude.{false, not, ◌||◌, [], ◌∷◌}
use memflow.Types.Address.{bit_at}
use memflow.Mmu.Def.{ArchMmuDef, little_endian}

unfoldable pub x64 : ArchMmuDef
x64 = record {
  virtual_address_splits = 9 ∷ 9 ∷ 9 ∷ 9 ∷ 12 ∷ [];
  valid_final_page_steps = 2 ∷ 3 ∷ 4 ∷ [];
  address_space_bits = 52;
  endianess = little_endian;
  addr_size = 8;
  pte_size = 8;
  present_bit = λ a. bit_at a 0;
  writeable_bit = λ a pb. pb || bit_at a 1;
  nx_bit = λ a pb. pb || bit_at a 63;
  large_page_bit = λ a. bit_at a 7;
}

unfoldable pub x32 : ArchMmuDef
x32 = record {
  virtual_address_splits = 10 ∷ 10 ∷ 12 ∷ [];
  valid_final_page_steps = 1 ∷ 2 ∷ [];
  address_space_bits = 32;
  endianess = little_endian;
  addr_size = 4;
  pte_size = 4;
  present_bit = λ a. bit_at a 0;
  writeable_bit = λ a pb. pb || bit_at a 1;
  nx_bit = λ a pb. false;
  large_page_bit = λ a. bit_at a 7;
}

unfoldable pub x32_pae : ArchMmuDef
x32_pae = record {
  virtual_address_splits = 2 ∷ 9 ∷ 9 ∷ 12 ∷ [];
  valid_final_page_steps = 2 ∷ 3 ∷ [];
  address_space_bits = 36;
  endianess = little_endian;
  addr_size = 4;
  pte_size = 8;
  present_bit = λ a. bit_at a 0;
  writeable_bit = λ a pb. pb || bit_at a 1;
  nx_bit = λ a pb. pb || bit_at a 63;
  large_page_bit = λ a. bit_at a 7;
}

unfoldable pub aarch64 : ArchMmuDef
aarch64 = record {
  virtual_address_splits = 9 ∷ 9 ∷ 9 ∷ 9 ∷ 12 ∷ [];
  valid_final_page_steps = 2 ∷ 3 ∷ 4 ∷ [];
  address_space_bits = 52;
  endianess = little_endian;
  addr_size = 8;
  pte_size = 8;
  present_bit = λ a. bit_at a 0;
  writeable_bit = λ a pb. bit_at a 10;
  nx_bit = λ a pb. bit_at a 54;
  large_page_bit = λ a. not (bit_at a 1);
}
