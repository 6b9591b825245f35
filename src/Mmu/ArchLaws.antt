-- ===== src/Mmu/ArchLaws.antt =====
-- Every MMU description of memflow/src/architecture meets the conditions of a well-formed one.
use memflow.Prelude.{ℕ, refl, arith, Bool, leb, leb→le, ltb, ltb→lt}
use memflow.Prelude.Bits.{all_below_sound, all_from}
use memflow.Mmu.Def.{ArchMmuDef, max_index_bits, pte_min_bit, split_at_step, trailing_zeros}
use memflow.Mmu.TableLaws.{IsWellFormed}
use memflow.Mmu.Arch.{x64, x32, x32_pae, aarch64}

abbrev entry_bits? : ArchMmuDef → ℕ → Bool
entry_bits? def step = ltb (pte_min_bit def step) def.address_space_bits

abbrev split_pos? : ArchMmuDef → ℕ → Bool
split_pos? def step = ltb 0 (split_at_step def step)

abbrev index_bits? : ArchMmuDef → ℕ → Bool
index_bits? def step = leb (max_index_bits def step) 64

pub x64-IsWellFormed : IsWellFormed x64
unfolding x64 all_from pte_min_bit max_index_bits trailing_zeros
x64-IsWellFormed = record {
  levels = omega arith;
  space_pos = omega arith;
  space_le = omega arith;
  entry = refl;
  entry_bits = λ step h. ltb→lt _ _ (all_below_sound 5 (entry_bits? x64) step refl h);
  split_pos = λ step h. ltb→lt _ _ (all_below_sound 5 (split_pos? x64) step refl h);
  index_bits = λ step h. leb→le _ _ (all_below_sound 5 (index_bits? x64) step refl h);
}

pub x32-IsWellFormed : IsWellFormed x32
unfolding x32 all_from pte_min_bit max_index_bits trailing_zeros
x32-IsWellFormed = record {
  levels = omega arith;
  space_pos = omega arith;
  space_le = omega arith;
  entry = refl;
  entry_bits = λ step h. ltb→lt _ _ (all_below_sound 3 (entry_bits? x32) step refl h);
  split_pos = λ step h. ltb→lt _ _ (all_below_sound 3 (split_pos? x32) step refl h);
  index_bits = λ step h. leb→le _ _ (all_below_sound 3 (index_bits? x32) step refl h);
}

pub x32_pae-IsWellFormed : IsWellFormed x32_pae
unfolding x32_pae all_from pte_min_bit max_index_bits trailing_zeros
x32_pae-IsWellFormed = record {
  levels = omega arith;
  space_pos = omega arith;
  space_le = omega arith;
  entry = refl;
  entry_bits = λ step h. ltb→lt _ _ (all_below_sound 4 (entry_bits? x32_pae) step refl h);
  split_pos = λ step h. ltb→lt _ _ (all_below_sound 4 (split_pos? x32_pae) step refl h);
  index_bits = λ step h. leb→le _ _ (all_below_sound 4 (index_bits? x32_pae) step refl h);
}

pub aarch64-IsWellFormed : IsWellFormed aarch64
unfolding aarch64 all_from pte_min_bit max_index_bits trailing_zeros
aarch64-IsWellFormed = record {
  levels = omega arith;
  space_pos = omega arith;
  space_le = omega arith;
  entry = refl;
  entry_bits = λ step h. ltb→lt _ _ (all_below_sound 5 (entry_bits? aarch64) step refl h);
  split_pos = λ step h. ltb→lt _ _ (all_below_sound 5 (split_pos? aarch64) step refl h);
  index_bits = λ step h. leb→le _ _ (all_below_sound 5 (index_bits? aarch64) step refl h);
}
