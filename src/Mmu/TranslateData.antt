-- ===== src/Mmu/TranslateData.antt =====
-- memflow/src/mem/virt_translate/mmu/translate_data.rs: the pieces of a virtual range on their way
-- through the page walk. A stack (`MVec`) is a list whose first entry is its top.
use memflow.Prelude.{
  ℕ, ◌+◌, ◌-◌, ◌*◌, ◌/◌, ◌%◌, ◌^◌, Option, some, none, List, [], ◌∷◌, Bool, false, not, ltb, ◌==◌,
  if◌then◌else◌, min, max,
}
use memflow.Types.Address.{Address, add, saturating_sub, umem_max, wrapping_sub}
use memflow.Iter.Split.{SplitAtIndex, Addressed, data_split, split_at_data, split_at_rev}
use memflow.Mmu.Def.{ArchMmuDef, page_size_step_unchecked}
use memflow.Mmu.Spec.{FlagsType}

module _ {ℓ} {A : Type ℓ} ⦃s : SplitAtIndex A⦄ where
  unfoldable pub split_at_address :
      Addressed A → Address → Option (Addressed A) × Option (Addressed A)
  split_at_address x addr = split_at_data x (saturating_sub addr x.addr)

  unfoldable pub split_at_address_rev :
      Addressed A → Address → Option (Addressed A) × Option (Addressed A)
  split_at_address_rev x addr =
      let base = add x.addr (s.size x.buf) in
      split_at_rev ⦃s = data_split⦄ x (saturating_sub base addr)

-- `FlagsType::nx` and `FlagsType::writeable`.
abbrev pub set_nx : FlagsType → Bool → FlagsType
set_nx flags flag = record { writeable = flags.writeable; nx = flag }

abbrev pub set_writeable : FlagsType → Bool → FlagsType
set_writeable flags flag = record { writeable = flag; nx = flags.nx }

-- A group of pieces that one page table entry serves.
pub record TranslationChunk : Type 0 where
  pub pt_addr : Address
  pub addr_count : ℕ
  pub min_addr : Address
  pub max_addr : Address
  pub step : ℕ
  pub prev_flags : FlagsType

abbrev pub with_minmax : Address → FlagsType → Address → Address → TranslationChunk
with_minmax pt_addr prev_flags min_addr max_addr = record {
  pt_addr = pt_addr;
  addr_count = 0;
  min_addr = min_addr;
  max_addr = max_addr;
  step = 0;
  prev_flags = prev_flags;
}

abbrev pub new : Address → FlagsType → TranslationChunk
new pt_addr prev_flags = with_minmax pt_addr prev_flags umem_max 0

unfoldable pub update_flags : TranslationChunk → ArchMmuDef → TranslationChunk
update_flags chunk mmu_def =
    let none_set : FlagsType = record { writeable = false; nx = false } in
    let writeable = mmu_def.writeable_bit chunk.pt_addr chunk.prev_flags.writeable in
    let nx = mmu_def.nx_bit chunk.pt_addr chunk.prev_flags.nx in
    record {
      pt_addr = chunk.pt_addr;
      addr_count = chunk.addr_count;
      min_addr = chunk.min_addr;
      max_addr = chunk.max_addr;
      step = chunk.step;
      prev_flags = set_nx (set_writeable none_set writeable) nx;
    }

module _ {ℓ} {A : Type ℓ} ⦃s : SplitAtIndex A⦄ where
  unfoldable pub push_data :
      TranslationChunk → Addressed A → List (Addressed A) → TranslationChunk × List (Addressed A)
  push_data chunk piece stack = (
    record {
      pt_addr = chunk.pt_addr;
      addr_count = chunk.addr_count + 1;
      min_addr = min chunk.min_addr piece.addr;
      max_addr = max chunk.max_addr (add piece.addr (s.size piece.buf));
      step = chunk.step;
      prev_flags = chunk.prev_flags;
    },
    piece ∷ stack,
  )

-- The pop of a stack.
abbrev pub pop {ℓ} : {A : Type ℓ} → List A → Option A × List A
pop [] = (none, [])
pop (x ∷ xs) = (some x, xs)

unfoldable pub pop_data {ℓ} :
    {A : Type ℓ}
    → TranslationChunk
    → List (Addressed A)
    → TranslationChunk × (Option (Addressed A) × List (Addressed A))
pop_data chunk stack =
    if ltb 0 chunk.addr_count
    then (
      record {
        pt_addr = chunk.pt_addr;
        addr_count = chunk.addr_count - 1;
        min_addr = chunk.min_addr;
        max_addr = chunk.max_addr;
        step = chunk.step;
        prev_flags = chunk.prev_flags;
      },
      pop stack,
    )
    else (chunk, (none, stack))

unfoldable pub next_max_addr_count : TranslationChunk → ArchMmuDef → ℕ
next_max_addr_count chunk def =
    let step_size = page_size_step_unchecked def (chunk.step + 1) in
    let addr_diff = wrapping_sub chunk.max_addr chunk.min_addr in
    let more = if not (addr_diff % step_size == 0) then 1 else 0 in
    chunk.addr_count * (addr_diff / step_size + more) % 2 ^ 64
