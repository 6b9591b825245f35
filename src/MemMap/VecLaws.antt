-- ===== src/MemMap/VecLaws.antt =====
-- A memory map goes through a vector of mappings and comes back.
use memflow.Prelude.{
  ℕ, ◌+◌, ◌-◌, ◌^◌, ◌≤◌, ◌<◌, ◌≡◌, refl, arith, ap, ◌∙◌, some, [], ◌∷◌, ◌++◌, lt→ltb, All, All-imp,
  All_append,
}
use mathlib.Core.Option
use mathlib.Core.List.{append-nil, append_assoc}
use native.Mathlib.Nat.{mod-eq_of_lt}
use memflow.Types.Address.{Address, add}
use memflow.Iter.Split.{umem_split, pair_split}
use memflow.MemMap.Map.{
  MemoryMapping, Remap, push_remap, push_range, into_vec, from_vec_onto, from_vec,
}
use memflow.MemMap.PushLaws.{push_last}

-- Regions that are not empty, do not wrap, and ascend from an address on without overlap.
unfoldable pub IsAscending : ℕ → Remap → Type 0
IsAscending low [] = Unit
IsAscending low (m ∷ ms) =
    (low ≤ m.base)
    × (0 < m.output.1)
    × (m.base + m.output.1 < 2 ^ 64)
    × IsAscending (m.base + m.output.1) ms

abbrev Below : ℕ → MemoryMapping (Address × ℕ) → Type 0
Below low m = m.base + m.output.1 ≤ low

push_range-last :
    (done : Remap) (m : MemoryMapping (Address × ℕ))
    → All (Below m.base) done
    → 0 < m.output.1
    → m.base + m.output.1 < 2 ^ 64
    → push_range done m.base (add m.base m.output.1) m.output.0 ≡ some (done ++ m ∷ [])
unfolding push_range push_remap
push_range-last done m before pos fits =
    let whole : add m.base m.output.1 ≡ m.base + m.output.1 = mod-eq_of_lt fits in
    let len : m.base + m.output.1 - m.base ≡ m.output.1 = omega arith in
    rw (whole, lt→ltb m.base (m.base + m.output.1) (omega arith), len)
      (push_last pair_split m.base m.output fits done before)

from_vec_onto-into_vec :
    (low : ℕ) (done rest : Remap)
    → All (Below low) done
    → IsAscending low rest
    → from_vec_onto (some done) (into_vec rest) ≡ some (done ++ rest)
unfolding from_vec_onto into_vec IsAscending Option.bind
from_vec_onto-into_vec low done [] before up = rw append-nil refl
from_vec_onto-into_vec low done (m ∷ ms) before (at, pos, fits, up) =
    let lower = All-imp (λ d h. omega (arith, h, at)) done before in
    let next = push_range-last done m lower pos fits in
    let later = All-imp (λ d h. omega (arith, h)) done lower in
    let all = All_append (Below (m.base + m.output.1)) done (m ∷ []) later (omega arith, tt) in
    ap (λ o. from_vec_onto o (into_vec ms)) next
    ∙ from_vec_onto-into_vec (m.base + m.output.1) (done ++ m ∷ []) ms all up
    ∙ ap some (append_assoc done (m ∷ []) ms)

-- A memory map of regions that are not empty and do not wrap, in ascending order without overlap, is
-- rebuilt from its vector as it was.
pub from_vec-into_vec : (ms : Remap) → IsAscending 0 ms → from_vec (into_vec ms) ≡ some ms
from_vec-into_vec ms up = from_vec_onto-into_vec 0 [] ms tt up
