-- ===== src/Mmu/ReadLaws.antt =====
-- The table entries that the walk of memflow/src/mem/virt_translate/mmu/spec.rs works on are those
-- that the memory answered.
use memflow.Prelude.{
  ℕ, ◌≡◌, refl, ap, ◌∙◌, List, [], ◌∷◌, ◌++◌, All, length, length-map, map, arith,
}
use memflow.Prelude.Results.{Result, ok, err}
use mathlib.Core.Path.{subst}
use mathlib.Core.List.{append_assoc}
use memflow.Types.PhysAddr.{PhysicalAddress}
use memflow.Error.Code.{Error}
use memflow.Types.Address.{Address}
use memflow.Mmu.Spec.{ArchMmuSpec}
use memflow.Mmu.TranslateData.{TranslationChunk, update_flags}
use memflow.Mmu.Walk.{
  ReadMem, reverse_onto, buf_to_addr, entry_addr, load_entry, load_entries, read_pt_address_iter,
}

-- An entry of a table as the memory answered it, in the byte order of the description.
pub record IsRead (spec : ArchMmuSpec) (mem : ReadMem) (pt_addr : Address) : Type 0 where
  pub requests : List PhysicalAddress
  pub before : List (List ℕ)
  pub buf : List ℕ
  pub after : List (List ℕ)
  pub answered : mem requests spec.def.pte_size ≡ ok (before ++ buf ∷ after)
  pub entry : pt_addr ≡ buf_to_addr spec.def.endianess spec.def.pte_size buf

-- A memory that answers each request of a read that succeeds.
abbrev pub AnswersAll : ReadMem → Type 0
AnswersAll mem =
    (requests : List PhysicalAddress) (size : ℕ) (bufs : List (List ℕ))
    → mem requests size ≡ ok bufs
    → length bufs ≡ length requests

-- The parts of an answer.
record IsPart (bufs : List (List ℕ)) (buf : List ℕ) : Type 0 where
  pub before : List (List ℕ)
  pub after : List (List ℕ)
  pub whole : bufs ≡ before ++ buf ∷ after

all_parts : (xs ys : List (List ℕ)) → All (IsPart (xs ++ ys)) ys
all_parts xs [] = tt
all_parts xs (y ∷ ys) = (
  record { before = xs; after = ys; whole = refl },
  subst (λ l. All (IsPart l) ys) (append_assoc xs (y ∷ []) ys) (all_parts (xs ++ y ∷ []) ys),
)

module _ (spec : ArchMmuSpec) (mem : ReadMem) where
  abbrev pub HasRead : TranslationChunk → Type 0
  HasRead c = IsRead spec mem c.pt_addr

  reverse_onto-HasRead :
      (xs ys : List TranslationChunk)
      → All HasRead xs
      → All HasRead ys
      → All HasRead (reverse_onto xs ys)
  reverse_onto-HasRead [] ys h g = g
  reverse_onto-HasRead (x ∷ xs) ys (h, hs) g = reverse_onto-HasRead xs (x ∷ ys) hs (h, g)

  load_entries-HasRead :
      (requests : List PhysicalAddress) (all : List (List ℕ))
      → mem requests spec.def.pte_size ≡ ok all
      → (cs : List TranslationChunk) (bufs : List (List ℕ)) → length bufs ≡ length cs
      → All (IsPart all) bufs
      → All HasRead (load_entries spec cs bufs)
  unfolding load_entry update_flags
  load_entries-HasRead requests all e [] bufs n h = tt
  load_entries-HasRead requests all e (c ∷ cs) [] n h = absurd (omega (arith, n))
  load_entries-HasRead requests all e (c ∷ cs) (b ∷ bs) n (h, hs) = (
    record {
      requests = requests;
      before = h.before;
      buf = b;
      after = h.after;
      answered = e ∙ ap ok h.whole;
      entry = refl;
    },
    load_entries-HasRead requests all e cs bs (omega (arith, n)) hs,
  )

  abbrev pub Loaded : Result (List TranslationChunk) Error → Type 0
  Loaded (ok cs) = All HasRead cs
  Loaded (err e) = Unit

  pub read_pt_address_iter-Loaded :
      AnswersAll mem → (cs : List TranslationChunk) → Loaded (read_pt_address_iter spec mem cs)
  unfolding read_pt_address_iter
  read_pt_address_iter-Loaded full cs = by_answer (mem requests spec.def.pte_size) refl
    where
      upwards : List TranslationChunk
      upwards = reverse_onto cs []

      requests : List PhysicalAddress
      requests = map (entry_addr spec) upwards

      by_answer :
          (r : Result (List (List ℕ)) Error)
          → mem requests spec.def.pte_size ≡ r
          → Loaded (elim r [
            | ok bufs ↦ ok (reverse_onto (load_entries spec upwards bufs) [])
            | err e ↦ err e
          ])
      by_answer (err e) eq = tt
      by_answer (ok bufs) eq =
          reverse_onto-HasRead (load_entries spec upwards bufs) []
            (load_entries-HasRead requests bufs eq upwards bufs
              (full requests spec.def.pte_size bufs eq ∙ length-map upwards (entry_addr spec))
              (all_parts [] bufs))
            tt
