-- ===== src/Mmu/KeepLaws.antt =====
-- The verdicts of `work_through_stack` in memflow/src/mem/virt_translate/mmu/spec.rs: what they pass on
-- comes from present entries that map pages.
use memflow.Prelude.{
  ℕ, zero, suc, ◌+◌, ◌≡◌, refl, Option, some, none, List, [], ◌∷◌, ◌++◌, Bool, true, false, not,
  ◌||◌, All,
}
use memflow.Types.Address.{Address}
use memflow.Iter.Split.{Addressed}
use memflow.Mmu.Spec.{ArchMmuSpec, FlagsType, check_entry, is_final_mapping, get_phys_page}
use memflow.Mmu.TranslateData.{TranslationChunk, pop_data}
use memflow.Mmu.Walk.{
  Translated, Walk, while_some, fail_entry, finish_entry, fail_pieces, finish_pieces, translated,
  ReadMem,
}
use memflow.Mmu.ReadLaws.{IsRead}

-- A translation made with an entry that the memory answered, that is present, and that maps a page.
pub record IsPage {ℓ} {A : Type ℓ} (spec : ArchMmuSpec) (mem : ReadMem) (t : Translated A)
    : Type ℓ where
  pub pt_addr : Address
  pub virt_addr : Address
  pub step : ℕ
  pub prev_flags : FlagsType
  pub read : IsRead spec mem pt_addr
  pub present : check_entry spec pt_addr (step + 1) ≡ true
  pub final : is_final_mapping spec pt_addr step ≡ true
  pub phys : t.phys ≡ get_phys_page spec pt_addr virt_addr step prev_flags

pub present_of : (c r : Bool) → (not c || r) ≡ false → c ≡ true
present_of true r e = refl
present_of false r e = cc

module _ {ℓ} {A : Type ℓ} (spec : ArchMmuSpec) (mem : ReadMem) where
  abbrev pub ArePages : List (Translated A) → Type ℓ
  ArePages = All (IsPage spec mem)

  abbrev pub Keeps : Walk A → Type ℓ
  Keeps w = ArePages w.out

  add_page :
      (ts : List (Translated A)) (t : Translated A)
      → ArePages ts
      → IsPage spec mem t
      → ArePages (ts ++ t ∷ [])
  add_page [] t h p = (p, tt)
  add_page (x ∷ xs) t (q, h) p = (q, add_page xs t h p)

  Keeps-while_some :
      (o : Option (Addressed A)) (w : Walk A) (body : Addressed A → Walk A)
      → Keeps w
      → ((entry : Addressed A) → Keeps (body entry))
      → Keeps (while_some o w body)
  Keeps-while_some none w body h k = h
  Keeps-while_some (some entry) w body h k = k entry

  pub Keeps-fail_pieces :
      (n : ℕ) (c : TranslationChunk) (w : Walk A) → Keeps w → Keeps (fail_pieces n c w)
  unfolding fail_pieces
  Keeps-fail_pieces zero c w h = h
  Keeps-fail_pieces (suc n) c w h =
      let p = pop_data c w.working_addrs in
      Keeps-while_some p.1.0 w (λ entry. fail_pieces n p.0 (fail_entry w p.1.1 entry)) h
        (λ entry. Keeps-fail_pieces n p.0 (fail_entry w p.1.1 entry) h)

  module _ (pt_addr : Address) (step : ℕ) (prev_flags : FlagsType) (read : IsRead spec mem pt_addr)
      (present : check_entry spec pt_addr (step + 1) ≡ true)
      (final : is_final_mapping spec pt_addr step ≡ true) where
    translated-IsPage :
        (entry : Addressed A) → IsPage spec mem (translated spec pt_addr step prev_flags entry)
    translated-IsPage entry = record {
      pt_addr = pt_addr;
      virt_addr = entry.addr;
      step = step;
      prev_flags = prev_flags;
      read = read;
      present = present;
      final = final;
      phys = refl;
    }

    pub Keeps-finish_pieces :
        (n : ℕ) (c : TranslationChunk) (w : Walk A)
        → Keeps w
        → Keeps (finish_pieces spec pt_addr step prev_flags n c w)
    unfolding finish_pieces
    Keeps-finish_pieces zero c w h = h
    Keeps-finish_pieces (suc n) c w h =
        let p = pop_data c w.working_addrs in
        let next : Addressed A → Walk A = finish_entry spec pt_addr step prev_flags w p.1.1 in
        Keeps-while_some p.1.0 w
          (λ entry. finish_pieces spec pt_addr step prev_flags n p.0 (next entry)) h
          (λ entry. Keeps-finish_pieces n p.0 (next entry) (
            add_page w.out (translated spec pt_addr step prev_flags entry) h
              (translated-IsPage entry)))
