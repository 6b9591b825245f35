-- ===== src/Mmu/GiveUpLaws.antt =====
-- The end of the walk of memflow/src/mem/virt_translate/mmu/spec.rs when the table entries cannot be
-- read.
use memflow.Prelude.{
  ◌≡◌, refl, ap, ◌∙◌, some, List, [], ◌∷◌, ◌++◌, Bool, true, false, map, All, if◌then◌else◌,
  Bool-cases, inl, inr, ◌⊎◌,
}
use memflow.Prelude.Results.{err}
use memflow.Error.Code.{Error}
use memflow.Types.Address.{Address}
use memflow.Iter.Split.{SplitAtIndex, Addressed}
use memflow.Mmu.Spec.{ArchMmuSpec}
use memflow.Mmu.TranslateData.{TranslationChunk}
use memflow.Mmu.Walk.{ReadMem, read_pt_address_iter}
use memflow.Mmu.Iterate.{Walking, done, drain, give_up, after_read, walk_round}

module _ {ℓ} {A : Type ℓ} (accepts : Error × Addressed A → Bool) (e : Error) where
  -- The pieces up to the first that the callback refuses, that one included, or all of them.
  pub record IsTold (pieces told : List (Addressed A)) : Type ℓ where
    pub untold : List (Addressed A)
    pub whole : pieces ≡ told ++ untold
    pub stops :
        ((untold ≡ []) × All (λ p. accepts (e, p) ≡ true) told)
        ⊎ ((before : List (Addressed A)) × (p : Addressed A) × (told ≡ before ++ p ∷ [])
            × All (λ q. accepts (e, q) ≡ true) before
            × (accepts (e, p) ≡ false))

  record IsDrained (pieces : List (Addressed A)) (r : List (Error × Addressed A) × Bool)
      : Type ℓ where
    pub told : List (Addressed A)
    pub calls : r.0 ≡ map (λ p. (e, p)) told
    pub is_told : IsTold pieces told

  drain-IsDrained : (ps : List (Addressed A)) → IsDrained ps (drain accepts e ps)
  unfolding drain
  drain-IsDrained [] = record {
    told = [];
    calls = refl;
    is_told = record { untold = []; whole = refl; stops = inl (refl, tt) };
  }
  drain-IsDrained (p ∷ ps) =
      let d = drain-IsDrained ps in
      let t = d.is_told in
      elim (Bool-cases (accepts (e, p))) [
        | inl taken ↦ record {
          told = p ∷ d.told;
          calls = rw (taken, d.calls) refl;
          is_told = record {
            untold = t.untold;
            whole = ap (λ l. p ∷ l) t.whole;
            stops = elim t.stops [
              | inl (over, all) ↦ inl (over, (taken, all))
              | inr (before, q, last, all, refused) ↦
                  inr (p ∷ before, q, ap (λ l. p ∷ l) last, (taken, all), refused)
            ];
          };
        }
        | inr refused_here ↦ record {
          told = p ∷ [];
          calls = rw refused_here refl;
          is_told = record {
            untold = ps;
            whole = refl;
            stops = inr ([], p, refl, tt, refused_here);
          };
        }
      ]

  drain-append :
      (ps qs : List (Addressed A))
      → (if (drain accepts e ps).1
          then (drain accepts e ps).0 ++ (drain accepts e qs).0
          else (drain accepts e ps).0)
        ≡ (drain accepts e (ps ++ qs)).0
  unfolding drain
  drain-append [] qs = refl
  drain-append (p ∷ ps) qs = elim (Bool-cases (accepts (e, p))) [
    | inl taken ↦ rw taken (
        under (drain accepts e ps).1 (drain accepts e ps).0 (drain accepts e qs).0
        ∙ ap (λ l. (e, p) ∷ l) (drain-append ps qs))
    | inr refused_here ↦ rw refused_here refl
  ]
    where
      under :
          (b : Bool) (xs ys : List (Error × Addressed A))
          → (if b then (e, p) ∷ (xs ++ ys) else (e, p) ∷ xs) ≡ (e, p) ∷ (if b then xs ++ ys else xs)
      under true xs ys = refl
      under false xs ys = refl

module _ {ℓ} {A : Type ℓ} (s : SplitAtIndex A) (spec : ArchMmuSpec) (dtb : Address) (mem : ReadMem)
    (accepts : Error × Addressed A → Bool) where
  -- Where the read of the table entries fails, the walk ends in that round. The pieces of the working
  -- stack, then those of the waiting one, are reported with the error of the read, in order, up to the
  -- first that the callback refuses, or all of them; nothing more is translated.
  pub walk_round-failed_read :
      (st : Walking A) (c : TranslationChunk) (cs : List TranslationChunk) (e : Error)
      → st.working.chunks ≡ c ∷ cs
      → read_pt_address_iter spec mem (c ∷ cs) ≡ err e
      → (told : List (Addressed A)) × IsTold accepts e (st.working.addrs ++ st.waiting.addrs) told
        × (walk_round ⦃s = s⦄ spec dtb mem accepts st
            ≡ some
                (done (record { out = st.out; out_fail = st.out_fail ++ map (λ p. (e, p)) told })))
  unfolding walk_round after_read give_up
  walk_round-failed_read st c cs e busy failed =
      let d = drain-IsDrained accepts e (st.working.addrs ++ st.waiting.addrs) in
      (
        d.told,
        d.is_told,
        rw (busy, failed)
            (ap (λ calls. some (done (record { out = st.out; out_fail = st.out_fail ++ calls })))
              (drain-append accepts e st.working.addrs st.waiting.addrs ∙ d.calls)),
      )
