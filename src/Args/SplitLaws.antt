-- ===== src/Args/SplitLaws.antt =====
-- `split_str_args` on texts whose quotes close: it splits at the separators outside of them.
use memflow.Prelude.{
  ℕ, ◌≡◌, refl, ap, sym, ◌∙◌, arith, some, none, List, [], ◌∷◌, ◌++◌, true, false, not, ◌&&◌, ◌==◌,
  inl, inr, Bool-cases, All,
}
use mathlib.Core.List.{append-nil, append_assoc}
use memflow.Args.Text.{Text, double_quote, backslash, is_quote, cons_first, split_from}

-- A text without quotes and without the character `c`.
abbrev pub Plain : ℕ → Text → Type 0
Plain c t = All (λ x. (is_quote x ≡ false) × ((x == c) ≡ false)) t

-- The last character, or the one before the text.
abbrev pub last_or : ℕ → Text → ℕ
last_or prev [] = prev
last_or prev (x ∷ xs) = last_or x xs

-- Characters in front of the first part.
abbrev pub prepend : Text → List Text → List Text
prepend [] ps = ps
prepend (x ∷ xs) ps = cons_first x (prepend xs ps)

pub prepend-append : (t u : Text) (ps : List Text) → prepend (t ++ u) ps ≡ prepend t (prepend u ps)
prepend-append [] u ps = refl
prepend-append (x ∷ xs) u ps = ap (cons_first x) (prepend-append xs u ps)

pub prepend_first : (t p : Text) (ps : List Text) → prepend t (p ∷ ps) ≡ (t ++ p) ∷ ps
prepend_first [] p ps = refl
prepend_first (x ∷ xs) p ps = ap (cons_first x) (prepend_first xs p ps)

pub last_or-append : (prev : ℕ) (t u : Text) → last_or prev (t ++ u) ≡ last_or (last_or prev t) u
last_or-append prev [] u = refl
last_or-append prev (x ∷ xs) u = last_or-append x xs u

-- A text that the split at `c` goes over outside of quotes, when no backslash stands before it.
abbrev pub Whole : ℕ → Text → Type 0
Whole c t =
    (prev : ℕ)
    → (prev == backslash) ≡ false
    → (rest : Text)
    → split_from c prev none (t ++ rest) ≡ prepend t (split_from c (last_or prev t) none rest)

Plain-run :
    (c : ℕ) (t : Text)
    → Plain c t
    → (prev : ℕ) (rest : Text)
    → split_from c prev none (t ++ rest) ≡ prepend t (split_from c (last_or prev t) none rest)
unfolding split_from
Plain-run c [] h prev rest = refl
Plain-run c (x ∷ xs) ((no_quote, no_sep), hs) prev rest =
    rw (no_quote, no_sep) (ap (cons_first x) (Plain-run c xs hs x rest))

pub Plain-Whole : (c : ℕ) (t : Text) → Plain c t → Whole c t
Plain-Whole c t h prev ok rest = Plain-run c t h prev rest

-- Inside of double quotes.
quoted_run :
    (c : ℕ) (v : Text)
    → All (λ x. (double_quote == x) ≡ false) v
    → (double_quote == c) ≡ false
    → (prev : ℕ) → (last_or prev v == backslash) ≡ false
    → (rest : Text)
    → split_from c prev (some double_quote) (v ++ double_quote ∷ rest)
      ≡ prepend (v ++ double_quote ∷ []) (split_from c double_quote none rest)
unfolding split_from
quoted_run c [] h no_sep prev ends rest = rw (ends, no_sep) refl
quoted_run c (x ∷ xs) (no_quote, hs) no_sep prev ends rest =
    elim (Bool-cases (is_quote x && not (prev == backslash))) [
      | inl e ↦ rw (e, no_quote) (ap (cons_first x) (quoted_run c xs hs no_sep x ends rest))
      | inr e ↦ rw e (ap (cons_first x) (quoted_run c xs hs no_sep x ends rest))
    ]

last_quote : (prev : ℕ) (v : Text) → last_or prev (v ++ double_quote ∷ []) ≡ double_quote
last_quote prev [] = refl
last_quote prev (x ∷ xs) = last_quote x xs

-- A text in double quotes, without any inside and without a backslash at its end.
abbrev pub Quotable : Text → Type 0
Quotable v =
    All (λ x. (double_quote == x) ≡ false) v × ((last_or double_quote v == backslash) ≡ false)

pub quoted-Whole :
    (c : ℕ) (v : Text)
    → (double_quote == c) ≡ false
    → Quotable v
    → Whole c (double_quote ∷ (v ++ double_quote ∷ []))
unfolding split_from
quoted-Whole c v no_sep (h, ends) prev ok rest =
    rw (ok, append_assoc v (double_quote ∷ []) rest, last_quote double_quote v)
      (ap (cons_first double_quote) (quoted_run c v h no_sep double_quote ends rest))

pub Whole-append :
    (c : ℕ) (t u : Text)
    → Whole c t
    → ((prev : ℕ) → (prev == backslash) ≡ false → (last_or prev t == backslash) ≡ false)
    → Whole c u
    → Whole c (t ++ u)
Whole-append c t u run_t last run_u prev ok rest =
    ap (split_from c prev none) (append_assoc t u rest)
    ∙ run_t prev ok (u ++ rest)
    ∙ ap (prepend t) (run_u (last_or prev t) (last prev ok) rest)
    ∙ sym (prepend-append t u (split_from c (last_or (last_or prev t) u) none rest))
    ∙ ap (λ l. prepend (t ++ u) (split_from c l none rest)) (sym (last_or-append prev t u))

-- The first part ends at the separator.
pub split_at_sep :
    (c : ℕ) (t rest : Text) (prev : ℕ)
    → is_quote c ≡ false
    → (prev == backslash) ≡ false
    → Whole c t
    → split_from c prev none (t ++ c ∷ rest) ≡ t ∷ split_from c c none rest
unfolding split_from
split_at_sep c t rest prev no_quote ok run =
    let self : (c == c) ≡ true = ground arith in
    run prev ok (c ∷ rest)
    ∙ rw (no_quote, self)
        (prepend_first t [] (split_from c c none rest)
          ∙ ap (λ u. u ∷ split_from c c none rest) (append-nil t))

pub split_end :
    (c : ℕ) (t : Text) (prev : ℕ)
    → (prev == backslash) ≡ false
    → Whole c t
    → split_from c prev none t ≡ t ∷ []
unfolding split_from
split_end c t prev ok run =
    ap (split_from c prev none) (sym (append-nil t))
    ∙ run prev ok []
    ∙ prepend_first t [] []
    ∙ rw append-nil refl
