-- ===== src/Args/PrintLaws.antt =====
-- The parts that `Display` of `Args` prints, and how `from_str` reads them.
use memflow.Prelude.{
  ℕ, ◌≡◌, refl, ap, sym, ◌∙◌, arith, [], ◌∷◌, ◌++◌, Bool, false, ◌||◌, ◌==◌, if◌then◌else◌, inl,
  inr, Bool-cases, All, All-imp, All_append,
}
use mathlib.Core.Path.{subst}
use mathlib.Core.List.{append_assoc}
use memflow.Args.Text.{
  Text, double_quote, backslash, comma, equals_sign, is_quote, contains, strip_quotes,
  split_str_args,
}
use memflow.Args.Entries.{ArgEntry, Args, print_entry}
use memflow.Args.HashMap.{map_insert}
use memflow.Args.Parse.{insert_part}
use memflow.Args.SplitLaws.{
  Plain, Whole, Plain-Whole, quoted-Whole, Whole-append, last_or, last_or-append,
}
use memflow.Args.StripLaws.{
  Unquoted, strip_quotes-Unquoted, strip_quotes_quoted, split_str_args-pair,
}

-- A character that is neither a quote nor a separator.
abbrev pub IsPlain : ℕ → Type 0
IsPlain x = (is_quote x ≡ false) × ((x == comma) ≡ false) × ((x == equals_sign) ≡ false)

-- A key without quotes and separators, and a value without quotes and without a backslash at its end.
abbrev pub IsPrintable : ArgEntry → Type 0
IsPrintable a =
    All IsPlain a.key
    × All (λ x. is_quote x ≡ false) a.value
    × ((last_or double_quote a.value == backslash) ≡ false)

pub Plain-comma : (t : Text) → All IsPlain t → Plain comma t
Plain-comma t h =
    All-imp {Q = λ x. (is_quote x ≡ false) × ((x == comma) ≡ false)} (λ x p. (p.0, p.1)) t h

pub Plain-equals : (t : Text) → All IsPlain t → Plain equals_sign t
Plain-equals t h =
    All-imp {Q = λ x. (is_quote x ≡ false) × ((x == equals_sign) ≡ false)} (λ x p. (p.0, p.2)) t h

pub plain-Unquoted : (t : Text) → All IsPlain t → Unquoted t
plain-Unquoted [] h = tt
plain-Unquoted (x ∷ xs) (p, h) = p.0

no_contains :
    (c : ℕ) (t : Text) → All (λ x. is_quote x ≡ false) t → contains t c ≡ false → Plain c t
no_contains c [] h e = tt
no_contains c (x ∷ xs) (q, h) e = ((q, ground (arith, e)), no_contains c xs h (ground (arith, e)))

no_double : (t : Text) → All (λ x. is_quote x ≡ false) t → All (λ x. (double_quote == x) ≡ false) t
no_double [] h = tt
no_double (x ∷ xs) (q, h) = (ground (arith, q), no_double xs h)

value-Unquoted : (t : Text) → All (λ x. is_quote x ≡ false) t → Unquoted t
value-Unquoted [] h = tt
value-Unquoted (x ∷ xs) (q, h) = q

-- The text of a value.
abbrev print_value : Text → Text
print_value v =
    if contains v comma || contains v equals_sign
    then double_quote ∷ (v ++ double_quote ∷ [])
    else v

print_entry-value : (a : ArgEntry) → print_entry a ≡ a.key ++ equals_sign ∷ print_value a.value
unfolding print_entry
print_entry-value a = elim (Bool-cases (contains a.value comma || contains a.value equals_sign)) [
  | inl e ↦ rw e refl
  | inr e ↦ rw e refl
]

module _ (a : ArgEntry) (printable : IsPrintable a) where
  value-Whole :
      (c : ℕ)
      → (double_quote == c) ≡ false
      → ((contains a.value comma || contains a.value equals_sign) ≡ false
          → contains a.value c ≡ false)
      → Whole c (print_value a.value)
  value-Whole c no_sep none_inside =
      elim (Bool-cases (contains a.value comma || contains a.value equals_sign)) [
        | inl e ↦ rw e (quoted-Whole c a.value no_sep (no_double a.value printable.1, printable.2))
        | inr e ↦ rw e (Plain-Whole c a.value (no_contains c a.value printable.1 (none_inside e)))
      ]

  value_back : strip_quotes (print_value a.value) ≡ a.value
  value_back = elim (Bool-cases (contains a.value comma || contains a.value equals_sign)) [
    | inl e ↦ rw e (strip_quotes_quoted a.value)
    | inr e ↦ rw e (strip_quotes-Unquoted a.value (value-Unquoted a.value printable.1))
  ]

  key-Plain : Plain comma (a.key ++ equals_sign ∷ [])
  key-Plain =
      All_append (λ x. (is_quote x ≡ false) × ((x == comma) ≡ false)) a.key (equals_sign ∷ [])
        (Plain-comma a.key printable.0) ((refl, refl), tt)

  key_last : (prev : ℕ) → (last_or prev (a.key ++ equals_sign ∷ []) == backslash) ≡ false
  key_last prev = rw (last_or-append prev a.key (equals_sign ∷ [])) refl

  -- A printed entry goes through the split at commas in one part, and keeps its quotes there.
  pub print_entry-Whole : Whole comma (print_entry a)
  print_entry-Whole =
      let value = value-Whole comma refl (λ e. ground (arith, e)) in
      let whole =
        Whole-append comma (a.key ++ equals_sign ∷ []) (print_value a.value)
          (Plain-Whole comma (a.key ++ equals_sign ∷ []) key-Plain) (λ prev ok. key_last prev)
          value in
      subst (Whole comma)
        (append_assoc a.key (equals_sign ∷ []) (print_value a.value) ∙ sym (print_entry-value a))
        whole

  pub print_entry-Unquoted : Unquoted (print_entry a)
  print_entry-Unquoted = subst Unquoted (sym (print_entry-value a)) (key_first a.key printable.0)
    where
      key_first : (t : Text) → All IsPlain t → Unquoted (t ++ equals_sign ∷ print_value a.value)
      key_first [] h = refl
      key_first (x ∷ xs) (p, h) = p.0

  -- It is read back as the entry.
  pub insert_part-print_entry :
      (first : Bool) (args : Args)
      → insert_part first (print_entry a) (split_str_args (print_entry a) equals_sign) args
        ≡ map_insert args a.key a.value
  unfolding insert_part
  insert_part-print_entry first args =
      let parts =
        ap (λ t. split_str_args t equals_sign) (print_entry-value a)
        ∙ split_str_args-pair a.key (print_value a.value) (Plain-equals a.key printable.0)
            (plain-Unquoted a.key printable.0)
            (value-Whole equals_sign refl (λ e. ground (arith, e)))
        ∙ ap (λ v. a.key ∷ v ∷ []) value_back in
      ap (λ ps. insert_part first (print_entry a) ps args) parts
