-- ===== src/Args/StripLaws.antt =====
-- `split_str_args` on a text of whole parts, and the quotes it strips.
use memflow.Prelude.{
  ℕ, ◌≡◌, refl, ap, ◌∙◌, some, none, List, [], ◌∷◌, ◌++◌, true, false, ◌==◌, inl, inr, Bool-cases,
  All, map,
}
use mathlib.Core.Option
use memflow.Args.Text.{
  Text, double_quote, backslash, comma, equals_sign, is_quote, split_from, or_here, split_once,
  rsplit_once, ends_with, strip_quotes, split_str_args,
}
use memflow.Args.Entries.{join}
use memflow.Args.SplitLaws.{Plain, Whole, Plain-Whole, split_at_sep, split_end}

-- A text that does not begin with a quote.
abbrev pub Unquoted : Text → Type 0
Unquoted [] = Unit
Unquoted (x ∷ xs) = is_quote x ≡ false

pub strip_quotes-Unquoted : (t : Text) → Unquoted t → strip_quotes t ≡ t
unfolding strip_quotes
strip_quotes-Unquoted [] h = refl
strip_quotes-Unquoted (x ∷ xs) h = elim (Bool-cases (ends_with (x ∷ xs) x)) [
  | inl e ↦ rw (e, h) refl
  | inr e ↦ rw e refl
]

ends_with-quote : (x : ℕ) (v : Text) → ends_with (x ∷ (v ++ double_quote ∷ [])) double_quote ≡ true
ends_with-quote x [] = refl
ends_with-quote x (y ∷ ys) = ends_with-quote y ys

rsplit_once-quote : (v : Text) → rsplit_once double_quote (v ++ double_quote ∷ []) ≡ some (v, [])
unfolding rsplit_once
rsplit_once-quote [] = refl
rsplit_once-quote (x ∷ xs) =
    ap (or_here double_quote x (xs ++ double_quote ∷ [])) (rsplit_once-quote xs)

pub strip_quotes_quoted : (v : Text) → strip_quotes (double_quote ∷ (v ++ double_quote ∷ [])) ≡ v
unfolding strip_quotes split_once Option.bind
strip_quotes_quoted v = rw (ends_with-quote double_quote v, rsplit_once-quote v) refl

-- The parts that a separated text splits into.
pub split_from-join :
    (p : Text) (ps : List Text) (prev : ℕ)
    → (prev == backslash) ≡ false
    → All (Whole comma) (p ∷ ps)
    → split_from comma prev none (join (p ∷ ps)) ≡ p ∷ ps
split_from-join p [] prev ok (h, hs) = split_end comma p prev ok h
split_from-join p (q ∷ qs) prev ok (h, hs) =
    split_at_sep comma p (join (q ∷ qs)) prev refl ok h
    ∙ ap (◌∷◌ p) (split_from-join q qs comma refl hs)

strip_all : (ps : List Text) → All Unquoted ps → map strip_quotes ps ≡ ps
strip_all [] h = refl
strip_all (p ∷ ps) (h, hs) = rw (strip_quotes-Unquoted p h, strip_all ps hs) refl

-- A text that is joined from whole parts with commas, none of which begins with a quote, splits into
-- these parts.
pub split_str_args-join :
    (p : Text) (ps : List Text)
    → All (Whole comma) (p ∷ ps)
    → All Unquoted (p ∷ ps)
    → split_str_args (join (p ∷ ps)) comma ≡ p ∷ ps
unfolding split_str_args
split_str_args-join p ps whole plain =
    ap (map strip_quotes) (split_from-join p ps 0 refl whole) ∙ strip_all (p ∷ ps) plain

-- A key and a value.
pub split_str_args-pair :
    (key value : Text)
    → Plain equals_sign key
    → Unquoted key
    → Whole equals_sign value
    → split_str_args (key ++ equals_sign ∷ value) equals_sign ≡ key ∷ strip_quotes value ∷ []
unfolding split_str_args
split_str_args-pair key value plain start whole =
    ap (map strip_quotes) (
      split_at_sep equals_sign key value 0 refl refl (Plain-Whole equals_sign key plain)
      ∙ ap (◌∷◌ key) (split_end equals_sign value equals_sign refl whole))
    ∙ ap (λ k. k ∷ strip_quotes value ∷ []) (strip_quotes-Unquoted key start)

-- A text without a separator or quotes is one part.
pub split_str_args-one :
    (t : Text) → Plain equals_sign t → Unquoted t → split_str_args t equals_sign ≡ t ∷ []
unfolding split_str_args
split_str_args-one t plain start =
    ap (map strip_quotes) (split_end equals_sign t 0 refl (Plain-Whole equals_sign t plain))
    ∙ ap (λ k. k ∷ []) (strip_quotes-Unquoted t start)
