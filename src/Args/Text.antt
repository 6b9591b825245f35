-- ===== src/Args/Text.antt =====
-- Texts of memflow/src/plugins/args.rs, and `split_str_args`, which splits at a character outside of
-- quotes. A `char` is its code, and a text the list of its characters.
use memflow.Prelude.{
  ℕ, Option, some, none, List, [], ◌∷◌, Bool, true, false, not, ◌&&◌, ◌||◌, ◌==◌, if◌then◌else◌,
  map,
}
use mathlib.Core.Option

abbrev pub Text : Type 0
Text = List ℕ

abbrev pub double_quote : ℕ
double_quote = 34

abbrev pub single_quote : ℕ
single_quote = 39

abbrev pub back_quote : ℕ
back_quote = 96

abbrev pub backslash : ℕ
backslash = 92

abbrev pub comma : ℕ
comma = 44

abbrev pub equals_sign : ℕ
equals_sign = 61

-- `VALID_QUOTES.contains`.
abbrev pub is_quote : ℕ → Bool
is_quote c = c == double_quote || (c == single_quote || c == back_quote)

-- `str::contains` of a character.
abbrev pub contains : Text → ℕ → Bool
contains [] c = false
contains (x ∷ xs) c = let rest = contains xs c in x == c || rest

-- The quotation that is open after the character `c`.
abbrev pub found_quote : Option ℕ → ℕ → Option ℕ
found_quote none c = some c
found_quote (some q) c = if q == c then none else some q

abbrev pub next_quote : ℕ → Option ℕ → ℕ → Option ℕ
next_quote prev_char quotation_char c =
    if is_quote c && not (prev_char == backslash)
    then found_quote quotation_char c
    else quotation_char

abbrev pub is_none : Option ℕ → Bool
is_none none = true
is_none (some q) = false

-- A character in front of the first part.
abbrev pub cons_first : ℕ → List Text → List Text
cons_first c [] = (c ∷ []) ∷ []
cons_first c (p ∷ ps) = (c ∷ p) ∷ ps

-- `split` with the closure, from a state of the closure on.
unfoldable pub split_from : ℕ → ℕ → Option ℕ → Text → List Text
split_from split_char prev_char quotation_char [] = [] ∷ []
split_from split_char prev_char quotation_char (c ∷ cs) =
    let q = next_quote prev_char quotation_char c in
    let rest = split_from split_char c q cs in
    if is_none q && c == split_char then [] ∷ rest else cons_first c rest

-- `split_once`: what is before and what is after the first `c`.
abbrev pub in_front : ℕ → Option (Text × Text) → Option (Text × Text)
in_front x none = none
in_front x (some (before, after)) = some (x ∷ before, after)

unfoldable pub split_once : ℕ → Text → Option (Text × Text)
split_once c [] = none
split_once c (x ∷ xs) =
    let rest = in_front x (split_once c xs) in if x == c then some ([], xs) else rest

-- `rsplit_once`: the last `c`.
abbrev pub or_here : ℕ → ℕ → Text → Option (Text × Text) → Option (Text × Text)
or_here c x xs (some (before, after)) = some (x ∷ before, after)
or_here c x xs none = if x == c then some ([], xs) else none

unfoldable pub rsplit_once : ℕ → Text → Option (Text × Text)
rsplit_once c [] = none
rsplit_once c (x ∷ xs) = or_here c x xs (rsplit_once c xs)

abbrev pub ends_with : Text → ℕ → Bool
ends_with [] c = false
ends_with (x ∷ []) c = x == c
ends_with (x ∷ y ∷ ys) c = ends_with (y ∷ ys) c

abbrev pub first_or_empty : Option (Text × Text) → Text
first_or_empty none = []
first_or_empty (some (before, after)) = before

-- The second closure: a part in a pair of quotes loses them.
unfoldable pub strip_quotes : Text → Text
unfolding split_once rsplit_once
strip_quotes [] = []
strip_quotes (a ∷ cs) =
    if ends_with (a ∷ cs) a && is_quote a
    then first_or_empty (Option.bind (split_once a (a ∷ cs)) (λ p. rsplit_once a p.1))
    else a ∷ cs

-- `split_str_args`, for a split character that is not a quote; the source asserts that.
unfoldable pub split_str_args : Text → ℕ → List Text
split_str_args inp split_char = map strip_quotes (split_from split_char 0 none inp)
