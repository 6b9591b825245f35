-- ===== src/Args/RoundTrip.antt =====
-- Arguments that are printed and parsed again read the same.
use memflow.Prelude.{
  ◌≡◌, refl, ap, sym, ◌∙◌, Option, some, none, List, [], ◌∷◌, true, false, if◌then◌else◌, inl, inr,
  Bool-cases, Option-cases, All, map, filter,
}
use mathlib.Core.List.{Permᴰ}
use memflow.Args.Text.{Text, split_from, strip_quotes, comma, equals_sign, split_str_args}
use memflow.Args.Entries.{
  Args, text_eq, default_key, get, get_default, print_entry, join, cons_default, to_string,
}
use memflow.Args.HashMap.{map_insert}
use memflow.Args.Parse.{is_empty, insert_part, insert_parts, parse_map, from_str}
use memflow.Args.EntriesLaws.{text_eq_sound, text_eq-sym, IsUnique}
use memflow.Args.SplitLaws.{Whole, Plain-Whole}
use memflow.Args.StripLaws.{Unquoted, split_str_args-join, split_str_args-one}
use memflow.Args.PrintLaws.{
  IsPlain, IsPrintable, Plain-comma, Plain-equals, plain-Unquoted, print_entry-Whole,
  print_entry-Unquoted, insert_part-print_entry,
}
use memflow.Args.ParseLaws.{
  get-from_str, or_else, is_regular, get-insert_parts, get-filter, get-filter_default,
  filter-IsUnique,
}

parts-Whole : (es : Args) → All IsPrintable es → All (Whole comma) (map print_entry es)
parts-Whole [] h = tt
parts-Whole (e ∷ es) (p, ps) = (print_entry-Whole e p, parts-Whole es ps)

parts-Unquoted : (es : Args) → All IsPrintable es → All Unquoted (map print_entry es)
parts-Unquoted [] h = tt
parts-Unquoted (e ∷ es) (p, ps) = (print_entry-Unquoted e p, parts-Unquoted es ps)

filter-IsPrintable : (args : Args) → All IsPrintable args → All IsPrintable (filter is_regular args)
filter-IsPrintable [] h = tt
filter-IsPrintable (a ∷ args) (p, ps) = elim (Bool-cases (is_regular a)) [
  | inl e ↦ rw e (p, filter-IsPrintable args ps)
  | inr e ↦ rw e (filter-IsPrintable args ps)
]

parse_join :
    (p : Text) (ps : List Text)
    → All (Whole comma) (p ∷ ps)
    → All Unquoted (p ∷ ps)
    → parse_map (join (p ∷ ps))
      ≡ insert_parts false ps (insert_part true p (split_str_args p equals_sign) [])
unfolding parse_map insert_parts
parse_join p ps whole start =
    ap (λ l. insert_parts true l []) (split_str_args-join p ps whole start)

parse_empty : (k : Text) → get (parse_map []) k ≡ none
unfolding parse_map insert_parts split_str_args split_from insert_part strip_quotes get
parse_empty k = refl

or_else-none : (o : Option Text) → or_else o none ≡ o
or_else-none none = refl
or_else-none (some v) = refl

-- Without a default value.
parse_regular :
    (es : Args) (k : Text)
    → IsUnique es
    → All IsPrintable es
    → get (parse_map (join (map print_entry es))) k ≡ get es k
unfolding IsUnique get insert_parts insert_part
parse_regular [] k u h = parse_empty k
parse_regular (e ∷ es) k (away, u) (p, ps) =
    ap (λ args. get args k)
      (parse_join (print_entry e) (map print_entry es) (parts-Whole (e ∷ es) (p, ps))
        (parts-Unquoted (e ∷ es) (p, ps)))
    ∙ ap (λ args. get (insert_parts false (map print_entry es) args) k)
        (insert_part-print_entry e p true [] ∙ sym (insert_part-print_entry e p false []))
    ∙ get-insert_parts (e ∷ es) [] k (away, u) (p, ps)
    ∙ or_else-none (get (e ∷ es) k)

-- With one, which is not empty and has no quotes and no separators.
parse_default :
    (d : Text) (es : Args) (k : Text)
    → is_empty d ≡ false
    → All IsPlain d
    → IsUnique es
    → All IsPrintable es
    → get (parse_map (join (d ∷ map print_entry es))) k
      ≡ or_else (get es k) (if text_eq default_key k then some d else none)
unfolding insert_part get map_insert
parse_default d es k filled plain u h =
    let one = split_str_args-one d (Plain-equals d plain) (plain-Unquoted d plain) in
    let first : insert_part true d (split_str_args d equals_sign) [] ≡ map_insert [] default_key d =
      ap (λ ps. insert_part true d ps []) one ∙ rw filled refl in
    ap (λ args. get args k)
      (parse_join d (map print_entry es)
        (Plain-Whole comma d (Plain-comma d plain), parts-Whole es h)
        (plain-Unquoted d plain, parts-Unquoted es h))
    ∙ ap (λ args. get (insert_parts false (map print_entry es) args) k) first
    ∙ get-insert_parts es (map_insert [] default_key d) k u h

regular_all :
    (args : Args) (k : Text) → get_default args ≡ none → get (filter is_regular args) k ≡ get args k
regular_all args k no_default = elim (Bool-cases (text_eq k default_key)) [
  | inl e ↦
      let same = text_eq_sound k default_key e in
      ap (get (filter is_regular args)) same
      ∙ get-filter_default args
      ∙ sym no_default
      ∙ ap (get args) (sym same)
  | inr e ↦ get-filter args k e
]

with_default_all :
    (args : Args) (d k : Text)
    → get_default args ≡ some d
    → or_else (get (filter is_regular args) k) (if text_eq default_key k then some d else none)
      ≡ get args k
with_default_all args d k has_default = elim (Bool-cases (text_eq default_key k)) [
  | inl e ↦
      let same = text_eq_sound default_key k e in
      let gone : get (filter is_regular args) k ≡ none =
        ap (get (filter is_regular args)) (sym same) ∙ get-filter_default args in
      rw (e, gone) (sym has_default ∙ ap (get args) same)
  | inr e ↦ rw e (
      or_else-none (get (filter is_regular args) k)
      ∙ get-filter args k (text_eq-sym k default_key ∙ e))
]

-- Arguments with distinct keys, whose keys have no quotes and no separators, and whose values have
-- no quotes and do not end in a backslash, read the same after they are printed and parsed, in
-- whatever order the map lists them; a default value must not be empty or have a separator.
pub from_str-to_string :
    (into_iter : Args → Args)
    → ((xs : Args) → Permᴰ xs (into_iter xs))
    → (args : Args) → IsUnique args
    → All IsPrintable args
    → ((d : Text) → get_default args ≡ some d → (is_empty d ≡ false) × All IsPlain d)
    → (key : Text) → get (from_str into_iter (to_string args)) key ≡ get args key
unfolding to_string
from_str-to_string into_iter perm args unique printable plain key =
    let es = filter is_regular args in
    let es_unique = filter-IsUnique args unique in
    let es_printable = filter-IsPrintable args printable in
    get-from_str into_iter perm (to_string args) key ∙ elim (Option-cases (get_default args)) [
      | inl no_default ↦
          ap (λ o. get (parse_map (join (cons_default o (map print_entry es)))) key) no_default
          ∙ parse_regular es key es_unique es_printable
          ∙ regular_all args key no_default
      | inr (d, has_default) ↦
          let (filled, clean) = plain d has_default in
          ap (λ o. get (parse_map (join (cons_default o (map print_entry es)))) key) has_default
          ∙ parse_default d es key filled clean es_unique es_printable
          ∙ with_default_all args d key has_default
    ]
