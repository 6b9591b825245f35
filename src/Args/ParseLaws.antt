-- ===== src/Args/ParseLaws.antt =====
-- The map that `from_str` builds: distinct keys, and what it holds of printed entries.
use memflow.Prelude.{
  ◌≡◌, refl, ap, sym, ◌∙◌, Option, some, none, List, [], ◌∷◌, Bool, true, false, not, ◌&&◌,
  if◌then◌else◌, inl, inr, Bool-cases, All, map, filter,
}
use mathlib.Core.List.{Permᴰ}
use memflow.Args.Text.{Text, comma, equals_sign, split_str_args}
use memflow.Args.Entries.{ArgEntry, Args, text_eq, default_key, get, print_entry}
use memflow.Args.HashMap.{map_insert, get-map_insert, map_insert-IsUnique}
use memflow.Args.Parse.{is_empty, insert_part, insert_parts, parse_map, from_str}
use memflow.Args.EntriesLaws.{text_eq_sound, text_eq-sym, IsUnique, get-Perm}
use memflow.Args.PrintLaws.{IsPrintable, insert_part-print_entry}

default-IsUnique :
    (first : Bool) (kv : Text) (args : Args)
    → IsUnique args
    → IsUnique (if first && not (is_empty kv) then map_insert args default_key kv else args)
default-IsUnique first kv args u = elim (Bool-cases (first && not (is_empty kv))) [
  | inl e ↦ rw e (map_insert-IsUnique args default_key kv u)
  | inr e ↦ rw e u
]

insert_part-IsUnique :
    (first : Bool) (kv : Text) (ps : List Text) (args : Args)
    → IsUnique args
    → IsUnique (insert_part first kv ps args)
unfolding insert_part
insert_part-IsUnique first kv (key ∷ value ∷ []) args u = map_insert-IsUnique args key value u
insert_part-IsUnique first kv [] args u = default-IsUnique first kv args u
insert_part-IsUnique first kv (p ∷ []) args u = default-IsUnique first kv args u
insert_part-IsUnique first kv (p ∷ q ∷ r ∷ rs) args u = default-IsUnique first kv args u

insert_parts-IsUnique :
    (first : Bool) (kvs : List Text) (args : Args)
    → IsUnique args
    → IsUnique (insert_parts first kvs args)
unfolding insert_parts
insert_parts-IsUnique first [] args u = u
insert_parts-IsUnique first (kv ∷ kvs) args u =
    insert_parts-IsUnique false kvs (insert_part first kv (split_str_args kv equals_sign) args)
      (insert_part-IsUnique first kv (split_str_args kv equals_sign) args u)

-- The map that any text is parsed to has no key twice.
parse_map-IsUnique : (s : Text) → IsUnique (parse_map s)
unfolding parse_map IsUnique
parse_map-IsUnique s = insert_parts-IsUnique true (split_str_args s comma) [] tt

-- Whatever the order of the entries in the map, parsed arguments read as the map does.
pub get-from_str :
    (into_iter : Args → Args)
    → ((xs : Args) → Permᴰ xs (into_iter xs))
    → (s key : Text) → get (from_str into_iter s) key ≡ get (parse_map s) key
unfolding from_str
get-from_str into_iter perm s key =
    sym ((get-Perm (perm (parse_map s)) (parse_map-IsUnique s)).0 key)

abbrev pub or_else : Option Text → Option Text → Option Text
or_else (some v) o = some v
or_else none o = o

-- The printed entries are inserted one after the other.
pub get-insert_parts :
    (es acc : Args) (k : Text)
    → IsUnique es
    → All IsPrintable es
    → get (insert_parts false (map print_entry es) acc) k ≡ or_else (get es k) (get acc k)
unfolding insert_parts get IsUnique
get-insert_parts [] acc k u h = refl
get-insert_parts (e ∷ es) acc k (away, u) (p, ps) =
    ap (λ args. get (insert_parts false (map print_entry es) args) k)
      (insert_part-print_entry e p false acc)
    ∙ get-insert_parts es (map_insert acc e.key e.value) k u ps
    ∙ ap (or_else (get es k)) (get-map_insert acc e.key e.value k)
    ∙ elim (Bool-cases (text_eq e.key k)) [
      | inl same ↦
          let gone : get es k ≡ none = ap (get es) (sym (text_eq_sound e.key k same)) ∙ away in
          rw (same, gone) refl
      | inr other ↦ rw other refl
    ]

abbrev pub is_regular : ArgEntry → Bool
is_regular a = not (text_eq a.key default_key)

pub get-filter :
    (args : Args) (k : Text)
    → text_eq k default_key ≡ false
    → get (filter is_regular args) k ≡ get args k
unfolding get
get-filter [] k h = refl
get-filter (a ∷ args) k h = elim (Bool-cases (text_eq a.key default_key)) [
  | inl e ↦
      let other : text_eq a.key k ≡ false =
        text_eq-sym a.key k ∙ ap (text_eq k) (text_eq_sound a.key default_key e) ∙ h in
      rw (e, other) (get-filter args k h)
  | inr e ↦ rw (e, get-filter args k h) refl
]

pub get-filter_default : (args : Args) → get (filter is_regular args) default_key ≡ none
unfolding get
get-filter_default [] = refl
get-filter_default (a ∷ args) = elim (Bool-cases (text_eq a.key default_key)) [
  | inl e ↦ rw e (get-filter_default args)
  | inr e ↦ rw (e, get-filter_default args) (rw e refl)
]

get-filter-none :
    (args : Args) (k : Text) → get args k ≡ none → get (filter is_regular args) k ≡ none
get-filter-none args k h = elim (Bool-cases (text_eq k default_key)) [
  | inl e ↦
      ap (get (filter is_regular args)) (text_eq_sound k default_key e) ∙ get-filter_default args
  | inr e ↦ get-filter args k e ∙ h
]

pub filter-IsUnique : (args : Args) → IsUnique args → IsUnique (filter is_regular args)
unfolding IsUnique
filter-IsUnique [] u = tt
filter-IsUnique (a ∷ args) (away, u) = elim (Bool-cases (is_regular a)) [
  | inl e ↦ rw e (get-filter-none args a.key away, filter-IsUnique args u)
  | inr e ↦ rw e (filter-IsUnique args u)
]
