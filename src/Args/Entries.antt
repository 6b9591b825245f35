-- ===== src/Args/Entries.antt =====
-- `ArgEntry` and `Args` of memflow/src/plugins/args.rs.
use memflow.Prelude.{
  Option, some, none, List, [], ◌∷◌, ◌++◌, Bool, true, false, not, ◌&&◌, ◌||◌, ◌==◌, if◌then◌else◌,
  map, filter,
}
use memflow.Args.Text.{Text, comma, equals_sign, double_quote, contains}

pub record ArgEntry : Type 0 where
  pub key : Text
  pub value : Text

abbrev pub Args : Type 0
Args = List ArgEntry

-- `==` of texts.
abbrev pub text_eq : Text → Text → Bool
text_eq [] [] = true
text_eq [] (y ∷ ys) = false
text_eq (x ∷ xs) [] = false
text_eq (x ∷ xs) (y ∷ ys) = let rest = text_eq xs ys in x == y && rest

-- The text `default`.
abbrev pub default_key : Text
default_key = 100 ∷ 101 ∷ 102 ∷ 97 ∷ 117 ∷ 108 ∷ 116 ∷ []

-- `Args::insert`.
unfoldable pub insert : Args → Text → Text → Args
insert [] key value = record { key = key; value = value } ∷ []
insert (a ∷ args) key value =
    let rest = insert args key value in
    if text_eq a.key key then record a { value = value } ∷ args else a ∷ rest

-- `Args::with_default`.
abbrev pub with_default : Text → Args
with_default value = insert [] default_key value

-- `Args::get`.
unfoldable pub get : Args → Text → Option Text
get [] key = none
get (a ∷ args) key = let rest = get args key in if text_eq a.key key then some a.value else rest

-- `Args::get_default`.
abbrev pub get_default : Args → Option Text
get_default args = get args default_key

-- `key=value`, with quotes around a value that has a separator.
unfoldable pub print_entry : ArgEntry → Text
print_entry a =
    if contains a.value comma || contains a.value equals_sign
    then a.key ++ equals_sign ∷ double_quote ∷ (a.value ++ double_quote ∷ [])
    else a.key ++ equals_sign ∷ a.value

-- `join` with a comma.
abbrev pub join : List Text → Text
join [] = []
join (t ∷ []) = t
join (t ∷ u ∷ us) = t ++ comma ∷ join (u ∷ us)

abbrev pub cons_default : Option Text → List Text → List Text
cons_default none rest = rest
cons_default (some value) rest = value ∷ rest

-- `Display` of `Args`.
unfoldable pub to_string : Args → Text
unfolding get print_entry
to_string args = join (
    cons_default (get_default args)
      (map print_entry (filter (λ a. not (text_eq a.key default_key)) args)))
