-- ===== src/Args/HashMap.antt =====
-- The `HashMap` of the standard library that `from_str` in memflow/src/plugins/args.rs fills: one entry
-- for each key, here in the order of the first insertions. The order in which it gives them out is a
-- parameter of `from_str`.
use memflow.Prelude.{◌≡◌, refl, ap, ◌∙◌, some, List, [], ◌∷◌, if◌then◌else◌, Bool-cases, inl, inr}
use mathlib.Core.Path.{subst⁻¹}
use memflow.Args.Text.{Text}
use memflow.Args.Entries.{ArgEntry, Args, text_eq, insert, get}
use memflow.Args.EntriesLaws.{get-insert, IsUnique, insert-IsUnique}

-- `HashMap::insert`: a key that is there gets the new value, another is added.
unfoldable pub map_insert : List ArgEntry → Text → Text → List ArgEntry
map_insert [] key value = record { key = key; value = value } ∷ []
map_insert (entry ∷ entries) key value =
    let rest = map_insert entries key value in
    if text_eq entry.key key
    then record { key = entry.key; value = value } ∷ entries
    else entry ∷ rest

map_insert-insert : (m : Args) (key value : Text) → map_insert m key value ≡ insert m key value
unfolding map_insert insert
map_insert-insert [] key value = refl
map_insert-insert (a ∷ m) key value = elim (Bool-cases (text_eq a.key key)) [
  | inl e ↦ rw e refl
  | inr e ↦ rw e (ap (λ l. a ∷ l) (map_insert-insert m key value))
]

-- A lookup after an insertion.
pub get-map_insert :
    (m : Args) (key value k : Text)
    → get (map_insert m key value) k ≡ (if text_eq key k then some value else get m k)
get-map_insert m key value k =
    ap (λ l. get l k) (map_insert-insert m key value) ∙ get-insert m key value k

pub map_insert-IsUnique :
    (m : Args) (key value : Text) → IsUnique m → IsUnique (map_insert m key value)
map_insert-IsUnique m key value u =
    subst⁻¹ IsUnique (map_insert-insert m key value) (insert-IsUnique m key value u)
