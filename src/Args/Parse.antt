-- ===== src/Args/Parse.antt =====
-- `FromStr` of `Args` in memflow/src/plugins/args.rs. `HashMap` gives its entries out in an
-- order of its own, so `into_iter` is a parameter.
use memflow.Prelude.{List, [], ◌∷◌, Bool, true, false, not, ◌&&◌, if◌then◌else◌}
use memflow.Args.Text.{Text, comma, equals_sign, split_str_args}
use memflow.Args.Entries.{Args, default_key}
use memflow.Args.HashMap.{map_insert}

abbrev pub is_empty : Text → Bool
is_empty [] = true
is_empty (c ∷ cs) = false

-- The body of the loop for the part `kv` with the parts that `=` gives; `first` for the index 0.
unfoldable pub insert_part : Bool → Text → List Text → Args → Args
insert_part first kv (key ∷ value ∷ []) args = map_insert args key value
insert_part first kv [] args =
    if first && not (is_empty kv) then map_insert args default_key kv else args
insert_part first kv (p ∷ []) args =
    if first && not (is_empty kv) then map_insert args default_key kv else args
insert_part first kv (p ∷ q ∷ r ∷ rs) args =
    if first && not (is_empty kv) then map_insert args default_key kv else args

-- The loop over the parts that `,` gives.
unfoldable pub insert_parts : Bool → List Text → Args → Args
insert_parts first [] args = args
insert_parts first (kv ∷ kvs) args =
    insert_parts false kvs (insert_part first kv (split_str_args kv equals_sign) args)

-- The map that `from_str` builds.
unfoldable pub parse_map : Text → Args
parse_map s = insert_parts true (split_str_args s comma) []

-- `from_str`, which never fails.
unfoldable pub from_str : (Args → Args) → Text → Args
from_str into_iter s = into_iter (parse_map s)
