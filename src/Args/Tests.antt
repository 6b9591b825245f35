-- ===== src/Args/Tests.antt =====
-- Arguments with a default value and a value that needs quotes.
use memflow.Prelude.{◌≡◌, refl, some, none, [], ◌∷◌, true, false, All, ◌↔◌}
use memflow.Prelude.Results.{ok}
use mathlib.Core.Path.{subst}
use mathlib.Core.Option
use mathlib.Core.Option.{some-injective}
use mathlib.Core.List.{Permᴰ}
use mathlib.Core.List.Permᴰ
use memflow.Args.Text.{Text, split_str_args, split_from, strip_quotes}
use memflow.Args.Entries.{Args, default_key, get, get_default, to_string}
use memflow.Args.Parse.{is_empty, from_str}
use memflow.Args.Validator.{ArgsValidator, validate}
use memflow.Args.EntriesLaws.{IsUnique}
use memflow.Args.PrintLaws.{IsPlain, IsPrintable}
use memflow.Args.RoundTrip.{from_str-to_string}
use memflow.Args.ValidatorLaws.{Given, Satisfied, validate_iff}

-- `a`, `b,c` and `x`.
abbrev a_text : Text
a_text = 97 ∷ []

abbrev bc_text : Text
bc_text = 98 ∷ 44 ∷ 99 ∷ []

abbrev x_text : Text
x_text = 120 ∷ []

abbrev two_args : Args
two_args =
    record { key = a_text; value = bc_text } ∷ record { key = default_key; value = x_text } ∷ []

-- A map that lists its first two entries in the other order.
abbrev other_order : Args → Args
other_order [] = []
other_order (x ∷ []) = x ∷ []
other_order (x ∷ y ∷ xs) = y ∷ x ∷ xs

other_order-Perm : (xs : Args) → Permᴰ xs (other_order xs)
other_order-Perm [] = Permᴰ.nil
other_order-Perm (x ∷ []) = Permᴰ.refl (x ∷ [])
other_order-Perm (x ∷ y ∷ xs) = Permᴰ.swap refl refl

two_args-IsUnique : IsUnique two_args
unfolding IsUnique get
two_args-IsUnique = (refl, (refl, tt))

two_args-IsPrintable : All IsPrintable two_args
two_args-IsPrintable = (
  (((refl, refl, refl), tt), (refl, (refl, (refl, tt))), refl),
  (
    (
      (
        (refl, refl, refl),
        (
          (refl, refl, refl),
          (
            (refl, refl, refl),
            (
              (refl, refl, refl),
              ((refl, refl, refl), ((refl, refl, refl), ((refl, refl, refl), tt))),
            ),
          ),
        ),
      ),
      (refl, tt),
      refl,
    ),
    tt,
  ),
)

x_default : (d : Text) → get_default two_args ≡ some d → (is_empty d ≡ false) × All IsPlain d
unfolding get
x_default d e =
    subst (λ t. (is_empty t ≡ false) × All IsPlain t) (some-injective x_text d e)
      (refl, ((refl, refl, refl), tt))

from_str-to_string_example :
    get (from_str other_order (to_string two_args)) a_text ≡ get two_args a_text
from_str-to_string_example =
    from_str-to_string other_order other_order-Perm two_args two_args-IsUnique two_args-IsPrintable
      x_default a_text

abbrev descriptors : ArgsValidator
descriptors =
    record { name = a_text; description = none; required = true; validator = some (λ t. true) }
    ∷ record { name = default_key; description = none; required = false; validator = none }
    ∷ []

validate_iff_example :
    (validate descriptors two_args ≡ ok tt)
    ↔ (Given descriptors two_args × All (Satisfied two_args) descriptors)
validate_iff_example = validate_iff descriptors two_args

-- The example `a:'hel":lo"':c` of the source.
split_example :
    split_str_args (97 ∷ 58 ∷ 39 ∷ 104 ∷ 34 ∷ 58 ∷ 34 ∷ 39 ∷ 58 ∷ 99 ∷ []) 58
    ≡ (97 ∷ []) ∷ (104 ∷ 34 ∷ 58 ∷ 34 ∷ []) ∷ (99 ∷ []) ∷ []
unfolding split_str_args split_from strip_quotes Option.bind
split_example = refl
