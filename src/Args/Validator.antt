-- ===== src/Args/Validator.antt =====
-- `ArgDescriptor` and `ArgsValidator` of memflow/src/plugins/args.rs. A validator function answers
-- whether it accepts the value; its message is only logged.
use memflow.Prelude.{
  Option, some, none, List, [], ◌∷◌, ◌++◌, Bool, true, false, not, ◌&&◌, ◌||◌, if◌then◌else◌,
}
use memflow.Prelude.Results.{Result, ok, err}
use memflow.Error.Origin.{ErrorOrigin}
use memflow.Error.Kind.{ErrorKind}
use memflow.Error.Code.{Error}
use memflow.Args.Text.{Text}
use memflow.Args.Entries.{Args, text_eq, get}

pub record ArgDescriptor : Type 0 where
  pub name : Text
  pub description : Option Text
  pub required : Bool
  pub validator : Option (Text → Bool)

-- `ArgDescriptor::new`.
unfoldable pub new : Text → ArgDescriptor
new name = record { name = name; description = none; required = false; validator = none }

abbrev pub ArgsValidator : Type 0
ArgsValidator = List ArgDescriptor

-- `ArgsValidator::arg`.
unfoldable pub arg : ArgsValidator → ArgDescriptor → ArgsValidator
arg args a = args ++ a ∷ []

abbrev pub named : ArgsValidator → Text → Bool
named [] key = false
named (a ∷ args) key = let rest = named args key in text_eq a.name key || rest

abbrev pub failed : ErrorKind → Result (Unit {0}) Error
failed kind = err (record { origin = ErrorOrigin.args_validator; kind = kind })

-- The first loop of `validate`: every argument has a descriptor.
unfoldable pub check_given : ArgsValidator → Args → Result (Unit {0}) Error
check_given descriptors [] = ok tt
check_given descriptors (a ∷ args) =
    let rest = check_given descriptors args in
    if not (named descriptors a.key) then failed ErrorKind.arg_not_exists else rest

abbrev pub is_none : Option Text → Bool
is_none none = true
is_none (some value) = false

-- The call of the validator function, when there is one and the argument is set.
abbrev pub accepts : Option (Text → Bool) → Option Text → Bool
accepts none value = true
accepts (some validator) none = true
accepts (some validator) (some value) = validator value

-- The second loop: required arguments are set, and the values are valid.
unfoldable pub check_descriptors : ArgsValidator → Args → Result (Unit {0}) Error
check_descriptors [] args = ok tt
check_descriptors (a ∷ descriptors) args =
    let rest = check_descriptors descriptors args in
    if a.required && is_none (get args a.name)
    then failed ErrorKind.required_arg_not_found
    else if not (accepts a.validator (get args a.name))
    then failed ErrorKind.arg_validation
    else rest

abbrev pub after_given : Result (Unit {0}) Error → Result (Unit {0}) Error → Result (Unit {0}) Error
after_given (err e) rest = err e
after_given (ok u) rest = rest

unfoldable pub validate : ArgsValidator → Args → Result (Unit {0}) Error
validate descriptors args =
    after_given (check_given descriptors args) (check_descriptors descriptors args)
