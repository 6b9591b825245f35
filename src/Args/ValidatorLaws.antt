-- ===== src/Args/ValidatorLaws.antt =====
-- What `validate` of `ArgsValidator` checks.
use memflow.Prelude.{
  ◌≡◌, refl, ap, Option, some, none, [], ◌∷◌, Bool, true, false, ◌&&◌, inl, inr, Bool-cases, All,
  ◌↔◌,
}
use memflow.Prelude.Results.{Result, ok, err}
use memflow.Error.Kind.{ErrorKind}
use memflow.Error.Code.{Error}
use memflow.Args.Text.{Text}
use memflow.Args.Entries.{Args, get}
use memflow.Args.Validator.{
  ArgDescriptor, ArgsValidator, named, failed, check_given, is_none, accepts, check_descriptors,
  after_given, validate,
}

-- What a descriptor asks for: a required argument is set, and a value is accepted by the validator.
abbrev pub Satisfied : Args → ArgDescriptor → Type 0
Satisfied args d =
    (d.required ≡ true → (value : Text) × (get args d.name ≡ some value))
    × ((f : Text → Bool) (value : Text)
        → d.validator ≡ some f
        → get args d.name ≡ some value
        → f value ≡ true)

abbrev pub Given : ArgsValidator → Args → Type 0
Given ds args = All (λ a. named ds a.key ≡ true) args

is_ok : Result (Unit {0}) Error → Bool
is_ok (ok u) = true
is_ok (err e) = false

not_ok : (kind : ErrorKind) → ¬ (failed kind ≡ ok tt)
unfolding is_ok
not_ok kind e = absurd (false_ne_true (ap is_ok e))
  where
    false_ne_true : ¬ (false ≡ true)
    false_ne_true e = cc

check_given_sound : (ds : ArgsValidator) (args : Args) → check_given ds args ≡ ok tt → Given ds args
unfolding check_given
check_given_sound ds [] e = tt
check_given_sound ds (a ∷ args) e = elim (Bool-cases (named ds a.key)) [
  | inl n ↦ (n, check_given_sound ds args (rw n at e))
  | inr n ↦ absurd (not_ok ErrorKind.arg_not_exists (rw n at e))
]

check_given_complete :
    (ds : ArgsValidator) (args : Args) → Given ds args → check_given ds args ≡ ok tt
unfolding check_given
check_given_complete ds [] h = refl
check_given_complete ds (a ∷ args) (n, h) = rw n (check_given_complete ds args h)

set_of : (o : Option Text) → is_none o ≡ false → (value : Text) × (o ≡ some value)
set_of none e = cc
set_of (some value) e = (value, refl)

accepted :
    (o : Option (Text → Bool)) (v : Option Text)
    → accepts o v ≡ true
    → (f : Text → Bool) (value : Text) → o ≡ some f
    → v ≡ some value
    → f value ≡ true
accepted o v e f value eo ev = rw (eo, ev) at e

accepts_all :
    (o : Option (Text → Bool)) (v : Option Text)
    → ((f : Text → Bool) (value : Text) → o ≡ some f → v ≡ some value → f value ≡ true)
    → accepts o v ≡ true
accepts_all none v h = refl
accepts_all (some f) none h = refl
accepts_all (some f) (some value) h = h f value refl refl

missing_false :
    (r : Bool) (o : Option Text)
    → (r ≡ true → (value : Text) × (o ≡ some value))
    → (r && is_none o) ≡ false
missing_false false o h = refl
missing_false true o h = rw ((h refl).1) refl

present :
    (r : Bool) (o : Option Text)
    → (r && is_none o) ≡ false
    → r ≡ true
    → (value : Text) × (o ≡ some value)
present r o e t = set_of o (rw t at e)

check_descriptors_sound :
    (ds : ArgsValidator) (args : Args) → check_descriptors ds args ≡ ok tt → All (Satisfied args) ds
unfolding check_descriptors
check_descriptors_sound [] args e = tt
check_descriptors_sound (d ∷ ds) args e =
    elim (Bool-cases (d.required && is_none (get args d.name))) [
      | inl m ↦ absurd (not_ok ErrorKind.required_arg_not_found (rw m at e))
      | inr m ↦ elim (Bool-cases (accepts d.validator (get args d.name))) [
        | inl a ↦ (
          (present d.required (get args d.name) m, accepted d.validator (get args d.name) a),
          check_descriptors_sound ds args (rw (m, a) at e),
        )
        | inr a ↦ absurd (not_ok ErrorKind.arg_validation (rw (m, a) at e))
      ]
    ]

check_descriptors_complete :
    (ds : ArgsValidator) (args : Args) → All (Satisfied args) ds → check_descriptors ds args ≡ ok tt
unfolding check_descriptors
check_descriptors_complete [] args h = refl
check_descriptors_complete (d ∷ ds) args ((req, acc), h) =
    rw
      (
        missing_false d.required (get args d.name) req,
        accepts_all d.validator (get args d.name) acc,
      )
      (check_descriptors_complete ds args h)

split_ok : (r s : Result (Unit {0}) Error) → after_given r s ≡ ok tt → (r ≡ ok tt) × (s ≡ ok tt)
split_ok (ok tt) s e = (refl, e)
split_ok (err k) s e = absurd (err_ne k e)
  where
    err_ne : (k : Error) → ¬ (err k ≡ ok tt)
    err_ne k e = cc

-- `validate` succeeds exactly when each argument has a descriptor of its name, each required
-- argument is set, and each validator function accepts the value its argument has.
pub validate_iff :
    (ds : ArgsValidator) (args : Args)
    → (validate ds args ≡ ok tt) ↔ (Given ds args × All (Satisfied args) ds)
unfolding validate
validate_iff ds args = (
  λ e.
      let (given, rest) = split_ok (check_given ds args) (check_descriptors ds args) e in
      (check_given_sound ds args given, check_descriptors_sound ds args rest),
  λ (given, rest).
      rw (check_given_complete ds args given) (check_descriptors_complete ds args rest),
)
