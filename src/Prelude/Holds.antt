-- ===== src/Prelude/Holds.antt =====
-- Properties of what a computation returns, if it returns.
use memflow.Prelude.{◌≡◌, refl, Option, some, none, Bool, true, false, if◌then◌else◌}
use mathlib.Core.Option
use mathlib.Core.Option.{some-injective}
use mathlib.Core.Path.{subst}

-- Whatever a computation returns has a property.
abbrev pub Holds {ℓ κ} : {A : Type ℓ} → (A → Type κ) → Option A → Type (ℓ ⊔ κ)
Holds {A = A} P o = (a : A) → o ≡ some a → P a

pub Holds-some {ℓ κ} : {A : Type ℓ} (P : A → Type κ) (x : A) → P x → Holds P (some x)
Holds-some P x p a e = subst P (some-injective x a e) p

pub Holds-if {ℓ κ} :
    {A : Type ℓ} (P : A → Type κ) (b : Bool) (x y : Option A)
    → (b ≡ true → Holds P x)
    → (b ≡ false → Holds P y)
    → Holds P (if b then x else y)
Holds-if P true x y p q = p refl
Holds-if P false x y p q = q refl

pub Holds-map {ℓ ν κ} :
    {A : Type ℓ} {B : Type ν} (P : B → Type κ) (f : A → B) (o : Option A)
    → ((a : A) → P (f a))
    → Holds P (Option.map f o)
Holds-map P f none p b e = cc
Holds-map P f (some a) p b e = Holds-some P (f a) (p a) b e

pub Holds-bind {ℓ ν κ μ} :
    {A : Type ℓ} {B : Type ν} (P : A → Type κ) (Q : B → Type μ) (o : Option A) (f : A → Option B)
    → Holds P o
    → ((a : A) → P a → Holds Q (f a))
    → Holds Q (Option.bind o f)
unfolding Option.bind
Holds-bind P Q none f p q b e = cc
Holds-bind P Q (some a) f p q b e = q a (p a refl) b e

pub Holds-map_of {ℓ ν κ μ} :
    {A : Type ℓ} {B : Type ν} (P : A → Type κ) (Q : B → Type μ) (f : A → B) (o : Option A)
    → Holds P o
    → ((a : A) → P a → Q (f a))
    → Holds Q (Option.map f o)
Holds-map_of P Q f none p q b e = cc
Holds-map_of P Q f (some a) p q b e = Holds-some Q (f a) (q a (p a refl)) b e
