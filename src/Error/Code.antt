-- ===== src/Error/Code.antt =====
-- `Error` and its conversions to and from a nonzero `i32`. An `i32` is its bit pattern, a number
-- below 2 ^ 32.
use Prim.Native.String.{String}
use memflow.Prelude.{
  ℕ, ◌+◌, ◌-◌, ◌*◌, ◌/◌, ◌%◌, ◌^◌, bit_and, Option, some, none, ◌&&◌, get_elem?, ltb, leb,
  if◌then◌else◌,
}
use memflow.Error.Origin
use memflow.Error.Origin.{ErrorOrigin}
use memflow.Error.Kind
use memflow.Error.Kind.{ErrorKind}

pub record Error : Type 0 where
  pub origin : ErrorOrigin
  pub kind : ErrorKind

-- `as_str`.
unfoldable pub as_str : Error → String
as_str e = Kind.to_str e.kind

-- `i32` negation, subtraction, `<<` and the arithmetic `>>`.
abbrev pub neg : ℕ → ℕ
neg w = (2 ^ 32 - w) % 2 ^ 32

abbrev pub sub : ℕ → ℕ → ℕ
sub w v = (w + 2 ^ 32 - v) % 2 ^ 32

abbrev pub shl : ℕ → ℕ → ℕ
shl w k = w * 2 ^ k % 2 ^ 32

abbrev pub sar : ℕ → ℕ → ℕ
sar w k = if ltb w (2 ^ 31) then w / 2 ^ k else w / 2 ^ k + (2 ^ 32 - 2 ^ (32 - k))

-- `into_int_err`.
unfoldable pub into_int_err : Error → ℕ
unfolding Origin.code Kind.code
into_int_err e =
    let origin = shl (bit_and (Origin.code e.origin + 1) 0xfff) 4 in
    let kind = shl (bit_and (Kind.code e.kind + 1) 0xfff) 16 in neg ((1 + origin + kind) % 2 ^ 32)

-- The `transmute`s: `none` is a discriminant that no variant has, which is undefined behaviour.
abbrev pub transmute_origin : ℕ → Option ErrorOrigin
transmute_origin n = get_elem? Origin.variants n

abbrev pub transmute_kind : ℕ → Option ErrorKind
transmute_kind n = get_elem? Kind.variants n

infixl 5 ◌>>=◌
abbrev pub ◌>>=◌ {ℓ κ} : {A : Type ℓ} {B : Type κ} → Option A → (A → Option B) → Option B
none >>= f = none
some a >>= f = f a

-- The first field of `from_int_err`.
unfoldable pub decode_origin : ℕ → Option ErrorOrigin
unfolding Origin.code
decode_origin err =
    let origin = bit_and (sar (sub (neg err) 1) 4) 0xfff in
    if ltb 0 origin && leb origin (Origin.code ErrorOrigin.other + 1)
    then transmute_origin (origin - 1)
    else some ErrorOrigin.other

-- The second field of `from_int_err`.
unfoldable pub decode_kind : ℕ → Option ErrorKind
unfolding Kind.code
decode_kind err =
    let kind = bit_and (sar (sub (neg err) 1) 16) 0xfff in
    if ltb 0 kind && leb kind (Kind.code ErrorKind.unknown + 1)
    then transmute_kind (kind - 1)
    else some ErrorKind.unknown

-- `from_int_err`.
unfoldable pub from_int_err : ℕ → Option Error
from_int_err err = do
  origin ← decode_origin err
  kind ← decode_kind err
  some (record { origin = origin; kind = kind })
