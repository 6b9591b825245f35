-- ===== src/Error/Partial.antt =====
-- `PartialError`, its integer codes, and the methods of `PartialResultExt`.
use Prim.Native.String.{String}
use memflow.Prelude.{ℕ, bit_and, Option, some, ◌==◌, if◌then◌else◌}
use memflow.Prelude.Results.{Result, ok, err}
use memflow.Error.Origin.{ErrorOrigin}
use memflow.Error.Kind.{ErrorKind}
use memflow.Error.Code
use memflow.Error.Code.{Error, neg, ◌>>=◌}

pub data PartialError (T : Type 0) : Type 0 where
  error : Error → PartialError T
  partial_virtual_read : T → PartialError T
  partial_virtual_write : T → PartialError T

-- `as_str`.
unfoldable pub as_str : {T : Type 0} → PartialError T → String
as_str (error e) = Code.as_str e
as_str (partial_virtual_read _) = "partial virtual read"
as_str (partial_virtual_write _) = "partial virtual write"

-- `From<PartialError<T>> for Error`.
unfoldable pub to_error : {T : Type 0} → PartialError T → Error
to_error (error e) = e
to_error (partial_virtual_read _) = record {
  origin = ErrorOrigin.memory;
  kind = ErrorKind.partial_data;
}
to_error (partial_virtual_write _) = record {
  origin = ErrorOrigin.memory;
  kind = ErrorKind.partial_data;
}

-- `into_int_err` of `PartialError<()>`.
unfoldable pub into_int_err : PartialError (Unit {0}) → ℕ
into_int_err (error e) = Code.into_int_err e
into_int_err (partial_virtual_read _) = neg 2
into_int_err (partial_virtual_write _) = neg 3

-- `from_int_err` of `PartialError<()>`.
unfoldable pub from_int_err : ℕ → Option (PartialError (Unit {0}))
from_int_err w =
    let errc = bit_and (neg w) 0xf in
    if errc == 1
    then (do e ← Code.from_int_err w; some (error e))
    else if errc == 2
    then some (partial_virtual_read tt)
    else if errc == 3
    then some (partial_virtual_write tt)
    else some (error (record { origin = ErrorOrigin.ffi; kind = ErrorKind.unknown }))

abbrev pub PartialResult : Type 0 → Type 0
PartialResult T = Result T (PartialError T)

-- `PartialResultExt::data`.
unfoldable pub data_full : {T : Type 0} → PartialResult T → Result T Error
data_full (ok a) = ok a
data_full (err _) = err (record { origin = ErrorOrigin.memory; kind = ErrorKind.partial_data })

-- `PartialResultExt::data_part`.
unfoldable pub data_part : {T : Type 0} → PartialResult T → Result T Error
data_part (ok a) = ok a
data_part (err (partial_virtual_read a)) = ok a
data_part (err (partial_virtual_write a)) = ok a
data_part (err (error e)) = err e

-- `PartialResultExt::map_data`.
unfoldable pub map_data : {T U : Type 0} → PartialResult T → (T → U) → PartialResult U
map_data (ok a) f = ok (f a)
map_data (err (error e)) f = err (error e)
map_data (err (partial_virtual_read a)) f = ok (f a)
map_data (err (partial_virtual_write a)) f = ok (f a)
