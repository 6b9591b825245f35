-- ===== src/Error/PartialLaws.antt =====
-- Partial errors: their integer codes, and what the extension methods keep.
use memflow.Prelude.{ℕ, ◌%◌, ◌≡◌, refl, bit_and, some, ◌∙◌}
use memflow.Prelude.Bits.{bit_and_low}
use memflow.Prelude.Results.{ok, err, map_ok}
use memflow.Error.Code
use memflow.Error.Code.{Error, neg}
use memflow.Error.CodeLaws.{from_int_err-into_int_err}
use memflow.Error.Partial.{
  PartialError, error, partial_virtual_read, partial_virtual_write, into_int_err, from_int_err,
  PartialResult, data_part, map_data,
}

nibble : (w : ℕ) → bit_and (neg w) 0xf ≡ neg w % 16
nibble w = bit_and_low 4 (neg w)

-- Every partial error comes back from its integer code, hard errors with their origin and kind.
partial_from_int_err-into_int_err :
    (p : PartialError (Unit {0})) → from_int_err (into_int_err p) ≡ some p
unfolding from_int_err into_int_err
partial_from_int_err-into_int_err (error e) =
    let h = from_int_err-into_int_err e in
    let n : bit_and (neg (Code.into_int_err e)) 0xf ≡ 1 = nibble (Code.into_int_err e) ∙ h.3 in
    rw (n, h.0)
partial_from_int_err-into_int_err (partial_virtual_read tt) = refl
partial_from_int_err-into_int_err (partial_virtual_write tt) = refl

-- Mapping partial data and then taking it is taking it and then mapping: a hard error comes out
-- unchanged, and the data of a partial read or write is kept.
data_part-map_data :
    {T U : Type 0} (r : PartialResult T) (f : T → U)
    → data_part (map_data r f) ≡ map_ok f (data_part r)
unfolding data_part map_data
data_part-map_data (ok a) f = refl
data_part-map_data (err (error e)) f = refl
data_part-map_data (err (partial_virtual_read a)) f = refl
data_part-map_data (err (partial_virtual_write a)) f = refl
