-- ===== src/Error/Tests.antt =====
-- Concrete errors and codes.
use memflow.Prelude.{◌%◌, ◌^◌, ◌≤◌, ◌<◌, ◌≡◌, some}
use memflow.Error.Origin
use memflow.Error.Kind
use memflow.Error.Code.{Error, neg, into_int_err, from_int_err}
use memflow.Error.CodeLaws.{from_int_err-into_int_err}

abbrev out_of_range : Error
out_of_range = record { origin = Origin.mmu; kind = Kind.out_of_memory_range }

from_int_err-into_int_err_example :
    (from_int_err (into_int_err out_of_range) ≡ some out_of_range)
    × (2 ^ 31 ≤ into_int_err out_of_range)
    × (into_int_err out_of_range < 2 ^ 32)
    × (neg (into_int_err out_of_range) % 16 ≡ 1)
from_int_err-into_int_err_example = from_int_err-into_int_err out_of_range
