-- ===== src/Error/CodeLaws.antt =====
-- The integer codes of `Error`: the round trip, and that decoding is total.
use memflow.Prelude.{
  ℕ, ◌+◌, ◌-◌, ◌*◌, ◌/◌, ◌%◌, ◌^◌, ◌≤◌, ◌<◌, ◌≡◌, refl, arith, bit_and, some, get_elem?, List, [],
  ◌∷◌, zero, suc, length, ◌∙◌, ltb, leb, inl, inr, Bool-cases, lt→ltb, le→leb, ◌&&◌,
}
use memflow.Prelude.Bits.{bit_and_low}
use memflow.Error.Origin
use memflow.Error.Origin.{ErrorOrigin}
use memflow.Error.Kind
use memflow.Error.Kind.{ErrorKind}
use memflow.Error.Code.{
  Error, neg, sub, sar, into_int_err, from_int_err, decode_origin, decode_kind,
}

origin_bound : (v : ErrorOrigin) → Origin.code v ≤ 16
unfolding Origin.code
origin_bound v = ground arith

kind_bound : (v : ErrorKind) → Kind.code v ≤ 44
unfolding Kind.code
kind_bound v = ground arith

-- The code as one number: -(1 + 16 (origin + 1) + 65536 (kind + 1)).
pub into_int_err-value :
    (e : Error)
    → into_int_err e
      ≡ 2 ^ 32 - (1 + (Origin.code e.origin + 1) * 16 + (Kind.code e.kind + 1) * 65536)
unfolding into_int_err
into_int_err-value e =
    rw (bit_and_low 12, bit_and_low 12) (omega (arith, origin_bound e.origin, kind_bound e.kind))

sar_field : (x k : ℕ) → x < 2 ^ 31 → bit_and (sar x k) 0xfff ≡ x / 2 ^ k % 2 ^ 12
sar_field x k h = rw (bit_and_low 12) (ground arith)

-- What the decoder reads from the word of the magnitude `1 + (o + 1) * 16 + (k + 1) * 65536`.
abbrev word : ℕ → ℕ → ℕ
word o k = 2 ^ 32 - (1 + (o + 1) * 16 + (k + 1) * 65536)

pred_suc : (n : ℕ) → n + 1 - 1 ≡ n
pred_suc n = omega arith

decode_origin-word :
    (o k : ℕ) → o ≤ 16 → k ≤ 44 → decode_origin (word o k) ≡ get_elem? Origin.variants o
unfolding decode_origin
decode_origin-word o k ho hk =
    let f : bit_and (sar (sub (neg (word o k)) 1) 4) 0xfff ≡ o + 1 =
      sar_field (sub (neg (word o k)) 1) 4 (omega arith) ∙ omega arith in
    rw (f, lt→ltb 0 (o + 1) (omega arith), le→leb (o + 1) 17 (omega arith), pred_suc o)

decode_kind-word : (o k : ℕ) → o ≤ 16 → k ≤ 44 → decode_kind (word o k) ≡ get_elem? Kind.variants k
unfolding decode_kind
decode_kind-word o k ho hk =
    let f : bit_and (sar (sub (neg (word o k)) 1) 16) 0xfff ≡ k + 1 =
      sar_field (sub (neg (word o k)) 1) 16 (omega arith) ∙ omega arith in
    rw (f, lt→ltb 0 (k + 1) (omega arith), le→leb (k + 1) 45 (omega arith), pred_suc k)

-- Every error comes back from its integer code, and the code is a negative `i32` whose magnitude
-- ends in the hexadecimal digit 1, so it is told apart from the codes of partial reads and writes.
pub from_int_err-into_int_err :
    (e : Error)
    → (from_int_err (into_int_err e) ≡ some e)
      × (2 ^ 31 ≤ into_int_err e)
      × (into_int_err e < 2 ^ 32)
      × (neg (into_int_err e) % 16 ≡ 1)
unfolding from_int_err
from_int_err-into_int_err e =
    let o = Origin.code e.origin in
    let k = Kind.code e.kind in
    let ho : o ≤ 16 = origin_bound e.origin in
    let hk : k ≤ 44 = kind_bound e.kind in
    (
      rw (
        into_int_err-value e,
        decode_origin-word o k ho hk,
        decode_kind-word o k ho hk,
        Origin.get_elem?-code e.origin,
        Kind.get_elem?-code e.kind,
      ),
      omega (arith, into_int_err-value e),
      omega (arith, into_int_err-value e),
      omega (arith, into_int_err-value e),
    )

get_elem?_total {ℓ} :
    {A : Type ℓ} (xs : List A) (i : ℕ) → i < length xs → (a : A) × (get_elem? xs i ≡ some a)
get_elem?_total [] i h = absurd (omega arith)
get_elem?_total (x ∷ xs) zero h = (x, refl)
get_elem?_total (x ∷ xs) (suc i) h = get_elem?_total xs i (omega arith)

decode_origin_total : (w : ℕ) → (o : ErrorOrigin) × (decode_origin w ≡ some o)
unfolding decode_origin
decode_origin_total w =
    let n = bit_and (sar (sub (neg w) 1) 4) 0xfff in
    elim (Bool-cases (ltb 0 n && leb n 17)) [
      | inl e ↦
          let (o, found) = get_elem?_total Origin.variants (n - 1) (ground arith) in (o, rw e found)
      | inr e ↦ (ErrorOrigin.other, rw e)
    ]

decode_kind_total : (w : ℕ) → (k : ErrorKind) × (decode_kind w ≡ some k)
unfolding decode_kind
decode_kind_total w =
    let n = bit_and (sar (sub (neg w) 1) 16) 0xfff in
    elim (Bool-cases (ltb 0 n && leb n 45)) [
      | inl e ↦
          let (k, found) = get_elem?_total Kind.variants (n - 1) (ground arith) in (k, rw e found)
      | inr e ↦ (ErrorKind.unknown, rw e)
    ]

-- Whatever 32-bit word a foreign caller hands over, decoding makes no invalid variant.
from_int_err_total : (w : ℕ) → (e : Error) × (from_int_err w ≡ some e)
unfolding from_int_err
from_int_err_total w =
    let (o, ho) = decode_origin_total w in
    let (k, hk) = decode_kind_total w in (record { origin = o; kind = k }, rw (ho, hk))
