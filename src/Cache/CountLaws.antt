-- ===== src/Cache/CountLaws.antt =====
-- The slots of a counting validator, and for how long they stay valid.
use memflow.Prelude.{
  ℕ, zero, suc, ◌+◌, ◌-◌, ◌%◌, ◌^◌, ◌≤◌, ◌<◌, ◌≡◌, refl, arith, ap, sym, ◌∙◌, some, List, [], ◌∷◌,
  ◌++◌, Bool, true, false, length, get_elem?, set, take, replicate, ltb, lt→ltb, length-append,
  get_elem?-some, length-take, length-replicate, length-set, get_elem?-set_self, get_elem?-set_ne,
}
use memflow.Types.Address.{sub}
use memflow.Cache.Validator.{Marks, IsValidator}
use memflow.Cache.Count.{
  CountCacheValidator, with_count, allocate_slots, update_validity, is_slot_valid, write_slot,
  validate_slot, invalidate_slot, count_validator,
}

-- The counters are `usize`s, and a slot can be valid at all.
pub record IsReady (v : CountCacheValidator) : Type 0 where
  pub positive : 0 < v.valid_count
  pub valid_bound : v.valid_count < 2 ^ 64
  pub last_bound : v.last_count < 2 ^ 64

abbrev pub slots : CountCacheValidator → ℕ
slots v = length v.count

-- A write marks its slot as the written count says, and no other slot.
write_slot-Marks :
    (v : CountCacheValidator) (i c : ℕ) (b : Bool)
    → i < slots v
    → ltb (sub v.last_count c) v.valid_count ≡ b
    → Marks count_validator slots v i b (write_slot v i c)
unfolding is_slot_valid
write_slot-Marks v i c b h e = record {
  after = with_count v (set v.count i c);
  returns = rw (lt→ltb i (length v.count) h) refl;
  same_slots = length-set v.count i c;
  marked = rw (get_elem?-set_self v.count i c h) (ap some e);
  others = λ j ne. rw (get_elem?-set_ne v.count {i = i} {j = j} c (λ e. ne (sym e))) refl;
}

-- Past the old end, `resize` holds the filler.
get_elem?-resize {ℓ} :
    {A : Type ℓ} (xs : List A) (n k i : ℕ) (a : A)
    → length xs ≤ n
    → length xs ≤ i
    → i < length xs + k
    → get_elem? (take n xs ++ replicate k a) i ≡ some a
get_elem?-resize [] n zero i a g h lt = absurd (omega arith)
get_elem?-resize [] zero (suc k) zero a g h lt = refl
get_elem?-resize [] (suc n) (suc k) zero a g h lt = refl
get_elem?-resize [] zero (suc k) (suc i) a g h lt =
    get_elem?-resize [] zero k i a (omega arith) (omega arith) (omega arith)
get_elem?-resize [] (suc n) (suc k) (suc i) a g h lt =
    get_elem?-resize [] (suc n) k i a (omega arith) (omega arith) (omega arith)
get_elem?-resize (x ∷ xs) zero k i a g h lt = absurd (omega arith)
get_elem?-resize (x ∷ xs) (suc n) k zero a g h lt = absurd (omega arith)
get_elem?-resize (x ∷ xs) (suc n) k (suc i) a g h lt =
    get_elem?-resize xs n k i a (omega arith) (omega arith) (omega arith)

expired :
    (last valid : ℕ)
    → last < 2 ^ 64
    → valid < 2 ^ 64
    → ltb (sub last (sub last valid)) valid ≡ false
expired last valid h g = ground arith

expired_slot :
    (v : CountCacheValidator)
    → IsReady v
    → ltb (sub v.last_count (sub v.last_count v.valid_count)) v.valid_count ≡ false
expired_slot v r = expired v.last_count v.valid_count r.last_bound r.valid_bound

-- The counting validator is a validator: validated slots are valid, and fresh and invalidated ones
-- are not.
pub count_validator-IsValidator : IsValidator count_validator slots IsReady
unfolding allocate_slots validate_slot invalidate_slot is_slot_valid write_slot-Marks
count_validator-IsValidator = record {
  allocated = λ v n. omega (
    arith,
    length-append (take n v.count)
        (replicate (n - length v.count) (sub v.last_count v.valid_count)),
    length-take n v.count,
    length-replicate (n - length v.count) (sub v.last_count v.valid_count),
  );
  allocate_ready = λ v n r. record {
    positive = r.positive;
    valid_bound = r.valid_bound;
    last_bound = r.last_bound;
  };
  fresh_slots = λ v n i r h lt.
      rw
        (get_elem?-resize v.count n (n - length v.count) i (sub v.last_count v.valid_count)
          (omega arith) h (omega arith))
        (ap some (expired_slot v r));
  in_range = λ v i h.
      let (c, e) = get_elem?-some v.count i h in
      (ltb (sub v.last_count c) v.valid_count, rw e refl);
  validated = λ v i r h. (
    write_slot-Marks v i v.last_count true h (lt→ltb _ _ (omega (arith, r.positive, r.last_bound))),
    record { positive = r.positive; valid_bound = r.valid_bound; last_bound = r.last_bound },
  );
  invalidated = λ v i r h. (
    write_slot-Marks v i (sub v.last_count v.valid_count) false h (expired_slot v r),
    record { positive = r.positive; valid_bound = r.valid_bound; last_bound = r.last_bound },
  );
}

pub updates : ℕ → CountCacheValidator → CountCacheValidator
updates zero v = v
updates (suc n) v = updates n (update_validity v)

updates-slot :
    (n i : ℕ) (v : CountCacheValidator) (c : ℕ)
    → get_elem? v.count i ≡ some c
    → v.last_count < 2 ^ 64
    → is_slot_valid (updates n v) i ≡ some (ltb (sub ((v.last_count + n) % 2 ^ 64) c) v.valid_count)
unfolding updates update_validity is_slot_valid
updates-slot zero i v c e h = rw e (ap (λ t. some (ltb (sub t c) v.valid_count)) (omega arith))
updates-slot (suc n) i v c e h =
    updates-slot n i (update_validity v) c e (omega arith)
    ∙ ap (λ t. some (ltb (sub t c) v.valid_count)) (omega arith)

-- In a ready validator, a slot that was just validated is valid after fewer than 2 ^ 64 updates if
-- and only if they are fewer than `valid_count`.
pub validate_slot-lifetime :
    (v : CountCacheValidator) (i n : ℕ)
    → IsReady v
    → i < length v.count
    → n < 2 ^ 64
    → (v2 : CountCacheValidator) × (validate_slot v i ≡ some v2)
      × (is_slot_valid (updates n v2) i ≡ some (ltb n v.valid_count))
unfolding validate_slot
validate_slot-lifetime v i n r h lt =
    let v2 = with_count v (set v.count i v.last_count) in
    let slot : get_elem? v2.count i ≡ some v.last_count =
      get_elem?-set_self v.count i v.last_count h in
    let bound = r.last_bound in
    let gone : sub ((v.last_count + n) % 2 ^ 64) v.last_count ≡ n = omega arith in
    (
      v2,
      rw (lt→ltb i (length v.count) h) refl,
      updates-slot n i v2 v.last_count slot bound ∙ ap (λ t. some (ltb t v.valid_count)) gone,
    )
