-- ===== src/Cache/Validator.antt =====
-- The trait `CacheValidator` of memflow/src/types/cache/mod.rs. `none` is the panic of an index out
-- of range.
use memflow.Prelude.{ℕ, ◌≤◌, ◌<◌, ◌≡◌, ◌≢◌, Option, some, Bool, true, false}

pub record CacheValidator {ℓ} (V : Type ℓ) : Type ℓ where
  pub allocate_slots : V → ℕ → V
  pub update_validity : V → V
  pub is_slot_valid : V → ℕ → Option Bool
  pub validate_slot : V → ℕ → Option V
  pub invalidate_slot : V → ℕ → Option V

-- What a validator that marks slot `i`, as valid or not, does to the slots.
pub record Marks {ℓ} {V : Type ℓ} (c : CacheValidator V) (slots : V → ℕ) (v : V) (i : ℕ)
    (mark : Bool) (r : Option V) : Type ℓ where
  pub after : V
  pub returns : r ≡ some after
  pub same_slots : slots after ≡ slots v
  pub marked : c.is_slot_valid after i ≡ some mark
  pub others : (j : ℕ) → j ≢ i → c.is_slot_valid after j ≡ c.is_slot_valid v j

-- What the users of a validator rely on, for the validators that can hold a slot valid at all.
pub record IsValidator {ℓ} {V : Type ℓ} (c : CacheValidator V) (slots : V → ℕ)
    (IsReady : V → Type ℓ) : Type ℓ where
  pub allocated : (v : V) (n : ℕ) → slots (c.allocate_slots v n) ≡ n
  pub allocate_ready : (v : V) (n : ℕ) → IsReady v → IsReady (c.allocate_slots v n)
  pub fresh_slots :
      (v : V) (n i : ℕ)
      → IsReady v
      → slots v ≤ i
      → i < n
      → c.is_slot_valid (c.allocate_slots v n) i ≡ some false
  pub in_range : (v : V) (i : ℕ) → i < slots v → (b : Bool) × (c.is_slot_valid v i ≡ some b)
  pub validated :
      (v : V) (i : ℕ)
      → IsReady v
      → i < slots v
      → (m : Marks c slots v i true (c.validate_slot v i)) × IsReady m.after
  pub invalidated :
      (v : V) (i : ℕ)
      → IsReady v
      → i < slots v
      → (m : Marks c slots v i false (c.invalidate_slot v i)) × IsReady m.after
