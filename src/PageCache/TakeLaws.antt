-- ===== src/PageCache/TakeLaws.antt =====
-- What `cached_page_mut` hands out as valid is the page that the memory holds.
use memflow.Prelude.{
  ℕ, ◌≡◌, ◌≢◌, refl, arith, ap, sym, ◌∙◌, Option, some, none, Bool, true, false, ◌||◌, ◌==◌, ==_iff,
  if◌then◌else◌, get_elem?, set, get_elem?-some, Bool-cases, Option-cases, inl, inr,
}
use mathlib.Core.Path.{subst}
use mathlib.Core.Option
use mathlib.Core.Option.{some-injective}
use memflow.Types.Address.{Address, invalid}
use memflow.Cache.Validator.{CacheValidator, IsValidator}
use memflow.PageCache.Cache.{
  Bytes, PageValidity, is_invalid, validatable, to_be_validated, is_valid, CacheEntry, PageCache,
  page_of, page_index, slot_holds, judge_buffer, judge_slot, take_page, cached_page_mut,
}
use memflow.PageCache.CacheLaws.{IsCoherent, page_index-lt, taken-IsCoherent}

abbrev bytes_of : PageValidity → Option Bytes
bytes_of (is_valid buf) = some buf
bytes_of is_invalid = none
bytes_of (validatable buf) = none
bytes_of to_be_validated = none

valid_bytes : (v : PageValidity) (buf : Bytes) → v ≡ is_valid buf → bytes_of v ≡ some buf
valid_bytes v buf e = ap bytes_of e

judge_buffer-valid :
    (b buf : Bytes) (holds : Bool) (once page : Address)
    → bytes_of (judge_buffer b holds once page) ≡ some buf
    → (holds ≡ true) × (b ≡ buf)
judge_buffer-valid b buf true once page e = (refl, some-injective b buf e)
judge_buffer-valid b buf false once page e = elim (Bool-cases (once == page || once == invalid)) [
  | inl f ↦ absurd (none_ne_some (rw f at e))
  | inr f ↦ absurd (none_ne_some (rw f at e))
]
  where
    none_ne_some : {b : Bytes} → ¬ (none ≡ some b)
    none_ne_some e = cc

map_twice {ℓ κ} :
    {A : Type 0} {B : Type ℓ} {C : Type κ} (g : B → C) (f : A → B) (o : Option A)
    → Option.map g (Option.map f o) ≡ Option.map (λ a. g (f a)) o
map_twice g f none = refl
map_twice g f (some a) = refl

map-some {ℓ} :
    {A : Type 0} {B : Type ℓ} (f : A → B) (o : Option A) (b : B)
    → Option.map f o ≡ some b
    → (a : A) × (o ≡ some a) × (f a ≡ b)
map-some f none b e = cc
map-some f (some a) b e = (a, refl, some-injective (f a) b e)

module _ {ℓ} {V : Type ℓ} (c : CacheValidator V) where
  slot_holds-page :
      (v : V) (idx : ℕ) (same skip : Bool) → slot_holds c v idx same skip ≡ some true → same ≡ true
  slot_holds-page v idx true skip e = refl
  slot_holds-page v idx false skip e = some-injective false true e

  judge_slot-valid :
      (v : V) (idx : ℕ) (skip : Bool) (at once page : Address) (r : Option Bytes) (w : PageValidity)
      (buf : Bytes)
      → judge_slot c v idx skip at once page r ≡ some w
      → bytes_of w ≡ some buf
      → (r ≡ some buf) × (at ≡ page)
  judge_slot-valid v idx skip at once page none w buf e h =
      absurd (no_bytes (once == page) (ap bytes_of (some-injective _ w e) ∙ h))
    where
      no_bytes : (t : Bool) → ¬ (bytes_of (if t then to_be_validated else is_invalid) ≡ some buf)
      no_bytes true e = cc
      no_bytes false e = cc
  judge_slot-valid v idx skip at once page (some b) w buf e h =
      elim (Option-cases (slot_holds c v idx (at == page) skip)) [
        | inl gone ↦ absurd (none_ne_some (rw gone at e))
        | inr (hb, found) ↦
            let now : judge_buffer b hb once page ≡ w = some-injective _ w (rw found at e) in
            let (holds, same) = judge_buffer-valid b buf hb once page (ap bytes_of now ∙ h) in
            let slot = slot_holds-page v idx (at == page) skip (found ∙ ap some holds) in
            (ap some same, (==_iff at page).0 slot)
      ]
    where
      none_ne_some : ¬ (none ≡ some w)
      none_ne_some e = cc

  module _ {slots : V → ℕ} {IsReady : V → Type ℓ} (laws : IsValidator c slots IsReady)
      {mem : Address → Bytes} (cache : PageCache V) (coherent : IsCoherent c laws mem cache)
      (addr : Address) where
    -- What a call takes from its slot.
    record IsTaken (skip : Bool) : Type ℓ where
      pub at : Address
      pub once : Address
      pub ref : Option Bytes
      pub at_slot : get_elem? cache.address (page_index cache addr) ≡ some at
      pub ref_slot : get_elem? cache.page_refs (page_index cache addr) ≡ some ref
      pub verdict :
          cached_page_mut c cache addr skip
          ≡ Option.map
              (λ v. (
                record { address = page_of cache addr; validity = v },
                record cache { page_refs = set cache.page_refs (page_index cache addr) none },
              ))
              (judge_slot c cache.validator
                (page_index cache addr)
                skip
                at
                once
                (page_of cache addr)
                ref)

    taken : (skip : Bool) → IsTaken skip
    unfolding cached_page_mut take_page Option.bind
    taken skip =
        let lt = page_index-lt c laws cache coherent addr in
        let (ref, r) =
          get_elem?-some cache.page_refs (page_index cache addr)
            (omega (arith, lt, coherent.refs_size)) in
        let (at, a) = get_elem?-some cache.address (page_index cache addr) lt in
        let (once, o) =
          get_elem?-some cache.address_once_validated (page_index cache addr)
            (omega (arith, lt, coherent.once_size)) in
        record {
          at = at;
          once = once;
          ref = ref;
          at_slot = a;
          ref_slot = r;
          verdict = rw (r, a, o) (map_twice _ _ _);
        }

    -- With a lawful validator: what a coherent cache hands out as valid for an address, whether the
    -- validator is asked or skipped, is the memory's page of that address, unless that page is the
    -- invalid address; the cache stays coherent.
    pub cached_page_mut-IsCoherent :
        (skip : Bool) (entry : CacheEntry) (next : PageCache V) (buf : Bytes)
        → cached_page_mut c cache addr skip ≡ some (entry, next)
        → entry.validity ≡ is_valid buf
        → page_of cache addr ≢ invalid
        → (entry.address ≡ page_of cache addr)
          × (buf ≡ mem (page_of cache addr))
          × IsCoherent c laws mem next
    cached_page_mut-IsCoherent skip entry next buf e valid ne =
        let t = taken skip in
        let (v, judged, same) = map-some _ _ (entry, next) (sym t.verdict ∙ e) in
        let entry_is = ap (λ q. q.0) same in
        let validity : v ≡ entry.validity = ap (λ q. q.0.validity) same in
        let (held, at) =
          judge_slot-valid cache.validator (page_index cache addr) skip t.at t.once
            (page_of cache addr) t.ref v buf judged (valid_bytes v buf (validity ∙ valid)) in
        (
          sym (ap (λ q. q.0.address) same),
          coherent.agrees (page_index cache addr) (page_of cache addr) buf (t.at_slot ∙ ap some at)
              (t.ref_slot ∙ ap some held) ne,
          subst (IsCoherent c laws mem) (ap (λ q. q.1) same)
              (taken-IsCoherent c laws cache coherent addr),
        )
