-- ===== src/PageCache/Uses.antt =====
-- What the middleware in memflow/src/mem/phys_mem/middleware/cache/mod.rs does with its page cache: a
-- read, the page of a write, and the update of the validator; and the invalidation of a page.
use memflow.Prelude.{ℕ, ◌≡◌, refl, Option, some, List, [], false}
use memflow.Prelude.Holds.{Holds, Holds-some, Holds-bind}
use mathlib.Core.Option
use memflow.Error.Code.{Error}
use memflow.Types.Address.{Address}
use memflow.Types.Page.{PageType}
use memflow.Cache.Validator.{CacheValidator}
use memflow.PageCache.Cache.{
  Bytes, PageValidity, is_invalid, validatable, to_be_validated, is_valid, PageCache,
  cached_page_mut, put_entry, invalidate_page,
}
use memflow.PageCache.Read.{Request, Answers, Reading, cached_read}
use memflow.PageCache.LostSlot.{IsLost, slot_of}
use memflow.PageCache.LostOps.{
  IsTaken, Holds-cached_page_mut, Holds-put_page, Holds-invalidate_page,
}
use memflow.PageCache.LostLoop.{Holds-cached_read}
use memflow.PageCache.LostReads.{AnswersAsked, held_valid, held_validatable, gone_at}

-- A read begins with empty lists.
abbrev pub begin {ℓ} : {V : Type ℓ} → PageCache V → Reading V
begin cache = record {
  cache = cache;
  clist = [];
  wlist = [];
  wlistcache = [];
  out = [];
  out_fail = [];
}

-- A write goes to a buffer that is valid.
abbrev pub write_back : PageValidity → Bytes → PageValidity
write_back (is_valid buf) new = is_valid new
write_back (validatable buf) new = validatable buf
write_back to_be_validated new = to_be_validated
write_back is_invalid new = is_invalid

module _ {ℓ} {V : Type ℓ} (c : CacheValidator V) where
  -- The page of a write: it is looked up, written if it is valid, and put back. `new` is the page with
  -- the chunk copied into it.
  unfoldable pub write_page : PageCache V → Address → Bytes → Option (PageCache V)
  write_page cache addr new =
      Option.bind (cached_page_mut c cache addr false)
        (λ e. put_entry c e.1 (record e.0 { validity = write_back e.0.validity new }))

  -- The caches that any uses of the first lead to. The memory answers the reads as it likes, but only
  -- what it was asked for.
  pub data Later : PageCache V → PageCache V → Type (ℓ ⊔ 1) where
    now : {cache : PageCache V} → Later cache cache
    read :
        {first cache : PageCache V} {step : Reading V × Option Error} (mem : List Request → Answers)
        (asked : AnswersAsked mem) (qs : List Request)
        → Later first cache
        → cached_read c mem qs (begin cache) ≡ some step
        → Later first step.0.cache
    write :
        {first cache next : PageCache V} (addr : Address) (new : Bytes)
        → Later first cache
        → write_page cache addr new ≡ some next
        → Later first next
    invalidate :
        {first cache next : PageCache V} (addr : Address) (page_type : PageType)
        → Later first cache
        → invalidate_page c cache addr page_type ≡ some next
        → Later first next
    update :
        {first cache : PageCache V} (v : V)
        → Later first cache
        → Later first (record cache { validator = v })

  module _ (half count idx : ℕ) where
    Holds-put_entry :
        (cache : PageCache V) (page : Address) (v : PageValidity) (new : Bytes)
        → IsLost half count idx cache
        → (slot_of half count page ≡ idx → v ≡ is_invalid)
        → Holds
            (IsLost half count idx)
            (put_entry c cache (record { address = page; validity = write_back v new }))
    unfolding put_entry
    Holds-put_entry cache page (is_valid buf) new l gone =
        Holds-put_page c half count idx cache l page new
          (λ e. held_valid (is_valid buf) buf refl (gone e))
    Holds-put_entry cache page (validatable buf) new l gone =
        Holds-put_page c half count idx cache l page buf
          (λ e. held_validatable (validatable buf) buf refl (gone e))
    Holds-put_entry cache page to_be_validated new l gone =
        Holds-some (IsLost half count idx) cache l
    Holds-put_entry cache page is_invalid new l gone = Holds-some (IsLost half count idx) cache l

    Holds-write_page :
        (cache : PageCache V) (a : Address) (new : Bytes)
        → IsLost half count idx cache
        → Holds (IsLost half count idx) (write_page cache a new)
    unfolding write_page
    Holds-write_page cache a new l =
        Holds-bind (IsTaken c half count idx a) (IsLost half count idx)
          (cached_page_mut c cache a false) _
          (Holds-cached_page_mut c half count idx cache l a false)
          (λ e t.
            Holds-put_entry e.1 e.0.address e.0.validity new t.lost
              (gone_at c half count idx a e t))

    -- A slot that is lost stays lost.
    pub Later-IsLost :
        (first cache : PageCache V)
        → Later first cache
        → IsLost half count idx first
        → IsLost half count idx cache
    Later-IsLost first cache now l = l
    Later-IsLost first _ (read {cache = cache} {step = step} mem asked qs before e) l =
        let here = Later-IsLost first cache before l in
        let end =
          Holds-cached_read c half count idx mem asked qs (begin cache)
            (record { lost = here; waits = tt }) step e in
        end.lost
    Later-IsLost first next (write {cache = cache} a new before e) l =
        Holds-write_page cache a new (Later-IsLost first cache before l) next e
    Later-IsLost first next (invalidate {cache = cache} a t before e) l =
        Holds-invalidate_page c half count idx cache (Later-IsLost first cache before l) a t next e
    Later-IsLost first _ (update {cache = cache} v before) l =
        let here = Later-IsLost first cache before l in
        record {
          page_size = here.page_size;
          size = here.size;
          in_range = here.in_range;
          in_refs = here.in_refs;
          in_once = here.in_once;
          held = here.held;
          once = here.once;
        }
