-- ===== src/PageCache/LostLoop.antt =====
-- The loop of `cached_read` of memflow/src/mem/phys_mem/middleware/cache/page_cache.rs leaves a slot
-- without a buffer as it is.
use memflow.Prelude.{ℕ, Option, some, none, List, [], ◌∷◌, ◌++◌, map, All, if◌then◌else◌}
use memflow.Prelude.Holds.{Holds, Holds-some, Holds-if, Holds-bind, Holds-map_of}
use memflow.Prelude.Results.{Result, ok, err}
use mathlib.Core.Option
use memflow.Error.Code.{Error}
use memflow.Types.Address.{Address}
use memflow.Cache.Validator.{CacheValidator}
use memflow.PageCache.Cache.{Bytes, PageCache, cancel_page_validation, validate_page}
use memflow.PageCache.Read.{
  Request, Answers, Reading, read_request, validate_all, cancel_all, serve_all, error_of,
  read_through, page_request, fill_cache, then_serve, then_fill, work_off, is_due, go_on,
  cached_read,
}
use memflow.PageCache.LostSlot.{IsLost, Away}
use memflow.PageCache.LostOps.{Holds-validate_page, Holds-cancel_page_validation}
use memflow.PageCache.LostReads.{AnswersAsked, IsLostReading, Holds-serve_all, Holds-read_request}

module _ {ℓ} {V : Type ℓ} (c : CacheValidator V) (half count idx : ℕ) where
  abbrev LostCache : PageCache V → Type ℓ
  LostCache = IsLost half count idx

  abbrev StillLost : Reading V → Type ℓ
  StillLost = IsLostReading c half count idx

  abbrev AllAway : List (Address × Bytes) → Type 0
  AllAway = All (λ p. Away half count idx p.0)

  Holds-validate_all :
      (cache : PageCache V) (ps : List (Address × Bytes))
      → LostCache cache
      → AllAway ps
      → Holds LostCache (validate_all c cache ps)
  unfolding validate_all
  Holds-validate_all cache [] l h = Holds-some LostCache cache l
  Holds-validate_all cache ((a, buf) ∷ ps) l (away, h) =
      Holds-bind LostCache LostCache (validate_page c cache a buf) _
        (Holds-validate_page c half count idx cache l a buf away)
        (λ next n. Holds-validate_all next ps n h)

  Holds-cancel_all :
      (cache : PageCache V) (ps : List (Address × Bytes))
      → LostCache cache
      → AllAway ps
      → Holds LostCache (cancel_all c cache ps)
  unfolding cancel_all
  Holds-cancel_all cache [] l h = Holds-some LostCache cache l
  Holds-cancel_all cache ((a, buf) ∷ ps) l (away, h) =
      Holds-bind LostCache LostCache (cancel_page_validation c cache a buf) _
        (Holds-cancel_page_validation c half count idx cache l a buf away)
        (λ next n. Holds-cancel_all next ps n h)

  module _ (mem : List Request → Answers) (asked : AnswersAsked mem) where
    abbrev StepLost : Reading V × Option Error → Type ℓ
    StepLost s = StillLost s.0

    requested :
        (size : ℕ) (ps : List (Address × Bytes))
        → AllAway ps
        → All (λ q. Away half count idx q.meta_addr) (map (page_request c mem size) ps)
    requested size [] h = tt
    requested size (p ∷ ps) (away, h) = (away, requested size ps h)

    -- The end of `fill_cache`, from the verdict of the read on.
    Holds-filled :
        (r : Reading V) (pages : List (Address × Bytes)) (cache : PageCache V)
        (result : Result (Unit {0}) Error)
        → LostCache cache
        → AllAway r.wlistcache
        → AllAway pages
        → Holds StepLost (elim result [
          | err e ↦ some (record r { cache = cache }, some e)
          | ok u ↦
              Option.map
                (λ next. (record r { cache = next; wlistcache = [] }, none))
                (cancel_all c cache pages)
        ])
    Holds-filled r pages cache (err e) l h g =
        Holds-some StepLost _ (record { lost = l; waits = h })
    Holds-filled r pages cache (ok u) l h g =
        Holds-map_of LostCache StepLost _ (cancel_all c cache pages)
          (Holds-cancel_all cache pages l g) (λ next n. record { lost = n; waits = tt })

    -- `fill_cache` by the list of pages.
    abbrev fill_with : List (Address × Bytes) → Reading V → Option (Reading V × Option Error)
    fill_with ps r = elim ps [
      | [] ↦ some (r, none)
      | p ∷ ps ↦
          let (outs, (fails, result)) = mem (map (page_request c mem r.cache.page_size) (p ∷ ps)) in
          Option.bind (validate_all c r.cache outs) (λ cache. elim result [
            | err e ↦ some (record r { cache = cache }, some e)
            | ok u ↦
                Option.map (λ next. (record r { cache = next; wlistcache = [] }, none))
                  (cancel_all c cache (p ∷ ps))
          ])
    ]

    Holds-fill_with :
        (ps : List (Address × Bytes)) (r : Reading V)
        → StillLost r
        → AllAway ps
        → Holds StepLost (fill_with ps r)
    Holds-fill_with [] r l h = Holds-some StepLost (r, none) l
    Holds-fill_with (p ∷ ps) r l h =
        let qs = map (page_request c mem r.cache.page_size) (p ∷ ps) in
        Holds-bind LostCache StepLost (validate_all c r.cache (mem qs).0) _
          (Holds-validate_all r.cache (mem qs).0 l.lost
            (asked (Away half count idx) qs (requested r.cache.page_size (p ∷ ps) h)))
          (λ cache n. Holds-filled r (p ∷ ps) cache (mem qs).1.1 n l.waits h)

    Holds-fill_cache : (r : Reading V) → StillLost r → Holds StepLost (fill_cache c mem r)
    unfolding fill_cache
    Holds-fill_cache r l = Holds-fill_with r.wlistcache r l l.waits

    through :
        (r : Reading V) (ws : List Request)
        → StillLost r
        → StepLost (elim ws [
          | [] ↦ (r, none)
          | q ∷ qs ↦
              let (outs, (fails, result)) = mem (q ∷ qs) in
              (
                record r { wlist = []; out = r.out ++ outs; out_fail = r.out_fail ++ fails },
                error_of c mem result,
              )
        ])
    through r [] l = l
    through r (q ∷ qs) l = record { lost = l.lost; waits = l.waits }

    Holds-then_serve :
        (s : Reading V × Option Error) → StepLost s → Holds StepLost (then_serve c mem s)
    Holds-then_serve (r, some e) l = Holds-some StepLost (r, some e) l
    Holds-then_serve (r, none) l =
        Holds-map_of StillLost StepLost (λ next. (next, none))
          (serve_all c (record r { clist = [] }) r.clist)
          (Holds-serve_all c half count idx (record r { clist = [] }) r.clist
            (record { lost = l.lost; waits = l.waits }))
          (λ next n. n)

    Holds-then_fill :
        (s : Reading V × Option Error) → StepLost s → Holds StepLost (then_fill c mem s)
    Holds-then_fill (r, some e) l = Holds-some StepLost (r, some e) l
    Holds-then_fill (r, none) l =
        Holds-bind StepLost StepLost (fill_cache c mem r) _ (Holds-fill_cache r l)
          (λ s n. Holds-then_serve s n)

    Holds-work_off : (r : Reading V) → StillLost r → Holds StepLost (work_off c mem r)
    unfolding work_off read_through
    Holds-work_off r l = Holds-then_fill (read_through c mem r) (through r r.wlist l)

    Holds-go_on :
        (qs : List Request)
        → ((r : Reading V) → StillLost r → Holds StepLost (cached_read c mem qs r))
        → (s : Reading V × Option Error) → StepLost s
        → Holds StepLost (go_on c mem s (cached_read c mem qs))
    Holds-go_on qs rest (r, some e) l = Holds-some StepLost (r, some e) l
    Holds-go_on qs rest (r, none) l = rest r l

    pub Holds-cached_read :
        (qs : List Request) (r : Reading V)
        → StillLost r
        → Holds (λ s. StillLost s.0) (cached_read c mem qs r)
    unfolding cached_read
    Holds-cached_read [] r l = Holds-some StepLost (r, none) l
    Holds-cached_read (q ∷ qs) r l =
        Holds-bind StillLost StepLost (read_request c r q) _
          (Holds-read_request c half count idx r q l)
          (λ next n.
            Holds-bind StepLost StepLost
              (if is_due c mem qs next then work_off c mem next else some (next, none)) _
              (Holds-if StepLost (is_due c mem qs next) _ _ (λ t. Holds-work_off next n)
                (λ f. Holds-some StepLost (next, none) n))
              (λ s k. Holds-go_on qs (Holds-cached_read qs) s k))
