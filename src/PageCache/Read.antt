-- ===== src/PageCache/Read.antt =====
-- `cached_read` of `PageCache` in memflow/src/mem/phys_mem/middleware/cache/page_cache.rs. A request
-- has the length of its destination; the calls of `out` and `out_fail` are lists, in order. The
-- memory below is a parameter: for a list of requests, the calls of `out` and of `out_fail` that it
-- makes, and its answer. `none` is a panic.
use memflow.Prelude.{
  ℕ, ◌+◌, ◌-◌, Option, some, none, List, [], ◌∷◌, ◌++◌, Bool, true, false, ◌||◌, leb, length, take,
  drop, map, if◌then◌else◌,
}
use memflow.Prelude.Results.{Result, ok, err}
use mathlib.Core.Option
use memflow.Error.Code.{Error}
use memflow.Types.Address.{Address}
use memflow.Types.PhysAddr
use memflow.Types.PhysAddr.{PhysicalAddress, with_page, from_umem}
use memflow.Iter.Split.{umem_split, pair_split}
use memflow.Iter.Chunks.{new, collect, always}
use memflow.Cache.Validator.{CacheValidator}
use memflow.PageCache.Cache.{
  Bytes, PageValidity, is_invalid, validatable, to_be_validated, is_valid, PageCache,
  is_cached_page_type, cached_page_mut, put_page, mark_page_for_validation, cancel_page_validation,
  validate_page,
}

-- `PhysicalReadData`.
pub record Request : Type 0 where
  pub addr : PhysicalAddress
  pub meta_addr : Address
  pub len : ℕ

abbrev pub Answers : Type 0
Answers = List (Address × Bytes) × (List (Address × ℕ) × Result (Unit {0}) Error)

-- The lists of `cached_read`: the requests that wait for a page (last one first), those that go to the
-- memory, the pages that are read for the cache, and the calls of the callbacks.
pub record Reading {ℓ} (V : Type ℓ) : Type ℓ where
  pub cache : PageCache V
  pub clist : List Request
  pub wlist : List Request
  pub wlistcache : List (Address × Bytes)
  pub out : List (Address × Bytes)
  pub out_fail : List (Address × ℕ)

-- `split_at_mut(start).1.split_at_mut(len).0`, which panics out of bounds.
abbrev pub slice : Bytes → ℕ → ℕ → Option Bytes
slice buf start len =
    if leb (start + len) (length buf) then some (take len (drop start buf)) else none

module _ {ℓ} {V : Type ℓ} (c : CacheValidator V) where
  -- A valid page serves the request, and goes back.
  abbrev pub serve : Reading V → Request → Address → Bytes → Option (Reading V)
  serve r q page buf = Option.bind (slice buf (q.addr.address - page) q.len) (λ bytes.
      Option.map (λ cache. record r { cache = cache; out = r.out ++ (q.meta_addr, bytes) ∷ [] })
        (put_page c r.cache page buf))

  abbrev pub on_validity : Reading V → Request → Address → PageValidity → Option (Reading V)
  on_validity r q page (is_valid buf) = serve r q page buf
  on_validity r q page (validatable buf) =
      Option.map
        (λ cache. record r {
          cache = cache;
          clist = q ∷ r.clist;
          wlistcache = r.wlistcache ++ (page, buf) ∷ [];
        })
        (mark_page_for_validation c r.cache page)
  on_validity r q page to_be_validated = some (record r { clist = q ∷ r.clist })
  on_validity r q page is_invalid = some (record r { wlist = r.wlist ++ q ∷ [] })

  -- The closure for a chunk of a request.
  unfoldable pub read_chunk : Reading V → Request → Option (Reading V)
  read_chunk r q =
      Option.bind (cached_page_mut c r.cache q.addr.address false)
        (λ e. on_validity (record r { cache = e.1 }) q e.0.address e.0.validity)

  unfoldable pub read_chunks : Reading V → List Request → Option (Reading V)
  read_chunks r [] = some r
  read_chunks r (q ∷ qs) = Option.bind (read_chunk r q) (λ next. read_chunks next qs)

  -- `split_to_chunks`: the chunks of a request, each in one page.
  unfoldable pub split_to_chunks : Request → ℕ → Option (List Request)
  split_to_chunks q page_size =
      Option.map
        (map (λ (paddr, (meta_addr, len)). record {
          addr = with_page paddr q.addr.page_type (PhysAddr.page_size q.addr);
          meta_addr = meta_addr;
          len = len;
        }))
        (collect ⦃s = pair_split⦄ always (q.len + 1) q.len
          (new ⦃s = pair_split⦄ (q.meta_addr, q.len) q.addr.address page_size))

  -- The body of the loop over the requests, before the lists are worked off.
  unfoldable pub read_request : Reading V → Request → Option (Reading V)
  read_request r q =
      let uncached = some (record r { wlist = r.wlist ++ q ∷ [] }) in
      let cached = Option.bind (split_to_chunks q r.cache.page_size) (read_chunks r) in
      if is_cached_page_type r.cache q.addr.page_type then cached else uncached

  -- The callback of the read for the cache.
  unfoldable pub validate_all : PageCache V → List (Address × Bytes) → Option (PageCache V)
  validate_all cache [] = some cache
  validate_all cache ((addr, buf) ∷ pages) =
      Option.bind (validate_page c cache addr buf) (λ next. validate_all next pages)

  -- What was not read is cancelled.
  unfoldable pub cancel_all : PageCache V → List (Address × Bytes) → Option (PageCache V)
  cancel_all cache [] = some cache
  cancel_all cache ((addr, buf) ∷ pages) =
      Option.bind (cancel_page_validation c cache addr buf) (λ next. cancel_all next pages)

  -- A request that waited for its page: it is served from a valid page, or fails. A buffer that comes
  -- with another verdict is dropped.
  abbrev pub serve_or_fail : Reading V → Request → Address → PageValidity → Option (Reading V)
  serve_or_fail r q page (is_valid buf) = serve r q page buf
  serve_or_fail r q page (validatable buf) =
      some (record r { out_fail = r.out_fail ++ (q.meta_addr, q.len) ∷ [] })
  serve_or_fail r q page to_be_validated =
      some (record r { out_fail = r.out_fail ++ (q.meta_addr, q.len) ∷ [] })
  serve_or_fail r q page is_invalid =
      some (record r { out_fail = r.out_fail ++ (q.meta_addr, q.len) ∷ [] })

  unfoldable pub serve_waiting : Reading V → Request → Option (Reading V)
  serve_waiting r q =
      Option.bind (cached_page_mut c r.cache q.addr.address false)
        (λ e. serve_or_fail (record r { cache = e.1 }) q e.0.address e.0.validity)

  unfoldable pub serve_all : Reading V → List Request → Option (Reading V)
  serve_all r [] = some r
  serve_all r (q ∷ qs) = Option.bind (serve_waiting r q) (λ next. serve_all next qs)

  module _ (mem : List Request → Answers) where
    -- The answer of a step: the state, or the error that `?` returns.
    abbrev pub Step : Type ℓ
    Step = Option (Reading V × Option Error)

    abbrev pub error_of : Result (Unit {0}) Error → Option Error
    error_of (ok u) = none
    error_of (err e) = some e

    -- The requests that go to the memory.
    unfoldable pub read_through : Reading V → Reading V × Option Error
    read_through r = elim r.wlist [
      | [] ↦ (r, none)
      | q ∷ qs ↦
          let (outs, (fails, result)) = mem (q ∷ qs) in
          (
            record r { wlist = []; out = r.out ++ outs; out_fail = r.out_fail ++ fails },
            error_of result,
          )
    ]

    abbrev pub page_request : ℕ → Address × Bytes → Request
    page_request page_size (page, buf) = record {
      addr = from_umem page;
      meta_addr = page;
      len = page_size;
    }

    -- The pages for the cache: those that are read are validated, the others cancelled.
    unfoldable pub fill_cache : Reading V → Step
    fill_cache r = elim r.wlistcache [
      | [] ↦ some (r, none)
      | p ∷ ps ↦
          let (outs, (fails, result)) = mem (map (page_request r.cache.page_size) (p ∷ ps)) in
          Option.bind (validate_all r.cache outs) (λ cache. elim result [
            | err e ↦ some (record r { cache = cache }, some e)
            | ok u ↦
                Option.map (λ next. (record r { cache = next; wlistcache = [] }, none))
                  (cancel_all cache (p ∷ ps))
          ])
    ]

    abbrev pub then_serve : Reading V × Option Error → Step
    then_serve (r, some e) = some (r, some e)
    then_serve (r, none) =
        Option.map (λ next. (next, none)) (serve_all (record r { clist = [] }) r.clist)

    abbrev pub then_fill : Reading V × Option Error → Step
    then_fill (r, some e) = some (r, some e)
    then_fill (r, none) = Option.bind (fill_cache r) then_serve

    -- The lists are worked off.
    unfoldable pub work_off : Reading V → Step
    work_off r = then_fill (read_through r)

    abbrev pub no_more : List Request → Bool
    no_more [] = true
    no_more (q ∷ qs) = false

    abbrev pub is_due : List Request → Reading V → Bool
    is_due rest r =
        no_more rest
        || (leb 64 (length r.wlist) || (leb 64 (length r.wlistcache) || leb 64 (length r.clist)))

    abbrev pub go_on : Reading V × Option Error → (Reading V → Step) → Step
    go_on (r, some e) rest = some (r, some e)
    go_on (r, none) rest = rest r

    -- `cached_read`.
    unfoldable pub cached_read : List Request → Reading V → Step
    cached_read [] r = some (r, none)
    cached_read (q ∷ qs) r = Option.bind (read_request r q) (λ next.
        let worked = work_off next in
        let done = if is_due qs next then worked else some (next, none) in
        Option.bind done (λ s. go_on s (cached_read qs)))
