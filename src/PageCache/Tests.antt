-- ===== src/PageCache/Tests.antt =====
-- A page cache of two pages of 4 bytes, with a counting validator.
use memflow.Prelude.{
  ◌++◌, Bool, ℕ, zero, suc, ◌+◌, ◌≡◌, ◌≢◌, refl, arith, ap, sym, ◌∙◌, get_elem?, take, Option, some,
  none, List, [], ◌∷◌, false,
}
use mathlib.Core.Option
use mathlib.Core.Option.{some-injective}
use memflow.Prelude.Results.{ok}
use memflow.Types.Address.{Address, invalid, as_mem_aligned, wrapping_add, wrapping_sub}
use memflow.Types.PhysAddr
use memflow.Types.PhysAddr.{PhysicalAddress}
use memflow.Cache.Count.{
  CountCacheValidator, count_validator, is_slot_valid, allocate_slots, validate_slot,
  invalidate_slot,
}
use memflow.Cache.CountLaws.{IsReady, count_validator-IsValidator}
use memflow.PageCache.Cache.{
  is_invalid, Bytes, is_valid, PageCache, page_of, with_page_size, take_page, page_index,
  is_cached_page_type, put_page, mark_page_for_validation, invalidate_page_raw,
  cancel_page_validation, cached_page_mut, validate_page,
}
use memflow.Iter.Split.{split_inclusive_at_mut, split_at_pair, pair_parts, split_at_umem}
use memflow.Iter.Chunks
use memflow.Iter.Chunks.{next_loop, loop_round, end_len, page_rest, collect}
use memflow.PageCache.Read.{
  Request, Answers, Reading, cached_read, read_request, split_to_chunks, cancel_all, fill_cache,
  read_chunk, read_chunks, read_through, serve_all, serve_waiting, validate_all, work_off,
}
use memflow.PageCache.CacheLaws.{IsCoherent, with_page_size-IsCoherent}
use memflow.PageCache.TakeLaws.{cached_page_mut-IsCoherent}
use memflow.PageCache.LostReads.{AnswersAsked}
use memflow.PageCache.Uses.{Later}
use memflow.PageCache.LostLaws.{serve_waiting-cancel_page_validation}
use memflow.PageCache.StoreLaws.{validate_page-cached_page_mut}

abbrev fresh : CountCacheValidator
fresh = record { count = []; valid_count = 10; last_count = 3 }

fresh-IsReady : IsReady fresh
fresh-IsReady = record {
  positive = omega arith;
  valid_bound = omega arith;
  last_bound = omega arith;
}

abbrev cache : PageCache CountCacheValidator
cache = with_page_size count_validator 4 8 4 fresh

abbrev memory : Address → Bytes
memory a = a ∷ (a + 1) ∷ (a + 2) ∷ (a + 3) ∷ []

abbrev IsCoherentHere : PageCache CountCacheValidator → Type 0
IsCoherentHere = IsCoherent count_validator count_validator-IsValidator memory

cache-IsCoherent : IsCoherentHere cache
cache-IsCoherent =
    with_page_size-IsCoherent count_validator count_validator-IsValidator memory 4 8 4 fresh
      fresh-IsReady (omega arith)

-- The page at 12 is in the second slot, and the byte at 14 is in that page.
validate_page-cached_page_mut_example :
    (next : PageCache CountCacheValidator) × (validate_page count_validator cache 12 (memory 12)
      ≡ some next)
    × IsCoherentHere next
    × (after : PageCache CountCacheValidator) × (cached_page_mut count_validator next 14 false
        ≡ some (record { address = 12; validity = is_valid (memory 12) }, after))
unfolding as_mem_aligned with_page_size
validate_page-cached_page_mut_example =
    validate_page-cached_page_mut count_validator count_validator-IsValidator cache cache-IsCoherent
      12 14 (memory 12) refl refl refl

abbrev warm : PageCache CountCacheValidator
warm = record {
  address = invalid ∷ 12 ∷ [];
  page_refs = some (0 ∷ 0 ∷ 0 ∷ 0 ∷ []) ∷ some (memory 12) ∷ [];
  address_once_validated = invalid ∷ invalid ∷ [];
  page_size = 4;
  page_type_mask = 4;
  validator = record { count = 0 ∷ 3 ∷ []; valid_count = 10; last_count = 3 };
}

warm-agrees :
    (i : ℕ) (a : Address) (buf : Bytes)
    → get_elem? warm.address i ≡ some a
    → get_elem? warm.page_refs i ≡ some (some buf)
    → a ≢ invalid
    → buf ≡ memory a
warm-agrees zero a buf at held ne = absurd (ne (sym (some-injective _ _ at)))
warm-agrees (suc zero) a buf at held ne =
    sym (some-injective _ _ (some-injective _ _ held)) ∙ ap memory (some-injective _ _ at)
warm-agrees (suc (suc i)) a buf at held ne = cc

warm-IsCoherent : IsCoherentHere warm
warm-IsCoherent = record {
  ready = record { positive = omega arith; valid_bound = omega arith; last_bound = omega arith };
  slots_size = refl;
  refs_size = refl;
  once_size = refl;
  nonempty = omega arith;
  agrees = warm-agrees;
}

abbrev emptied : PageCache CountCacheValidator
emptied = record warm { page_refs = some (0 ∷ 0 ∷ 0 ∷ 0 ∷ []) ∷ none ∷ [] }

cached_page_mut-IsCoherent_example :
    (12 ≡ page_of warm 14) × (memory 12 ≡ memory (page_of warm 14)) × IsCoherentHere emptied
unfolding as_mem_aligned cached_page_mut take_page page_index Option.bind is_slot_valid
cached_page_mut-IsCoherent_example =
    cached_page_mut-IsCoherent count_validator count_validator-IsValidator warm warm-IsCoherent 14
      false (record { address = 12; validity = is_valid (memory 12) }) emptied (memory 12) refl refl
      (λ q. omega (arith, q))

-- A memory that answers every request in full, or fails all.
abbrev answers : List Request → Answers
answers [] = ([], ([], ok tt))
answers (q ∷ qs) =
    let (outs, (fails, r)) = answers qs in
    ((q.meta_addr, take q.len (memory q.addr.address)) ∷ outs, (fails, r))

abbrev fails : List Request → Answers
fails [] = ([], ([], ok tt))
fails (q ∷ qs) = let (outs, (failed, r)) = fails qs in (outs, ((q.meta_addr, q.len) ∷ failed, r))

abbrev reading : PageCache CountCacheValidator → Reading CountCacheValidator
reading cache = record {
  cache = cache;
  clist = [];
  wlist = [];
  wlistcache = [];
  out = [];
  out_fail = [];
}

abbrev request : Request
request = record {
  addr = record { address = 12; page_type = 4; page_size_log2 = 2 };
  meta_addr = 100;
  len = 4;
}

abbrev outcome :
    (List Request → Answers)
    → PageCache CountCacheValidator
    → Option (List (Address × Bytes) × (List (Address × ℕ) × List (Option Bytes)))
outcome mem cache =
    Option.map (λ s. (s.0.out, (s.0.out_fail, s.0.cache.page_refs)))
      (cached_read count_validator mem (request ∷ []) (reading cache))

answered :
    outcome answers cache
    ≡ some ((100, memory 12) ∷ [], ([], some (0 ∷ 0 ∷ 0 ∷ 0 ∷ []) ∷ some (memory 12) ∷ []))
unfolding cached_read read_request is_cached_page_type with_page_size split_to_chunks collect
    Chunks.next Chunks.new next_loop loop_round split_inclusive_at_mut end_len page_rest
    split_at_pair pair_parts split_at_umem cached_page_mut cancel_page_validation
    invalidate_page_raw mark_page_for_validation page_index put_page take_page validate_page
    cancel_all fill_cache read_chunk read_chunks read_through serve_all serve_waiting validate_all
    work_off as_mem_aligned wrapping_add wrapping_sub PhysAddr.bit_length PhysAddr.from_umem
    PhysAddr.page_size PhysAddr.with_page is_slot_valid allocate_slots validate_slot invalidate_slot
    Option.bind
answered = refl

-- After a failed read the slot has no buffer.
failed : outcome fails cache ≡ some ([], ((100, 4) ∷ [], some (0 ∷ 0 ∷ 0 ∷ 0 ∷ []) ∷ none ∷ []))
unfolding cached_read read_request is_cached_page_type with_page_size split_to_chunks collect
    Chunks.next Chunks.new next_loop loop_round split_inclusive_at_mut end_len page_rest
    split_at_pair pair_parts split_at_umem cached_page_mut cancel_page_validation
    invalidate_page_raw mark_page_for_validation page_index put_page take_page validate_page
    cancel_all fill_cache read_chunk read_chunks read_through serve_all serve_waiting validate_all
    work_off as_mem_aligned wrapping_add wrapping_sub PhysAddr.bit_length PhysAddr.from_umem
    PhysAddr.page_size PhysAddr.with_page is_slot_valid allocate_slots validate_slot invalidate_slot
    Option.bind
failed = refl

-- The cache while the page at 12 is read: its buffer is out, and its slot is marked.
abbrev marked : PageCache CountCacheValidator
marked = record warm {
  address = invalid ∷ invalid ∷ [];
  page_refs = some (0 ∷ 0 ∷ 0 ∷ 0 ∷ []) ∷ none ∷ [];
  address_once_validated = invalid ∷ 12 ∷ [];
}

marked-agrees :
    (i : ℕ) (a : Address) (buf : Bytes)
    → get_elem? marked.address i ≡ some a
    → get_elem? marked.page_refs i ≡ some (some buf)
    → a ≢ invalid
    → buf ≡ memory a
marked-agrees zero a buf at held ne = absurd (ne (sym (some-injective _ _ at)))
marked-agrees (suc zero) a buf at held ne = absurd (ne (sym (some-injective _ _ at)))
marked-agrees (suc (suc i)) a buf at held ne = cc

marked-IsCoherent : IsCoherentHere marked
marked-IsCoherent = record {
  ready = record { positive = omega arith; valid_bound = omega arith; last_bound = omega arith };
  slots_size = refl;
  refs_size = refl;
  once_size = refl;
  nonempty = omega arith;
  agrees = marked-agrees;
}

serve_waiting-cancel_page_validation_example :
    (next : PageCache CountCacheValidator) × (cancel_page_validation count_validator marked 12
        (memory 12)
      ≡ some next)
    × (after : PageCache CountCacheValidator) × (serve_waiting count_validator
          (record (reading marked) { cache = next })
          request
        ≡ some (record (reading marked) { cache = after; out_fail = [] ++ (100, 4) ∷ [] }))
    × ((later : PageCache CountCacheValidator)
        → Later count_validator after later
        → (other : Address) (skip : Bool) → page_index marked other ≡ page_index marked 12
        → Option.map (λ e. e.0.validity) (cached_page_mut count_validator later other skip)
          ≡ some is_invalid)
unfolding as_mem_aligned page_index
serve_waiting-cancel_page_validation_example =
    serve_waiting-cancel_page_validation count_validator count_validator-IsValidator marked
      marked-IsCoherent 2 12 (memory 12) (reading marked) request refl refl refl refl

-- The memory answers what it is asked.
answers-AnswersAsked : AnswersAsked answers
answers-AnswersAsked P [] h = tt
answers-AnswersAsked P (q ∷ qs) (here, h) = (here, answers-AnswersAsked P qs h)

-- The cache after the failed read: the next read of the page goes to the memory, and past the cache.
abbrev lost : PageCache CountCacheValidator
lost = record marked { address_once_validated = invalid ∷ invalid ∷ [] }

read_past :
    outcome answers lost ≡ some ((100, memory 12) ∷ [], ([], some (0 ∷ 0 ∷ 0 ∷ 0 ∷ []) ∷ none ∷ []))
unfolding cached_read read_request is_cached_page_type with_page_size split_to_chunks collect
    Chunks.next Chunks.new next_loop loop_round split_inclusive_at_mut end_len page_rest
    split_at_pair pair_parts split_at_umem cached_page_mut cancel_page_validation
    invalidate_page_raw mark_page_for_validation page_index put_page take_page validate_page
    cancel_all fill_cache read_chunk read_chunks read_through serve_all serve_waiting validate_all
    work_off as_mem_aligned wrapping_add wrapping_sub PhysAddr.bit_length PhysAddr.from_umem
    PhysAddr.page_size PhysAddr.with_page is_slot_valid allocate_slots validate_slot invalidate_slot
    Option.bind
read_past = refl
