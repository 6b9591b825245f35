-- ===== src/PageCache/LostReads.antt =====
-- The requests of a `cached_read` of memflow/src/mem/phys_mem/middleware/cache/page_cache.rs leave a slot
-- without a buffer as it is.
use memflow.Prelude.{ℕ, ◌≡◌, ◌≢◌, refl, ap, sym, ◌∙◌, List, [], ◌∷◌, ◌++◌, false, All, All_append}
use memflow.Prelude.Holds.{Holds, Holds-some, Holds-if, Holds-bind, Holds-map_of}
use memflow.Types.Address.{Address}
use memflow.Cache.Validator.{CacheValidator}
use memflow.PageCache.Cache.{
  Bytes, PageValidity, is_invalid, validatable, to_be_validated, is_valid, CacheEntry, PageCache,
  is_cached_page_type, cached_page_mut, put_page, mark_page_for_validation,
}
use memflow.PageCache.Read.{
  Request, Answers, Reading, slice, serve, on_validity, read_chunk, read_chunks, split_to_chunks,
  read_request, serve_or_fail, serve_waiting, serve_all,
}
use memflow.PageCache.LostSlot.{IsLost, Away, slot_of, slot_of-aligned}
use memflow.PageCache.LostOps.{
  IsTaken, Holds-cached_page_mut, Holds-put_page, Holds-mark_page_for_validation,
}

-- The calls of `out` are for requests that were made.
abbrev pub AnswersAsked : (List Request → Answers) → Type 1
AnswersAsked mem =
    (P : Address → Type 0) (qs : List Request)
    → All (λ q. P q.meta_addr) qs
    → All (λ o. P o.0) (mem qs).0

pub held_valid : (v : PageValidity) (buf : Bytes) → v ≡ is_valid buf → v ≢ is_invalid
held_valid v buf e f = cc

pub held_validatable : (v : PageValidity) (buf : Bytes) → v ≡ validatable buf → v ≢ is_invalid
held_validatable v buf e f = cc

module _ {ℓ} {V : Type ℓ} (c : CacheValidator V) (half count idx : ℕ) where
  abbrev LostCache : PageCache V → Type ℓ
  LostCache = IsLost half count idx

  -- The slot is lost, and no page of it is about to be read.
  pub record IsLostReading (r : Reading V) : Type ℓ where
    pub lost : IsLost half count idx r.cache
    pub waits : All (λ p. Away half count idx p.0) r.wlistcache

  Holds-serve :
      (r : Reading V) (q : Request) (page : Address) (buf : Bytes)
      → IsLostReading r
      → Away half count idx page
      → Holds IsLostReading (serve c r q page buf)
  Holds-serve r q page buf l away =
      Holds-bind (λ (bytes : Bytes). Unit {0}) IsLostReading (slice buf _ q.len) _ (λ b e. tt)
        (λ bytes t.
          Holds-map_of LostCache IsLostReading
            (λ cache. record r { cache = cache; out = r.out ++ (q.meta_addr, bytes) ∷ [] })
            (put_page c r.cache page buf)
            (Holds-put_page c half count idx r.cache l.lost page buf away)
            (λ cache n. record { lost = n; waits = l.waits }))

  Holds-on_validity :
      (r : Reading V) (q : Request) (page : Address) (v : PageValidity)
      → IsLostReading r
      → (slot_of half count page ≡ idx → v ≡ is_invalid)
      → Holds IsLostReading (on_validity c r q page v)
  Holds-on_validity r q page (is_valid buf) l gone =
      Holds-serve r q page buf l (λ e. held_valid (is_valid buf) buf refl (gone e))
  Holds-on_validity r q page (validatable buf) l gone =
      let away : Away half count idx page =
        λ e. held_validatable (validatable buf) buf refl (gone e) in
      Holds-map_of LostCache IsLostReading _ (mark_page_for_validation c r.cache page)
        (Holds-mark_page_for_validation c half count idx r.cache l.lost page away)
        (λ cache n. record {
          lost = n;
          waits =
              All_append (λ p. Away half count idx p.0) r.wlistcache ((page, buf) ∷ []) l.waits
                (away, tt);
        })
  Holds-on_validity r q page to_be_validated l gone =
      Holds-some IsLostReading _ (record { lost = l.lost; waits = l.waits })
  Holds-on_validity r q page is_invalid l gone =
      Holds-some IsLostReading _ (record { lost = l.lost; waits = l.waits })

  Holds-serve_or_fail :
      (r : Reading V) (q : Request) (page : Address) (v : PageValidity)
      → IsLostReading r
      → (slot_of half count page ≡ idx → v ≡ is_invalid)
      → Holds IsLostReading (serve_or_fail c r q page v)
  Holds-serve_or_fail r q page (is_valid buf) l gone =
      Holds-serve r q page buf l (λ e. held_valid (is_valid buf) buf refl (gone e))
  Holds-serve_or_fail r q page (validatable buf) l gone =
      Holds-some IsLostReading _ (record { lost = l.lost; waits = l.waits })
  Holds-serve_or_fail r q page to_be_validated l gone =
      Holds-some IsLostReading _ (record { lost = l.lost; waits = l.waits })
  Holds-serve_or_fail r q page is_invalid l gone =
      Holds-some IsLostReading _ (record { lost = l.lost; waits = l.waits })

  -- The page that a lookup names has the slot of the address.
  pub gone_at :
      (a : Address) (e : CacheEntry × PageCache V)
      → IsTaken c half count idx a e
      → slot_of half count e.0.address ≡ idx
      → e.0.validity ≡ is_invalid
  gone_at a e t q =
      t.gone (sym (slot_of-aligned half count a) ∙ ap (slot_of half count) (sym t.address) ∙ q)

  Holds-read_chunk :
      (r : Reading V) (q : Request) → IsLostReading r → Holds IsLostReading (read_chunk c r q)
  unfolding read_chunk
  Holds-read_chunk r q l =
      Holds-bind (IsTaken c half count idx q.addr.address) IsLostReading
        (cached_page_mut c r.cache q.addr.address false) _
        (Holds-cached_page_mut c half count idx r.cache l.lost q.addr.address false)
        (λ e t.
          Holds-on_validity (record r { cache = e.1 }) q e.0.address e.0.validity
            (record { lost = t.lost; waits = l.waits }) (gone_at q.addr.address e t))

  Holds-serve_waiting :
      (r : Reading V) (q : Request) → IsLostReading r → Holds IsLostReading (serve_waiting c r q)
  unfolding serve_waiting
  Holds-serve_waiting r q l =
      Holds-bind (IsTaken c half count idx q.addr.address) IsLostReading
        (cached_page_mut c r.cache q.addr.address false) _
        (Holds-cached_page_mut c half count idx r.cache l.lost q.addr.address false)
        (λ e t.
          Holds-serve_or_fail (record r { cache = e.1 }) q e.0.address e.0.validity
            (record { lost = t.lost; waits = l.waits }) (gone_at q.addr.address e t))

  Holds-read_chunks :
      (r : Reading V) (qs : List Request)
      → IsLostReading r
      → Holds IsLostReading (read_chunks c r qs)
  unfolding read_chunks
  Holds-read_chunks r [] l = Holds-some IsLostReading r l
  Holds-read_chunks r (q ∷ qs) l =
      Holds-bind IsLostReading IsLostReading (read_chunk c r q) _ (Holds-read_chunk r q l)
        (λ next n. Holds-read_chunks next qs n)

  pub Holds-serve_all :
      (r : Reading V) (qs : List Request) → IsLostReading r → Holds IsLostReading (serve_all c r qs)
  unfolding serve_all
  Holds-serve_all r [] l = Holds-some IsLostReading r l
  Holds-serve_all r (q ∷ qs) l =
      Holds-bind IsLostReading IsLostReading (serve_waiting c r q) _ (Holds-serve_waiting r q l)
        (λ next n. Holds-serve_all next qs n)

  pub Holds-read_request :
      (r : Reading V) (q : Request) → IsLostReading r → Holds IsLostReading (read_request c r q)
  unfolding read_request
  Holds-read_request r q l =
      Holds-if IsLostReading (is_cached_page_type r.cache q.addr.page_type) _ _
        (λ t.
          Holds-bind (λ (qs : List Request). Unit {0}) IsLostReading
            (split_to_chunks c q r.cache.page_size) _ (λ qs e. tt)
            (λ qs t. Holds-read_chunks r qs l))
        (λ f. Holds-some IsLostReading _ (record { lost = l.lost; waits = l.waits }))
