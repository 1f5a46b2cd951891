-- ===== src/Cache/Batch/Read.antt =====
-- What Get answers through the pointer that GetCache gives, from the history alone.
use chain_parse_service.Base.{
  ℕ, ◌≤◌, String, ◌≡◌, refl, sym, ◌∙◌, ap, Bool, true, false, Option, none, some, List, [], ◌∷◌,
  arith, All, ◌==◌,
}
use chain_parse_service.Base.Dict.{Dict, lookup}
use chain_parse_service.Cache.{get, live, clear, cleanup}
use chain_parse_service.Cache.History.{cleans, step, step-NodupKeys}
use chain_parse_service.Cache.Batch.{
  TokenCache, get_elem?, modify, BatchTokenCache, new_batch_token_cache, get_or_create_cache,
  get_cache, clear_each, clear_all, cleanup_one, cleanup_each, cleanup_all,
}
use chain_parse_service.Cache.Batch.Views.{
  Event, creates, through, clears_all, cleans_one, cleans_all, batch_step, batch_run, ReturnedBy,
  Returned, Early, View, viewed, last_viewed, answer, get_token, get_at, get_through,
}
use chain_parse_service.Cache.Batch.Cells.{
  WellKeyed, IsValid, CellShows, Shown, length-modify, modify-All, entered_if, entered-handle,
}
use chain_parse_service.Cache.Batch.Creates.{created-IsValid, created-Shown}

-- The other calls write cells, and ClearAll drops every pointer.
module _ (b : BatchTokenCache) (valid : IsValid b) where
  modified-IsValid :
      (f : TokenCache → TokenCache) (r : ℕ)
      → ((c : TokenCache) → WellKeyed c → WellKeyed (f c))
      → IsValid (record b { heap = modify f r b.heap })
  modified-IsValid f r h = record {
    allocated = λ a p q. rw (length-modify f r b.heap) (valid.allocated a p q);
    distinct = valid.distinct;
    keyed = modify-All WellKeyed f r b.heap h valid.keyed;
  }

  cleanup_one-IsValid : (r t : ℕ) → IsValid (cleanup_one b r t)
  unfolding cleanup_one step
  cleanup_one-IsValid r t = modified-IsValid (λ c. cleanup c t) r (λ c. step-NodupKeys c (cleans t))

  module _ (now : ℕ) (a k : String) where
    cleaned-Shown :
        (r t : ℕ) (v : Option View)
        → t ≤ now
        → Shown now a k b v
        → Shown now a k (cleanup_one b r t) v
    unfolding cleanup_one step
    cleaned-Shown r t none early h = h
    cleaned-Shown r t (some w) early h = (h.0, by_handle (w.handle == r) refl)
      where
        by_handle :
            (q : Bool)
            → (w.handle == r) ≡ q
            → CellShows now k w (get_elem? (modify (λ c. cleanup c t) r b.heap) w.handle)
        by_handle true e = entered_if now k w r (cleans t) early true b.heap e valid.keyed h.1
        by_handle false e = entered_if now k w r (cleans t) early false b.heap e valid.keyed h.1

clear_each-keyed :
    (d : Dict ℕ) (heap : List TokenCache) → All WellKeyed heap → All WellKeyed (clear_each d heap)
unfolding clear_each clear
clear_each-keyed [] heap u = u
clear_each-keyed ((_, r) ∷ d) heap u =
    clear_each-keyed d _ (modify-All WellKeyed clear r heap (λ c h. tt) u)

clear_all-IsValid : (b : BatchTokenCache) → IsValid b → IsValid (clear_all b)
unfolding clear_all lookup
clear_all-IsValid b valid = record {
  allocated = λ a r h. absurd (ground (arith, h));
  distinct = λ a j r h h'. absurd (ground (arith, h));
  keyed = clear_each-keyed b.caches b.heap valid.keyed;
}

cleanup_each-IsValid :
    (d : Dict ℕ) (clock : ℕ → ℕ) (b : BatchTokenCache)
    → IsValid b
    → IsValid (cleanup_each d clock b)
unfolding cleanup_each
cleanup_each-IsValid [] clock b valid = valid
cleanup_each-IsValid ((_, r) ∷ d) clock b valid =
    cleanup_each-IsValid d clock _ (cleanup_one-IsValid b valid r (clock r))

batch_step-IsValid : (b : BatchTokenCache) (e : Event) → IsValid b → IsValid (batch_step b e)
unfolding batch_step get_or_create_cache cleanup_all
batch_step-IsValid b (creates asset ttl r) valid =
    created-IsValid b valid asset ttl (lookup asset b.caches) refl
batch_step-IsValid b (through r o) valid =
    modified-IsValid b valid (λ c. step c o) r (λ c. step-NodupKeys c o)
batch_step-IsValid b clears_all valid = clear_all-IsValid b valid
batch_step-IsValid b (cleans_one r t) valid = cleanup_one-IsValid b valid r t
batch_step-IsValid b (cleans_all clock) valid = cleanup_each-IsValid b.caches clock b valid

new_batch-IsValid : IsValid new_batch_token_cache
unfolding new_batch_token_cache lookup
new_batch-IsValid = record {
  allocated = λ a r h. absurd (ground (arith, h));
  distinct = λ a j r h h'. absurd (ground (arith, h));
  keyed = tt;
}

module _ (now : ℕ) (a k : String) where
  cleanup_each-Shown :
      (d : Dict ℕ) (clock : ℕ → ℕ) (b : BatchTokenCache) (v : Option View)
      → IsValid b
      → ((r : ℕ) → clock r ≤ now)
      → Shown now a k b v
      → Shown now a k (cleanup_each d clock b) v
  unfolding cleanup_each
  cleanup_each-Shown [] clock b v valid early h = h
  cleanup_each-Shown ((_, r) ∷ d) clock b v valid early h =
      cleanup_each-Shown d clock _ v (cleanup_one-IsValid b valid r (clock r)) early
        (cleaned-Shown b valid now a k r (clock r) v (early r) h)

  batch_step-Shown :
      (b : BatchTokenCache) (e : Event) (v : Option View)
      → IsValid b
      → ReturnedBy b e
      → Early now e
      → Shown now a k b v
      → Shown now a k (batch_step b e) (viewed a k v e)
  unfolding batch_step get_or_create_cache cleanup_all clear_all lookup
  batch_step-Shown b (creates asset ttl r) v valid s early h =
      created-Shown b valid asset ttl now a k (lookup asset b.caches) r v refl s h
  batch_step-Shown b (through r o) none valid s early h = h
  batch_step-Shown b (through r o) (some w) valid s early h = (
    h.0 ∙ ap some (sym (entered-handle now k w r o early (w.handle == r))),
    entered_if now k w r o early (w.handle == r) b.heap refl valid.keyed h.1,
  )
  batch_step-Shown b clears_all v valid s early h = refl
  batch_step-Shown b (cleans_one r t) v valid s early h =
      cleaned-Shown b valid now a k r t v early h
  batch_step-Shown b (cleans_all clock) v valid s early h =
      cleanup_each-Shown b.caches clock b v valid early h

  batch_run-Shown :
      (b : BatchTokenCache) (es : List Event) (v : Option View)
      → IsValid b
      → Returned b es
      → All (Early now) es
      → Shown now a k b v
      → Shown now a k (batch_run b es) (last_viewed a k v es)
  unfolding batch_run
  batch_run-Shown b [] v valid s early h = h
  batch_run-Shown b (e ∷ es) v valid s early h =
      batch_run-Shown (batch_step b e) es _ (batch_step-IsValid b e valid) s.1 early.1
        (batch_step-Shown b e v valid s.0 early.0 h)

  get_token-Shown :
      (b : BatchTokenCache) (v : Option View)
      → Shown now a k b v
      → get_token b now a k ≡ answer now v
  unfolding get_token get_cache get lookup
  get_token-Shown b none h = ap (λ q. get_through b.heap q now k) h
  get_token-Shown b (some w) h =
      ap (λ q. get_through b.heap q now k) h.0 ∙ by_cell (get_elem? b.heap w.handle) h.1
    where
      by_cell : (c : Option TokenCache) → CellShows now k w c → get_at c now k ≡ live now w.entry
      by_cell none h = absurd h
      by_cell (some c) h = h.1

  -- After any history on a new batch of token caches, Get through the pointer that GetCache gives
  -- for an asset answers from the events alone: it returns the value that was set last for the key
  -- through that pointer, unless the key was deleted or that cache cleared since, or its time to
  -- live is over; and it finds nothing unless GetOrCreateCache was called for the asset since the
  -- last ClearAll. The history records the pointers that GetOrCreateCache returned, writes through
  -- any pointers, and has no cleanup after the clock of the Get. So neither the other assets nor
  -- pointers from before a ClearAll nor the cleanups show.
  pub get_token_by_history :
      (es : List Event)
      → Returned new_batch_token_cache es
      → All (Early now) es
      → get_token (batch_run new_batch_token_cache es) now a k
        ≡ answer now (last_viewed a k none es)
  unfolding new_batch_token_cache lookup
  get_token_by_history es s early =
      get_token-Shown _ _
        (batch_run-Shown new_batch_token_cache es none new_batch-IsValid s early refl)
