-- ===== src/Cache/Batch/Views.antt =====
-- The batch of token caches against the history of the calls on it and on the pointers it gave out.
use chain_parse_service.Base.{
  ℕ, ◌≤◌, String, ◌≡◌, Option, none, some, List, [], ◌∷◌, if◌then◌else◌, str_eq, ◌==◌,
}
use chain_parse_service.Model.{Token}
use chain_parse_service.Cache.{CacheEntry, get, live}
use chain_parse_service.Cache.History.{Call, step, written, CleansBefore}
use chain_parse_service.Cache.Batch.{
  TokenCache, get_elem?, modify, BatchTokenCache, get_or_create_cache, get_cache, clear_all,
  cleanup_one, cleanup_all,
}

-- A call on the batch, or on a pointer. `creates` carries the pointer that GetOrCreateCache gave.
pub data Event : Type 0 where
  creates : String → ℕ → ℕ → Event
  through : ℕ → Call Token → Event
  clears_all : Event
  cleans_one : ℕ → ℕ → Event
  cleans_all : (ℕ → ℕ) → Event

unfoldable pub batch_step : BatchTokenCache → Event → BatchTokenCache
batch_step b (creates asset ttl r) = (get_or_create_cache b asset ttl).0
batch_step b (through r o) = record b { heap = modify (λ c. step c o) r b.heap }
batch_step b clears_all = clear_all b
batch_step b (cleans_one r now) = cleanup_one b r now
batch_step b (cleans_all clock) = cleanup_all b clock

unfoldable pub batch_run : BatchTokenCache → List Event → BatchTokenCache
batch_run b [] = b
batch_run b (e ∷ es) = batch_run (batch_step b e) es

-- The pointer of `creates` is the one returned.
abbrev pub ReturnedBy : BatchTokenCache → Event → Type 0
ReturnedBy b (creates asset ttl r) = (get_or_create_cache b asset ttl).1 ≡ r
ReturnedBy b _ = Unit

abbrev pub Returned : BatchTokenCache → List Event → Type 0
Returned b [] = Unit
Returned b (e ∷ es) = ReturnedBy b e × Returned (batch_step b e) es

-- No cleanup is later than `now`.
abbrev pub Early : ℕ → Event → Type 0
Early now (through r o) = CleansBefore now o
Early now (cleans_one r t) = t ≤ now
Early now (cleans_all clock) = (r : ℕ) → clock r ≤ now
Early now _ = Unit

-- The specification: the cache of one asset, if it has one, and its entry of one key, had nothing
-- ever been cleaned up. Only the events count, so no other asset does.
pub record View : Type 0 where
  pub handle : ℕ
  pub ttl : ℕ
  pub entry : Option (CacheEntry Token)

abbrev pub opened : ℕ → ℕ → Option View → Option View
opened ttl r none = some (record { handle = r; ttl = ttl; entry = none })
opened ttl r (some w) = some w

abbrev pub entered : String → View → ℕ → Call Token → View
entered k w r o = if w.handle == r then record w { entry = written w.ttl k w.entry o } else w

abbrev pub viewed : String → String → Option View → Event → Option View
viewed a k v (creates asset ttl r) = if str_eq asset a then opened ttl r v else v
viewed a k none (through r o) = none
viewed a k (some w) (through r o) = some (entered k w r o)
viewed a k v clears_all = none
viewed a k v (cleans_one r t) = v
viewed a k v (cleans_all clock) = v

abbrev pub last_viewed : String → String → Option View → List Event → Option View
last_viewed a k v [] = v
last_viewed a k v (e ∷ es) = last_viewed a k (viewed a k v e) es

abbrev pub answer : ℕ → Option View → Option Token
answer now none = none
answer now (some w) = live now w.entry

-- Get through the pointer that GetCache gives.
abbrev pub get_at : Option TokenCache → ℕ → String → Option Token
get_at none now k = none
get_at (some c) now k = get c now k

abbrev pub get_through : List TokenCache → Option ℕ → ℕ → String → Option Token
get_through heap none now k = none
get_through heap (some r) now k = get_at (get_elem? heap r) now k

unfoldable pub get_token : BatchTokenCache → ℕ → String → String → Option Token
get_token b now a k = get_through b.heap (get_cache b a) now k
