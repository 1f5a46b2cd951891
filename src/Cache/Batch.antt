-- ===== src/Cache/Batch.antt =====
-- internal/parser/dexs/cache.go: TokenCache, PoolObjectCache and BatchTokenCache. The batch keeps
-- pointers to caches, which its callers keep as well: the caches stand in a heap, whose last cell
-- is the newest, and a pointer is the number of a cell.
pub mod Views
pub mod Cells
pub mod Creates
pub mod Read
use chain_parse_service.Base.{
  ℕ, zero, suc, String, ◌≡◌, refl, Bool, true, false, Option, none, some, List, [], ◌∷◌, ◌++◌, ◌+◌,
  ◌<◌, length, arith, if◌then◌else◌, ◌==◌, ap, All,
}
use chain_parse_service.Base.Dict.{Dict, lookup, insert, sum_values, opt_by}
use chain_parse_service.Model.{Token}
use chain_parse_service.Cache.{CacheManager, new_cache, clear, cleanup, size}

abbrev pub TokenCache : Type 0
TokenCache = CacheManager Token

unfoldable pub new_token_cache : ℕ → TokenCache
new_token_cache ttl = new_cache ttl

-- The answer of the node to a request for an object is the parameter `O`.
abbrev pub PoolObjectCache : Type 0 → Type 0
PoolObjectCache O = CacheManager O

unfoldable pub new_pool_object_cache : {O : Type 0} → ℕ → PoolObjectCache O
new_pool_object_cache ttl = new_cache ttl

module _ {ℓ} {A : Type ℓ} where
  abbrev pub get_elem? : List A → ℕ → Option A
  get_elem? [] i = none
  get_elem? (x ∷ xs) zero = some x
  get_elem? (x ∷ xs) (suc i) = get_elem? xs i

  -- A call of a method that writes, on the object in cell `i`.
  abbrev pub modify : (A → A) → ℕ → List A → List A
  modify f i [] = []
  modify f zero (x ∷ xs) = f x ∷ xs
  modify f (suc i) (x ∷ xs) = x ∷ modify f i xs

pub record BatchTokenCache : Type 0 where
  pub heap : List TokenCache
  pub caches : Dict ℕ

unfoldable pub new_batch_token_cache : BatchTokenCache
new_batch_token_cache = record { heap = []; caches = [] }

-- The cache of an asset that has none yet.
abbrev pub create_cache : BatchTokenCache → String → ℕ → BatchTokenCache × ℕ
create_cache b asset_addr ttl =
    let r = length b.heap in
    (
      record b {
        heap = b.heap ++ (new_token_cache ttl ∷ []);
        caches = insert asset_addr r b.caches;
      },
      r,
    )

unfoldable pub get_or_create_cache : BatchTokenCache → String → ℕ → BatchTokenCache × ℕ
get_or_create_cache b asset_addr ttl = elim (lookup asset_addr b.caches) [
  | none ↦ create_cache b asset_addr ttl
  | some r ↦ (b, r)
]

unfoldable pub get_cache : BatchTokenCache → String → Option ℕ
get_cache b asset_addr = lookup asset_addr b.caches

-- The loop of ClearAll, in the order of the list.
unfoldable pub clear_each : Dict ℕ → List TokenCache → List TokenCache
clear_each [] heap = heap
clear_each ((_, r) ∷ d) heap = clear_each d (modify clear r heap)

unfoldable pub clear_all : BatchTokenCache → BatchTokenCache
clear_all b = record b { heap = clear_each b.caches b.heap; caches = [] }

-- One turn of the second loop of CleanupAll: the cleanup of one cache, at its own time.
unfoldable pub cleanup_one : BatchTokenCache → ℕ → ℕ → BatchTokenCache
cleanup_one b r now = record b { heap = modify (λ c. cleanup c now) r b.heap }

-- That loop on the pointers that the first one copied; `clock r` is the time of the turn for `r`.
unfoldable pub cleanup_each : Dict ℕ → (ℕ → ℕ) → BatchTokenCache → BatchTokenCache
cleanup_each [] clock b = b
cleanup_each ((_, r) ∷ d) clock b = cleanup_each d clock (cleanup_one b r (clock r))

unfoldable pub cleanup_all : BatchTokenCache → (ℕ → ℕ) → BatchTokenCache
cleanup_all b clock = cleanup_each b.caches clock b

unfoldable pub batch_size : BatchTokenCache → ℕ
batch_size b = sum_values (λ r. opt_by size (get_elem? b.heap r)) b.caches
