-- ===== src/Cache.antt =====
-- internal/parser/dexs/cache.go: the generic TTL cache of the extractors. The clock is an argument
-- of each call; the mutex makes every call atomic, so a history is a list of calls. The hook
-- `onExpire` is never set in the repository and is left out.
pub mod History
pub mod Batch
mod Tests
use chain_parse_service.Base.{
  ℕ, ◌+◌, String, ◌≡◌, Bool, true, false, Option, none, some, List, [], ◌∷◌, ltb, if◌then◌else◌,
  length,
}
use chain_parse_service.Base.Dict.{Dict, lookup, insert, erase}

pub record CacheEntry {ℓ} (V : Type ℓ) : Type ℓ where
  pub value : V
  pub expires_at : ℕ

pub record CacheManager {ℓ} (V : Type ℓ) : Type ℓ where
  pub entries : Dict (CacheEntry V)
  pub ttl : ℕ

module _ {ℓ} {V : Type ℓ} where
  unfoldable pub new_cache : ℕ → CacheManager V
  new_cache ttl = record { entries = []; ttl = ttl }

  unfoldable pub set : CacheManager V → ℕ → String → V → CacheManager V
  set c now key v = record c {
    entries = insert key (record { value = v; expires_at = now + c.ttl }) c.entries;
  }

  -- An entry counts until the clock is past its expiry.
  abbrev pub live : ℕ → Option (CacheEntry V) → Option V
  live now none = none
  live now (some e) = if ltb e.expires_at now then none else some e.value

  unfoldable pub get : CacheManager V → ℕ → String → Option V
  get c now key = live now (lookup key c.entries)

  unfoldable pub get_or_default : CacheManager V → ℕ → String → V → V
  get_or_default c now key d = elim (get c now key) [ none ↦ d | some v ↦ v ]

  unfoldable pub exists : CacheManager V → ℕ → String → Bool
  exists c now key = elim (get c now key) [ none ↦ false | some _ ↦ true ]

  unfoldable pub delete : CacheManager V → String → CacheManager V
  delete c key = record c { entries = erase key c.entries }

  unfoldable pub clear : CacheManager V → CacheManager V
  clear c = record c { entries = [] }

  unfoldable pub unexpired : ℕ → Dict (CacheEntry V) → Dict (CacheEntry V)
  unexpired now [] = []
  unexpired now ((k, e) ∷ d) =
      let rest = unexpired now d in if ltb e.expires_at now then rest else (k, e) ∷ rest

  unfoldable pub cleanup : CacheManager V → ℕ → CacheManager V
  cleanup c now = record c { entries = unexpired now c.entries }

  unfoldable pub size : CacheManager V → ℕ
  size c = length c.entries
