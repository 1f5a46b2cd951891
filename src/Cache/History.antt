-- ===== src/Cache/History.antt =====
-- The cache against the history of its calls.
use chain_parse_service.Base.{
  ℕ, ◌+◌, ◌≤◌, String, ◌≡◌, refl, ◌∙◌, ap, Option, none, some, List, [], ◌∷◌, if◌then◌else◌, str_eq,
  str_eq_iff, arith, All,
}
use chain_parse_service.Base.Dict.{
  Dict, lookup, NodupKeys, lookup-insert, lookup-erase, insert-NodupKeys, erase-NodupKeys,
}
use chain_parse_service.Cache.{
  CacheEntry, CacheManager, new_cache, set, get, live, delete, clear, cleanup, unexpired,
}

-- A call that writes; `sets` and `cleans` carry the clock.
pub data Call {ℓ} (V : Type ℓ) : Type ℓ where
  sets : ℕ → String → V → Call V
  deletes : String → Call V
  clears : Call V
  cleans : ℕ → Call V

module _ {ℓ} {V : Type ℓ} where
  unfoldable pub step : CacheManager V → Call V → CacheManager V
  step c (sets now k v) = set c now k v
  step c (deletes k) = delete c k
  step c clears = clear c
  step c (cleans now) = cleanup c now

  unfoldable pub run : CacheManager V → List (Call V) → CacheManager V
  run c [] = c
  run c (o ∷ os) = run (step c o) os

  -- What a call does to the entry of `k`, if nothing ever cleaned up: the specification.
  abbrev pub written : ℕ → String → Option (CacheEntry V) → Call V → Option (CacheEntry V)
  written ttl k e (sets now j v) =
      if str_eq j k then some (record { value = v; expires_at = now + ttl }) else e
  written ttl k e (deletes j) = if str_eq j k then none else e
  written ttl k e clears = none
  written ttl k e (cleans now) = e

  abbrev pub last_written :
      ℕ → String → Option (CacheEntry V) → List (Call V) → Option (CacheEntry V)
  last_written ttl k e [] = e
  last_written ttl k e (o ∷ os) = last_written ttl k (written ttl k e o) os

  -- No cleanup of the history is later than `now`.
  abbrev pub CleansBefore : ℕ → Call V → Type 0
  CleansBefore now (cleans t) = t ≤ now
  CleansBefore now _ = Unit

  lookup-unexpired_absent :
      (t : ℕ) (k : String) (d : Dict (CacheEntry V))
      → lookup k d ≡ none
      → lookup k (unexpired t d) ≡ none
  unfolding lookup unexpired
  lookup-unexpired_absent t k [] h = refl
  lookup-unexpired_absent t k ((j, e) ∷ d) h =
      ground (arith, lookup-unexpired_absent t k d, str_eq_iff j k)

  live-unexpired :
      (t now : ℕ) (k : String) (d : Dict (CacheEntry V))
      → t ≤ now
      → NodupKeys d
      → live now (lookup k (unexpired t d)) ≡ live now (lookup k d)
  unfolding lookup unexpired
  live-unexpired t now k [] h u = refl
  live-unexpired t now k ((j, e) ∷ d) h u =
      ground (arith, live-unexpired t now k d h u.1, lookup-unexpired_absent t k d, str_eq_iff j k)

  unexpired-NodupKeys : (t : ℕ) (d : Dict (CacheEntry V)) → NodupKeys d → NodupKeys (unexpired t d)
  unfolding unexpired
  unexpired-NodupKeys t [] u = tt
  unexpired-NodupKeys t ((j, e) ∷ d) u =
      ground (arith, unexpired-NodupKeys t d u.1, lookup-unexpired_absent t j d u.0)

  pub step-NodupKeys :
      (c : CacheManager V) (o : Call V) → NodupKeys c.entries → NodupKeys (step c o).entries
  unfolding step set delete clear cleanup
  step-NodupKeys c (sets now k v) u = insert-NodupKeys k _ c.entries u
  step-NodupKeys c (deletes k) u = erase-NodupKeys k c.entries u
  step-NodupKeys c clears u = tt
  step-NodupKeys c (cleans now) u = unexpired-NodupKeys now c.entries u

  pub step-ttl : (c : CacheManager V) (o : Call V) → (step c o).ttl ≡ c.ttl
  unfolding step set delete clear cleanup
  step-ttl c (sets now k v) = refl
  step-ttl c (deletes k) = refl
  step-ttl c clears = refl
  step-ttl c (cleans now) = refl

  -- `e` is what the history says of `k`, and the cache shows the same at every time from `now` on.
  abbrev pub Shows : ℕ → String → CacheManager V → Option (CacheEntry V) → Type ℓ
  Shows now k c e = live now (lookup k c.entries) ≡ live now e

  pub step-Shows :
      (now : ℕ) (k : String) (c : CacheManager V) (e : Option (CacheEntry V)) (o : Call V)
      → NodupKeys c.entries
      → CleansBefore now o
      → Shows now k c e
      → Shows now k (step c o) (written c.ttl k e o)
  unfolding step set delete clear cleanup lookup
  step-Shows now k c e (sets t j v) u b h =
      ground (arith, lookup-insert j k (record { value = v; expires_at = t + c.ttl }) c.entries)
  step-Shows now k c e (deletes j) u b h = ground (arith, lookup-erase j k c.entries)
  step-Shows now k c e clears u b h = refl
  step-Shows now k c e (cleans t) u b h = live-unexpired t now k c.entries b u ∙ h

  run-Shows :
      (now : ℕ) (k : String) (c : CacheManager V) (e : Option (CacheEntry V)) (os : List (Call V))
      → NodupKeys c.entries
      → All (CleansBefore now) os
      → Shows now k c e
      → Shows now k (run c os) (last_written c.ttl k e os)
  unfolding run
  run-Shows now k c e [] u b h = h
  run-Shows now k c e (o ∷ os) u b h =
      let c' = step c o in
      run-Shows now k c' (written c.ttl k e o) os (step-NodupKeys c o u) b.1
        (step-Shows now k c e o u b.0 h)
      ∙ ap (λ t. live now (last_written t k (written c.ttl k e o) os)) (step-ttl c o)

  -- Get answers from the last write alone: after any history on a new cache, it returns the value
  -- that was set last for the key, unless the key was deleted or the cache cleared since, or its
  -- time to live is over; when the cleanups ran does not show.
  get_by_history :
      (ttl now : ℕ) (k : String) (os : List (Call V))
      → All (CleansBefore now) os
      → get (run (new_cache ttl) os) now k ≡ live now (last_written ttl k none os)
  unfolding get new_cache lookup
  get_by_history ttl now k os b = run-Shows now k (new_cache ttl) none os tt b refl
