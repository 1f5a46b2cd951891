-- ===== src/Sui/Staleness.antt =====
-- internal/parser/dexs/suidex/bluefin.go: how old the pool objects are that getPoolObject serves.
use mathlib.Core.Path.{subst}
use chain_parse_service.Base.{
  ℕ, ◌+◌, ◌<◌, String, ◌≡◌, refl, sym, ◌⊎◌, inl, inr, Option, none, some, List, [], ◌∷◌, arith, ltb,
  ltb→lt, str_eq, str_eq_iff, if_elim,
}
use chain_parse_service.Base.Dict.{Dict, lookup, lookup-insert}
use chain_parse_service.Sui.Rows.{
  SuiObject, Env, BluefinExtractor, PoolCacheItem, pool_cache_ttl, new_bluefin_extractor,
}
use chain_parse_service.Sui.BluefinPool.{cache_object, of_pool_item, get_pool_object}

-- A call of getPoolObject with the clock and the node at its time.
pub record Request (F : Type 0) : Type 0 where
  pub env : Env F
  pub pool_id : String

module _ {F : Type 0} where
  -- The extractor after requests, the newest first.
  unfoldable pub after : List (Request F) → BluefinExtractor F
  after [] = new_bluefin_extractor
  after (r ∷ past) = (get_pool_object (after past) r.env r.pool_id).0

  -- One of the requests asked for the pool less than the lifetime of an entry before `now`, when
  -- the node had this object for it.
  abbrev pub ServedBy : List (Request F) → ℕ → String → SuiObject F → Type 0
  ServedBy [] now pool_id object = ⊥
  ServedBy (r ∷ past) now pool_id object =
      ((r.pool_id ≡ pool_id)
        × (r.env.get_object pool_id ≡ some object)
        × (now < r.env.now + pool_cache_ttl))
      ⊎ ServedBy past now pool_id object

  abbrev Origin : List (Request F) → String → PoolCacheItem F → Type 0
  Origin [] k item = ⊥
  Origin (r ∷ past) k item =
      ((r.pool_id ≡ k)
        × (r.env.get_object k ≡ some item.object)
        × (item.expires_at ≡ r.env.now + pool_cache_ttl))
      ⊎ Origin past k item

  abbrev OfOption : List (Request F) → String → Option (PoolCacheItem F) → Type 0
  OfOption past k none = Unit {0}
  OfOption past k (some item) = Origin past k item

  abbrev AllServed : List (Request F) → Dict (PoolCacheItem F) → Type 0
  AllServed past cache = (k : String) → OfOption past k (lookup k cache)

  OfOption-weaken :
      (r : Request F) (past : List (Request F)) (k : String) (o : Option (PoolCacheItem F))
      → OfOption past k o
      → OfOption (r ∷ past) k o
  OfOption-weaken r past k none h = tt
  OfOption-weaken r past k (some item) h = inr h

  cache_object-AllServed :
      (r : Request F) (past : List (Request F)) (b : BluefinExtractor F) (o : Option (SuiObject F))
      → r.env.get_object r.pool_id ≡ o
      → AllServed past b.pool_cache
      → AllServed (r ∷ past) (cache_object b r.env r.pool_id o).0.pool_cache
  cache_object-AllServed r past b none e h k =
      OfOption-weaken r past k (lookup k b.pool_cache) (h k)
  cache_object-AllServed r past b (some object) e h k =
      let item : PoolCacheItem F = record {
        object = object;
        expires_at = r.env.now + pool_cache_ttl;
      } in
      subst (OfOption (r ∷ past) k) (sym (lookup-insert r.pool_id k item b.pool_cache)) (
        if_elim (OfOption (r ∷ past) k) (str_eq r.pool_id k) (some item) (lookup k b.pool_cache)
          (λ s.
            let same = (str_eq_iff r.pool_id k).0 s in
            inl (same, subst (λ z. r.env.get_object z ≡ some object) same e, refl))
          (λ _. OfOption-weaken r past k (lookup k b.pool_cache) (h k)))

  of_pool_item-AllServed :
      (r : Request F) (past : List (Request F)) (b : BluefinExtractor F)
      (item : Option (PoolCacheItem F))
      → AllServed past b.pool_cache
      → AllServed (r ∷ past) (of_pool_item b r.env r.pool_id item).0.pool_cache
  of_pool_item-AllServed r past b none h =
      cache_object-AllServed r past b (r.env.get_object r.pool_id) refl h
  of_pool_item-AllServed r past b (some item) h =
      if_elim (λ z. AllServed (r ∷ past) z.0.pool_cache) (ltb r.env.now item.expires_at)
        (b, some item.object) (cache_object b r.env r.pool_id (r.env.get_object r.pool_id))
        (λ _. λ k. OfOption-weaken r past k (lookup k b.pool_cache) (h k))
        (λ _. cache_object-AllServed r past b (r.env.get_object r.pool_id) refl h)

  after-AllServed : (past : List (Request F)) → AllServed past (after past).pool_cache
  unfolding after lookup get_pool_object
  after-AllServed [] k = tt
  after-AllServed (r ∷ past) k =
      of_pool_item-AllServed r past (after past) (lookup r.pool_id (after past).pool_cache)
        (after-AllServed past) k

  Origin-ServedBy :
      (past : List (Request F)) (now : ℕ) (k : String) (item : PoolCacheItem F)
      → now < item.expires_at
      → Origin past k item
      → ServedBy past now k item.object
  Origin-ServedBy [] now k item h o = absurd o
  Origin-ServedBy (r ∷ past) now k item h (inl (same, given, e)) =
      inl (same, given, subst (λ z. now < z) e h)
  Origin-ServedBy (r ∷ past) now k item h (inr o) = inr (Origin-ServedBy past now k item h o)

  abbrev Serves : List (Request F) → ℕ → String → Option (SuiObject F) → Type 0
  Serves past now k none = Unit {0}
  Serves past now k (some object) = ServedBy past now k object

  cache_object-Serves :
      (r : Request F) (past : List (Request F)) (b : BluefinExtractor F) (o : Option (SuiObject F))
      → r.env.get_object r.pool_id ≡ o
      → Serves (r ∷ past) r.env.now r.pool_id (cache_object b r.env r.pool_id o).1
  cache_object-Serves r past b none e = tt
  cache_object-Serves r past b (some object) e = inl (refl, e, omega arith)

  of_pool_item-Serves :
      (r : Request F) (past : List (Request F)) (b : BluefinExtractor F)
      (item : Option (PoolCacheItem F))
      → OfOption past r.pool_id item
      → Serves (r ∷ past) r.env.now r.pool_id (of_pool_item b r.env r.pool_id item).1
  of_pool_item-Serves r past b none o =
      cache_object-Serves r past b (r.env.get_object r.pool_id) refl
  of_pool_item-Serves r past b (some item) o =
      if_elim (λ z. Serves (r ∷ past) r.env.now r.pool_id z.1) (ltb r.env.now item.expires_at)
        (b, some item.object) (cache_object b r.env r.pool_id (r.env.get_object r.pool_id))
        (λ fresh. inr (Origin-ServedBy past r.env.now r.pool_id item (ltb→lt _ _ fresh) o))
        (λ _. cache_object-Serves r past b (r.env.get_object r.pool_id) refl)

  -- Whatever getPoolObject of Bluefin was asked before on a new extractor, an object that it
  -- serves is one that the node had for this pool, at this request or at one less than sixty
  -- seconds older.
  pub get_pool_object-ServedBy :
      (past : List (Request F)) (r : Request F) (object : SuiObject F)
      → (get_pool_object (after past) r.env r.pool_id).1 ≡ some object
      → ServedBy (r ∷ past) r.env.now r.pool_id object
  unfolding get_pool_object
  get_pool_object-ServedBy past r object e = subst (Serves (r ∷ past) r.env.now r.pool_id) e (
      of_pool_item-Serves r past (after past) (lookup r.pool_id (after past).pool_cache)
        (after-AllServed past r.pool_id))
