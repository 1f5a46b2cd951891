-- ===== src/Sui/CetusKeeps.antt =====
-- What the switch of Cetus finds in one event, with a valid cache of tokens.
use mathlib.Core.Path.{subst}
use chain_parse_service.Base.{
  String, ◌≡◌, refl, sym, ap, ◌∙◌, ◌≢◌, ◌||◌, Option, none, some, [], ◌∷◌, arith, str_eq,
  ne_of_str_eq, if_elim,
}
use chain_parse_service.Base.Dict.{Dict}
use chain_parse_service.Base.Int.{ℤ}
use chain_parse_service.Common.{Field, Numbers, get_string_field}
use chain_parse_service.Model.{Pool, token_at}
use chain_parse_service.Sui.Rows.{
  Token, PoolEventData, SuiObject, Env, CetusExtractor, TokenCacheItem,
}
use chain_parse_service.Sui.Values.{SuiFloats}
use chain_parse_service.Sui.Events.{Event, SuiTransaction, parsed_json_of}
use chain_parse_service.Sui.Metadata.{get_tokens_metadata_with_cache}
use chain_parse_service.Sui.CetusTypes.{
  EventKind, swap, add_liquidity, remove_liquidity, pool_created, collect_fee, collect_reward,
  unknown, cetus_pool_coin,
}
use chain_parse_service.Sui.CetusPool.{with_metadata, of_object, cetus_pool_event_data}
use chain_parse_service.Sui.Cetus.{
  swap_of, swap_of_fields, cetus_swap_event, liquidity_of, liquidity_of_fields,
  cetus_liquidity_event, cetus_pool_event,
}
use chain_parse_service.Sui.Marks.{CacheValid, KeepsBoth, PoolValid, get_tokens_metadata-CacheValid}
use chain_parse_service.Sui.Loop.{
  Found, on_cetus_event, swap_or_nothing, liquidity_or_nothing, pool_or_nothing,
}
use chain_parse_service.Sui.Collected.{FoundValid}

-- The extractor has these quote assets and a valid cache.
abbrev pub CetusValid : Dict ℤ → CetusExtractor → Type 0
CetusValid q c = (c.quote_assets ≡ q) × CacheValid q c.token_cache

abbrev PoolOrNone : Dict ℤ → Option PoolEventData → Type 0
PoolOrNone q none = Unit {0}
PoolOrNone q (some p) = PoolValid q p

module _ {F : Type 0} (fl : SuiFloats F) (lib : Numbers F) (c : CetusExtractor) (env : Env F) where
  abbrev q : Dict ℤ
  q = c.quote_assets

  abbrev KeepsPool : CetusExtractor × Option PoolEventData → Type 0
  KeepsPool r = CetusValid q r.0 × PoolOrNone q r.1

  with_metadata-KeepsPool :
      (pool_id k0 k1 : String) (object : SuiObject F) (tx : SuiTransaction F)
      (r : Dict TokenCacheItem × Option (Token × Token))
      → k0 ≢ ""
      → k1 ≢ ""
      → KeepsBoth q env k0 k1 r
      → KeepsPool (with_metadata lib c pool_id object (k0, k1) tx r)
  with_metadata-KeepsPool pool_id k0 k1 object tx (cache, none) n0 n1 v = ((refl, v.0), tt)
  with_metadata-KeepsPool pool_id k0 k1 object tx (cache, some (m0, m1)) n0 n1 v =
      let ((e0, mark0), (e1, mark1)) = v.1 in
      (
        (refl, v.0),
        (
          m0,
          m1,
          refl,
          (λ i. (0, sym e0 i) ∷ (1, sym e1 i) ∷ []),
          refl,
          (λ z. n0 (sym e0 ∙ z)),
          (λ z. n1 (sym e1 ∙ z)),
          mark0,
          mark1,
        ),
      )

  of_object-KeepsPool :
      (pool_id : String) (tx : SuiTransaction F) (object : Option (SuiObject F))
      → CacheValid q c.token_cache
      → KeepsPool (of_object lib c env pool_id tx object)
  of_object-KeepsPool pool_id tx none valid = ((refl, valid), tt)
  of_object-KeepsPool pool_id tx (some object) valid =
      let (k0, k1) = cetus_pool_coin object.object_type in
      if_elim KeepsPool (str_eq k0 "" || str_eq k1 "") (c, none)
        (with_metadata lib c pool_id object (k0, k1) tx
          (get_tokens_metadata_with_cache q env k0 k1 c.token_cache))
        (λ _. ((refl, valid), tt))
        (λ h.
          with_metadata-KeepsPool pool_id k0 k1 object tx
            (get_tokens_metadata_with_cache q env k0 k1 c.token_cache)
            (ne_of_str_eq k0 "" (ground arith)) (ne_of_str_eq k1 "" (ground arith))
            (get_tokens_metadata-CacheValid q env k0 k1 c.token_cache valid))

  cetus_pool_event_data-KeepsPool :
      (pool_id : String) (tx : SuiTransaction F)
      → CacheValid q c.token_cache
      → KeepsPool (cetus_pool_event_data lib c env pool_id tx)
  unfolding cetus_pool_event_data
  cetus_pool_event_data-KeepsPool pool_id tx valid =
      if_elim KeepsPool (str_eq pool_id "") (c, none)
        (of_object lib c env pool_id tx (env.get_object pool_id)) (λ _. ((refl, valid), tt))
        (λ _. of_object-KeepsPool pool_id tx (env.get_object pool_id) valid)

  abbrev Keeps : CetusExtractor × Found F → Type 0
  Keeps r = CetusValid q r.0 × FoundValid q r.1

  named :
      (p : PoolEventData)
      → PoolValid q p
      → (token_at 0 p.pool.tokens ≢ "") × (token_at 1 p.pool.tokens ≢ "")
  unfolding token_at
  named p (t0, t1, _, e, _, n0, n1, _, _) =
      ((λ z. n0 (sym (ap (token_at 0) e) ∙ z)), (λ z. n1 (sym (ap (token_at 1) e) ∙ z)))

  swap_of-Keeps :
      (event : Event F) (fields : Dict (Field F)) (tx : SuiTransaction F)
      (r : CetusExtractor × Option PoolEventData)
      → KeepsPool r
      → Keeps (swap_or_nothing (swap_of fl lib event fields tx r))
  swap_of-Keeps event fields tx (c', none) v = (v.0, tt)
  swap_of-Keeps event fields tx (c', some p) v =
      let (t0, t1, e, _, _, _, _, mark0, mark1) = v.1 in
      let (n0, n1) = named p v.1 in
      (
        v.0,
        (
          (t0, t1, e, mark0, mark1),
          (
            _,
            _,
            refl,
            record {
              sold = refl;
              bought = refl;
              same_pool = refl;
              same_hash = refl;
              same_index = refl;
              same_value = refl;
              sold_named = if_elim (λ a. a ≢ "") _ _ _ (λ _. n0) (λ _. n1);
              bought_named = if_elim (λ a. a ≢ "") _ _ _ (λ _. n1) (λ _. n0);
            },
          ),
        ),
      )

  swap_of_fields-Keeps :
      (event : Event F) (tx : SuiTransaction F) (o : Option (Dict (Field F)))
      → CacheValid q c.token_cache
      → Keeps (swap_or_nothing (swap_of_fields fl lib c env event tx o))
  swap_of_fields-Keeps event tx none valid = ((refl, valid), tt)
  swap_of_fields-Keeps event tx (some fields) valid =
      let pool_id = get_string_field fields "pool" in
      swap_of-Keeps event fields tx (cetus_pool_event_data lib c env pool_id tx)
        (cetus_pool_event_data-KeepsPool pool_id tx valid)

  cetus_swap_event-Keeps :
      (event : Event F) (tx : SuiTransaction F)
      → CacheValid q c.token_cache
      → Keeps (swap_or_nothing (cetus_swap_event fl lib c env event tx))
  unfolding cetus_swap_event
  cetus_swap_event-Keeps event tx valid = swap_of_fields-Keeps event tx (parsed_json_of event) valid

  liquidity_of-Keeps :
      (event : Event F) (fields : Dict (Field F)) (tx : SuiTransaction F) (side : String)
      (r : CetusExtractor × Option PoolEventData)
      → KeepsPool r
      → Keeps (liquidity_or_nothing (liquidity_of fl lib event fields tx side r))
  liquidity_of-Keeps event fields tx side (c', none) v = (v.0, tt)
  liquidity_of-Keeps event fields tx side (c', some p) v =
      let (t0, t1, e, _, _, _, _, mark0, mark1) = v.1 in
      let (n0, n1) = named p v.1 in
      (
        v.0,
        (
          (t0, t1, e, mark0, mark1),
          (
            _,
            _,
            refl,
            record {
              same_side = refl;
              same_pool = refl;
              same_hash = refl;
              first_named = n0;
              second_named = n1;
            },
          ),
        ),
      )

  liquidity_of_fields-Keeps :
      (event : Event F) (tx : SuiTransaction F) (side : String) (o : Option (Dict (Field F)))
      → CacheValid q c.token_cache
      → Keeps (liquidity_or_nothing (liquidity_of_fields fl lib c env event tx side o))
  liquidity_of_fields-Keeps event tx side none valid = ((refl, valid), tt)
  liquidity_of_fields-Keeps event tx side (some fields) valid =
      let pool_addr = get_string_field fields "pool" in
      if_elim (λ r. Keeps (liquidity_or_nothing r)) (str_eq pool_addr "") (c, none)
        (liquidity_of fl lib event fields tx side (cetus_pool_event_data lib c env pool_addr tx))
        (λ _. ((refl, valid), tt))
        (λ _.
          liquidity_of-Keeps event fields tx side (cetus_pool_event_data lib c env pool_addr tx)
            (cetus_pool_event_data-KeepsPool pool_addr tx valid))

  cetus_liquidity_event-Keeps :
      (event : Event F) (tx : SuiTransaction F) (side : String)
      → CacheValid q c.token_cache
      → Keeps (liquidity_or_nothing (cetus_liquidity_event fl lib c env event tx side))
  unfolding cetus_liquidity_event
  cetus_liquidity_event-Keeps event tx side valid =
      liquidity_of_fields-Keeps event tx side (parsed_json_of event) valid

  pool_or_nothing-Keeps :
      (o : Option Pool) → CacheValid q c.token_cache → Keeps (pool_or_nothing (c, o))
  pool_or_nothing-Keeps none valid = ((refl, valid), tt)
  pool_or_nothing-Keeps (some p) valid = ((refl, valid), tt)

  on_cetus_event-Keeps :
      (event : Event F) (tx : SuiTransaction F) (kind : EventKind)
      → CacheValid q c.token_cache
      → Keeps (on_cetus_event fl lib c env event tx kind)
  unfolding on_cetus_event
  on_cetus_event-Keeps event tx swap valid = cetus_swap_event-Keeps event tx valid
  on_cetus_event-Keeps event tx add_liquidity valid =
      cetus_liquidity_event-Keeps event tx "add" valid
  on_cetus_event-Keeps event tx remove_liquidity valid =
      cetus_liquidity_event-Keeps event tx "remove" valid
  on_cetus_event-Keeps event tx pool_created valid =
      pool_or_nothing-Keeps (cetus_pool_event fl lib env event) valid
  on_cetus_event-Keeps event tx collect_fee valid = ((refl, valid), tt)
  on_cetus_event-Keeps event tx collect_reward valid = ((refl, valid), tt)
  on_cetus_event-Keeps event tx unknown valid = ((refl, valid), tt)

pub on_cetus_event-CetusValid :
    {F : Type 0} (fl : SuiFloats F) (lib : Numbers F) (q : Dict ℤ) (c : CetusExtractor)
    (env : Env F) (event : Event F) (tx : SuiTransaction F) (kind : EventKind)
    → CetusValid q c
    → CetusValid q (on_cetus_event fl lib c env event tx kind).0
      × FoundValid q (on_cetus_event fl lib c env event tx kind).1
on_cetus_event-CetusValid fl lib q c env event tx kind (e, valid) =
    subst
      (λ z.
        CacheValid z c.token_cache
        → CetusValid z (on_cetus_event fl lib c env event tx kind).0
          × FoundValid z (on_cetus_event fl lib c env event tx kind).1)
      e (on_cetus_event-Keeps fl lib c env event tx kind) valid
