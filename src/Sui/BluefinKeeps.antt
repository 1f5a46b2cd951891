-- ===== src/Sui/BluefinKeeps.antt =====
-- What the switch of Bluefin finds in one event, with a valid cache of tokens.
use mathlib.Core.Path.{subst}
use chain_parse_service.Base.{String, refl, sym, ap, ◌∙◌, ◌≢◌, Option, none, some, str_eq, if_elim}
use chain_parse_service.Base.Dict.{Dict}
use chain_parse_service.Base.Int.{ℤ}
use chain_parse_service.Common.{Field, Numbers, get_string_field}
use chain_parse_service.Model.{token_at}
use chain_parse_service.Sui.Rows.{PoolEventData, SuiObject, Env, BluefinExtractor}
use chain_parse_service.Sui.Values.{SuiFloats}
use chain_parse_service.Sui.Events.{Event, SuiTransaction, parsed_json_of}
use chain_parse_service.Sui.CetusTypes.{
  EventKind, swap, add_liquidity, remove_liquidity, pool_created, collect_fee, collect_reward,
  unknown,
}
use chain_parse_service.Sui.BluefinPool.{FeeOf, of_object, bluefin_pool_event_data, get_pool_object}
use chain_parse_service.Sui.Bluefin.{
  pool_of_object, pool_of_fields, swap_of, swap_of_fields, bluefin_swap_event, liquidity_of,
  liquidity_of_fields, bluefin_liquidity_event, bluefin_pool_event,
}
use chain_parse_service.Sui.Marks.{CacheValid, PoolValid}
use chain_parse_service.Sui.Loop.{
  Found, on_bluefin_event, swap_or_nothing, liquidity_or_nothing, pool_or_nothing,
}
use chain_parse_service.Sui.Collected.{FoundValid}
use chain_parse_service.Sui.BluefinPoolKeeps.{
  BluefinValid, PoolOrNone, SameTokens, of_object-KeepsPool, get_pool_object-SameTokens,
}

-- A lookup of an object and then the rest, with the same quote assets and tokens.
module _ {F : Type 0} (fl : SuiFloats F) (lib : Numbers F) (fee : FeeOf F) (b : BluefinExtractor F)
    (env : Env F) where
  abbrev Pooled : BluefinExtractor F × Option PoolEventData → Type 0
  Pooled r = BluefinValid b.quote_assets r.0 × PoolOrNone b.quote_assets r.1

  found_object-Pooled :
      (pool_id : String) (tx : SuiTransaction F) (r : BluefinExtractor F × Option (SuiObject F))
      → SameTokens fl lib fee b env r
      → CacheValid b.quote_assets b.token_cache
      → Pooled (of_object lib fee env pool_id tx r)
  found_object-Pooled pool_id tx r (same, tokens) valid =
      let valid' : CacheValid r.0.quote_assets r.0.token_cache =
        subst (λ z. CacheValid z r.0.token_cache) (sym same)
          (subst (CacheValid b.quote_assets) (sym tokens) valid) in
      let out = of_object lib fee env pool_id tx r in
      subst (λ z. BluefinValid z out.0 × PoolOrNone z out.1) same
        (of_object-KeepsPool fl lib fee r.0 env pool_id tx r.1 valid')

  bluefin_pool_event_data-Pooled :
      (pool_id : String) (tx : SuiTransaction F)
      → CacheValid b.quote_assets b.token_cache
      → Pooled (bluefin_pool_event_data lib fee b env pool_id tx)
  unfolding bluefin_pool_event_data
  bluefin_pool_event_data-Pooled pool_id tx valid =
      if_elim Pooled (str_eq pool_id "") (b, none)
        (of_object lib fee env pool_id tx (get_pool_object b env pool_id))
        (λ _. ((refl, valid), tt))
        (λ _.
          found_object-Pooled pool_id tx (get_pool_object b env pool_id)
            (get_pool_object-SameTokens fl lib fee b env pool_id) valid)

  abbrev assets : Dict ℤ
  assets = b.quote_assets

  abbrev Keeps : BluefinExtractor F × Found F → Type 0
  Keeps r = BluefinValid assets r.0 × FoundValid assets r.1

  named :
      (p : PoolEventData)
      → PoolValid assets p
      → (token_at 0 p.pool.tokens ≢ "") × (token_at 1 p.pool.tokens ≢ "")
  unfolding token_at
  named p (t0, t1, _, e, _, n0, n1, _, _) =
      ((λ z. n0 (sym (ap (token_at 0) e) ∙ z)), (λ z. n1 (sym (ap (token_at 1) e) ∙ z)))

  swap_of-Keeps :
      (event : Event F) (fields : Dict (Field F)) (tx : SuiTransaction F)
      (r : BluefinExtractor F × Option PoolEventData)
      → Pooled r
      → Keeps (swap_or_nothing (swap_of fl lib fee event fields tx r))
  swap_of-Keeps event fields tx (b', none) v = (v.0, tt)
  swap_of-Keeps event fields tx (b', some p) v =
      let (t0, t1, e, _, _, _, _, mark0, mark1) = v.1 in
      let (n0, n1) = named p v.1 in
      (
        v.0,
        (
          (t0, t1, e, mark0, mark1),
          (
            _,
            _,
            refl,
            record {
              sold = refl;
              bought = refl;
              same_pool = refl;
              same_hash = refl;
              same_index = refl;
              same_value = refl;
              sold_named = if_elim (λ a. a ≢ "") _ _ _ (λ _. n0) (λ _. n1);
              bought_named = if_elim (λ a. a ≢ "") _ _ _ (λ _. n1) (λ _. n0);
            },
          ),
        ),
      )

  swap_of_fields-Keeps :
      (event : Event F) (tx : SuiTransaction F) (o : Option (Dict (Field F)))
      → CacheValid assets b.token_cache
      → Keeps (swap_or_nothing (swap_of_fields fl lib fee b env event tx o))
  swap_of_fields-Keeps event tx none valid = ((refl, valid), tt)
  swap_of_fields-Keeps event tx (some fields) valid =
      let pool_id = get_string_field fields "pool_id" in
      swap_of-Keeps event fields tx (bluefin_pool_event_data lib fee b env pool_id tx)
        (bluefin_pool_event_data-Pooled pool_id tx valid)

  bluefin_swap_event-Keeps :
      (event : Event F) (tx : SuiTransaction F)
      → CacheValid assets b.token_cache
      → Keeps (swap_or_nothing (bluefin_swap_event fl lib fee b env event tx))
  unfolding bluefin_swap_event
  bluefin_swap_event-Keeps event tx valid =
      swap_of_fields-Keeps event tx (parsed_json_of event) valid

  liquidity_of-Keeps :
      (event : Event F) (fields : Dict (Field F)) (tx : SuiTransaction F) (side : String)
      (r : BluefinExtractor F × Option PoolEventData)
      → Pooled r
      → Keeps (liquidity_or_nothing (liquidity_of fl lib fee event fields tx side r))
  liquidity_of-Keeps event fields tx side (b', none) v = (v.0, tt)
  liquidity_of-Keeps event fields tx side (b', some p) v =
      let (t0, t1, e, _, _, _, _, mark0, mark1) = v.1 in
      let (n0, n1) = named p v.1 in
      (
        v.0,
        (
          (t0, t1, e, mark0, mark1),
          (
            _,
            _,
            refl,
            record {
              same_side = refl;
              same_pool = refl;
              same_hash = refl;
              first_named = n0;
              second_named = n1;
            },
          ),
        ),
      )

  liquidity_of_fields-Keeps :
      (event : Event F) (tx : SuiTransaction F) (side : String) (o : Option (Dict (Field F)))
      → CacheValid assets b.token_cache
      → Keeps (liquidity_or_nothing (liquidity_of_fields fl lib fee b env event tx side o))
  liquidity_of_fields-Keeps event tx side none valid = ((refl, valid), tt)
  liquidity_of_fields-Keeps event tx side (some fields) valid =
      let pool_addr = get_string_field fields "pool_id" in
      if_elim (λ r. Keeps (liquidity_or_nothing r)) (str_eq pool_addr "") (b, none)
        (liquidity_of fl lib fee event fields tx side
          (bluefin_pool_event_data lib fee b env pool_addr tx))
        (λ _. ((refl, valid), tt))
        (λ _.
          liquidity_of-Keeps event fields tx side
            (bluefin_pool_event_data lib fee b env pool_addr tx)
            (bluefin_pool_event_data-Pooled pool_addr tx valid))

  bluefin_liquidity_event-Keeps :
      (event : Event F) (tx : SuiTransaction F) (side : String)
      → CacheValid assets b.token_cache
      → Keeps (liquidity_or_nothing (bluefin_liquidity_event fl lib fee b env event tx side))
  unfolding bluefin_liquidity_event
  bluefin_liquidity_event-Keeps event tx side valid =
      liquidity_of_fields-Keeps event tx side (parsed_json_of event) valid

  pool_of_object-Keeps :
      (pool_addr : String) (r : BluefinExtractor F × Option (SuiObject F))
      → BluefinValid assets r.0
      → Keeps (pool_or_nothing (pool_of_object fl lib fee pool_addr r))
  pool_of_object-Keeps pool_addr (b', none) v = (v, tt)
  pool_of_object-Keeps pool_addr (b', some object) v =
      if_elim (λ r. Keeps (pool_or_nothing r)) _ (b', none) (b', some _) (λ _. (v, tt))
        (λ _. (v, tt))

  pool_of_fields-Keeps :
      (o : Option (Dict (Field F)))
      → CacheValid assets b.token_cache
      → Keeps (pool_or_nothing (pool_of_fields fl lib fee b env o))
  pool_of_fields-Keeps none valid = ((refl, valid), tt)
  pool_of_fields-Keeps (some fields) valid =
      let pool_addr = get_string_field fields "pool_id" in
      let r = get_pool_object b env pool_addr in
      let (same, tokens) = get_pool_object-SameTokens fl lib fee b env pool_addr in
      if_elim (λ r'. Keeps (pool_or_nothing r')) (str_eq pool_addr "") (b, none)
        (pool_of_object fl lib fee pool_addr r) (λ _. ((refl, valid), tt))
        (λ _. pool_of_object-Keeps pool_addr r (same, subst (CacheValid assets) (sym tokens) valid))

  bluefin_pool_event-Keeps :
      (event : Event F)
      → CacheValid assets b.token_cache
      → Keeps (pool_or_nothing (bluefin_pool_event fl lib fee b env event))
  unfolding bluefin_pool_event
  bluefin_pool_event-Keeps event valid = pool_of_fields-Keeps (parsed_json_of event) valid

  on_bluefin_event-Keeps :
      (event : Event F) (tx : SuiTransaction F) (kind : EventKind)
      → CacheValid assets b.token_cache
      → Keeps (on_bluefin_event fl lib fee b env event tx kind)
  unfolding on_bluefin_event
  on_bluefin_event-Keeps event tx swap valid = bluefin_swap_event-Keeps event tx valid
  on_bluefin_event-Keeps event tx add_liquidity valid =
      bluefin_liquidity_event-Keeps event tx "add" valid
  on_bluefin_event-Keeps event tx remove_liquidity valid =
      bluefin_liquidity_event-Keeps event tx "remove" valid
  on_bluefin_event-Keeps event tx pool_created valid = bluefin_pool_event-Keeps event valid
  on_bluefin_event-Keeps event tx collect_fee valid = ((refl, valid), tt)
  on_bluefin_event-Keeps event tx collect_reward valid = ((refl, valid), tt)
  on_bluefin_event-Keeps event tx unknown valid = ((refl, valid), tt)

pub on_bluefin_event-BluefinValid :
    {F : Type 0} (fl : SuiFloats F) (lib : Numbers F) (fee : FeeOf F) (q : Dict ℤ)
    (b : BluefinExtractor F) (env : Env F) (event : Event F) (tx : SuiTransaction F)
    (kind : EventKind)
    → BluefinValid q b
    → BluefinValid q (on_bluefin_event fl lib fee b env event tx kind).0
      × FoundValid q (on_bluefin_event fl lib fee b env event tx kind).1
on_bluefin_event-BluefinValid fl lib fee q b env event tx kind (e, valid) =
    subst
      (λ z.
        CacheValid z b.token_cache
        → BluefinValid z (on_bluefin_event fl lib fee b env event tx kind).0
          × FoundValid z (on_bluefin_event fl lib fee b env event tx kind).1)
      e (on_bluefin_event-Keeps fl lib fee b env event tx kind) valid
