-- ===== src/Sui/Bluefin.antt =====
-- internal/parser/dexs/suidex/bluefin.go: what the extractor makes of the events of Bluefin.
use chain_parse_service.Base.{String, ◌||◌, Option, none, some, [], ◌∷◌, str_eq, if◌then◌else◌}
use chain_parse_service.Base.Dict.{Dict}
use chain_parse_service.Base.Int.{ℤ}
use chain_parse_service.Common.{Field, Numbers, get_string_field, get_big_int_field, get_bool_field}
use chain_parse_service.Model.{Pool, PoolSource, token_at}
use chain_parse_service.Uniswap.Records.{get_block_number}
use chain_parse_service.Sui.Rows.{
  Transaction, Liquidity, PoolEventData, SwapEventData, LiquidityEventData, SuiObject, Env,
  BluefinExtractor, Reserve,
}
use chain_parse_service.Sui.Values.{SuiFloats, calc_swap_price_value, liquidity_values}
use chain_parse_service.Sui.Events.{
  Event, SuiTransaction, parsed_json_of, extract_event_seq, extract_sender, parse_event_seq,
  liquidity_key,
}
use chain_parse_service.Sui.BluefinPool.{
  FeeOf, bluefin_pool_event_data, bluefin_pool_coin, bluefin_amm_addr, fee_bps, get_pool_object,
}

-- The reserves of the event where it has both, else those of the pool.
abbrev pub reserve_of_event : Reserve → Option ℤ → Option ℤ → Reserve
reserve_of_event r (some a) (some b) = record r { amount0 = a; amount1 = b }
reserve_of_event r _ _ = r

module _ {F : Type 0} (fl : SuiFloats F) (lib : Numbers F) (fee : FeeOf F) where
  abbrev pub swap_data :
      BluefinExtractor F
      → Event F
      → Dict (Field F)
      → SuiTransaction F
      → PoolEventData
      → SwapEventData F
  swap_data b event fields tx p =
      let token0 = token_at 0 p.pool.tokens in
      let token1 = token_at 1 p.pool.tokens in
      let a2b = get_bool_field lib fields "a2b" in
      let sell_addr = if a2b then token0 else token1 in
      let buy_addr = if a2b then token1 else token0 in
      let amount_in = get_big_int_field lib fields "amount_in" in
      let amount_out = get_big_int_field lib fields "amount_out" in
      let pv =
        calc_swap_price_value fl b.quote_assets sell_addr buy_addr amount_in amount_out p.tokens in
      let sell : Transaction F = record {
        addr = sell_addr;
        factory = bluefin_amm_addr;
        pool = get_string_field fields "pool_id";
        hash = tx.base.tx_hash;
        event_index = parse_event_seq lib (extract_event_seq event);
        tx_index = tx.base.tx_index;
        block_number = get_block_number tx.base;
        time = tx.base.timestamp;
        from = extract_sender event;
        side = "sell";
        amount = amount_in;
        price = pv.sell_price;
        value = pv.trade_value;
        extra = none;
      } in
      let buy : Transaction F = record sell {
        addr = buy_addr;
        side = "buy";
        amount = amount_out;
        price = pv.buy_price;
      } in
      record {
        pool = p.pool;
        tokens = p.tokens;
        reserve =
            reserve_of_event p.reserve (get_big_int_field lib fields "pool_coin_a_amount")
              (get_big_int_field lib fields "pool_coin_b_amount");
        transactions = sell ∷ buy ∷ [];
      }

  abbrev pub swap_of :
      Event F
      → Dict (Field F)
      → SuiTransaction F
      → BluefinExtractor F × Option PoolEventData
      → BluefinExtractor F × Option (SwapEventData F)
  swap_of event fields tx (b, none) = (b, none)
  swap_of event fields tx (b, some p) = (b, some (swap_data b event fields tx p))

  abbrev pub swap_of_fields :
      BluefinExtractor F
      → Env F
      → Event F
      → SuiTransaction F
      → Option (Dict (Field F))
      → BluefinExtractor F × Option (SwapEventData F)
  swap_of_fields b env event tx none = (b, none)
  swap_of_fields b env event tx (some fields) =
      swap_of event fields tx
        (bluefin_pool_event_data lib fee b env (get_string_field fields "pool_id") tx)

  -- processSwapEvent
  unfoldable pub bluefin_swap_event :
      BluefinExtractor F
      → Env F
      → Event F
      → SuiTransaction F
      → BluefinExtractor F × Option (SwapEventData F)
  unfolding parsed_json_of get_string_field get_big_int_field get_bool_field calc_swap_price_value
      bluefin_pool_event_data token_at extract_sender extract_event_seq parse_event_seq
  bluefin_swap_event b env event tx = swap_of_fields b env event tx (parsed_json_of event)

  abbrev pub liquidity_data :
      BluefinExtractor F
      → Event F
      → Dict (Field F)
      → SuiTransaction F
      → String
      → PoolEventData
      → LiquidityEventData F
  liquidity_data b event fields tx side p =
      let token0 = token_at 0 p.pool.tokens in
      let token1 = token_at 1 p.pool.tokens in
      let coin_a_amount = get_big_int_field lib fields "coin_a_amount" in
      let coin_b_amount = get_big_int_field lib fields "coin_b_amount" in
      let (value_a, value_b) =
        liquidity_values fl b.quote_assets token0 token1 coin_a_amount coin_b_amount p.tokens in
      let liquidity0 : Liquidity F = record {
        addr = token0;
        factory = bluefin_amm_addr;
        pool = get_string_field fields "pool_id";
        hash = tx.base.tx_hash;
        from = extract_sender event;
        side = side;
        amount = coin_a_amount;
        value = value_a;
        time = tx.base.timestamp;
        key = liquidity_key tx.base.tx_hash side (extract_event_seq event) "_0";
      } in
      let liquidity1 : Liquidity F = record liquidity0 {
        addr = token1;
        amount = coin_b_amount;
        value = value_b;
        key = liquidity_key tx.base.tx_hash side (extract_event_seq event) "_1";
      } in
      record {
        pool = p.pool;
        tokens = p.tokens;
        reserve = p.reserve;
        liquidities = liquidity0 ∷ liquidity1 ∷ [];
      }

  abbrev pub liquidity_of :
      Event F
      → Dict (Field F)
      → SuiTransaction F
      → String
      → BluefinExtractor F × Option PoolEventData
      → BluefinExtractor F × Option (LiquidityEventData F)
  liquidity_of event fields tx side (b, none) = (b, none)
  liquidity_of event fields tx side (b, some p) =
      (b, some (liquidity_data b event fields tx side p))

  abbrev pub liquidity_of_fields :
      BluefinExtractor F
      → Env F
      → Event F
      → SuiTransaction F
      → String
      → Option (Dict (Field F))
      → BluefinExtractor F × Option (LiquidityEventData F)
  liquidity_of_fields b env event tx side none = (b, none)
  liquidity_of_fields b env event tx side (some fields) =
      let pool_addr = get_string_field fields "pool_id" in
      if str_eq pool_addr ""
      then (b, none)
      else liquidity_of event fields tx side (bluefin_pool_event_data lib fee b env pool_addr tx)

  -- createLiquidityFromEvent
  unfoldable pub bluefin_liquidity_event :
      BluefinExtractor F
      → Env F
      → Event F
      → SuiTransaction F
      → String
      → BluefinExtractor F × Option (LiquidityEventData F)
  unfolding parsed_json_of get_string_field get_big_int_field liquidity_values
      bluefin_pool_event_data token_at extract_sender extract_event_seq liquidity_key
  bluefin_liquidity_event b env event tx side =
      liquidity_of_fields b env event tx side (parsed_json_of event)

  abbrev pub pool_of_object :
      String → BluefinExtractor F × Option (SuiObject F) → BluefinExtractor F × Option Pool
  pool_of_object pool_addr (b, none) = (b, none)
  pool_of_object pool_addr (b, some object) =
      let (token0, token1) = bluefin_pool_coin object.object_type in
      if str_eq token0 "" || str_eq token1 "" then (b, none) else (
        b,
        some (record {
          addr = pool_addr;
          factory = bluefin_amm_addr;
          protocol = "bluefin";
          tokens = (0, token0) ∷ (1, token1) ∷ [];
          fee = fee_bps lib fee object;
          source = PoolSource.unset;
          extra = none;
        }),
      )

  abbrev pub pool_of_fields :
      BluefinExtractor F → Env F → Option (Dict (Field F)) → BluefinExtractor F × Option Pool
  pool_of_fields b env none = (b, none)
  pool_of_fields b env (some fields) =
      let pool_addr = get_string_field fields "pool_id" in
      if str_eq pool_addr ""
      then (b, none)
      else pool_of_object pool_addr (get_pool_object b env pool_addr)

  -- createPoolFromEvent
  unfoldable pub bluefin_pool_event :
      BluefinExtractor F → Env F → Event F → BluefinExtractor F × Option Pool
  unfolding parsed_json_of get_string_field bluefin_pool_coin fee_bps get_pool_object
  bluefin_pool_event b env event = pool_of_fields b env (parsed_json_of event)
