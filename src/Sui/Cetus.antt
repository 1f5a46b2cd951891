-- ===== src/Sui/Cetus.antt =====
-- internal/parser/dexs/suidex/cetus.go: what the extractor makes of the events of Cetus.
use chain_parse_service.Base.{String, ◌||◌, Option, none, some, [], ◌∷◌, str_eq, if◌then◌else◌}
use chain_parse_service.Base.Dict.{Dict}
use chain_parse_service.Base.Int.{pos}
use chain_parse_service.Common.{Field, Numbers, get_string_field, get_big_int_field}
use chain_parse_service.Model.{Pool, PoolSource, token_at}
use chain_parse_service.Uniswap.Records.{get_block_number}
use chain_parse_service.Sui.Rows.{
  Transaction, Liquidity, PoolEventData, SwapEventData, LiquidityEventData, SuiObject, Env,
  CetusExtractor,
}
use chain_parse_service.Sui.Values.{SuiFloats, calc_swap_price_value, liquidity_values}
use chain_parse_service.Sui.Events.{
  Event, SuiTransaction, parsed_json_of, extract_event_seq, extract_sender, parse_event_seq,
  liquidity_key,
}
use chain_parse_service.Sui.CetusTypes.{cetus_pool_coin, cetus_clmm_pool_addr}
use chain_parse_service.Sui.CetusPool.{cetus_pool_event_data, cetus_int_field, cetus_bool_field}

module _ {F : Type 0} (fl : SuiFloats F) (lib : Numbers F) where
  abbrev pub swap_data :
      CetusExtractor → Event F → Dict (Field F) → SuiTransaction F → PoolEventData → SwapEventData F
  swap_data c event fields tx p =
      let token0 = token_at 0 p.pool.tokens in
      let token1 = token_at 1 p.pool.tokens in
      let atob = cetus_bool_field fields "atob" in
      let sell_token = if atob then token0 else token1 in
      let buy_token = if atob then token1 else token0 in
      let amount_in = get_big_int_field lib fields "amount_in" in
      let amount_out = get_big_int_field lib fields "amount_out" in
      let pv =
        calc_swap_price_value fl c.quote_assets sell_token buy_token amount_in amount_out
          p.tokens in
      let sell : Transaction F = record {
        addr = sell_token;
        factory = cetus_clmm_pool_addr;
        pool = get_string_field fields "pool";
        hash = tx.base.tx_hash;
        event_index = parse_event_seq lib (extract_event_seq event);
        tx_index = tx.base.tx_index;
        block_number = get_block_number tx.base;
        time = tx.base.timestamp;
        from = extract_sender event;
        side = "sell";
        amount = amount_in;
        price = pv.sell_price;
        value = pv.trade_value;
        extra = some (record { quote_addr = buy_token; kind = "swap"; token_decimals = pos 9 });
      } in
      let buy : Transaction F = record sell {
        addr = buy_token;
        side = "buy";
        amount = amount_out;
        price = pv.buy_price;
        extra = some (record { quote_addr = sell_token; kind = "swap"; token_decimals = pos 9 });
      } in
      record {
        pool = p.pool;
        tokens = p.tokens;
        reserve = p.reserve;
        transactions = sell ∷ buy ∷ [];
      }

  abbrev pub swap_of :
      Event F
      → Dict (Field F)
      → SuiTransaction F
      → CetusExtractor × Option PoolEventData
      → CetusExtractor × Option (SwapEventData F)
  swap_of event fields tx (c, none) = (c, none)
  swap_of event fields tx (c, some p) = (c, some (swap_data c event fields tx p))

  abbrev pub swap_of_fields :
      CetusExtractor
      → Env F
      → Event F
      → SuiTransaction F
      → Option (Dict (Field F))
      → CetusExtractor × Option (SwapEventData F)
  swap_of_fields c env event tx none = (c, none)
  swap_of_fields c env event tx (some fields) =
      swap_of event fields tx (cetus_pool_event_data lib c env (get_string_field fields "pool") tx)

  -- processSwapEvent
  unfoldable pub cetus_swap_event :
      CetusExtractor
      → Env F
      → Event F
      → SuiTransaction F
      → CetusExtractor × Option (SwapEventData F)
  unfolding parsed_json_of get_string_field get_big_int_field cetus_bool_field calc_swap_price_value
      cetus_pool_event_data token_at extract_sender extract_event_seq parse_event_seq
  cetus_swap_event c env event tx = swap_of_fields c env event tx (parsed_json_of event)

  abbrev pub liquidity_data :
      CetusExtractor
      → Event F
      → Dict (Field F)
      → SuiTransaction F
      → String
      → PoolEventData
      → LiquidityEventData F
  liquidity_data c event fields tx side p =
      let token0 = token_at 0 p.pool.tokens in
      let token1 = token_at 1 p.pool.tokens in
      let amount_a = get_big_int_field lib fields "amount_a" in
      let amount_b = get_big_int_field lib fields "amount_b" in
      let (value_a, value_b) =
        liquidity_values fl c.quote_assets token0 token1 amount_a amount_b p.tokens in
      let liquidity0 : Liquidity F = record {
        addr = token0;
        factory = cetus_clmm_pool_addr;
        pool = get_string_field fields "pool";
        hash = tx.base.tx_hash;
        from = extract_sender event;
        side = side;
        amount = amount_a;
        value = value_a;
        time = tx.base.timestamp;
        key = liquidity_key tx.base.tx_hash side (extract_event_seq event) "_0";
      } in
      let liquidity1 : Liquidity F = record liquidity0 {
        addr = token1;
        amount = amount_b;
        value = value_b;
        key = liquidity_key tx.base.tx_hash side (extract_event_seq event) "_1";
      } in
      record {
        pool = p.pool;
        tokens = p.tokens;
        reserve = p.reserve;
        liquidities = liquidity0 ∷ liquidity1 ∷ [];
      }

  abbrev pub liquidity_of :
      Event F
      → Dict (Field F)
      → SuiTransaction F
      → String
      → CetusExtractor × Option PoolEventData
      → CetusExtractor × Option (LiquidityEventData F)
  liquidity_of event fields tx side (c, none) = (c, none)
  liquidity_of event fields tx side (c, some p) =
      (c, some (liquidity_data c event fields tx side p))

  abbrev pub liquidity_of_fields :
      CetusExtractor
      → Env F
      → Event F
      → SuiTransaction F
      → String
      → Option (Dict (Field F))
      → CetusExtractor × Option (LiquidityEventData F)
  liquidity_of_fields c env event tx side none = (c, none)
  liquidity_of_fields c env event tx side (some fields) =
      let pool_addr = get_string_field fields "pool" in
      if str_eq pool_addr ""
      then (c, none)
      else liquidity_of event fields tx side (cetus_pool_event_data lib c env pool_addr tx)

  -- createLiquidityFromEvent
  unfoldable pub cetus_liquidity_event :
      CetusExtractor
      → Env F
      → Event F
      → SuiTransaction F
      → String
      → CetusExtractor × Option (LiquidityEventData F)
  unfolding parsed_json_of get_string_field get_big_int_field liquidity_values cetus_pool_event_data
      token_at extract_sender extract_event_seq liquidity_key
  cetus_liquidity_event c env event tx side =
      liquidity_of_fields c env event tx side (parsed_json_of event)

  abbrev pub pool_of_object : Dict (Field F) → String → Option (SuiObject F) → Option Pool
  pool_of_object fields pool_addr none = none
  pool_of_object fields pool_addr (some object) =
      let (token0, token1) = cetus_pool_coin object.object_type in
      if str_eq token0 "" || str_eq token1 ""
      then none
      else some (record {
        addr = pool_addr;
        factory = cetus_clmm_pool_addr;
        protocol = "cetus";
        tokens = (0, token0) ∷ (1, token1) ∷ [];
        fee = cetus_int_field lib fields "fee_rate";
        source = PoolSource.unset;
        extra = none;
      })

  abbrev pub pool_of_fields : Env F → Option (Dict (Field F)) → Option Pool
  pool_of_fields env none = none
  pool_of_fields env (some fields) =
      let pool_addr = get_string_field fields "pool_id" in
      if str_eq pool_addr ""
      then none
      else pool_of_object fields pool_addr (env.get_object pool_addr)

  -- createPoolFromEvent
  unfoldable pub cetus_pool_event : Env F → Event F → Option Pool
  unfolding parsed_json_of get_string_field cetus_int_field cetus_pool_coin
  cetus_pool_event env event = pool_of_fields env (parsed_json_of event)
