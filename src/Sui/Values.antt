-- ===== src/Sui/Values.antt =====
-- internal/parser/dexs/suidex/bluefin.go, and the same functions in cetus.go: prices and values.
use chain_parse_service.Base.{
  ℕ, ◌+◌, ◌^◌, ◌==◌, String, Bool, false, ◌&&◌, ◌||◌, not, Option, none, some, List, [], ◌∷◌,
  str_eq, if◌then◌else◌,
}
use chain_parse_service.Base.Dict.{Dict, lookup}
use chain_parse_service.Base.Int.{ℤ, pos, pos_part, neg_part, ltb_ℤ}
use chain_parse_service.Sui.Rows.{Token, stable_rank_threshold, is_stable_coin}

-- What the code uses of `float64`: `quo a n` is the quotient of two integers by `big.Float`.
pub record SuiFloats (F : Type 0) : Type 0 where
  pub zero : F
  pub quo : ℤ → ℕ → F
  pub mul : F → F → F
  pub div : F → F → F
  pub is_positive : F → Bool
  pub is_zero : F → Bool

pub record SwapPriceResult (F : Type 0) : Type 0 where
  pub sell_price : F
  pub buy_price : F
  pub trade_value : F

abbrev is_zero_ℤ : ℤ → Bool
is_zero_ℤ n = pos_part n + neg_part n == 0

abbrev pub is_positive_amount : Option ℤ → Bool
is_positive_amount none = false
is_positive_amount (some n) = ltb_ℤ (pos 0) n

unfoldable pub get_token_decimals : String → List Token → ℤ
get_token_decimals addr [] = pos 0
get_token_decimals addr (t ∷ tokens) =
    if str_eq t.addr addr then t.decimals else get_token_decimals addr tokens

-- The loop of calcSwapPriceValue goes on after a match, so the last one counts.
unfoldable pub last_decimals : String → ℤ → List Token → ℤ
last_decimals addr d [] = d
last_decimals addr d (t ∷ tokens) =
    last_decimals addr (if str_eq t.addr addr then t.decimals else d) tokens

abbrev pub rank_of : Option ℤ → ℤ
rank_of none = pos 0
rank_of (some rank) = rank

module _ {F : Type 0} (fl : SuiFloats F) where
  open fl use {zero, quo, mul, div, is_positive, is_zero}

  unfoldable pub raw_to_human : Option ℤ → ℤ → F
  raw_to_human none decimals = zero
  raw_to_human (some amount) decimals =
      if is_zero_ℤ amount || ltb_ℤ decimals (pos 0)
      then zero
      else quo amount (10 ^ pos_part decimals)

  abbrev value_by_rank : ℤ → ℤ → F → F → F
  value_by_rank rank_a rank_b human_a human_b =
      let a_is_stable = not (ltb_ℤ rank_a stable_rank_threshold) in
      let b_is_stable = not (ltb_ℤ rank_b stable_rank_threshold) in
      if a_is_stable && b_is_stable
      then (if ltb_ℤ rank_a rank_b then human_b else human_a)
      else if a_is_stable
      then human_a
      else if b_is_stable
      then human_b
      else zero

  unfoldable pub estimate_usd_value : Dict ℤ → String → String → F → F → F
  unfolding lookup
  estimate_usd_value quote_assets addr_a addr_b human_a human_b =
      value_by_rank (rank_of (lookup addr_a quote_assets)) (rank_of (lookup addr_b quote_assets))
        human_a human_b

  unfoldable pub calc_swap_price_value :
      Dict ℤ → String → String → Option ℤ → Option ℤ → List Token → SwapPriceResult F
  unfolding last_decimals raw_to_human estimate_usd_value
  calc_swap_price_value quote_assets sell_addr buy_addr amount_in amount_out tokens =
      let human_in = raw_to_human amount_in (last_decimals sell_addr (pos 0) tokens) in
      let human_out = raw_to_human amount_out (last_decimals buy_addr (pos 0) tokens) in
      let priced = is_positive human_in && is_positive human_out in
      record {
        sell_price = if priced then div human_out human_in else zero;
        buy_price = if priced then div human_in human_out else zero;
        trade_value = estimate_usd_value quote_assets sell_addr buy_addr human_in human_out;
      }

  unfoldable pub calc_token_usd_value : Dict ℤ → String → Option ℤ → List Token → F
  unfolding get_token_decimals raw_to_human is_stable_coin
  calc_token_usd_value quote_assets addr none tokens = zero
  calc_token_usd_value quote_assets addr (some amount) tokens =
      if is_zero_ℤ amount
      then zero
      else if is_stable_coin quote_assets addr
      then raw_to_human (some amount) (get_token_decimals addr tokens)
      else zero

  -- The values of the two sides of a change of liquidity: a side without a value gets one from the
  -- other side.
  unfoldable pub liquidity_values :
      Dict ℤ → String → String → Option ℤ → Option ℤ → List Token → F × F
  unfolding calc_token_usd_value get_token_decimals raw_to_human
  liquidity_values quote_assets token0 token1 amount_a amount_b tokens =
      let value_a = calc_token_usd_value quote_assets token0 amount_a tokens in
      let value_b = calc_token_usd_value quote_assets token1 amount_b tokens in
      let human_a = raw_to_human amount_a (get_token_decimals token0 tokens) in
      let human_b = raw_to_human amount_b (get_token_decimals token1 tokens) in
      let both = is_positive_amount amount_a && is_positive_amount amount_b in
      if is_zero value_a && (is_positive value_b && both)
      then (div (mul value_b human_a) human_b, value_b)
      else if is_zero value_b && (is_positive value_a && both)
      then (value_a, div (mul value_a human_b) human_a)
      else (value_a, value_b)
