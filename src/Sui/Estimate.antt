-- ===== src/Sui/Estimate.antt =====
-- The values that createLiquidityFromEvent gives the two sides of a change of liquidity.
use chain_parse_service.Base.{String, ◌≡◌, Bool, true, false, some, List}
use chain_parse_service.Base.Dict.{Dict}
use chain_parse_service.Base.Int.{ℤ}
use chain_parse_service.Sui.Rows.{Token}
use chain_parse_service.Sui.Values.{SuiFloats, raw_to_human, get_token_decimals}

-- What comparisons of a float with zero say of zero itself.
pub record ZeroTests {F : Type 0} (fl : SuiFloats F) : Type 0 where
  pub zero_is_zero : fl.is_zero fl.zero ≡ true
  pub zero_is_not_positive : fl.is_positive fl.zero ≡ false

module _ {F : Type 0} (fl : SuiFloats F) (q : Dict ℤ) (token0 token1 : String) (a b : ℤ)
    (tokens : List Token) where
  abbrev pub human0 : F
  human0 = raw_to_human fl (some a) (get_token_decimals token0 tokens)

  abbrev pub human1 : F
  human1 = raw_to_human fl (some b) (get_token_decimals token1 tokens)

  -- The values where the coin of `true` is the stable one.
  abbrev pub estimated : Bool → F × F
  estimated true = (human0, fl.div (fl.mul human0 human1) human0)
  estimated false = (fl.div (fl.mul human1 human0) human1, human1)
