-- ===== src/Uniswap/Floats.antt =====
-- internal/parser/dexs/utils.go: CalcPrice, CalcV3Price and CalcValue. What they use of Go's floating
-- point is the parameter `Floats`.
use chain_parse_service.Base.{Bool, ◌+◌, ◌||◌, ◌==◌, ◌^◌, if◌then◌else◌}
use chain_parse_service.Base.Int.{ℤ, pos, pos_part, neg_part}

-- What the code uses of `big.Float` and `float64`. `quo a b` is the quotient of two integers as a
-- float64, `square_ratio a b` that of their big.Float quotient squared.
pub record Floats : Type 1 where
  pub Float : Type 0
  pub zero : Float
  pub is_zero : Float → Bool
  pub is_nan_or_inf : Float → Bool
  pub quo : ℤ → ℤ → Float
  pub square_ratio : ℤ → ℤ → Float
  pub of_int : ℤ → Float
  pub mul : Float → Float → Float
  pub add : Float → Float → Float

abbrev pub is_zero_ℤ : ℤ → Bool
is_zero_ℤ n = pos_part n + neg_part n == 0

abbrev pub abs : ℤ → ℤ
abs n = pos (pos_part n + neg_part n)

module _ (fl : Floats) where
  open fl use {Float, zero, is_zero, is_nan_or_inf, quo, square_ratio, of_int, mul}

  abbrev finite_or_zero : Float → Float
  finite_or_zero f = if is_nan_or_inf f then zero else f

  unfoldable pub calc_price : ℤ → ℤ → Float
  calc_price amount_in amount_out =
      if is_zero_ℤ amount_in then zero else finite_or_zero (quo amount_out amount_in)

  unfoldable pub calc_v3_price : ℤ → Float
  calc_v3_price sqrt_price =
      if is_zero_ℤ sqrt_price then zero else finite_or_zero (square_ratio sqrt_price (pos (2 ^ 96)))

  unfoldable pub calc_value : ℤ → Float → Float
  calc_value amount price =
      if is_zero_ℤ amount || is_zero price then zero else finite_or_zero (mul (of_int amount) price)
