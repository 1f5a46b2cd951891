-- ===== src/Uniswap/Events/Reserves.antt =====
-- The virtual reserves of a V3 pool (parseV3Reserve).
use native.Mathlib.Nat.{
  mul-le-mul, le_of_mul-le-mul_right, div-mul-le_self, lt-div-mul-add, mul_comm,
}
use mathlib.Core.Path.{subst₂}
use chain_parse_service.Base.{
  ℕ, ◌+◌, ◌*◌, ◌/◌, ◌^◌, ◌<◌, ◌≤◌, ◌≡◌, ap, ◌∙◌, [], ◌∷◌, some, length, arith,
}
use chain_parse_service.Types.{UnifiedTransaction, EthLog}
use chain_parse_service.Uniswap.Bytes.{set_bytes, slice}
use chain_parse_service.Uniswap.Logs.{EthLib}
use chain_parse_service.Uniswap.Swap.Decode.{words, length-words, nat_at}
use chain_parse_service.Uniswap.Events.{virtual_reserves, parse_v3_reserve}

-- `x` and `y` are the reserves at the price `p`, rounded down, and their product is bounded by the
-- square of the liquidity `l`.
abbrev pub AreReserves : ℕ → ℕ → ℕ → ℕ → Type 0
AreReserves p l x y =
    (x * p ≤ l * 2 ^ 96)
    × (l * 2 ^ 96 < x * p + p)
    × (y * 2 ^ 96 ≤ l * p)
    × (l * p < y * 2 ^ 96 + 2 ^ 96)
    × (x * y ≤ l * l)

exchange : (a b c d : ℕ) → (a * b) * (c * d) ≡ (a * c) * (b * d)
exchange a b c d = grind arith

-- `c` stands for 2^96, which is not to be computed here.
product_bound : (c p l x y : ℕ) → 0 < c → 0 < p → x * p ≤ l * c → y * c ≤ l * p → x * y ≤ l * l
product_bound c p l x y hc hp hx hy =
    let scaled : x * y * (p * c) ≤ l * l * (p * c) =
      subst₂ (λ a b. a ≤ b) (exchange x p y c)
        (exchange l c l p ∙ ap (λ t. l * l * t) (mul_comm c p)) (mul-le-mul hx hy) in
    le_of_mul-le-mul_right scaled (mul-le-mul hp hc)

virtual_reserves-AreReserves :
    (p l : ℕ) → 0 < p → AreReserves p l (virtual_reserves p l).0 (virtual_reserves p l).1
unfolding virtual_reserves
virtual_reserves-AreReserves p l h =
    let c = 2 ^ 96 in
    let below = div-mul-le_self (l * c) p in
    let below' = div-mul-le_self (l * p) c in
    let c_pos : 0 < 2 ^ 96 = omega arith in
    (
      below,
      lt-div-mul-add h,
      below',
      lt-div-mul-add c_pos,
      product_bound c p l (l * c / p) (l * p / c) c_pos h below below',
    )

-- From a V3 swap log whose price and liquidity words are not zero, the reserves that parseV3Reserve
-- gives are those of the price and the liquidity, rounded down, and their product is at most the
-- square of the liquidity.
pub parse_v3_reserve-words :
    (lib : EthLib) (log : EthLog) (tx : UnifiedTransaction) (a b p l t : ℕ)
    → log.bytes ≡ words (a ∷ b ∷ p ∷ l ∷ t ∷ [])
    → 0 < p
    → p < 256 ^ 32
    → 0 < l
    → l < 256 ^ 32
    → (x : ℕ) × (y : ℕ) × (parse_v3_reserve lib log tx
        ≡ some (record {
          addr = lib.address_hex log.address;
          protocol = "uniswap_v3";
          amounts = (0, x) ∷ (1, y) ∷ [];
          time = tx.timestamp;
        }))
      × AreReserves p l x y
unfolding parse_v3_reserve virtual_reserves
parse_v3_reserve-words lib log tx a b p l t e hp hp' hl hl' =
    let long : length log.bytes ≡ 160 = ap length e ∙ length-words (a ∷ b ∷ p ∷ l ∷ t ∷ []) in
    let price : set_bytes (slice 64 96 log.bytes) ≡ p =
      ap (λ bs. set_bytes (slice 64 96 bs)) e ∙ nat_at (a ∷ b ∷ []) p (l ∷ t ∷ []) hp' in
    let liquidity : set_bytes (slice 96 128 log.bytes) ≡ l =
      ap (λ bs. set_bytes (slice 96 128 bs)) e ∙ nat_at (a ∷ b ∷ p ∷ []) l (t ∷ []) hl' in
    (
      l * 2 ^ 96 / p,
      l * p / 2 ^ 96,
      ground (arith, long, price, liquidity),
      virtual_reserves-AreReserves p l hp,
    )
