-- ===== src/Subgraph/Mapping.antt =====
-- internal/thegraph/mapping.go, and the page of uniswap.go: pools and tokens of a page of entities.
-- The two fetch functions have one body, with the entity's type and mapping in place.
use chain_parse_service.Base.{
  ℕ, zero, suc, String, Bool, false, ◌||◌, Option, none, some, List, [], ◌∷◌, map, str_eq,
  if◌then◌else◌,
}
use chain_parse_service.Base.Int.{ℤ, pos}
use chain_parse_service.Base.Decimal.{parse_int, int_or_zero, uint_or_zero}
use chain_parse_service.Model.{Pool, PoolSource, Token}
use chain_parse_service.Uniswap.State.{uniswap_v2_factory_addr, uniswap_v3_factory_addr}

pub record TokenField : Type 0 where
  pub id : String
  pub symbol : String
  pub name : String
  pub decimals : String

pub record V2Pair : Type 0 where
  pub id : String
  pub created_at_timestamp : String
  pub token0 : TokenField
  pub token1 : TokenField

pub record V3Pool : Type 0 where
  pub id : String
  pub created_at_timestamp : String
  pub fee_tier : String
  pub token0 : TokenField
  pub token1 : TokenField

abbrev subgraph_pool : String → String → String → TokenField → TokenField → ℤ → String → Pool
subgraph_pool id factory protocol token0 token1 fee created_at = record {
  addr = id;
  factory = factory;
  protocol = protocol;
  tokens = (0, token0.id) ∷ (1, token1.id) ∷ [];
  fee = fee;
  source = PoolSource.thegraph;
  extra = some (record { hash = ""; from = ""; time = uint_or_zero created_at });
}

unfoldable pub v2_pair_to_model_pool : V2Pair → Pool
unfolding uint_or_zero
v2_pair_to_model_pool p =
    subgraph_pool p.id uniswap_v2_factory_addr "uniswap_v2" p.token0 p.token1 (pos 3000)
      p.created_at_timestamp

unfoldable pub v3_pool_to_model_pool : V3Pool → Pool
unfolding uint_or_zero int_or_zero
v3_pool_to_model_pool p =
    subgraph_pool p.id uniswap_v3_factory_addr "uniswap_v3" p.token0 p.token1
      (int_or_zero p.fee_tier) p.created_at_timestamp

-- A text is a list of runes.
unfoldable pub truncate_runes : String → ℕ → String
truncate_runes s zero = ""
truncate_runes String.[] (suc n) = ""
truncate_runes (String.◌∷◌ c s) (suc n) = String.◌∷◌ c (truncate_runes s n)

abbrev or_zero : Option ℤ → ℤ
or_zero none = pos 0
or_zero (some z) = z

unfoldable pub token_field_to_model_token : TokenField → Token
unfolding truncate_runes parse_int
token_field_to_model_token tf = record {
  addr = tf.id;
  name = truncate_runes tf.name 200;
  symbol = truncate_runes tf.symbol 100;
  decimals = or_zero (parse_int tf.decimals);
}

-- What the fetch loop uses of an entity.
pub record Entity (E : Type 0) : Type 0 where
  pub id : E → String
  pub created_at : E → String
  pub token0 : E → TokenField
  pub token1 : E → TokenField
  pub to_pool : E → Pool

instance abbrev pub v2_entity : Entity V2Pair
v2_entity = record {
  id = λ p. p.id;
  created_at = λ p. p.created_at_timestamp;
  token0 = λ p. p.token0;
  token1 = λ p. p.token1;
  to_pool = v2_pair_to_model_pool;
}

instance abbrev pub v3_entity : Entity V3Pool
v3_entity = record {
  id = λ p. p.id;
  created_at = λ p. p.created_at_timestamp;
  token0 = λ p. p.token0;
  token1 = λ p. p.token1;
  to_pool = v3_pool_to_model_pool;
}

unfoldable pub seen : String → List String → Bool
seen id [] = false
seen id (i ∷ ids) = str_eq i id || seen id ids

-- The tokens of the fields, each id once; `ids` are those seen before.
unfoldable pub new_tokens : List String → List TokenField → List Token
unfolding seen
new_tokens ids [] = []
new_tokens ids (tf ∷ tfs) =
    let known = new_tokens ids tfs in
    let fresh = token_field_to_model_token tf ∷ new_tokens (tf.id ∷ ids) tfs in
    if seen tf.id ids then known else fresh

module _ {E : Type 0} ⦃e : Entity E⦄ where
  abbrev fields : List E → List TokenField
  fields [] = []
  fields (x ∷ xs) = e.token0 x ∷ e.token1 x ∷ fields xs

  unfoldable pub page_tokens : List E → List Token
  unfolding new_tokens
  page_tokens xs = new_tokens [] (fields xs)

  unfoldable pub page_pools : List E → List Pool
  page_pools xs = map e.to_pool xs
