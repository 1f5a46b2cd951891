-- ===== src/Sui/CetusTypes.antt =====
-- internal/parser/dexs/suidex/cetus.go: the types of events and coins. Texts are compared without
-- regard to case by `to_lower`, since type names are ASCII.
use chain_parse_service.Base.{
  String, Bool, true, false, ◌||◌, Option, none, some, str_eq, if◌then◌else◌,
}
use chain_parse_service.Base.Strings.{join, contains_text, has_suffix}
use chain_parse_service.Common.{extract_pool_tokens}
use chain_parse_service.Uniswap.Text.{to_lower}
use chain_parse_service.Sui.Rows.{short_coin_type}

-- What getEventType answers; `unknown` is the empty text.
pub data EventKind : Type 0 where
  swap add_liquidity remove_liquidity pool_created collect_fee collect_reward unknown : EventKind

abbrev pub cetus_clmm_pool_addr : String
cetus_clmm_pool_addr = "0x1eabed72c53feb3805120a081dc15963c204dc8d091542592abaf7a35689b2fb"

abbrev cetus_integrate_addr : String
cetus_integrate_addr = "0x996c4d9480708fb8b92aa7acf819fb0497b5ec8e65ba06601cae2fb6db3312c3"

abbrev cetus_config_addr : String
cetus_config_addr = "0x95b8d278b876cae22206131fb9724f701c9444515813042f54f0a426c9a3bc2f"

abbrev cetus_dlmm_addr : String
cetus_dlmm_addr = "0x5664f9d3fd82c84023870cfbda8ea84e14c8dd56ce557ad2116e0668581a682b"

abbrev pub cetus_token_addr : String
cetus_token_addr = "0x6864a6f921804860930db6ddbe2e16acdf8504495ea7481637a1c8b9a8fe54b::cetus::CETUS"

abbrev cetus_liquidity_module_addr : String
cetus_liquidity_module_addr = "0xdb5cd62a06c79695bfc9982eb08534706d3752fe123b48e0144f480209b3117f"

-- The event types that are known by name.
unfoldable pub exact_kind : String → EventKind
unfolding join
exact_kind t =
    if str_eq t (join cetus_clmm_pool_addr "::pool::SwapEvent")
    then swap
    else if str_eq t (join cetus_clmm_pool_addr "::pool::AddLiquidityEvent")
    then add_liquidity
    else if str_eq t (join cetus_clmm_pool_addr "::pool::RemoveLiquidityEvent")
    then remove_liquidity
    else if str_eq t (join cetus_clmm_pool_addr "::factory::CreatePoolEvent")
    then pool_created
    else if str_eq t (join cetus_clmm_pool_addr "::pool::CollectFeeEvent")
    then collect_fee
    else if str_eq t (join cetus_clmm_pool_addr "::pool::CollectRewardEvent")
    then collect_reward
    else if str_eq t (join cetus_liquidity_module_addr "::pool::AddLiquidityV2Event")
    then add_liquidity
    else if str_eq t (join cetus_liquidity_module_addr "::pool::RemoveLiquidityV2Event")
    then remove_liquidity
    else if str_eq t (join cetus_dlmm_addr "::pool::SwapEvent")
    then swap
    else if str_eq t (join cetus_dlmm_addr "::pool::AddLiquidityEvent")
    then add_liquidity
    else if str_eq t (join cetus_dlmm_addr "::pool::RemoveLiquidityEvent")
    then remove_liquidity
    else unknown

-- The kind by the name in the type.
unfoldable pub kind_by_name : String → EventKind
unfolding has_suffix contains_text
kind_by_name t =
    if has_suffix t "::SwapEvent"
    then swap
    else if contains_text t "AddLiquidity"
    then add_liquidity
    else if contains_text t "RemoveLiquidity"
    then remove_liquidity
    else if contains_text t "CreatePool" || contains_text t "PoolCreated"
    then pool_created
    else if contains_text t "CollectFee"
    then collect_fee
    else if contains_text t "CollectReward"
    then collect_reward
    else unknown

abbrev pub kind_or_by_name : String → EventKind → EventKind
kind_or_by_name t unknown = kind_by_name t
kind_or_by_name t kind = kind

abbrev pub kind_of : Option String → EventKind
kind_of none = unknown
kind_of (some t) = kind_or_by_name t (exact_kind t)

abbrev is_known : EventKind → Bool
is_known unknown = false
is_known _ = true

unfoldable pub is_cetus_type : String → Bool
unfolding exact_kind contains_text
is_cetus_type t =
    is_known (exact_kind t)
    || (contains_text t cetus_clmm_pool_addr
        || (contains_text t cetus_integrate_addr
            || (contains_text t cetus_dlmm_addr
                || (contains_text t cetus_liquidity_module_addr
                    || contains_text t cetus_config_addr))))

abbrev pub cetus_type_of : Option String → Bool
cetus_type_of none = false
cetus_type_of (some t) = is_cetus_type t

unfoldable pub is_cetus_token : String → Bool
unfolding contains_text to_lower
is_cetus_token addr =
    contains_text (to_lower addr) "::cetus::cetus"
    || str_eq (to_lower addr) (to_lower cetus_token_addr)

unfoldable pub short_sui : String → String
unfolding to_lower
short_sui token =
    if str_eq (to_lower token) (to_lower short_coin_type) then short_coin_type else token

abbrev standard_cetus : String → String
standard_cetus token = if is_cetus_token token then cetus_token_addr else token

-- ExtractPoolCoin
unfoldable pub cetus_pool_coin : String → String × String
unfolding extract_pool_tokens short_sui is_cetus_token
cetus_pool_coin coin_type =
    let (token0, token1) = extract_pool_tokens coin_type in
    (standard_cetus (short_sui token0), standard_cetus (short_sui token1))
