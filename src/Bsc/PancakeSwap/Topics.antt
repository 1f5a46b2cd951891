-- ===== src/Bsc/PancakeSwap/Topics.antt =====
-- internal/parser/dexs/bsc/pancakeswap.go: the kinds of logs, and the events that create pools. The
-- event signatures are those of Uniswap; there is no case for the sync event.
use chain_parse_service.Base.{
  ℕ, String, Bool, false, ◌||◌, Option, none, some, List, [], ◌∷◌, ltb, length, str_eq,
  if◌then◌else◌,
}
use chain_parse_service.Base.Int.{ℤ, pos}
use chain_parse_service.Model.{Pool, PoolSource}
use chain_parse_service.Types.{UnifiedTransaction, EthLog, bsc}
use chain_parse_service.Uniswap.Bytes.{set_bytes, slice}
use chain_parse_service.Uniswap.Logs.{
  EthLib, swap_v2_event_sig, swap_v3_event_sig, mint_v2_event_sig, mint_v3_event_sig,
  burn_v2_event_sig, burn_v3_event_sig, pair_created_event_sig, pool_created_event_sig,
}
use chain_parse_service.Uniswap.Events.{address_in}
use chain_parse_service.Uniswap.Worker.{to_int64}

abbrev pub pancake_v2_factory_addr : String
pancake_v2_factory_addr = "0xcA143Ce32Fe78f1f7019d7d551a6402fC5350c73"

abbrev pub pancake_v3_factory_addr : String
pancake_v3_factory_addr = "0x0BFbCF9fa4f9C56B0F40a671Ad40E0805A091865"

abbrev pub pancake_supported_chains : List String
pancake_supported_chains = bsc ∷ []

unfoldable pub is_pancake_swap_topic : String → Bool
is_pancake_swap_topic t =
    str_eq t swap_v2_event_sig
    || (str_eq t swap_v3_event_sig
        || (str_eq t mint_v2_event_sig
            || (str_eq t burn_v2_event_sig
                || (str_eq t mint_v3_event_sig
                    || (str_eq t burn_v3_event_sig
                        || (str_eq t pair_created_event_sig || str_eq t pool_created_event_sig))))))

-- The texts that getLogType returns; `pancake_unknown` is the empty one.
pub data PancakeLogType : Type 0 where
  pancake_swap_v2 pancake_swap_v3 pancake_mint pancake_burn : PancakeLogType
  pancake_pair_created pancake_pool_created pancake_unknown : PancakeLogType

unfoldable pub pancake_type_of_topic : String → PancakeLogType
pancake_type_of_topic t =
    if str_eq t swap_v2_event_sig
    then pancake_swap_v2
    else if str_eq t swap_v3_event_sig
    then pancake_swap_v3
    else if str_eq t mint_v2_event_sig || str_eq t mint_v3_event_sig
    then pancake_mint
    else if str_eq t burn_v2_event_sig || str_eq t burn_v3_event_sig
    then pancake_burn
    else if str_eq t pair_created_event_sig
    then pancake_pair_created
    else if str_eq t pool_created_event_sig
    then pancake_pool_created
    else pancake_unknown

unfoldable pub pancake_factory_of_topic : String → String
pancake_factory_of_topic t =
    if str_eq t swap_v2_event_sig
      || (str_eq t mint_v2_event_sig
          || (str_eq t burn_v2_event_sig || str_eq t pair_created_event_sig))
    then pancake_v2_factory_addr
    else if str_eq t swap_v3_event_sig
        || (str_eq t mint_v3_event_sig
            || (str_eq t burn_v3_event_sig || str_eq t pool_created_event_sig))
    then pancake_v3_factory_addr
    else ""

module _ (lib : EthLib) where
  unfoldable pub is_pancake_swap_log : EthLog → Bool
  unfolding is_pancake_swap_topic
  is_pancake_swap_log log = elim log.topics [
    | [] ↦ false
    | t ∷ _ ↦ is_pancake_swap_topic (lib.hash_hex t)
  ]

  unfoldable pub pancake_log_type : EthLog → PancakeLogType
  unfolding pancake_type_of_topic
  pancake_log_type log = elim log.topics [
    | [] ↦ pancake_unknown
    | t ∷ _ ↦ pancake_type_of_topic (lib.hash_hex t)
  ]

  unfoldable pub pancake_factory_address : EthLog → String
  unfolding pancake_factory_of_topic
  pancake_factory_address log = elim log.topics [
    | [] ↦ ""
    | t ∷ _ ↦ pancake_factory_of_topic (lib.hash_hex t)
  ]

  abbrev created_pool : String → String → ℤ → List ℕ → List ℕ → UnifiedTransaction → Pool
  created_pool addr factory fee t1 t2 tx = record {
    addr = addr;
    factory = factory;
    protocol = "pancakeswap";
    tokens = (0, address_in lib t1) ∷ (1, address_in lib t2) ∷ [];
    fee = fee;
    source = PoolSource.unset;
    extra = some (record { hash = tx.tx_hash; from = tx.from_address; time = tx.timestamp });
  }

  abbrev pair_of_topics : EthLog → UnifiedTransaction → List (List ℕ) → Option Pool
  pair_of_topics log tx (_ ∷ t1 ∷ t2 ∷ _) =
      if ltb (length log.bytes) 64
      then none
      else some (
          created_pool (address_in lib (slice 0 32 log.bytes)) pancake_v2_factory_addr (pos 2500) t1
            t2 tx)
  pair_of_topics log tx _ = none

  unfoldable pub parse_v2_pair_created : EthLog → UnifiedTransaction → Option Pool
  parse_v2_pair_created log tx = pair_of_topics log tx log.topics

  abbrev pool_of_topics : EthLog → UnifiedTransaction → List (List ℕ) → Option Pool
  pool_of_topics log tx (_ ∷ t1 ∷ t2 ∷ t3 ∷ _) =
      if ltb (length log.bytes) 64
      then none
      else some (
          created_pool (address_in lib (slice 32 64 log.bytes)) pancake_v3_factory_addr
            (to_int64 (set_bytes t3)) t1 t2 tx)
  pool_of_topics log tx _ = none

  unfoldable pub parse_v3_pool_created : EthLog → UnifiedTransaction → Option Pool
  parse_v3_pool_created log tx = pool_of_topics log tx log.topics
