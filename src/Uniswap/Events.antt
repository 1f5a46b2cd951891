-- ===== src/Uniswap/Events.antt =====
-- internal/parser/dexs/eth/uniswap.go: parseLiquidity, parseSync, parseV3Reserve,
-- parseV2PairCreated, parseV3PoolCreated and getFactoryAddress.
pub mod Reserves
use chain_parse_service.Base.{
  ℕ, String, Bool, ◌+◌, ◌*◌, ◌/◌, ◌^◌, ◌||◌, ◌==◌, Option, none, some, List, [], ◌∷◌, str_eq,
  if◌then◌else◌, ltb, leb, length, drop, ◌-◌,
}
use chain_parse_service.Base.Dict.{insert}
use chain_parse_service.Base.Int.{ℤ, pos}
use chain_parse_service.Model.{Pool, PoolSource, Liquidity, Reserve}
use chain_parse_service.Types.{UnifiedTransaction, EthLog}
use chain_parse_service.Uniswap.Bytes.{set_bytes, slice}
use chain_parse_service.Uniswap.Floats.{Floats}
use chain_parse_service.Uniswap.Logs.{
  EthLib, swap_v2_event_sig, swap_v3_event_sig, mint_v2_event_sig, mint_v3_event_sig,
  burn_v2_event_sig, burn_v3_event_sig, pair_created_event_sig, pool_created_event_sig,
}
use chain_parse_service.Uniswap.State.{
  UniswapExtractor, PoolMeta, uniswap_v2_factory_addr, uniswap_v3_factory_addr,
}
use chain_parse_service.Uniswap.Worker.{to_int64}

unfoldable pub factory_of_topic : String → String
factory_of_topic t =
    if str_eq t swap_v2_event_sig
      || (str_eq t mint_v2_event_sig
          || (str_eq t burn_v2_event_sig || str_eq t pair_created_event_sig))
    then uniswap_v2_factory_addr
    else if str_eq t swap_v3_event_sig
        || (str_eq t mint_v3_event_sig
            || (str_eq t burn_v3_event_sig || str_eq t pool_created_event_sig))
    then uniswap_v3_factory_addr
    else ""

-- The words at which the two amounts stand; `none` where the data is too short for them.
unfoldable pub amounts_at : String → ℕ → Option (ℕ × ℕ)
amounts_at t size =
    if str_eq t mint_v3_event_sig
    then (if leb 128 size then some (64, 96) else none)
    else if str_eq t burn_v3_event_sig
    then (if leb 96 size then some (32, 64) else none)
    else some (0, 32)

abbrev pub amounts_of : List ℕ → Option (ℕ × ℕ) → ℕ × ℕ
amounts_of bs none = (0, 0)
amounts_of bs (some (i, j)) = (set_bytes (slice i (i + 32) bs), set_bytes (slice j (j + 32) bs))

abbrev pub topic0 : EthLib → List (List ℕ) → String
topic0 lib [] = ""
topic0 lib (t ∷ _) = lib.hash_hex t

-- x = L * 2^96 / sqrtPriceX96 and y = L * sqrtPriceX96 / 2^96, rounded down.
unfoldable pub virtual_reserves : ℕ → ℕ → ℕ × ℕ
virtual_reserves sqrt_price liquidity =
    (liquidity * 2 ^ 96 / sqrt_price, liquidity * sqrt_price / 2 ^ 96)

module _ (lib : EthLib) where
  unfoldable pub get_factory_address : EthLog → String
  unfolding factory_of_topic
  get_factory_address log = elim log.topics [ [] ↦ "" | t ∷ _ ↦ factory_of_topic (lib.hash_hex t) ]

  unfoldable pub parse_liquidity :
      (fl : Floats) → EthLog → UnifiedTransaction → String → Option (Liquidity fl.Float)
  unfolding amounts_at get_factory_address
  parse_liquidity fl log tx side =
      if ltb (length log.bytes) 64
      then none
      else let (amount0, amount1) =
          amounts_of log.bytes (amounts_at (topic0 lib log.topics) (length log.bytes)) in
        some (record {
          addr = lib.address_hex log.address;
          router = tx.to_address;
          factory = get_factory_address log;
          pool = lib.address_hex log.address;
          hash = tx.tx_hash;
          from = tx.from_address;
          side = side;
          amount = pos (amount0 + amount1);
          value = fl.add (fl.of_int (pos amount0)) (fl.of_int (pos amount1));
          time = tx.timestamp;
        })

  unfoldable pub parse_sync : EthLog → UnifiedTransaction → Option Reserve
  parse_sync log tx =
      if ltb (length log.bytes) 64
      then none
      else some (record {
        addr = lib.address_hex log.address;
        protocol = "uniswap_v2";
        amounts =
            (0, set_bytes (slice 0 32 log.bytes)) ∷ (1, set_bytes (slice 32 64 log.bytes)) ∷ [];
        time = tx.timestamp;
      })

  unfoldable pub parse_v3_reserve : EthLog → UnifiedTransaction → Option Reserve
  unfolding virtual_reserves
  parse_v3_reserve log tx =
      if ltb (length log.bytes) 160
      then none
      else let sqrt_price = set_bytes (slice 64 96 log.bytes) in
        let liquidity = set_bytes (slice 96 128 log.bytes) in
        if sqrt_price == 0 || liquidity == 0
        then none
        else let (amount0, amount1) = virtual_reserves sqrt_price liquidity in
          some (record {
            addr = lib.address_hex log.address;
            protocol = "uniswap_v3";
            amounts = (0, amount0) ∷ (1, amount1) ∷ [];
            time = tx.timestamp;
          })

abbrev pub Created : Type 0
Created = UniswapExtractor × Option Pool

unfoldable pub created_pool :
    UniswapExtractor → String → String → String → PoolMeta → ℤ → UnifiedTransaction → Created
created_pool u addr factory protocol m fee tx = (
  record u { seen_pools = insert addr m u.seen_pools },
  some (record {
    addr = addr;
    factory = factory;
    protocol = protocol;
    tokens = (0, m.token0) ∷ (1, m.token1) ∷ [];
    fee = fee;
    source = PoolSource.unset;
    extra = some (record { hash = tx.tx_hash; from = tx.from_address; time = tx.timestamp });
  }),
)

-- The address in the last 20 of the 32 bytes of a word.
abbrev pub address_in : EthLib → List ℕ → String
address_in lib word = lib.address_hex (drop (length word - 20) word)

module _ (lib : EthLib) where
  abbrev pair_of_topics : UniswapExtractor → EthLog → UnifiedTransaction → List (List ℕ) → Created
  pair_of_topics u log tx (_ ∷ t1 ∷ t2 ∷ _) =
      if ltb (length log.bytes) 64
      then (u, none)
      else created_pool u (address_in lib (slice 0 32 log.bytes)) uniswap_v2_factory_addr
          "uniswap_v2" (record { token0 = address_in lib t1; token1 = address_in lib t2 })
          (pos 3000) tx
  pair_of_topics u log tx _ = (u, none)

  unfoldable pub parse_v2_pair_created : UniswapExtractor → EthLog → UnifiedTransaction → Created
  unfolding created_pool
  parse_v2_pair_created u log tx = pair_of_topics u log tx log.topics

  abbrev pool_of_topics : UniswapExtractor → EthLog → UnifiedTransaction → List (List ℕ) → Created
  pool_of_topics u log tx (_ ∷ t1 ∷ t2 ∷ t3 ∷ _) =
      if ltb (length log.bytes) 64
      then (u, none)
      else created_pool u (address_in lib (slice 32 64 log.bytes)) uniswap_v3_factory_addr
          "uniswap_v3" (record { token0 = address_in lib t1; token1 = address_in lib t2 })
          (to_int64 (set_bytes t3)) tx
  pool_of_topics u log tx _ = (u, none)

  unfoldable pub parse_v3_pool_created : UniswapExtractor → EthLog → UnifiedTransaction → Created
  unfolding created_pool
  parse_v3_pool_created u log tx = pool_of_topics u log tx log.topics
