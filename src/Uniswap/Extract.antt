-- ===== src/Uniswap/Extract.antt =====
-- internal/parser/dexs/eth/uniswap.go: ExtractDexData and SupportsBlock. The clock and the clients
-- may change from log to log: `env` gives them for each. The tokens of a new pool, a Go map, are
-- visited in the order of their keys.
pub mod Filter
use chain_parse_service.Base.{
  ℕ, String, Bool, true, false, ◌+◌, ◌||◌, not, Option, none, some, List, [], ◌∷◌, ◌++◌, str_eq,
  if◌then◌else◌,
}
use chain_parse_service.Model.{Pool, Token, SwapRecord, Transaction, Liquidity, Reserve, token_at}
use chain_parse_service.Types.{
  UnifiedTransaction, UnifiedBlock, EthLog, DexData, empty_dex_data, ethereum,
}
use chain_parse_service.Cache
use chain_parse_service.Uniswap.Floats.{Floats}
use chain_parse_service.Uniswap.Logs.{
  EthLib, LogType, swap_v2, swap_v3, mint, burn, sync, pair_created, pool_created, unknown,
  extract_evm_logs, is_uniswap_log, get_log_type,
}
use chain_parse_service.Uniswap.State.{
  UniswapExtractor, Env, lazy_pool, fetch_token_meta, uniswap_v2_factory_addr,
  uniswap_v3_factory_addr,
}
use chain_parse_service.Uniswap.Swap.{parse_v2_swap, parse_v3_swap}
use chain_parse_service.Uniswap.Events.{
  parse_liquidity, parse_sync, parse_v3_reserve, parse_v2_pair_created, parse_v3_pool_created,
}

abbrev pub supported_chains : List String
supported_chains = ethereum ∷ []

-- IsChainSupported (base_extractor.go).
unfoldable pub is_chain_supported : List String → String → Bool
is_chain_supported [] chain = false
is_chain_supported (c ∷ chains) chain = str_eq c chain || is_chain_supported chains chain

-- What the loops carry: the caches, what is collected, and the index of the next swap.
pub record Scan (F : Type 0) : Type 0 where
  pub extractor : UniswapExtractor
  pub collected : DexData F
  pub swap_index : ℕ

module _ {F : Type 0} where
  abbrev pub add_pool : Scan F → UniswapExtractor × Option Pool → Scan F
  add_pool s (u, none) = record s { extractor = u }
  add_pool s (u, some p) = record s {
    extractor = u;
    collected = record (s.collected) { pools = s.collected.pools ++ p ∷ [] };
  }

  abbrev pub add_swap :
      Scan F → UniswapExtractor × Option (Transaction F × List SwapRecord) → Scan F
  add_swap s (u, none) = record s { extractor = u }
  add_swap s (u, some (t, records)) = record s {
    extractor = u;
    collected = record (s.collected) {
      transactions = s.collected.transactions ++ t ∷ [];
      swap_records = s.collected.swap_records ++ records;
    };
    swap_index = s.swap_index + 1;
  }

  abbrev pub add_reserve : Scan F → Option Reserve → Scan F
  add_reserve s none = s
  add_reserve s (some r) = record s {
    collected = record (s.collected) { reserves = s.collected.reserves ++ r ∷ [] };
  }

  abbrev pub add_liquidity : Scan F → Option (Liquidity F) → Scan F
  add_liquidity s none = s
  add_liquidity s (some l) = record s {
    collected = record (s.collected) { liquidities = s.collected.liquidities ++ l ∷ [] };
  }

  abbrev add_token : Scan F → UniswapExtractor × Token → Scan F
  add_token s (u, t) = record s {
    extractor = u;
    collected = record (s.collected) { tokens = s.collected.tokens ++ t ∷ [] };
  }

  abbrev token_unless : Scan F → Env → String → Option Token → Scan F
  token_unless s env addr (some _) = s
  token_unless s env addr none = add_token s (fetch_token_meta s.extractor env addr)

  unfoldable pub new_token : Scan F → Env → String → Scan F
  new_token s env addr =
      if str_eq addr ""
      then s
      else token_unless s env addr (Cache.get s.extractor.token_cache env.now addr)

  abbrev add_created : Scan F → Env → UniswapExtractor × Option Pool → Scan F
  add_created s env (u, none) = record s { extractor = u }
  add_created s env (u, some p) =
      new_token (new_token (add_pool s (u, some p)) env (token_at 0 p.tokens)) env
        (token_at 1 p.tokens)

module _ (fl : Floats) (lib : EthLib) where
  open fl use {Float}

  -- The switch over the type of a log.
  unfoldable pub on_log : Scan Float → Env → UnifiedTransaction → EthLog → LogType → Scan Float
  on_log s env tx log swap_v2 =
      let s' = add_swap s (parse_v2_swap fl lib s.extractor env log tx log.index s.swap_index) in
      add_pool s' (
        lazy_pool s'.extractor (lib.address_hex log.address) uniswap_v2_factory_addr "uniswap_v2"
          tx)
  on_log s env tx log swap_v3 =
      let s' = add_swap s (parse_v3_swap fl lib s.extractor env log tx log.index s.swap_index) in
      let s'' = add_reserve s' (parse_v3_reserve lib log tx) in
      add_pool s'' (
        lazy_pool s''.extractor (lib.address_hex log.address) uniswap_v3_factory_addr "uniswap_v3"
          tx)
  on_log s env tx log mint = add_liquidity s (parse_liquidity lib fl log tx "add")
  on_log s env tx log burn = add_liquidity s (parse_liquidity lib fl log tx "remove")
  on_log s env tx log sync = add_reserve s (parse_sync lib log tx)
  on_log s env tx log pair_created =
      add_created s env (parse_v2_pair_created lib s.extractor log tx)
  on_log s env tx log pool_created =
      add_created s env (parse_v3_pool_created lib s.extractor log tx)
  on_log s env tx log unknown = s

  unfoldable pub scan_log : Scan Float → Env → UnifiedTransaction → EthLog → Scan Float
  scan_log s env tx log =
      if is_uniswap_log lib log.topics then on_log s env tx log (get_log_type lib log.topics) else s

  unfoldable pub scan_logs :
      (UnifiedTransaction → EthLog → Env)
      → UnifiedTransaction
      → Scan Float
      → List EthLog
      → Scan Float
  scan_logs env tx s [] = s
  scan_logs env tx s (log ∷ logs) = scan_logs env tx (scan_log s (env tx log) tx log) logs

  -- The index of swaps starts again with each transaction.
  unfoldable pub scan_transactions :
      (UnifiedTransaction → EthLog → Env) → Scan Float → List UnifiedTransaction → Scan Float
  scan_transactions env s [] = s
  scan_transactions env s (tx ∷ txs) =
      scan_transactions env
        (scan_logs env tx (record s { swap_index = 0 }) (extract_evm_logs lib tx.raw_data)) txs

  unfoldable pub scan_blocks :
      (UnifiedTransaction → EthLog → Env) → Scan Float → List UnifiedBlock → Scan Float
  scan_blocks env s [] = s
  scan_blocks env s (block ∷ blocks) =
      let s' =
        if is_chain_supported supported_chains block.chain_type
        then scan_transactions env s block.transactions
        else s in
      scan_blocks env s' blocks

  unfoldable pub uniswap_extract_dex_data :
      UniswapExtractor
      → (UnifiedTransaction → EthLog → Env)
      → List UnifiedBlock
      → UniswapExtractor × DexData Float
  uniswap_extract_dex_data u env blocks =
      let s =
        scan_blocks env (record { extractor = u; collected = empty_dex_data; swap_index = 0 })
          blocks in
      (s.extractor, s.collected)

module _ (lib : EthLib) where
  unfoldable pub any_uniswap_log : List EthLog → Bool
  any_uniswap_log [] = false
  any_uniswap_log (log ∷ logs) = is_uniswap_log lib log.topics || any_uniswap_log logs

  unfoldable pub any_uniswap_transaction : List UnifiedTransaction → Bool
  unfolding any_uniswap_log
  any_uniswap_transaction [] = false
  any_uniswap_transaction (tx ∷ txs) =
      any_uniswap_log (extract_evm_logs lib tx.raw_data) || any_uniswap_transaction txs

  unfoldable pub supports_block : UnifiedBlock → Bool
  unfolding any_uniswap_transaction
  supports_block block =
      if is_chain_supported supported_chains block.chain_type
      then any_uniswap_transaction block.transactions
      else false
