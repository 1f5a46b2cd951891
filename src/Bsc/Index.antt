-- ===== src/Bsc/Index.antt =====
-- The rows of swaps of PancakeSwap and FourMeme have the index that the loop hands over.
use chain_parse_service.Base.{ℕ, String, inl, ◌&&◌, ◌==◌, str_eq, refl, ltb, length}
use chain_parse_service.Types.{UnifiedTransaction, EthLog}
use chain_parse_service.Uniswap.Floats.{Floats}
use chain_parse_service.Uniswap.Logs.{EthLib}
use chain_parse_service.Scan.{swap_or_nothing}
use chain_parse_service.Bsc.PancakeSwap.Topics.{
  PancakeLogType, pancake_swap_v2, pancake_swap_v3, pancake_mint, pancake_burn,
  pancake_pair_created, pancake_pool_created, pancake_unknown, pancake_log_type,
}
use chain_parse_service.Bsc.PancakeSwap.{pancake_swap, on_log_type, parse_v2_swap, parse_v3_swap}
use chain_parse_service.Bsc.FourMeme.{
  four_meme, v2_token_create_sig, v2_token_purchase_sig, v2_token_sale_sig, v2_liquidity_added_sig,
  v1_token_create_sig, v1_token_purchase_sig, v1_token_sale_sig, on_topic, parse_v2_purchase,
  parse_v2_sale, parse_v1_purchase, parse_v1_sale,
}
use chain_parse_service.Scan.Filter.{FindsConcerned}
use chain_parse_service.Scan.Keeps.{swap_keeps, liquidity_keeps, pool_keeps, either, KeepsIndex}
use chain_parse_service.Scan.Rows.{StampsIndex}

module _ (fl : Floats) (lib : EthLib) where
  on_log_type-KeepsIndex :
      (t : PancakeLogType) (tx : UnifiedTransaction) (log : EthLog) (k : ℕ)
      → KeepsIndex (on_log_type fl lib t tx log k) (tx.tx_hash, k)
  unfolding on_log_type parse_v2_swap parse_v3_swap
  on_log_type-KeepsIndex pancake_swap_v2 tx log k =
      swap_keeps (ltb (length log.bytes) 128) _ (tx.tx_hash, k) (refl, refl)
  on_log_type-KeepsIndex pancake_swap_v3 tx log k =
      swap_keeps (ltb (length log.bytes) 160) _ (tx.tx_hash, k) (refl, refl)
  on_log_type-KeepsIndex pancake_mint tx log k = liquidity_keeps _ (tx.tx_hash, k)
  on_log_type-KeepsIndex pancake_burn tx log k = liquidity_keeps _ (tx.tx_hash, k)
  on_log_type-KeepsIndex pancake_pair_created tx log k = pool_keeps _ (tx.tx_hash, k)
  on_log_type-KeepsIndex pancake_pool_created tx log k = pool_keeps _ (tx.tx_hash, k)
  on_log_type-KeepsIndex pancake_unknown tx log k = record { kept = tt }

  v2_keeps :
      (log : EthLog) (tx : UnifiedTransaction) (i k : ℕ)
      → KeepsIndex (swap_or_nothing (parse_v2_purchase fl lib log tx i k)) (tx.tx_hash, k)
        × KeepsIndex (swap_or_nothing (parse_v2_sale fl lib log tx i k)) (tx.tx_hash, k)
  unfolding parse_v2_purchase parse_v2_sale
  v2_keeps log tx i k =
      let long = ltb (length log.bytes) 256 in
      (
        swap_keeps long _ (tx.tx_hash, k) (refl, refl),
        swap_keeps long _ (tx.tx_hash, k) (refl, refl),
      )

  v1_keeps :
      (log : EthLog) (tx : UnifiedTransaction) (i k : ℕ)
      → KeepsIndex (swap_or_nothing (parse_v1_purchase fl lib log tx i k)) (tx.tx_hash, k)
        × KeepsIndex (swap_or_nothing (parse_v1_sale fl lib log tx i k)) (tx.tx_hash, k)
  unfolding parse_v1_purchase parse_v1_sale
  v1_keeps log tx i k =
      let long = ltb (length log.bytes) 128 in
      (
        swap_keeps long _ (tx.tx_hash, k) (refl, refl),
        swap_keeps long _ (tx.tx_hash, k) (refl, refl),
      )

  on_topic-KeepsIndex :
      (t : String) (version : ℕ) (tx : UnifiedTransaction) (i : ℕ) (log : EthLog) (k : ℕ)
      → KeepsIndex (on_topic fl lib t version tx i log k) (tx.tx_hash, k)
  unfolding on_topic
  on_topic-KeepsIndex t version tx i log k =
      let v2 = v2_keeps log tx i k in
      let v1 = v1_keeps log tx i k in
      either (str_eq t v2_token_purchase_sig && version == 2) _ _ (tx.tx_hash, k) v2.0
        (either (str_eq t v2_token_sale_sig && version == 2) _ _ (tx.tx_hash, k) v2.1
          (either (str_eq t v1_token_purchase_sig && version == 1) _ _ (tx.tx_hash, k) v1.0
            (either (str_eq t v1_token_sale_sig && version == 1) _ _ (tx.tx_hash, k) v1.1
              (either (str_eq t v2_token_create_sig && version == 2) _ _ (tx.tx_hash, k)
                (pool_keeps _ (tx.tx_hash, k))
                (either (str_eq t v1_token_create_sig && version == 1) _ _ (tx.tx_hash, k)
                  (pool_keeps _ (tx.tx_hash, k))
                  (either (str_eq t v2_liquidity_added_sig && version == 2) _ _ (tx.tx_hash, k)
                    (liquidity_keeps _ (tx.tx_hash, k)) (record { kept = tt })))))))

  pub pancake_swap-StampsIndex : StampsIndex (pancake_swap fl lib)
  pancake_swap-StampsIndex tx i log k = on_log_type-KeepsIndex (pancake_log_type lib log) tx log k

  pub four_meme-StampsIndex : StampsIndex (four_meme fl lib)
  four_meme-StampsIndex tx i log k = on_topic-KeepsIndex _ _ tx i log k

  pub pancake_swap-FindsConcerned : FindsConcerned (pancake_swap fl lib)
  pancake_swap-FindsConcerned tx i log k h = inl h

  pub four_meme-FindsConcerned : FindsConcerned (four_meme fl lib)
  four_meme-FindsConcerned tx i log k h = inl h
