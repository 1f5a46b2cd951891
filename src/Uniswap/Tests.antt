-- ===== src/Uniswap/Tests.antt =====
-- Runs of the extractor, and its theorems at concrete inputs.
use chain_parse_service.Base.{ℕ, ◌≡◌, refl, ap, ◌≢◌, true, none, some, [], ◌∷◌, arith, select, map}
use chain_parse_service.Base.Dict.{Dict, NodupKeys, lookup}
use chain_parse_service.Base.Int.{pos, negsuc, pos_part}
use chain_parse_service.Uniswap.Bytes.{word_of}
use chain_parse_service.Uniswap.State.{PoolMeta, get_quote_asset_rank}
use chain_parse_service.Uniswap.Text.{to_lower}
use chain_parse_service.Uniswap.Swap.{v2_event, v3_event, parse_v2_swap, parse_v3_swap}
use chain_parse_service.Uniswap.Swap.Decode.{IsV3Leg, ReadsV2, ReadsV3, paid_of, v3_event-words}
use chain_parse_service.Uniswap.Swap.DoubleEntry.{Parse, parse_v2_swap-Parse, parse_v3_swap-Parse}
use chain_parse_service.Uniswap.Worker.{PoolReply, resolve_pending_pool, pool_of_reply}
use chain_parse_service.Uniswap.Worker.Flush.{
  Swap, Flushed, knowing, message_of, resolve_pending_pool_flush,
}
use chain_parse_service.Uniswap.Events.{parse_v3_reserve}
use chain_parse_service.Uniswap.Events.Reserves.{AreReserves, parse_v3_reserve-words}
use chain_parse_service.Uniswap.Extract.{uniswap_extract_dex_data, supports_block}
use chain_parse_service.Uniswap.Extract.Filter.{uniswap_extract_dex_data-select}
use chain_parse_service.Uniswap.Examples.{whole, eth, paid, signed, tx, fresh, offline, blocks}

v3_event-words_example :
    IsV3Leg (pos 7) (v3_event whole eth signed).leg0
    × IsV3Leg (negsuc 8) (v3_event whole eth signed).leg1
    × ((v3_event whole eth signed).amount_in ≡ paid_of (pos 7) (negsuc 8))
v3_event-words_example =
    v3_event-words whole eth signed (pos 7) (negsuc 8) (5 ∷ 6 ∷ 1 ∷ []) refl (omega arith)
      (omega arith)

parse_v2_swap-Parse_example :
    Parse whole eth 128
      (v2_event whole eth paid)
      fresh
      offline
      paid
      tx
      4
      (parse_v2_swap whole eth fresh offline paid tx 4 0)
    × ReadsV2 paid (v2_event whole eth paid)
parse_v2_swap-Parse_example = parse_v2_swap-Parse whole eth fresh offline paid tx 4 0

parse_v3_swap-Parse_example :
    Parse whole eth 160
      (v3_event whole eth signed)
      fresh
      offline
      signed
      tx
      4
      (parse_v3_swap whole eth fresh offline signed tx 4 0)
    × ReadsV3 signed (v3_event whole eth signed)
parse_v3_swap-Parse_example = parse_v3_swap-Parse whole eth fresh offline signed tx 4 0

usdc_above_weth :
    get_quote_asset_rank fresh (to_lower "usdc") ≢ get_quote_asset_rank fresh (to_lower "weth")
unfolding get_quote_asset_rank lookup to_lower
usdc_above_weth e = let apart : 100 ≡ 80 = ap pos_part e in absurd (omega (arith, apart))

abbrev reply : PoolReply
reply = record { token0 = some "weth"; token1 = some "usdc"; fee = none }

abbrev waiting : Swap ℕ
waiting = (v2_event whole eth paid, tx, 4)

reply_resolves :
    pool_of_reply "uniswap_v2" reply ≡ some (record { token0 = "weth"; token1 = "usdc" }, pos 3000)
unfolding pool_of_reply
reply_resolves = refl

resolve_pending_pool_flush_example :
    Flushed
      (knowing fresh "0xpool" (record { token0 = "weth"; token1 = "usdc" }))
      offline
      (record { token0 = "weth"; token1 = "usdc" })
      (waiting ∷ [])
      (resolve_pending_pool fresh offline
        (some reply)
        (some true)
        "0xpool"
        (map message_of (waiting ∷ [])))
    × (lookup "0xpool"
          (resolve_pending_pool {F = ℕ} fresh offline
            (some reply)
            (some true)
            "0xpool"
            (map message_of (waiting ∷ []))).extractor.seen_pools
        ≡ some (record { token0 = "weth"; token1 = "usdc" }))
unfolding v2_event
resolve_pending_pool_flush_example =
    resolve_pending_pool_flush fresh offline reply true "0xpool" waiting []
      (record { token0 = "weth"; token1 = "usdc" }) (pos 3000) reply_resolves

parse_v3_reserve-words_example :
    (x : ℕ) × (y : ℕ) × (parse_v3_reserve eth signed tx
      ≡ some (record {
        addr = "0xpool";
        protocol = "uniswap_v3";
        amounts = (0, x) ∷ (1, y) ∷ [];
        time = 100;
      }))
    × AreReserves 5 6 x y
parse_v3_reserve-words_example =
    parse_v3_reserve-words eth signed tx (word_of (pos 7)) (word_of (negsuc 8)) 5 6 1 refl
      (omega arith) (omega arith) (omega arith) (omega arith)

uniswap_extract_dex_data-select_example :
    uniswap_extract_dex_data whole eth fresh (λ _ _. offline) (select (supports_block eth) blocks)
    ≡ uniswap_extract_dex_data whole eth fresh (λ _ _. offline) blocks
uniswap_extract_dex_data-select_example =
    uniswap_extract_dex_data-select whole eth (λ _ _. offline) fresh blocks

abbrev stored_pools : Dict PoolMeta
stored_pools =
    ("0xpool", record { token0 = "weth"; token1 = "usdc" })
    ∷ ("0xhalf", record { token0 = "weth"; token1 = "" })
    ∷ []

stored_pools_once : NodupKeys stored_pools
unfolding lookup
stored_pools_once = (refl, (refl, tt))
