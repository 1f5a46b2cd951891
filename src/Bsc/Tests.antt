-- ===== src/Bsc/Tests.antt =====
-- A V3 swap of PancakeSwap.
use chain_parse_service.Base.{Option, some, ◌≡◌, [], ◌∷◌, arith}
use chain_parse_service.Base.Int.{ℤ, pos, negsuc}
use chain_parse_service.Uniswap.Bytes.{word_of}
use chain_parse_service.Uniswap.Examples.{whole, eth, paid, tx}
use chain_parse_service.Uniswap.Swap.Decode.{words}
use chain_parse_service.Bsc.PancakeSwap.{parse_v3_swap}
use chain_parse_service.Bsc.Rows.{amount_of, parse_v3_swap-words}

parse_v3_swap-words_example :
    let amount : ℤ → ℤ → Option ℤ = λ x y. amount_of whole eth (
      parse_v3_swap whole eth
        (record paid { bytes = words (word_of x ∷ word_of y ∷ 5 ∷ 6 ∷ 1 ∷ []) })
        tx
        4
        0) in
    (amount (pos 7) (negsuc 8) ≡ some (pos 7))
    × ((amount (negsuc 7) (pos 8) ≡ some (pos 8)) × (amount (pos 0) (pos 8) ≡ some (pos 0)))
parse_v3_swap-words_example =
    parse_v3_swap-words whole eth paid tx 4 0 7 8 (5 ∷ 6 ∷ 1 ∷ []) (omega arith) (omega arith)
      (omega arith)
