-- ===== src/Solana/Tests.antt =====
-- A trade of PumpFun.
use chain_parse_service.Base.{refl, true, [], ◌∷◌, arith}
use chain_parse_service.Uniswap.Examples.{tx}
use chain_parse_service.Solana.PumpFun.{parse_trade_event}
use chain_parse_service.Solana.RoundTrip.{IsTrade, parse_trade_event-trade_bytes}
use chain_parse_service.Solana.Examples.{whole_sol, key, trade, sol}

parse_trade_event-trade_bytes_example :
    IsTrade whole_sol sol
      (parse_trade_event whole_sol sol trade tx 3 1)
      "mint"
      5000000000
      300
      true
      "mint"
      1700000000
parse_trade_event-trade_bytes_example =
    parse_trade_event-trade_bytes whole_sol sol key key (9 ∷ []) 5000000000 300 1700000000 true tx 3
      1 refl refl refl refl (omega arith) (omega arith) (omega arith) (omega arith)
