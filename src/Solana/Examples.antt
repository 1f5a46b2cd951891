-- ===== src/Solana/Examples.antt =====
-- Concrete parameters, and a trade of PumpFun.
use chain_parse_service.Base.{ℕ, ◌*◌, ◌/◌, true, List, [], ◌∷◌, ◌++◌}
use chain_parse_service.Solana.Borsh.{SolanaLib}
use chain_parse_service.Solana.PumpFun.{SolanaFloats, trade_discriminator}
use chain_parse_service.Solana.RoundTrip.{trade_bytes}

abbrev pub whole_sol : SolanaFloats
whole_sol = record {
  Float = ℕ;
  zero = 0;
  ratio = λ a b. a / b;
  over = λ x n. x / n;
  twice = λ x. 2 * x;
}

abbrev pub key : List ℕ
key =
    1 ∷ 2 ∷ 3 ∷ 4 ∷ 5 ∷ 6 ∷ 7 ∷ 8 ∷ 9 ∷ 10 ∷ 11 ∷ 12 ∷ 13 ∷ 14 ∷ 15 ∷ 16 ∷ 17 ∷ 18 ∷ 19 ∷ 20 ∷ 21
    ∷ 22 ∷ 23 ∷ 24 ∷ 25 ∷ 26 ∷ 27 ∷ 28 ∷ 29 ∷ 30 ∷ 31 ∷ 32 ∷ []

abbrev pub trade : List ℕ
trade = trade_bytes key 5000000000 300 true key 1700000000 (9 ∷ [])

abbrev pub sol : SolanaLib
sol = record {
  base58 = λ _. "mint";
  decode_base64 = λ _. (true, trade_discriminator ++ trade);
  utf8 = λ _. "";
}
