-- ===== src/Uniswap/Examples.antt =====
-- Concrete parameters, logs and blocks, on which the theorems about the extractor are run.
use chain_parse_service.Base.{
  ℕ, String, false, none, some, [], ◌∷◌, List, if◌then◌else◌, ◌*◌, ◌+◌, ◌==◌,
}
use chain_parse_service.Base.Int.{pos, negsuc, pos_part}
use chain_parse_service.Types.{UnifiedTransaction, UnifiedBlock, EthLog, raw_logs, ethereum}
use chain_parse_service.Cache.{new_cache}
use chain_parse_service.PendingQueue.{new_memory}
use chain_parse_service.Uniswap.Bytes.{word_of}
use chain_parse_service.Uniswap.Floats.{Floats}
use chain_parse_service.Uniswap.Logs.{EthLib, swap_v2_event_sig}
use chain_parse_service.Uniswap.State.{UniswapExtractor, Env}
use chain_parse_service.Uniswap.Swap.Decode.{words}

-- Whole numbers in place of floating point.
abbrev pub whole : Floats
whole = record {
  Float = ℕ;
  zero = 0;
  is_zero = λ n. n == 0;
  is_nan_or_inf = λ _. false;
  quo = λ a b. pos_part a;
  square_ratio = λ a b. pos_part a;
  of_int = pos_part;
  mul = λ a b. a * b;
  add = λ a b. a + b;
}

abbrev pub signature : List ℕ → String
signature [] = ""
signature (b ∷ _) = if b == 1 then swap_v2_event_sig else ""

abbrev pub eth : EthLib
eth = record {
  hash_hex = signature;
  address_hex = λ _. "0xpool";
  hex_to_address = λ _. [];
  hex_to_hash = λ _. [];
  from_hex = λ _. [];
  zero_address = [];
  zero_hash = [];
}

abbrev pub log_with : List ℕ → List ℕ → EthLog
log_with topic bytes = record { address = []; topics = topic ∷ []; bytes = bytes; index = 4 }

abbrev pub paid : EthLog
paid = log_with (1 ∷ []) (words (7 ∷ 0 ∷ 0 ∷ 9 ∷ []))

abbrev pub signed : EthLog
signed = log_with [] (words (word_of (pos 7) ∷ word_of (negsuc 8) ∷ 5 ∷ 6 ∷ 1 ∷ []))

abbrev pub tx : UnifiedTransaction
tx = record {
  tx_hash = "0x1";
  block_number = some (pos 12);
  tx_index = 0;
  from_address = "alice";
  to_address = "router";
  timestamp = 100;
  raw_data = raw_logs (paid ∷ []);
}

abbrev pub fresh : UniswapExtractor
fresh = record {
  seen_pools = [];
  token_cache = new_cache 1000;
  pending_queue = some (new_memory 10 100 3);
  quote_assets = ("usdc", pos 100) ∷ ("weth", pos 80) ∷ [];
}

abbrev pub offline : Env
offline = record { now = 50; redis = none; eth_client = none }

abbrev pub blocks : List UnifiedBlock
blocks =
    record { block_number = pos 12; chain_type = ethereum; transactions = tx ∷ [] }
    ∷ record { block_number = pos 13; chain_type = "bsc"; transactions = tx ∷ [] }
    ∷ []
