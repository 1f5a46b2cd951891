-- ===== src/Bsc/FourMeme.antt =====
-- internal/parser/dexs/bsc/fourmeme.go, and ConvertDecimals of internal/parser/dexs/utils.go.
use chain_parse_service.Base.{
  ℕ, ◌+◌, ◌^◌, String, Bool, false, ◌&&◌, ◌||◌, not, ◌==◌, Option, none, some, [], ◌∷◌, ltb, length,
  str_eq, if◌then◌else◌,
}
use chain_parse_service.Base.Int.{ℤ, pos}
use chain_parse_service.Model.{Pool, PoolSource, Transaction, Liquidity}
use chain_parse_service.Types.{UnifiedTransaction, EthLog, bsc}
use chain_parse_service.Uniswap.Bytes.{set_bytes, slice}
use chain_parse_service.Uniswap.Floats.{Floats, calc_price, is_zero_ℤ}
use chain_parse_service.Uniswap.Logs.{EthLib, extract_evm_logs}
use chain_parse_service.Uniswap.Events.{topic0, address_in}
use chain_parse_service.Uniswap.Records.{get_block_number}
use chain_parse_service.Uniswap.Text.{to_lower}
use chain_parse_service.Scan.{
  Found, found_nothing, LogExtractor, swap_or_nothing, liquidity_or_nothing, pool_or_nothing,
}

abbrev pub four_meme_v1_addr : String
four_meme_v1_addr = "0xEC4549caDcE5DA21Df6E6422d448034B5233bFbC"

abbrev pub four_meme_v2_addr : String
four_meme_v2_addr = "0x5c952063c7fc8610FFDB798152D69F0B9550762b"

abbrev pub v2_token_create_sig : String
v2_token_create_sig = "0x396d5e902b675b032348d3d2e9517ee8f0c4a926603fbc075d3d282ff00cad20"

abbrev pub v2_token_purchase_sig : String
v2_token_purchase_sig = "0x7db52723a3b2cdd6164364b3b766e65e540d7be48ffa89582956d8eaebe62942"

abbrev pub v2_token_sale_sig : String
v2_token_sale_sig = "0x0a5575b3648bae2210cee56bf33254cc1ddfbc7bf637c0af2ac18b14fb1bae19"

abbrev pub v2_liquidity_added_sig : String
v2_liquidity_added_sig = "0xc18aa71171b358b706fe3dd345299685ba21a5316c66ffa9e319268b033c44b0"

abbrev pub v1_token_create_sig : String
v1_token_create_sig = "0xc60523754e4c8d044ae75f841c3a7f27fefeed24c086155510c2ae0edf538fa0"

abbrev pub v1_token_purchase_sig : String
v1_token_purchase_sig = "0x623b3804fa71d67900d064613da8f94b9617215ee90799290593e1745087ad18"

abbrev pub v1_token_sale_sig : String
v1_token_sale_sig = "0x3aa3f154f6bf5e3490d1a7205aa8d1412e76d26f9d186830de86fb9309224040"

unfoldable pub is_four_meme_topic : String → Bool
is_four_meme_topic t =
    str_eq t v2_token_create_sig
    || (str_eq t v2_token_purchase_sig
        || (str_eq t v2_token_sale_sig
            || (str_eq t v2_liquidity_added_sig
                || (str_eq t v1_token_create_sig
                    || (str_eq t v1_token_purchase_sig || str_eq t v1_token_sale_sig)))))

module _ (lib : EthLib) where
  unfoldable pub contract_version : EthLog → ℕ
  unfolding to_lower
  contract_version log =
      let addr = to_lower (lib.address_hex log.address) in
      if str_eq addr (to_lower four_meme_v1_addr)
      then 1
      else if str_eq addr (to_lower four_meme_v2_addr)
      then 2
      else 0

  unfoldable pub is_four_meme_log : EthLog → Bool
  unfolding to_lower is_four_meme_topic
  is_four_meme_log log =
      let addr = to_lower (lib.address_hex log.address) in
      elim log.topics [
        | [] ↦ false
        | t ∷ _ ↦
            if not (str_eq addr (to_lower four_meme_v1_addr))
              && not (str_eq addr (to_lower four_meme_v2_addr))
            then false
            else is_four_meme_topic (lib.hash_hex t)
      ]

  abbrev word_address : ℕ → EthLog → String
  word_address i log = address_in lib (slice i (i + 32) log.bytes)

  -- The pool that a TokenCreate event of the contract `factory` gives.
  abbrev token_created : String → ℕ → EthLog → UnifiedTransaction → Option Pool
  token_created factory size log tx =
      if ltb (length log.bytes) size
      then none
      else some (record {
        addr = word_address 32 log;
        factory = factory;
        protocol = "fourmeme";
        tokens = (0, word_address 32 log) ∷ [];
        fee = pos 0;
        source = PoolSource.unset;
        extra = some (record { hash = tx.tx_hash; from = word_address 0 log; time = tx.timestamp });
      })

  unfoldable pub parse_v2_token_create : EthLog → UnifiedTransaction → Option Pool
  parse_v2_token_create = token_created four_meme_v2_addr 256

  unfoldable pub parse_v1_token_create : EthLog → UnifiedTransaction → Option Pool
  parse_v1_token_create = token_created four_meme_v1_addr 224

module _ (fl : Floats) (lib : EthLib) where
  open fl use {Float, zero, is_nan_or_inf, quo}

  unfoldable pub convert_decimals : ℤ → ℕ → Float
  convert_decimals amount decimals =
      if is_zero_ℤ amount
      then zero
      else let d = if ltb 77 decimals then 77 else decimals in
        let f = quo amount (pos (10 ^ d)) in if is_nan_or_inf f then zero else f

  unfoldable pub wei_to_float : ℕ → Float
  unfolding convert_decimals
  wei_to_float wei = if wei == 0 then zero else convert_decimals (pos wei) 18

  abbrev word : ℕ → EthLog → ℕ
  word i log = set_bytes (slice i (i + 32) log.bytes)

  abbrev trade_row :
      String → String → ℕ → Float → ℕ → EthLog → UnifiedTransaction → ℕ → ℕ → Transaction Float
  trade_row contract side amount price cost log tx log_idx swap_idx = record {
    addr = word_address lib 0 log;
    protocol = "";
    router = contract;
    factory = contract;
    pool = word_address lib 0 log;
    hash = tx.tx_hash;
    from = word_address lib 32 log;
    side = side;
    amount = pos amount;
    price = price;
    value = wei_to_float cost;
    time = tx.timestamp;
    event_index = log_idx;
    tx_index = tx.tx_index;
    swap_index = swap_idx;
    block_number = get_block_number tx;
  }

  -- parseV2Purchase and parseV2Sale, which differ in the side.
  abbrev v2_trade : String → EthLog → UnifiedTransaction → ℕ → ℕ → Option (Transaction Float)
  v2_trade side log tx log_idx swap_idx =
      if ltb (length log.bytes) 256
      then none
      else some (
          trade_row four_meme_v2_addr side (word 96 log) (wei_to_float (word 64 log)) (word 128 log)
            log tx log_idx swap_idx)

  unfoldable pub parse_v2_purchase :
      EthLog → UnifiedTransaction → ℕ → ℕ → Option (Transaction Float)
  parse_v2_purchase = v2_trade "buy"

  unfoldable pub parse_v2_sale : EthLog → UnifiedTransaction → ℕ → ℕ → Option (Transaction Float)
  parse_v2_sale = v2_trade "sell"

  -- parseV1Purchase and parseV1Sale, which differ in the side.
  abbrev v1_trade : String → EthLog → UnifiedTransaction → ℕ → ℕ → Option (Transaction Float)
  v1_trade side log tx log_idx swap_idx =
      if ltb (length log.bytes) 128
      then none
      else let token_amount = word 64 log in
        let ether_amount = word 96 log in
        some (
          trade_row four_meme_v1_addr side token_amount
            (calc_price fl (pos ether_amount) (pos token_amount)) ether_amount log tx log_idx
            swap_idx)

  unfoldable pub parse_v1_purchase :
      EthLog → UnifiedTransaction → ℕ → ℕ → Option (Transaction Float)
  parse_v1_purchase = v1_trade "buy"

  unfoldable pub parse_v1_sale : EthLog → UnifiedTransaction → ℕ → ℕ → Option (Transaction Float)
  parse_v1_sale = v1_trade "sell"

  unfoldable pub parse_v2_liquidity_added : EthLog → UnifiedTransaction → Option (Liquidity Float)
  unfolding wei_to_float
  parse_v2_liquidity_added log tx =
      if ltb (length log.bytes) 128
      then none
      else some (record {
        addr = word_address lib 0 log;
        router = four_meme_v2_addr;
        factory = four_meme_v2_addr;
        pool = word_address lib 0 log;
        hash = tx.tx_hash;
        from = tx.from_address;
        side = "add";
        amount = pos (word 32 log);
        value = wei_to_float (word 96 log);
        time = tx.timestamp;
      })

  -- The switch of ExtractDexData, on the signature of the event and the version of the contract.
  unfoldable pub on_topic : String → ℕ → UnifiedTransaction → ℕ → EthLog → ℕ → Found Float
  unfolding parse_v2_purchase parse_v2_sale parse_v1_purchase parse_v1_sale parse_v2_token_create
      parse_v1_token_create parse_v2_liquidity_added
  on_topic t version tx i log k =
      if str_eq t v2_token_purchase_sig && version == 2
      then swap_or_nothing (parse_v2_purchase log tx i k)
      else if str_eq t v2_token_sale_sig && version == 2
      then swap_or_nothing (parse_v2_sale log tx i k)
      else if str_eq t v1_token_purchase_sig && version == 1
      then swap_or_nothing (parse_v1_purchase log tx i k)
      else if str_eq t v1_token_sale_sig && version == 1
      then swap_or_nothing (parse_v1_sale log tx i k)
      else if str_eq t v2_token_create_sig && version == 2
      then pool_or_nothing (parse_v2_token_create lib log tx)
      else if str_eq t v1_token_create_sig && version == 1
      then pool_or_nothing (parse_v1_token_create lib log tx)
      else if str_eq t v2_liquidity_added_sig && version == 2
      then liquidity_or_nothing (parse_v2_liquidity_added log tx)
      else found_nothing

  abbrev pub four_meme : LogExtractor EthLog Float
  four_meme = record {
    supports_chain = λ chain. str_eq chain bsc;
    logs_of = λ tx. extract_evm_logs lib tx.raw_data;
    reads = is_four_meme_log lib;
    concerns = is_four_meme_log lib;
    found_in = λ tx i log k. on_topic (topic0 lib log.topics) (contract_version lib log) tx i log k;
  }
