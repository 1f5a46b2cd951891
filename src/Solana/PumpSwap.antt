-- ===== src/Solana/PumpSwap.antt =====
-- internal/parser/dexs/solanadex/pumpswap.go. Fields of an event that nothing uses are still read,
-- since the offsets of the later ones depend on them.
use chain_parse_service.Base.{
  ℕ, String, Bool, ◌&&◌, ◌||◌, Option, none, some, List, [], ◌∷◌, ltb, leb, length, take, drop,
  str_eq, if◌then◌else◌,
}
use chain_parse_service.Base.Int.{pos}
use chain_parse_service.Model.{Pool, PoolSource, Transaction, Liquidity}
use chain_parse_service.Types.{UnifiedTransaction, solana}
use chain_parse_service.Uniswap.Extract.{is_chain_supported}
use chain_parse_service.Uniswap.Records.{get_block_number}
use chain_parse_service.Scan.{
  Found, found_nothing, LogExtractor, swap_or_nothing, liquidity_or_nothing, pool_or_nothing,
}
use chain_parse_service.Solana.Borsh.{SolanaLib, parse_pubkey, parse_u64_le, match_discriminator}
use chain_parse_service.Solana.Events.{extract_solana_event_data}
use chain_parse_service.Solana.PumpFun.{SolanaFloats, lamports_to_sol}

abbrev pub pump_swap_program_id : String
pump_swap_program_id = "pAMMBay6oceH9fJKBRHGP5D4bD4sWpmSwMn52FMfXEA"

abbrev pub buy_discriminator : List ℕ
buy_discriminator = 103 ∷ 244 ∷ 82 ∷ 31 ∷ 44 ∷ 245 ∷ 119 ∷ 119 ∷ []

abbrev pub sell_discriminator : List ℕ
sell_discriminator = 62 ∷ 47 ∷ 55 ∷ 10 ∷ 165 ∷ 3 ∷ 220 ∷ 42 ∷ []

abbrev pub create_pool_discriminator : List ℕ
create_pool_discriminator = 177 ∷ 49 ∷ 12 ∷ 210 ∷ 160 ∷ 118 ∷ 167 ∷ 116 ∷ []

abbrev pub deposit_discriminator : List ℕ
deposit_discriminator = 120 ∷ 248 ∷ 61 ∷ 83 ∷ 31 ∷ 142 ∷ 107 ∷ 144 ∷ []

abbrev pub withdraw_discriminator : List ℕ
withdraw_discriminator = 22 ∷ 9 ∷ 133 ∷ 26 ∷ 160 ∷ 44 ∷ 71 ∷ 192 ∷ []

module _ (lib : SolanaLib) where
  unfoldable pub parse_create_pool_event : List ℕ → UnifiedTransaction → Option Pool
  unfolding parse_pubkey parse_u64_le
  parse_create_pool_event bs tx =
      if ltb (length bs) 184
      then none
      else let (creator, off1) = parse_pubkey lib bs 0 in
        let (base_mint, off2) = parse_pubkey lib bs off1 in
        let (quote_mint, off3) = parse_pubkey lib bs off2 in
        let (lp_token_amount_out, off4) = parse_u64_le bs off3 in
        let (pool, off5) = parse_pubkey lib bs off4 in
        if str_eq pool "" || (str_eq base_mint "" || str_eq quote_mint "")
        then none
        else some (record {
          addr = pool;
          factory = pump_swap_program_id;
          protocol = "pumpswap";
          tokens = (0, base_mint) ∷ (1, quote_mint) ∷ [];
          fee = pos 30;
          source = PoolSource.unset;
          extra = some (record { hash = tx.tx_hash; from = creator; time = tx.timestamp });
        })

  -- What SupportsBlock looks for.
  unfoldable pub is_pump_swap_event : List ℕ → Bool
  unfolding match_discriminator
  is_pump_swap_event event =
      let disc = take 8 event in
      leb 8 (length event)
      && (match_discriminator disc buy_discriminator
          || (match_discriminator disc sell_discriminator
              || (match_discriminator disc create_pool_discriminator
                  || (match_discriminator disc deposit_discriminator
                      || match_discriminator disc withdraw_discriminator))))

module _ (fl : SolanaFloats) (lib : SolanaLib) where
  open fl use {Float, zero, ratio, over, twice}

  -- The body of parseBuyEvent and parseSellEvent, which differ in the side.
  abbrev swap_event : String → List ℕ → UnifiedTransaction → ℕ → ℕ → Option (Transaction Float)
  swap_event side bs tx event_idx swap_idx =
      if ltb (length bs) 160
      then none
      else let (base_amount, off1) = parse_u64_le bs 0 in
        let (quote_amount, off2) = parse_u64_le bs off1 in
        let (lp_fee, off3) = parse_u64_le bs off2 in
        let (protocol_fee, off4) = parse_u64_le bs off3 in
        let (pool, off5) = parse_pubkey lib bs off4 in
        let (user, off6) = parse_pubkey lib bs off5 in
        let (base_mint, off7) = parse_pubkey lib bs off6 in
        if str_eq pool "" || str_eq base_mint ""
        then none
        else some (record {
          addr = base_mint;
          protocol = "";
          router = pump_swap_program_id;
          factory = pump_swap_program_id;
          pool = pool;
          hash = tx.tx_hash;
          from = user;
          side = side;
          amount = pos quote_amount;
          price = if ltb 0 base_amount then over (ratio quote_amount base_amount) 1000 else zero;
          value = lamports_to_sol fl lib quote_amount;
          time = tx.timestamp;
          event_index = event_idx;
          tx_index = tx.tx_index;
          swap_index = swap_idx;
          block_number = get_block_number tx;
        })

  unfoldable pub parse_buy_event : List ℕ → UnifiedTransaction → ℕ → ℕ → Option (Transaction Float)
  unfolding parse_pubkey parse_u64_le lamports_to_sol
  parse_buy_event = swap_event "buy"

  unfoldable pub parse_sell_event : List ℕ → UnifiedTransaction → ℕ → ℕ → Option (Transaction Float)
  unfolding parse_pubkey parse_u64_le lamports_to_sol
  parse_sell_event = swap_event "sell"

  -- The row of a deposit or withdrawal, unless the pool is empty.
  abbrev liquidity_row :
      String → ℕ → String → String → UnifiedTransaction → Option (Liquidity Float)
  liquidity_row side quote_amount pool user tx =
      if str_eq pool ""
      then none
      else some (record {
        addr = pool;
        router = pump_swap_program_id;
        factory = pump_swap_program_id;
        pool = pool;
        hash = tx.tx_hash;
        from = user;
        side = side;
        amount = pos quote_amount;
        value = twice (lamports_to_sol fl lib quote_amount);
        time = tx.timestamp;
      })

  unfoldable pub parse_deposit_event : List ℕ → UnifiedTransaction → Option (Liquidity Float)
  unfolding parse_pubkey parse_u64_le lamports_to_sol
  parse_deposit_event bs tx =
      if ltb (length bs) 88
      then none
      else let (base_amount_in, off1) = parse_u64_le bs 0 in
        let (quote_amount_in, off2) = parse_u64_le bs off1 in
        let (lp_token_amount_out, off3) = parse_u64_le bs off2 in
        let (pool, off4) = parse_pubkey lib bs off3 in
        let (user, off5) = parse_pubkey lib bs off4 in
        liquidity_row "add" quote_amount_in pool user tx

  unfoldable pub parse_withdraw_event : List ℕ → UnifiedTransaction → Option (Liquidity Float)
  unfolding parse_pubkey parse_u64_le lamports_to_sol
  parse_withdraw_event bs tx =
      if ltb (length bs) 88
      then none
      else let (lp_token_amount_in, off1) = parse_u64_le bs 0 in
        let (base_amount_out, off2) = parse_u64_le bs off1 in
        let (quote_amount_out, off3) = parse_u64_le bs off2 in
        let (pool, off4) = parse_pubkey lib bs off3 in
        let (user, off5) = parse_pubkey lib bs off4 in
        liquidity_row "remove" quote_amount_out pool user tx

  -- The switch of ExtractDexData, on the first eight bytes of an event.
  unfoldable pub on_pump_swap_event : List ℕ → List ℕ → UnifiedTransaction → ℕ → ℕ → Found Float
  unfolding match_discriminator parse_buy_event parse_sell_event parse_create_pool_event
      parse_deposit_event parse_withdraw_event
  on_pump_swap_event disc bs tx i k =
      if match_discriminator disc buy_discriminator
      then swap_or_nothing (parse_buy_event bs tx i k)
      else if match_discriminator disc sell_discriminator
      then swap_or_nothing (parse_sell_event bs tx i k)
      else if match_discriminator disc create_pool_discriminator
      then pool_or_nothing (parse_create_pool_event lib bs tx)
      else if match_discriminator disc deposit_discriminator
      then liquidity_or_nothing (parse_deposit_event bs tx)
      else if match_discriminator disc withdraw_discriminator
      then liquidity_or_nothing (parse_withdraw_event bs tx)
      else found_nothing

  abbrev pub pump_swap : LogExtractor (List ℕ) Float
  pump_swap = record {
    supports_chain = is_chain_supported (solana ∷ []);
    logs_of = extract_solana_event_data lib;
    reads = λ event. leb 8 (length event);
    concerns = is_pump_swap_event lib;
    found_in = λ tx i event k. on_pump_swap_event (take 8 event) (drop 8 event) tx i k;
  }
