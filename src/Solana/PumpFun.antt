-- ===== src/Solana/PumpFun.antt =====
-- internal/parser/dexs/solanadex/pumpfun.go.
use chain_parse_service.Base.{
  ℕ, String, Bool, ◌&&◌, ◌||◌, Option, none, some, List, [], ◌∷◌, ltb, leb, length, take, drop,
  str_eq, if◌then◌else◌,
}
use chain_parse_service.Base.Int.{ℤ, pos, pos_part, ltb_ℤ}
use chain_parse_service.Model.{Pool, PoolSource, Token, Transaction, Liquidity}
use chain_parse_service.Types.{UnifiedTransaction, solana}
use chain_parse_service.Uniswap.Extract.{is_chain_supported}
use chain_parse_service.Uniswap.Records.{get_block_number}
use chain_parse_service.Scan.{
  Found, found_created, found_nothing, LogExtractor, swap_or_nothing, liquidity_or_nothing,
}
use chain_parse_service.Solana.Borsh.{
  SolanaLib, parse_pubkey, parse_u64_le, parse_bool, parse_i64_le, parse_string,
  match_discriminator,
}
use chain_parse_service.Solana.Events.{extract_solana_event_data}

-- What PumpFun and PumpSwap use of `float64`: `ratio a b` is `float64(a) / float64(b)`, `over x n` is `x / n`,
-- `twice x` is `x * 2`.
pub record SolanaFloats : Type 1 where
  pub Float : Type 0
  pub zero : Float
  pub ratio : ℕ → ℕ → Float
  pub over : Float → ℕ → Float
  pub twice : Float → Float

abbrev pub pump_fun_program_id : String
pump_fun_program_id = "6EF8rrecthR5Dkzon8Nwu78hRvfCKubJ14M5uBEwF6P"

abbrev pub create_discriminator : List ℕ
create_discriminator = 27 ∷ 114 ∷ 169 ∷ 77 ∷ 222 ∷ 235 ∷ 99 ∷ 118 ∷ []

abbrev pub trade_discriminator : List ℕ
trade_discriminator = 189 ∷ 219 ∷ 127 ∷ 211 ∷ 78 ∷ 230 ∷ 97 ∷ 238 ∷ []

abbrev pub complete_discriminator : List ℕ
complete_discriminator = 95 ∷ 114 ∷ 97 ∷ 156 ∷ 212 ∷ 46 ∷ 152 ∷ 8 ∷ []

-- The event's own time where it is positive, else that of the transaction.
abbrev pub event_time : ℤ → UnifiedTransaction → ℕ
event_time timestamp tx = if ltb_ℤ (pos 0) timestamp then pos_part timestamp else tx.timestamp

abbrev pub created_or_nothing : {F : Type 0} → Option (Pool × Token) → Found F
created_or_nothing none = found_nothing
created_or_nothing (some (p, t)) = found_created p t

module _ (lib : SolanaLib) where
  unfoldable pub parse_create_event : List ℕ → UnifiedTransaction → Option (Pool × Token)
  unfolding parse_string parse_pubkey
  parse_create_event bs tx =
      if ltb (length bs) 108
      then none
      else let (name, off1) = parse_string lib bs 0 in
        let (symbol, off2) = parse_string lib bs off1 in
        let (uri, off3) = parse_string lib bs off2 in
        let (mint, off4) = parse_pubkey lib bs off3 in
        let (bonding_curve, off5) = parse_pubkey lib bs off4 in
        let (user, off6) = parse_pubkey lib bs off5 in
        if str_eq mint "" || str_eq bonding_curve ""
        then none
        else some (
          record {
            addr = bonding_curve;
            factory = pump_fun_program_id;
            protocol = "pumpfun";
            tokens = (0, mint) ∷ (1, "So11111111111111111111111111111111") ∷ [];
            fee = pos 100;
            source = PoolSource.unset;
            extra = some (record { hash = tx.tx_hash; from = user; time = tx.timestamp });
          },
          record { addr = mint; name = name; symbol = symbol; decimals = pos 6 },
        )

module _ (fl : SolanaFloats) (lib : SolanaLib) where
  open fl use {Float, zero, ratio, over}

  unfoldable pub lamports_to_sol : ℕ → Float
  lamports_to_sol lamports = ratio lamports 1000000000

  -- The row of a trade with these fields, unless a key is empty.
  unfoldable pub trade_of :
      String → ℕ → ℕ → Bool → String → ℤ → UnifiedTransaction → ℕ → ℕ → Option (Transaction Float)
  unfolding lamports_to_sol
  trade_of mint sol_amount token_amount is_buy user timestamp tx event_idx swap_idx =
      if str_eq mint "" || str_eq user ""
      then none
      else some (record {
        addr = mint;
        protocol = "";
        router = pump_fun_program_id;
        factory = pump_fun_program_id;
        pool = mint;
        hash = tx.tx_hash;
        from = user;
        side = if is_buy then "buy" else "sell";
        amount = pos sol_amount;
        price = if ltb 0 token_amount then over (ratio sol_amount token_amount) 1000 else zero;
        value = lamports_to_sol sol_amount;
        time = event_time timestamp tx;
        event_index = event_idx;
        tx_index = tx.tx_index;
        swap_index = swap_idx;
        block_number = get_block_number tx;
      })

  unfoldable pub parse_trade_event :
      List ℕ → UnifiedTransaction → ℕ → ℕ → Option (Transaction Float)
  unfolding parse_pubkey parse_u64_le parse_bool parse_i64_le trade_of
  parse_trade_event bs tx event_idx swap_idx =
      if ltb (length bs) 89
      then none
      else let (mint, off1) = parse_pubkey lib bs 0 in
        let (sol_amount, off2) = parse_u64_le bs off1 in
        let (token_amount, off3) = parse_u64_le bs off2 in
        let (is_buy, off4) = parse_bool bs off3 in
        let (user, off5) = parse_pubkey lib bs off4 in
        let (timestamp, off6) = parse_i64_le bs off5 in
        trade_of mint sol_amount token_amount is_buy user timestamp tx event_idx swap_idx

  unfoldable pub parse_complete_event : List ℕ → UnifiedTransaction → Option (Liquidity Float)
  unfolding parse_pubkey parse_i64_le
  parse_complete_event bs tx =
      if ltb (length bs) 104
      then none
      else let (user, off1) = parse_pubkey lib bs 0 in
        let (mint, off2) = parse_pubkey lib bs off1 in
        let (bonding_curve, off3) = parse_pubkey lib bs off2 in
        let (timestamp, off4) = parse_i64_le bs off3 in
        if str_eq mint "" || str_eq bonding_curve ""
        then none
        else some (record {
          addr = bonding_curve;
          router = pump_fun_program_id;
          factory = pump_fun_program_id;
          pool = bonding_curve;
          hash = tx.tx_hash;
          from = user;
          side = "graduate";
          amount = pos 0;
          value = zero;
          time = event_time timestamp tx;
        })

  -- The switch of ExtractDexData, on the first eight bytes of an event.
  unfoldable pub on_discriminator : List ℕ → List ℕ → UnifiedTransaction → ℕ → ℕ → Found Float
  unfolding match_discriminator parse_trade_event parse_create_event parse_complete_event
  on_discriminator disc bs tx i k =
      if match_discriminator disc trade_discriminator
      then swap_or_nothing (parse_trade_event bs tx i k)
      else if match_discriminator disc create_discriminator
      then created_or_nothing (parse_create_event lib bs tx)
      else if match_discriminator disc complete_discriminator
      then liquidity_or_nothing (parse_complete_event bs tx)
      else found_nothing

  -- What SupportsBlock looks for.
  unfoldable pub is_pump_fun_event : List ℕ → Bool
  unfolding match_discriminator
  is_pump_fun_event event =
      let disc = take 8 event in
      leb 8 (length event)
      && (match_discriminator disc trade_discriminator
          || (match_discriminator disc create_discriminator
              || match_discriminator disc complete_discriminator))

  abbrev pub pump_fun : LogExtractor (List ℕ) Float
  pump_fun = record {
    supports_chain = is_chain_supported (solana ∷ []);
    logs_of = extract_solana_event_data lib;
    reads = λ event. leb 8 (length event);
    concerns = is_pump_fun_event;
    found_in = λ tx i event k. on_discriminator (take 8 event) (drop 8 event) tx i k;
  }
