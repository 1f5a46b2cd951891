-- ===== src/Solana/Index.antt =====
-- The rows of PumpFun and PumpSwap have the index that the loop hands over, and SupportsBlock looks for every
-- event in which ExtractDexData finds something.
use chain_parse_service.Base.{
  ℕ, String, ◌≡◌, refl, ◌⊎◌, inl, inr, Bool, true, false, ◌&&◌, ◌||◌, Option, none, some, List, leb,
  ltb, length, take, drop, arith, if◌then◌else◌,
}
use chain_parse_service.Model.{Pool, Token, Transaction}
use chain_parse_service.Types.{UnifiedTransaction}
use chain_parse_service.Scan.{swap_or_nothing, found_nothing}
use chain_parse_service.Scan.Filter.{FindsConcerned}
use chain_parse_service.Scan.Keeps.{KeepsIndex, swap_keeps, liquidity_keeps, pool_keeps, either}
use chain_parse_service.Scan.Rows.{StampsIndex}
use chain_parse_service.Solana.Borsh.{SolanaLib, match_discriminator}
use chain_parse_service.Solana.PumpSwap.{
  buy_discriminator, sell_discriminator, create_pool_discriminator, deposit_discriminator,
  withdraw_discriminator, parse_buy_event, parse_sell_event, on_pump_swap_event, is_pump_swap_event,
  pump_swap,
}
use chain_parse_service.Solana.PumpFun.{
  SolanaFloats, trade_discriminator, create_discriminator, complete_discriminator,
  created_or_nothing, parse_trade_event, trade_of, on_discriminator, is_pump_fun_event, pump_fun,
}

created_keeps :
    {F : Type 0} (o : Option (Pool × Token)) (k : String × ℕ)
    → KeepsIndex {F = F} (created_or_nothing o) k
created_keeps none k = record { kept = tt }
created_keeps (some p) k = record { kept = tt }

swap_keeps_twice :
    {F : Type 0} (b c : Bool) (t : Transaction F) (k : String × ℕ)
    → (t.hash ≡ k.0) × (t.swap_index ≡ k.1)
    → KeepsIndex (swap_or_nothing (if b then none else if c then none else some t)) k
swap_keeps_twice true c t k h = record { kept = tt }
swap_keeps_twice false c t k h = swap_keeps c t k h

-- A case that does not match is passed over.
passed_over :
    {A : Type 0} (a b : Bool) (x y n : A)
    → (a || b) ≡ false
    → (b ≡ false → y ≡ n)
    → (if a then x else y) ≡ n
passed_over true b x y n h g = absurd (ground (arith, h))
passed_over false b x y n h g = g h

none_left : {A : Type 0} (a : Bool) (x n : A) → a ≡ false → (if a then x else n) ≡ n
none_left true x n h = absurd (ground (arith, h))
none_left false x n h = refl

unread : (l r : Bool) → (l && r) ≡ false → (l ≡ false) ⊎ (r ≡ false)
unread true r h = inr h
unread false r h = inl refl

module _ (fl : SolanaFloats) (lib : SolanaLib) where
  trade_keeps :
      (bs : List ℕ) (tx : UnifiedTransaction) (i k : ℕ)
      → KeepsIndex (swap_or_nothing (parse_trade_event fl lib bs tx i k)) (tx.tx_hash, k)
  unfolding parse_trade_event trade_of
  trade_keeps bs tx i k = swap_keeps_twice (ltb (length bs) 89) _ _ (tx.tx_hash, k) (refl, refl)

  pub pump_fun-StampsIndex : StampsIndex (pump_fun fl lib)
  unfolding on_discriminator
  pump_fun-StampsIndex tx i event k =
      let disc = take 8 event in
      either (match_discriminator disc trade_discriminator) _ _ (tx.tx_hash, k)
        (trade_keeps (drop 8 event) tx i k)
        (either (match_discriminator disc create_discriminator) _ _ (tx.tx_hash, k)
          (created_keeps _ (tx.tx_hash, k))
          (either (match_discriminator disc complete_discriminator) _ _ (tx.tx_hash, k)
            (liquidity_keeps _ (tx.tx_hash, k)) (record { kept = tt })))

  pub pump_fun-FindsConcerned : FindsConcerned (pump_fun fl lib)
  unfolding on_discriminator is_pump_fun_event
  pump_fun-FindsConcerned tx i event k h =
      let is = match_discriminator (take 8 event) in
      elim (unread (leb 8 (length event)) _ h) [
        | inl short ↦ inl short
        | inr foreign ↦ inr (
            passed_over (is trade_discriminator) _ _ _ found_nothing foreign (λ foreign'.
              passed_over (is create_discriminator) _ _ _ found_nothing foreign'
                (λ foreign''. none_left (is complete_discriminator) _ found_nothing foreign'')))
      ]

  swap_event_keeps :
      (bs : List ℕ) (tx : UnifiedTransaction) (i k : ℕ)
      → KeepsIndex (swap_or_nothing (parse_buy_event fl lib bs tx i k)) (tx.tx_hash, k)
        × KeepsIndex (swap_or_nothing (parse_sell_event fl lib bs tx i k)) (tx.tx_hash, k)
  unfolding parse_buy_event parse_sell_event
  swap_event_keeps bs tx i k =
      let short = ltb (length bs) 160 in
      (
        swap_keeps_twice short _ _ (tx.tx_hash, k) (refl, refl),
        swap_keeps_twice short _ _ (tx.tx_hash, k) (refl, refl),
      )

  pub pump_swap-StampsIndex : StampsIndex (pump_swap fl lib)
  unfolding on_pump_swap_event
  pump_swap-StampsIndex tx i event k =
      let is = match_discriminator (take 8 event) in
      let swaps = swap_event_keeps (drop 8 event) tx i k in
      either (is buy_discriminator) _ _ (tx.tx_hash, k) swaps.0
        (either (is sell_discriminator) _ _ (tx.tx_hash, k) swaps.1
          (either (is create_pool_discriminator) _ _ (tx.tx_hash, k) (pool_keeps _ (tx.tx_hash, k))
            (either (is deposit_discriminator) _ _ (tx.tx_hash, k)
              (liquidity_keeps _ (tx.tx_hash, k))
              (either (is withdraw_discriminator) _ _ (tx.tx_hash, k)
                (liquidity_keeps _ (tx.tx_hash, k)) (record { kept = tt })))))

  pub pump_swap-FindsConcerned : FindsConcerned (pump_swap fl lib)
  unfolding on_pump_swap_event is_pump_swap_event
  pump_swap-FindsConcerned tx i event k h =
      let is = match_discriminator (take 8 event) in
      elim (unread (leb 8 (length event)) _ h) [
        | inl short ↦ inl short
        | inr foreign ↦ inr (
            passed_over (is buy_discriminator) _ _ _ found_nothing foreign (λ h1.
              passed_over (is sell_discriminator) _ _ _ found_nothing h1 (λ h2.
                passed_over (is create_pool_discriminator) _ _ _ found_nothing h2 (λ h3.
                  passed_over (is deposit_discriminator) _ _ _ found_nothing h3
                    (λ h4. none_left (is withdraw_discriminator) _ found_nothing h4)))))
      ]
