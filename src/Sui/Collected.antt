-- ===== src/Sui/Collected.antt =====
-- The shape of what the Sui extractors collect: what holds of each find, and so of all data.
use mathlib.Core.Path.{subst}
use chain_parse_service.Base.{
  ℕ, ◌+◌, ◌*◌, ◌≤◌, ◌≡◌, sym, ap, ◌≢◌, List, [], ◌∷◌, ◌++◌, length, length-append, All, All-append,
  arith, str_eq, if_elim, if◌then◌else◌,
}
use chain_parse_service.Base.Dict.{Dict}
use chain_parse_service.Base.Int.{ℤ}
use chain_parse_service.Types.{sui}
use chain_parse_service.Sui.Rows.{
  Token, Transaction, Liquidity, SwapEventData, LiquidityEventData, SuiData, empty_sui_data, Env,
}
use chain_parse_service.Sui.Events.{Event, SuiTransaction, SuiBlock}
use chain_parse_service.Sui.Marks.{Marked}
use chain_parse_service.Sui.Loop.{
  Found, found_swap, found_liquidity, found_pool, found_nothing, add_found, SuiDex, add_to,
  scan_event, scan_events, scan_transactions, scan_blocks,
}

-- The two rows of a swap: the sale of one coin and the purchase of another.
pub record Mirrors {F : Type 0} (s b : Transaction F) : Type 0 where
  pub sold : s.side ≡ "sell"
  pub bought : b.side ≡ "buy"
  pub same_pool : s.pool ≡ b.pool
  pub same_hash : s.hash ≡ b.hash
  pub same_index : s.event_index ≡ b.event_index
  pub same_value : s.value ≡ b.value
  pub sold_named : s.addr ≢ ""
  pub bought_named : b.addr ≢ ""

-- The two rows of a change of liquidity, one for each coin.
pub record Sides {F : Type 0} (l m : Liquidity F) : Type 0 where
  pub same_side : l.side ≡ m.side
  pub same_pool : l.pool ≡ m.pool
  pub same_hash : l.hash ≡ m.hash
  pub first_named : l.addr ≢ ""
  pub second_named : m.addr ≢ ""

abbrev pub Paired : {A : Type 0} → (A → A → Type 0) → List A → Type 0
Paired R [] = Unit {0}
Paired R (x ∷ []) = ⊥
Paired R (x ∷ y ∷ xs) = R x y × Paired R xs

Paired-append :
    {A : Type 0} (R : A → A → Type 0) (xs : List A) (x y : A)
    → Paired R xs
    → R x y
    → Paired R (xs ++ (x ∷ y ∷ []))
Paired-append R [] x y h r = (r, tt)
Paired-append R (a ∷ []) x y h r = absurd h
Paired-append R (a ∷ b ∷ xs) x y h r = (h.0, Paired-append R xs x y h.1 r)

abbrev pub TwoTokens : Dict ℤ → List Token → Type 0
TwoTokens q ts = (t0 t1 : Token) × (ts ≡ t0 ∷ t1 ∷ []) × Marked q t0 × Marked q t1

append-Marked :
    (q : Dict ℤ) (ts us : List Token)
    → All (Marked q) ts
    → TwoTokens q us
    → All (Marked q) (ts ++ us)
append-Marked q ts us h (t0, t1, e, m0, m1) =
    subst (λ us'. All (Marked q) (ts ++ us')) (sym e)
      (All-append (Marked q) ts (t0 ∷ t1 ∷ []) h (m0, (m1, tt)))

module _ {F : Type 0} (q : Dict ℤ) where
  abbrev pub FoundValid : Found F → Type 0
  FoundValid (found_swap d) =
      TwoTokens q d.tokens × ((s b : Transaction F) × (d.transactions ≡ s ∷ b ∷ []) × Mirrors s b)
  FoundValid (found_liquidity d) =
      TwoTokens q d.tokens × ((l m : Liquidity F) × (d.liquidities ≡ l ∷ m ∷ []) × Sides l m)
  FoundValid _ = Unit {0}

  -- Each event with a pool gives a pool, a reserve, two marked tokens and two rows that belong
  -- together; other events give at most a pool.
  pub record IsCollected (d : SuiData F) : Type 0 where
    pub marked : All (Marked q) d.tokens
    pub swaps_paired : Paired Mirrors d.transactions
    pub liquidities_paired : Paired Sides d.liquidities
    pub tokens_counted : length d.tokens ≡ 2 * length d.reserves
    pub rows_counted : length d.transactions + length d.liquidities ≡ 2 * length d.reserves
    pub pools_counted : length d.reserves ≤ length d.pools

  pub empty_IsCollected : IsCollected empty_sui_data
  empty_IsCollected = record {
    marked = tt;
    swaps_paired = tt;
    liquidities_paired = tt;
    tokens_counted = omega arith;
    rows_counted = omega arith;
    pools_counted = omega arith;
  }

  add_swap-IsCollected :
      (d : SuiData F) (f : SwapEventData F)
      → IsCollected d
      → FoundValid (found_swap f)
      → IsCollected (add_found d (found_swap f))
  add_swap-IsCollected d f c (two, (s, b, e, mirrors)) = record {
    marked = append-Marked q d.tokens f.tokens c.marked two;
    swaps_paired =
        subst (λ ts. Paired Mirrors (d.transactions ++ ts)) (sym e)
          (Paired-append Mirrors d.transactions s b c.swaps_paired mirrors);
    liquidities_paired = c.liquidities_paired;
    tokens_counted = omega (
      arith,
      length-append d.tokens f.tokens,
      length-append d.reserves (f.reserve ∷ []),
      ap length two.2,
      c.tokens_counted,
    );
    rows_counted = omega (
      arith,
      length-append d.transactions f.transactions,
      length-append d.reserves (f.reserve ∷ []),
      ap length e,
      c.rows_counted,
    );
    pools_counted = omega (
      arith,
      length-append d.reserves (f.reserve ∷ []),
      length-append d.pools (f.pool ∷ []),
      c.pools_counted,
    );
  }

  add_liquidity-IsCollected :
      (d : SuiData F) (f : LiquidityEventData F)
      → IsCollected d
      → FoundValid (found_liquidity f)
      → IsCollected (add_found d (found_liquidity f))
  add_liquidity-IsCollected d f c (two, (l, m, e, sides)) = record {
    marked = append-Marked q d.tokens f.tokens c.marked two;
    swaps_paired = c.swaps_paired;
    liquidities_paired =
        subst (λ ls. Paired Sides (d.liquidities ++ ls)) (sym e)
          (Paired-append Sides d.liquidities l m c.liquidities_paired sides);
    tokens_counted = omega (
      arith,
      length-append d.tokens f.tokens,
      length-append d.reserves (f.reserve ∷ []),
      ap length two.2,
      c.tokens_counted,
    );
    rows_counted = omega (
      arith,
      length-append d.liquidities f.liquidities,
      length-append d.reserves (f.reserve ∷ []),
      ap length e,
      c.rows_counted,
    );
    pools_counted = omega (
      arith,
      length-append d.reserves (f.reserve ∷ []),
      length-append d.pools (f.pool ∷ []),
      c.pools_counted,
    );
  }

  add_found-IsCollected :
      (d : SuiData F) (f : Found F) → IsCollected d → FoundValid f → IsCollected (add_found d f)
  add_found-IsCollected d (found_swap f) c v = add_swap-IsCollected d f c v
  add_found-IsCollected d (found_liquidity f) c v = add_liquidity-IsCollected d f c v
  add_found-IsCollected d (found_pool p) c v = record {
    marked = c.marked;
    swaps_paired = c.swaps_paired;
    liquidities_paired = c.liquidities_paired;
    tokens_counted = c.tokens_counted;
    rows_counted = c.rows_counted;
    pools_counted = omega (arith, length-append d.pools (p ∷ []), c.pools_counted);
  }
  add_found-IsCollected d found_nothing c v = c

  -- A loop keeps what its switch keeps.
  module _ {S : Type 0} (x : SuiDex S F) (env : SuiTransaction F → ℕ → Env F)
      (Valid : S → Type 0) where
    abbrev pub KeepsValid : S × Found F → Type 0
    KeepsValid (s, f) = Valid s × FoundValid f

    module _
        (keeps : (s : S) (e : Env F) (event : Event F) (tx : SuiTransaction F)
          → Valid s
          → KeepsValid (x.found_in s e event tx)) where
      abbrev Ok : S × SuiData F → Type 0
      Ok (s, d) = Valid s × IsCollected d

      add_to-Ok : (d : SuiData F) (r : S × Found F) → IsCollected d → KeepsValid r → Ok (add_to d r)
      add_to-Ok d (s, f) c v = (v.0, add_found-IsCollected d f c v.1)

      scan_event-Ok :
          (e : Env F) (tx : SuiTransaction F) (c : S × SuiData F) (event : Event F)
          → Ok c
          → Ok (scan_event x e tx c event)
      unfolding scan_event
      scan_event-Ok e tx (s, d) event ok =
          if_elim Ok (x.concerns event) (add_to d (x.found_in s e event tx)) (s, d)
            (λ _. add_to-Ok d (x.found_in s e event tx) ok.1 (keeps s e event tx ok.0)) (λ _. ok)

      scan_events-Ok :
          (tx : SuiTransaction F) (i : ℕ) (c : S × SuiData F) (events : List (Event F))
          → Ok c
          → Ok (scan_events x env tx i c events)
      unfolding scan_events
      scan_events-Ok tx i c [] ok = ok
      scan_events-Ok tx i c (event ∷ events) ok =
          scan_events-Ok tx (i + 1) (scan_event x (env tx i) tx c event) events
            (scan_event-Ok (env tx i) tx c event ok)

      scan_transactions-Ok :
          (c : S × SuiData F) (txs : List (SuiTransaction F))
          → Ok c
          → Ok (scan_transactions x env c txs)
      unfolding scan_transactions
      scan_transactions-Ok c [] ok = ok
      scan_transactions-Ok c (tx ∷ txs) ok =
          scan_transactions-Ok (scan_events x env tx 0 c (x.events_of tx.raw)) txs
            (scan_events-Ok tx 0 c (x.events_of tx.raw) ok)

      pub scan_blocks-Ok :
          (c : S × SuiData F) (blocks : List (SuiBlock F)) → Ok c → Ok (scan_blocks x env c blocks)
      unfolding scan_blocks
      scan_blocks-Ok c [] ok = ok
      scan_blocks-Ok c (block ∷ blocks) ok =
          scan_blocks-Ok
            (if str_eq block.chain_type sui
              then scan_transactions x env c block.transactions
              else c)
            blocks
            (if_elim Ok (str_eq block.chain_type sui) (scan_transactions x env c block.transactions)
              c (λ _. scan_transactions-Ok c block.transactions ok) (λ _. ok))
