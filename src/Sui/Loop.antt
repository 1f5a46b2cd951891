-- ===== src/Sui/Loop.antt =====
-- internal/parser/dexs/suidex: ExtractDexData and SupportsBlock, whose loops are the same in both
-- extractors. `S` is the state of an extractor. The clock and the client may change from event to
-- event: `env` gives them for the event at each position of a transaction.
use chain_parse_service.Base.{
  ℕ, ◌+◌, Bool, false, ◌||◌, Option, none, some, List, [], ◌∷◌, ◌++◌, str_eq, if◌then◌else◌,
}
use chain_parse_service.Common.{Numbers}
use chain_parse_service.Model.{Pool}
use chain_parse_service.Types.{sui}
use chain_parse_service.Sui.Rows.{
  SwapEventData, LiquidityEventData, SuiData, empty_sui_data, Env, CetusExtractor, BluefinExtractor,
}
use chain_parse_service.Sui.Values.{SuiFloats}
use chain_parse_service.Sui.Events.{
  Event, SuiRaw, SuiTransaction, SuiBlock, ThroughJson, cetus_events, bluefin_events,
}
use chain_parse_service.Sui.CetusTypes.{
  EventKind, swap, add_liquidity, remove_liquidity, pool_created, collect_fee, collect_reward,
  unknown,
}
use chain_parse_service.Sui.CetusPool.{is_cetus_event, get_event_type}
use chain_parse_service.Sui.Cetus.{cetus_swap_event, cetus_liquidity_event, cetus_pool_event}
use chain_parse_service.Sui.BluefinPool.{FeeOf, is_bluefin_event, bluefin_event_type}
use chain_parse_service.Sui.Bluefin.{
  bluefin_swap_event, bluefin_liquidity_event, bluefin_pool_event,
}

-- What the switch over the type of an event makes of it.
pub data Found (F : Type 0) : Type 0 where
  found_swap : SwapEventData F → Found F
  found_liquidity : LiquidityEventData F → Found F
  found_pool : Pool → Found F
  found_nothing : Found F

-- The parts that differ: where the events of a transaction come from, which of them concern the
-- extractor, the switch, and which blocks of Sui it supports.
pub record SuiDex (S F : Type 0) : Type 0 where
  pub events_of : SuiRaw F → List (Event F)
  pub concerns : Event F → Bool
  pub found_in : S → Env F → Event F → SuiTransaction F → S × Found F
  pub supports_transactions : List (SuiTransaction F) → Bool

module _ {F : Type 0} where
  abbrev pub add_found : SuiData F → Found F → SuiData F
  add_found d (found_swap s) = record d {
    pools = d.pools ++ (s.pool ∷ []);
    tokens = d.tokens ++ s.tokens;
    reserves = d.reserves ++ (s.reserve ∷ []);
    transactions = d.transactions ++ s.transactions;
  }
  add_found d (found_liquidity l) = record d {
    pools = d.pools ++ (l.pool ∷ []);
    tokens = d.tokens ++ l.tokens;
    reserves = d.reserves ++ (l.reserve ∷ []);
    liquidities = d.liquidities ++ l.liquidities;
  }
  add_found d (found_pool p) = record d { pools = d.pools ++ (p ∷ []) }
  add_found d found_nothing = d

module _ {S F : Type 0} where
  -- What is carried: the state of the extractor and the data that is collected.
  abbrev pub add_to : SuiData F → S × Found F → S × SuiData F
  add_to d (s, found) = (s, add_found d found)

module _ {S F : Type 0} (x : SuiDex S F) where
  unfoldable pub scan_event : Env F → SuiTransaction F → S × SuiData F → Event F → S × SuiData F
  scan_event env tx (s, d) event =
      if x.concerns event then add_to d (x.found_in s env event tx) else (s, d)

  unfoldable pub scan_events :
      (SuiTransaction F → ℕ → Env F)
      → SuiTransaction F
      → ℕ
      → S × SuiData F
      → List (Event F)
      → S × SuiData F
  unfolding scan_event
  scan_events env tx i c [] = c
  scan_events env tx i c (event ∷ events) =
      scan_events env tx (i + 1) (scan_event (env tx i) tx c event) events

  unfoldable pub scan_transactions :
      (SuiTransaction F → ℕ → Env F) → S × SuiData F → List (SuiTransaction F) → S × SuiData F
  unfolding scan_events
  scan_transactions env c [] = c
  scan_transactions env c (tx ∷ txs) =
      scan_transactions env (scan_events env tx 0 c (x.events_of tx.raw)) txs

  unfoldable pub scan_blocks :
      (SuiTransaction F → ℕ → Env F) → S × SuiData F → List (SuiBlock F) → S × SuiData F
  unfolding scan_transactions
  scan_blocks env c [] = c
  scan_blocks env c (block ∷ blocks) =
      scan_blocks env
        (if str_eq block.chain_type sui then scan_transactions env c block.transactions else c)
        blocks

  -- `wired` says whether a Sui client is set; `none` is the error.
  unfoldable pub sui_extract_dex_data :
      Bool → (SuiTransaction F → ℕ → Env F) → S → List (SuiBlock F) → Option (S × SuiData F)
  unfolding scan_blocks
  sui_extract_dex_data wired env s blocks =
      if wired then some (scan_blocks env (s, empty_sui_data) blocks) else none

  unfoldable pub sui_supports_block : SuiBlock F → Bool
  sui_supports_block block =
      if str_eq block.chain_type sui then x.supports_transactions block.transactions else false

abbrev pub swap_or_nothing : {S F : Type 0} → S × Option (SwapEventData F) → S × Found F
swap_or_nothing (s, none) = (s, found_nothing)
swap_or_nothing (s, some d) = (s, found_swap d)

abbrev pub liquidity_or_nothing : {S F : Type 0} → S × Option (LiquidityEventData F) → S × Found F
liquidity_or_nothing (s, none) = (s, found_nothing)
liquidity_or_nothing (s, some d) = (s, found_liquidity d)

abbrev pub pool_or_nothing : {S F : Type 0} → S × Option Pool → S × Found F
pool_or_nothing (s, none) = (s, found_nothing)
pool_or_nothing (s, some p) = (s, found_pool p)

module _ {F : Type 0} where
  unfoldable pub any_cetus_event : List (Event F) → Bool
  any_cetus_event [] = false
  any_cetus_event (event ∷ events) = is_cetus_event event || any_cetus_event events

  unfoldable pub any_cetus_transaction : ThroughJson F → List (SuiTransaction F) → Bool
  unfolding any_cetus_event
  any_cetus_transaction json [] = false
  any_cetus_transaction json (tx ∷ txs) =
      any_cetus_event (cetus_events json tx.raw) || any_cetus_transaction json txs

module _ {F : Type 0} (fl : SuiFloats F) (lib : Numbers F) where
  unfoldable pub on_cetus_event :
      CetusExtractor → Env F → Event F → SuiTransaction F → EventKind → CetusExtractor × Found F
  on_cetus_event c env event tx swap = swap_or_nothing (cetus_swap_event fl lib c env event tx)
  on_cetus_event c env event tx add_liquidity =
      liquidity_or_nothing (cetus_liquidity_event fl lib c env event tx "add")
  on_cetus_event c env event tx remove_liquidity =
      liquidity_or_nothing (cetus_liquidity_event fl lib c env event tx "remove")
  on_cetus_event c env event tx pool_created =
      pool_or_nothing (c, cetus_pool_event fl lib env event)
  on_cetus_event c env event tx collect_fee = (c, found_nothing)
  on_cetus_event c env event tx collect_reward = (c, found_nothing)
  on_cetus_event c env event tx unknown = (c, found_nothing)

  abbrev pub cetus : ThroughJson F → SuiDex CetusExtractor F
  cetus json = record {
    events_of = cetus_events json;
    concerns = is_cetus_event;
    found_in = λ c env event tx. on_cetus_event c env event tx (get_event_type event);
    supports_transactions = any_cetus_transaction json;
  }

  unfoldable pub on_bluefin_event :
      FeeOf F
      → BluefinExtractor F
      → Env F
      → Event F
      → SuiTransaction F
      → EventKind
      → BluefinExtractor F × Found F
  on_bluefin_event fee b env event tx swap =
      swap_or_nothing (bluefin_swap_event fl lib fee b env event tx)
  on_bluefin_event fee b env event tx add_liquidity =
      liquidity_or_nothing (bluefin_liquidity_event fl lib fee b env event tx "add")
  on_bluefin_event fee b env event tx remove_liquidity =
      liquidity_or_nothing (bluefin_liquidity_event fl lib fee b env event tx "remove")
  on_bluefin_event fee b env event tx pool_created =
      pool_or_nothing (bluefin_pool_event fl lib fee b env event)
  on_bluefin_event fee b env event tx _ = (b, found_nothing)

  abbrev pub bluefin : FeeOf F → SuiDex (BluefinExtractor F) F
  bluefin fee = record {
    events_of = bluefin_events;
    concerns = is_bluefin_event;
    found_in = λ b env event tx. on_bluefin_event fee b env event tx (bluefin_event_type event);
    supports_transactions = λ txs. Bool.true;
  }
