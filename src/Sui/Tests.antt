-- ===== src/Sui/Tests.antt =====
-- A pool of SUI and USDC, a swap on Cetus and a change of liquidity. Floats are whole numbers.
use chain_parse_service.Base.{
  ℕ, ◌*◌, ◌/◌, String, ◌≡◌, refl, Bool, true, none, some, List, [], ◌∷◌, map, ltb, ◌==◌, str_eq,
  select, All, if◌then◌else◌,
}
use chain_parse_service.Base.Int.{pos, pos_part}
use chain_parse_service.Base.Decimal.{parse_int}
use chain_parse_service.Common.{text, bool, items, Numbers}
use chain_parse_service.Types.{raw_other}
use chain_parse_service.Sui.Rows.{
  empty_sui_data, Token, SuiObject, Env, new_cetus_extractor, new_bluefin_extractor,
  set_cetus_assets, set_bluefin_assets,
}
use chain_parse_service.Sui.Values.{SuiFloats}
use chain_parse_service.Sui.Events.{
  plain, fields, Event, SuiTransaction, SuiBlock, raw_map, ThroughJson, cetus_events,
}
use chain_parse_service.Sui.CetusPool.{is_cetus_event, get_event_type}
use chain_parse_service.Sui.Cetus.{cetus_swap_event}
use chain_parse_service.Base.Strings.{join, contains_text}
use chain_parse_service.Uniswap.Text.{to_lower}
use chain_parse_service.Sui.BluefinPool.{FeeOf, get_pool_object}
use chain_parse_service.Sui.Loop.{
  scan_blocks, on_cetus_event, sui_extract_dex_data, sui_supports_block, cetus, bluefin,
}
use chain_parse_service.Sui.Filter.{sui_extract_dex_data-select_both}
use chain_parse_service.Sui.Collected.{IsCollected}
use chain_parse_service.Sui.Runs.{Call, collected_by, collected_by-IsCollected_both}
use chain_parse_service.Sui.Staleness.{Request, after, ServedBy, get_pool_object-ServedBy}

abbrev whole : SuiFloats ℕ
whole = record {
  zero = 0;
  quo = λ a n. pos_part a / n;
  mul = λ x y. x * y;
  div = λ x y. x / y;
  is_positive = λ x. ltb 0 x;
  is_zero = λ x. x == 0;
}

abbrev numbers : Numbers ℕ
numbers = record {
  set_string = parse_int;
  parse_int = parse_int;
  to_int64 = λ x. pos x;
  nonzero = λ x. ltb 0 x;
  parse_float = λ s. none;
  of_int = pos_part;
  zero = 0;
}

abbrev usdc : String
usdc = "0xdba34672e30cb065b1f93e3ab55318768fd6fef66c15942c9f7cb846e2f900e7::usdc::USDC"

abbrev pool_object : SuiObject ℕ
pool_object = record {
  object_type =
      "0x1::pool::Pool<0x2::sui::SUI, 0xdba34672e30cb065b1f93e3ab55318768fd6fef66c15942c9f7cb846e2f900e7::usdc::USDC>";
  fields = none;
}

abbrev node : ℕ → Env ℕ
node now = record {
  now = now;
  get_object = λ id. if str_eq id "0xp" then some pool_object else none;
  get_token = λ coin. some (record { symbol = coin; decimals = pos 0; name = coin });
}

abbrev cetus_event : Event ℕ
cetus_event =
    (
      "type",
      plain "0x1eabed72c53feb3805120a081dc15963c204dc8d091542592abaf7a35689b2fb::pool::SwapEvent",
    )
    ∷ ("sender", plain "0xs")
    ∷ (
      "parsedJson",
      fields (
          ("pool", text "0xp")
          ∷ ("amount_in", text "2")
          ∷ ("amount_out", text "6")
          ∷ ("atob", bool true)
          ∷ []),
    )
    ∷ []

abbrev swap_tx : SuiTransaction ℕ
swap_tx = record {
  base = record {
    tx_hash = "0xh";
    block_number = some (pos 7);
    tx_index = 0;
    from_address = "0xs";
    to_address = "";
    timestamp = 9;
    raw_data = raw_other;
  };
  raw = raw_map (some (items (none ∷ some cetus_event ∷ [])));
}

abbrev blocks : List (SuiBlock ℕ)
blocks =
    record { chain_type = "sui"; transactions = swap_tx ∷ [] }
    ∷ record { chain_type = "sui"; transactions = [] }
    ∷ []

abbrev no_json : ThroughJson ℕ
no_json raw = none

abbrev fee : FeeOf ℕ
fee v = pos (v / 100)

-- The sale of SUI and the purchase of USDC, both worth 6.
swap_rows :
    map {B = String × ℕ}
      (λ t. (t.side, t.value))
      (scan_blocks
        (cetus whole numbers no_json)
        (λ tx i. node i)
        (new_cetus_extractor, empty_sui_data)
        blocks).1.transactions
    ≡ ("sell", 6) ∷ ("buy", 6) ∷ []
unfolding scan_blocks on_cetus_event cetus_events is_cetus_event get_event_type cetus_swap_event
    parse_int join contains_text to_lower
swap_rows = refl

sui_extract_dex_data-select_both_example :
    (sui_extract_dex_data
        (cetus whole numbers no_json)
        true
        (λ tx i. node i)
        new_cetus_extractor
        (select (sui_supports_block (cetus whole numbers no_json)) blocks)
      ≡ sui_extract_dex_data
          (cetus whole numbers no_json)
          true
          (λ tx i. node i)
          new_cetus_extractor
          blocks)
    × (sui_extract_dex_data
          (bluefin whole numbers fee)
          true
          (λ tx i. node i)
          new_bluefin_extractor
          (select (sui_supports_block (bluefin whole numbers fee)) blocks)
        ≡ sui_extract_dex_data
            (bluefin whole numbers fee)
            true
            (λ tx i. node i)
            new_bluefin_extractor
            blocks)
sui_extract_dex_data-select_both_example =
    sui_extract_dex_data-select_both whole numbers (λ tx i. node i) no_json fee true
      new_cetus_extractor new_bluefin_extractor blocks

abbrev calls : List (Call ℕ)
calls =
    record { env = λ tx i. node i; blocks = blocks }
    ∷ record { env = λ tx i. node 5; blocks = blocks }
    ∷ []

collected_by-IsCollected_both_example :
    All
      (IsCollected (set_cetus_assets new_cetus_extractor []).quote_assets)
      (collected_by (cetus whole numbers no_json) (set_cetus_assets new_cetus_extractor []) calls)
    × All (IsCollected (set_cetus_assets new_cetus_extractor []).quote_assets) (
        collected_by
          (bluefin whole numbers fee)
          (set_bluefin_assets new_bluefin_extractor [])
          calls)
collected_by-IsCollected_both_example =
    collected_by-IsCollected_both whole numbers no_json fee [] calls

abbrev coin : String → Bool → Token
coin addr stable = record {
  addr = addr;
  symbol = "";
  decimals = pos 0;
  name = "";
  is_stable = stable;
}

-- The second request comes a second after the first.
abbrev first : Request ℕ
first = record { env = node 0; pool_id = "0xp" }

abbrev second : Request ℕ
second = record { env = node 1000000000; pool_id = "0xp" }

served : (get_pool_object (after (first ∷ [])) (node 1000000000) "0xp").1 ≡ some pool_object
unfolding get_pool_object after
served = refl

get_pool_object-ServedBy_example : ServedBy (second ∷ first ∷ []) 1000000000 "0xp" pool_object
get_pool_object-ServedBy_example = get_pool_object-ServedBy (first ∷ []) second pool_object served
