-- ===== src/Sui/Runs.antt =====
-- The calls of ExtractDexData on one Sui extractor, one after the other, with the same client.
use chain_parse_service.Base.{ℕ, refl, List, [], ◌∷◌, All}
use chain_parse_service.Base.Dict.{Dict, lookup}
use chain_parse_service.Base.Int.{ℤ}
use chain_parse_service.Common.{Numbers}
use chain_parse_service.Sui.Rows.{
  SuiData, empty_sui_data, Env, new_cetus_extractor, new_bluefin_extractor, set_cetus_assets,
  set_bluefin_assets,
}
use chain_parse_service.Sui.Values.{SuiFloats}
use chain_parse_service.Sui.Events.{Event, SuiTransaction, SuiBlock, ThroughJson}
use chain_parse_service.Sui.CetusPool.{get_event_type}
use chain_parse_service.Sui.BluefinPool.{FeeOf, bluefin_event_type}
use chain_parse_service.Sui.Loop.{SuiDex, scan_blocks, cetus, bluefin}
use chain_parse_service.Sui.Collected.{IsCollected, FoundValid, scan_blocks-Ok, empty_IsCollected}
use chain_parse_service.Sui.CetusKeeps.{CetusValid, on_cetus_event-CetusValid}
use chain_parse_service.Sui.BluefinPoolKeeps.{BluefinValid}
use chain_parse_service.Sui.BluefinKeeps.{on_bluefin_event-BluefinValid}

-- A call with its blocks, and the answers of the node during it.
pub record Call (F : Type 0) : Type 0 where
  pub env : SuiTransaction F → ℕ → Env F
  pub blocks : List (SuiBlock F)

module _ {S F : Type 0} (x : SuiDex S F) where
  -- What the calls collect.
  unfoldable pub collected_by : S → List (Call F) → List (SuiData F)
  unfolding scan_blocks
  collected_by s [] = []
  collected_by s (call ∷ calls) =
      let (s', d) = scan_blocks x call.env (s, empty_sui_data) call.blocks in
      d ∷ collected_by s' calls

  module _ (q : Dict ℤ) (Valid : S → Type 0)
      (keeps : (s : S) (e : Env F) (event : Event F) (tx : SuiTransaction F)
        → Valid s
        → Valid (x.found_in s e event tx).0 × FoundValid q (x.found_in s e event tx).1) where
    collected_by-IsCollected :
        (s : S) (calls : List (Call F)) → Valid s → All (IsCollected q) (collected_by s calls)
    unfolding collected_by
    collected_by-IsCollected s [] v = tt
    collected_by-IsCollected s (call ∷ calls) v =
        let r = scan_blocks x call.env (s, empty_sui_data) call.blocks in
        let ok =
          scan_blocks-Ok q x call.env Valid keeps (s, empty_sui_data) call.blocks
            (v, empty_IsCollected q) in
        (ok.1, collected_by-IsCollected r.0 calls ok.0)

module _ {F : Type 0} (fl : SuiFloats F) (lib : Numbers F) where
  -- Whatever quote assets are set on a new extractor for Cetus or Bluefin, and whatever the node
  -- answers, all that any calls of ExtractDexData collect is in order: a token is marked stable
  -- exactly if the quote assets rank it 90 or more; the rows of swaps come in pairs, a sale and a
  -- purchase of named coins in the same pool, event and transaction with the same value; the rows
  -- of liquidity come in pairs of named coins; there are two tokens and two such rows for each
  -- reserve, and at least one pool.
  pub collected_by-IsCollected_both :
      (json : ThroughJson F) (fee : FeeOf F) (assets : Dict ℤ) (calls : List (Call F))
      → All
          (IsCollected (set_cetus_assets new_cetus_extractor assets).quote_assets)
          (collected_by (cetus fl lib json) (set_cetus_assets new_cetus_extractor assets) calls)
        × All (IsCollected (set_cetus_assets new_cetus_extractor assets).quote_assets) (
            collected_by
              (bluefin fl lib fee)
              (set_bluefin_assets new_bluefin_extractor assets)
              calls)
  unfolding lookup
  collected_by-IsCollected_both json fee assets calls =
      let q = (set_cetus_assets new_cetus_extractor assets).quote_assets in
      (
        collected_by-IsCollected (cetus fl lib json) q (CetusValid q)
            (λ s e event tx v.
              on_cetus_event-CetusValid fl lib q s e event tx (get_event_type event) v)
            _ calls (refl, λ k. tt),
        collected_by-IsCollected (bluefin fl lib fee) q (BluefinValid q)
            (λ s e event tx v.
              on_bluefin_event-BluefinValid fl lib fee q s e event tx (bluefin_event_type event) v)
            _ calls (refl, λ k. tt),
      )
