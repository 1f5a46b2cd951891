-- ===== src/Engine/Batch/Loss.antt =====
-- What a tick loses whose GetProgress fails.
use chain_parse_service.Base.{◌≡◌, ◌⊎◌, [], ◌∷◌}
use chain_parse_service.Base.Int.{ℤ}
use chain_parse_service.Engine.{Outcome}
use chain_parse_service.Engine.Batch.Ticks.{stored_range}

module _ {F : Type 0} where
  abbrev AtMost : ℤ → ℤ → Outcome F → Type 0
  AtMost s e o = (stored_range o ≡ []) ⊎ (stored_range o ≡ (s, e) ∷ [])
