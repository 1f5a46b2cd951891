-- ===== src/Engine/Batch/Range.antt =====
-- The block range that a tick asks for.
use chain_parse_service.Base.{zero, suc, ◌≡◌, refl, ◌⊎◌, String, arith}
use chain_parse_service.Base.Int.{ℤ, pos, negsuc, ◌+ℤ◌, ◌≤ℤ◌, ◌<ℤ◌}
use chain_parse_service.Engine.{EngineConfig, start_block, end_block}

-- The end of the range never passes the chain's head nor `start + size`, and it is one of the two.
pub end_block_bounds :
    (start size latest : ℤ)
    → (end_block start size latest ≤ℤ latest)
      × (end_block start size latest ≤ℤ start +ℤ size)
      × ((end_block start size latest ≡ latest) ⊎ (end_block start size latest ≡ start +ℤ size))
unfolding end_block
end_block_bounds start size latest = ground arith

-- After progress on a positive block number a tick goes on with the next block.
pub start_block_next :
    (cfg : EngineConfig) (chain : String) (last latest : ℤ)
    → pos 0 <ℤ last
    → start_block cfg chain last latest ≡ last +ℤ pos 1
unfolding start_block
start_block_next cfg chain (pos zero) latest h = absurd (omega arith)
start_block_next cfg chain (pos (suc n)) latest h = refl
start_block_next cfg chain (negsuc n) latest h = absurd (omega arith)
