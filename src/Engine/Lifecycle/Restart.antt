-- ===== src/Engine/Lifecycle/Restart.antt =====
-- Start and Stop.
use chain_parse_service.Base.{◌≡◌, ◌≢◌, true, none, [], arith}
use chain_parse_service.Engine.Lifecycle.{Engine, start, stop, live_loops}

module _ {P : Type 0} where
  -- An engine that was stopped cannot be started again: Start reports success and the engine
  -- says that it runs, but its context is done, so that no chain's loop is alive.
  pub start-stop :
      (e : Engine P)
      → e.running ≡ true
      → e.has_storage ≡ true
      → e.chain_processors ≢ []
      → ((start (stop e)).1 ≡ none)
        × ((start (stop e)).0.running ≡ true)
        × (live_loops (start (stop e)).0 ≡ [])
  unfolding start stop live_loops
  start-stop e r s p = ground (arith, p)
