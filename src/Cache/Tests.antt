-- ===== src/Cache/Tests.antt =====
-- Runs of the cache, and its theorem at a concrete history.
use chain_parse_service.Base.{ℕ, ◌-◌, ◌≡◌, refl, some, List, [], ◌∷◌, arith}
use chain_parse_service.Base.Int.{pos}
use chain_parse_service.Base.Dict.{erase, insert, lookup}
use chain_parse_service.Model.{Token}
use chain_parse_service.Cache.{new_cache, set, cleanup, unexpired, size, delete, clear}
use chain_parse_service.Cache.History.{Call, sets, deletes, cleans, run, step}
use chain_parse_service.Cache.Batch.{
  new_token_cache, new_pool_object_cache, new_batch_token_cache, get_or_create_cache, clear_each,
  clear_all, cleanup_one, cleanup_each, cleanup_all, batch_size,
}
use chain_parse_service.Cache.Batch.Views.{
  Event, creates, through, clears_all, cleans_one, cleans_all, batch_step, batch_run, get_token,
}
use chain_parse_service.Cache.Batch.Read.{get_token_by_history}

abbrev calls : List (Call ℕ)
calls = sets 0 "a" 1 ∷ sets 5 "b" 2 ∷ cleans 12 ∷ deletes "c" ∷ []

one_left : size (run (new_cache 10) calls) ≡ 1
unfolding size run step new_cache set cleanup unexpired insert delete erase
one_left = refl

abbrev usdc : Token
usdc = record { addr = "0xa0"; name = "USD Coin"; symbol = "USDC"; decimals = pos 6 }

abbrev weth : Token
weth = record { addr = "0xc0"; name = "Wrapped Ether"; symbol = "WETH"; decimals = pos 18 }

-- The pointer 0 is from before the ClearAll.
abbrev events : List Event
events =
    creates "eth" 10 0
    ∷ through 0 (sets 0 "a" usdc)
    ∷ clears_all
    ∷ creates "sol" 20 1
    ∷ creates "eth" 10 2
    ∷ creates "sol" 30 1
    ∷ through 0 (sets 3 "a" usdc)
    ∷ through 1 (sets 3 "a" usdc)
    ∷ through 2 (sets 4 "a" weth)
    ∷ cleans_one 1 5
    ∷ cleans_all (λ r. 12 - r)
    ∷ []

two_left : batch_size (batch_run new_batch_token_cache events) ≡ 2
unfolding batch_size batch_run batch_step new_batch_token_cache new_token_cache get_or_create_cache
    clear_each clear_all cleanup_one cleanup_each cleanup_all size step new_cache set cleanup
    unexpired insert lookup clear
two_left = refl

empty_pool_cache : size (new_pool_object_cache {O = ℕ} 60) ≡ 0
unfolding size new_pool_object_cache new_cache
empty_pool_cache = refl

get_token_by_history_example :
    get_token (batch_run new_batch_token_cache events) 12 "eth" "a" ≡ some weth
unfolding batch_step new_batch_token_cache new_token_cache get_or_create_cache clear_each clear_all
    cleanup_one cleanup_each cleanup_all step new_cache set cleanup unexpired insert lookup clear
get_token_by_history_example =
    get_token_by_history 12 "eth" "a" events (ground arith) (ground arith)
