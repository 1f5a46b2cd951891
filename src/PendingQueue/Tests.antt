-- ===== src/PendingQueue/Tests.antt =====
-- Runs of the queue, and its theorems at concrete inputs.
use chain_parse_service.Base.{
  ℕ, ◌≡◌, refl, ◌≢◌, true, false, [], ◌∷◌, ◌++◌, arith, length, Bool, String,
}
use chain_parse_service.Base.Dict.{lookup, insert, erase}
use chain_parse_service.Base.Int.{pos}
use chain_parse_service.Model.{side_in, side_out}
use chain_parse_service.PendingQueue.{
  Message, Memory, Round, group, new_memory, enqueue, enqueue_all, on_success, process_one,
  process_pools, process_once, pending,
}
use chain_parse_service.PendingQueue.Order.{released, added, process_one-released}
use chain_parse_service.PendingQueue.Invariant.{
  IsValid, new_memory-IsValid, enqueue_all-IsValid, process_pools-IsValid,
}
use chain_parse_service.PendingQueue.Retry.{Emptied, gives_up}

abbrev swap_on : String → ℕ → Message
swap_on addr index = record {
  pool_addr = addr;
  protocol = "uniswap_v2";
  tx_hash = "0x1";
  block_number = pos 7;
  block_time = 100;
  log_index = index;
  amount0 = pos 5;
  side0 = side_in;
  amount1 = pos 9;
  side1 = side_out;
  enqueued_at = 0;
}

abbrev two_pools : Memory
two_pools =
    enqueue_all (new_memory 3 1000 2)
      ((10, swap_on "a" 1) ∷ (11, swap_on "b" 2) ∷ (12, swap_on "a" 3) ∷ (13, swap_on "b" 4) ∷ [])

two_pools_full : (two_pools.total ≡ 3) × (length (group two_pools "b") ≡ 1)
unfolding enqueue_all enqueue new_memory lookup insert
two_pools_full = (refl, refl)

abbrev busy : Bool → Round
busy failed = record { before = []; during = (20, swap_on "a" 5) ∷ []; failed = failed; now = 30 }

-- The queue is full while the first handler runs, so that concurrent call is refused; the second
-- one is accepted and stays queued.
served_once : (process_once two_pools (λ _. busy false)).total ≡ 1
unfolding process_once pending process_pools process_one enqueue_all enqueue new_memory lookup
    insert erase on_success
served_once = refl

process_one-released_example :
    released two_pools "a" (busy false) ++ group (process_one two_pools "a" (busy false)) "a"
    ≡ group two_pools "a" ++ added two_pools "a" (busy false) "a"
process_one-released_example = process_one-released two_pools "a" (busy false)

two_pools-IsValid : IsValid two_pools
two_pools-IsValid = enqueue_all-IsValid _ _ (new_memory-IsValid 3 1000 2)

process_pools-IsValid_example : IsValid (process_pools two_pools ("b" ∷ "a" ∷ []) (λ _. busy true))
process_pools-IsValid_example =
    process_pools-IsValid two_pools ("b" ∷ "a" ∷ []) (λ _. busy true) two_pools-IsValid

a_waits : group two_pools "a" ≢ []
unfolding enqueue_all enqueue new_memory lookup insert
a_waits e = cc

gives_up_example : Emptied two_pools "a" (busy true ∷ busy true ∷ [])
unfolding enqueue_all enqueue new_memory lookup
gives_up_example =
    gives_up two_pools "a" (busy true ∷ busy true ∷ []) (refl, (refl, tt)) a_waits (omega arith)
      (omega arith)
