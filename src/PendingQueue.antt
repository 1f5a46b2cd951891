-- ===== src/PendingQueue.antt =====
-- internal/pendingqueue (queue.go, memory.go): the in-memory queue of swaps whose pool is not
-- resolved yet. The clock is an argument of each call, in nanoseconds. The handler runs without
-- the lock, so a `Round` lists the calls of `Enqueue` that other goroutines make while the
-- consumer does not hold it, and how the handler ends. `Consume` is called once for a queue, so no
-- second consumer shrinks a group.
pub mod Groups
pub mod Order
pub mod Invariant
pub mod Retry
mod Tests
use chain_parse_service.Base.{
  ℕ, ◌+◌, ◌-◌, String, ◌≡◌, Bool, ◌||◌, Option, none, some, List, [], ◌∷◌, ◌++◌, ltb, leb,
  if◌then◌else◌, length, drop,
}
use chain_parse_service.Base.Dict.{Dict, lookup, insert, erase}
use chain_parse_service.Base.Int.{ℤ}
use chain_parse_service.Model.{SwapRecordSide}

pub record Message : Type 0 where
  pub pool_addr : String
  pub protocol : String
  pub tx_hash : String
  pub block_number : ℤ
  pub block_time : ℕ
  pub log_index : ℕ
  pub amount0 : ℤ
  pub side0 : SwapRecordSide
  pub amount1 : ℤ
  pub side1 : SwapRecordSide
  pub enqueued_at : ℕ

pub data QueueError : Type 0 where
  queue_full : QueueError

pub record Memory : Type 0 where
  pub groups : Dict (List Message)
  pub attempts : Dict ℕ
  pub total : ℕ
  pub max_total : ℕ
  pub max_age : ℕ
  pub max_attempts : ℕ

unfoldable pub new_memory : ℕ → ℕ → ℕ → Memory
new_memory max_total max_age max_attempts = record {
  groups = [];
  attempts = [];
  total = 0;
  max_total = max_total;
  max_age = max_age;
  max_attempts = max_attempts;
}

-- `m.groups[addr]` and `m.attempts[addr]`: the zero value where the key is missing.
abbrev pub or_empty {ℓ} : {A : Type ℓ} → Option (List A) → List A
or_empty none = []
or_empty (some xs) = xs

abbrev pub or_zero : Option ℕ → ℕ
or_zero none = 0
or_zero (some n) = n

abbrev pub group : Memory → String → List Message
group m addr = or_empty (lookup addr m.groups)

abbrev pub tries : Memory → String → ℕ
tries m addr = or_zero (lookup addr m.attempts)

unfoldable pub enqueue : Memory → ℕ → Message → Memory × Option QueueError
enqueue m now msg = if leb m.max_total m.total then (m, some queue_full) else (
  record m {
    groups =
        insert msg.pool_addr (group m msg.pool_addr ++ record msg { enqueued_at = now } ∷ [])
          m.groups;
    total = m.total + 1;
  },
  none,
)

-- The calls of `Enqueue` that other goroutines make in a stretch of time.
unfoldable pub enqueue_all : Memory → List (ℕ × Message) → Memory
enqueue_all m [] = m
enqueue_all m ((now, msg) ∷ calls) = enqueue_all (enqueue m now msg).0 calls

pub record Round : Type 0 where
  pub before : List (ℕ × Message)
  pub during : List (ℕ × Message)
  pub failed : Bool
  pub now : ℕ

-- The branch `err != nil` of processOnce; `first` is `msgs[0]`.
unfoldable pub expired : Memory → Message → ℕ → Bool
expired m first now = ltb m.max_age (now - first.enqueued_at)

unfoldable pub exhausted : Memory → String → Bool
exhausted m addr = leb m.max_attempts (tries m addr + 1)

unfoldable pub on_failure : Memory → String → Message → ℕ → Memory
on_failure m addr first now =
    if expired m first now || exhausted m addr
    then record m {
      groups = erase addr m.groups;
      attempts = erase addr m.attempts;
      total = m.total - length (group m addr);
    }
    else record m { attempts = insert addr (tries m addr + 1) m.attempts }

-- The other branch; `n` is `len(msgs)`.
abbrev pub put_back : String → List Message → Dict (List Message) → Dict (List Message)
put_back addr [] groups = erase addr groups
put_back addr (msg ∷ rest) groups = insert addr (msg ∷ rest) groups

unfoldable pub on_success : Memory → String → ℕ → Memory
on_success m addr n = record m {
  groups = put_back addr (drop n (group m addr)) m.groups;
  attempts = erase addr m.attempts;
  total = m.total - n;
}

abbrev pub settle : Memory → String → List Message → Round → Memory
settle m addr [] r = m
settle m addr (first ∷ rest) r =
    let m' = enqueue_all m r.during in
    if r.failed then on_failure m' addr first r.now else on_success m' addr (length (first ∷ rest))

-- One turn of the loop over `pools`.
unfoldable pub process_one : Memory → String → Round → Memory
process_one m addr r = let m' = enqueue_all m r.before in settle m' addr (group m' addr) r

unfoldable pub process_pools : Memory → List String → (String → Round) → Memory
process_pools m [] env = m
process_pools m (addr ∷ pools) env = process_pools (process_one m addr (env addr)) pools env

-- The snapshot of the addresses with something queued. Go visits them in any order.
abbrev keep_pending : String → List Message → List String → List String
keep_pending addr [] pools = pools
keep_pending addr (_ ∷ _) pools = addr ∷ pools

unfoldable pub pending : Dict (List Message) → List String
pending [] = []
pending ((addr, msgs) ∷ d) = keep_pending addr msgs (pending d)

unfoldable pub process_once : Memory → (String → Round) → Memory
process_once m env = process_pools m (pending m.groups) env
