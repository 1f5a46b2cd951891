-- ===== src/Uniswap/Swap/DoubleEntry.antt =====
-- The two records of a swap whose pool is known, and the queued message of one whose pool is not.
use mathlib.Core.Path.{subst}
use chain_parse_service.Base.{
  ℕ, String, ◌≡◌, refl, sym, ◌∙◌, ◌≤◌, ◌<◌, ◌⊎◌, inl, inr, Option, none, some, List, [], ◌∷◌,
  Option-cases, arith, ltb, leb, str_eq_iff, ◌++◌, ◌+◌, length, Bool-cases, true, false,
  if◌then◌else◌,
}
use chain_parse_service.Base.Dict.{lookup}
use chain_parse_service.Model.{SwapRecord, Transaction, role_token0, role_token1}
use chain_parse_service.Types.{UnifiedTransaction, EthLog}
use chain_parse_service.PendingQueue.{Memory, Message, group, enqueue}
use chain_parse_service.PendingQueue.Groups.{group-enqueue}
use chain_parse_service.Cache
use chain_parse_service.Uniswap.Floats.{Floats}
use chain_parse_service.Uniswap.Logs.{EthLib}
use chain_parse_service.Uniswap.State.{
  UniswapExtractor, PoolMeta, Env, resolve_pool_tokens, cached_token_decimals, cache_token,
  redis_pool, redis_token, pool_of_redis,
}
use chain_parse_service.Uniswap.Swap.Decode.{ReadsV2, ReadsV3, v2_event-ReadsV2, v3_event-ReadsV3}
use chain_parse_service.Uniswap.Swap.{
  SwapEvent, get_block_number, message, queue_message, records_of, build_swap_records, emit_swap,
  transaction, v2_event, v3_event, parse_v2_swap, parse_v3_swap, some_swap,
}

-- What became of a message: without a queue nothing, a full queue stays as it is, and any other has
-- it at the end of the group of its pool.
abbrev pub Queued : Message → Option Memory → Option Memory → Type 0
Queued msg none none = Unit
Queued msg none (some q') = ⊥
Queued msg (some q) none = ⊥
Queued msg (some q) (some q') =
    ((q.max_total ≤ q.total) × (q' ≡ q))
    ⊎ ((q.total < q.max_total)
        × ((group q' msg.pool_addr ≡ group q msg.pool_addr ++ (msg ∷ []))
            × (q'.total ≡ q.total + 1)))

queue_message-Queued :
    (now : ℕ) (msg : Message) (o : Option Memory)
    → Queued (record msg { enqueued_at = now }) o (queue_message o now msg)
unfolding enqueue
queue_message-Queued now msg none = tt
queue_message-Queued now msg (some q) = elim (Bool-cases (leb q.max_total q.total)) [
  | inl full ↦ inl (ground (arith, full), ground (arith, full))
  | inr room ↦ inr (
    ground (arith, room),
    (
      ground (
        arith,
        room,
        group-enqueue q now msg msg.pool_addr,
        str_eq_iff msg.pool_addr msg.pool_addr,
      ),
      ground (arith, room),
    ),
  )
]

decimals_queue :
    (u : UniswapExtractor) (env : Env) (t : String)
    → (cached_token_decimals u env t).0.pending_queue ≡ u.pending_queue
unfolding cached_token_decimals cache_token
decimals_queue u env t = ground (
  arith,
  Option-cases (Cache.get u.token_cache env.now t),
  Option-cases (redis_token env.redis t),
)

from_redis_queue :
    (u : UniswapExtractor) (env : Env) (addr : String)
    → (pool_of_redis u addr (redis_pool env.redis addr)).0.pending_queue ≡ u.pending_queue
from_redis_queue u env addr = ground (arith, Option-cases (redis_pool env.redis addr))

resolve_queue :
    (u : UniswapExtractor) (env : Env) (addr : String)
    → (resolve_pool_tokens u env addr).0.pending_queue ≡ u.pending_queue
unfolding resolve_pool_tokens
resolve_queue u env addr =
    ground (arith, Option-cases (lookup addr u.seen_pools), from_redis_queue u env addr)

module _ {F : Type 0} where
  -- The records are entries of one event: one for each token, each naming the other.
  abbrev pub Entries :
      PoolMeta → SwapEvent F → UnifiedTransaction → ℕ → SwapRecord → SwapRecord → Type 0
  Entries m e tx i r s =
      (r.token_addr ≡ m.token0)
      × (s.token_addr ≡ m.token1)
      × (r.paired_token_addr ≡ s.token_addr)
      × (s.paired_token_addr ≡ r.token_addr)
      × (r.role ≡ role_token0)
      × (s.role ≡ role_token1)
      × (r.raw_amount ≡ e.leg0.amount)
      × (s.raw_amount ≡ e.leg1.amount)
      × (r.side ≡ e.leg0.side)
      × (s.side ≡ e.leg1.side)
      × (r.pool_addr ≡ e.pool_addr)
      × (s.pool_addr ≡ e.pool_addr)
      × (r.tx_hash ≡ tx.tx_hash)
      × (s.tx_hash ≡ tx.tx_hash)
      × (r.log_index ≡ i)
      × (s.log_index ≡ i)

  -- The message carries the event, stamped with the clock.
  abbrev pub IsMessageOf : SwapEvent F → UnifiedTransaction → ℕ → ℕ → Message → Type 0
  IsMessageOf e tx i now msg =
      (msg.pool_addr ≡ e.pool_addr)
      × (msg.protocol ≡ e.protocol)
      × (msg.tx_hash ≡ tx.tx_hash)
      × (msg.block_number ≡ get_block_number tx)
      × (msg.block_time ≡ tx.timestamp)
      × (msg.log_index ≡ i)
      × (msg.amount0 ≡ e.leg0.amount)
      × (msg.side0 ≡ e.leg0.side)
      × (msg.amount1 ≡ e.leg1.amount)
      × (msg.side1 ≡ e.leg1.side)
      × (msg.enqueued_at ≡ now)

  -- The pool is known, two entries and the queue as it was; or it is not, no records and the
  -- message of the event at the end of the group of its pool, where a queue has room.
  abbrev pub Settled :
      UniswapExtractor
      → Env
      → SwapEvent F
      → UnifiedTransaction
      → ℕ
      → Option PoolMeta
      → UniswapExtractor
      → List SwapRecord
      → Type 0
  Settled u env e tx i (some m) u' records =
      (r : SwapRecord) × (s : SwapRecord) × ((records ≡ r ∷ s ∷ []) × Entries m e tx i r s)
      × (u'.pending_queue ≡ u.pending_queue)
  Settled u env e tx i none u' records =
      (records ≡ [])
      × (msg : Message) × IsMessageOf e tx i env.now msg
      × Queued msg u.pending_queue u'.pending_queue

  records_of-Settled :
      (u v : UniswapExtractor) (env : Env) (e : SwapEvent F) (tx : UnifiedTransaction) (i : ℕ)
      (o : Option PoolMeta)
      → v.pending_queue ≡ u.pending_queue
      → Settled u env e tx i o (records_of v env e tx i o).0 (records_of v env e tx i o).2
  unfolding build_swap_records message
  records_of-Settled u v env e tx i none h = (
    refl,
    record (message e tx i) { enqueued_at = env.now },
    (refl, refl, refl, refl, refl, refl, refl, refl, refl, refl, refl),
    subst
        (λ q.
          Queued (record (message e tx i) { enqueued_at = env.now }) q
            (queue_message v.pending_queue env.now (message e tx i)))
        h (queue_message-Queued env.now (message e tx i) v.pending_queue),
  )
  records_of-Settled u v env e tx i (some m) h =
      let known = cached_token_decimals v env m.token0 in
      (
        _,
        _,
        (
          refl,
          (
            refl, refl, refl, refl, refl, refl, refl, refl, refl, refl, refl, refl, refl, refl,
            refl, refl,
          ),
        ),
        decimals_queue known.0 env m.token1 ∙ decimals_queue v env m.token0 ∙ h,
      )

  -- `resolved` is the answer of resolvePoolTokens.
  abbrev resolved : UniswapExtractor → Env → SwapEvent F → Option PoolMeta
  resolved u env e = (resolve_pool_tokens u env e.pool_addr).1

  pub emit_swap-Settled :
      (u : UniswapExtractor) (env : Env) (e : SwapEvent F) (tx : UnifiedTransaction) (i k : ℕ)
      → Settled u env e tx i
          (resolved u env e)
          (emit_swap u env e tx i k).0
          (emit_swap u env e tx i k).2
  unfolding emit_swap
  emit_swap-Settled u env e tx i k =
      records_of-Settled u (resolve_pool_tokens u env e.pool_addr).0 env e tx i (resolved u env e)
        (resolve_queue u env e.pool_addr)

module _ (fl : Floats) (lib : EthLib) where
  -- Data too short changes nothing; else the event is settled.
  abbrev pub Parse :
      ℕ
      → SwapEvent fl.Float
      → UniswapExtractor
      → Env
      → EthLog
      → UnifiedTransaction
      → ℕ
      → UniswapExtractor × Option (Transaction fl.Float × List SwapRecord)
      → Type 0
  Parse size e u env log tx i (u', none) = (length log.bytes < size) × (u' ≡ u)
  Parse size e u env log tx i (u', some (t, records)) =
      (size ≤ length log.bytes)
      × (t.event_index ≡ i)
      × (t.hash ≡ tx.tx_hash)
      × Settled u env e tx i (resolved u env e) u' records

  guard-Parse :
      (size : ℕ) (e : SwapEvent fl.Float) (u : UniswapExtractor) (env : Env) (log : EthLog)
      (tx : UnifiedTransaction) (i k : ℕ)
      → (ltb (length log.bytes) size ≡ true) ⊎ (ltb (length log.bytes) size ≡ false)
      → Parse size e u env log tx i (
          if ltb (length log.bytes) size
          then (u, none)
          else some_swap fl lib (emit_swap u env e tx i k))
  unfolding emit_swap transaction
  guard-Parse size e u env log tx i k (inl h) =
      subst
        (λ b.
          Parse size e u env log tx i
            (if b then (u, none) else some_swap fl lib (emit_swap u env e tx i k)))
        (sym h) (ground arith, refl)
  guard-Parse size e u env log tx i k (inr h) =
      subst
        (λ b.
          Parse size e u env log tx i
            (if b then (u, none) else some_swap fl lib (emit_swap u env e tx i k)))
        (sym h) (ground arith, refl, refl, emit_swap-Settled u env e tx i k)

  -- parseV2Swap refuses exactly the data shorter than four words, and leaves the extractor alone
  -- then. Else, where the pool is known, it yields two entries that mirror each other, with the
  -- amounts and sides of the swap, and leaves the queue alone; where it is not, it yields no
  -- records, and the message of the swap goes to the end of the group of its pool, unless there is
  -- no queue or it is full: then the queue stays as it is. The amount of a token is what was
  -- paid into the pool, or what came out of it where nothing was paid.
  pub parse_v2_swap-Parse :
      (u : UniswapExtractor) (env : Env) (log : EthLog) (tx : UnifiedTransaction) (i k : ℕ)
      → Parse 128 (v2_event fl lib log) u env log tx i (parse_v2_swap fl lib u env log tx i k)
        × ReadsV2 log (v2_event fl lib log)
  unfolding parse_v2_swap
  parse_v2_swap-Parse u env log tx i k = (
    guard-Parse 128 (v2_event fl lib log) u env log tx i k (Bool-cases _),
    v2_event-ReadsV2 fl lib log,
  )

  -- parseV3Swap refuses exactly the data shorter than five words, and leaves the extractor alone
  -- then. Else, where the pool is known, it yields two entries that mirror each other, with the
  -- amounts and sides of the swap, and leaves the queue alone; where it is not, it yields no
  -- records, and the message of the swap goes to the end of the group of its pool, unless there is
  -- no queue or it is full: then the queue stays as it is. The amount of a token is read
  -- without its sign, and the sign says the side.
  pub parse_v3_swap-Parse :
      (u : UniswapExtractor) (env : Env) (log : EthLog) (tx : UnifiedTransaction) (i k : ℕ)
      → Parse 160 (v3_event fl lib log) u env log tx i (parse_v3_swap fl lib u env log tx i k)
        × ReadsV3 log (v3_event fl lib log)
  unfolding parse_v3_swap
  parse_v3_swap-Parse u env log tx i k = (
    guard-Parse 160 (v3_event fl lib log) u env log tx i k (Bool-cases _),
    v3_event-ReadsV3 fl lib log,
  )
