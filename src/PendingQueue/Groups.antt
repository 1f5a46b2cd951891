-- ===== src/PendingQueue/Groups.antt =====
-- What each step of the queue does to the group of every pool.
use chain_parse_service.Base.{
  ℕ, String, ◌≡◌, sym, List, [], ◌∷◌, ◌++◌, append-nil, append_assoc, arith, leb, if◌then◌else◌,
  drop, str_eq, str_eq_iff,
}
use chain_parse_service.Base.Dict.{lookup, lookup-insert, lookup-erase}
use chain_parse_service.PendingQueue.{
  Message, Memory, group, or_empty, enqueue, enqueue_all, on_failure, on_success, put_back, expired,
  exhausted,
}

-- Each call either stores the message at the end of its own group, or reports a full queue and
-- changes nothing; the other groups stay as they are.
pub group-enqueue :
    (m : Memory) (now : ℕ) (msg : Message) (k : String)
    → group (enqueue m now msg).0 k ≡ (
        if leb m.max_total m.total
        then group m k
        else if str_eq msg.pool_addr k
        then group m k ++ record msg { enqueued_at = now } ∷ []
        else group m k)
unfolding enqueue
group-enqueue m now msg k = ground (
  arith,
  lookup-insert msg.pool_addr k (group m msg.pool_addr ++ record msg { enqueued_at = now } ∷ [])
      m.groups,
  str_eq_iff msg.pool_addr k,
)

-- The messages for `k` that `enqueue_all` accepts, in order.
unfoldable pub accepted : Memory → List (ℕ × Message) → String → List Message
accepted m [] k = []
accepted m ((now, msg) ∷ calls) k =
    let rest = accepted (enqueue m now msg).0 calls k in
    if leb m.max_total m.total
    then rest
    else if str_eq msg.pool_addr k
    then record msg { enqueued_at = now } ∷ rest
    else rest

pub group-enqueue_all :
    (m : Memory) (calls : List (ℕ × Message)) (k : String)
    → group (enqueue_all m calls) k ≡ group m k ++ accepted m calls k
unfolding enqueue_all accepted
group-enqueue_all m [] k = sym (append-nil _)
group-enqueue_all m ((now, msg) ∷ calls) k = ground (
  arith,
  group-enqueue m now msg k,
  group-enqueue_all (enqueue m now msg).0 calls k,
  append_assoc (group m k) (record msg { enqueued_at = now } ∷ [])
      (accepted (enqueue m now msg).0 calls k),
)

group-put_back :
    (addr k : String) (rest : List Message) (m : Memory)
    → or_empty (lookup k (put_back addr rest m.groups))
      ≡ (if str_eq addr k then rest else group m k)
group-put_back addr k [] m = ground (arith, lookup-erase addr k m.groups)
group-put_back addr k (x ∷ rest) m = ground (arith, lookup-insert addr k (x ∷ rest) m.groups)

pub group-on_success :
    (m : Memory) (addr k : String) (n : ℕ)
    → group (on_success m addr n) k ≡ (if str_eq addr k then drop n (group m addr) else group m k)
unfolding on_success
group-on_success m addr k n = group-put_back addr k (drop n (group m addr)) m

pub group-on_failure :
    (m : Memory) (addr k : String) (first : Message) (now : ℕ)
    → group (on_failure m addr first now) k ≡ (
        if expired m first now
        then (if str_eq addr k then [] else group m k)
        else if exhausted m addr
        then (if str_eq addr k then [] else group m k)
        else group m k)
unfolding on_failure
group-on_failure m addr k first now = ground (arith, lookup-erase addr k m.groups)
