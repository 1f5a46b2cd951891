-- ===== src/PendingQueue/Order.antt =====
-- No message is lost, invented or reordered (processOnce).
use chain_parse_service.Base.{
  String, ◌≡◌, refl, sym, ap, ◌∙◌, ◌≢◌, List, [], ◌∷◌, ◌++◌, append-nil, append_assoc, arith,
  if◌then◌else◌, length, str_eq_iff, drop-length_append,
}
use chain_parse_service.PendingQueue.{
  Message, Memory, Round, group, enqueue_all, process_one, settle, expired, exhausted,
}
use chain_parse_service.PendingQueue.Groups.{
  accepted, group-enqueue_all, group-on_success, group-on_failure,
}

-- What leaves the queue in a turn: the batch that the handler took, or the group that is given up.
abbrev left : Memory → String → List Message → Round → List Message
left m addr [] r = []
left m addr (first ∷ rest) r =
    let m' = enqueue_all m r.during in
    if r.failed
    then (if expired m' first r.now
        then group m' addr
        else if exhausted m' addr
        then group m' addr
        else [])
    else first ∷ rest

unfoldable pub released : Memory → String → Round → List Message
released m addr r = let m' = enqueue_all m r.before in left m' addr (group m' addr) r

-- What other goroutines add to the group of `k` while the turn runs. A turn on an empty group
-- never calls the handler.
abbrev joined : Memory → List Message → Round → String → List Message
joined m [] r k = []
joined m (first ∷ rest) r k = accepted m r.during k

unfoldable pub added : Memory → String → Round → String → List Message
added m addr r k =
    let m' = enqueue_all m r.before in accepted m r.before k ++ joined m' (group m' addr) r k

settle_own :
    (m : Memory) (addr : String) (msgs : List Message) (r : Round)
    → group m addr ≡ msgs
    → left m addr msgs r ++ group (settle m addr msgs r) addr ≡ msgs ++ joined m msgs r addr
settle_own m addr [] r e = e
settle_own m addr (first ∷ rest) r e =
    let m' = enqueue_all m r.during in
    ground (
      arith,
      group-enqueue_all m r.during addr,
      group-on_success m' addr addr (length (first ∷ rest)),
      group-on_failure m' addr addr first r.now,
      drop-length_append (first ∷ rest) (accepted m r.during addr),
      append-nil (group m' addr),
      str_eq_iff addr addr,
    )

settle_other :
    (m : Memory) (addr k : String) (msgs : List Message) (r : Round)
    → addr ≢ k
    → group (settle m addr msgs r) k ≡ group m k ++ joined m msgs r k
settle_other m addr k [] r h = sym (append-nil _)
settle_other m addr k (first ∷ rest) r h =
    let m' = enqueue_all m r.during in
    ground (
      arith,
      group-enqueue_all m r.during k,
      group-on_success m' addr k (length (first ∷ rest)),
      group-on_failure m' addr k first r.now,
      str_eq_iff addr k,
    )

-- In a turn of processOnce no message of the pool's group is lost, invented or reordered: what
-- left, followed by what is still queued, is what was queued, followed by what was accepted
-- meanwhile. After a success the batch of the handler left, so that all that was accepted while it
-- ran stays queued; after a failure nothing left, unless the group is given up: then all of it left,
-- with what was accepted while the handler ran.
pub process_one-released :
    (m : Memory) (addr : String) (r : Round)
    → released m addr r ++ group (process_one m addr r) addr ≡ group m addr ++ added m addr r addr
unfolding released process_one added
process_one-released m addr r =
    let m' = enqueue_all m r.before in
    settle_own m' addr (group m' addr) r refl
    ∙ ap (λ xs. xs ++ joined m' (group m' addr) r addr) (group-enqueue_all m r.before addr)
    ∙ append_assoc (group m addr) _ _

-- A turn on one pool leaves every other pool's group alone, but for what is accepted meanwhile.
pub process_one_other :
    (m : Memory) (addr k : String) (r : Round)
    → addr ≢ k
    → group (process_one m addr r) k ≡ group m k ++ added m addr r k
unfolding process_one added
process_one_other m addr k r h =
    let m' = enqueue_all m r.before in
    settle_other m' addr k (group m' addr) r h
    ∙ ap (λ xs. xs ++ joined m' (group m' addr) r k) (group-enqueue_all m r.before k)
    ∙ append_assoc (group m k) _ _
