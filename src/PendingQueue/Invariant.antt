-- ===== src/PendingQueue/Invariant.antt =====
-- The counters of the queue: `total` counts what the groups hold and stays within `maxTotal`.
use chain_parse_service.Base.{
  ℕ, ◌+◌, ◌≤◌, String, ◌≡◌, refl, ap, Option, none, some, List, [], ◌∷◌, ◌++◌, arith, length, drop,
  length-append, length-drop,
}
use chain_parse_service.Base.Dict.{
  Dict, lookup, NodupKeys, insert-NodupKeys, erase-NodupKeys, opt_by, sum_values, sum_values-insert,
  sum_values-erase,
}
use chain_parse_service.PendingQueue.{
  Message, Memory, Round, group, or_empty, enqueue, enqueue_all, on_failure, on_success, put_back,
  process_one, settle, process_pools, new_memory,
}
use chain_parse_service.PendingQueue.Groups.{group-enqueue_all, accepted}

pub record IsValid (m : Memory) : Type 0 where
  pub nodup : NodupKeys m.groups
  pub counted : m.total ≡ sum_values length m.groups
  pub bounded : m.total ≤ m.max_total

pub new_memory-IsValid : (t a n : ℕ) → IsValid (new_memory t a n)
unfolding new_memory
new_memory-IsValid t a n = record { nodup = tt; counted = refl; bounded = omega arith }

opt_by-or_empty : (o : Option (List Message)) → opt_by length o ≡ length (or_empty o)
opt_by-or_empty none = refl
opt_by-or_empty (some xs) = refl

pub enqueue-IsValid :
    (m : Memory) (now : ℕ) (msg : Message) → IsValid m → IsValid (enqueue m now msg).0
unfolding enqueue
enqueue-IsValid m now msg v =
    let sent : Message = record msg { enqueued_at = now } in
    ground (
      arith,
      insert-NodupKeys msg.pool_addr (group m msg.pool_addr ++ sent ∷ []) m.groups v.nodup,
      sum_values-insert length msg.pool_addr (group m msg.pool_addr ++ sent ∷ []) m.groups,
      length-append (group m msg.pool_addr) (sent ∷ []),
      opt_by-or_empty (lookup msg.pool_addr m.groups),
    )

pub enqueue_all-IsValid :
    (m : Memory) (calls : List (ℕ × Message)) → IsValid m → IsValid (enqueue_all m calls)
unfolding enqueue_all
enqueue_all-IsValid m [] v = v
enqueue_all-IsValid m ((now, msg) ∷ calls) v =
    enqueue_all-IsValid (enqueue m now msg).0 calls (enqueue-IsValid m now msg v)

on_failure-IsValid :
    (m : Memory) (addr : String) (first : Message) (now : ℕ)
    → IsValid m
    → IsValid (on_failure m addr first now)
unfolding on_failure
on_failure-IsValid m addr first now v = ground (
  arith,
  erase-NodupKeys addr m.groups v.nodup,
  sum_values-erase length addr m.groups v.nodup,
  opt_by-or_empty (lookup addr m.groups),
)

put_back-NodupKeys :
    (addr : String) (rest : List Message) (d : Dict (List Message))
    → NodupKeys d
    → NodupKeys (put_back addr rest d)
put_back-NodupKeys addr [] d u = erase-NodupKeys addr d u
put_back-NodupKeys addr (x ∷ rest) d u = insert-NodupKeys addr (x ∷ rest) d u

put_back-sum_values :
    (addr : String) (rest : List Message) (d : Dict (List Message))
    → NodupKeys d
    → sum_values length (put_back addr rest d) + length (or_empty (lookup addr d))
      ≡ sum_values length d + length rest
put_back-sum_values addr [] d u =
    omega (arith, sum_values-erase length addr d u, opt_by-or_empty (lookup addr d))
put_back-sum_values addr (x ∷ rest) d u =
    omega (arith, sum_values-insert length addr (x ∷ rest) d, opt_by-or_empty (lookup addr d))

on_success-IsValid :
    (m : Memory) (addr : String) (n : ℕ)
    → n ≤ length (group m addr)
    → IsValid m
    → IsValid (on_success m addr n)
unfolding on_success
on_success-IsValid m addr n h v = record {
  nodup = put_back-NodupKeys addr (drop n (group m addr)) m.groups v.nodup;
  counted = omega (
    arith,
    put_back-sum_values addr (drop n (group m addr)) m.groups v.nodup,
    length-drop n (group m addr),
    v.counted,
  );
  bounded = omega (arith, v.bounded);
}

settle-IsValid :
    (m : Memory) (addr : String) (msgs : List Message) (r : Round)
    → group m addr ≡ msgs
    → IsValid m
    → IsValid (settle m addr msgs r)
settle-IsValid m addr [] r e v = v
settle-IsValid m addr (first ∷ rest) r e v =
    let m' = enqueue_all m r.during in
    let v' = enqueue_all-IsValid m r.during v in
    ground (
      arith,
      on_failure-IsValid m' addr first r.now v',
      on_success-IsValid m' addr (length (first ∷ rest))
          (omega (
            arith,
            ap length (group-enqueue_all m r.during addr),
            length-append (group m addr) (accepted m r.during addr),
            ap length e,
          ))
          v',
    )

process_one-IsValid :
    (m : Memory) (addr : String) (r : Round) → IsValid m → IsValid (process_one m addr r)
unfolding process_one
process_one-IsValid m addr r v =
    settle-IsValid (enqueue_all m r.before) addr _ r refl (enqueue_all-IsValid m r.before v)

-- The counter `total` equals what the groups hold and never exceeds `maxTotal`, after any number
-- of turns over any pools in any order, with any concurrent calls of Enqueue and any outcomes of
-- the handler; and no group is cut shorter than it is.
pub process_pools-IsValid :
    (m : Memory) (pools : List String) (env : String → Round)
    → IsValid m
    → IsValid (process_pools m pools env)
unfolding process_pools
process_pools-IsValid m [] env v = v
process_pools-IsValid m (addr ∷ pools) env v =
    process_pools-IsValid (process_one m addr (env addr)) pools env
      (process_one-IsValid m addr (env addr) v)
