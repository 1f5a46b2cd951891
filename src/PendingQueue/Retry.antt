-- ===== src/PendingQueue/Retry.antt =====
-- A pool whose handler keeps failing is given up (the branch `err != nil` of processOnce).
use chain_parse_service.Base.{
  ℕ, ◌+◌, ◌≤◌, ◌<◌, String, ◌≡◌, refl, sym, ◌∙◌, ◌≢◌, ◌⊎◌, inl, inr, true, List, [], ◌∷◌, ◌++◌,
  arith, length, All, str_eq_iff,
}
use chain_parse_service.Base.Dict.{lookup-insert, lookup-erase}
use chain_parse_service.PendingQueue.{
  Message, Memory, Round, group, tries, enqueue, enqueue_all, on_failure, process_one, settle,
  exhausted,
}
use chain_parse_service.PendingQueue.Groups.{group-enqueue_all, accepted}

SameLimits : Memory → Memory → Type 0
SameLimits m n = (n.max_attempts ≡ m.max_attempts) × (n.attempts ≡ m.attempts)

enqueue_all-SameLimits :
    (m : Memory) (calls : List (ℕ × Message)) → SameLimits m (enqueue_all m calls)
unfolding enqueue_all enqueue SameLimits
enqueue_all-SameLimits m [] = (refl, refl)
enqueue_all-SameLimits m ((now, msg) ∷ calls) =
    ground (arith, enqueue_all-SameLimits (enqueue m now msg).0 calls)

append-ne-nil {ℓ} : {A : Type ℓ} (xs ys : List A) → xs ≢ [] → xs ++ ys ≢ []
append-ne-nil [] ys h e = h refl
append-ne-nil (x ∷ xs) ys h e = cc

-- What a failing turn on a group with messages comes to.
abbrev Failed : Memory → String → Memory → Type 0
Failed m addr n =
    (group n addr ≡ [])
    ⊎ ((group n addr ≢ [])
        × (tries n addr ≡ tries m addr + 1)
        × (tries n addr < m.max_attempts)
        × (n.max_attempts ≡ m.max_attempts))

on_failure-Failed :
    (m : Memory) (addr : String) (first : Message) (now : ℕ)
    → group m addr ≢ []
    → Failed m addr (on_failure m addr first now)
unfolding on_failure exhausted
on_failure-Failed m addr first now h = ground (
  arith,
  lookup-erase addr addr m.groups,
  lookup-insert addr addr (tries m addr + 1) m.attempts,
  str_eq_iff addr addr,
)

settle-Failed :
    (m : Memory) (addr : String) (msgs : List Message) (r : Round)
    → group m addr ≡ msgs
    → msgs ≢ []
    → r.failed ≡ true
    → Failed m addr (settle m addr msgs r)
unfolding SameLimits
settle-Failed m addr [] r e h f = absurd (h refl)
settle-Failed m addr (first ∷ rest) r e h f =
    let m' = enqueue_all m r.during in
    let same : SameLimits m m' = enqueue_all-SameLimits m r.during in
    let stays : group m' addr ≢ [] = λ n.
      append-ne-nil (group m addr) (accepted m r.during addr) (λ g. h (sym e ∙ g))
        (sym (group-enqueue_all m r.during addr) ∙ n) in
    ground (arith, on_failure-Failed m' addr first r.now stays)

process_one-Failed :
    (m : Memory) (addr : String) (r : Round)
    → group m addr ≢ []
    → r.failed ≡ true
    → Failed m addr (process_one m addr r)
unfolding process_one SameLimits
process_one-Failed m addr r h f =
    let m' = enqueue_all m r.before in
    let same : SameLimits m m' = enqueue_all-SameLimits m r.before in
    let stays : group m' addr ≢ [] = λ n.
      append-ne-nil (group m addr) (accepted m r.before addr) h
        (sym (group-enqueue_all m r.before addr) ∙ n) in
    ground (arith, settle-Failed m' addr (group m' addr) r refl stays)

-- After one of the turns the group of `addr` is empty.
abbrev pub Emptied : Memory → String → List Round → Type 0
Emptied m addr [] = ⊥
Emptied m addr (r ∷ rs) =
    (group (process_one m addr r) addr ≡ []) ⊎ Emptied (process_one m addr r) addr rs

-- If the handler fails in every one of a row of turns on a pool with queued messages, and the row
-- has as many turns as attempts are left, then the pool's group is emptied in one of them,
-- whatever is enqueued meanwhile: no pool is retried for ever.
pub gives_up :
    (m : Memory) (addr : String) (rs : List Round)
    → All (λ r. r.failed ≡ true) rs
    → group m addr ≢ []
    → 0 < length rs
    → m.max_attempts ≤ tries m addr + length rs
    → Emptied m addr rs
gives_up m addr [] a h p le = absurd (omega arith)
gives_up m addr (r ∷ []) a h p le = elim (process_one-Failed m addr r h a.0) [
  | inl gone ↦ inl gone
  | inr kept ↦ absurd (omega arith)
]
gives_up m addr (r ∷ s ∷ rs) a h p le = elim (process_one-Failed m addr r h a.0) [
  | inl gone ↦ inl gone
  | inr kept ↦
      inr (gives_up (process_one m addr r) addr (s ∷ rs) a.1 kept.0 (omega arith) (omega arith))
]
