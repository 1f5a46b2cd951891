-- ===== src/Fallback/Sync.antt =====
-- How far the secondary store lags behind the primary one (UpdateProgress).
use native.Mathlib.Nat.{suc-mod, mod-lt, mod_self, mod-eq_of_lt, mod-add-div, mul_assoc}
use mathlib.Core.Path.{subst, subst₂}
use chain_parse_service.Base.{
  ℕ, suc, String, ◌+◌, ◌*◌, ◌%◌, ◌/◌, ◌^◌, ◌<◌, ◌≤◌, ◌≡◌, ◌≢◌, refl, sym, ap, ◌∙◌, ◌⊎◌, inl, inr,
  Bool, true, List, [], ◌∷◌, ◌++◌, if◌then◌else◌, length, All, arith, str_eq, str_eq_iff,
  Bool-cases, ltb, ltb→lt,
}
use chain_parse_service.Fallback.{
  FallbackProgressTracker, Answers, Update, Write, primary_store, secondary_store, update_progress,
  updates, mark_primary,
}

module _ {P : Type 0} where
  -- The number of writes for the chain that only the primary store has: those after the last one
  -- that the secondary store took; `k` counts the earlier ones.
  unfoldable pub lag : String → ℕ → List (Write P) → ℕ
  lag chain k [] = k
  lag chain k (w ∷ ws) =
      let fresh = lag chain 0 ws in
      let older = lag chain (k + 1) ws in
      let same = lag chain k ws in
      if str_eq w.chain chain
      then elim w.store [ primary_store ↦ older | secondary_store ↦ fresh ]
      else same

  lag-append :
      (chain : String) (k : ℕ) (ws vs : List (Write P))
      → lag chain k (ws ++ vs) ≡ lag chain (lag chain k ws) vs
  unfolding lag
  lag-append chain k [] vs = refl
  lag-append chain k (w ∷ ws) vs =
      ground
        (arith, lag-append chain k ws vs, lag-append chain (k + 1) ws vs, lag-append chain 0 ws vs)

mod-step : (n m : ℕ) → 0 < m → (suc n % m ≡ 0) ⊎ (suc n % m ≡ suc (n % m))
mod-step n m h = elim (Bool-cases (ltb (suc (n % m)) m)) [
  | inl below ↦ inr (suc-mod n m ∙ mod-eq_of_lt (ltb→lt _ _ below))
  | inr reached ↦
      let under : n % m < m = mod-lt n h in
      let full : suc (n % m) ≡ m = ground (arith, reached, under) in
      inl (suc-mod n m ∙ ap (λ t. t % m) full ∙ mod_self m)
]

module _ {P : Type 0} where
  update_progress_count :
      (f : FallbackProgressTracker) (c : Update P)
      → f.update_count + 1 < 2 ^ 64
      → ((update_progress f c).0.update_count ≡ suc f.update_count)
        × ((update_progress f c).0.sync_interval ≡ f.sync_interval)
  unfolding update_progress mark_primary
  update_progress_count f c h = ground arith

  -- The secondary store takes every write that is offered to it.
  abbrev pub Serves : String → Update P → Type 0
  Serves chain c = (c.chain ≡ chain) × (c.answers.secondary ≡ true)

  lag-update_progress :
      (f : FallbackProgressTracker) (c : Update P) (chain : String) (k : ℕ)
      → 0 < f.sync_interval
      → f.update_count + 1 < 2 ^ 64
      → Serves chain c
      → k ≤ f.update_count % f.sync_interval
      → lag chain k (update_progress f c).1 ≤ suc f.update_count % f.sync_interval
  unfolding update_progress mark_primary lag
  lag-update_progress f c chain k hn h s hk =
      ground (arith, mod-step f.update_count f.sync_interval hn, str_eq_iff c.chain chain, s.0, s.1)

  -- Where all updates are of one chain and the secondary store takes what it is offered, it lags
  -- behind the primary store by fewer updates than the sync interval, whether or not the primary
  -- store fails in between. At the start it lags by no more than the remainder of the counter by the
  -- interval, and the counter does not reach 2^64.
  pub lag-updates :
      (f : FallbackProgressTracker) (cs : List (Update P)) (chain : String) (k : ℕ)
      → 0 < f.sync_interval
      → f.update_count + length cs < 2 ^ 64
      → All (Serves chain) cs
      → k ≤ f.update_count % f.sync_interval
      → lag chain k (updates f cs).1 < f.sync_interval
  unfolding updates lag
  lag-updates f [] chain k hn h s hk = let below = mod-lt f.update_count hn in omega (arith, below)
  lag-updates f (c ∷ cs) chain k hn h s hk =
      let next = update_progress f c in
      let (count, interval) = update_progress_count f c (omega arith) in
      let here = lag-update_progress f c chain k hn (omega arith) s.0 hk in
      let there =
        lag-updates next.0 cs chain (lag chain k next.1) (omega (arith, interval))
          (omega (arith, count)) s.1
          (subst₂ (λ x n. lag chain k next.1 ≤ x % n) (sym count) (sym interval) here) in
      subst₂ (λ x n. x < n) (sym (lag-append chain k next.1 (updates next.0 cs).1)) interval there

abbrev pub both_ok : Answers Bool
both_ok = record { primary = true; secondary = true }

odd_not_synced : (c m : ℕ) → c % 2 ≡ 0 → 0 < m → suc c % (2 * m) ≢ 0
odd_not_synced c m even h e =
    let whole = mod-add-div (suc c) (2 * m) in
    let twice = mul_assoc 2 m (suc c / (2 * m)) in absurd (omega (arith, whole, twice, e, even))

module _ {P : Type 0} where
  -- Two chains that are updated in turn, with both stores up.
  abbrev pub in_turn : String → String → List (P × P) → List (Update P)
  in_turn a b [] = []
  in_turn a b ((p, q) ∷ rounds) =
      record { chain = a; progress = p; answers = both_ok }
      ∷ record { chain = b; progress = q; answers = both_ok }
      ∷ in_turn a b rounds

  abbrev update_of : String → P → Update P
  update_of chain p = record { chain = chain; progress = p; answers = both_ok }

  update_of_healthy :
      (f : FallbackProgressTracker) (chain : String) (p : P)
      → f.primary_healthy ≡ true
      → (update_progress f (update_of chain p)).0.primary_healthy ≡ true
  unfolding update_progress mark_primary
  update_of_healthy f chain p h = ground (arith, h)

  lag_of_own :
      (f : FallbackProgressTracker) (chain : String) (p : P) (k : ℕ)
      → f.primary_healthy ≡ true
      → f.update_count + 1 < 2 ^ 64
      → suc f.update_count % f.sync_interval ≢ 0
      → lag chain k (update_progress f (update_of chain p)).1 ≡ suc k
  unfolding update_progress mark_primary lag
  lag_of_own f chain p k hh h ne = ground (arith, hh, str_eq_iff chain chain)

  lag_of_other :
      (f : FallbackProgressTracker) (a b : String) (p : P) (k : ℕ)
      → a ≢ b
      → lag a k (update_progress f (update_of b p)).1 ≡ k
  unfolding update_progress mark_primary lag
  lag_of_other f a b p k ne = ground (arith, str_eq_iff b a)

  -- Where two chains are updated in turn with both stores up, and the interval is even, the
  -- secondary store never takes an update of the first chain: the lag is the number of its updates.
  pub lag-in_turn :
      (f : FallbackProgressTracker) (m : ℕ) (a b : String) (k : ℕ) (rounds : List (P × P))
      → f.primary_healthy ≡ true
      → f.sync_interval ≡ 2 * m
      → 0 < m
      → f.update_count % 2 ≡ 0
      → f.update_count + 2 * length rounds < 2 ^ 64
      → a ≢ b
      → lag a k (updates f (in_turn a b rounds)).1 ≡ k + length rounds
  unfolding updates lag
  lag-in_turn f m a b k [] hh hi hm he h ne = omega arith
  lag-in_turn f m a b k ((p, q) ∷ rounds) hh hi hm he h ne =
      let first = update_progress f (update_of a p) in
      let second = update_progress first.0 (update_of b q) in
      let more = (updates second.0 (in_turn a b rounds)).1 in
      let (count, interval) = update_progress_count f (update_of a p) (omega arith) in
      let (count', interval') =
        update_progress_count first.0 (update_of b q) (omega (arith, count)) in
      let healthy = update_of_healthy f a p hh in
      let odd : suc f.update_count % f.sync_interval ≢ 0 =
        subst (λ n. suc f.update_count % n ≢ 0) (sym hi) (odd_not_synced f.update_count m he hm) in
      let own = lag_of_own f a p k hh (omega arith) odd in
      let other = lag_of_other first.0 a b q (suc k) ne in
      let rest =
        lag-in_turn second.0 m a b (suc k) rounds (update_of_healthy first.0 b q healthy)
          (interval' ∙ interval ∙ hi) hm (omega (arith, count, count', he))
          (omega (arith, count, count')) ne in
      lag-append a k first.1 (second.1 ++ more)
      ∙ ap (λ j. lag a j (second.1 ++ more)) own
      ∙ lag-append a (suc k) second.1 more
      ∙ ap (λ j. lag a j more) other
      ∙ rest
      ∙ omega arith
