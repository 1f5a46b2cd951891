-- ===== src/Subgraph/Sync/Stored.antt =====
-- What the pages stored so far hold, and the cases of a turn.
use chain_parse_service.Base.{
  ℕ, zero, suc, String, ◌<◌, ◌≡◌, refl, inl, inr, Bool, true, false, List, [], ◌∷◌, ◌++◌, ltb,
  ltb→lt, if◌then◌else◌, if_elim, ◌&&◌, length, take, arith, All, All-append, All-map, Has,
  Has-append_left, Has-append_right,
}
use chain_parse_service.Base.Int.{ℤ}
use chain_parse_service.Base.Decimal.{FitsInt64, int_or_zero, int_or_zero_fits}
use chain_parse_service.Subgraph.Mapping.{Entity, page_pools}
use chain_parse_service.Subgraph.Sync.{Turn, Store, SyncResult, position, store_page, page_turn}

-- A turn where nothing fails.
abbrev pub IsGood : Turn → Type 0
IsGood t = (t.query_ok ≡ true) × (t.store_ok ≡ true)

pub length-take-pos :
    {A : Type 0} (n : ℕ) (x : A) (xs : List A) → 0 < n → 0 < length (take n (x ∷ xs))
length-take-pos zero x xs h = absurd (omega arith)
length-take-pos (suc n) x xs h = omega arith

module _ {E : Type 0} ⦃e : Entity E⦄ where
  pub position-append :
      (c : ℤ × String) (xs ys : List E) → position c (xs ++ ys) ≡ position (position c xs) ys
  unfolding position
  position-append c [] ys = refl
  position-append c (x ∷ xs) ys = position-append (int_or_zero (e.created_at x), e.id x) xs ys

  position_fits : (c : ℤ × String) (xs : List E) → FitsInt64 c.0 → FitsInt64 (position c xs).0
  unfolding position
  position_fits c [] h = h
  position_fits c (x ∷ xs) h =
      position_fits (int_or_zero (e.created_at x), e.id x) xs (int_or_zero_fits (e.created_at x))

  pub position-cons_fits :
      (c : ℤ × String) (x : E) (xs : List E) → FitsInt64 (position c (x ∷ xs)).0
  unfolding position
  position-cons_fits c x xs =
      position_fits (int_or_zero (e.created_at x), e.id x) xs (int_or_zero_fits (e.created_at x))

  -- The pools of the entities are stored.
  abbrev pub Stored : Store → List E → Type 0
  Stored st xs = All (λ x. Has (e.to_pool x) st.pools) xs

  page_pools-Has : (xs : List E) → All (λ x. Has (e.to_pool x) (page_pools xs)) xs
  unfolding page_pools
  page_pools-Has [] = tt
  page_pools-Has (x ∷ xs) = (
    inl refl,
    All-map (λ y. Has (e.to_pool y) (page_pools xs)) (λ y. Has (e.to_pool y) (page_pools (x ∷ xs)))
        (λ y h. inr h) xs (page_pools-Has xs),
  )

  -- Storing a page keeps what was stored and adds the page.
  pub Stored-store_page :
      (st : Store) (page : List E) (c : ℤ × String) (ok : Bool) (xs : List E)
      → Stored st xs
      → Stored (store_page st page c ok) (xs ++ page)
  unfolding store_page
  Stored-store_page st page c ok xs h =
      let pools' = st.pools ++ page_pools page in
      All-append (λ x. Has (e.to_pool x) pools') xs page
        (All-map (λ x. Has (e.to_pool x) st.pools) (λ x. Has (e.to_pool x) pools')
          (λ x k. Has-append_left (e.to_pool x) st.pools (page_pools page) k) xs h)
        (All-map (λ x. Has (e.to_pool x) (page_pools page)) (λ x. Has (e.to_pool x) pools')
          (λ x k. Has-append_right (e.to_pool x) st.pools (page_pools page) k) page
          (page_pools-Has page))

  All-left : (P : E → Type 0) (xs ys : List E) → All P (xs ++ ys) → All P xs
  All-left P [] ys h = tt
  All-left P (x ∷ xs) ys (p, h) = (p, All-left P xs ys h)

  pub Stored-keep :
      (st : Store) (page : List E) (c : ℤ × String) (ok : Bool) (xs : List E)
      → Stored st xs
      → Stored (store_page st page c ok) xs
  Stored-keep st page c ok xs h =
      All-left (λ x. Has (e.to_pool x) (store_page st page c ok).pools) xs page
        (Stored-store_page st page c ok xs h)

module _ {E : Type 0} ⦃e : Entity E⦄ where
  -- What page_turn gives, by its cases; `page` is not empty where it is stored.
  pub page_turn_cases :
      (first : ℕ) (query : ℤ → String → List E) (P : Store × SyncResult → Type 0) (t : Turn)
      (st st' : Store) (page : List E) (next : Store × SyncResult)
      → ((t.query_ok && t.store_ok) ≡ false → P (st, SyncResult.failed))
      → (page ≡ [] → P (st, SyncResult.complete))
      → (0 < length page → length page < first → P (st', SyncResult.complete))
      → (0 < length page → P next)
      → P (
          if t.query_ok
          then page_turn first query t.store_ok st st' page next
          else (st, SyncResult.failed))
  page_turn_cases first query P t st st' [] next f a b c =
      if_elim P t.query_ok (st, SyncResult.complete) (st, SyncResult.failed) (λ _. a refl)
        (λ h. f (ground (arith, h)))
  page_turn_cases first query P t st st' (x ∷ page) next f a b c =
      if_elim P t.query_ok (page_turn first query t.store_ok st st' (x ∷ page) next)
        (st, SyncResult.failed)
        (λ q.
          if_elim P t.store_ok
            (if ltb (length (x ∷ page)) first then (st', SyncResult.complete) else next)
            (st, SyncResult.failed)
            (λ _.
              if_elim P (ltb (length (x ∷ page)) first) (st', SyncResult.complete) next
                (λ h. b (omega arith) (ltb→lt (length (x ∷ page)) first h)) (λ _. c (omega arith)))
            (λ h. f (ground (arith, h))))
        (λ h. f (ground (arith, h)))
