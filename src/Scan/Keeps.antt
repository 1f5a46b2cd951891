-- ===== src/Scan/Keeps.antt =====
-- The switch of an extractor gives each swap the hash of its transaction and the index of the loop.
use chain_parse_service.Base.{
  String, ℕ, Bool, true, false, ◌≡◌, Option, none, some, if◌then◌else◌, if_elim,
}
use chain_parse_service.Model.{Transaction, Liquidity, Pool}
use chain_parse_service.Scan.{
  Found, found_swap, swap_or_nothing, liquidity_or_nothing, pool_or_nothing,
}

module _ {F : Type 0} where
  abbrev pub HasIndex : Found F → String × ℕ → Type 0
  HasIndex (found_swap t) place = (t.hash ≡ place.0) × (t.swap_index ≡ place.1)
  HasIndex _ place = Unit

  -- A swap gets the hash of its transaction and the index that the loop hands over.
  pub record KeepsIndex (f : Found F) (place : String × ℕ) : Type 0 where
    pub kept : HasIndex f place

  pub swap_keeps :
      (b : Bool) (t : Transaction F) (k : String × ℕ)
      → (t.hash ≡ k.0) × (t.swap_index ≡ k.1)
      → KeepsIndex (swap_or_nothing (if b then none else some t)) k
  swap_keeps true t k h = record { kept = tt }
  swap_keeps false t k h = record { kept = h }

  pub liquidity_keeps :
      (l : Option (Liquidity F)) (k : String × ℕ) → KeepsIndex (liquidity_or_nothing l) k
  liquidity_keeps none k = record { kept = tt }
  liquidity_keeps (some l) k = record { kept = tt }

  pub pool_keeps : (p : Option Pool) (k : String × ℕ) → KeepsIndex (pool_or_nothing p) k
  pool_keeps none k = record { kept = tt }
  pool_keeps (some p) k = record { kept = tt }

  pub either :
      (b : Bool) (x y : Found F) (k : String × ℕ)
      → KeepsIndex x k
      → KeepsIndex y k
      → KeepsIndex (if b then x else y) k
  either b x y k h h' = if_elim (λ f. KeepsIndex f k) b x y (λ _. h) (λ _. h')
