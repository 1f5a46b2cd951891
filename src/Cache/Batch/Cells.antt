-- ===== src/Cache/Batch/Cells.antt =====
-- What a cell of the heap shows of the history, and what a call through its pointer does to it.
use chain_parse_service.Base.{
  ℕ, zero, suc, ◌<◌, String, ◌≡◌, ◌≢◌, refl, ◌∙◌, ap, Bool, true, false, Option, none, some, List,
  [], ◌∷◌, ◌++◌, if◌then◌else◌, arith, All, length, ◌==◌,
}
use chain_parse_service.Base.Dict.{lookup, NodupKeys}
use chain_parse_service.Model.{Token}
use chain_parse_service.Cache.{live}
use chain_parse_service.Cache.History.{
  Call, step, written, CleansBefore, Shows, step-ttl, step-Shows,
}
use chain_parse_service.Cache.Batch.{TokenCache, get_elem?, modify, BatchTokenCache}
use chain_parse_service.Cache.Batch.Views.{View}

abbrev pub WellKeyed : TokenCache → Type 0
WellKeyed c = NodupKeys c.entries

-- Every pointer is one to a cell, and no two assets share one.
pub record IsValid (b : BatchTokenCache) : Type 0 where
  pub allocated : (a : String) (r : ℕ) → lookup a b.caches ≡ some r → r < length b.heap
  pub distinct :
      (a j : String) (r : ℕ) → lookup a b.caches ≡ some r → lookup j b.caches ≡ some r → a ≡ j
  pub keyed : All WellKeyed b.heap

abbrev pub At : {A : Type 0} → (A → Type 0) → Option A → Type 0
At P none = ⊥
At P (some x) = P x

abbrev pub ShowsView : ℕ → String → View → TokenCache → Type 0
ShowsView now k w c = (c.ttl ≡ w.ttl) × Shows now k c w.entry

abbrev pub CellShows : ℕ → String → View → Option TokenCache → Type 0
CellShows now k w = At (ShowsView now k w)

abbrev pub Shown : ℕ → String → String → BatchTokenCache → Option View → Type 0
Shown now a k b none = lookup a b.caches ≡ none
Shown now a k b (some w) =
    (lookup a b.caches ≡ some w.handle) × CellShows now k w (get_elem? b.heap w.handle)

module _ {A : Type 0} where
  pub get_elem?-append :
      (xs ys : List A) (i : ℕ) → i < length xs → get_elem? (xs ++ ys) i ≡ get_elem? xs i
  get_elem?-append [] ys i h = absurd (omega arith)
  get_elem?-append (x ∷ xs) ys zero h = refl
  get_elem?-append (x ∷ xs) ys (suc i) h = get_elem?-append xs ys i (omega arith)

  pub get_elem?-length : (xs : List A) (y : A) → get_elem? (xs ++ (y ∷ [])) (length xs) ≡ some y
  get_elem?-length [] y = refl
  get_elem?-length (x ∷ xs) y = get_elem?-length xs y

  pub length-modify : (f : A → A) (i : ℕ) (xs : List A) → length (modify f i xs) ≡ length xs
  length-modify f i [] = refl
  length-modify f zero (x ∷ xs) = refl
  length-modify f (suc i) (x ∷ xs) = ap suc (length-modify f i xs)

  pub modify-All :
      (P : A → Type 0) (f : A → A) (i : ℕ) (xs : List A)
      → ((x : A) → P x → P (f x))
      → All P xs
      → All P (modify f i xs)
  modify-All P f i [] h u = tt
  modify-All P f zero (x ∷ xs) h u = (h x u.0, u.1)
  modify-All P f (suc i) (x ∷ xs) h u = (u.0, modify-All P f i xs h u.1)

  modify_own :
      (W P Q : A → Type 0) (f : A → A) (i j : ℕ) (xs : List A)
      → ((x : A) → W x → P x → Q (f x))
      → i ≡ j
      → All W xs
      → At P (get_elem? xs j)
      → At Q (get_elem? (modify f i xs) j)
  modify_own W P Q f i j [] h e u p = p
  modify_own W P Q f zero zero (x ∷ xs) h e u p = h x u.0 p
  modify_own W P Q f zero (suc j) (x ∷ xs) h e u p = absurd (omega (arith, e))
  modify_own W P Q f (suc i) zero (x ∷ xs) h e u p = absurd (omega (arith, e))
  modify_own W P Q f (suc i) (suc j) (x ∷ xs) h e u p =
      modify_own W P Q f i j xs h (omega (arith, e)) u.1 p

  modify_other :
      (f : A → A) (i j : ℕ) (xs : List A) → i ≢ j → get_elem? (modify f i xs) j ≡ get_elem? xs j
  modify_other f i j [] n = refl
  modify_other f zero zero (x ∷ xs) n = absurd (n refl)
  modify_other f zero (suc j) (x ∷ xs) n = refl
  modify_other f (suc i) zero (x ∷ xs) n = refl
  modify_other f (suc i) (suc j) (x ∷ xs) n = modify_other f i j xs (λ e. n (ap suc e))

-- A call on one cell does to the view of its asset what it does to the cell, and nothing to others.
module _ (now : ℕ) (k : String) (w : View) (r : ℕ) (o : Call Token)
    (early : CleansBefore now o) where
  abbrev write_of : View
  write_of = record w { entry = written w.ttl k w.entry o }

  step-ShowsView :
      (c : TokenCache) → WellKeyed c → ShowsView now k w c → ShowsView now k write_of (step c o)
  step-ShowsView c u h = (
    step-ttl c o ∙ h.0,
    step-Shows now k c w.entry o u early h.1 ∙ ap (λ t. live now (written t k w.entry o)) h.0,
  )

  pub entered-handle : (q : Bool) → (if q then write_of else w).handle ≡ w.handle
  entered-handle true = refl
  entered-handle false = refl

  pub entered_if :
      (b : Bool) (heap : List TokenCache)
      → (w.handle == r) ≡ b
      → All WellKeyed heap
      → CellShows now k w (get_elem? heap w.handle)
      → CellShows now k
          (if b then write_of else w)
          (get_elem? (modify (λ c. step c o) r heap) (if b then write_of else w).handle)
  entered_if true heap e u h =
      modify_own WellKeyed (ShowsView now k w) (ShowsView now k write_of) (λ c. step c o) r w.handle
        heap step-ShowsView (ground (arith, e)) u h
  entered_if false heap e u h =
      rw (modify_other (λ c. step c o) r w.handle heap (λ q. ground (arith, e, q))) h
