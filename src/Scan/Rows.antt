-- ===== src/Scan/Rows.antt =====
-- The rows of swaps that ExtractDexData collects, by transaction.
use mathlib.Core.Path.{subst}
use chain_parse_service.Base.{
  String, length, length-append, ℕ, Bool, true, false, suc, ◌+◌, ◌≡◌, refl, sym, ap, ◌∙◌, List, [],
  ◌∷◌, ◌++◌, arith, append-nil, append_assoc, if◌then◌else◌, if_elim,
}
use chain_parse_service.Model.{Transaction}
use chain_parse_service.Types.{empty_dex_data, UnifiedTransaction, UnifiedBlock}
use chain_parse_service.Scan.{
  LogExtractor, Progressed, Found, found_swap, found_liquidity, found_pool, found_created,
  found_nothing, collect, scan_log, scan_logs, scan_transactions, scan_blocks, extract_dex_data,
}
use chain_parse_service.Scan.Keeps.{KeepsIndex}

module _ {F : Type 0} where
  -- The rows of one transaction, which are numbered from `k` on.
  abbrev pub OwnRows : String → ℕ → List (Transaction F) → Type 0
  OwnRows hash k [] = Unit
  OwnRows hash k (t ∷ ts) = ((t.hash ≡ hash) × (t.swap_index ≡ k)) × OwnRows hash (suc k) ts

  OwnRows-append :
      (hash : String) (k : ℕ) (xs ys : List (Transaction F))
      → OwnRows hash k xs
      → OwnRows hash (k + length xs) ys
      → OwnRows hash k (xs ++ ys)
  OwnRows-append hash k [] ys h g =
      let same : k + 0 ≡ k = omega arith in subst (λ i. OwnRows hash i ys) same g
  OwnRows-append hash k (x ∷ xs) ys (own, h) g =
      let shift : k + suc (length xs) ≡ suc k + length xs = omega arith in
      (own, OwnRows-append hash (suc k) xs ys h (subst (λ i. OwnRows hash i ys) shift g))

  -- The rows are those of the transactions, one transaction after the other, each with its hash and
  -- the indices 0, 1, …
  abbrev pub RowsOf : List UnifiedTransaction → List (Transaction F) → Type 0
  RowsOf [] rows = rows ≡ []
  RowsOf (tx ∷ txs) rows =
      (own : List (Transaction F)) × (rest : List (Transaction F)) × (rows ≡ own ++ rest)
      × (OwnRows tx.tx_hash 0 own × RowsOf txs rest)

  RowsOf-append :
      (txs vs : List UnifiedTransaction) (xs ys : List (Transaction F))
      → RowsOf txs xs
      → RowsOf vs ys
      → RowsOf (txs ++ vs) (xs ++ ys)
  RowsOf-append [] vs xs ys h g = subst (λ l. RowsOf vs (l ++ ys)) (sym h) g
  RowsOf-append (tx ∷ txs) vs xs ys (own, rest, e, (o, h)) g = (
    own,
    rest ++ ys,
    ap (λ l. l ++ ys) e ∙ append_assoc own rest ys,
    (o, RowsOf-append txs vs rest ys h g),
  )

  -- Between the two, these rows of the transaction were found, whose indices go on from the first
  -- state's.
  abbrev Grown : String → Progressed F → Progressed F → List (Transaction F) → Type 0
  Grown hash s s' more =
      (s'.collected.transactions ≡ s.collected.transactions ++ more)
      × (OwnRows hash s.swap_index more × (s'.swap_index ≡ s.swap_index + length more))

  Grown-same : (hash : String) (s : Progressed F) → Grown hash s s []
  Grown-same hash s = (sym (append-nil s.collected.transactions), (tt, omega arith))

  collect-Grown :
      (hash : String) (s : Progressed F) (f : Found F)
      → KeepsIndex f (hash, s.swap_index)
      → (more : List (Transaction F)) × Grown hash s (collect s f) more
  collect-Grown hash s (found_swap t) h = (t ∷ [], (refl, ((h.kept, tt), refl)))
  collect-Grown hash s (found_liquidity l) h = ([], Grown-same hash s)
  collect-Grown hash s (found_pool p) h = ([], Grown-same hash s)
  collect-Grown hash s (found_created p t) h = ([], Grown-same hash s)
  collect-Grown hash s found_nothing h = ([], Grown-same hash s)

  Grown-trans :
      (hash : String) (s s' s'' : Progressed F) (xs ys : List (Transaction F))
      → Grown hash s s' xs
      → Grown hash s' s'' ys
      → Grown hash s s'' (xs ++ ys)
  Grown-trans hash s s' s'' xs ys g h = (
    h.0 ∙ ap (λ l. l ++ ys) g.0 ∙ append_assoc s.collected.transactions xs ys,
    (
      OwnRows-append hash s.swap_index xs ys g.1.0 (subst (λ i. OwnRows hash i ys) g.1.1 h.1.0),
      omega (arith, g.1.1, h.1.1, length-append xs ys),
    ),
  )

module _ {L F : Type 0} (x : LogExtractor L F) where
  abbrev pub StampsIndex : Type 0
  StampsIndex =
      (tx : UnifiedTransaction) (i : ℕ) (log : L) (k : ℕ)
      → KeepsIndex (x.found_in tx i log k) (tx.tx_hash, k)

  scan_log-Grown :
      StampsIndex
      → (tx : UnifiedTransaction) (i : ℕ) (s : Progressed F) (log : L)
      → (more : List (Transaction F)) × Grown tx.tx_hash s (scan_log x tx i s log) more
  unfolding scan_log
  scan_log-Grown stamps tx i s log =
      if_elim (λ s'. (more : List (Transaction F)) × Grown tx.tx_hash s s' more) (x.reads log)
        (collect s (x.found_in tx i log s.swap_index)) s
        (λ _.
          collect-Grown tx.tx_hash s (x.found_in tx i log s.swap_index)
            (stamps tx i log s.swap_index))
        (λ _. ([], Grown-same tx.tx_hash s))

  scan_logs-Grown :
      StampsIndex
      → (tx : UnifiedTransaction) (i : ℕ) (s : Progressed F) (logs : List L)
      → (more : List (Transaction F)) × Grown tx.tx_hash s (scan_logs x tx i s logs) more
  unfolding scan_logs
  scan_logs-Grown stamps tx i s [] = ([], Grown-same tx.tx_hash s)
  scan_logs-Grown stamps tx i s (log ∷ logs) =
      let s' = scan_log x tx i s log in
      let (xs, g) = scan_log-Grown stamps tx i s log in
      let (ys, h) = scan_logs-Grown stamps tx (i + 1) s' logs in
      (xs ++ ys, Grown-trans tx.tx_hash s s' (scan_logs x tx (i + 1) s' logs) xs ys g h)

  -- The rows that were added between the two are those of the transactions.
  abbrev Added : Progressed F → Progressed F → List UnifiedTransaction → Type 0
  Added s s' txs =
      (more : List (Transaction F)) × (s'.collected.transactions ≡ s.collected.transactions ++ more)
      × RowsOf txs more

  scan_transactions-Added :
      StampsIndex
      → (s : Progressed F) (txs : List UnifiedTransaction) → Added s (scan_transactions x s txs) txs
  unfolding scan_transactions
  scan_transactions-Added stamps s [] = ([], sym (append-nil s.collected.transactions), refl)
  scan_transactions-Added stamps s (tx ∷ txs) =
      let s' : Progressed F = record s { swap_index = 0 } in
      let (own, g) = scan_logs-Grown stamps tx 0 s' (x.logs_of tx) in
      let (rest, e, h) = scan_transactions-Added stamps (scan_logs x tx 0 s' (x.logs_of tx)) txs in
      (
        own ++ rest,
        e ∙ ap (λ l. l ++ rest) g.0 ∙ append_assoc s.collected.transactions own rest,
        (own, rest, refl, (g.1.0, h)),
      )

  -- The transactions that ExtractDexData visits.
  unfoldable pub visited : List UnifiedBlock → List UnifiedTransaction
  visited [] = []
  visited (block ∷ blocks) =
      (if x.supports_chain block.chain_type then block.transactions else []) ++ visited blocks

  step_Added :
      StampsIndex
      → (b : Bool) (s : Progressed F) (txs : List UnifiedTransaction)
      → Added s (if b then scan_transactions x s txs else s) (if b then txs else [])
  step_Added stamps true s txs = scan_transactions-Added stamps s txs
  step_Added stamps false s txs = ([], sym (append-nil s.collected.transactions), refl)

  scan_blocks-Added :
      StampsIndex
      → (s : Progressed F) (blocks : List UnifiedBlock)
      → Added s (scan_blocks x s blocks) (visited blocks)
  unfolding scan_blocks visited
  scan_blocks-Added stamps s [] = ([], sym (append-nil s.collected.transactions), refl)
  scan_blocks-Added stamps s (block ∷ blocks) =
      let b = x.supports_chain block.chain_type in
      let txs = if b then block.transactions else [] in
      let s' = if b then scan_transactions x s block.transactions else s in
      let (xs, e, h) = step_Added stamps b s block.transactions in
      let (ys, e', h') = scan_blocks-Added stamps s' blocks in
      (
        xs ++ ys,
        e' ∙ ap (λ l. l ++ ys) e ∙ append_assoc s.collected.transactions xs ys,
        RowsOf-append txs (visited blocks) xs ys h h',
      )

  pub extract_dex_data-RowsOf :
      StampsIndex
      → (blocks : List UnifiedBlock)
      → RowsOf (visited blocks) (extract_dex_data x blocks).transactions
  unfolding extract_dex_data
  extract_dex_data-RowsOf stamps blocks =
      let s : Progressed F = record { collected = empty_dex_data; swap_index = 0 } in
      let (more, e, h) = scan_blocks-Added stamps s blocks in
      subst (λ l. RowsOf (visited blocks) l) (sym e) h
