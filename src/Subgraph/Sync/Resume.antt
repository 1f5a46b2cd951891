-- ===== src/Subgraph/Sync/Resume.antt =====
-- What the saved cursor promises over killed and failed runs (syncVersion and resumeCursor).
use mathlib.Core.Path.{subst}
use chain_parse_service.Base.{
  ℕ, length-drop, length-take-le, String, ◌<◌, ◌≡◌, refl, sym, ap, ◌∙◌, ◌⊎◌, inl, inr, Bool, true,
  false, Option, none, some, List, [], ◌∷◌, ◌++◌, append-nil, append_assoc, length, take, drop,
  take-append-drop, length-append, take_short, arith, All,
}
use chain_parse_service.Base.Int.{ℤ, pos, ◌-ℤ◌}
use chain_parse_service.Base.Decimal.{FitsInt64}
use chain_parse_service.Subgraph.Cursor.{
  format_cursor, of_saved, or_fallback, resume_cursor, parse_cursor-format_cursor,
}
use chain_parse_service.Subgraph.Mapping.{Entity}
use chain_parse_service.Subgraph.Sync.{
  Turn, Store, SyncResult, Pass, position, store_page, sync_pages, sync_version, sync_versions,
}
use chain_parse_service.Subgraph.Sync.Stored.{
  length-take-pos, position-append, position-cons_fits, Stored, Stored-store_page, Stored-keep,
  page_turn_cases, IsGood,
}

abbrev pub empty_store : Store
empty_store = record { pools = []; tokens = []; cursor = none }

-- `xs` are the subgraph's entities created since `initial_since`, in the order of its queries.
module _ {E : Type 0} ⦃e : Entity E⦄ (initial_since : ℤ) (xs : List E) where
  abbrev origin : ℤ × String
  origin = (initial_since -ℤ pos 1, "")

  -- The cursor stands after `done`.
  abbrev pub IsCursor : Option String → List E → Type 0
  IsCursor saved done =
      ((saved ≡ none) × (done ≡ []))
      ⊎ ((saved ≡ some (format_cursor (position origin done).0 (position origin done).1))
          × FitsInt64 (position origin done).0)

  -- The cursor stands after a prefix of the entities, all of which are stored.
  abbrev pub Covered : Store → Type 0
  Covered st =
      (done : List E) × (rest : List E) × (xs ≡ done ++ rest)
      × (IsCursor st.cursor done × Stored st done)

  resume_cursor-Covered :
      (st : Store) (readable : Bool)
      → Covered st
      → (done : List E) × (rest : List E) × (xs ≡ done ++ rest)
        × ((resume_cursor initial_since readable st.cursor ≡ position origin done) × Stored st done)
  unfolding resume_cursor position
  resume_cursor-Covered st false h = ([], xs, refl, (refl, tt))
  resume_cursor-Covered st true (done, rest, p, (inl (c, d), s)) =
      ([], xs, refl, (ap (of_saved origin) c, tt))
  resume_cursor-Covered st true (done, rest, p, (inr (c, f), s)) = (
    done,
    rest,
    p,
    (
      ap (of_saved origin) c
          ∙ ap (or_fallback origin)
              (parse_cursor-format_cursor (position origin done).0 (position origin done).1 f),
      s,
    ),
  )

  split_page :
      (n : ℕ) (done rest page : List E)
      → xs ≡ done ++ rest
      → page ≡ take n rest
      → xs ≡ (done ++ page) ++ drop n rest
  split_page n done rest page p q =
      p
      ∙ ap (λ r. done ++ r) (sym (take-append-drop n rest) ∙ ap (λ r. r ++ drop n rest) (sym q))
      ∙ sym (append_assoc done page (drop n rest))

  -- A stored page moves the cursor behind it, or leaves it where it was.
  Covered-store_page :
      (st : Store) (done page rest : List E) (ok : Bool)
      → 0 < length page
      → xs ≡ (done ++ page) ++ rest
      → Covered st
      → Stored st done
      → Covered (store_page st page (position (position origin done) page) ok)
  unfolding store_page
  Covered-store_page st done [] rest ok h p c s = absurd (omega arith)
  Covered-store_page st done (x ∷ page) rest false h p (before, after, q, (k, t)) s = (
    before,
    after,
    q,
    (k, Stored-keep st (x ∷ page) (position (position origin done) (x ∷ page)) false before t),
  )
  Covered-store_page st done (x ∷ page) rest true h p c s =
      let moved = position-append origin done (x ∷ page) in
      (
        done ++ (x ∷ page),
        rest,
        p,
        (
          inr (
            ap (λ c'. some (format_cursor c'.0 c'.1)) (sym moved),
            subst (λ c'. FitsInt64 c'.0) (sym moved)
                (position-cons_fits (position origin done) x page),
          ),
          Stored-store_page st (x ∷ page) (position (position origin done) (x ∷ page)) true done s,
        ),
      )

  module _ (first : ℕ) (query : ℤ → String → List E) where
    -- The subgraph answers with the next page of the entities behind the cursor.
    abbrev pub ServesPages : Type 0
    ServesPages =
        (done rest : List E)
        → xs ≡ done ++ rest
        → query (position origin done).0 (position origin done).1 ≡ take first rest

    sync_pages-Covered :
        ServesPages
        → (ts : List Turn) (st : Store) (done rest : List E) → xs ≡ done ++ rest
        → Covered st
        → Stored st done
        → Covered (sync_pages first query ts (position origin done) st).0
    unfolding sync_pages
    sync_pages-Covered serves [] st done rest p c s = c
    sync_pages-Covered serves (t ∷ ts) st done rest p c s =
        let here = position origin done in
        let page = query here.0 here.1 in
        let p' = split_page first done rest page p (serves done rest p) in
        let st' = store_page st page (position here page) t.cursor_ok in
        let covered = λ (h : 0 < length page).
          Covered-store_page st done page (drop first rest) t.cursor_ok h p' c s in
        page_turn_cases first query (λ r. Covered r.0) t st st' page
          (sync_pages first query ts (position here page) st') (λ _. c) (λ _. c) (λ h _. covered h)
          (λ h.
            subst (λ c'. Covered (sync_pages first query ts c' st').0)
              (position-append origin done page)
              (sync_pages-Covered serves ts st' (done ++ page) (drop first rest) p' (covered h)
                (Stored-store_page st page (position here page) t.cursor_ok done s)))

    sync_version-Covered :
        ServesPages
        → (st : Store) (p : Pass) → Covered st
        → Covered (sync_version first query initial_since st p).0
    unfolding sync_version
    sync_version-Covered serves st p c =
        let (done, rest, q, (r, s)) = resume_cursor-Covered st p.readable c in
        subst (λ c'. Covered (sync_pages first query p.turns c' st).0) (sym r)
          (sync_pages-Covered serves p.turns st done rest q c s)

    sync_versions-Covered_from :
        ServesPages
        → (st : Store) (ps : List Pass) → Covered st
        → Covered (sync_versions first query initial_since st ps)
    unfolding sync_versions
    sync_versions-Covered_from serves st [] c = c
    sync_versions-Covered_from serves st (p ∷ ps) c =
        sync_versions-Covered_from serves (sync_version first query initial_since st p).0 ps
          (sync_version-Covered serves st p c)

    rest-Stored :
        (st : Store) (page done rest : List E) (ok : Bool)
        → xs ≡ done ++ rest
        → page ≡ rest
        → Stored st done
        → Stored (store_page st page (position (position origin done) page) ok) xs
    rest-Stored st page done rest ok p q s =
        let st' = store_page st page (position (position origin done) page) ok in
        subst (λ ys. Stored st' ys) (ap (λ r. done ++ r) q ∙ sym p)
          (Stored-store_page st page (position (position origin done) page) ok done s)

    nothing_left :
        (st : Store) (done rest page : List E)
        → 0 < first
        → xs ≡ done ++ rest
        → page ≡ take first rest
        → page ≡ []
        → Stored st done
        → Stored st xs
    nothing_left st done [] page h p q z s =
        subst (λ ys. Stored st ys) (sym (append-nil done) ∙ sym p) s
    nothing_left st done (x ∷ rest) page h p q z s =
        absurd (omega (arith, length-take-pos first x rest h, ap length (sym q ∙ z)))

    sync_pages-complete :
        ServesPages
        → 0 < first
        → (ts : List Turn) (st : Store) (done rest : List E) → All IsGood ts
        → length rest < length ts
        → xs ≡ done ++ rest
        → Stored st done
        → ((sync_pages first query ts (position origin done) st).1 ≡ SyncResult.complete)
          × Stored (sync_pages first query ts (position origin done) st).0 xs
    unfolding sync_pages
    sync_pages-complete serves big [] st done rest g n p s = absurd (omega arith)
    sync_pages-complete serves big (t ∷ ts) st done rest (good, g) n p s =
        let here = position origin done in
        let page = query here.0 here.1 in
        let q = serves done rest p in
        let p' = split_page first done rest page p q in
        let st' = store_page st page (position here page) t.cursor_ok in
        page_turn_cases first query (λ r. (r.1 ≡ SyncResult.complete) × Stored r.0 xs) t st st' page
          (sync_pages first query ts (position here page) st')
          (λ h. absurd (ground (arith, h, good.0, good.1)))
          (λ h. (refl, nothing_left st done rest page big p q h s))
          (λ h k. (
            refl,
            rest-Stored st page done rest t.cursor_ok p
                (q ∙ take_short first rest (omega (arith, k, ap length q))) s,
          ))
          (λ h.
            subst
              (λ c'.
                ((sync_pages first query ts c' st').1 ≡ SyncResult.complete)
                × Stored (sync_pages first query ts c' st').0 xs)
              (position-append origin done page)
              (sync_pages-complete serves big ts st' (done ++ page) (drop first rest) g
                (omega (arith, length-drop first rest, length-take-le first rest, h, ap length q))
                p' (Stored-store_page st page (position here page) t.cursor_ok done s)))

    -- Where the subgraph answers each query with the next `first` entities behind the cursor, the
    -- saved cursor never passes an entity that is not stored: however the runs of the process are
    -- killed, fail at a query or a store, or cannot write or read the cursor, the cursor stands
    -- behind a prefix of the entities, and the pool of every entity of that prefix is stored.
    pub sync_versions-Covered :
        ServesPages
        → (ps : List Pass) → Covered (sync_versions first query initial_since empty_store ps)
    sync_versions-Covered serves ps =
        sync_versions-Covered_from serves empty_store ps ([], xs, refl, (inl (refl, refl), tt))

    -- Where moreover the page size is positive, a run with more turns than there are entities, in
    -- which no query and no store fails, completes, whatever the runs before it did and whether or
    -- not the cursor can be read or written, and afterwards the pool of every entity is stored.
    pub sync_version-complete :
        ServesPages
        → 0 < first
        → (ps : List Pass) (p : Pass) → All IsGood p.turns
        → length xs < length p.turns
        → let before = sync_versions first query initial_since empty_store ps in
          ((sync_version first query initial_since before p).1 ≡ SyncResult.complete)
          × Stored (sync_version first query initial_since before p).0 xs
    unfolding sync_version
    sync_version-complete serves big ps p g n =
        let before = sync_versions first query initial_since empty_store ps in
        let (done, rest, q, (r, s)) =
          resume_cursor-Covered before p.readable (sync_versions-Covered serves ps) in
        subst
          (λ c'.
            ((sync_pages first query p.turns c' before).1 ≡ SyncResult.complete)
            × Stored (sync_pages first query p.turns c' before).0 xs)
          (sym r)
          (sync_pages-complete serves big p.turns before done rest g
            (omega (arith, length-append done rest, ap length q)) q s)
