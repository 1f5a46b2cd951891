-- ===== src/Cache/Batch/Creates.antt =====
-- GetOrCreateCache against the history.
use chain_parse_service.Base.{
  ℕ, String, ◌≡◌, refl, sym, ◌∙◌, ap, Bool, true, false, Option, none, some, [], ◌∷◌, if◌then◌else◌,
  str_eq, str_eq_iff, arith, All-append, length, length-append,
}
use chain_parse_service.Base.Dict.{lookup, lookup-insert}
use chain_parse_service.Cache.{new_cache}
use chain_parse_service.Cache.Batch.{new_token_cache, BatchTokenCache, create_cache}
use chain_parse_service.Cache.Batch.Views.{creates, View, opened, viewed}
use chain_parse_service.Cache.Batch.Cells.{
  WellKeyed, IsValid, Shown, get_elem?-append, get_elem?-length,
}

-- GetOrCreateCache, by what the map has for the asset.
abbrev pub found_or_created : BatchTokenCache → String → ℕ → Option ℕ → BatchTokenCache × ℕ
found_or_created b asset ttl q = elim q [ none ↦ create_cache b asset ttl | some r ↦ (b, r) ]

module _ (b : BatchTokenCache) (valid : IsValid b) (asset : String) (ttl : ℕ) where
  pub created-IsValid :
      (q : Option ℕ) → lookup asset b.caches ≡ q → IsValid (found_or_created b asset ttl q).0
  unfolding new_token_cache new_cache
  created-IsValid none e = record {
    allocated = λ a r h. ground (
      arith,
      lookup-insert asset a (length b.heap) b.caches,
      length-append b.heap (new_token_cache ttl ∷ []),
      valid.allocated a r,
      h,
    );
    distinct = λ a j r h h'. ground (
      arith,
      lookup-insert asset a (length b.heap) b.caches,
      lookup-insert asset j (length b.heap) b.caches,
      str_eq_iff asset a,
      str_eq_iff asset j,
      valid.allocated a r,
      valid.allocated j r,
      valid.distinct a j r,
      h,
      h',
    );
    keyed = All-append WellKeyed b.heap (new_token_cache ttl ∷ []) valid.keyed (tt, tt);
  }
  created-IsValid (some r) e = valid

  module _ (now : ℕ) (a k : String) where
    fresh-Shown :
        (same : Bool) (v : Option View)
        → str_eq asset a ≡ same
        → lookup asset b.caches ≡ none
        → Shown now a k b v
        → Shown now a k
            (create_cache b asset ttl).0
            (if same then opened ttl (length b.heap) v else v)
    unfolding new_token_cache new_cache lookup
    fresh-Shown true none t e h = (
      ground (arith, lookup-insert asset a (length b.heap) b.caches, t),
      rw (get_elem?-length b.heap (new_token_cache ttl)) (refl, refl),
    )
    fresh-Shown true (some w) t e h = absurd (ground (arith, str_eq_iff asset a, e, h.0, t))
    fresh-Shown false none t e h =
        ground (arith, lookup-insert asset a (length b.heap) b.caches, t, h)
    fresh-Shown false (some w) t e h = (
      ground (arith, lookup-insert asset a (length b.heap) b.caches, t, h.0),
      rw
          (get_elem?-append b.heap (new_token_cache ttl ∷ []) w.handle
            (valid.allocated a w.handle h.0))
          (h.1),
    )

    kept-Shown :
        (same : Bool) (r : ℕ) (v : Option View)
        → str_eq asset a ≡ same
        → lookup asset b.caches ≡ some r
        → Shown now a k b v
        → Shown now a k b (if same then opened ttl r v else v)
    kept-Shown true r none t e h = absurd (ground (arith, str_eq_iff asset a, e, h, t))
    kept-Shown true r (some w) t e h = h
    kept-Shown false r v t e h = h

    pub created-Shown :
        (q : Option ℕ) (r : ℕ) (v : Option View)
        → lookup asset b.caches ≡ q
        → (found_or_created b asset ttl q).1 ≡ r
        → Shown now a k b v
        → Shown now a k (found_or_created b asset ttl q).0 (viewed a k v (creates asset ttl r))
    created-Shown none r v e s h = rw (sym s) (fresh-Shown (str_eq asset a) v refl e h)
    created-Shown (some p) r v e s h = kept-Shown (str_eq asset a) r v refl (e ∙ ap some s) h
