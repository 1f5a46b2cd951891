-- ===== src/Subgraph/Tests.antt =====
-- A subgraph of two pairs that is read one pair at a time.
use mathlib.Core.Path.{subst₂}
use chain_parse_service.Base.{
  ℕ, zero, suc, String, ◌≡◌, refl, sym, ap, ◌∙◌, Bool, true, false, List, [], ◌∷◌, ◌++◌, length,
  take, drop, drop-length_append, if◌then◌else◌, str_eq, arith,
}
use chain_parse_service.Base.Int.{ℤ, pos, ◌-ℤ◌}
use chain_parse_service.Subgraph.Mapping.{V2Pair, TokenField, v2_entity}
use chain_parse_service.Subgraph.Sync.{
  Turn, Pass, SyncResult, position, sync_version, sync_versions,
}
use chain_parse_service.Subgraph.Sync.Resume.{
  Covered, ServesPages, empty_store, sync_versions-Covered, sync_version-complete,
}
use chain_parse_service.Subgraph.Sync.Stored.{Stored}

abbrev token : String → TokenField
token id = record { id = id; symbol = "T"; name = "Token"; decimals = "18" }

abbrev pair : String → String → V2Pair
pair id time = record {
  id = id;
  created_at_timestamp = time;
  token0 = token "0x1";
  token1 = token "0x2";
}

abbrev pairs : List V2Pair
pairs = pair "0xa" "7" ∷ pair "0xb" "7" ∷ []

abbrev answer : ℤ → String → List V2Pair
answer ts id =
    if str_eq id ""
    then pair "0xa" "7" ∷ []
    else if str_eq id "0xa"
    then pair "0xb" "7" ∷ []
    else []

take-length_append : {A : Type 0} (xs ys : List A) → take (length xs) (xs ++ ys) ≡ xs
take-length_append [] ys = refl
take-length_append (x ∷ xs) ys = ap (λ zs. x ∷ zs) (take-length_append xs ys)

take_nil : (n : ℕ) → take {A = V2Pair} n [] ≡ []
take_nil zero = refl
take_nil (suc n) = refl

drop_nil : (n : ℕ) → drop {A = V2Pair} n [] ≡ []
drop_nil zero = refl
drop_nil (suc n) = refl

answer-position :
    (n : ℕ)
    → let c = position (pos 0 -ℤ pos 1, "") (take n pairs) in answer c.0 c.1 ≡ take 1 (drop n pairs)
unfolding position
answer-position zero = refl
answer-position (suc zero) = refl
answer-position (suc (suc n)) =
    subst₂
      (λ d r.
        let c = position (pos 0 -ℤ pos 1, "") (pair "0xa" "7" ∷ pair "0xb" "7" ∷ d) in
        answer c.0 c.1 ≡ take 1 r)
      (sym (take_nil n)) (sym (drop_nil n)) refl

answer_serves : ServesPages (pos 0) pairs 1 answer
answer_serves done rest p =
    subst₂ (λ d r. let c = position (pos 0 -ℤ pos 1, "") d in answer c.0 c.1 ≡ take 1 r)
      (ap (take (length done)) p ∙ take-length_append done rest)
      (ap (drop (length done)) p ∙ drop-length_append done rest) (answer-position (length done))

abbrev turn : Bool → Bool → Turn
turn store_ok cursor_ok = record { query_ok = true; store_ok = store_ok; cursor_ok = cursor_ok }

-- A run that stores one pair and is killed, and one whose second page cannot be stored.
abbrev runs : List Pass
runs =
    record { readable = true; turns = turn true true ∷ [] }
    ∷ record { readable = false; turns = turn true false ∷ turn false true ∷ [] }
    ∷ []

abbrev last_run : Pass
last_run = record {
  readable = true;
  turns = turn true true ∷ turn true false ∷ turn true true ∷ [];
}

sync_versions-Covered_example :
    Covered (pos 0) pairs (sync_versions 1 answer (pos 0) empty_store runs)
sync_versions-Covered_example = sync_versions-Covered (pos 0) pairs 1 answer answer_serves runs

sync_version-complete_example :
    let before = sync_versions 1 answer (pos 0) empty_store runs in
    ((sync_version 1 answer (pos 0) before last_run).1 ≡ SyncResult.complete)
    × Stored (sync_version 1 answer (pos 0) before last_run).0 pairs
sync_version-complete_example =
    sync_version-complete (pos 0) pairs 1 answer answer_serves (omega arith) runs last_run
      ((refl, refl), ((refl, refl), ((refl, refl), tt))) (omega arith)
