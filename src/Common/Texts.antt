-- ===== src/Common/Texts.antt =====
-- internal/utils/common.go: what RemoveDuplicateStrings keeps.
use chain_parse_service.Base.{
  String, ◌≡◌, refl, Bool, true, false, List, [], ◌∷◌, ◌++◌, ◌||◌, str_eq_iff, arith, if◌then◌else◌,
}
use chain_parse_service.Common.{contains_string, remove_seen, remove_duplicate_strings}

contains_string-append :
    (xs ys : List String) (t : String)
    → contains_string (xs ++ ys) t ≡ (contains_string xs t || contains_string ys t)
unfolding contains_string
contains_string-append [] ys t = refl
contains_string-append (x ∷ xs) ys t = ground (arith, contains_string-append xs ys t)

contains_string-remove_seen :
    (seen xs : List String) (t : String)
    → (contains_string seen t || contains_string (remove_seen seen xs) t)
      ≡ (contains_string seen t || contains_string xs t)
unfolding contains_string remove_seen
contains_string-remove_seen seen [] t = refl
contains_string-remove_seen seen (x ∷ xs) t = ground (
  arith,
  str_eq_iff x t,
  contains_string-append seen (x ∷ []) t,
  contains_string-remove_seen seen xs t,
  contains_string-remove_seen (seen ++ (x ∷ [])) xs t,
)

contains_string-remove_seen_new :
    (seen xs : List String) (t : String)
    → contains_string seen t ≡ true
    → contains_string (remove_seen seen xs) t ≡ false
unfolding contains_string remove_seen
contains_string-remove_seen_new seen [] t h = refl
contains_string-remove_seen_new seen (x ∷ xs) t h = ground (
  arith,
  str_eq_iff x t,
  contains_string-append seen (x ∷ []) t,
  contains_string-remove_seen_new seen xs t,
  contains_string-remove_seen_new (seen ++ (x ∷ [])) xs t,
)

-- Each text occurs once in the list.
unfoldable pub Distinct : List String → Type 0
unfolding contains_string
Distinct [] = Unit
Distinct (x ∷ xs) = (contains_string xs x ≡ false) × Distinct xs

if-Distinct :
    (b : Bool) (x : String) (old new : List String)
    → Distinct old
    → contains_string new x ≡ false
    → Distinct new
    → Distinct (if b then old else (x ∷ new))
unfolding Distinct
if-Distinct true x old new o f n = o
if-Distinct false x old new o f n = (f, n)

contains_string_last :
    (seen : List String) (x : String) → contains_string (seen ++ (x ∷ [])) x ≡ true
unfolding contains_string
contains_string_last seen x = ground (arith, str_eq_iff x x, contains_string-append seen (x ∷ []) x)

remove_seen-Distinct : (seen xs : List String) → Distinct (remove_seen seen xs)
unfolding Distinct remove_seen
remove_seen-Distinct seen [] = tt
remove_seen-Distinct seen (x ∷ xs) =
    if-Distinct (contains_string seen x) x (remove_seen seen xs) (remove_seen (seen ++ (x ∷ [])) xs)
      (remove_seen-Distinct seen xs)
      (contains_string-remove_seen_new (seen ++ (x ∷ [])) xs x (contains_string_last seen x))
      (remove_seen-Distinct (seen ++ (x ∷ [])) xs)

-- RemoveDuplicateStrings leaves each text once, loses none and adds none.
pub remove_duplicate_strings_lem :
    (xs : List String)
    → Distinct (remove_duplicate_strings xs)
      × ((t : String) → contains_string (remove_duplicate_strings xs) t ≡ contains_string xs t)
unfolding contains_string
remove_duplicate_strings_lem xs =
    (remove_seen-Distinct [] xs, λ t. contains_string-remove_seen [] xs t)
