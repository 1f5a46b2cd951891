-- ===== src/Base/Strings.antt =====
-- The functions of Go's package strings that the code uses, on texts as their characters.
use Prim.Native.Nat.{ℕ, zero, suc, ◌+◌}
use Prim.Native.Char.{code}
use Prim.Native.String.{String}
use mathlib.Core.Bool.{Bool, true, false, ◌||◌}
use mathlib.Core.Option.{Option, none, some}
use chain_parse_service.Base.Tests.{◌==◌, str_eq, if◌then◌else◌}

abbrev next : Option ℕ → Option ℕ
next none = none
next (some n) = some (n + 1)

-- `s + t`
unfoldable pub join : String → String → String
join String.[] t = t
join (String.◌∷◌ c s) t = String.◌∷◌ c (join s t)

-- `strings.Index` of a text of one character.
unfoldable pub position : ℕ → String → Option ℕ
position k String.[] = none
position k (String.◌∷◌ c s) = let rest = next (position k s) in if code c == k then some 0 else rest

-- The text from a position on, and up to one.
unfoldable pub drop_chars : ℕ → String → String
drop_chars zero s = s
drop_chars (suc n) String.[] = String.[]
drop_chars (suc n) (String.◌∷◌ c s) = drop_chars n s

unfoldable pub take_chars : ℕ → String → String
take_chars zero s = String.[]
take_chars (suc n) String.[] = String.[]
take_chars (suc n) (String.◌∷◌ c s) = String.◌∷◌ c (take_chars n s)

-- `strings.ReplaceAll` of a character by nothing.
unfoldable pub without : ℕ → String → String
without k String.[] = String.[]
without k (String.◌∷◌ c s) =
    let rest = without k s in if code c == k then rest else String.◌∷◌ c rest

unfoldable pub has_prefix : String → String → Bool
has_prefix s String.[] = true
has_prefix String.[] (String.◌∷◌ p ps) = false
has_prefix (String.◌∷◌ c s) (String.◌∷◌ p ps) =
    let rest = has_prefix s ps in if code c == code p then rest else false

unfoldable pub contains_text : String → String → Bool
unfolding has_prefix
contains_text String.[] t = str_eq t ""
contains_text (String.◌∷◌ c s) t = has_prefix (String.◌∷◌ c s) t || contains_text s t

unfoldable pub has_suffix : String → String → Bool
has_suffix String.[] t = str_eq t ""
has_suffix (String.◌∷◌ c s) t = str_eq (String.◌∷◌ c s) t || has_suffix s t
