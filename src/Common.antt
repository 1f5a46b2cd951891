-- ===== src/Common.antt =====
-- internal/utils/common.go: the fields of an event as a map of untyped values, and lists of texts.
pub mod Texts
pub mod PoolType
pub mod Convert
pub mod Radix
pub mod Nullable
mod Tests
use chain_parse_service.Base.{
  ℕ, ◌+◌, ◌-◌, leb, String, Bool, true, false, Option, none, some, List, [], ◌∷◌, ◌++◌, ◌||◌,
  str_eq, if◌then◌else◌,
}
use chain_parse_service.Base.Dict.{Dict, lookup}
use chain_parse_service.Base.Int.{ℤ, pos}
use chain_parse_service.Base.Strings.{join, position, take_chars, drop_chars, without, has_prefix}
use chain_parse_service.Uniswap.Text.{to_lower}

-- A value of a map of untyped values; `other` is a value of a type that no accessor reads.
pub data Field (F : Type 0) : Type 0 where
  text : String → Field F
  int64 : ℤ → Field F
  int : ℤ → Field F
  float64 : F → Field F
  bool : Bool → Field F
  other : Field F

-- What the code takes from the standard library: the decimal parsers of big.Int and strconv, and
-- the conversions of a float64.
pub record Numbers (F : Type 0) : Type 0 where
  pub set_string : String → Option ℤ
  pub parse_int : String → Option ℤ
  pub to_int64 : F → ℤ
  pub nonzero : F → Bool
  pub parse_float : String → Option F
  pub of_int : ℤ → F
  pub zero : F

abbrev pub or_zero : Option ℤ → ℤ
or_zero none = pos 0
or_zero (some n) = n

module _ {F : Type 0} where
  abbrev text_or_empty : Option (Field F) → String
  text_or_empty (some (text s)) = s
  text_or_empty _ = ""

  unfoldable pub get_string_field : Dict (Field F) → String → String
  unfolding lookup
  get_string_field fields key = text_or_empty (lookup key fields)

  abbrev big_int : Numbers F → Option (Field F) → Option ℤ
  big_int lib (some (text s)) = lib.set_string s
  big_int lib (some (int64 v)) = some v
  big_int lib (some (float64 v)) = some (lib.to_int64 v)
  big_int lib (some (int v)) = some v
  big_int lib _ = none

  unfoldable pub get_big_int_field : Numbers F → Dict (Field F) → String → Option ℤ
  unfolding lookup
  get_big_int_field lib fields key = big_int lib (lookup key fields)

  abbrev int_or_zero : Numbers F → Option (Field F) → ℤ
  int_or_zero lib (some (int64 v)) = v
  int_or_zero lib (some (int v)) = v
  int_or_zero lib (some (float64 v)) = lib.to_int64 v
  int_or_zero lib (some (text s)) = or_zero (lib.parse_int s)
  int_or_zero lib _ = pos 0

  unfoldable pub get_int_field : Numbers F → Dict (Field F) → String → ℤ
  unfolding lookup
  get_int_field lib fields key = int_or_zero lib (lookup key fields)

  abbrev is_set : Numbers F → Option (Field F) → Bool
  is_set lib (some (bool b)) = b
  is_set lib (some (text s)) = str_eq s "true" || str_eq s "1"
  is_set lib (some (float64 v)) = lib.nonzero v
  is_set lib _ = false

  unfoldable pub get_bool_field : Numbers F → Dict (Field F) → String → Bool
  unfolding lookup
  get_bool_field lib fields key = is_set lib (lookup key fields)

  abbrev parsed_or_zero : Numbers F → Option F → F
  parsed_or_zero lib none = lib.zero
  parsed_or_zero lib (some f) = f

  abbrev float_or_zero : Numbers F → Option (Field F) → F
  float_or_zero lib (some (float64 v)) = v
  float_or_zero lib (some (int64 v)) = lib.of_int v
  float_or_zero lib (some (int v)) = lib.of_int v
  float_or_zero lib (some (text s)) = parsed_or_zero lib (lib.parse_float s)
  float_or_zero lib _ = lib.zero

  unfoldable pub get_float_field : Numbers F → Dict (Field F) → String → F
  unfolding lookup
  get_float_field lib fields key = float_or_zero lib (lookup key fields)

  abbrev pub safe_string_to_int64 : Numbers F → String → ℤ
  safe_string_to_int64 lib s = or_zero (lib.parse_int s)

  abbrev pub safe_string_to_big_int : Numbers F → String → ℤ
  safe_string_to_big_int lib s = or_zero (lib.set_string s)

-- The types of a list of events, where `M` is `map[string]interface{}`; `none` is an item that is
-- not a map.
pub data Events (M : Type 0) : Type 0 where
  items : List (Option M) → Events M
  maps : List M → Events M
  neither : Events M

module _ {M : Type 0} where
  unfoldable pub maps_of : List (Option M) → List M
  maps_of [] = []
  maps_of (none ∷ events) = maps_of events
  maps_of (some event ∷ events) = event ∷ maps_of events

  -- A nil slice is the empty list.
  unfoldable pub parse_events_from_interface : Events M → List M
  unfolding maps_of
  parse_events_from_interface (items events) = maps_of events
  parse_events_from_interface (maps events) = events
  parse_events_from_interface neither = []

-- The first two parts of a text between commas, where it has two.
abbrev pub before_comma : String → Option ℕ → String
before_comma s none = s
before_comma s (some n) = take_chars n s

abbrev pub split_pair : String → Option ℕ → String × String
split_pair s none = ("", "")
split_pair s (some n) =
    let rest = drop_chars (n + 1) s in (take_chars n s, before_comma rest (position b',' rest))

abbrev pub tokens_between : String → Option ℕ → Option ℕ → String × String
tokens_between s (some i) (some j) =
    if leb j i
    then ("", "")
    else let inner = without b' ' (take_chars (j - (i + 1)) (drop_chars (i + 1) s)) in
      split_pair inner (position b',' inner)
tokens_between s _ _ = ("", "")

unfoldable pub extract_pool_tokens : String → String × String
unfolding position take_chars drop_chars without
extract_pool_tokens pool_type =
    tokens_between pool_type (position b'<' pool_type) (position b'>' pool_type)

unfoldable pub format_address : String → String
unfolding to_lower has_prefix
format_address addr =
    let lower = to_lower addr in
    if str_eq addr "" then "" else if has_prefix lower "0x" then lower else join "0x" lower

unfoldable pub contains_string : List String → String → Bool
contains_string [] item = false
contains_string (s ∷ slice) item =
    let rest = contains_string slice item in if str_eq s item then true else rest

-- The loop of RemoveDuplicateStrings; the keys that are seen are the texts of the result.
unfoldable pub remove_seen : List String → List String → List String
unfolding contains_string
remove_seen seen [] = []
remove_seen seen (item ∷ slice) =
    let old = remove_seen seen slice in
    let new = item ∷ remove_seen (seen ++ (item ∷ [])) slice in
    if contains_string seen item then old else new

abbrev pub remove_duplicate_strings : List String → List String
remove_duplicate_strings slice = remove_seen [] slice
