-- ===== src/Common/Convert.antt =====
-- internal/utils/converter.go: texts as numbers, times and addresses. Texts are ASCII, so a byte is a
-- character.
use chain_parse_service.Base.{
  ℕ, ◌+◌, ◌*◌, ◌-◌, ◌%◌, ◌^◌, String, Bool, true, false, ◌&&◌, Option, none, some, leb, ltb, str_eq,
  ◌==◌, suc, if◌then◌else◌,
}
use chain_parse_service.Base.Int.{ℤ, pos, pos_part, neg_part, ◌-ℤ◌}
use chain_parse_service.Base.Strings.{join, has_prefix, take_chars, drop_chars}
use chain_parse_service.Base.Decimal.{show_int, parse_int}
use chain_parse_service.Uniswap.Text.{to_lower}

-- `SetString` of big.Int, by its base.
abbrev pub SetString : Type 0
SetString = ℕ → String → Option ℤ

abbrev pub or_else : Option ℤ → Option ℤ → Option ℤ
or_else none o = o
or_else (some n) o = some n

unfoldable pub trim_prefix : String → String
unfolding has_prefix drop_chars
trim_prefix s = if has_prefix s "0x" then drop_chars 2 s else s

-- `none` is the error.
unfoldable pub big_int_from_string : SetString → String → Option ℤ
unfolding trim_prefix
big_int_from_string set s =
    if str_eq s "" then some (pos 0) else or_else (set 16 (trim_prefix s)) (set 10 (trim_prefix s))

unfoldable pub string_from_big_int : Option ℤ → String
unfolding show_int
string_from_big_int none = "0"
string_from_big_int (some n) = show_int n ""

-- `hex` is `Text(16)`.
unfoldable pub hex_string_from_big_int : (ℤ → String) → Option ℤ → String
unfolding join
hex_string_from_big_int hex none = "0x0"
hex_string_from_big_int hex (some n) = join "0x" (hex n)

unfoldable pub int64_from_string : String → Option ℤ
unfolding parse_int
int64_from_string s = if str_eq s "" then some (pos 0) else parse_int s

pub data Moment : Type 0 where
  zero_time : Moment
  unix_nanoseconds : ℤ → Moment
  unix_seconds : ℤ → Moment

-- The int64 of the same residue modulo 2^64.
unfoldable pub wrap_int64 : ℤ → ℤ
unfolding ◌-ℤ◌
wrap_int64 z =
    let r = (pos_part z + 2 ^ 64 - neg_part z % 2 ^ 64) % 2 ^ 64 in
    if ltb r (2 ^ 63) then pos r else pos r -ℤ pos (2 ^ 64)

abbrev million_times : ℤ → ℤ
million_times n = pos (pos_part n * 1000000) -ℤ pos (neg_part n * 1000000)

abbrev nanoseconds_of : Option ℤ → Option Moment
nanoseconds_of none = none
nanoseconds_of (some ms) = some (unix_nanoseconds (wrap_int64 (million_times ms)))

unfoldable pub time_from_timestamp_ms : String → Option Moment
unfolding parse_int wrap_int64
time_from_timestamp_ms s = if str_eq s "" then some zero_time else nanoseconds_of (parse_int s)

abbrev seconds_of : Option ℤ → Option Moment
seconds_of none = none
seconds_of (some ts) = some (unix_seconds ts)

unfoldable pub time_from_timestamp : String → Option Moment
unfolding parse_int
time_from_timestamp s = if str_eq s "" then some zero_time else seconds_of (parse_int s)

abbrev pub safe_string_value : Option String → String
safe_string_value none = ""
safe_string_value (some s) = s

unfoldable pub len : String → ℕ
len String.[] = 0
len (String.◌∷◌ c s) = suc (len s)

-- `trim` is `strings.TrimSpace`.
unfoldable pub normalize_address : (String → String) → String → String
unfolding has_prefix len to_lower
normalize_address trim address =
    let a = trim address in if has_prefix a "0x" && len a == 42 then to_lower a else a

unfoldable pub is_valid_address : String → String → Bool
unfolding to_lower has_prefix len trim_prefix
is_valid_address address chain_type =
    let chain = to_lower chain_type in
    if str_eq address ""
    then false
    else if str_eq chain "ethereum"
    then has_prefix address "0x" && len address == 42
    else if str_eq chain "bsc"
    then has_prefix address "0x" && len address == 42
    else if str_eq chain "sui"
    then len (trim_prefix address) == 64
    else if str_eq chain "solana"
    then leb 32 (len address) && leb (len address) 44
    else true

unfoldable pub generate_event_id : String → String → ℤ → String
unfolding join show_int
generate_event_id chain_type tx_hash event_index =
    join chain_type (join "_" (join tx_hash (join "_" (show_int event_index ""))))

-- For a length that is not negative; `none` is the panic of a slice that ends before its start.
unfoldable pub truncate_string : String → ℕ → Option String
unfolding len take_chars join
truncate_string s max_len =
    if leb (len s) max_len
    then some s
    else if ltb max_len 3
    then none
    else some (join (take_chars (max_len - 3) s) "...")
