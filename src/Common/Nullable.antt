-- ===== src/Common/Nullable.antt =====
-- internal/utils/db_helpers.go: the nullable columns of SQL; and CalculatePrice of
-- internal/utils/common.go.
use chain_parse_service.Base.{
  ◌+◌, ◌%◌, ◌-◌, ◌^◌, ◌==◌, String, ◌≡◌, Bool, true, false, ◌&&◌, not, Option, none, some, ltb,
  str_eq, arith, if◌then◌else◌,
}
use chain_parse_service.Base.Int.{ℤ, pos, pos_part, neg_part, ◌-ℤ◌}
use chain_parse_service.Base.Decimal.{show_int, fits_int64}
use chain_parse_service.Common.Convert.{SetString}

pub record NullString : Type 0 where
  pub text : String
  pub valid : Bool

pub record NullInt : Type 0 where
  pub number : ℤ
  pub valid : Bool

unfoldable pub big_int_to_null_string : Option ℤ → NullString
unfolding show_int
big_int_to_null_string none = record { text = ""; valid = false }
big_int_to_null_string (some n) = record { text = show_int n ""; valid = true }

-- A number beyond int64 becomes NULL.
unfoldable pub big_int_to_null_int64 : Option ℤ → NullInt
big_int_to_null_int64 none = record { number = pos 0; valid = false }
big_int_to_null_int64 (some n) =
    if fits_int64 n
    then record { number = n; valid = true }
    else record { number = pos 0; valid = false }

unfoldable pub string_to_null_string : String → NullString
string_to_null_string s =
    if str_eq s "" then record { text = ""; valid = false } else record { text = s; valid = true }

-- `int32(val)`, the residue modulo 2^32.
unfoldable pub int_to_null_int : ℤ → NullInt
unfolding ◌-ℤ◌
int_to_null_int z =
    let r = (pos_part z + 2 ^ 32 - neg_part z % 2 ^ 32) % 2 ^ 32 in
    record { number = if ltb r (2 ^ 31) then pos r else pos r -ℤ pos (2 ^ 32); valid = true }

-- The new value of the target, which keeps its old one for NULL.
unfoldable pub process_null_string : NullString → String → String
process_null_string ns target = if ns.valid then ns.text else target

abbrev parsed_or : Option ℤ → Option ℤ → Option ℤ
parsed_or target none = target
parsed_or target (some n) = some n

unfoldable pub process_null_string_to_big_int : SetString → NullString → Option ℤ → Option ℤ
process_null_string_to_big_int set ns target =
    if ns.valid && not (str_eq ns.text "") then parsed_or target (set 10 ns.text) else target

unfoldable pub process_null_int64_to_big_int : NullInt → Option ℤ → Option ℤ
process_null_int64_to_big_int ni target = if ni.valid then some ni.number else target

unfoldable pub process_null_int32_to_int : NullInt → ℤ → ℤ
process_null_int32_to_int ni target = if ni.valid then ni.number else target

-- A number goes through an int64 column unchanged where it fits, and else leaves the target alone.
process_null_int64-big_int_to_null_int64 :
    (n : ℤ) (target : Option ℤ)
    → process_null_int64_to_big_int (big_int_to_null_int64 (some n)) target
      ≡ (if fits_int64 n then some n else target)
unfolding process_null_int64_to_big_int big_int_to_null_int64
process_null_int64-big_int_to_null_int64 n target = ground arith

-- `quo` is the quotient of two integers by `big.Float`, as a float64.
unfoldable pub calculate_price : {F : Type 0} → F → (ℤ → ℤ → F) → Option ℤ → Option ℤ → F
calculate_price zero quo none amount_out = zero
calculate_price zero quo (some amount_in) none = zero
calculate_price zero quo (some amount_in) (some amount_out) =
    if pos_part amount_in + neg_part amount_in == 0 then zero else quo amount_out amount_in
