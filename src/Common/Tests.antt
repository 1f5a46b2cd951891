-- ===== src/Common/Tests.antt =====
-- A list with a text twice.
use chain_parse_service.Base.Strings.{join}
use chain_parse_service.Common.PoolType.{pool_type, extract_pool_tokens-pool_type}
use Prim.Native.Char.{code}
use chain_parse_service.Base.Int.{pos}
use chain_parse_service.Base.Decimal.{IsDigit, digits, digits_from, text_of, digit, code-digit}
use chain_parse_service.Common.Convert.{
  SetString, big_int_from_string, string_from_big_int, truncate_string,
}
use chain_parse_service.Common.Radix.{hex_value, big_int_from_string-string_from_big_int}
use chain_parse_service.Base.{
  ℕ, ◌+◌, ◌*◌, ◌-◌, ◌==◌, ◌≤◌, ◌<◌, ap, ◌∙◌, All, some, none, arith, if◌then◌else◌, String, ◌≡◌,
  refl, List, [], ◌∷◌,
}
use chain_parse_service.Common.{
  contains_string, remove_seen, remove_duplicate_strings, extract_pool_tokens, format_address,
}

abbrev repeated : List String
repeated = "a" ∷ "b" ∷ "a" ∷ []

second_dropped : remove_duplicate_strings repeated ≡ "a" ∷ "b" ∷ []
unfolding remove_seen contains_string
second_dropped = refl

sui_pool :
    extract_pool_tokens "0x1::pool::Pool<0xa::usdc::USDC, 0x2::sui::SUI>"
    ≡ ("0xa::usdc::USDC", "0x2::sui::SUI")
unfolding extract_pool_tokens
sui_pool = refl

-- A coin with a type argument of its own is not read.
nested_coin :
    extract_pool_tokens "0x1::pool::Pool<0xa::lp::LP<0xb::c::C>, 0x2::sui::SUI>" ≡ ("", "")
unfolding extract_pool_tokens
nested_coin = refl

prefixed : format_address "AB" ≡ "0xab"
unfolding format_address join
prefixed = refl

extract_pool_tokens-pool_type_example : extract_pool_tokens (pool_type "P" "a" "b" "!") ≡ ("a", "b")
extract_pool_tokens-pool_type_example =
    extract_pool_tokens-pool_type "P" "a" "b" "!" (refl, tt) (refl, tt)
      ((refl, tt), (refl, tt), (refl, tt), (refl, tt))
      ((refl, tt), (refl, tt), (refl, tt), (refl, tt))

-- A package that reads decimal digits in base 16.
read_hex : ℕ → String → ℕ
read_hex acc String.[] = acc
read_hex acc (String.◌∷◌ c s) = read_hex (acc * 16 + (code c - 48)) s

abbrev hex_only : SetString
hex_only base s = if base == 16 then some (pos (read_hex 0 s)) else none

read_hex-text_of :
    (acc : ℕ) (ds : List ℕ) → All IsDigit ds → read_hex acc (text_of ds "") ≡ hex_value acc ds
unfolding read_hex hex_value text_of
read_hex-text_of acc [] h = refl
read_hex-text_of acc (d ∷ ds) h =
    let same : code (digit d) - 48 ≡ d = omega (arith, code-digit d h.0) in
    ap (λ z. read_hex (acc * 16 + z) (text_of ds "")) same ∙ read_hex-text_of (acc * 16 + d) ds h.1

big_int_from_string-string_from_big_int_example :
    (big_int_from_string hex_only (string_from_big_int (some (pos 25)))
      ≡ some (pos (hex_value 0 (digits 25))))
    × (10 ≤ 25 → 25 < hex_value 0 (digits 25))
big_int_from_string-string_from_big_int_example =
    big_int_from_string-string_from_big_int hex_only 25
      (λ ds h l. ap (λ n. some (pos n)) (read_hex-text_of 0 ds h))

-- 25 comes back as 37.
read_wrong : hex_value 0 (digits 25) ≡ 37
unfolding hex_value digits_from
read_wrong = refl

cut_short : truncate_string "0123456789" 6 ≡ some "012..."
unfolding truncate_string
cut_short = refl

no_room : truncate_string "0123456789" 2 ≡ none
unfolding truncate_string
no_room = refl
