-- ===== src/Common/Radix.antt =====
-- internal/utils/converter.go: what BigIntFromString makes of a decimal text, and how long the texts
-- of TruncateString are.
use Prim.Native.Char.{Char}
use chain_parse_service.Base.{
  ℕ, zero, suc, ◌+◌, ◌*◌, ◌/◌, ◌%◌, ◌≤◌, ◌<◌, String, ◌≡◌, ◌≢◌, refl, ap, ◌∙◌, false, some, List,
  [], ◌∷◌, false, Bool-cases, inl, inr, arith, length, All, str_eq, str_eq_iff, if◌then◌else◌,
}
use chain_parse_service.Base.Int.{pos}
use chain_parse_service.Base.Strings.{has_prefix}
use chain_parse_service.Base.Decimal.{
  IsDigit, digits, digits_from, text_of, digit, code-digit, All-digits_from, digits_nonempty,
}
use chain_parse_service.Common.Convert.{
  SetString, or_else, trim_prefix, big_int_from_string, string_from_big_int,
}

-- The number with these hexadecimal digits, after a number.
unfoldable pub hex_value : ℕ → List ℕ → ℕ
hex_value acc [] = acc
hex_value acc (d ∷ ds) = hex_value (acc * 16 + d) ds

-- In base 16 the package reads a text of decimal digits as their hexadecimal value.
abbrev pub ReadsHex : SetString → Type 0
ReadsHex set =
    (ds : List ℕ)
    → All IsDigit ds
    → 0 < length ds
    → set 16 (text_of ds "") ≡ some (pos (hex_value 0 ds))

hex_value_mono : (a b : ℕ) (ds : List ℕ) → a ≤ b → hex_value a ds ≤ hex_value b ds
unfolding hex_value
hex_value_mono a b [] h = h
hex_value_mono a b (d ∷ ds) h = hex_value_mono (a * 16 + d) (b * 16 + d) ds (omega arith)

hex_value-digits_from :
    (f n : ℕ) (acc : List ℕ) → n < f → hex_value n acc ≤ hex_value 0 (digits_from f n acc)
unfolding digits_from hex_value
hex_value-digits_from zero n acc h = absurd (omega arith)
hex_value-digits_from (suc f) n acc h =
    let up = hex_value_mono n (n / 10 * 16 + n % 10) acc (omega arith) in
    let same = hex_value_mono n (0 * 16 + n) acc (omega arith) in
    ground (arith, up, same, hex_value-digits_from f (n / 10) ((n % 10) ∷ acc))

lt-hex_value : (n : ℕ) → 10 ≤ n → n < hex_value 0 (digits n)
unfolding digits_from hex_value
lt-hex_value n h =
    let up = hex_value-digits_from n (n / 10) ((n % 10) ∷ []) (omega arith) in ground (arith, up)

no_prefix : (ds : List ℕ) → All IsDigit ds → has_prefix (text_of ds "") "0x" ≡ false
unfolding has_prefix text_of
no_prefix [] h = refl
no_prefix (d ∷ []) h = ground arith
no_prefix (d ∷ e ∷ ds) h = ground (arith, code-digit d h.0, code-digit e h.1.0)

trim_digits : (ds : List ℕ) → All IsDigit ds → trim_prefix (text_of ds "") ≡ text_of ds ""
unfolding trim_prefix
trim_digits ds h = ground (arith, no_prefix ds h)

ne_nil : (c : Char) (s : String) → String.◌∷◌ c s ≢ ""
ne_nil c s e = cc

str_eq_nonempty : (c : Char) (s : String) → str_eq (String.◌∷◌ c s) "" ≡ false
str_eq_nonempty c s = elim (Bool-cases (str_eq (String.◌∷◌ c s) "")) [
  | inl h ↦ absurd (ne_nil c s ((str_eq_iff (String.◌∷◌ c s) "").0 h))
  | inr h ↦ h
]

of_digits :
    (set : SetString) (ds : List ℕ)
    → ReadsHex set
    → All IsDigit ds
    → 0 < length ds
    → big_int_from_string set (text_of ds "") ≡ some (pos (hex_value 0 ds))
unfolding big_int_from_string text_of
of_digits set [] reads h l = absurd (omega arith)
of_digits set (d ∷ ds) reads h l =
    let s = text_of (d ∷ ds) "" in
    ap (λ b. if b then some (pos 0) else or_else (set 16 (trim_prefix s)) (set 10 (trim_prefix s)))
      (str_eq_nonempty (digit d) (text_of ds ""))
    ∙ ap (λ t. or_else (set 16 t) (set 10 t)) (trim_digits (d ∷ ds) h)
    ∙ ap (λ o. or_else o (set 10 s)) (reads (d ∷ ds) h l)

-- BigIntFromString does not read back what StringFromBigInt writes: it takes the decimal digits of
-- a natural number for hexadecimal ones, so that every number from 10 on comes out larger.
pub big_int_from_string-string_from_big_int :
    (set : SetString) (n : ℕ)
    → ReadsHex set
    → (big_int_from_string set (string_from_big_int (some (pos n)))
        ≡ some (pos (hex_value 0 (digits n))))
      × (10 ≤ n → n < hex_value 0 (digits n))
unfolding string_from_big_int
big_int_from_string-string_from_big_int set n reads = (
  of_digits set (digits n) reads (All-digits_from (suc n) n [] tt) (digits_nonempty n n []),
  lt-hex_value n,
)
