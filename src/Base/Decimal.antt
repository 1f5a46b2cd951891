-- ===== src/Base/Decimal.antt =====
-- Decimal texts of integers: what `%d` of fmt and `strconv.ParseInt(s, 10, 64)` do.
use Prim.Native.Nat.{ℕ, zero, suc, ◌+◌, ◌-◌, ◌*◌, ◌/◌, ◌%◌, ◌^◌, ◌≤◌, ◌<◌}
use Prim.Native.Char.{Char, code}
use Prim.Native.String.{String}
use mathlib.Core.Path.{◌≡◌, refl, ap, ◌∙◌}
use mathlib.Core.Bool.{Bool, ◌&&◌}
use mathlib.Core.Option.{Option, none, some}
use mathlib.Core.List.{List, [], ◌∷◌}
use native.Mathlib.Omega.{arith}
use chain_parse_service.Base.Tests.{ltb, leb, ◌==◌, lt→ltb, if◌then◌else◌}
use chain_parse_service.Base.Lists.{All, length}
use chain_parse_service.Base.Int.{ℤ, pos, negsuc}

unfoldable pub digit : ℕ → Char
digit zero = "0"
digit (suc zero) = "1"
digit (suc (suc zero)) = "2"
digit (suc (suc (suc zero))) = "3"
digit (suc (suc (suc (suc zero)))) = "4"
digit (suc (suc (suc (suc (suc zero))))) = "5"
digit (suc (suc (suc (suc (suc (suc zero)))))) = "6"
digit (suc (suc (suc (suc (suc (suc (suc zero))))))) = "7"
digit (suc (suc (suc (suc (suc (suc (suc (suc zero)))))))) = "8"
digit _ = "9"

pub code-digit : (d : ℕ) → d < 10 → code (digit d) ≡ 48 + d
unfolding digit
code-digit zero h = refl
code-digit (suc zero) h = refl
code-digit (suc (suc zero)) h = refl
code-digit (suc (suc (suc zero))) h = refl
code-digit (suc (suc (suc (suc zero)))) h = refl
code-digit (suc (suc (suc (suc (suc zero))))) h = refl
code-digit (suc (suc (suc (suc (suc (suc zero)))))) h = refl
code-digit (suc (suc (suc (suc (suc (suc (suc zero))))))) h = refl
code-digit (suc (suc (suc (suc (suc (suc (suc (suc zero)))))))) h = refl
code-digit (suc (suc (suc (suc (suc (suc (suc (suc (suc zero))))))))) h = refl
code-digit (suc (suc (suc (suc (suc (suc (suc (suc (suc (suc n)))))))))) h = absurd (omega arith)

-- The digits of `n` before `acc`, most significant first; `f` is fuel.
unfoldable pub digits_from : ℕ → ℕ → List ℕ → List ℕ
digits_from zero n acc = acc
digits_from (suc f) n acc =
    let more = digits_from f (n / 10) ((n % 10) ∷ acc) in if ltb n 10 then n ∷ acc else more

unfoldable pub value : ℕ → List ℕ → ℕ
value acc [] = acc
value acc (d ∷ ds) = value (acc * 10 + d) ds

value-digits_from : (f n : ℕ) (acc : List ℕ) → n < f → value 0 (digits_from f n acc) ≡ value n acc
unfolding digits_from value
value-digits_from zero n acc h = absurd (omega arith)
value-digits_from (suc f) n acc h =
    let whole : n / 10 * 10 + n % 10 ≡ n = omega arith in
    let small : 0 * 10 + n ≡ n = omega arith in
    ground (arith, value-digits_from f (n / 10) ((n % 10) ∷ acc), whole, small)

abbrev pub IsDigit : ℕ → Type 0
IsDigit d = d < 10

pub All-digits_from : (f n : ℕ) (acc : List ℕ) → All IsDigit acc → All IsDigit (digits_from f n acc)
unfolding digits_from
All-digits_from zero n acc h = h
All-digits_from (suc f) n acc h =
    let low : n % 10 < 10 = omega arith in
    ground (arith, All-digits_from f (n / 10) ((n % 10) ∷ acc), low)

abbrev pub digits : ℕ → List ℕ
digits n = digits_from (suc n) n []

-- The digits as characters, before a rest.
unfoldable pub text_of : List ℕ → String → String
unfolding digit
text_of [] rest = rest
text_of (d ∷ ds) rest = String.◌∷◌ (digit d) (text_of ds rest)

-- `%d`, before a rest.
unfoldable pub show_int : ℤ → String → String
unfolding text_of digits_from
show_int (pos n) rest = text_of (digits n) rest
show_int (negsuc n) rest = String.◌∷◌ "-" (text_of (digits (suc n)) rest)

unfoldable pub parse_digits : ℕ → String → Option ℕ
parse_digits acc String.[] = some acc
parse_digits acc (String.◌∷◌ c s) =
    let more = parse_digits (acc * 10 + (code c - 48)) s in
    if leb 48 (code c) && leb (code c) 57 then more else none

-- The empty text is no number.
unfoldable pub parse_nat : String → Option ℕ
unfolding parse_digits
parse_nat String.[] = none
parse_nat (String.◌∷◌ c s) = parse_digits 0 (String.◌∷◌ c s)

abbrev positive : Option ℕ → Option ℤ
positive none = none
positive (some n) = some (pos n)

abbrev minus : ℕ → ℤ
minus zero = pos zero
minus (suc n) = negsuc n

abbrev negative : Option ℕ → Option ℤ
negative none = none
negative (some n) = some (minus n)

-- An integer with an optional sign, of any size.
unfoldable pub parse_signed : String → Option ℤ
unfolding parse_nat
parse_signed String.[] = none
parse_signed (String.◌∷◌ c s) =
    if code c == 45
    then negative (parse_nat s)
    else if code c == 43
    then positive (parse_nat s)
    else positive (parse_nat (String.◌∷◌ c s))

abbrev pub fits_int64 : ℤ → Bool
fits_int64 (pos n) = ltb n (2 ^ 63)
fits_int64 (negsuc n) = ltb n (2 ^ 63)

abbrev in_range : Option ℤ → Option ℤ
in_range none = none
in_range (some z) = if fits_int64 z then some z else none

-- `strconv.ParseInt(s, 10, 64)` and `strconv.Atoi`; `none` is their error.
unfoldable pub parse_int : String → Option ℤ
unfolding parse_signed
parse_int s = in_range (parse_signed s)

-- The same where the error is dropped: 0 for a text that is no number, and the nearest int64 for a
-- number out of range.
abbrev clamp : Option ℤ → ℤ
clamp none = pos 0
clamp (some (pos n)) = if ltb n (2 ^ 63) then pos n else pos (2 ^ 63 - 1)
clamp (some (negsuc n)) = if ltb n (2 ^ 63) then negsuc n else negsuc (2 ^ 63 - 1)

unfoldable pub int_or_zero : String → ℤ
unfolding parse_signed
int_or_zero s = clamp (parse_signed s)

abbrev clamp_uint : Option ℕ → ℕ
clamp_uint none = 0
clamp_uint (some n) = if ltb n (2 ^ 64) then n else 2 ^ 64 - 1

-- `strconv.ParseUint(s, 10, 64)` where the error is dropped.
unfoldable pub uint_or_zero : String → ℕ
unfolding parse_nat
uint_or_zero s = clamp_uint (parse_nat s)

abbrev pub FitsInt64 : ℤ → Type 0
FitsInt64 (pos n) = n < 2 ^ 63
FitsInt64 (negsuc n) = n < 2 ^ 63

parse_digits-text_of :
    (acc : ℕ) (ds : List ℕ)
    → All IsDigit ds
    → parse_digits acc (text_of ds "") ≡ some (value acc ds)
unfolding parse_digits text_of value
parse_digits-text_of acc [] h = refl
parse_digits-text_of acc (d ∷ ds) h =
    let c = code-digit d h.0 in
    let here : acc * 10 + (code (digit d) - 48) ≡ acc * 10 + d = omega (arith, c) in
    ground (arith, c, here, parse_digits-text_of (acc * 10 + d) ds h.1)

parse_nat-text_of :
    (d : ℕ) (ds : List ℕ)
    → All IsDigit (d ∷ ds)
    → parse_nat (text_of (d ∷ ds) "") ≡ some (value 0 (d ∷ ds))
unfolding parse_nat text_of
parse_nat-text_of d ds h = parse_digits-text_of 0 (d ∷ ds) h

-- The part before the first ':', and the part after it (`strings.Cut`).
abbrev cons_cut : Char → Option (String × String) → Option (String × String)
cons_cut c none = none
cons_cut c (some (s, t)) = some (String.◌∷◌ c s, t)

unfoldable pub cut_colon : String → Option (String × String)
cut_colon String.[] = none
cut_colon (String.◌∷◌ c s) =
    let more = cut_colon s in if code c == 58 then some ("", s) else cons_cut c more

cut_colon-text_of :
    (ds : List ℕ) (rest : String)
    → All IsDigit ds
    → cut_colon (text_of ds (String.◌∷◌ ":" rest)) ≡ some (text_of ds "", rest)
unfolding cut_colon text_of
cut_colon-text_of [] rest h = refl
cut_colon-text_of (d ∷ ds) rest h = ground (arith, code-digit d h.0, cut_colon-text_of ds rest h.1)

-- The number is cut off at the colon, whatever follows it.
pub cut_colon-show_int :
    (z : ℤ) (rest : String)
    → cut_colon (show_int z (String.◌∷◌ ":" rest)) ≡ some (show_int z "", rest)
unfolding show_int cut_colon
cut_colon-show_int (pos n) rest =
    cut_colon-text_of (digits n) rest (All-digits_from (suc n) n [] tt)
cut_colon-show_int (negsuc n) rest =
    ap (cons_cut "-")
      (cut_colon-text_of (digits (suc n)) rest (All-digits_from (suc (suc n)) (suc n) [] tt))

length-digits_from : (f n : ℕ) (acc : List ℕ) → length acc ≤ length (digits_from f n acc)
unfolding digits_from
length-digits_from zero n acc = omega arith
length-digits_from (suc f) n acc = ground (arith, length-digits_from f (n / 10) ((n % 10) ∷ acc))

pub digits_nonempty : (f n : ℕ) (acc : List ℕ) → 0 < length (digits_from (suc f) n acc)
unfolding digits_from
digits_nonempty f n acc = ground (arith, length-digits_from f (n / 10) ((n % 10) ∷ acc))

parse_unsigned :
    (ds : List ℕ)
    → 0 < length ds
    → All IsDigit ds
    → (parse_signed (text_of ds "") ≡ some (pos (value 0 ds)))
      × (parse_nat (text_of ds "") ≡ some (value 0 ds))
unfolding parse_signed text_of
parse_unsigned [] h a = absurd (omega arith)
parse_unsigned (d ∷ ds) h a =
    let c = code-digit d a.0 in
    let read = parse_nat-text_of d ds a in (ground (arith, c, read), read)

parse_signed-show_nat :
    (n : ℕ)
    → (parse_signed (text_of (digits n) "") ≡ some (pos n))
      × (parse_nat (text_of (digits n) "") ≡ some n)
unfolding value
parse_signed-show_nat n =
    let v = value-digits_from (suc n) n [] (omega arith) in
    let (p, q) =
      parse_unsigned (digits n) (digits_nonempty n n []) (All-digits_from (suc n) n [] tt) in
    (p ∙ ap (λ k. some (pos k)) v, q ∙ ap some v)

-- ParseInt reads back what `%d` writes for an int64.
pub parse_int-show_int : (z : ℤ) → FitsInt64 z → parse_int (show_int z "") ≡ some z
unfolding parse_int show_int
parse_int-show_int (pos n) h =
    ap in_range (parse_signed-show_nat n).0 ∙ ground (arith, lt→ltb n (2 ^ 63) h)
parse_int-show_int (negsuc n) h =
    ap (λ o. in_range (negative o)) (parse_signed-show_nat (suc n)).1
    ∙ ground (arith, lt→ltb n (2 ^ 63) h)

clamp_fits : (o : Option ℤ) → FitsInt64 (clamp o)
clamp_fits none = omega arith
clamp_fits (some (pos n)) = ground arith
clamp_fits (some (negsuc n)) = ground arith

pub int_or_zero_fits : (s : String) → FitsInt64 (int_or_zero s)
unfolding int_or_zero
int_or_zero_fits s = clamp_fits (parse_signed s)
