-- ===== src/Uniswap/Swap/Decode.antt =====
-- What the parsers read off data that is a list of 32-byte words.
use mathlib.Core.Path.{ap₂, subst}
use chain_parse_service.Base.{
  ℕ, zero, suc, ◌+◌, ◌*◌, ◌-◌, ◌^◌, ◌<◌, ◌≡◌, refl, sym, ap, ◌∙◌, List, [], ◌∷◌, ◌++◌, length,
  length-append, take, drop, arith, if◌then◌else◌, ltb,
}
use chain_parse_service.Base.Int.{ℤ, pos, negsuc, ltb_ℤ}
use chain_parse_service.Types.{EthLog}
use chain_parse_service.Uniswap.Bytes.{
  set_bytes, slice, encode, length-encode, set_bytes-encode, to_signed_int256,
  to_signed_int256-encode, word_of, FitsInt256,
}
use chain_parse_service.Uniswap.Floats.{Floats, abs}
use chain_parse_service.Uniswap.Logs.{EthLib}
use chain_parse_service.Model.{side_in, side_out}
use chain_parse_service.Uniswap.Swap.{Leg, SwapEvent, v2_leg, v3_leg, v2_event, v3_event}

-- The ABI encoding of a list of words.
abbrev pub words : List ℕ → List ℕ
words [] = []
words (w ∷ ws) = encode 32 w ++ words ws

pub drop-past : (n : ℕ) (xs ys : List ℕ) → drop (length xs + n) (xs ++ ys) ≡ drop n ys
drop-past n [] ys = let e : 0 + n ≡ n = omega arith in ap (λ k. drop k ys) e
drop-past n (x ∷ xs) ys =
    let e : suc (length xs) + n ≡ suc (length xs + n) = omega arith in
    ap (λ k. drop k (x ∷ xs ++ ys)) e ∙ drop-past n xs ys

pub take-length_append : (xs ys : List ℕ) → take (length xs) (xs ++ ys) ≡ xs
take-length_append [] ys = refl
take-length_append (x ∷ xs) ys = ap (λ zs. x ∷ zs) (take-length_append xs ys)

pub length-words : (ws : List ℕ) → length (words ws) ≡ 32 * length ws
length-words [] = refl
length-words (w ∷ ws) =
    omega (arith, length-append (encode 32 w) (words ws), length-encode 32 w, length-words ws)

take-word : (w : ℕ) (ws : List ℕ) → take 32 (words (w ∷ ws)) ≡ encode 32 w
take-word w ws =
    ap (λ n. take n (encode 32 w ++ words ws)) (sym (length-encode 32 w))
    ∙ take-length_append (encode 32 w) (words ws)

drop-words : (pre ws : List ℕ) → drop (32 * length pre) (words (pre ++ ws)) ≡ words ws
drop-words [] ws = refl
drop-words (p ∷ pre) ws =
    let n : 32 * suc (length pre) ≡ length (encode 32 p) + 32 * length pre =
      omega (arith, length-encode 32 p) in
    ap (λ k. drop k (encode 32 p ++ words (pre ++ ws))) n
    ∙ drop-past (32 * length pre) (encode 32 p) (words (pre ++ ws))
    ∙ drop-words pre ws

word_at :
    (pre : List ℕ) (w : ℕ) (post : List ℕ)
    → slice (32 * length pre) (32 * length pre + 32) (words (pre ++ w ∷ post)) ≡ encode 32 w
unfolding slice
word_at pre w post =
    let n : 32 * length pre + 32 - 32 * length pre ≡ 32 = omega arith in
    ap (λ k. take k (drop (32 * length pre) (words (pre ++ w ∷ post)))) n
    ∙ ap (λ bs. take 32 bs) (drop-words pre (w ∷ post))
    ∙ take-word w post

abbrev magnitude : ℤ → ℤ
magnitude (pos n) = pos n
magnitude (negsuc n) = pos (suc n)

abs-magnitude : (z : ℤ) → abs z ≡ magnitude z
abs-magnitude (pos n) = let e : n + 0 ≡ n = omega arith in ap pos e
abs-magnitude (negsuc n) = let e : 0 + suc n ≡ suc n = omega arith in ap pos e

-- The amount of a token without its sign, and the direction that the sign gives: a negative amount
-- went out of the pool.
abbrev pub IsV3Leg : ℤ → Leg → Type 0
IsV3Leg (pos n) leg = (leg.amount ≡ pos n) × (leg.side ≡ side_in)
IsV3Leg (negsuc n) leg = (leg.amount ≡ pos (suc n)) × (leg.side ≡ side_out)

v3_leg-IsV3Leg : (z : ℤ) → IsV3Leg z (v3_leg z)
unfolding v3_leg
v3_leg-IsV3Leg (pos n) = (abs-magnitude (pos n), ground arith)
v3_leg-IsV3Leg (negsuc n) = (abs-magnitude (negsuc n), ground arith)

-- The amount paid into the pool, or where there is none the amount that went out.
abbrev pub IsV2Leg : ℕ → ℕ → Leg → Type 0
IsV2Leg zero received leg = (leg.amount ≡ pos received) × (leg.side ≡ side_out)
IsV2Leg (suc n) received leg = (leg.amount ≡ pos (suc n)) × (leg.side ≡ side_in)

v2_leg-IsV2Leg : (paid received : ℕ) → IsV2Leg paid received (v2_leg paid received)
unfolding v2_leg
v2_leg-IsV2Leg zero received = (refl, refl)
v2_leg-IsV2Leg (suc n) received = (ground arith, ground arith)

abbrev nat_word : ℕ → EthLog → ℕ
nat_word k log = set_bytes (slice (32 * k) (32 * k + 32) log.bytes)

abbrev int_word : ℕ → EthLog → ℤ
int_word k log = to_signed_int256 (slice (32 * k) (32 * k + 32) log.bytes)

-- The legs are those of the four amounts in the data: paid of token 0 and 1, received of 0 and 1.
abbrev pub ReadsV2 : {F : Type 0} → EthLog → SwapEvent F → Type 0
ReadsV2 log e =
    IsV2Leg (nat_word 0 log) (nat_word 2 log) e.leg0
    × IsV2Leg (nat_word 1 log) (nat_word 3 log) e.leg1

-- The legs are those of the two signed amounts in the data.
abbrev pub ReadsV3 : {F : Type 0} → EthLog → SwapEvent F → Type 0
ReadsV3 log e = IsV3Leg (int_word 0 log) e.leg0 × IsV3Leg (int_word 1 log) e.leg1

-- What was paid of token 0, or where nothing was, the amount of token 1 without its sign.
abbrev pub paid_of : ℤ → ℤ → ℤ
paid_of (pos (suc n)) y = pos (suc n)
paid_of (pos zero) y = magnitude y
paid_of (negsuc n) y = magnitude y

paid_of_lem : (x y : ℤ) → (if ltb_ℤ (pos 0) x then abs x else abs y) ≡ paid_of x y
paid_of_lem (pos (suc n)) y = ground (arith, abs-magnitude (pos (suc n)))
paid_of_lem (pos zero) y = abs-magnitude y
paid_of_lem (negsuc n) y = ground (arith, abs-magnitude y)

-- Word `k` as a number and as a two's-complement integer.
pub nat_at :
    (pre : List ℕ) (w : ℕ) (post : List ℕ)
    → w < 256 ^ 32
    → set_bytes (slice (32 * length pre) (32 * length pre + 32) (words (pre ++ w ∷ post))) ≡ w
nat_at pre w post h = ap set_bytes (word_at pre w post) ∙ set_bytes-encode 32 w h

pub int_at :
    (pre : List ℕ) (z : ℤ) (post : List ℕ)
    → FitsInt256 z
    → to_signed_int256
        (slice (32 * length pre) (32 * length pre + 32) (words (pre ++ word_of z ∷ post)))
      ≡ z
int_at pre z post h =
    ap to_signed_int256 (word_at pre (word_of z) post) ∙ to_signed_int256-encode z h

module _ (fl : Floats) (lib : EthLib) where
  pub v2_event-ReadsV2 : (log : EthLog) → ReadsV2 log (v2_event fl lib log)
  unfolding v2_event
  v2_event-ReadsV2 log = (v2_leg-IsV2Leg _ _, v2_leg-IsV2Leg _ _)

  pub v3_event-ReadsV3 : (log : EthLog) → ReadsV3 log (v3_event fl lib log)
  unfolding v3_event
  v3_event-ReadsV3 log = (v3_leg-IsV3Leg _, v3_leg-IsV3Leg _)

  -- Of data that is the encoding of the four amounts of a V2 swap, token 0 gets the amount paid, or
  -- the amount received where nothing was paid, token 1 likewise, and the amount that the
  -- transaction carries is what was paid of token 0, or of token 1 where nothing was.
  pub v2_event-words :
      (log : EthLog) (a b c d : ℕ)
      → log.bytes ≡ words (a ∷ b ∷ c ∷ d ∷ [])
      → a < 256 ^ 32
      → b < 256 ^ 32
      → c < 256 ^ 32
      → d < 256 ^ 32
      → ((v2_event fl lib log).leg0 ≡ v2_leg a c)
        × ((v2_event fl lib log).leg1 ≡ v2_leg b d)
        × ((v2_event fl lib log).amount_in ≡ pos (if ltb 0 a then a else b))
  unfolding v2_event
  v2_event-words log a b c d e ha hb hc hd =
      let read : (i j : ℕ)
          → set_bytes (slice i j log.bytes) ≡ set_bytes (slice i j (words (a ∷ b ∷ c ∷ d ∷ []))) =
        λ i j. ap (λ bs. set_bytes (slice i j bs)) e in
      let ra = read 0 32 ∙ nat_at [] a (b ∷ c ∷ d ∷ []) ha in
      let rb = read 32 64 ∙ nat_at (a ∷ []) b (c ∷ d ∷ []) hb in
      let rc = read 64 96 ∙ nat_at (a ∷ b ∷ []) c (d ∷ []) hc in
      let rd = read 96 128 ∙ nat_at (a ∷ b ∷ c ∷ []) d [] hd in
      (ap₂ v2_leg ra rc, ap₂ v2_leg rb rd, ap₂ (λ x y. pos (if ltb 0 x then x else y)) ra rb)

  -- Of data whose first two words are the two's-complement encodings of the amounts of a V3 swap,
  -- each token gets the absolute value of its amount, and goes out of the pool where the amount is
  -- negative, into it else; the amount that the transaction carries is what was paid of token 0, or
  -- the absolute value of the amount of token 1 where none was.
  pub v3_event-words :
      (log : EthLog) (x y : ℤ) (rest : List ℕ)
      → log.bytes ≡ words (word_of x ∷ word_of y ∷ rest)
      → FitsInt256 x
      → FitsInt256 y
      → IsV3Leg x (v3_event fl lib log).leg0
        × IsV3Leg y (v3_event fl lib log).leg1
        × ((v3_event fl lib log).amount_in ≡ paid_of x y)
  unfolding v3_event
  v3_event-words log x y rest e hx hy =
      let read : (i j : ℕ)
          → to_signed_int256 (slice i j log.bytes)
            ≡ to_signed_int256 (slice i j (words (word_of x ∷ word_of y ∷ rest))) =
        λ i j. ap (λ bs. to_signed_int256 (slice i j bs)) e in
      let rx = read 0 32 ∙ int_at [] x (word_of y ∷ rest) hx in
      let ry = read 32 64 ∙ int_at (word_of x ∷ []) y rest hy in
      (
        subst (λ n. IsV3Leg x (v3_leg n)) (sym rx) (v3_leg-IsV3Leg x),
        subst (λ n. IsV3Leg y (v3_leg n)) (sym ry) (v3_leg-IsV3Leg y),
        ap₂ (λ m n. if ltb_ℤ (pos 0) m then abs m else abs n) rx ry ∙ paid_of_lem x y,
      )
