-- ===== src/Uniswap/Swap/Side.antt =====
-- The side of a swap (determineSide) when the two tokens change places.
use chain_parse_service.Base.{
  ◌≡◌, refl, sym, ap, ◌∙◌, ℕ, true, Bool, false, ◌≢◌, String, arith, if◌then◌else◌, str_eq,
}
use chain_parse_service.Base.Int.{ℤ, pos, negsuc, ltb_ℤ}
use chain_parse_service.Uniswap.Text.{to_lower}
use chain_parse_service.Uniswap.State.{
  is_quote, UniswapExtractor, side_of_ranks, get_quote_asset_rank, determine_side,
}

abbrev pub opposite : String → String
opposite s = if str_eq s "buy" then "sell" else if str_eq s "sell" then "buy" else s

is_quote_pos : (n : ℕ) → is_quote (pos n) ≡ true
is_quote_pos n = ground arith

is_quote_negsuc : (n : ℕ) → is_quote (negsuc n) ≡ false
is_quote_negsuc n = ground arith

sold : (m n : ℕ) → side_of_ranks (negsuc m) (pos n) ≡ "sell"
unfolding side_of_ranks
sold m n = ground (arith, is_quote_pos n, is_quote_negsuc m)

bought : (m n : ℕ) → side_of_ranks (pos m) (negsuc n) ≡ "buy"
unfolding side_of_ranks
bought m n = ground (arith, is_quote_pos m, is_quote_negsuc n)

unranked : (m n : ℕ) → side_of_ranks (negsuc m) (negsuc n) ≡ "swap"
unfolding side_of_ranks
unranked m n = ground (arith, is_quote_negsuc m, is_quote_negsuc n)

opposite_if : (b : Bool) → (if b then "sell" else "buy") ≡ opposite (if b then "buy" else "sell")
opposite_if true = refl
opposite_if false = refl

both_quotes :
    (m n : ℕ) → side_of_ranks (pos m) (pos n) ≡ (if ltb_ℤ (pos n) (pos m) then "buy" else "sell")
unfolding side_of_ranks
both_quotes m n = ground (arith, is_quote_pos m, is_quote_pos n)

flip_of :
    (m n : ℕ)
    → m ≢ n
    → (if ltb_ℤ (pos m) (pos n) then "buy" else "sell")
      ≡ opposite (if ltb_ℤ (pos n) (pos m) then "buy" else "sell")
flip_of m n h = ground (arith, opposite_if (ltb_ℤ (pos n) (pos m)))

side_of_ranks-opposite : (a b : ℤ) → a ≢ b → side_of_ranks b a ≡ opposite (side_of_ranks a b)
unfolding side_of_ranks
side_of_ranks-opposite (pos m) (pos n) h =
    both_quotes n m ∙ flip_of m n (λ e. h (ap pos e)) ∙ sym (ap opposite (both_quotes m n))
side_of_ranks-opposite (pos m) (negsuc n) h = sold n m ∙ sym (ap opposite (bought m n))
side_of_ranks-opposite (negsuc m) (pos n) h = bought n m ∙ sym (ap opposite (sold m n))
side_of_ranks-opposite (negsuc m) (negsuc n) h = unranked n m ∙ sym (ap opposite (unranked m n))

-- Where the quote ranks of two tokens differ, swapping the first for the second is a "buy" exactly
-- if swapping the second for the first is a "sell", and the other way round.
pub determine_side-opposite :
    (u : UniswapExtractor) (t0 t1 : String)
    → get_quote_asset_rank u (to_lower t0) ≢ get_quote_asset_rank u (to_lower t1)
    → determine_side u t1 t0 ≡ opposite (determine_side u t0 t1)
unfolding determine_side
determine_side-opposite u t0 t1 h = side_of_ranks-opposite _ _ h
