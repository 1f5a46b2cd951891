-- ===== src/Bsc/Rows.antt =====
-- The amount of a V3 swap of PancakeSwap.
use chain_parse_service.Base.{
  ℕ, ◌^◌, ◌≤◌, ◌<◌, ◌≡◌, refl, ◌∙◌, Bool, true, false, Option, none, some, List, [], ◌∷◌, arith,
  if◌then◌else◌, ltb, length,
}
use mathlib.Core.Path.{ap₂}
use chain_parse_service.Base.Int.{ℤ, pos, negsuc}
use chain_parse_service.Model.{Transaction}
use chain_parse_service.Types.{UnifiedTransaction, EthLog}
use chain_parse_service.Uniswap.Floats.{Floats}
use chain_parse_service.Uniswap.Bytes.{word_of, FitsInt256}
use chain_parse_service.Uniswap.Logs.{EthLib}
use chain_parse_service.Uniswap.Swap.Decode.{words, length-words, int_at}
use chain_parse_service.Bsc.PancakeSwap.{parse_v3_swap, v3_amount_in}

module _ (fl : Floats) (lib : EthLib) where
  -- The amount of the row, if there is one.
  abbrev pub amount_of : Option (Transaction fl.Float) → Option ℤ
  amount_of none = none
  amount_of (some t) = some t.amount

  amount_of_row :
      (b : Bool) (t : Transaction fl.Float)
      → b ≡ false
      → amount_of (if b then none else some t) ≡ some t.amount
  amount_of_row true t h = absurd (ground (arith, h))
  amount_of_row false t h = refl

  amount_of-parse_v3_swap :
      (log : EthLog) (tx : UnifiedTransaction) (i k : ℕ) (x y : ℤ) (rest : List ℕ)
      → 3 ≤ length rest
      → FitsInt256 x
      → FitsInt256 y
      → amount_of (
          parse_v3_swap fl lib (record log { bytes = words (word_of x ∷ word_of y ∷ rest) }) tx i k)
        ≡ some (v3_amount_in x y)
  unfolding parse_v3_swap
  amount_of-parse_v3_swap log tx i k x y rest long hx hy =
      let bs = words (word_of x ∷ word_of y ∷ rest) in
      let size : 160 ≤ length bs = omega (arith, length-words (word_of x ∷ word_of y ∷ rest)) in
      amount_of_row (ltb (length bs) 160) _ (ground (arith, size))
      ∙ ap₂ (λ m n. some (v3_amount_in m n)) (int_at [] x (word_of y ∷ rest) hx)
          (int_at (word_of x ∷ []) y rest hy)

  -- Of a V3 swap of PancakeSwap whose data has five words, of which the first two are the
  -- two's-complement encodings of the amounts of the tokens, there is a row, with the amount paid where one
  -- token was paid and the other received; but if token 0 moved not at all, the row has the amount
  -- 0, however much of token 1 was paid.
  pub parse_v3_swap-words :
      (log : EthLog) (tx : UnifiedTransaction) (i k a b : ℕ) (rest : List ℕ)
      → 3 ≤ length rest
      → a < 2 ^ 255
      → b < 2 ^ 255
      → let amount : ℤ → ℤ → Option ℤ = λ x y. amount_of (
          parse_v3_swap fl lib
            (record log { bytes = words (word_of x ∷ word_of y ∷ rest) })
            tx
            i
            k) in
        (amount (pos a) (negsuc b) ≡ some (pos a))
        × ((amount (negsuc a) (pos b) ≡ some (pos b)) × (amount (pos 0) (pos b) ≡ some (pos 0)))
  parse_v3_swap-words log tx i k a b rest long ha hb =
      let read = amount_of-parse_v3_swap log tx i k in
      (
        read (pos a) (negsuc b) rest long ha hb ∙ ground arith,
        (
          read (negsuc a) (pos b) rest long ha hb ∙ ground arith,
          read (pos 0) (pos b) rest long (omega arith) hb ∙ refl,
        ),
      )
