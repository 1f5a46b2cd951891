-- ===== src/Uniswap/Bytes.antt =====
-- internal/parser/dexs/utils.go: big-endian words. `set_bytes` is `new(big.Int).SetBytes`.
use native.Mathlib.Nat.{pow-suc, mul_comm, div-div-eq-div-mul}
use chain_parse_service.Base.{
  ℕ, zero, suc, ◌+◌, ◌-◌, ◌*◌, ◌/◌, ◌%◌, ◌^◌, ◌<◌, ◌≡◌, refl, ap, ◌∙◌, sym, List, [], ◌∷◌, ◌++◌,
  arith, ◌==◌, if◌then◌else◌, length, length-append, take, drop,
}
use chain_parse_service.Base.Int.{ℤ, pos, negsuc, ◌-ℤ◌}

unfoldable pub bytes_from : ℕ → List ℕ → ℕ
bytes_from acc [] = acc
bytes_from acc (b ∷ bs) = bytes_from (acc * 256 + b) bs

unfoldable pub set_bytes : List ℕ → ℕ
unfolding bytes_from
set_bytes bs = bytes_from 0 bs

-- `data[i:j]`, where the length has been checked.
unfoldable pub slice : ℕ → ℕ → List ℕ → List ℕ
slice i j bs = take (j - i) (drop i bs)

-- `len(b) > 0 && b[0]&0x80 != 0`
abbrev pub is_negative : List ℕ → ℕ
is_negative [] = 0
is_negative (b ∷ bs) = (b / 128) % 2

unfoldable pub to_signed_int256 : List ℕ → ℤ
unfolding set_bytes
to_signed_int256 bs =
    if is_negative bs == 1 then pos (set_bytes bs) -ℤ pos (2 ^ 256) else pos (set_bytes bs)

-- The encoding that the EVM uses: `n` in `k` bytes, most significant first.
unfoldable pub encode : ℕ → ℕ → List ℕ
encode zero n = []
encode (suc k) n = encode k (n / 256) ++ (n % 256) ∷ []

pub bytes_from-append :
    (acc : ℕ) (bs : List ℕ) (b : ℕ) → bytes_from acc (bs ++ b ∷ []) ≡ bytes_from acc bs * 256 + b
unfolding bytes_from
bytes_from-append acc [] b = refl
bytes_from-append acc (c ∷ bs) b = bytes_from-append (acc * 256 + c) bs b

pub length-encode : (k n : ℕ) → length (encode k n) ≡ k
unfolding encode
length-encode zero n = refl
length-encode (suc k) n =
    omega (arith, length-append (encode k (n / 256)) ((n % 256) ∷ []), length-encode k (n / 256))

-- A number that fits into `k` bytes is read back from its encoding.
pub set_bytes-encode : (k n : ℕ) → n < 256 ^ k → set_bytes (encode k n) ≡ n
unfolding set_bytes encode
set_bytes-encode zero n h = omega arith
set_bytes-encode (suc k) n h =
    let p : 256 ^ suc k ≡ 256 ^ k * 256 = pow-suc 256 k in
    omega (
      arith,
      bytes_from-append 0 (encode k (n / 256)) (n % 256),
      set_bytes-encode k (n / 256) (omega (arith, p)),
    )

abbrev head_or : ℕ → List ℕ → ℕ
head_or d [] = d
head_or d (b ∷ bs) = b

head_or-append :
    {k : ℕ} (bs : List ℕ) (c : ℕ) → length bs ≡ suc k → head_or 0 (bs ++ c ∷ []) ≡ head_or 0 bs
head_or-append [] c h = absurd (omega arith)
head_or-append (b ∷ bs) c h = refl

encode-head : (k n : ℕ) → head_or 0 (encode (suc k) n) ≡ (n / 256 ^ k) % 256
unfolding encode
encode-head zero n = omega arith
encode-head (suc k) n =
    let p : 256 ^ suc k ≡ 256 * 256 ^ k = pow-suc 256 k ∙ mul_comm (256 ^ k) 256 in
    head_or-append (encode (suc k) (n / 256)) (n % 256) (length-encode (suc k) (n / 256))
    ∙ encode-head k (n / 256)
    ∙ ap (λ t. t % 256) (div-div-eq-div-mul n 256 (256 ^ k) ∙ ap (λ t. n / t) (sym p))

is_negative_head : (bs : List ℕ) → is_negative bs ≡ (head_or 0 bs / 128) % 2
is_negative_head [] = refl
is_negative_head (b ∷ bs) = refl

-- The word that stands for the integer: two's complement in 256 bits.
abbrev pub word_of : ℤ → ℕ
word_of (pos n) = n
word_of (negsuc n) = 2 ^ 256 - (n + 1)

abbrev pub FitsInt256 : ℤ → Type 0
FitsInt256 (pos n) = n < 2 ^ 255
FitsInt256 (negsuc n) = n < 2 ^ 255

-- Reading back the 32-byte two's-complement encoding of an integer of the range of int256 gives
-- that integer.
pub to_signed_int256-encode : (z : ℤ) → FitsInt256 z → to_signed_int256 (encode 32 (word_of z)) ≡ z
unfolding to_signed_int256 ◌-ℤ◌
to_signed_int256-encode (pos n) h =
    let sign = is_negative_head (encode 32 n) in
    let head = encode-head 31 n in ground (arith, sign, head, set_bytes-encode 32 n (omega arith))
to_signed_int256-encode (negsuc n) h =
    let w = 2 ^ 256 - (n + 1) in
    let sign = is_negative_head (encode 32 w) in
    let head = encode-head 31 w in ground (arith, sign, head, set_bytes-encode 32 w (omega arith))
