-- ===== src/Solana/Borsh.antt =====
-- internal/parser/dexs/solana_extractor.go: the parsers of fields. A parser gives the value and the
-- offset after it, or a zero value and the same offset where the data is too short.
use chain_parse_service.Base.{
  ℕ, ◌+◌, ◌*◌, ◌-◌, ◌^◌, String, Bool, true, false, not, ◌==◌, ◌&&◌, List, [], ◌∷◌, ltb, leb,
  length, if◌then◌else◌,
}
use chain_parse_service.Base.Int.{ℤ, pos, negsuc}
use chain_parse_service.Uniswap.Bytes.{slice}

-- What the code uses of other packages: base58, base64 and the text of UTF-8 bytes.
pub record SolanaLib : Type 0 where
  pub base58 : List ℕ → String
  pub decode_base64 : String → Bool × List ℕ
  pub utf8 : List ℕ → String

unfoldable pub little_endian : List ℕ → ℕ
little_endian [] = 0
little_endian (b ∷ bs) = b + 256 * little_endian bs

-- `int64(x)` of a uint64.
abbrev pub int64_of : ℕ → ℤ
int64_of n = if ltb n (2 ^ 63) then pos n else negsuc (2 ^ 64 - n - 1)

unfoldable pub parse_bool : List ℕ → ℕ → Bool × ℕ
unfolding little_endian slice
parse_bool bs off =
    if leb (length bs) off
    then (false, off)
    else (not (little_endian (slice off (off + 1) bs) == 0), off + 1)

unfoldable pub parse_u64_le : List ℕ → ℕ → ℕ × ℕ
unfolding little_endian slice
parse_u64_le bs off =
    if ltb (length bs) (off + 8)
    then (0, off)
    else (little_endian (slice off (off + 8) bs), off + 8)

unfoldable pub parse_i64_le : List ℕ → ℕ → ℤ × ℕ
unfolding little_endian slice
parse_i64_le bs off =
    if ltb (length bs) (off + 8)
    then (pos 0, off)
    else (int64_of (little_endian (slice off (off + 8) bs)), off + 8)

-- MatchDiscriminatorBytes.
unfoldable pub match_discriminator : List ℕ → List ℕ → Bool
match_discriminator bs [] = true
match_discriminator [] (e ∷ es) = false
match_discriminator (b ∷ bs) (e ∷ es) = b == e && match_discriminator bs es

module _ (lib : SolanaLib) where
  unfoldable pub parse_pubkey : List ℕ → ℕ → String × ℕ
  unfolding slice
  parse_pubkey bs off =
      if ltb (length bs) (off + 32)
      then ("", off)
      else (lib.base58 (slice off (off + 32) bs), off + 32)

  unfoldable pub parse_string : List ℕ → ℕ → String × ℕ
  unfolding slice little_endian
  parse_string bs off =
      if ltb (length bs) (off + 4)
      then ("", off)
      else let size = little_endian (slice off (off + 4) bs) in
        if ltb (length bs) (off + 4 + size)
        then ("", off + 4)
        else (lib.utf8 (slice (off + 4) (off + 4 + size) bs), off + 4 + size)
