-- ===== src/Uniswap/Text.antt =====
-- `strings.ToLower`, which the extractor applies to hexadecimal addresses: letters are ASCII.
use Prim.Native.Nat.{ℕ, zero, suc, ◌-◌}
use Prim.Native.Char.{Char, code}
use Prim.Native.String.{String}
use mathlib.Core.Path.{◌≡◌, refl}
use mathlib.Core.Bool.{◌&&◌}
use chain_parse_service.Base.{leb, if◌then◌else◌}

char_at : String → ℕ → Char → Char
char_at String.[] n d = d
char_at (String.◌∷◌ c s) zero d = c
char_at (String.◌∷◌ c s) (suc n) d = char_at s n d

lower_char : Char → Char
unfolding char_at
lower_char c =
    if leb b'A' (code c) && leb (code c) b'Z'
    then char_at "abcdefghijklmnopqrstuvwxyz" (code c - b'A') c
    else c

unfoldable pub to_lower : String → String
unfolding lower_char
to_lower String.[] = String.[]
to_lower (String.◌∷◌ c s) = String.◌∷◌ (lower_char c) (to_lower s)

lowered : to_lower "0xAbZ9" ≡ "0xabz9"
unfolding to_lower
lowered = refl
