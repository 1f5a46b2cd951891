-- ===== src/Common/PoolType.antt =====
-- internal/utils/common.go: ExtractPoolTokens reads the two coins off the type of a pool.
use Prim.Native.Char.{Char, code}
use chain_parse_service.Base.{
  ℕ, zero, suc, ◌+◌, ◌-◌, ◌<◌, String, ◌≡◌, refl, sym, ap, ◌∙◌, true, false, some, none, arith,
  ◌==◌,
}
use chain_parse_service.Base.Strings.{join, position, take_chars, drop_chars, without}
use chain_parse_service.Common.{before_comma, split_pair, tokens_between, extract_pool_tokens}

abbrev chars : String → ℕ
chars String.[] = 0
chars (String.◌∷◌ c s) = suc (chars s)

-- The character does not occur in the text.
abbrev pub Lacks : ℕ → String → Type 0
Lacks k String.[] = Unit {0}
Lacks k (String.◌∷◌ c s) = ((code c == k) ≡ false) × Lacks k s

-- A coin without type arguments of its own.
abbrev pub IsPlain : String → Type 0
IsPlain s = Lacks b'<' s × Lacks b'>' s × Lacks b',' s × Lacks b' ' s

join_assoc : (s t u : String) → join (join s t) u ≡ join s (join t u)
unfolding join
join_assoc String.[] t u = refl
join_assoc (String.◌∷◌ c s) t u = ap (λ z. String.◌∷◌ c z) (join_assoc s t u)

chars-join : (s t : String) → chars (join s t) ≡ chars s + chars t
unfolding join
chars-join String.[] t = omega arith
chars-join (String.◌∷◌ c s) t = omega (arith, chars-join s t)

Lacks-join : (k : ℕ) (s t : String) → Lacks k s → Lacks k t → Lacks k (join s t)
unfolding join
Lacks-join k String.[] t h g = g
Lacks-join k (String.◌∷◌ c s) t h g = (h.0, Lacks-join k s t h.1 g)

-- The first occurrence stands behind a part that lacks the character.
position-join :
    (k : ℕ) (s : String) (c : Char) (t : String)
    → Lacks k s
    → (code c == k) ≡ true
    → position k (join s (String.◌∷◌ c t)) ≡ some (chars s)
unfolding position join
position-join k String.[] c t h g = rw g refl
position-join k (String.◌∷◌ d s) c t h g = ground (arith, position-join k s c t h.1 g)

position_absent : (k : ℕ) (s : String) → Lacks k s → position k s ≡ none
unfolding position
position_absent k String.[] h = refl
position_absent k (String.◌∷◌ c s) h = ground (arith, position_absent k s h.1)

take_chars-join : (n : ℕ) (s t : String) → n ≡ chars s → take_chars n (join s t) ≡ s
unfolding take_chars join
take_chars-join zero String.[] t e = refl
take_chars-join (suc n) String.[] t e = absurd (omega arith)
take_chars-join zero (String.◌∷◌ c s) t e = absurd (omega arith)
take_chars-join (suc n) (String.◌∷◌ c s) t e =
    ap (λ z. String.◌∷◌ c z) (take_chars-join n s t (omega arith))

drop_chars-join :
    (n : ℕ) (s : String) (c : Char) (t : String)
    → n ≡ chars s + 1
    → drop_chars n (join s (String.◌∷◌ c t)) ≡ t
unfolding drop_chars join
drop_chars-join zero s c t e = absurd (omega arith)
drop_chars-join (suc zero) String.[] c t e = refl
drop_chars-join (suc (suc n)) String.[] c t e = absurd (omega arith)
drop_chars-join (suc n) (String.◌∷◌ d s) c t e = drop_chars-join n s c t (omega arith)

without_absent : (k : ℕ) (s : String) → Lacks k s → without k s ≡ s
unfolding without
without_absent k String.[] h = refl
without_absent k (String.◌∷◌ c s) h = rw (h.0) (ap (λ z. String.◌∷◌ c z) (without_absent k s h.1))

without-join : (k : ℕ) (s t : String) → Lacks k s → without k (join s t) ≡ join s (without k t)
unfolding without join
without-join k String.[] t h = refl
without-join k (String.◌∷◌ c s) t h = rw (h.0) (ap (λ z. String.◌∷◌ c z) (without-join k s t h.1))

-- What stands between the brackets, as Sui writes it.
abbrev coins : String → String → String
coins a b = join a (String.◌∷◌ "," (String.◌∷◌ " " b))

-- The type of a pool.
abbrev pub pool_type : String → String → String → String → String
pool_type p a b rest = join p (String.◌∷◌ "<" (join (coins a b) (String.◌∷◌ ">" rest)))

abbrev pair_of : String → String × String
pair_of inner = split_pair inner (position b',' inner)

pair_of-coins :
    (a b : String) → Lacks b',' a → Lacks b',' b → pair_of (join a (String.◌∷◌ "," b)) ≡ (a, b)
pair_of-coins a b ha hb =
    let s = join a (String.◌∷◌ "," b) in
    let rest : drop_chars (chars a + 1) s ≡ b = drop_chars-join (chars a + 1) a "," b refl in
    ap (split_pair s) (position-join b',' a "," b ha refl)
    ∙ (λ i. (
      take_chars-join (chars a) a (String.◌∷◌ "," b) refl i,
      before_comma (rest i) (position b',' (rest i)),
    ))
    ∙ ap (λ o. (a, before_comma b o)) (position_absent b',' b hb)

without-coins :
    (a b : String)
    → Lacks b' ' a
    → Lacks b' ' b
    → without b' ' (coins a b) ≡ join a (String.◌∷◌ "," b)
unfolding without
without-coins a b ha hb =
    without-join b' ' a (String.◌∷◌ "," (String.◌∷◌ " " b)) ha
    ∙ ap (λ z. join a (String.◌∷◌ "," z)) (without_absent b' ' b hb)

closing-pool_type :
    (p a b rest : String)
    → Lacks b'>' p
    → IsPlain a
    → IsPlain b
    → position b'>' (pool_type p a b rest) ≡ some (chars p + suc (chars (coins a b)))
unfolding join
closing-pool_type p a b rest hp ha hb =
    let inner = String.◌∷◌ "<" (coins a b) in
    let lacks : Lacks b'>' (join p inner) =
      Lacks-join b'>' p inner hp
        (refl, Lacks-join b'>' a (String.◌∷◌ "," (String.◌∷◌ " " b)) ha.1 (refl, (refl, hb.1))) in
    ap (position b'>') (sym (join_assoc p inner (String.◌∷◌ ">" rest)))
    ∙ position-join b'>' (join p inner) ">" rest lacks refl
    ∙ ap some (chars-join p inner)

-- The brackets stand at these positions.
between :
    (t : String) (i j : ℕ)
    → i < j
    → tokens_between t (some i) (some j)
      ≡ pair_of (without b' ' (take_chars (j - (i + 1)) (drop_chars (i + 1) t)))
between t i j h = ground arith

-- ExtractPoolTokens reads the two coins off the type of a pool as Sui writes it, with a blank
-- behind the comma, whatever stands before the brackets and whatever follows: where the text
-- before has no angle bracket, and the coins have none, no comma and no blank.
pub extract_pool_tokens-pool_type :
    (p a b rest : String)
    → Lacks b'<' p
    → Lacks b'>' p
    → IsPlain a
    → IsPlain b
    → extract_pool_tokens (pool_type p a b rest) ≡ (a, b)
unfolding extract_pool_tokens
extract_pool_tokens-pool_type p a b rest h< h> ha hb =
    let t = pool_type p a b rest in
    let tail = String.◌∷◌ ">" rest in
    let i = chars p in
    let j = i + suc (chars (coins a b)) in
    let opened = position-join b'<' p "<" (join (coins a b) tail) h< refl in
    let after : drop_chars (i + 1) t ≡ join (coins a b) tail =
      drop_chars-join (i + 1) p "<" (join (coins a b) tail) refl in
    let inside : take_chars (j - (i + 1)) (join (coins a b) tail) ≡ coins a b =
      take_chars-join (j - (i + 1)) (coins a b) tail (omega arith) in
    ap (λ o. tokens_between t o (position b'>' t)) opened
    ∙ ap (tokens_between t (some i)) (closing-pool_type p a b rest h> ha hb)
    ∙ between t i j (omega arith)
    ∙ ap (λ z. pair_of (without b' ' (take_chars (j - (i + 1)) z))) after
    ∙ ap (λ z. pair_of (without b' ' z)) inside
    ∙ ap pair_of (without-coins a b ha.3 hb.3)
    ∙ pair_of-coins a b ha.2 hb.2
