-- ===== src/Solana/RoundTrip.antt =====
-- The Borsh encoding of a trade event of PumpFun, read back by parseTradeEvent.
use chain_parse_service.Base.{
  ℕ, zero, suc, ◌+◌, ◌-◌, ◌*◌, ◌/◌, ◌%◌, ◌^◌, ◌≤◌, ◌<◌, String, ◌≡◌, refl, sym, ap, ◌∙◌, Bool, true,
  false, Option, none, some, List, [], ◌∷◌, ◌++◌, ltb, length, length-append, take, drop, str_eq,
  arith, if◌then◌else◌, if_elim, ltb→lt, lt→ltb, ◌||◌,
}
use native.Mathlib.Nat.{pow-suc}
use mathlib.Core.Path.{subst, ap₂}
use chain_parse_service.Base.Int.{ℤ, pos}
use chain_parse_service.Model.{Transaction}
use chain_parse_service.Types.{UnifiedTransaction}
use chain_parse_service.Uniswap.Bytes.{slice}
use chain_parse_service.Uniswap.Swap.Decode.{drop-past, take-length_append}
use chain_parse_service.Solana.Borsh.{
  SolanaLib, little_endian, parse_bool, parse_u64_le, parse_i64_le, parse_pubkey,
}
use chain_parse_service.Solana.PumpFun.{SolanaFloats, trade_of, parse_trade_event}

-- `n` in `k` bytes, least significant first.
unfoldable pub encode_le : ℕ → ℕ → List ℕ
encode_le zero n = []
encode_le (suc k) n = n % 256 ∷ encode_le k (n / 256)

length-encode_le : (k n : ℕ) → length (encode_le k n) ≡ k
unfolding encode_le
length-encode_le zero n = refl
length-encode_le (suc k) n = omega (arith, length-encode_le k (n / 256))

little_endian-encode_le : (k n : ℕ) → n < 256 ^ k → little_endian (encode_le k n) ≡ n
unfolding little_endian encode_le
little_endian-encode_le zero n h = omega arith
little_endian-encode_le (suc k) n h =
    let p : 256 ^ suc k ≡ 256 ^ k * 256 = pow-suc 256 k in
    omega (arith, little_endian-encode_le k (n / 256) (omega (arith, p)))

-- From the offset on, the data is `tail`.
pub record At (off : ℕ) (bs tail : List ℕ) : Type 0 where
  pub rest : drop off bs ≡ tail
  pub size : length bs ≡ off + length tail

At-slice :
    (off n : ℕ) (bs x tail : List ℕ)
    → length x ≡ n
    → At off bs (x ++ tail)
    → slice off (off + n) bs ≡ x
unfolding slice
At-slice off n bs x tail e a =
    let k : off + n - off ≡ length x = omega (arith, e) in
    ap (λ i. take i (drop off bs)) k ∙ ap (take (length x)) a.rest ∙ take-length_append x tail

drop-drop : (i j : ℕ) (bs : List ℕ) → drop (i + j) bs ≡ drop j (drop i bs)
drop-drop zero j bs = let e : 0 + j ≡ j = omega arith in ap (λ k. drop k bs) e
drop-drop (suc i) zero [] = let e : suc i + 0 ≡ suc i = omega arith in ap (λ k. drop k []) e
drop-drop (suc i) (suc j) [] =
    let e : suc i + suc j ≡ suc (i + suc j) = omega arith in ap (λ k. drop k []) e
drop-drop (suc i) j (b ∷ bs) =
    let e : suc i + j ≡ suc (i + j) = omega arith in ap (λ k. drop k (b ∷ bs)) e ∙ drop-drop i j bs

At-next :
    (off n : ℕ) (bs x tail : List ℕ) → length x ≡ n → At off bs (x ++ tail) → At (off + n) bs tail
At-next off n bs x tail e a =
    let k : n ≡ length x + 0 = omega (arith, e) in
    record {
      rest =
          drop-drop off n bs
          ∙ ap (drop n) a.rest
          ∙ ap (λ i. drop i (x ++ tail)) k
          ∙ drop-past 0 x tail;
      size = omega (arith, a.size, length-append x tail, e);
    }

module _ (lib : SolanaLib) where
  parse_pubkey-At :
      (off : ℕ) (bs x tail : List ℕ)
      → length x ≡ 32
      → At off bs (x ++ tail)
      → parse_pubkey lib bs off ≡ (lib.base58 x, off + 32)
  unfolding parse_pubkey
  parse_pubkey-At off bs x tail e a =
      ground (arith, a.size, length-append x tail, e, At-slice off 32 bs x tail e a)

parse_u64_le-At :
    (off : ℕ) (bs : List ℕ) (n : ℕ) (tail : List ℕ)
    → n < 2 ^ 64
    → At off bs (encode_le 8 n ++ tail)
    → parse_u64_le bs off ≡ (n, off + 8)
unfolding parse_u64_le
parse_u64_le-At off bs n tail h a =
    let e = length-encode_le 8 n in
    let read =
      ap little_endian (At-slice off 8 bs (encode_le 8 n) tail e a)
      ∙ little_endian-encode_le 8 n (omega arith) in
    ground (arith, a.size, length-append (encode_le 8 n) tail, e, read)

parse_i64_le-At :
    (off : ℕ) (bs : List ℕ) (n : ℕ) (tail : List ℕ)
    → n < 2 ^ 63
    → At off bs (encode_le 8 n ++ tail)
    → parse_i64_le bs off ≡ (pos n, off + 8)
unfolding parse_i64_le
parse_i64_le-At off bs n tail h a =
    let e = length-encode_le 8 n in
    let read =
      ap little_endian (At-slice off 8 bs (encode_le 8 n) tail e a)
      ∙ little_endian-encode_le 8 n (omega arith) in
    ground (arith, a.size, length-append (encode_le 8 n) tail, e, read)

abbrev pub bit : Bool → ℕ
bit true = 1
bit false = 0

parse_bool-At :
    (off : ℕ) (bs : List ℕ) (b : Bool) (tail : List ℕ)
    → At off bs (bit b ∷ tail)
    → parse_bool bs off ≡ (b, off + 1)
unfolding parse_bool little_endian
parse_bool-At off bs true tail a =
    let read = ap little_endian (At-slice off 1 bs (1 ∷ []) tail refl a) in
    ground (arith, a.size, read)
parse_bool-At off bs false tail a =
    let read = ap little_endian (At-slice off 1 bs (0 ∷ []) tail refl a) in
    ground (arith, a.size, read)

-- The fields of a trade event after its discriminator; `more` are the later ones.
abbrev pub trade_bytes : List ℕ → ℕ → ℕ → Bool → List ℕ → ℕ → List ℕ → List ℕ
trade_bytes mint sol_amount token_amount is_buy user timestamp more =
    mint
    ++ (encode_le 8 sol_amount
        ++ (encode_le 8 token_amount ++ (bit is_buy ∷ (user ++ (encode_le 8 timestamp ++ more)))))

module _ (fl : SolanaFloats) (lib : SolanaLib) where
  -- What the row says of the trade.
  abbrev pub IsTrade : Option (Transaction fl.Float) → String → ℕ → ℕ → Bool → String → ℕ → Type 0
  IsTrade none mint sol_amount token_amount is_buy user time = ⊥
  IsTrade (some t) mint sol_amount token_amount is_buy user time =
      (t.pool ≡ mint)
      × ((t.from ≡ user)
          × ((t.side ≡ (if is_buy then "buy" else "sell"))
              × ((t.amount ≡ pos sol_amount)
                  × ((t.price ≡ (
                        if ltb 0 token_amount
                        then fl.over (fl.ratio sol_amount token_amount) 1000
                        else fl.zero))
                      × (t.time ≡ time)))))

  parse_trade_event_fields :
      (bs : List ℕ) (mint user : String) (sol token : ℕ) (buy : Bool) (time : ℤ)
      (tx : UnifiedTransaction) (i k : ℕ)
      → 89 ≤ length bs
      → parse_pubkey lib bs 0 ≡ (mint, 32)
      → parse_u64_le bs 32 ≡ (sol, 40)
      → parse_u64_le bs 40 ≡ (token, 48)
      → parse_bool bs 48 ≡ (buy, 49)
      → parse_pubkey lib bs 49 ≡ (user, 81)
      → parse_i64_le bs 81 ≡ (time, 89)
      → parse_trade_event fl lib bs tx i k ≡ trade_of fl lib mint sol token buy user time tx i k
  unfolding parse_trade_event
  parse_trade_event_fields bs mint user sol token buy time tx i k n p1 p2 p3 p4 p5 p6 =
      if_elim (λ o. o ≡ trade_of fl lib mint sol token buy user time tx i k) (ltb (length bs) 89)
        none _ (λ h. absurd (omega (arith, ltb→lt (length bs) 89 h)))
        (λ _. rw p1 (rw p2 (rw p3 (rw p4 (rw p5 (rw p6 refl))))))

  trade_of-IsTrade :
      (mint user : String) (sol token time : ℕ) (buy : Bool) (tx : UnifiedTransaction) (i k : ℕ)
      → (str_eq mint "" || str_eq user "") ≡ false
      → ltb 0 time ≡ true
      → IsTrade
          (trade_of fl lib mint sol token buy user (pos time) tx i k)
          mint
          sol
          token
          buy
          user
          time
  unfolding trade_of
  trade_of-IsTrade mint user sol token time buy tx i k named later =
      if_elim (λ o. IsTrade o mint sol token buy user time) (str_eq mint "" || str_eq user "") none
        _ (λ h. absurd (ground (arith, named, h)))
        (λ _. (refl, (refl, (refl, (refl, (refl, ground (arith, later)))))))

  -- parseTradeEvent reads back the Borsh encoding of a trade event, whatever fields follow: where
  -- the mint and the user are 32 bytes with a text in base58 that is not empty, the amounts are of
  -- uint64 and the timestamp is positive and of int64, the row has the mint as its pool, the user,
  -- the side, the amount of lamports, the price and the timestamp of the event.
  pub parse_trade_event-trade_bytes :
      (mint user more : List ℕ) (sol_amount token_amount timestamp : ℕ) (is_buy : Bool)
      (tx : UnifiedTransaction) (i k : ℕ)
      → length mint ≡ 32
      → length user ≡ 32
      → str_eq (lib.base58 mint) "" ≡ false
      → str_eq (lib.base58 user) "" ≡ false
      → sol_amount < 2 ^ 64
      → token_amount < 2 ^ 64
      → 0 < timestamp
      → timestamp < 2 ^ 63
      → IsTrade
          (parse_trade_event fl lib
            (trade_bytes mint sol_amount token_amount is_buy user timestamp more)
            tx
            i
            k)
          (lib.base58 mint)
          sol_amount
          token_amount
          is_buy
          (lib.base58 user)
          timestamp
  unfolding parse_trade_event
  parse_trade_event-trade_bytes mint user more sol token time buy tx i k lm lu hm hu hs ht hp hi =
      let bs = trade_bytes mint sol token buy user time more in
      let a0 : At 0 bs bs = record { rest = refl; size = omega arith } in
      let p1 = parse_pubkey-At lib 0 bs mint _ lm a0 in
      let a1 = At-next 0 32 bs mint _ lm a0 in
      let p2 = parse_u64_le-At 32 bs sol _ hs a1 in
      let a2 = At-next 32 8 bs (encode_le 8 sol) _ (length-encode_le 8 sol) a1 in
      let p3 = parse_u64_le-At 40 bs token _ ht a2 in
      let a3 = At-next 40 8 bs (encode_le 8 token) _ (length-encode_le 8 token) a2 in
      let p4 = parse_bool-At 48 bs buy _ a3 in
      let a4 = At-next 48 1 bs (bit buy ∷ []) _ refl a3 in
      let p5 = parse_pubkey-At lib 49 bs user _ lu a4 in
      let a5 = At-next 49 32 bs user _ lu a4 in
      let p6 = parse_i64_le-At 81 bs time _ hi a5 in
      let long : 89 ≤ length bs =
        omega (arith, a5.size, length-append (encode_le 8 time) more, length-encode_le 8 time) in
      subst (λ o. IsTrade o (lib.base58 mint) sol token buy (lib.base58 user) time)
        (sym (
          parse_trade_event_fields bs (lib.base58 mint) (lib.base58 user) sol token buy (pos time)
            tx i k long p1 p2 p3 p4 p5 p6))
        (trade_of-IsTrade (lib.base58 mint) (lib.base58 user) sol token time buy tx i k
          (ap₂ (λ a b. a || b) hm hu) (lt→ltb 0 time hp))
