-- ===== src/Influx.antt =====
-- internal/storage/influxdb/synthetic_timestamp.go: the timestamp that makes a swap record a point of
-- its own. An `int64` is its 64 bits, a number below 2^64; a log index is not negative.
mod Tests
use chain_parse_service.Base.{ℕ, ◌+◌, ◌*◌, ◌%◌, ◌^◌, ◌<◌, ◌≡◌, refl, arith}
use chain_parse_service.Model.{SwapRecordRole, role_token0, role_token1}

-- The slots 2 to 9 of a log index are not used: 9 is for any other role, and there is none.
unfoldable pub swap_time_offset : SwapRecordRole → ℕ
swap_time_offset role_token0 = 0
swap_time_offset role_token1 = 1

unfoldable pub synthetic_timestamp_nanos : ℕ → ℕ → SwapRecordRole → ℕ
synthetic_timestamp_nanos block_time log_index role =
    (block_time * 1000000000 + log_index * 10 + swap_time_offset role) % 2 ^ 64

-- The block times before the year 2262 and the log indices that fit into the second of their block.
abbrev pub InWindow : ℕ → ℕ → Type 0
InWindow block_time log_index = (block_time < 9223372036) × (log_index < 100000000)

exact :
    (t l : ℕ) (r : SwapRecordRole)
    → InWindow t l
    → synthetic_timestamp_nanos t l r ≡ t * 1000000000 + l * 10 + swap_time_offset r
unfolding synthetic_timestamp_nanos swap_time_offset
exact t l role_token0 h = omega (arith, h.0, h.1)
exact t l role_token1 h = omega (arith, h.0, h.1)

-- In the window, the timestamp is a positive `int64`.
pub synthetic_timestamp_nanos_fits :
    (t l : ℕ) (r : SwapRecordRole) → InWindow t l → synthetic_timestamp_nanos t l r < 2 ^ 63
unfolding synthetic_timestamp_nanos swap_time_offset
synthetic_timestamp_nanos_fits t l role_token0 h = omega (arith, h.0, h.1)
synthetic_timestamp_nanos_fits t l role_token1 h = omega (arith, h.0, h.1)

-- In the window, records of different block times, log indices or roles have different timestamps.
pub synthetic_timestamp_nanos_injective :
    (t l : ℕ) (r : SwapRecordRole) (t' l' : ℕ) (r' : SwapRecordRole)
    → InWindow t l
    → InWindow t' l'
    → synthetic_timestamp_nanos t l r ≡ synthetic_timestamp_nanos t' l' r'
    → (t ≡ t') × (l ≡ l') × (r ≡ r')
unfolding synthetic_timestamp_nanos swap_time_offset
synthetic_timestamp_nanos_injective t l role_token0 t' l' role_token0 h h' e =
    (omega (arith, h.0, h.1, h'.0, h'.1, e), omega (arith, h.0, h.1, h'.0, h'.1, e), refl)
synthetic_timestamp_nanos_injective t l role_token1 t' l' role_token1 h h' e =
    (omega (arith, h.0, h.1, h'.0, h'.1, e), omega (arith, h.0, h.1, h'.0, h'.1, e), refl)
synthetic_timestamp_nanos_injective t l role_token0 t' l' role_token1 h h' e =
    absurd (omega (arith, h.0, h.1, h'.0, h'.1, e))
synthetic_timestamp_nanos_injective t l role_token1 t' l' role_token0 h h' e =
    absurd (omega (arith, h.0, h.1, h'.0, h'.1, e))
