-- ===== src/Influx/Tests.antt =====
-- The theorem on timestamps at a concrete record.
use chain_parse_service.Base.{ℕ, ◌≡◌, refl, arith}
use chain_parse_service.Model.{role_token1}
use chain_parse_service.Influx.{
  synthetic_timestamp_nanos, swap_time_offset, synthetic_timestamp_nanos_injective,
}

second_row : synthetic_timestamp_nanos 1700000000 7 role_token1 ≡ 1700000000000000071
unfolding synthetic_timestamp_nanos swap_time_offset
second_row = refl

abbrev second : ℕ
second = 1700000000

abbrev seventh : ℕ
seventh = 7

synthetic_timestamp_nanos_injective_example :
    (second ≡ second) × (seventh ≡ seventh) × (role_token1 ≡ role_token1)
synthetic_timestamp_nanos_injective_example =
    synthetic_timestamp_nanos_injective second seventh role_token1 second seventh role_token1
      (omega arith, omega arith) (omega arith, omega arith) refl
