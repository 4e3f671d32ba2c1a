-- ===== src/Examples/PeriodRuns.antt =====
-- Retention periods: the texts 030 and 3650w.
use traceboard.Prelude.{ℕ, ◌≤◌, some, ◌≡◌, refl, arith}
use traceboard.Retention.Periods.{
  parse_digits, parse_positive, decimal, without_last, last, days_of, parse_duration,
  parse_duration-bounds,
}

parsing : ℕ
unfolding parse_digits parse_positive decimal without_last last days_of parse_duration
parsing = 0

thirty_low : 1 ≤ decimal 0 "030"
unfolding parsing
thirty_low = omega arith

thirty_high : decimal 0 "030" ≤ 3650
unfolding parsing
thirty_high = omega arith

weeks : parse_duration "3650w" ≡ some 25550
unfolding parsing
weeks = refl

weeks_bounds : (1 ≤ 25550) × (25550 ≤ 25550)
weeks_bounds = parse_duration-bounds "3650w" 25550 refl weeks
