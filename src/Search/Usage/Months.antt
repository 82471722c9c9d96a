-- ===== src/Search/Usage/Months.antt =====
-- internal/search/usage.go: days and months go on with time.
use eika.Common.{
  ℕ, zero, suc, ◌+◌, ◌-◌, ◌/◌, ◌%◌, ◌≤◌, ◌<◌, ◌≡◌, refl, Bool, true, false, ◌||◌, ◌==◌,
  if◌then◌else◌, arith,
}
use eika.Search.Usage.{day_of, is_leap, month_length, month_from, month_of}

month_length_pos : (m : ℕ) → 0 < month_length m
unfolding month_length
month_length_pos m =
    lengths (m % 12 == 1) (is_leap (1970 + m / 12))
      (((m % 12) == 3) || ((m % 12) == 5) || ((m % 12) == 8) || ((m % 12) == 10))
  where
    lengths : (a b c : Bool) → 0 < (if a then (if b then 29 else 28) else if c then 30 else 31)
    lengths true true c = omega arith
    lengths true false c = omega arith
    lengths false b true = omega arith
    lengths false b false = omega arith

-- A month is not before the one that the count starts from.
month_from-le : (fuel month days : ℕ) → month ≤ month_from fuel month days
unfolding month_from
month_from-le zero month days = omega arith
month_from-le (suc fuel) month days =
    ground (arith, month_from-le fuel (suc month) (days - month_length month))

-- More fuel than days changes nothing.
month_from-enough :
    (fuel more month days : ℕ)
    → days ≤ fuel
    → fuel ≤ more
    → month_from more month days ≡ month_from fuel month days
unfolding month_from
month_from-enough zero zero month days h k = refl
month_from-enough zero (suc more) month days h k = ground (arith, month_length_pos month)
month_from-enough (suc fuel) zero month days h k = absurd (omega arith)
month_from-enough (suc fuel) (suc more) month days h k =
    let pos = month_length_pos month in
    ground (
      arith,
      month_from-enough fuel more (suc month) (days - month_length month) (omega (arith, pos))
          (omega arith),
    )

month_from_mono :
    (fuel month days later : ℕ)
    → days ≤ later
    → month_from fuel month days ≤ month_from fuel month later
unfolding month_from
month_from_mono zero month days later h = omega arith
month_from_mono (suc fuel) month days later h = ground (
  arith,
  month_from_mono fuel (suc month) (days - month_length month) (later - month_length month),
  month_from-le fuel (suc month) (later - month_length month),
)

pub day_of_mono : (t u : ℕ) → t ≤ u → day_of t ≤ day_of u
unfolding day_of
day_of_mono t u h = omega arith

pub month_of_mono : (t u : ℕ) → t ≤ u → month_of t ≤ month_of u
unfolding month_of
month_of_mono t u h =
    let days = day_of_mono t u h in
    omega (
      arith,
      month_from-enough (day_of t) (day_of u) 0 (day_of t) (omega arith) days,
      month_from_mono (day_of u) 0 (day_of t) (day_of u) days,
    )
