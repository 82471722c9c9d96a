-- ===== src/Tests/Usage.antt =====
-- Runs of internal/search/usage.go.
use eika.Common.{◌*◌, ◌+◌, ◌≡◌, refl, true, false, List, [], ◌∷◌, none, arith}
use eika.Search.Usage.{
  Tracker, cooling_down, daily_quota_spent, usable, day_length, blocked, usage_of, entry,
  record_use, record_failure, update, backoff, day_of, month_of, month_from, month_length, is_leap,
  fresh_usage, rolled_over,
}
use eika.Search.Usage.Counted.{Call, using, failing, after, IsOrdered}
use eika.Search.Usage.Recorded.{IsCounted, usage_of-IsCounted}

-- Two uses on the fortieth day, a failure of another bucket, and a use on the tenth, newest first.
abbrev calls : List Call
calls =
    record { bucket = "web"; at = 40 * day_length + 9; act = using; saved = true }
    ∷ record { bucket = "papers"; at = 40 * day_length + 8; act = failing 0; saved = false }
    ∷ record { bucket = "web"; at = 40 * day_length + 2; act = using; saved = false }
    ∷ record { bucket = "web"; at = 10 * day_length; act = using; saved = true }
    ∷ []

calls-IsOrdered : IsOrdered (40 * day_length + 9) calls
calls-IsOrdered = (omega arith, (omega arith, (omega arith, (omega arith, tt))))

usage_of-IsCounted_example : IsCounted none calls "web" (40 * day_length + 9)
usage_of-IsCounted_example =
    usage_of-IsCounted none calls "web" (40 * day_length + 9) calls-IsOrdered

abbrev tracked : Tracker
tracked = after (record { usage = []; store = none }) calls

quota_spent :
    (blocked tracked "web" (record { day = 2; month = 0 }) (40 * day_length + 9)).0
    ≡ daily_quota_spent
unfolding blocked usage_of record_use record_failure entry update backoff day_of month_of month_from
    month_length is_leap fresh_usage rolled_over
quota_spent = refl

-- The month of the tenth day is another one.
quota_left :
    (blocked tracked "web" (record { day = 3; month = 3 }) (40 * day_length + 9)).0 ≡ usable
unfolding blocked usage_of record_use record_failure entry update backoff day_of month_of month_from
    month_length is_leap fresh_usage rolled_over
quota_left = refl

cools :
    (blocked tracked "papers" (record { day = 0; month = 0 }) (40 * day_length + 9)).0
    ≡ cooling_down 15
unfolding blocked usage_of record_use record_failure entry update backoff day_of month_of month_from
    month_length is_leap fresh_usage rolled_over
cools = refl

-- 29 February 1972 is day 789 and in month 25; the first day of March is the next one.
leap_day : (month_from 800 0 789 ≡ 25) × (month_from 800 0 790 ≡ 26)
unfolding month_from month_length is_leap
leap_day = (refl, refl)
