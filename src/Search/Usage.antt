-- ===== src/Search/Usage.antt =====
-- internal/search/usage.go: the quotas and cooldowns of the search backends. A time is the number of
-- nanoseconds since 1970, in UTC, and the zero time is 0. A day is the number of days since then and a
-- month the number of months, in place of the texts that name them, of which the code only asks whether
-- they are the same. A limit below one is 0.
pub mod Months
pub mod Counted
pub mod Recorded
use eika.Common.{
  ℕ, zero, suc, ◌+◌, ◌-◌, ◌*◌, ◌/◌, ◌%◌, ◌^◌, min, String, Bool, true, false, ◌&&◌, ◌||◌, not, List,
  [], ◌∷◌, Option, none, some, ltb, leb, ◌==◌, if◌then◌else◌, Map, lookup, assign,
}

abbrev pub minute : ℕ
minute = 60000000000

-- 15 minutes
abbrev pub cooldown_base : ℕ
cooldown_base = 900000000000

-- 6 hours
abbrev pub cooldown_max : ℕ
cooldown_max = 21600000000000

abbrev pub day_length : ℕ
day_length = 86400000000000

pub record Limit : Type 0 where
  pub day : ℕ
  pub month : ℕ

pub record Usage : Type 0 where
  pub day : ℕ
  pub day_used : ℕ
  pub month : ℕ
  pub month_used : ℕ
  pub cooldown_until : ℕ
  pub fail_streak : ℕ

-- The counters in memory and, where there is a store, what it holds.
pub record Tracker : Type 0 where
  pub usage : Map Usage
  pub store : Option (Map Usage)

unfoldable pub new_tracker : Option (Map Usage) → Tracker
new_tracker store = record { usage = elim store [ none ↦ [] | some saved ↦ saved ]; store = store }

-- `now.UTC().Format(time.DateOnly)`
unfoldable pub day_of : ℕ → ℕ
day_of now = now / day_length

unfoldable pub is_leap : ℕ → Bool
is_leap year = ((year % 4 == 0) && not (year % 100 == 0)) || (year % 400 == 0)

-- The days of the month that is so many months after January 1970.
unfoldable pub month_length : ℕ → ℕ
unfolding is_leap
month_length month =
    let m = month % 12 in
    if m == 1
    then (if is_leap (1970 + month / 12) then 29 else 28)
    else if (m == 3) || (m == 5) || (m == 8) || (m == 10)
    then 30
    else 31

-- The month in which a day is, counted from `month` on, for at most `fuel` months.
unfoldable pub month_from : ℕ → ℕ → ℕ → ℕ
unfolding month_length
month_from zero month days = month
month_from (suc fuel) month days =
    let later = month_from fuel (suc month) (days - month_length month) in
    if ltb days (month_length month) then month else later

-- `now.UTC().Format("2006-01")`
unfoldable pub month_of : ℕ → ℕ
unfolding month_from day_of
month_of now = month_from (day_of now) 0 (day_of now)

unfoldable pub fresh_usage : ℕ → Usage
fresh_usage now = record {
  day = day_of now;
  day_used = 0;
  month = month_of now;
  month_used = 0;
  cooldown_until = 0;
  fail_streak = 0;
}

unfoldable pub rolled_over : Usage → ℕ → Usage
rolled_over u now = record u {
  day = day_of now;
  day_used = if u.day == day_of now then u.day_used else 0;
  month = month_of now;
  month_used = if u.month == month_of now then u.month_used else 0;
}

unfoldable pub entry : Tracker → String → ℕ → Usage × Tracker
unfolding fresh_usage rolled_over
entry t name now =
    let u : Usage = elim (lookup t.usage name) [
      | none ↦ fresh_usage now
      | some u ↦ rolled_over u now
    ] in
    (u, record t { usage = assign t.usage name u })

unfoldable pub usage_of : Tracker → String → ℕ → Usage × Tracker
unfolding entry
usage_of t name now = entry t name now

-- The reasons of `Blocked`, with the minutes of a cooldown rounded up.
pub data Verdict : Type 0 where
  cooling_down : ℕ → Verdict
  daily_quota_spent monthly_quota_spent usable : Verdict

unfoldable pub blocked : Tracker → String → Limit → ℕ → Verdict × Tracker
blocked t name limit now =
    let (u, t') = usage_of t name now in
    if ltb now u.cooldown_until
    then (cooling_down ((u.cooldown_until - now + (minute - 1)) / minute), t')
    else if ltb 0 limit.day && leb limit.day u.day_used
    then (daily_quota_spent, t')
    else if ltb 0 limit.month && leb limit.month u.month_used
    then (monthly_quota_spent, t')
    else (usable, t')

-- The write to the store, which may fail.
unfoldable pub update : Tracker → String → ℕ → (Usage → Usage) → Bool → Tracker
unfolding entry
update t name now change saved =
    let u = change (entry t name now).0 in
    record t {
      usage = assign t.usage name u;
      store = elim t.store [
        | none ↦ none
        | some rows ↦ if saved then some (assign rows name u) else some rows
      ];
    }

abbrev pub used : Usage → Usage
used u = record u {
  day_used = suc u.day_used;
  month_used = suc u.month_used;
  fail_streak = 0;
  cooldown_until = 0;
}

unfoldable pub record_use : Tracker → String → ℕ → Bool → Tracker
unfolding update
record_use t name now saved = update t name now used saved

-- The cooldown after so many failures in a row, one at least.
unfoldable pub backoff : ℕ → ℕ
backoff streak = min (cooldown_base * 2 ^ min (streak - 1) 10) cooldown_max

abbrev pub failed : ℕ → ℕ → Usage → Usage
failed now until u =
    let at = now + backoff (suc u.fail_streak) in
    record u {
      fail_streak = suc u.fail_streak;
      cooldown_until = if ltb at until then until else at;
    }

unfoldable pub record_failure : Tracker → String → ℕ → ℕ → Bool → Tracker
unfolding update
record_failure t name now until saved = update t name now (failed now until) saved
