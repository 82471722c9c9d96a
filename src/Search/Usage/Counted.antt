-- ===== src/Search/Usage/Counted.antt =====
-- internal/search/usage.go: the counters against the history of what was recorded.
use eika.Common.{
  ℕ, suc, ◌≤◌, ◌<◌, ◌≡◌, ◌≢◌, inl, inr, refl, sym, ap, ◌∙◌, Bool, ◌&&◌, String, str_eq, str_eq_iff,
  List, [], ◌∷◌, Option, none, some, arith, ◌==◌, if◌then◌else◌, lookup, lookup-assign_self,
  lookup-assign_ne, Ordering-cases,
}
use eika.Search.Usage.{
  Usage, Tracker, day_of, month_of, fresh_usage, rolled_over, entry, usage_of, update, used,
  record_use, failed, record_failure,
}

pub data Act : Type 0 where
  using looking : Act
  failing : ℕ → Act

-- A call for a bucket at a time; `saved` says whether the store took the write.
pub record Call : Type 0 where
  pub bucket : String
  pub at : ℕ
  pub act : Act
  pub saved : Bool

abbrev pub act_on : Tracker → String → ℕ → Bool → Act → Tracker
act_on t bucket at saved using = record_use t bucket at saved
act_on t bucket at saved looking = (usage_of t bucket at).1
act_on t bucket at saved (failing until) = record_failure t bucket at until saved

-- The tracker after these calls, the newest one first.
abbrev pub after : Tracker → List Call → Tracker
after t [] = t
after t (c ∷ earlier) = act_on (after t earlier) c.bucket c.at c.saved c.act

-- The calls come in the order of their times, up to now.
abbrev pub IsOrdered : ℕ → List Call → Type 0
IsOrdered now [] = Unit
IsOrdered now (c ∷ earlier) = (c.at ≤ now) × IsOrdered c.at earlier

-- The uses of a bucket on a day or in a month, as `period` tells.
abbrev pub uses : (ℕ → ℕ) → String → ℕ → List Call → ℕ
uses period bucket when [] = 0
uses period bucket when (c ∷ earlier) =
    let rest = uses period bucket when earlier in
    elim c.act [
      | using ↦ if str_eq c.bucket bucket && (period c.at == when) then suc rest else rest
      | looking ↦ rest
      | failing until ↦ rest
    ]

-- The failures of a bucket since it last answered.
abbrev pub streak : String → List Call → ℕ
streak bucket [] = 0
streak bucket (c ∷ earlier) =
    let rest = streak bucket earlier in
    elim c.act [
      | using ↦ if str_eq c.bucket bucket then 0 else rest
      | looking ↦ rest
      | failing until ↦ if str_eq c.bucket bucket then suc rest else rest
    ]

-- What is stored of a bucket: its counters, as of the newest call for it.
pub record IsKept (bucket : String) (calls : List Call) (now : ℕ) (u : Usage) : Type 0 where
  pub past_day : u.day ≤ day_of now
  pub past_month : u.month ≤ month_of now
  pub days : u.day_used ≡ uses day_of bucket u.day calls
  pub months : u.month_used ≡ uses month_of bucket u.month calls
  pub later_days : (d : ℕ) → u.day < d → uses day_of bucket d calls ≡ 0
  pub later_months : (m : ℕ) → u.month < m → uses month_of bucket m calls ≡ 0
  pub fails : u.fail_streak ≡ streak bucket calls

pub record IsUnused (bucket : String) (calls : List Call) : Type 0 where
  pub no_days : (d : ℕ) → uses day_of bucket d calls ≡ 0
  pub no_months : (m : ℕ) → uses month_of bucket m calls ≡ 0
  pub no_fails : streak bucket calls ≡ 0

abbrev pub Kept : String → List Call → ℕ → Option Usage → Type 0
Kept bucket calls now none = IsUnused bucket calls
Kept bucket calls now (some u) = IsKept bucket calls now u

rolled_count :
    (count : ℕ → ℕ) (old new n : ℕ)
    → old ≤ new
    → n ≡ count old
    → ((d : ℕ) → old < d → count d ≡ 0)
    → (if old == new then n else 0) ≡ count new
rolled_count count old new n h same later = elim (Ordering-cases old new) [
  | inl (inl less) ↦ ground (arith, later new less)
  | inl (inr equal) ↦ ground (arith, same, equal, ap count equal)
  | inr more ↦ absurd (omega arith)
]

-- The counters that a call finds are those of its own day and month.
pub entry-IsKept :
    (t : Tracker) (bucket : String) (calls : List Call) (now : ℕ)
    → Kept bucket calls now (lookup t.usage bucket)
    → let u = (entry t bucket now).0 in
      IsKept bucket calls now u × ((u.day ≡ day_of now) × (u.month ≡ month_of now))
unfolding entry fresh_usage rolled_over
entry-IsKept t bucket calls now kept = at (lookup t.usage bucket) kept
  where
    at :
        (o : Option Usage)
        → Kept bucket calls now o
        → let u : Usage = elim o as (λ _. Usage) [
          | none ↦ fresh_usage now
          | some u ↦ rolled_over u now
        ] in
          IsKept bucket calls now u × ((u.day ≡ day_of now) × (u.month ≡ month_of now))
    at none kept = (
      record {
        past_day = omega arith;
        past_month = omega arith;
        days = sym (kept.no_days (day_of now));
        months = sym (kept.no_months (month_of now));
        later_days = λ d h. kept.no_days d;
        later_months = λ m h. kept.no_months m;
        fails = sym kept.no_fails;
      },
      (refl, refl),
    )
    at (some u) kept = (
      record {
        past_day = omega arith;
        past_month = omega arith;
        days =
            rolled_count (λ d. uses day_of bucket d calls) u.day (day_of now) u.day_used
              kept.past_day kept.days kept.later_days;
        months =
            rolled_count (λ m. uses month_of bucket m calls) u.month (month_of now) u.month_used
              kept.past_month kept.months kept.later_months;
        later_days = λ d h. kept.later_days d (omega (arith, kept.past_day));
        later_months = λ m h. kept.later_months m (omega (arith, kept.past_month));
        fails = kept.fails;
      },
      (refl, refl),
    )

-- What one call adds to the counts of its bucket and of the others.
uses-using :
    (period : ℕ → ℕ) (bucket : String) (at : ℕ) (saved : Bool) (calls : List Call) (d : ℕ)
    → uses period bucket d (record { bucket = bucket; at = at; act = using; saved = saved } ∷ calls)
      ≡ (if period at == d then suc (uses period bucket d calls) else uses period bucket d calls)
uses-using period bucket at saved calls d = ground (arith, str_eq_iff bucket bucket)

uses-other :
    (period : ℕ → ℕ) (bucket : String) (c : Call) (calls : List Call) (d : ℕ)
    → c.bucket ≢ bucket
    → uses period bucket d (c ∷ calls) ≡ uses period bucket d calls
uses-other period bucket c calls d other = ground (arith, str_eq_iff c.bucket bucket)

streak-other :
    (bucket : String) (c : Call) (calls : List Call)
    → c.bucket ≢ bucket
    → streak bucket (c ∷ calls) ≡ streak bucket calls
streak-other bucket c calls other = ground (arith, str_eq_iff c.bucket bucket)

pub other-Kept :
    (bucket : String) (c : Call) (calls : List Call) (now : ℕ) (o : Option Usage)
    → c.bucket ≢ bucket
    → Kept bucket calls now o
    → Kept bucket (c ∷ calls) now o
other-Kept bucket c calls now none other kept = record {
  no_days = λ d. uses-other day_of bucket c calls d other ∙ kept.no_days d;
  no_months = λ m. uses-other month_of bucket c calls m other ∙ kept.no_months m;
  no_fails = streak-other bucket c calls other ∙ kept.no_fails;
}
other-Kept bucket c calls now (some u) other kept = record {
  past_day = kept.past_day;
  past_month = kept.past_month;
  days = kept.days ∙ sym (uses-other day_of bucket c calls u.day other);
  months = kept.months ∙ sym (uses-other month_of bucket c calls u.month other);
  later_days = λ d h. uses-other day_of bucket c calls d other ∙ kept.later_days d h;
  later_months = λ m h. uses-other month_of bucket c calls m other ∙ kept.later_months m h;
  fails = kept.fails ∙ sym (streak-other bucket c calls other);
}

-- The counters after a call for their bucket.
pub called :
    (bucket : String) (at : ℕ) (saved : Bool) (act : Act) (calls : List Call) (u : Usage)
    → IsKept bucket calls at u
    → u.day ≡ day_of at
    → u.month ≡ month_of at
    → IsKept bucket
        (record { bucket = bucket; at = at; act = act; saved = saved } ∷ calls)
        at
        (elim act [ using ↦ used u | looking ↦ u | failing until ↦ failed at until u ])
called bucket at saved using calls u kept today this_month = record {
  past_day = kept.past_day;
  past_month = kept.past_month;
  days = ground (arith, uses-using day_of bucket at saved calls u.day, kept.days, today);
  months =
      ground (arith, uses-using month_of bucket at saved calls u.month, kept.months, this_month);
  later_days =
      λ d h. ground (arith, uses-using day_of bucket at saved calls d, kept.later_days d h, today);
  later_months = λ m h.
      ground
        (arith, uses-using month_of bucket at saved calls m, kept.later_months m h, this_month);
  fails = ground (arith, str_eq_iff bucket bucket);
}
called bucket at saved looking calls u kept today this_month = record {
  past_day = kept.past_day;
  past_month = kept.past_month;
  days = kept.days;
  months = kept.months;
  later_days = kept.later_days;
  later_months = kept.later_months;
  fails = kept.fails;
}
called bucket at saved (failing until) calls u kept today this_month = record {
  past_day = kept.past_day;
  past_month = kept.past_month;
  days = kept.days;
  months = kept.months;
  later_days = kept.later_days;
  later_months = kept.later_months;
  fails = ground (arith, str_eq_iff bucket bucket, kept.fails);
}

pub act_on_self :
    (t : Tracker) (bucket : String) (at : ℕ) (saved : Bool) (act : Act)
    → lookup (act_on t bucket at saved act).usage bucket
      ≡ some (
          let u = (entry t bucket at).0 in
          elim act [ using ↦ used u | looking ↦ u | failing until ↦ failed at until u ])
unfolding record_use usage_of record_failure update entry
act_on_self t bucket at saved using = lookup-assign_self t.usage bucket _
act_on_self t bucket at saved looking = lookup-assign_self t.usage bucket _
act_on_self t bucket at saved (failing until) = lookup-assign_self t.usage bucket _

pub act_on-other :
    (t : Tracker) (name bucket : String) (at : ℕ) (saved : Bool) (act : Act)
    → name ≢ bucket
    → lookup (act_on t name at saved act).usage bucket ≡ lookup t.usage bucket
unfolding record_use usage_of record_failure update entry
act_on-other t name bucket at saved using other = lookup-assign_ne t.usage name bucket _ other
act_on-other t name bucket at saved looking other = lookup-assign_ne t.usage name bucket _ other
act_on-other t name bucket at saved (failing until) other =
    lookup-assign_ne t.usage name bucket _ other
