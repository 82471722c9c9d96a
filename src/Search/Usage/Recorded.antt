-- ===== src/Search/Usage/Recorded.antt =====
-- internal/search/usage.go: what the tracker answers, by the history of what was recorded.
use eika.Common.{
  ℕ, ◌≤◌, ◌<◌, ◌≡◌, ◌⊎◌, ◌↔◌, inl, inr, refl, sym, ap, ◌∙◌, subst, String, List, [], ◌∷◌, Option,
  none, some, arith, Map, lookup, text-cases,
}
use eika.Search.Usage.{Limit, Usage, Tracker, day_of, month_of, entry, usage_of, usable, blocked}
use eika.Search.Usage.Months.{day_of_mono, month_of_mono}
use eika.Search.Usage.Counted.{
  Call, act_on, after, IsOrdered, uses, streak, Kept, entry-IsKept, other-Kept, called, act_on_self,
  act_on-other,
}

later-Kept :
    (bucket : String) (calls : List Call) (at now : ℕ) (o : Option Usage)
    → at ≤ now
    → Kept bucket calls at o
    → Kept bucket calls now o
later-Kept bucket calls at now none h kept = kept
later-Kept bucket calls at now (some u) h kept = record {
  past_day = omega (arith, kept.past_day, day_of_mono at now h);
  past_month = omega (arith, kept.past_month, month_of_mono at now h);
  days = kept.days;
  months = kept.months;
  later_days = kept.later_days;
  later_months = kept.later_months;
  fails = kept.fails;
}

abbrev new : Option (Map Usage) → Tracker
new store = record { usage = []; store = store }

called-Kept :
    (t : Tracker) (bucket : String) (c : Call) (calls : List Call)
    → Kept bucket calls c.at (lookup t.usage bucket)
    → Kept bucket (c ∷ calls) c.at (lookup (act_on t c.bucket c.at c.saved c.act).usage bucket)
called-Kept t bucket c calls kept = elim (text-cases c.bucket bucket) [
  | inr other ↦
      subst (Kept bucket (c ∷ calls) c.at)
        (sym (act_on-other t c.bucket bucket c.at c.saved c.act other))
        (other-Kept bucket c calls c.at (lookup t.usage bucket) other kept)
  | inl same ↦
      let mine = subst (λ b. Kept b calls c.at (lookup t.usage b)) (sym same) kept in
      let (found, (today, this_month)) = entry-IsKept t c.bucket calls c.at mine in
      subst (λ b. Kept b (c ∷ calls) c.at (lookup (act_on t c.bucket c.at c.saved c.act).usage b))
        same
        (subst (Kept c.bucket (c ∷ calls) c.at) (sym (act_on_self t c.bucket c.at c.saved c.act)) (
          called c.bucket c.at c.saved c.act calls (entry t c.bucket c.at).0 found today
            this_month))
]

after-Kept :
    (store : Option (Map Usage)) (bucket : String) (calls : List Call) (now : ℕ)
    → IsOrdered now calls
    → Kept bucket calls now (lookup (after (new store) calls).usage bucket)
after-Kept store bucket [] now ordered = record {
  no_days = λ d. refl;
  no_months = λ m. refl;
  no_fails = refl;
}
after-Kept store bucket (c ∷ calls) now (h, ordered) = later-Kept bucket (c ∷ calls) c.at now _ h (
    called-Kept (after (new store) calls) bucket c calls
      (after-Kept store bucket calls c.at ordered))

-- Below a limit, of which 0 means that there is none.
abbrev IsWithin : ℕ → ℕ → Type 0
IsWithin count limit = (limit ≡ 0) ⊎ (count < limit)

-- What the tracker answers for a bucket.
pub record IsCounted (store : Option (Map Usage)) (calls : List Call) (bucket : String) (now : ℕ)
    : Type 0 where
  pub today :
      (usage_of (after (new store) calls) bucket now).0.day_used
      ≡ uses day_of bucket (day_of now) calls
  pub this_month :
      (usage_of (after (new store) calls) bucket now).0.month_used
      ≡ uses month_of bucket (month_of now) calls
  pub in_a_row : (usage_of (after (new store) calls) bucket now).0.fail_streak ≡ streak bucket calls
  pub free :
      (limit : Limit)
      → ((blocked (after (new store) calls) bucket limit now).0 ≡ usable) ↔ (
          ((usage_of (after (new store) calls) bucket now).0.cooldown_until ≤ now)
          × (IsWithin (uses day_of bucket (day_of now) calls) limit.day
              × IsWithin (uses month_of bucket (month_of now) calls) limit.month))

usable_when :
    (t : Tracker) (bucket : String) (limit : Limit) (now day month : ℕ)
    → (usage_of t bucket now).0.day_used ≡ day
    → (usage_of t bucket now).0.month_used ≡ month
    → ((blocked t bucket limit now).0 ≡ usable) ↔ (
        ((usage_of t bucket now).0.cooldown_until ≤ now)
        × (IsWithin day limit.day × IsWithin month limit.month))
unfolding blocked
usable_when t bucket limit now day month today this_month =
    let u = (usage_of t bucket now).0 in
    subst
      (λ d.
        ((blocked t bucket limit now).0 ≡ usable)
        ↔ ((u.cooldown_until ≤ now) × (IsWithin d limit.day × IsWithin month limit.month)))
      today
      (subst
        (λ m.
          ((blocked t bucket limit now).0 ≡ usable)
          ↔ ((u.cooldown_until ≤ now) × (IsWithin u.day_used limit.day × IsWithin m limit.month)))
        this_month (ground arith))

-- From a tracker with no counters, after any calls in the order of their times, whether or not the
-- store took their writes: the counters of a bucket are the number of its uses on the day and in the
-- month of the question, and of its failures since its last use; and the bucket is usable exactly when
-- its cooldown is over and both numbers are below their limits, or have none.
pub usage_of-IsCounted :
    (store : Option (Map Usage)) (calls : List Call) (bucket : String) (now : ℕ)
    → IsOrdered now calls
    → IsCounted store calls bucket now
unfolding usage_of
usage_of-IsCounted store calls bucket now ordered =
    let t = after (new store) calls in
    let (kept, (today, this_month)) =
      entry-IsKept t bucket calls now (after-Kept store bucket calls now ordered) in
    let days = kept.days ∙ ap (λ d. uses day_of bucket d calls) today in
    let months = kept.months ∙ ap (λ m. uses month_of bucket m calls) this_month in
    record {
      today = days;
      this_month = months;
      in_a_row = kept.fails;
      free = λ limit. usable_when t bucket limit now _ _ days months;
    }
