-- ===== src/Agent/Plan/Turn.antt =====
-- internal/agent/compaction.go: what a plan of `planCompaction` points at.
use eika.Common.{
  ◌==◌, ==_iff, Bool-cases, inl, inr, ℕ, zero, suc, ◌+◌, ◌-◌, ◌≤◌, ◌<◌, Bool, true, false, ◌||◌,
  Option, none, some, List, [], ◌∷◌, ltb, if◌then◌else◌, arith, ◌≡◌, refl, ap, sym, subst, get_or,
}
use eika.Provider.{Message, is_user, is_tool}
use eika.Agent.Plan.{
  planned, plan_cuts, CompactionPlan, role_at, cuts, first_from, last_cut, first_kept, walk_back,
  turn_start, split_at, has_summary, plan_compaction,
}
use eika.Agent.Plan.Cut.{AreCuts, IsChosen, cuts-AreCuts, first_from-some, last_cut-IsLast}

abbrev pub IsNoUser : List Message → ℕ → ℕ → Type 0
IsNoUser msgs lo hi = (d : ℕ) → lo ≤ d → d < hi → is_user (role_at msgs d) ≡ false

-- `o` is the newest user message from `lo` up to `hi`, if there is one.
abbrev pub IsNewestUser : List Message → ℕ → ℕ → Option ℕ → Type 0
IsNewestUser msgs lo hi none = IsNoUser msgs lo hi
IsNewestUser msgs lo hi (some t) =
    (lo ≤ t) × ((t < hi) × ((is_user (role_at msgs t) ≡ true) × IsNoUser msgs (suc t) hi))

IsNoUser-snoc :
    (msgs : List Message) (lo hi : ℕ)
    → is_user (role_at msgs hi) ≡ false
    → IsNoUser msgs lo hi
    → IsNoUser msgs lo (suc hi)
IsNoUser-snoc msgs lo hi t rest d a b = elim (Bool-cases (d == hi)) [
  | inl e ↦ subst (λ x. is_user (role_at msgs x) ≡ false) (sym ((==_iff d hi).0 e)) t
  | inr e ↦ rest d a (ground arith)
]

IsNewestUser-snoc :
    (msgs : List Message) (lo hi : ℕ) (o : Option ℕ)
    → is_user (role_at msgs hi) ≡ false
    → IsNewestUser msgs lo hi o
    → IsNewestUser msgs lo (suc hi) o
IsNewestUser-snoc msgs lo hi none t h = IsNoUser-snoc msgs lo hi t h
IsNewestUser-snoc msgs lo hi (some u) t (a, (b, (c, d))) =
    (a, (omega arith, (c, IsNoUser-snoc msgs (suc u) hi t d)))

turn_start-IsNewestUser :
    (msgs : List Message) (lo hi n : ℕ)
    → hi ≡ lo + n
    → IsNewestUser msgs lo hi (turn_start msgs lo n)
unfolding turn_start
turn_start-IsNewestUser msgs lo hi zero h = λ d a b. ground arith
turn_start-IsNewestUser msgs lo hi (suc n) h =
    subst (λ x. IsNewestUser msgs lo x (turn_start msgs lo (suc n))) (omega arith)
      (step (is_user (role_at msgs (lo + n))) refl
        (turn_start-IsNewestUser msgs lo (lo + n) n refl))
  where
    step :
        (b : Bool)
        → is_user (role_at msgs (lo + n)) ≡ b
        → IsNewestUser msgs lo (lo + n) (turn_start msgs lo n)
        → IsNewestUser msgs lo (suc (lo + n)) (if b then some (lo + n) else turn_start msgs lo n)
    step true e h = (omega arith, (omega arith, (e, λ d a b. ground arith)))
    step false e h = IsNewestUser-snoc msgs lo (lo + n) (turn_start msgs lo n) e h

-- The cut is in range and no tool result, there is something before it to summarise, and the turn
-- that it splits is the one that the newest user message before it began.
pub record IsSound (msgs : List Message) (stored : ℕ) (p : CompactionPlan) : Type 0 where
  pub stored_all : p.stored ≡ stored
  pub progress : p.start < p.first
  pub below : p.first < stored
  pub no_tool : is_tool (role_at msgs p.first) ≡ false
  pub whole : is_user (role_at msgs p.first) ≡ true → p.turn_start ≡ none
  pub split :
      is_user (role_at msgs p.first) ≡ false → IsNewestUser msgs p.start (suc p.first) p.turn_start

pub walk_back-bounds :
    (sizes : List ℕ) (keep start total n i : ℕ)
    → walk_back sizes keep start total n ≡ some i
    → (start ≤ i) × (i < start + n)
unfolding walk_back
walk_back-bounds sizes keep start total zero i h = cc
walk_back-bounds sizes keep start total (suc n) i h =
    ground (arith, walk_back-bounds sizes keep start (total + get_or sizes (start + n) 0) n i)

pub first_kept-IsChosen :
    (msgs : List Message) (lo hi c : ℕ) (cs : List ℕ) (o : Option ℕ)
    → AreCuts msgs lo hi (c ∷ cs)
    → ((i : ℕ) → o ≡ some i → lo ≤ i)
    → IsChosen msgs lo hi (first_kept c cs o)
unfolding first_kept
first_kept-IsChosen msgs lo hi c cs none (a, (b, (t, w))) k = record {
  above = a;
  below = b;
  no_tool = t;
}
first_kept-IsChosen msgs lo hi c cs (some i) w k = step (first_from i (c ∷ cs)) refl
  where
    step :
        (o : Option ℕ)
        → first_from i (c ∷ cs) ≡ o
        → IsChosen msgs lo hi (elim o [ some d ↦ d | none ↦ last_cut c cs ])
    step none e = (last_cut-IsLast msgs lo hi c cs w).chosen
    step (some d) e = (first_from-some msgs lo hi i d (c ∷ cs) (k i refl) w e).chosen

split-newest :
    (msgs : List Message) (start first : ℕ)
    → start ≤ first
    → is_user (role_at msgs first) ≡ false
    → IsNewestUser msgs start (suc first) (split_at msgs start first)
unfolding turn_start
split-newest msgs start first h e =
    subst
      (λ b.
        IsNewestUser msgs start (suc first)
          (if b then none else turn_start msgs start (suc (first - start))))
      (sym e) (turn_start-IsNewestUser msgs start (suc first) (suc (first - start)) (omega arith))

progress_lem :
    (msgs : List Message) (start first : ℕ) (o : Option ℕ)
    → (is_user (role_at msgs first) ≡ true → o ≡ none)
    → (is_user (role_at msgs first) ≡ false → IsNewestUser msgs start (suc first) o)
    → (elim o [ none ↦ false | some t ↦ true ] || ltb start first) ≡ true
    → start < first
progress_lem msgs start first none a b h = ground arith
progress_lem msgs start first (some t) a b h = elim (Bool-cases (is_user (role_at msgs first))) [
  | inl e ↦ cc (a e)
  | inr e ↦ below (b e) e
]
  where
    below :
        IsNewestUser msgs start (suc first) (some t)
        → is_user (role_at msgs first) ≡ false
        → start < first
    below (k, (l, (u, w))) e = elim (Bool-cases (t == first)) [
      | inl q ↦ cc (ap (λ x. is_user (role_at msgs x)) ((==_iff t first).0 q), u, e)
      | inr q ↦ ground arith
    ]

planned-IsSound :
    (msgs : List Message) (start stored first : ℕ) (p : CompactionPlan)
    → IsChosen msgs start stored first
    → planned msgs start stored first ≡ (p, true)
    → IsSound msgs stored p
planned-IsSound msgs start stored first p k h =
    subst (λ x. IsSound msgs stored x) (ap (λ x. x.0) h)
      (record {
        stored_all = refl;
        progress =
            progress_lem msgs start first (split_at msgs start first) (λ e. rw e)
              (split-newest msgs start first k.above) (ap (λ x. x.1) h);
        below = k.below;
        no_tool = k.no_tool;
        whole = λ e. rw e;
        split = split-newest msgs start first k.above;
      })

plan_cuts-IsSound :
    (msgs : List Message) (sizes : List ℕ) (start stored keep : ℕ) (cs : List ℕ)
    (p : CompactionPlan)
    → AreCuts msgs start (start + (stored - start)) cs
    → plan_cuts msgs sizes start stored keep cs ≡ (p, true)
    → IsSound msgs stored p
plan_cuts-IsSound msgs sizes start stored keep [] p w h = cc (ap (λ x. x.1) h)
plan_cuts-IsSound msgs sizes start stored keep (c ∷ cs) p w h =
    let o = walk_back sizes keep start 0 (stored - start) in
    planned-IsSound msgs start stored (first_kept c cs o) p
      (first_kept-IsChosen msgs start stored c cs o
        (subst (λ x. AreCuts msgs start x (c ∷ cs)) (in_range w.0 w.1.0) w)
        (λ i e. (walk_back-bounds sizes keep start 0 (stored - start) i e).0))
      h
  where
    in_range : start ≤ c → c < start + (stored - start) → start + (stored - start) ≡ stored
    in_range a b = omega arith

-- A plan of `planCompaction` is sound.
pub plan_compaction-IsSound :
    (msgs : List Message) (sizes : List ℕ) (stored keep : ℕ) (p : CompactionPlan)
    → plan_compaction msgs sizes stored keep ≡ (p, true)
    → IsSound msgs stored p
unfolding plan_compaction
plan_compaction-IsSound msgs sizes stored keep p h =
    let start = has_summary msgs in
    plan_cuts-IsSound msgs sizes start stored keep (cuts msgs start (stored - start)) p
      (cuts-AreCuts msgs start (start + (stored - start)) (stored - start) refl) h
