-- ===== src/Agent/Plan/Kept.antt =====
-- internal/agent/compaction.go: how much of a conversation a plan of `planCompaction` keeps.
use eika.Common.{
  sum, Bool-cases, leb, ℕ, zero, suc, ◌+◌, ◌-◌, ◌≤◌, ◌<◌, Bool, true, false, Option, none, some,
  List, [], ◌∷◌, ltb, if◌then◌else◌, arith, ◌≡◌, refl, ap, sym, subst, get_or, take, drop, ◌⊎◌, inl,
  inr,
}
use eika.Provider.{Message, is_tool}
use eika.Agent.Plan.{
  CompactionPlan, role_at, cuts, first_from, last_cut, first_kept, walk_back, has_summary,
  plan_compaction, plan_cuts,
}
use eika.Agent.Plan.Cut.{
  AreCuts, IsTools, IsChosen, cuts-AreCuts, first_from-some, first_from-none, last_cut-IsLast,
}

-- The size of the stored messages from `i` on.
unfoldable pub size_from : List ℕ → ℕ → ℕ → ℕ
size_from sizes stored i = sum (drop i (take stored sizes))

size_from-step :
    (sizes : List ℕ) (stored i : ℕ)
    → i < stored
    → size_from sizes stored i ≡ get_or sizes i 0 + size_from sizes stored (suc i)
unfolding size_from
size_from-step [] (suc stored) zero h = omega arith
size_from-step [] (suc stored) (suc i) h = omega arith
size_from-step [] zero i h = omega arith
size_from-step (x ∷ xs) zero i h = omega arith
size_from-step (x ∷ xs) (suc stored) zero h = refl
size_from-step (x ∷ xs) (suc stored) (suc i) h = size_from-step xs stored i (omega arith)

sum-drop : (xs : List ℕ) (i j : ℕ) → i ≤ j → sum (drop j xs) ≤ sum (drop i xs)
sum-drop [] zero zero h = omega arith
sum-drop [] zero (suc j) h = omega arith
sum-drop [] (suc i) zero h = omega arith
sum-drop [] (suc i) (suc j) h = omega arith
sum-drop (x ∷ xs) zero zero h = omega arith
sum-drop (x ∷ xs) zero (suc j) h = omega (arith, sum-drop xs zero j (omega arith))
sum-drop (x ∷ xs) (suc i) zero h = omega arith
sum-drop (x ∷ xs) (suc i) (suc j) h = sum-drop xs i j (omega arith)

size_from_mono :
    (sizes : List ℕ) (stored i j : ℕ) → i ≤ j → size_from sizes stored j ≤ size_from sizes stored i
unfolding size_from
size_from_mono sizes stored i j h = sum-drop (take stored sizes) i j h

size_from-end : (sizes : List ℕ) (stored : ℕ) → size_from sizes stored stored ≡ 0
unfolding size_from
size_from-end [] zero = refl
size_from-end [] (suc stored) = refl
size_from-end (x ∷ xs) zero = refl
size_from-end (x ∷ xs) (suc stored) = size_from-end xs stored

-- Where the walk back stops: `keep` is reached there, and not one message later.
abbrev IsReached : List ℕ → ℕ → ℕ → ℕ → Option ℕ → Type 0
IsReached sizes stored keep lo none = size_from sizes stored lo < keep
IsReached sizes stored keep lo (some i) =
    (lo ≤ i)
    × ((i < stored) × ((keep ≤ size_from sizes stored i) × (size_from sizes stored (suc i) < keep)))

walk_back-IsReached :
    (sizes : List ℕ) (stored keep lo acc n hi : ℕ)
    → hi ≡ lo + n
    → hi ≤ stored
    → acc ≡ size_from sizes stored hi
    → acc < keep
    → IsReached sizes stored keep lo (walk_back sizes keep lo acc n)
unfolding walk_back
walk_back-IsReached sizes stored keep lo acc zero hi q b e h =
    subst (λ x. size_from sizes stored x < keep) {x = hi} (omega arith) (omega arith)
walk_back-IsReached sizes stored keep lo acc (suc n) hi q b e h =
    step (ltb (acc + get_or sizes (lo + n) 0) keep) refl (λ l.
      walk_back-IsReached sizes stored keep lo (acc + get_or sizes (lo + n) 0) n (lo + n) refl
        (omega arith) sized l)
  where
    next : acc ≡ size_from sizes stored (suc (lo + n))
    next = subst (λ x. acc ≡ size_from sizes stored x) (omega arith) e

    sized : acc + get_or sizes (lo + n) 0 ≡ size_from sizes stored (lo + n)
    sized = omega (arith, next, size_from-step sizes stored (lo + n))

    step :
        (t : Bool)
        → ltb (acc + get_or sizes (lo + n) 0) keep ≡ t
        → (acc + get_or sizes (lo + n) 0 < keep
            → IsReached sizes stored keep lo
                (walk_back sizes keep lo (acc + get_or sizes (lo + n) 0) n))
        → IsReached sizes stored keep lo
            (if t then walk_back sizes keep lo (acc + get_or sizes (lo + n) 0) n else some (lo + n))
    step true t rest = rest (ground arith)
    step false t rest = (omega arith, (omega arith, (ground (arith, sized), omega (arith, next))))

-- What is kept beyond its first message is smaller than `keep`, unless it is tool results only; and
-- any earlier cut keeps at least `keep`.
pub record IsTight (msgs : List Message) (sizes : List ℕ) (start stored keep first : ℕ)
    : Type 0 where
  pub small : (size_from sizes stored (suc first) < keep) ⊎ IsTools msgs (suc first) stored
  pub needed :
      (c : ℕ)
      → start ≤ c
      → c < first
      → is_tool (role_at msgs c) ≡ false
      → keep ≤ size_from sizes stored c

first_kept-IsTight :
    (msgs : List Message) (sizes : List ℕ) (lo stored keep c : ℕ) (cs : List ℕ) (o : Option ℕ)
    → AreCuts msgs lo stored (c ∷ cs)
    → IsReached sizes stored keep lo o
    → IsTight msgs sizes lo stored keep (first_kept c cs o)
unfolding first_kept
first_kept-IsTight msgs sizes lo stored keep c cs none (a, (b, (t, (f, w)))) r = record {
  small = inl (omega (arith, size_from_mono sizes stored lo (suc c)));
  needed = λ d k l m. cc (f d k l, m);
}
first_kept-IsTight msgs sizes lo stored keep c cs (some i) w (a, (b, (k, l))) =
    step (first_from i (c ∷ cs)) refl
  where
    step :
        (o : Option ℕ)
        → first_from i (c ∷ cs) ≡ o
        → IsTight msgs sizes lo stored keep (elim o [ some d ↦ d | none ↦ last_cut c cs ])
    step none e =
        let n = last_cut-IsLast msgs lo stored c cs w in
        record {
          small = inr n.after;
          needed =
              λ d x y m. omega (arith, k, size_from_mono sizes stored d i (before n.chosen d y));
        }
      where
        tools : IsTools msgs i stored
        tools = first_from-none msgs lo stored i (c ∷ cs) a w e

        before : IsChosen msgs lo stored (last_cut c cs) → (d : ℕ) → d < last_cut c cs → d ≤ i
        before n d y = elim (Bool-cases (leb i (last_cut c cs))) [
          | inl q ↦ cc (tools (last_cut c cs) (ground arith) n.below, n.no_tool)
          | inr q ↦ ground arith
        ]
    step (some d) e =
        let q = first_from-some msgs lo stored i d (c ∷ cs) a w e in
        record {
          small = inl (omega (arith, l, size_from_mono sizes stored (suc i) (suc d), q.from));
          needed =
              λ x y z m. omega (arith, k, size_from_mono sizes stored x i (before q.between x z m));
        }
      where
        before : IsTools msgs i d → (x : ℕ) → x < d → is_tool (role_at msgs x) ≡ false → x ≤ i
        before tools x z m = elim (Bool-cases (leb i x)) [
          | inl q ↦ cc (tools x (ground arith) z, m)
          | inr q ↦ ground arith
        ]

plan_cuts-IsTight :
    (msgs : List Message) (sizes : List ℕ) (start stored keep : ℕ) (cs : List ℕ)
    (p : CompactionPlan)
    → 0 < keep
    → AreCuts msgs start (start + (stored - start)) cs
    → plan_cuts msgs sizes start stored keep cs ≡ (p, true)
    → IsTight msgs sizes start stored keep p.first
plan_cuts-IsTight msgs sizes start stored keep [] p l w h = cc (ap (λ x. x.1) h)
plan_cuts-IsTight msgs sizes start stored keep (c ∷ cs) p l w h =
    subst (λ x. IsTight msgs sizes start stored keep x) (ap (λ x. x.0.first) h)
      (first_kept-IsTight msgs sizes start stored keep c cs
        (walk_back sizes keep start 0 (stored - start))
        (subst (λ x. AreCuts msgs start x (c ∷ cs)) (in_range w.0 w.1.0) w)
        (walk_back-IsReached sizes stored keep start 0 (stored - start) stored
          (sym (in_range w.0 w.1.0)) (omega arith) (sym (nothing sizes)) l))
  where
    in_range : start ≤ c → c < start + (stored - start) → start + (stored - start) ≡ stored
    in_range a b = omega arith

    nothing : (sizes : List ℕ) → size_from sizes stored stored ≡ 0
    nothing sizes = size_from-end sizes stored

-- A plan of `planCompaction` keeps about `keep` tokens: leaving out the first message kept, what it
-- keeps of the stored messages is smaller than `keep` or only tool results, and a cut at any earlier
-- message that is no tool result keeps at least `keep`. `keep` is above 0.
pub plan_compaction-IsTight :
    (msgs : List Message) (sizes : List ℕ) (stored keep : ℕ) (p : CompactionPlan)
    → 0 < keep
    → plan_compaction msgs sizes stored keep ≡ (p, true)
    → IsTight msgs sizes (has_summary msgs) stored keep p.first
unfolding plan_compaction
plan_compaction-IsTight msgs sizes stored keep p l h =
    let start = has_summary msgs in
    plan_cuts-IsTight msgs sizes start stored keep (cuts msgs start (stored - start)) p l
      (cuts-AreCuts msgs start (start + (stored - start)) (stored - start) refl) h
