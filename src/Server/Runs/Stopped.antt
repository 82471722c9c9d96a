-- ===== src/Server/Runs/Stopped.antt =====
-- internal/server/run_manager.go: what `stopAll` leaves.
use mathlib.Core.List.{Memᴰ}
use mathlib.Core.List.Memᴰ
use eika.Common.{
  ℕ, String, ◌≡◌, inl, inr, refl, sym, ap, ◌∙◌, subst, true, List, [], ◌∷◌, Option, none, some,
  get_elem?, err, Map, lookup, arith, Bool-cases, Option-cases, str_eq_iff, text-cases,
}
use eika.Server.Runs.{
  RunState, new_runs, abort_running_rows, ActiveRun, Runs, shutting_down, reserve, abort_at,
  pointers, pointers_in, stop_retries,
}
use eika.Server.Runs.Steps.{
  IsLive, ◌⟶*◌, start, then, Stops, all_ended, one_ended, StopAll, stop_all,
}
use eika.Server.Runs.Single.{steps-IsSupervised, new_runs-IsSupervised}
use eika.Server.Runs.Supervised.{IsSupervised}
use eika.Server.Runs.Changed.{abort_at-IsSupervised}
use eika.Server.Runs.Narrowed.{IsNarrowed, same-IsNarrowed, step-IsNarrowed, abort_at-IsNarrowed}

pub steps-IsNarrowed : (r r' : Runs) → r ⟶* r' → IsNarrowed r r'
steps-IsNarrowed r r' start = same-IsNarrowed r r refl refl
steps-IsNarrowed r r' (then {s = mid} before last) =
    let a = steps-IsNarrowed r mid before in
    let b = step-IsNarrowed mid r' last in
    record {
      off = λ e. b.off (a.off e);
      old = λ e q c h. let (d, live) = b.old (a.off e) q c h in a.old e q d live;
      present = λ q c h. let (d, found) = a.present q c h in b.present q d found;
    }

-- Every run that goes is at one of the pointers.
abbrev Covers : List ℕ → Runs → Type 0
Covers going r = (q : ℕ) (b : ActiveRun) → IsLive r.actives q b → Memᴰ q going

-- No run goes, and none starts.
pub record IsStopped (r : Runs) : Type 0 where
  pub all_done : (q : ℕ) (b : ActiveRun) → get_elem? r.actives q ≡ some b → b.done ≡ true
  pub none_held : (s : String) → lookup r.by_session s ≡ none
  pub none_named : (id : String) → lookup r.by_id id ≡ none
  pub refused : (s w : String) → reserve r s w ≡ err shutting_down

pub record IsEmptied (r : Runs) : Type 0 where
  good : IsSupervised r
  idle : (q : ℕ) (b : ActiveRun) → IsLive r.actives q b → ⊥
  off : r.stopped ≡ true

Stops-IsEmptied :
    (r r' : Runs) (going : List ℕ)
    → Stops r going r'
    → IsSupervised r
    → r.stopped ≡ true
    → Covers going r
    → IsEmptied r'
Stops-IsEmptied r r' [] all_ended good off covers = record {
  good = good;
  off = off;
  idle = λ q b h. Memᴰ.not-nil (covers q b h);
}
Stops-IsEmptied r r' (p ∷ going) (one_ended {r' = mid} _ a _ steps here over rest) good off covers =
    let hit = abort_at-IsNarrowed r p in
    let later = steps-IsNarrowed (abort_at r p) mid steps in
    Stops-IsEmptied mid r' going rest
      (steps-IsSupervised _ mid (abort_at-IsSupervised r p good) steps) (later.off (hit.off off))
      (λ q b h.
        let (c, live) = later.old (hit.off off) q b h in
        let (d, before) = hit.old off q c live in
        elim (Memᴰ.cases_cons (covers q d before)) [
          | inl same ↦ absurd (cc (h.here, h.goes_on, same, here, over))
          | inr found ↦ found
        ])

lookup-Mem :
    (all m : Map ℕ) (s : String) (p : ℕ)
    → lookup m s ≡ some p
    → lookup all s ≡ some p
    → Memᴰ p (pointers_in all m)
lookup-Mem all [] s p found own = cc found
lookup-Mem all ((k, q) ∷ m) s p found own = elim (text-cases k s) [
  | inl same ↦
      subst
        (λ o.
          Memᴰ p
            (elim o as (λ _. List ℕ) [ none ↦ pointers_in all m | some p ↦ p ∷ pointers_in all m ]))
        (sym (ap (lookup all) same ∙ own)) (Memᴰ.head refl)
  | inr other ↦ at (lookup all k) (lookup-Mem all m s p (ground (arith, str_eq_iff k s)) own)
]
  where
    at :
        (o : Option ℕ)
        → Memᴰ p (pointers_in all m)
        → Memᴰ p
            (elim o as (λ _. List ℕ) [ none ↦ pointers_in all m | some p ↦ p ∷ pointers_in all m ])
    at none later = later
    at (some x) later = Memᴰ.tail later

reserve-off : (r : Runs) (s w : String) → r.stopped ≡ true → reserve r s w ≡ err shutting_down
unfolding reserve
reserve-off r s w off = ground arith

pub emptied-IsStopped : (r : Runs) → IsEmptied r → IsStopped r
emptied-IsStopped r emptied = record {
  all_done = λ q b here. elim (Bool-cases b.done) [
    | inl over ↦ over
    | inr on ↦ absurd (emptied.idle q b (record { here = here; goes_on = on }))
  ];
  none_held = λ s. elim (Option-cases (lookup r.by_session s)) [
    | inl missing ↦ missing
    | inr (p, found) ↦
        let (b, (live, _)) = emptied.good.agrees.held s p found in absurd (emptied.idle p b live)
  ];
  none_named = λ id. elim (Option-cases (lookup r.by_id id)) [
    | inl missing ↦ missing
    | inr (p, found) ↦
        let (b, (live, _)) =
          emptied.good.agrees.named id p (emptied.good.registered id p found).1 in
        absurd (emptied.idle p b live)
  ];
  refused = λ s w. reserve-off r s w emptied.off;
}

stop_retries-IsEmptied : (r : Runs) → IsEmptied r → IsEmptied (stop_retries r)
stop_retries-IsEmptied r emptied = record {
  good = record {
    owners = emptied.good.owners;
    agrees = emptied.good.agrees;
    staged = emptied.good.staged;
    registered = emptied.good.registered;
    filed = record {
      anonymous = emptied.good.filed.anonymous;
      filed = emptied.good.filed.filed;
      settled = λ id e. cc e;
      due = λ id goes. inr (inr refl);
    };
  };
  idle = emptied.idle;
  off = emptied.off;
}

pub later-IsEmptied : (r r' : Runs) → IsEmptied r → r ⟶* r' → IsEmptied r'
later-IsEmptied r r' emptied steps =
    let later = steps-IsNarrowed r r' steps in
    record {
      good = steps-IsSupervised r r' emptied.good steps;
      idle = λ q b h. let (c, live) = later.old emptied.off q b h in emptied.idle q c live;
      off = later.off emptied.off;
    }

pub StopAll-IsEmptied : (r r' : Runs) → IsSupervised r → StopAll r r' → IsEmptied r'
StopAll-IsEmptied r r' good (stop_all {r' = mid} stops) = stop_retries-IsEmptied mid (
    Stops-IsEmptied (record r { stopped = true }) mid (pointers r.by_session) stops
      (record {
        owners = good.owners;
        agrees = good.agrees;
        filed = good.filed;
        staged = good.staged;
        registered = good.registered;
      })
      refl
      (λ q b h.
        let own = good.agrees.claimed q b h in
        lookup-Mem r.by_session r.by_session b.session_id q own own))

-- After any sequence of steps from a start of the server, when `stopAll` has returned, whatever went on
-- while it waited (runs that were still being built began, requests came in): no run goes, no session
-- and no id has one, and every later reservation is refused; and so it stays, whatever happens then.
pub StopAll-IsStopped :
    (rows : Map RunState) (r r' r'' : Runs)
    → new_runs (abort_running_rows rows) ⟶* r
    → StopAll r r'
    → r' ⟶* r''
    → IsStopped r''
StopAll-IsStopped rows r r' r'' steps stopping_all later = emptied-IsStopped r'' (
    later-IsEmptied r' r''
      (StopAll-IsEmptied r r' (steps-IsSupervised _ r (new_runs-IsSupervised rows) steps)
        stopping_all)
      later)
