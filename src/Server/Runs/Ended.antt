-- ===== src/Server/Runs/Ended.antt =====
-- internal/server/run_manager.go: every run can come to its end, and with it `stopAll`.
use eika.Common.{
  ℕ, ◌≡◌, inl, inr, refl, Bool, true, false, List, [], ◌∷◌, Option, none, some, get_elem?, set, Map,
  lookup, get_elem?-set_self, get_elem?-bound, Bool-cases, Option-cases, ap, ◌∙◌, subst,
}
use eika.Agent.Queue.{all}
use eika.Agent.Accept.{Agent}
use eika.Server.Runs.{
  RunState, new_runs, abort_running_rows, ActiveRun, Runs, Stage, building, started, loaded, shown,
  driven, closed, abandon, load_agent, publish, register, drive_end, abort_at, pointers,
  pointers_in, stop_retries, new_agent,
}
use eika.Server.Runs.Steps.{
  IsLive, ◌⟶◌, ◌⟶*◌, abandoning, loading, publishing, registering, ending, start, then, Stops,
  all_ended, one_ended, StopAll, stop_all,
}
use eika.Server.Runs.Single.{step-IsSupervised, steps-IsSupervised, new_runs-IsSupervised}
use eika.Server.Runs.Supervised.{IsSupervised, IsStagedAs}
use eika.Server.Runs.Narrowed.{IsNarrowed, abort_at-IsNarrowed, drive_end-same}
use eika.Server.Runs.Changed.{abort_at-IsSupervised}
use eika.Server.Runs.Stopped.{steps-IsNarrowed}

-- Steps after which a run is over.
record IsOver (r : Runs) (p : ℕ) : Type 0 where
  next : Runs
  last : ActiveRun
  steps : r ⟶* next
  here : get_elem? next.actives p ≡ some last
  over : last.done ≡ true

joined : {r s t : Runs} → r ⟶* s → s ⟶* t → r ⟶* t
joined a start = a
joined a (then b step) = then (joined a b) step

-- One step, then those.
stepped : (r s : Runs) (p : ℕ) → r ⟶ s → IsOver s p → IsOver r p
stepped r s p step k = record {
  next = k.next;
  last = k.last;
  steps = joined (then start step) k.steps;
  here = k.here;
  over = k.over;
}

changed-IsLive :
    (actives : List ActiveRun) (p : ℕ) (a a' : ActiveRun)
    → IsLive actives p a
    → a'.done ≡ false
    → IsLive (set actives p a') p a'
changed-IsLive actives p a a' live on = record {
  here = get_elem?-set_self actives p a' (get_elem?-bound actives p live.here);
  goes_on = on;
}

driven-IsOver :
    (r : Runs) (p : ℕ) (a : ActiveRun)
    → IsSupervised r
    → IsLive r.actives p a
    → a.stage ≡ driven
    → IsOver r p
driven-IsOver r p a good live eq = elim (Option-cases a.agent) [
  | inl missing ↦ absurd ((subst (λ s. IsStagedAs s a) eq (good.staged p a live)).2 missing)
  | inr (loop, has) ↦
      let (same, _) = drive_end-same r p a loop true true in
      record {
        next = drive_end r p a loop true true;
        last = closed a;
        steps = then start (ending p a loop true true live eq has);
        here =
            ap (λ l. get_elem? l p) same
            ∙ get_elem?-set_self r.actives p (closed a) (get_elem?-bound r.actives p live.here);
        over = refl;
      }
]

shown-IsOver :
    (r : Runs) (p : ℕ) (a : ActiveRun)
    → IsSupervised r
    → IsLive r.actives p a
    → a.stage ≡ shown
    → IsOver r p
shown-IsOver r p a good live eq =
    let step : r ⟶ register r p a = registering p a live eq in
    stepped r (register r p a) p step (
      driven-IsOver (register r p a) p (record a { stage = driven })
        (step-IsSupervised r _ good step)
        (unfold register in
          changed-IsLive r.actives p a (record a { stage = driven }) live live.goes_on)
        refl)

loaded-IsOver :
    (r : Runs) (p : ℕ) (a : ActiveRun) (loop : Agent) (images : Bool)
    → IsSupervised r
    → IsLive r.actives p a
    → a.stage ≡ loaded loop images
    → IsOver r p
loaded-IsOver r p a loop images good live eq =
    let a' : ActiveRun = record a {
      id = a.row;
      agent = some loop;
      image_input = images;
      stage = shown;
    } in
    let step : r ⟶ publish r p a loop images = publishing p a loop images live eq in
    stepped r (publish r p a loop images) p step (
      shown-IsOver (publish r p a loop images) p a' (step-IsSupervised r _ good step)
        (unfold publish in changed-IsLive r.actives p a a' live live.goes_on) refl)

started-IsOver :
    (r : Runs) (p : ℕ) (a : ActiveRun)
    → IsSupervised r
    → IsLive r.actives p a
    → a.stage ≡ started
    → IsOver r p
started-IsOver r p a good live eq =
    let a' : ActiveRun = record a { stage = loaded (new_agent all) true } in
    let step : r ⟶ load_agent r p a all true true = loading p a all true true live eq in
    stepped r (load_agent r p a all true true) p step (
      loaded-IsOver (load_agent r p a all true true) p a' (new_agent all) true
        (step-IsSupervised r _ good step)
        (unfold load_agent in changed-IsLive r.actives p a a' live live.goes_on) refl)

live-IsOver :
    (r : Runs) (p : ℕ) (a : ActiveRun) → IsSupervised r → IsLive r.actives p a → IsOver r p
live-IsOver r p a good live = at a.stage refl
  where
    at : (s : Stage) → a.stage ≡ s → IsOver r p
    at building eq = record {
      next = abandon r p a;
      last = closed a;
      steps = then start (abandoning p a live eq);
      here =
          unfold abandon in
          get_elem?-set_self r.actives p (closed a) (get_elem?-bound r.actives p live.here);
      over = refl;
    }
    at started eq = started-IsOver r p a good live eq
    at (loaded loop images) eq = loaded-IsOver r p a loop images good live eq
    at shown eq = shown-IsOver r p a good live eq
    at driven eq = driven-IsOver r p a good live eq

-- Whatever is left to end, all of it can be ended.
abbrev IsThere : List ℕ → Runs → Type 0
IsThere [] r = Unit
IsThere (p ∷ going) r = ((a : ActiveRun) × (get_elem? r.actives p ≡ some a)) × IsThere going r

IsThere-later :
    (going : List ℕ) (r r' : Runs) → IsNarrowed r r' → IsThere going r → IsThere going r'
IsThere-later [] r r' narrowed there = tt
IsThere-later (p ∷ going) r r' narrowed ((a, here), there) =
    (narrowed.present p a here, IsThere-later going r r' narrowed there)

IsOver-present :
    (r : Runs) (p : ℕ) (a : ActiveRun)
    → IsSupervised r
    → get_elem? r.actives p ≡ some a
    → IsOver r p
IsOver-present r p a good here = elim (Bool-cases a.done) [
  | inl over ↦ record { next = r; last = a; steps = start; here = here; over = over }
  | inr on ↦ live-IsOver r p a good (record { here = here; goes_on = on })
]

Stops-all :
    (r : Runs) (going : List ℕ) → IsSupervised r → IsThere going r → (r' : Runs) × Stops r going r'
Stops-all r [] good there = (r, all_ended)
Stops-all r (p ∷ going) good ((a, here), there) =
    let hit = abort_at-IsNarrowed r p in
    let (b, found) = hit.present p a here in
    let k = IsOver-present (abort_at r p) p b (abort_at-IsSupervised r p good) found in
    let (r', rest) =
      Stops-all k.next going (steps-IsSupervised _ k.next (abort_at-IsSupervised r p good) k.steps)
        (IsThere-later going (abort_at r p) k.next (steps-IsNarrowed (abort_at r p) k.next k.steps)
          (IsThere-later going r (abort_at r p) hit there)) in
    (r', one_ended p k.last going k.steps k.here k.over rest)

pointers-IsThere : (r : Runs) (m : Map ℕ) → IsSupervised r → IsThere (pointers_in r.by_session m) r
pointers-IsThere r [] good = tt
pointers-IsThere r ((s, _) ∷ m) good = at (lookup r.by_session s) refl (pointers-IsThere r m good)
  where
    at :
        (o : Option ℕ)
        → lookup r.by_session s ≡ o
        → IsThere (pointers_in r.by_session m) r
        → IsThere
            (elim o as (λ _. List ℕ) [
              | none ↦ pointers_in r.by_session m
              | some p ↦ p ∷ pointers_in r.by_session m
            ])
            r
    at none eq there = there
    at (some p) eq there = let (a, (live, _)) = good.agrees.held s p eq in ((a, live.here), there)

-- After any sequence of steps from a start of the server, `stopAll` can return: each run that it waits
-- for, at whatever step of being built or driven it is, has steps of its own that end it.
pub StopAll-returns :
    (rows : Map RunState) (r : Runs)
    → new_runs (abort_running_rows rows) ⟶* r
    → (r' : Runs) × StopAll r r'
StopAll-returns rows r steps =
    let good = steps-IsSupervised _ r (new_runs-IsSupervised rows) steps in
    let off : IsSupervised (record r { stopped = true }) = record {
      owners = good.owners;
      agrees = good.agrees;
      filed = good.filed;
      staged = good.staged;
      registered = good.registered;
    } in
    let (r', stops) =
      Stops-all (record r { stopped = true }) (pointers r.by_session) off
        (pointers-IsThere (record r { stopped = true }) r.by_session off) in
    (stop_retries r', stop_all stops)
