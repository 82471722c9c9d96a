-- ===== src/Server/Runs/Single.antt =====
-- internal/server/run_manager.go: one run per session at a time, from the start of the server on.
use eika.Common.{
  ℕ, String, ◌≡◌, ◌≢◌, ◌⊎◌, inl, inr, refl, true, [], ◌∷◌, none, some, lookup, Map, arith,
  Option-cases,
}
use eika.Server.Runs.{
  RunState, run_running, run_done, run_error, run_aborted, ActiveRun, Runs, new_runs,
  abort_running_rows,
}
use eika.Server.Runs.Steps.{
  IsLive, ◌⟶◌, ◌⟶*◌, reserving, abandoning, starting, loading, publishing, registering, looping,
  enqueuing, delivering, ending, aborting, stopping, retrying, start, then,
}
use eika.Server.Runs.Supervised.{
  IsSupervised, abandon-IsSupervised, begin_row-IsSupervised, load_agent-IsSupervised,
  publish-IsSupervised, register-IsSupervised, drive_end-IsSupervised,
}
use eika.Server.Runs.Changed.{looping-IsSupervised, abort_at-IsSupervised, enqueue_in-IsSupervised}
use eika.Server.Runs.Requests.{
  reserve-IsSupervised, enqueue-IsSupervised, abort-IsSupervised, retry_row-IsSupervised,
}

pub step-IsSupervised : (r r' : Runs) → IsSupervised r → r ⟶ r' → IsSupervised r'
step-IsSupervised r r' good (reserving s w done) = reserve-IsSupervised r s w good done
step-IsSupervised r r' good (abandoning p a live stage) = abandon-IsSupervised r p a good live stage
step-IsSupervised r r' good (starting p a id live stage proper fresh) =
    begin_row-IsSupervised r p a good live id stage proper fresh
step-IsSupervised r r' good (loading p a mode compact images live stage) =
    load_agent-IsSupervised r p a mode compact images good live stage
step-IsSupervised r r' good (publishing p a loop images live stage) =
    publish-IsSupervised r p a good live loop images stage
step-IsSupervised r r' good (registering p a live stage) =
    register-IsSupervised r p a good live stage
step-IsSupervised r r' good (looping p a after live stage) =
    looping-IsSupervised r p a after good live.here
step-IsSupervised r r' good (enqueuing s m mode done) = enqueue-IsSupervised r s m mode good done
step-IsSupervised r r' good (delivering p a loop m mode here had done) =
    enqueue_in-IsSupervised r p a loop m mode good here done
step-IsSupervised r r' good (ending p a loop errored recorded live stage had) =
    drive_end-IsSupervised r p a loop errored recorded good live stage
step-IsSupervised r r' good (aborting id done) = abort-IsSupervised r id good done
step-IsSupervised r r' good (stopping p) = abort_at-IsSupervised r p good
step-IsSupervised r r' good (retrying id done) = retry_row-IsSupervised r id good done

pub steps-IsSupervised : (r r' : Runs) → IsSupervised r → r ⟶* r' → IsSupervised r'
steps-IsSupervised r r' good start = good
steps-IsSupervised r r' good (then {s = mid} before last) =
    step-IsSupervised mid r' (steps-IsSupervised r mid good before) last

no_running :
    (rows : Map RunState) (id : String) → lookup (abort_running_rows rows) id ≢ some run_running
unfolding abort_running_rows
no_running [] id = λ e. cc e
no_running ((k, run_running) ∷ rows) id = ground (arith, no_running rows id)
no_running ((k, run_done) ∷ rows) id = ground (arith, no_running rows id)
no_running ((k, run_error) ∷ rows) id = ground (arith, no_running rows id)
no_running ((k, run_aborted) ∷ rows) id = ground (arith, no_running rows id)

pub new_runs-IsSupervised :
    (rows : Map RunState) → IsSupervised (new_runs (abort_running_rows rows))
new_runs-IsSupervised rows = record {
  owners = [];
  staged = λ p a h. cc h.here;
  registered = λ id p found. cc found;
  agrees = record {
    claimed = λ p a h. cc h.here;
    held = λ s p found. cc found;
    named = λ id p found. cc found;
    numbered = λ p a h. cc h.here;
  };
  filed = record {
    anonymous = refl;
    filed = λ id missing. refl;
    settled = λ id e. cc e;
    due = λ id goes. absurd (no_running rows id goes);
  };
}

-- From a start of the server, whatever the table of runs holds, and after any sequence of
-- reservations, of the steps by which runs are built, given up, entered in the map, driven and ended, of
-- messages, also late ones, of aborts and of background writes: two runs of one session that both still go are the same run.
pub steps-single :
    (rows : Map RunState) (r : Runs)
    → new_runs (abort_running_rows rows) ⟶* r
    → (p q : ℕ) (a b : ActiveRun) → IsLive r.actives p a
    → IsLive r.actives q b
    → a.session_id ≡ b.session_id
    → (p ≡ q) × (a ≡ b)
steps-single rows r steps p q a b live_a live_b same =
    let good = steps-IsSupervised _ r (new_runs-IsSupervised rows) steps in
    let eq : p ≡ q = cc (good.agrees.claimed p a live_a, good.agrees.claimed q b live_b, same) in
    (eq, cc (live_a.here, live_b.here, eq))

-- From a start of the server, and after any such sequence: a row that says that its run goes is the row
-- that a run which goes has started, whether or not others find the run under the row's id yet, or the
-- row's final state is still being written in the background, unless the background writes have been
-- stopped.
pub steps-accounted :
    (rows : Map RunState) (r : Runs)
    → new_runs (abort_running_rows rows) ⟶* r
    → (id : String) → lookup r.rows id ≡ some run_running
    → ((p : ℕ) × ((a : ActiveRun) × (IsLive r.actives p a × (a.row ≡ id))))
      ⊎ ((lookup r.retries id ≢ none) ⊎ (r.retries_stopped ≡ true))
steps-accounted rows r steps id goes =
    let good = steps-IsSupervised _ r (new_runs-IsSupervised rows) steps in
    elim (good.filed.due id goes) [
      | inl named ↦ elim (Option-cases (lookup good.owners id)) [
        | inl missing ↦ absurd (named missing)
        | inr (p, found) ↦ inl (p, good.agrees.named id p found)
      ]
      | inr rest ↦ inr rest
    ]
