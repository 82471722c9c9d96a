-- ===== src/Tests/Runs.antt =====
-- Runs of internal/server/run_manager.go.
use eika.Common.{
  ℕ, ◌≡◌, ◌≢◌, ◌⊎◌, refl, true, false, [], ◌∷◌, Option, none, some, get_elem?, lookup, Map, ok, err,
  Result,
}
use eika.Provider.{user_message}
use eika.Agent.Queue.{all, push}
use eika.Agent.Accept.{Agent, follow_up}
use eika.Server.Runs.{
  RunState, run_running, run_aborted, run_error, ActiveRun, started, loaded, shown, driven, Runs,
  Failure, has_a_run, QueuedMessages, following_up, new_runs, reservation, new_agent, reserve,
  begin_row, load_agent, register, abort, abort_at, abort_run, abort_running_rows, enqueue,
  drive_end, take_pending, steer_each, follow_up_each, publish, finish, finish_row, drop_session,
  stop_retries,
}
use eika.Server.Runs.Steps.{
  IsLive, ◌⟶*◌, start, then, reserving, starting, loading, publishing, registering, ending, StopAll,
  stop_all, one_ended, all_ended,
}
use eika.Server.Runs.Single.{
  steps-single, steps-accounted, steps-IsSupervised, new_runs-IsSupervised,
}
use eika.Server.Runs.Supervised.{IsSupervised}
use eika.Server.Runs.Stopped.{IsStopped, StopAll-IsStopped}
use eika.Server.Runs.Ended.{StopAll-returns}
use eika.Server.Runs.Handed.{AllOther, IsGiven, drive_end-IsGiven}

abbrev old_rows : Map RunState
old_rows = ("old", run_running) ∷ []

-- A session that is claimed.
abbrev claimed : Runs
claimed = record {
  stopped = false;
  by_session = ("chat", 0) ∷ [];
  by_id = [];
  pending = [];
  actives = reservation "chat" "box" ∷ [];
  rows = ("old", run_aborted) ∷ [];
  retries = [];
  retries_stopped = false;
}

claiming : new_runs (abort_running_rows old_rows) ⟶* claimed
unfolding reserve abort_running_rows
claiming = then start (reserving "chat" "box" refl)

-- The run is built, has its row, its agent, shows both, and is entered in the map.
abbrev has_row : ActiveRun
has_row = record (reservation "chat" "box") { row = "run"; stage = started }

abbrev has_agent : ActiveRun
has_agent = record has_row { stage = loaded (new_agent all) true }

abbrev has_shown : ActiveRun
has_shown = record has_row {
  id = "run";
  agent = some (new_agent all);
  image_input = true;
  stage = shown;
}

abbrev driven_run : ActiveRun
driven_run = record has_shown { stage = driven }

abbrev row_started : Runs
row_started = record claimed {
  rows = ("run", run_running) ∷ ("old", run_aborted) ∷ [];
  actives = has_row ∷ [];
}

abbrev published : Runs
published = record row_started { actives = has_shown ∷ [] }

abbrev going : Runs
going = record row_started { by_id = ("run", 0) ∷ []; actives = driven_run ∷ [] }

starting_row : new_runs (abort_running_rows old_rows) ⟶* row_started
unfolding begin_row
starting_row = then claiming (
    starting 0 (reservation "chat" "box") "run" (record { here = refl; goes_on = refl }) refl
      (λ e. cc e) refl)

showing : new_runs (abort_running_rows old_rows) ⟶* published
unfolding load_agent take_pending steer_each follow_up_each publish
showing =
    then
      (then starting_row
        (loading 0 has_row all false true (record { here = refl; goes_on = refl }) refl))
      (publishing 0 has_agent (new_agent all) true (record { here = refl; goes_on = refl }) refl)

driving : new_runs (abort_running_rows old_rows) ⟶* going
unfolding register
driving = then showing (registering 0 has_shown (record { here = refl; goes_on = refl }) refl)

driven-IsLive : IsLive going.actives 0 driven_run
driven-IsLive = record { here = refl; goes_on = refl }

going-IsSupervised : IsSupervised going
going-IsSupervised = steps-IsSupervised _ going (new_runs-IsSupervised old_rows) driving

-- A second claim is refused.
claimed_once : reserve going "chat" "box" ≡ err has_a_run
unfolding reserve
claimed_once = refl

steps-single_example : (◌≡◌ {A = ℕ} 0 0) × (driven_run ≡ driven_run)
steps-single_example =
    steps-single old_rows going driving 0 0 driven_run driven_run driven-IsLive driven-IsLive refl

-- While the run is not in the map yet, its row says already that it goes.
steps-accounted_example :
    ((p : ℕ) × ((a : ActiveRun) × (IsLive row_started.actives p a × (a.row ≡ "run"))))
    ⊎ ((lookup row_started.retries "run" ≢ none) ⊎ (row_started.retries_stopped ≡ true))
steps-accounted_example = steps-accounted old_rows row_started starting_row "run" refl

-- An abort by id, in between, closes the row and misses the run, which goes on.
abort_misses :
    abort published "run"
    ≡ ok (record published { rows = ("run", run_aborted) ∷ ("old", run_aborted) ∷ [] })
unfolding abort
abort_misses = refl

abbrev left_over : Agent
left_over = record (new_agent all) { follow_ups = record { messages = user_message "later" ∷ [] } }

-- The one run is aborted, and its loop returns with an error.
abbrev aborted_run : ActiveRun
aborted_run = record driven_run { aborted = true; cancelled = true }

abbrev all_over : Runs
all_over = record going {
  stopped = true;
  by_session = [];
  by_id = [];
  actives = record aborted_run { done = true } ∷ [];
  rows = ("run", run_aborted) ∷ ("old", run_aborted) ∷ [];
}

stopping_all : StopAll going (stop_retries all_over)
unfolding abort_at abort_run drive_end finish finish_row drop_session
stopping_all = stop_all (
    one_ended 0 (record aborted_run { done = true }) []
      (then start (
        ending 0 aborted_run (new_agent all) true true (record { here = refl; goes_on = refl }) refl
          refl))
      refl refl all_ended)

StopAll-IsStopped_example : IsStopped (stop_retries all_over)
StopAll-IsStopped_example =
    StopAll-IsStopped old_rows going (stop_retries all_over) (stop_retries all_over) driving
      stopping_all start

StopAll-returns_example : (r' : Runs) × StopAll row_started r'
StopAll-returns_example = StopAll-returns old_rows row_started starting_row

-- After the run has ended with a message left, the next one has its row.
abbrev next_claim : ActiveRun
next_claim = reservation "chat" "box"

abbrev next_row : ActiveRun
next_row = record next_claim { row = "next"; stage = started }

abbrev ended : Runs
ended = drive_end going 0 driven_run left_over true true

abbrev waiting_runs : Runs
waiting_runs = record going {
  by_session = ("chat", 1) ∷ [];
  by_id = [];
  pending = ("chat", record { steering = []; follow_ups = user_message "later" ∷ [] }) ∷ [];
  actives = record driven_run { done = true; cancelled = true } ∷ next_row ∷ [];
  rows = ("next", run_running) ∷ ("run", run_error) ∷ ("old", run_aborted) ∷ [];
}

until_next : ended ⟶* waiting_runs
unfolding drive_end finish finish_row drop_session reserve begin_row
until_next =
    then (then start (reserving "chat" "box" refl))
      (starting 1 next_claim "next" (record { here = refl; goes_on = refl }) refl (λ e. cc e) refl)

until_next-AllOther : AllOther "chat" until_next
unfolding until_next
until_next-AllOther = ((tt, tt), tt)

drive_end-IsGiven_example :
    (lookup ended.by_session "chat" ≡ none)
    × IsGiven waiting_runs 1 next_row all true
        (record { steering = []; follow_ups = user_message "later" ∷ [] })
drive_end-IsGiven_example =
    drive_end-IsGiven going 0 driven_run left_over true true waiting_runs 1 next_row all true
      going-IsSupervised driven-IsLive (λ e. cc e) until_next until_next-AllOther
      (record { here = refl; goes_on = refl }) refl

-- A session on which a message waits while a compaction runs, which takes messages of its own.
abbrev compacting : Runs
compacting =
    load_agent
      (record row_started {
        pending = ("chat", record { steering = []; follow_ups = user_message "first" ∷ [] }) ∷ [];
      })
      0 has_row all true true

abbrev compaction_goes : Runs
compaction_goes = register (publish compacting 0 has_agent (new_agent all) true) 0 has_shown

abbrev waiting_after : Result Failure Runs → Option QueuedMessages
waiting_after (err e) = none
waiting_after (ok r) = elim (get_elem? r.actives 0) [
  | none ↦ none
  | some a ↦ elim a.agent [
    | none ↦ none
    | some loop ↦ lookup (drive_end r 0 a loop false true).pending "chat"
  ]
]

-- What the compaction leaves takes the place of what waited before it.
first_lost :
    waiting_after (enqueue compaction_goes "chat" (user_message "second") following_up)
    ≡ some (record { steering = []; follow_ups = user_message "second" ∷ [] })
unfolding enqueue follow_up push load_agent publish register drive_end finish finish_row
    drop_session
first_lost = refl
