-- ===== src/Server/Runs.antt =====
-- internal/server/run_manager.go: the runs that are going, at most one for each session. A pointer to
-- an `activeRun` is its position in the list of all that were made, so that two maps which hold the
-- same pointer see the same run. Each function is what one holder of the lock does, or the steps of
-- one goroutine between which no other reads what it writes.
pub mod Steps
pub mod Claims
pub mod Dropped
pub mod Rows
pub mod Supervised
pub mod Changed
pub mod Narrowed
pub mod Requests
pub mod Single
pub mod Stopped
pub mod Ended
pub mod Handed
use eika.Common.{
  ℕ, ◌==◌, String, str_eq, Bool, true, false, ◌&&◌, ◌||◌, not, List, [], ◌∷◌, ◌++◌, Option, none,
  some, length, get_elem?, set, if◌then◌else◌, Result, err, ok, Map, lookup, erase, assign,
}
use eika.Provider.{Message}
use eika.Agent.Queue.{QueueMode, empty_queue}
use eika.Agent.Accept.{Agent, steer, follow_up}

-- `store.RunState`
pub data RunState : Type 0 where
  run_running run_done run_error run_aborted : RunState

pub record QueuedMessages : Type 0 where
  pub steering : List Message
  pub follow_ups : List Message

-- Where the goroutine of a run is: `begin` builds the run, has its row, has its agent with the messages
-- that waited, and has shown both in the run; then the run has its id in the map, and `drive` goes.
pub data Stage : Type 0 where
  building started : Stage
  loaded : Agent → Bool → Stage
  shown driven : Stage

-- `agent` is nil while the run is being built, `done` says that the channel is closed and `cancelled`
-- that the run's context is. `stage` and `row` are local to the goroutine: `row` is the id of the row
-- that `begin` has started, before others find it in `id`.
pub record ActiveRun : Type 0 where
  pub session_id : String
  pub workspace_id : String
  pub cancelled : Bool
  pub done : Bool
  pub id : String
  pub agent : Option Agent
  pub image_input : Bool
  pub aborted : Bool
  pub stage : Stage
  pub row : String

-- `rows` is the state of each row of the table of runs; `retries` are the writes that the background
-- goroutines of `finishRetries` still try.
pub record Runs : Type 0 where
  pub stopped : Bool
  pub by_session : Map ℕ
  pub by_id : Map ℕ
  pub pending : Map QueuedMessages
  pub actives : List ActiveRun
  pub rows : Map RunState
  pub retries : Map RunState
  pub retries_stopped : Bool

abbrev pub new_runs : Map RunState → Runs
new_runs rows = record {
  stopped = false;
  by_session = [];
  by_id = [];
  pending = [];
  actives = [];
  rows = rows;
  retries = [];
  retries_stopped = false;
}

pub data Failure : Type 0 where
  shutting_down has_a_run no_run not_found no_image_input already_over : Failure

abbrev pub reservation : String → String → ActiveRun
reservation session_id workspace_id = record {
  session_id = session_id;
  workspace_id = workspace_id;
  cancelled = false;
  done = false;
  id = "";
  agent = none;
  image_input = false;
  aborted = false;
  stage = building;
  row = "";
}

unfoldable pub reserve : Runs → String → String → Result Failure Runs
reserve r session_id workspace_id =
    if r.stopped then err shutting_down else elim (lookup r.by_session session_id) [
      | some p ↦ err has_a_run
      | none ↦ ok (record r {
        by_session = assign r.by_session session_id (length r.actives);
        actives = r.actives ++ reservation session_id workspace_id ∷ [];
      })
    ]

-- The deletion that `forget` and `finish` share: only the session's own run is dropped.
unfoldable pub drop_session : Map ℕ → String → ℕ → Map ℕ
drop_session by_session session_id p = elim (lookup by_session session_id) [
  | none ↦ by_session
  | some current ↦ if current == p then erase by_session session_id else by_session
]

-- The last steps of a run's goroutine: `active.cancel()` and `close(active.done)`.
abbrev pub closed : ActiveRun → ActiveRun
closed a = record a { cancelled = true; done = true }

unfoldable pub forget : Runs → ℕ → ActiveRun → Runs
unfolding drop_session
forget r p a = record r {
  by_session = drop_session r.by_session a.session_id p;
  by_id = if str_eq a.id "" then r.by_id else erase r.by_id a.id;
}

unfoldable pub abandon : Runs → ℕ → ActiveRun → Runs
unfolding forget
abandon r p a = let r' = forget r p a in record r' { actives = set r'.actives p (closed a) }

unfoldable pub pending_for : Runs → String → QueuedMessages
pending_for r session_id = elim (lookup r.pending session_id) [
  | none ↦ record { steering = []; follow_ups = [] }
  | some queued ↦ queued
]

unfoldable pub take_pending : Runs → String → QueuedMessages × Runs
unfolding pending_for
take_pending r session_id =
    (pending_for r session_id, record r { pending = erase r.pending session_id })

unfoldable pub steer_each : Agent → List Message → Agent
steer_each ag [] = ag
steer_each ag (m ∷ ms) = steer_each (steer ag m).0 ms

unfoldable pub follow_up_each : Agent → List Message → Agent
follow_up_each ag [] = ag
follow_up_each ag (m ∷ ms) = follow_up_each (follow_up ag m).0 ms

-- `agent.New`, of which the queues are modelled.
abbrev pub new_agent : QueueMode → Agent
new_agent mode = record {
  steering = empty_queue;
  follow_ups = empty_queue;
  mode = mode;
  accepting = true;
}

abbrev pub with_run : Runs → ℕ → ActiveRun → Runs
with_run r p a = record r { actives = set r.actives p a }

-- The end of `begin`, one step after the other. `StartRun`, whose row has the new id `id`:
unfoldable pub begin_row : Runs → ℕ → ActiveRun → String → Runs
begin_row r p a id =
    with_run (record r { rows = assign r.rows id run_running }) p
      (record a { row = id; stage = started })

-- The messages that waited, unless the run is a compaction.
unfoldable pub load_agent : Runs → ℕ → ActiveRun → QueueMode → Bool → Bool → Runs
unfolding take_pending steer_each follow_up_each
load_agent r p a mode compact image_input =
    if compact
    then with_run r p (record a { stage = loaded (new_agent mode) image_input })
    else (let (queued, r') = take_pending r a.session_id in
        with_run r' p (record a {
          stage =
              loaded
                (follow_up_each (steer_each (new_agent mode) queued.steering) queued.follow_ups)
                image_input;
        }))

-- `activeRun.begin`
unfoldable pub publish : Runs → ℕ → ActiveRun → Agent → Bool → Runs
publish r p a loop image_input =
    with_run r p
      (record a { id = a.row; agent = some loop; image_input = image_input; stage = shown })

-- The entry in `byID`, after which `drive` goes.
unfoldable pub register : Runs → ℕ → ActiveRun → Runs
register r p a =
    with_run (record r { by_id = assign r.by_id a.id p }) p (record a { stage = driven })

-- `mode == modeSteer`
pub data Delivery : Type 0 where
  steering following_up : Delivery

abbrev pub deliver_to : Delivery → Agent → Message → Agent × Bool
deliver_to steering ag m = steer ag m
deliver_to following_up ag m = follow_up ag m

abbrev pub has_images : Message → Bool
has_images m = elim m.images [ [] ↦ false | i ∷ is ↦ true ]

unfoldable pub enqueue_in : Runs → ℕ → ActiveRun → Agent → Message → Delivery → Result Failure Runs
unfolding steer follow_up
enqueue_in r p a loop m mode =
    if has_images m && not a.image_input
    then err no_image_input
    else (let (loop', accepted) = deliver_to mode loop m in
        if accepted
        then ok (record r { actives = set r.actives p (record a { agent = some loop' }) })
        else err no_run)

-- A session with no run, or with one that is being built, has no queue. Between the lookup and the
-- delivery others may step in (Server.Runs.Steps).
unfoldable pub enqueue : Runs → String → Message → Delivery → Result Failure Runs
unfolding enqueue_in
enqueue r session_id m mode = elim (lookup r.by_session session_id) [
  | none ↦ err no_run
  | some p ↦ elim (get_elem? r.actives p) [
    | none ↦ err no_run
    | some a ↦ elim a.agent [ none ↦ err no_run | some loop ↦ enqueue_in r p a loop m mode ]
  ]
]

unfoldable pub finish : Runs → ℕ → ActiveRun → QueuedMessages → Runs
unfolding drop_session
finish r p a queued = record r {
  pending = elim (queued.steering ++ queued.follow_ups) [
    | [] ↦ r.pending
    | m ∷ ms ↦ assign r.pending a.session_id queued
  ];
  by_session = drop_session r.by_session a.session_id p;
  by_id = erase r.by_id a.id;
  actives = set r.actives p (closed a);
}

-- `finishRetries.run`, given whether the writes in the foreground succeed before its time is over;
-- `FinishRun` has a row to update.
unfoldable pub finish_row : Runs → String → RunState → Bool → Runs
finish_row r id state recorded =
    if recorded
    then record r { rows = assign r.rows id state }
    else if r.retries_stopped
    then r
    else record r { retries = assign r.retries id state }

-- A write in the background that succeeds.
unfoldable pub retry_row : Runs → String → Option Runs
retry_row r id = elim (lookup r.retries id) [
  | none ↦ none
  | some state ↦ some (record r { rows = assign r.rows id state; retries = erase r.retries id })
]

abbrev pub outcome : Bool → Bool → RunState
outcome false aborted = run_done
outcome true true = run_aborted
outcome true false = run_error

-- `drive` after the loop has returned, with an error or without. Closing `done` is part of the last step
-- under the lock: only those who wait for the run read it.
unfoldable pub drive_end : Runs → ℕ → ActiveRun → Agent → Bool → Bool → Runs
unfolding finish finish_row
drive_end r p a loop errored recorded =
    finish (finish_row r a.id (outcome errored a.aborted) recorded) p a
      (record { steering = loop.steering.messages; follow_ups = loop.follow_ups.messages })

unfoldable pub abort_run : Runs → ℕ → ActiveRun → Runs
abort_run r p a = record r {
  actives = set r.actives p (record a { aborted = true; cancelled = true });
}

-- `abort` up to the wait for the run's goroutine.
unfoldable pub abort : Runs → String → Result Failure Runs
unfolding abort_run
abort r id = elim (lookup r.by_id id) [
  | some p ↦ elim (get_elem? r.actives p) [ none ↦ err not_found | some a ↦ ok (abort_run r p a) ]
  | none ↦ elim (lookup r.rows id) [
    | none ↦ err not_found
    | some run_running ↦ ok (record r { rows = assign r.rows id run_aborted })
    | some _ ↦ err already_over
  ]
]

-- `AbortRunningRuns`, before the first run starts.
unfoldable pub abort_running_rows : Map RunState → Map RunState
abort_running_rows [] = []
abort_running_rows ((id, run_running) ∷ rows) = (id, run_aborted) ∷ abort_running_rows rows
abort_running_rows ((id, state) ∷ rows) = (id, state) ∷ abort_running_rows rows

-- `abortRun` of the run at a pointer.
unfoldable pub abort_at : Runs → ℕ → Runs
unfolding abort_run
abort_at r p = elim (get_elem? r.actives p) [ none ↦ r | some a ↦ abort_run r p a ]

-- The runs that `stopAll` reads, key by key.
abbrev pub pointers_in : Map ℕ → Map ℕ → List ℕ
pointers_in all [] = []
pointers_in all ((s, _) ∷ m) =
    let rest = pointers_in all m in elim (lookup all s) [ none ↦ rest | some p ↦ p ∷ rest ]

abbrev pub pointers : Map ℕ → List ℕ
pointers m = pointers_in m m

abbrev pub stop_retries : Runs → Runs
stop_retries r = record r { retries_stopped = true; retries = [] }
