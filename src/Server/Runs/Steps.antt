-- ===== src/Server/Runs/Steps.antt =====
-- internal/server/run_manager.go: what happens to the runs, one step at a time.
use eika.Common.{
  ℕ, String, ◌≡◌, ◌≢◌, Bool, true, false, List, [], ◌∷◌, none, some, get_elem?, ok, lookup,
}
use eika.Provider.{Message}
use eika.Agent.Queue.{QueueMode}
use eika.Agent.Accept.{Agent}
use eika.Server.Runs.{
  ActiveRun, Runs, Delivery, building, started, loaded, shown, driven, reserve, abandon, begin_row,
  load_agent, publish, register, with_run, enqueue, enqueue_in, drive_end, abort, abort_at,
  retry_row, pointers, stop_retries,
}

-- A run that still goes, at its pointer.
pub record IsLive (actives : List ActiveRun) (p : ℕ) (a : ActiveRun) : Type 0 where
  pub here : get_elem? actives p ≡ some a
  pub goes_on : a.done ≡ false

-- What a lock holder or a goroutine does. A goroutine acts on its own run, which goes until its last
-- step; the loop may do anything to the queues of its agent. A request that has read an agent may
-- deliver its message at any later time, when the run may be over (`delivering`).
infix 40 ◌⟶◌
pub data ◌⟶◌ : Runs → Runs → Type 0 where
  reserving : {r r' : Runs} (s w : String) → reserve r s w ≡ ok r' → r ⟶ r'
  abandoning :
      {r : Runs} (p : ℕ) (a : ActiveRun)
      → IsLive r.actives p a
      → a.stage ≡ building
      → r ⟶ abandon r p a
  starting :
      {r : Runs} (p : ℕ) (a : ActiveRun) (id : String)
      → IsLive r.actives p a
      → a.stage ≡ building
      → id ≢ ""
      → lookup r.rows id ≡ none
      → r ⟶ begin_row r p a id
  loading :
      {r : Runs} (p : ℕ) (a : ActiveRun) (mode : QueueMode) (compact images : Bool)
      → IsLive r.actives p a
      → a.stage ≡ started
      → r ⟶ load_agent r p a mode compact images
  publishing :
      {r : Runs} (p : ℕ) (a : ActiveRun) (loop : Agent) (images : Bool)
      → IsLive r.actives p a
      → a.stage ≡ loaded loop images
      → r ⟶ publish r p a loop images
  registering :
      {r : Runs} (p : ℕ) (a : ActiveRun)
      → IsLive r.actives p a
      → a.stage ≡ shown
      → r ⟶ register r p a
  looping :
      {r : Runs} (p : ℕ) (a : ActiveRun) (after : Agent)
      → IsLive r.actives p a
      → a.stage ≡ driven
      → r ⟶ with_run r p (record a { agent = some after })
  enqueuing :
      {r r' : Runs} (s : String) (m : Message) (mode : Delivery)
      → enqueue r s m mode ≡ ok r'
      → r ⟶ r'
  delivering :
      {r r' : Runs} (p : ℕ) (a : ActiveRun) (loop : Agent) (m : Message) (mode : Delivery)
      → get_elem? r.actives p ≡ some a
      → a.agent ≡ some loop
      → enqueue_in r p a loop m mode ≡ ok r'
      → r ⟶ r'
  ending :
      {r : Runs} (p : ℕ) (a : ActiveRun) (loop : Agent) (errored recorded : Bool)
      → IsLive r.actives p a
      → a.stage ≡ driven
      → a.agent ≡ some loop
      → r ⟶ drive_end r p a loop errored recorded
  aborting : {r r' : Runs} (id : String) → abort r id ≡ ok r' → r ⟶ r'
  stopping : {r : Runs} (p : ℕ) → r ⟶ abort_at r p
  retrying : {r r' : Runs} (id : String) → retry_row r id ≡ some r' → r ⟶ r'

infix 40 ◌⟶*◌
pub data ◌⟶*◌ : Runs → Runs → Type 0 where
  start : {r : Runs} → r ⟶* r
  then : {r s t : Runs} → r ⟶* s → s ⟶ t → r ⟶* t

-- `stopAll`, after it has set the flag, on the runs that it has still to end: it aborts the first one,
-- and everything may happen until that run is done.
pub data Stops : Runs → List ℕ → Runs → Type 0 where
  all_ended : {r : Runs} → Stops r [] r
  one_ended :
      {r r' r'' : Runs} (p : ℕ) (a : ActiveRun) (going : List ℕ)
      → abort_at r p ⟶* r'
      → get_elem? r'.actives p ≡ some a
      → a.done ≡ true
      → Stops r' going r''
      → Stops r (p ∷ going) r''

pub data StopAll : Runs → Runs → Type 0 where
  stop_all :
      {r r' : Runs}
      → Stops (record r { stopped = true }) (pointers r.by_session) r'
      → StopAll r (stop_retries r')
