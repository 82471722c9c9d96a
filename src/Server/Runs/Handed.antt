-- ===== src/Server/Runs/Handed.antt =====
-- internal/server/run_manager.go: the accepted messages that a run did not deliver.
use eika.Common.{
  ℕ, String, ◌≡◌, ◌≢◌, inl, inr, refl, sym, ap, lookup-erase_ne, lookup-assign_ne, ◌∙◌, Bool, true,
  false, List, [], ◌∷◌, ◌++◌, append-nil, append_assoc, none, some, get_elem?, ok, Map, lookup,
  assign, arith, lookup-erase_self, lookup-assign_self, get_elem?-set_self, get_elem?-bound,
}
use eika.Provider.{Message}
use eika.Agent.Queue.{QueueMode, push}
use eika.Agent.Accept.{Agent, steer, follow_up}
use eika.Server.Runs.{
  RunState, outcome, ActiveRun, Runs, QueuedMessages, Delivery, loaded, new_agent, reserve, abandon,
  begin_row, load_agent, register, retry_row, abort_at, abort_run, enqueue_in, take_pending,
  pending_for, steer_each, follow_up_each, publish, finish, drive_end, finish_row,
}
use eika.Server.Runs.Steps.{
  IsLive, ◌⟶◌, ◌⟶*◌, reserving, abandoning, starting, loading, publishing, registering, looping,
  enqueuing, delivering, ending, aborting, stopping, retrying, start, then,
}
use eika.Server.Runs.Changed.{enqueue_in-ok}
use eika.Server.Runs.Requests.{enqueue-IsDelivered, abort-hits}
use eika.Server.Runs.Supervised.{IsSupervised, drop_own, finish_row-same}

steer_each-accepted :
    (ag : Agent) (ms : List Message)
    → ag.accepting ≡ true
    → steer_each ag ms ≡ record ag { steering = record { messages = ag.steering.messages ++ ms } }
unfolding steer_each steer push
steer_each-accepted ag [] open_now = ground (arith, append-nil ag.steering.messages)
steer_each-accepted ag (m ∷ ms) open_now =
    let ag' : Agent = record ag {
      steering = record { messages = ag.steering.messages ++ m ∷ [] };
    } in
    ground
      (arith, steer_each-accepted ag' ms open_now, append_assoc ag.steering.messages (m ∷ []) ms)

follow_up_each-accepted :
    (ag : Agent) (ms : List Message)
    → ag.accepting ≡ true
    → follow_up_each ag ms
      ≡ record ag { follow_ups = record { messages = ag.follow_ups.messages ++ ms } }
unfolding follow_up_each follow_up push
follow_up_each-accepted ag [] open_now = ground (arith, append-nil ag.follow_ups.messages)
follow_up_each-accepted ag (m ∷ ms) open_now =
    let ag' : Agent = record ag {
      follow_ups = record { messages = ag.follow_ups.messages ++ m ∷ [] };
    } in
    ground (
      arith,
      follow_up_each-accepted ag' ms open_now,
      append_assoc ag.follow_ups.messages (m ∷ []) ms,
    )

-- A new agent that was given what waited.
given_back :
    (mode : QueueMode) (q : QueuedMessages)
    → follow_up_each (steer_each (new_agent mode) q.steering) q.follow_ups
      ≡ record (new_agent mode) {
        steering = record { messages = q.steering };
        follow_ups = record { messages = q.follow_ups };
      }
given_back mode q = rw (steer_each-accepted (new_agent mode) q.steering refl) (
    follow_up_each-accepted
      (record (new_agent mode) { steering = record { messages = q.steering } }) q.follow_ups refl)

finish-pending :
    (r : Runs) (p : ℕ) (a : ActiveRun) (q : QueuedMessages)
    → q.steering ++ q.follow_ups ≢ []
    → lookup (finish r p a q).pending a.session_id ≡ some q
unfolding finish
finish-pending r p a q some_left = stored (q.steering ++ q.follow_ups) some_left
  where
    stored :
        (all : List Message)
        → all ≢ []
        → lookup
            (elim all as (λ _. Map QueuedMessages) [
              | [] ↦ r.pending
              | m ∷ ms ↦ assign r.pending a.session_id q
            ])
            a.session_id
          ≡ some q
    stored [] h = absurd (h refl)
    stored (m ∷ ms) h = lookup-assign_self r.pending a.session_id q

pending_for-found :
    (r : Runs) (s : String) (q : QueuedMessages) → lookup r.pending s ≡ some q → pending_for r s ≡ q
unfolding pending_for
pending_for-found r s q found = ground arith

-- The agent of a run that is given these messages.
abbrev pub agent_with : QueueMode → QueuedMessages → Agent
agent_with mode q = record (new_agent mode) {
  steering = record { messages = q.steering };
  follow_ups = record { messages = q.follow_ups };
}

-- The run at a pointer has these messages in the queues of its new agent, and none wait.
abbrev pub IsGiven : Runs → ℕ → ActiveRun → QueueMode → Bool → QueuedMessages → Type 0
IsGiven r p a mode images q =
    let r' = load_agent r p a mode false images in
    (get_elem? r'.actives p ≡ some (record a { stage = loaded (agent_with mode q) images }))
    × (lookup r'.pending a.session_id ≡ none)

loaded-IsGiven :
    (r : Runs) (p : ℕ) (a : ActiveRun) (mode : QueueMode) (images : Bool) (q : QueuedMessages)
    → get_elem? r.actives p ≡ some a
    → lookup r.pending a.session_id ≡ some q
    → IsGiven r p a mode images q
unfolding load_agent take_pending
loaded-IsGiven r p a mode images q here waiting =
    rw (pending_for-found r a.session_id q waiting, given_back mode q)
      (
        get_elem?-set_self r.actives p _ (get_elem?-bound r.actives p here),
        lookup-erase_self r.pending a.session_id,
      )

finish-free :
    (r : Runs) (p : ℕ) (a : ActiveRun) (q : QueuedMessages)
    → lookup r.by_session a.session_id ≡ some p
    → lookup (finish r p a q).by_session a.session_id ≡ none
unfolding finish
finish-free r p a q own =
    rw (drop_own r.by_session a.session_id p own) (lookup-erase_self r.by_session a.session_id)

finish_row-pending :
    (r : Runs) (id : String) (state : RunState) (recorded : Bool)
    → (finish_row r id state recorded).pending ≡ r.pending
unfolding finish_row
finish_row-pending r id state recorded = ground arith

finish-pending_ne :
    (r : Runs) (p : ℕ) (a : ActiveRun) (q : QueuedMessages) (s : String)
    → a.session_id ≢ s
    → lookup (finish r p a q).pending s ≡ lookup r.pending s
unfolding finish
finish-pending_ne r p a q s other = at (q.steering ++ q.follow_ups)
  where
    at :
        (all : List Message)
        → lookup
            (elim all as (λ _. Map QueuedMessages) [
              | [] ↦ r.pending
              | m ∷ ms ↦ assign r.pending a.session_id q
            ])
            s
          ≡ lookup r.pending s
    at [] = refl
    at (m ∷ ms) = lookup-assign_ne r.pending a.session_id s q other

drive_end-pending_ne :
    (r : Runs) (p : ℕ) (a : ActiveRun) (loop : Agent) (errored recorded : Bool) (s : String)
    → a.session_id ≢ s
    → lookup (drive_end r p a loop errored recorded).pending s ≡ lookup r.pending s
unfolding drive_end
drive_end-pending_ne r p a loop errored recorded s other =
    let state = outcome errored a.aborted in
    finish-pending_ne (finish_row r a.id state recorded) p a
      (record { steering = loop.steering.messages; follow_ups = loop.follow_ups.messages }) s other
    ∙ ap (λ m. lookup m s) (finish_row-pending r a.id state recorded)

drive_end-waits :
    (r : Runs) (p : ℕ) (a : ActiveRun) (loop : Agent) (errored recorded : Bool)
    → IsSupervised r
    → IsLive r.actives p a
    → loop.steering.messages ++ loop.follow_ups.messages ≢ []
    → let r' = drive_end r p a loop errored recorded in
      (lookup r'.by_session a.session_id ≡ none)
      × (lookup r'.pending a.session_id
          ≡ some
              (record { steering = loop.steering.messages; follow_ups = loop.follow_ups.messages }))
unfolding drive_end
drive_end-waits r p a loop errored recorded good live some_left =
    let state = outcome errored a.aborted in
    let r' = finish_row r a.id state recorded in
    let q : QueuedMessages = record {
      steering = loop.steering.messages;
      follow_ups = loop.follow_ups.messages;
    } in
    let (eq_s, _) = finish_row-same r a.id state recorded in
    let own : lookup r'.by_session a.session_id ≡ some p =
      ap (λ m. lookup m a.session_id) eq_s ∙ good.agrees.claimed p a live in
    (finish-free r' p a q own, finish-pending r' p a q some_left)

-- A step that neither gives the messages that wait for a session to a run of it, nor ends such a run.
abbrev pub IsOther : {r r' : Runs} → String → r ⟶ r' → Type 0
IsOther s (loading p a mode false images live stage) = a.session_id ≢ s
IsOther s (ending p a loop errored recorded live stage had) = a.session_id ≢ s
IsOther s _ = Unit

abbrev pub AllOther : {r r' : Runs} → String → r ⟶* r' → Type 0
AllOther s start = Unit
AllOther s (then before last) = AllOther s before × IsOther s last

retry_row-pending :
    (r : Runs) (id : String) {r' : Runs} → retry_row r id ≡ some r' → r'.pending ≡ r.pending
unfolding retry_row
retry_row-pending r id done = ground arith

reserve-pending :
    (r : Runs) (s w : String) {r' : Runs} → reserve r s w ≡ ok r' → r'.pending ≡ r.pending
unfolding reserve
reserve-pending r s w done = ground arith

abort_at-pending : (r : Runs) (p : ℕ) → (abort_at r p).pending ≡ r.pending
unfolding abort_at abort_run
abort_at-pending r p = ground arith

enqueue_in-pending :
    (r : Runs) (p : ℕ) (a : ActiveRun) (loop : Agent) (m : Message) (mode : Delivery) {r' : Runs}
    → enqueue_in r p a loop m mode ≡ ok r'
    → r'.pending ≡ r.pending
enqueue_in-pending r p a loop m mode done =
    ap (λ x. x.pending) (sym (enqueue_in-ok r p a loop m mode done))

step-pending :
    (s : String) (r r' : Runs) (step : r ⟶ r')
    → IsOther s step
    → lookup r'.pending s ≡ lookup r.pending s
unfolding abandon begin_row load_agent publish register abort_run
step-pending s r r' (reserving t w done) h = ap (λ m. lookup m s) (reserve-pending r t w done)
step-pending s r r' (abandoning p a live stage) h = refl
step-pending s r r' (starting p a id live stage proper fresh) h = refl
step-pending s r r' (loading p a mode true images live stage) h = refl
step-pending s r r' (loading p a mode false images live stage) h =
    lookup-erase_ne r.pending a.session_id s h
step-pending s r r' (publishing p a loop images live stage) h = refl
step-pending s r r' (registering p a live stage) h = refl
step-pending s r r' (looping p a after live stage) h = refl
step-pending s r r' (enqueuing t m mode done) h =
    let k = enqueue-IsDelivered r t m mode done in
    ap (λ m. lookup m s) (enqueue_in-pending r k.p k.a k.loop m mode k.done)
step-pending s r r' (delivering p a loop m mode here had done) h =
    ap (λ m. lookup m s) (enqueue_in-pending r p a loop m mode done)
step-pending s r r' (ending p a loop errored recorded live stage had) h =
    drive_end-pending_ne r p a loop errored recorded s h
step-pending s r r' (aborting id done) h = elim (abort-hits r id done) [
  | inl (p, a, here, same) ↦ ap (λ x. lookup x.pending s) (sym same)
  | inr same ↦ ap (λ x. lookup x.pending s) (sym same)
]
step-pending s r r' (stopping p) h = ap (λ m. lookup m s) (abort_at-pending r p)
step-pending s r r' (retrying id done) h = ap (λ m. lookup m s) (retry_row-pending r id done)

steps-pending :
    (s : String) (r r' : Runs) (steps : r ⟶* r')
    → AllOther s steps
    → lookup r'.pending s ≡ lookup r.pending s
steps-pending s r r' start h = refl
steps-pending s r r' (then {s = mid} before last) (h, k) =
    step-pending s mid r' last k ∙ steps-pending s r mid before h

-- When a run ends, however it ends, with messages left in the queues of its agent, its session is free
-- at once. Then these messages wait, whatever happens, until a run of the session that is no compaction
-- takes them or another run of the session ends: the run that takes them has exactly these messages in
-- the queues of its new agent, steering and follow-ups apart and in order, after which none wait.
pub drive_end-IsGiven :
    (r : Runs) (p : ℕ) (a : ActiveRun) (loop : Agent) (errored recorded : Bool)
    → (r' : Runs) (q : ℕ) (b : ActiveRun) (mode : QueueMode) (images : Bool) → IsSupervised r
    → IsLive r.actives p a
    → loop.steering.messages ++ loop.follow_ups.messages ≢ []
    → (later : drive_end r p a loop errored recorded ⟶* r') → AllOther a.session_id later
    → IsLive r'.actives q b
    → b.session_id ≡ a.session_id
    → (lookup (drive_end r p a loop errored recorded).by_session a.session_id ≡ none)
      × IsGiven r' q b mode images
          (record { steering = loop.steering.messages; follow_ups = loop.follow_ups.messages })
drive_end-IsGiven r p a loop errored recorded r' q b mode images good live some_left later others
      next same =
    let left : QueuedMessages = record {
      steering = loop.steering.messages;
      follow_ups = loop.follow_ups.messages;
    } in
    let (free, waits) = drive_end-waits r p a loop errored recorded good live some_left in
    (
      free,
      loaded-IsGiven r' q b mode images left next.here (
          ap (lookup r'.pending) same
          ∙ steps-pending a.session_id (drive_end r p a loop errored recorded) r' later others
          ∙ waits),
    )
