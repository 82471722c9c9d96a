-- ===== src/Server/Runs/Requests.antt =====
-- internal/server/run_manager.go: each request leaves the maps, the runs and the rows in order.
use eika.Common.{
  ℕ, String, ◌≡◌, ◌⊎◌, inl, inr, refl, sym, subst, Bool, true, false, [], ◌∷◌, ◌++◌, Option, none,
  some, length, get_elem?, if◌then◌else◌, Result, err, ok, lookup, erase, assign,
}
use eika.Provider.{Message}
use eika.Agent.Accept.{Agent}
use eika.Server.Runs.{
  RunState, run_running, Failure, shutting_down, has_a_run, no_run, not_found, already_over,
  run_aborted, run_done, run_error, abort_run, ActiveRun, Runs, Delivery, reservation, reserve,
  enqueue, enqueue_in, abort, retry_row,
}
use eika.Server.Runs.Claims.{reserved-Agrees, IsLive-append}
use eika.Server.Runs.Supervised.{IsSupervised, IsStaged}
use eika.Server.Runs.Changed.{enqueue_in-IsSupervised, abort_run-IsSupervised}
use eika.Server.Runs.Rows.{assigned-IsFiled, retried-IsFiled}

pub reserve-IsSupervised :
    (r : Runs) (s w : String) {r' : Runs} → IsSupervised r → reserve r s w ≡ ok r' → IsSupervised r'
unfolding reserve
reserve-IsSupervised r s w {r' = r'} good done =
    reserved r.stopped (lookup r.by_session s) refl done
  where
    after : Runs
    after = record r {
      by_session = assign r.by_session s (length r.actives);
      actives = r.actives ++ reservation s w ∷ [];
    }

    reserved :
        (off : Bool) (found : Option ℕ)
        → lookup r.by_session s ≡ found
        → ◌≡◌ {A = Result Failure Runs}
            (if off then err shutting_down else elim found as (λ _. Result Failure Runs) [
              | some p ↦ err has_a_run
              | none ↦ ok after
            ])
            (ok r')
        → IsSupervised r'
    reserved true found eq same = cc same
    reserved false (some p) eq same = cc same
    reserved false none eq same = subst IsSupervised {x = after} (cc same) (record {
      agrees =
          reserved-Agrees r.by_session good.owners r.actives (reservation s w) good.agrees eq refl
            refl;
      filed = good.filed;
      owners = good.owners;
      staged = λ q b h. elim (IsLive-append r.actives q (reservation s w) b h) [
        | inl (same, is) ↦ subst IsStaged (sym is) (refl, refl)
        | inr old ↦ good.staged q b old
      ];
      registered = good.registered;
    })

-- What a request that is accepted has found, and what it changes.
pub record IsDelivered (r : Runs) (m : Message) (mode : Delivery) (r' : Runs) : Type 0 where
  pub p : ℕ
  pub a : ActiveRun
  pub loop : Agent
  pub here : get_elem? r.actives p ≡ some a
  pub done : enqueue_in r p a loop m mode ≡ ok r'

pub enqueue-IsDelivered :
    (r : Runs) (s : String) (m : Message) (mode : Delivery) {r' : Runs}
    → enqueue r s m mode ≡ ok r'
    → IsDelivered r m mode r'
unfolding enqueue
enqueue-IsDelivered r s m mode {r' = r'} done = at_session (lookup r.by_session s) done
  where
    of_run : ℕ → Option ActiveRun → Result Failure Runs
    of_run p found = elim found [
      | none ↦ err no_run
      | some a ↦ elim a.agent [ none ↦ err no_run | some loop ↦ enqueue_in r p a loop m mode ]
    ]

    at_agent :
        (p : ℕ) (a : ActiveRun)
        → get_elem? r.actives p ≡ some a
        → (found : Option Agent)
        → ◌≡◌ {A = Result Failure Runs}
            (elim found as (λ _. Result Failure Runs) [
              | none ↦ err no_run
              | some loop ↦ enqueue_in r p a loop m mode
            ])
            (ok r')
        → IsDelivered r m mode r'
    at_agent p a here none same = cc same
    at_agent p a here (some loop) same = record {
      p = p;
      a = a;
      loop = loop;
      here = here;
      done = same;
    }

    at_run :
        (p : ℕ)
        → (found : Option ActiveRun) → get_elem? r.actives p ≡ found
        → of_run p found ≡ ok r'
        → IsDelivered r m mode r'
    at_run p none eq same = cc same
    at_run p (some a) eq same = at_agent p a eq a.agent same

    at_session :
        (found : Option ℕ)
        → ◌≡◌ {A = Result Failure Runs}
            (elim found as (λ _. Result Failure Runs) [
              | none ↦ err no_run
              | some p ↦ of_run p (get_elem? r.actives p)
            ])
            (ok r')
        → IsDelivered r m mode r'
    at_session none same = cc same
    at_session (some p) same = at_run p (get_elem? r.actives p) refl same

pub enqueue-IsSupervised :
    (r : Runs) (s : String) (m : Message) (mode : Delivery) {r' : Runs}
    → IsSupervised r
    → enqueue r s m mode ≡ ok r'
    → IsSupervised r'
enqueue-IsSupervised r s m mode good done =
    let k = enqueue-IsDelivered r s m mode done in
    enqueue_in-IsSupervised r k.p k.a k.loop m mode good k.here k.done

-- An abort hits a run, or closes a row that no run is found under.
pub abort-hits :
    (r : Runs) (id : String) {r' : Runs}
    → abort r id ≡ ok r'
    → ((p : ℕ) × (a : ActiveRun) × (get_elem? r.actives p ≡ some a) × (abort_run r p a ≡ r'))
      ⊎ (record r { rows = assign r.rows id run_aborted } ≡ r')
unfolding abort
abort-hits r id {r' = r'} done = at_id (lookup r.by_id id) done
  where
    of_row : Option RunState → Result Failure Runs
    of_row found = elim found [
      | none ↦ err not_found
      | some run_running ↦ ok (record r { rows = assign r.rows id run_aborted })
      | some _ ↦ err already_over
    ]

    of_run : ℕ → Option ActiveRun → Result Failure Runs
    of_run p found = elim found [ none ↦ err not_found | some a ↦ ok (abort_run r p a) ]

    Hits : Type 0
    Hits =
        ((p : ℕ) × (a : ActiveRun) × (get_elem? r.actives p ≡ some a) × (abort_run r p a ≡ r'))
        ⊎ (record r { rows = assign r.rows id run_aborted } ≡ r')

    closed_row : (found : Option RunState) → of_row found ≡ ok r' → Hits
    closed_row (some run_running) same = inr (cc same)
    closed_row none same = cc same
    closed_row (some run_done) same = cc same
    closed_row (some run_error) same = cc same
    closed_row (some run_aborted) same = cc same

    at_run :
        (p : ℕ) (found : Option ActiveRun)
        → get_elem? r.actives p ≡ found
        → of_run p found ≡ ok r'
        → Hits
    at_run p none eq same = cc same
    at_run p (some a) eq same = inl (p, a, eq, cc same)

    at_id :
        (found : Option ℕ)
        → ◌≡◌ {A = Result Failure Runs}
            (elim found as (λ _. Result Failure Runs) [
              | some p ↦ of_run p (get_elem? r.actives p)
              | none ↦ of_row (lookup r.rows id)
            ])
            (ok r')
        → Hits
    at_id (some p) same = at_run p (get_elem? r.actives p) refl same
    at_id none same = closed_row (lookup r.rows id) same

pub abort-IsSupervised :
    (r : Runs) (id : String) {r' : Runs} → IsSupervised r → abort r id ≡ ok r' → IsSupervised r'
abort-IsSupervised r id good done = elim (abort-hits r id done) [
  | inl (p, a, here, same) ↦ subst IsSupervised same (abort_run-IsSupervised r p a good here)
  | inr same ↦ subst IsSupervised same (record {
    owners = good.owners;
    staged = good.staged;
    registered = good.registered;
    agrees = good.agrees;
    filed =
        assigned-IsFiled good.owners r.rows r.retries r.retries_stopped id run_aborted good.filed
          (λ e. cc e);
  })
]

pub retry_row-IsSupervised :
    (r : Runs) (id : String) {r' : Runs}
    → IsSupervised r
    → retry_row r id ≡ some r'
    → IsSupervised r'
unfolding retry_row
retry_row-IsSupervised r id {r' = r'} good done = written (lookup r.retries id) refl done
  where
    written :
        (found : Option RunState)
        → lookup r.retries id ≡ found
        → ◌≡◌ {A = Option Runs}
            (elim found as (λ _. Option Runs) [
              | none ↦ none
              | some state ↦
                  some (record r { rows = assign r.rows id state; retries = erase r.retries id })
            ])
            (some r')
        → IsSupervised r'
    written none eq same = cc same
    written (some state) eq same =
        subst IsSupervised
          {x = record r { rows = assign r.rows id state; retries = erase r.retries id }} (cc same)
          (record {
            owners = good.owners;
            staged = good.staged;
            registered = good.registered;
            agrees = good.agrees;
            filed =
                retried-IsFiled good.owners r.rows r.retries r.retries_stopped id state good.filed
                  eq;
          })
