-- ===== src/Server/Runs/Narrowed.antt =====
-- internal/server/run_manager.go: once the server is stopping, no step starts a run.
use eika.Common.{
  ℕ, String, ◌≡◌, ◌≢◌, inl, inr, refl, sym, ap, ◌∙◌, subst, Bool, true, false, [], ◌∷◌, ◌++◌,
  Option, none, some, get_elem?, set, length, get_elem?-set_self, get_elem?-set_ne, get_elem?-bound,
  get_elem?-append_left, ==-cases, ok, err, arith, if◌then◌else◌, lookup, assign, Result,
}
use eika.Provider.{Message}
use eika.Agent.Queue.{QueueMode}
use eika.Agent.Accept.{Agent}
use eika.Server.Runs.{
  Delivery, enqueue_in, deliver_to, ActiveRun, Runs, Failure, reserve, reservation, shutting_down,
  has_a_run, closed, abandon, begin_row, load_agent, publish, register, drive_end, finish,
  finish_row, abort_at, abort_run, retry_row, take_pending,
}
use eika.Server.Runs.Steps.{
  IsLive, ◌⟶◌, reserving, abandoning, starting, loading, publishing, registering, looping,
  enqueuing, delivering, ending, aborting, stopping, retrying,
}
use eika.Server.Runs.Changed.{enqueue_in-ok}
use eika.Server.Runs.Requests.{enqueue-IsDelivered, abort-hits}

-- A step from a server that is stopping: it goes on stopping, every run that goes went before, and no
-- run is forgotten.
pub record IsNarrowed (r r' : Runs) : Type 0 where
  pub off : r.stopped ≡ true → r'.stopped ≡ true
  pub old :
      r.stopped ≡ true
      → (q : ℕ) (b : ActiveRun) → IsLive r'.actives q b
      → (c : ActiveRun) × IsLive r.actives q c
  pub present :
      (q : ℕ) (b : ActiveRun)
      → get_elem? r.actives q ≡ some b
      → (c : ActiveRun) × (get_elem? r'.actives q ≡ some c)

-- A step that changes one run, and starts none.
pub set-IsNarrowed :
    (r r' : Runs) (p : ℕ) (a a' : ActiveRun)
    → get_elem? r.actives p ≡ some a
    → (a'.done ≡ false → a.done ≡ false)
    → r'.actives ≡ set r.actives p a'
    → r'.stopped ≡ r.stopped
    → IsNarrowed r r'
set-IsNarrowed r r' p a a' here ends eq off = record {
  off = λ e. off ∙ e;
  old = λ _ q b h. elim (==-cases q p) [
    | inl same ↦
        let b_is : b ≡ a' = cc (h.here, at q, eq, found, same) in
        (
          a,
          record {
            here = ap (get_elem? r.actives) same ∙ here;
            goes_on = ends (cc (h.goes_on, b_is));
          },
        )
    | inr other ↦ (b, record { here = sym (apart q other) ∙ h.here; goes_on = h.goes_on })
  ];
  present = λ q b h. elim (==-cases q p) [
    | inl same ↦ (a', cc (at q, found, same))
    | inr other ↦ (b, apart q other ∙ h)
  ];
}
  where
    found : get_elem? (set r.actives p a') p ≡ some a'
    found = get_elem?-set_self r.actives p a' (get_elem?-bound r.actives p here)

    at : (q : ℕ) → get_elem? r'.actives q ≡ get_elem? (set r.actives p a') q
    at q = ap (λ l. get_elem? l q) eq

    apart : (q : ℕ) → q ≢ p → get_elem? r'.actives q ≡ get_elem? r.actives q
    apart q other = at q ∙ get_elem?-set_ne r.actives a' (λ e. other (sym e))

pub same-IsNarrowed :
    (r r' : Runs) → r'.actives ≡ r.actives → r'.stopped ≡ r.stopped → IsNarrowed r r'
same-IsNarrowed r r' eq off = record {
  off = λ e. off ∙ e;
  old = λ _ q b h.
      (b, record { here = ap (λ l. get_elem? l q) (sym eq) ∙ h.here; goes_on = h.goes_on });
  present = λ q b h. (b, ap (λ l. get_elem? l q) eq ∙ h);
}

reserve-IsNarrowed : (r : Runs) (s w : String) {r' : Runs} → reserve r s w ≡ ok r' → IsNarrowed r r'
unfolding reserve
reserve-IsNarrowed r s w {r' = r'} done = at r.stopped (lookup r.by_session s) refl done
  where
    after : Runs
    after = record r {
      by_session = assign r.by_session s (length r.actives);
      actives = r.actives ++ reservation s w ∷ [];
    }

    at :
        (off : Bool) (found : Option ℕ)
        → r.stopped ≡ off
        → ◌≡◌ {A = Result Failure Runs}
            (if off then err shutting_down else elim found as (λ _. Result Failure Runs) [
              | some p ↦ err has_a_run
              | none ↦ ok after
            ])
            (ok r')
        → IsNarrowed r r'
    at true found eq same = cc same
    at false (some p) eq same = cc same
    at false none eq same = subst (IsNarrowed r) {x = after} (cc same) (record {
      off = λ e. e;
      old = λ e. cc (e, eq);
      present = λ q b h. (
        b,
        get_elem?-append_left r.actives (reservation s w ∷ []) q (get_elem?-bound r.actives q h)
            ∙ h,
      );
    })

pub drive_end-same :
    (r : Runs) (p : ℕ) (a : ActiveRun) (loop : Agent) (errored recorded : Bool)
    → let r' = drive_end r p a loop errored recorded in
      (r'.actives ≡ set r.actives p (closed a)) × (r'.stopped ≡ r.stopped)
unfolding drive_end finish finish_row
drive_end-same r p a loop errored true = (refl, refl)
drive_end-same r p a loop errored false = ground arith

pub abort_at-IsNarrowed : (r : Runs) (p : ℕ) → IsNarrowed r (abort_at r p)
unfolding abort_at abort_run
abort_at-IsNarrowed r p = at (get_elem? r.actives p) refl
  where
    at :
        (o : Option ActiveRun)
        → get_elem? r.actives p ≡ o
        → IsNarrowed r (elim o as (λ _. Runs) [ none ↦ r | some a ↦ abort_run r p a ])
    at none eq = same-IsNarrowed r r refl refl
    at (some a) eq =
        set-IsNarrowed r (abort_run r p a) p a (record a { aborted = true; cancelled = true }) eq
          (λ e. e) refl refl

enqueue_in-IsNarrowed :
    (r : Runs) (p : ℕ) (a : ActiveRun) (loop : Agent) (m : Message) (mode : Delivery) {r' : Runs}
    → get_elem? r.actives p ≡ some a
    → enqueue_in r p a loop m mode ≡ ok r'
    → IsNarrowed r r'
enqueue_in-IsNarrowed r p a loop m mode here done =
    subst (IsNarrowed r) (enqueue_in-ok r p a loop m mode done) (
      set-IsNarrowed r _ p a (record a { agent = some (deliver_to mode loop m).0 }) here (λ e. e)
        refl refl)

retry_row-IsNarrowed :
    (r : Runs) (id : String) {r' : Runs} → retry_row r id ≡ some r' → IsNarrowed r r'
unfolding retry_row
retry_row-IsNarrowed r id done = same-IsNarrowed r _ (ground arith) (ground arith)

load_agent-IsNarrowed :
    (r : Runs) (p : ℕ) (a : ActiveRun) (mode : QueueMode) (compact images : Bool)
    → get_elem? r.actives p ≡ some a
    → IsNarrowed r (load_agent r p a mode compact images)
unfolding load_agent take_pending
load_agent-IsNarrowed r p a mode true images here = set-IsNarrowed r _ p a _ here (λ e. e) refl refl
load_agent-IsNarrowed r p a mode false images here =
    set-IsNarrowed r _ p a _ here (λ e. e) refl refl

pub step-IsNarrowed : (r r' : Runs) → r ⟶ r' → IsNarrowed r r'
unfolding abandon begin_row publish register
step-IsNarrowed r r' (reserving s w done) = reserve-IsNarrowed r s w done
step-IsNarrowed r r' (abandoning p a live stage) =
    set-IsNarrowed r _ p a (closed a) live.here (λ e. cc e) refl refl
step-IsNarrowed r r' (starting p a id live stage proper fresh) =
    set-IsNarrowed r _ p a _ live.here (λ e. e) refl refl
step-IsNarrowed r r' (loading p a mode compact images live stage) =
    load_agent-IsNarrowed r p a mode compact images live.here
step-IsNarrowed r r' (publishing p a loop images live stage) =
    set-IsNarrowed r _ p a _ live.here (λ e. e) refl refl
step-IsNarrowed r r' (registering p a live stage) =
    set-IsNarrowed r _ p a _ live.here (λ e. e) refl refl
step-IsNarrowed r r' (looping p a after live stage) =
    set-IsNarrowed r _ p a (record a { agent = some after }) live.here (λ e. e) refl refl
step-IsNarrowed r r' (enqueuing s m mode done) =
    let k = enqueue-IsDelivered r s m mode done in
    enqueue_in-IsNarrowed r k.p k.a k.loop m mode k.here k.done
step-IsNarrowed r r' (delivering p a loop m mode here had done) =
    enqueue_in-IsNarrowed r p a loop m mode here done
step-IsNarrowed r r' (ending p a loop errored recorded live stage had) =
    let (eq, off) = drive_end-same r p a loop errored recorded in
    set-IsNarrowed r _ p a (closed a) live.here (λ e. cc e) eq off
step-IsNarrowed r r' (aborting id done) = elim (abort-hits r id done) [
  | inl (p, a, here, same) ↦ subst (IsNarrowed r) same (
      unfold abort_run in
      set-IsNarrowed r _ p a (record a { aborted = true; cancelled = true }) here (λ e. e) refl
        refl)
  | inr same ↦ subst (IsNarrowed r) same (same-IsNarrowed r _ refl refl)
]
step-IsNarrowed r r' (stopping p) = abort_at-IsNarrowed r p
step-IsNarrowed r r' (retrying id done) = retry_row-IsNarrowed r id done
