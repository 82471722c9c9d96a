-- ===== src/Server/Runs/Changed.antt =====
-- internal/server/run_manager.go: a change of a run, by whoever holds a pointer to it, the run being over
-- or not.
use eika.Common.{
  ℕ, ◌≡◌, inl, inr, refl, sym, ap, ◌∙◌, subst, true, Option, none, some, get_elem?, set,
  get_elem?-set_self, get_elem?-set_ne, get_elem?-bound, ==-cases, Bool-cases, ok, arith,
}
use eika.Provider.{Message}
use eika.Agent.Accept.{Agent}
use eika.Server.Runs.{
  ActiveRun, Runs, Stage, building, started, loaded, shown, driven, with_run, abort_at, abort_run,
  Delivery, deliver_to, enqueue_in,
}
use eika.Server.Runs.Steps.{IsLive}
use eika.Server.Runs.Claims.{set_other-IsLive}
use eika.Server.Runs.Supervised.{IsSupervised, IsStaged, IsStagedAs, replaced-IsSupervised}

module _ (r : Runs) (p : ℕ) (a a' : ActiveRun) (here : get_elem? r.actives p ≡ some a)
    (off : a.done ≡ true) (off' : a'.done ≡ true) where
  IsLive-set_over : (q : ℕ) (b : ActiveRun) → IsLive (set r.actives p a') q b → IsLive r.actives q b
  IsLive-set_over q b h = elim (==-cases q p) [
    | inl same ↦
        let found : get_elem? (set r.actives p a') q ≡ some a' =
          ap (get_elem? (set r.actives p a')) same
          ∙ get_elem?-set_self r.actives p a' (get_elem?-bound r.actives p here) in
        cc (found, h.here, h.goes_on, off')
    | inr other ↦ record {
      here = sym (get_elem?-set_ne r.actives a' (λ e. other (sym e))) ∙ h.here;
      goes_on = h.goes_on;
    }
  ]

  set_over-IsLive : (q : ℕ) (b : ActiveRun) → IsLive r.actives q b → IsLive (set r.actives p a') q b
  set_over-IsLive q b h =
      set_other-IsLive r.actives p q a' b h (λ e. cc (h.here, e, here, h.goes_on, off))

  -- A run that is over may change: only what goes counts.
  over-IsSupervised : IsSupervised r → IsSupervised (with_run r p a')
  over-IsSupervised good = record {
    owners = good.owners;
    agrees = record {
      claimed = λ q b h. good.agrees.claimed q b (IsLive-set_over q b h);
      held = λ s q found.
          let (b, (old, same)) = good.agrees.held s q found in (b, (set_over-IsLive q b old, same));
      named = λ id q found.
          let (b, (old, same)) = good.agrees.named id q found in
          (b, (set_over-IsLive q b old, same));
      numbered = λ q b h. good.agrees.numbered q b (IsLive-set_over q b h);
    };
    filed = good.filed;
    staged = λ q b h. good.staged q b (IsLive-set_over q b h);
    registered = good.registered;
  }

pub changed-IsSupervised :
    (r : Runs) (p : ℕ) (a a' : ActiveRun)
    → IsSupervised r
    → get_elem? r.actives p ≡ some a
    → a'.session_id ≡ a.session_id
    → a'.row ≡ a.row
    → a'.done ≡ a.done
    → (IsStaged a → IsStaged a')
    → IsSupervised (with_run r p a')
changed-IsSupervised r p a a' good here same_s same_row same_done fits = elim (Bool-cases a.done) [
  | inl off ↦ over-IsSupervised r p a a' here off (same_done ∙ off) good
  | inr on ↦
      let live : IsLive r.actives p a = record { here = here; goes_on = on } in
      replaced-IsSupervised r p a good live a' same_s same_row (same_done ∙ on)
        (fits (good.staged p a live))
]

-- A run keeps its stage when its agent is another one.
with_agent-IsStaged :
    (a : ActiveRun) (loop : Agent) → IsStaged a → IsStaged (record a { agent = some loop })
with_agent-IsStaged a loop fits = at a.stage fits
  where
    at : (s : Stage) → IsStagedAs s a → IsStagedAs s (record a { agent = some loop })
    at building fits = fits
    at started fits = fits
    at (loaded l i) fits = fits
    at shown (proper, same, has) = (proper, same, λ e. cc e)
    at driven (proper, same, has) = (proper, same, λ e. cc e)

hit-IsStaged :
    (a : ActiveRun) → IsStaged a → IsStaged (record a { aborted = true; cancelled = true })
hit-IsStaged a fits = at a.stage fits
  where
    at : (s : Stage) → IsStagedAs s a → IsStagedAs s (record a { aborted = true; cancelled = true })
    at building fits = fits
    at started fits = fits
    at (loaded l i) fits = fits
    at shown fits = fits
    at driven fits = fits

pub looping-IsSupervised :
    (r : Runs) (p : ℕ) (a : ActiveRun) (loop : Agent)
    → IsSupervised r
    → get_elem? r.actives p ≡ some a
    → IsSupervised (with_run r p (record a { agent = some loop }))
looping-IsSupervised r p a loop good here =
    changed-IsSupervised r p a (record a { agent = some loop }) good here refl refl refl
      (with_agent-IsStaged a loop)

pub abort_run-IsSupervised :
    (r : Runs) (p : ℕ) (a : ActiveRun)
    → IsSupervised r
    → get_elem? r.actives p ≡ some a
    → IsSupervised (abort_run r p a)
unfolding abort_run
abort_run-IsSupervised r p a good here =
    changed-IsSupervised r p a (record a { aborted = true; cancelled = true }) good here refl refl
      refl (hit-IsStaged a)

pub abort_at-IsSupervised : (r : Runs) (p : ℕ) → IsSupervised r → IsSupervised (abort_at r p)
unfolding abort_at
abort_at-IsSupervised r p good = at (get_elem? r.actives p) refl
  where
    at :
        (o : Option ActiveRun)
        → get_elem? r.actives p ≡ o
        → IsSupervised (elim o as (λ _. Runs) [ none ↦ r | some a ↦ abort_run r p a ])
    at none eq = good
    at (some a) eq = abort_run-IsSupervised r p a good eq

-- What a message that is accepted changes.
pub enqueue_in-ok :
    (r : Runs) (p : ℕ) (a : ActiveRun) (loop : Agent) (m : Message) (mode : Delivery) {r' : Runs}
    → enqueue_in r p a loop m mode ≡ ok r'
    → with_run r p (record a { agent = some (deliver_to mode loop m).0 }) ≡ r'
unfolding enqueue_in
enqueue_in-ok r p a loop m mode done = ground arith

pub enqueue_in-IsSupervised :
    (r : Runs) (p : ℕ) (a : ActiveRun) (loop : Agent) (m : Message) (mode : Delivery) {r' : Runs}
    → IsSupervised r
    → get_elem? r.actives p ≡ some a
    → enqueue_in r p a loop m mode ≡ ok r'
    → IsSupervised r'
enqueue_in-IsSupervised r p a loop m mode good here done =
    subst IsSupervised (enqueue_in-ok r p a loop m mode done)
      (looping-IsSupervised r p a (deliver_to mode loop m).0 good here)
