-- ===== src/Server/Runs/Supervised.antt =====
-- internal/server/run_manager.go: each operation leaves the maps, the runs and the rows in order.
use eika.Common.{
  ℕ, String, ◌≡◌, ◌≢◌, ◌⊎◌, inl, inr, refl, sym, ◌∙◌, subst, Bool, true, false, none, some, set,
  if◌then◌else◌, Map, lookup, erase, assign, arith, lookup-assign_self, lookup-assign_ne,
  lookup-erase_self, lookup-erase_ne, text-cases, ==_iff, str_eq, str_eq_iff,
}
use eika.Agent.Queue.{QueueMode}
use eika.Agent.Accept.{Agent}
use eika.Server.Runs.{
  RunState, run_running, ActiveRun, Stage, building, started, loaded, shown, driven, Runs,
  QueuedMessages, closed, drop_session, abandon, begin_row, load_agent, publish, register, with_run,
  drive_end, outcome, finish, finish_row, take_pending,
}
use eika.Server.Runs.Steps.{IsLive}
use eika.Server.Runs.Claims.{Agrees, replace-Agrees, IsLive-set}
use eika.Server.Runs.Dropped.{
  dropped-Agrees, building-IsWithout, published-IsWithout, published-Agrees,
}
use eika.Server.Runs.Rows.{
  IsFiled, assigned-IsFiled, started-IsFiled, erased-IsFiled, deferred-IsFiled, outcome-final,
}

-- What a run holds at each stage of its goroutine.
abbrev pub IsStagedAs : Stage → ActiveRun → Type 0
IsStagedAs building a = (a.row ≡ "") × (a.id ≡ "")
IsStagedAs started a = (a.row ≢ "") × (a.id ≡ "")
IsStagedAs (loaded loop images) a = (a.row ≢ "") × (a.id ≡ "")
IsStagedAs shown a = (a.row ≢ "") × (a.id ≡ a.row) × (a.agent ≢ none)
IsStagedAs driven a = (a.row ≢ "") × (a.id ≡ a.row) × (a.agent ≢ none)

abbrev pub IsStaged : ActiveRun → Type 0
IsStaged a = IsStagedAs a.stage a

-- `owners` is the map that `byID` comes to be when every run has entered itself.
pub record IsSupervised (r : Runs) : Type 0 where
  pub owners : Map ℕ
  pub agrees : Agrees r.by_session owners r.actives
  pub filed : IsFiled owners r.rows r.retries r.retries_stopped
  pub staged : (p : ℕ) (a : ActiveRun) → IsLive r.actives p a → IsStaged a
  pub registered :
      (id : String) (p : ℕ) → lookup r.by_id id ≡ some p → (id ≢ "") × (lookup owners id ≡ some p)

pub drop_own :
    (by_session : Map ℕ) (s : String) (p : ℕ)
    → lookup by_session s ≡ some p
    → drop_session by_session s p ≡ erase by_session s
unfolding drop_session
drop_own by_session s p own = ground (arith, ==_iff p p)

set-IsStaged :
    (r : Runs) (p : ℕ) (a a' : ActiveRun)
    → IsSupervised r
    → IsLive r.actives p a
    → (a'.done ≡ false → IsStaged a')
    → (q : ℕ) (b : ActiveRun) → IsLive (set r.actives p a') q b
    → IsStaged b
set-IsStaged r p a a' good live fits q b h = elim (IsLive-set r.actives p q a a' b live h) [
  | inl (same, eq) ↦ subst IsStaged (sym eq) (fits (cc (eq, h.goes_on)))
  | inr (other, old) ↦ good.staged q b old
]

-- A live run that has been changed in place.
module _ (r : Runs) (p : ℕ) (a : ActiveRun) (good : IsSupervised r)
    (live : IsLive r.actives p a) where
  pub replaced-IsSupervised :
      (a' : ActiveRun)
      → a'.session_id ≡ a.session_id
      → a'.row ≡ a.row
      → a'.done ≡ false
      → IsStaged a'
      → IsSupervised (with_run r p a')
  replaced-IsSupervised a' same_s same_row on fits = record {
    owners = good.owners;
    agrees =
        replace-Agrees r.by_session good.owners r.actives p a a' good.agrees live same_s same_row
          on;
    filed = good.filed;
    staged = set-IsStaged r p a a' good live (λ _. fits);
    registered = good.registered;
  }

  staged_at : (s : Stage) → a.stage ≡ s → IsStagedAs s a
  staged_at s eq = subst (λ t. IsStagedAs t a) eq (good.staged p a live)

  pub abandon-IsSupervised : a.stage ≡ building → IsSupervised (abandon r p a)
  unfolding abandon
  abandon-IsSupervised eq =
      let (no_row, no_id) = staged_at building eq in
      let own = good.agrees.claimed p a live in
      let kept : (if str_eq a.id "" then r.by_id else erase r.by_id a.id) ≡ r.by_id =
        ground (arith, str_eq_iff a.id "") in
      let unnamed : lookup good.owners a.row ≡ none = cc (good.filed.anonymous, no_row) in
      rw (drop_own r.by_session a.session_id p own, kept)
        (record {
          owners = good.owners;
          agrees =
              dropped-Agrees r.by_session good.owners good.owners r.actives p a (closed a)
                good.agrees live refl
                (building-IsWithout r.by_session good.owners r.actives p a good.agrees live
                  unnamed);
          filed = good.filed;
          staged = set-IsStaged r p a (closed a) good live (λ e. cc e);
          registered = good.registered;
        })

  pub begin_row-IsSupervised :
      (id : String)
      → a.stage ≡ building
      → id ≢ ""
      → lookup r.rows id ≡ none
      → IsSupervised (begin_row r p a id)
  unfolding begin_row
  begin_row-IsSupervised id eq proper fresh =
      let (no_row, no_id) = staged_at building eq in
      let unnamed : lookup good.owners a.row ≡ none = cc (good.filed.anonymous, no_row) in
      let free : lookup good.owners id ≡ none = good.filed.filed id fresh in
      let a' : ActiveRun = record a { row = id; stage = started } in
      record {
        owners = assign good.owners id p;
        agrees =
            published-Agrees r.by_session good.owners r.actives p a a' good.agrees live refl
              live.goes_on unnamed free;
        filed =
            started-IsFiled good.owners r.rows r.retries r.retries_stopped id p good.filed proper;
        staged = set-IsStaged r p a a' good live (λ _. (proper, no_id));
        registered = λ j q found.
            let (named, owned) = good.registered j q found in
            (named, lookup-assign_ne good.owners id j p (λ e. cc (e, owned, free)) ∙ owned);
      }

  pub publish-IsSupervised :
      (loop : Agent) (images : Bool)
      → a.stage ≡ loaded loop images
      → IsSupervised (publish r p a loop images)
  unfolding publish
  publish-IsSupervised loop images eq =
      let (proper, _) = staged_at (loaded loop images) eq in
      replaced-IsSupervised
        (record a { id = a.row; agent = some loop; image_input = images; stage = shown }) refl refl
        live.goes_on (proper, refl, λ e. cc e)

  pub register-IsSupervised : a.stage ≡ shown → IsSupervised (register r p a)
  unfolding register
  register-IsSupervised eq =
      let (proper, same, has) = staged_at shown eq in
      let a' : ActiveRun = record a { stage = driven } in
      let owned : lookup good.owners a.row ≡ some p = elim (good.agrees.numbered p a live) [
        | inl no_row ↦ absurd (proper no_row)
        | inr found ↦ found
      ] in
      record {
        owners = good.owners;
        agrees =
            replace-Agrees r.by_session good.owners r.actives p a a' good.agrees live refl refl
              live.goes_on;
        filed = good.filed;
        staged = set-IsStaged r p a a' good live (λ _. (proper, same, has));
        registered = λ j q found. elim (text-cases a.id j) [
          | inl here ↦
              let eq_q : q ≡ p = cc (found, lookup-assign_self r.by_id a.id p, here) in
              ((λ e. proper (cc (e, here, same))), cc (owned, same, here, eq_q))
          | inr other ↦ good.registered j q (sym (lookup-assign_ne r.by_id a.id j p other) ∙ found)
        ];
      }

  finish-IsSupervised :
      (queued : QueuedMessages)
      → a.stage ≡ driven
      → ((lookup r.rows a.id ≢ some run_running)
          ⊎ ((lookup r.retries a.id ≢ none) ⊎ (r.retries_stopped ≡ true)))
      → IsSupervised (finish r p a queued)
  unfolding finish
  finish-IsSupervised queued eq seen =
      let (proper, same, has) = staged_at driven eq in
      let own = good.agrees.claimed p a live in
      let found : lookup good.owners a.row ≡ some p = elim (good.agrees.numbered p a live) [
        | inl no_row ↦ absurd (proper no_row)
        | inr found ↦ found
      ] in
      rw (drop_own r.by_session a.session_id p own) (record {
        owners = erase good.owners a.row;
        agrees =
            dropped-Agrees r.by_session good.owners (erase good.owners a.row) r.actives p a
              (closed a) good.agrees live refl
              (published-IsWithout r.by_session good.owners r.actives p a good.agrees live found);
        filed = erased-IsFiled good.owners r.rows r.retries r.retries_stopped a.row good.filed (
            subst
              (λ i.
                (lookup r.rows i ≢ some run_running)
                ⊎ ((lookup r.retries i ≢ none) ⊎ (r.retries_stopped ≡ true)))
              same seen);
        staged = set-IsStaged r p a (closed a) good live (λ e. cc e);
        registered = λ j q h. elim (text-cases a.id j) [
          | inl here ↦ absurd (cc (h, lookup-erase_self r.by_id a.id, here))
          | inr other ↦
              let (named, owned) =
                good.registered j q (sym (lookup-erase_ne r.by_id a.id j other) ∙ h) in
              (named, lookup-erase_ne good.owners a.row j (λ e. other (same ∙ e)) ∙ owned)
        ];
      })

pub with_pending-IsSupervised :
    (r : Runs) (pending : Map QueuedMessages)
    → IsSupervised r
    → IsSupervised (record r { pending = pending })
with_pending-IsSupervised r pending good = record {
  owners = good.owners;
  agrees = good.agrees;
  filed = good.filed;
  staged = good.staged;
  registered = good.registered;
}

pub load_agent-IsSupervised :
    (r : Runs) (p : ℕ) (a : ActiveRun) (mode : QueueMode) (compact images : Bool)
    → IsSupervised r
    → IsLive r.actives p a
    → a.stage ≡ started
    → IsSupervised (load_agent r p a mode compact images)
unfolding load_agent take_pending
load_agent-IsSupervised r p a mode true images good live eq =
    replaced-IsSupervised r p a good live _ refl refl live.goes_on
      (staged_at r p a good live started eq)
load_agent-IsSupervised r p a mode false images good live eq =
    replaced-IsSupervised (record r { pending = erase r.pending a.session_id }) p a
      (with_pending-IsSupervised r _ good) live _ refl refl live.goes_on
      (staged_at r p a good live started eq)

-- The rows are in order, and the row of an id is written with a final state or will be.
abbrev IsRecorded : Map ℕ → Runs → String → Type 0
IsRecorded owners r id =
    IsFiled owners r.rows r.retries r.retries_stopped
    × ((lookup r.rows id ≢ some run_running)
        ⊎ ((lookup r.retries id ≢ none) ⊎ (r.retries_stopped ≡ true)))

finish_row-IsRecorded :
    (owners : Map ℕ) (r : Runs) (id : String) (state : RunState) (recorded : Bool)
    → IsFiled owners r.rows r.retries r.retries_stopped
    → state ≢ run_running
    → IsRecorded owners (finish_row r id state recorded) id
unfolding finish_row
finish_row-IsRecorded owners r id state true good final = (
  assigned-IsFiled owners r.rows r.retries r.retries_stopped id state good final,
  inl (λ e. final (cc (e, lookup-assign_self r.rows id state))),
)
finish_row-IsRecorded owners r id state false good final = left r.retries_stopped refl
  where
    left :
        (off : Bool)
        → off ≡ r.retries_stopped
        → IsRecorded owners (if off then r else record r { retries = assign r.retries id state }) id
    left true same = (good, inr (inr (sym same)))
    left false same = (
      deferred-IsFiled owners r.rows r.retries r.retries_stopped id state good final,
      inr (inl (λ e. cc (e, lookup-assign_self r.retries id state))),
    )

-- The write of a row leaves the maps and the runs as they are.
pub finish_row-same :
    (r : Runs) (id : String) (state : RunState) (recorded : Bool)
    → let r' = finish_row r id state recorded in
      (r'.by_session ≡ r.by_session) × ((r'.by_id ≡ r.by_id) × (r'.actives ≡ r.actives))
unfolding finish_row
finish_row-same r id state recorded = ground arith

pub drive_end-IsSupervised :
    (r : Runs) (p : ℕ) (a : ActiveRun) (loop : Agent) (errored recorded : Bool)
    → IsSupervised r
    → IsLive r.actives p a
    → a.stage ≡ driven
    → IsSupervised (drive_end r p a loop errored recorded)
unfolding drive_end
drive_end-IsSupervised r p a loop errored recorded good live stage =
    let state = outcome errored a.aborted in
    let r' = finish_row r a.id state recorded in
    let (eq_s, (eq_id, eq_a)) = finish_row-same r a.id state recorded in
    let (filed, seen) =
      finish_row-IsRecorded good.owners r a.id state recorded good.filed
        (outcome-final errored a.aborted) in
    let good' : IsSupervised r' = record {
      owners = good.owners;
      agrees = rw (eq_s, eq_a) good.agrees;
      filed = filed;
      staged = rw eq_a good.staged;
      registered = rw eq_id good.registered;
    } in
    finish-IsSupervised r' p a good' (rw eq_a live)
      (record { steering = loop.steering.messages; follow_ups = loop.follow_ups.messages }) stage
      seen
