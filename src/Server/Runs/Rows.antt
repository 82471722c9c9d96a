-- ===== src/Server/Runs/Rows.antt =====
-- internal/server/run_manager.go: the rows of the runs, and the writes to them that are still due.
use eika.Common.{
  ℕ, String, ◌≡◌, ◌≢◌, ◌⊎◌, inl, inr, sym, ◌∙◌, Bool, true, false, none, some, Map, lookup, erase,
  assign, lookup-erase_self, lookup-erase_ne, lookup-assign_self, lookup-assign_ne, text-cases,
}
use eika.Server.Runs.{RunState, run_running, outcome}

-- A row that says that its run goes has a run, or a write that is still tried, or the server has
-- stopped.
pub record IsFiled (by_id : Map ℕ) (rows retries : Map RunState) (off : Bool) : Type 0 where
  pub anonymous : lookup by_id "" ≡ none
  pub filed : (id : String) → lookup rows id ≡ none → lookup by_id id ≡ none
  pub settled : (id : String) → lookup retries id ≢ some run_running
  pub due :
      (id : String)
      → lookup rows id ≡ some run_running
      → (lookup by_id id ≢ none) ⊎ ((lookup retries id ≢ none) ⊎ (off ≡ true))

-- A row that is written with a final state.
pub assigned-IsFiled :
    (by_id : Map ℕ) (rows retries : Map RunState) (off : Bool) (id : String) (state : RunState)
    → IsFiled by_id rows retries off
    → state ≢ run_running
    → IsFiled by_id (assign rows id state) retries off
assigned-IsFiled by_id rows retries off id state good final = record {
  anonymous = good.anonymous;
  filed = λ j missing. elim (text-cases id j) [
    | inl same ↦ absurd (cc (missing, lookup-assign_self rows id state, same))
    | inr ne ↦ good.filed j (sym (lookup-assign_ne rows id j state ne) ∙ missing)
  ];
  settled = good.settled;
  due = λ j goes. elim (text-cases id j) [
    | inl same ↦ absurd (final (cc (goes, lookup-assign_self rows id state, same)))
    | inr ne ↦ good.due j (sym (lookup-assign_ne rows id j state ne) ∙ goes)
  ];
}

-- A write in the background that is done.
pub retried-IsFiled :
    (by_id : Map ℕ) (rows retries : Map RunState) (off : Bool) (id : String) (state : RunState)
    → IsFiled by_id rows retries off
    → lookup retries id ≡ some state
    → IsFiled by_id (assign rows id state) (erase retries id) off
retried-IsFiled by_id rows retries off id state good found =
    let written =
      assigned-IsFiled by_id rows retries off id state good
        (λ e. good.settled id (cc (found, e))) in
    record {
      anonymous = good.anonymous;
      filed = written.filed;
      settled = λ j e. elim (text-cases id j) [
        | inl same ↦ cc (e, lookup-erase_self retries id, same)
        | inr ne ↦ good.settled j (sym (lookup-erase_ne retries id j ne) ∙ e)
      ];
      due = λ j goes. elim (text-cases id j) [
        | inl same ↦
            absurd (good.settled id (cc (found, goes, lookup-assign_self rows id state, same)))
        | inr ne ↦ elim (written.due j goes) [
          | inl named ↦ inl named
          | inr (inl tried) ↦ inr (inl (λ e. tried (sym (lookup-erase_ne retries id j ne) ∙ e)))
          | inr (inr gone) ↦ inr (inr gone)
        ]
      ];
    }

-- A row of a new run.
pub started-IsFiled :
    (by_id : Map ℕ) (rows retries : Map RunState) (off : Bool) (id : String) (p : ℕ)
    → IsFiled by_id rows retries off
    → id ≢ ""
    → IsFiled (assign by_id id p) (assign rows id run_running) retries off
started-IsFiled by_id rows retries off id p good proper = record {
  anonymous = lookup-assign_ne by_id id "" p proper ∙ good.anonymous;
  filed = λ j missing. elim (text-cases id j) [
    | inl same ↦ absurd (cc (missing, lookup-assign_self rows id run_running, same))
    | inr ne ↦
        lookup-assign_ne by_id id j p ne
        ∙ good.filed j (sym (lookup-assign_ne rows id j run_running ne) ∙ missing)
  ];
  settled = good.settled;
  due = λ j goes. elim (text-cases id j) [
    | inl same ↦ inl (λ e. cc (e, lookup-assign_self by_id id p, same))
    | inr ne ↦ elim (good.due j (sym (lookup-assign_ne rows id j run_running ne) ∙ goes)) [
      | inl named ↦ inl (λ e. named (sym (lookup-assign_ne by_id id j p ne) ∙ e))
      | inr rest ↦ inr rest
    ]
  ];
}

-- A run whose row is no longer open, or is written later, gives up its id.
pub erased-IsFiled :
    (by_id : Map ℕ) (rows retries : Map RunState) (off : Bool) (id : String)
    → IsFiled by_id rows retries off
    → ((lookup rows id ≢ some run_running) ⊎ ((lookup retries id ≢ none) ⊎ (off ≡ true)))
    → IsFiled (erase by_id id) rows retries off
erased-IsFiled by_id rows retries off id good seen = record {
  anonymous = gone "" good.anonymous;
  filed = λ j missing. gone j (good.filed j missing);
  settled = good.settled;
  due = λ j goes. elim (text-cases id j) [
    | inl same ↦ elim seen [
      | inl closed ↦ absurd (closed (cc (goes, same)))
      | inr (inl tried) ↦ inr (inl (λ e. tried (cc (e, same))))
      | inr (inr stopped) ↦ inr (inr stopped)
    ]
    | inr ne ↦ elim (good.due j goes) [
      | inl named ↦ inl (λ e. named (sym (lookup-erase_ne by_id id j ne) ∙ e))
      | inr rest ↦ inr rest
    ]
  ];
}
  where
    gone : (j : String) → lookup by_id j ≡ none → lookup (erase by_id id) j ≡ none
    gone j missing = elim (text-cases id j) [
      | inl same ↦ cc (lookup-erase_self by_id id, same)
      | inr ne ↦ lookup-erase_ne by_id id j ne ∙ missing
    ]

-- A write that is left to the background.
pub deferred-IsFiled :
    (by_id : Map ℕ) (rows retries : Map RunState) (off : Bool) (id : String) (state : RunState)
    → IsFiled by_id rows retries off
    → state ≢ run_running
    → IsFiled by_id rows (assign retries id state) off
deferred-IsFiled by_id rows retries off id state good final = record {
  anonymous = good.anonymous;
  filed = good.filed;
  settled = λ j e. elim (text-cases id j) [
    | inl same ↦ final (cc (e, lookup-assign_self retries id state, same))
    | inr ne ↦ good.settled j (sym (lookup-assign_ne retries id j state ne) ∙ e)
  ];
  due = λ j goes. elim (text-cases id j) [
    | inl same ↦ inr (inl (λ e. cc (e, lookup-assign_self retries id state, same)))
    | inr ne ↦ elim (good.due j goes) [
      | inl named ↦ inl named
      | inr (inl tried) ↦ inr (inl (λ e. tried (sym (lookup-assign_ne retries id j state ne) ∙ e)))
      | inr (inr stopped) ↦ inr (inr stopped)
    ]
  ];
}

pub outcome-final : (errored aborted : Bool) → outcome errored aborted ≢ run_running
outcome-final false aborted = λ e. cc e
outcome-final true true = λ e. cc e
outcome-final true false = λ e. cc e
