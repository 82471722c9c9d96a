-- ===== src/Subagent.antt =====
-- internal/subagent/subagent.go and spawn.go: the children that sessions have, and the bounds on them.
-- A child is found by its id, which is new when its slot is claimed. What a run does in between, with
-- its workspace and its branch, is left out.
pub mod Depth
pub mod Width
pub mod Steps
pub mod Kept
pub mod Bounded
use eika.Common.{
  ℕ, zero, suc, ◌+◌, ◌-◌, max, String, str_eq, Bool, true, false, ◌&&◌, List, [], ◌∷◌, ◌++◌, Option,
  none, some, ltb, leb, if◌then◌else◌, Result, err, ok, Map, lookup, erase, assign,
}
use eika.Common.Int.{ℤ, pos_part}
use eika.Server.Runs.{RunState, run_running, run_done, run_error, run_aborted}

pub record Limits : Type 0 where
  pub max_depth : ℕ
  pub max_children : ℕ

-- `Spawner.limits`: never below one.
abbrev pub limits : ℤ → ℤ → Limits
limits depth children = record {
  max_depth = max (pos_part depth) 1;
  max_children = max (pos_part children) 1;
}

-- `store.Subagent`, the workspace and the result left out.
pub record Row : Type 0 where
  pub id : String
  pub parent_session_id : String
  pub child_session_id : String
  pub state : RunState

pub record Child : Type 0 where
  pub parent_session_id : String
  pub cancelled : Bool
  pub aborted : Bool

pub record Spawner : Type 0 where
  pub stopped : Bool
  pub children : Map Child
  pub rows : List Row

pub data Failure : Type 0 where
  too_deep too_many shut_down not_found already_over : Failure

-- `SubagentOfSession`, of which the parent is read.
unfoldable pub parent_of : List Row → String → Option String
parent_of [] session_id = none
parent_of (row ∷ rows) session_id =
    let rest = parent_of rows session_id in
    if str_eq row.child_session_id session_id then some row.parent_session_id else rest

-- The loop of `depthOf`, with so many rounds left.
unfoldable pub depth_from : ℕ → ℕ → List Row → String → ℕ
depth_from zero depth rows session_id = depth
depth_from (suc left) depth rows session_id = elim (parent_of rows session_id) [
  | none ↦ depth
  | some parent ↦ depth_from left (suc depth) rows parent
]

unfoldable pub depth_of : List Row → String → ℕ → ℕ
unfolding depth_from
depth_of rows session_id max_depth = depth_from (suc max_depth) 0 rows session_id

abbrev pub is_running : RunState → Bool
is_running run_running = true
is_running _ = false

unfoldable pub recorded_children : List Row → String → ℕ
recorded_children [] parent = 0
recorded_children (row ∷ rows) parent =
    let rest = recorded_children rows parent in
    if str_eq row.parent_session_id parent && is_running row.state then suc rest else rest

-- The loop of `reserve` that counts.
unfoldable pub live_children : Map Child → String → ℕ
live_children [] parent = 0
live_children ((id, c) ∷ children) parent =
    let rest = live_children children parent in
    if str_eq c.parent_session_id parent then suc rest else rest

unfoldable pub reserve_child : Spawner → Limits → String → String → Result Failure Spawner
unfolding depth_of recorded_children live_children
reserve_child sp l parent id =
    if ltb l.max_depth (suc (depth_of sp.rows parent l.max_depth))
    then err too_deep
    else if sp.stopped
    then err shut_down
    else if leb l.max_children
        (max (recorded_children sp.rows parent) (live_children sp.children parent))
    then err too_many
    else ok (record sp {
      children =
          assign sp.children id
            (record { parent_session_id = parent; cancelled = false; aborted = false });
    })

-- `StartSubagent`, for the child's new session.
unfoldable pub start_row : Spawner → String → Child → String → Spawner
start_row sp id c session_id = record sp {
  rows =
      sp.rows
      ++ record {
        id = id;
        parent_session_id = c.parent_session_id;
        child_session_id = session_id;
        state = run_running;
      }
        ∷ [];
}

-- `FinishSubagent`
unfoldable pub finish_subagent : List Row → String → RunState → List Row
finish_subagent [] id state = []
finish_subagent (row ∷ rows) id state =
    let rest = finish_subagent rows id state in
    if str_eq row.id id then record row { state = state } ∷ rest else row ∷ rest

-- `release` and `forget`
unfoldable pub forget_child : Spawner → String → Spawner
forget_child sp id = record sp { children = erase sp.children id }

-- The end of `run`, whose write of the row may fail.
unfoldable pub end_child : Spawner → String → RunState → Bool → Spawner
unfolding finish_subagent forget_child
end_child sp id state recorded =
    forget_child (if recorded then record sp { rows = finish_subagent sp.rows id state } else sp) id

abbrev pub stopping : Child → Child
stopping c = record c { aborted = true; cancelled = true }

-- The row of an id.
unfoldable pub row_of : List Row → String → Option Row
row_of [] id = none
row_of (row ∷ rows) id = let rest = row_of rows id in if str_eq row.id id then some row else rest

-- `Abort` up to the wait for the child.
unfoldable pub abort_child : Spawner → String → Result Failure Spawner
unfolding finish_subagent row_of
abort_child sp id = elim (lookup sp.children id) [
  | some c ↦ ok (record sp { children = assign sp.children id (stopping c) })
  | none ↦ elim (row_of sp.rows id) [
    | none ↦ err not_found
    | some row ↦
        if is_running row.state
        then ok (record sp { rows = finish_subagent sp.rows id run_aborted })
        else err already_over
  ]
]

unfoldable pub stop_where : Map Child → (Child → Bool) → Map Child
stop_where [] test = []
stop_where ((id, c) ∷ children) test =
    (id, if test c then stopping c else c) ∷ stop_where children test

unfoldable pub abort_children : Spawner → String → Spawner
unfolding stop_where
abort_children sp parent = record sp {
  children = stop_where sp.children (λ c. str_eq c.parent_session_id parent);
}

-- `Shutdown` up to the wait for the children.
unfoldable pub shutdown : Spawner → Spawner
unfolding stop_where
shutdown sp = record sp { stopped = true; children = stop_where sp.children (λ c. true) }
