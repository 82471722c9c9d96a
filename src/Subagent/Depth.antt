-- ===== src/Subagent/Depth.antt =====
-- internal/subagent: how many parents a session has above it.
use eika.Common.{
  ℕ, zero, suc, ◌+◌, ◌≤◌, ◌<◌, ◌≡◌, ◌≢◌, refl, sym, ap, ◌∙◌, String, str_eq_iff, List, [], ◌∷◌,
  ◌++◌, Option, none, some, arith,
}
use eika.Server.Runs.{RunState}
use eika.Subagent.{Row, parent_of, depth_from, depth_of, finish_subagent}

-- A session has so many parents above it.
pub data HasDepth (rows : List Row) : String → ℕ → Type 0 where
  at_top : (s : String) → parent_of rows s ≡ none → HasDepth rows s 0
  below :
      (s p : String) (d : ℕ)
      → parent_of rows s ≡ some p
      → HasDepth rows p d
      → HasDepth rows s (suc d)

depth_from-HasDepth :
    (left depth : ℕ) (rows : List Row) (s : String)
    → depth_from left depth rows s < depth + left
    → (d : ℕ) × (HasDepth rows s d × (depth_from left depth rows s ≡ depth + d))
unfolding depth_from
depth_from-HasDepth zero depth rows s h = absurd (omega arith)
depth_from-HasDepth (suc left) depth rows s h =
    at (parent_of rows s) refl h (λ p. depth_from-HasDepth left (suc depth) rows p)
  where
    at :
        (o : Option String)
        → parent_of rows s ≡ o
        → let out = elim o as (λ _. ℕ) [
          | none ↦ depth
          | some p ↦ depth_from left (suc depth) rows p
        ] in
          out < depth + suc left
          → ((p : String)
              → depth_from left (suc depth) rows p < suc depth + left
              → (d : ℕ) × (HasDepth rows p d
                  × (depth_from left (suc depth) rows p ≡ suc depth + d)))
          → (d : ℕ) × (HasDepth rows s d × (out ≡ depth + d))
    at none eq h later = (0, (at_top s eq, omega arith))
    at (some p) eq h later =
        let (d, (has, same)) = later p (omega arith) in
        (suc d, (below s p d eq has, omega (arith, same)))

-- A session that a child may be added to is above the deepest level.
pub depth_of-HasDepth :
    (rows : List Row) (s : String) (max_depth : ℕ)
    → suc (depth_of rows s max_depth) ≤ max_depth
    → (d : ℕ) × (HasDepth rows s d × (d < max_depth))
unfolding depth_of
depth_of-HasDepth rows s max_depth h =
    let (d, (has, same)) = depth_from-HasDepth (suc max_depth) 0 rows s (omega arith) in
    (d, (has, omega (arith, same)))

pub parent_of-append_other :
    (rows : List Row) (row : Row) (s : String)
    → row.child_session_id ≢ s
    → parent_of (rows ++ row ∷ []) s ≡ parent_of rows s
unfolding parent_of
parent_of-append_other [] row s h = ground (arith, str_eq_iff row.child_session_id s, h)
parent_of-append_other (r ∷ rows) row s h = ground (arith, parent_of-append_other rows row s h)

pub parent_of-append_new :
    (rows : List Row) (row : Row)
    → parent_of rows row.child_session_id ≡ none
    → parent_of (rows ++ row ∷ []) row.child_session_id ≡ some row.parent_session_id
unfolding parent_of
parent_of-append_new [] row h = ground (arith, str_eq_iff row.child_session_id row.child_session_id)
parent_of-append_new (r ∷ rows) row h = ground (arith, parent_of-append_new rows row)

-- No row has the session as a parent.
pub record IsChildless (rows : List Row) (session : String) : Type 0 where
  pub above : (s : String) → parent_of rows s ≢ some session

-- A row for a new session leaves the depths of the others.
pub append-HasDepth :
    (rows : List Row) (row : Row) (s : String) (d : ℕ)
    → IsChildless rows row.child_session_id
    → row.child_session_id ≢ s
    → HasDepth rows s d
    → HasDepth (rows ++ row ∷ []) s d
append-HasDepth rows row s zero alone other (at_top _ top) =
    at_top s (parent_of-append_other rows row s other ∙ top)
append-HasDepth rows row s (suc d) alone other (below _ p _ up has) =
    below s p d (parent_of-append_other rows row s other ∙ up)
      (append-HasDepth rows row p d alone (λ e. alone.above s (up ∙ ap some (sym e))) has)

pub parent_of-finish :
    (rows : List Row) (id : String) (state : RunState) (s : String)
    → parent_of (finish_subagent rows id state) s ≡ parent_of rows s
unfolding parent_of finish_subagent
parent_of-finish [] id state s = refl
parent_of-finish (row ∷ rows) id state s = ground (arith, parent_of-finish rows id state s)

pub finish-HasDepth :
    (rows : List Row) (id : String) (state : RunState) (s : String) (d : ℕ)
    → HasDepth rows s d
    → HasDepth (finish_subagent rows id state) s d
finish-HasDepth rows id state s zero (at_top _ top) =
    at_top s (parent_of-finish rows id state s ∙ top)
finish-HasDepth rows id state s (suc d) (below _ p _ up has) =
    below s p d (parent_of-finish rows id state s ∙ up) (finish-HasDepth rows id state p d has)
