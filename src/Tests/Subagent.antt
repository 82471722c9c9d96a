-- ===== src/Tests/Subagent.antt =====
-- Runs of internal/subagent.
use eika.Common.{◌≡◌, refl, false, [], ◌∷◌, err, arith, str_eq_iff}
use eika.Common.Int.{pos}
use eika.Subagent.{
  Limits, limits, Child, Spawner, too_many, too_deep, reserve_child, start_row, parent_of, depth_of,
  depth_from, recorded_children, live_children,
}
use eika.Subagent.Steps.{IsFresh, Step, reserving, starting, start, followed}
use eika.Subagent.Kept.{IsBounded}
use eika.Subagent.Bounded.{Steps-IsBounded}

abbrev idle : Spawner
idle = record { stopped = false; children = []; rows = [] }

-- One level of one child.
abbrev narrow_limits : Limits
narrow_limits = limits (pos 0) (pos 1)

abbrev first_child : Child
first_child = record { parent_session_id = "top"; cancelled = false; aborted = false }

abbrev claimed : Spawner
claimed = record { stopped = false; children = ("one", first_child) ∷ []; rows = [] }

idle-IsBounded : IsBounded narrow_limits idle
unfolding live_children parent_of
idle-IsBounded = record {
  narrow = λ p. omega arith;
  room = λ id c found. cc found;
  shallow = λ s p up. cc up;
}

claiming : Step narrow_limits idle claimed
unfolding reserve_child depth_of depth_from parent_of recorded_children live_children
claiming = reserving "top" "one" refl

child-IsFresh : IsFresh claimed "child"
unfolding parent_of
child-IsFresh = record {
  no_row = refl;
  childless = record { above = λ s e. cc e };
  unclaimed = λ id c found e. ground (arith, str_eq_iff "top" "child", str_eq_iff "one" id);
}

abbrev going : Spawner
going = start_row claimed "one" first_child "child"

Steps-IsBounded_example : IsBounded narrow_limits going
Steps-IsBounded_example =
    Steps-IsBounded narrow_limits idle going idle-IsBounded
      (followed (followed start claiming) (starting "one" "child" first_child refl child-IsFresh))

-- A second child of the session, and a child of the child, are refused.
second : reserve_child going narrow_limits "top" "two" ≡ err too_many
unfolding reserve_child depth_of depth_from parent_of recorded_children live_children start_row
second = refl

grandchild : reserve_child going narrow_limits "child" "two" ≡ err too_deep
unfolding reserve_child depth_of depth_from parent_of start_row
grandchild = refl
