-- ===== src/Subagent/Bounded.antt =====
-- internal/subagent: the bounds on the tree of children, through every sequence of steps.
use eika.Common.{true, str_eq}
use eika.Subagent.{Limits, Spawner, abort_children, shutdown}
use eika.Subagent.Steps.{
  Step, Steps, reserving, starting, releasing, ending, aborting, aborting_children, stopping_all,
  start, followed,
}
use eika.Subagent.Kept.{
  IsBounded, reserve-IsBounded, start-IsBounded, forget-IsBounded, abort-IsBounded, end-IsBounded,
  stop_where-IsBounded,
}

pub Step-IsBounded :
    (l : Limits) (sp sp' : Spawner) → IsBounded l sp → Step l sp sp' → IsBounded l sp'
unfolding abort_children shutdown
Step-IsBounded l sp sp' good (reserving parent id done) = reserve-IsBounded sp l parent id good done
Step-IsBounded l sp sp' good (starting id session c own fresh) =
    start-IsBounded sp l id session c good own fresh
Step-IsBounded l sp sp' good (releasing id) = forget-IsBounded sp l id good
Step-IsBounded l sp sp' good (ending id state recorded) = end-IsBounded sp l id state recorded good
Step-IsBounded l sp sp' good (aborting id done) = abort-IsBounded sp l id good done
Step-IsBounded l sp sp' good (aborting_children parent) =
    stop_where-IsBounded sp l (λ c. str_eq c.parent_session_id parent) sp.stopped good
Step-IsBounded l sp sp' good stopping_all = stop_where-IsBounded sp l (λ c. true) true good

-- While the limits stay the same: from a state within them, and after any sequence of spawns, started,
-- ended and released children, aborts and a shutdown, no session has more children at a time than are
-- allowed, and no session that has a parent stands deeper below its top session than is allowed.
pub Steps-IsBounded :
    (l : Limits) (sp sp' : Spawner) → IsBounded l sp → Steps l sp sp' → IsBounded l sp'
Steps-IsBounded l sp sp' good start = good
Steps-IsBounded l sp sp' good (followed {b = mid} before last) =
    Step-IsBounded l mid sp' (Steps-IsBounded l sp mid good before) last
