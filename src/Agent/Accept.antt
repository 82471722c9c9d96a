-- ===== src/Agent/Accept.antt =====
-- internal/agent/agent.go: the messages that an agent accepts while it runs. The agent's lock makes
-- each of these functions one step.
use eika.Common.{
  take, drop, min, length, ap, suc, Bool, true, false, List, [], ◌∷◌, ◌++◌, Option, none, some,
  if◌then◌else◌, arith, ◌≡◌, ◌≢◌, refl, ◌∙◌, append-nil,
}
use eika.Common.Int.{ℤ, pos}
use eika.Provider.{Message}
use eika.Agent.Queue.{Queue, QueueMode, one_at_a_time, all, push, drain, take_front}

-- `&a.steering` and `&a.followUps`
pub data Origin : Type 0 where
  steering_queue follow_up_queue : Origin

pub record Agent : Type 0 where
  pub steering : Queue
  pub follow_ups : Queue
  pub mode : QueueMode
  pub accepting : Bool

unfoldable pub steer : Agent → Message → Agent × Bool
unfolding push
steer a msg =
    if a.accepting then (record a { steering = push a.steering msg }, true) else (a, false)

unfoldable pub follow_up : Agent → Message → Agent × Bool
unfolding push
follow_up a msg =
    if a.accepting then (record a { follow_ups = push a.follow_ups msg }, true) else (a, false)

unfoldable pub drain_steering : Agent → List Message × Agent
unfolding drain
drain_steering a = let (msgs, q) = drain a.steering in (msgs, record a { steering = q })

abbrev pub count_of : QueueMode → ℤ
count_of one_at_a_time = pos 1
count_of all = pos 0

-- The follow-ups that are taken, or the end of acceptance.
abbrev pub give_follow_ups : Agent → List Message × Queue → (List Message × Option Origin) × Agent
give_follow_ups a (m ∷ ms, q) = ((m ∷ ms, some follow_up_queue), record a { follow_ups = q })
give_follow_ups a ([], q) = (([], none), record a { follow_ups = q; accepting = false })

unfoldable pub next_follow_up : Agent → (List Message × Option Origin) × Agent
unfolding take_front
next_follow_up a = give_follow_ups a (take_front a.follow_ups (count_of a.mode))

unfoldable pub next_queued : Agent → (List Message × Option Origin) × Agent
unfolding drain_steering next_follow_up
next_queued a =
    let (msgs, a') = drain_steering a in
    elim msgs [ m ∷ ms ↦ ((m ∷ ms, some steering_queue), a') | [] ↦ next_follow_up a' ]

unfoldable pub close_queues : Agent → Agent
close_queues a = record a { accepting = false }

-- `a.accepting = true` at the start of `Run`
unfoldable pub open_queues : Agent → Agent
open_queues a = record a { accepting = true }

-- The agent with other messages in its queues.
abbrev with_queues : Agent → QueueMode → List Message → List Message → Agent
with_queues a mode st fo = record {
  steering = record { messages = st };
  follow_ups = record { messages = fo };
  mode = mode;
  accepting = a.accepting;
}

-- How `next_queued` answers for what is queued.
next_steering :
    (a : Agent) (mode : QueueMode) (m : Message) (st fo : List Message)
    → next_queued (with_queues a mode (m ∷ st) fo)
      ≡ ((m ∷ st, some steering_queue), with_queues a mode [] fo)
unfolding next_queued
next_steering a mode m st fo = refl

next_all :
    (a : Agent) (m : Message) (fo : List Message)
    → next_queued (with_queues a all [] (m ∷ fo))
      ≡ ((m ∷ fo, some follow_up_queue), with_queues a all [] [])
unfolding next_queued
next_all a m fo = refl

take_one :
    (m : Message) (fo : List Message)
    → take_front (record { messages = m ∷ fo }) (pos 1) ≡ (m ∷ [], record { messages = fo })
unfolding take_front
take_one m fo =
    let e : min 1 (suc (length fo)) ≡ 1 = omega arith in
    ap (λ k. (take k (m ∷ fo), record { messages = drop k (m ∷ fo) })) e

next_one :
    (a : Agent) (m : Message) (fo : List Message)
    → next_queued (with_queues a one_at_a_time [] (m ∷ fo))
      ≡ ((m ∷ [], some follow_up_queue), with_queues a one_at_a_time [] fo)
unfolding next_queued
next_one a m fo = ap (give_follow_ups (with_queues a one_at_a_time [] (m ∷ fo))) (take_one m fo)

next_none :
    (a : Agent) (mode : QueueMode)
    → next_queued (with_queues a mode [] [])
      ≡ (([], none), record (with_queues a mode [] []) { accepting = false })
unfolding next_queued
next_none a one_at_a_time = refl
next_none a all = refl

-- What an answer of `nextQueued` says.
pub record IsAnswer (a : Agent) (out : (List Message × Option Origin) × Agent) : Type 0 where
  pub done :
      out.0.0 ≡ []
      → (out.1.steering.messages ≡ [])
        × ((out.1.follow_ups.messages ≡ []) × (out.1.accepting ≡ false))
  pub split :
      (out.0.0 ++ out.1.steering.messages) ++ out.1.follow_ups.messages
      ≡ a.steering.messages ++ a.follow_ups.messages
  pub goes_on : out.0.0 ≢ [] → out.1.accepting ≡ a.accepting

answer :
    (a : Agent) (mode : QueueMode) (st fo : List Message)
    → IsAnswer (with_queues a mode st fo) (next_queued (with_queues a mode st fo))
answer a mode (m ∷ st) fo = rw (next_steering a mode m st fo) (record {
  done = λ e. cc e;
  split = ap (λ l. l ++ fo) (append-nil (m ∷ st));
  goes_on = λ n. refl;
})
answer a one_at_a_time [] (m ∷ fo) =
    rw (next_one a m fo) (record { done = λ e. cc e; split = refl; goes_on = λ n. refl })
answer a all [] (m ∷ fo) = rw (next_all a m fo) (record {
  done = λ e. cc e;
  split = append-nil ((m ∷ fo) ++ []) ∙ append-nil (m ∷ fo);
  goes_on = λ n. refl;
})
answer a mode [] [] =
    rw (next_none a mode)
      (record { done = λ e. (refl, (refl, refl)); split = refl; goes_on = λ n. absurd (n refl) })

-- What `nextQueued` hands to the next turn, followed by what the queues keep, is what they had, the
-- steering before the follow-ups; and where it hands out nothing, both queues are empty and the
-- agent accepts no more messages, so none is accepted that no turn will take.
pub next_queued-IsAnswer : (a : Agent) → IsAnswer a (next_queued a)
next_queued-IsAnswer a = answer a a.mode a.steering.messages a.follow_ups.messages
