-- ===== src/Tests/Agent.antt =====
-- Runs of internal/agent.
use eika.Common.{◌≡◌, ◌++◌, refl, List, [], ◌∷◌}
use eika.Common.Int.{pos}
use eika.Provider.{Message, user_message}
use eika.Agent.Queue.{
  Queue, Op, enqueue, dequeue, run, enqueued, run_fifo, unshift, take_front, unshift-take_front,
  push,
}
use eika.Agent.Conversation.{Conversation, append_all, truncate, len, truncate-append_all}

abbrev m1 : Message
m1 = user_message "first"

abbrev m2 : Message
m2 = user_message "second"

abbrev one_waiting : Queue
one_waiting = record { messages = m1 ∷ [] }

abbrev ops : List Op
ops = enqueue m2 ∷ dequeue (pos 1) ∷ enqueue m1 ∷ dequeue (pos 0) ∷ []

run_fifo_example :
    (run one_waiting ops).0 ++ (run one_waiting ops).1.messages
    ≡ one_waiting.messages ++ enqueued ops
run_fifo_example = run_fifo one_waiting ops

run-ops : (run one_waiting ops).0 ≡ m1 ∷ m2 ∷ m1 ∷ []
unfolding run push take_front
run-ops = refl

unshift-take_front_example :
    unshift (take_front one_waiting (pos 1)).1 (take_front one_waiting (pos 1)).0 ≡ one_waiting
unshift-take_front_example = unshift-take_front one_waiting (pos 1)

abbrev talk : Conversation
talk = record { messages = m1 ∷ [] }

truncate-append_all_example : truncate (append_all talk (m2 ∷ [])) (pos (len talk)) ≡ talk
truncate-append_all_example = truncate-append_all talk (m2 ∷ [])
