-- ===== src/Tests/Run.antt =====
-- Runs of the loop of internal/agent/agent.go.
use eika.Common.{◌≡◌, ◌≢◌, refl, true, false, none, some, List, [], ◌∷◌}
use eika.Provider.{Message, ToolCall, user_message, assistant_message}
use eika.Agent.Queue.{one_at_a_time}
use eika.Agent.Conversation.{Conversation}
use eika.Agent.Accept.{
  Agent, steering_queue, follow_up_queue, next_queued, IsAnswer, next_queued-IsAnswer, close_queues,
}
use eika.Agent.Turn.{
  Turn, Round, Reply, replied, no_reply, cancelled, returned, failed_turn, running, restore_from,
}
use eika.Agent.Turn.Agree.{replay}
use eika.Agent.Turn.Restore.{IsRestored, restore_from-IsRestored}
use eika.Agent.Rounds.{run, end_round}
use eika.Agent.Rounds.Agree.{run-conversation}
use eika.Agent.Rounds.Answered.{end_round-IsClosed}
use eika.Agent.Rounds.Pending.{open_calls}

abbrev ask : Message
ask = user_message "list the files"

abbrev hurry : Message
hurry = user_message "be quick"

abbrev later : Message
later = user_message "now sort them"

abbrev call_one : ToolCall
call_one = record { id = "c1"; name = "bash"; arguments = "{}" }

abbrev idle_agent : Agent
idle_agent = record {
  steering = record { messages = [] };
  follow_ups = record { messages = [] };
  mode = one_at_a_time;
  accepting = false;
}

abbrev quiet : Reply → Round
quiet reply = record {
  arrived = [];
  meanwhile = [];
  cancelled_before = false;
  summaries = [];
  reply = reply;
  pending_stored = λ i. true;
  reply_stored = true;
  tools = λ i. returned "a b c" false true;
  abandoned_stored = λ i. true;
}

abbrev with_tool : Round
with_tool = record (quiet (replied (assistant_message "" (call_one ∷ [])) none)) {
  meanwhile = (steering_queue, hurry) ∷ (follow_up_queue, later) ∷ [];
}

abbrev answered : Round
answered = quiet (replied (assistant_message "done" []) none)

-- A turn with a tool call and steering, then a turn with the follow-up, whose model call fails.
abbrev two_turns : List (List Round)
two_turns = (with_tool ∷ answered ∷ []) ∷ (quiet no_reply ∷ []) ∷ []

abbrev nothing_said : Conversation
nothing_said = record { messages = [] }

run-outcome : (run idle_agent nothing_said [] ask two_turns).1 ≡ failed_turn
unfolding run
run-outcome = refl

-- The follow-up is back in its queue.
run-follow_ups :
    (run idle_agent nothing_said [] ask two_turns).0.agent.follow_ups.messages ≡ later ∷ []
unfolding run restore_from close_queues
run-follow_ups = refl

over : (run idle_agent nothing_said [] ask two_turns).1 ≢ running
over e = cc (run-outcome, e)

run-conversation_example :
    (run idle_agent nothing_said [] ask two_turns).0.conversation.messages
    ≡ replay [] (run idle_agent nothing_said [] ask two_turns).0.log
run-conversation_example = run-conversation idle_agent nothing_said [] ask two_turns refl over

abbrev asked : Turn
asked = record {
  agent = idle_agent;
  conversation = record { messages = ask ∷ [] };
  log = [];
  pending = ask ∷ [];
  pending_mark = some 0;
  msgs = ask ∷ [];
  origin = some steering_queue;
  steered = [];
}

-- The run is cancelled before the tool runs.
abbrev stopped : Round
stopped = record with_tool { tools = λ i. cancelled "context canceled" }

end_round-IsClosed_example : open_calls [] (end_round asked stopped).0.log ≡ []
end_round-IsClosed_example =
    end_round-IsClosed asked stopped (record { no_result = refl; no_calls = refl }, tt) refl
      (λ k. refl) refl

-- The turn began with one steering message, and took in another.
abbrev steered_on : Turn
steered_on = record asked {
  conversation = record { messages = ask ∷ hurry ∷ [] };
  pending = ask ∷ hurry ∷ [];
  steered = hurry ∷ [];
}

-- The later one comes out in front.
restored_order : (restore_from steered_on 0).agent.steering.messages ≡ hurry ∷ ask ∷ []
unfolding restore_from
restored_order = refl

restore_from-IsRestored_example : IsRestored steered_on 0 (restore_from steered_on 0).agent
restore_from-IsRestored_example = restore_from-IsRestored steered_on 0

abbrev waiting : Agent
waiting = record idle_agent { follow_ups = record { messages = later ∷ hurry ∷ [] } }

next_queued-IsAnswer_example : IsAnswer waiting (next_queued waiting)
next_queued-IsAnswer_example = next_queued-IsAnswer waiting
