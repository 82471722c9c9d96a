-- ===== src/Agent/Rounds.antt =====
-- internal/agent/agent.go: the loop of a turn and the loop of a run, over the steps of `Turn`.
pub mod Agree
pub mod Answered
pub mod Pending
use eika.Common.{
  ℕ, zero, suc, ◌+◌, Bool, true, false, String, str_eq, Option, none, some, List, [], ◌∷◌, ◌++◌,
  ◌&&◌, ◌||◌, if◌then◌else◌,
}
use eika.Provider.{Message, MessageMetrics}
use eika.Agent.Conversation.{Conversation}
use eika.Agent.Accept.{
  Agent, Origin, steering_queue, follow_up_queue, steer, follow_up, next_queued, open_queues,
  close_queues,
}
use eika.Agent.Turn.{
  Turn, Write, Round, Reply, Outcome, no_reply, replied, finished, failed_turn, running,
  add_pending, add_all, add_steering, restore_from, append_message, auto_compact, compact_all,
  store_pending, run_tools,
}

abbrev pub is_nil {ℓ} : {A : Type ℓ} → List A → Bool
is_nil [] = true
is_nil (x ∷ xs) = false

-- `empty`
abbrev pub is_empty : Message → Bool
is_empty m = str_eq m.content "" && (str_eq m.reasoning "" && is_nil m.tool_calls)

abbrev pub with_metrics : Message → Option MessageMetrics → Message
with_metrics m none = m
with_metrics m (some k) = record m { metrics = some k }

-- From the reply on: it is stored unless it is empty, and then its tool calls run.
unfoldable pub finish_round : Turn → Round → Message → Turn × Outcome
unfolding append_message run_tools
finish_round t r reply =
    let t' = if is_empty reply then t else append_message t reply r.reply_stored in
    if is_empty reply || r.reply_stored
    then elim reply.tool_calls [
      | [] ↦ (t', finished)
      | c ∷ cs ↦
          (let (t'', answered) = run_tools t' r 0 (c ∷ cs) in
            (t'', if answered then running else failed_turn))
    ]
    else (t', failed_turn)

-- `Steer` and `FollowUp`
abbrev pub queue_all : Agent → List (Origin × Message) → Agent
queue_all a [] = a
queue_all a ((steering_queue, m) ∷ ms) = queue_all (steer a m).0 ms
queue_all a ((follow_up_queue, m) ∷ ms) = queue_all (follow_up a m).0 ms

abbrev pub arrive : Turn → List (Origin × Message) → Turn
arrive t ms = record t { agent = queue_all t.agent ms }

-- After the model call.
abbrev pub end_round : Turn → Round → Turn × Outcome
end_round t r = elim r.reply [
  | no_reply ↦ (restore_from t 0, failed_turn)
  | replied m metrics ↦
      (let (t', stored) = store_pending t r.pending_stored 0 t.pending in
        if stored then finish_round t' r (with_metrics m metrics) else (t', failed_turn))
]

-- One pass of the loop.
unfoldable pub round : Turn → Round → Turn × Outcome
unfolding add_steering steer follow_up restore_from auto_compact store_pending finish_round
round t r =
    let t' = add_steering (arrive t r.arrived) in
    if r.cancelled_before
    then (restore_from t' 0, failed_turn)
    else end_round (compact_all (arrive t' r.meanwhile) r.summaries) r

abbrev pub go_on : Outcome → Turn × Outcome → Turn → Turn × Outcome
go_on running rest t = rest
go_on finished rest t = (t, finished)
go_on failed_turn rest t = (t, failed_turn)

-- The loop, for as many passes as there are rounds; `running` says that the turn goes on after them.
unfoldable pub rounds : Turn → List Round → Turn × Outcome
unfolding round
rounds t [] = (t, running)
rounds t (r ∷ rs) = let (t', o) = round t r in let rest = rounds t' rs in go_on o rest t'

-- The variables of a turn that begins with `msgs`, taken from `origin`.
unfoldable pub start_turn : Agent → Conversation → List Write → List Message → Option Origin → Turn
unfolding add_pending
start_turn a c log msgs origin =
    add_all
      (record {
        agent = a;
        conversation = c;
        log = log;
        pending = [];
        pending_mark = none;
        msgs = msgs;
        origin = origin;
        steered = [];
      })
      msgs

-- The loop of `Run`, a list of rounds for each turn; the last turn may still be running.
unfoldable pub run_turns :
    Agent
    → Conversation
    → List Write
    → List Message
    → Option Origin
    → List (List Round)
    → Turn × Outcome
unfolding start_turn rounds next_queued
run_turns a c log msgs origin [] = (start_turn a c log msgs origin, running)
run_turns a c log msgs origin (rs ∷ rss) =
    let (t, o) = rounds (start_turn a c log msgs origin) rs in
    let ((next, from), a') = next_queued t.agent in
    let rest = run_turns a' t.conversation t.log next from rss in
    elim o [
      | running ↦ (t, running)
      | failed_turn ↦ (record t { agent = close_queues t.agent }, failed_turn)
      | finished ↦ (if is_nil next then (record t { agent = close_queues a' }, finished) else rest)
    ]

-- `Run`, whose message may be empty.
unfoldable pub run :
    Agent → Conversation → List Write → Message → List (List Round) → Turn × Outcome
unfolding run_turns open_queues
run a c log m rss =
    let none_given = str_eq m.content "" && is_nil m.images in
    run_turns (open_queues a) c log (if none_given then [] else m ∷ []) none rss
