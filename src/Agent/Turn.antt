-- ===== src/Agent/Turn.antt =====
-- internal/agent/agent.go, with the compaction in the middle of a turn of response.go and
-- compaction.go: one turn of a run. What the model, the tools, the store and the users do is a list
-- of rounds, one for each pass of the turn's loop; events, logs and timeouts are left out.
pub mod Agree
pub mod Compacting
pub mod Restore
use eika.Common.{
  ℕ, zero, suc, ◌+◌, ◌-◌, min, Bool, true, false, String, str_eq, str_append, Option, none, some,
  List, [], ◌∷◌, ◌++◌, length, drop, ltb, ◌&&◌, ◌||◌, if◌then◌else◌,
}
use eika.Common.Int.{pos}
use eika.Provider.{Message, ToolCall, MessageMetrics, tool_result_message}
use eika.Agent.Queue.{Queue, push, unshift}
use eika.Agent.Conversation.{Conversation, append, truncate, len}
use eika.Agent.Compacted.{Compaction, compacted}
use eika.Agent.Plan.{CompactionPlan, plan_compaction, compact_next}
use eika.Agent.Accept.{
  Agent, Origin, steering_queue, follow_up_queue, drain_steering, steer, follow_up, next_queued,
  open_queues, close_queues,
}

-- What a run hands to its store.
pub data Write : Type 0 where
  message : Message → Write
  compaction : Compaction → Write

-- The agent, the conversation and what is stored of it, and the variables of `turn`.
pub record Turn : Type 0 where
  pub agent : Agent
  pub conversation : Conversation
  pub log : List Write
  pub pending : List Message
  pub pending_mark : Option ℕ
  pub msgs : List Message
  pub origin : Option Origin
  pub steered : List Message

-- A summary that the model made, and whether the store takes it.
pub record Summary : Type 0 where
  pub sizes : List ℕ
  pub keep : ℕ
  pub made : Compaction
  pub stored : Bool

pub data ToolRun : Type 0 where
  cancelled failed : String → ToolRun
  returned : String → Bool → Bool → ToolRun

pub data Reply : Type 0 where
  no_reply : Reply
  replied : Message → Option MessageMetrics → Reply

-- The users queue messages at any time; those that `arrived` came before the pass takes the steering,
-- and the others `meanwhile`, before the model replies.
pub record Round : Type 0 where
  pub arrived : List (Origin × Message)
  pub meanwhile : List (Origin × Message)
  pub cancelled_before : Bool
  pub summaries : List Summary
  pub reply : Reply
  pub pending_stored : ℕ → Bool
  pub reply_stored : Bool
  pub tools : ℕ → ToolRun
  pub abandoned_stored : ℕ → Bool

pub data Outcome : Type 0 where
  finished failed_turn running : Outcome

unfoldable pub add_pending : Turn → Message → Turn
unfolding append len
add_pending t m = record t {
  pending_mark = elim t.pending_mark [ none ↦ some (len t.conversation) | some n ↦ some n ];
  conversation = append t.conversation m;
  pending = t.pending ++ m ∷ [];
}

abbrev pub add_all : Turn → List Message → Turn
add_all t [] = t
add_all t (m ∷ ms) = add_all (add_pending t m) ms

-- `q.unshift(msgs)`, for one of the agent's queues
abbrev pub put_back : Agent → Origin → List Message → Agent
put_back a steering_queue msgs = record a { steering = unshift a.steering msgs }
put_back a follow_up_queue msgs = record a { follow_ups = unshift a.follow_ups msgs }

abbrev pub restored_origin : Turn → ℕ → Agent
restored_origin t stored =
    let origin_stored = min stored (length t.msgs) in
    elim t.origin [
      | none ↦ t.agent
      | some q ↦
          if ltb origin_stored (length t.msgs)
          then put_back t.agent q (drop origin_stored t.msgs)
          else t.agent
    ]

abbrev pub restored_agent : Turn → ℕ → Agent
restored_agent t stored =
    let a = restored_origin t stored in
    let steering_stored = stored - length t.msgs in
    if ltb steering_stored (length t.steered)
    then put_back a steering_queue (drop steering_stored t.steered)
    else a

abbrev pub restored_conversation : Conversation → Option ℕ → ℕ → Conversation
restored_conversation c none stored = c
restored_conversation c (some n) stored = truncate c (pos (n + stored))

unfoldable pub restore_from : Turn → ℕ → Turn
unfolding unshift truncate
restore_from t stored = record t {
  conversation = restored_conversation t.conversation t.pending_mark stored;
  pending = [];
  pending_mark = none;
  agent = restored_agent t stored;
  msgs = [];
  steered = [];
  origin = none;
}

-- `a.append`
unfoldable pub append_message : Turn → Message → Bool → Turn
unfolding append
append_message t m stored =
    if stored
    then record t { log = t.log ++ message m ∷ []; conversation = append t.conversation m }
    else t

-- The steering that arrived: the lists of `msgs` and `steered` are in the conversation in this order.
unfoldable pub add_steering : Turn → Turn
unfolding drain_steering add_pending
add_steering t =
    let (ms, a) = drain_steering t.agent in
    let t' = add_all (record t { agent = a }) ms in record t' { steered = t.steered ++ ms }

-- How many messages `autoCompact` says are stored.
abbrev pub stored_of : Turn → ℕ
stored_of t = elim t.pending_mark [ none ↦ len t.conversation | some n ↦ n ]

-- The end of `compact`, where there is a plan and a summary.
abbrev pub replace_compacted : Turn → CompactionPlan → Compaction → Turn
replace_compacted t p made =
    let kept = p.stored - p.first in
    record t {
      log = t.log ++ compaction (record made { kept = pos kept }) ∷ [];
      conversation = record { messages = compact_next t.conversation.messages p made };
      pending_mark = elim t.pending_mark [ none ↦ none | some n ↦ some (kept + 1) ];
    }

-- `autoCompact`, which changes nothing where it fails.
unfoldable pub auto_compact : Turn → Summary → Turn
unfolding len plan_compaction compact_next
auto_compact t s =
    let (p, found) = plan_compaction t.conversation.messages s.sizes (stored_of t) s.keep in
    if found && s.stored then replace_compacted t p s.made else t

abbrev pub compact_all : Turn → List Summary → Turn
compact_all t [] = t
compact_all t (s ∷ ss) = compact_all (auto_compact t s) ss

-- The loop that stores the pending messages from the `i`-th on, and whether it stores them all.
unfoldable pub store_pending : Turn → (ℕ → Bool) → ℕ → List Message → Turn × Bool
unfolding restore_from
store_pending t accepts i [] =
    (record t { pending = []; pending_mark = none; msgs = []; steered = []; origin = none }, true)
store_pending t accepts i (m ∷ ms) =
    let rest = store_pending (record t { log = t.log ++ message m ∷ [] }) accepts (suc i) ms in
    if accepts i then rest else (restore_from t i, false)

abbrev pub stopped_text : String → String
stopped_text cause = str_append "the run stopped before this tool call finished: " cause

unfoldable pub abandon_tool_calls : Turn → (ℕ → Bool) → String → ℕ → List ToolCall → Turn
unfolding append_message
abandon_tool_calls t accepts cause i [] = t
abandon_tool_calls t accepts cause i (c ∷ cs) =
    abandon_tool_calls
      (append_message t (tool_result_message c.id (stopped_text cause) true) (accepts i)) accepts
      cause (suc i) cs

-- The loop over the tool calls from the `i`-th on, and whether it answers them all itself.
unfoldable pub run_tools : Turn → Round → ℕ → List ToolCall → Turn × Bool
unfolding append_message abandon_tool_calls
run_tools t r i [] = (t, true)
run_tools t r i (c ∷ cs) = elim (r.tools i) [
  | cancelled cause ↦ (abandon_tool_calls t r.abandoned_stored cause i (c ∷ cs), false)
  | failed cause ↦ (abandon_tool_calls t r.abandoned_stored cause i (c ∷ cs), false)
  | returned content is_error stored ↦
      (let rest =
          run_tools (append_message t (tool_result_message c.id content is_error) true) r (suc i)
            cs in
        if stored
        then rest
        else (abandon_tool_calls t r.abandoned_stored "store message" i (c ∷ cs), false))
]
