-- ===== src/Agent/Rounds/Pending.antt =====
-- internal/agent/agent.go: the stored tool calls that have no result yet.
use eika.Common.{
  ℕ, suc, Bool, true, false, String, str_eq_iff, List, [], ◌∷◌, ◌++◌, map, if◌then◌else◌, arith,
  ◌≡◌, refl, ap, ◌∙◌,
}
use eika.Provider.{Message, ToolCall, tool_result_message, is_tool}
use eika.Session.Resume.{pending_after, remove_first}
use eika.Agent.Turn.{
  Turn, Write, message, compaction, Round, ToolRun, cancelled, failed, returned, append_message,
  stopped_text, abandon_tool_calls, run_tools,
}
use eika.Agent.Rounds.{is_empty}

-- The ids of the stored calls that have no stored result.
abbrev pub open_calls : List String → List Write → List String
open_calls calls [] = calls
open_calls calls (message m ∷ ws) = open_calls (pending_after calls m) ws
open_calls calls (compaction c ∷ ws) = open_calls calls ws

pub open_calls-snoc :
    (calls : List String) (ws : List Write) (m : Message)
    → open_calls calls (ws ++ message m ∷ []) ≡ pending_after (open_calls calls ws) m
open_calls-snoc calls [] m = refl
open_calls-snoc calls (message n ∷ ws) m = open_calls-snoc (pending_after calls n) ws m
open_calls-snoc calls (compaction c ∷ ws) m = open_calls-snoc calls ws m

abbrev pub ids : List ToolCall → List String
ids cs = map (λ c. c.id) cs

answered_one :
    (id : String) (rest : List String) (content : String) (is_error : Bool)
    → pending_after (id ∷ rest) (tool_result_message id content is_error) ≡ rest
unfolding pending_after remove_first
answered_one id rest content is_error = ground (arith, str_eq_iff id id)

-- One call is answered.
answer-open_calls :
    (t : Turn) (c : ToolCall) (cs : List ToolCall) (content : String) (is_error : Bool)
    → open_calls [] t.log ≡ ids (c ∷ cs)
    → open_calls [] (append_message t (tool_result_message c.id content is_error) true).log ≡ ids cs
unfolding append_message
answer-open_calls t c cs content is_error e =
    open_calls-snoc [] t.log (tool_result_message c.id content is_error)
    ∙ ap (λ l. pending_after l (tool_result_message c.id content is_error)) e
    ∙ answered_one c.id (ids cs) content is_error

abandon-open_calls :
    (t : Turn) (accepts : ℕ → Bool) (cause : String) (i : ℕ) (cs : List ToolCall)
    → ((k : ℕ) → accepts k ≡ true)
    → open_calls [] t.log ≡ ids cs
    → open_calls [] (abandon_tool_calls t accepts cause i cs).log ≡ []
unfolding abandon_tool_calls
abandon-open_calls t accepts cause i [] h e = e
abandon-open_calls t accepts cause i (c ∷ cs) h e =
    let m = tool_result_message c.id (stopped_text cause) true in
    abandon-open_calls (append_message t m (accepts i)) accepts cause (suc i) cs h (
      ap (λ b. open_calls [] (append_message t m b).log) (h i)
      ∙ answer-open_calls t c cs (stopped_text cause) true e)

abbrev pub IsClosed : Turn → Type 0
IsClosed t = open_calls [] t.log ≡ []

pub either-IsClosed :
    {A : Type 0} (b : Bool) (x y : Turn × A)
    → IsClosed x.0
    → IsClosed y.0
    → IsClosed (if b then x else y).0
either-IsClosed true x y s k = s
either-IsClosed false x y s k = k

pub run_tools-open_calls :
    (t : Turn) (r : Round) (i : ℕ) (cs : List ToolCall)
    → ((k : ℕ) → r.abandoned_stored k ≡ true)
    → open_calls [] t.log ≡ ids cs
    → IsClosed (run_tools t r i cs).0
unfolding run_tools
run_tools-open_calls t r i [] h e = e
run_tools-open_calls t r i (c ∷ cs) h e = step (r.tools i) (λ content is_error.
    run_tools-open_calls (append_message t (tool_result_message c.id content is_error) true) r
      (suc i) cs h (answer-open_calls t c cs content is_error e))
  where
    abandoned :
        (cause : String) → IsClosed (abandon_tool_calls t r.abandoned_stored cause i (c ∷ cs))
    abandoned cause = abandon-open_calls t r.abandoned_stored cause i (c ∷ cs) h e

    next : String → Bool → Turn × Bool
    next content is_error =
        run_tools (append_message t (tool_result_message c.id content is_error) true) r (suc i) cs

    step :
        (x : ToolRun)
        → ((content : String) (is_error : Bool) → IsClosed (next content is_error).0)
        → IsClosed
            (elim x as (λ _. Turn × Bool) [
              | cancelled cause ↦ (abandon_tool_calls t r.abandoned_stored cause i (c ∷ cs), false)
              | failed cause ↦ (abandon_tool_calls t r.abandoned_stored cause i (c ∷ cs), false)
              | returned content is_error stored ↦
                  (if stored then next content is_error else (
                    abandon_tool_calls t r.abandoned_stored "store message" i (c ∷ cs),
                    false,
                  ))
            ]).0
    step (cancelled cause) k = abandoned cause
    step (failed cause) k = abandoned cause
    step (returned content is_error stored) k =
        either-IsClosed stored (next content is_error)
          (abandon_tool_calls t r.abandoned_stored "store message" i (c ∷ cs), false)
          (k content is_error) (abandoned "store message")

-- A reply that is no tool result leaves its own calls open.
pub reply-open_calls :
    (m : Message) (cs : List ToolCall)
    → is_tool m.role ≡ false
    → pending_after [] (record m { tool_calls = cs }) ≡ ids cs
unfolding pending_after remove_first
reply-open_calls m [] h = rw h
reply-open_calls m (c ∷ cs) h = refl

pub empty-no_calls : (m : Message) → is_empty m ≡ true → m.tool_calls ≡ []
empty-no_calls m h = ground arith
