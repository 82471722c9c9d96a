-- ===== src/Agent/Rounds/Answered.antt =====
-- internal/agent/agent.go: every tool call that a run stores gets a result, with the pending calls of
-- internal/session/resume.go.
use eika.Common.{
  ℕ, suc, Bool, true, false, String, Option, none, some, List, [], ◌∷◌, ◌++◌, ◌||◌, if◌then◌else◌,
  All, ◌≡◌, refl, sym, ap, ◌∙◌,
}
use eika.Provider.{Message, MessageMetrics, ToolCall, is_tool}
use eika.Session.Resume.{pending_after}
use eika.Agent.Turn.{
  Turn, message, Round, Reply, Outcome, no_reply, replied, finished, failed_turn, running,
  restore_from, append_message, store_pending, run_tools,
}
use eika.Agent.Rounds.{with_metrics, is_empty, finish_round, end_round}
use eika.Agent.Rounds.Pending.{
  open_calls, open_calls-snoc, ids, IsClosed, either-IsClosed, run_tools-open_calls,
  reply-open_calls, empty-no_calls,
}

finish_round-IsClosed :
    (t : Turn) (r : Round) (m : Message)
    → is_tool m.role ≡ false
    → ((k : ℕ) → r.abandoned_stored k ≡ true)
    → IsClosed t
    → IsClosed (finish_round t r m).0
unfolding finish_round
finish_round-IsClosed t r m n h s = step (is_empty m) refl r.reply_stored
  where
    replied_turn : Bool → Bool → Turn
    replied_turn b k = if b then t else append_message t m k

    calls :
        (t' : Turn) (cs : List ToolCall)
        → open_calls [] t'.log ≡ ids cs
        → IsClosed
            (elim cs as (λ _. Turn × Outcome) [
              | [] ↦ (t', finished)
              | c ∷ cs ↦ (
                (run_tools t' r 0 (c ∷ cs)).0,
                if (run_tools t' r 0 (c ∷ cs)).1 then running else failed_turn,
              )
            ]).0
    calls t' [] e = e
    calls t' (c ∷ cs) e = run_tools-open_calls t' r 0 (c ∷ cs) h e

    stored : open_calls [] (append_message t m true).log ≡ ids m.tool_calls
    stored =
        open_calls-snoc [] t.log m
        ∙ ap (λ l. pending_after l m) s
        ∙ reply-open_calls m m.tool_calls n

    step :
        (b : Bool)
        → is_empty m ≡ b
        → (k : Bool)
        → IsClosed
            (if b || k
              then elim m.tool_calls as (λ _. Turn × Outcome) [
                | [] ↦ (replied_turn b k, finished)
                | c ∷ cs ↦ (
                  (run_tools (replied_turn b k) r 0 (c ∷ cs)).0,
                  if (run_tools (replied_turn b k) r 0 (c ∷ cs)).1 then running else failed_turn,
                )
              ]
              else (replied_turn b k, failed_turn)).0
    step true e k = calls t m.tool_calls (s ∙ sym (ap ids (empty-no_calls m e)))
    step false e true = calls (append_message t m true) m.tool_calls stored
    step false e false = s

-- A message that a user queued: neither a tool result nor a message with calls.
pub record IsPlain (m : Message) : Type 0 where
  pub no_result : is_tool m.role ≡ false
  pub no_calls : m.tool_calls ≡ []

plain-pending_after :
    (calls : List String) (m : Message) → IsPlain m → pending_after calls m ≡ calls
unfolding pending_after
plain-pending_after calls m p = rw (p.no_calls, p.no_result)

store_pending-IsClosed :
    (t : Turn) (accepts : ℕ → Bool) (i : ℕ) (ms : List Message)
    → All IsPlain ms
    → IsClosed t
    → IsClosed (store_pending t accepts i ms).0
unfolding store_pending restore_from
store_pending-IsClosed t accepts i [] p s = s
store_pending-IsClosed t accepts i (m ∷ ms) p s =
    either-IsClosed (accepts i)
      (store_pending (record t { log = t.log ++ message m ∷ [] }) accepts (suc i) ms)
      (restore_from t i, false)
      (store_pending-IsClosed (record t { log = t.log ++ message m ∷ [] }) accepts (suc i) ms p.1
        (open_calls-snoc [] t.log m ∙ plain-pending_after (open_calls [] t.log) m p.0 ∙ s))
      s

metrics-no_result :
    (m : Message) (k : Option MessageMetrics)
    → is_tool m.role ≡ false
    → is_tool (with_metrics m k).role ≡ false
metrics-no_result m none h = h
metrics-no_result m (some k) h = h

-- No reply of the model is a tool result.
abbrev pub IsFromModel : Reply → Type 0
IsFromModel no_reply = Unit
IsFromModel (replied m metrics) = is_tool m.role ≡ false

-- When no stored call is open before a model call, none is open after it and the tools that it
-- asked for, however that goes: whether the model fails, the run is cancelled, a tool fails, or the
-- store refuses a queued message, the reply or a tool's result. The store takes the results that
-- stand for calls which never ran, and what was queued are users' messages.
pub end_round-IsClosed :
    (t : Turn) (r : Round)
    → All IsPlain t.pending
    → IsFromModel r.reply
    → ((k : ℕ) → r.abandoned_stored k ≡ true)
    → open_calls [] t.log ≡ []
    → open_calls [] (end_round t r).0.log ≡ []
unfolding restore_from
end_round-IsClosed t r p f h s = step r.reply f
  where
    after :
        (x : Turn × Bool) (m : Message)
        → is_tool m.role ≡ false
        → IsClosed x.0
        → IsClosed (if x.1 then finish_round x.0 r m else (x.0, failed_turn)).0
    after (t', true) m n s = finish_round-IsClosed t' r m n h s
    after (t', false) m n s = s

    step :
        (x : Reply)
        → IsFromModel x
        → IsClosed
            (elim x as (λ _. Turn × Outcome) [
              | no_reply ↦ (restore_from t 0, failed_turn)
              | replied m metrics ↦
                  (let x = store_pending t r.pending_stored 0 t.pending in
                    if x.1 then finish_round x.0 r (with_metrics m metrics) else (x.0, failed_turn))
            ]).0
    step no_reply f = s
    step (replied m metrics) f =
        after (store_pending t r.pending_stored 0 t.pending) (with_metrics m metrics)
          (metrics-no_result m metrics f)
          (store_pending-IsClosed t r.pending_stored 0 t.pending p s)
