-- ===== src/Agent/Rounds/Agree.antt =====
-- internal/agent/agent.go: what a run leaves in memory and in the store.
use eika.Common.{
  str_eq, ◌&&◌, Bool, true, false, Option, none, List, [], ◌∷◌, ◌||◌, if◌then◌else◌, ◌≡◌, ◌≢◌, refl,
  sym, ◌∙◌, append-nil,
}
use eika.Provider.{Message, ToolCall}
use eika.Agent.Conversation.{Conversation}
use eika.Agent.Accept.{Agent, Origin, next_queued, close_queues, open_queues}
use eika.Agent.Turn.{
  Turn, Write, Round, Reply, Outcome, no_reply, replied, finished, failed_turn, running,
  add_steering, restore_from, append_message, compact_all, store_pending, run_tools,
}
use eika.Agent.Turn.Agree.{
  replay, IsAgreeing, IsSettled, IsSettled-IsAgreeing, add_all-IsAgreeing, add_steering-IsAgreeing,
  restore_from-IsSettled, append_message-IsSettled, store_pending-IsSettled, run_tools-IsSettled,
}
use eika.Agent.Turn.Compacting.{compact_all-IsAgreeing}
use eika.Agent.Rounds.{
  with_metrics, is_empty, is_nil, finish_round, arrive, end_round, round, go_on, rounds, start_turn,
  run_turns, run,
}

with_reply-IsSettled :
    (t : Turn) (b : Bool) (m : Message) (stored : Bool)
    → IsSettled t
    → IsSettled (if b then t else append_message t m stored)
with_reply-IsSettled t true m stored s = s
with_reply-IsSettled t false m stored s = append_message-IsSettled t m stored s

finish_round-IsSettled :
    (t : Turn) (r : Round) (reply : Message) → IsSettled t → IsSettled (finish_round t r reply).0
unfolding finish_round
finish_round-IsSettled t r reply s =
    step (is_empty reply || r.reply_stored) reply.tool_calls
      (with_reply-IsSettled t (is_empty reply) reply r.reply_stored s)
  where
    t' : Turn
    t' = if is_empty reply then t else append_message t reply r.reply_stored

    step :
        (b : Bool) (cs : List ToolCall)
        → IsSettled t'
        → IsSettled
            (if b
              then elim cs as (λ _. Turn × Outcome) [
                | [] ↦ (t', finished)
                | c ∷ cs ↦ (
                  (run_tools t' r 0 (c ∷ cs)).0,
                  if (run_tools t' r 0 (c ∷ cs)).1 then running else failed_turn,
                )
              ]
              else (t', failed_turn)).0
    step false cs s = s
    step true [] s = s
    step true (c ∷ cs) s = run_tools-IsSettled t' r 0 (c ∷ cs) s

end_round-IsSettled : (t : Turn) (r : Round) → IsAgreeing t → IsSettled (end_round t r).0
end_round-IsSettled t r a = step r.reply
  where
    after :
        (x : Turn × Bool) (m : Message)
        → IsSettled x.0
        → IsSettled (if x.1 then finish_round x.0 r m else (x.0, failed_turn)).0
    after (t', true) m s = finish_round-IsSettled t' r m s
    after (t', false) m s = s

    step :
        (x : Reply)
        → IsSettled
            (elim x as (λ _. Turn × Outcome) [
              | no_reply ↦ (restore_from t 0, failed_turn)
              | replied m metrics ↦
                  (let x = store_pending t r.pending_stored 0 t.pending in
                    if x.1 then finish_round x.0 r (with_metrics m metrics) else (x.0, failed_turn))
            ]).0
    step no_reply = restore_from-IsSettled t 0 t.pending a
    step (replied m metrics) =
        after (store_pending t r.pending_stored 0 t.pending) (with_metrics m metrics)
          (store_pending-IsSettled t r.pending_stored 0 t.pending a)

arrive-IsAgreeing :
    (t : Turn) (ms : List (Origin × Message)) → IsAgreeing t → IsAgreeing (arrive t ms)
arrive-IsAgreeing t ms a = record { conversation = a.conversation; mark = a.mark }

round-IsSettled : (t : Turn) (r : Round) → IsAgreeing t → IsSettled (round t r).0
unfolding round
round-IsSettled t r a = step r.cancelled_before
  where
    t' : Turn
    t' = add_steering (arrive t r.arrived)

    a' : IsAgreeing t'
    a' = add_steering-IsAgreeing (arrive t r.arrived) (arrive-IsAgreeing t r.arrived a)

    step :
        (b : Bool)
        → IsSettled
            (if b
              then (restore_from t' 0, failed_turn)
              else end_round (compact_all (arrive t' r.meanwhile) r.summaries) r).0
    step true = restore_from-IsSettled t' 0 t'.pending a'
    step false = end_round-IsSettled (compact_all (arrive t' r.meanwhile) r.summaries) r (
        compact_all-IsAgreeing (arrive t' r.meanwhile) r.summaries
          (arrive-IsAgreeing t' r.meanwhile a'))

-- Settled when the turn is over, in agreement while it goes on.
abbrev IsEnd : Turn × Outcome → Type 0
IsEnd (t, running) = IsAgreeing t
IsEnd (t, finished) = IsSettled t
IsEnd (t, failed_turn) = IsSettled t

rounds-IsEnd : (t : Turn) (rs : List Round) → IsAgreeing t → IsEnd (rounds t rs)
unfolding rounds
rounds-IsEnd t [] a = a
rounds-IsEnd t (r ∷ rs) a =
    let s = round-IsSettled t r a in
    step (round t r).1 s (rounds-IsEnd (round t r).0 rs (IsSettled-IsAgreeing (round t r).0 s))
  where
    step :
        (o : Outcome)
        → IsSettled (round t r).0
        → IsEnd (rounds (round t r).0 rs)
        → IsEnd (go_on o (rounds (round t r).0 rs) (round t r).0)
    step running s k = k
    step finished s k = s
    step failed_turn s k = s

start_turn-IsAgreeing :
    (a : Agent) (c : Conversation) (log : List Write) (msgs : List Message) (o : Option Origin)
    → c.messages ≡ replay [] log
    → IsAgreeing (start_turn a c log msgs o)
unfolding start_turn
start_turn-IsAgreeing a c log msgs o e =
    let t : Turn = record {
      agent = a;
      conversation = c;
      log = log;
      pending = [];
      pending_mark = none;
      msgs = msgs;
      origin = o;
      steered = [];
    } in
    add_all-IsAgreeing t msgs
      (record { conversation = e ∙ sym (append-nil (replay [] log)); mark = refl })

run_turns-IsEnd :
    (a : Agent) (c : Conversation) (log : List Write) (msgs : List Message) (o : Option Origin)
    (rss : List (List Round))
    → c.messages ≡ replay [] log
    → IsEnd (run_turns a c log msgs o rss)
unfolding run_turns
run_turns-IsEnd a c log msgs o [] e = start_turn-IsAgreeing a c log msgs o e
run_turns-IsEnd a c log msgs o (rs ∷ rss) e =
    step (rounds (start_turn a c log msgs o) rs)
      (rounds-IsEnd (start_turn a c log msgs o) rs (start_turn-IsAgreeing a c log msgs o e))
      (λ a c log msgs o e. run_turns-IsEnd a c log msgs o rss e)
  where
    goes_on : Turn → Turn × Outcome
    goes_on t = let x = next_queued t.agent in run_turns x.1 t.conversation t.log x.0.0 x.0.1 rss

    next :
        (b : Bool) (t : Turn) (rest : Turn × Outcome)
        → IsSettled t
        → IsEnd rest
        → IsEnd (
            if b
            then (record t { agent = close_queues (next_queued t.agent).1 }, finished)
            else rest)
    next true t rest s k = record {
      conversation = s.conversation;
      no_pending = s.no_pending;
      no_mark = s.no_mark;
    }
    next false t rest s k = k

    step :
        (x : Turn × Outcome)
        → IsEnd x
        → ((a : Agent) (c : Conversation) (log : List Write) (msgs : List Message)
              (o : Option Origin)
            → c.messages ≡ replay [] log
            → IsEnd (run_turns a c log msgs o rss))
        → IsEnd (elim x.1 as (λ _. Turn × Outcome) [
          | running ↦ (x.0, running)
          | failed_turn ↦ (record x.0 { agent = close_queues x.0.agent }, failed_turn)
          | finished ↦
              (if is_nil (next_queued x.0.agent).0.0
                then (record x.0 { agent = close_queues (next_queued x.0.agent).1 }, finished)
                else goes_on x.0)
        ])
    step (t, running) s k = s
    step (t, failed_turn) s k = record {
      conversation = s.conversation;
      no_pending = s.no_pending;
      no_mark = s.no_mark;
    }
    step (t, finished) s k =
        let x = next_queued t.agent in
        next (is_nil x.0.0) t (goes_on t) s (k x.1 t.conversation t.log x.0.0 x.0.1 s.conversation)

IsSettled-end : (x : Turn × Outcome) → x.1 ≢ running → IsEnd x → IsSettled x.0
IsSettled-end (t, running) n s = absurd (n refl)
IsSettled-end (t, finished) n s = s
IsSettled-end (t, failed_turn) n s = s

-- A run that starts with the conversation that the store's log replays to ends with such a
-- conversation, however it ends: with cancelled and failed calls, refused writes, abandoned tool
-- calls and compactions on the way.
pub run-conversation :
    (a : Agent) (c : Conversation) (log : List Write) (m : Message) (rss : List (List Round))
    → c.messages ≡ replay [] log
    → (run a c log m rss).1 ≢ running
    → (run a c log m rss).0.conversation.messages ≡ replay [] (run a c log m rss).0.log
unfolding run
run-conversation a c log m rss e n =
    let msgs = if str_eq m.content "" && is_nil m.images then [] else m ∷ [] in
    (IsSettled-end (run a c log m rss) n
      (run_turns-IsEnd (open_queues a) c log msgs none rss e)).conversation
