-- ===== src/Agent/Turn/Agree.antt =====
-- internal/agent/agent.go: each step of a turn keeps the conversation in agreement with the store.
use eika.Common.{
  String, ℕ, suc, ◌+◌, Bool, true, false, Option, none, some, List, [], ◌∷◌, ◌++◌, length,
  append-nil, append_assoc, length-append, if◌then◌else◌, arith, ◌≡◌, refl, sym, ap, ◌∙◌,
}
use eika.Common.Int.{pos}
use eika.Provider.{Message, ToolCall, tool_result_message}
use eika.Agent.Conversation.{Conversation, append, truncate, len, take-append}
use eika.Agent.Compacted.{compacted}
use eika.Agent.Accept.{drain_steering}
use eika.Agent.Turn.{
  Turn, Write, message, compaction, Round, ToolRun, cancelled, failed, returned, add_pending,
  add_all, add_steering, restore_from, append_message, store_pending, stopped_text,
  abandon_tool_calls, run_tools, restored_conversation,
}

-- The conversation that the store's log of a session replays to.
abbrev pub replay_one : List Message → Write → List Message
replay_one c (message m) = c ++ m ∷ []
replay_one c (compaction k) = compacted c k

abbrev pub replay : List Message → List Write → List Message
replay c [] = c
replay c (w ∷ ws) = replay (replay_one c w) ws

pub replay-snoc :
    (c : List Message) (ws : List Write) (w : Write)
    → replay c (ws ++ w ∷ []) ≡ replay_one (replay c ws) w
replay-snoc c [] w = refl
replay-snoc c (v ∷ ws) w = replay-snoc (replay_one c v) ws w

-- Where the messages that are not stored begin, when `i` more have been stored since the mark.
abbrev pub IsMark : Option ℕ → ℕ → List Message → ℕ → Type 0
IsMark none i rest stored = rest ≡ []
IsMark (some n) i rest stored = n + i ≡ stored

-- The conversation is what the log replays to, then the messages that are not stored yet.
pub record IsStored (t : Turn) (i : ℕ) (rest : List Message) : Type 0 where
  pub conversation : t.conversation.messages ≡ replay [] t.log ++ rest
  pub mark : IsMark t.pending_mark i rest (length (replay [] t.log))

abbrev pub IsAgreeing : Turn → Type 0
IsAgreeing t = IsStored t 0 t.pending

-- The conversation is what the log replays to, and nothing waits to be stored.
pub record IsSettled (t : Turn) : Type 0 where
  pub conversation : t.conversation.messages ≡ replay [] t.log
  pub no_pending : t.pending ≡ []
  pub no_mark : t.pending_mark ≡ none

IsMark-of_none :
    (o : Option ℕ) (rest : List Message) (n : ℕ) → o ≡ none → rest ≡ [] → IsMark o 0 rest n
IsMark-of_none none rest n e r = r
IsMark-of_none (some k) rest n e r = cc e

pub IsSettled-IsAgreeing : (t : Turn) → IsSettled t → IsAgreeing t
IsSettled-IsAgreeing t s = record {
  conversation =
      s.conversation
      ∙ sym (append-nil (replay [] t.log))
      ∙ ap (λ l. replay [] t.log ++ l) (sym s.no_pending);
  mark = IsMark-of_none t.pending_mark t.pending (length (replay [] t.log)) s.no_mark s.no_pending;
}

IsMark-added :
    (o : Option ℕ) (rest : List Message) (c stored : ℕ) (m : Message)
    → c ≡ stored + length rest
    → IsMark o 0 rest stored
    → IsMark (elim o [ none ↦ some c | some n ↦ some n ]) 0 (rest ++ m ∷ []) stored
IsMark-added none rest c stored m e k = omega (arith, e, ap length k)
IsMark-added (some n) rest c stored m e k = k

pub add_pending-IsAgreeing : (t : Turn) (m : Message) → IsAgreeing t → IsAgreeing (add_pending t m)
unfolding add_pending append len
add_pending-IsAgreeing t m a = record {
  conversation =
      ap (λ l. l ++ m ∷ []) a.conversation ∙ append_assoc (replay [] t.log) t.pending (m ∷ []);
  mark =
      IsMark-added t.pending_mark t.pending (length t.conversation.messages)
        (length (replay [] t.log)) m
        (ap length a.conversation ∙ length-append (replay [] t.log) t.pending) a.mark;
}

pub add_all-IsAgreeing : (t : Turn) (ms : List Message) → IsAgreeing t → IsAgreeing (add_all t ms)
add_all-IsAgreeing t [] a = a
add_all-IsAgreeing t (m ∷ ms) a =
    add_all-IsAgreeing (add_pending t m) ms (add_pending-IsAgreeing t m a)

pub add_steering-IsAgreeing : (t : Turn) → IsAgreeing t → IsAgreeing (add_steering t)
unfolding add_steering
add_steering-IsAgreeing t a =
    let (ms, g) = drain_steering t.agent in
    let k =
      add_all-IsAgreeing (record t { agent = g }) ms
        (record { conversation = a.conversation; mark = a.mark }) in
    record { conversation = k.conversation; mark = k.mark }

truncate-prefix :
    (c : Conversation) (xs ys : List Message) (k : ℕ)
    → c.messages ≡ xs ++ ys
    → k ≡ length xs
    → (truncate c (pos k)).messages ≡ xs
unfolding truncate
truncate-prefix c xs [] k e h = ground (arith, append-nil xs, take-append xs [], ap length e)
truncate-prefix c xs (y ∷ ys) k e h =
    ground (arith, take-append xs (y ∷ ys), ap length e, length-append xs (y ∷ ys))

restored_messages :
    (c : Conversation) (o : Option ℕ) (i : ℕ) (xs rest : List Message)
    → c.messages ≡ xs ++ rest
    → IsMark o i rest (length xs)
    → (restored_conversation c o i).messages ≡ xs
restored_messages c none i xs rest e k = e ∙ ap (λ l. xs ++ l) k ∙ append-nil xs
restored_messages c (some n) i xs rest e k = truncate-prefix c xs rest (n + i) e k

-- Taking back what is not stored leaves the conversation that the log replays to.
pub restore_from-IsSettled :
    (t : Turn) (i : ℕ) (rest : List Message) → IsStored t i rest → IsSettled (restore_from t i)
unfolding restore_from
restore_from-IsSettled t i rest k = record {
  conversation =
      restored_messages t.conversation t.pending_mark i (replay [] t.log) rest k.conversation
        k.mark;
  no_pending = refl;
  no_mark = refl;
}

pub append_message-IsSettled :
    (t : Turn) (m : Message) (stored : Bool) → IsSettled t → IsSettled (append_message t m stored)
unfolding append_message append
append_message-IsSettled t m false s = s
append_message-IsSettled t m true s = record {
  conversation = ap (λ l. l ++ m ∷ []) s.conversation ∙ sym (replay-snoc [] t.log (message m));
  no_pending = s.no_pending;
  no_mark = s.no_mark;
}

either-IsSettled :
    (b : Bool) (x y : Turn × Bool)
    → IsSettled x.0
    → IsSettled y.0
    → IsSettled (if b then x else y).0
either-IsSettled true x y s k = s
either-IsSettled false x y s k = k

IsMark-next :
    (o : Option ℕ) (i : ℕ) (m : Message) (ms before after : List Message)
    → after ≡ before ++ m ∷ []
    → IsMark o i (m ∷ ms) (length before)
    → IsMark o (suc i) ms (length after)
IsMark-next none i m ms before after e k = cc k
IsMark-next (some n) i m ms before after e k =
    omega (arith, k, ap length e, length-append before (m ∷ []))

pub store_pending-IsSettled :
    (t : Turn) (accepts : ℕ → Bool) (i : ℕ) (ms : List Message)
    → IsStored t i ms
    → IsSettled (store_pending t accepts i ms).0
unfolding store_pending
store_pending-IsSettled t accepts i [] k = record {
  conversation = k.conversation ∙ append-nil (replay [] t.log);
  no_pending = refl;
  no_mark = refl;
}
store_pending-IsSettled t accepts i (m ∷ ms) k =
    either-IsSettled (accepts i)
      (store_pending (record t { log = t.log ++ message m ∷ [] }) accepts (suc i) ms)
      (restore_from t i, false)
      (store_pending-IsSettled (record t { log = t.log ++ message m ∷ [] }) accepts (suc i) ms
        (record {
          conversation =
              k.conversation
              ∙ sym (append_assoc (replay [] t.log) (m ∷ []) ms)
              ∙ ap (λ l. l ++ ms) (sym (replay-snoc [] t.log (message m)));
          mark =
              IsMark-next t.pending_mark i m ms (replay [] t.log)
                (replay [] (t.log ++ message m ∷ [])) (replay-snoc [] t.log (message m)) k.mark;
        }))
      (restore_from-IsSettled t i (m ∷ ms) k)

pub abandon_tool_calls-IsSettled :
    (t : Turn) (accepts : ℕ → Bool) (cause : String) (i : ℕ) (cs : List ToolCall)
    → IsSettled t
    → IsSettled (abandon_tool_calls t accepts cause i cs)
unfolding abandon_tool_calls
abandon_tool_calls-IsSettled t accepts cause i [] s = s
abandon_tool_calls-IsSettled t accepts cause i (c ∷ cs) s =
    let m = tool_result_message c.id (stopped_text cause) true in
    abandon_tool_calls-IsSettled (append_message t m (accepts i)) accepts cause (suc i) cs
      (append_message-IsSettled t m (accepts i) s)

pub run_tools-IsSettled :
    (t : Turn) (r : Round) (i : ℕ) (cs : List ToolCall)
    → IsSettled t
    → IsSettled (run_tools t r i cs).0
unfolding run_tools
run_tools-IsSettled t r i [] s = s
run_tools-IsSettled t r i (c ∷ cs) s = step (r.tools i) (λ content is_error.
    let m = tool_result_message c.id content is_error in
    run_tools-IsSettled (append_message t m true) r (suc i) cs
      (append_message-IsSettled t m true s))
  where
    abandoned :
        (cause : String) → IsSettled (abandon_tool_calls t r.abandoned_stored cause i (c ∷ cs))
    abandoned cause = abandon_tool_calls-IsSettled t r.abandoned_stored cause i (c ∷ cs) s

    next : String → Bool → Turn × Bool
    next content is_error =
        run_tools (append_message t (tool_result_message c.id content is_error) true) r (suc i) cs

    step :
        (x : ToolRun)
        → ((content : String) (is_error : Bool) → IsSettled (next content is_error).0)
        → IsSettled
            (elim x as (λ _. Turn × Bool) [
              | cancelled cause ↦ (abandon_tool_calls t r.abandoned_stored cause i (c ∷ cs), false)
              | failed cause ↦ (abandon_tool_calls t r.abandoned_stored cause i (c ∷ cs), false)
              | returned content is_error stored ↦
                  (if stored then next content is_error else (
                    abandon_tool_calls t r.abandoned_stored "store message" i (c ∷ cs),
                    false,
                  ))
            ]).0
    step (cancelled cause) k = abandoned cause
    step (failed cause) k = abandoned cause
    step (returned content is_error stored) k =
        either-IsSettled stored (next content is_error)
          (abandon_tool_calls t r.abandoned_stored "store message" i (c ∷ cs), false)
          (k content is_error) (abandoned "store message")
