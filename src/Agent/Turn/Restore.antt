-- ===== src/Agent/Turn/Restore.antt =====
-- internal/agent/agent.go, `restoreFrom`: the messages that a turn took from the queues and did not
-- deliver.
use eika.Common.{
  ℕ, zero, suc, ◌-◌, min, ◌≤◌, Bool, true, false, Option, none, some, List, [], ◌∷◌, ◌++◌, length,
  drop, ltb, if◌then◌else◌, arith, ◌≡◌, refl, sym, ap, ◌∙◌, not_ltb→le,
}
use eika.Provider.{Message}
use eika.Agent.Queue.{messages-unshift}
use eika.Agent.Accept.{Agent, Origin, steering_queue, follow_up_queue}
use eika.Agent.Turn.{Turn, put_back, restored_origin, restore_from}

drop-all : {A : Type 0} (n : ℕ) (xs : List A) → length xs ≤ n → drop n xs ≡ []
drop-all zero [] h = refl
drop-all (suc n) [] h = refl
drop-all zero (x ∷ xs) h = ground arith
drop-all (suc n) (x ∷ xs) h = drop-all n xs (omega arith)

abbrev pub is_origin : Option Origin → Origin → Bool
is_origin none q = false
is_origin (some steering_queue) steering_queue = true
is_origin (some steering_queue) follow_up_queue = false
is_origin (some follow_up_queue) steering_queue = false
is_origin (some follow_up_queue) follow_up_queue = true

abbrev pub queue_of : Agent → Origin → List Message
queue_of a steering_queue = a.steering.messages
queue_of a follow_up_queue = a.follow_ups.messages

-- The first messages of the turn that go back to a queue when `stored` messages are stored.
abbrev pub returned_to : Turn → ℕ → Origin → List Message
returned_to t stored q =
    if is_origin t.origin q then drop (min stored (length t.msgs)) t.msgs else []

-- A queue after messages are put back into one, where there are any left.
put_back-queue :
    (a : Agent) (q p : Origin) (n : ℕ) (msgs : List Message)
    → queue_of (if ltb n (length msgs) then put_back a q (drop n msgs) else a) p
      ≡ (if is_origin (some q) p then drop n msgs else []) ++ queue_of a p
put_back-queue a q p n msgs = step (ltb n (length msgs)) refl q p
  where
    step :
        (b : Bool)
        → ltb n (length msgs) ≡ b
        → (q p : Origin)
        → queue_of (if b then put_back a q (drop n msgs) else a) p
          ≡ (if is_origin (some q) p then drop n msgs else []) ++ queue_of a p
    step true e steering_queue steering_queue = messages-unshift a.steering (drop n msgs)
    step true e steering_queue follow_up_queue = refl
    step true e follow_up_queue steering_queue = refl
    step true e follow_up_queue follow_up_queue = messages-unshift a.follow_ups (drop n msgs)
    step false e steering_queue steering_queue =
        ap (λ l. l ++ a.steering.messages) (sym (drop-all n msgs (not_ltb→le n (length msgs) e)))
    step false e steering_queue follow_up_queue = refl
    step false e follow_up_queue steering_queue = refl
    step false e follow_up_queue follow_up_queue =
        ap (λ l. l ++ a.follow_ups.messages) (sym (drop-all n msgs (not_ltb→le n (length msgs) e)))

restored_origin-queue :
    (t : Turn) (stored : ℕ) (p : Origin)
    → queue_of (restored_origin t stored) p ≡ returned_to t stored p ++ queue_of t.agent p
restored_origin-queue t stored p = step t.origin
  where
    step :
        (o : Option Origin)
        → queue_of
            (elim o as (λ _. Agent) [
              | none ↦ t.agent
              | some q ↦
                  if ltb (min stored (length t.msgs)) (length t.msgs)
                  then put_back t.agent q (drop (min stored (length t.msgs)) t.msgs)
                  else t.agent
            ])
            p
          ≡ (if is_origin o p then drop (min stored (length t.msgs)) t.msgs else [])
            ++ queue_of t.agent p
    step none = refl
    step (some q) = put_back-queue t.agent q p (min stored (length t.msgs)) t.msgs

-- What the queues of `a` hold, next to those of `t`.
pub record IsRestored (t : Turn) (stored : ℕ) (a : Agent) : Type 0 where
  pub follow_ups :
      a.follow_ups.messages ≡ returned_to t stored follow_up_queue ++ t.agent.follow_ups.messages
  pub steering :
      a.steering.messages
      ≡ drop (stored - length t.msgs) t.steered
        ++ (returned_to t stored steering_queue ++ t.agent.steering.messages)

-- A turn that stored only its first `stored` messages puts the others back, in front of what has come
-- since, none lost and none twice: of the messages that it began with, those that are not stored go to
-- the queue that they came from, and of the steering that it took in later, those that are not
-- stored go to the steering queue. Where the turn began with steering, the later steering comes out
-- in front of the earlier.
pub restore_from-IsRestored :
    (t : Turn) (stored : ℕ) → IsRestored t stored (restore_from t stored).agent
unfolding restore_from
restore_from-IsRestored t stored =
    let a = restored_origin t stored in
    let n = stored - length t.msgs in
    record {
      follow_ups =
          put_back-queue a steering_queue follow_up_queue n t.steered
          ∙ restored_origin-queue t stored follow_up_queue;
      steering =
          put_back-queue a steering_queue steering_queue n t.steered
          ∙ ap (λ l. drop n t.steered ++ l) (restored_origin-queue t stored steering_queue);
    }
