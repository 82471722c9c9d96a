-- ===== src/Agent/Queue.antt =====
-- internal/agent/queue.go: the queues of steering and follow-up messages. A method that mutates
-- `*queue` returns the new queue, behind its result where it has one.
use eika.Common.{
  min, ◌≡◌, refl, sym, ◌∙◌, List, [], ◌∷◌, ◌++◌, append_assoc, append-nil, arith, length, take,
  drop, take-append-drop, if◌then◌else◌,
}
use eika.Common.Int.{ℤ, pos, pos_part, leb_ℤ}
use eika.Provider.{Message}

pub data QueueMode : Type 0 where
  one_at_a_time all : QueueMode

pub record Queue : Type 0 where
  pub messages : List Message

abbrev pub empty_queue : Queue
empty_queue = record { messages = [] }

unfoldable pub push : Queue → Message → Queue
push q msg = record { messages = q.messages ++ msg ∷ [] }

unfoldable pub unshift : Queue → List Message → Queue
unshift q [] = q
unshift q (m ∷ msgs) = record { messages = (m ∷ msgs) ++ q.messages }

unfoldable pub drain : Queue → List Message × Queue
drain q = (q.messages, empty_queue)

unfoldable pub take_front : Queue → ℤ → List Message × Queue
unfolding drain
take_front q n =
    if leb_ℤ n (pos 0)
    then drain q
    else let k = min (pos_part n) (length q.messages) in
      (take k q.messages, record { messages = drop k q.messages })

unfoldable pub pending : Queue → List Message
pending q = q.messages

pub messages-unshift :
    (q : Queue) (msgs : List Message) → (unshift q msgs).messages ≡ msgs ++ q.messages
unfolding unshift
messages-unshift q [] = refl
messages-unshift q (m ∷ msgs) = refl

pub messages-push : (q : Queue) (m : Message) → (push q m).messages ≡ q.messages ++ m ∷ []
unfolding push
messages-push q m = refl

pub take_front-split :
    (q : Queue) (n : ℤ) → (take_front q n).0 ++ (take_front q n).1.messages ≡ q.messages
unfolding take_front
take_front-split q n = ground (
  arith,
  take-append-drop (min (pos_part n) (length q.messages)) q.messages,
  append-nil q.messages,
)

-- Putting back what `take` removed restores the queue, in order, whatever the count.
pub unshift-take_front : (q : Queue) (n : ℤ) → unshift (take_front q n).1 (take_front q n).0 ≡ q
unshift-take_front q n =
    let e = messages-unshift (take_front q n).1 (take_front q n).0 ∙ take_front-split q n in
    λ i. record { messages = e i }

-- What users and turns do to a queue, in the order in which they get its lock.
pub data Op : Type 0 where
  enqueue : Message → Op
  dequeue : ℤ → Op

-- The messages that the turns took, in order, and the queue that is left.
unfoldable pub run : Queue → List Op → List Message × Queue
run q [] = ([], q)
run q (enqueue m ∷ ops) = run (push q m) ops
run q (dequeue n ∷ ops) =
    let (got, q') = take_front q n in let (rest, end) = run q' ops in (got ++ rest, end)

abbrev pub enqueued : List Op → List Message
enqueued [] = []
enqueued (enqueue m ∷ ops) = m ∷ enqueued ops
enqueued (dequeue n ∷ ops) = enqueued ops

-- First in, first out, with nothing lost or doubled: whatever the interleaving of pushes and takes,
-- the messages taken, followed by those still queued, are the ones that were queued at the start
-- followed by the ones pushed, in the order of the pushes.
pub run_fifo :
    (q : Queue) (ops : List Op)
    → (run q ops).0 ++ (run q ops).1.messages ≡ q.messages ++ enqueued ops
unfolding run
run_fifo q [] = sym (append-nil q.messages)
run_fifo q (enqueue m ∷ ops) =
    rw (run_fifo (push q m) ops, messages-push q m)
      (append_assoc q.messages (m ∷ []) (enqueued ops))
run_fifo q (dequeue n ∷ ops) =
    let (got, q') = take_front q n in
    cc (
      append_assoc got (run q' ops).0 (run q' ops).1.messages,
      run_fifo q' ops,
      append_assoc got q'.messages (enqueued ops),
      take_front-split q n,
    )
