-- ===== src/Event/Delivery.antt =====
-- internal/event/bus.go: what one subscriber receives, over any interleaving of emits and reads.
use eika.Common.{
  ℕ, suc, ◌+◌, String, ◌≤◌, ◌≡◌, ◌∙◌, Bool, true, false, List, [], ◌∷◌, ◌++◌, Option, none, some,
  arith, length, length-append, if◌then◌else◌,
}
use eika.Event.Bus.{
  Event, Payload, Subscription, subscriber_buffer, wants, deliver, receive, report_dropped,
  send_or_drop, notice,
}

-- What happens to one open subscription: an event is emitted, or its client reads.
pub data Act : Type 0 where
  emitted : Event → Act
  read : Act

abbrev pub from_option : Option Event → List Event
from_option none = []
from_option (some e) = e ∷ []

-- The events that the client received, in order, and the subscription at the end.
unfoldable pub run : Subscription → List Act → List Event × Subscription
run s [] = ([], s)
run s (emitted e ∷ acts) = run (deliver s e) acts
run s (read ∷ acts) =
    let (got, s') = receive s in let (rest, end) = run s' acts in (from_option got ++ rest, end)

-- How many events of the subscriber's topics an entry of its channel stands for.
abbrev pub weight : Event → ℕ
weight e = elim e.payload [ Payload.text s ↦ 1 | Payload.bus_dropped n ↦ n ]

abbrev pub weights : List Event → ℕ
weights [] = 0
weights (e ∷ es) = weight e + weights es

-- The events that a subscription with these topics is to be told of, in order.
unfoldable pub due : List String → List Act → List Event
due topics [] = []
due topics (emitted e ∷ acts) =
    let rest = due topics acts in if wants topics e.topic then e ∷ rest else rest
due topics (read ∷ acts) = due topics acts

abbrev pub is_notice : Event → Bool
is_notice e = elim e.payload [ Payload.text s ↦ false | Payload.bus_dropped n ↦ true ]

-- Only the bus itself makes notices of dropped events.
abbrev pub IsPlain : List Act → Type 0
IsPlain [] = Unit
IsPlain (emitted e ∷ acts) = (is_notice e ≡ false) × IsPlain acts
IsPlain (read ∷ acts) = IsPlain acts

weights-append : (es fs : List Event) → weights (es ++ fs) ≡ weights es + weights fs
weights-append [] fs = omega arith
weights-append (e ∷ es) fs = omega (arith, weights-append es fs)

abbrev owed : Subscription → ℕ
owed s = weights s.ch + s.dropped

report_dropped-owed : (s : Subscription) → owed (report_dropped s).0 ≡ owed s
unfolding report_dropped
report_dropped-owed s = ground (arith, weights-append s.ch (notice s.dropped ∷ []))

send_or_drop-owed :
    (s : Subscription) (e : Event) → is_notice e ≡ false → owed (send_or_drop s e) ≡ owed s + 1
unfolding send_or_drop
send_or_drop-owed s e h = ground (arith, weights-append s.ch (e ∷ []))

deliver-owed :
    (s : Subscription) (e : Event)
    → s.closed ≡ false
    → is_notice e ≡ false
    → owed (deliver s e) ≡ (if wants s.topics e.topic then suc (owed s) else owed s)
unfolding deliver
deliver-owed s e o h =
    ground (
      arith,
      report_dropped-owed s,
      send_or_drop-owed s e,
      send_or_drop-owed (report_dropped s).0 e,
    )

-- `deliver` and `receive` leave the topics and the open state alone.
pub deliver-topics : (s : Subscription) (e : Event) → (deliver s e).topics ≡ s.topics
unfolding deliver
deliver-topics s e = ground arith

deliver-closed : (s : Subscription) (e : Event) → (deliver s e).closed ≡ s.closed
unfolding deliver
deliver-closed s e = ground arith

receive-owed :
    (s : Subscription)
    → weights (from_option (receive s).0) + weights (receive s).1.ch ≡ weights s.ch
unfolding receive
receive-owed s = ground arith

pub receive-same :
    (s : Subscription)
    → ((receive s).1.topics ≡ s.topics)
      × ((receive s).1.closed ≡ s.closed)
      × ((receive s).1.dropped ≡ s.dropped)
unfolding receive
receive-same s = ground arith

-- Every event of the subscriber's topics is accounted for, over any interleaving of emits and reads
-- of an open subscription: the events that the client received, those still in its channel, those
-- that the notices among both report as lost, and those lost and not yet reported, add up to the
-- ones that were there at the start plus the ones emitted on its topics. The emitted events are not
-- themselves notices of lost events.
pub run-accounted :
    (s : Subscription) (acts : List Act)
    → s.closed ≡ false
    → IsPlain acts
    → weights (run s acts).0 + weights (run s acts).1.ch + (run s acts).1.dropped
      ≡ weights s.ch + s.dropped + length (due s.topics acts)
unfolding run due
run-accounted s [] o p = omega arith
run-accounted s (emitted e ∷ acts) o p = ground (
  arith,
  deliver-owed s e o p.0,
  deliver-topics s e,
  deliver-closed s e,
  run-accounted (deliver s e) acts (deliver-closed s e ∙ o) p.1,
)
run-accounted s (read ∷ acts) o p = ground (
  arith,
  receive-owed s,
  receive-same s,
  weights-append (from_option (receive s).0) (run (receive s).1 acts).0,
  run-accounted (receive s).1 acts ((receive-same s).1 ∙ o) p,
)

-- A channel never holds more than its buffer.
pub deliver-bounded :
    (s : Subscription) (e : Event)
    → length s.ch ≤ subscriber_buffer
    → length (deliver s e).ch ≤ subscriber_buffer
unfolding deliver
deliver-bounded s e h = ground (
  arith,
  length-append s.ch (e ∷ []),
  length-append s.ch (notice s.dropped ∷ []),
  length-append (s.ch ++ notice s.dropped ∷ []) (e ∷ []),
)
