-- ===== src/Event/Bus.antt =====
-- internal/event/bus.go: subscriptions with a bounded channel each, a count of what each one lost,
-- and the notice that reports the loss. A channel is the list of events not yet received, oldest
-- first; the logger is left out.
use eika.Common.{
  ℕ, ◌+◌, String, str_eq, Bool, true, false, ◌||◌, not, List, [], ◌∷◌, ◌++◌, map, Option, none,
  some, length, ltb, ◌==◌, if◌then◌else◌,
}

abbrev pub subscriber_buffer : ℕ
subscriber_buffer = 256

abbrev pub topic_global : String
topic_global = "global"

abbrev pub type_bus_dropped : String
type_bus_dropped = "bus.dropped"

-- What an event carries: the text of any payload, or the count of a `BusDropped`.
pub data Payload : Type 0 where
  text : String → Payload
  bus_dropped : ℕ → Payload

-- `Event`, its time left out.
pub record Event : Type 0 where
  pub type : String
  pub topic : String
  pub payload : Payload

pub record Subscription : Type 0 where
  pub id : ℕ
  pub ch : List Event
  pub topics : List String
  pub dropped : ℕ
  pub closed : Bool

pub record Bus : Type 0 where
  pub next : ℕ
  pub subs : List Subscription

abbrev pub new_bus : Bus
new_bus = record { next = 0; subs = [] }

unfoldable pub wants : List String → String → Bool
wants [] topic = false
wants (t ∷ ts) topic = str_eq t topic || wants ts topic

-- A `select` that sends when the channel has room; the caller's default branch is `none`.
unfoldable pub try_send : Subscription → Event → Option Subscription
try_send s e =
    if ltb (length s.ch) subscriber_buffer then some (record s { ch = s.ch ++ e ∷ [] }) else none

abbrev pub notice : ℕ → Event
notice n = record { type = type_bus_dropped; topic = topic_global; payload = Payload.bus_dropped n }

-- `BusDropped` is a struct with one number, which always has an encoding.
unfoldable pub report_dropped : Subscription → Subscription × Bool
unfolding try_send
report_dropped s = elim (try_send s (notice s.dropped)) [
  | some s' ↦ (record s' { dropped = 0 }, true)
  | none ↦ (s, false)
]

-- The send at the end of `deliver`.
unfoldable pub send_or_drop : Subscription → Event → Subscription
unfolding try_send
send_or_drop s e = elim (try_send s e) [
  | some s' ↦ s'
  | none ↦ record s { dropped = s.dropped + 1 }
]

unfoldable pub deliver : Subscription → Event → Subscription
unfolding report_dropped send_or_drop
deliver s e =
    if s.closed || not (wants s.topics e.topic)
    then s
    else if ltb 0 s.dropped
    then (let (s', reported) = report_dropped s in
        if reported then send_or_drop s' e else record s { dropped = s.dropped + 1 })
    else send_or_drop s e

unfoldable pub emit : Bus → Event → Bus
emit b e = record b { subs = map (λ s. deliver s e) b.subs }

unfoldable pub subscribe : Bus → List String → Bus × Subscription
subscribe b topics =
    let id = b.next + 1 in
    let s : Subscription = record {
      id = id;
      ch = [];
      topics = topics;
      dropped = 0;
      closed = false;
    } in
    (record { next = id; subs = b.subs ++ s ∷ [] }, s)

-- `Subscription.Subscribe`, which replaces the topics.
unfoldable pub resubscribe : Subscription → List String → Subscription
resubscribe s topics = record s { topics = topics }

-- The map's `delete`; the keys of the map are the ids of its values.
unfoldable pub remove_sub : List Subscription → ℕ → List Subscription
remove_sub [] id = []
remove_sub (s ∷ subs) id = let rest = remove_sub subs id in if s.id == id then rest else s ∷ rest

-- Closing a closed subscription changes nothing.
unfoldable pub close : Bus → Subscription → Bus × Subscription
unfolding remove_sub
close b s =
    (record b { subs = remove_sub b.subs s.id }, if s.closed then s else record s { closed = true })

-- The client's receive from `Events()`.
unfoldable pub receive : Subscription → Option Event × Subscription
receive s = elim s.ch [ [] ↦ (none, s) | e ∷ rest ↦ (some e, record s { ch = rest }) ]
