-- ===== src/Tests/Event.antt =====
-- Runs of internal/event/bus.go.
use mathlib.Core.List.{Sublistᴰ}
use eika.Common.{◌+◌, ◌≡◌, ◌++◌, refl, List, [], ◌∷◌, false, length}
use eika.Event.Bus.{Event, Payload, Subscription, subscriber_buffer, deliver, wants, receive}
use eika.Event.Delivery.{Act, emitted, read, run, due, weights, run-accounted}
use eika.Event.Order.{plain, run-ordered}

abbrev tick : Event
tick = record { type = "turn.start"; topic = "session:1"; payload = Payload.text "{}" }

abbrev other : Event
other = record tick { topic = "session:2" }

abbrev watcher : Subscription
watcher = record { id = 1; ch = []; topics = "session:1" ∷ []; dropped = 2; closed = false }

abbrev acts : List Act
acts = emitted tick ∷ emitted other ∷ read ∷ read ∷ []

run-accounted_example :
    weights (run watcher acts).0 + weights (run watcher acts).1.ch + (run watcher acts).1.dropped
    ≡ weights watcher.ch + watcher.dropped + length (due watcher.topics acts)
run-accounted_example = run-accounted watcher acts refl (refl, (refl, tt))

run-acts : (run watcher acts).0 ≡ eika.Event.Bus.notice 2 ∷ tick ∷ []
unfolding run deliver wants receive
run-acts = refl

run-ordered_example :
    Sublistᴰ
      (plain (run watcher acts).0 ++ plain (run watcher acts).1.ch)
      (plain watcher.ch ++ due watcher.topics acts)
run-ordered_example = run-ordered watcher acts (refl, (refl, tt))
