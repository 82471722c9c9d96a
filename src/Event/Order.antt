-- ===== src/Event/Order.antt =====
-- internal/event/bus.go: a subscriber sees its events in the order of the emits.
use mathlib.Core.List.{Sublistᴰ}
use mathlib.Core.List.Sublistᴰ
use eika.Common.{
  String, ◌≡◌, ◌⊎◌, inl, inr, refl, true, false, List, [], ◌∷◌, ◌++◌, append-nil, append_assoc,
  arith, if◌then◌else◌, Bool-cases,
}
use eika.Event.Bus.{
  Event, Subscription, wants, deliver, receive, report_dropped, send_or_drop, notice,
}
use eika.Event.Delivery.{
  Act, emitted, read, run, due, is_notice, IsPlain, from_option, deliver-topics, receive-same,
}

-- The events of a channel that are no notices.
unfoldable pub plain : List Event → List Event
plain [] = []
plain (e ∷ es) = let rest = plain es in if is_notice e then rest else e ∷ rest

plain-append : (es fs : List Event) → plain (es ++ fs) ≡ plain es ++ plain fs
unfolding plain
plain-append [] fs = refl
plain-append (e ∷ es) fs = ground (arith, plain-append es fs)

abbrev Extends : List Event → List Event → Event → Type 0
Extends before after e = (after ≡ before) ⊎ (after ≡ before ++ e ∷ [])

send_or_drop-plain :
    (s : Subscription) (e : Event)
    → is_notice e ≡ false
    → Extends (plain s.ch) (plain (send_or_drop s e).ch) e
unfolding send_or_drop plain
send_or_drop-plain s e h = ground (arith, plain-append s.ch (e ∷ []))

report_dropped-plain : (s : Subscription) → plain (report_dropped s).0.ch ≡ plain s.ch
unfolding report_dropped plain
report_dropped-plain s =
    ground (arith, plain-append s.ch (notice s.dropped ∷ []), append-nil (plain s.ch))

deliver-plain :
    (s : Subscription) (e : Event)
    → is_notice e ≡ false
    → (plain (deliver s e).ch ≡ plain s.ch)
      ⊎ ((wants s.topics e.topic ≡ true) × (plain (deliver s e).ch ≡ plain s.ch ++ e ∷ []))
unfolding deliver
deliver-plain s e h = ground (
  arith,
  report_dropped-plain s,
  send_or_drop-plain s e h,
  send_or_drop-plain (report_dropped s).0 e h,
)

receive-plain :
    (s : Subscription) → plain (from_option (receive s).0) ++ plain (receive s).1.ch ≡ plain s.ch
unfolding receive plain
receive-plain s = ground arith

due-later :
    (topics : List String) (e : Event) (acts : List Act)
    → Sublistᴰ (due topics acts) (due topics (emitted e ∷ acts))
unfolding due
due-later topics e acts = elim (Bool-cases (wants topics e.topic)) [
  | inl w ↦ rw w (Sublistᴰ.cons (Sublistᴰ.refl (due topics acts)))
  | inr w ↦ rw w (Sublistᴰ.refl (due topics acts))
]

due-now :
    (topics : List String) (e : Event) (acts : List Act)
    → wants topics e.topic ≡ true
    → due topics (emitted e ∷ acts) ≡ e ∷ due topics acts
unfolding due
due-now topics e acts w = rw w

extend-emitted :
    (s : Subscription) (e : Event) (acts : List Act) (out : List Event)
    → is_notice e ≡ false
    → Sublistᴰ out (plain (deliver s e).ch ++ due (deliver s e).topics acts)
    → Sublistᴰ out (plain s.ch ++ due s.topics (emitted e ∷ acts))
extend-emitted s e acts out p ih = elim (deliver-plain s e p) [
  | inl same ↦
      Sublistᴰ.trans (rw (same, deliver-topics s e) at ih)
        (Sublistᴰ.append (Sublistᴰ.refl (plain s.ch)) (due-later s.topics e acts))
  | inr more ↦ rw (due-now s.topics e acts more.0) (
      rw (more.1, deliver-topics s e, append_assoc (plain s.ch) (e ∷ []) (due s.topics acts)) at ih)
]

extend-read :
    (s : Subscription) (acts : List Act) (got rest : List Event)
    → Sublistᴰ (plain got ++ rest) (plain (receive s).1.ch ++ due (receive s).1.topics acts)
    → Sublistᴰ (plain (from_option (receive s).0 ++ got) ++ rest) (plain s.ch ++ due s.topics acts)
extend-read s acts got rest ih =
    let head = plain (from_option (receive s).0) in
    rw
      (
        plain-append (from_option (receive s).0) got,
        append_assoc head (plain got) rest,
        ← receive-plain s,
        append_assoc head (plain (receive s).1.ch) (due s.topics acts),
      )
      (Sublistᴰ.append (Sublistᴰ.refl head) (rw (receive-same s).0 at ih))

-- Over any interleaving of emits and reads, the events that the client received, followed by those
-- in its channel, are, notices of lost events apart, a subsequence of the ones that were in the
-- channel at the start followed by the ones emitted on its topics: in order, each at most as often
-- as it was emitted, and none of another topic. The emitted events are not themselves notices.
pub run-ordered :
    (s : Subscription) (acts : List Act)
    → IsPlain acts
    → Sublistᴰ (plain (run s acts).0 ++ plain (run s acts).1.ch) (plain s.ch ++ due s.topics acts)
unfolding run due
run-ordered s [] p = unfold plain in rw append-nil (Sublistᴰ.refl (plain s.ch))
run-ordered s (emitted e ∷ acts) p =
    extend-emitted s e acts _ p.0 (run-ordered (deliver s e) acts p.1)
run-ordered s (read ∷ acts) p = extend-read s acts _ _ (run-ordered (receive s).1 acts p)
