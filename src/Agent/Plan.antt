-- ===== src/Agent/Plan.antt =====
-- internal/agent/compaction.go: where a compaction cuts a conversation. An index that is -1 in the
-- source is `none`. A slice is read with a default where the source would panic out of range.
pub mod Cut
pub mod Turn
pub mod Kept
pub mod Paired
use eika.Common.{
  ℕ, zero, suc, ◌+◌, ◌-◌, Bool, true, false, ◌||◌, Option, none, some, List, [], ◌∷◌, ◌++◌, ltb,
  leb, if◌then◌else◌, get_or, take, drop,
}
use eika.Common.Int.{pos}
use eika.Provider.{Message, Role, Usage, zero_message, is_user, is_tool}
use eika.Agent.Compacted.{Compaction, compacted}

pub record CompactionPlan : Type 0 where
  pub start : ℕ
  pub first : ℕ
  pub turn_start : Option ℕ
  pub stored : ℕ

abbrev pub role_at : List Message → ℕ → Role
role_at msgs i = (get_or msgs i zero_message).role

abbrev pub is_split : CompactionPlan → Bool
is_split p = elim p.turn_start [ none ↦ false | some t ↦ true ]

-- Where the complete turns that the summary covers end.
abbrev pub history_end : CompactionPlan → ℕ
history_end p = elim p.turn_start [ none ↦ p.first | some t ↦ t ]

-- The loop over `cuts`, for `n` messages from `i`.
unfoldable pub cuts : List Message → ℕ → ℕ → List ℕ
cuts msgs i zero = []
cuts msgs i (suc n) =
    let rest = cuts msgs (suc i) n in if is_tool (role_at msgs i) then rest else i ∷ rest

-- The walk back over `n` messages from `start`: where the total first reaches `keep`.
unfoldable pub walk_back : List ℕ → ℕ → ℕ → ℕ → ℕ → Option ℕ
walk_back sizes keep start total zero = none
walk_back sizes keep start total (suc n) =
    let total = total + get_or sizes (start + n) 0 in
    let rest = walk_back sizes keep start total n in
    if ltb total keep then rest else some (start + n)

unfoldable pub first_from : ℕ → List ℕ → Option ℕ
first_from i [] = none
first_from i (c ∷ cs) = let rest = first_from i cs in if leb i c then some c else rest

-- `cuts[len(cuts)-1]`
unfoldable pub last_cut : ℕ → List ℕ → ℕ
last_cut c [] = c
last_cut c (d ∷ cs) = last_cut d cs

-- The first kept message, where the walk stopped at the place given, if it stopped.
unfoldable pub first_kept : ℕ → List ℕ → Option ℕ → ℕ
unfolding first_from last_cut
first_kept c cs none = c
first_kept c cs (some i) = elim (first_from i (c ∷ cs)) [ some d ↦ d | none ↦ last_cut c cs ]

-- The newest user message of `n` messages from `start`.
unfoldable pub turn_start : List Message → ℕ → ℕ → Option ℕ
turn_start msgs start zero = none
turn_start msgs start (suc n) =
    let rest = turn_start msgs start n in
    if is_user (role_at msgs (start + n)) then some (start + n) else rest

abbrev pub has_summary : List Message → ℕ
has_summary [] = 0
has_summary (m ∷ ms) = if m.summary then 1 else 0

abbrev pub split_at : List Message → ℕ → ℕ → Option ℕ
split_at msgs start first =
    if is_user (role_at msgs first) then none else turn_start msgs start (suc (first - start))

-- The plan whose first kept message is `first`, and whether it leaves anything to summarise.
abbrev pub planned : List Message → ℕ → ℕ → ℕ → CompactionPlan × Bool
planned msgs start stored first =
    let p : CompactionPlan = record {
      start = start;
      first = first;
      turn_start = split_at msgs start first;
      stored = stored;
    } in
    (p, is_split p || ltb start first)

-- The plan for the cuts that there are.
abbrev pub plan_cuts : List Message → List ℕ → ℕ → ℕ → ℕ → List ℕ → CompactionPlan × Bool
plan_cuts msgs sizes start stored keep [] =
    (record { start = start; first = 0; turn_start = none; stored = stored }, false)
plan_cuts msgs sizes start stored keep (c ∷ cs) =
    planned msgs start stored (first_kept c cs (walk_back sizes keep start 0 (stored - start)))

unfoldable pub plan_compaction : List Message → List ℕ → ℕ → ℕ → CompactionPlan × Bool
unfolding cuts walk_back first_kept turn_start
plan_compaction msgs sizes stored keep =
    let start = has_summary msgs in
    plan_cuts msgs sizes start stored keep (cuts msgs start (stored - start))

-- The conversation that `compact` leaves, of a record that it then fills with the number of messages
-- kept. The messages that are not stored yet all stay.
unfoldable pub compact_next : List Message → CompactionPlan → Compaction → List Message
unfolding compacted
compact_next msgs p c =
    compacted (take p.stored msgs) (record c { kept = pos (p.stored - p.first) })
    ++ drop p.stored msgs
