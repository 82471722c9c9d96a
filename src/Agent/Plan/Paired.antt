-- ===== src/Agent/Plan/Paired.antt =====
-- internal/agent/compaction.go: a compaction leaves every tool result behind its call.
use eika.Common.{
  length-take, take-append-drop, ℕ, zero, suc, ◌-◌, ◌≤◌, Bool, true, false, String, str_eq, List,
  [], ◌∷◌, ◌++◌, map, length, min, arith, ◌≡◌, refl, take, drop, if◌then◌else◌,
}
use eika.Provider.{Message, ToolCall, is_tool}
use eika.Agent.Compacted.{Compaction, compacted, without_metrics}
use eika.Agent.Plan.{CompactionPlan, role_at, plan_compaction, compact_next}
use eika.Agent.Plan.Turn.{plan_compaction-IsSound}

-- Whether one of the calls has the id.
abbrev pub calls_id : List ToolCall → String → Bool
calls_id [] id = false
calls_id (c ∷ cs) id = let rest = calls_id cs id in if str_eq c.id id then true else rest

-- Every tool result answers a call of the newest message before it that is no tool result; the calls
-- are those of that message.
abbrev pub is_paired_after : List ToolCall → List Message → Bool
is_paired_after calls [] = true
is_paired_after calls (m ∷ ms) =
    let again = is_paired_after calls ms in
    let next = is_paired_after m.tool_calls ms in
    if is_tool m.role then (if calls_id calls m.tool_call_id then again else false) else next

abbrev pub is_paired : List Message → Bool
is_paired ms = is_paired_after [] ms

paired-without_metrics :
    (calls : List ToolCall) (ms ns : List Message)
    → is_paired_after calls (map without_metrics ms ++ ns) ≡ is_paired_after calls (ms ++ ns)
paired-without_metrics calls [] ns = refl
paired-without_metrics calls (m ∷ ms) ns =
    rw (paired-without_metrics calls ms ns, paired-without_metrics m.tool_calls ms ns)

paired-drop :
    (calls : List ToolCall) (n : ℕ) (ms : List Message)
    → is_paired_after calls ms ≡ true
    → is_tool (role_at ms n) ≡ false
    → is_paired (drop n ms) ≡ true
paired-drop calls zero [] h k = refl
paired-drop calls (suc n) [] h k = refl
paired-drop calls zero (m ∷ ms) h k = ground arith
paired-drop calls (suc n) (m ∷ ms) h k =
    ground (arith, paired-drop calls n ms, paired-drop m.tool_calls n ms)

drop-take-append {ℓ} :
    {A : Type ℓ} (n k : ℕ) (xs : List A) → n ≤ k → drop n (take k xs) ++ drop k xs ≡ drop n xs
drop-take-append zero k xs h = take-append-drop k xs
drop-take-append (suc n) zero xs h = ground arith
drop-take-append (suc n) (suc k) [] h = refl
drop-take-append (suc n) (suc k) (x ∷ xs) h = drop-take-append n k xs (omega arith)

-- The number that `compact` records is the number of stored messages from the plan's cut on.
paired-kept :
    (msgs : List Message) (stored first : ℕ)
    → stored ≤ length msgs
    → first ≤ stored
    → is_tool (role_at msgs first) ≡ false
    → is_paired msgs ≡ true
    → is_paired (
        map without_metrics (
          drop
            (length (take stored msgs) - min (stored - first) (length (take stored msgs)))
            (take stored msgs))
        ++ drop stored msgs)
      ≡ true
paired-kept msgs stored first h k t e =
    let cut : length (take stored msgs) - min (stored - first) (length (take stored msgs)) ≡ first =
      omega (arith, length-take stored msgs) in
    rw (
      cut,
      paired-without_metrics [] (drop first (take stored msgs)) (drop stored msgs),
      drop-take-append first stored msgs k,
      paired-drop [] first msgs e t,
    )

-- A compaction of a conversation in which every tool result follows its call leaves a conversation
-- in which every tool result follows its call. The stored messages are a first part of it.
pub compact_next-paired :
    (msgs : List Message) (sizes : List ℕ) (stored keep : ℕ) (p : CompactionPlan) (c : Compaction)
    → stored ≤ length msgs
    → is_paired msgs ≡ true
    → plan_compaction msgs sizes stored keep ≡ (p, true)
    → is_paired (compact_next msgs p c) ≡ true
unfolding compact_next compacted
compact_next-paired msgs sizes stored keep p c l h e =
    let s = plan_compaction-IsSound msgs sizes stored keep p e in
    paired-kept msgs p.stored p.first (omega (arith, s.stored_all))
      (omega (arith, s.stored_all, s.below)) s.no_tool h
