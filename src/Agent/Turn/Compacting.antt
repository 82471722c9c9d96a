-- ===== src/Agent/Turn/Compacting.antt =====
-- internal/agent/response.go, `autoCompact`, with the end of `compact`: a compaction in the middle of a
-- turn keeps the conversation in agreement with the store.
use eika.Common.{
  ℕ, ◌+◌, ◌-◌, Bool, true, false, Option, none, some, List, [], ◌∷◌, ◌++◌, length, drop,
  length-append, if◌then◌else◌, ◌&&◌, arith, ◌≡◌, refl, sym, ap, ◌∙◌,
}
use eika.Common.Int.{pos}
use eika.Provider.{Message}
use eika.Agent.Conversation.{Conversation, len, take-append}
use eika.Agent.Compacted.{Compaction, compacted, length-compacted}
use eika.Agent.Plan.{CompactionPlan, plan_compaction, compact_next}
use eika.Agent.Plan.Turn.{plan_compaction-IsSound}
use eika.Agent.Turn.{
  Turn, compaction, Summary, stored_of, replace_compacted, auto_compact, compact_all,
}
use eika.Agent.Turn.Agree.{replay, replay-snoc, IsMark, IsAgreeing}

drop-append : {A : Type 0} (xs ys : List A) → drop (length xs) (xs ++ ys) ≡ ys
drop-append [] ys = refl
drop-append (x ∷ xs) ys = drop-append xs ys

stored_of_mark :
    (o : Option ℕ) (c : Conversation) (xs rest : List Message)
    → c.messages ≡ xs ++ rest
    → IsMark o 0 rest (length xs)
    → elim o as (λ _. ℕ) [ none ↦ len c | some n ↦ n ] ≡ length xs
unfolding len
stored_of_mark none c xs rest e k = omega (arith, ap length e, length-append xs rest, ap length k)
stored_of_mark (some n) c xs rest e k = omega (arith, k)

compact_next-split :
    (xs rest : List Message) (p : CompactionPlan) (c : Compaction)
    → p.stored ≡ length xs
    → compact_next (xs ++ rest) p c
      ≡ compacted xs (record c { kept = pos (p.stored - p.first) }) ++ rest
unfolding compact_next
compact_next-split xs rest p c e = rw (compact_next, e, take-append xs rest, drop-append xs rest)

moved-IsMark :
    (o : Option ℕ) (rest xs : List Message) (n stored : ℕ)
    → IsMark o 0 rest stored
    → n ≡ length xs
    → IsMark (elim o as (λ _. Option ℕ) [ none ↦ none | some k ↦ some n ]) 0 rest (length xs)
moved-IsMark none rest xs n stored k e = k
moved-IsMark (some m) rest xs n stored k e = omega (arith, e)

replace_compacted-IsAgreeing :
    (t : Turn) (p : CompactionPlan) (made : Compaction)
    → p.stored ≡ stored_of t
    → IsAgreeing t
    → IsAgreeing (replace_compacted t p made)
replace_compacted-IsAgreeing t p made e a =
    let r = replay [] t.log in
    let c = record made { kept = pos (p.stored - p.first) } in
    let stored : p.stored ≡ length r =
      e ∙ stored_of_mark t.pending_mark t.conversation r t.pending a.conversation a.mark in
    let s = replay-snoc [] t.log (compaction c) in
    record {
      conversation =
          ap (λ l. compact_next l p made) a.conversation
          ∙ compact_next-split r t.pending p made stored
          ∙ ap (λ l. l ++ t.pending) (sym s);
      mark =
          moved-IsMark t.pending_mark t.pending (replay [] (t.log ++ compaction c ∷ []))
            (p.stored - p.first + 1) (length r) a.mark
            (omega (arith, ap length s, length-compacted r c, stored));
    }

pub auto_compact-IsAgreeing :
    (t : Turn) (s : Summary) → IsAgreeing t → IsAgreeing (auto_compact t s)
unfolding auto_compact
auto_compact-IsAgreeing t s a =
    step (plan_compaction t.conversation.messages s.sizes (stored_of t) s.keep) refl s.stored
  where
    step :
        (x : CompactionPlan × Bool)
        → plan_compaction t.conversation.messages s.sizes (stored_of t) s.keep ≡ x
        → (b : Bool) → IsAgreeing (if x.1 && b then replace_compacted t x.0 s.made else t)
    step (p, false) e b = a
    step (p, true) e false = a
    step (p, true) e true =
        replace_compacted-IsAgreeing t p s.made
          (plan_compaction-IsSound t.conversation.messages s.sizes (stored_of t) s.keep p
            e).stored_all
          a

pub compact_all-IsAgreeing :
    (t : Turn) (ss : List Summary) → IsAgreeing t → IsAgreeing (compact_all t ss)
compact_all-IsAgreeing t [] a = a
compact_all-IsAgreeing t (s ∷ ss) a =
    compact_all-IsAgreeing (auto_compact t s) ss (auto_compact-IsAgreeing t s a)
