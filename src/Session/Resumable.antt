-- ===== src/Session/Resumable.antt =====
-- internal/session/resume.go: `resumableSet`, which answers for every entry in one pass, agrees with
-- `PathResumable` on the path down to each.
use eika.Common.{
  Bool, true, false, ◌≡◌, ◌≢◌, inl, inr, refl, sym, ap, ◌∙◌, String, str_eq, str_eq_iff, List, [],
  ◌∷◌, ◌++◌, some, arith, Bool-cases,
}
use eika.Session.Message.{Codec}
use eika.Session.Resume.{
  pending_calls, pending_path, path_resumable, pending_of, resumable_of, is_nil, resumable_loop,
  resumable_set,
}
use eika.Store.{Entry, find_entry, order_by_seq, path_query}
use eika.Store.Valid.{IsKnown}
use eika.Store.Walk.{IsTree, IsNext, find_entry_cases, find_entry-id}
use eika.Store.Paths.{
  IsOfSession, order_by_seq-newest, path_query-newest, path_query-older, path_query_absent,
}

not_in_empty : (id : String) (h : Entry) → find_entry [] id ≡ some h → ⊥
unfolding find_entry
not_in_empty id h found = cc

parent-IsKnown : (e : Entry) (es : List Entry) → IsNext es e → IsKnown es e.parent_id
parent-IsKnown e es n = elim n.parent [ inl root ↦ inl root | inr p ↦ inr (p.0, p.1) ]

IsKnown-below :
    (e : Entry) (es : List Entry) (id : String) → e.id ≢ id → IsKnown (e ∷ es) id → IsKnown es id
IsKnown-below e es id differ (inl absent) = inl absent
IsKnown-below e es id differ (inr (h, found)) = elim (find_entry_cases e es id h found) [
  | inl same ↦ absurd (differ (ap (λ (x : Entry). x.id) same ∙ find_entry-id (e ∷ es) id h found))
  | inr below ↦ inr (h, below.1)
]

resumable_of_here :
    (k id : String) (b : Bool) (m : List (String × Bool))
    → k ≡ id
    → resumable_of ((k, b) ∷ m) id ≡ b
unfolding resumable_of
resumable_of_here k id b m h = ground (arith, str_eq_iff k id)

resumable_of_other :
    (k id : String) (b : Bool) (m : List (String × Bool))
    → k ≢ id
    → resumable_of ((k, b) ∷ m) id ≡ resumable_of m id
unfolding resumable_of
resumable_of_other k id b m h = ground (arith, str_eq_iff k id)

module _ (j : Codec) where
  -- The first map at the end of the loop.
  pending_map : List (String × List String) → List Entry → List (String × List String)
  pending_map pending [] = pending
  pending_map pending (e ∷ es) =
      pending_map ((e.id, pending_calls j (pending_of pending e.parent_id) e) ∷ pending) es

  abbrev last_left : List (String × List String) → List Entry → Entry → List String
  last_left pending es e = pending_calls j (pending_of (pending_map pending es) e.parent_id) e

  pending_map-append :
      (pending : List (String × List String)) (es : List Entry) (e : Entry)
      → pending_map pending (es ++ e ∷ []) ≡ (e.id, last_left pending es e) ∷ pending_map pending es
  unfolding pending_map
  pending_map-append pending [] e = refl
  pending_map-append pending (x ∷ es) e =
      pending_map-append ((x.id, pending_calls j (pending_of pending x.parent_id) x) ∷ pending) es e

  resumable_loop-append :
      (pending : List (String × List String)) (out : List (String × Bool)) (es : List Entry)
      (e : Entry)
      → resumable_loop j pending out (es ++ e ∷ [])
        ≡ (e.id, is_nil (last_left pending es e)) ∷ resumable_loop j pending out es
  unfolding pending_map resumable_loop
  resumable_loop-append pending out [] e = refl
  resumable_loop-append pending out (x ∷ es) e =
      let left = pending_calls j (pending_of pending x.parent_id) x in
      resumable_loop-append ((x.id, left) ∷ pending) ((x.id, is_nil left) ∷ out) es e

  pending_path-append :
      (pending : List String) (es : List Entry) (e : Entry)
      → pending_path j pending (es ++ e ∷ []) ≡ pending_calls j (pending_path j pending es) e
  unfolding pending_path
  pending_path-append pending [] e = refl
  pending_path-append pending (x ∷ es) e = pending_path-append (pending_calls j pending x) es e

  pending_of_here :
      (k id : String) (left : List String) (m : List (String × List String))
      → k ≡ id
      → pending_of ((k, left) ∷ m) id ≡ left
  unfolding pending_of
  pending_of_here k id left m h = ground (arith, str_eq_iff k id)

  pending_of_other :
      (k id : String) (left : List String) (m : List (String × List String))
      → k ≢ id
      → pending_of ((k, left) ∷ m) id ≡ pending_of m id
  unfolding pending_of
  pending_of_other k id left m h = ground (arith, str_eq_iff k id)

  after_newest :
      (e : Entry) (es : List Entry) (sid : String)
      → IsTree (e ∷ es)
      → IsOfSession sid (e ∷ es)
      → pending_map [] (order_by_seq (e ∷ es))
        ≡ (e.id, last_left [] (order_by_seq es) e) ∷ pending_map [] (order_by_seq es)
  after_newest e es sid t o =
      ap (pending_map []) (order_by_seq-newest e es sid t.0 o)
      ∙ pending_map-append [] (order_by_seq es) e

  nothing_pending :
      (id : String) → pending_of (pending_map [] (order_by_seq [])) id ≡ pending_path j [] []
  unfolding pending_of pending_path pending_map order_by_seq
  nothing_pending id = refl

  -- What the first map holds of an entry is what its path leaves pending.
  pending_map-path :
      (es : List Entry) (sid id : String)
      → IsTree es
      → IsOfSession sid es
      → IsKnown es id
      → pending_of (pending_map [] (order_by_seq es)) id ≡ pending_path j [] (path_query es id)
  pending_map-path [] sid id t o (inl absent) =
      nothing_pending id
      ∙ sym (ap (pending_path j []) (ap (path_query []) absent ∙ path_query_absent []))
  pending_map-path [] sid id t o (inr (h, found)) = absurd (not_in_empty id h found)
  pending_map-path (e ∷ es) sid id t o k = elim (Bool-cases (str_eq e.id id)) [
    | inl here ↦
        let same = (str_eq_iff e.id id).0 here in
        ap (λ m. pending_of m id) (after_newest e es sid t o)
        ∙ pending_of_here e.id id _ _ same
        ∙ ap (λ p. pending_calls j p e)
            (pending_map-path es sid e.parent_id t.1 o.1 (parent-IsKnown e es t.0))
        ∙ sym (pending_path-append [] (path_query es e.parent_id) e)
        ∙ sym (
            ap (pending_path j [])
              (ap (path_query (e ∷ es)) (sym same) ∙ path_query-newest e es t.0 t.1))
    | inr there ↦
        let differ : e.id ≢ id = ground (arith, there, str_eq_iff e.id id) in
        ap (λ m. pending_of m id) (after_newest e es sid t o)
        ∙ pending_of_other e.id id _ _ differ
        ∙ pending_map-path es sid id t.1 o.1 (IsKnown-below e es id differ k)
        ∙ sym (ap (pending_path j []) (path_query-older e es id t.0 t.1 differ))
  ]

  resumable_set-newest :
      (e : Entry) (es : List Entry) (sid : String)
      → IsTree (e ∷ es)
      → IsOfSession sid (e ∷ es)
      → resumable_set j (order_by_seq (e ∷ es))
        ≡ (e.id, is_nil (last_left [] (order_by_seq es) e)) ∷ resumable_set j (order_by_seq es)
  unfolding resumable_set
  resumable_set-newest e es sid t o =
      ap (resumable_loop j [] []) (order_by_seq-newest e es sid t.0 o)
      ∙ resumable_loop-append [] [] (order_by_seq es) e

  path_resumable-newest :
      (e : Entry) (es : List Entry) (sid : String)
      → IsTree (e ∷ es)
      → IsOfSession sid (e ∷ es)
      → is_nil (last_left [] (order_by_seq es) e) ≡ path_resumable j (path_query (e ∷ es) e.id)
  unfolding path_resumable
  path_resumable-newest e es sid t o =
      ap is_nil (
        ap (λ p. pending_calls j p e)
          (pending_map-path es sid e.parent_id t.1 o.1 (parent-IsKnown e es t.0))
        ∙ sym (pending_path-append [] (path_query es e.parent_id) e)
        ∙ sym (ap (pending_path j []) (path_query-newest e es t.0 t.1)))
      ∙ empty_or_not (pending_path j [] (path_query (e ∷ es) e.id))
    where
      empty_or_not : (l : List String) → is_nil l ≡ elim l [ [] ↦ true | _ ∷ _ ↦ false ]
      empty_or_not [] = refl
      empty_or_not (x ∷ xs) = refl

  -- In a session's well formed table, taken in the order of writing, `resumableSet` says of every
  -- entry what `PathResumable` says of the path down to it.
  pub resumable_set-path_resumable :
      (es : List Entry) (sid id : String) (h : Entry)
      → IsTree es
      → IsOfSession sid es
      → find_entry es id ≡ some h
      → resumable_of (resumable_set j (order_by_seq es)) id ≡ path_resumable j (path_query es id)
  resumable_set-path_resumable [] sid id h t o found = absurd (not_in_empty id h found)
  resumable_set-path_resumable (e ∷ es) sid id h t o found =
      elim (find_entry_cases e es id h found) [
        | inl same ↦
            let here = ap (λ (x : Entry). x.id) same ∙ find_entry-id (e ∷ es) id h found in
            ap (λ m. resumable_of m id) (resumable_set-newest e es sid t o)
            ∙ resumable_of_here e.id id _ _ here
            ∙ path_resumable-newest e es sid t o
            ∙ ap (λ i. path_resumable j (path_query (e ∷ es) i)) here
        | inr below ↦
            ap (λ m. resumable_of m id) (resumable_set-newest e es sid t o)
            ∙ resumable_of_other e.id id _ _ below.0
            ∙ resumable_set-path_resumable es sid id h t.1 o.1 below.1
            ∙ sym (ap (path_resumable j) (path_query-older e es id t.0 t.1 below.0))
      ]
