-- ===== src/Store/Paths.antt =====
-- internal/store/entries.go: what `pathQuery` returns on the entry table as it grows.
use eika.Common.{
  ℕ, zero, suc, ◌≤◌, ◌<◌, ◌≡◌, ◌≢◌, inl, inr, refl, sym, ap, ◌∙◌, subst, String, str_eq_iff, List,
  [], ◌∷◌, ◌++◌, Bool, true, false, Option, none, str_eq, if◌then◌else◌, some, arith, length, All,
  All-mono, Option-cases,
}
use eika.Store.{Entry, find_entry, max_seq, order_by_seq, walk, path_query}
use eika.Store.Walk.{
  IsNext, IsTree, find_entry_cases, find_entry-id, seq-le-max_seq, parent_found, All-order_by_seq,
  insert_last, walk_absent, walk_root, walk-none, walk-some, find_entry-ne, walk_older, walk_newest,
}

-- A path is no longer than the table: more fuel than the table has rows changes nothing.
pub walk_enough :
    (fuel : ℕ) (es : List Entry) (id : String)
    → IsTree es
    → length es ≤ fuel
    → walk fuel es id ≡ walk (length es) es id
walk_enough zero [] id t h = refl
walk_enough (suc fuel) [] id t h = unfold walk find_entry in ground arith
walk_enough zero (e ∷ es) id t h = absurd (omega arith)
walk_enough (suc fuel) (e ∷ es) id t h = elim (Option-cases (find_entry (e ∷ es) id)) [
  | inl absent ↦
      walk-none (suc fuel) (e ∷ es) id absent ∙ sym (walk-none (suc (length es)) (e ∷ es) id absent)
  | inr found ↦ elim (find_entry_cases e es id found.0 found.1) [
    | inl same ↦
        let here : e.id ≡ id =
          ap (λ (x : Entry). x.id) same ∙ find_entry-id (e ∷ es) id found.0 found.1 in
        rw (← here) (
          walk_newest fuel e es t.0 t.1
          ∙ ap (◌∷◌ e) (walk_enough fuel es e.parent_id t.1 (omega arith))
          ∙ sym (walk_newest (length es) e es t.0 t.1))
    | inr older ↦
        walk_older (suc fuel) e es id t.0 t.1 older.0
        ∙ walk_enough (suc fuel) es id t.1 (omega arith)
        ∙ sym (walk_enough (suc (length es)) es id t.1 (omega arith))
        ∙ sym (walk_older (suc (length es)) e es id t.0 t.1 older.0)
  ]
]

-- No entry of a path has a larger number than its session has.
walk-below :
    (fuel : ℕ) (es : List Entry) (id sid : String) (p : Entry)
    → IsTree es
    → find_entry es id ≡ some p
    → p.session_id ≡ sid
    → All (λ x. x.seq ≤ max_seq es sid) (walk fuel es id)
walk-below zero es id sid p t h s = unfold walk in tt
walk-below (suc fuel) es id sid p t h s =
    rw (walk-some fuel es id p (find_entry-ne es id p t h) h) (
      subst (λ sid. p.seq ≤ max_seq es sid) s (seq-le-max_seq es id p h),
      elim (parent_found es id p t h) [
        | inl root ↦ rw (walk_root fuel es p.parent_id root) tt
        | inr up ↦ walk-below fuel es p.parent_id sid up.0 t up.1 (up.2 ∙ s)
      ],
    )

-- The path to the newest row is the path to its parent, then the row.
pub path_query-newest :
    (e : Entry) (es : List Entry)
    → IsNext es e
    → IsTree es
    → path_query (e ∷ es) e.id ≡ path_query es e.parent_id ++ e ∷ []
unfolding path_query order_by_seq
path_query-newest e es n t =
    ap order_by_seq (walk_newest (length es) e es n t)
    ∙ insert_last e (order_by_seq (walk (length es) es e.parent_id))
        (All-order_by_seq (λ x. x.seq < e.seq) (walk (length es) es e.parent_id) below)
  where
    below : All (λ x. x.seq < e.seq) (walk (length es) es e.parent_id)
    below = elim n.parent [
      | inl root ↦ rw (walk_root (length es) es e.parent_id root) tt
      | inr up ↦
          All-mono (λ (x : Entry). x.seq ≤ max_seq es e.session_id) (λ x. x.seq < e.seq)
            (λ x le. omega (arith, n.above)) (walk (length es) es e.parent_id)
            (walk-below (length es) es e.parent_id e.session_id up.0 t up.1 up.2)
    ]

-- A newer row changes no other path.
pub path_query-older :
    (e : Entry) (es : List Entry) (id : String)
    → IsNext es e
    → IsTree es
    → e.id ≢ id
    → path_query (e ∷ es) id ≡ path_query es id
unfolding path_query
path_query-older e es id n t d = ap order_by_seq (
    walk_older (suc (length es)) e es id n t d
    ∙ walk_enough (suc (length es)) es id t (omega arith))

pub path_query_absent : (es : List Entry) → path_query es "" ≡ []
unfolding path_query order_by_seq
path_query_absent es = ap order_by_seq (walk_absent (length es) es)

abbrev pub IsOfSession : String → List Entry → Type 0
IsOfSession sid = All (λ e. e.session_id ≡ sid)

max_seq-order :
    (es : List Entry) (sid : String) → IsOfSession sid es → All (λ e. e.seq ≤ max_seq es sid) es
unfolding max_seq
max_seq-order [] sid o = tt
max_seq-order (e ∷ es) sid o = (
  ground (arith, o.0, str_eq_iff e.session_id sid),
  All-mono (λ (x : Entry). x.seq ≤ max_seq es sid) (λ x. x.seq ≤ max_seq (e ∷ es) sid)
      (λ x le. ground (arith, le, str_eq_iff e.session_id sid)) es (max_seq-order es sid o.1),
)

-- In the order of writing, the newest row of a session's own table is the last.
pub order_by_seq-newest :
    (e : Entry) (es : List Entry) (sid : String)
    → IsNext es e
    → IsOfSession sid (e ∷ es)
    → order_by_seq (e ∷ es) ≡ order_by_seq es ++ e ∷ []
unfolding order_by_seq
order_by_seq-newest e es sid n o = insert_last e (order_by_seq es) (
    All-order_by_seq (λ x. x.seq < e.seq) es
      (All-mono (λ (x : Entry). x.seq ≤ max_seq es sid) (λ x. x.seq < e.seq)
        (λ x le. omega (arith, subst (λ s. max_seq es s < e.seq) o.0 n.above)) es
        (max_seq-order es sid o.1)))

find_entry-All :
    (P : Entry → Type 0) (es : List Entry) (id : String) (e : Entry)
    → All P es
    → find_entry es id ≡ some e
    → P e
unfolding find_entry
find_entry-All P [] id e all h = cc h
find_entry-All P (x ∷ es) id e all h = at (str_eq x.id id) h (find_entry-All P es id e all.1)
  where
    at :
        (b : Bool)
        → (if b then some x else find_entry es id) ≡ some e
        → (find_entry es id ≡ some e → P e)
        → P e
    at true same later = subst P {x = x} (cc same) all.0
    at false same later = later same

All-walk :
    (P : Entry → Type 0) (fuel : ℕ) (es : List Entry) (id : String)
    → All P es
    → All P (walk fuel es id)
unfolding walk
All-walk P zero es id all = tt
All-walk P (suc fuel) es id all =
    at (str_eq id "") (find_entry es id) refl (λ parent. All-walk P fuel es parent all)
  where
    at :
        (b : Bool) (found : Option Entry)
        → find_entry es id ≡ found
        → ((parent : String) → All P (walk fuel es parent))
        → All P (
            if b then [] else elim found as (λ _. List Entry) [
              | none ↦ []
              | some e ↦ e ∷ walk fuel es e.parent_id
            ])
    at true found eq later = tt
    at false none eq later = tt
    at false (some e) eq later = (find_entry-All P es id e all eq, later e.parent_id)

-- What holds of every row holds of the rows of a path.
pub All-path_query :
    (P : Entry → Type 0) (es : List Entry) (id : String) → All P es → All P (path_query es id)
unfolding path_query
All-path_query P es id all =
    All-order_by_seq P (walk (length es) es id) (All-walk P (length es) es id all)
