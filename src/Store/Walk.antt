-- ===== src/Store/Walk.antt =====
-- internal/store/entries.go: the shape of the entry table, and what `pathQuery` returns on it.
use eika.Common.{
  ℕ, zero, suc, ◌≤◌, ◌<◌, ◌≡◌, ◌≢◌, ◌⊎◌, inl, inr, refl, sym, ap, ◌∙◌, String, str_eq, str_eq_iff,
  true, false, List, [], ◌∷◌, ◌++◌, none, some, arith, ltb, if◌then◌else◌, All, Bool-cases,
  Option-cases,
}
use eika.Store.{Entry, find_entry, max_seq, insert_by_seq, order_by_seq, walk}

-- The parent of an entry is absent, or an older entry of its session.
abbrev pub ParentIsIn : List Entry → Entry → Type 0
ParentIsIn es e =
    (e.parent_id ≡ "")
    ⊎ ((p : Entry) × (find_entry es e.parent_id ≡ some p) × (p.session_id ≡ e.session_id))

-- What the newest row of the table has to do with the older ones.
pub record IsNext (es : List Entry) (e : Entry) : Type 0 where
  pub named : e.id ≢ ""
  pub fresh : find_entry es e.id ≡ none
  pub parent : ParentIsIn es e
  pub above : max_seq es e.session_id < e.seq

abbrev pub IsTree : List Entry → Type 0
IsTree [] = Unit
IsTree (e ∷ es) = IsNext es e × IsTree es

pub find_entry_here : (e : Entry) (es : List Entry) → find_entry (e ∷ es) e.id ≡ some e
unfolding find_entry
find_entry_here e es = ground (arith, str_eq_iff e.id e.id)

pub find_entry_other :
    (e : Entry) (es : List Entry) (id : String)
    → e.id ≢ id
    → find_entry (e ∷ es) id ≡ find_entry es id
unfolding find_entry
find_entry_other e es id d = ground (arith, str_eq_iff e.id id)

pub find_entry_cases :
    (e : Entry) (es : List Entry) (id : String) (p : Entry)
    → find_entry (e ∷ es) id ≡ some p
    → (e ≡ p) ⊎ ((e.id ≢ id) × (find_entry es id ≡ some p))
unfolding find_entry
find_entry_cases e es id p h = elim (Bool-cases (str_eq e.id id)) [
  | inl here ↦ inl (ground (arith, here))
  | inr older ↦ inr (ground (arith, str_eq_iff e.id id), ground (arith, older))
]

pub find_entry_older :
    (e : Entry) (es : List Entry) (id : String) (p : Entry)
    → IsNext es e
    → find_entry es id ≡ some p
    → (e.id ≢ id) × (find_entry (e ∷ es) id ≡ some p)
unfolding find_entry
find_entry_older e es id p n f = ground (arith, str_eq_iff e.id id)

pub find_entry-id :
    (es : List Entry) (id : String) (p : Entry) → find_entry es id ≡ some p → p.id ≡ id
unfolding find_entry
find_entry-id [] id p h = cc
find_entry-id (e ∷ es) id p h = ground (arith, str_eq_iff e.id id, find_entry-id es id p)

-- An entry that the table has is bounded by the largest number of its session.
pub seq-le-max_seq :
    (es : List Entry) (id : String) (p : Entry)
    → find_entry es id ≡ some p
    → p.seq ≤ max_seq es p.session_id
unfolding find_entry max_seq
seq-le-max_seq [] id p h = cc
seq-le-max_seq (e ∷ es) id p h =
    ground (arith, str_eq_iff e.id id, str_eq_iff e.session_id p.session_id, seq-le-max_seq es id p)

ParentIsIn-cons :
    (e : Entry) (es : List Entry) (p : Entry)
    → IsNext es e
    → ParentIsIn es p
    → ParentIsIn (e ∷ es) p
ParentIsIn-cons e es p n (inl root) = inl root
ParentIsIn-cons e es p n (inr (q, found, same)) =
    inr (q, (find_entry_older e es p.parent_id q n found).1, same)

-- Every entry of a tree has its parent in the tree.
pub parent_found :
    (es : List Entry) (id : String) (p : Entry)
    → IsTree es
    → find_entry es id ≡ some p
    → ParentIsIn es p
parent_found [] id p t h = unfold find_entry in cc
parent_found (e ∷ es) id p t h = elim (find_entry_cases e es id p h) [
  | inl same ↦ rw (← same) (ParentIsIn-cons e es e t.0 t.0.parent)
  | inr older ↦ ParentIsIn-cons e es p t.0 (parent_found es id p t.1 older.1)
]

All-insert_by_seq {κ} :
    (P : Entry → Type κ) (e : Entry) (es : List Entry) → P e → All P es → All P (insert_by_seq e es)
unfolding insert_by_seq
All-insert_by_seq P e [] h hs = (h, tt)
All-insert_by_seq P e (x ∷ xs) h hs =
    elim (ltb e.seq x.seq) as (λ b. All P (if b then e ∷ x ∷ xs else x ∷ insert_by_seq e xs)) [
      | true ↦ (h, hs)
      | false ↦ (hs.0, All-insert_by_seq P e xs h hs.1)
    ]

pub All-order_by_seq {κ} :
    (P : Entry → Type κ) (es : List Entry) → All P es → All P (order_by_seq es)
unfolding order_by_seq
All-order_by_seq P [] h = tt
All-order_by_seq P (e ∷ es) h = All-insert_by_seq P e _ h.0 (All-order_by_seq P es h.1)

pub insert_last :
    (e : Entry) (es : List Entry) → All (λ x. x.seq < e.seq) es → insert_by_seq e es ≡ es ++ e ∷ []
unfolding insert_by_seq
insert_last e [] h = refl
insert_last e (x ∷ xs) h = ground (arith, insert_last e xs h.1)

pub walk_absent : (fuel : ℕ) (es : List Entry) → walk fuel es "" ≡ []
unfolding walk
walk_absent zero es = refl
walk_absent (suc fuel) es = refl

pub walk_root : (fuel : ℕ) (es : List Entry) (id : String) → id ≡ "" → walk fuel es id ≡ []
walk_root fuel es id root = rw root (walk_absent fuel es)

pub walk-none :
    (fuel : ℕ) (es : List Entry) (id : String) → find_entry es id ≡ none → walk fuel es id ≡ []
unfolding walk
walk-none zero es id h = refl
walk-none (suc fuel) es id h = ground arith

pub walk-some :
    (fuel : ℕ) (es : List Entry) (id : String) (p : Entry)
    → id ≢ ""
    → find_entry es id ≡ some p
    → walk (suc fuel) es id ≡ p ∷ walk fuel es p.parent_id
unfolding walk
walk-some fuel es id p d h = ground (arith, str_eq_iff id "")

-- The id that a row of a tree has is not empty.
pub find_entry-ne :
    (es : List Entry) (id : String) (p : Entry) → IsTree es → find_entry es id ≡ some p → id ≢ ""
find_entry-ne [] id p t h = unfold find_entry in cc
find_entry-ne (e ∷ es) id p t h = elim (find_entry_cases e es id p h) [
  | inl same ↦
      λ empty. t.0.named (ap (λ (x : Entry). x.id) same ∙ find_entry-id (e ∷ es) id p h ∙ empty)
  | inr older ↦ find_entry-ne es id p t.1 older.1
]

-- A walk is not changed by a newer row, unless it starts there.
pub walk_older :
    (fuel : ℕ) (e : Entry) (es : List Entry) (id : String)
    → IsNext es e
    → IsTree es
    → e.id ≢ id
    → walk fuel (e ∷ es) id ≡ walk fuel es id
walk_older zero e es id n t d = unfold walk in refl
walk_older (suc fuel) e es id n t d = elim (Option-cases (find_entry es id)) [
  | inl absent ↦
      walk-none (suc fuel) (e ∷ es) id (find_entry_other e es id d ∙ absent)
      ∙ sym (walk-none (suc fuel) es id absent)
  | inr found ↦
      let p = found.0 in
      let ne = find_entry-ne es id p t found.1 in
      walk-some fuel (e ∷ es) id p ne (find_entry_other e es id d ∙ found.1)
      ∙ ap (◌∷◌ p) (elim (parent_found es id p t found.1) [
        | inl root ↦ rw root (walk_absent fuel (e ∷ es) ∙ sym (walk_absent fuel es))
        | inr up ↦
            walk_older fuel e es p.parent_id n t (find_entry_older e es p.parent_id up.0 n up.1).0
      ])
      ∙ sym (walk-some fuel es id p ne found.1)
]

-- The ancestors of the newest row are read from the rows below it.
pub walk_parent :
    (fuel : ℕ) (e : Entry) (es : List Entry)
    → IsNext es e
    → IsTree es
    → walk fuel (e ∷ es) e.parent_id ≡ walk fuel es e.parent_id
walk_parent fuel e es n t = elim n.parent [
  | inl root ↦ walk_root fuel (e ∷ es) e.parent_id root ∙ sym (walk_root fuel es e.parent_id root)
  | inr up ↦ walk_older fuel e es e.parent_id n t (find_entry_older e es e.parent_id up.0 n up.1).0
]

pub walk_newest :
    (fuel : ℕ) (e : Entry) (es : List Entry)
    → IsNext es e
    → IsTree es
    → walk (suc fuel) (e ∷ es) e.id ≡ e ∷ walk fuel es e.parent_id
walk_newest fuel e es n t =
    walk-some fuel (e ∷ es) e.id e n.named (find_entry_here e es)
    ∙ ap (◌∷◌ e) (walk_parent fuel e es n t)
