-- ===== src/Store/Valid.antt =====
-- internal/store: a well formed database, whose heads are entries of their own sessions.
use eika.Common.{
  ◌≡◌, ◌≢◌, ◌⊎◌, inl, inr, refl, sym, ◌∙◌, subst, String, str_eq, str_eq_iff, List, [], ◌∷◌, some,
  arith, if◌then◌else◌, All, Bool-cases,
}
use eika.Store.{Jsonb, or_empty_object, Entry, Session, Db, find_entry, find_session, with_head}
use eika.Store.Walk.{IsTree, IsNext, find_entry_older}

-- An id that is absent, or that of an entry of the session.
abbrev pub IsOwn : List Entry → String → String → Type 0
IsOwn es sid id = (id ≡ "") ⊎ ((h : Entry) × (find_entry es id ≡ some h) × (h.session_id ≡ sid))

abbrev pub IsKnown : List Entry → String → Type 0
IsKnown es id = (id ≡ "") ⊎ ((h : Entry) × (find_entry es id ≡ some h))

pub IsKnown-cons :
    (e : Entry) (es : List Entry) (id : String) → IsNext es e → IsKnown es id → IsKnown (e ∷ es) id
IsKnown-cons e es id n (inl absent) = inl absent
IsKnown-cons e es id n (inr (h, is)) = inr (h, (find_entry_older e es id h n is).1)

-- A head is absent, or an entry of the session.
abbrev pub HeadIsIn : List Entry → Session → Type 0
HeadIsIn es s = IsOwn es s.id s.head_entry_id

-- A payload as the database gives it back: putting it in again changes nothing.
abbrev pub IsStored : Jsonb → Entry → Type 0
IsStored jsonb e = jsonb (or_empty_object e.payload) ≡ some e.payload

-- The database keeps the document: the text that it gives back is not empty, and stays as it is.
abbrev pub Keeps : Jsonb → Type 0
Keeps jsonb = (t u : String) → jsonb t ≡ some u → jsonb (or_empty_object u) ≡ some u

pub record IsValid (jsonb : Jsonb) (db : Db) : Type 0 where
  pub stored : All (IsStored jsonb) db.entries
  pub tree : IsTree db.entries
  pub heads : All (HeadIsIn db.entries) db.sessions

pub find_session-All :
    (P : Session → Type 0) (ss : List Session) (sid : String) (s : Session)
    → All P ss
    → find_session ss sid ≡ some s
    → P s × (s.id ≡ sid)
unfolding find_session
find_session-All P [] sid s a h = cc
find_session-All P (x ∷ ss) sid s a h = elim (Bool-cases (str_eq x.id sid)) [
  | inl here ↦
      let same : x ≡ s = ground (arith, here) in
      (subst P same a.0, ground (arith, str_eq_iff x.id sid))
  | inr there ↦ find_session-All P ss sid s a.1 (ground (arith, there))
]

pub find_session-with_head_self :
    (ss : List Session) (sid head : String) (s : Session)
    → find_session ss sid ≡ some s
    → find_session (with_head ss sid head) sid ≡ some (record s { head_entry_id = head })
unfolding find_session
find_session-with_head_self [] sid head s h = cc
find_session-with_head_self (x ∷ ss) sid head s h =
    ground (arith, str_eq_iff x.id sid, find_session-with_head_self ss sid head s)

pub find_session-with_head_ne :
    (ss : List Session) (sid head other : String)
    → sid ≢ other
    → find_session (with_head ss sid head) other ≡ find_session ss other
unfolding find_session
find_session-with_head_ne [] sid head other d = refl
find_session-with_head_ne (x ∷ ss) sid head other d = ground (
  arith,
  str_eq_iff x.id sid,
  str_eq_iff x.id other,
  find_session-with_head_ne ss sid head other d,
)

HeadIsIn-cons :
    (e : Entry) (es : List Entry) (s : Session) → IsNext es e → HeadIsIn es s → HeadIsIn (e ∷ es) s
HeadIsIn-cons e es s n (inl none_yet) = inl none_yet
HeadIsIn-cons e es s n (inr (h, found, same)) =
    inr (h, (find_entry_older e es s.head_entry_id h n found).1, same)

pub heads-cons :
    (e : Entry) (es : List Entry) (ss : List Session)
    → IsNext es e
    → All (HeadIsIn es) ss
    → All (HeadIsIn (e ∷ es)) ss
heads-cons e es [] n a = tt
heads-cons e es (s ∷ ss) n a = (HeadIsIn-cons e es s n a.0, heads-cons e es ss n a.1)

head_moved :
    (es : List Entry) (s : Session) (sid head : String)
    → IsOwn es sid head
    → HeadIsIn es s
    → HeadIsIn es (if str_eq s.id sid then record s { head_entry_id = head } else s)
head_moved es s sid head own old = elim (Bool-cases (str_eq s.id sid)) [
  | inl here ↦ rw here (elim own [
    | inl cleared ↦ inl cleared
    | inr h ↦ inr (h.0, h.1, h.2 ∙ sym ((str_eq_iff s.id sid).0 here))
  ])
  | inr other ↦ rw other old
]

-- Moving the head of one session to an entry of its own, or to none.
pub heads-with_head :
    (es : List Entry) (ss : List Session) (sid head : String)
    → IsOwn es sid head
    → All (HeadIsIn es) ss
    → All (HeadIsIn es) (with_head ss sid head)
heads-with_head es [] sid head own a = tt
heads-with_head es (s ∷ ss) sid head own a =
    (head_moved es s sid head own a.0, heads-with_head es ss sid head own a.1)
