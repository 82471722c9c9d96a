-- ===== src/Store/Head.antt =====
-- internal/store/entries.go: `SetSessionHead`, which starts a branch.
use eika.Common.{
  ◌≡◌, ◌≢◌, inl, inr, refl, sym, ◌∙◌, subst, String, str_eq, str_eq_iff, [], some, arith,
  if◌then◌else◌, Bool-cases, Option-cases,
}
use eika.Store.{
  Jsonb, Session, Db, ok, find_entry, find_session, path_query, with_head, session_path,
  set_session_head, entry_path,
}
use eika.Store.Append.{session_path_lem}
use eika.Store.Valid.{
  IsValid, IsOwn, heads-with_head, find_session-with_head_self, find_session-with_head_ne,
}
use eika.Store.Walk.{find_entry-ne}
use eika.Store.Paths.{path_query_absent}

-- What a successful move of the head has found.
set_session_head-found :
    (db db' : Db) (sid eid : String)
    → set_session_head db sid eid ≡ ok db'
    → (s : Session) × (find_session db.sessions sid ≡ some s)
      × (db' ≡ record db { sessions = with_head db.sessions sid eid })
      × IsOwn db.entries sid eid
unfolding set_session_head
set_session_head-found db db' sid eid h = elim (Option-cases (find_session db.sessions sid)) [
  | inl gone ↦ absurd (ground (arith, gone))
  | inr s ↦ (s.0, s.1, ground (arith, s.1, str_eq_iff eid ""), own s.0 s.1)
]
  where
    own : (s : Session) → find_session db.sessions sid ≡ some s → IsOwn db.entries sid eid
    own s is = elim (Bool-cases (str_eq eid "")) [
      | inl cleared ↦ inl ((str_eq_iff eid "").0 cleared)
      | inr named ↦ elim (Option-cases (find_entry db.entries eid)) [
        | inl gone ↦ absurd (ground (arith, named, gone))
        | inr e ↦ inr (e.0, e.1, ground (arith, named, e.1, str_eq_iff e.0.session_id sid))
      ]
    ]

-- What a move of the head of a session to an entry, or to none, leaves.
pub record Moved (jsonb : Jsonb) (db db' : Db) (sid eid : String) : Type 0 where
  pub valid : IsValid jsonb db'
  pub own : IsOwn db.entries sid eid
  pub entries : db'.entries ≡ db.entries
  pub path : session_path db' sid ≡ (if str_eq eid "" then ok [] else entry_path db sid eid)
  pub others : (other : String) → sid ≢ other → session_path db' other ≡ session_path db other

-- When the head of a session is moved, in a well formed database, the entry is there and is one of the
-- session's own, or its id is empty; the database stays well formed, no row of the entries changes,
-- the next run continues the path to that entry (an empty path, for an empty id), and no other
-- session's path changes.
pub set_session_head-Moved :
    (jsonb : Jsonb) (db db' : Db) (sid eid : String)
    → IsValid jsonb db
    → set_session_head db sid eid ≡ ok db'
    → Moved jsonb db db' sid eid
set_session_head-Moved jsonb db db' sid eid v h =
    let (s, is, after, own) = set_session_head-found db db' sid eid h in
    subst (λ d. Moved jsonb db d sid eid) (sym after) (moved s is own)
  where
    next : Db
    next = record db { sessions = with_head db.sessions sid eid }

    target :
        IsOwn db.entries sid eid
        → ok (path_query db.entries eid) ≡ (if str_eq eid "" then ok [] else entry_path db sid eid)
    target (inl cleared) = ground (arith, str_eq_iff eid "", path_query_absent db.entries)
    target (inr (e, found, same)) =
        unfold entry_path in
        ground (
          arith,
          str_eq_iff eid "",
          str_eq_iff e.session_id sid,
          find_entry-ne db.entries eid e v.tree found,
        )

    moved :
        (s : Session)
        → find_session db.sessions sid ≡ some s
        → IsOwn db.entries sid eid
        → Moved jsonb db next sid eid
    moved s is own = record {
      valid = record {
        stored = v.stored;
        tree = v.tree;
        heads = heads-with_head db.entries db.sessions sid eid own v.heads;
      };
      own = own;
      entries = refl;
      path =
          session_path_lem next sid (record s { head_entry_id = eid })
            (find_session-with_head_self db.sessions sid eid s is)
          ∙ target own;
      others = λ other ne.
          unfold session_path in
          ground (arith, find_session-with_head_ne db.sessions sid eid other ne);
    }
