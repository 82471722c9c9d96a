-- ===== src/Store/Append.antt =====
-- internal/store/entries.go: `AppendEntry` and `SetSessionHead` keep the tree well formed, and move
-- the path of the session as documented.
use eika.Common.{
  ◌≡◌, ◌≢◌, ◌⊎◌, inl, inr, refl, sym, ap, ◌∙◌, String, str_eq_iff, false, List, [], ◌∷◌, ◌++◌, none,
  some, arith, Option-cases,
}
use eika.Store.{
  Jsonb, Entry, Session, Db, ok, find_entry, find_session, path_query, entry_row, with_head,
  append_entry, session_path, missing_parent, or_empty_object,
}
use eika.Store.Walk.{IsTree, IsNext, ParentIsIn, find_entry_here, find_entry_older}
use eika.Store.Paths.{path_query-newest, path_query-older, path_query_absent}
use eika.Store.Valid.{
  HeadIsIn, IsStored, Keeps, IsValid, find_session-All, find_session-with_head_self,
  find_session-with_head_ne, heads-cons, heads-with_head,
}

-- The row that `AppendEntry` writes at the head of a session fits the table.
pub entry_row-IsNext :
    (jsonb : Jsonb) (db : Db) (sid id : String) (s : Session) (e : Entry)
    → IsValid jsonb db
    → id ≢ ""
    → find_entry db.entries id ≡ none
    → find_session db.sessions sid ≡ some s
    → IsNext db.entries (entry_row db.entries sid s.head_entry_id id e)
entry_row-IsNext jsonb db sid id s e v named fresh found = record {
  named = named;
  fresh = fresh;
  parent = own (find_session-All (HeadIsIn db.entries) db.sessions sid s v.heads found);
  above = omega arith;
}
  where
    own :
        HeadIsIn db.entries s × (s.id ≡ sid)
        → ParentIsIn db.entries (entry_row db.entries sid s.head_entry_id id e)
    own (inl none_yet, same) = inl none_yet
    own (inr (h, is, of), same) = inr (h, is, of ∙ same)

-- The path of a session is the path to its head.
pub session_path_lem :
    (db : Db) (sid : String) (s : Session)
    → find_session db.sessions sid ≡ some s
    → session_path db sid ≡ ok (path_query db.entries s.head_entry_id)
unfolding session_path
session_path_lem db sid s found =
    ground (arith, found, str_eq_iff s.head_entry_id "", path_query_absent db.entries)

missing_parent-IsNext :
    (es : List Entry) (e : Entry) → IsNext es e → missing_parent es e.parent_id ≡ false
missing_parent-IsNext es e n = elim n.parent [
  | inl root ↦ ground (arith, str_eq_iff e.parent_id "")
  | inr up ↦ ground (arith, up.1)
]

abbrev pub after_append : Db → String → String → Session → Entry → Db
after_append db sid id s e = record {
  sessions = with_head db.sessions sid id;
  entries = entry_row db.entries sid s.head_entry_id id e ∷ db.entries;
}

module _ (jsonb : Jsonb) (db : Db) (sid id : String) (s : Session) (e : Entry)
    (v : IsValid jsonb db) (named : id ≢ "") (fresh : find_entry db.entries id ≡ none)
    (found : find_session db.sessions sid ≡ some s) where
  -- An append to a session that is there, with a new id, succeeds: it writes one row under the head
  -- of the session and moves the head to it.
  pub append_entry_lem :
      (given : Entry)
      → e.kind ≡ given.kind
      → e.commit ≡ given.commit
      → jsonb (or_empty_object given.payload) ≡ some e.payload
      → append_entry jsonb db sid id given
        ≡ ok (after_append db sid id s e, entry_row db.entries sid s.head_entry_id id e)
  unfolding append_entry
  append_entry_lem given same_kind same_commit accepted = ground (
    arith,
    missing_parent-IsNext db.entries _ (entry_row-IsNext jsonb db sid id s e v named fresh found),
    accepted,
  )

  pub after_append-IsValid : IsStored jsonb e → IsValid jsonb (after_append db sid id s e)
  after_append-IsValid stored =
      let n = entry_row-IsNext jsonb db sid id s e v named fresh found in
      record {
        stored = (stored, v.stored);
        tree = (n, v.tree);
        heads =
            heads-with_head _ db.sessions sid id
              (inr
                (entry_row db.entries sid s.head_entry_id id e, find_entry_here _ db.entries, refl))
              (heads-cons _ db.entries db.sessions n v.heads);
      }

  session_path-after_append :
      session_path (after_append db sid id s e) sid
      ≡ ok (
          path_query db.entries s.head_entry_id
          ++ entry_row db.entries sid s.head_entry_id id e ∷ [])
  session_path-after_append =
      session_path_lem (after_append db sid id s e) sid (record s { head_entry_id = id })
        (find_session-with_head_self db.sessions sid id s found)
      ∙ ap ok (
          path_query-newest (entry_row db.entries sid s.head_entry_id id e) db.entries
            (entry_row-IsNext jsonb db sid id s e v named fresh found) v.tree)

-- The path to an entry that the table has is not changed by a newer row.
pub path_query-kept :
    (e : Entry) (es : List Entry) (id : String)
    → IsNext es e
    → IsTree es
    → (id ≡ "") ⊎ ((h : Entry) × (find_entry es id ≡ some h))
    → path_query (e ∷ es) id ≡ path_query es id
path_query-kept e es id n t (inl absent) =
    ap (path_query (e ∷ es)) absent
    ∙ path_query_absent (e ∷ es)
    ∙ sym (ap (path_query es) absent ∙ path_query_absent es)
path_query-kept e es id n t (inr (h, is)) =
    path_query-older e es id n t (find_entry_older e es id h n is).0

pub head_known :
    (jsonb : Jsonb) (db : Db) (other : String) (o : Session)
    → IsValid jsonb db
    → find_session db.sessions other ≡ some o
    → (o.head_entry_id ≡ "") ⊎ ((h : Entry) × (find_entry db.entries o.head_entry_id ≡ some h))
head_known jsonb db other o v is =
    elim (find_session-All (HeadIsIn db.entries) db.sessions other o v.heads is).0 [
      | inl absent ↦ inl absent
      | inr h ↦ inr (h.0, h.1)
    ]

session_path-other :
    (jsonb : Jsonb) (db : Db) (sid id other : String) (s : Session) (e : Entry)
    → IsValid jsonb db
    → id ≢ ""
    → find_entry db.entries id ≡ none
    → find_session db.sessions sid ≡ some s
    → sid ≢ other
    → session_path (after_append db sid id s e) other ≡ session_path db other
session_path-other jsonb db sid id other s e v named fresh found ne =
    elim (Option-cases (find_session db.sessions other)) [
      | inl gone ↦
          unfold session_path in
          ground (arith, gone, find_session-with_head_ne db.sessions sid id other ne)
      | inr is ↦
          session_path_lem (after_append db sid id s e) other is.0
            (find_session-with_head_ne db.sessions sid id other ne ∙ is.1)
          ∙ ap ok (
              path_query-kept _ db.entries is.0.head_entry_id
                (entry_row-IsNext jsonb db sid id s e v named fresh found) v.tree
                (head_known jsonb db other is.0 v is.1))
          ∙ sym (session_path_lem db other is.0 is.1)
    ]

-- What an append to a session that had `path` leaves, of a payload that the database gives back as
-- `stored`.
pub record Appended (jsonb : Jsonb) (db : Db) (sid id : String) (e : Entry) (stored : String)
    (path : List Entry) : Type 0 where
  pub next : Db
  pub row : Entry
  pub done : append_entry jsonb db sid id e ≡ ok (next, row)
  pub valid : IsValid jsonb next
  pub extended : session_path next sid ≡ ok (path ++ row ∷ [])
  pub others : (other : String) → sid ≢ other → session_path next other ≡ session_path db other
  pub kind : row.kind ≡ e.kind
  pub row_payload : row.payload ≡ stored
  pub commit : row.commit ≡ e.commit

-- In a well formed database that keeps the documents of its jsonb columns, an append to a session that is
-- there, under an id that is new and not empty, of a payload (`{}` for an empty one) that the database
-- accepts, succeeds; the database stays well formed; the path of the session is the path that it had
-- followed by the row that was written; the path of every other session is what it was; and the row has
-- the kind and the commit that were given, and the payload as the database spells it.
pub append_entry-Appended :
    (jsonb : Jsonb) (db : Db) (sid id : String) (s : Session) (e : Entry) (stored : String)
    (path : List Entry)
    → Keeps jsonb
    → IsValid jsonb db
    → id ≢ ""
    → find_entry db.entries id ≡ none
    → find_session db.sessions sid ≡ some s
    → jsonb (or_empty_object e.payload) ≡ some stored
    → session_path db sid ≡ ok path
    → Appended jsonb db sid id e stored path
append_entry-Appended jsonb db sid id s e stored path keeps v named fresh found accepted before =
    let e' : Entry = record e { payload = stored } in
    record {
      next = after_append db sid id s e';
      row = entry_row db.entries sid s.head_entry_id id e';
      done = append_entry_lem jsonb db sid id s e' v named fresh found e refl refl accepted;
      valid =
          after_append-IsValid jsonb db sid id s e' v named fresh found
            (keeps (or_empty_object e.payload) stored accepted);
      extended =
          session_path-after_append jsonb db sid id s e' v named fresh found
          ∙ ap (λ p. ok (p ++ entry_row db.entries sid s.head_entry_id id e' ∷ []))
              (cc (session_path_lem db sid s found));
      others = λ other ne. session_path-other jsonb db sid id other s e' v named fresh found ne;
      kind = refl;
      row_payload = refl;
      commit = refl;
    }
