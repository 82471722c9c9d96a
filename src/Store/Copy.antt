-- ===== src/Store/Copy.antt =====
-- internal/store/entries.go: the loop of `ForkSession` that copies a path, entry by entry.
use mathlib.Core.List.{map-append}
use eika.Common.{
  Result, err, some, ok, >>=-ok, ℕ, suc, ◌≡◌, ◌≢◌, inr, refl, sym, ap, ap₂, ◌∙◌, subst, String,
  List, [], ◌∷◌, ◌++◌, map, append-nil, append_assoc, none, arith, All,
}
use eika.Store.{
  Jsonb, Error, invalid_payload, insert_row, Entry, EntryKind, Session, Db, find_entry, path_query,
  entry_row, insert_entry, copy_path,
}
use eika.Store.Append.{path_query-kept}
use eika.Store.Valid.{IsStored, HeadIsIn, IsOwn, IsKnown, IsKnown-cons, heads-cons}
use eika.Store.Walk.{IsTree, IsNext, find_entry_here}
use eika.Store.Paths.{path_query-newest}

-- What a copy of an entry keeps.
abbrev pub content : Entry → EntryKind × String × String
content e = (e.kind, e.payload, e.commit)

insert_row-ok :
    (db db' : Db) (sid parent id : String) (e row : Entry)
    → insert_row db sid parent id e ≡ ok (db', row)
    → (find_entry db.entries id ≡ none)
      × (row ≡ entry_row db.entries sid parent id e)
      × (db' ≡ record db { entries = entry_row db.entries sid parent id e ∷ db.entries })
unfolding insert_row
insert_row-ok db db' sid parent id e row h = ground arith

-- An entry whose payload came from the database is inserted as it is.
insert_entry-ok :
    (jsonb : Jsonb) (db db' : Db) (sid parent id : String) (e row : Entry)
    → IsStored jsonb e
    → insert_entry jsonb db sid parent id e ≡ ok (db', row)
    → (find_entry db.entries id ≡ none)
      × (row ≡ entry_row db.entries sid parent id e)
      × (db' ≡ record db { entries = entry_row db.entries sid parent id e ∷ db.entries })
unfolding insert_entry
insert_entry-ok jsonb db db' sid parent id e row stored h =
    insert_row-ok db db' sid parent id e row (
      sym (
        ap
          (λ o. elim o as (λ _. Result Error (Db × Entry)) [
            | none ↦ err invalid_payload
            | some p ↦ insert_row db sid parent id (record e { payload = p })
          ])
          stored)
      ∙ h)

-- What the loop has done when it has copied `path`.
pub record Copied (jsonb : Jsonb) (db db' : Db) (sid parent last : String) (path : List Entry)
    : Type 0 where
  pub stored : All (IsStored jsonb) db'.entries
  pub tree : IsTree db'.entries
  pub sessions : db'.sessions ≡ db.sessions
  pub own : IsOwn db'.entries sid last
  pub copies :
      map content (path_query db'.entries last)
      ≡ map content (path_query db.entries parent) ++ map content path
  pub heads : (ss : List Session) → All (HeadIsIn db.entries) ss → All (HeadIsIn db'.entries) ss
  pub known : (id : String) → IsKnown db.entries id → IsKnown db'.entries id
  pub kept :
      (id : String) → IsKnown db.entries id → path_query db'.entries id ≡ path_query db.entries id

row-IsNext :
    (db : Db) (sid parent id : String) (e : Entry)
    → id ≢ ""
    → find_entry db.entries id ≡ none
    → IsOwn db.entries sid parent
    → IsNext db.entries (entry_row db.entries sid parent id e)
row-IsNext db sid parent id e named fresh own = record {
  named = named;
  fresh = fresh;
  parent = own;
  above = omega arith;
}

row-content :
    (es : List Entry) (sid parent id : String) (e : Entry)
    → content (entry_row es sid parent id e) ≡ content e
row-content es sid parent id e = refl

Copied-nil :
    (jsonb : Jsonb) (db : Db) (sid parent : String)
    → All (IsStored jsonb) db.entries
    → IsTree db.entries
    → IsOwn db.entries sid parent
    → Copied jsonb db db sid parent parent []
Copied-nil jsonb db sid parent all_stored t own = record {
  stored = all_stored;
  tree = t;
  sessions = refl;
  own = own;
  copies = sym (append-nil (map content (path_query db.entries parent)));
  heads = λ ss a. a;
  known = λ i k. k;
  kept = λ i k. refl;
}

-- One round of the loop, then the rest of it.
Copied-cons :
    (jsonb : Jsonb) (db db' : Db) (sid parent id last : String) (e : Entry) (path : List Entry)
    → IsTree db.entries
    → IsNext db.entries (entry_row db.entries sid parent id e)
    → IsOwn db.entries sid parent
    → Copied jsonb
        (record db { entries = entry_row db.entries sid parent id e ∷ db.entries })
        db'
        sid
        id
        last
        path
    → Copied jsonb db db' sid parent last (e ∷ path)
Copied-cons jsonb db db' sid parent id last e path t n own c =
    let row = entry_row db.entries sid parent id e in
    record {
      stored = c.stored;
      tree = c.tree;
      sessions = c.sessions;
      own = c.own;
      copies =
          c.copies
          ∙ ap (λ p. map content p ++ map content path) (path_query-newest row db.entries n t)
          ∙ rw
              (
                map-append,
                append_assoc (map content (path_query db.entries parent)),
                row-content db.entries sid parent id e,
              )
              refl;
      heads = λ ss a. c.heads ss (heads-cons row db.entries ss n a);
      known = λ i k. c.known i (IsKnown-cons row db.entries i n k);
      kept = λ i k.
          c.kept i (IsKnown-cons row db.entries i n k) ∙ path_query-kept row db.entries i n t k;
    }

pub copy_path-Copied :
    (jsonb : Jsonb) (db db' : Db) (sid parent last : String) (ids : ℕ → String) (k : ℕ)
    (path : List Entry)
    → All (IsStored jsonb) path
    → All (IsStored jsonb) db.entries
    → IsTree db.entries
    → ((k : ℕ) → ids k ≢ "")
    → IsOwn db.entries sid parent
    → copy_path jsonb db sid parent ids k path ≡ ok (db', last)
    → Copied jsonb db db' sid parent last path
unfolding copy_path
copy_path-Copied jsonb db db' sid parent last ids k [] given all_stored t named own h =
    let same_db : db ≡ db' = cc in
    let same_id : parent ≡ last = cc in
    subst (λ d. Copied jsonb db d sid parent last []) same_db
      (subst (λ l. Copied jsonb db db sid parent l []) same_id
        (Copied-nil jsonb db sid parent all_stored t own))
copy_path-Copied jsonb db db' sid parent last ids k (e ∷ path) (is_stored, given) all_stored t named
      own h =
    let (r, done, rest) =
      >>=-ok (insert_entry jsonb db sid parent (ids k) e)
        (λ r. copy_path jsonb r.0 sid r.1.id ids (suc k) path) h in
    let (fresh, is_row, is_db) =
      insert_entry-ok jsonb db r.0 sid parent (ids k) e r.1 is_stored done in
    let row = entry_row db.entries sid parent (ids k) e in
    let next : Db = record db { entries = row ∷ db.entries } in
    let n = row-IsNext db sid parent (ids k) e (named k) fresh own in
    Copied-cons jsonb db db' sid parent (ids k) last e path t n own (
      copy_path-Copied jsonb next db' sid (ids k) last ids (suc k) path given
        (is_stored, all_stored) (n, t) named (inr (row, find_entry_here row db.entries, refl))
        (ap₂ (λ (d : Db) i. copy_path jsonb d sid i ids (suc k) path) (sym is_db)
            (ap (λ (x : Entry). x.id) (sym is_row))
          ∙ rest))
