-- ===== src/Store/Fork.antt =====
-- internal/store/entries.go: `ForkSession`, which copies a path into a session of its own.
use eika.Common.{
  ok, >>=-ok, ℕ, ◌≡◌, ◌≢◌, inl, inr, refl, sym, ap, ◌∙◌, subst, String, str_eq_iff, List, ◌∷◌, ◌++◌,
  map, none, some, arith, All, Option-cases,
}
use eika.Store.{
  Jsonb, Entry, Session, Db, ForkOptions, find_session, path_query, with_head, session_path,
  create_session, copy_path, finish_fork, fill_fork, fork_rows, fork_session, fork_row,
}
use eika.Store.Append.{session_path_lem, head_known}
use eika.Store.Valid.{
  IsStored, IsValid, HeadIsIn, heads-with_head, find_session-with_head_self,
  find_session-with_head_ne,
}
use eika.Store.Paths.{path_query_absent, All-path_query}
use eika.Store.Copy.{content, Copied, copy_path-Copied}

-- A fork that succeeds.

pub record Forked (jsonb : Jsonb) (db db' : Db) (sid eid fid : String) (opts : ForkOptions)
    (fork : Session) : Type 0 where
  pub valid : IsValid jsonb db'
  pub path :
      (p : List Entry) × (session_path db' fid ≡ ok p)
      × (map content p ≡ map content (path_query db.entries eid))
  pub others : (other : String) → fid ≢ other → session_path db' other ≡ session_path db other
  pub row :
      (src : Session) × (find_session db.sessions sid ≡ some src)
      × (fork ≡ record (fork_row src fid opts) { head_entry_id = fork.head_entry_id })

fork_session-ok :
    (jsonb : Jsonb) (db db' : Db) (sid eid fid : String) (opts : ForkOptions) (ids : ℕ → String)
    (fork : Session)
    → fork_session jsonb db sid eid opts fid ids ≡ ok (db', fork)
    → (src : Session) × (find_session db.sessions sid ≡ some src)
      × (fork_rows jsonb db (fork_row src fid opts) ids (path_query db.entries eid)
          ≡ ok (db', fork))
unfolding fork_session
fork_session-ok jsonb db db' sid eid fid opts ids fork h =
    elim (Option-cases (find_session db.sessions sid)) [
      | inl gone ↦ absurd (ground (arith, gone))
      | inr src ↦ (src.0, src.1, ground (arith, src.1))
    ]

create_session-ok :
    (db db' : Db) (s : Session)
    → create_session db s ≡ ok db'
    → (find_session db.sessions s.id ≡ none) × (db' ≡ record db { sessions = s ∷ db.sessions })
unfolding create_session
create_session-ok db db' s h = ground arith

finish_fork-ok :
    (mid db' : Db) (row fork : Session) (last : String)
    → finish_fork mid row last ≡ ok (db', fork)
    → (db' ≡ record mid { sessions = with_head mid.sessions row.id last })
      × (fork ≡ record row { head_entry_id = last })
unfolding finish_fork
finish_fork-ok mid db' row fork last h = ground arith

-- The steps of a fork that succeeds, by the states between them.
record Steps (jsonb : Jsonb) (db db' : Db) (row fork : Session) (ids : ℕ → String)
    (path : List Entry) : Type 0 where
  mid : Db
  last : String
  fresh : find_session db.sessions row.id ≡ none
  copied :
      copy_path jsonb (record db { sessions = row ∷ db.sessions }) row.id "" ids 0 path
      ≡ ok (mid, last)
  after : db' ≡ record mid { sessions = with_head mid.sessions row.id last }
  result : fork ≡ record row { head_entry_id = last }

fork_rows-ok :
    (jsonb : Jsonb) (db db' : Db) (row fork : Session) (ids : ℕ → String) (path : List Entry)
    → fork_rows jsonb db row ids path ≡ ok (db', fork)
    → Steps jsonb db db' row fork ids path
unfolding fork_rows fill_fork
fork_rows-ok jsonb db db' row fork ids path h =
    let (db1, created, rest) =
      >>=-ok (create_session db row) (λ d. fill_fork jsonb d row ids path) h in
    let (fresh, is_db1) = create_session-ok db db1 row created in
    filled fresh (
      >>=-ok (copy_path jsonb (record db { sessions = row ∷ db.sessions }) row.id "" ids 0 path)
        (λ r. finish_fork r.0 row r.1)
        (ap (λ d. fill_fork jsonb d row ids path) (sym is_db1) ∙ rest))
  where
    filled :
        find_session db.sessions row.id ≡ none
        → (r : Db × String) × (copy_path jsonb
              (record db { sessions = row ∷ db.sessions })
              row.id
              ""
              ids
              0
              path
            ≡ ok r)
          × (finish_fork r.0 row r.1 ≡ ok (db', fork))
        → Steps jsonb db db' row fork ids path
    filled fresh ((mid, last), copied, finished) =
        let (after, result) = finish_fork-ok mid db' row fork last finished in
        record {
          mid = mid;
          last = last;
          fresh = fresh;
          copied = copied;
          after = after;
          result = result;
        }

find_session_here : (s : Session) (ss : List Session) → find_session (s ∷ ss) s.id ≡ some s
unfolding find_session
find_session_here s ss = ground (arith, str_eq_iff s.id s.id)

find_session_other :
    (s : Session) (ss : List Session) (other : String)
    → s.id ≢ other
    → find_session (s ∷ ss) other ≡ find_session ss other
unfolding find_session
find_session_other s ss other ne = ground (arith, str_eq_iff s.id other)

-- The database that the loop leaves, with the head of the new session set.
module _ (jsonb : Jsonb) (db mid : Db) (row : Session) (last : String) (path : List Entry)
    (v : IsValid jsonb db) (unset : row.head_entry_id ≡ "")
    (c : Copied jsonb (record db { sessions = row ∷ db.sessions }) mid row.id "" last path) where
  headed : Db
  headed = record mid { sessions = with_head mid.sessions row.id last }

  headed-IsValid : IsValid jsonb headed
  unfolding headed
  headed-IsValid = record {
    stored = c.stored;
    tree = c.tree;
    heads = heads-with_head mid.entries mid.sessions row.id last c.own (
        subst (All (HeadIsIn mid.entries)) (sym c.sessions)
          (inl unset, c.heads db.sessions v.heads));
  }

  session_path-headed :
      (session_path headed row.id ≡ ok (path_query mid.entries last))
      × (map content (path_query mid.entries last) ≡ map content path)
  unfolding headed
  session_path-headed = (
    session_path_lem headed row.id (record row { head_entry_id = last })
        (find_session-with_head_self mid.sessions row.id last row
          (ap (λ ss. find_session ss row.id) c.sessions ∙ find_session_here row db.sessions)),
    c.copies ∙ ap (λ p. map content p ++ map content path) (path_query_absent db.entries),
  )

  session_path-headed_ne :
      (other : String) → row.id ≢ other → session_path headed other ≡ session_path db other
  unfolding headed
  session_path-headed_ne other ne =
      let same : find_session headed.sessions other ≡ find_session db.sessions other =
        find_session-with_head_ne mid.sessions row.id last other ne
        ∙ ap (λ ss. find_session ss other) c.sessions
        ∙ find_session_other row db.sessions other ne in
      elim (Option-cases (find_session db.sessions other)) [
        | inl gone ↦ unfold session_path in ground (arith, same, gone)
        | inr o ↦
            session_path_lem headed other o.0 (same ∙ o.1)
            ∙ ap ok (c.kept o.0.head_entry_id (head_known jsonb db other o.0 v o.1))
            ∙ sym (session_path_lem db other o.0 o.1)
      ]

-- A fork of a well formed database that succeeds, with ids that are not empty, leaves it well formed.
-- The path of the new session has the same kinds, payloads and commits, in the same order, as the
-- path down to the entry that was forked at; no other session's path changes; and the new session has
-- the source's tools, profile and overrides, and its title and workspace unless others were given.
pub fork_session-Forked :
    (jsonb : Jsonb) (db db' : Db) (sid eid fid : String) (opts : ForkOptions) (ids : ℕ → String)
    (fork : Session)
    → IsValid jsonb db
    → ((k : ℕ) → ids k ≢ "")
    → fork_session jsonb db sid eid opts fid ids ≡ ok (db', fork)
    → Forked jsonb db db' sid eid fid opts fork
fork_session-Forked jsonb db db' sid eid fid opts ids fork v named h =
    let (src, found, wrote) = fork_session-ok jsonb db db' sid eid fid opts ids fork h in
    forked src found
      (fork_rows-ok jsonb db db' (fork_row src fid opts) fork ids (path_query db.entries eid) wrote)
  where
    forked :
        (src : Session)
        → find_session db.sessions sid ≡ some src
        → Steps jsonb db db' (fork_row src fid opts) fork ids (path_query db.entries eid)
        → Forked jsonb db db' sid eid fid opts fork
    forked src found s =
        let row = fork_row src fid opts in
        let c =
          copy_path-Copied jsonb (record db { sessions = row ∷ db.sessions }) s.mid fid "" s.last
            ids 0 (path_query db.entries eid)
            (All-path_query (IsStored jsonb) db.entries eid v.stored) v.stored v.tree named
            (inl refl) s.copied in
        let p = path_query db.entries eid in
        let (is_path, same) = session_path-headed jsonb db s.mid row s.last p v refl c in
        unfold headed in
        subst (λ d. Forked jsonb db d sid eid fid opts fork) (sym s.after)
          (record {
            valid = headed-IsValid jsonb db s.mid row s.last p v refl c;
            path = (path_query s.mid.entries s.last, is_path, same);
            others = session_path-headed_ne jsonb db s.mid row s.last p v refl c;
            row = (
              src,
              found,
              s.result
                  ∙ ap (λ (l : String). record row { head_entry_id = l })
                      (sym (ap (λ (x : Session). x.head_entry_id) s.result)),
            );
          })
