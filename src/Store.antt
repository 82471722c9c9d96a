-- ===== src/Store.antt =====
-- internal/store/entries.go, with the session rows of internal/store/sessions.go. A table is the list
-- of its rows, newest first; a transaction that fails returns its error and no database, so nothing
-- of it stays. `NewID` draws random names: the ids that it returns are arguments here. An id that is
-- absent, NULL in the database, is the empty string, as in the Go structs. Times are left out. What
-- the database makes of a text that is put into a jsonb column is the parameter `Jsonb`: the text that
-- it gives back, or none where it refuses the text (no JSON, or a NUL in it).
pub mod Walk
pub mod Paths
pub mod Append
pub mod Valid
pub mod Head
pub mod Fork
pub mod Copy
use eika.Common.{
  ℕ, zero, suc, ◌+◌, max, String, str_eq, Bool, true, false, ◌&&◌, ◌||◌, not, List, [], ◌∷◌, ◌++◌,
  map, Option, none, some, length, ltb, if◌then◌else◌, Result, ok, err, ◌>>=◌,
}

pub data EntryKind : Type 0 where
  user assistant tool_call tool_result system event compaction : EntryKind

pub record Entry : Type 0 where
  pub id : String
  pub session_id : String
  pub parent_id : String
  pub seq : ℕ
  pub kind : EntryKind
  pub payload : String
  pub commit : String

pub data SessionKind : Type 0 where
  by_user by_fork by_agent : SessionKind

-- The tools, the profile and the overrides are only copied from one session to another.
pub record Session : Type 0 where
  pub id : String
  pub workspace_id : String
  pub title : String
  pub untitled : Bool
  pub kind : SessionKind
  pub head_entry_id : String
  pub parent_session_id : String
  pub tools : Option (List String)
  pub profile_id : String
  pub overrides : String

pub record Db : Type 0 where
  pub sessions : List Session
  pub entries : List Entry

pub data Error : Type 0 where
  not_found conflict foreign_key invalid_payload : Error

abbrev pub Jsonb : Type 0
Jsonb = String → Option String

-- SELECT … WHERE id = $1
unfoldable pub find_entry : List Entry → String → Option Entry
find_entry [] id = none
find_entry (e ∷ es) id = if str_eq e.id id then some e else find_entry es id

unfoldable pub find_session : List Session → String → Option Session
find_session [] id = none
find_session (s ∷ ss) id = if str_eq s.id id then some s else find_session ss id

-- coalesce(max(seq), 0) over the entries of one session
unfoldable pub max_seq : List Entry → String → ℕ
max_seq [] sid = 0
max_seq (e ∷ es) sid =
    let rest = max_seq es sid in if str_eq e.session_id sid then max e.seq rest else rest

-- ORDER BY seq
unfoldable pub insert_by_seq : Entry → List Entry → List Entry
insert_by_seq e [] = e ∷ []
insert_by_seq e (x ∷ xs) =
    let rest = insert_by_seq e xs in if ltb e.seq x.seq then e ∷ x ∷ xs else x ∷ rest

unfoldable pub order_by_seq : List Entry → List Entry
unfolding insert_by_seq
order_by_seq [] = []
order_by_seq (e ∷ es) = insert_by_seq e (order_by_seq es)

-- The recursive part of `pathQuery`: an entry, then its ancestors. A NULL parent joins no row.
unfoldable pub walk : ℕ → List Entry → String → List Entry
unfolding find_entry
walk zero es id = []
walk (suc fuel) es id =
    if str_eq id ""
    then []
    else elim (find_entry es id) [ none ↦ [] | some e ↦ e ∷ walk fuel es e.parent_id ]

-- `pathQuery`. A path is no longer than the table.
unfoldable pub path_query : List Entry → String → List Entry
unfolding order_by_seq walk
path_query es id = order_by_seq (walk (length es) es id)

abbrev pub or_empty_object : String → String
or_empty_object payload = if str_eq payload "" then "{}" else payload

-- The row that `insertEntry` writes, of an entry with the payload as it is stored.
abbrev pub entry_row : List Entry → String → String → String → Entry → Entry
entry_row es session_id parent_id id e = record {
  id = id;
  session_id = session_id;
  parent_id = parent_id;
  seq = max_seq es session_id + 1;
  kind = e.kind;
  payload = e.payload;
  commit = e.commit;
}

abbrev missing_parent : List Entry → String → Bool
missing_parent es parent_id =
    not (str_eq parent_id "") && elim (find_entry es parent_id) [ none ↦ true | some _ ↦ false ]

-- The table refuses an id that it has and a parent that it does not have.
unfoldable pub insert_row : Db → String → String → String → Entry → Result Error (Db × Entry)
insert_row db session_id parent_id id e =
    let row = entry_row db.entries session_id parent_id id e in
    elim (find_entry db.entries id) [
      | some _ ↦ err conflict
      | none ↦
          if missing_parent db.entries parent_id
          then err foreign_key
          else ok (record db { entries = row ∷ db.entries }, row)
    ]

unfoldable pub insert_entry :
    Jsonb → Db → String → String → String → Entry → Result Error (Db × Entry)
unfolding insert_row
insert_entry jsonb db session_id parent_id id e = elim (jsonb (or_empty_object e.payload)) [
  | none ↦ err invalid_payload
  | some stored ↦ insert_row db session_id parent_id id (record e { payload = stored })
]

unfoldable pub lock_session_head : Db → String → Result Error String
lock_session_head db session_id = elim (find_session db.sessions session_id) [
  | none ↦ err not_found
  | some s ↦ ok s.head_entry_id
]

abbrev pub with_head : List Session → String → String → List Session
with_head [] sid head = []
with_head (s ∷ ss) sid head =
    (if str_eq s.id sid then record s { head_entry_id = head } else s) ∷ with_head ss sid head

unfoldable pub set_head : Db → String → String → Result Error Db
set_head db session_id entry_id = elim (find_session db.sessions session_id) [
  | none ↦ err not_found
  | some _ ↦ ok (record db { sessions = with_head db.sessions session_id entry_id })
]

unfoldable pub append_entry : Jsonb → Db → String → String → Entry → Result Error (Db × Entry)
unfolding lock_session_head insert_entry set_head
append_entry jsonb db session_id id e = do
  head ← lock_session_head db session_id
  (db', out) ← insert_entry jsonb db session_id head id e
  db'' ← set_head db' session_id out.id
  ok (db'', out)

-- The row that `WHERE id = $1 AND session_id = $2` reads.
unfoldable pub entry_of_session : Db → String → String → Result Error Entry
entry_of_session db session_id entry_id = elim (find_entry db.entries entry_id) [
  | none ↦ err not_found
  | some e ↦ if str_eq e.session_id session_id then ok e else err not_found
]

-- An empty id clears the head.
unfoldable pub set_session_head : Db → String → String → Result Error Db
unfolding set_head entry_of_session
set_session_head db session_id entry_id =
    if str_eq entry_id ""
    then set_head db session_id ""
    else (entry_of_session db session_id entry_id >>= λ e. set_head db session_id entry_id)

unfoldable pub entry : Db → String → Result Error Entry
entry db id = elim (find_entry db.entries id) [ none ↦ err not_found | some e ↦ ok e ]

abbrev filter_entries : (Entry → Bool) → List Entry → List Entry
filter_entries p [] = []
filter_entries p (e ∷ es) = let rest = filter_entries p es in if p e then e ∷ rest else rest

unfoldable pub entries_of : Db → String → List Entry
entries_of db sid = order_by_seq (filter_entries (λ e. str_eq e.session_id sid) db.entries)

unfoldable pub child_entries : Db → String → String → List Entry
child_entries db sid id =
    order_by_seq (filter_entries (λ e. str_eq e.session_id sid && str_eq e.parent_id id) db.entries)

unfoldable pub entry_path : Db → String → String → Result Error (List Entry)
unfolding entry_of_session
entry_path db session_id entry_id = do
  e ← entry_of_session db session_id entry_id
  ok (path_query db.entries entry_id)

unfoldable pub session_path : Db → String → Result Error (List Entry)
session_path db session_id = elim (find_session db.sessions session_id) [
  | none ↦ err not_found
  | some s ↦ ok (if str_eq s.head_entry_id "" then [] else path_query db.entries s.head_entry_id)
]

pub record ForkOptions : Type 0 where
  pub title : String
  pub workspace_id : String

-- `cmp.Or`
abbrev or_else : String → String → String
or_else a b = if str_eq a "" then b else a

abbrev pub fork_row : Session → String → ForkOptions → Session
fork_row src id opts = record {
  id = id;
  workspace_id = or_else opts.workspace_id src.workspace_id;
  title = or_else opts.title src.title;
  untitled = str_eq opts.title "" && src.untitled;
  kind = by_fork;
  head_entry_id = "";
  parent_session_id = src.id;
  tools = src.tools;
  profile_id = src.profile_id;
  overrides = src.overrides;
}

-- The insert of `createSession`, for a session that has its id and kind.
unfoldable pub create_session : Db → Session → Result Error Db
create_session db s = elim (find_session db.sessions s.id) [
  | some _ ↦ err conflict
  | none ↦ ok (record db { sessions = s ∷ db.sessions })
]

-- The loop of `ForkSession` that copies a path: each copy hangs off the one before it. The ids of the
-- copies are `ids k`, `ids (k + 1)`, and so on.
unfoldable pub copy_path :
    Jsonb → Db → String → String → (ℕ → String) → ℕ → List Entry → Result Error (Db × String)
unfolding insert_entry
copy_path jsonb db sid parent ids k [] = ok (db, parent)
copy_path jsonb db sid parent ids k (e ∷ path) = insert_entry jsonb db sid parent (ids k) e >>= λ r.
    copy_path jsonb r.0 sid r.1.id ids (suc k) path

abbrev pub last_session : List Entry → String
last_session [] = ""
last_session (e ∷ []) = e.session_id
last_session (e ∷ f ∷ es) = last_session (f ∷ es)

-- The steps of `ForkSession` that write, last first: the head on the last copy, after the copies,
-- after the session.
unfoldable pub finish_fork : Db → Session → String → Result Error (Db × Session)
unfolding set_head
finish_fork db row last = do
  db' ← set_head db row.id last
  ok (db', record row { head_entry_id = last })

unfoldable pub fill_fork :
    Jsonb → Db → Session → (ℕ → String) → List Entry → Result Error (Db × Session)
unfolding copy_path finish_fork
fill_fork jsonb db row ids path = do
  (db', last) ← copy_path jsonb db row.id "" ids 0 path
  finish_fork db' row last

unfoldable pub fork_rows :
    Jsonb → Db → Session → (ℕ → String) → List Entry → Result Error (Db × Session)
unfolding create_session fill_fork
fork_rows jsonb db row ids path = do db' ← create_session db row; fill_fork jsonb db' row ids path

abbrev pub ends_in : List Entry → String → Bool
ends_in [] session_id = false
ends_in (e ∷ es) session_id = str_eq (last_session (e ∷ es)) session_id

unfoldable pub fork_session :
    Jsonb → Db → String → String → ForkOptions → String → (ℕ → String) → Result Error (Db × Session)
unfolding fork_rows
fork_session jsonb db session_id entry_id opts fork_id ids =
    elim (find_session db.sessions session_id) [
      | none ↦ err not_found
      | some src ↦
          if ends_in (path_query db.entries entry_id) session_id
          then fork_rows jsonb db (fork_row src fork_id opts) ids (path_query db.entries entry_id)
          else err not_found
    ]
