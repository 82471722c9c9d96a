-- ===== src/Tests/Store.antt =====
-- Runs of internal/store/entries.go.
use eika.Common.{
  err, Bool, true, Option, some, if◌then◌else◌, subst, ℕ, zero, suc, ◌≡◌, ◌≢◌, inl, inr, refl,
  String, str_eq, str_eq_iff, false, [], ◌∷◌, none, arith,
}
use eika.Store.{
  Jsonb, invalid_payload, or_empty_object, Entry, EntryKind, Session, by_user, Db, not_found,
  ForkOptions, find_entry, find_session, max_seq, append_entry, set_session_head, session_path,
  fork_session, child_entries, path_query,
}
use eika.Store.Walk.{IsTree}
use eika.Store.Append.{Appended, append_entry-Appended}
use eika.Store.Valid.{Keeps, IsValid}
use eika.Store.Head.{Moved, set_session_head-Moved}
use eika.Store.Fork.{Forked, fork_session-Forked}

-- A stand-in for a jsonb column that holds empty documents only, and spells them its own way.
abbrev empty_documents : Jsonb
empty_documents text =
    if str_eq text "{ }" then some "{}" else if str_eq text "{}" then some "{}" else none

empty_documents-Keeps : Keeps empty_documents
empty_documents-Keeps t u h = at (str_eq t "{ }") (str_eq t "{}") h
  where
    at :
        (a b : Bool)
        → ◌≡◌ {A = Option String} (if a then some "{}" else if b then some "{}" else none) (some u)
        → empty_documents (or_empty_object u) ≡ some u
    at true b same =
        subst (λ x. empty_documents (or_empty_object x) ≡ some x) {x = "{}"} (cc same) refl
    at false true same =
        subst (λ x. empty_documents (or_empty_object x) ≡ some x) {x = "{}"} (cc same) refl
    at false false same = cc same

abbrev pub root : Entry
root = record {
  id = "a";
  session_id = "s";
  parent_id = "";
  seq = 1;
  kind = EntryKind.user;
  payload = "{}";
  commit = "";
}

abbrev pub answer : Entry
answer = record {
  id = "b";
  session_id = "s";
  parent_id = "a";
  seq = 2;
  kind = EntryKind.assistant;
  payload = "{}";
  commit = "c1";
}

abbrev chat : Session
chat = record {
  id = "s";
  workspace_id = "w";
  title = "Chat";
  untitled = false;
  kind = by_user;
  head_entry_id = "b";
  parent_session_id = "";
  tools = none;
  profile_id = "";
  overrides = "{}";
}

abbrev two_entries : Db
two_entries = record { sessions = chat ∷ []; entries = answer ∷ root ∷ [] }

differ : (s t : String) → str_eq s t ≡ false → s ≢ t
differ s t h = ground (arith, str_eq_iff s t)

pub two-IsTree : IsTree (answer ∷ root ∷ [])
unfolding find_entry max_seq
two-IsTree = (
  record {
    named = differ "b" "" refl;
    fresh = refl;
    parent = inr (root, refl, refl);
    above = omega arith;
  },
  (record { named = differ "a" "" refl; fresh = refl; parent = inl refl; above = omega arith }, tt),
)

two_entries-IsValid : IsValid empty_documents two_entries
unfolding find_entry
two_entries-IsValid = record {
  stored = (refl, (refl, tt));
  tree = two-IsTree;
  heads = (inr (answer, refl, refl), tt);
}

abbrev new : Entry
new = record root { kind = EntryKind.tool_result; payload = "{ }" }

append_entry-Appended_example :
    Appended empty_documents two_entries "s" "c" new "{}" (root ∷ answer ∷ [])
unfolding find_entry find_session session_path path_query
append_entry-Appended_example =
    append_entry-Appended empty_documents two_entries "s" "c" chat new "{}" (root ∷ answer ∷ [])
      empty_documents-Keeps two_entries-IsValid (differ "c" "" refl) refl refl refl refl

abbrev branched : Db
branched = record two_entries { sessions = record chat { head_entry_id = "a" } ∷ [] }

set_session_head-Moved_example : Moved empty_documents two_entries branched "s" "a"
unfolding set_session_head find_entry find_session
set_session_head-Moved_example =
    set_session_head-Moved empty_documents two_entries branched "s" "a" two_entries-IsValid refl

abbrev fork_ids : ℕ → String
fork_ids zero = "f0"
fork_ids (suc n) = "f1"

fork_ids_named : (k : ℕ) → fork_ids k ≢ ""
fork_ids_named zero = differ "f0" "" refl
fork_ids_named (suc k) = differ "f1" "" refl

abbrev untitled_fork : ForkOptions
untitled_fork = record { title = ""; workspace_id = "" }

abbrev forked : Session
forked = record chat {
  id = "t";
  kind = eika.Store.by_fork;
  head_entry_id = "f1";
  parent_session_id = "s";
}

abbrev after_fork : Db
after_fork = record {
  sessions = forked ∷ chat ∷ [];
  entries =
      record answer { id = "f1"; session_id = "t"; parent_id = "f0" }
      ∷ record root { id = "f0"; session_id = "t" }
      ∷ answer
      ∷ root
      ∷ [];
}

fork_session-Forked_example :
    Forked empty_documents two_entries after_fork "s" "b" "t" untitled_fork forked
unfolding fork_session path_query find_entry find_session max_seq
fork_session-Forked_example =
    fork_session-Forked empty_documents two_entries after_fork "s" "b" "t" untitled_fork fork_ids
      forked two_entries-IsValid fork_ids_named refl

-- A head that is no entry of the session is refused.
foreign_head : set_session_head two_entries "s" "f0" ≡ err not_found
unfolding set_session_head find_entry
foreign_head = refl

-- A payload that the database does not accept is refused, and nothing is written.
no_document :
    append_entry empty_documents two_entries "s" "c" (record new { payload = "{" })
    ≡ err invalid_payload
unfolding append_entry find_session
no_document = refl
