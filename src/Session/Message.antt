-- ===== src/Session/Message.antt =====
-- internal/session/message.go: entries from messages and back. `encoding/json` at the two types that
-- the package encodes is the parameter `Codec`: a document is the text of a payload, and decoding
-- fails on a text that is no document of the type. Session.Replay has the codec that the methods of
-- a tool call make.
use eika.Common.{
  Result, ok, err, ◌>>=◌, or_fail, Bool, true, false, ◌||◌, String, str_eq, List, [], ◌∷◌, ◌++◌,
  map, Option, none, some, if◌then◌else◌,
}
use eika.Provider.{Message, ToolCall, Role}
use eika.Agent.Compacted.{Compaction, compacted}
use eika.Store.{Entry, EntryKind}

pub record Codec : Type 0 where
  pub marshal_message : Message → Option String
  pub unmarshal_message : String → Option Message
  pub marshal_compaction : Compaction → Option String
  pub unmarshal_compaction : String → Option Compaction

-- The errors of the package.
pub data Error : Type 0 where
  unknown_role encode decode : Error

unfoldable pub kind_of : Role → Result Error EntryKind
kind_of Role.user = ok EntryKind.user
kind_of Role.assistant = ok EntryKind.assistant
kind_of Role.tool = ok EntryKind.tool_result
kind_of (Role.other r) = err unknown_role

abbrev pub or_empty_arguments : ToolCall → ToolCall
or_empty_arguments c = if str_eq c.arguments "" then record c { arguments = "{}" } else c

abbrev pub any_empty : List ToolCall → Bool
any_empty [] = false
any_empty (c ∷ cs) = str_eq c.arguments "" || any_empty cs

-- `withArguments`
unfoldable pub with_arguments : Message → Message
with_arguments m =
    if any_empty m.tool_calls
    then record m { tool_calls = map or_empty_arguments m.tool_calls }
    else m

-- An entry as its caller gives it to the store, which assigns the rest.
abbrev pub new_entry : EntryKind → String → String → Entry
new_entry kind payload commit = record {
  id = "";
  session_id = "";
  parent_id = "";
  seq = 0;
  kind = kind;
  payload = payload;
  commit = commit;
}

-- Whether an entry of a kind is a message of the conversation.
abbrev pub is_message : EntryKind → Bool
is_message EntryKind.user = true
is_message EntryKind.assistant = true
is_message EntryKind.tool_call = true
is_message EntryKind.tool_result = true
is_message _ = false

abbrev pub is_compaction : EntryKind → Bool
is_compaction EntryKind.compaction = true
is_compaction _ = false

module _ (j : Codec) where
  unfoldable pub message_entry : Message → String → Result Error Entry
  unfolding kind_of with_arguments
  message_entry m commit = do
    kind ← kind_of m.role
    payload ← or_fail encode (j.marshal_message (with_arguments m))
    ok (new_entry kind payload commit)

  -- `Message`: `none` for an entry that is not part of the conversation.
  unfoldable pub message_of : Entry → Result Error (Option Message)
  message_of e =
      if is_message e.kind
      then (or_fail decode (j.unmarshal_message e.payload) >>= λ m. ok (some m))
      else ok none

  unfoldable pub compaction_entry : Compaction → Result Error Entry
  compaction_entry c = do
    payload ← or_fail encode (j.marshal_compaction c)
    ok (new_entry EntryKind.compaction payload "")

  unfoldable pub compaction_of : Entry → Result Error Compaction
  compaction_of e = or_fail decode (j.unmarshal_compaction e.payload)

  -- What one round of the loop of `Messages` makes of `out`.
  unfoldable pub add_entry : List Message → Entry → Result Error (List Message)
  unfolding compaction_of message_of
  add_entry out e =
      if is_compaction e.kind
      then (compaction_of e >>= λ c. ok (compacted out c))
      else (message_of e >>= λ m. ok (elim m [ none ↦ out | some m ↦ out ++ m ∷ [] ]))

  unfoldable pub add_entries : List Message → List Entry → Result Error (List Message)
  unfolding add_entry
  add_entries out [] = ok out
  add_entries out (e ∷ es) = add_entry out e >>= λ out'. add_entries out' es

  unfoldable pub messages : List Entry → Result Error (List Message)
  unfolding add_entries
  messages es = add_entries [] es
