-- ===== src/Session/Replay.antt =====
-- internal/session/message.go and store.go: what a run records is what a later run replays, through
-- the JSON of internal/provider/provider.go and the jsonb column of the database.
use eika.Common.{
  Result, ok, ◌>>=◌, ◌≡◌, true, false, String, List, [], ◌∷◌, ◌++◌, map, Option, some, or_fail,
  if◌then◌else◌,
}
use eika.Agent.Compacted.{Compaction, compacted}
use eika.Provider.{Message, ToolCall}
use eika.Provider.Json.{
  Json, WireCall, WireMessage, or_empty_document, marshal_message, unmarshal_message,
}
use eika.Session.Message.{Codec, Error, encode, message_entry, compaction_entry}
use eika.Store.{Entry, Jsonb, or_empty_object}

-- What a run hands to its store, in order: a message with the commit that it was produced at, or a
-- compaction.
pub data Recorded : Type 0 where
  message : Message → String → Recorded
  compaction : Compaction → Recorded

-- The conversation that the run itself has then.
abbrev pub in_memory : List Message → Recorded → List Message
in_memory conversation (message m commit) = conversation ++ m ∷ []
in_memory conversation (compaction c) = compacted conversation c

abbrev pub in_memory_all : List Message → List Recorded → List Message
in_memory_all conversation [] = conversation
in_memory_all conversation (r ∷ rs) = in_memory_all (in_memory conversation r) rs

module _ (j : Codec) where
  unfoldable pub entry_of : Recorded → Result Error Entry
  entry_of (message m commit) = message_entry j m commit
  entry_of (compaction c) = compaction_entry j c

-- What a run records, as the database gives it back: the payload of each entry is put into a jsonb
-- column. A record that cannot be written, or that the database refuses, ends the run.
module _ (j : Codec) (jsonb : Jsonb) where
  unfoldable pub entry_stored : Recorded → Result Error Entry
  unfolding entry_of
  entry_stored r = do
    e ← entry_of j r
    stored ← or_fail encode (jsonb (or_empty_object e.payload))
    ok (record e { payload = stored })

  unfoldable pub stored_all : List Recorded → Result Error (List Entry)
  unfolding entry_stored
  stored_all [] = ok []
  stored_all (r ∷ rs) = do e ← entry_stored r; es ← stored_all rs; ok (e ∷ es)

-- The codec of the program: messages with the methods of their tool calls.
abbrev pub json_codec : Json → (Compaction → Option String) → (String → Option Compaction) → Codec
json_codec json write read = record {
  marshal_message = marshal_message json;
  unmarshal_message = unmarshal_message json;
  marshal_compaction = write;
  unmarshal_compaction = read;
}

-- A tool call as it is read back: valid arguments, `{}` for none, come back as the same document
-- in the spelling of the encoder and the database, malformed ones as the same text.
module _ (json : Json) (respell : String → String) where
  abbrev pub read_back_arguments : String → String
  read_back_arguments a =
      if json.is_valid (or_empty_document a) then respell (or_empty_document a) else a

  abbrev pub read_back_call : ToolCall → ToolCall
  read_back_call c = record c { arguments = read_back_arguments c.arguments }

  abbrev pub read_back : Message → Message
  read_back m = record m { tool_calls = map read_back_call m.tool_calls }

abbrev pub respell_call : (String → String) → WireCall → WireCall
respell_call respell w = record w { arguments = respell w.arguments }

-- What `encoding/json` and the database document. A document that was encoded and stored decodes to
-- what it was made from, except that a raw document in it is spelled anew (`respell`: without
-- spaces, and as jsonb prints a value). A document stays one when it is spelled anew, the empty text
-- is none, `{}` is one, and so is a string that is encoded, which decodes to the string.
pub record Documented (json : Json) (write : Compaction → Option String)
    (read : String → Option Compaction) (jsonb : Jsonb) (respell : String → String) : Type 0 where
  pub empty_invalid : json.is_valid "" ≡ false
  pub object_valid : json.is_valid "{}" ≡ true
  pub respelled_valid :
      (raw : String) → json.is_valid raw ≡ true → json.is_valid (respell raw) ≡ true
  pub string_valid : (s : String) → json.is_valid (json.marshal_string s) ≡ true
  pub string_back :
      (s : String)
      → json.is_valid s ≡ false
      → json.unmarshal_string (respell (json.marshal_string s)) ≡ some s
  pub wire_back :
      (w : WireMessage) (text stored : String)
      → json.marshal_wire w ≡ some text
      → jsonb (or_empty_object text) ≡ some stored
      → json.unmarshal_wire stored ≡ some (record w { calls = map (respell_call respell) w.calls })
  pub compaction_back :
      (c : Compaction) (text stored : String)
      → write c ≡ some text
      → jsonb (or_empty_object text) ≡ some stored
      → read stored ≡ some c
