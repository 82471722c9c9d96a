-- ===== src/Session/Replayed.antt =====
-- Session/Replay: the records of a run replay to its conversation.
use eika.Common.{
  suc, zero, ◌-◌, ok, ◌≡◌, refl, false, String, str_eq_iff, List, [], ◌∷◌, ◌++◌, map, map-append,
  length, length-map, drop, Option, some, arith, sym, ap, ◌∙◌, ℕ,
}
use eika.Agent.Compacted.{Compaction, compacted, without_metrics, kept_of}
use eika.Provider.{Message, ToolCall}
use eika.Provider.Json.{
  Json, or_empty_document, arguments_json, decode_tool_arguments, to_wire, to_wire_all, from_wire,
  from_wire_all, wire_message, marshal_message, unmarshal_message,
}
use eika.Session.Message.{
  Codec, or_empty_arguments, any_empty, with_arguments, message_entry, compaction_entry, add_entry,
  add_entries, messages,
}
use eika.Session.Replay.{
  Recorded, message, compaction, in_memory, in_memory_all, entry_stored, stored_all, json_codec,
  read_back_arguments, read_back_call, read_back, respell_call, Documented,
}
use eika.Store.{Entry, Jsonb, or_empty_object}

-- `withArguments` spells out the empty arguments of every call, whether it copies the calls or not.
any_empty-map : (cs : List ToolCall) → any_empty cs ≡ false → map or_empty_arguments cs ≡ cs
any_empty-map [] h = refl
any_empty-map (c ∷ cs) h = ground (arith, any_empty-map cs)

with_arguments_lem :
    (m : Message) → with_arguments m ≡ record m { tool_calls = map or_empty_arguments m.tool_calls }
unfolding with_arguments
with_arguments_lem m = ground (arith, any_empty-map m.tool_calls)

module _ {A B : Type 0} (f : A → B) where
  map-drop : (n : ℕ) (xs : List A) → map f (drop n xs) ≡ drop n (map f xs)
  map-drop zero xs = refl
  map-drop (suc n) [] = refl
  map-drop (suc n) (x ∷ xs) = map-drop n xs

module _ (json : Json) (respell : String → String) where
  without_metrics-read_back :
      (ms : List Message)
      → map without_metrics (map (read_back json respell) ms)
        ≡ map (read_back json respell) (map without_metrics ms)
  without_metrics-read_back [] = refl
  without_metrics-read_back (m ∷ ms) = rw (without_metrics-read_back ms)

  -- A compaction keeps of the messages read back what it keeps of the messages.
  compacted-read_back :
      (ms : List Message) (c : Compaction)
      → compacted (map (read_back json respell) ms) c
        ≡ map (read_back json respell) (compacted ms c)
  unfolding compacted
  compacted-read_back ms c = rw (
    length-map ms (read_back json respell),
    sym (map-drop (read_back json respell) (length ms - kept_of ms c) ms),
    without_metrics-read_back (drop (length ms - kept_of ms c) ms),
  )

module _ (j : Codec) where
  message_entry-payload :
      (m : Message) (commit : String) (e : Entry)
      → message_entry j m commit ≡ ok e
      → j.marshal_message (with_arguments m) ≡ some e.payload
  unfolding message_entry
  message_entry-payload m commit e h = ground arith

  -- The entry of a message, whatever its payload has become, adds the message that it decodes to.
  add_entry-message_entry :
      (out : List Message) (m m' : Message) (commit : String) (e : Entry) (stored : String)
      → message_entry j m commit ≡ ok e
      → j.unmarshal_message stored ≡ some m'
      → add_entry j out (record e { payload = stored }) ≡ ok (out ++ m' ∷ [])
  unfolding message_entry add_entry
  add_entry-message_entry out m m' commit e stored h u = ground arith

module _ (json : Json) (write : Compaction → Option String) (read : String → Option Compaction)
    (jsonb : Jsonb) (respell : String → String) (d : Documented json write read jsonb respell) where
  -- The arguments of a call, written with their marker and spelled anew, are decoded to what the
  -- description says.
  decode_tool_arguments-arguments_json :
      (a : String)
      → decode_tool_arguments json (respell (arguments_json json a).0) (arguments_json json a).1
        ≡ some (read_back_arguments json respell a)
  unfolding arguments_json decode_tool_arguments
  decode_tool_arguments-arguments_json a = ground (
    arith,
    d.empty_invalid,
    d.object_valid,
    d.respelled_valid (or_empty_document a),
    d.respelled_valid (json.marshal_string a),
    d.string_valid a,
    d.string_back a,
    str_eq_iff a "",
    str_eq_iff (respell (or_empty_document a)) "",
    str_eq_iff (respell (json.marshal_string a)) "",
  )

  from_wire-to_wire :
      (c : ToolCall)
      → from_wire json (respell_call respell (to_wire json c))
        ≡ some (read_back_call json respell c)
  unfolding from_wire to_wire
  from_wire-to_wire c = rw (from_wire, decode_tool_arguments-arguments_json c.arguments)

  from_wire_all-to_wire_all :
      (cs : List ToolCall)
      → from_wire_all json (map (respell_call respell) (to_wire_all json cs))
        ≡ some (map (read_back_call json respell) cs)
  unfolding from_wire_all
  from_wire_all-to_wire_all [] = refl
  from_wire_all-to_wire_all (c ∷ cs) =
      rw (from_wire_all, from_wire-to_wire c, from_wire_all-to_wire_all cs)

  -- It is the same whether empty arguments are spelled out before a message is written.
  read_back_call-or_empty_arguments :
      (cs : List ToolCall)
      → map (read_back_call json respell) (map or_empty_arguments cs)
        ≡ map (read_back_call json respell) cs
  read_back_call-or_empty_arguments [] = refl
  read_back_call-or_empty_arguments (c ∷ cs) = ground (
    arith,
    read_back_call-or_empty_arguments cs,
    d.object_valid,
    d.empty_invalid,
    str_eq_iff c.arguments "",
  )

  abbrev codec : Codec
  codec = json_codec json write read

  unmarshal_message-marshal_message :
      (m : Message) (text stored : String)
      → marshal_message json m ≡ some text
      → jsonb (or_empty_object text) ≡ some stored
      → unmarshal_message json stored ≡ some (read_back json respell m)
  unfolding marshal_message unmarshal_message
  unmarshal_message-marshal_message m text stored h s = rw (
    unmarshal_message,
    d.wire_back (wire_message json m) text stored h s,
    from_wire_all-to_wire_all m.tool_calls,
  )

  read_back-with_arguments :
      (m : Message) → read_back json respell (with_arguments m) ≡ read_back json respell m
  read_back-with_arguments m =
      rw (with_arguments_lem m, read_back_call-or_empty_arguments m.tool_calls)

  add_entry-message_back :
      (out : List Message) (m : Message) (commit : String) (e : Entry) (stored : String)
      → message_entry codec m commit ≡ ok e
      → jsonb (or_empty_object e.payload) ≡ some stored
      → add_entry codec out (record e { payload = stored })
        ≡ ok (out ++ read_back json respell m ∷ [])
  add_entry-message_back out m commit e stored h s =
      add_entry-message_entry codec out m (read_back json respell m) commit e stored h (
        unmarshal_message-marshal_message (with_arguments m) e.payload stored
          (message_entry-payload codec m commit e h) s
        ∙ ap some (read_back-with_arguments m))

  add_entry-entry_stored :
      (conversation : List Message) (r : Recorded) (e : Entry)
      → entry_stored codec jsonb r ≡ ok e
      → add_entry codec (map (read_back json respell) conversation) e
        ≡ ok (map (read_back json respell) (in_memory conversation r))
  unfolding entry_stored compaction_entry add_entry
  add_entry-entry_stored conversation (message m commit) e h = grind (
    arith,
    add_entry-message_back (map (read_back json respell) conversation) m commit,
    map-append (read_back json respell) conversation (m ∷ []),
  )
  add_entry-entry_stored conversation (compaction c) e h =
      grind (arith, d.compaction_back, compacted-read_back json respell conversation c)

  add_entries-stored_all :
      (conversation : List Message) (rs : List Recorded) (es : List Entry)
      → stored_all codec jsonb rs ≡ ok es
      → add_entries codec (map (read_back json respell) conversation) es
        ≡ ok (map (read_back json respell) (in_memory_all conversation rs))
  unfolding stored_all add_entries
  add_entries-stored_all conversation [] [] h = refl
  add_entries-stored_all conversation [] (e ∷ es) h = cc
  add_entries-stored_all conversation (r ∷ rs) [] h = absurd (ground arith)
  add_entries-stored_all conversation (r ∷ rs) (e ∷ es) h = ground (
    arith,
    add_entry-entry_stored conversation r e,
    add_entries-stored_all (in_memory conversation r) rs es,
  )

  -- The entries that a run records, whatever messages and compactions, in whatever order, replay
  -- from the database to the conversation that the run had, message by message, when every record
  -- could be written and stored. The arguments of a tool call come back as the same document, spelled
  -- as the encoder and the database spell it, as `{}` when they were empty, and, when they are not
  -- valid JSON, as exactly the same text. `encoding/json` and the database do what `Documented` says.
  pub messages-stored_all :
      (rs : List Recorded) (es : List Entry)
      → stored_all codec jsonb rs ≡ ok es
      → messages codec es ≡ ok (map (read_back json respell) (in_memory_all [] rs))
  unfolding messages
  messages-stored_all rs es h = add_entries-stored_all [] rs es h
