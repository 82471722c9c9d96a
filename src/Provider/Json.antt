-- ===== src/Provider/Json.antt =====
-- internal/provider/provider.go: how a message with its tool calls is written as JSON and read
-- back. What `encoding/json` does is the parameter `Json`: with a plain text, and with the document of
-- a message whose tool calls are the wire types of `MarshalJSON` and `UnmarshalJSON`.
use eika.Common.{
  Bool, true, false, String, str_eq, if◌then◌else◌, List, [], ◌∷◌, Option, none, some,
}
use eika.Provider.{Message, ToolCall}

-- The struct of `ToolCall.MarshalJSON`. Its arguments are a raw document.
pub record WireCall : Type 0 where
  pub id : String
  pub name : String
  pub arguments : String
  pub arguments_malformed : Bool

-- A message whose tool calls stand beside it, as they are written. `rest` has none.
pub record WireMessage : Type 0 where
  pub rest : Message
  pub calls : List WireCall

-- `json.Valid`, `json.Marshal` and `json.Unmarshal` of a string, and of a message.
pub record Json : Type 0 where
  pub is_valid : String → Bool
  pub marshal_string : String → String
  pub unmarshal_string : String → Option String
  pub marshal_wire : WireMessage → Option String
  pub unmarshal_wire : String → Option WireMessage

abbrev pub or_empty_document : String → String
or_empty_document raw = if str_eq raw "" then "{}" else raw

module _ (json : Json) where
  -- `ToolArguments.JSON`
  unfoldable pub arguments_json : String → String × Bool
  arguments_json a =
      let raw = or_empty_document a in
      if json.is_valid raw then (raw, false) else (json.marshal_string a, true)

  unfoldable pub decode_tool_arguments : String → Bool → Option String
  decode_tool_arguments given malformed =
      let raw = or_empty_document given in
      if malformed then json.unmarshal_string raw else if json.is_valid raw then some raw else none

  -- `ToolCall.MarshalJSON`, up to the text
  unfoldable pub to_wire : ToolCall → WireCall
  unfolding arguments_json
  to_wire c = record {
    id = c.id;
    name = c.name;
    arguments = (arguments_json c.arguments).0;
    arguments_malformed = (arguments_json c.arguments).1;
  }

  abbrev pub to_wire_all : List ToolCall → List WireCall
  to_wire_all [] = []
  to_wire_all (c ∷ cs) = to_wire c ∷ to_wire_all cs

  -- `ToolCall.UnmarshalJSON`, from the wire struct on
  unfoldable pub from_wire : WireCall → Option ToolCall
  unfolding decode_tool_arguments
  from_wire w = elim (decode_tool_arguments w.arguments w.arguments_malformed) [
    | none ↦ none
    | some a ↦ some (record { id = w.id; name = w.name; arguments = a })
  ]

  unfoldable pub from_wire_all : List WireCall → Option (List ToolCall)
  unfolding from_wire
  from_wire_all [] = some []
  from_wire_all (w ∷ ws) =
      let calls = from_wire_all ws in
      elim (from_wire w) [
        | none ↦ none
        | some c ↦ elim calls [ none ↦ none | some cs ↦ some (c ∷ cs) ]
      ]

  abbrev pub wire_message : Message → WireMessage
  wire_message m = record { rest = record m { tool_calls = [] }; calls = to_wire_all m.tool_calls }

  -- `json.Marshal` of a message
  unfoldable pub marshal_message : Message → Option String
  marshal_message m = json.marshal_wire (wire_message m)

  -- `json.Unmarshal` into a message
  unfoldable pub unmarshal_message : String → Option Message
  unfolding from_wire_all
  unmarshal_message text = elim (json.unmarshal_wire text) [
    | none ↦ none
    | some w ↦ elim (from_wire_all w.calls) [
      | none ↦ none
      | some cs ↦ some (record w.rest { tool_calls = cs })
    ]
  ]
