-- ===== src/Agent/Context.antt =====
-- internal/agent/context.go: the request that a model call sends, and the estimates of its size.
-- `encoding/json` at the types that are estimated is a parameter: the document of a value, if it has
-- one. A length is in bytes of UTF-8, as `len` counts them in Go.
pub mod Prepared
use eika.Common.{
  ℕ, zero, suc, ◌+◌, ◌-◌, ◌*◌, ◌/◌, ◌%◌, Bool, true, false, ◌||◌, not, String, str_eq, Option, none,
  some, List, [], ◌∷◌, ◌++◌, get_or, map, length, ltb, ◌==◌, if◌then◌else◌, str_append, starts_with,
  str_len,
}
use eika.Common.Int.{ℤ, pos_part}
use eika.Provider.{Message, Image}

abbrev pub bytes_per_token : ℕ
bytes_per_token = 4

unfoldable pub estimate_tokens : String → ℕ
estimate_tokens text = (str_len text + bytes_per_token - 1) / bytes_per_token

abbrev pub pixels_per_token : ℕ
pixels_per_token = 750

-- An image without a size counts as one of 1920 by 1080.
unfoldable pub image_tokens : ℕ → ℕ → ℕ
image_tokens w h =
    if (w == 0) || (h == 0)
    then (1920 * 1080 + pixels_per_token - 1) / pixels_per_token
    else (w * h + pixels_per_token - 1) / pixels_per_token

pub data SectionKind : Type 0 where
  base context_files instructions : SectionKind

pub record ContextFile : Type 0 where
  pub path : String
  pub content : String
  pub tokens : ℕ

pub record Section : Type 0 where
  pub kind : SectionKind
  pub content : String
  pub tokens : ℕ
  pub files : List ContextFile

pub data ToolSource : Type 0 where
  builtin mcp : ToolSource

abbrev pub mcp_tool_prefix : String
mcp_tool_prefix = "mcp_"

unfoldable pub source_of : String → ToolSource
source_of name = if starts_with name mcp_tool_prefix then mcp else builtin

pub record ToolDef : Type 0 where
  pub name : String
  pub description : String
  pub schema : String

pub record ToolSchema : Type 0 where
  pub def : ToolDef
  pub source : ToolSource
  pub tokens : ℕ

-- Of the sampling parameters, the one that the agent itself sets.
pub record Parameters : Type 0 where
  pub model : String
  pub max_output : Option ℕ
  pub preserve_thinking : Bool
  pub image_input : Bool

pub record Context : Type 0 where
  pub sections : List Section
  pub tools : List ToolSchema
  pub messages : List Message
  pub message_tokens : ℕ
  pub message_sizes : List ℕ
  pub parameters : Parameters

-- `strings.Join(texts, sep)`
unfoldable pub join : String → List String → String
join sep [] = ""
join sep (t ∷ []) = t
join sep (t ∷ u ∷ ts) = str_append t (str_append sep (join sep (u ∷ ts)))

unfoldable pub system : Context → String
unfolding join
system c = join "\n\n" (map (λ s. s.content) c.sections)

pub record Request : Type 0 where
  pub model : String
  pub system : String
  pub messages : List Message
  pub tools : List ToolDef
  pub max_output : Option ℕ
  pub preserve_thinking : Bool

unfoldable pub request : Context → Request
unfolding system
request c = record {
  model = c.parameters.model;
  system = system c;
  messages = c.messages;
  tools = map (λ t. t.def) c.tools;
  max_output = c.parameters.max_output;
  preserve_thinking = c.parameters.preserve_thinking;
}

-- `%d`: as many digits as the fuel, which the number itself bounds.
abbrev digit : ℕ → String
digit n = get_or ("0" ∷ "1" ∷ "2" ∷ "3" ∷ "4" ∷ "5" ∷ "6" ∷ "7" ∷ "8" ∷ "9" ∷ []) n ""

unfoldable pub decimal : ℕ → ℕ → String
decimal zero n = ""
decimal (suc fuel) n =
    let rest = decimal fuel (n / 10) in
    if ltb n 10 then digit n else str_append rest (digit (n % 10))

abbrev pub images_note : ℕ → String
images_note n =
    if ltb 1 n
    then str_append "["
        (str_append (decimal n n) " images omitted: the model in use does not accept images]")
    else "[1 image omitted: the model in use does not accept images]"

unfoldable pub without_images : Message → Message
unfolding decimal
without_images m = elim m.images [
  | [] ↦ m
  | i ∷ is ↦ record m {
    images = [];
    content =
        if str_eq m.content ""
        then images_note (length m.images)
        else str_append m.content (str_append "\n\n" (images_note (length m.images)));
  }
]

abbrev pub images_tokens : List Image → ℕ
images_tokens [] = 0
images_tokens (i ∷ is) = image_tokens i.width i.height + images_tokens is

-- Reasoning goes back to the model only when it is preserved, and an image when the model reads it.
abbrev pub with_reasoning : Bool → Message → Message
with_reasoning true m = m
with_reasoning false m = record m { reasoning = "" }

abbrev pub with_images : Bool → Message → Message
with_images true m = m
with_images false m = without_images m

-- A message as a request sends it.
unfoldable pub prepare : Parameters → Message → Message
unfolding without_images
prepare p m =
    with_images p.image_input (with_reasoning p.preserve_thinking (record m { metrics = none }))

module _ (marshal : Message → Option String) where
  unfoldable pub message_tokens : Message → ℕ
  unfolding image_tokens estimate_tokens
  message_tokens m = images_tokens m.images + elim (marshal (record m { images = [] })) [
    | none ↦ estimate_tokens (str_append m.content m.reasoning)
    | some json ↦ estimate_tokens json
  ]

  -- The loop of `WithMessages`.
  unfoldable pub add_messages : Context → List Message → Context
  unfolding prepare message_tokens
  add_messages c [] = c
  add_messages c (m ∷ ms) =
      let m = prepare c.parameters m in
      let size = message_tokens m in
      add_messages
        (record c {
          messages = c.messages ++ (m ∷ []);
          message_sizes = c.message_sizes ++ (size ∷ []);
          message_tokens = c.message_tokens + size;
        })
        ms

  unfoldable pub with_messages : Context → List Message → Context
  unfolding add_messages
  with_messages c msgs =
      add_messages (record c { messages = []; message_sizes = []; message_tokens = 0 }) msgs

unfoldable pub tool_tokens : (ToolDef → Option String) → ToolDef → ℕ
unfolding estimate_tokens
tool_tokens marshal def = elim (marshal def) [
  | none ↦ estimate_tokens (str_append def.name (str_append def.description def.schema))
  | some json ↦ estimate_tokens json
]
