-- ===== src/Tests/Session.antt =====
-- Runs of internal/session.
use eika.Common.{
  ok, Bool, not, ◌&&◌, ◌==◌, ◌≡◌, refl, String, str_eq_iff, true, false, List, [], ◌∷◌, Option,
  none, some, arith, if◌then◌else◌, str_eq, ◌||◌, map, sym, ap, subst, ◌∙◌, ◌⊎◌, inl, inr,
}
use eika.Agent.Compacted.{Compaction}
use eika.Provider.{Message, is_user, is_assistant, ToolCall, user_message, assistant_message}
use eika.Common.Int.{pos, negsuc}
use eika.Session.Message.{Codec, messages, message_entry, compaction_entry, new_entry}
use eika.Session.Resume.{resumable_of, resumable_set, path_resumable}
use eika.Session.Resumable.{resumable_set-path_resumable}
use eika.Session.Replay.{
  Recorded, message, compaction, stored_all, in_memory_all, json_codec, read_back, respell_call,
  Documented,
}
use eika.Session.Replayed.{messages-stored_all}
use eika.Provider.Json.{Json, WireCall, WireMessage, marshal_message, to_wire}
use eika.Store.{or_empty_object, order_by_seq, path_query, find_entry, Entry, EntryKind}
use eika.Tests.Store.{root, answer, two-IsTree}

abbrev call : ToolCall
call = record { id = "t1"; name = "bash"; arguments = "" }

abbrev asks : Message
asks = assistant_message "" (record call { arguments = "{}" } ∷ [])

-- A codec for one message, `asks`, and no compaction.
abbrev codec : Codec
codec = record {
  marshal_message = λ m. if str_eq m.content "" then some "asks" else none;
  unmarshal_message = λ text. if str_eq text "asks" then some asks else none;
  marshal_compaction = λ c. none;
  unmarshal_compaction = λ text. none;
}

resumable_set-path_resumable_example :
    resumable_of (resumable_set codec (order_by_seq (answer ∷ root ∷ []))) "b"
    ≡ path_resumable codec (path_query (answer ∷ root ∷ []) "b")
unfolding find_entry
resumable_set-path_resumable_example =
    resumable_set-path_resumable codec (answer ∷ root ∷ []) "s" "b" answer two-IsTree
      (refl, (refl, tt)) refl

abbrev none_of {ℓ} : {A : Type ℓ} → List A → Bool
none_of [] = true
none_of (x ∷ xs) = false

abbrev is_unset {ℓ} : {A : Type ℓ} → Option A → Bool
is_unset none = true
is_unset (some a) = false

-- The documents of a small encoder: every text but the empty one and `{`. The encoded string of
-- these two is `"{"` and `""`, and the list `[ ]` loses its space.
abbrev small_valid : String → Bool
small_valid s = not (str_eq s "" || str_eq s "{")

abbrev small_quote : String → String
small_quote s = if str_eq s "" then "\"\"" else "\"{\""

abbrev small_unquote : String → Option String
small_unquote t = if str_eq t "\"\"" then some "" else if str_eq t "\"{\"" then some "{" else none

abbrev small_respell : String → String
small_respell s = if str_eq s "[ ]" then "[]" else s

-- An assistant message with two calls, one with a valid document and one with malformed text.
abbrev two_calls : List ToolCall
two_calls =
    record { id = "t1"; name = "list"; arguments = "[ ]" }
    ∷ record { id = "t2"; name = "bash"; arguments = "{" }
    ∷ []

abbrev wire_call : String → String → String → Bool → WireCall
wire_call id name arguments malformed = record {
  id = id;
  name = name;
  arguments = arguments;
  arguments_malformed = malformed;
}

abbrev two_wire_calls : String → List WireCall
two_wire_calls first = wire_call "t1" "list" first false ∷ wire_call "t2" "bash" "\"{\"" true ∷ []

abbrev is_wire_call : WireCall → String → String → String → Bool → Bool
is_wire_call w id name arguments malformed =
    str_eq w.id id
    && str_eq w.name name
    && str_eq w.arguments arguments
    && (if malformed then w.arguments_malformed else not w.arguments_malformed)

is_wire_call_lem :
    (w : WireCall) (id name arguments : String) (malformed : Bool)
    → is_wire_call w id name arguments malformed ≡ true
    → w ≡ wire_call id name arguments malformed
is_wire_call_lem w id name arguments malformed h =
    ground (arith, str_eq_iff w.id id, str_eq_iff w.name name, str_eq_iff w.arguments arguments)

abbrev are_two : List WireCall → Bool
are_two (v ∷ w ∷ []) =
    is_wire_call v "t1" "list" "[ ]" false && is_wire_call w "t2" "bash" "\"{\"" true
are_two _ = false

are_two_lem : (ws : List WireCall) → are_two ws ≡ true → ws ≡ two_wire_calls "[ ]"
are_two_lem [] h = absurd (ground arith)
are_two_lem (v ∷ []) h = absurd (ground arith)
are_two_lem (v ∷ w ∷ []) h =
    ground (
      arith,
      is_wire_call_lem v "t1" "list" "[ ]" false,
      is_wire_call_lem w "t2" "bash" "\"{\"" true,
    )
are_two_lem (u ∷ v ∷ w ∷ ws) h = absurd (ground arith)

-- Whether a message has nothing but a role and a text.
abbrev is_bare : Message → Bool
is_bare m =
    none_of m.images
    && str_eq m.reasoning ""
    && none_of m.tool_calls
    && str_eq m.tool_call_id ""
    && not m.is_error
    && is_unset m.metrics
    && not m.summary

abbrev is_plain : WireMessage → Bool
is_plain w =
    is_bare w.rest
    && is_user w.rest.role
    && none_of w.calls
    && not (str_eq w.rest.content "" || str_eq w.rest.content "asks")

abbrev is_asking : WireMessage → Bool
is_asking w =
    is_bare w.rest && is_assistant w.rest.role && are_two w.calls && str_eq w.rest.content "asks"

-- Plain user messages and one message that asks for the two calls.
abbrev small_json : Json
small_json = record {
  is_valid = small_valid;
  marshal_string = small_quote;
  unmarshal_string = small_unquote;
  marshal_wire =
      λ w. if is_plain w then some w.rest.content else if is_asking w then some "asks" else none;
  unmarshal_wire = λ text.
      if str_eq text "asks"
      then some (record { rest = assistant_message "asks" []; calls = two_wire_calls "[]" })
      else some (record { rest = user_message text; calls = [] });
}

abbrev one_kept : String → Compaction
one_kept text = record {
  summary = text;
  kept = pos 1;
  tokens_before = 0;
  tokens_after = 0;
  reason = "manual";
  usage = record { input_tokens = 0; output_tokens = 0; total_tokens = 0 };
}

abbrev keeps_one : Compaction → Bool
keeps_one c =
    (elim c.kept [ pos n ↦ n == 1 | negsuc n ↦ false ])
    && c.tokens_before == 0
    && c.tokens_after == 0
    && str_eq c.reason "manual"
    && c.usage.input_tokens == 0
    && c.usage.output_tokens == 0
    && c.usage.total_tokens == 0
    && not (str_eq c.summary "")

abbrev write_compaction : Compaction → Option String
write_compaction c = if keeps_one c then some c.summary else none

abbrev read_compaction : String → Option Compaction
read_compaction text = some (one_kept text)

respelled-valid :
    (b : Bool) (s : String) → small_valid s ≡ true → small_valid (if b then "[]" else s) ≡ true
respelled-valid true s h = refl
respelled-valid false s h = h

quoted-valid : (b : Bool) → small_valid (if b then "\"\"" else "\"{\"") ≡ true
quoted-valid true = refl
quoted-valid false = refl

quoted-back :
    (b : Bool)
    → small_unquote (small_respell (if b then "\"\"" else "\"{\"")) ≡ some (if b then "" else "{")
quoted-back true = refl
quoted-back false = refl

invalid-cases : (s : String) → small_valid s ≡ false → (if str_eq s "" then "" else "{") ≡ s
invalid-cases s h = ground (arith, str_eq_iff s "", str_eq_iff s "{")

plain-back :
    (w : WireMessage)
    → is_plain w ≡ true
    → small_json.unmarshal_wire (or_empty_object w.rest.content)
      ≡ some (record w { calls = map (respell_call small_respell) w.calls })
plain-back w h = ground (arith, str_eq_iff w.rest.reasoning "", str_eq_iff w.rest.tool_call_id "")

asking-back :
    (w : WireMessage)
    → is_asking w ≡ true
    → record { rest = assistant_message "asks" []; calls = two_wire_calls "[ ]" } ≡ w
asking-back w h = ground (
  arith,
  str_eq_iff w.rest.reasoning "",
  str_eq_iff w.rest.tool_call_id "",
  str_eq_iff w.rest.content "asks",
  are_two_lem w.calls,
)

wire-cases :
    (w : WireMessage) (text : String)
    → small_json.marshal_wire w ≡ some text
    → (is_plain w ≡ true × w.rest.content ≡ text) ⊎ (is_asking w ≡ true × "asks" ≡ text)
wire-cases w text h = ground arith

wire-back :
    (w : WireMessage) (text stored : String)
    → small_json.marshal_wire w ≡ some text
    → or_empty_object text ≡ stored
    → small_json.unmarshal_wire stored
      ≡ some (record w { calls = map (respell_call small_respell) w.calls })
wire-back w text stored h s = elim (wire-cases w text h) [
  | inl p ↦
      subst
        (λ x.
          small_json.unmarshal_wire x
          ≡ some (record w { calls = map (respell_call small_respell) w.calls }))
        (ap or_empty_object p.1 ∙ s) (plain-back w p.0)
  | inr q ↦
      ap small_json.unmarshal_wire (sym (ap or_empty_object q.1 ∙ s))
      ∙ ap
          (λ (x : WireMessage).
            some (record x { calls = map (respell_call small_respell) x.calls }))
          (asking-back w q.0)
]

small-Documented : Documented small_json write_compaction read_compaction some small_respell
small-Documented = record {
  empty_invalid = refl;
  object_valid = refl;
  respelled_valid = λ raw h. respelled-valid (str_eq raw "[ ]") raw h;
  string_valid = λ s. quoted-valid (str_eq s "");
  string_back = λ s h. quoted-back (str_eq s "") ∙ ap some (invalid-cases s h);
  wire_back = λ w text stored h s. wire-back w text stored h (cc);
  compaction_back =
      λ c text stored h s. ground (arith, str_eq_iff c.reason "manual", str_eq_iff c.summary "");
}

abbrev history : List Recorded
history =
    message (user_message "first") ""
    ∷ message (assistant_message "asks" two_calls) ""
    ∷ compaction (one_kept "so far")
    ∷ message (user_message "second") ""
    ∷ []

abbrev recorded : List Entry
recorded =
    new_entry EntryKind.user "first" ""
    ∷ new_entry EntryKind.assistant "asks" ""
    ∷ new_entry EntryKind.compaction "so far" ""
    ∷ new_entry EntryKind.user "second" ""
    ∷ []

messages-stored_all_example :
    messages (json_codec small_json write_compaction read_compaction) recorded
    ≡ ok (map (read_back small_json small_respell) (in_memory_all [] history))
unfolding stored_all message_entry compaction_entry marshal_message to_wire
messages-stored_all_example =
    messages-stored_all small_json write_compaction read_compaction some small_respell
      small-Documented history recorded refl
