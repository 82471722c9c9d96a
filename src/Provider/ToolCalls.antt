-- ===== src/Provider/ToolCalls.antt =====
-- internal/provider/openai/toolcalls.go: tool calls put together from the fragments of a stream. A map
-- is a list of pairs; the arguments are a list of code points, which trimming looks at.
pub mod Assembled
pub mod Sorted
use eika.Common.{
  ℕ, ◌+◌, Bool, true, false, ◌&&◌, ◌||◌, List, [], ◌∷◌, ◌++◌, map, foldl, reverse, String, str_eq,
  leb, ◌==◌, if◌then◌else◌,
}
use eika.Common.Int.{ℤ, pos_part, neg_part, ltb_ℤ}

-- `openai.ChatCompletionChunkChoiceDeltaToolCall`, as far as `add` reads it.
pub record Fragment : Type 0 where
  pub index : ℤ
  pub id : String
  pub name : String
  pub arguments : List ℕ

pub record PartialCall : Type 0 where
  pub id : String
  pub name : String
  pub args : List ℕ

abbrev pub Calls : Type 0
Calls = List (ℤ × PartialCall)

abbrev pub same_index : ℤ → ℤ → Bool
same_index i j = pos_part i + neg_part j == pos_part j + neg_part i

abbrev pub empty_call : PartialCall
empty_call = record { id = ""; name = ""; args = [] }

-- What `add` does to the call that it finds or makes.
abbrev pub extend : PartialCall → Fragment → PartialCall
extend call delta = record {
  id = if str_eq delta.id "" then call.id else delta.id;
  name = if str_eq delta.name "" then call.name else delta.name;
  args = call.args ++ delta.arguments;
}

unfoldable pub add : Calls → Fragment → Calls
add [] delta = (delta.index, extend empty_call delta) ∷ []
add ((index, call) ∷ calls) delta =
    let rest = add calls delta in
    if same_index index delta.index
    then (index, extend call delta) ∷ calls
    else (index, call) ∷ rest

-- `unicode.IsSpace`
unfoldable pub is_space : ℕ → Bool
is_space c =
    (leb 9 c && leb c 13)
    || c == 32
    || c == 133
    || c == 160
    || c == 5760
    || (leb 8192 c && leb c 8202)
    || c == 8232
    || c == 8233
    || c == 8239
    || c == 8287
    || c == 12288

abbrev pub trim_left : List ℕ → List ℕ
trim_left [] = []
trim_left (c ∷ text) = let rest = trim_left text in if is_space c then rest else c ∷ text

-- `strings.TrimSpace`
unfoldable pub trim_white : List ℕ → List ℕ
trim_white text = reverse (trim_left (reverse (trim_left text)))

-- `sort.Slice` with the order of the indexes.
abbrev pub insert : ℤ → List ℤ → List ℤ
insert i [] = i ∷ []
insert i (j ∷ indexes) =
    let rest = insert i indexes in if ltb_ℤ i j then i ∷ j ∷ indexes else j ∷ rest

abbrev pub sort : List ℤ → List ℤ
sort [] = []
sort (i ∷ indexes) = insert i (sort indexes)

abbrev pub indexes_of : Calls → List ℤ
indexes_of [] = []
indexes_of ((i, call) ∷ calls) = i ∷ indexes_of calls

-- `t.byIndex[i]`, of an index that is there.
abbrev pub call_at : Calls → ℤ → PartialCall
call_at [] i = empty_call
call_at ((j, call) ∷ calls) i = let rest = call_at calls i in if same_index j i then call else rest

-- "{}"
abbrev pub empty_object : List ℕ
empty_object = 123 ∷ 125 ∷ []

abbrev pub or_empty : List ℕ → List ℕ
or_empty [] = empty_object
or_empty (c ∷ args) = c ∷ args

-- `provider.ToolCall`
pub record Call : Type 0 where
  pub id : String
  pub name : String
  pub arguments : List ℕ

abbrev pub finished : PartialCall → Call
finished call = record {
  id = call.id;
  name = call.name;
  arguments = or_empty (trim_white call.args);
}

unfoldable pub assembled_calls : Calls → List Call
assembled_calls calls = map (λ i. finished (call_at calls i)) (sort (indexes_of calls))
