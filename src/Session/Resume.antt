-- ===== src/Session/Resume.antt =====
-- internal/session/resume.go: the entries that a run can continue from.
use eika.Common.{
  ok, err, Bool, true, false, String, str_eq, List, [], ◌∷◌, ◌++◌, map, none, some, if◌then◌else◌,
}
use eika.Provider.{Message, is_tool}
use eika.Session.Message.{Codec, message_of}
use eika.Store.{Entry}

-- `slices.Index` and `slices.Delete`: the first occurrence goes, if there is one.
unfoldable pub remove_first : String → List String → List String
remove_first id [] = []
remove_first id (x ∷ xs) = let rest = remove_first id xs in if str_eq x id then xs else x ∷ rest

unfoldable pub pending_after : List String → Message → List String
unfolding remove_first
pending_after parent m = elim m.tool_calls [
  | c ∷ cs ↦ parent ++ map (λ c. c.id) (c ∷ cs)
  | [] ↦ if is_tool m.role then remove_first m.tool_call_id parent else parent
]

module _ (j : Codec) where
  unfoldable pub pending_calls : List String → Entry → List String
  unfolding message_of pending_after
  pending_calls parent e = elim (message_of j e) [
    | err _ ↦ parent
    | ok none ↦ parent
    | ok (some m) ↦ pending_after parent m
  ]

  unfoldable pub pending_path : List String → List Entry → List String
  unfolding pending_calls
  pending_path pending [] = pending
  pending_path pending (e ∷ es) = pending_path (pending_calls pending e) es

  unfoldable pub path_resumable : List Entry → Bool
  unfolding pending_path
  path_resumable path = elim (pending_path [] path) [ [] ↦ true | _ ∷ _ ↦ false ]

-- The maps of `resumableSet`, from ids to the calls that are pending. A key that is absent reads as
-- nil.
unfoldable pub pending_of : List (String × List String) → String → List String
pending_of [] id = []
pending_of ((k, left) ∷ m) id = if str_eq k id then left else pending_of m id

unfoldable pub resumable_of : List (String × Bool) → String → Bool
resumable_of [] id = false
resumable_of ((k, b) ∷ m) id = if str_eq k id then b else resumable_of m id

abbrev pub is_nil : List String → Bool
is_nil [] = true
is_nil (x ∷ xs) = false

module _ (j : Codec) where
  -- The loop; a write to a map goes in front, and covers an older one with its key.
  unfoldable pub resumable_loop :
      List (String × List String) → List (String × Bool) → List Entry → List (String × Bool)
  unfolding pending_calls pending_of
  resumable_loop pending out [] = out
  resumable_loop pending out (e ∷ es) =
      let left = pending_calls j (pending_of pending e.parent_id) e in
      resumable_loop ((e.id, left) ∷ pending) ((e.id, is_nil left) ∷ out) es

  unfoldable pub resumable_set : List Entry → List (String × Bool)
  unfolding resumable_loop
  resumable_set es = resumable_loop [] [] es
