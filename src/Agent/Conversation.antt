-- ===== src/Agent/Conversation.antt =====
-- internal/agent/conversation.go: the list of messages that a session has exchanged.
use eika.Common.{
  ℕ, ◌≡◌, refl, sym, ap, ◌∙◌, append-nil, append_assoc, List, [], ◌∷◌, ◌++◌, arith, length,
  length-append, take, ltb, if◌then◌else◌, String,
}
use eika.Common.Int.{ℤ, pos, pos_part, ltb_ℤ}
use eika.Provider.{Message}

pub record Conversation : Type 0 where
  pub messages : List Message

pub record Session : Type 0 where
  pub id : String
  pub workspace_id : String
  pub conversation : Conversation

abbrev pub new_conversation : List Message → Conversation
new_conversation messages = record { messages = messages }

unfoldable pub append : Conversation → Message → Conversation
append c m = record { messages = c.messages ++ m ∷ [] }

-- A negative count is taken for 0.
unfoldable pub truncate : Conversation → ℤ → Conversation
truncate c n =
    let k = if ltb_ℤ n (pos 0) then 0 else pos_part n in
    if ltb k (length c.messages) then record { messages = take k c.messages } else c

unfoldable pub replace : Conversation → List Message → Conversation
replace c messages = record { messages = messages }

unfoldable pub len : Conversation → ℕ
len c = length c.messages

abbrev pub append_all : Conversation → List Message → Conversation
append_all c [] = c
append_all c (m ∷ msgs) = append_all (append c m) msgs

pub messages-append_all :
    (c : Conversation) (msgs : List Message) → (append_all c msgs).messages ≡ c.messages ++ msgs
unfolding append
messages-append_all c [] = sym (append-nil c.messages)
messages-append_all c (m ∷ msgs) =
    messages-append_all (append c m) msgs ∙ append_assoc c.messages (m ∷ []) msgs

pub take-append : {A : Type 0} (xs ys : List A) → take (length xs) (xs ++ ys) ≡ xs
take-append [] ys = refl
take-append (x ∷ xs) ys = ap (◌∷◌ x) (take-append xs ys)

-- Truncating at a length that the conversation had takes back exactly what was appended since.
pub truncate-append_all :
    (c : Conversation) (msgs : List Message) → truncate (append_all c msgs) (pos (len c)) ≡ c
unfolding truncate len
truncate-append_all c [] = ground arith
truncate-append_all c (m ∷ msgs) =
    let e = messages-append_all c (m ∷ msgs) in
    ground (
      arith,
      e,
      take-append c.messages (m ∷ msgs),
      ap length e,
      length-append c.messages (m ∷ msgs),
    )
