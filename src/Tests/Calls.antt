-- ===== src/Tests/Calls.antt =====
-- Runs of internal/provider/openai/toolcalls.go.
use eika.Common.{◌≡◌, refl, List, [], ◌∷◌}
use eika.Common.Int.{ℤ}
use eika.Provider.ToolCalls.{Fragment, add, assembled_calls, is_space, trim_white}
use eika.Provider.ToolCalls.Sorted.{add_fragments}
use eika.Provider.ToolCalls.Assembled.{IsAssembled, assembled_calls-IsAssembled}

-- Two calls whose fragments alternate, the second one first; its arguments are blank.
abbrev fragments : List Fragment
fragments =
    record { index = ℤ.pos 1; id = "call_b"; name = "list"; arguments = 32 ∷ [] }
    ∷ record { index = ℤ.pos 0; id = "call_a"; name = ""; arguments = 32 ∷ 123 ∷ [] }
    ∷ record { index = ℤ.pos 1; id = ""; name = ""; arguments = 10 ∷ [] }
    ∷ record { index = ℤ.pos 0; id = ""; name = "read"; arguments = 32 ∷ 125 ∷ 10 ∷ [] }
    ∷ []

assembled_calls-IsAssembled_example :
    IsAssembled fragments (assembled_calls (add_fragments [] fragments))
assembled_calls-IsAssembled_example = assembled_calls-IsAssembled fragments

in_order :
    assembled_calls (add_fragments [] fragments)
    ≡ record { id = "call_a"; name = "read"; arguments = 123 ∷ 32 ∷ 125 ∷ [] }
      ∷ record { id = "call_b"; name = "list"; arguments = 123 ∷ 125 ∷ [] }
      ∷ []
unfolding assembled_calls add trim_white is_space
in_order = refl
