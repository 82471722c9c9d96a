-- ===== src/Tests/Tool.antt =====
-- Runs of internal/tool/builtin/limits.go.
use eika.Common.{ℕ, ◌≡◌, refl, true, false, List, [], ◌∷◌, concat_all, length, take}
use eika.Tool.Output.{write, write_all, new_output, string, forward, max_output_bytes, whole}
use eika.Tool.Output.Captured.{shown, string-shown}
use eika.Tool.Output.Streamed.{bytes_sent, notices, notices_for, bytes_sent-write_all}

abbrev chunks : List (List ℕ)
chunks = (104 ∷ 105 ∷ []) ∷ (10 ∷ []) ∷ []

string-shown_example : string (write_all (new_output false) chunks) ≡ shown (concat_all chunks)
string-shown_example = string-shown false chunks

string_whole : string (write_all (new_output true) chunks) ≡ whole (104 ∷ 105 ∷ 10 ∷ [])
unfolding string write forward
string_whole = refl

bytes_sent-write_all_example :
    (bytes_sent (write_all (new_output true) chunks).sent
      ≡ take max_output_bytes (concat_all chunks))
    × (notices (write_all (new_output true) chunks).sent ≡ notices_for (length (concat_all chunks)))
bytes_sent-write_all_example = bytes_sent-write_all chunks
