-- ===== src/Tests/Executor.antt =====
-- Runs of internal/executor/path.go.
use eika.Common.{ℕ, ◌≡◌, refl, List, [], ◌∷◌, err, ok}
use eika.Executor.Path.{
  outside_root, resolve, clean, join, split, join_elements, add_element, add_elements,
}
use eika.Executor.Path.Inside.{IsResolved, resolve-IsResolved}

-- "/w/" and "a/../../w/./b//"
abbrev workspace : List ℕ
workspace = 47 ∷ 119 ∷ 47 ∷ []

abbrev wandering : List ℕ
wandering = 97 ∷ 47 ∷ 46 ∷ 46 ∷ 47 ∷ 46 ∷ 46 ∷ 47 ∷ 119 ∷ 47 ∷ 46 ∷ 47 ∷ 98 ∷ 47 ∷ 47 ∷ []

-- It comes back to "/w/b".
abbrev file : List ℕ
file = 47 ∷ 119 ∷ 47 ∷ 98 ∷ []

comes_back : resolve workspace wandering ≡ ok file
unfolding resolve clean join split join_elements add_element add_elements
comes_back = refl

resolve-IsResolved_example : IsResolved workspace wandering (resolve workspace wandering)
resolve-IsResolved_example = resolve-IsResolved workspace wandering refl

-- "/w" is no prefix of "/wb", and ".." leaves the workspace.
beside : resolve workspace (47 ∷ 119 ∷ 98 ∷ []) ≡ err outside_root
unfolding resolve clean join split join_elements add_element add_elements
beside = refl

above : resolve workspace (46 ∷ 46 ∷ []) ≡ err outside_root
unfolding resolve clean join split join_elements add_element add_elements
above = refl

-- The root directory as the workspace: it accepts itself and nothing below it.
whole_disk :
    (resolve (47 ∷ []) (46 ∷ []) ≡ ok (47 ∷ [])) × (resolve (47 ∷ []) (97 ∷ []) ≡ err outside_root)
unfolding resolve clean join split join_elements add_element add_elements
whole_disk = (refl, refl)
