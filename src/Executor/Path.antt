-- ===== src/Executor/Path.antt =====
-- internal/executor/path.go: the check that a path stays in the workspace. A path is a list of bytes,
-- with the slash as its separator; `clean` and `join` are `filepath.Clean` and `filepath.Join` as they
-- are documented, over the elements of a path.
pub mod Elements
pub mod Inside
use eika.Common.{
  ℕ, Bool, true, false, ◌&&◌, ◌||◌, not, List, [], ◌∷◌, ◌++◌, reverse, ◌==◌, if◌then◌else◌, Result,
  err, ok,
}

abbrev pub slash : ℕ
slash = 47

-- "." and ".."
abbrev pub here : List ℕ
here = 46 ∷ []

abbrev pub up : List ℕ
up = 46 ∷ 46 ∷ []

abbrev pub same_path : List ℕ → List ℕ → Bool
same_path [] [] = true
same_path [] (d ∷ ds) = false
same_path (c ∷ cs) [] = false
same_path (c ∷ cs) (d ∷ ds) = (c == d) && same_path cs ds

-- `strings.HasPrefix`
abbrev pub path_prefix : List ℕ → List ℕ → Bool
path_prefix path [] = true
path_prefix [] (p ∷ prefix) = false
path_prefix (b ∷ path) (p ∷ prefix) = (b == p) && path_prefix path prefix

abbrev pub put_first : ℕ → List (List ℕ) → List (List ℕ)
put_first b [] = (b ∷ []) ∷ []
put_first b (element ∷ elements) = (b ∷ element) ∷ elements

-- The elements between the slashes, empty ones included.
unfoldable pub split : List ℕ → List (List ℕ)
split [] = [] ∷ []
split (b ∷ path) = let rest = split path in if b == slash then [] ∷ rest else put_first b rest

unfoldable pub join_elements : List (List ℕ) → List ℕ
join_elements [] = []
join_elements (element ∷ []) = element
join_elements (element ∷ next ∷ elements) = element ++ slash ∷ join_elements (next ∷ elements)

-- `filepath.IsAbs`
abbrev pub is_abs : List ℕ → Bool
is_abs [] = false
is_abs (b ∷ path) = b == slash

-- What an element does to the ones before it, the last of them first.
unfoldable pub add_element : Bool → List (List ℕ) → List ℕ → List (List ℕ)
add_element rooted before element =
    if same_path element [] || same_path element here
    then before
    else if same_path element up
    then (elim before [
      | [] ↦ if rooted then [] else up ∷ []
      | last ∷ others ↦ if same_path last up then up ∷ last ∷ others else others
    ])
    else element ∷ before

unfoldable pub add_elements : Bool → List (List ℕ) → List (List ℕ) → List (List ℕ)
add_elements rooted before [] = before
add_elements rooted before (element ∷ elements) =
    add_elements rooted (add_element rooted before element) elements

unfoldable pub clean : List ℕ → List ℕ
clean path =
    let body = join_elements (reverse (add_elements (is_abs path) [] (split path))) in
    if is_abs path then slash ∷ body else elim body [ [] ↦ here | b ∷ bytes ↦ b ∷ bytes ]

-- `filepath.Join` of two elements, of which the first one is not empty.
unfoldable pub join : List ℕ → List ℕ → List ℕ
join root [] = clean root
join root (b ∷ path) = clean (root ++ slash ∷ b ∷ path)

pub data Failure : Type 0 where
  empty_root outside_root : Failure

unfoldable pub resolve : List ℕ → List ℕ → Result Failure (List ℕ)
resolve [] path = err empty_root
resolve (r ∷ bytes) path =
    let root = clean (r ∷ bytes) in
    let p = clean (if is_abs path then path else join root path) in
    if not (same_path p root) && not (path_prefix p (root ++ slash ∷ []))
    then err outside_root
    else ok p
