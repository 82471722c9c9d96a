-- ===== src/Executor/Path/Elements.antt =====
-- internal/executor/path.go: the elements of a path and what cleaning leaves of them.
use mathlib.Core.List.{reverse_aux}
use eika.Common.{
  ℕ, ◌≡◌, ◌≢◌, refl, sym, ap, ◌∙◌, subst, Bool, true, false, ◌||◌, List, [], ◌∷◌, ◌++◌, reverse,
  ◌==◌, if◌then◌else◌, All,
}
use eika.Executor.Path.{
  slash, here, up, same_path, put_first, split, join_elements, is_abs, add_element, add_elements,
  clean,
}

-- A path with no slash in it.
abbrev pub IsPlain : List ℕ → Type 0
IsPlain [] = Unit
IsPlain (b ∷ element) = ((b == slash) ≡ false) × IsPlain element

-- An element that leads one level down.
pub record IsProper (element : List ℕ) : Type 0 where
  pub plain : IsPlain element
  pub not_empty : same_path element [] ≡ false
  pub not_here : same_path element here ≡ false
  pub not_up : same_path element up ≡ false

put_first-plain :
    (b : ℕ) (elements : List (List ℕ))
    → (b == slash) ≡ false
    → All IsPlain elements
    → All IsPlain (put_first b elements)
put_first-plain b [] other plain = ((other, tt), tt)
put_first-plain b (element ∷ elements) other (first, plain) = ((other, first), plain)

pub split-plain : (path : List ℕ) → All IsPlain (split path)
unfolding split
split-plain [] = (tt, tt)
split-plain (b ∷ path) = at (b == slash) refl (split-plain path)
  where
    at :
        (stop : Bool)
        → (b == slash) ≡ stop
        → All IsPlain (split path)
        → All IsPlain (if stop then [] ∷ split path else put_first b (split path))
    at true eq plain = (tt, plain)
    at false eq plain = put_first-plain b (split path) eq plain

put_first-append :
    (b : ℕ) (elements more : List (List ℕ))
    → elements ≢ []
    → put_first b (elements ++ more) ≡ put_first b elements ++ more
put_first-append b [] more h = absurd (h refl)
put_first-append b (element ∷ elements) more h = refl

some_elements : (path : List ℕ) → split path ≢ []
unfolding split
some_elements [] = λ e. cc e
some_elements (b ∷ path) = at (b == slash) (split path)
  where
    at :
        (stop : Bool) (elements : List (List ℕ))
        → (if stop then [] ∷ elements else put_first b elements) ≢ []
    at true elements = λ e. cc e
    at false [] = λ e. cc e
    at false (element ∷ elements) = λ e. cc e

-- Two paths with a slash between them.
pub split-append : (front back : List ℕ) → split (front ++ slash ∷ back) ≡ split front ++ split back
unfolding split
split-append [] back = refl
split-append (b ∷ front) back = at (b == slash) (split front) refl (split-append front back)
  where
    at :
        (stop : Bool) (elements : List (List ℕ))
        → split front ≡ elements
        → split (front ++ slash ∷ back) ≡ split front ++ split back
        → (if stop
            then [] ∷ split (front ++ slash ∷ back)
            else put_first b (split (front ++ slash ∷ back)))
          ≡ (if stop then [] ∷ split front else put_first b (split front)) ++ split back
    at true elements eq same = ap (λ l. [] ∷ l) same
    at false elements eq same =
        ap (put_first b) same ∙ put_first-append b (split front) (split back) (some_elements front)

split_plain : (element : List ℕ) → IsPlain element → split element ≡ element ∷ []
unfolding split
split_plain [] plain = refl
split_plain (b ∷ element) (other, plain) = rw (other, split_plain element plain) refl

pub split-join_elements :
    (element : List ℕ) (elements : List (List ℕ))
    → All IsProper (element ∷ elements)
    → split (join_elements (element ∷ elements)) ≡ element ∷ elements
unfolding join_elements
split-join_elements element [] (first, proper) = split_plain element first.plain
split-join_elements element (next ∷ elements) (first, proper) =
    split-append element (join_elements (next ∷ elements))
    ∙ ap (λ l. l ++ split (join_elements (next ∷ elements))) (split_plain element first.plain)
    ∙ ap (λ l. element ∷ l) (split-join_elements next elements proper)

add_element-IsProper :
    (before : List (List ℕ)) (element : List ℕ)
    → All IsProper before
    → IsPlain element
    → All IsProper (add_element true before element)
unfolding add_element
add_element-IsProper before element proper plain =
    at (same_path element []) (same_path element here) (same_path element up) refl refl refl before
      proper
  where
    pop : List (List ℕ) → List (List ℕ)
    pop l = elim l [
      | [] ↦ []
      | last ∷ others ↦ if same_path last up then up ∷ last ∷ others else others
    ]

    popped : (l : List (List ℕ)) → All IsProper l → All IsProper (pop l)
    popped [] proper = tt
    popped (last ∷ others) (first, proper) =
        subst (λ b. All IsProper (if b then up ∷ last ∷ others else others)) (sym first.not_up)
          proper

    at :
        (a b c : Bool)
        → same_path element [] ≡ a
        → same_path element here ≡ b
        → same_path element up ≡ c
        → (l : List (List ℕ)) → All IsProper l
        → All IsProper (if a || b then l else if c then pop l else element ∷ l)
    at true b c e f g l proper = proper
    at false true c e f g l proper = proper
    at false false true e f g l proper = popped l proper
    at false false false e f g l proper =
        (record { plain = plain; not_empty = e; not_here = f; not_up = g }, proper)

add_elements-IsProper :
    (elements before : List (List ℕ))
    → All IsPlain elements
    → All IsProper before
    → All IsProper (add_elements true before elements)
unfolding add_elements
add_elements-IsProper [] before plain proper = proper
add_elements-IsProper (element ∷ elements) before (first, plain) proper =
    add_elements-IsProper elements (add_element true before element) plain
      (add_element-IsProper before element proper first)

All-reverse_aux :
    (l acc : List (List ℕ)) → All IsProper l → All IsProper acc → All IsProper (reverse_aux l acc)
All-reverse_aux [] acc proper more = more
All-reverse_aux (x ∷ l) acc (first, proper) more = All-reverse_aux l (x ∷ acc) proper (first, more)

-- What cleaning leaves of a rooted path: a slash, and proper elements with slashes between them.
pub record IsRooted (path : List ℕ) : Type 0 where
  pub elements : List (List ℕ)
  pub proper : All IsProper elements
  pub same : path ≡ slash ∷ join_elements elements

pub clean-IsRooted : (path : List ℕ) → is_abs path ≡ true → IsRooted (clean path)
unfolding clean
clean-IsRooted path rooted = record {
  elements = reverse (add_elements true [] (split path));
  proper =
      All-reverse_aux (add_elements true [] (split path)) []
        (add_elements-IsProper (split path) [] (split-plain path) tt) tt;
  same = rw rooted refl;
}

reverse_twice : (l acc : List (List ℕ)) → reverse_aux (reverse_aux l acc) [] ≡ reverse_aux acc l
reverse_twice [] acc = refl
reverse_twice (x ∷ l) acc = reverse_twice l (x ∷ acc)

add_elements-proper :
    (elements before : List (List ℕ))
    → All IsProper elements
    → add_elements true before elements ≡ reverse_aux elements before
unfolding add_elements add_element
add_elements-proper [] before proper = refl
add_elements-proper (element ∷ elements) before (first, proper) =
    rw (first.not_empty, first.not_here, first.not_up)
      (add_elements-proper elements (element ∷ before) proper)

-- The elements of a rooted path, kept as they are.
clean_same-elements :
    (elements : List (List ℕ))
    → All IsProper elements
    → clean (slash ∷ join_elements elements) ≡ slash ∷ join_elements elements
unfolding clean split add_elements add_element join_elements
clean_same-elements [] proper = refl
clean_same-elements (element ∷ elements) proper =
    ap (λ l. slash ∷ join_elements (reverse (add_elements true [] l)))
      (split-join_elements element elements proper)
    ∙ ap (λ l. slash ∷ join_elements (reverse l))
        (add_elements-proper (element ∷ elements) [] proper)
    ∙ ap (λ l. slash ∷ join_elements l) (reverse_twice (element ∷ elements) [])

-- A path that has been cleaned stays as it is.
pub clean_same : (path : List ℕ) → IsRooted path → clean path ≡ path
clean_same path rooted =
    ap clean rooted.same ∙ clean_same-elements rooted.elements rooted.proper ∙ sym rooted.same
