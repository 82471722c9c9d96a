-- ===== src/Executor/Path/Inside.antt =====
-- internal/executor/path.go: a path that is resolved lies in the workspace.
use eika.Common.{
  ℕ, ◌≡◌, ◌≢◌, ◌⊎◌, inl, inr, refl, sym, ap, ◌∙◌, subst, Bool, true, false, ◌&&◌, not, List, [],
  ◌∷◌, ◌++◌, append_assoc, arith, ◌==◌, ==_iff, if◌then◌else◌, Result, err, ok, All,
}
use eika.Executor.Path.{
  Failure, empty_root, outside_root, slash, same_path, path_prefix, split, join_elements, is_abs,
  clean, join, resolve,
}
use eika.Executor.Path.Elements.{
  IsProper, split-append, split-join_elements, IsRooted, clean-IsRooted, clean_same,
}

same_path-eq : (p q : List ℕ) → same_path p q ≡ true → p ≡ q
same_path-eq [] [] h = refl
same_path-eq [] (d ∷ q) h = cc h
same_path-eq (c ∷ p) [] h = cc h
same_path-eq (c ∷ p) (d ∷ q) h = ground (arith, same_path-eq p q)

path_prefix-rest :
    (path prefix : List ℕ)
    → path_prefix path prefix ≡ true
    → (rest : List ℕ) × (path ≡ prefix ++ rest)
path_prefix-rest path [] h = (path, refl)
path_prefix-rest [] (p ∷ prefix) h = cc h
path_prefix-rest (b ∷ path) (p ∷ prefix) h = at (b == p) refl h (path_prefix-rest path prefix)
  where
    at :
        (same : Bool)
        → (b == p) ≡ same
        → (same && path_prefix path prefix) ≡ true
        → (path_prefix path prefix ≡ true → (rest : List ℕ) × (path ≡ prefix ++ rest))
        → (rest : List ℕ) × (b ∷ path ≡ p ∷ prefix ++ rest)
    at true eq h later =
        let e : b ≡ p = (==_iff b p).0 eq in let (rest, same) = later h in (rest, cc (e, same))
    at false eq h later = cc h

All-back : (front back : List (List ℕ)) → All IsProper (front ++ back) → All IsProper back
All-back [] back proper = proper
All-back (x ∷ front) back (first, proper) = All-back front back proper

longer : (front back : List ℕ) (b : ℕ) → [] ≢ front ++ b ∷ back
longer [] back b = λ e. cc e
longer (c ∷ front) back b = λ e. cc e

tail_bytes : List ℕ → List ℕ
tail_bytes [] = []
tail_bytes (b ∷ bytes) = bytes

-- What stands behind a rooted path and a slash leads down only.
below_root :
    (root rest p : List ℕ)
    → IsRooted root
    → IsRooted p
    → p ≡ root ++ slash ∷ rest
    → All IsProper (split rest)
unfolding join_elements tail_bytes
below_root root rest p rooted cleaned same =
    of cleaned.elements cleaned.proper
      (ap tail_bytes (sym cleaned.same ∙ same ∙ ap (λ l. l ++ slash ∷ rest) rooted.same))
  where
    of :
        (elements : List (List ℕ))
        → All IsProper elements
        → join_elements elements ≡ join_elements rooted.elements ++ slash ∷ rest
        → All IsProper (split rest)
    of [] proper whole = absurd (longer (join_elements rooted.elements) rest slash whole)
    of (element ∷ elements) proper whole =
        let body : List ℕ = join_elements rooted.elements in
        let parts : element ∷ elements ≡ split body ++ split rest =
          sym (split-join_elements element elements proper)
          ∙ ap split whole
          ∙ split-append body rest in
        All-back (split body) (split rest) (subst (All IsProper) parts proper)

-- A path that lies in the workspace: its root, or what proper elements below it lead to.
abbrev pub IsInside : List ℕ → List ℕ → Type 0
IsInside root path =
    (path ≡ clean root)
    ⊎ (rest : List ℕ) × (path ≡ clean root ++ slash ∷ rest) × All IsProper (split rest)

join-IsRooted : (root path : List ℕ) → is_abs root ≡ true → IsRooted (join root path)
unfolding join
join-IsRooted root [] rooted = clean-IsRooted root rooted
join-IsRooted [] (b ∷ path) rooted = cc rooted
join-IsRooted (r ∷ root) (b ∷ path) rooted = clean-IsRooted (r ∷ root ++ slash ∷ b ∷ path) rooted

rooted_abs : (path : List ℕ) → IsRooted path → is_abs path ≡ true
rooted_abs path rooted = ap is_abs rooted.same

target_abs :
    (root path : List ℕ)
    → is_abs root ≡ true
    → is_abs (if is_abs path then path else join root path) ≡ true
target_abs root path rooted = at (is_abs path) refl
  where
    at : (b : Bool) → is_abs path ≡ b → is_abs (if b then path else join root path) ≡ true
    at true eq = eq
    at false eq = rooted_abs (join root path) (join-IsRooted root path rooted)

resolve_within :
    (root p : List ℕ)
    → IsRooted root
    → IsRooted p
    → (not (same_path p root) && not (path_prefix p (root ++ slash ∷ []))) ≡ false
    → (p ≡ root) ⊎ (rest : List ℕ) × (p ≡ root ++ slash ∷ rest) × All IsProper (split rest)
resolve_within root p rooted cleaned h =
    at (same_path p root) (path_prefix p (root ++ slash ∷ [])) refl refl h
  where
    at :
        (a b : Bool)
        → same_path p root ≡ a
        → path_prefix p (root ++ slash ∷ []) ≡ b
        → (not a && not b) ≡ false
        → (p ≡ root) ⊎ (rest : List ℕ) × (p ≡ root ++ slash ∷ rest) × All IsProper (split rest)
    at true b e f h = inl (same_path-eq p root e)
    at false true e f h =
        let (rest, same) = path_prefix-rest p (root ++ slash ∷ []) f in
        let whole : p ≡ root ++ slash ∷ rest = same ∙ append_assoc root (slash ∷ []) rest in
        inr (rest, whole, below_root root rest p rooted cleaned whole)
    at false false e f h = cc h

abbrev decided : Bool → List ℕ → Result Failure (List ℕ)
decided b q = if b then err outside_root else ok q

-- What `resolve` answers once the root and the path are clean.
abbrev within : List ℕ → List ℕ → Result Failure (List ℕ)
within root p =
    if not (same_path p root) && not (path_prefix p (root ++ slash ∷ []))
    then err outside_root
    else ok p

within-ok :
    (root q p : List ℕ)
    → within root q ≡ ok p
    → (q ≡ p) × ((not (same_path q root) && not (path_prefix q (root ++ slash ∷ []))) ≡ false)
within-ok root q p h = at (not (same_path q root) && not (path_prefix q (root ++ slash ∷ []))) h
  where
    at :
        (b : Bool)
        → ◌≡◌ {A = Result Failure (List ℕ)} (if b then err outside_root else ok q) (ok p)
        → (q ≡ p) × (b ≡ false)
    at true h = cc h
    at false h = (cc h, refl)

resolve-IsInside :
    (root path p : List ℕ)
    → is_abs root ≡ true
    → resolve root path ≡ ok p
    → IsInside root p × (resolve root p ≡ ok p)
unfolding resolve
resolve-IsInside [] path p rooted h = cc rooted
resolve-IsInside (r ∷ bytes) path p rooted h =
    let root : List ℕ = clean (r ∷ bytes) in
    let top : IsRooted root = clean-IsRooted (r ∷ bytes) rooted in
    let (same, inside) =
      within-ok root (clean (if is_abs path then path else join root path)) p h in
    let cleaned : IsRooted p = subst IsRooted same (
      clean-IsRooted (if is_abs path then path else join root path)
        (target_abs root path (rooted_abs root top))) in
    let again : clean (if is_abs p then p else join root p) ≡ p =
      ap (λ b. clean (if b then p else join root p)) (rooted_abs p cleaned)
      ∙ clean_same p cleaned in
    (
      resolve_within root p top cleaned (
          ap (λ q. not (same_path q root) && not (path_prefix q (root ++ slash ∷ []))) (sym same)
          ∙ inside),
      ap (within root) (again ∙ sym same) ∙ h,
    )

same_path_refl : (p : List ℕ) → same_path p p ≡ true
same_path_refl [] = refl
same_path_refl (b ∷ p) = rw ((==_iff b b).1 refl, same_path_refl p) refl

path_prefix_append : (front back : List ℕ) → path_prefix (front ++ back) front ≡ true
path_prefix_append [] back = refl
path_prefix_append (b ∷ front) back = rw ((==_iff b b).1 refl, path_prefix_append front back) refl

-- The path that `resolve` looks at.
abbrev pub target : List ℕ → List ℕ → List ℕ
target root path = clean (if is_abs path then path else join (clean root) path)

-- What an answer of `resolve` says of the root and the path.
abbrev pub IsResolved : List ℕ → List ℕ → Result Failure (List ℕ) → Type 0
IsResolved root path (err empty_root) = root ≡ []
IsResolved root path (err outside_root) =
    (target root path ≢ clean root)
    × ((rest : List ℕ) → target root path ≢ clean root ++ slash ∷ rest)
IsResolved root path (ok p) = (p ≡ target root path) × IsInside root p × (resolve root p ≡ ok p)

neither : (a b : Bool) → (not a && not b) ≡ true → (a ≡ false) × (b ≡ false)
neither true b h = cc h
neither false true h = cc h
neither false false h = (refl, refl)

outside :
    (root p : List ℕ)
    → (not (same_path p root) && not (path_prefix p (root ++ slash ∷ []))) ≡ true
    → (p ≢ root) × ((rest : List ℕ) → p ≢ root ++ slash ∷ rest)
outside root p h =
    let (no_root, no_prefix) = neither (same_path p root) (path_prefix p (root ++ slash ∷ [])) h in
    (
      λ e.
          let e2 : same_path p root ≡ true = ap (λ q. same_path q root) e ∙ same_path_refl root in
          cc (e2, no_root),
      λ rest e.
          let e2 : path_prefix p (root ++ slash ∷ []) ≡ true =
            ap (λ q. path_prefix q (root ++ slash ∷ []))
              (e ∙ sym (append_assoc root (slash ∷ []) rest))
            ∙ path_prefix_append (root ++ slash ∷ []) rest in
          cc (e2, no_prefix),
    )

-- Under an absolute root, `resolve` answers as follows. A path that it returns is the cleaned target, and
-- is the cleaned root, or the cleaned root, a slash, and elements of which none is empty, "." or "..";
-- resolving it again gives the same path. Where it reports that the path is outside, the cleaned target
-- is neither the cleaned root nor the cleaned root, a slash and more.
pub resolve-IsResolved :
    (root path : List ℕ) → is_abs root ≡ true → IsResolved root path (resolve root path)
unfolding resolve
resolve-IsResolved [] path rooted = cc rooted
resolve-IsResolved (r ∷ bytes) path rooted =
    at (not (same_path q root) && not (path_prefix q (root ++ slash ∷ []))) refl
  where
    root : List ℕ
    root = clean (r ∷ bytes)

    q : List ℕ
    q = target (r ∷ bytes) path

    at :
        (b : Bool)
        → (not (same_path q root) && not (path_prefix q (root ++ slash ∷ []))) ≡ b
        → IsResolved (r ∷ bytes) path (if b then err outside_root else ok q)
    at true eq = outside root q eq
    at false eq =
        let (inside, again) =
          resolve-IsInside (r ∷ bytes) path q rooted (ap (λ b. decided b q) eq) in
        (refl, inside, again)
