-- ===== src/Provider/ToolCalls/Sorted.antt =====
-- internal/provider/openai/toolcalls.go: the indexes that the calls are sorted by.
use mathlib.Core.List.{Memᴰ}
use mathlib.Core.List.Memᴰ
use eika.Common.{
  ◌+◌, ◌≡◌, ==_iff, ◌≢◌, ◌↔◌, ◌⊎◌, inl, inr, refl, sym, ◌∙◌, subst, Bool, true, false, List, [],
  ◌∷◌, map, arith, if◌then◌else◌, All, All-mono,
}
use eika.Common.Int.{ℤ, pos_part, neg_part, ltb_ℤ, eq_of_parts}
use eika.Provider.ToolCalls.{Fragment, Calls, same_index, add, insert, sort, indexes_of, extend}

abbrev pub IsIncreasing : List ℤ → Type 0
IsIncreasing [] = Unit
IsIncreasing (i ∷ indexes) = All (λ j. ltb_ℤ i j ≡ true) indexes × IsIncreasing indexes

abbrev pub IsDistinct : List ℤ → Type 0
IsDistinct [] = Unit
IsDistinct (i ∷ indexes) = All (λ j. i ≢ j) indexes × IsDistinct indexes

pub same_index-eq : (i j : ℤ) → same_index i j ≡ true → i ≡ j
same_index-eq i j h =
    eq_of_parts i j ((==_iff (pos_part i + neg_part j) (pos_part j + neg_part i)).0 h)

pub same_index_refl : (i : ℤ) → same_index i i ≡ true
same_index_refl i = (==_iff (pos_part i + neg_part i) (pos_part i + neg_part i)).1 refl

-- An index that is not i but is k: i is not k.
pub same_index_apart :
    (i j k : ℤ) → same_index j i ≡ false → same_index j k ≡ true → same_index i k ≡ false
same_index_apart i j k other same = ground arith

ltb_trans : (i j k : ℤ) → ltb_ℤ i j ≡ true → ltb_ℤ j k ≡ true → ltb_ℤ i k ≡ true
ltb_trans i j k h l = ground arith

ltb_total : (i j : ℤ) → i ≢ j → ltb_ℤ i j ≡ false → ltb_ℤ j i ≡ true
ltb_total i j h l = grind (arith, eq_of_parts)

All-insert :
    (IsGood : ℤ → Type 0) (i : ℤ) (indexes : List ℤ)
    → IsGood i
    → All IsGood indexes
    → All IsGood (insert i indexes)
All-insert IsGood i [] fits good = (fits, tt)
All-insert IsGood i (j ∷ indexes) fits (first, good) =
    at (ltb_ℤ i j) (All-insert IsGood i indexes fits good)
  where
    at :
        (b : Bool)
        → All IsGood (insert i indexes)
        → All IsGood (if b then i ∷ j ∷ indexes else j ∷ insert i indexes)
    at true later = (fits, (first, good))
    at false later = (first, later)

insert-IsIncreasing :
    (i : ℤ) (indexes : List ℤ)
    → All (λ j. i ≢ j) indexes
    → IsIncreasing indexes
    → IsIncreasing (insert i indexes)
insert-IsIncreasing i [] other sorted = (tt, tt)
insert-IsIncreasing i (j ∷ indexes) (differs, other) (first, sorted) =
    at (ltb_ℤ i j) refl (insert-IsIncreasing i indexes other sorted)
  where
    at :
        (b : Bool)
        → ltb_ℤ i j ≡ b
        → IsIncreasing (insert i indexes)
        → IsIncreasing (if b then i ∷ j ∷ indexes else j ∷ insert i indexes)
    at true less later = (
      (
        less,
        All-mono (λ k. ltb_ℤ j k ≡ true) (λ k. ltb_ℤ i k ≡ true)
            (λ k below. ltb_trans i j k less below) indexes first,
      ),
      (first, sorted),
    )
    at false less later =
        (All-insert (λ k. ltb_ℤ j k ≡ true) i indexes (ltb_total i j differs less) first, later)

All-sort : (IsGood : ℤ → Type 0) (indexes : List ℤ) → All IsGood indexes → All IsGood (sort indexes)
All-sort IsGood [] good = tt
All-sort IsGood (i ∷ indexes) (fits, good) =
    All-insert IsGood i (sort indexes) fits (All-sort IsGood indexes good)

pub sort-IsIncreasing : (indexes : List ℤ) → IsDistinct indexes → IsIncreasing (sort indexes)
sort-IsIncreasing [] distinct = tt
sort-IsIncreasing (i ∷ indexes) (other, distinct) =
    insert-IsIncreasing i (sort indexes) (All-sort (λ j. i ≢ j) indexes other)
      (sort-IsIncreasing indexes distinct)

Mem-iff : (k i : ℤ) (l : List ℤ) → Memᴰ k (i ∷ l) ↔ ((k ≡ i) ⊎ Memᴰ k l)
Mem-iff k i l = (Memᴰ.cases_cons, λ o. elim o [ inl e ↦ Memᴰ.head e | inr m ↦ Memᴰ.tail m ])

-- The same behind another index.
Mem-behind :
    (k i j : ℤ) (longer l : List ℤ)
    → (Memᴰ k longer ↔ ((k ≡ i) ⊎ Memᴰ k l))
    → Memᴰ k (j ∷ longer) ↔ ((k ≡ i) ⊎ Memᴰ k (j ∷ l))
Mem-behind k i j longer l (to, from) = (
  λ m. elim (Memᴰ.cases_cons m) [
    | inl e ↦ inr (Memᴰ.head e)
    | inr later ↦ elim (to later) [ inl e ↦ inl e | inr found ↦ inr (Memᴰ.tail found) ]
  ],
  λ o. elim o [
    | inl e ↦ Memᴰ.tail (from (inl e))
    | inr m ↦ elim (Memᴰ.cases_cons m) [
      | inl e ↦ Memᴰ.head e
      | inr later ↦ Memᴰ.tail (from (inr later))
    ]
  ],
)

insert-Mem : (i k : ℤ) (indexes : List ℤ) → Memᴰ k (insert i indexes) ↔ ((k ≡ i) ⊎ Memᴰ k indexes)
insert-Mem i k [] = Mem-iff k i []
insert-Mem i k (j ∷ indexes) = at (ltb_ℤ i j) (insert-Mem i k indexes)
  where
    at :
        (b : Bool)
        → (Memᴰ k (insert i indexes) ↔ ((k ≡ i) ⊎ Memᴰ k indexes))
        → Memᴰ k (if b then i ∷ j ∷ indexes else j ∷ insert i indexes)
          ↔ ((k ≡ i) ⊎ Memᴰ k (j ∷ indexes))
    at true later = Mem-iff k i (j ∷ indexes)
    at false later = Mem-behind k i j (insert i indexes) indexes later

pub sort-Mem : (k : ℤ) (indexes : List ℤ) → Memᴰ k (sort indexes) ↔ Memᴰ k indexes
sort-Mem k [] = (λ m. m, λ m. m)
sort-Mem k (i ∷ indexes) =
    let (to, from) = insert-Mem i k (sort indexes) in
    let (to_sorted, from_sorted) = sort-Mem k indexes in
    (
      λ m. elim (to m) [ inl e ↦ Memᴰ.head e | inr later ↦ Memᴰ.tail (to_sorted later) ],
      λ m. elim (Memᴰ.cases_cons m) [
        | inl e ↦ from (inl e)
        | inr later ↦ from (inr (from_sorted later))
      ],
    )

module _ (f : Fragment) where
  pub add-Mem :
      (k : ℤ) (calls : Calls)
      → Memᴰ k (indexes_of (add calls f)) ↔ ((k ≡ f.index) ⊎ Memᴰ k (indexes_of calls))
  unfolding add
  add-Mem k [] = Mem-iff k f.index []
  add-Mem k ((j, call) ∷ calls) = at (same_index j f.index) refl (add-Mem k calls)
    where
      at :
          (b : Bool)
          → same_index j f.index ≡ b
          → (Memᴰ k (indexes_of (add calls f)) ↔ ((k ≡ f.index) ⊎ Memᴰ k (indexes_of calls)))
          → Memᴰ k (indexes_of (if b then (j, extend call f) ∷ calls else (j, call) ∷ add calls f))
            ↔ ((k ≡ f.index) ⊎ Memᴰ k (j ∷ indexes_of calls))
      at true same later = (
        λ m. inr m,
        λ o. elim o [ inl e ↦ Memᴰ.head (e ∙ sym (same_index-eq j f.index same)) | inr m ↦ m ],
      )
      at false other later =
          Mem-behind k f.index j (indexes_of (add calls f)) (indexes_of calls) later

  All-add :
      (IsGood : ℤ → Type 0) (calls : Calls)
      → IsGood f.index
      → All IsGood (indexes_of calls)
      → All IsGood (indexes_of (add calls f))
  unfolding add
  All-add IsGood [] fits good = (fits, tt)
  All-add IsGood ((j, call) ∷ calls) fits (first, good) =
      at (same_index j f.index) (All-add IsGood calls fits good)
    where
      at :
          (b : Bool)
          → All IsGood (indexes_of (add calls f))
          → All IsGood
              (indexes_of (if b then (j, extend call f) ∷ calls else (j, call) ∷ add calls f))
      at true later = (first, good)
      at false later = (first, later)

  pub add-IsDistinct :
      (calls : Calls) → IsDistinct (indexes_of calls) → IsDistinct (indexes_of (add calls f))
  unfolding add
  add-IsDistinct [] distinct = (tt, tt)
  add-IsDistinct ((j, call) ∷ calls) (other, distinct) =
      at (same_index j f.index) refl (add-IsDistinct calls distinct)
    where
      differs : same_index j f.index ≡ false → j ≢ f.index
      differs h e =
          let again : same_index j f.index ≡ true =
            subst (λ i. same_index j i ≡ true) e (same_index_refl j) in
          cc (again, h)

      at :
          (b : Bool)
          → same_index j f.index ≡ b
          → IsDistinct (indexes_of (add calls f))
          → IsDistinct
              (indexes_of (if b then (j, extend call f) ∷ calls else (j, call) ∷ add calls f))
      at true same later = (other, distinct)
      at false apart later = (All-add (λ i. j ≢ i) calls (differs apart) other, later)

abbrev pub add_fragments : Calls → List Fragment → Calls
add_fragments calls [] = calls
add_fragments calls (f ∷ fragments) = add_fragments (add calls f) fragments

pub add_fragments-IsDistinct :
    (calls : Calls) (fragments : List Fragment)
    → IsDistinct (indexes_of calls)
    → IsDistinct (indexes_of (add_fragments calls fragments))
add_fragments-IsDistinct calls [] distinct = distinct
add_fragments-IsDistinct calls (f ∷ fragments) distinct =
    add_fragments-IsDistinct (add calls f) fragments (add-IsDistinct f calls distinct)

pub add_fragments-Mem :
    (k : ℤ) (calls : Calls) (fragments : List Fragment)
    → Memᴰ k (indexes_of (add_fragments calls fragments))
      ↔ (Memᴰ k (indexes_of calls) ⊎ Memᴰ k (map (λ f. f.index) fragments))
add_fragments-Mem k calls [] = (λ m. inl m, λ o. elim o [ inl m ↦ m | inr m ↦ elim m [ ] ])
add_fragments-Mem k calls (f ∷ fragments) =
    let (to, from) = add_fragments-Mem k (add calls f) fragments in
    let (to_calls, from_calls) = add-Mem f k calls in
    (
      λ m. elim (to m) [
        | inl found ↦ elim (to_calls found) [ inl e ↦ inr (Memᴰ.head e) | inr old ↦ inl old ]
        | inr later ↦ inr (Memᴰ.tail later)
      ],
      λ o. elim o [
        | inl old ↦ from (inl (from_calls (inr old)))
        | inr m ↦ elim (Memᴰ.cases_cons m) [
          | inl e ↦ from (inl (from_calls (inl e)))
          | inr later ↦ from (inr later)
        ]
      ],
    )
