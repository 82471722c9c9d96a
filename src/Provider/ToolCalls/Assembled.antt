-- ===== src/Provider/ToolCalls/Assembled.antt =====
-- internal/provider/openai/toolcalls.go: the calls are those of the fragments, each with what its own
-- fragments say, in the order of their indexes.
use mathlib.Core.List.{Memᴰ}
use eika.Common.{
  ℕ, ◌≡◌, ◌↔◌, inl, inr, refl, sym, ap, ap₂, ◌∙◌, Bool, true, false, List, [], ◌∷◌, ◌++◌,
  append_assoc, append-nil, map, foldl, String, str_eq, str_eq_iff, arith, if◌then◌else◌,
  concat_all,
}
use eika.Common.Int.{ℤ}
use eika.Provider.ToolCalls.Sorted.{
  IsIncreasing, sort-IsIncreasing, sort-Mem, add_fragments, add_fragments-IsDistinct,
  add_fragments-Mem, same_index-eq, same_index_apart,
}
use eika.Provider.ToolCalls.{
  Fragment, PartialCall, Calls, Call, same_index, empty_call, extend, add, sort, indexes_of,
  call_at, finished, assembled_calls, or_empty, trim_white,
}

-- The last text that is not empty.
abbrev pub last_filled : List String → String
last_filled [] = ""
last_filled (text ∷ texts) =
    let later = last_filled texts in if str_eq later "" then text else later

-- The fragments of one index.
abbrev pub fragments_of : ℤ → List Fragment → List Fragment
fragments_of i [] = []
fragments_of i (f ∷ fragments) =
    let rest = fragments_of i fragments in if same_index f.index i then f ∷ rest else rest

abbrev pub texts_of : List Fragment → List (List ℕ)
texts_of fragments = map (λ f. f.arguments) fragments

-- The call that the fragments of its index describe.
abbrev pub described : List Fragment → Call
described fragments = record {
  id = last_filled (map (λ f. f.id) fragments);
  name = last_filled (map (λ f. f.name) fragments);
  arguments = or_empty (trim_white (concat_all (texts_of fragments)));
}

call_at-add :
    (calls : Calls) (f : Fragment) (i : ℤ)
    → call_at (add calls f) i
      ≡ (if same_index f.index i then extend (call_at calls i) f else call_at calls i)
unfolding add
call_at-add [] f i = refl
call_at-add ((j, call) ∷ calls) f i = at (same_index j f.index) refl (call_at-add calls f i)
  where
    reads : Bool → Bool → PartialCall
    reads b c =
        if b
        then extend (if c then call else call_at calls i) f
        else (if c then call else call_at calls i)

    twice : (b c : Bool) → b ≡ c → (if c then extend call f else call_at calls i) ≡ reads b c
    twice true true e = refl
    twice true false e = cc e
    twice false true e = cc e
    twice false false e = refl

    once :
        (b c : Bool)
        → (c ≡ true → b ≡ false)
        → call_at (add calls f) i ≡ (if b then extend (call_at calls i) f else call_at calls i)
        → (if c then call else call_at (add calls f) i) ≡ reads b c
    once true true h later = cc (h refl)
    once false true h later = refl
    once b false h later = at b later
      where
        at :
            (b : Bool)
            → call_at (add calls f) i ≡ (if b then extend (call_at calls i) f else call_at calls i)
            → call_at (add calls f) i ≡ reads b false
        at true later = later
        at false later = later

    at :
        (a : Bool)
        → same_index j f.index ≡ a
        → call_at (add calls f) i
          ≡ (if same_index f.index i then extend (call_at calls i) f else call_at calls i)
        → call_at (if a then (j, extend call f) ∷ calls else (j, call) ∷ add calls f) i
          ≡ reads (same_index f.index i) (same_index j i)
    at true eq later =
        twice (same_index f.index i) (same_index j i)
          (ap (λ k. same_index k i) (sym (same_index-eq j f.index eq)))
    at false eq later =
        once (same_index f.index i) (same_index j i) (same_index_apart f.index j i eq) later

call_at-add_fragments :
    (fragments : List Fragment) (calls : Calls) (i : ℤ)
    → call_at (add_fragments calls fragments) i
      ≡ foldl extend (call_at calls i) (fragments_of i fragments)
call_at-add_fragments [] calls i = refl
call_at-add_fragments (f ∷ fragments) calls i =
    call_at-add_fragments fragments (add calls f) i
    ∙ ap (λ c. foldl extend c (fragments_of i fragments)) (call_at-add calls f i)
    ∙ at (same_index f.index i)
  where
    at :
        (b : Bool)
        → foldl extend
            (if b then extend (call_at calls i) f else call_at calls i)
            (fragments_of i fragments)
          ≡ foldl extend
              (call_at calls i)
              (if b then f ∷ fragments_of i fragments else fragments_of i fragments)
    at true = refl
    at false = refl

abbrev pub or_before : String → String → String
or_before before text = if str_eq text "" then before else text

pub or_before_twice : (a b c : String) → or_before (or_before a b) c ≡ or_before a (or_before b c)
or_before_twice a b c = ground (arith)

pub or_before_empty : (text : String) → or_before "" text ≡ text
or_before_empty text = ground (arith, str_eq_iff text "")

extended :
    (fragments : List Fragment) (call : PartialCall)
    → ((foldl extend call fragments).id
        ≡ or_before call.id (last_filled (map (λ f. f.id) fragments)))
      × ((foldl extend call fragments).name
          ≡ or_before call.name (last_filled (map (λ f. f.name) fragments)))
      × ((foldl extend call fragments).args ≡ call.args ++ concat_all (texts_of fragments))
extended [] call = (refl, refl, sym (append-nil call.args))
extended (f ∷ fragments) call =
    let (id, name, args) = extended fragments (extend call f) in
    (
      id ∙ or_before_twice call.id f.id (last_filled (map (λ g. g.id) fragments)),
      name ∙ or_before_twice call.name f.name (last_filled (map (λ g. g.name) fragments)),
      args ∙ append_assoc call.args f.arguments (concat_all (texts_of fragments)),
    )

call_of-described :
    (fragments : List Fragment) → finished (foldl extend empty_call fragments) ≡ described fragments
call_of-described fragments =
    let (id, name, args) = extended fragments empty_call in
    described_by (id ∙ or_before_empty (last_filled (map (λ f. f.id) fragments)))
      (name ∙ or_before_empty (last_filled (map (λ f. f.name) fragments))) args
  where
    described_by :
        {a b : String} {c : List ℕ}
        → (foldl extend empty_call fragments).id ≡ a
        → (foldl extend empty_call fragments).name ≡ b
        → (foldl extend empty_call fragments).args ≡ c
        → finished (foldl extend empty_call fragments)
          ≡ record { id = a; name = b; arguments = or_empty (trim_white c) }
    described_by e f g = rw (e, f, g) refl

map-pointwise :
    (g h : ℤ → Call) → ((i : ℤ) → g i ≡ h i) → (indexes : List ℤ) → map g indexes ≡ map h indexes
map-pointwise g h same [] = refl
map-pointwise g h same (i ∷ indexes) = ap₂ (λ c l. c ∷ l) (same i) (map-pointwise g h same indexes)

-- The calls that the fragments describe, in the order of their indexes.
pub record IsAssembled (fragments : List Fragment) (calls : List Call) : Type 0 where
  pub indexes : List ℤ
  pub increasing : IsIncreasing indexes
  pub complete : (i : ℤ) → Memᴰ i indexes ↔ Memᴰ i (map (λ f. f.index) fragments)
  pub same : calls ≡ map (λ i. described (fragments_of i fragments)) indexes

-- Whatever the order in which fragments of several calls arrive, `calls` returns one call for each index
-- among them, in increasing order of the index. Its id and its name are the last ones of its fragments
-- that are not empty, and its arguments are those of its fragments, one behind the other, without the
-- white space around them, or an empty object where nothing is left.
pub assembled_calls-IsAssembled :
    (fragments : List Fragment)
    → IsAssembled fragments (assembled_calls (add_fragments [] fragments))
unfolding assembled_calls
assembled_calls-IsAssembled fragments = record {
  indexes = sort (indexes_of (add_fragments [] fragments));
  increasing =
      sort-IsIncreasing (indexes_of (add_fragments [] fragments))
        (add_fragments-IsDistinct [] fragments tt);
  complete = λ i.
      let (to, from) = add_fragments-Mem i [] fragments in
      let (to_sorted, from_sorted) = sort-Mem i (indexes_of (add_fragments [] fragments)) in
      (
        λ m. elim (to (to_sorted m)) [ inl none_yet ↦ elim none_yet [ ] | inr found ↦ found ],
        λ m. from_sorted (from (inr m)),
      );
  same =
      map-pointwise (λ i. finished (call_at (add_fragments [] fragments) i))
        (λ i. described (fragments_of i fragments))
        (λ i.
          ap finished (call_at-add_fragments fragments [] i)
          ∙ call_of-described (fragments_of i fragments))
        (sort (indexes_of (add_fragments [] fragments)));
}
