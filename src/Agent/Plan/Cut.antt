-- ===== src/Agent/Plan/Cut.antt =====
-- internal/agent/compaction.go: the places at which `planCompaction` may cut.
use eika.Common.{
  ◌==◌, ==_iff, subst, sym, if◌then◌else◌, ℕ, zero, suc, ◌+◌, ◌≤◌, ◌<◌, Bool, true, false, none,
  some, List, [], ◌∷◌, leb, arith, ◌≡◌, refl, inl, inr, Bool-cases,
}
use eika.Provider.{Message, is_tool}
use eika.Agent.Plan.{role_at, cuts, first_from, last_cut}

-- Every message from `lo` up to `hi` is a tool result.
abbrev pub IsTools : List Message → ℕ → ℕ → Type 0
IsTools msgs lo hi = (d : ℕ) → lo ≤ d → d < hi → is_tool (role_at msgs d) ≡ true

-- `cs` are the places from `lo` up to `hi` that are no tool results, in order.
abbrev pub AreCuts : List Message → ℕ → ℕ → List ℕ → Type 0
AreCuts msgs lo hi [] = IsTools msgs lo hi
AreCuts msgs lo hi (c ∷ cs) =
    (lo ≤ c)
    × ((c < hi)
        × ((is_tool (role_at msgs c) ≡ false) × (IsTools msgs lo c × AreCuts msgs (suc c) hi cs)))

IsTools-empty : (msgs : List Message) (lo hi : ℕ) → hi ≤ lo → IsTools msgs lo hi
IsTools-empty msgs lo hi h d a b = ground arith

IsTools-cons :
    (msgs : List Message) (lo hi : ℕ)
    → is_tool (role_at msgs lo) ≡ true
    → IsTools msgs (suc lo) hi
    → IsTools msgs lo hi
IsTools-cons msgs lo hi t rest d a b = elim (Bool-cases (d == lo)) [
  | inl e ↦ subst (λ x. is_tool (role_at msgs x) ≡ true) (sym ((==_iff d lo).0 e)) t
  | inr e ↦ rest d (ground arith) b
]

AreCuts-cons :
    (msgs : List Message) (lo hi : ℕ) (cs : List ℕ)
    → is_tool (role_at msgs lo) ≡ true
    → AreCuts msgs (suc lo) hi cs
    → AreCuts msgs lo hi cs
AreCuts-cons msgs lo hi [] t rest = IsTools-cons msgs lo hi t rest
AreCuts-cons msgs lo hi (c ∷ cs) t (a, (b, (d, (e, f)))) =
    (omega arith, (b, (d, (IsTools-cons msgs lo c t e, f))))

pub cuts-AreCuts :
    (msgs : List Message) (lo hi n : ℕ) → hi ≡ lo + n → AreCuts msgs lo hi (cuts msgs lo n)
unfolding cuts
cuts-AreCuts msgs lo hi zero h = IsTools-empty msgs lo hi (omega arith)
cuts-AreCuts msgs lo hi (suc n) h =
    step (is_tool (role_at msgs lo)) refl (cuts-AreCuts msgs (suc lo) hi n (omega arith))
  where
    step :
        (b : Bool)
        → is_tool (role_at msgs lo) ≡ b
        → AreCuts msgs (suc lo) hi (cuts msgs (suc lo) n)
        → AreCuts msgs lo hi (if b then cuts msgs (suc lo) n else lo ∷ cuts msgs (suc lo) n)
    step true t rest = AreCuts-cons msgs lo hi (cuts msgs (suc lo) n) t rest
    step false t rest =
        (omega arith, (omega arith, (t, (IsTools-empty msgs lo lo (omega arith), rest))))

-- The cut that `planCompaction` takes: no tool result, in range, and either the first at or after
-- `i`, or the newest where none is.
pub record IsChosen (msgs : List Message) (lo hi c : ℕ) : Type 0 where
  pub above : lo ≤ c
  pub below : c < hi
  pub no_tool : is_tool (role_at msgs c) ≡ false

IsTools-part :
    (msgs : List Message) (lo hi a b : ℕ) → lo ≤ a → b ≤ hi → IsTools msgs lo hi → IsTools msgs a b
IsTools-part msgs lo hi a b h k all d x y = all d (omega arith) (omega arith)

-- What the loop over the cuts finds.
pub record IsFirstFrom (msgs : List Message) (lo hi i c : ℕ) : Type 0 where
  pub chosen : IsChosen msgs lo hi c
  pub from : i ≤ c
  pub between : IsTools msgs i c

later :
    (msgs : List Message) (lo mid hi i c : ℕ)
    → lo ≤ mid
    → IsFirstFrom msgs mid hi i c
    → IsFirstFrom msgs lo hi i c
later msgs lo mid hi i c h k = record {
  chosen = record {
    above = omega (arith, k.chosen.above);
    below = k.chosen.below;
    no_tool = k.chosen.no_tool;
  };
  from = k.from;
  between = k.between;
}

pub first_from-some :
    (msgs : List Message) (lo hi i c : ℕ) (cs : List ℕ)
    → lo ≤ i
    → AreCuts msgs lo hi cs
    → first_from i cs ≡ some c
    → IsFirstFrom msgs lo hi i c
unfolding first_from
first_from-some msgs lo hi i c [] l w h = cc
first_from-some msgs lo hi i c (d ∷ cs) l (a, (b, (t, (f, w)))) h =
    step (leb i d) refl h (λ l h. first_from-some msgs (suc d) hi i c cs l w h)
  where
    step :
        (x : Bool)
        → leb i d ≡ x
        → (if x then some d else first_from i cs) ≡ some c
        → (suc d ≤ i → first_from i cs ≡ some c → IsFirstFrom msgs (suc d) hi i c)
        → IsFirstFrom msgs lo hi i c
    step true e h rest =
        subst (λ x. IsFirstFrom msgs lo hi i x) (ground arith)
          (record {
            chosen = record { above = a; below = b; no_tool = t };
            from = ground arith;
            between = IsTools-part msgs lo d i d l (omega arith) f;
          })
    step false e h rest = later msgs lo (suc d) hi i c (omega arith) (rest (ground arith) h)

pub first_from-none :
    (msgs : List Message) (lo hi i : ℕ) (cs : List ℕ)
    → lo ≤ i
    → AreCuts msgs lo hi cs
    → first_from i cs ≡ none
    → IsTools msgs i hi
unfolding first_from
first_from-none msgs lo hi i [] l w h = IsTools-part msgs lo hi i hi l (omega arith) w
first_from-none msgs lo hi i (d ∷ cs) l (a, (b, (t, (f, w)))) h =
    step (leb i d) refl h (λ l h. first_from-none msgs (suc d) hi i cs l w h)
  where
    step :
        (x : Bool)
        → leb i d ≡ x
        → (if x then some d else first_from i cs) ≡ none
        → (suc d ≤ i → first_from i cs ≡ none → IsTools msgs i hi)
        → IsTools msgs i hi
    step true e h rest = cc
    step false e h rest = rest (ground arith) h

-- The newest cut: only tool results come after it.
pub record IsLast (msgs : List Message) (lo hi c : ℕ) : Type 0 where
  pub chosen : IsChosen msgs lo hi c
  pub after : IsTools msgs (suc c) hi

pub last_cut-IsLast :
    (msgs : List Message) (lo hi c : ℕ) (cs : List ℕ)
    → AreCuts msgs lo hi (c ∷ cs)
    → IsLast msgs lo hi (last_cut c cs)
unfolding last_cut
last_cut-IsLast msgs lo hi c [] (a, (b, (t, (f, w)))) = record {
  chosen = record { above = a; below = b; no_tool = t };
  after = w;
}
last_cut-IsLast msgs lo hi c (d ∷ cs) (a, (b, (t, (f, w)))) =
    let k = last_cut-IsLast msgs (suc c) hi d cs w in
    record {
      chosen = record {
        above = omega (arith, k.chosen.above);
        below = k.chosen.below;
        no_tool = k.chosen.no_tool;
      };
      after = k.after;
    }
