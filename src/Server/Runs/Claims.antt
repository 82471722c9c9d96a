-- ===== src/Server/Runs/Claims.antt =====
-- internal/server/run_manager.go: the maps of sessions and ids against the runs that go.
use eika.Common.{
  ℕ, String, ◌≡◌, ◌≢◌, ◌⊎◌, inl, inr, refl, sym, ◌∙◌, false, List, [], ◌∷◌, ◌++◌, none, some,
  length, set, subst, ==-cases, Ordering-cases, Map, lookup, assign, get_elem?-set_self,
  get_elem?-set_ne, get_elem?-bound, get_elem?-append_left, get_elem?-append_last,
  get_elem?-append_past, lookup-assign_self, lookup-assign_ne, text-cases,
}
use eika.Server.Runs.Steps.{IsLive}
use eika.Server.Runs.{ActiveRun}

-- The maps agree with the runs that go: each session's run and each id's run goes, and each run that
-- goes holds its session and, from the start of its row on, its id. The map of ids is the one that
-- `byID` comes to be when every run that goes has entered itself.
pub record Agrees (by_session by_id : Map ℕ) (actives : List ActiveRun) : Type 0 where
  pub claimed :
      (p : ℕ) (a : ActiveRun) → IsLive actives p a → lookup by_session a.session_id ≡ some p
  pub held :
      (s : String) (p : ℕ)
      → lookup by_session s ≡ some p
      → (a : ActiveRun) × (IsLive actives p a × (a.session_id ≡ s))
  pub named :
      (id : String) (p : ℕ)
      → lookup by_id id ≡ some p
      → (a : ActiveRun) × (IsLive actives p a × (a.row ≡ id))
  pub numbered :
      (p : ℕ) (a : ActiveRun) → IsLive actives p a → (a.row ≡ "") ⊎ (lookup by_id a.row ≡ some p)

pub IsLive-set :
    (actives : List ActiveRun) (p q : ℕ) (a a' b : ActiveRun)
    → IsLive actives p a
    → IsLive (set actives p a') q b
    → ((q ≡ p) × (b ≡ a')) ⊎ ((q ≢ p) × IsLive actives q b)
IsLive-set actives p q a a' b live h = elim (==-cases q p) [
  | inl same ↦
      let found = get_elem?-set_self actives p a' (get_elem?-bound actives p live.here) in
      inl (same, cc (found, h.here))
  | inr other ↦ inr (
    other,
    record {
      here = sym (get_elem?-set_ne actives a' (λ e. other (sym e))) ∙ h.here;
      goes_on = h.goes_on;
    },
  )
]

pub set_other-IsLive :
    (actives : List ActiveRun) (p q : ℕ) (a' b : ActiveRun)
    → IsLive actives q b
    → q ≢ p
    → IsLive (set actives p a') q b
set_other-IsLive actives p q a' b h ne = record {
  here = get_elem?-set_ne actives a' (λ e. ne (sym e)) ∙ h.here;
  goes_on = h.goes_on;
}

pub append-IsLive :
    (actives : List ActiveRun) (q : ℕ) (a b : ActiveRun)
    → IsLive actives q b
    → IsLive (actives ++ a ∷ []) q b
append-IsLive actives q a b h = record {
  here = get_elem?-append_left actives (a ∷ []) q (get_elem?-bound actives q h.here) ∙ h.here;
  goes_on = h.goes_on;
}

pub IsLive-append :
    (actives : List ActiveRun) (q : ℕ) (a b : ActiveRun)
    → IsLive (actives ++ a ∷ []) q b
    → ((q ≡ length actives) × (b ≡ a)) ⊎ IsLive actives q b
IsLive-append actives q a b h = elim (Ordering-cases q (length actives)) [
  | inl (inl less) ↦ inr (record {
    here = sym (get_elem?-append_left actives (a ∷ []) q less) ∙ h.here;
    goes_on = h.goes_on;
  })
  | inl (inr same) ↦ inl (same, cc (get_elem?-append_last actives a, h.here, same))
  | inr past ↦ absurd (cc (get_elem?-append_past actives a q past, h.here))
]

-- A pointer leads to one run.
pub live_unique :
    (actives : List ActiveRun) (p q : ℕ) (a b : ActiveRun)
    → IsLive actives p a
    → IsLive actives q b
    → q ≡ p
    → b ≡ a
live_unique actives p q a b h k same = cc (h.here, k.here, same)

-- What a live run is after one that keeps its session and its id has changed.
replaced-IsLive :
    (actives : List ActiveRun) (p q : ℕ) (a a' b : ActiveRun)
    → IsLive actives p a
    → a'.session_id ≡ a.session_id
    → a'.row ≡ a.row
    → a'.done ≡ false
    → IsLive actives q b
    → (b' : ActiveRun) × (IsLive (set actives p a') q b'
        × ((b'.session_id ≡ b.session_id) × (b'.row ≡ b.row)))
replaced-IsLive actives p q a a' b live same_s same_id on old = elim (==-cases q p) [
  | inr other ↦ (b, (set_other-IsLive actives p q a' b old other, (refl, refl)))
  | inl same ↦
      let eq : b ≡ a = live_unique actives p q a b live old same in
      let now : IsLive (set actives p a') p a' = record {
        here = get_elem?-set_self actives p a' (get_elem?-bound actives p live.here);
        goes_on = on;
      } in
      (
        a',
        (
          subst (λ k. IsLive (set actives p a') k a') (sym same) now,
          (cc (same_s, eq), cc (same_id, eq)),
        ),
      )
]

-- A live run that changes keeps its session and its row.
pub replace-Agrees :
    (by_session by_id : Map ℕ) (actives : List ActiveRun) (p : ℕ) (a a' : ActiveRun)
    → Agrees by_session by_id actives
    → IsLive actives p a
    → a'.session_id ≡ a.session_id
    → a'.row ≡ a.row
    → a'.done ≡ false
    → Agrees by_session by_id (set actives p a')
replace-Agrees by_session by_id actives p a a' agrees live same_s same_id on = record {
  claimed = λ q b h. elim (IsLive-set actives p q a a' b live h) [
    | inl (same, eq) ↦ cc (agrees.claimed p a live)
    | inr (other, old) ↦ agrees.claimed q b old
  ];
  held = λ s q found.
      let (b, (old, same)) = agrees.held s q found in
      let (b', (now, (eq_s, eq_id))) =
        replaced-IsLive actives p q a a' b live same_s same_id on old in
      (b', (now, eq_s ∙ same));
  named = λ id q found.
      let (b, (old, same)) = agrees.named id q found in
      let (b', (now, (eq_s, eq_id))) =
        replaced-IsLive actives p q a a' b live same_s same_id on old in
      (b', (now, eq_id ∙ same));
  numbered = λ q b h. elim (IsLive-set actives p q a a' b live h) [
    | inl (same, eq) ↦ elim (agrees.numbered p a live) [
      | inl no_row ↦ inl (cc (no_row, eq, same_id))
      | inr found ↦ inr (cc (found, same_id, eq))
    ]
    | inr (other, old) ↦ agrees.numbered q b old
  ];
}

-- A new reservation takes a free session.
pub reserved-Agrees :
    (by_session by_id : Map ℕ) (actives : List ActiveRun) (a : ActiveRun)
    → Agrees by_session by_id actives
    → lookup by_session a.session_id ≡ none
    → a.row ≡ ""
    → a.done ≡ false
    → Agrees (assign by_session a.session_id (length actives)) by_id (actives ++ a ∷ [])
reserved-Agrees by_session by_id actives a agrees free no_id on = record {
  claimed = λ q b h. elim (IsLive-append actives q a b h) [
    | inl (same, eq) ↦ cc (lookup-assign_self by_session a.session_id (length actives), same, eq)
    | inr old ↦
        let found = agrees.claimed q b old in
        lookup-assign_ne by_session a.session_id b.session_id (length actives)
          (λ e. cc (found, free, e))
        ∙ found
  ];
  held = λ s q found. elim (text-cases a.session_id s) [
    | inl same ↦
        let eq : length actives ≡ q =
          cc (found, lookup-assign_self by_session a.session_id (length actives), same) in
        (
          a,
          (
            subst (λ k. IsLive (actives ++ a ∷ []) k a) eq
                (record { here = get_elem?-append_last actives a; goes_on = on }),
            same,
          ),
        )
    | inr other ↦
        let (b, (old, same)) =
          agrees.held s q
            (sym (lookup-assign_ne by_session a.session_id s (length actives) other) ∙ found) in
        (b, (append-IsLive actives q a b old, same))
  ];
  named = λ id q found.
      let (b, (old, same)) = agrees.named id q found in
      (b, (append-IsLive actives q a b old, same));
  numbered = λ q b h. elim (IsLive-append actives q a b h) [
    | inl (same, eq) ↦ inl (cc (no_id, eq))
    | inr old ↦ agrees.numbered q b old
  ];
}
