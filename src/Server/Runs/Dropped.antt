-- ===== src/Server/Runs/Dropped.antt =====
-- internal/server/run_manager.go: the maps when a run ends or is published.
use eika.Common.{
  ℕ, String, ◌≡◌, ◌≢◌, inl, inr, sym, ap, ◌∙◌, true, false, List, none, some, get_elem?, set,
  ==-cases, Map, lookup, erase, assign, get_elem?-set_self, get_elem?-bound, lookup-erase_self,
  lookup-erase_ne, lookup-assign_self, lookup-assign_ne, text-cases,
}
use eika.Server.Runs.Steps.{IsLive}
use eika.Server.Runs.{ActiveRun}
use eika.Server.Runs.Claims.{Agrees, IsLive-set, set_other-IsLive, live_unique}

-- What `byID` is without the run at a pointer.
pub record IsWithout (by_id : Map ℕ) (p : ℕ) (by_id' : Map ℕ) : Type 0 where
  pub less :
      (id : String) (q : ℕ) → lookup by_id' id ≡ some q → (q ≢ p) × (lookup by_id id ≡ some q)
  pub keeps : (id : String) (q : ℕ) → q ≢ p → lookup by_id id ≡ some q → lookup by_id' id ≡ some q

-- A run that ends gives up its session and its id.
pub dropped-Agrees :
    (by_session by_id by_id' : Map ℕ) (actives : List ActiveRun) (p : ℕ) (a a' : ActiveRun)
    → Agrees by_session by_id actives
    → IsLive actives p a
    → a'.done ≡ true
    → IsWithout by_id p by_id'
    → Agrees (erase by_session a.session_id) by_id' (set actives p a')
dropped-Agrees by_session by_id by_id' actives p a a' agrees live off without = record {
  claimed = λ q b h.
      let (other, old) = still q b h in
      let found = agrees.claimed q b old in
      lookup-erase_ne by_session a.session_id b.session_id
        (λ e. other (cc (found, agrees.claimed p a live, e)))
      ∙ found;
  held = λ s q found. elim (text-cases a.session_id s) [
    | inl same ↦ absurd (cc (found, lookup-erase_self by_session a.session_id, same))
    | inr ne ↦
        let before = sym (lookup-erase_ne by_session a.session_id s ne) ∙ found in
        let (b, (old, same)) = agrees.held s q before in
        let other : q ≢ p = λ e. ne (cc (live_unique actives p q a b live old e, same)) in
        (b, (set_other-IsLive actives p q a' b old other, same))
  ];
  named = λ id q found.
      let (other, before) = without.less id q found in
      let (b, (old, same)) = agrees.named id q before in
      (b, (set_other-IsLive actives p q a' b old other, same));
  numbered = λ q b h.
      let (other, old) = still q b h in
      elim (agrees.numbered q b old) [
        | inl building ↦ inl building
        | inr found ↦ inr (without.keeps b.row q other found)
      ];
}
  where
    still : (q : ℕ) (b : ActiveRun) → IsLive (set actives p a') q b → (q ≢ p) × IsLive actives q b
    still q b h = elim (IsLive-set actives p q a a' b live h) [
      | inl (same, eq) ↦ absurd (cc (h.goes_on, off, eq))
      | inr left ↦ left
    ]

-- A run that is being built has no id to give up; a published one is found under its own id alone.
pub building-IsWithout :
    (by_session by_id : Map ℕ) (actives : List ActiveRun) (p : ℕ) (a : ActiveRun)
    → Agrees by_session by_id actives
    → IsLive actives p a
    → lookup by_id a.row ≡ none
    → IsWithout by_id p by_id
building-IsWithout by_session by_id actives p a agrees live unnamed = record {
  less = λ id q found.
      let (b, (old, same)) = agrees.named id q found in
      ((λ e. cc (live_unique actives p q a b live old e, same, unnamed, found)), found);
  keeps = λ id q other found. found;
}

pub published-IsWithout :
    (by_session by_id : Map ℕ) (actives : List ActiveRun) (p : ℕ) (a : ActiveRun)
    → Agrees by_session by_id actives
    → IsLive actives p a
    → lookup by_id a.row ≡ some p
    → IsWithout by_id p (erase by_id a.row)
published-IsWithout by_session by_id actives p a agrees live own = record {
  less = λ id q found. elim (text-cases a.row id) [
    | inl same ↦ absurd (cc (found, lookup-erase_self by_id a.row, same))
    | inr ne ↦
        let before = sym (lookup-erase_ne by_id a.row id ne) ∙ found in
        let (b, (old, same)) = agrees.named id q before in
        ((λ e. ne (cc (live_unique actives p q a b live old e, same))), before)
  ];
  keeps =
      λ id q other found. lookup-erase_ne by_id a.row id (λ e. other (cc (own, found, e))) ∙ found;
}

-- A run that is published gets a new id.
pub published-Agrees :
    (by_session by_id : Map ℕ) (actives : List ActiveRun) (p : ℕ) (a a' : ActiveRun)
    → Agrees by_session by_id actives
    → IsLive actives p a
    → a'.session_id ≡ a.session_id
    → a'.done ≡ false
    → lookup by_id a.row ≡ none
    → lookup by_id a'.row ≡ none
    → Agrees by_session (assign by_id a'.row p) (set actives p a')
published-Agrees by_session by_id actives p a a' agrees live same_s on unnamed fresh = record {
  claimed = λ q b h. elim (IsLive-set actives p q a a' b live h) [
    | inl (same, eq) ↦ cc (agrees.claimed p a live, same, eq, same_s)
    | inr (other, old) ↦ agrees.claimed q b old
  ];
  held = λ s q found.
      let (b, (old, same)) = agrees.held s q found in
      elim (==-cases q p) [
        | inl e ↦ (a', (moved q e, cc (live_unique actives p q a b live old e, same, same_s)))
        | inr other ↦ (b, (set_other-IsLive actives p q a' b old other, same))
      ];
  named = λ id q found. elim (text-cases a'.row id) [
    | inl same ↦ (a', (moved q (cc (found, lookup-assign_self by_id a'.row p, same)), same))
    | inr ne ↦
        let before = sym (lookup-assign_ne by_id a'.row id p ne) ∙ found in
        let (b, (old, same)) = agrees.named id q before in
        let other : q ≢ p =
          λ e. cc (live_unique actives p q a b live old e, same, unnamed, before) in
        (b, (set_other-IsLive actives p q a' b old other, same))
  ];
  numbered = λ q b h. elim (IsLive-set actives p q a a' b live h) [
    | inl (same, eq) ↦ inr (cc (lookup-assign_self by_id a'.row p, same, eq))
    | inr (other, old) ↦ elim (agrees.numbered q b old) [
      | inl building ↦ inl building
      | inr found ↦ inr (lookup-assign_ne by_id a'.row b.row p (λ e. cc (fresh, found, e)) ∙ found)
    ]
  ];
}
  where
    moved : (q : ℕ) → q ≡ p → IsLive (set actives p a') q a'
    moved q e = record {
      here =
          ap (get_elem? (set actives p a')) e
          ∙ get_elem?-set_self actives p a' (get_elem?-bound actives p live.here);
      goes_on = on;
    }
