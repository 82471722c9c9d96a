-- ===== src/Subagent/Kept.antt =====
-- internal/subagent: each operation keeps the bounds on the tree of children.
use eika.Common.{
  ℕ, suc, ◌≤◌, ◌<◌, ◌≡◌, inl, inr, refl, sym, ap, ◌∙◌, subst, Bool, true, false, String, [], ◌∷◌,
  ◌++◌, Option, none, some, arith, if◌then◌else◌, Result, err, ok, lookup, assign,
  lookup-assign_self, lookup-assign_ne, lookup-erase_self, lookup-erase_ne, text-cases,
}
use eika.Server.Runs.{RunState, run_running, run_aborted}
use eika.Subagent.{
  Limits, Row, Child, Spawner, Failure, not_found, already_over, parent_of, depth_of, live_children,
  reserve_child, start_row, finish_subagent, forget_child, end_child, stopping, row_of, is_running,
  abort_child, stop_where,
}
use eika.Subagent.Depth.{
  HasDepth, below, depth_of-HasDepth, parent_of-append_new, parent_of-append_other, append-HasDepth,
  parent_of-finish, finish-HasDepth,
}
use eika.Subagent.Width.{
  live_children-erase, live_children-assign, live_children-new, live_children-stop_where,
  lookup-stop_where,
}
use eika.Subagent.Steps.{IsFresh}

-- The children of each session are no more than allowed, and no session stands deeper than allowed.
pub record IsBounded (l : Limits) (sp : Spawner) : Type 0 where
  pub narrow : (p : String) → live_children sp.children p ≤ l.max_children
  pub room :
      (id : String) (c : Child)
      → lookup sp.children id ≡ some c
      → (d : ℕ) × (HasDepth sp.rows c.parent_session_id d × (d < l.max_depth))
  pub shallow :
      (s p : String)
      → parent_of sp.rows s ≡ some p
      → (d : ℕ) × (HasDepth sp.rows s d × (d ≤ l.max_depth))

reserve_child-ok :
    (sp : Spawner) (l : Limits) (parent id : String) {sp' : Spawner}
    → reserve_child sp l parent id ≡ ok sp'
    → (suc (depth_of sp.rows parent l.max_depth) ≤ l.max_depth)
      × ((live_children sp.children parent < l.max_children)
          × (record sp {
            children =
                assign sp.children id
                  (record { parent_session_id = parent; cancelled = false; aborted = false });
          }
              ≡ sp'))
unfolding reserve_child
reserve_child-ok sp l parent id done = ground arith

pub reserve-IsBounded :
    (sp : Spawner) (l : Limits) (parent id : String) {sp' : Spawner}
    → IsBounded l sp
    → reserve_child sp l parent id ≡ ok sp'
    → IsBounded l sp'
reserve-IsBounded sp l parent id {sp' = sp'} good done =
    let (above, (few, same)) = reserve_child-ok sp l parent id done in
    subst (IsBounded l) same (record {
      narrow = λ p. elim (live_children-new sp.children id p c) [
        | inl less ↦ omega (arith, less, good.narrow p)
        | inr (own, more) ↦
            let e : live_children sp.children parent ≡ live_children sp.children p =
              ap (live_children sp.children) own in
            omega (arith, more)
      ];
      room = λ k b found. elim (text-cases id k) [
        | inl mine ↦
            let e : c ≡ b = cc (found, lookup-assign_self sp.children id c, mine) in
            subst (λ x. (d : ℕ) × (HasDepth sp.rows x.parent_session_id d × (d < l.max_depth))) e
              (depth_of-HasDepth sp.rows parent l.max_depth above)
        | inr ne ↦ good.room k b (sym (lookup-assign_ne sp.children id k c ne) ∙ found)
      ];
      shallow = good.shallow;
    })
  where
    c : Child
    c = record { parent_session_id = parent; cancelled = false; aborted = false }

pub start-IsBounded :
    (sp : Spawner) (l : Limits) (id session : String) (c : Child)
    → IsBounded l sp
    → lookup sp.children id ≡ some c
    → IsFresh sp session
    → IsBounded l (start_row sp id c session)
unfolding start_row
start-IsBounded sp l id session c good own fresh = record {
  narrow = good.narrow;
  room = λ k b found.
      let (d, (has, less)) = good.room k b found in
      (
        d,
        (
          append-HasDepth sp.rows row b.parent_session_id d fresh.childless
              (λ e. fresh.unclaimed k b found (sym e)) has,
          less,
        ),
      );
  shallow = λ s p up. elim (text-cases session s) [
    | inl mine ↦
        let (d, (has, less)) = good.room id c own in
        let higher =
          append-HasDepth sp.rows row c.parent_session_id d fresh.childless
            (λ e. fresh.unclaimed id c own (sym e)) has in
        let lower =
          below session c.parent_session_id d (parent_of-append_new sp.rows row fresh.no_row)
            higher in
        (
          suc d,
          (subst (λ x. HasDepth (sp.rows ++ row ∷ []) x (suc d)) mine lower, omega (arith, less)),
        )
    | inr ne ↦
        let (d, (has, less)) =
          good.shallow s p (sym (parent_of-append_other sp.rows row s ne) ∙ up) in
        (d, (append-HasDepth sp.rows row s d fresh.childless ne has, less))
  ];
}
  where
    row : Row
    row = record {
      id = id;
      parent_session_id = c.parent_session_id;
      child_session_id = session;
      state = run_running;
    }

pub forget-IsBounded :
    (sp : Spawner) (l : Limits) (id : String) → IsBounded l sp → IsBounded l (forget_child sp id)
unfolding forget_child
forget-IsBounded sp l id good = record {
  narrow = λ p. omega (arith, live_children-erase sp.children id p, good.narrow p);
  room = λ k c found. elim (text-cases id k) [
    | inl same ↦ absurd (cc (found, lookup-erase_self sp.children id, same))
    | inr ne ↦ good.room k c (sym (lookup-erase_ne sp.children id k ne) ∙ found)
  ];
  shallow = good.shallow;
}

finished-IsBounded :
    (sp : Spawner) (l : Limits) (id : String) (state : RunState)
    → IsBounded l sp
    → IsBounded l (record sp { rows = finish_subagent sp.rows id state })
finished-IsBounded sp l id state good = record {
  narrow = good.narrow;
  room = λ k c found.
      let (d, (has, less)) = good.room k c found in
      (d, (finish-HasDepth sp.rows id state c.parent_session_id d has, less));
  shallow = λ s p up.
      let (d, (has, less)) = good.shallow s p (sym (parent_of-finish sp.rows id state s) ∙ up) in
      (d, (finish-HasDepth sp.rows id state s d has, less));
}

pub stop_where-IsBounded :
    (sp : Spawner) (l : Limits) (test : Child → Bool) (off : Bool)
    → IsBounded l sp
    → IsBounded l (record sp { stopped = off; children = stop_where sp.children test })
stop_where-IsBounded sp l test off good = record {
  narrow = λ p. omega (arith, live_children-stop_where sp.children test p, good.narrow p);
  room = λ k c' found.
      let (c, (before, same)) = lookup-stop_where sp.children test k c' found in
      subst (λ s. (d : ℕ) × (HasDepth sp.rows s d × (d < l.max_depth))) (sym same)
        (good.room k c before);
  shallow = good.shallow;
}

pub abort-IsBounded :
    (sp : Spawner) (l : Limits) (id : String) {sp' : Spawner}
    → IsBounded l sp
    → abort_child sp id ≡ ok sp'
    → IsBounded l sp'
unfolding abort_child
abort-IsBounded sp l id {sp' = sp'} good done = at (lookup sp.children id) refl done
  where
    of_row : Option Row → Result Failure Spawner
    of_row o = elim o [
      | none ↦ err not_found
      | some row ↦
          if is_running row.state
          then ok (record sp { rows = finish_subagent sp.rows id run_aborted })
          else err already_over
    ]

    closed_row : (o : Option Row) → of_row o ≡ ok sp' → IsBounded l sp'
    closed_row none same = cc same
    closed_row (some row) same = closed_if (is_running row.state) same
      where
        closed_if :
            (on : Bool)
            → ◌≡◌ {A = Result Failure Spawner}
                (if on
                  then ok (record sp { rows = finish_subagent sp.rows id run_aborted })
                  else err already_over)
                (ok sp')
            → IsBounded l sp'
        closed_if true same =
            subst (IsBounded l) {x = record sp { rows = finish_subagent sp.rows id run_aborted }}
              (cc same) (finished-IsBounded sp l id run_aborted good)
        closed_if false same = cc same

    at :
        (o : Option Child)
        → lookup sp.children id ≡ o
        → ◌≡◌ {A = Result Failure Spawner}
            (elim o as (λ _. Result Failure Spawner) [
              | some c ↦ ok (record sp { children = assign sp.children id (stopping c) })
              | none ↦ of_row (row_of sp.rows id)
            ])
            (ok sp')
        → IsBounded l sp'
    at none eq same = closed_row (row_of sp.rows id) same
    at (some c) eq same =
        subst (IsBounded l) {x = record sp { children = assign sp.children id (stopping c) }}
          (cc same)
          (record {
            narrow = λ p. omega (
              arith,
              live_children-assign sp.children id p c (stopping c) eq refl,
              good.narrow p,
            );
            room = λ k b found. elim (text-cases id k) [
              | inl mine ↦
                  let e : stopping c ≡ b =
                    cc (found, lookup-assign_self sp.children id (stopping c), mine) in
                  subst
                    (λ x. (d : ℕ) × (HasDepth sp.rows x.parent_session_id d × (d < l.max_depth))) e
                    (good.room id c eq)
              | inr ne ↦
                  good.room k b (sym (lookup-assign_ne sp.children id k (stopping c) ne) ∙ found)
            ];
            shallow = good.shallow;
          })

pub end-IsBounded :
    (sp : Spawner) (l : Limits) (id : String) (state : RunState) (recorded : Bool)
    → IsBounded l sp
    → IsBounded l (end_child sp id state recorded)
unfolding end_child
end-IsBounded sp l id state true good =
    forget-IsBounded (record sp { rows = finish_subagent sp.rows id state }) l id
      (finished-IsBounded sp l id state good)
end-IsBounded sp l id state false good = forget-IsBounded sp l id good
