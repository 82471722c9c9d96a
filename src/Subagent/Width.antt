-- ===== src/Subagent/Width.antt =====
-- internal/subagent: how many children of a session there are at a time.
use eika.Common.{
  suc, ◌≤◌, ◌≡◌, ◌⊎◌, refl, sym, ap, ◌∙◌, Bool, true, false, String, str_eq, str_eq_iff, [], ◌∷◌,
  some, arith, if◌then◌else◌, Map, lookup, erase, assign,
}
use eika.Subagent.{Child, live_children, stop_where, stopping}

pub live_children-erase :
    (children : Map Child) (id p : String)
    → live_children (erase children id) p ≤ live_children children p
unfolding live_children
live_children-erase [] id p = omega arith
live_children-erase ((k, c) ∷ children) id p = ground (arith, live_children-erase children id p)

live_children-erase_found :
    (children : Map Child) (id p : String) (c : Child)
    → lookup children id ≡ some c
    → c.parent_session_id ≡ p
    → suc (live_children (erase children id) p) ≤ live_children children p
unfolding live_children
live_children-erase_found [] id p c found same = cc found
live_children-erase_found ((k, b) ∷ children) id p c found same =
    at (str_eq k id) (live_children-erase children id p)
      (λ later. live_children-erase_found children id p c later same) found
  where
    at :
        (here : Bool)
        → live_children (erase children id) p ≤ live_children children p
        → (lookup children id ≡ some c
            → suc (live_children (erase children id) p) ≤ live_children children p)
        → (if here then some b else lookup children id) ≡ some c
        → suc (live_children (if here then erase children id else (k, b) ∷ erase children id) p)
          ≤ live_children ((k, b) ∷ children) p
    at true le later eq =
        let e : b ≡ c = cc eq in
        ground (arith, le, str_eq_iff b.parent_session_id p, ap (λ x. x.parent_session_id) e, same)
    at false le later eq = ground (arith, later eq)

-- A child that stays one of its parent.
pub live_children-assign :
    (children : Map Child) (id p : String) (c c' : Child)
    → lookup children id ≡ some c
    → c'.parent_session_id ≡ c.parent_session_id
    → live_children (assign children id c') p ≤ live_children children p
unfolding live_children
live_children-assign children id p c c' found same = ground (
  arith,
  live_children-erase children id p,
  live_children-erase_found children id p c found,
  str_eq_iff c'.parent_session_id p,
)

-- A new child counts for its parent alone.
pub live_children-new :
    (children : Map Child) (id p : String) (c : Child)
    → (live_children (assign children id c) p ≤ live_children children p)
      ⊎ ((c.parent_session_id ≡ p)
          × (live_children (assign children id c) p ≤ suc (live_children children p)))
unfolding live_children
live_children-new children id p c =
    ground (arith, live_children-erase children id p, str_eq_iff c.parent_session_id p)

stopped_parent :
    (test : Bool) (c : Child)
    → (if test then stopping c else c).parent_session_id ≡ c.parent_session_id
stopped_parent true c = refl
stopped_parent false c = refl

pub live_children-stop_where :
    (children : Map Child) (test : Child → Bool) (p : String)
    → live_children (stop_where children test) p ≡ live_children children p
unfolding live_children stop_where
live_children-stop_where [] test p = refl
live_children-stop_where ((k, c) ∷ children) test p =
    ground (arith, live_children-stop_where children test p, stopped_parent (test c) c)

pub lookup-stop_where :
    (children : Map Child) (test : Child → Bool) (id : String) (c' : Child)
    → lookup (stop_where children test) id ≡ some c'
    → (c : Child) × ((lookup children id ≡ some c) × (c'.parent_session_id ≡ c.parent_session_id))
unfolding stop_where
lookup-stop_where [] test id c' found = cc found
lookup-stop_where ((k, c) ∷ children) test id c' found =
    at (str_eq k id) (lookup-stop_where children test id c') found
  where
    at :
        (here : Bool)
        → (lookup (stop_where children test) id ≡ some c'
            → (b : Child) × ((lookup children id ≡ some b)
                × (c'.parent_session_id ≡ b.parent_session_id)))
        → (if here
            then some (if test c then stopping c else c)
            else lookup (stop_where children test) id)
          ≡ some c'
        → (b : Child) × (((if here then some c else lookup children id) ≡ some b)
            × (c'.parent_session_id ≡ b.parent_session_id))
    at true later eq =
        let e : (if test c then stopping c else c) ≡ c' = cc eq in
        (c, (refl, sym (ap (λ x. x.parent_session_id) e) ∙ stopped_parent (test c) c))
    at false later eq = later eq
