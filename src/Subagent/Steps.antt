-- ===== src/Subagent/Steps.antt =====
-- internal/subagent: what happens to the children, one step at a time.
use eika.Common.{◌≡◌, ◌≢◌, Bool, String, none, some, ok, lookup}
use eika.Server.Runs.{RunState}
use eika.Subagent.{
  Limits, Child, Spawner, parent_of, reserve_child, start_row, forget_child, end_child, abort_child,
  abort_children, shutdown,
}
use eika.Subagent.Depth.{IsChildless}

-- A session that was just created: nothing refers to it.
pub record IsFresh (sp : Spawner) (session : String) : Type 0 where
  pub no_row : parent_of sp.rows session ≡ none
  pub childless : IsChildless sp.rows session
  pub unclaimed :
      (id : String) (c : Child) → lookup sp.children id ≡ some c → c.parent_session_id ≢ session

-- What spawns, children, aborts and a shutdown do, one step at a time.
module _ (l : Limits) where
  pub data Step : Spawner → Spawner → Type 0 where
    reserving :
        {sp sp' : Spawner} (parent id : String)
        → reserve_child sp l parent id ≡ ok sp'
        → Step sp sp'
    starting :
        {sp : Spawner} (id session : String) (c : Child)
        → lookup sp.children id ≡ some c
        → IsFresh sp session
        → Step sp (start_row sp id c session)
    releasing : {sp : Spawner} (id : String) → Step sp (forget_child sp id)
    ending :
        {sp : Spawner} (id : String) (state : RunState) (recorded : Bool)
        → Step sp (end_child sp id state recorded)
    aborting : {sp sp' : Spawner} (id : String) → abort_child sp id ≡ ok sp' → Step sp sp'
    aborting_children : {sp : Spawner} (parent : String) → Step sp (abort_children sp parent)
    stopping_all : {sp : Spawner} → Step sp (shutdown sp)

  pub data Steps : Spawner → Spawner → Type 0 where
    start : {sp : Spawner} → Steps sp sp
    followed : {a b c : Spawner} → Steps a b → Step b c → Steps a c
