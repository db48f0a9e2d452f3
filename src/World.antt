-- ===== src/World.antt =====
-- The world of a worker and its orchestrator: the store and the leases, which they share with the rest
-- of the program, and all that is outside, such as files, sandboxes and models.
use cloud_agent_platform_dem.Prelude.Exec.{Exec}
use cloud_agent_platform_dem.TaskStore.{TaskStore}
use cloud_agent_platform_dem.Lease.{System, with_store}

pub record World (E : Type 0) : Type 0 where
  pub system : System
  pub outside : E

abbrev pub with_system : {E A : Type 0} → Exec System A → Exec (World E) A
with_system m w = let (r, system) = m w.system in (r, record w { system = system })

abbrev pub on_store : {E A : Type 0} → Exec TaskStore A → Exec (World E) A
on_store m = with_system (with_store m)
