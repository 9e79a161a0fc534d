-- ===== src/Runtime/Engine/Rerun.antt =====
-- What `rerun_node` of runtime/engine.py forgets.
use workcore.Prelude.{String, ◌≡◌, ◌≢◌, ◌↔◌, Bool, ◌⊎◌, true, false, none, if◌then◌else◌}
use workcore.Dict.{get, has}
use workcore.Runtime.Models.{Run, Workflow}
use workcore.Runtime.Env.{Env, Result, ok, raise}
use workcore.Runtime.Graph.{targets}
use workcore.Runtime.Graph.Downstream.{Follows}

-- The nodes that a rerun resets: the node and, downstream, those that a path of one edge or more
-- reaches from it.
abbrev pub IsReset : Workflow → String → String → String → Type 0
IsReset w node_id scope k =
    ∥ (node_id ≡ k) ⊎ ((scope ≡ "downstream") × Follows (targets w) node_id k) ∥₁

-- What a rerun returns: an exception for a node that the workflow lacks or another scope, or a run.
abbrev pub Forgets : Workflow → String → String → Run → Result Run → Type 0
Forgets w node_id scope r (raise e) =
    (has node_id w.nodes ≡ false) ⊎ ((scope ≢ "downstream") × (scope ≢ "node_only"))
Forgets w node_id scope r (ok q) =
    (has node_id w.nodes ≡ true)
    × ((k : String)
        → (reset : Bool) × ((reset ≡ true) ↔ IsReset w node_id scope k)
          × (get k q.node_runs ≡ (if reset then none else get k r.node_runs))
          × (get k q.node_outputs ≡ (if reset then none else get k r.node_outputs)))
    × (q.status ≡ r.status)
