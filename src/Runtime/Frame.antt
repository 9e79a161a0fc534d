-- ===== src/Runtime/Frame.antt =====
-- What a handler leaves alone: the progress of every node, the loop counters, and the branches
-- that other nodes have selected. One rule for each way to build a handler.
pub mod Rules
pub mod Handlers
pub mod Loop
use workcore.Prelude.{ℕ, String, ◌≡◌, ◌≢◌, refl, ◌∙◌, Option, none, some}
use workcore.Dict.{get}
use workcore.Runtime.Models.{NodeRun, NodeStatus, Run}

-- The status and the attempt of a node run.
abbrev pub progress : Option NodeRun → Option (NodeStatus × ℕ)
progress none = none
progress (some nr) = some (nr.status, nr.attempt)

abbrev pub progress_at : String → Run → Option (NodeStatus × ℕ)
progress_at k r = progress (get k r.node_runs)

-- The run `q` differs from `r` in no way that the scheduler sees, but for the branch selected at
-- the node `id`, the nodes that are skipped and the run's own status.
pub record Same (id : String) (r q : Run) : Type 0 where
  pub progressed : (k : String) → progress_at k q ≡ progress_at k r
  pub loops : q.loop_state ≡ r.loop_state
  pub branches : (k : String) → id ≢ k → get k q.branch_selection ≡ get k r.branch_selection

pub Same-refl : (id : String) (r : Run) → Same id r r
Same-refl id r = record { progressed = λ k. refl; loops = refl; branches = λ k ne. refl }

pub Same-trans : {id : String} {r q p : Run} → Same id r q → Same id q p → Same id r p
Same-trans a b = record {
  progressed = λ k. b.progressed k ∙ a.progressed k;
  loops = b.loops ∙ a.loops;
  branches = λ k ne. b.branches k ne ∙ a.branches k ne;
}
