-- ===== src/Runtime/Work.antt =====
-- How much an engine can still do to a run: the attempts that are left at each node, and the
-- iterations that are left in each loop.
pub mod Sum
pub mod Attempt
pub mod Step
pub mod Execute
use workcore.Prelude.{
  ℕ, suc, ◌+◌, ◌-◌, ◌*◌, String, ◌≡◌, Bool, true, false, not, ◌&&◌, Option, none, some, List, [],
  ◌∷◌, ◌==◌,
}
use workcore.Prelude.Int.{ℤ, pos, pos_part}
use workcore.Dict.{Dict, get, get_or}
use workcore.Value.{Value, int, boolean, float}
use workcore.Runtime.Models.{Node, NodeStatus, Workflow, Run, is_settled}
use workcore.Runtime.Config.{config, text, present, same_text, max_retries}
use workcore.Runtime.Env.{Env}
use workcore.Runtime.Schedule.{is_while}
use workcore.Runtime.Frame.{progress_at}
use workcore.Runtime.Work.Sum.{sum_at}

-- The iterations that a value of `max_iterations` allows.
abbrev pub limit_of : Value → ℕ
limit_of (int m) = pos_part m
limit_of (boolean true) = 1
limit_of (float x) = pos_part x.num
limit_of _ = 0

abbrev pub limit_or : Option Value → ℕ
limit_or none = 0
limit_or (some v) = limit_of v

-- Each node is entered under its own id, and once.
abbrev pub Keyed : Dict Node → Dict Node → Type 0
Keyed nodes [] = Unit
Keyed nodes ((k, n) ∷ d) = (k ≡ n.id) × (get n.id nodes ≡ some n) × Keyed nodes d

abbrev pub IsKeyed : Workflow → Type 0
IsKeyed w = Keyed w.nodes w.nodes

module _ (env : Env) where
  abbrev pub retries : Node → ℕ
  retries n = pos_part (max_retries env n)

  -- The attempts left to a node that is at its attempt `a`.
  abbrev pub remaining : Node → ℕ → ℕ
  remaining n a = suc (retries n + 1 - a)

  -- A node that is settled, and is no loop to be reentered.
  abbrev pub is_over : Node → Option String → NodeStatus → Bool
  is_over n branch status =
      is_settled status && not (is_while n && not (same_text branch (text n "exit_target")))

  abbrev pub pending_in : Node → ℕ → Bool → ℕ
  pending_in n a true = 0
  pending_in n a false = remaining n a

  abbrev pub pending : Node → Option String → Option (NodeStatus × ℕ) → ℕ
  pending n branch none = remaining n 1
  pending n branch (some (status, a)) = pending_in n a (is_over n branch status)

  module _ (w : Workflow) where
    abbrev pub pending_of : Option Node → Option String → Option (NodeStatus × ℕ) → ℕ
    pending_of none branch p = 0
    pending_of (some n) branch p = pending n branch p

    unfoldable pub pending_at : Run → String → ℕ
    pending_at r k = pending_of (get k w.nodes) (get k r.branch_selection) (progress_at k r)

    unfoldable pub cap_at : String → ℕ
    cap_at k = elim (get k w.nodes) [ none ↦ 0 | some n ↦ suc (retries n + 1) ]

    abbrev pub loop_left : Bool → ℕ → ℕ → ℕ
    loop_left true limit done = limit - done
    loop_left false limit done = 0

    unfoldable pub loop_left_at : Dict ℕ → String → ℕ
    loop_left_at loops k = elim (get k w.nodes) [
      | none ↦ 0
      | some n ↦
          loop_left (is_while n) (limit_or (present (config n "max_iterations"))) (get_or k 0 loops)
    ]

    unfoldable pub caps : ℕ
    caps = sum_at cap_at w.nodes

    -- More than the rounds that the loop of `execute_until_blocked` can still make.
    unfoldable pub work : Run → ℕ
    work r = sum_at (loop_left_at r.loop_state) w.nodes * suc caps + sum_at (pending_at r) w.nodes
