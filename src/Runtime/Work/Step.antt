-- ===== src/Runtime/Work/Step.antt =====
-- One call of `_execute_node` uses up some of the work, or stops the run.
use workcore.Prelude.{
  ℕ, suc, ◌+◌, ◌*◌, ◌^◌, ◌≤◌, ◌<◌, String, ◌≡◌, ◌≢◌, ap, ap₂, subst, inl, inr, true, false, some,
  arith, eq_iff, ◌==◌, Bool-cases,
}
use native.Mathlib.Nat.{one-le-pow}
use workcore.Prelude.Int.{pos}
use workcore.Dict.{get, get_or}
use workcore.Dict.Laws.{get-put, get-put_self}
use workcore.Value.{Value, int, boolean, float}
use workcore.Runtime.Models.{Node, Run, Workflow}
use workcore.Runtime.Config.{reaches}
use workcore.Runtime.Env.{ok, Env}
use workcore.Runtime.Frame.{progress_at}
use workcore.Runtime.Frame.Loop.{Entered}
use workcore.Runtime.Work.{
  pending, pending_of, pending_at, cap_at, caps, loop_left_at, work, limit_of,
}
use workcore.Runtime.Schedule.{is_while}
use workcore.Runtime.Work.Sum.{sum_at, sum_at_mono, sum_at-lt}

module _ (env : Env) (w : Workflow) where
  pending-le-cap : (r : Run) (k : String) → pending_at env w r k ≤ cap_at env w k
  unfolding pending_at cap_at
  pending-le-cap r k = ground arith

  -- The run `q` is `r` seen by the scheduler but for one node, whose attempts have become fewer.
  pub record Spent (n : Node) (r q : Run) : Type 0 where
    pub others :
        (k : String)
        → n.id ≢ k
        → (progress_at k q ≡ progress_at k r)
          × (get k q.branch_selection ≡ get k r.branch_selection)
    pub loops : q.loop_state ≡ r.loop_state
    pub fewer :
        pending env n (get n.id q.branch_selection) (progress_at n.id q)
        < pending env n (get n.id r.branch_selection) (progress_at n.id r)

  pending_at_known :
      (n : Node) (r : Run) (k : String)
      → get k w.nodes ≡ some n
      → pending_at env w r k ≡ pending env n (get k r.branch_selection) (progress_at k r)
  unfolding pending_at
  pending_at_known n r k known =
      ap (λ o. pending_of env w o (get k r.branch_selection) (progress_at k r)) known

  pending_at_same :
      (r q : Run) (k : String)
      → (progress_at k q ≡ progress_at k r) × (get k q.branch_selection ≡ get k r.branch_selection)
      → pending_at env w q k ≤ pending_at env w r k
  unfolding pending_at
  pending_at_same r q k (p, b) = omega (arith, ap₂ (pending_of env w (get k w.nodes)) b p)

  fall : (a a' b b' c : ℕ) → a ≡ a' → b < b' → a * c + b < a' * c + b'
  fall a a' b b' c e h = rw e (omega arith)

  Spent-pending :
      (n : Node) (r q : Run)
      → get n.id w.nodes ≡ some n
      → Spent n r q
      → pending_at env w q n.id < pending_at env w r n.id
  Spent-pending n r q known h =
      rw (pending_at_known n q n.id known, pending_at_known n r n.id known) h.fewer

  Spent-others :
      (n : Node) (r q : Run) (k : String)
      → get n.id w.nodes ≡ some n
      → Spent n r q
      → pending_at env w q k ≤ pending_at env w r k
  Spent-others n r q k known h = elim (Bool-cases (n.id == k)) [
    | inl same ↦
        subst (λ j. pending_at env w q j ≤ pending_at env w r j) ((eq_iff n.id k).0 same)
          (omega (arith, Spent-pending n r q known h))
    | inr other ↦ pending_at_same r q k (h.others k (λ e. cc ((eq_iff n.id k).1 e)))
  ]

  pub Spent-work :
      (n : Node) (r q : Run) → get n.id w.nodes ≡ some n → Spent n r q → work env w q < work env w r
  unfolding work
  Spent-work n r q known h =
      fall _ _ _ _ (suc (caps env w)) (ap (λ l. sum_at (loop_left_at env w l) w.nodes) h.loops) (
        sum_at-lt (pending_at env w q) (pending_at env w r) w.nodes n.id
          (λ k. Spent-others n r q k known h) (Spent-pending n r q known h) (ground arith))

  le_times : (i p : ℕ) → 1 ≤ p → i ≤ i * p
  le_times i p h = grind arith

  -- A limit on the iterations that is not yet reached is above them.
  limit_left : (i : ℕ) (v : Value) → reaches i v ≡ ok false → i < limit_of v
  unfolding reaches
  limit_left i (int (pos m)) h = ground arith
  limit_left i (boolean true) h = ground arith
  limit_left i (float x) h =
      ground (arith, le_times i (2 ^ x.scale) (one-le-pow x.scale 2 (omega arith)))
  limit_left i v h = ground arith

  loop_left_fewer :
      (n : Node) (r q : Run)
      → get n.id w.nodes ≡ some n
      → is_while n ≡ true
      → Entered n r q
      → loop_left_at env w q.loop_state n.id < loop_left_at env w r.loop_state n.id
  unfolding loop_left_at
  loop_left_fewer n r q known loop h = ground (
    arith,
    limit_left (get_or n.id 0 r.loop_state) h.cap h.left,
    get-put_self n.id (get_or n.id 0 r.loop_state + 1) r.loop_state,
  )

  loop_left_others :
      (n : Node) (r q : Run) (k : String)
      → get n.id w.nodes ≡ some n
      → is_while n ≡ true
      → Entered n r q
      → loop_left_at env w q.loop_state k ≤ loop_left_at env w r.loop_state k
  unfolding loop_left_at
  loop_left_others n r q k known loop h =
      ground (arith, get-put k n.id (get_or n.id 0 r.loop_state + 1) r.loop_state, eq_iff n.id k)

  drop : (a a' b b' c : ℕ) → a < a' → b ≤ c → a * suc c + b < a' * suc c + b'
  drop a a' b b' c h k = grind arith

  -- A loop that enters its body has one iteration less, which outweighs all that it resets.
  pub Entered-work :
      (n : Node) (r₀ r q p : Run)
      → get n.id w.nodes ≡ some n
      → is_while n ≡ true
      → Entered n r q
      → r.loop_state ≡ r₀.loop_state
      → p.loop_state ≡ q.loop_state
      → work env w p < work env w r₀
  unfolding work caps
  Entered-work n r₀ r q p known loop h e₀ e =
      simp (e, ← e₀)
        (drop _ _ _ _ _
          (sum_at-lt (loop_left_at env w q.loop_state) (loop_left_at env w r.loop_state) w.nodes
            n.id (λ k. loop_left_others n r q k known loop h) (loop_left_fewer n r q known loop h)
            (ground arith))
          (sum_at_mono (pending_at env w p) (cap_at env w) w.nodes (pending-le-cap p)))
