-- ===== src/Runtime/Branching/Skips.antt =====
-- The nodes that an if_else node skips, and those that a while node runs again.
use mathlib.Core.List.{append_assoc, append-nil}
use workcore.Prelude.{
  ℕ, ◌+◌, String, ◌≡◌, refl, sym, ap, subst, ◌∙◌, ◌⊎◌, inl, inr, Bool, false, not, ◌&&◌, ◌||◌,
  Option, none, some, List, [], ◌∷◌, ◌++◌, arith, eq_iff, ◌==◌, if◌then◌else◌, contains, any,
  select, Bool-cases, contains-select,
}
use workcore.Dict.{Dict, get, pop}
use workcore.Dict.Laws.{get-pop, get-put_self}
use workcore.Value.{Items, nil, cons, Fields, obj, as_text}
use workcore.Value.Object
use workcore.Runtime.Models.{Node, Workflow, Run}
use workcore.Runtime.Env.{Result, ok, raise, Context, Env, State, ◌>>=◌, lift, modify}
use workcore.Runtime.Config.{config, text, present, iterate}
use workcore.Runtime.Graph.{reachable_from, reverse_reachable_from}
use workcore.Runtime.Writes.{pop_all, add, context}
use workcore.Runtime.Branching.{
  Choice, seen_target, test_branch, scan_branch, scan_branches, or_text, others, chosen,
  handle_if_else, skip_each, skip_targets, select_branch, loop_body, reset_loop_body, enter_body,
}

contains-skip_each :
    (v : String) (kept found skipped : List String)
    → contains v (skip_each kept found skipped)
      ≡ (contains v skipped || (contains v found && not (contains v kept)))
contains-skip_each v kept [] skipped = ground arith
contains-skip_each v kept (n ∷ found) skipped = ground (
  arith,
  contains-skip_each v kept found (if contains n kept then skipped else add n skipped),
  eq_iff n v,
)

contains-skip_targets :
    (w : Workflow) (v : String) (kept ts skipped : List String)
    → contains v (skip_targets w kept ts skipped) ≡ (
        contains v skipped
        || (any (λ t. contains v (reachable_from w t)) ts && not (contains v kept)))
contains-skip_targets w v kept [] skipped = ground arith
contains-skip_targets w v kept (t ∷ ts) skipped = ground (
  arith,
  contains-skip_targets w v kept ts (skip_each kept (reachable_from w t) skipped),
  contains-skip_each v kept (reachable_from w t) skipped,
)

any-append : (p : String → Bool) (xs ys : List String) → any p (xs ++ ys) ≡ (any p xs || any p ys)
any-append p [] ys = refl
any-append p (x ∷ xs) ys = ground (arith, any-append p xs ys)

any-select_other :
    (p : String → Bool) (selected : String) (ts : List String)
    → any p (select (λ t. not (t == selected)) ts) ≡ any (λ t. not (t == selected) && p t) ts
any-select_other p selected [] = refl
any-select_other p selected (t ∷ ts) = ground (arith, any-select_other p selected ts)

-- The targets that a node names: those of its branches, in their order, and that of its else branch,
-- each where it is there and not empty.
abbrev pub named : Option String → List String
named none = []
named (some t) = if t == "" then [] else t ∷ []

abbrev pub branch_targets : Items → List String
branch_targets nil = []
branch_targets (cons (obj b) rest) = named (as_text (Object.get "target" b)) ++ branch_targets rest
branch_targets (cons _ rest) = branch_targets rest

any-others :
    (p : String → Bool) (selected : String) (ts : List String) (else_target : Option String)
    → any p (others selected ts else_target)
      ≡ any (λ t. not (t == selected) && p t) (ts ++ named else_target)
unfolding others
any-others p selected ts none = ground (
  arith,
  any-append p (select (λ t. not (t == selected)) ts) [],
  any-append (λ t. not (t == selected) && p t) ts [],
  any-select_other p selected ts,
)
any-others p selected ts (some e) = ground (
  arith,
  any-append p (select (λ t. not (t == selected)) ts)
      (if not (e == "") && not (e == selected) then e ∷ [] else []),
  any-append (λ t. not (t == selected) && p t) ts (if e == "" then [] else e ∷ []),
  any-select_other p selected ts,
)

seen_target-named : (o : Option String) (ts : List String) → seen_target o ts ≡ ts ++ named o
seen_target-named none ts = sym (append-nil ts)
seen_target-named (some t) ts = elim (Bool-cases (t == "")) [
  | inl e ↦ rw e (sym (append-nil ts))
  | inr ne ↦ rw ne refl
]

Result-split {ℓ} :
    {A : Type ℓ} (r : Result A) → ((e : String) × (r ≡ raise e)) ⊎ ((a : A) × (r ≡ ok a))
Result-split (raise e) = inl (e, refl)
Result-split (ok a) = inr (a, refl)

module _ (env : Env) (ctx : Context) where
  scan_branch-targets :
      (b : Fields) (c c' : Choice)
      → scan_branch env ctx b c ≡ ok c'
      → c'.targets ≡ c.targets ++ named (as_text (Object.get "target" b))
  unfolding scan_branch
  scan_branch-targets b c c' h =
      let tested =
        test_branch env ctx (present (Object.get "condition" b)) (as_text (Object.get "target" b))
          c.selected in
      elim (Result-split tested) [
        | inl (e, k) ↦ absurd (ground (arith, h, k))
        | inr (o, k) ↦
            ground (arith, h, k, seen_target-named (as_text (Object.get "target" b)) c.targets)
      ]

  scan_branches-targets :
      (items : Items) (c c' : Choice)
      → scan_branches env ctx items c ≡ ok c'
      → c'.targets ≡ c.targets ++ branch_targets items
  unfolding scan_branches
  scan_branches-targets nil c c' h = ground (arith, h, append-nil c.targets)
  scan_branches-targets (cons (obj b) rest) c c' h = elim (Result-split (scan_branch env ctx b c)) [
    | inl (e, k) ↦ absurd (ground (arith, h, k))
    | inr (d, k) ↦
        scan_branches-targets rest d c' (rw (k, scan_branches) at h)
        ∙ (ap (λ l. l ++ branch_targets rest) (scan_branch-targets b c d k)
            ∙ append_assoc c.targets (named (as_text (Object.get "target" b)))
                (branch_targets rest))
  ]
  scan_branches-targets (cons _ rest) c c' h = absurd (ground (arith, h))

module _ (env : Env) (w : Workflow) (n : Node) where
  -- The nodes that are skipped after a choice.
  abbrev pub Skips : List String → String → Run → Run → Type 0
  Skips targets selected r q =
      (v : String)
      → contains v q.skipped_nodes ≡ (
          contains v r.skipped_nodes
          || (any (λ t. not (t == selected) && contains v (reachable_from w t)) targets
              && not (contains v (reachable_from w selected))))

  select_branch-Skips :
      (selected : String) (ts : List String) (else_target : Option String) (r : Run)
      → Skips
          (ts ++ named else_target)
          selected
          r
          (select_branch w n.id selected (others selected ts else_target) r)
  unfolding select_branch
  select_branch-Skips selected ts else_target r v =
      contains-skip_targets w v (reachable_from w selected) (others selected ts else_target)
        r.skipped_nodes
      ∙ ap (λ b. contains v r.skipped_nodes || (b && not (contains v (reachable_from w selected))))
          (any-others (λ t. contains v (reachable_from w t)) selected ts else_target)

  get-select_branch :
      (selected : String) (ts : List String) (r : Run)
      → get n.id
          (select_branch w n.id selected
            (others selected ts (text n "else_target"))
            r).branch_selection
        ≡ some selected
  unfolding select_branch
  get-select_branch selected ts r = get-put_self n.id selected r.branch_selection

  -- What an if_else node comes to: nothing is written where it raises.
  abbrev pub Chose : Items → State → Result (Unit {0}) × State → Type 0
  Chose items s (raise e, t) = t ≡ s
  Chose items s (ok done, t) =
      (selected : String) × ((selected == "") ≡ false)
      × (get n.id t.run.branch_selection ≡ some selected)
      × Skips (branch_targets items ++ named (text n "else_target")) selected s.run t.run

  choose-Chose :
      (items : Items) (s : State) (ts : List String) (o : Option String)
      → ts ≡ branch_targets items
      → Chose items s (
          (lift (chosen o) >>= λ selected.
          modify (select_branch w n.id selected (others selected ts (text n "else_target"))))
            s)
  unfolding ◌>>=◌ chosen
  choose-Chose items s ts none e = refl
  choose-Chose items s ts (some x) e = elim (Bool-cases (x == "")) [
    | inl empty ↦ rw empty refl
    | inr given_one ↦ rw given_one (
      x,
      given_one,
      get-select_branch x ts s.run,
      subst
          (λ l.
            Skips (l ++ named (text n "else_target")) x s.run
              (select_branch w n.id x (others x ts (text n "else_target")) s.run))
          e (select_branch-Skips x ts (text n "else_target") s.run),
    )
  ]

  -- Where an if_else node does not raise, it selects a target that is not empty, and exactly these
  -- nodes are skipped: those that were, and those that the engine's walk reaches from another target
  -- of the node, of a branch or of its else branch, but not from the selected one. Where it raises,
  -- nothing is written.
  pub handle_if_else-skips :
      (items : Items) (s : State)
      → iterate (config n "branches") ≡ ok items
      → Chose items s (handle_if_else env w n s)
  unfolding handle_if_else ◌>>=◌
  handle_if_else-skips items s e =
      elim (Result-split
        (scan_branches env (context s.run) items (record { selected = none; targets = [] }))) [
          | inl (x, k) ↦ rw (e, k) refl
          | inr (c, k) ↦
              rw (e, k)
                (choose-Chose items s c.targets (or_text c.selected (text n "else_target"))
                  (scan_branches-targets env (context s.run) items _ c k))
        ]

pub get-pop_all {ℓ} :
    {V : Type ℓ} (k : String) (ks : List String) (d : Dict V)
    → get k (pop_all ks d) ≡ (if contains k ks then none else get k d)
get-pop_all k [] d = refl
get-pop_all k (j ∷ ks) d = ground (arith, get-pop_all k ks (pop j d), get-pop k j d, eq_iff j k)

-- A while node that goes into its body forgets the node runs and the outputs of exactly these
-- nodes: the ones the walk reaches from the body's target and from which the loop's last node is
-- reached, without the while node itself. It counts one more iteration and selects the body.
pub enter_body-resets :
    (env : Env) (w : Workflow) (n : Node) (iterations : ℕ) (body_target loop_back : String)
    (r : Run)
    → let q = enter_body env w n iterations body_target loop_back r in
      ((v : String)
        → let reset =
            contains v (reachable_from w body_target)
            && (contains v (reverse_reachable_from w loop_back) && not (v == n.id)) in
          (get v q.node_runs ≡ (if reset then none else get v r.node_runs))
          × (get v q.node_outputs ≡ (if reset then none else get v r.node_outputs)))
      × (get n.id q.loop_state ≡ some (iterations + 1))
      × (get n.id q.branch_selection ≡ some body_target)
unfolding enter_body reset_loop_body loop_body
enter_body-resets env w n iterations body_target loop_back r =
    let body = loop_body env w n body_target loop_back in
    let member = λ (v : String).
      contains-select (λ k. contains k (reverse_reachable_from w loop_back) && not (k == n.id)) v
        (reachable_from w body_target) in
    (
      λ v. (
        ground (arith, member v, get-pop_all v body r.node_runs),
        ground (arith, member v, get-pop_all v body r.node_outputs),
      ),
      get-put_self n.id (iterations + 1) r.loop_state,
      get-put_self n.id body_target r.branch_selection,
    )
