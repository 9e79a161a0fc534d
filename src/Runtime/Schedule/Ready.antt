-- ===== src/Runtime/Schedule/Ready.antt =====
-- What `_runnable_nodes` returns: nodes of the workflow that are not held, and no `KeyError` where
-- every edge leaves a node of the workflow.
use workcore.Prelude.{
  String, ◌≡◌, ◌≢◌, sym, subst, ap, ◌∙◌, Bool, true, false, none, some, List, [], ◌∷◌, arith, ◌==◌,
  Bool-cases, Option-cases, List-cases, if◌then◌else◌, inl, inr,
}
use workcore.Dict.{Dict, get, has}
use workcore.Runtime.Models.{Node, Edge, Run, Workflow}
use workcore.Runtime.Env.{Env}
use workcore.Runtime.Graph.Adjacency.{in_edges, adjacency}
use workcore.Runtime.Schedule.{
  is_edge_active, passed_over, check_sources, dependencies_resolved, held, when_ready, ready_nodes,
  insert_node, sort_nodes, runnable_nodes, le_text,
}
use workcore.Dict.Laws.{get-put_self}
use mathlib.Core.Option.{some-injective}
use workcore.Runtime.Execute.{fresh_node_run, enter, finished}
use workcore.Runtime.Work.{Keyed, IsKeyed}

abbrev pub All {κ ℓ} : {A : Type ℓ} → (A → Type κ) → List A → Type κ
All holds_at [] = Unit
All holds_at (x ∷ xs) = holds_at x × All holds_at xs

-- A node of the workflow, under its own id, that is not held.
abbrev pub IsReady : Workflow → Run → Node → Type 0
IsReady w r n = (get n.id w.nodes ≡ some n) × (held w r n.id n ≡ false)

module _ (w : Workflow) (r : Run) where
  when_ready-All :
      (b : Bool) (n : Node) (t l : List Node)
      → when_ready w r b n t ≡ l
      → IsReady w r n
      → All (IsReady w r) t
      → All (IsReady w r) l
  when_ready-All true n t l e h g = subst (λ x. All (IsReady w r) x) e (h, g)
  when_ready-All false n t l e h g = subst (λ x. All (IsReady w r) x) e g

  All-ready_nodes :
      (d : Dict Node) (l : List Node)
      → Keyed w.nodes d
      → ready_nodes w r d ≡ some l
      → All (IsReady w r) l
  unfolding ready_nodes
  All-ready_nodes [] l h e = subst (λ x. All (IsReady w r) x) (some-injective _ _ e) tt
  All-ready_nodes ((k, n) ∷ d) l (key, known, rest) e = elim (Bool-cases (held w r k n)) [
    | inl h ↦ All-ready_nodes d l rest (ground arith)
    | inr h ↦ elim (Option-cases (dependencies_resolved w r k)) [
      | inl none_ ↦ absurd (ground arith)
      | inr (b, deps) ↦ elim (Option-cases (ready_nodes w r d)) [
        | inl none_ ↦ absurd (ground arith)
        | inr (rest_, ready) ↦
            when_ready-All b n rest_ l (ground arith) (known, ap (λ x. held w r x n) (sym key) ∙ h)
              (All-ready_nodes d rest_ rest ready)
      ]
    ]
  ]

  placed :
      (b : Bool) (n m : Node) (l k : List Node)
      → IsReady w r n
      → IsReady w r m
      → All (IsReady w r) l
      → All (IsReady w r) k
      → All (IsReady w r) (if b then n ∷ m ∷ l else m ∷ k)
  placed true n m l k h hm t t' = (h, (hm, t))
  placed false n m l k h hm t t' = (hm, t')

  All-insert_node :
      (n : Node) (l : List Node)
      → IsReady w r n
      → All (IsReady w r) l
      → All (IsReady w r) (insert_node n l)
  unfolding insert_node
  All-insert_node n [] h t = (h, tt)
  All-insert_node n (m ∷ l) h (hm, t) =
      placed (le_text n.id m.id) n m l _ h hm t (All-insert_node n l h t)

  All-sort_nodes : (l : List Node) → All (IsReady w r) l → All (IsReady w r) (sort_nodes l)
  unfolding sort_nodes
  All-sort_nodes [] h = tt
  All-sort_nodes (n ∷ l) (h, t) = All-insert_node n (sort_nodes l) h (All-sort_nodes l t)

-- A node that is not held is executed: the call does not return at once.
pub ready_unfinished :
    (env : Env) (w : Workflow) (r : Run) (n : Node)
    → held w r n.id n ≡ false
    → finished env w n (enter env w n r) ≡ false
unfolding held finished enter
ready_unfinished env w r n h = elim (Option-cases (get n.id r.node_runs)) [
  | inl absent ↦ ground (arith, get-put_self n.id (fresh_node_run n.id) r.node_runs)
  | inr (nr, e) ↦ ground arith
]

pub runnable_nodes-IsReady :
    (w : Workflow) (r : Run) (l : List Node)
    → IsKeyed w
    → runnable_nodes w r ≡ some l
    → All (IsReady w r) l
unfolding runnable_nodes
runnable_nodes-IsReady w r l keyed e = elim (Option-cases (ready_nodes w r w.nodes)) [
  | inl stuck ↦ absurd (ground arith)
  | inr (found, h) ↦
      subst (λ x. All (IsReady w r) x) (some-injective _ _ (ground arith))
        (All-sort_nodes w r found (All-ready_nodes w r w.nodes found keyed h))
]

-- Every edge leaves a node of the workflow.
abbrev pub Sourced : List Edge → Workflow → Type 0
Sourced [] w = Unit
Sourced (e ∷ es) w = (has e.source w.nodes ≡ true) × Sourced es w

abbrev pub Known : Workflow → List String → Type 0
Known w [] = Unit
Known w (k ∷ ks) = (has k w.nodes ≡ true) × Known w ks

Known-keep :
    (w : Workflow) (b : Bool) (s : String) (l : List String)
    → has s w.nodes ≡ true
    → Known w l
    → Known w (if b then s ∷ l else l)
Known-keep w true s l h t = (h, t)
Known-keep w false s l h t = t

pub Known-in_edges :
    (w : Workflow) (k : String) (es : List Edge) → Sourced es w → Known w (in_edges k es)
Known-in_edges w k [] h = tt
Known-in_edges w k (e ∷ es) (h, t) =
    Known-keep w (e.target == k) e.source _ h (Known-in_edges w k es t)

check_sources-some :
    (w : Workflow) (r : Run) (k : String) (l : List String) (active : Bool)
    → Known w l
    → check_sources w r k l active ≢ none
unfolding check_sources is_edge_active passed_over
check_sources-some w r k [] active h e = ground arith
check_sources-some w r k (s ∷ l) active (h, t) e =
    ground (arith, check_sources-some w r k l active t, check_sources-some w r k l true t)

dependencies_resolved-some :
    (w : Workflow) (r : Run) (k : String) → Sourced w.edges w → dependencies_resolved w r k ≢ none
unfolding dependencies_resolved
dependencies_resolved-some w r k h e = elim (List-cases (in_edges k w.edges)) [
  | inl alone ↦ ground (arith, (adjacency w k).1)
  | inr (s, l, many) ↦
      let known : Known w (s ∷ l) = subst (λ x. Known w x) many (Known-in_edges w k w.edges h) in
      ground (arith, (adjacency w k).1, check_sources-some w r k (s ∷ l) false known)
]

ready_nodes-some :
    (w : Workflow) (r : Run) (d : Dict Node) → Sourced w.edges w → ready_nodes w r d ≢ none
unfolding ready_nodes
ready_nodes-some w r [] h e = ground arith
ready_nodes-some w r ((k, n) ∷ d) h e =
    ground (arith, ready_nodes-some w r d h, dependencies_resolved-some w r k h)

-- No `KeyError` ends the search for the nodes to run.
pub runnable_nodes-some : (w : Workflow) (r : Run) → Sourced w.edges w → runnable_nodes w r ≢ none
unfolding runnable_nodes
runnable_nodes-some w r h e = ground (arith, ready_nodes-some w r w.nodes h)
