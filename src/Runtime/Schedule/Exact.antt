-- ===== src/Runtime/Schedule/Exact.antt =====
-- Which nodes `_runnable_nodes` returns, exactly, and what `_dependencies_resolved` tests.
use workcore.Prelude.{
  String, ◌≡◌, ◌≢◌, refl, subst, inl, inr, Bool, true, false, not, ◌&&◌, ◌||◌, Option, none, some,
  List, [], ◌∷◌, map, arith, eq_iff, Bool-cases, Option-cases, List-cases, if◌then◌else◌, contains,
  any,
}
use mathlib.Core.Option.{some-injective}
use workcore.Dict.{Dict, get, has, keys}
use workcore.Dict.Laws.{contains-keys}
use workcore.Runtime.Models.{Node, Run, Workflow}
use workcore.Runtime.Graph.Adjacency.{in_edges, adjacency}
use workcore.Runtime.Schedule.{
  is_edge_active, passed_over, check_sources, dependencies_resolved, held, ready_nodes, insert_node,
  sort_nodes, runnable_nodes, resolved_run,
}
use workcore.Runtime.Schedule.Ready.{Sourced, Known, Known-in_edges}
use workcore.Runtime.Work.{Keyed, IsKeyed}

abbrev pub all {ℓ} : {A : Type ℓ} → (A → Bool) → List A → Bool
all p [] = true
all p (x ∷ xs) = p x && all p xs

abbrev holds : Option Bool → Bool
holds none = false
holds (some b) = b

module _ (w : Workflow) (r : Run) where
  -- An edge that the test looks at: not passed over, and active.
  abbrev pub counts : String → String → Bool
  counts k s = not (passed_over w r k s) && holds (is_edge_active w r s k)

  abbrev pub is_done : String → Bool
  is_done s = resolved_run (get s r.node_runs)

  is_edge_active-some : (s k : String) → has s w.nodes ≡ true → is_edge_active w r s k ≢ none
  unfolding is_edge_active
  is_edge_active-some s k h e = ground arith

  -- One edge in the loop, as booleans.
  one_edge :
      (over : Bool) (act : Option Bool) (done before good later : Bool) (x y : Option Bool)
      → act ≢ none
      → x ≡ some (good && (before || later))
      → y ≡ some (good && (true || later))
      → (if over then x else elim act as (λ _. Option Bool) [
        | none ↦ none
        | some false ↦ x
        | some true ↦ if done then y else some false
      ])
        ≡ some (
            ((not (not over && holds act) || done) && good)
            && (before || (((not over && holds act) && done) || later)))
  one_edge over none done before good later x y known e e' = absurd (known refl)
  one_edge true (some b) done before good later x y known e e' = ground arith
  one_edge false (some true) done before good later x y known e e' = ground arith
  one_edge false (some false) done before good later x y known e e' = ground arith

  check_sources-exact :
      (k : String) (l : List String) (active : Bool)
      → Known w l
      → check_sources w r k l active
        ≡ some (
            all (λ s. not (counts k s) || is_done s) l
            && (active || any (λ s. counts k s && is_done s) l))
  unfolding check_sources
  check_sources-exact k [] active h = ground arith
  check_sources-exact k (s ∷ l) active (h, t) =
      one_edge (passed_over w r k s) (is_edge_active w r s k) (is_done s) active _ _ _ _
        (is_edge_active-some s k h) (check_sources-exact k l active t)
        (check_sources-exact k l true t)

  -- Where every edge leaves a node of the workflow, a node's dependencies are resolved exactly if
  -- it has no incoming edge, or if every active edge into it comes from a resolved node and there
  -- is one. The edges that a while node passes over do not count.
  pub dependencies_resolved-exact :
      (k : String)
      → Sourced w.edges w
      → dependencies_resolved w r k
        ≡ some (elim (in_edges k w.edges) as (λ _. Bool) [
          | [] ↦ true
          | ◌∷◌ s l ↦
              all (λ s. not (counts k s) || is_done s) (in_edges k w.edges)
              && any (λ s. counts k s && is_done s) (in_edges k w.edges)
        ])
  unfolding dependencies_resolved
  dependencies_resolved-exact k h = elim (List-cases (in_edges k w.edges)) [
    | inl alone ↦ ground (arith, (adjacency w k).1)
    | inr (s, l, many) ↦
        let known : Known w (s ∷ l) = subst (λ x. Known w x) many (Known-in_edges w k w.edges h) in
        ground (arith, (adjacency w k).1, check_sources-exact k (s ∷ l) false known)
  ]

  -- The test of the loop over the nodes.
  abbrev pub runs : String → Bool
  runs k = elim (get k w.nodes) [
    | none ↦ false
    | some n ↦ not (held w r k n) && holds (dependencies_resolved w r k)
  ]

  abbrev pub ids : List Node → List String
  ids = map (λ n. n.id)

  ids-ready_nodes :
      (k : String) (d : Dict Node) (l : List Node)
      → Keyed w.nodes d
      → ready_nodes w r d ≡ some l
      → contains k (ids l) ≡ (contains k (keys d) && runs k)
  unfolding ready_nodes keys
  ids-ready_nodes k [] l h e = subst (λ x. contains k (ids x) ≡ false) (some-injective _ _ e) refl
  ids-ready_nodes k ((j, n) ∷ d) l (key, known, rest) e =
      let next = ids-ready_nodes k d in
      elim (Bool-cases (held w r j n)) [
        | inl h ↦ ground (arith, next l rest, eq_iff j k)
        | inr h ↦ elim (Option-cases (dependencies_resolved w r j)) [
          | inl stuck ↦ absurd (ground arith)
          | inr (b, deps) ↦ elim (Option-cases (ready_nodes w r d)) [
            | inl stuck ↦ absurd (ground arith)
            | inr (found, ready) ↦ ground (arith, next found rest ready, eq_iff j k)
          ]
        ]
      ]

  ids-insert_node :
      (k : String) (n : Node) (l : List Node)
      → contains k (ids (insert_node n l)) ≡ contains k (ids (n ∷ l))
  unfolding insert_node
  ids-insert_node k n [] = refl
  ids-insert_node k n (m ∷ l) = ground (arith, ids-insert_node k n l)

  ids-sort_nodes :
      (k : String) (l : List Node) → contains k (ids (sort_nodes l)) ≡ contains k (ids l)
  unfolding sort_nodes
  ids-sort_nodes k [] = refl
  ids-sort_nodes k (n ∷ l) = ground (arith, ids-insert_node k n (sort_nodes l), ids-sort_nodes k l)

  -- The runnable nodes are exactly the nodes of the workflow that are not held and whose
  -- dependencies are resolved. The hypothesis is that the nodes are stored under their own ids.
  pub runnable_nodes-exact :
      (l : List Node) (k : String)
      → IsKeyed w
      → runnable_nodes w r ≡ some l
      → contains k (ids l) ≡ runs k
  unfolding runnable_nodes
  runnable_nodes-exact l k keyed e = elim (Option-cases (ready_nodes w r w.nodes)) [
    | inl stuck ↦ absurd (ground arith)
    | inr (found, h) ↦ ground (
      arith,
      ids-ready_nodes k w.nodes found keyed h,
      ids-sort_nodes k found,
      contains-keys k w.nodes,
    )
  ]
