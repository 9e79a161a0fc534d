-- ===== src/Runtime/Graph/Downstream.antt =====
-- `_collect_downstream` of runtime/engine.py collects what follows a node along the edges.
use workcore.Prelude.{
  ℕ, zero, suc, ◌+◌, ◌<◌, ◌≤◌, String, ◌≡◌, ◌↔◌, subst, inl, inr, true, false, ◌||◌, List, [], ◌∷◌,
  arith, eq_iff, ◌==◌, contains, length, Bool-cases,
}
use mathlib.Core.Logic.{∥∥₁_elim}
use mathlib.Core.Bool.{So-prop}
use workcore.Runtime.Models.{Edge, Workflow}
use workcore.Runtime.Graph.{mark_all, descend, rounds, targets, collect_downstream}
use workcore.Runtime.Graph.Walk.{Reaches, here, step}
use workcore.Runtime.Graph.Adjacency.{
  adjacency, out_edges, in_edges, unspent, unspent-nil, spend_in,
}

-- An edge leads to `v` from a node that a path from `a` reaches: a path of one edge or more.
abbrev pub Follows : (String → List String) → String → String → Type 0
Follows next a v = (u : String) × Reaches next a u × (contains v (next u) ≡ true)

marked :
    (v : String) (ts visited stack : List String)
    → contains v (mark_all ts visited stack).0 ≡ (contains v visited || contains v ts)
unfolding mark_all
marked v [] visited stack = ground arith
marked v (t ∷ ts) visited stack = elim (Bool-cases (contains t visited)) [
  | inl old ↦ rw (old, mark_all) (ground (arith, marked v ts visited stack, eq_iff t v, old))
  | inr new ↦ rw (new, mark_all) (ground (arith, marked v ts (t ∷ visited) (t ∷ stack)))
]

-- What waits afterwards waited before or is a target.
waits :
    (v : String) (ts visited stack : List String)
    → contains v (mark_all ts visited stack).1 ≡ true
    → (contains v stack || contains v ts) ≡ true
unfolding mark_all
waits v [] visited stack h = ground (arith, h)
waits v (t ∷ ts) visited stack h = elim (Bool-cases (contains t visited)) [
  | inl old ↦ ground (arith, waits v ts visited stack (rw (old, mark_all) at h))
  | inr new ↦ ground (arith, waits v ts (t ∷ visited) (t ∷ stack) (rw (new, mark_all) at h))
]

-- What waited waits on, and so does what is newly marked.
still_waits :
    (v : String) (ts visited stack : List String)
    → contains v stack ≡ true
    → contains v (mark_all ts visited stack).1 ≡ true
unfolding mark_all
still_waits v [] visited stack h = h
still_waits v (t ∷ ts) visited stack h = elim (Bool-cases (contains t visited)) [
  | inl old ↦ rw (old, mark_all) (still_waits v ts visited stack h)
  | inr new ↦ rw (new, mark_all) (still_waits v ts (t ∷ visited) (t ∷ stack) (ground (arith, h)))
]

new_waits :
    (v : String) (ts visited stack : List String)
    → contains v ts ≡ true
    → contains v visited ≡ false
    → contains v (mark_all ts visited stack).1 ≡ true
unfolding mark_all
new_waits v [] visited stack h new = absurd (ground arith)
new_waits v (t ∷ ts) visited stack h new = elim (Bool-cases (t == v)) [
  | inl same ↦
      let first : contains t visited ≡ false = ground (arith, eq_iff t v) in
      rw (first, mark_all) (still_waits v ts (t ∷ visited) (t ∷ stack) (ground (arith, same)))
  | inr other ↦
      let rest : contains v ts ≡ true = ground (arith, h, other) in
      elim (Bool-cases (contains t visited)) [
        | inl old ↦ rw (old, mark_all) (new_waits v ts visited stack rest new)
        | inr fresh ↦
            rw (fresh, mark_all)
              (new_waits v ts (t ∷ visited) (t ∷ stack) rest (ground (arith, other, new)))
      ]
]

module _ (next : String → List String) (a : String) where
  descend_sound :
      (fuel : ℕ) (visited stack : List String)
      → ((v : String) → contains v visited ≡ true → Follows next a v)
      → ((v : String) → contains v stack ≡ true → Reaches next a v)
      → (v : String) → contains v (descend next fuel visited stack) ≡ true
      → Follows next a v
  unfolding descend
  descend_sound zero visited stack seen queued v h = seen v h
  descend_sound (suc fuel) visited [] seen queued v h = seen v h
  descend_sound (suc fuel) visited (c ∷ stack) seen queued v h =
      descend_sound fuel _ _
        (λ u k. elim (Bool-cases (contains u visited)) [
          | inl m ↦ seen u m
          | inr m ↦ (
            c,
            queued c (ground (arith, eq_iff c c)),
            ground (arith, k, m, marked u (next c) visited stack),
          )
        ])
        (λ u k. elim (Bool-cases (contains u stack)) [
          | inl m ↦ queued u (ground (arith, m))
          | inr m ↦
              step (queued c (ground (arith, eq_iff c c)))
                (ground (arith, m, waits u (next c) visited stack k))
        ])
        v h

  -- `weight` bounds the nodes that are still to be marked.
  module _ (weight : List String → ℕ)
      (spend : (c t : String) (visited : List String)
        → contains t (next c) ≡ true
        → contains t visited ≡ false
        → weight (t ∷ visited) < weight visited) where
    room :
        (c : String) (ts visited stack : List String)
        → ((t : String) → contains t ts ≡ true → contains t (next c) ≡ true)
        → length (mark_all ts visited stack).1 + weight (mark_all ts visited stack).0
          ≤ length stack + weight visited
    unfolding mark_all
    room c [] visited stack among = omega arith
    room c (t ∷ ts) visited stack among =
        let rest = λ (u : String) (k : contains u ts ≡ true). among u (ground (arith, k)) in
        elim (Bool-cases (contains t visited)) [
          | inl old ↦ rw (old, mark_all) (room c ts visited stack rest)
          | inr new ↦
              let less = spend c t visited (among t (ground (arith, eq_iff t t))) new in
              let later = room c ts (t ∷ visited) (t ∷ stack) rest in
              rw (new, mark_all) (omega (arith, less, later))
        ]

    -- With fuel for what waits and what is still to be marked, the end is closed under the edges.
    descend-closed :
        (fuel : ℕ) (visited stack : List String)
        → length stack + weight visited < fuel
        → ((u v : String)
            → (contains u visited || a == u) ≡ true
            → contains v (next u) ≡ true
            → (contains v visited || contains u stack) ≡ true)
        → (u v : String) → (contains u (descend next fuel visited stack) || a == u) ≡ true
        → contains v (next u) ≡ true
        → contains v (descend next fuel visited stack) ≡ true
    unfolding descend
    descend-closed zero visited stack enough inv u v h e = absurd (omega arith)
    descend-closed (suc fuel) visited [] enough inv u v h e = ground (arith, inv u v h e)
    descend-closed (suc fuel) visited (c ∷ stack) enough inv u v h e =
        let small = room c (next c) visited stack (λ t k. k) in
        descend-closed fuel _ _ (omega (arith, small, enough))
          (λ x y m n. elim (Bool-cases (contains x visited || a == x)) [
            | inl old ↦ elim (Bool-cases (contains x stack)) [
              | inl waiting ↦ ground (arith, still_waits x (next c) visited stack waiting)
              | inr gone ↦
                  ground
                    (arith, inv x y old n, gone, eq_iff c x, n, marked y (next c) visited stack)
            ]
            | inr new ↦
                let fresh : contains x visited ≡ false = ground (arith, new) in
                let found : contains x (next c) ≡ true =
                  ground (arith, m, new, marked x (next c) visited stack) in
                ground (arith, new_waits x (next c) visited stack found fresh)
          ])
          u v h e

    follow :
        (fuel : ℕ)
        → suc (weight []) < fuel
        → {u : String} → Reaches next a u
        → (contains u (descend next fuel [] (a ∷ [])) || a == u) ≡ true
    follow fuel enough here = ground (arith, eq_iff a a)
    follow fuel enough (step {u} {v} p e) =
        let closed : contains v (descend next fuel [] (a ∷ [])) ≡ true =
          descend-closed fuel [] (a ∷ []) (omega (arith, enough)) (λ x y m n. ground (arith, m)) u v
            (follow fuel enough p) e in
        ground (arith, closed)

    descend-Follows :
        (fuel : ℕ) (v : String)
        → suc (weight []) < fuel
        → (contains v (descend next fuel [] (a ∷ [])) ≡ true) ↔ ∥ Follows next a v ∥₁
    descend-Follows fuel v enough = (
      λ h.
          ∣ descend_sound fuel [] (a ∷ []) (λ u k. absurd (ground (arith, k)))
            (λ u k. subst (Reaches next a) (ground (arith, eq_iff a u, k)) here) v h ∣₁,
      λ p. ∥∥₁_elim p (So-prop _) (λ (u, q, e).
          descend-closed fuel [] (a ∷ []) (omega (arith, enough)) (λ x y m n. ground (arith, m)) u v
            (follow fuel enough q) e),
    )

edge_into :
    (es : List Edge) (c t : String)
    → contains t (out_edges c es) ≡ true
    → 0 < length (in_edges t es)
edge_into [] c t h = absurd (ground arith)
edge_into (e ∷ es) c t h = ground (arith, edge_into es c t, eq_iff e.target t)

spend_marked :
    (w : Workflow) (c t : String) (ns : List String)
    → contains t (targets w c) ≡ true
    → contains t ns ≡ false
    → unspent (λ e. e.target) w.edges (t ∷ ns) < unspent (λ e. e.target) w.edges ns
spend_marked w c t ns h new =
    let into = edge_into w.edges c t (rw (adjacency w c).0 at h) in
    let less = spend_in w.edges t ns new in omega (arith, into, less)

-- `_collect_downstream` collects exactly the nodes that a path of one edge or more reaches: its
-- bound on the rounds is never met.
pub collect_downstream_correct :
    (w : Workflow) (a v : String)
    → (contains v (collect_downstream w a) ≡ true) ↔ ∥ Follows (targets w) a v ∥₁
unfolding collect_downstream
collect_downstream_correct w a v =
    descend-Follows (targets w) a (unspent (λ e. e.target) w.edges) (spend_marked w) (rounds w) v
      (omega (arith, unspent-nil (λ e. e.target) w.edges))
