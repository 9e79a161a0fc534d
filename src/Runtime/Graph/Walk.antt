-- ===== src/Runtime/Graph/Walk.antt =====
-- The loop of `_reachable_from` over any neighbours: it collects what a path reaches.
use workcore.Prelude.{
  ℕ, zero, suc, ◌+◌, ◌<◌, String, ◌≡◌, ◌↔◌, refl, subst, inl, inr, true, false, ◌||◌, List, [], ◌∷◌,
  arith, eq_iff, contains, length, Bool-cases,
}
use mathlib.Core.Logic.{∥∥₁_elim}
use mathlib.Core.Bool.{So-prop}
use workcore.Runtime.Graph.{walk, push_all}

-- The nodes that a path of edges reaches from `a`.
pub data Reaches (next : String → List String) (a : String) : String → Type 0 where
  here : Reaches next a a
  step : {u v : String} → Reaches next a u → contains v (next u) ≡ true → Reaches next a v

pub contains-push_all :
    (v : String) (ts stack : List String)
    → contains v (push_all ts stack) ≡ (contains v ts || contains v stack)
contains-push_all v [] stack = refl
contains-push_all v (t ∷ ts) stack = ground (arith, contains-push_all v ts (t ∷ stack))

pub length-push_all :
    (ts stack : List String) → length (push_all ts stack) ≡ length ts + length stack
length-push_all [] stack = omega arith
length-push_all (t ∷ ts) stack = omega (arith, length-push_all ts (t ∷ stack))

module _ (next : String → List String) where
  walk_sound :
      (a : String) (fuel : ℕ) (visited stack : List String)
      → ((v : String) → contains v visited ≡ true → Reaches next a v)
      → ((v : String) → contains v stack ≡ true → Reaches next a v)
      → (v : String) → contains v (walk next fuel visited stack) ≡ true
      → Reaches next a v
  unfolding walk
  walk_sound a zero visited stack seen queued v h = seen v h
  walk_sound a (suc fuel) visited [] seen queued v h = seen v h
  walk_sound a (suc fuel) visited (c ∷ stack) seen queued v h =
      elim (Bool-cases (contains c visited)) [
        | inl old ↦
            walk_sound a fuel visited stack seen (λ u k. queued u (ground arith)) v
              (rw (old, walk) at h)
        | inr new ↦
            walk_sound a fuel (c ∷ visited) (push_all (next c) stack)
              (λ u k. elim (Bool-cases (contains u visited)) [
                | inl m ↦ seen u m
                | inr m ↦ queued u (ground arith)
              ])
              (λ u k. elim (Bool-cases (contains u (next c))) [
                | inl m ↦ step (queued c (ground (arith, eq_iff c c))) m
                | inr m ↦ queued u (ground (arith, contains-push_all u (next c) stack))
              ])
              v (rw (new, walk) at h)
      ]

  keeps-walk :
      (fuel : ℕ) (visited stack : List String) (v : String)
      → contains v visited ≡ true
      → contains v (walk next fuel visited stack) ≡ true
  unfolding walk
  keeps-walk zero visited stack v h = h
  keeps-walk (suc fuel) visited [] v h = h
  keeps-walk (suc fuel) visited (c ∷ stack) v h = ground (
    arith,
    keeps-walk fuel visited stack v,
    keeps-walk fuel (c ∷ visited) (push_all (next c) stack) v,
  )

-- `weight` bounds the pushes that are still to come: what it loses with a node is what the node
-- pushes.
module _ (next : String → List String) (weight : List String → ℕ)
    (spend : (c : String) (visited : List String)
      → contains c visited ≡ false
      → weight (c ∷ visited) + length (next c) ≡ weight visited) where
  -- With fuel for the stack and the weight, what is on the stack is visited.
  walk-takes :
      (fuel : ℕ) (visited stack : List String) (v : String)
      → length stack + weight visited < fuel
      → contains v stack ≡ true
      → contains v (walk next fuel visited stack) ≡ true
  unfolding walk
  walk-takes zero visited stack v enough h = absurd (omega arith)
  walk-takes (suc fuel) visited [] v enough h = cc
  walk-takes (suc fuel) visited (c ∷ stack) v enough h = elim (Bool-cases (contains c visited)) [
    | inl old ↦ elim (Bool-cases (contains v visited)) [
      | inl m ↦ rw (old, walk) (keeps-walk next fuel visited stack v m)
      | inr m ↦
          rw (old, walk)
            (walk-takes fuel visited stack v (omega arith) (ground (arith, eq_iff c v)))
    ]
    | inr new ↦
        let less = spend c visited new in
        let room = length-push_all (next c) stack in
        elim (Bool-cases (contains v (c ∷ visited))) [
          | inl m ↦
              rw (new, walk) (keeps-walk next fuel (c ∷ visited) (push_all (next c) stack) v m)
          | inr m ↦
              rw (new, walk)
                (walk-takes fuel (c ∷ visited) (push_all (next c) stack) v (omega arith)
                  (ground (arith, contains-push_all v (next c) stack)))
        ]
  ]

  -- What is visited at the end is closed under the edges.
  walk-closed :
      (fuel : ℕ) (visited stack : List String)
      → length stack + weight visited < fuel
      → ((u v : String)
          → contains u visited ≡ true
          → contains v (next u) ≡ true
          → (contains v visited || contains v stack) ≡ true)
      → (u v : String) → contains u (walk next fuel visited stack) ≡ true
      → contains v (next u) ≡ true
      → contains v (walk next fuel visited stack) ≡ true
  unfolding walk
  walk-closed zero visited stack enough inv u v h e = absurd (omega arith)
  walk-closed (suc fuel) visited [] enough inv u v h e = ground (arith, inv u v)
  walk-closed (suc fuel) visited (c ∷ stack) enough inv u v h e =
      elim (Bool-cases (contains c visited)) [
        | inl old ↦
            rw (old, walk)
              (walk-closed fuel visited stack (omega arith)
                (λ x y m n. ground (arith, inv x y, eq_iff c y)) u v (rw (old, walk) at h) e)
        | inr new ↦
            let less = spend c visited new in
            let room = length-push_all (next c) stack in
            rw (new, walk)
              (walk-closed fuel (c ∷ visited) (push_all (next c) stack) (omega arith)
                (λ x y m n.
                  ground
                    (arith, inv x y, eq_iff c y, eq_iff c x, contains-push_all y (next c) stack))
                u v (rw (new, walk) at h) e)
      ]

  follow :
      (fuel : ℕ) (a : String)
      → suc (weight []) < fuel
      → {v : String} → Reaches next a v
      → contains v (walk next fuel [] (a ∷ [])) ≡ true
  follow fuel a enough here =
      walk-takes fuel [] (a ∷ []) a (omega arith) (ground (arith, eq_iff a a))
  follow fuel a enough (step {u} {v} p e) =
      walk-closed fuel [] (a ∷ []) (omega arith) (λ x y m n. cc) u v (follow fuel a enough p) e

  -- A walk from one node visits what a path reaches and nothing else.
  pub walk-Reaches :
      (fuel : ℕ) (a v : String)
      → suc (weight []) < fuel
      → (contains v (walk next fuel [] (a ∷ [])) ≡ true) ↔ ∥ Reaches next a v ∥₁
  walk-Reaches fuel a v enough = (
    λ h.
        ∣ walk_sound next a fuel [] (a ∷ []) (λ u k. cc)
          (λ u k. subst (Reaches next a) (ground (arith, eq_iff a u)) here) v h ∣₁,
    λ p. ∥∥₁_elim p (So-prop _) (λ q. follow fuel a enough q),
  )
