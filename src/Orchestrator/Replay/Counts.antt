-- ===== src/Orchestrator/Replay/Counts.antt =====
-- The counts of an evaluation.
use workcore.Prelude.{
  ℕ, suc, ◌+◌, ◌≤◌, String, ◌≡◌, refl, subst, Bool, true, false, Option, none, some, List, [], ◌∷◌,
  ◌++◌, arith, length, length-append,
}
use workcore.Prelude.Int.{Float}
use workcore.Value.{Items, nil, cons}
use workcore.Orchestrator.Records.{
  ProjectRecord, OrchestratorConfigRecord, OrchestrationDecisionRecord,
}
use workcore.Orchestrator.Policy.{RoutingPolicy}
use workcore.Orchestrator.World.{
  Outcome, ok, raise, Routing, decided, failed, Services, World, ◌>>=◌, pure, fail,
}
use workcore.Orchestrator.Orchestrated.Laws.{Holds, Holds-any}
use workcore.Orchestrator.Replay.{ReplayState}
use workcore.Orchestrator.Replay.Reading.{ReadCase}
use workcore.Orchestrator.Replay.Cases.{
  ReplayItem, Tally, Progress, Evaluation, count_case, record_case, run_case, run_cases, at_start,
  evaluation_of, evaluate_with, evaluate_in, evaluate_routing_replay,
}

abbrev pub count : Items → ℕ
count nil = 0
count (cons v vs) = suc (count vs)

-- No more cases match than expect something, and no more expect something than there are.
abbrev pub Fits : ℕ → Tally → Type 0
Fits n t = (t.matched ≤ t.expected) × (t.expected ≤ n)

-- A case that expects something, and one that has what it expects, count as one.
abbrev pub one_if_given : Option Bool → ℕ
one_if_given none = 0
one_if_given (some b) = 1

abbrev pub one_if_true : Option Bool → ℕ
one_if_true none = 0
one_if_true (some true) = 1
one_if_true (some false) = 0

abbrev pub total_of : (ReplayItem → ℕ) → List ReplayItem → ℕ
total_of f [] = 0
total_of f (x ∷ xs) = f x + total_of f xs

total_of-append :
    (f : ReplayItem → ℕ) (xs : List ReplayItem) (x : ReplayItem)
    → total_of f (xs ++ (x ∷ [])) ≡ total_of f xs + f x
total_of-append f [] x = omega arith
total_of-append f (y ∷ xs) x = omega (arith, total_of-append f xs x)

-- A tally counts what the items say: how many expect something and how many of them have it.
abbrev pub Counts : (ReplayItem → Option Bool) → List ReplayItem → Tally → Type 0
Counts f items t =
    (t.expected ≡ total_of (λ x. one_if_given (f x)) items)
    × (t.matched ≡ total_of (λ x. one_if_true (f x)) items)

counted_once :
    (o : Option Bool) (t : Tally)
    → ((count_case o t).expected ≡ t.expected + one_if_given o)
      × ((count_case o t).matched ≡ t.matched + one_if_true o)
unfolding count_case
counted_once none t = (omega arith, omega arith)
counted_once (some true) t = (omega arith, omega arith)
counted_once (some false) t = (omega arith, omega arith)

count_case-Counts :
    (f : ReplayItem → Option Bool) (items : List ReplayItem) (item : ReplayItem) (t : Tally)
    → Counts f items t
    → Counts f (items ++ (item ∷ [])) (count_case (f item) t)
count_case-Counts f items item t (a, b) =
    let (c, d) = counted_once (f item) t in
    let more = total_of-append (λ x. one_if_given (f x)) items item in
    let hits = total_of-append (λ x. one_if_true (f x)) items item in
    (omega (arith, a, c, more), omega (arith, b, d, hits))

count_case-Fits : (o : Option Bool) (n : ℕ) (t : Tally) → Fits n t → Fits (suc n) (count_case o t)
unfolding count_case
count_case-Fits none n t (a, b) = (a, omega (arith, b))
count_case-Fits (some true) n t (a, b) = (omega (arith, a), omega (arith, b))
count_case-Fits (some false) n t (a, b) = (omega (arith, a), omega (arith, b))

pub record Counted (n : ℕ) (p : Progress) : Type 0 where
  pub items : length p.items ≡ n
  pub actions : Fits n p.actions
  pub workflows : Fits n p.workflows
  pub exact : Fits n p.exact
  pub actions_of : Counts (λ x. x.matched_action) p.items p.actions
  pub workflows_of : Counts (λ x. x.matched_workflow_id) p.items p.workflows
  pub exact_of : Counts (λ x. x.matched_exact) p.items p.exact

module _ {E : Type 0} (services : Services E) where
  module _ {A B : Type 0} (P : A → Type 0) (Q : B → Type 0) where
    Holds-after :
        (r : Outcome A × World E) (f : A → World E → Outcome B × World E)
        → Holds services P r.0
        → ((a : A) (w : World E) → P a → Holds services Q (f a w).0)
        → Holds services Q (workcore.Orchestrator.World.continue r f).0
    Holds-after (ok a, w) f h next = next a w h
    Holds-after (raise e, w) f h next = tt

    Holds-next :
        (m : World E → Outcome A × World E) (f : A → World E → Outcome B × World E) (w : World E)
        → Holds services P (m w).0
        → ((a : A) (w' : World E) → P a → Holds services Q (f a w').0)
        → Holds services Q ((m >>= f) w).0
    unfolding ◌>>=◌
    Holds-next m f w h next = Holds-after (m w) f h next

  any_next :
      {A B : Type 0} (Q : B → Type 0) (m : World E → Outcome A × World E)
      (f : A → World E → Outcome B × World E) (w : World E)
      → ((a : A) (w' : World E) → Holds services Q (f a w').0)
      → Holds services Q ((m >>= f) w).0
  any_next Q m f w next =
      Holds-next (λ _. Unit) Q m f w (Holds-any services (m w).0) (λ a w' _. next a w')

  module _ (project_id session_id tenant_id : String) (orchestrator : OrchestratorConfigRecord)
      (policy : RoutingPolicy) where
    record_case-Counted :
        (item : ReplayItem) (d : OrchestrationDecisionRecord) (routed : ReplayState) (n : ℕ)
        (p : Progress)
        → Counted n p
        → Counted (suc n) (
            record_case services project_id session_id tenant_id orchestrator policy item d routed
              p)
    unfolding record_case
    record_case-Counted item d routed n p c = record {
      items = omega (arith, c.items, length-append p.items (item ∷ []));
      actions = count_case-Fits item.matched_action n p.actions c.actions;
      workflows = count_case-Fits item.matched_workflow_id n p.workflows c.workflows;
      exact = count_case-Fits item.matched_exact n p.exact c.exact;
      actions_of = count_case-Counts (λ x. x.matched_action) p.items item p.actions c.actions_of;
      workflows_of =
          count_case-Counts (λ x. x.matched_workflow_id) p.items item p.workflows c.workflows_of;
      exact_of = count_case-Counts (λ x. x.matched_exact) p.items item p.exact c.exact_of;
    }

    run_case-Counted :
        (at n : ℕ) (c : ReadCase) (p : Progress) (w : World E)
        → Counted n p
        → Holds services
            (Counted (suc n))
            (run_case services project_id session_id tenant_id orchestrator policy at c p w).0
    unfolding run_case pure
    run_case-Counted at n c p w counted = any_next (Counted (suc n)) _ _ w (λ candidates w1.
        any_next (Counted (suc n)) _ _ w1 (λ asked w2.
          any_next (Counted (suc n)) _ _ w2 (λ decision w3.
            any_next (Counted (suc n)) _ _ w3 (λ latency w4.
              any_next (Counted (suc n)) _ _ w4 (λ target w5.
                any_next (Counted (suc n)) _ _ w5 (λ now w6.
                  any_next (Counted (suc n)) _ _ w6 (λ later w7.
                    any_next (Counted (suc n)) _ _ w7
                      (λ created w8. record_case-Counted _ _ _ n p counted))))))))

    run_cases-Counted :
        (at n : ℕ) (vs : Items) (p : Progress) (w : World E)
        → Counted n p
        → Holds services
            (Counted (n + count vs))
            (run_cases services project_id session_id tenant_id orchestrator policy at vs p w).0
    unfolding run_cases pure
    run_cases-Counted at n nil p w counted = subst (λ k. Counted k p) (omega arith) counted
    run_cases-Counted at n (cons v vs) p w counted =
        Holds-next (λ _. Unit) (Counted (n + suc (count vs))) _ _ w (Holds-any services _)
          (λ c w1 _.
            Holds-next (Counted (suc n)) (Counted (n + suc (count vs))) _ _ w1
              (run_case-Counted at n c p w1 counted)
              (λ p' w2 counted'.
                subst
                  (λ k.
                    Holds services (Counted k)
                      (run_cases services project_id session_id tenant_id orchestrator policy
                        (suc at) vs p' w2).0)
                  (omega arith) (run_cases-Counted (suc at) (suc n) vs p' w2 counted')))

-- The counts of an evaluation of so many cases.
pub record Tallied (n : ℕ) (e : Evaluation) : Type 0 where
  pub total : e.total_cases ≡ n
  pub items : length e.items ≡ n
  pub actions : Fits n e.metrics.actions
  pub workflows : Fits n e.metrics.workflows
  pub exact : Fits n e.metrics.exact
  pub actions_of : Counts (λ x. x.matched_action) e.items e.metrics.actions
  pub workflows_of : Counts (λ x. x.matched_workflow_id) e.items e.metrics.workflows
  pub exact_of : Counts (λ x. x.matched_exact) e.items e.metrics.exact

module _ (quotient : ℕ → ℕ → Float) (mean : Float → ℕ → Float) {E : Type 0} (services : Services E)
    (project_id session_id tenant_id : String) where
  evaluation-Tallied :
      (orchestrator : OrchestratorConfigRecord) (n : ℕ) (p : Progress)
      → Counted n p
      → Tallied n (evaluation_of quotient mean orchestrator p)
  evaluation-Tallied orchestrator n p c = record {
    total = c.items;
    items = c.items;
    actions = c.actions;
    workflows = c.workflows;
    exact = c.exact;
    actions_of = c.actions_of;
    workflows_of = c.workflows_of;
    exact_of = c.exact_of;
  }

  start-Counted : Counted 0 at_start
  start-Counted = record {
    items = refl;
    actions = (omega arith, omega arith);
    workflows = (omega arith, omega arith);
    exact = (omega arith, omega arith);
    actions_of = (refl, refl);
    workflows_of = (refl, refl);
    exact_of = (refl, refl);
  }

  evaluate_with-Tallied :
      (cases : Items) (found : Outcome OrchestratorConfigRecord) (w : World E)
      → Holds services
          (Tallied (count cases))
          (evaluate_with quotient mean services project_id session_id tenant_id cases found w).0
  unfolding fail pure
  evaluate_with-Tallied cases (raise e) w = tt
  evaluate_with-Tallied nil (ok orchestrator) w = tt
  evaluate_with-Tallied (cons v vs) (ok orchestrator) w =
      Holds-next services (Counted (0 + suc (count vs))) (Tallied (suc (count vs))) _ _ w
        (run_cases-Counted services project_id session_id tenant_id orchestrator _ 0 0 (cons v vs)
          at_start w start-Counted)
        (λ p w1 c.
          evaluation-Tallied orchestrator (suc (count vs)) p
            (subst (λ k. Counted k p) (omega arith) c))

  evaluate_in-Tallied :
      (asked : Option String) (cases : Items) (project : Option ProjectRecord) (w : World E)
      → Holds services
          (Tallied (count cases))
          (evaluate_in quotient mean services project_id session_id tenant_id asked cases project
            w).0
  unfolding fail
  evaluate_in-Tallied asked cases none w = tt
  evaluate_in-Tallied asked cases (some project) w =
      any_next services (Tallied (count cases)) _ _ w
        (λ found w1. evaluate_with-Tallied cases found w1)

  -- An evaluation that is returned has as many items as there are cases, and its total is their
  -- number. Its metrics count the items: for the actions, the workflows and both together, `expected`
  -- is the number of items whose match is given and `matched` the number of those where it is true.
  -- So no more cases match than expect something, and no more expect something than there are.
  pub evaluate_routing_replay-Tallied :
      (asked : Option String) (cases : Items) (w : World E)
      → Holds services
          (Tallied (count cases))
          (evaluate_routing_replay quotient mean services project_id session_id tenant_id asked
            cases w).0
  unfolding evaluate_routing_replay
  evaluate_routing_replay-Tallied asked cases w =
      any_next services (Tallied (count cases)) _ _ w
        (λ project w1. evaluate_in-Tallied asked cases project w1)
