-- ===== src/Orchestrator/Heuristic/Laws.antt =====
-- What a decision of the heuristic may name.
use workcore.Prelude.{String, ◌≡◌, ◌≢◌, Bool, true, false, some, List, [], ◌∷◌, ◌==◌, any}
use workcore.Prelude.Int.{Float, ltb_float}
use workcore.Orchestrator.Candidates.{Texts, Candidate, RoutingDecision}
use workcore.Orchestrator.Heuristic.{Arithmetic, Scored, Ask, zero_float, at_least_zero}

-- The workflow is the first of the ranking, and the margin is what its score has over the next one's,
-- or over 0 where it is the only one, and at least 0.
abbrev pub LeadsBy : (Float → Float → Float) → List Scored → String → Float → Type 0
LeadsBy subtract [] id margin = ⊥
LeadsBy subtract (top ∷ []) id margin =
    (id ≡ top.workflow_id) × (margin ≡ at_least_zero (subtract top.score zero_float))
LeadsBy subtract (top ∷ next ∷ more) id margin =
    (id ≡ top.workflow_id) × (margin ≡ at_least_zero (subtract top.score next.score))

-- What a decision of a type says of the workflow that it names: it leaves the active workflow only
-- by the margin that is asked for, it starts one only with the confidence that is asked for, and it
-- resumes no other than the active one.
pub record Fair (subtract : Float → Float → Float) (ranking : List Scored) (known : String → Bool)
    (ask : Ask) (d : RoutingDecision) : Type 0 where
  pub switches :
      d.route_type ≡ "SWITCH_WORKFLOW"
      → (id : String) → d.workflow_id ≡ some id
      → (known id ≡ true)
        × (ask.active_workflow_id ≢ some id)
        × (ltb_float d.switch_margin ask.switch_margin_threshold ≡ false)
        × LeadsBy subtract ranking id d.switch_margin
  pub starts :
      d.route_type ≡ "START_WORKFLOW"
      → (id : String) → d.workflow_id ≡ some id
      → (known id ≡ true)
        × (ltb_float d.confidence ask.confidence_threshold ≡ false)
        × LeadsBy subtract ranking id d.switch_margin
  pub resumes : d.route_type ≡ "RESUME_CURRENT" → d.workflow_id ≡ ask.active_workflow_id

module _ (texts : Texts) (arithmetic : Arithmetic) where
  abbrev pub is_candidate : List Candidate → String → Bool
  is_candidate candidates id = any (λ c. c.workflow_id == id) candidates
