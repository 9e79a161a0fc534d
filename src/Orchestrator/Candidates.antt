-- ===== src/Orchestrator/Candidates.antt =====
-- `_candidate_shortlist` and `_resolve_target_workflow` of orchestrator_runtime/runtime.py over the
-- store. `str.lower`, the sum of two floats and `round(x, 4)` are parameters.
pub mod Laws
use workcore.Prelude.{
  ℕ, zero, suc, String, Bool, true, false, not, Option, none, some, List, [], ◌∷◌, ◌++◌, ◌==◌, map,
  any, take, contains, if◌then◌else◌,
}
use workcore.Prelude.Int.{pos, Float, of_int, ltb_float}
use workcore.Sorting.{sort_by, sort_text}
use workcore.Text.{strip, words, includes}
use workcore.Orchestrator.Records.{WorkflowDefinitionRecord, ScoredCandidate}
use workcore.Orchestrator.Store.{OrchestrationStore}
use workcore.Orchestrator.Store.Sessions.{
  get_workflow_definition, list_workflow_definitions, get_fallback_workflow_definition,
}

pub record Texts : Type 0 where
  pub lower : String → String
  pub add : Float → Float → Float
  pub round_four : Float → Float

-- An item of the shortlist.
pub record Candidate : Type 0 where
  pub workflow_id : String
  pub name : String
  pub description : String
  pub tags : List String
  pub examples : List String
  pub score : Float
  pub reason_codes : List String

-- What the language model's router decides.
pub record RoutingDecision : Type 0 where
  pub route_type : String
  pub workflow_id : Option String
  pub tags : List String
  pub confidence : Float
  pub switch_margin : Float
  pub reason_codes : List String
  pub clarifying_question : Option String
  pub clarifying_options : List String
  pub model_id : Option String

abbrev pub one_point_two : Float
one_point_two = record { num = pos 5404319552844595; scale = 52 }

-- The list without repetitions.
abbrev pub distinct : List String → List String
distinct [] = []
distinct (x ∷ xs) = let rest = distinct xs in if contains x rest then rest else x ∷ rest

module _ (texts : Texts) where
  -- A score with its reasons, after one more match.
  abbrev pub matched : Float → Float × List String → Float × List String
  matched amount (score, codes) = (texts.add score amount, codes ++ ("HIGH_CONFIDENCE_MATCH" ∷ []))

  unfoldable pub score_tags : String → List String → Float × List String → Float × List String
  score_tags text [] found = found
  score_tags text (tag ∷ tags) found =
      let normalized = texts.lower (strip tag) in
      score_tags text tags (
        if normalized == ""
        then found
        else if includes normalized text
        then matched (of_int (pos 2)) found
        else found)

  unfoldable pub score_examples : String → List String → Float × List String → Float × List String
  score_examples text [] found = found
  score_examples text (example ∷ examples) found =
      let example_text = texts.lower (strip example) in
      score_examples text examples (
        if example_text == ""
        then found
        else if any (λ token. includes token text) (words example_text)
        then matched (of_int (pos 1)) found
        else found)

  abbrev pub score_name : String → String → Float × List String → Float × List String
  score_name text name found =
      if includes (texts.lower name) text then matched one_point_two found else found

  abbrev pub scored : WorkflowDefinitionRecord → Float × List String → Candidate
  scored d (score, codes) = record {
    workflow_id = d.workflow_id;
    name = d.name;
    description = d.description;
    tags = d.tags;
    examples = d.examples;
    score = texts.round_four score;
    reason_codes = sort_text (λ c. c) (distinct codes);
  }

  unfoldable pub candidate_of : String → WorkflowDefinitionRecord → Candidate
  candidate_of text d = scored d (
      score_name text d.name
        (score_examples text d.examples (score_tags text d.tags (of_int (pos 0), []))))

  -- `items.sort(key=…, reverse=True)`
  abbrev pub by_score : List Candidate → List Candidate
  by_score = sort_by (λ x y. not (ltb_float x.score y.score))

  abbrev pub cut_to : ℕ → List Candidate → List Candidate
  cut_to zero items = items
  cut_to (suc n) items = take (suc n) items

  -- `_candidate_shortlist`
  unfoldable pub candidate_shortlist :
      String → String → String → ℕ → OrchestrationStore → List Candidate
  candidate_shortlist project_id tenant_id message_text top_k store =
      let text = texts.lower (strip message_text) in
      cut_to top_k (
        by_score
          (map (candidate_of text) (list_workflow_definitions project_id tenant_id true store)))

-- A candidate as decisions record it
abbrev pub logged : List Candidate → List ScoredCandidate
logged [] = []
logged (c ∷ cs) =
    record { workflow_id = c.workflow_id; score = c.score; reason_codes = c.reason_codes }
    ∷ logged cs

abbrev pub given : Option String → Option String
given none = none
given (some s) = if s == "" then none else some s

abbrev pub id_of : Option WorkflowDefinitionRecord → Option String
id_of none = none
id_of (some d) = some d.workflow_id

abbrev pub active_id : Option WorkflowDefinitionRecord → Option String
active_id none = none
active_id (some d) = if d.active then some d.workflow_id else none

abbrev pub or_else : Option String → Option String → Option String
or_else none other = other
or_else (some s) other = some s

module _ (project_id tenant_id : String) (store : OrchestrationStore) where
  -- The definition with this id, if one is given and it is active.
  abbrev pub active_definition : Option String → Option String
  active_definition none = none
  active_definition (some id) = active_id (get_workflow_definition project_id id tenant_id store)

  abbrev pub fallback_target : Option String → Option String
  fallback_target configured =
      or_else (active_definition (given configured))
        (id_of (get_fallback_workflow_definition project_id tenant_id store))

  abbrev pub first_candidate : List Candidate → Option String → Option String
  first_candidate [] configured = fallback_target configured
  first_candidate (c ∷ cs) configured = some c.workflow_id

  -- `_resolve_target_workflow`
  unfoldable pub resolve_target_workflow :
      RoutingDecision → List Candidate → Option String → Option String
  resolve_target_workflow decision candidates configured =
      or_else (active_definition (given decision.workflow_id)) (
        if decision.route_type == "FALLBACK"
        then fallback_target configured
        else first_candidate candidates configured)
