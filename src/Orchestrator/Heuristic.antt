-- ===== src/Orchestrator/Heuristic.antt =====
-- `_route_heuristic` of llm_adapter/responses_router.py. Besides the functions of Texts, the
-- difference of two floats and `0.35 + 0.16 * x` are parameters.
pub mod Laws
use workcore.Prelude.{
  ℕ, String, Bool, true, false, not, ◌&&◌, ◌||◌, Option, none, some, List, [], ◌∷◌, ◌==◌, any, map,
  take, if◌then◌else◌,
}
use workcore.Prelude.Int.{pos, Float, of_int, ltb_float}
use workcore.Sorting.{sort_by}
use workcore.Text.{strip, words, includes}
use workcore.Orchestrator.Policy.{any_token}
use workcore.Orchestrator.Candidates.{Texts, Candidate, RoutingDecision, given}

pub record Arithmetic : Type 0 where
  pub subtract : Float → Float → Float
  pub confidence_of : Float → Float

-- A candidate with the score of the heuristic.
pub record Scored : Type 0 where
  pub workflow_id : String
  pub tags : List String
  pub score : Float

-- The parameters of a decision.
pub record Ask : Type 0 where
  pub active_workflow_id : Option String
  pub confidence_threshold : Float
  pub switch_margin_threshold : Float

-- 0.99, 0.98 and 0.2 as the nearest binary floats
abbrev pub almost_one : Float
almost_one = record { num = pos 4458563631096791; scale = 52 }

abbrev pub most_sure : Float
most_sure = record { num = pos 8827055269646172; scale = 53 }

abbrev pub unsure : Float
unsure = record { num = pos 3602879701896397; scale = 54 }

abbrev pub one_and_half : Float
one_and_half = record { num = pos 3; scale = 1 }

abbrev pub zero_float : Float
zero_float = of_int (pos 0)

-- `max(0.0, x)`
abbrev pub at_least_zero : Float → Float
at_least_zero x = if ltb_float zero_float x then x else zero_float

-- `max(0.0, min(0.98, x))`
abbrev pub sureness : Float → Float
sureness x = at_least_zero (if ltb_float x most_sure then x else most_sure)

abbrev pub decision :
    String
    → Option String
    → List String
    → Float
    → Float
    → List String
    → Option String
    → List String
    → RoutingDecision
decision route_type workflow_id tags confidence margin reasons question options = record {
  route_type = route_type;
  workflow_id = workflow_id;
  tags = tags;
  confidence = confidence;
  switch_margin = margin;
  reason_codes = reasons;
  clarifying_question = question;
  clarifying_options = options;
  model_id = some "heuristic";
}

-- The ids of the first three that are not empty.
abbrev pub ids_of : List Scored → List String
ids_of [] = []
ids_of (x ∷ xs) = let rest = ids_of xs in if x.workflow_id == "" then rest else x.workflow_id ∷ rest

abbrev pub options_of : List Scored → List String
options_of scored = ids_of (take 3 scored)

abbrev pub second_score : List Scored → Float
second_score [] = zero_float
second_score (y ∷ ys) = y.score

module _ (texts : Texts) (arithmetic : Arithmetic) where
  unfoldable pub add_tags : String → List String → Float → Float
  add_tags text [] score = score
  add_tags text (tag ∷ tags) score =
      let tag_text = texts.lower (strip tag) in
      add_tags text tags (
        if not (tag_text == "") && includes tag_text text
        then texts.add score (of_int (pos 2))
        else score)

  unfoldable pub add_examples : String → List String → Float → Float
  add_examples text [] score = score
  add_examples text (example ∷ examples) score =
      let example_text = texts.lower (strip example) in
      add_examples text examples (
        if not (example_text == "")
          && any (λ part. includes part text) (take 3 (words example_text))
        then texts.add score (of_int (pos 1))
        else score)

  abbrev pub add_name : String → String → Float → Float
  add_name text name score =
      let lowered = texts.lower name in
      if not (lowered == "") && includes lowered text then texts.add score one_and_half else score

  unfoldable pub score_candidate : String → Candidate → Scored
  score_candidate text c = record {
    workflow_id = c.workflow_id;
    tags = c.tags;
    score = add_name text c.name (add_examples text c.examples (add_tags text c.tags c.score));
  }

  abbrev pub ranked : String → List Candidate → List Scored
  ranked text candidates =
      sort_by (λ x y. not (ltb_float x.score y.score)) (map (score_candidate text) candidates)

  -- Where a run of another workflow is active.
  abbrev pub leave_or_stay : Ask → Scored → String → Float → Float → RoutingDecision
  leave_or_stay ask top active confidence margin =
      if not (ltb_float margin ask.switch_margin_threshold)
      then decision "SWITCH_WORKFLOW" (some top.workflow_id) top.tags confidence margin
          ("SWITCH_MARGIN_MET" ∷ "HIGH_CONFIDENCE_MATCH" ∷ []) none []
      else decision "RESUME_CURRENT" (some active) top.tags confidence margin ("STAY_IN_FLOW" ∷ [])
          none []

  -- Where no run is active, or the active one is not sure enough to go on.
  abbrev pub ask_or_start : Ask → Scored → List Scored → Float → Float → RoutingDecision
  ask_or_start ask top rest confidence margin =
      if ltb_float confidence ask.confidence_threshold
      then decision "DISAMBIGUATE" none top.tags confidence margin ("LOW_CONFIDENCE" ∷ [])
          (some "Уточните, что именно хотите сделать?") (options_of (top ∷ rest))
      else decision "START_WORKFLOW" (some top.workflow_id) top.tags confidence margin
          ("HIGH_CONFIDENCE_MATCH" ∷ []) none []

  abbrev pub beside_active :
      Ask → Scored → List Scored → Float → Float → Option String → RoutingDecision
  beside_active ask top rest confidence margin none = ask_or_start ask top rest confidence margin
  beside_active ask top rest confidence margin (some active) =
      if top.workflow_id == active
      then if ltb_float confidence ask.confidence_threshold
        then ask_or_start ask top rest confidence margin
        else decision "RESUME_CURRENT" (some active) top.tags confidence margin
            ("STAY_IN_FLOW" ∷ "HIGH_CONFIDENCE_MATCH" ∷ []) none []
      else if top.workflow_id == ""
      then ask_or_start ask top rest confidence margin
      else leave_or_stay ask top active confidence margin

  -- The best candidate decides.
  unfoldable pub decide_ranked : Ask → List Scored → RoutingDecision
  decide_ranked ask [] =
      decision "FALLBACK" none [] zero_float zero_float ("NO_CANDIDATES" ∷ []) none []
  decide_ranked ask (top ∷ rest) =
      if ltb_float zero_float top.score
      then beside_active ask top rest (sureness (arithmetic.confidence_of top.score))
          (at_least_zero (arithmetic.subtract top.score (second_score rest)))
          (given ask.active_workflow_id)
      else decision "DISAMBIGUATE" none [] unsure zero_float ("LOW_CONFIDENCE" ∷ "AMBIGUOUS" ∷ [])
          (some "Уточните, какой процесс вы хотите запустить?") (options_of (top ∷ rest))

  unfoldable pub route_heuristic : String → List Candidate → Ask → RoutingDecision
  route_heuristic message_text candidates ask =
      let text = texts.lower (strip message_text) in
      if any_token ("стоп" ∷ "отмена" ∷ "отмени" ∷ "cancel" ∷ "stop" ∷ []) text
      then decision "CANCEL" ask.active_workflow_id ("stop" ∷ []) almost_one (of_int (pos 1))
          ("STOP_INTENT" ∷ []) none []
      else if any_token ("оператор" ∷ "человек" ∷ "human" ∷ "agent" ∷ []) text
      then decision "OPERATOR" none ("operator" ∷ []) almost_one (of_int (pos 1))
          ("OPERATOR_REQUEST" ∷ []) none []
      else decide_ranked ask (ranked text candidates)
