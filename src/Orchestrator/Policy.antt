-- ===== src/Orchestrator/Policy.antt =====
-- `RoutingPolicy` of orchestrator_runtime/runtime.py, the conversions that it is read by, and the
-- tests of a switch. Floats are finite; `float` of a text or of an integer and `int` of a text are
-- parameters. A timespan is compared as the exact number of its microseconds.
pub mod Laws
use Prim.Native.Nat.{◌/◌}
use workcore.Prelude.{
  ℕ, zero, suc, ◌+◌, ◌-◌, ◌*◌, ◌^◌, String, Bool, true, false, not, ◌&&◌, ◌||◌, Option, none, some,
  List, [], ◌∷◌, ltb, leb, ◌=ℕ◌, ◌==◌, ◌<>◌, if◌then◌else◌,
}
use workcore.Prelude.Int.{ℤ, pos, negsuc, pos_part, Float, of_int, ltb_float}
use workcore.Text.{strip, includes}
use workcore.Value.{Value, boolean, int, float, str, Fields}
use workcore.Value.Object
use workcore.Runtime.AgentMode.{coerce_bool}
use workcore.Orchestrator.Records.{OrchestrationDecisionRecord}

-- Python's conversions of numbers.
pub record Numbers : Type 0 where
  pub float_of_text : String → Option Float
  pub float_of_int : ℤ → Option Float
  pub int_of_text : String → Option ℤ

pub record RoutingPolicy : Type 0 where
  pub confidence_threshold : Float
  pub switch_margin : Float
  pub max_disambiguation_turns : ℕ
  pub top_k_candidates : ℕ
  pub sticky : Bool
  pub allow_switch : Bool
  pub explicit_switch_only : Bool
  pub cooldown_seconds : ℕ
  pub hysteresis_margin : Float

abbrev pub float_or : Option Float → Float → Float
float_or none default = default
float_or (some x) default = x

abbrev pub int_or : Option ℤ → ℤ → ℤ
int_or none default = default
int_or (some n) default = n

abbrev pub bool_or : Option Bool → Bool → Bool
bool_or none default = default
bool_or (some b) default = b

abbrev pub one_if : Bool → ℤ
one_if b = pos (if b then 1 else 0)

-- `int(x)` of a float drops its fraction
unfoldable pub truncate : Float → ℤ
truncate x = elim x.num [
  | pos n ↦ pos (n / 2 ^ x.scale)
  | negsuc n ↦ elim (suc n / 2 ^ x.scale) [ zero ↦ pos 0 | suc m ↦ negsuc m ]
]

-- `max(0.0, min(x, 1.0))`
unfoldable pub unit_interval : Float → Float
unit_interval x =
    let low = if ltb_float (of_int (pos 1)) x then of_int (pos 1) else x in
    if ltb_float (of_int (pos 0)) low then low else of_int (pos 0)

-- 0.6 and 0.2 as the nearest binary floats
abbrev pub six_tenths : Float
six_tenths = record { num = pos 5404319552844595; scale = 53 }

abbrev pub two_tenths : Float
two_tenths = record { num = pos 3602879701896397; scale = 54 }

module _ (numbers : Numbers) where
  -- `_safe_float`, where no value is `None`
  abbrev pub safe_float : Option Value → Float → Float
  safe_float (some (boolean b)) default = of_int (one_if b)
  safe_float (some (int n)) default = float_or (numbers.float_of_int n) default
  safe_float (some (float x)) default = x
  safe_float (some (str s)) default = float_or (numbers.float_of_text s) default
  safe_float _ default = default

  -- `_safe_int`
  abbrev pub safe_int : Option Value → ℤ → ℤ
  safe_int (some (boolean b)) default = one_if b
  safe_int (some (int n)) default = n
  safe_int (some (float x)) default = truncate x
  safe_int (some (str s)) default = int_or (numbers.int_of_text s) default
  safe_int _ default = default

  -- `_safe_bool`
  abbrev pub safe_bool : Option Value → Bool → Bool
  safe_bool v default = bool_or (coerce_bool v) default

  -- `max(1, min(100, n))`
  abbrev pub one_to_hundred : ℤ → ℕ
  one_to_hundred n =
      let low = if ltb (pos_part n) 100 then pos_part n else 100 in if ltb 1 low then low else 1

  -- `RoutingPolicy.from_dict`
  unfoldable pub from_dict : Fields → RoutingPolicy
  from_dict value = record {
    confidence_threshold =
        unit_interval (safe_float (Object.get "confidence_threshold" value) six_tenths);
    switch_margin = unit_interval (safe_float (Object.get "switch_margin" value) two_tenths);
    max_disambiguation_turns =
        pos_part (safe_int (Object.get "max_disambiguation_turns" value) (pos 2));
    top_k_candidates = one_to_hundred (safe_int (Object.get "top_k_candidates" value) (pos 20));
    sticky = safe_bool (Object.get "sticky" value) false;
    allow_switch = safe_bool (Object.get "allow_switch" value) true;
    explicit_switch_only = safe_bool (Object.get "explicit_switch_only" value) false;
    cooldown_seconds = pos_part (safe_int (Object.get "cooldown_seconds" value) (pos 0));
    hysteresis_margin =
        unit_interval (safe_float (Object.get "hysteresis_margin" value) (of_int (pos 0)));
  }

-- The latest switch among decisions, the latest one first.
unfoldable pub latest_switch : List OrchestrationDecisionRecord → Option OrchestrationDecisionRecord
latest_switch [] = none
latest_switch (d ∷ ds) =
    let rest = latest_switch ds in if d.chosen_action == "SWITCH_WORKFLOW" then some d else rest

abbrev pub microseconds : ℕ → ℕ
microseconds seconds = seconds * 1000000

-- `elapsed_seconds < policy.cooldown_seconds` for the latest switch
abbrev pub is_cooling : ℕ → ℕ → Option OrchestrationDecisionRecord → Bool
is_cooling now cooldown none = false
is_cooling now cooldown (some d) = ltb 0 cooldown && ltb now (d.created_at + microseconds cooldown)

-- `_switch_policy_error_code`
unfoldable pub switch_policy_error_code :
    ℕ → RoutingPolicy → List OrchestrationDecisionRecord → Bool → Option String
switch_policy_error_code now policy recent_decisions explicit_switch_requested =
    if not policy.allow_switch
    then some "ERR_SWITCH_DISABLED"
    else if is_cooling now policy.cooldown_seconds (latest_switch recent_decisions)
    then some "ERR_SWITCH_COOLDOWN_ACTIVE"
    else if policy.explicit_switch_only && not explicit_switch_requested
    then some "ERR_SWITCH_EXPLICIT_REQUIRED"
    else if policy.sticky && not explicit_switch_requested
    then some "ERR_STICKY_POLICY_ACTIVE"
    else none

-- Whole seconds that hold so many microseconds, if any are left.
unfoldable pub ceil_seconds : ℕ → Option ℕ
ceil_seconds remaining = if remaining =ℕ 0 then none else some ((remaining + 999999) / 1000000)

abbrev pub remaining_after : ℕ → ℕ → Option OrchestrationDecisionRecord → Option ℕ
remaining_after now cooldown none = none
remaining_after now cooldown (some d) = ceil_seconds (microseconds cooldown - (now - d.created_at))

-- `_switch_retry_after_seconds`
unfoldable pub switch_retry_after_seconds :
    ℕ → String → RoutingPolicy → List OrchestrationDecisionRecord → Option ℕ
switch_retry_after_seconds now error_code policy recent_decisions =
    if not (error_code == "ERR_SWITCH_COOLDOWN_ACTIVE") || policy.cooldown_seconds =ℕ 0
    then none
    else remaining_after now policy.cooldown_seconds (latest_switch recent_decisions)

-- `any(token in text for token in tokens)`
abbrev pub any_token : List String → String → Bool
any_token [] text = false
any_token (t ∷ ts) text = includes t text || any_token ts text

-- `_is_explicit_switch_request`
unfoldable pub is_explicit_switch_request : (String → String) → String → Bool
is_explicit_switch_request lower message_text =
    let text = lower (strip message_text) in
    if text == ""
    then false
    else any_token
        ("переключ" ∷ "смени" ∷ "смени " ∷ "другой процесс" ∷ "другой workflow" ∷ "switch"
          ∷ "change workflow" ∷ "use another flow" ∷ [])
        text
