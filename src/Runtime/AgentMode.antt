-- ===== src/Runtime/AgentMode.antt =====
-- `_resolve_agent_executor` and what it reads: the mode of a run and its metadata
use workcore.Prelude.{String, Bool, true, false, Option, none, some, [], ◌∷◌, if◌then◌else◌}
use workcore.Prelude.Int.{pos, negsuc, Float}
use workcore.Prelude.{◌=ℕ◌, ◌^◌}
use workcore.Text.{strip, lower_is, lower_in}
use workcore.Value.{Value, boolean, int, float, str, Fields}
use workcore.Value.Object
use workcore.Runtime.Models.{Run}
use workcore.Runtime.Env.{Result, ok, raise, Env, Executor}

pub data AgentMode : Type 0 where
  live mock : AgentMode

is_one : Float → Bool
is_one x = elim x.num [ pos n ↦ n =ℕ 2 ^ x.scale | negsuc n ↦ false ]

is_zero : Float → Bool
is_zero x = elim x.num [ pos n ↦ n =ℕ 0 | negsuc n ↦ false ]

number_bool : Float → Option Bool
unfolding is_one is_zero
number_bool x = if is_one x then some true else if is_zero x then some false else none

word_bool : String → Option Bool
word_bool s =
    if lower_in s ("1" ∷ "true" ∷ "yes" ∷ "on" ∷ [])
    then some true
    else if lower_in s ("0" ∷ "false" ∷ "no" ∷ "off" ∷ [])
    then some false
    else none

-- `_coerce_bool`
unfoldable pub coerce_bool : Option Value → Option Bool
unfolding number_bool word_bool
coerce_bool (some (boolean b)) = some b
coerce_bool (some (int n)) = number_bool (record { num = n; scale = 0 })
coerce_bool (some (float x)) = number_bool x
coerce_bool (some (str s)) = word_bool (strip s)
coerce_bool _ = none

mode_word : Option Value → Option AgentMode
mode_word (some (str s)) =
    let t = strip s in
    if lower_is t "live" then some live else if lower_is t "mock" then some mock else none
mode_word _ = none

flag_mode : Option Bool → AgentMode → AgentMode → Option AgentMode → Option AgentMode
flag_mode none yes_mode no_mode other = other
flag_mode (some true) yes_mode no_mode other = some yes_mode
flag_mode (some false) yes_mode no_mode other = some no_mode

abbrev or_mode : Option AgentMode → Option AgentMode → Option AgentMode
or_mode none other = other
or_mode (some m) other = some m

-- `_explicit_agent_mode_from_metadata`: the mode by name, then `agent_mock`, then `llm_enabled`
unfoldable pub explicit_mode : Fields → Option AgentMode
unfolding mode_word flag_mode
explicit_mode metadata = or_mode (mode_word (Object.get "agent_executor_mode" metadata)) (
    flag_mode (coerce_bool (Object.get "agent_mock" metadata)) mock live
      (flag_mode (coerce_bool (Object.get "llm_enabled" metadata)) live mock none))

run_mode : String → Option AgentMode
run_mode mode =
    let t = strip mode in
    if lower_is t "live" then some live else if lower_is t "test" then some mock else none

-- `_preferred_agent_mode`
unfoldable pub preferred_mode : Run → Option AgentMode
unfolding run_mode
preferred_mode r = or_mode (explicit_mode r.metadata) (run_mode r.mode)

abbrev first_executor : Option Executor → Option Executor → String → Result Executor
first_executor (some x) other e = ok x
first_executor none (some y) e = ok y
first_executor none none e = raise e

-- With an explicit live mode only the live executor serves.
abbrev live_executor : Option AgentMode → Option Executor → Option Executor → Result Executor
live_executor (some live) live_one default_one =
    first_executor live_one none "Live agent executor not configured"
live_executor _ live_one default_one =
    first_executor live_one default_one "Live agent executor not configured"

unfoldable pub resolve_executor : Env → Run → Result Executor
resolve_executor env r = elim (preferred_mode r) [
  | some live ↦
      live_executor (explicit_mode r.metadata) (env.executor "agent_live") (env.executor "agent")
  | some mock ↦
      first_executor (env.executor "agent_mock") (env.executor "agent")
        "Mock agent executor not configured"
  | none ↦
      first_executor (env.executor "agent") (env.executor "agent_live")
        "Agent executor not configured"
]
