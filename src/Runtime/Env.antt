-- ===== src/Runtime/Env.antt =====
-- What the engine is given from outside, and the shape of its handlers: they mutate a run and may
-- raise, so that what was written before an exception stays written.
use workcore.Prelude.{ℕ, suc, String, Option, none, some, List, ◌++◌, map}
use workcore.Prelude.Int.{ℤ, Float}
use workcore.Dict.{Dict}
use workcore.Value.{Value, Fields}
use workcore.Runtime.Models.{Node, Run, Event}

-- A value, or an exception with its text.
pub data Result {ℓ} (A : Type ℓ) : Type ℓ where
  ok : A → Result A
  raise : String → Result A

-- `ExpressionContext` of runtime/evaluator.py
pub record Context : Type 0 where
  pub inputs : Fields
  pub state : Fields
  pub node_outputs : Dict Value

-- `ExecutorResult` of executors/types.py
pub record ExecutorResult : Type 0 where
  pub output : Value
  pub trace_id : Option String
  pub usage : Option Value

-- What one call of an executor does: the events that it emits, and its result or exception. The
-- executors of the source read the run's id and the node's configuration and write neither.
pub record Called : Type 0 where
  pub emitted : List (String × Option Fields)
  pub result : Result ExecutorResult

abbrev pub Executor : Type 0
Executor = Run → Node → ℕ → Called

-- The evaluator and the executors that the engine is built with, and what it takes from the
-- standard library that no code here decides: the digits of a UUID, the clock, `float(s)`,
-- `int(s)` and the texts that `str` and `json.dumps` give. A number says which observation it is.
pub record Env : Type 0 where
  pub eval : Value → Context → Result Value
  pub executor : String → Option Executor
  pub hex : ℕ → String
  pub elapsed : ℕ → Float
  pub parse_float : String → Option Float
  pub parse_int : String → Option ℤ
  pub text_of : Value → String
  pub two_decimals : Float → String

-- The run, the number of outside observations so far, and the events that a handler has emitted.
pub record State : Type 0 where
  pub run : Run
  pub tick : ℕ
  pub emitted : List Event

abbrev pub M {ℓ} : Type ℓ → Type ℓ
M A = State → Result A × State

abbrev pub continue {ℓ κ} :
    {A : Type ℓ} {B : Type κ} → Result A → (A → State → Result B × State) → State → Result B × State
continue (ok a) f s = f a s
continue (raise e) f s = (raise e, s)

unfoldable pub pure {ℓ} : {A : Type ℓ} → A → State → Result A × State
pure a s = (ok a, s)

unfoldable pub fail {ℓ} : {A : Type ℓ} → String → State → Result A × State
fail e s = (raise e, s)

unfoldable pub lift {ℓ} : {A : Type ℓ} → Result A → State → Result A × State
lift r s = (r, s)

-- `None` where a value is needed raises
unfoldable pub require {ℓ} : {A : Type ℓ} → Option A → String → State → Result A × State
require none e s = (raise e, s)
require (some a) e s = (ok a, s)

unfoldable pub get_run : M Run
get_run s = (ok s.run, s)

abbrev pub set_run : State → Run → State
set_run s r = record { run = r; tick = s.tick; emitted = s.emitted }

unfoldable pub modify : (Run → Run) → M (Unit {0})
modify f s = (ok tt, set_run s (f s.run))

-- The number of the next observation.
unfoldable pub observe : M ℕ
observe s = (ok s.tick, record { run = s.run; tick = suc s.tick; emitted = s.emitted })

-- `_event`
unfoldable pub event : String → Run → Option String → Option Fields → Event
event kind run node_id payload = record {
  kind = kind;
  run_id = run.id;
  workflow_id = run.workflow_id;
  version_id = run.version_id;
  node_id = node_id;
  payload = payload;
  metadata = run.metadata;
}

-- `emit` of `_execute_node`, for the events that one call of an executor emits
unfoldable pub emit_all : String → List (String × Option Fields) → M (Unit {0})
emit_all node_id events s = (
  ok tt,
  record {
    run = s.run;
    tick = s.tick;
    emitted = s.emitted ++ map (λ (kind, payload). event kind s.run (some node_id) payload) events;
  },
)

infixl 5 ◌>>=◌ ◌>>◌
-- opening this opens the actions above too
unfoldable pub ◌>>=◌ {ℓ κ} :
    {A : Type ℓ} {B : Type κ}
    → (State → Result A × State)
    → (A → State → Result B × State)
    → State
    → Result B × State
unfolding pure fail lift require get_run modify observe emit_all
◌>>=◌ m f s = continue (m s).0 f (m s).1

abbrev pub ◌>>◌ {ℓ} :
    {B : Type ℓ}
    → (State → Result (Unit {0}) × State)
    → (State → Result B × State)
    → State
    → Result B × State
m >> k = m >>= λ _. k
