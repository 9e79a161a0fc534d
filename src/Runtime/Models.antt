-- ===== src/Runtime/Models.antt =====
-- runtime/models.py: workflows, runs and events. The statuses, which the source keeps as texts of
-- a fixed set, are enumerations.
use workcore.Prelude.{ℕ, String, Bool, Option, List}
use workcore.Dict.{Dict}
use workcore.Value.{Value, Fields}

pub data RunStatus : Type 0 where
  running waiting completed failed cancelled : RunStatus

pub data NodeStatus : Type 0 where
  to_do in_progress resolved error : NodeStatus

pub data InterruptStatus : Type 0 where
  opened settled withdrawn : InterruptStatus

pub record Edge : Type 0 where
  pub source : String
  pub target : String

pub record Node : Type 0 where
  pub id : String
  pub kind : String
  pub config : Fields

pub record Workflow : Type 0 where
  pub id : String
  pub version_id : String
  pub nodes : Dict Node
  pub edges : List Edge

pub record NodeRun : Type 0 where
  pub node_id : String
  pub status : NodeStatus
  pub attempt : ℕ
  pub output : Option Value
  pub last_error : Option String
  pub trace_id : Option String
  pub usage : Option Value

pub record Interrupt : Type 0 where
  pub id : String
  pub run_id : String
  pub node_id : String
  pub kind : Value
  pub status : InterruptStatus
  pub prompt : Value
  pub input_schema : Option Value
  pub allow_file_upload : Bool
  pub input : Option Fields
  pub files : Option (List Value)
  pub state_target : Option String

pub record Run : Type 0 where
  pub id : String
  pub workflow_id : String
  pub version_id : String
  pub status : RunStatus
  pub inputs : Fields
  pub state : Fields
  pub mode : String
  pub outputs : Option Value
  pub node_runs : Dict NodeRun
  pub node_outputs : Dict Value
  pub interrupts : Dict Interrupt
  pub branch_selection : Dict String
  pub loop_state : Dict ℕ
  pub skipped_nodes : List String
  pub metadata : Fields

pub record Event : Type 0 where
  pub kind : String
  pub run_id : String
  pub workflow_id : String
  pub version_id : String
  pub node_id : Option String
  pub payload : Option Fields
  pub metadata : Fields

-- Tests on the statuses.
abbrev pub is_running : RunStatus → Bool
is_running running = Bool.true
is_running _ = Bool.false

abbrev pub is_waiting : RunStatus → Bool
is_waiting waiting = Bool.true
is_waiting _ = Bool.false

abbrev pub is_completed : RunStatus → Bool
is_completed completed = Bool.true
is_completed _ = Bool.false

abbrev pub is_failed : RunStatus → Bool
is_failed failed = Bool.true
is_failed _ = Bool.false

abbrev pub is_resolved : NodeStatus → Bool
is_resolved resolved = Bool.true
is_resolved _ = Bool.false

-- `status in (RESOLVED, ERROR)`
abbrev pub is_settled : NodeStatus → Bool
is_settled resolved = Bool.true
is_settled error = Bool.true
is_settled _ = Bool.false

-- `status in (IN_PROGRESS, RESOLVED, ERROR)`
abbrev pub is_taken : NodeStatus → Bool
is_taken to_do = Bool.false
is_taken _ = Bool.true

abbrev pub is_open : InterruptStatus → Bool
is_open opened = Bool.true
is_open _ = Bool.false
