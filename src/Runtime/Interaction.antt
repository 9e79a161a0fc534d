-- ===== src/Runtime/Interaction.antt =====
-- `_handle_interaction` and `_handle_approval`
use workcore.Prelude.{String, Bool, false, Option, none, some, ◌==◌, ◌<>◌, if◌then◌else◌}
use workcore.Dict.{put}
use workcore.Value.{Value, str, truthy}
use workcore.Value.Object
use workcore.Runtime.Models.{Node, Run, Interrupt, waiting, opened}
use workcore.Runtime.Env.{
  Result, ok, raise, Env, Context, M, ◌>>=◌, lift, get_run, modify, observe, pure,
}
use workcore.Runtime.Config.{config, text}
use workcore.Runtime.Template.{render_template}
use workcore.Runtime.Writes.{context}

abbrev pub or_value : Option Value → Value → Value
or_value none v = v
or_value (some w) v = w

-- `if isinstance(prompt, str) and prompt: prompt = self._render_template(…)`
unfoldable pub rendered : Env → Context → Value → Result Value
rendered env ctx (str s) =
    if s == ""
    then ok (str s)
    else elim (render_template env ctx s) [ raise e ↦ raise e | ok t ↦ ok (str t) ]
rendered env ctx v = ok v

abbrev pub flag : Option Value → Bool
flag none = false
flag (some v) = truthy v

module _ (env : Env) where
  -- `_new_id(prefix)`
  unfoldable pub new_id : String → M String
  new_id prefix = do at ← observe; pure (prefix <> "_" <> env.hex at)

  unfoldable pub new_interrupt : String → Node → Value → Run → Interrupt
  new_interrupt id n prompt run = record {
    id = id;
    run_id = run.id;
    node_id = n.id;
    kind = or_value (config n "type") (str "interaction");
    status = opened;
    prompt = prompt;
    input_schema = config n "input_schema";
    allow_file_upload = flag (config n "allow_file_upload");
    input = none;
    files = none;
    state_target = text n "state_target";
  }

  -- The interrupt is entered in the run, which waits.
  unfoldable pub suspend : Interrupt → Run → Run
  suspend i r = record r { interrupts = put i.id i r.interrupts; status = waiting }

  unfoldable pub handle_interaction : Node → M (Unit {0})
  handle_interaction n = do
    run ← get_run
    prompt ← lift (rendered env (context run) (or_value (config n "prompt") (str "")))
    id ← new_id "intr"
    modify (suspend (new_interrupt id n prompt run))

  -- `config.setdefault("type", "approval")`
  unfoldable pub as_approval : Node → Node
  as_approval n = record n {
    config = Object.put "type" (or_value (config n "type") (str "approval")) n.config;
  }

  unfoldable pub handle_approval : Node → M (Unit {0})
  handle_approval n = handle_interaction (as_approval n)
