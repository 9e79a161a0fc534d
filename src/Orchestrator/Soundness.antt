-- ===== src/Orchestrator/Soundness.antt =====
-- The invariant of the store holds after any message, answered or not.
use workcore.Prelude.{ℕ, String, ◌≡◌, refl, Option, none, some, List, [], ◌∷◌}
use workcore.Table.{find}
use workcore.Value.{Fields}
use workcore.Router.{RoutingRequest, Routed, direct, orchestrated, refused}
use workcore.Orchestrator.Records.{
  ProjectRecord, SessionStateRecord, OrchestratorConfigRecord, WorkflowDefinitionRecord,
  OrchestrationDecisionRecord,
}
use workcore.Orchestrator.Store.{OrchestrationStore}
use workcore.Orchestrator.Store.Sessions.{session_key, save_decision}
use workcore.Orchestrator.Store.Invariants.{Sound, insert-StoredBy}
use workcore.Orchestrator.Candidates.{Candidate}
use workcore.Orchestrator.World.{
  WorkflowEngineStateSnapshot, WorkflowEngineResult, Routing, decided, failed, RouteQuery, Services,
  World, stored,
}
use workcore.Orchestrator.World.Invariant.{Preserves, Preserves-stored, preserve_rules}
use workcore.Orchestrator.Handler.{load_session, session_or}
use workcore.Orchestrator.Turn.{Turn, Setting, with_run}
use workcore.Orchestrator.Turn.Soundness.{save-Preserves, push_run-Preserves, act-Preserves}
use workcore.Orchestrator.Orchestrated.{
  forget_run, forget_stored, known, look_for, load_active, or_unavailable, decide, finish,
  decide_and_act, handle_orchestrated,
}
use workcore.Orchestrator.Direct.{look_up, direct_run, finish_direct, handle_direct, handle_message}

forgotten-Sound_of :
    (state : SessionStateRecord) (s : OrchestrationStore) (o : Option SessionStateRecord)
    → find (session_key state) s.session_states ≡ o
    → Sound s
    → Sound (forget_stored state s o)
forgotten-Sound_of state s none e sound = sound
forgotten-Sound_of state s (some old) e sound = record {
  sessions =
      insert-StoredBy session_key (session_key state) (with_run none old) s.session_states
        sound.sessions (sound.sessions (session_key state) old e);
  definitions = sound.definitions;
  stacks = sound.stacks;
}

forgotten-Sound :
    (state : SessionStateRecord) (s : OrchestrationStore) → Sound s → Sound (forget_run state s).1
unfolding forget_run
forgotten-Sound state s sound =
    forgotten-Sound_of state s (find (session_key state) s.session_states) refl sound

module _ {E : Type 0} where
  forget-Preserves :
      (state : SessionStateRecord) → Preserves {E = E} Sound (stored (forget_run state))
  forget-Preserves state = Preserves-stored Sound (forget_run state) (forgotten-Sound state)

  log-Preserves :
      (d : OrchestrationDecisionRecord)
      → Preserves {E = E} Sound (stored {A = Unit {0}} (λ s. (tt, save_decision d s)))
  unfolding save_decision
  log-Preserves d = Preserves-stored Sound _ (λ s sound. record {
    sessions = sound.sessions;
    definitions = sound.definitions;
    stacks = sound.stacks;
  })

ruleset steps = (preserve_rules, save-Preserves, log-Preserves, forget-Preserves)

module _ {E : Type 0} (services : Services E) where
  session_or-Preserves :
      (request : RoutingRequest) (tenant_id : String) (o : Option String)
      (found : Option SessionStateRecord)
      → Preserves Sound (session_or services request tenant_id o found)
  session_or-Preserves request tenant_id o (some state) = search steps
  session_or-Preserves request tenant_id o none = search steps depth 12

  load_session-Preserves :
      (request : RoutingRequest) (tenant_id : String) (o : Option String)
      → Preserves Sound (load_session services request tenant_id o)
  unfolding load_session
  load_session-Preserves request tenant_id o = search (steps, session_or-Preserves)

  or_unavailable-Preserves : (r : Routing) → Preserves Sound (or_unavailable services r)
  or_unavailable-Preserves (decided d) = search steps
  or_unavailable-Preserves (failed code message) = search steps

  decide-Preserves :
      (candidates : List Candidate) (query : RouteQuery)
      → Preserves Sound (decide services candidates query)
  unfolding decide
  decide-Preserves [] query = search steps
  decide-Preserves (c ∷ cs) query = search (steps, or_unavailable-Preserves)

  known-Preserves :
      (state : SessionStateRecord) (found : Option WorkflowEngineStateSnapshot)
      → Preserves Sound (known services state found)
  known-Preserves state (some a) = search steps
  known-Preserves state none = search steps

  look_for-Preserves :
      (tenant_id : String) (state : SessionStateRecord) (o : Option String)
      → Preserves Sound (look_for services tenant_id state o)
  look_for-Preserves tenant_id state none = search steps
  look_for-Preserves tenant_id state (some id) = search (steps, known-Preserves)

  load_active-Preserves :
      (tenant_id : String) (state : SessionStateRecord)
      → Preserves Sound (load_active services tenant_id state)
  unfolding load_active
  load_active-Preserves tenant_id state = look_for-Preserves tenant_id state _

  finish-Preserves :
      (g : Setting) (active : Option WorkflowEngineStateSnapshot) (before : Option String)
      (latency : ℕ) (turn : Turn)
      → Preserves Sound (finish services g active before latency turn)
  unfolding finish
  finish-Preserves g active before latency turn = search steps depth 20

  decide_and_act-Preserves :
      (request : RoutingRequest) (orchestrator : OrchestratorConfigRecord) (tenant_id : String)
      (metadata : Fields) (loaded : SessionStateRecord)
      (found : Option WorkflowEngineStateSnapshot × SessionStateRecord)
      → Preserves Sound
          (decide_and_act services request orchestrator tenant_id metadata loaded found)
  unfolding decide_and_act
  decide_and_act-Preserves request orchestrator tenant_id metadata loaded (active, state) =
      search (steps, decide-Preserves, act-Preserves, finish-Preserves) depth 20

  handle_orchestrated-Preserves :
      (request : RoutingRequest) (project : ProjectRecord) (orchestrator : OrchestratorConfigRecord)
      (tenant_id : String) (metadata : Fields)
      → Preserves Sound
          (handle_orchestrated services request project orchestrator tenant_id metadata)
  unfolding handle_orchestrated
  handle_orchestrated-Preserves request project orchestrator tenant_id metadata =
      search (steps, load_session-Preserves, load_active-Preserves, decide_and_act-Preserves) depth
        20

  look_up-Preserves :
      (tenant_id : String) (o : Option String) → Preserves Sound (look_up services tenant_id o)
  look_up-Preserves tenant_id none = search steps
  look_up-Preserves tenant_id (some id) = search steps

  direct_run-Preserves :
      (request : RoutingRequest) (tenant_id : String) (d : WorkflowDefinitionRecord)
      (metadata : Fields) (state : SessionStateRecord) (active : Option WorkflowEngineStateSnapshot)
      → Preserves Sound (direct_run services request tenant_id d metadata state active)
  unfolding direct_run
  direct_run-Preserves request tenant_id d metadata state active =
      search (steps, push_run-Preserves) depth 12

  finish_direct-Preserves :
      (request : RoutingRequest) (tenant_id : String) (d : WorkflowDefinitionRecord)
      (state : SessionStateRecord) (active : Option WorkflowEngineStateSnapshot)
      (ran : String × WorkflowEngineResult)
      → Preserves Sound (finish_direct services request tenant_id d state active ran)
  unfolding finish_direct
  finish_direct-Preserves request tenant_id d state active (action, result) = search steps depth 20

  handle_direct-Preserves :
      (request : RoutingRequest) (tenant_id : String) (d : WorkflowDefinitionRecord)
      (metadata : Fields)
      → Preserves Sound (handle_direct services request d tenant_id metadata)
  unfolding handle_direct
  handle_direct-Preserves request tenant_id d metadata =
      search
        (
          steps, load_session-Preserves, look_up-Preserves, direct_run-Preserves,
          finish_direct-Preserves,
        )
        depth 20

  message-Preserves :
      (request : RoutingRequest) (route : Routed) (tenant_id : String) (metadata : Fields)
      → Preserves Sound (handle_message services request route tenant_id metadata)
  unfolding handle_message
  message-Preserves request (direct p d) tenant_id metadata =
      handle_direct-Preserves request tenant_id d metadata
  message-Preserves request (orchestrated p c) tenant_id metadata =
      handle_orchestrated-Preserves request p c tenant_id metadata
  message-Preserves request (refused code) tenant_id metadata = search steps

  -- A message keeps the invariant of the store, whether it is answered or raises, and whatever the
  -- engine and the model's router do: sessions and workflow definitions are stored under the keys
  -- that they name, and each stack counts its entries from 0.
  pub handle_message-Sound :
      (request : RoutingRequest) (route : Routed) (tenant_id : String) (metadata : Fields)
      (w : World E)
      → Sound w.store
      → Sound (handle_message services request route tenant_id metadata w).1.store
  handle_message-Sound request route tenant_id metadata w sound =
      (message-Preserves request route tenant_id metadata).at w sound
