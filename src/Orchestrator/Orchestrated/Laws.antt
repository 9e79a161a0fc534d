-- ===== src/Orchestrator/Orchestrated/Laws.antt =====
-- A message is answered exactly if its decision is logged, and the answer says what the log and the
-- session say.
use workcore.Prelude.{
  ℕ, suc, ◌<>◌, String, ◌≡◌, refl, ◌∙◌, subst, inl, inr, Option, none, some, List, [], ◌∷◌, ◌++◌,
  arith, Bool-cases, Option-cases,
}
use workcore.Table.{Table, find, insert}
use workcore.Table.Laws.{find-insert_self}
use workcore.Value.{Fields}
use workcore.Value.Object
use workcore.Router.{RoutingRequest}
use workcore.Orchestrator.Records.{
  ProjectRecord, SessionStateRecord, OrchestratorConfigRecord, OrchestrationDecisionRecord,
}
use workcore.Orchestrator.Store.{OrchestrationStore, list_or}
use workcore.Orchestrator.Store.Sessions.{
  save_session_state, save_decision, get_session_state, session_key,
}
use workcore.Orchestrator.Candidates.{Candidate}
use workcore.Orchestrator.World.{
  WorkflowEngineStateSnapshot, Outcome, ok, raise, Routing, decided, failed, RouteQuery, Services,
  World, ◌>>=◌, stored, reads, observe, fail,
}
use workcore.Orchestrator.World.Rules.{Keeps, Keeps-stored, keep_rules}
use workcore.Orchestrator.Handler.{Response, load_session, session_or}
use workcore.Orchestrator.Turn.{Turn, Setting}
use workcore.Orchestrator.Turn.Safety.{Ends, act-Ends}
use workcore.Orchestrator.Turn.Decisions.{decisions, act-Keeps}
use workcore.Orchestrator.Orchestrated.{
  forget_run, known, look_for, load_active, decide, or_unavailable, decision_record, finish,
  closing, decide_and_act, handle_orchestrated, is_off,
}

-- The log of a session with one decision more, which is what the response says.
pub record Logged (key : List String) (before : Table (List OrchestrationDecisionRecord))
    (after : OrchestrationStore) (r : Response) : Type 0 where
  pub decision : OrchestrationDecisionRecord
  pub is_last : after.decisions ≡ insert key (list_or (find key before) ++ (decision ∷ [])) before
  pub same_id : decision.decision_id ≡ r.decision_id
  pub same_action : decision.chosen_action ≡ r.chosen_action
  pub same_workflow : decision.chosen_workflow_id ≡ r.chosen_workflow_id
  pub session : SessionStateRecord
  pub is_saved : find key after.session_states ≡ some session
  pub same_run : session.active_run_id ≡ r.active_run_id

abbrev pub log_key : RoutingRequest → String → List String
log_key request tenant_id = tenant_id ∷ request.project_id ∷ request.session_id ∷ []

module _ {E : Type 0} where
  -- The log against what an outcome leaves: one decision more, or as it was.
  abbrev pub Logs :
      List String → Table (List OrchestrationDecisionRecord) → Outcome Response × World E → Type 0
  Logs key before (ok r, w') = Logged key before w'.store r
  Logs key before (raise e, w') = w'.store.decisions ≡ before

pub saved-session :
    (at : ℕ) (state : SessionStateRecord) (s : OrchestrationStore)
    → find (session_key state) (save_session_state at state s).1.session_states
      ≡ some (save_session_state at state s).0
unfolding save_session_state
saved-session at state s = find-insert_self _ _ _

closing-key :
    (request : RoutingRequest) (orchestrator : OrchestratorConfigRecord)
    (active : Option WorkflowEngineStateSnapshot) (turn : Turn)
    → session_key (closing request orchestrator active turn) ≡ session_key turn.state
unfolding closing
closing-key request orchestrator active turn = ground arith

module _ {E : Type 0} (services : Services E) where
  abbrev saved_of :
      Setting → Option WorkflowEngineStateSnapshot → Turn → World E → SessionStateRecord
  saved_of g active turn w =
      (save_session_state (services.clock w.tick) (closing g.request g.orchestrator active turn)
        w.store).0

  abbrev decision_of :
      Setting
      → Option WorkflowEngineStateSnapshot
      → Option String
      → ℕ
      → Turn
      → World E
      → OrchestrationDecisionRecord
  decision_of g active before latency turn w =
      decision_record services g ("dec_" <> services.hex_ten (suc w.tick)) latency
        (services.clock (suc (suc w.tick))) before turn (saved_of g active turn w)

  finish-Logs :
      (g : Setting) (active : Option WorkflowEngineStateSnapshot) (before : Option String)
      (latency : ℕ) (turn : Turn) (w : World E)
      → session_key turn.state ≡ log_key g.request g.tenant_id
      → Logs
          (log_key g.request g.tenant_id)
          w.store.decisions
          (finish services g active before latency turn w)
  unfolding finish ◌>>=◌ save_decision save_session_state
  finish-Logs g active before latency turn w key = record {
    decision = decision_of g active before latency turn w;
    is_last = refl;
    same_id = refl;
    same_action = refl;
    same_workflow = refl;
    session = saved_of g active turn w;
    is_saved =
        subst
          (λ k.
            find k
              (save_session_state (services.clock w.tick)
                (closing g.request g.orchestrator active turn) w.store).1.session_states
            ≡ some
                (save_session_state (services.clock w.tick)
                  (closing g.request g.orchestrator active turn) w.store).0)
          (closing-key g.request g.orchestrator active turn ∙ key)
          (saved-session (services.clock w.tick) (closing g.request g.orchestrator active turn)
            w.store);
    same_run = refl;
  }

  forget-Keeps : (state : SessionStateRecord) → Keeps {E = E} decisions (stored (forget_run state))
  unfolding forget_run
  forget-Keeps state = Keeps-stored decisions (forget_run state) (λ s. ground arith)

  session_or-Keeps :
      (request : RoutingRequest) (tenant_id : String) (o : Option String)
      (found : Option SessionStateRecord)
      → Keeps decisions (session_or services request tenant_id o found)
  session_or-Keeps request tenant_id o (some state) = search keep_rules
  session_or-Keeps request tenant_id o none = search keep_rules depth 12

  pub load_session-Keeps :
      (request : RoutingRequest) (tenant_id : String) (o : Option String)
      → Keeps decisions (load_session services request tenant_id o)
  unfolding load_session
  load_session-Keeps request tenant_id o = search (keep_rules, session_or-Keeps)

  or_unavailable-Keeps : (r : Routing) → Keeps decisions (or_unavailable services r)
  or_unavailable-Keeps (decided d) = search keep_rules
  or_unavailable-Keeps (failed code message) = search keep_rules

  decide-Keeps :
      (candidates : List Candidate) (query : RouteQuery)
      → Keeps decisions (decide services candidates query)
  unfolding decide
  decide-Keeps [] query = search keep_rules
  decide-Keeps (c ∷ cs) query = search (keep_rules, or_unavailable-Keeps)

  known-Keeps :
      (state : SessionStateRecord) (found : Option WorkflowEngineStateSnapshot)
      → Keeps decisions (known services state found)
  known-Keeps state (some a) = search keep_rules
  known-Keeps state none = search (keep_rules, forget-Keeps)

  look_for-Keeps :
      (tenant_id : String) (state : SessionStateRecord) (o : Option String)
      → Keeps decisions (look_for services tenant_id state o)
  look_for-Keeps tenant_id state none = search keep_rules
  look_for-Keeps tenant_id state (some id) = search (keep_rules, known-Keeps)

  load_active-Keeps :
      (tenant_id : String) (state : SessionStateRecord)
      → Keeps decisions (load_active services tenant_id state)
  unfolding load_active
  load_active-Keeps tenant_id state = look_for-Keeps tenant_id state _

  -- What is returned, if something is, has the property.
  abbrev pub Holds : {A : Type 0} → (A → Type 0) → Outcome A → Type 0
  Holds P (ok a) = P a
  Holds P (raise e) = Unit

  -- The session is kept under the message's key.
  abbrev pub Keyed : RoutingRequest → String → SessionStateRecord → Type 0
  Keyed request tenant_id state = session_key state ≡ log_key request tenant_id

  module _ (request : RoutingRequest) (tenant_id : String) where
    session_or-Keyed :
        (o : Option String) (found : Option SessionStateRecord) (w : World E)
        → ((old : SessionStateRecord) → found ≡ some old → Keyed request tenant_id old)
        → Holds (Keyed request tenant_id) (session_or services request tenant_id o found w).0
    unfolding ◌>>=◌
    session_or-Keyed o none w keyed = refl
    session_or-Keyed o (some old) w keyed = keyed old refl

    look_for-Keyed :
        (state : SessionStateRecord) (o : Option String) (w : World E)
        → Keyed request tenant_id state
        → Holds (λ (_, st). Keyed request tenant_id st) (look_for services tenant_id state o w).0
    unfolding ◌>>=◌ forget_run
    look_for-Keyed state none w k = k
    look_for-Keyed state (some id) w k =
        elim (Option-cases (services.adapter.get_state id tenant_id w.engine)) [
          | inl e ↦ rw e k
          | inr (a, e) ↦ rw e k
        ]

    pub load_session-Keyed :
        (o : Option String) (w : World E)
        → ((old : SessionStateRecord)
            → get_session_state request.project_id request.session_id tenant_id w.store ≡ some old
            → Keyed request tenant_id old)
        → Holds (Keyed request tenant_id) (load_session services request tenant_id o w).0
    unfolding load_session ◌>>=◌
    load_session-Keyed o w keyed = session_or-Keyed o _ w keyed

    load_active-Keyed :
        (state : SessionStateRecord) (w : World E)
        → Keyed request tenant_id state
        → Holds (λ (_, st). Keyed request tenant_id st) (load_active services tenant_id state w).0
    unfolding load_active
    load_active-Keyed state w k = look_for-Keyed state _ w k

  -- The log against an action that goes on.
  Logs-after :
      {A : Type 0} (key : List String) (P : A → Type 0)
      (before : Table (List OrchestrationDecisionRecord)) (r : Outcome A × World E)
      (f : A → World E → Outcome Response × World E)
      → r.1.store.decisions ≡ before
      → Holds P r.0
      → ((a : A) (w' : World E) → P a → Logs key w'.store.decisions (f a w'))
      → Logs key before (workcore.Orchestrator.World.continue r f)
  Logs-after key P before (ok a, w') f e holds next =
      subst (λ t. Logs key t (f a w')) e (next a w' holds)
  Logs-after key P before (raise x, w') f e holds next = e

  pub Logs-next :
      {A : Type 0} (key : List String) (P : A → Type 0) (m : World E → Outcome A × World E)
      (f : A → World E → Outcome Response × World E) (w : World E)
      → Keeps decisions m
      → Holds P (m w).0
      → ((a : A) (w' : World E) → P a → Logs key w'.store.decisions (f a w'))
      → Logs key w.store.decisions ((m >>= f) w)
  unfolding ◌>>=◌
  Logs-next key P m f w km holds next =
      Logs-after key P w.store.decisions (m w) f (km.at w) holds next

  pub Holds-any : {A : Type 0} (o : Outcome A) → Holds (λ a. Unit) o
  Holds-any (ok a) = tt
  Holds-any (raise e) = tt

  ended-Keyed :
      (g : Setting) (active : Option WorkflowEngineStateSnapshot) (state : SessionStateRecord)
      (w : World E) (r : Outcome Turn × World E)
      → Ends services g active state w r
      → Keyed g.request g.tenant_id state
      → Holds (λ t. Keyed g.request g.tenant_id t.state) r.0
  ended-Keyed g active state w (ok t, w') ends k = ends.same_key ∙ k
  ended-Keyed g active state w (raise e, w') ends k = tt

  module _ (request : RoutingRequest) (orchestrator : OrchestratorConfigRecord) (tenant_id : String)
      (metadata : Fields) where
    decide_and_act-Logs :
        (loaded : SessionStateRecord) (active : Option WorkflowEngineStateSnapshot)
        (state : SessionStateRecord) (w : World E)
        → Keyed request tenant_id state
        → Logs (log_key request tenant_id) w.store.decisions (
            decide_and_act services request orchestrator tenant_id metadata loaded
              (active, state)
              w)
    unfolding decide_and_act reads observe
    decide_and_act-Logs loaded active state w k =
        Logs-next _ (λ a. Unit) _ _ w (search keep_rules) tt
          (λ candidates w1 _.
            Logs-next _ (λ a. Unit) _ _ w1 (search keep_rules) tt
              (λ prefill w2 _.
                Logs-next _ (λ a. Unit) _ _ w2 (search keep_rules) tt
                  (λ recent w3 _.
                    Logs-next _ (λ a. Unit) _ _ w3 (decide-Keeps candidates _) (Holds-any _)
                      (λ decision w4 _.
                        Logs-next _ (λ a. Unit) _ _ w4 (search keep_rules) tt
                          (λ at w5 _.
                            Logs-next _ (λ t. Keyed request tenant_id t.state) _ _ w5
                              (act-Keeps services _ active state)
                              (ended-Keyed _ active state w5 _ (act-Ends services _ active state w5)
                                k)
                              (λ turn w6 kt. finish-Logs _ active _ _ turn w6 kt))))))

    pub handle_orchestrated-Logs :
        (project : ProjectRecord) (w : World E)
        → ((old : SessionStateRecord)
            → get_session_state request.project_id request.session_id tenant_id w.store ≡ some old
            → Keyed request tenant_id old)
        → Logs
            (log_key request tenant_id)
            w.store.decisions
            (handle_orchestrated services request project orchestrator tenant_id metadata w)
    unfolding handle_orchestrated fail
    handle_orchestrated-Logs project w keyed =
        elim (Bool-cases (is_off services (Object.get "orchestrator_enabled" project.settings))) [
          | inl off ↦ rw off refl
          | inr on ↦ rw on (
              Logs-next _ (Keyed request tenant_id) _ _ w (load_session-Keeps request tenant_id _)
                (load_session-Keyed request tenant_id _ w keyed)
                (λ loaded w1 k.
                  Logs-next _ (λ (_, st). Keyed request tenant_id st) _ _ w1
                    (load_active-Keeps tenant_id loaded)
                    (load_active-Keyed request tenant_id loaded w1 k)
                    (λ (active, state) w2 k2. decide_and_act-Logs loaded active state w2 k2)))
        ]
