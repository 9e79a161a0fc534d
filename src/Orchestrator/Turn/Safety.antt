-- ===== src/Orchestrator/Turn/Safety.antt =====
-- What a turn does, branch by branch: it switches only where it may, it asks no more than the policy
-- allows, it puts exactly the runs that it starts on the stack, and it fails without a trace.
use workcore.Prelude.{
  ℕ, ◌≤◌, String, ◌≡◌, refl, ◌⊎◌, inl, inr, Bool, true, false, ◌&&◌, Option, none, some, List, [],
  ◌∷◌, ◌++◌, arith, ◌==◌, eq_iff, Bool-cases, contains, ltb,
}
use workcore.Table.{insert}
use workcore.Orchestrator.Records.{SessionStateRecord, WorkflowStackEntryRecord}
use workcore.Orchestrator.Store.{OrchestrationStore}
use workcore.Orchestrator.Store.Sessions.{
  save_session_state, append_stack_entry, stack_of, session_key,
}
use workcore.Orchestrator.Policy.{switch_policy_error_code, is_explicit_switch_request}
use workcore.Orchestrator.World.{
  WorkflowEngineStateSnapshot, Failure, Outcome, ok, raise, Services, World, ◌>>=◌,
}
use workcore.Orchestrator.Handler.{push_run, user_turn}
use workcore.Orchestrator.Turn.{
  Turn, Setting, is_unclear, is_decisive, cancel_turn, clarify_turn, switch_turn, resume_turn,
  start_turn, other_turn, operator_turn, elsewhere_turn, target_turn, route_turn, act, start_action,
}

pub Outcome-cases :
    {A : Type 0} (o : Outcome A) → ((a : A) × (o ≡ ok a)) ⊎ ((e : Failure) × (o ≡ raise e))
Outcome-cases (ok a) = inl (a, refl)
Outcome-cases (raise e) = inr (e, refl)

-- The action is one that starts a run.
abbrev pub is_start : Turn → Bool
is_start t =
    contains t.action ("START_WORKFLOW" ∷ "SWITCH_WORKFLOW" ∷ "FALLBACK" ∷ [])
    && elim t.run_id [ none ↦ false | some id ↦ true ]

module _ {E : Type 0} (services : Services E) (g : Setting) where
  abbrev pub stack_key : List String
  stack_key = g.tenant_id ∷ g.request.project_id ∷ g.request.session_id ∷ []

  -- A switch away from the active run is allowed.
  pub record Switchable (active : Option WorkflowEngineStateSnapshot) : Type 0 where
    pub run : WorkflowEngineStateSnapshot
    pub is_active : active ≡ some run
    pub can_cancel : run.cancellable ≡ true
    pub at : ℕ
    pub not_refused :
        switch_policy_error_code
          (services.clock at)
          g.policy
          g.recent_decisions
          (is_explicit_switch_request services.texts.lower g.request.message_text)
        ≡ none
    pub decisive : is_decisive services.texts.add g.policy g.decision ≡ true

  -- The stack with one entry more, for this run.
  pub record Pushed (before after : OrchestrationStore) (run_id : Option String) : Type 0 where
    pub entry : WorkflowStackEntryRecord
    pub is_run : run_id ≡ some entry.run_id
    pub pushed :
        after.stack_entries
        ≡ insert stack_key (stack_of stack_key before ++ (entry ∷ [])) before.stack_entries

  abbrev pub Stacked : Bool → OrchestrationStore → OrchestrationStore → Option String → Type 0
  Stacked true before after run_id = Pushed before after run_id
  Stacked false before after run_id = after.stack_entries ≡ before.stack_entries

  pub record Carried (active : Option WorkflowEngineStateSnapshot) (state : SessionStateRecord)
      (before : OrchestrationStore) (t : Turn) (after : OrchestrationStore) : Type 0 where
    pub switches : t.action ≡ "SWITCH_WORKFLOW" → Switchable active
    pub asks :
        state.disambiguation_turns ≤ g.policy.max_disambiguation_turns
        → t.state.disambiguation_turns ≤ g.policy.max_disambiguation_turns
    pub stacks : Stacked (is_start t) before after t.run_id
    pub same_key : session_key t.state ≡ session_key state

  abbrev pub Ends :
      Option WorkflowEngineStateSnapshot
      → SessionStateRecord
      → World E
      → Outcome Turn × World E
      → Type 0
  Ends active state w (ok t, w') = Carried active state w.store t w'.store
  Ends active state w (raise e, w') = w'.store ≡ w.store

  -- A turn that neither switches nor starts a run.
  quiet :
      (active : Option WorkflowEngineStateSnapshot) (state : SessionStateRecord)
      (s : OrchestrationStore) (t : Turn) (s' : OrchestrationStore)
      → (t.action == "SWITCH_WORKFLOW") ≡ false
      → is_start t ≡ false
      → (state.disambiguation_turns ≤ g.policy.max_disambiguation_turns
          → t.state.disambiguation_turns ≤ g.policy.max_disambiguation_turns)
      → session_key t.state ≡ session_key state
      → s'.stack_entries ≡ s.stack_entries
      → Carried active state s t s'
  quiet active state s t s' other start asks key same = record {
    switches = λ h. absurd (ground (arith, eq_iff t.action "SWITCH_WORKFLOW"));
    asks = asks;
    stacks = rw start same;
    same_key = key;
  }

  module _ (active : Option WorkflowEngineStateSnapshot) (state : SessionStateRecord) where
    operator_turn-Ends : (w : World E) → Ends active state w (operator_turn services g state w)
    unfolding ◌>>=◌
    operator_turn-Ends w = quiet active state w.store _ w.store refl refl (λ h. h) refl refl

    clarify_turn-Ends :
        (w : World E)
        → ltb state.disambiguation_turns g.policy.max_disambiguation_turns ≡ true
        → Ends active state w (clarify_turn services g state w)
    unfolding clarify_turn ◌>>=◌ save_session_state
    clarify_turn-Ends w more =
        quiet active state w.store _ _ refl refl (λ h. ground arith) refl refl

    cancelled :
        (a : WorkflowEngineStateSnapshot) (w : World E)
        → Ends active state w (cancel_turn services g (some a) state w)
    unfolding cancel_turn ◌>>=◌
    cancelled a w = elim (Bool-cases a.cancellable) [
      | inr held ↦ rw held (quiet active state w.store _ w.store refl refl (λ h. h) refl refl)
      | inl can ↦
          elim (Outcome-cases
            (services.adapter.cancel a.run_id "user_cancel" g.tenant_id w.engine).0) [
              | inl (r, e) ↦
                  rw (can, e) (quiet active state w.store _ w.store refl refl (λ h. h) refl refl)
              | inr (x, e) ↦ rw (can, e) refl
            ]
    ]

  cancel_turn-Ends :
      (active : Option WorkflowEngineStateSnapshot) (state : SessionStateRecord) (w : World E)
      → Ends active state w (cancel_turn services g active state w)
  cancel_turn-Ends none state w =
      unfold cancel_turn in
      unfold ◌>>=◌ in quiet none state w.store _ w.store refl refl (λ h. h) refl refl
  cancel_turn-Ends (some a) state w = cancelled (some a) state a w

  start_turn-Ends :
      (target : String) (state : SessionStateRecord) (w : World E)
      → Ends none state w (start_turn services g none target state w)
  unfolding start_turn start_action ◌>>=◌ push_run append_stack_entry
  start_turn-Ends target state w =
      elim (Outcome-cases
        (services.adapter.start g.request.project_id target
          (user_turn services g.request g.tenant_id g.metadata) w.engine).0) [
            | inr (x, e) ↦ rw e refl
            | inl (r, e) ↦ elim (Bool-cases (g.decision.route_type == "FALLBACK")) [
              | inl f ↦
                  rw (e, f)
                    (record {
                      switches = λ h. absurd (ground (arith, eq_iff "FALLBACK" "SWITCH_WORKFLOW"));
                      asks = λ h. ground arith;
                      stacks = record { entry = _; is_run = refl; pushed = refl };
                      same_key = refl;
                    })
              | inr f ↦
                  rw (e, f)
                    (record {
                      switches =
                          λ h. absurd (ground (arith, eq_iff "START_WORKFLOW" "SWITCH_WORKFLOW"));
                      asks = λ h. ground arith;
                      stacks = record { entry = _; is_run = refl; pushed = refl };
                      same_key = refl;
                    })
            ]
          ]

  module _ (a : WorkflowEngineStateSnapshot) (state : SessionStateRecord) where
    resume_turn-Ends :
        (refused : Option String) (retry : Option ℕ) (w : World E)
        → Ends (some a) state w (resume_turn services g a refused retry state w)
    unfolding resume_turn ◌>>=◌
    resume_turn-Ends refused retry w =
        elim (Outcome-cases
          (services.adapter.resume a.run_id (user_turn services g.request g.tenant_id g.metadata)
            w.engine).0) [
              | inl (r, e) ↦
                  rw e
                    (quiet (some a) state w.store _ w.store refl refl (λ h. ground arith) refl refl)
              | inr (x, e) ↦ rw e refl
            ]

    switch_turn-Ends :
        (target : String) (w : World E)
        → Switchable (some a)
        → Ends (some a) state w (switch_turn services g a target state w)
    unfolding switch_turn ◌>>=◌ push_run append_stack_entry
    switch_turn-Ends target w may =
        elim (Outcome-cases
          (services.adapter.cancel a.run_id "switch_workflow" g.tenant_id w.engine).0) [
            | inr (x, e) ↦ rw e refl
            | inl (c, e) ↦
                elim (Outcome-cases
                  (services.adapter.start g.request.project_id target
                    (user_turn services g.request g.tenant_id g.metadata)
                    (services.adapter.cancel a.run_id "switch_workflow" g.tenant_id
                      w.engine).1).0) [
                        | inr (x, f) ↦ rw (e, f) refl
                        | inl (r, f) ↦
                            rw (e, f)
                              (record {
                                switches = λ h. may;
                                asks = λ h. ground arith;
                                stacks = record { entry = _; is_run = refl; pushed = refl };
                                same_key = refl;
                              })
                      ]
          ]

    other_turn-Ends :
        (target : String) (refused : Option String) (retry : Option ℕ) (w : World E)
        → (refused ≡ none
            → is_decisive services.texts.add g.policy g.decision ≡ true
            → a.cancellable ≡ true
            → Switchable (some a))
        → Ends (some a) state w (other_turn services g a target refused retry state w)
    unfolding other_turn
    other_turn-Ends target (some code) retry w may = resume_turn-Ends (some code) retry w
    other_turn-Ends target none retry w may =
        elim (Bool-cases (is_decisive services.texts.add g.policy g.decision)) [
          | inr weak ↦ rw weak (resume_turn-Ends none none w)
          | inl strong ↦ elim (Bool-cases a.cancellable) [
            | inl can ↦ simp (strong, can) (switch_turn-Ends target w (may refl strong can))
            | inr held ↦
                simp (strong, held)
                  (unfold ◌>>=◌ in
                    quiet (some a) state w.store _ w.store refl refl (λ h. ground arith) refl refl)
          ]
        ]

    elsewhere_turn-Ends :
        (target : String) (w : World E)
        → Ends (some a) state w (elsewhere_turn services g a target state w)
    unfolding elsewhere_turn ◌>>=◌
    elsewhere_turn-Ends target w = other_turn-Ends target _ _ _ (λ free strong can. record {
      run = a;
      is_active = refl;
      can_cancel = can;
      at = w.tick;
      not_refused = free;
      decisive = strong;
    })

  target_turn-Ends :
      (active : Option WorkflowEngineStateSnapshot) (target : Option String)
      (state : SessionStateRecord) (w : World E)
      → Ends active state w (target_turn services g active target state w)
  unfolding target_turn
  target_turn-Ends active none state w =
      unfold ◌>>=◌ in quiet active state w.store _ w.store refl refl (λ h. ground arith) refl refl
  target_turn-Ends none (some target) state w = start_turn-Ends target state w
  target_turn-Ends (some a) (some target) state w = elim (Bool-cases (target == a.workflow_id)) [
    | inl same ↦ rw same (resume_turn-Ends a state none none w)
    | inr other ↦ rw other (elsewhere_turn-Ends a state target w)
  ]

  route_turn-Ends :
      (active : Option WorkflowEngineStateSnapshot) (state : SessionStateRecord) (w : World E)
      → Ends active state w (route_turn services g active state w)
  unfolding route_turn
  route_turn-Ends active state w =
      elim (Bool-cases (
        is_unclear g.policy g.decision
        && ltb state.disambiguation_turns g.policy.max_disambiguation_turns)) [
          | inl ask ↦ rw ask (clarify_turn-Ends active state w (ground arith))
          | inr go ↦ rw go (unfold ◌>>=◌ in target_turn-Ends active _ state w)
        ]

  -- However a message's turn goes: where an engine's call raises, the store is as it was before the
  -- turn. Else a switch leaves a run that was active and could be cancelled, the policy did not
  -- refuse it and the decision was sure enough; the number of clarifications in a row stays within
  -- the policy's bound if it was; and the stack has one entry more, for the run of the turn, where
  -- the action starts a run, and is untouched otherwise.
  pub act-Ends :
      (active : Option WorkflowEngineStateSnapshot) (state : SessionStateRecord) (w : World E)
      → Ends active state w (act services g active state w)
  unfolding act
  act-Ends active state w = elim (Bool-cases (g.decision.route_type == "OPERATOR")) [
    | inl operator ↦ rw operator (operator_turn-Ends active state w)
    | inr routed ↦ elim (Bool-cases (g.decision.route_type == "CANCEL")) [
      | inl cancel ↦ rw (routed, cancel) (cancel_turn-Ends active state w)
      | inr other ↦ rw (routed, other) (route_turn-Ends active state w)
    ]
  ]
