-- ===== src/Oversight/Escalation.antt =====
-- What escalation promises (oversight/escalation.ts and post-step.ts).
use mathlib.Core.Option
use delta_agents.Common.{
  ℕ, String, ◌≡◌, refl, ap, ◌∙◌, ◌↔◌, ◌≢◌, Bool, true, false, Option, none, some, [], ◌∷◌, ◌++◌,
  ltb, arith,
}
use delta_agents.Common.Dict
use delta_agents.Scores.{Scores}
use delta_agents.Types.{ActionSpec, EscalationTrigger, paused}
use delta_agents.Governance.{should_escalate}
use delta_agents.State.{Snapshot, Task, legal, check_legality, with_escalation}
use delta_agents.State.Legality.{check_legality_iff}
use delta_agents.Store.{
  Store, EscalationRecord, save_escalation, update_task, get_escalations_by_task,
}
use delta_agents.Store.Laws.{
  get_same-update_task, escalations-update_task, checkpoints-update_task, save_escalation-keeps,
  get_escalations-save_escalation,
}
use delta_agents.Oversight.{
  EscalationContext, surprised, degraded, check_escalation, context_of, PostStepGovernance, goes_on,
  escalated, govern, apply_post_step_governance,
}

module _ (F : Scores) where
  open F use {S}

  -- Nothing calls for oversight.
  pub record IsCalm (c : EscalationContext F) : Type 0 where
    pub risk : should_escalate F c.risk ≡ false
    pub surprise : surprised F c.surprise_magnitude ≡ false
    pub trust : degraded F c.trust ≡ false
    pub tokens : ltb c.budget.tokens c.spent.tokens ≡ false
    pub duration : ltb c.budget.duration_ms c.spent.duration_ms ≡ false
    pub policy : c.has_policy_violation ≡ false
    pub workflow : c.has_workflow_failure ≡ false
    pub explicit : c.explicit_escalation ≡ false

  -- A task escalates unless every signal is calm: each of risk, surprise, trust, the two budget axes,
  -- policy, workflow failure and the explicit request triggers an escalation by itself.
  pub check_escalation_iff : (c : EscalationContext F) → (check_escalation F c ≡ none) ↔ IsCalm c
  unfolding check_escalation
  check_escalation_iff c = (
    λ h. record {
      risk = ground arith;
      surprise = ground arith;
      trust = ground arith;
      tokens = ground arith;
      duration = ground arith;
      policy = ground arith;
      workflow = ground arith;
      explicit = ground arith;
    },
    λ k.
        rw (k.risk, k.surprise, k.trust, k.tokens, k.duration, k.policy, k.workflow, k.explicit)
          refl,
  )

  -- What the snapshot `s` and the store are after the governance of a step.
  abbrev pub IsGoverned :
      String → String → ℕ → Snapshot S → S → Store S → PostStepGovernance F → Store S → Type 0
  IsGoverned task_id id now s magnitude store (goes_on s') store' =
      (check_escalation F (context_of F s magnitude) ≡ none)
      × (s' ≡ record s { guidance = s'.guidance })
      × (store'.escalations_by_task ≡ store.escalations_by_task)
      × (Dict.get store'.tasks task_id
          ≡ Option.map
              (λ (t : Task S). record t { risk = s.risk; trust = s.trust; updated_at = now })
              (Dict.get store.tasks task_id))
      × (store'.checkpoints_by_task ≡ store.checkpoints_by_task)
  IsGoverned task_id id now s magnitude store (escalated s' trigger) store' =
      (check_escalation F (context_of F s magnitude) ≡ some trigger)
      × (s' ≡ with_escalation s true)
      × ((a : ActionSpec S) → check_legality a s' ≢ legal)
      × (get_escalations_by_task task_id store'
          ≡ get_escalations_by_task task_id store
            ++ record { id = id; task_id = task_id; trigger = trigger; created_at = now } ∷ [])
      × (Dict.get store'.tasks task_id
          ≡ Option.map
              (λ (t : Task S). record t {
                risk = s'.risk;
                trust = s'.trust;
                status = paused;
                updated_at = now;
              })
              (Dict.get store.tasks task_id))
      × (store'.checkpoints_by_task ≡ store.checkpoints_by_task)

  get_escalations-same :
      (task_id : String) (a b : Store S)
      → b.escalations_by_task ≡ a.escalations_by_task
      → get_escalations_by_task task_id b ≡ get_escalations_by_task task_id a
  unfolding get_escalations_by_task
  get_escalations-same task_id a b e = rw e

  escalated-halts :
      (s : Snapshot S) (a : ActionSpec S) → check_legality a (with_escalation s true) ≢ legal
  unfolding with_escalation
  escalated-halts s a h =
      absurd (ground (arith, ((check_legality_iff a (with_escalation s true)).0 h).overseen))

  govern-IsGoverned :
      (trigger : Option EscalationTrigger) (task_id id : String) (now : ℕ) (s : Snapshot S)
      (magnitude : S) (guidance_enabled : Bool) (store : Store S)
      → check_escalation F (context_of F s magnitude) ≡ trigger
      → let (g, store') = govern F trigger task_id id now s magnitude guidance_enabled store in
        IsGoverned task_id id now s magnitude store g store'
  unfolding govern
  govern-IsGoverned none task_id id now s magnitude guidance_enabled store h = (
    h,
    refl,
    escalations-update_task task_id
        (λ t. record t { risk = s.risk; trust = s.trust; updated_at = now }) store,
    get_same-update_task task_id
        (λ t. record t { risk = s.risk; trust = s.trust; updated_at = now }) store,
    checkpoints-update_task task_id
        (λ t. record t { risk = s.risk; trust = s.trust; updated_at = now }) store,
  )
  govern-IsGoverned (some trigger) task_id id now s magnitude guidance_enabled store h =
      let raised : EscalationRecord = record {
        id = id;
        task_id = task_id;
        trigger = trigger;
        created_at = now;
      } in
      let s' = with_escalation s true in
      let f : Task S → Task S =
        λ t. record t { risk = s'.risk; trust = s'.trust; status = paused; updated_at = now } in
      let store1 = (save_escalation raised store).1 in
      let (tasks, checkpoints) = save_escalation-keeps raised store in
      (
        h,
        refl,
        escalated-halts s,
        get_escalations-same task_id store1 (update_task task_id f store1).1
              (escalations-update_task task_id f store1)
            ∙ get_escalations-save_escalation raised store,
        get_same-update_task task_id f store1 ∙ ap (λ ts. Option.map f (Dict.get ts task_id)) tasks,
        checkpoints-update_task task_id f store1 ∙ checkpoints,
      )

  -- After a successful step either nothing calls for oversight, the task goes on with advice only and
  -- no escalation is recorded, or the trigger of `checkEscalation` is recorded last, the task is paused
  -- in the store, and no action at all is legal in the snapshot that is returned.
  pub apply_post_step_governance-IsGoverned :
      (task_id id : String) (now : ℕ) (s : Snapshot S) (magnitude : S) (guidance_enabled : Bool)
      (store : Store S)
      → let (g, store') =
          apply_post_step_governance F task_id id now s magnitude guidance_enabled store in
        IsGoverned task_id id now s magnitude store g store'
  unfolding apply_post_step_governance
  apply_post_step_governance-IsGoverned task_id id now s magnitude guidance_enabled store =
      govern-IsGoverned (check_escalation F (context_of F s magnitude)) task_id id now s magnitude
        guidance_enabled store refl
