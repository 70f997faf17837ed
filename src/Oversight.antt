-- ===== src/Oversight.antt =====
-- packages/delta/src/oversight: when a task escalates, the advice below that, and the governance that
-- follows a successful step. The texts of the advice are left to their numbers.
pub mod Escalation
pub mod Approvals
use delta_agents.Common.{
  ℕ, suc, zero, String, Bool, true, false, Option, none, some, List, [], ◌∷◌, ◌++◌, ◌&&◌, ◌||◌, ltb,
  or_else, if◌then◌else◌,
}
use delta_agents.Cost.{Cost}
use delta_agents.Scores.{Scores}
use delta_agents.Types.{
  RiskState, TrustState, paused, ApprovalPolicy, flag, until_trust, EscalationTrigger,
  risk_threshold, bayesian_surprise, trust_degradation, policy_violation, budget_violation,
  workflow_failure, explicit,
}
use delta_agents.State.{
  Snapshot, Task, with_escalation, Guidance, risk_elevated, trust_slipping, budget_consumed,
  outcome_deviated,
}
use delta_agents.Governance.{should_escalate, is_trust_degraded}
use delta_agents.Store.{Store, EscalationRecord, update_task, save_escalation}

-- approvals.ts
unfoldable pub approval_required : {S : Type 0} → Option (ApprovalPolicy S) → Bool
approval_required none = false
approval_required (some (flag b)) = b
approval_required (some (until_trust threshold)) = true

module _ (F : Scores) where
  open F use {S, milli, of_ℕ, div, le, lt}

  -- types.ts, escalation.ts
  pub record EscalationContext : Type 0 where
    pub risk : RiskState S
    pub spent : Cost
    pub budget : Cost
    pub surprise_magnitude : Option S
    pub trust : Option (TrustState S)
    pub has_policy_violation : Bool
    pub has_workflow_failure : Bool
    pub explicit_escalation : Bool

  pub surprised : Option S → Bool
  surprised none = false
  surprised (some magnitude) = le (milli 700) magnitude

  pub degraded : Option (TrustState S) → Bool
  degraded none = false
  degraded (some trust) = is_trust_degraded F trust

  unfoldable pub check_escalation : EscalationContext → Option EscalationTrigger
  unfolding surprised degraded
  check_escalation c =
      if should_escalate F c.risk
      then some risk_threshold
      else if surprised c.surprise_magnitude
      then some bayesian_surprise
      else if degraded c.trust
      then some trust_degradation
      else if ltb c.budget.tokens c.spent.tokens || ltb c.budget.duration_ms c.spent.duration_ms
      then some budget_violation
      else if c.has_policy_violation
      then some policy_violation
      else if c.has_workflow_failure
      then some workflow_failure
      else if c.explicit_escalation
      then some explicit
      else none

  -- guidance.ts
  budget_line : String → ℕ → Option ℕ → List (Guidance S)
  budget_line name spent none = []
  budget_line name spent (some zero) = []
  budget_line name spent (some (suc m)) =
      let consumed = div (of_ℕ spent) (of_ℕ (suc m)) in
      if le (milli 750) consumed && lt consumed (milli 1000)
      then budget_consumed name consumed ∷ []
      else []

  pub compute_guidance : RiskState S → TrustState S → Cost → Cost → S → List (Guidance S)
  unfolding budget_line
  compute_guidance risk trust spent budget surprise_magnitude =
      (if le (milli 500) risk.current_risk && lt risk.current_risk (milli 800)
        then risk_elevated risk.current_risk ∷ []
        else [])
      ++ ((if lt (milli 300) trust.score && le trust.score (milli 500)
            then trust_slipping trust.score ∷ []
            else [])
          ++ (budget_line "token" spent.tokens (some budget.tokens)
              ++ (budget_line "duration" spent.duration_ms (some budget.duration_ms)
                  ++ (budget_line "memory" (or_else spent.memory 0) budget.memory
                      ++ (budget_line "latency" (or_else spent.latency 0) budget.latency
                          ++ (if le (milli 400) surprise_magnitude
                                && lt surprise_magnitude (milli 700)
                              then outcome_deviated ∷ []
                              else []))))))

  -- post-step.ts; `id` and `now` are the fresh id and the time of the records that it writes
  pub data PostStepGovernance : Type 0 where
    goes_on : Snapshot S → PostStepGovernance
    escalated : Snapshot S → EscalationTrigger → PostStepGovernance

  abbrev some_lines : List (Guidance S) → Option (List (Guidance S))
  some_lines [] = none
  some_lines (l ∷ ls) = some (l ∷ ls)

  abbrev pub context_of : Snapshot S → S → EscalationContext
  context_of s surprise_magnitude = record {
    risk = s.risk;
    spent = s.spent;
    budget = s.budget;
    surprise_magnitude = some surprise_magnitude;
    trust = some s.trust;
    has_policy_violation = false;
    has_workflow_failure = false;
    explicit_escalation = false;
  }

  govern :
      Option EscalationTrigger
      → String
      → String
      → ℕ
      → Snapshot S
      → S
      → Bool
      → Store S
      → PostStepGovernance × Store S
  govern (some trigger) task_id id now s surprise_magnitude guidance_enabled store =
      let raised : EscalationRecord = record {
        id = id;
        task_id = task_id;
        trigger = trigger;
        created_at = now;
      } in
      let store' = (save_escalation raised store).1 in
      let s' = with_escalation s true in
      (
        escalated s' trigger,
        (update_task task_id
            (λ t. record t { risk = s'.risk; trust = s'.trust; status = paused; updated_at = now })
            store').1,
      )
  govern none task_id id now s surprise_magnitude guidance_enabled store =
      let lines =
        if guidance_enabled
        then compute_guidance s.risk s.trust s.spent s.budget surprise_magnitude
        else [] in
      (
        goes_on (record s { guidance = some_lines lines }),
        (update_task task_id (λ t. record t { risk = s.risk; trust = s.trust; updated_at = now })
            store).1,
      )

  unfoldable pub apply_post_step_governance :
      String → String → ℕ → Snapshot S → S → Bool → Store S → PostStepGovernance × Store S
  unfolding govern
  apply_post_step_governance task_id id now s surprise_magnitude guidance_enabled store =
      govern (check_escalation (context_of s surprise_magnitude)) task_id id now s
        surprise_magnitude guidance_enabled store
