-- ===== src/State/Legality.antt =====
-- When an action is legal, and what discovery offers (state-space/check-legality.ts,
-- evaluate-prerequisites.ts, discover-actions.ts).
use mathlib.Core.List.{Memᴰ}
use delta_agents.Common.{
  String, ◌≡◌, refl, ◌↔◌, ◌⊎◌, inl, inr, true, false, Option, none, some, List, [], ◌∷◌, arith, All,
  includes, or_else, subst, Bool-cases,
}
use delta_agents.Cost.{Cost}
use delta_agents.Cost.Laws.{IsWithin, is_over_budget_iff}
use delta_agents.Types.{ActionSpec, Prerequisites, ExecutionStatus, running}
use delta_agents.State.{
  Snapshot, LegalityResult, legal, illegal, first_missing, parent_over, evaluate_prerequisites,
  check_legality, declared_prerequisites, workflow_prerequisites, is_running, DiscoveryResult,
  sort_by, discover_actions,
}

abbrev pub AllIncluded : List String → List String → Type 0
AllIncluded xs done = All (λ x. includes done x ≡ true) xs

first_missing-to : (xs done : List String) → first_missing xs done ≡ none → AllIncluded xs done
unfolding first_missing
first_missing-to [] done h = tt
first_missing-to (x ∷ xs) done h = elim (Bool-cases (includes done x)) [
  | inl p ↦ (p, first_missing-to xs done (ground arith))
  | inr q ↦ absurd (ground arith)
]

first_missing-from : (xs done : List String) → AllIncluded xs done → first_missing xs done ≡ none
unfolding first_missing
first_missing-from [] done h = refl
first_missing-from (x ∷ xs) done (p, h) = rw p (first_missing-from xs done h)

abbrev pub ParentWithin : Option Cost → Option Cost → Type 0
ParentWithin (some budget) (some spent) = IsWithin spent budget
ParentWithin (some budget) none = Unit
ParentWithin none spent = Unit

abbrev pub Satisfied : Option Prerequisites → List String → List String → Type 0
Satisfied none actions workflows = Unit
Satisfied (some p) actions workflows =
    AllIncluded (or_else p.actions []) actions × AllIncluded (or_else p.workflows []) workflows

parent_over_iff : (b p : Option Cost) → (parent_over b p ≡ false) ↔ ParentWithin b p
unfolding parent_over
parent_over_iff (some b) (some p) = is_over_budget_iff p b
parent_over_iff (some b) none = (λ _. tt, λ _. refl)
parent_over_iff none p = (λ _. tt, λ _. refl)

is_running_iff : (s : ExecutionStatus) → (is_running s ≡ true) ↔ (s ≡ running)
is_running_iff s = ground arith

module _ {S : Type 0} where
  -- What legality promises: the task runs, its own budget and its parent's hold, no oversight is
  -- awaited, and every declared prerequisite has completed.
  pub record IsLegal (a : ActionSpec S) (s : Snapshot S) : Type 0 where
    pub runs : s.status ≡ running
    pub within : IsWithin s.spent s.budget
    pub parent : ParentWithin s.parent_budget s.parent_spent
    pub overseen : s.risk.escalated ≡ false
    pub satisfied : Satisfied a.prerequisites s.completed_actions s.completed_workflows

  declared_prerequisites-to :
      (p : Option Prerequisites) (s : Snapshot S)
      → declared_prerequisites p s ≡ legal
      → Satisfied p s.completed_actions s.completed_workflows
  unfolding declared_prerequisites workflow_prerequisites
  declared_prerequisites-to none s h = tt
  declared_prerequisites-to (some p) s h = (
    first_missing-to (or_else p.actions []) s.completed_actions (ground arith),
    first_missing-to (or_else p.workflows []) s.completed_workflows (ground arith),
  )

  declared_prerequisites-from :
      (p : Option Prerequisites) (s : Snapshot S)
      → Satisfied p s.completed_actions s.completed_workflows
      → declared_prerequisites p s ≡ legal
  unfolding declared_prerequisites workflow_prerequisites
  declared_prerequisites-from none s h = refl
  declared_prerequisites-from (some p) s (h, k) =
      let e = first_missing-from (or_else p.actions []) s.completed_actions h in
      let f = first_missing-from (or_else p.workflows []) s.completed_workflows k in ground arith

  -- An action is legal exactly when the task runs within its own and its parent's budget, awaits
  -- no oversight, and has completed every prerequisite that the action declares.
  pub check_legality_iff :
      (a : ActionSpec S) (s : Snapshot S) → (check_legality a s ≡ legal) ↔ IsLegal a s
  unfolding check_legality evaluate_prerequisites
  check_legality_iff a s = (
    λ h. record {
      runs = ground arith;
      within = (is_over_budget_iff s.spent s.budget).0 (ground arith);
      parent = (parent_over_iff s.parent_budget s.parent_spent).0 (ground arith);
      overseen = ground arith;
      satisfied = declared_prerequisites-to a.prerequisites s (ground arith);
    },
    λ l.
        let r = l.runs in
        let w = (is_over_budget_iff s.spent s.budget).1 l.within in
        let p = (parent_over_iff s.parent_budget s.parent_spent).1 l.parent in
        let e = declared_prerequisites-from a.prerequisites s l.satisfied in
        simp (r, w, p, l.overseen) e,
  )

  sort_by-available :
      (a b : ActionSpec S) (l : LegalityResult) (r : DiscoveryResult S)
      → Memᴰ a (sort_by l b r).available
      → (a ≡ b) × (l ≡ legal) ⊎ Memᴰ a r.available
  sort_by-available a b legal r (Memᴰ.head e) = inl (e, refl)
  sort_by-available a b legal r (Memᴰ.tail m) = inr m
  sort_by-available a b (illegal x) r m = inr m

  available-sort_by :
      (a b : ActionSpec S) (l : LegalityResult) (r : DiscoveryResult S)
      → Memᴰ a r.available
      → Memᴰ a (sort_by l b r).available
  available-sort_by a b legal r m = Memᴰ.tail m
  available-sort_by a b (illegal x) r m = m

  discover_actions_sound :
      (all_actions : List (ActionSpec S)) (s : Snapshot S) (a : ActionSpec S)
      → Memᴰ a (discover_actions all_actions s).available
      → Memᴰ a all_actions × (check_legality a s ≡ legal)
  unfolding discover_actions
  discover_actions_sound [] s a m = elim m [ ]
  discover_actions_sound (b ∷ bs) s a m =
      elim (sort_by-available a b (check_legality b s) (discover_actions bs s) m) [
        | inl (e, l) ↦ (Memᴰ.head e, rw e l)
        | inr m' ↦ let (k, l) = discover_actions_sound bs s a m' in (Memᴰ.tail k, l)
      ]

  discover_actions_complete :
      (all_actions : List (ActionSpec S)) (s : Snapshot S) (a : ActionSpec S)
      → Memᴰ a all_actions
      → check_legality a s ≡ legal
      → Memᴰ a (discover_actions all_actions s).available
  unfolding discover_actions
  discover_actions_complete [] s a m l = elim m [ ]
  discover_actions_complete (b ∷ bs) s a (Memᴰ.head e) l =
      let l' : check_legality b s ≡ legal = subst (λ c. check_legality c s ≡ legal) e l in
      rw l' (Memᴰ.head e)
  discover_actions_complete (b ∷ bs) s a (Memᴰ.tail m) l =
      available-sort_by a b (check_legality b s) (discover_actions bs s)
        (discover_actions_complete bs s a m l)

  -- Discovery offers an action exactly when the agent has it and it is legal in the snapshot.
  pub discover_actions-available_iff :
      (all_actions : List (ActionSpec S)) (s : Snapshot S) (a : ActionSpec S)
      → Memᴰ a (discover_actions all_actions s).available ↔ (Memᴰ a all_actions × IsLegal a s)
  discover_actions-available_iff all_actions s a = (
    λ m. let (k, l) = discover_actions_sound all_actions s a m in (k, (check_legality_iff a s).0 l),
    λ p. discover_actions_complete all_actions s a p.0 ((check_legality_iff a s).1 p.1),
  )
