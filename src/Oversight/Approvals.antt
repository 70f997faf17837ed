-- ===== src/Oversight/Approvals.antt =====
-- packages/delta/src/oversight/approvals.ts: the life of an approval request. The id and the time of a
-- new request are arguments; the store's own errors are its `err`.
use delta_agents.Common.{
  ℕ, String, ◌≡◌, refl, ◌∙◌, ap, Bool, true, false, ◌&&◌, Option, none, some, List, [], ◌∷◌, ◌++◌,
  ◌==◌, arith, Result, filter, get_last?, get_last?-concat, filter-append, if◌then◌else◌, eq_refl,
  Bool-cases, inl, inr,
}
use delta_agents.Common.Dict
use delta_agents.Common.Dict.{values-put, put-put, get-put}
use mathlib.Core.List.{append-nil}
use delta_agents.Types.{ApprovalStatus, unrequested, pending, approved, rejected}
use delta_agents.Store.{
  Store, ApprovalRequest, patch_approval, get_approval_request, save_approval_request,
  update_approval_request, get_approvals_by_task,
}

pub data Decision : Type 0 where
  approve reject : Decision

abbrev pub status_of : Decision → ApprovalStatus
status_of approve = approved
status_of reject = rejected

new_request : ApprovalStatus → String → ℕ → String → String → String → ApprovalRequest
new_request status id now task_id action reason = record {
  id = id;
  task_id = task_id;
  action = action;
  reason = reason;
  status = status;
  rejection_reason = none;
  created_at = now;
}

-- the reason of a rejection is kept on the request
ground_of : Decision → Option String → Option String → Option String
ground_of approve reason before = before
ground_of reject none before = before
ground_of reject (some reason) before = some reason

pub resolved : Decision → Option String → ApprovalRequest → ApprovalRequest
unfolding ground_of
resolved decision reason r = record r {
  status = status_of decision;
  rejection_reason = ground_of decision reason r.rejection_reason;
}

abbrev latest_status : Option ApprovalRequest → ApprovalStatus
latest_status none = unrequested
latest_status (some r) = r.status

abbrev is_rejected : ApprovalStatus → Bool
is_rejected rejected = true
is_rejected _ = false

abbrev latest_ground : Option ApprovalRequest → Option String
latest_ground none = none
latest_ground (some r) = r.rejection_reason

last-filter :
    (f g : ApprovalRequest → Bool) (xs : List ApprovalRequest) (r : ApprovalRequest)
    → get_last? (filter f (filter g (xs ++ r ∷ [])))
      ≡ (if g r && f r then some r else get_last? (filter f (filter g xs)))
unfolding filter
last-filter f g xs r = elim (Bool-cases (g r)) [
  | inl kept ↦
      rw (filter-append g xs (r ∷ []), kept)
        (rw (filter-append f (filter g xs) (r ∷ [])) (
          ground (
            arith,
            get_last?-concat (filter f (filter g xs)) r,
            append-nil (filter f (filter g xs)),
          )))
  | inr dropped ↦
      rw (filter-append g xs (r ∷ []), dropped) (ground (arith, append-nil (filter g xs)))
]

module _ {S : Type 0} where
  pub request_approval :
      String → ℕ → String → String → String → Store S → Result String ApprovalRequest × Store S
  unfolding new_request
  request_approval id now task_id action reason s =
      save_approval_request (new_request pending id now task_id action reason) s

  pub record_auto_approval :
      String → ℕ → String → String → String → Store S → Result String ApprovalRequest × Store S
  unfolding new_request
  record_auto_approval id now task_id action reason s =
      save_approval_request (new_request approved id now task_id action reason) s

  pub resolve_approval :
      String → Decision → Option String → Store S → Result String ApprovalRequest × Store S
  unfolding resolved
  resolve_approval id decision reason s = update_approval_request id (resolved decision reason) s

  pub get_approval : String → Store S → Result String ApprovalRequest
  get_approval id s = get_approval_request id s

  -- the reviewer's ground for the latest rejection, which the text of `describeRejection` appends
  pub describe_rejection : String → String → Store S → Option String
  describe_rejection task_id action s = latest_ground (
      get_last? (
        filter (λ a. (a.action == action) && is_rejected a.status)
          (get_approvals_by_task task_id s)))

  pub get_approval_status_for_action : String → String → Store S → ApprovalStatus
  get_approval_status_for_action task_id action s =
      latest_status (get_last? (filter (λ a. a.action == action) (get_approvals_by_task task_id s)))

  abbrev with_request : ApprovalRequest → Store S → Store S
  with_request r s = record s { approvals = Dict.put s.approvals r.id r }

  status-with_request :
      (r : ApprovalRequest) (s : Store S) (task_id action : String)
      → Dict.get s.approvals r.id ≡ none
      → get_approval_status_for_action task_id action (with_request r s) ≡ (
          if (r.task_id == task_id) && (r.action == action)
          then r.status
          else get_approval_status_for_action task_id action s)
  unfolding get_approval_status_for_action get_approvals_by_task
  status-with_request r s task_id action fresh =
      let of_task : ApprovalRequest → Bool = λ a. a.task_id == task_id in
      let of_action : ApprovalRequest → Bool = λ a. a.action == action in
      rw (values-put s.approvals r.id r fresh) (
        rw (last-filter of_action of_task (Dict.values s.approvals) r)
          (elim (Bool-cases ((r.task_id == task_id) && (r.action == action))) [
            | inl asked ↦ rw asked refl
            | inr other ↦ rw other refl
          ]))

  -- A new request under a fresh id makes its action of its task pending, a trust waiver makes it
  -- approved, and the status of every other pair of task and action stays.
  pub request_approval-status :
      (id : String) (now : ℕ) (task_id action reason : String) (s : Store S)
      (other_task other_action : String)
      → Dict.get s.approvals id ≡ none
      → (get_approval_status_for_action other_task other_action
            (request_approval id now task_id action reason s).1
          ≡ (if (task_id == other_task) && (action == other_action)
              then pending
              else get_approval_status_for_action other_task other_action s))
        × (get_approval_status_for_action other_task other_action
              (record_auto_approval id now task_id action reason s).1
            ≡ (if (task_id == other_task) && (action == other_action)
                then approved
                else get_approval_status_for_action other_task other_action s))
  unfolding request_approval record_auto_approval save_approval_request new_request
  request_approval-status id now task_id action reason s other_task other_action fresh = (
    status-with_request (new_request pending id now task_id action reason) s other_task other_action
        fresh,
    status-with_request (new_request approved id now task_id action reason) s other_task
        other_action fresh,
  )

  update-with_request :
      (r : ApprovalRequest) (f : ApprovalRequest → ApprovalRequest) (s : Store S)
      → (update_approval_request r.id f (with_request r s)).1
        ≡ record s { approvals = Dict.put s.approvals r.id (f r) }
  unfolding update_approval_request
  update-with_request r f s =
      let stored : Dict.get (Dict.put s.approvals r.id r) r.id ≡ some r =
        get-put s.approvals r.id r.id r ∙ rw (eq_refl r.id) refl in
      rw (stored, patch_approval) (rw (put-put s.approvals r.id r (f r)) refl)

  -- A request that is made under a fresh id and then resolved has its action of its task approved or
  -- rejected as the reviewer decided, and leaves the status of every other pair of task and action.
  pub resolve_approval-request :
      (id : String) (now : ℕ) (task_id action reason : String) (decision : Decision)
      (why : Option String) (s : Store S) (other_task other_action : String)
      → Dict.get s.approvals id ≡ none
      → get_approval_status_for_action other_task other_action
          (resolve_approval id decision why (request_approval id now task_id action reason s).1).1
        ≡ (if (task_id == other_task) && (action == other_action)
            then status_of decision
            else get_approval_status_for_action other_task other_action s)
  unfolding request_approval resolve_approval save_approval_request new_request resolved
  resolve_approval-request id now task_id action reason decision why s other_task other_action
        fresh =
      let r = new_request pending id now task_id action reason in
      ap (get_approval_status_for_action other_task other_action)
        (update-with_request r (resolved decision why) s)
      ∙ status-with_request (resolved decision why r) s other_task other_action fresh
