-- ===== src/Tests/Approvals.antt =====
-- The theorems on approval requests at concrete inputs.
use delta_agents.Common.{◌≡◌, refl, ◌&&◌, ◌==◌, some, if◌then◌else◌}
use delta_agents.Common.Dict
use delta_agents.Oversight.Approvals.{
  reject, status_of, request_approval, resolve_approval, get_approval_status_for_action,
  resolve_approval-request,
}
use delta_agents.Tests.Data.{store}

resolve_approval-request_example :
    get_approval_status_for_action "t1" "refund"
      (resolve_approval "a1" reject
        (some "no receipt")
        (request_approval "a1" 5 "t1" "refund" "large sum" store).1).1
    ≡ (if ("t1" == "t1") && ("refund" == "refund")
        then status_of reject
        else get_approval_status_for_action "t1" "refund" store)
unfolding Dict.get
resolve_approval-request_example =
    resolve_approval-request "a1" 5 "t1" "refund" "large sum" reject (some "no receipt") store "t1"
      "refund" refl
