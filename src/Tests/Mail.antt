-- ===== src/Tests/Mail.antt =====
-- The theorems on messages and queries of the store, at concrete inputs.
use delta_agents.Common.{
  ℕ, ◌+◌, ◌-◌, min, String, ◌≡◌, refl, true, false, Option, none, some, [], ◌∷◌, ok, err, length,
  All,
}
use delta_agents.Common.Dict
use delta_agents.Types.{Message, running}
use delta_agents.Store.{Store}
use delta_agents.Store.Mailbox.{
  already_read, already_recalled, find_in, find_message, mark_message_read, recall_message,
  all_messages, live_messages, read_oldest_first, victims, ids_of, keep_without,
  evict_read_messages,
}
use delta_agents.Store.Mailbox.Receipts.{
  consuming, reading, recalling, run_operations, KeptIn, run_operations-KeptIn,
  recall_message-refused,
}
use delta_agents.Store.Mailbox.Evictions.{IsVictim, evict_read_messages_lem}
use delta_agents.Store.Queries.{has_status, get_tasks_by_agent}
use delta_agents.Store.Queries.Results.{AreLatest, up_to, matches, get_tasks_by_agent_lem}
use delta_agents.Tests.Data.{store}

abbrev message : String → ℕ → Option ℕ → Message
message id at read_at = record {
  id = id;
  task_id = "t1";
  sender = "billing";
  receiver = "support";
  payload = "refund 7?";
  created_at = at;
  consumed = false;
  delivered_at = none;
  read_at = read_at;
  recalled_at = none;
}

abbrev mailbox : Store ℕ
mailbox = record store {
  messages_by_task =
      ("t1", message "m1" 1 none ∷ message "m2" 2 (some 5) ∷ message "m3" 3 (some 6) ∷ []) ∷ [];
}

run_operations-KeptIn_example :
    KeptIn "m1"
      (message "m1" 1 none)
      (run_operations (consuming "m2" ∷ recalling "m1" 8 ∷ reading "m1" 9 ∷ []) mailbox)
unfolding find_message find_in
run_operations-KeptIn_example =
    run_operations-KeptIn (consuming "m2" ∷ recalling "m1" 8 ∷ reading "m1" 9 ∷ []) mailbox "m1"
      (message "m1" 1 none) refl

recall_message-refused_example :
    ((recall_message "m1" 8 (mark_message_read "m1" 7 mailbox).1).0 ≡ err (already_read "m1"))
    × ((message "m1" 1 none).read_at ≡ none
        → (message "m1" 1 none).recalled_at ≡ none
        → ((recall_message "m1" 8 mailbox).0
            ≡ ok (record (message "m1" 1 none) { recalled_at = some 8 }))
          × ((recall_message "m1" 9 (recall_message "m1" 8 mailbox).1).0
              ≡ err (already_recalled "m1")))
unfolding find_message find_in
recall_message-refused_example =
    recall_message-refused "m1" 7 8 9 mailbox (message "m1" 1 none) refl

evict_read_messages_lem_example :
    let d = mailbox.messages_by_task in
    let s' = (evict_read_messages "support" 2 mailbox).1 in
    All (IsVictim "support") (victims "support" 2 d)
    × (length (victims "support" 2 d)
        ≡ min (length (live_messages "support" d) - 2) (length (read_oldest_first "support" d)))
    × (all_messages s'.messages_by_task
        ≡ keep_without (ids_of (victims "support" 2 d)) (all_messages d))
    × ((evict_read_messages "support" 2 mailbox).0 + length (all_messages s'.messages_by_task)
        ≡ length (all_messages d))
evict_read_messages_lem_example = evict_read_messages_lem "support" 2 mailbox

get_tasks_by_agent_lem_example :
    let found = get_tasks_by_agent "support" (some (running ∷ [])) (some 2) store in
    AreLatest
      (λ t. t.updated_at)
      found
      (matches "support" (some (running ∷ [])) (Dict.values store.tasks))
    × All
        (λ t. (t.assigned_agent ≡ "support") × (has_status (some (running ∷ [])) t.status ≡ true))
        found
    × (length found
        ≡ up_to
            (some 2)
            (length (matches "support" (some (running ∷ [])) (Dict.values store.tasks))))
get_tasks_by_agent_lem_example =
    get_tasks_by_agent_lem "support" (some (running ∷ [])) (some 2) store
