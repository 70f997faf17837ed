-- ===== src/Store/Mailbox.antt =====
-- packages/delta/src/ports/in-memory-store.ts: the life of a message (consumed, read, recalled, evicted).
pub mod Receipts
pub mod Evictions
use delta_agents.Common.{
  ℕ, ◌-◌, ◌+◌, min, String, Bool, true, false, not, ◌&&◌, Option, none, some, List, [], ◌∷◌, ◌++◌,
  ◌==◌, Result, ok, err, or_else, is_some, filter, ltb, leb, eqb, length, includes, if◌then◌else◌,
  sort, take,
}
use delta_agents.Common.Dict
use delta_agents.Common.Dict.{Dict}
use delta_agents.Types.{Message}
use delta_agents.Store.{Store, get_messages}

pub data MessageError : Type 0 where
  not_found already_read already_recalled : String → MessageError

-- the first message with the id of a task
unfoldable pub find_in : String → List Message → Option Message
find_in id [] = none
find_in id (m ∷ ms) = if m.id == id then some m else find_in id ms

replace_in : String → Message → List Message → List Message
replace_in id new [] = []
replace_in id new (m ∷ ms) = if m.id == id then new ∷ ms else m ∷ replace_in id new ms

-- the first over the tasks, in the order of the Map
unfoldable pub find_message : Dict (List Message) → String → Option Message
unfolding find_in
find_message [] id = none
find_message ((task_id, ms) ∷ rest) id = elim (find_in id ms) [
  | some m ↦ some m
  | none ↦ find_message rest id
]

pub replace_message : Dict (List Message) → String → Message → Dict (List Message)
unfolding find_in replace_in
replace_message [] id new = []
replace_message ((task_id, ms) ∷ rest) id new = elim (find_in id ms) [
  | some m ↦ (task_id, replace_in id new ms) ∷ rest
  | none ↦ (task_id, ms) ∷ replace_message rest id new
]

abbrev pub read : ℕ → Message → Message
read at m = record m {
  consumed = true;
  delivered_at = some (or_else m.delivered_at at);
  read_at = some (or_else m.read_at at);
}

-- whose message may no longer be recalled
refusal : Message → Option MessageError
refusal m =
    if is_some m.read_at
    then some (already_read m.id)
    else if is_some m.recalled_at
    then some (already_recalled m.id)
    else none

-- every message, task by task
pub all_messages : Dict (List Message) → List Message
all_messages [] = []
all_messages ((task_id, ms) ∷ rest) = ms ++ all_messages rest

-- those of a receiver that are not recalled
pub live_messages : String → Dict (List Message) → List Message
live_messages receiver d =
    filter (λ m. m.receiver == receiver && not (is_some m.recalled_at)) (all_messages d)

pub read_oldest_first : String → Dict (List Message) → List Message
read_oldest_first receiver d =
    sort (λ a b. ltb a.created_at b.created_at)
      (filter (λ m. is_some m.read_at) (live_messages receiver d))

pub victims : String → ℕ → Dict (List Message) → List Message
victims receiver cap d =
    let oldest = read_oldest_first receiver d in
    let excess = length (live_messages receiver d) - cap in take (min excess (length oldest)) oldest

abbrev pub ids_of : List Message → List String
ids_of [] = []
ids_of (m ∷ ms) = m.id ∷ ids_of ms

abbrev pub keep_without : List String → List Message → List Message
keep_without ids = filter (λ m. not (includes ids m.id))

-- a task whose messages all go is deleted from the Map
abbrev kept_bucket : String → List Message → Dict (List Message) → Dict (List Message)
kept_bucket task_id [] rest = rest
kept_bucket task_id (m ∷ ms) rest = (task_id, m ∷ ms) ∷ rest

pub drop_ids : List String → Dict (List Message) → ℕ × Dict (List Message)
drop_ids ids [] = (0, [])
drop_ids ids ((task_id, ms) ∷ d) =
    let (removed, rest) = drop_ids ids d in
    let kept = keep_without ids ms in
    if eqb (length kept) (length ms)
    then (removed, (task_id, ms) ∷ rest)
    else (removed + (length ms - length kept), kept_bucket task_id kept rest)

evicted : String → ℕ → Dict (List Message) → ℕ × Dict (List Message)
unfolding live_messages read_oldest_first victims drop_ids
evicted receiver cap d =
    let ids = ids_of (victims receiver cap d) in
    if leb (length (live_messages receiver d)) cap
    then (0, d)
    else if eqb (length ids) 0
    then (0, d)
    else drop_ids ids d

abbrev stale : Option ℕ → Message → Bool
stale none m = m.consumed
stale (some older_than) m = m.consumed && ltb m.created_at older_than

module _ {S : Type 0} where
  abbrev stored : String → Message → Store S → Store S
  stored id m s = record s { messages_by_task = replace_message s.messages_by_task id m }

  pub mark_message_consumed : String → Store S → Result MessageError (Unit {0}) × Store S
  mark_message_consumed id s = elim (find_message s.messages_by_task id) [
    | none ↦ (err (not_found id), s)
    | some m ↦ (ok tt, stored id (record m { consumed = true }) s)
  ]

  pub mark_message_read : String → ℕ → Store S → Result MessageError (Unit {0}) × Store S
  mark_message_read id at s = elim (find_message s.messages_by_task id) [
    | none ↦ (err (not_found id), s)
    | some m ↦ (ok tt, stored id (read at m) s)
  ]

  recall :
      Option MessageError → String → ℕ → Message → Store S → Result MessageError Message × Store S
  recall (some e) id now m s = (err e, s)
  recall none id now m s =
      let recalled = record m { recalled_at = some now } in (ok recalled, stored id recalled s)

  pub recall_message : String → ℕ → Store S → Result MessageError Message × Store S
  unfolding recall refusal
  recall_message id now s = elim (find_message s.messages_by_task id) [
    | none ↦ (err (not_found id), s)
    | some m ↦ recall (refusal m) id now m s
  ]

  pub get_messages_by_receiver : String → Store S → List Message
  get_messages_by_receiver receiver s =
      filter (λ m. m.receiver == receiver) (all_messages s.messages_by_task)

  pub get_messages_by_sender : String → Store S → List Message
  get_messages_by_sender sender s =
      filter (λ m. m.sender == sender) (all_messages s.messages_by_task)

  pub evict_read_messages : String → ℕ → Store S → ℕ × Store S
  unfolding evicted
  evict_read_messages receiver cap s =
      let (removed, d) = evicted receiver cap s.messages_by_task in
      (removed, record s { messages_by_task = d })

  -- `deleteMessages`: only consumed messages go
  unfoldable pub delete_messages : String → Option ℕ → Store S → ℕ × Store S
  delete_messages task_id older_than s =
      let existing = get_messages task_id s in
      let to_keep = filter (λ m. not (stale older_than m)) existing in
      (
        length existing - length to_keep,
        record s {
          messages_by_task =
              if eqb (length to_keep) 0
              then Dict.remove s.messages_by_task task_id
              else Dict.put s.messages_by_task task_id to_keep;
        },
      )
