-- ===== src/Store/Mailbox/Receipts.antt =====
-- The receipts of a message under any sequence of marks and recalls (ports/in-memory-store.ts).
use delta_agents.Common.{
  ℕ, String, ◌≡◌, refl, ◌∙◌, true, none, some, List, [], ◌∷◌, ◌==◌, ok, err, arith, eq_iff, eq_refl,
  if◌then◌else◌, Option-cases, Bool-cases, inl, inr,
}
use delta_agents.Common.Dict.{Dict}
use delta_agents.Types.{Message}
use delta_agents.Store.{Store}
use delta_agents.Store.Mailbox.{
  already_read, already_recalled, find_in, replace_in, find_message, replace_message, read, refusal,
  recall, mark_message_consumed, mark_message_read, recall_message,
}

-- what a lookup finds has the id that was asked for
find_in-id : (id : String) (ms : List Message) (m : Message) → find_in id ms ≡ some m → m.id ≡ id
unfolding find_in
find_in-id id [] m e = absurd (ground arith)
find_in-id id (x ∷ ms) m e = elim (Bool-cases (x.id == id)) [
  | inl same ↦ ground (arith, eq_iff x.id id)
  | inr other ↦ find_in-id id ms m (ground arith)
]

find_in-replace_in :
    (id j : String) (new : Message) (ms : List Message)
    → new.id ≡ id
    → find_in j (replace_in id new ms) ≡ elim (find_in id ms) [
      | none ↦ find_in j ms
      | some m ↦ if id == j then some new else find_in j ms
    ]
unfolding find_in replace_in
find_in-replace_in id j new [] e = refl
find_in-replace_in id j new (x ∷ ms) e =
    ground (arith, find_in-replace_in id j new ms e, eq_iff x.id id, eq_iff x.id j, eq_iff id j)

pub find_message-replace_message :
    (d : Dict (List Message)) (id j : String) (new m : Message)
    → new.id ≡ id
    → find_message d id ≡ some m
    → find_message (replace_message d id new) j ≡ (if id == j then some new else find_message d j)
unfolding find_message replace_message
find_message-replace_message [] id j new m e found = absurd (ground arith)
find_message-replace_message ((task_id, ms) ∷ d) id j new m e found =
    let here = find_in-replace_in id j new ms e in
    elim (Option-cases (find_in id ms)) [
      | inl missing ↦
          let later = find_message-replace_message d id j new m e (ground arith) in
          rw (missing, find_message, replace_message) (ground (arith, eq_iff id j))
      | inr (x, at) ↦ rw (at, find_message, replace_message) (ground (arith, eq_iff id j))
    ]

find_message-id :
    (d : Dict (List Message)) (id : String) (m : Message) → find_message d id ≡ some m → m.id ≡ id
unfolding find_message
find_message-id [] id m e = absurd (ground arith)
find_message-id ((task_id, ms) ∷ d) id m e = elim (Option-cases (find_in id ms)) [
  | inl missing ↦ find_message-id d id m (ground arith)
  | inr (x, at) ↦ find_in-id id ms m (ground arith)
]

find-replaced :
    (d : Dict (List Message)) (id : String) (new m : Message)
    → new.id ≡ m.id
    → find_message d id ≡ some m
    → find_message (replace_message d id new) id ≡ some new
find-replaced d id new m e stored =
    let found =
      find_message-replace_message d id id new m (e ∙ find_message-id d id m stored) stored in
    ground (arith, eq_refl id)

pub data Operation : Type 0 where
  consuming : String → Operation
  reading recalling : String → ℕ → Operation

module _ {S : Type 0} where
  pub run_operation : Operation → Store S → Store S
  run_operation (consuming id) s = (mark_message_consumed id s).1
  run_operation (reading id at) s = (mark_message_read id at s).1
  run_operation (recalling id now) s = (recall_message id now s).1

  pub run_operations : List Operation → Store S → Store S
  unfolding run_operation
  run_operations [] s = s
  run_operations (o ∷ os) s = run_operations os (run_operation o s)

-- What no operation takes back: receipts, recalls, and that a message that was read is not recalled.
pub record HasKept (m m' : Message) : Type 0 where
  pub same_id : m'.id ≡ m.id
  pub same_text : m'.payload ≡ m.payload
  pub same_ends : (m'.sender ≡ m.sender) × (m'.receiver ≡ m.receiver)
  pub stays_consumed : m.consumed ≡ true → m'.consumed ≡ true
  pub stays_read : (at : ℕ) → m.read_at ≡ some at → m'.read_at ≡ some at
  pub stays_delivered : (at : ℕ) → m.delivered_at ≡ some at → m'.delivered_at ≡ some at
  pub stays_recalled : (at : ℕ) → m.recalled_at ≡ some at → m'.recalled_at ≡ some at
  pub never_unsent : (at : ℕ) → m.read_at ≡ some at → m'.recalled_at ≡ m.recalled_at

HasKept-refl : (m : Message) → HasKept m m
HasKept-refl m = record {
  same_id = refl;
  same_text = refl;
  same_ends = (refl, refl);
  stays_consumed = λ h. h;
  stays_read = λ at h. h;
  stays_delivered = λ at h. h;
  stays_recalled = λ at h. h;
  never_unsent = λ at h. refl;
}

HasKept-trans : (l m n : Message) → HasKept l m → HasKept m n → HasKept l n
HasKept-trans l m n h k = record {
  same_id = k.same_id ∙ h.same_id;
  same_text = k.same_text ∙ h.same_text;
  same_ends = (k.same_ends.0 ∙ h.same_ends.0, k.same_ends.1 ∙ h.same_ends.1);
  stays_consumed = λ e. k.stays_consumed (h.stays_consumed e);
  stays_read = λ at e. k.stays_read at (h.stays_read at e);
  stays_delivered = λ at e. k.stays_delivered at (h.stays_delivered at e);
  stays_recalled = λ at e. k.stays_recalled at (h.stays_recalled at e);
  never_unsent = λ at e. k.never_unsent at (h.stays_read at e) ∙ h.never_unsent at e;
}

consumed-HasKept : (m : Message) → HasKept m (record m { consumed = true })
consumed-HasKept m = record {
  same_id = refl;
  same_text = refl;
  same_ends = (refl, refl);
  stays_consumed = λ h. refl;
  stays_read = λ at h. h;
  stays_delivered = λ at h. h;
  stays_recalled = λ at h. h;
  never_unsent = λ at h. refl;
}

read-HasKept : (at : ℕ) (m : Message) → HasKept m (read at m)
read-HasKept now m = record {
  same_id = refl;
  same_text = refl;
  same_ends = (refl, refl);
  stays_consumed = λ h. refl;
  stays_read = λ at h. ground arith;
  stays_delivered = λ at h. ground arith;
  stays_recalled = λ at h. h;
  never_unsent = λ at h. refl;
}

recalled-HasKept :
    (now : ℕ) (m : Message) → refusal m ≡ none → HasKept m (record m { recalled_at = some now })
unfolding refusal
recalled-HasKept now m free = record {
  same_id = refl;
  same_text = refl;
  same_ends = (refl, refl);
  stays_consumed = λ h. h;
  stays_read = λ at h. h;
  stays_delivered = λ at h. h;
  stays_recalled = λ at h. absurd (ground arith);
  never_unsent = λ at h. absurd (ground arith);
}

module _ {S : Type 0} where
  -- the message is stored, and as `HasKept` says
  abbrev pub KeptIn : String → Message → Store S → Type 0
  KeptIn id m s = (m' : Message) × (find_message s.messages_by_task id ≡ some m') × HasKept m m'

  -- the message that was found under `j` is replaced by a later state of it
  replaced :
      (s : Store S) (id j : String) (m x new : Message)
      → find_message s.messages_by_task id ≡ some m
      → find_message s.messages_by_task j ≡ some x
      → HasKept m new
      → KeptIn j x (record s { messages_by_task = replace_message s.messages_by_task id new })
  replaced s id j m x new at stored kept =
      let same = kept.same_id ∙ find_message-id s.messages_by_task id m at in
      let found = find_message-replace_message s.messages_by_task id j new m same at in
      elim (Bool-cases (id == j)) [
        | inl e ↦ let one : x ≡ m = ground (arith, eq_iff id j) in (new, ground arith, rw one kept)
        | inr e ↦ (x, ground arith, HasKept-refl x)
      ]

  run_operation-KeptIn :
      (o : Operation) (s : Store S) (j : String) (x : Message)
      → find_message s.messages_by_task j ≡ some x
      → KeptIn j x (run_operation o s)
  unfolding run_operation mark_message_consumed mark_message_read recall_message
  run_operation-KeptIn (consuming id) s j x stored =
      elim (Option-cases (find_message s.messages_by_task id)) [
        | inl e ↦ rw (e, run_operation, mark_message_consumed) (x, stored, HasKept-refl x)
        | inr (m, e) ↦
            rw (e, run_operation, mark_message_consumed)
              (replaced s id j m x (record m { consumed = true }) e stored (consumed-HasKept m))
      ]
  run_operation-KeptIn (reading id at) s j x stored =
      elim (Option-cases (find_message s.messages_by_task id)) [
        | inl e ↦ rw (e, run_operation, mark_message_read) (x, stored, HasKept-refl x)
        | inr (m, e) ↦
            rw (e, run_operation, mark_message_read)
              (replaced s id j m x (read at m) e stored (read-HasKept at m))
      ]
  run_operation-KeptIn (recalling id now) s j x stored =
      elim (Option-cases (find_message s.messages_by_task id)) [
        | inl e ↦ rw (e, run_operation, recall_message) (x, stored, HasKept-refl x)
        | inr (m, e) ↦
            rw (e, run_operation, recall_message)
              (elim (Option-cases (refusal m)) [
                | inl free ↦
                    rw (free, recall)
                      (replaced s id j m x (record m { recalled_at = some now }) e stored
                        (recalled-HasKept now m free))
                | inr (why, refused) ↦ rw (refused, recall) (x, stored, HasKept-refl x)
              ])
      ]

  -- Whatever is consumed, read and recalled, and in whatever order: a stored message stays stored with
  -- its ends and its text, keeps its receipts and its recall with their first times, and is not recalled
  -- once it has been read.
  pub run_operations-KeptIn :
      (os : List Operation) (s : Store S) (j : String) (x : Message)
      → find_message s.messages_by_task j ≡ some x
      → KeptIn j x (run_operations os s)
  unfolding run_operations
  run_operations-KeptIn [] s j x stored = (x, stored, HasKept-refl x)
  run_operations-KeptIn (o ∷ os) s j x stored =
      let (m, at, kept) = run_operation-KeptIn o s j x stored in
      let (n, found, later) = run_operations-KeptIn os (run_operation o s) j m at in
      (n, found, HasKept-trans x m n kept later)

  -- A stored message that is read can no longer be recalled; one that is recalled while it is unread is
  -- recalled once, and a second recall is refused.
  pub recall_message-refused :
      (id : String) (at now later : ℕ) (s : Store S) (m : Message)
      → find_message s.messages_by_task id ≡ some m
      → ((recall_message id now (mark_message_read id at s).1).0 ≡ err (already_read id))
        × (m.read_at ≡ none
            → m.recalled_at ≡ none
            → ((recall_message id now s).0 ≡ ok (record m { recalled_at = some now }))
              × ((recall_message id later (recall_message id now s).1).0
                  ≡ err (already_recalled id)))
  unfolding mark_message_read recall_message refusal
  recall_message-refused id at now later s m stored =
      let found_read = find-replaced s.messages_by_task id (read at m) m refl stored in
      let found_recalled =
        find-replaced s.messages_by_task id (record m { recalled_at = some now }) m refl stored in
      let same = find_message-id s.messages_by_task id m stored in
      (
        rw (stored, mark_message_read, recall_message, found_read) (ground arith),
        λ unread free.
            let may : refusal m ≡ none = rw (refusal, unread, free) refl in
            (
              rw (stored, recall_message, may) (ground arith),
              rw (stored, recall_message, may, recall, found_recalled) (ground arith),
            ),
      )
