-- ===== src/Supervision/Slots.antt =====
-- The bound on active children, and the order of promotion (supervision/task-tree.ts): the tree is one
-- line of children in order of arrival, of which the first `max_concurrency` are active.
use delta_agents.Common.{
  Bool-cases, inl, inr, sym, ap, ◌∙◌, without-append, HasNoRepeats-apart, ◌+◌, ◌≤◌, ◌<◌, String,
  ◌≡◌, refl, ◌⊎◌, Option, none, some, get_elem?, true, false, List, [], ◌∷◌, ◌++◌, arith, length,
  length-append, includes, HasNoRepeats, HasNoRepeats-concat, without, without-absent,
  length-without, HasNoRepeats-without, HasNoRepeats-left, ltb,
}
use mathlib.Core.List.{append_assoc, append-nil}
use delta_agents.Types.{TaskTree}
use delta_agents.Supervision.{slot_tree, request_slot, promote, release_slot}

-- Every child that waits or runs, in order of arrival.
abbrev pub line : TaskTree → List String
line t = t.active_children ++ t.queued_children

pub record IsValid (t : TaskTree) : Type 0 where
  pub distinct : HasNoRepeats (line t)
  pub bounded : length t.active_children ≤ t.max_concurrency
  pub busy : 0 < length t.queued_children → length t.active_children ≡ t.max_concurrency

empty_of_length : (xs : List String) → ¬ (0 < length xs) → xs ≡ []
empty_of_length [] h = refl
empty_of_length (x ∷ xs) h = absurd (h (omega arith))

queue_empty :
    (t : TaskTree)
    → IsValid t
    → length t.active_children < t.max_concurrency
    → t.queued_children ≡ []
queue_empty t v h = empty_of_length t.queued_children λ waiting. ground (arith, v.busy waiting)

-- A request for a new child puts it at the end of the line of a valid tree, and keeps the tree valid.
pub request_slot-IsValid :
    (t : TaskTree) (id : String)
    → IsValid t
    → includes (line t) id ≡ false
    → IsValid (slot_tree (request_slot t id))
      × (line (slot_tree (request_slot t id)) ≡ line t ++ id ∷ [])
unfolding request_slot
request_slot-IsValid t id v h =
    elim (Bool-cases (ltb (length t.active_children) t.max_concurrency)) [
      | inl room ↦ rw room (
          let e = queue_empty t v (ground arith) in
          let same : (t.active_children ++ id ∷ []) ++ t.queued_children ≡ line t ++ id ∷ [] =
            rw e (
              append-nil (t.active_children ++ id ∷ [])
              ∙ ap (λ l. l ++ id ∷ []) (sym (append-nil t.active_children))) in
          (
            record {
              distinct = rw same (HasNoRepeats-concat (line t) id h v.distinct);
              bounded = ground (arith, length-append t.active_children (id ∷ []));
              busy = λ waiting. ground arith;
            },
            same,
          ))
      | inr full ↦ rw full (
          let same : t.active_children ++ (t.queued_children ++ id ∷ []) ≡ line t ++ id ∷ [] =
            sym (append_assoc t.active_children t.queued_children (id ∷ [])) in
          (
            record {
              distinct = rw same (HasNoRepeats-concat (line t) id h v.distinct);
              bounded = v.bounded;
              busy = λ waiting. ground (arith, v.bounded);
            },
            same,
          ))
    ]

-- the child that is started, as a list
abbrev pub started : Option String → List String
started none = []
started (some id) = id ∷ []

promote-starts :
    (t : TaskTree) (active queue : List String)
    → t.queued_children ≡ queue
    → let r = promote t active queue in
      (r.promoted ≡ get_elem? queue 0)
      × (r.tree.active_children ≡ active ++ started r.promoted)
      × (queue ≡ started r.promoted ++ r.tree.queued_children)
unfolding promote
promote-starts t active [] e = (refl, sym (append-nil active), sym e)
promote-starts t active (head ∷ rest) e = (refl, refl, refl)

promote-IsValid :
    (t : TaskTree) (active queue : List String)
    → t.queued_children ≡ queue
    → HasNoRepeats (active ++ queue)
    → length active ≤ t.max_concurrency
    → (0 < length queue → length active + 1 ≡ t.max_concurrency)
    → IsValid (promote t active queue).tree × (line (promote t active queue).tree ≡ active ++ queue)
unfolding promote
promote-IsValid t active [] e distinct bounded slot = (
  record { distinct = rw e distinct; bounded = bounded; busy = λ waiting. absurd (ground arith) },
  rw e,
)
promote-IsValid t active (head ∷ rest) e distinct bounded slot =
    let same : (active ++ head ∷ []) ++ rest ≡ active ++ head ∷ rest =
      append_assoc active (head ∷ []) rest in
    let full = slot (omega arith) in
    let longer = length-append active (head ∷ []) in
    (
      record { distinct = rw same distinct; bounded = omega arith; busy = λ waiting. omega arith },
      same,
    )

-- A release of an active child of a valid tree takes it out of the line and keeps the tree valid. The
-- child that is reported as promoted is the head of the queue, and none where the queue is empty: it is
-- moved from the queue to the end of the active children, which are else those that are left.
pub release_slot-IsValid :
    (t : TaskTree) (id : String)
    → IsValid t
    → includes t.active_children id ≡ true
    → let r = release_slot t id in
      IsValid r.tree
      × (line r.tree ≡ without (line t) id)
      × (r.promoted ≡ get_elem? t.queued_children 0)
      × (r.tree.active_children ≡ without t.active_children id ++ started r.promoted)
      × (t.queued_children ≡ started r.promoted ++ r.tree.queued_children)
unfolding release_slot
release_slot-IsValid t id v h =
    let fewer =
      length-without t.active_children id
        (HasNoRepeats-left t.active_children t.queued_children v.distinct) h in
    let apart =
      without-absent t.queued_children id
        (HasNoRepeats-apart t.active_children t.queued_children id v.distinct h) in
    let shorter : without (line t) id ≡ without t.active_children id ++ t.queued_children =
      without-append t.active_children t.queued_children id
      ∙ ap (λ q. without t.active_children id ++ q) apart in
    let distinct = HasNoRepeats-without t.active_children t.queued_children id v.distinct in
    let (valid, same) =
      promote-IsValid t (without t.active_children id) t.queued_children refl distinct
        (omega (arith, v.bounded)) (λ waiting. omega (arith, v.busy waiting)) in
    let (promoted, active, queue) =
      promote-starts t (without t.active_children id) t.queued_children refl in
    (valid, same ∙ sym shorter, promoted, active, queue)

-- Releasing a child that is not active, with a child waiting and every slot taken, starts one child
-- too many.
pub release_slot-overflow :
    (t : TaskTree) (id head : String) (rest : List String)
    → length t.active_children ≡ t.max_concurrency
    → includes t.active_children id ≡ false
    → t.queued_children ≡ head ∷ rest
    → t.max_concurrency < length (release_slot t id).tree.active_children
unfolding release_slot
release_slot-overflow t id head rest full absent waiting =
    ground (arith, without-absent t.active_children id, length-append t.active_children (head ∷ []))

promote-waiting :
    (t : TaskTree) (active queue : List String)
    → t.queued_children ≡ queue
    → ((promote t active queue).promoted ≡ none)
        × (length (promote t active queue).tree.queued_children ≡ length queue)
      ⊎ (head : String) × ((promote t active queue).promoted ≡ some head)
        × (length (promote t active queue).tree.queued_children + 1 ≡ length queue)
unfolding promote
promote-waiting t active [] e = inl (refl, ap length e)
promote-waiting t active (head ∷ rest) e = inr (head, refl, omega arith)

-- A release starts no child and keeps the queue, or starts one and makes the queue shorter by one.
pub release_slot-waiting :
    (t : TaskTree) (id : String)
    → ((release_slot t id).promoted ≡ none)
        × (length (release_slot t id).tree.queued_children ≡ length t.queued_children)
      ⊎ (head : String) × ((release_slot t id).promoted ≡ some head)
        × (length (release_slot t id).tree.queued_children + 1 ≡ length t.queued_children)
unfolding release_slot
release_slot-waiting t id = promote-waiting t (without t.active_children id) t.queued_children refl
