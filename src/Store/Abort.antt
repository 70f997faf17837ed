-- ===== src/Store/Abort.antt =====
-- packages/delta/src/supervision/abort.ts: the abort of a task and of a whole tree, over the store.
-- `now id` is the time at which the record of `id` is updated.
pub mod Halting
pub mod Trees
use mathlib.Core.Option
use delta_agents.Common.{
  ℕ, String, ◌≡◌, refl, ◌∙◌, Bool, true, false, Option, none, some, List, [], ◌∷◌, ◌++◌, Result, ok,
  err, arith, ◌⊎◌, includes, All, is_some, eq_iff, eq_refl, ap, if◌then◌else◌, Option-cases, inl,
  inr,
}
use delta_agents.Common.Dict
use delta_agents.Common.Dict.{get-put}
use delta_agents.Types.{TaskTree, aborted}
use delta_agents.State.{Task}
use delta_agents.Store.{Store, patch_task, patch_tree, update_task, get_task_tree, update_task_tree}

pub data AbortError : Type 0 where
  task_not_updated tree_not_found : String → AbortError

abbrev pub clear_tree : TaskTree → TaskTree
clear_tree tree = record tree { active_children = []; queued_children = [] }

module _ {S : Type 0} (now : String → ℕ) where
  abbrev pub abort_patch : String → Task S → Task S
  abort_patch id t = record t { status = aborted; updated_at = now id }

  abort_result : String → Result String (Task S) → Result AbortError (Unit {0})
  abort_result id (ok t) = ok tt
  abort_result id (err e) = err (task_not_updated id)

  pub abort_task : String → Store S → Result AbortError (Unit {0}) × Store S
  unfolding abort_result
  abort_task id s = let (r, s') = update_task id (abort_patch id) s in (abort_result id r, s')

  abbrev pub after :
      Result AbortError (Unit {0})
      → (Result AbortError (Unit {0}) × Store S)
      → Store S
      → Result AbortError (Unit {0}) × Store S
  after (ok u) rest s = rest
  after (err e) rest s = (err e, s)

  -- the loop halts at the first failure
  pub abort_all : List String → Store S → Result AbortError (Unit {0}) × Store S
  abort_all [] s = (ok tt, s)
  abort_all (id ∷ ids) s =
      let (r, s') = abort_task id s in let rest = abort_all ids s' in after r rest s'

  pub abort_found :
      String → Result String TaskTree → Store S → Result AbortError (Unit {0}) × Store S
  abort_found root (err e) s = (err (tree_not_found root), s)
  abort_found root (ok tree) s =
      let (r, s') = abort_all (root ∷ tree.active_children ++ tree.queued_children) s in
      after r (ok tt, (update_task_tree root clear_tree s').1) s'

  pub abort_entire_tree : String → Store S → Result AbortError (Unit {0}) × Store S
  unfolding abort_found
  abort_entire_tree root s = abort_found root (get_task_tree root s) s

  -- The tasks after an abort of `ids`.
  abbrev pub AbortedExactly : List String → Store S → Store S → Type 0
  AbortedExactly ids s s' =
      (j : String)
      → Dict.get s'.tasks j ≡ (
          if includes ids j
          then Option.map (abort_patch j) (Dict.get s.tasks j)
          else Dict.get s.tasks j)

  abbrev pub AllStored : List String → Store S → Type 0
  AllStored ids s = All (λ id. is_some (Dict.get s.tasks id) ≡ true) ids

  -- one task that is in the store
  pub abort_task_lem :
      (id : String) (s : Store S) (t : Task S)
      → Dict.get s.tasks id ≡ some t
      → ((abort_task id s).0 ≡ ok tt)
        × AbortedExactly (id ∷ []) s (abort_task id s).1
        × ((abort_task id s).1.task_trees ≡ s.task_trees)
  unfolding abort_task update_task includes
  abort_task_lem id s t e = (
    rw (e, patch_task),
    λ j. rw (e, patch_task) (ground (arith, get-put s.tasks id j (abort_patch id t), eq_iff id j)),
    rw (e, patch_task),
  )

  -- one task that is not
  pub abort_task_missing :
      (id : String) (s : Store S)
      → Dict.get s.tasks id ≡ none
      → abort_task id s ≡ (err (task_not_updated id), s)
  unfolding abort_task update_task
  abort_task_missing id s e = rw (e, patch_task)

  AllStored-after :
      (ids done : List String) (s s' : Store S)
      → AbortedExactly done s s'
      → AllStored ids s
      → AllStored ids s'
  AllStored-after [] done s s' a h = tt
  AllStored-after (id ∷ ids) done s s' a (p, h) =
      (ground (arith, a id), AllStored-after ids done s s' a h)

  pub patch_twice :
      (j : String) (o : Option (Task S))
      → Option.map (abort_patch j) (Option.map (abort_patch j) o) ≡ Option.map (abort_patch j) o
  patch_twice j none = refl
  patch_twice j (some t) = refl

  abort_all_lem :
      (ids : List String) (s : Store S)
      → AllStored ids s
      → ((abort_all ids s).0 ≡ ok tt)
        × AbortedExactly ids s (abort_all ids s).1
        × ((abort_all ids s).1.task_trees ≡ s.task_trees)
  unfolding abort_all includes
  abort_all_lem [] s h = (refl, λ j. refl, refl)
  abort_all_lem (id ∷ ids) s (p, h) = elim (Option-cases (Dict.get s.tasks id)) [
    | inl e ↦ absurd (ground arith)
    | inr (t, e) ↦
        let (ok_one, one, trees_one) = abort_task_lem id s t e in
        let s' = (abort_task id s).1 in
        let (ok_all, all, trees_all) =
          abort_all_lem ids s' (AllStored-after ids (id ∷ []) s s' one h) in
        (
          rw ok_one ok_all,
          rw ok_one
              (λ j. all j ∙ ground (arith, one j, patch_twice j (Dict.get s.tasks j), eq_iff id j)),
          rw ok_one (trees_all ∙ trees_one),
        )
  ]

  pub tasks-update_task_tree :
      (root : String) (f : TaskTree → TaskTree) (s : Store S)
      → (update_task_tree root f s).1.tasks ≡ s.tasks
  unfolding update_task_tree
  tasks-update_task_tree root f s = ground arith

  pub get_task_tree-update_task_tree :
      (root : String) (f : TaskTree → TaskTree) (s : Store S) (tree : TaskTree)
      → get_task_tree root s ≡ ok tree
      → get_task_tree root (update_task_tree root f s).1 ≡ ok (f tree)
  unfolding get_task_tree update_task_tree
  get_task_tree-update_task_tree root f s tree e =
      elim (Option-cases (Dict.get s.task_trees root)) [
        | inl missing ↦ absurd (ground arith)
        | inr (t, stored) ↦
            rw (stored, patch_tree)
              (ground (arith, get-put s.task_trees root root (f t), eq_refl root))
      ]

  pub get_task_tree-same :
      (root : String) (s s' : Store S)
      → s'.task_trees ≡ s.task_trees
      → get_task_tree root s' ≡ get_task_tree root s
  unfolding get_task_tree
  get_task_tree-same root s s' e = rw e

  -- Aborting a stored tree whose tasks are all stored succeeds: the root, every active and every queued
  -- child become aborted, no other task changes, and the tree holds no child any more.
  pub abort_entire_tree_lem :
      (root : String) (s : Store S) (tree : TaskTree)
      → get_task_tree root s ≡ ok tree
      → AllStored (root ∷ tree.active_children ++ tree.queued_children) s
      → ((abort_entire_tree root s).0 ≡ ok tt)
        × AbortedExactly
            (root ∷ tree.active_children ++ tree.queued_children)
            s
            (abort_entire_tree root s).1
        × (get_task_tree root (abort_entire_tree root s).1 ≡ ok (clear_tree tree))
  unfolding abort_entire_tree
  abort_entire_tree_lem root s tree e h =
      let ids = root ∷ tree.active_children ++ tree.queued_children in
      let (fine, all, trees) = abort_all_lem ids s h in
      let s' = (abort_all ids s).1 in
      rw e (
        rw fine (
          refl,
          λ j. rw tasks-update_task_tree (all j),
          get_task_tree-update_task_tree root clear_tree s' tree
              (get_task_tree-same root s s' trees ∙ e),
        ))

  abbrev pub KeptOrAborted : String → Store S → Store S → Type 0
  KeptOrAborted j s s' =
      (Dict.get s'.tasks j ≡ Dict.get s.tasks j)
      ⊎ (Dict.get s'.tasks j ≡ Option.map (abort_patch j) (Dict.get s.tasks j))

  kept_or_aborted :
      (j : String) (b : Bool) (s s' s'' : Store S)
      → KeptOrAborted j s' s''
      → Dict.get s'.tasks j
        ≡ (if b then Option.map (abort_patch j) (Dict.get s.tasks j) else Dict.get s.tasks j)
      → KeptOrAborted j s s''
  kept_or_aborted j true s s' s'' (inl p) e = inr (p ∙ e)
  kept_or_aborted j false s s' s'' (inl p) e = inl (p ∙ e)
  kept_or_aborted j true s s' s'' (inr p) e =
      inr (p ∙ ap (Option.map (abort_patch j)) e ∙ patch_twice j (Dict.get s.tasks j))
  kept_or_aborted j false s s' s'' (inr p) e = inr (p ∙ ap (Option.map (abort_patch j)) e)

  -- The loop of aborts changes no tree, also where it halts at a failure, and leaves every task as it
  -- was or aborted.
  pub abort_all-KeptOrAborted :
      (ids : List String) (s : Store S)
      → ((abort_all ids s).1.task_trees ≡ s.task_trees)
        × ((j : String) → KeptOrAborted j s (abort_all ids s).1)
  unfolding abort_all
  abort_all-KeptOrAborted [] s = (refl, λ j. inl refl)
  abort_all-KeptOrAborted (id ∷ ids) s = elim (Option-cases (Dict.get s.tasks id)) [
    | inl e ↦ rw (abort_task_missing id s e) (refl, λ j. inl refl)
    | inr (t, e) ↦
        let (ok_one, one, trees_one) = abort_task_lem id s t e in
        let (trees_rest, rest) = abort_all-KeptOrAborted ids (abort_task id s).1 in
        rw ok_one (
          trees_rest ∙ trees_one,
          λ j.
              kept_or_aborted j (includes (id ∷ []) j) s (abort_task id s).1
                (abort_all ids (abort_task id s).1).1 (rest j) (one j),
        )
  ]
