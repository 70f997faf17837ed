-- ===== src/Store/Abort/Trees.antt =====
-- What an abort leaves of a tree and of its root, also one that halts (supervision/abort.ts).
use mathlib.Core.Option
use delta_agents.Common.{
  ℕ, String, ◌≡◌, refl, ◌∙◌, some, ◌∷◌, ◌++◌, Result, ok, err, arith, ◌⊎◌, includes, eq_refl, ap,
  inl, inr,
}
use delta_agents.Common.Dict
use delta_agents.Common.Dict.{get-put}
use delta_agents.Types.{TaskTree}
use delta_agents.State.{Task}
use delta_agents.Store.{Store, get_task_tree, update_task_tree}
use delta_agents.Store.Abort.{
  AbortError, clear_tree, KeptOrAborted, abort_all, abort_all-KeptOrAborted, abort_entire_tree,
  abort_found, abort_patch, abort_task, abort_task_lem, after, get_task_tree-same,
  get_task_tree-update_task_tree, tasks-update_task_tree,
}

module _ {S : Type 0} (now : String → ℕ) where
  abort_done-tree :
      (root : String) (done : Result AbortError (Unit {0}) × Store S) (tree : TaskTree)
      → get_task_tree root done.1 ≡ ok tree
      → let s'' =
          (after now done.0 (ok tt, (update_task_tree root clear_tree done.1).1) done.1).1 in
        (get_task_tree root s'' ≡ ok tree)
        ⊎ ((t : TaskTree) × (get_task_tree root s'' ≡ ok (clear_tree t)))
  abort_done-tree root (ok u, s) tree h =
      inr (tree, get_task_tree-update_task_tree now root clear_tree s tree h)
  abort_done-tree root (err e, s) tree h = inl h

  abort_found-tree :
      (root : String) (s : Store S) (found : Result String TaskTree)
      → get_task_tree root s ≡ found
      → (get_task_tree root (abort_found now root found s).1 ≡ found)
        ⊎ ((t : TaskTree) × (get_task_tree root (abort_found now root found s).1
              ≡ ok (clear_tree t)))
  unfolding abort_found
  abort_found-tree root s (err e) h = inl h
  abort_found-tree root s (ok tree) h =
      let ids = root ∷ tree.active_children ++ tree.queued_children in
      abort_done-tree root (abort_all now ids s) tree (
        get_task_tree-same now root s (abort_all now ids s).1 (abort_all-KeptOrAborted now ids s).0
        ∙ h)

  -- An abort of a tree, also one that halts, leaves the tree as it was or without children.
  pub get_task_tree-abort_entire_tree :
      (root : String) (s : Store S)
      → (get_task_tree root (abort_entire_tree now root s).1 ≡ get_task_tree root s)
        ⊎ ((t : TaskTree) × (get_task_tree root (abort_entire_tree now root s).1
              ≡ ok (clear_tree t)))
  unfolding abort_entire_tree
  get_task_tree-abort_entire_tree root s = abort_found-tree root s (get_task_tree root s) refl

  aborted_still :
      (root : String) (s s' : Store S) (t : Task S)
      → Dict.get s.tasks root ≡ some (abort_patch now root t)
      → KeptOrAborted now root s s'
      → Dict.get s'.tasks root ≡ some (abort_patch now root t)
  aborted_still root s s' t e (inl kept) = kept ∙ e
  aborted_still root s s' t e (inr again) = again ∙ ap (Option.map (abort_patch now root)) e

  tasks-after :
      (root : String) (done : Result AbortError (Unit {0}) × Store S)
      → (after now done.0 (ok tt, (update_task_tree root clear_tree done.1).1) done.1).1.tasks
        ≡ done.1.tasks
  tasks-after root (ok u, s) = tasks-update_task_tree now root clear_tree s
  tasks-after root (err e, s) = refl

  -- The root of a stored tree is aborted, whatever the abort of its children comes to.
  pub abort_entire_tree-root :
      (root : String) (s : Store S) (tree : TaskTree) (t : Task S)
      → get_task_tree root s ≡ ok tree
      → Dict.get s.tasks root ≡ some t
      → Dict.get (abort_entire_tree now root s).1.tasks root ≡ some (abort_patch now root t)
  unfolding abort_entire_tree abort_all includes
  abort_entire_tree-root root s tree t stored_tree stored =
      let rest = tree.active_children ++ tree.queued_children in
      let (ok_one, one, trees_one) = abort_task_lem now root s t stored in
      let s1 = (abort_task now root s).1 in
      let first : Dict.get s1.tasks root ≡ some (abort_patch now root t) =
        ground (arith, one root, eq_refl root) in
      let (trees, kept) = abort_all-KeptOrAborted now rest s1 in
      let still = aborted_still root s1 (abort_all now rest s1).1 t first (kept root) in
      rw (stored_tree, abort_found)
        (rw (tasks-after root (abort_all now (root ∷ rest) s)) (rw ok_one still))
