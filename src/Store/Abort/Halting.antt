-- ===== src/Store/Abort/Halting.antt =====
-- The loop of aborts: all of the tasks, or those before the first that is missing (supervision/abort.ts).
use delta_agents.Common.{
  ℕ, String, ◌≡◌, refl, ◌∙◌, true, none, List, [], ◌∷◌, ◌++◌, Result, ok, err, arith, ◌⊎◌, includes,
  is_some, eq_iff, ap, Option-cases, inl, inr,
}
use delta_agents.Common.Dict
use delta_agents.Common.Dict.{get-put}
use delta_agents.Store.{Store}
use delta_agents.Store.Abort.{
  AbortError, task_not_updated, AbortedExactly, AllStored, abort_all, abort_all-KeptOrAborted,
  abort_task, abort_task_lem, abort_task_missing, patch_twice,
}

module _ {S : Type 0} (now : String → ℕ) where
  AllStored-before :
      (ids done : List String) (s s' : Store S)
      → AbortedExactly now done s s'
      → AllStored now ids s'
      → AllStored now ids s
  AllStored-before [] done s s' a h = tt
  AllStored-before (id ∷ ids) done s s' a (p, h) =
      (ground (arith, a id), AllStored-before ids done s s' a h)

  -- What a loop over `ids` comes to: all are stored and aborted, or it halts at the first that is not
  -- stored, with its error, those before it aborted.
  abbrev pub HaltsOrEnds : List String → Store S → Result AbortError (Unit {0}) × Store S → Type 0
  HaltsOrEnds ids s (r, s') =
      AllStored now ids s × (r ≡ ok tt) × AbortedExactly now ids s s'
      ⊎ (before : List String) × (id : String) × (later : List String) × (ids
          ≡ before ++ id ∷ later)
        × AllStored now before s
        × (Dict.get s.tasks id ≡ none)
        × (r ≡ err (task_not_updated id))
        × AbortedExactly now before s s'

  aborted_more :
      (id : String) (ids : List String) (s s' s'' : Store S)
      → AbortedExactly now (id ∷ []) s s'
      → AbortedExactly now ids s' s''
      → AbortedExactly now (id ∷ ids) s s''
  unfolding includes
  aborted_more id ids s s' s'' one all j =
      all j ∙ ground (arith, one j, patch_twice now j (Dict.get s.tasks j), eq_iff id j)

  HaltsOrEnds-cons :
      (id : String) (ids : List String) (s s' : Store S)
      (out : Result AbortError (Unit {0}) × Store S)
      → is_some (Dict.get s.tasks id) ≡ true
      → AbortedExactly now (id ∷ []) s s'
      → HaltsOrEnds ids s' out
      → HaltsOrEnds (id ∷ ids) s out
  HaltsOrEnds-cons id ids s s' (r, s'') here one (inl (stored, fine, all)) = inl (
    (here, AllStored-before ids (id ∷ []) s s' one stored),
    fine,
    aborted_more id ids s s' s'' one all,
  )
  HaltsOrEnds-cons id ids s s' (r, s'') here one
        (inr (before, x, later, there, stored, missing, failed, all)) =
      inr (
        id ∷ before,
        x,
        later,
        ap (λ l. id ∷ l) there,
        (here, AllStored-before before (id ∷ []) s s' one stored),
        ground (arith, one x),
        failed,
        aborted_more id before s s' s'' one all,
      )

  halts_or_ends : (ids : List String) (s : Store S) → HaltsOrEnds ids s (abort_all now ids s)
  unfolding abort_all includes
  halts_or_ends [] s = inl (tt, refl, λ j. refl)
  halts_or_ends (id ∷ ids) s = elim (Option-cases (Dict.get s.tasks id)) [
    | inl e ↦ rw (abort_task_missing now id s e) (inr ([], id, ids, refl, tt, e, refl, λ j. refl))
    | inr (t, e) ↦
        let (ok_one, one, trees) = abort_task_lem now id s t e in
        rw ok_one (
          HaltsOrEnds-cons id ids s (abort_task now id s).1
            (abort_all now ids (abort_task now id s).1) (ground arith) one
            (halts_or_ends ids (abort_task now id s).1))
  ]

  -- The loop of aborts changes no tree. Where all tasks are stored it succeeds, and exactly they become
  -- aborted. Else it halts at the first that is not stored, with its error: exactly the tasks before it
  -- become aborted, and none after it.
  pub abort_all_halts :
      (ids : List String) (s : Store S)
      → ((abort_all now ids s).1.task_trees ≡ s.task_trees)
        × HaltsOrEnds ids s (abort_all now ids s)
  unfolding abort_all
  abort_all_halts ids s = ((abort_all-KeptOrAborted now ids s).0, halts_or_ends ids s)
