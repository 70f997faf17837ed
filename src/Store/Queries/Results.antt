-- ===== src/Store/Queries/Results.antt =====
-- What the queries of ports/in-memory-store.ts return.
use delta_agents.Common.{
  ℕ, ◌≤◌, ◌++◌, subst, sym, [], drop, take-drop, sort-perm, IsNewestFirst-later, min, String, ◌≡◌,
  refl, Bool, true, Option, none, some, List, ◌==◌, or_else, arith, ap, ltb, eq_iff, filter, length,
  length-sort, length-take, take, All, All-take, All-sort, All-filter, All-both, All-map,
  filter-All, IsNewestFirst, newest_first, newest_first-IsNewestFirst, take-IsNewestFirst,
}
use mathlib.Core.List.{Perm, append-nil}
use delta_agents.Common.Dict
use delta_agents.Types.{ExecutionStatus, Commit, CommitQuery}
use delta_agents.State.{Task}
use delta_agents.Store.{Store}
use delta_agents.Store.Queries.{
  limited, has_status, updated_first, get_tasks_by_agent, search_commits,
}

abbrev pub up_to : Option ℕ → ℕ → ℕ
up_to none n = n
up_to (some limit) n = min limit n

module _ {A : Type 0} where
  length-limited :
      (limit : Option ℕ) (xs : List A) → length (limited limit xs) ≡ up_to limit (length xs)
  length-limited none xs = refl
  length-limited (some n) xs = length-take n xs

  -- what a limit leaves out
  pub left_out : Option ℕ → List A → List A
  left_out none xs = []
  left_out (some n) xs = drop n xs

  limited-left_out : (limit : Option ℕ) (xs : List A) → limited limit xs ++ left_out limit xs ≡ xs
  unfolding left_out
  limited-left_out none xs = append-nil xs
  limited-left_out (some n) xs = take-drop n xs

  -- The list `found` has the latest of `all`, latest first: with those that are left out, of which none
  -- is later than one that was found, it has the entries of `all`, each as often.
  abbrev pub AreLatest : (A → ℕ) → List A → List A → Type 0
  AreLatest time found all =
      IsNewestFirst time found
      × (rest : List A) × Perm (found ++ rest) all
      × All (λ x. All (λ y. time y ≤ time x) rest) found

  limited-IsNewestFirst :
      (time : A → ℕ) (limit : Option ℕ) (xs : List A)
      → IsNewestFirst time xs
      → IsNewestFirst time (limited limit xs)
  limited-IsNewestFirst time none xs h = h
  limited-IsNewestFirst time (some n) xs h = take-IsNewestFirst time n xs h

  limited-AreLatest :
      (time : A → ℕ) (limit : Option ℕ) (xs : List A)
      → AreLatest time (limited limit (newest_first time xs)) xs
  limited-AreLatest time limit xs =
      let sorted = newest_first time xs in
      let split = limited-left_out limit sorted in
      let ordered = newest_first-IsNewestFirst time xs in
      (
        limited-IsNewestFirst time limit sorted ordered,
        left_out limit sorted,
        rw split (sort-perm (λ a b. ltb (time b) (time a)) xs),
        IsNewestFirst-later time (limited limit sorted) (left_out limit sorted)
            (subst (IsNewestFirst time) (sym split) ordered),
      )

  All-limited :
      (P : A → Type 0) (limit : Option ℕ) (xs : List A) → All P xs → All P (limited limit xs)
  All-limited P none xs h = h
  All-limited P (some n) xs h = All-take P n xs h

  newest-take :
      (time : A → ℕ) (n : ℕ) (xs : List A)
      → IsNewestFirst time (take n (newest_first time xs))
        × (length (take n (newest_first time xs)) ≤ n)
  newest-take time n xs = (
    take-IsNewestFirst time n (newest_first time xs) (newest_first-IsNewestFirst time xs),
    omega (arith, length-take n (newest_first time xs)),
  )

module _ {S : Type 0} where
  -- the tasks that a query is about
  abbrev pub matches : String → Option (List ExecutionStatus) → List (Task S) → List (Task S)
  matches agent_name statuses tasks =
      filter (λ t. has_status statuses t.status)
        (filter (λ t. t.assigned_agent == agent_name) tasks)

  -- The tasks of an agent are those of the store that match, or as many of them as the limit lets
  -- through, latest update first: none that the limit leaves out was updated later than one that is
  -- returned, and none is returned more often than it is stored. All are of the agent and have one of the
  -- statuses that were asked for.
  pub get_tasks_by_agent_lem :
      (agent_name : String) (statuses : Option (List ExecutionStatus)) (limit : Option ℕ)
      (s : Store S)
      → let found = get_tasks_by_agent agent_name statuses limit s in
        AreLatest (λ t. t.updated_at) found (matches agent_name statuses (Dict.values s.tasks))
        × All (λ t. (t.assigned_agent ≡ agent_name) × (has_status statuses t.status ≡ true)) found
        × (length found ≡ up_to limit (length (matches agent_name statuses (Dict.values s.tasks))))
  unfolding get_tasks_by_agent
  get_tasks_by_agent_lem agent_name statuses limit s =
      let its = filter (λ (t : Task S). t.assigned_agent == agent_name) (Dict.values s.tasks) in
      let right = filter (λ (t : Task S). has_status statuses t.status) its in
      let P =
        λ (t : Task S). (t.assigned_agent ≡ agent_name) × (has_status statuses t.status ≡ true) in
      let both =
        All-both (λ t. (t.assigned_agent == agent_name) ≡ true)
          (λ t. has_status statuses t.status ≡ true) right
          (All-filter (λ (t : Task S). (t.assigned_agent == agent_name) ≡ true)
            (λ t. has_status statuses t.status) its
            (filter-All (λ t. t.assigned_agent == agent_name) (Dict.values s.tasks)))
          (filter-All (λ t. has_status statuses t.status) its) in
      (
        limited-AreLatest (λ t. t.updated_at) limit right,
        All-limited P limit (updated_first right) (
            All-sort P (λ a b. ltb b.updated_at a.updated_at) right
              (All-map
                (λ (t : Task S).
                  ((t.assigned_agent == agent_name) ≡ true) × (has_status statuses t.status ≡ true))
                P (λ t h. (ground (arith, eq_iff t.assigned_agent agent_name, h.0), h.1)) right
                both)),
        omega (
          arith,
          length-limited limit (updated_first right),
          ap (up_to limit) (length-sort (λ (a b : Task S). ltb b.updated_at a.updated_at) right),
        ),
      )

  -- A search of the commits returns at most as many as its limit, or twenty, latest first.
  pub search_commits_lem :
      (mentions : String → String → Bool) (query : CommitQuery) (agent : String) (s : Store S)
      → IsNewestFirst (λ c. c.created_at) (search_commits mentions query agent s)
        × (length (search_commits mentions query agent s) ≤ or_else query.limit 20)
  unfolding search_commits
  search_commits_lem mentions query agent s =
      newest-take (λ (c : Commit). c.created_at) (or_else query.limit 20) _
