-- ===== src/Common/Sorting.antt =====
-- `[...xs].sort(compare)`, which is stable, and `xs.slice(0, n)`. `before a b` says that `compare` puts
-- `a` strictly before `b`.
use Prim.Native.Nat.{ℕ, zero, suc, ◌≤◌, min}
use mathlib.Core.Path.{◌≡◌, refl, ap}
use mathlib.Core.Bool.{Bool, true}
use mathlib.Core.List.{List, [], ◌∷◌, ◌++◌, Perm}
use mathlib.Core.List.Perm
use mathlib.Core.Logic.{inl, inr}
use native.Mathlib.Omega.{arith}
use delta_agents.Common.Tests.{if◌then◌else◌, Bool-cases, ltb}
use delta_agents.Common.Lists.{length, filter, All}

module _ {ℓ} {A : Type ℓ} where
  unfoldable pub insert : (A → A → Bool) → A → List A → List A
  insert before x [] = x ∷ []
  insert before x (y ∷ ys) =
      let rest = insert before x ys in if before y x then y ∷ rest else x ∷ y ∷ ys

  unfoldable pub sort : (A → A → Bool) → List A → List A
  unfolding insert
  sort before [] = []
  sort before (x ∷ xs) = insert before x (sort before xs)

  unfoldable pub take : ℕ → List A → List A
  take n [] = []
  take zero (x ∷ xs) = []
  take (suc n) (x ∷ xs) = x ∷ take n xs

  -- what `take` leaves
  unfoldable pub drop : ℕ → List A → List A
  drop n [] = []
  drop zero (x ∷ xs) = x ∷ xs
  drop (suc n) (x ∷ xs) = drop n xs

  pub take-drop : (n : ℕ) (xs : List A) → take n xs ++ drop n xs ≡ xs
  unfolding take drop
  take-drop n [] = refl
  take-drop zero (x ∷ xs) = refl
  take-drop (suc n) (x ∷ xs) = ap (λ ys. x ∷ ys) (take-drop n xs)

  -- latest first, by a time
  abbrev pub newest_first : (A → ℕ) → List A → List A
  newest_first time = sort (λ a b. ltb (time b) (time a))

  pub length-take : (n : ℕ) (xs : List A) → length (take n xs) ≡ min n (length xs)
  unfolding take
  length-take n [] = ground arith
  length-take zero (x ∷ xs) = ground arith
  length-take (suc n) (x ∷ xs) = ground (arith, length-take n xs)

  filter-insert :
      (p : A → Bool) (before : A → A → Bool) (x : A) (xs : List A)
      → length (filter p (insert before x xs)) ≡ length (filter p (x ∷ xs))
  unfolding insert filter
  filter-insert p before x [] = refl
  filter-insert p before x (y ∷ ys) = ground (arith, filter-insert p before x ys)

  -- sorting keeps how many satisfy any test
  pub filter-sort :
      (p : A → Bool) (before : A → A → Bool) (xs : List A)
      → length (filter p (sort before xs)) ≡ length (filter p xs)
  unfolding sort filter
  filter-sort p before [] = refl
  filter-sort p before (x ∷ xs) =
      ground (arith, filter-insert p before x (sort before xs), filter-sort p before xs)

  length-insert :
      (before : A → A → Bool) (x : A) (xs : List A) → length (insert before x xs) ≡ suc (length xs)
  unfolding insert
  length-insert before x [] = refl
  length-insert before x (y ∷ ys) = ground (arith, length-insert before x ys)

  pub length-sort : (before : A → A → Bool) (xs : List A) → length (sort before xs) ≡ length xs
  unfolding sort filter
  length-sort before [] = refl
  length-sort before (x ∷ xs) =
      ground (arith, length-insert before x (sort before xs), length-sort before xs)

  insert-perm : (before : A → A → Bool) (x : A) (xs : List A) → Perm (insert before x xs) (x ∷ xs)
  unfolding insert
  insert-perm before x [] = Perm.refl (x ∷ [])
  insert-perm before x (y ∷ ys) = elim (Bool-cases (before y x)) [
    | inl e ↦ rw e (Perm.trans (Perm.cons y (insert-perm before x ys)) (Perm.swap x y ys))
    | inr e ↦ rw e (Perm.refl (x ∷ y ∷ ys))
  ]

  pub sort-perm : (before : A → A → Bool) (xs : List A) → Perm (sort before xs) xs
  unfolding sort
  sort-perm before [] = Perm.refl []
  sort-perm before (x ∷ xs) =
      Perm.trans (insert-perm before x (sort before xs)) (Perm.cons x (sort-perm before xs))

  -- what a filter keeps satisfies its test
  pub filter-All : (p : A → Bool) (xs : List A) → All (λ x. p x ≡ true) (filter p xs)
  unfolding filter
  filter-All p [] = tt
  filter-All p (x ∷ xs) =
      let rest = filter-All p xs in
      elim (Bool-cases (p x)) [ inl e ↦ rw e (e, rest) | inr e ↦ rw e rest ]

  pub All-both {κ μ} :
      (P : A → Type κ) (Q : A → Type μ) (xs : List A)
      → All P xs
      → All Q xs
      → All (λ x. P x × Q x) xs
  All-both P Q [] h k = tt
  All-both P Q (x ∷ xs) (p, h) (q, k) = ((p, q), All-both P Q xs h k)

  pub All-map {κ μ} :
      (P : A → Type κ) (Q : A → Type μ) (f : (x : A) → P x → Q x) (xs : List A)
      → All P xs
      → All Q xs
  All-map P Q f [] h = tt
  All-map P Q f (x ∷ xs) (px, h) = (f x px, All-map P Q f xs h)

  module _ {κ} (P : A → Type κ) where
    All-insert :
        (before : A → A → Bool) (x : A) (xs : List A) → P x → All P xs → All P (insert before x xs)
    unfolding insert
    All-insert before x [] px h = (px, tt)
    All-insert before x (y ∷ ys) px (py, h) =
        let rest = All-insert before x ys px h in
        elim (Bool-cases (before y x)) [ inl e ↦ rw e (py, rest) | inr e ↦ rw e (px, (py, h)) ]

    pub All-sort : (before : A → A → Bool) (xs : List A) → All P xs → All P (sort before xs)
    unfolding sort
    All-sort before [] h = tt
    All-sort before (x ∷ xs) (px, h) =
        All-insert before x (sort before xs) px (All-sort before xs h)

    All-end : (xs ys : List A) → All P (xs ++ ys) → All P ys
    All-end [] ys h = h
    All-end (x ∷ xs) ys (px, h) = All-end xs ys h

    pub All-take : (n : ℕ) (xs : List A) → All P xs → All P (take n xs)
    unfolding take
    All-take n [] h = tt
    All-take zero (x ∷ xs) h = tt
    All-take (suc n) (x ∷ xs) (px, h) = (px, All-take n xs h)

    pub All-filter : (p : A → Bool) (xs : List A) → All P xs → All P (filter p xs)
    unfolding filter
    All-filter p [] h = tt
    All-filter p (x ∷ xs) (px, h) =
        let rest = All-filter p xs h in
        elim (Bool-cases (p x)) [ inl e ↦ rw e (px, rest) | inr e ↦ rw e rest ]

  module _ (time : A → ℕ) where
    -- no entry is older than one that follows it
    abbrev pub IsNewestFirst : List A → Type 0
    IsNewestFirst [] = Unit
    IsNewestFirst (x ∷ xs) = All (λ y. time y ≤ time x) xs × IsNewestFirst xs

    older_than :
        (m n : ℕ) (xs : List A) → m ≤ n → All (λ y. time y ≤ m) xs → All (λ y. time y ≤ n) xs
    older_than m n [] le h = tt
    older_than m n (x ∷ xs) le (p, h) = (omega arith, older_than m n xs le h)

    newest-insert :
        (x : A) (xs : List A)
        → IsNewestFirst xs
        → IsNewestFirst (insert (λ a b. ltb (time b) (time a)) x xs)
    unfolding insert
    newest-insert x [] h = (tt, tt)
    newest-insert x (y ∷ ys) (older, h) = elim (Bool-cases (ltb (time x) (time y))) [
      | inl e ↦ rw e (
        All-insert (λ z. time z ≤ time y) (λ a b. ltb (time b) (time a)) x ys (ground arith) older,
        newest-insert x ys h,
      )
      | inr e ↦
          rw e ((ground arith, older_than (time y) (time x) ys (ground arith) older), (older, h))
    ]

    pub newest_first-IsNewestFirst : (xs : List A) → IsNewestFirst (newest_first time xs)
    unfolding sort
    newest_first-IsNewestFirst [] = tt
    newest_first-IsNewestFirst (x ∷ xs) =
        newest-insert x (newest_first time xs) (newest_first-IsNewestFirst xs)

    -- no entry of the end is later than one of the start
    pub IsNewestFirst-later :
        (xs ys : List A) → IsNewestFirst (xs ++ ys) → All (λ x. All (λ y. time y ≤ time x) ys) xs
    IsNewestFirst-later [] ys h = tt
    IsNewestFirst-later (x ∷ xs) ys (older, h) =
        (All-end (λ y. time y ≤ time x) xs ys older, IsNewestFirst-later xs ys h)

    pub take-IsNewestFirst : (n : ℕ) (xs : List A) → IsNewestFirst xs → IsNewestFirst (take n xs)
    unfolding take
    take-IsNewestFirst n [] h = tt
    take-IsNewestFirst zero (x ∷ xs) h = tt
    take-IsNewestFirst (suc n) (x ∷ xs) (older, h) =
        (All-take (λ y. time y ≤ time x) n xs older, take-IsNewestFirst n xs h)
