-- ===== src/Common/Names.antt =====
-- Lists of names: membership, lists without repetition, and removal of a name.
use Prim.Native.Nat.{◌+◌}
use Prim.Native.String.{String}
use mathlib.Core.Path.{◌≡◌, refl}
use mathlib.Core.Bool.{Bool, true, false, not}
use mathlib.Core.List.{List, [], ◌∷◌, ◌++◌}
use native.Mathlib.Omega.{arith}
use text.Mathlib.Text.{◌==◌}
use text.Mathlib.TextEquality.{eq_iff}
use mathlib.Core.Logic.{inl, inr}
use delta_agents.Common.Tests.{Bool-cases, if◌then◌else◌}
use delta_agents.Common.Lists.{length, filter}

-- `xs.includes(s)`, and membership of the `Set` that is built from `xs`
unfoldable pub includes : List String → String → Bool
includes [] s = false
includes (x ∷ xs) s = if x == s then true else includes xs s

pub includes-append :
    (xs ys : List String) (s : String)
    → includes (xs ++ ys) s ≡ (if includes xs s then true else includes ys s)
unfolding includes
includes-append [] ys s = refl
includes-append (x ∷ xs) ys s = ground (arith, includes-append xs ys s)

-- No name is listed twice.
abbrev pub HasNoRepeats : List String → Type 0
HasNoRepeats [] = Unit
HasNoRepeats (x ∷ xs) = (includes xs x ≡ false) × HasNoRepeats xs

pub HasNoRepeats-concat :
    (xs : List String) (x : String)
    → includes xs x ≡ false
    → HasNoRepeats xs
    → HasNoRepeats (xs ++ x ∷ [])
unfolding includes
HasNoRepeats-concat [] x h k = (refl, tt)
HasNoRepeats-concat (y ∷ ys) x h (p, k) = (
  ground (arith, includes-append ys (x ∷ []) y, eq_iff x y, eq_iff y x),
  HasNoRepeats-concat ys x (ground arith) k,
)

-- `xs.filter((id) => id !== x)`
unfoldable pub without : List String → String → List String
without xs x = filter (λ id. not (id == x)) xs

pub includes-without :
    (xs : List String) (x y : String)
    → includes (without xs x) y ≡ (if x == y then false else includes xs y)
unfolding includes without filter
includes-without [] x y = ground arith
includes-without (z ∷ xs) x y =
    ground (arith, includes-without xs x y, eq_iff z x, eq_iff z y, eq_iff x y)

-- Removing a name that is not there changes nothing.
pub without-absent : (xs : List String) (x : String) → includes xs x ≡ false → without xs x ≡ xs
unfolding includes without filter
without-absent [] x h = refl
without-absent (y ∷ xs) x h = ground (arith, without-absent xs x)

-- Of a list without repetition exactly one entry goes.
pub length-without :
    (xs : List String) (x : String)
    → HasNoRepeats xs
    → includes xs x ≡ true
    → length (without xs x) + 1 ≡ length xs
unfolding includes without filter
length-without [] x r h = absurd (ground arith)
length-without (y ∷ xs) x (p, r) h =
    ground (arith, length-without xs x r, without-absent xs x, eq_iff y x)

-- Removing from the front part of a list without repetition keeps it so.
pub HasNoRepeats-without :
    (xs ys : List String) (x : String) → HasNoRepeats (xs ++ ys) → HasNoRepeats (without xs x ++ ys)
unfolding without filter
HasNoRepeats-without [] ys x r = r
HasNoRepeats-without (y ∷ xs) ys x (p, r) =
    let rest = HasNoRepeats-without xs ys x r in
    elim (Bool-cases (y == x)) [
      | inl same ↦ rw same rest
      | inr other ↦ rw other (
        ground (
          arith,
          includes-append xs ys y,
          includes-append (without xs x) ys y,
          includes-without xs x y,
          eq_iff x y,
        ),
        rest,
      )
    ]

pub HasNoRepeats-left : (xs ys : List String) → HasNoRepeats (xs ++ ys) → HasNoRepeats xs
HasNoRepeats-left [] ys r = tt
HasNoRepeats-left (x ∷ xs) ys (p, r) =
    (ground (arith, includes-append xs ys x), HasNoRepeats-left xs ys r)

-- The two parts of a list without repetition share no name.
pub HasNoRepeats-apart :
    (xs ys : List String) (x : String)
    → HasNoRepeats (xs ++ ys)
    → includes xs x ≡ true
    → includes ys x ≡ false
unfolding includes
HasNoRepeats-apart [] ys x r h = absurd (ground arith)
HasNoRepeats-apart (y ∷ xs) ys x (p, r) h =
    ground (arith, HasNoRepeats-apart xs ys x r, includes-append xs ys x, eq_iff y x)

pub without-append :
    (xs ys : List String) (x : String) → without (xs ++ ys) x ≡ without xs x ++ without ys x
unfolding without filter
without-append [] ys x = refl
without-append (y ∷ xs) ys x = ground (arith, without-append xs ys x)
