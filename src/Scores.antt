-- ===== src/Scores.antt =====
-- The floating-point numbers of the governance code, as an interface: the operations that it uses, and
-- the order laws that round-to-nearest arithmetic gives on numbers that are no NaN.
pub mod Fixed
use delta_agents.Common.{ℕ, ◌≤◌, ◌≡◌, Bool, true, false}

pub record Scores : Type 1 where
  pub S : Type 0
  pub milli : ℕ → S  -- a literal, in thousandths: 0.05 is `milli 50`
  pub of_ℕ : ℕ → S
  pub add : S → S → S
  pub sub : S → S → S
  pub mul : S → S → S
  pub div : S → S → S
  pub min : S → S → S
  pub max : S → S → S
  pub abs : S → S
  pub le : S → S → Bool
  pub lt : S → S → Bool

module _ (F : Scores) where
  open F use {S, milli, add, sub, mul, min, max, le, lt}

  -- The order, the two clamps, and the signs and directions that rounding keeps.
  pub record ScoreLaws : Type 0 where
    pub le_refl : (a : S) → le a a ≡ true
    pub le_trans : (a b c : S) → le a b ≡ true → le b c ≡ true → le a c ≡ true
    pub lt_not_le : (a b : S) → lt a b ≡ true → le b a ≡ false
    pub not_lt_le : (a b : S) → lt a b ≡ false → le b a ≡ true
    pub milli_mono : (m n : ℕ) → m ≤ n → le (milli m) (milli n) ≡ true
    pub milli_strict : (m n : ℕ) → le (milli m) (milli n) ≡ true → m ≤ n
    pub min_left : (a b : S) → le (min a b) a ≡ true
    pub min_right : (a b : S) → le (min a b) b ≡ true
    pub min_glb : (a b c : S) → le c a ≡ true → le c b ≡ true → le c (min a b) ≡ true
    pub max_left : (a b : S) → le a (max a b) ≡ true
    pub max_right : (a b : S) → le b (max a b) ≡ true
    pub max_lub : (a b c : S) → le a c ≡ true → le b c ≡ true → le (max a b) c ≡ true
    pub sub_nonneg : (a b : S) → le b a ≡ true → le (milli 0) (sub a b) ≡ true
    pub sub_shrinks : (a b : S) → le (milli 0) b ≡ true → le (sub a b) a ≡ true
    pub add_grows : (a b : S) → le (milli 0) b ≡ true → le a (add a b) ≡ true
    pub mul_nonneg :
        (a b : S) → le (milli 0) a ≡ true → le (milli 0) b ≡ true → le (milli 0) (mul a b) ≡ true
    pub mul_shrinks :
        (a b : S) → le (milli 0) a ≡ true → le b (milli 1000) ≡ true → le (mul a b) a ≡ true
