-- ===== src/Scores/Fixed.antt =====
-- Fixed-point numbers in thousandths meet the laws of the scores.
use Prim.Native.Nat.{◌/◌, min, max}
use delta_agents.Common.{ℕ, ◌+◌, ◌-◌, ◌*◌, ◌≤◌, arith, leb, ltb}
use delta_agents.Scores.{Scores, ScoreLaws}

abbrev pub fixed : Scores
fixed = record {
  S = ℕ;
  milli = λ n. n;
  of_ℕ = λ n. n * 1000;
  add = λ a b. a + b;
  sub = λ a b. a - b;
  mul = λ a b. a * b / 1000;
  div = λ a b. a * 1000 / b;
  min = λ a b. min a b;
  max = λ a b. max a b;
  abs = λ a. a;
  le = leb;
  lt = ltb;
}

mul_shrinks_fixed : (a b : ℕ) → b ≤ 1000 → a * b / 1000 ≤ a
mul_shrinks_fixed a b h = grind arith

pub fixed-laws : ScoreLaws fixed
fixed-laws = record {
  le_refl = λ a. ground arith;
  le_trans = λ a b c h k. ground arith;
  lt_not_le = λ a b h. ground arith;
  not_lt_le = λ a b h. ground arith;
  milli_mono = λ m n h. ground arith;
  milli_strict = λ m n h. ground arith;
  min_left = λ a b. ground arith;
  min_right = λ a b. ground arith;
  min_glb = λ a b c h k. ground arith;
  max_left = λ a b. ground arith;
  max_right = λ a b. ground arith;
  max_lub = λ a b c h k. ground arith;
  sub_nonneg = λ a b h. ground arith;
  sub_shrinks = λ a b h. ground arith;
  add_grows = λ a b h. ground arith;
  mul_nonneg = λ a b h k. ground arith;
  mul_shrinks = λ a b h k. ground (arith, mul_shrinks_fixed a b);
}
