-- ===== src/Pipeline/Floats.antt =====
-- Python's floats, which the geometry computes with. Nothing is assumed of them: the theorems
-- hold for every choice of the operations and tests.
use real_time_surveillance_a.Base.{
  ℕ, ◌+◌, ◌-◌, ◌*◌, ◌/◌, Bool, true, ltb, leb, ◌==◌, comparable_nat, comparable_text,
  comparable_pair,
}

pub record Floats : Type 1 where
  pub F : Type 0
  pub of_ℕ : ℕ → F
  pub add : F → F → F
  pub sub : F → F → F
  pub mul : F → F → F
  pub div : F → F → F
  pub hypot : F → F → F
  pub abs : F → F
  pub lt : F → F → Bool
  pub le : F → F → Bool
  pub eq : F → F → Bool
  pub isfinite : F → Bool

-- Whole numbers as a rough stand-in, for running examples.
abbrev pub whole : Floats
whole = record {
  F = ℕ;
  of_ℕ = λ n. n;
  add = λ a b. a + b;
  sub = λ a b. a - b;
  mul = λ a b. a * b;
  div = λ a b. a / b;
  hypot = λ a b. a + b;
  abs = λ a. a;
  lt = ltb;
  le = leb;
  eq = λ a b. a == b;
  isfinite = λ a. true;
}
