-- ===== src/Base/Float.antt =====
-- Python's floats, as far as the code uses them: a type with its operations, which the definitions
-- take as an instance. Two predicates name laws of IEEE numbers that a theorem may rest on.
use cuebee_speaker_serving.Base.{ℕ, ◌≡◌, Bool, true, false, Option, if◌then◌else◌, not}
use cuebee_speaker_serving.Base.Int.{ℤ}

pub record Float (R : Type 0) : Type 0 where
  pub lt : R → R → Bool
  pub le : R → R → Bool
  pub eq : R → R → Bool
  pub add : R → R → R
  pub sub : R → R → R
  pub mul : R → R → R
  -- `none` where Python raises ZeroDivisionError.
  pub div : R → R → Option R
  -- The literal `m` * 10 ^ -`k`.
  pub decimal : ℕ → ℕ → R
  -- `float("-inf")`
  pub neg_inf : R
  pub of_int : ℤ → R
  -- `math.ceil`; `none` where it raises, on an infinity or NaN.
  pub ceil : R → Option ℤ

module _ {R : Type 0} ⦃float : Float R⦄ where
  open float use {lt, le}

  -- The built-in `max` and `min`, which return their first argument on a tie.
  abbrev pub max_float : R → R → R
  max_float a b = if lt a b then b else a

  abbrev pub min_float : R → R → R
  min_float a b = if lt b a then b else a

-- The order of floats other than NaN: `<` is a strict weak order, and `<=` its complement.
pub record IsOrdered {R : Type 0} (float : Float R) : Type 0 where
  pub lt_asym : (x y : R) → float.lt x y ≡ true → float.lt y x ≡ false
  pub lt_incomparable :
      (x y z : R) → float.lt y x ≡ false → float.lt z y ≡ false → float.lt z x ≡ false
  pub le-not-lt : (x y : R) → float.le x y ≡ not (float.lt y x)
  pub eq-not-lt : (x y : R) → float.eq x y ≡ (if float.lt x y then false else not (float.lt y x))
