-- ===== src/Tests/Floats.antt =====
-- Fixed-point numbers in thousandths, at which the theorems about floats are run.
use cuebee_speaker_serving.Base.{
  ◌+◌, ◌*◌, ◌/◌, ◌^◌, Bool, false, not, Option, none, some, arith, ◌==◌, if◌then◌else◌,
}
use cuebee_speaker_serving.Base.Int.{ℤ, pos, negsuc, ltb_ℤ, sub_ℕ, pos_part, neg_part}
use cuebee_speaker_serving.Base.Float.{Float, IsOrdered}

abbrev milli_div : ℤ → ℤ → Option ℤ
milli_div a b = if pos_part b == 0 then none else some (pos (pos_part a * 1000 / pos_part b))

abbrev milli_eq : ℤ → ℤ → Bool
milli_eq a b = if ltb_ℤ a b then false else not (ltb_ℤ b a)

abbrev milli_add : ℤ → ℤ → ℤ
milli_add a b = sub_ℕ (pos_part a + pos_part b) (neg_part a + neg_part b)

abbrev milli_sub : ℤ → ℤ → ℤ
milli_sub a b = sub_ℕ (pos_part a + neg_part b) (neg_part a + pos_part b)

-- Products and quotients are those of non-negative numbers.
instance abbrev pub milli : Float ℤ
milli = record {
  lt = ltb_ℤ;
  le = λ a b. not (ltb_ℤ b a);
  eq = milli_eq;
  add = milli_add;
  sub = milli_sub;
  mul = λ a b. pos (pos_part a * pos_part b / 1000);
  div = milli_div;
  decimal = λ m k. pos (m * 1000 / 10 ^ k);
  neg_inf = negsuc 1_000_000_000;
  of_int = λ n. pos (pos_part n * 1000);
  ceil = λ a. some (pos ((pos_part a + 999) / 1000));
}

pub milli-IsOrdered : IsOrdered milli
milli-IsOrdered = record {
  lt_asym = λ x y h. ground arith;
  lt_incomparable = λ x y z h k. ground arith;
  le-not-lt = λ x y. ground arith;
  eq-not-lt = λ x y. ground arith;
}
