-- ===== src/Tests/Vectors.antt =====
-- Vectors of one number in thousandths, at which the theorems about embeddings are run.
use cuebee_speaker_serving.Base.{
  ℕ, suc, ◌≡◌, refl, sym, subst, ◌∙◌, true, false, List, [], ◌∷◌, some, arith, if◌then◌else◌,
  get_elem?, Bool-cases, inl, inr,
}
use cuebee_speaker_serving.Base.Int.{ℤ, pos, ltb_ℤ}
use cuebee_speaker_serving.Base.Keep.{All, All-map}
use cuebee_speaker_serving.Domain.{ok}
use cuebee_speaker_serving.Assignment.{Vectors}
use cuebee_speaker_serving.Assignment.Nearest.{FindsGreatest}
use cuebee_speaker_serving.Tests.Floats.{milli}

-- The first of the greatest numbers, with its index.
unfoldable pub best : ℤ → List ℤ → ℕ × ℤ
best x [] = (0, x)
best x (y ∷ l) = let (i, m) = best y l in if ltb_ℤ x m then (suc i, m) else (0, x)

unfoldable pub first_greatest : List ℤ → ℕ
unfolding best
first_greatest [] = 0
first_greatest (x ∷ l) = (best x l).0

best-get : (x : ℤ) (l : List ℤ) → get_elem? (x ∷ l) (best x l).0 ≡ some (best x l).1
unfolding best
best-get x [] = refl
best-get x (y ∷ l) = elim (Bool-cases (ltb_ℤ x (best y l).1)) [
  | inl e ↦ rw e (best-get y l)
  | inr e ↦ rw e
]

best-All : (x : ℤ) (l : List ℤ) → All (λ y. ltb_ℤ (best x l).1 y ≡ false) (x ∷ l)
unfolding best
best-All x [] = (ground arith, tt)
best-All x (y ∷ l) = elim (Bool-cases (ltb_ℤ x (best y l).1)) [
  | inl e ↦
      let greatest : (best x (y ∷ l)).1 ≡ (best y l).1 = rw e in
      subst (λ m. All (λ z. ltb_ℤ m z ≡ false) (x ∷ y ∷ l)) (sym greatest)
        (ground arith, best-All y l)
  | inr e ↦
      let greatest : (best x (y ∷ l)).1 ≡ x = rw e in
      subst (λ m. All (λ z. ltb_ℤ m z ≡ false) (x ∷ y ∷ l)) (sym greatest)
        (
          ground arith,
          All-map {P = λ z. ltb_ℤ (best y l).1 z ≡ false} {Q = λ z. ltb_ℤ x z ≡ false}
              (λ z h. ground arith) (y ∷ l) (best-All y l),
        )
]

abbrev pub numbers : Vectors ℤ ℤ
numbers = record {
  norm = λ v. v;
  is_finite = λ x. true;
  over = λ v x. if ltb_ℤ (pos 0) x then pos 1000 else v;
  times = milli.mul;
  dot = λ a b. ok (milli.mul a b);
  plus = λ a b. ok (milli.add a b);
  argmax = first_greatest;
  clip = λ x lo hi. if ltb_ℤ x lo then lo else if ltb_ℤ hi x then hi else x;
}

pub numbers-FindsGreatest : FindsGreatest numbers
unfolding first_greatest
numbers-FindsGreatest [] x h = tt
numbers-FindsGreatest (y ∷ l) x h =
    let same : (best y l).1 ≡ x = some_lem (sym (best-get y l) ∙ h) in
    subst (λ m. All (λ z. ltb_ℤ m z ≡ false) (y ∷ l)) same (best-All y l)
  where
    some_lem : {a b : ℤ} → some a ≡ some b → a ≡ b
    some_lem h = ground arith
