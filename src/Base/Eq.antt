-- ===== src/Base/Eq.antt =====
-- Equality tests, as Python's `==` on the keys of a dictionary: numbers, texts and tuples of those.
use text.Mathlib.Text.{◌==◌ as str_eq}
use text.Mathlib.TextEquality.{eq_iff}
use cuebee_speaker_serving.Base.{
  ℕ, ◌+◌, ◌≡◌, refl, ap, subst, ◌↔◌, Bool, true, false, ◌&&◌, String, List, [], ◌∷◌, arith,
  ◌==◌ as nat_same, ==_iff,
}
use cuebee_speaker_serving.Base.Int.{ℤ, pos_part, neg_part, eq_of_parts}

-- A test `same` that decides equality.
pub record Eq {ℓ} (A : Type ℓ) : Type ℓ where
  pub same : A → A → Bool
  pub same_iff : (x y : A) → (same x y ≡ true) ↔ (x ≡ y)

instance abbrev pub string_eq : Eq String
string_eq = record { same = str_eq; same_iff = eq_iff }

-- Numbers, for the buckets of the batcher.
instance abbrev pub nat_eq : Eq ℕ
nat_eq = record { same = nat_same; same_iff = ==_iff }

module _ {ℓ κ} {A : Type ℓ} {B : Type κ} ⦃e : Eq A⦄ ⦃f : Eq B⦄ where
  abbrev pub pair_same : A × B → A × B → Bool
  pair_same p q = e.same p.0 q.0 && f.same p.1 q.1

  pub pair_same_iff : (p q : A × B) → (pair_same p q ≡ true) ↔ (p ≡ q)
  pair_same_iff p q = (forth, back)
    where
      forth : pair_same p q ≡ true → p ≡ q
      forth h = ground (arith, e.same_iff p.0 q.0, f.same_iff p.1 q.1)

      back : p ≡ q → pair_same p q ≡ true
      back h = ground (
        arith,
        e.same_iff p.0 q.0,
        f.same_iff p.1 q.1,
        ap (λ (r : A × B). r.0) h,
        ap (λ (r : A × B). r.1) h,
      )

  instance abbrev pub pair_eq : Eq (A × B)
  pair_eq = record { same = pair_same; same_iff = pair_same_iff }

module _ {ℓ} {A : Type ℓ} ⦃e : Eq A⦄ where
  pub same_refl : (a : A) → e.same a a ≡ true
  same_refl a = (e.same_iff a a).1 refl

abbrev pub int_same : ℤ → ℤ → Bool
int_same a b = nat_same (pos_part a + neg_part b) (pos_part b + neg_part a)

pub int_same_iff : (a b : ℤ) → (int_same a b ≡ true) ↔ (a ≡ b)
int_same_iff a b = ((λ h. eq_of_parts a b (ground arith)), (λ h. ground arith))

instance abbrev pub int_eq : Eq ℤ
int_eq = record { same = int_same; same_iff = int_same_iff }

-- Texts as lists of code points.
abbrev pub text_same : List ℕ → List ℕ → Bool
text_same [] [] = true
text_same [] (y ∷ ys) = false
text_same (x ∷ xs) [] = false
text_same (x ∷ xs) (y ∷ ys) = nat_same x y && text_same xs ys

text_same-eq : (a b : List ℕ) → text_same a b ≡ true → a ≡ b
text_same-eq [] [] h = refl
text_same-eq [] (y ∷ ys) h = cc
text_same-eq (x ∷ xs) [] h = cc
text_same-eq (x ∷ xs) (y ∷ ys) h = ground (arith, text_same-eq xs ys)

pub text_same_refl : (a : List ℕ) → text_same a a ≡ true
text_same_refl [] = refl
text_same_refl (x ∷ xs) = ground (arith, text_same_refl xs)

pub text_same_iff : (a b : List ℕ) → (text_same a b ≡ true) ↔ (a ≡ b)
text_same_iff a b =
    (text_same-eq a b, (λ h. subst (λ c. text_same a c ≡ true) h (text_same_refl a)))

instance abbrev pub text_eq : Eq (List ℕ)
text_eq = record { same = text_same; same_iff = text_same_iff }
