-- ===== src/Base/Keep.antt =====
-- List comprehensions with a test, `[x for x in l if p(x)]`, and predicates on lists.
use mathlib.Core.List.{Perm, perm_middle}
use mathlib.Core.List.Perm
use cuebee_speaker_serving.Base.{
  ℕ, ◌+◌, ◌≤◌, ◌≡◌, refl, subst, Bool, true, false, not, ◌&&◌, List, [], ◌∷◌, ◌++◌, arith,
  if◌then◌else◌, Bool-cases, inl, inr, length,
}

module _ {ℓ} {A : Type ℓ} where
  abbrev pub keep : (A → Bool) → List A → List A
  keep p [] = []
  keep p (x ∷ xs) = if p x then x ∷ keep p xs else keep p xs

  -- How many pass the test.
  abbrev pub tally : (A → Bool) → List A → ℕ
  tally p xs = length (keep p xs)

  pub length-keep-le : (p : A → Bool) (xs : List A) → length (keep p xs) ≤ length xs
  length-keep-le p [] = omega arith
  length-keep-le p (x ∷ xs) = ground (arith, length-keep-le p xs)

  pub tally-snoc :
      (p : A → Bool) (xs : List A) (x : A)
      → tally p (xs ++ x ∷ []) ≡ tally p xs + (if p x then 1 else 0)
  tally-snoc p [] x = ground arith
  tally-snoc p (y ∷ ys) x = ground (arith, tally-snoc p ys x)

  pub keep-split : (p : A → Bool) (xs : List A) → Perm (keep p xs ++ keep (λ x. not (p x)) xs) xs
  keep-split p [] = Perm.rfl
  keep-split p (x ∷ xs) = elim (Bool-cases (p x)) [
    | inl e ↦ rw e (Perm.cons x (keep-split p xs))
    | inr e ↦ rw e (Perm.trans (perm_middle _ _) (Perm.cons x (keep-split p xs)))
  ]

  -- The first list is the second with some elements left out.
  pub data Picks : List A → List A → Type ℓ where
    done : Picks [] []
    take : {xs ys : List A} (x : A) → Picks xs ys → Picks (x ∷ xs) (x ∷ ys)
    skip : {xs ys : List A} (y : A) → Picks xs ys → Picks xs (y ∷ ys)

  pub Picks-refl : (xs : List A) → Picks xs xs
  Picks-refl [] = done
  Picks-refl (x ∷ xs) = take x (Picks-refl xs)

  pub Picks-append :
      {xs ys zs ws : List A} → Picks xs ys → Picks zs ws → Picks (xs ++ zs) (ys ++ ws)
  Picks-append done q = q
  Picks-append (take x p) q = take x (Picks-append p q)
  Picks-append (skip y p) q = skip y (Picks-append p q)

  pub Picks-nil : (ys : List A) → Picks [] ys
  Picks-nil [] = done
  Picks-nil (y ∷ ys) = skip y (Picks-nil ys)

module _ {ℓ κ} {A : Type ℓ} (P : A → Type κ) where
  abbrev pub All : List A → Type κ
  All [] = Unit
  All (x ∷ xs) = P x × All xs

  pub All-append : (xs ys : List A) → All xs → All ys → All (xs ++ ys)
  All-append [] ys h k = k
  All-append (x ∷ xs) ys h k = (h.0, All-append xs ys h.1 k)

  pub All-append_left : (xs ys : List A) → All (xs ++ ys) → All xs
  All-append_left [] ys h = tt
  All-append_left (x ∷ xs) ys h = (h.0, All-append_left xs ys h.1)

  pub All-append_right : (xs ys : List A) → All (xs ++ ys) → All ys
  All-append_right [] ys h = h
  All-append_right (x ∷ xs) ys h = All-append_right xs ys h.1

  pub All-Picks : {xs ys : List A} → Picks xs ys → All ys → All xs
  All-Picks done h = tt
  All-Picks (take x p) h = (h.0, All-Picks p h.1)
  All-Picks (skip y p) h = All-Picks p h.1

  pub All-keep : (p : A → Bool) (xs : List A) → All xs → All (keep p xs)
  All-keep p [] h = tt
  All-keep p (x ∷ xs) h = ground (arith, All-keep p xs h.1)

module _ {ℓ κ} {A : Type ℓ} {P : A → Type κ} where
  pub All_of : ((a : A) → P a) → (xs : List A) → All P xs
  All_of f [] = tt
  All_of f (x ∷ xs) = (f x, All_of f xs)

module _ {ℓ κ} {A : Type ℓ} (D : A → A → Type κ) where
  -- Each element is in the relation with all behind it.
  abbrev pub Pairwise : List A → Type κ
  Pairwise [] = Unit
  Pairwise (x ∷ xs) = All (D x) xs × Pairwise xs

module _ {ℓ κ μ} {A : Type ℓ} {P : A → Type κ} {Q : A → Type μ} where
  pub All-map : ((a : A) → P a → Q a) → (xs : List A) → All P xs → All Q xs
  All-map f [] h = tt
  All-map f (x ∷ xs) h = (f x h.0, All-map f xs h.1)

module _ {ℓ κ μ ν} {A : Type ℓ} {P : A → Type κ} {Q : A → Type μ} {S : A → Type ν} where
  pub All-zip : ((a : A) → P a → Q a → S a) → (xs : List A) → All P xs → All Q xs → All S xs
  All-zip f [] h k = tt
  All-zip f (x ∷ xs) h k = (f x h.0 k.0, All-zip f xs h.1 k.1)

module _ {ℓ} {A : Type ℓ} where
  pub tally-append : (p : A → Bool) (xs ys : List A) → tally p (xs ++ ys) ≡ tally p xs + tally p ys
  tally-append p [] ys = omega arith
  tally-append p (x ∷ xs) ys = ground (arith, tally-append p xs ys)

  -- Where `r` holds of all elements, a test with `r` added counts the same.
  pub tally-and :
      (q r : A → Bool) (xs : List A)
      → All (λ a. r a ≡ true) xs
      → tally (λ a. q a && r a) xs ≡ tally q xs
  tally-and q r [] h = refl
  tally-and q r (x ∷ xs) h = ground (arith, tally-and q r xs h.1)

  pub tally-All : (r : A → Bool) (xs : List A) → All (λ a. r a ≡ true) xs → tally r xs ≡ length xs
  tally-All r [] h = refl
  tally-All r (x ∷ xs) h = ground (arith, tally-All r xs h.1)

  -- Membership, with the place.
  pub data In (a : A) : List A → Type ℓ where
    here : {x : A} {xs : List A} → x ≡ a → In a (x ∷ xs)
    there : {x : A} {xs : List A} → In a xs → In a (x ∷ xs)

  pub All-In {κ} : (P : A → Type κ) (xs : List A) {a : A} → All P xs → In a xs → P a
  All-In P [] h i = elim i [ ]
  All-In P (x ∷ xs) h (here e) = subst P e h.0
  All-In P (x ∷ xs) h (there i) = All-In P xs h.1 i

  pub keep-Picks : (p : A → Bool) (xs : List A) → Picks (keep p xs) xs
  keep-Picks p [] = done
  keep-Picks p (x ∷ xs) = elim (Bool-cases (p x)) [
    | inl e ↦ rw e (take x (keep-Picks p xs))
    | inr e ↦ rw e (skip x (keep-Picks p xs))
  ]

module _ {ℓ κ} {A : Type ℓ} (P : A → Type κ) where
  keep_part :
      (b : Bool) (x : A) (xs : List A)
      → All P (if b then x ∷ xs else xs)
      → (b ≡ true → P x) × All P xs
  keep_part true x xs h = ((λ e. h.0), h.1)
  keep_part false x xs h = ((λ e. absurd (ground arith)), h)

  pub All-keep-true :
      (p : A → Bool) (xs : List A) → All P (keep p xs) → All (λ x. p x ≡ true → P x) xs
  All-keep-true p [] h = tt
  All-keep-true p (x ∷ xs) h =
      let (first, rest) = keep_part (p x) x (keep p xs) h in (first, All-keep-true p xs rest)

module _ {ℓ κ} {A : Type ℓ} (D : A → A → Type κ) where
  pub Pairwise-Picks : {xs ys : List A} → Picks xs ys → Pairwise D ys → Pairwise D xs
  Pairwise-Picks done h = tt
  Pairwise-Picks (take x p) h = (All-Picks (D x) p h.0, Pairwise-Picks p h.1)
  Pairwise-Picks (skip y p) h = Pairwise-Picks p h.1

  pub Pairwise-left : (xs ys : List A) → Pairwise D (xs ++ ys) → Pairwise D xs
  Pairwise-left [] ys h = tt
  Pairwise-left (x ∷ xs) ys h = (All-append_left (D x) xs ys h.0, Pairwise-left xs ys h.1)

  pub Pairwise-right : (xs ys : List A) → Pairwise D (xs ++ ys) → Pairwise D ys
  Pairwise-right [] ys h = h
  Pairwise-right (x ∷ xs) ys h = Pairwise-right xs ys h.1

  -- Each element of the first part is in the relation with all of the second.
  pub Pairwise-across : (xs ys : List A) → Pairwise D (xs ++ ys) → All (λ x. All (D x) ys) xs
  Pairwise-across [] ys h = tt
  Pairwise-across (x ∷ xs) ys h = (All-append_right (D x) xs ys h.0, Pairwise-across xs ys h.1)

  pub across-flip :
      ((a b : A) → D a b → D b a)
      → (xs ys : List A) → All (λ x. All (D x) ys) xs
      → All (λ y. All (D y) xs) ys
  across-flip flip [] ys h = All_of (λ y. tt) ys
  across-flip flip (x ∷ xs) ys h =
      All-zip (λ y d k. (flip x y d, k)) ys h.0 (across-flip flip xs ys h.1)

module _ {ℓ} {A : Type ℓ} where
  pub keep-not-All :
      (p : A → Bool) (xs : List A) → All (λ x. p x ≡ false) (keep (λ x. not (p x)) xs)
  keep-not-All p [] = tt
  keep-not-All p (x ∷ xs) = elim (Bool-cases (p x)) [
    | inl e ↦ rw e (keep-not-All p xs)
    | inr e ↦ rw e (e, keep-not-All p xs)
  ]
