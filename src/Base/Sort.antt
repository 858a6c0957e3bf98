-- ===== src/Base/Sort.antt =====
-- Python's `sorted`: stable, by a test "comes strictly before".
use mathlib.Core.List.{Perm}
use mathlib.Core.List.Perm
use cuebee_speaker_serving.Base.Keep.{Picks, done, take, skip, All, Pairwise, keep, In, here, there}
use cuebee_speaker_serving.Base.{
  suc, length, ◌≡◌, refl, Bool, true, false, not, List, [], ◌∷◌, arith, if◌then◌else◌, Bool-cases,
  inl, inr,
}

-- What a comparison must satisfy for `sorted` to mean anything.
pub record IsStrictWeak {ℓ} {A : Type ℓ} (lt : A → A → Bool) : Type ℓ where
  pub asym : (x y : A) → lt x y ≡ true → lt y x ≡ false
  pub incomparable_trans : (x y z : A) → lt y x ≡ false → lt z y ≡ false → lt z x ≡ false

module _ {ℓ} {A : Type ℓ} (lt : A → A → Bool) where
  unfoldable pub insert : A → List A → List A
  insert x [] = x ∷ []
  insert x (y ∷ ys) = if lt y x then y ∷ insert x ys else x ∷ y ∷ ys

  unfoldable pub sorted : List A → List A
  unfolding insert
  sorted [] = []
  sorted (x ∷ xs) = insert x (sorted xs)

  -- Nothing in the list comes strictly before `x`.
  abbrev pub NoneBefore : A → List A → Type 0
  NoneBefore x [] = Unit
  NoneBefore x (y ∷ ys) = (lt y x ≡ false) × NoneBefore x ys

  abbrev pub IsSorted : List A → Type 0
  IsSorted [] = Unit
  IsSorted (x ∷ xs) = NoneBefore x xs × IsSorted xs

  insert-perm : (x : A) (xs : List A) → Perm (insert x xs) (x ∷ xs)
  unfolding insert
  insert-perm x [] = Perm.rfl
  insert-perm x (y ∷ ys) = elim (Bool-cases (lt y x)) [
    | inl e ↦ rw e (Perm.trans (Perm.cons y (insert-perm x ys)) (Perm.swap x y ys))
    | inr e ↦ rw e Perm.rfl
  ]

  pub sorted-perm : (xs : List A) → Perm (sorted xs) xs
  unfolding sorted
  sorted-perm [] = Perm.rfl
  sorted-perm (x ∷ xs) = Perm.trans (insert-perm x (sorted xs)) (Perm.cons x (sorted-perm xs))

  keep-insert-perm :
      (p : A → Bool) (x : A) (xs : List A) → Perm (keep p (insert x xs)) (keep p (x ∷ xs))
  unfolding insert
  keep-insert-perm p x [] = Perm.rfl
  keep-insert-perm p x (y ∷ ys) = elim (Bool-cases (lt y x)) [
    | inr e ↦ rw e Perm.rfl
    | inl e ↦ rw e (swap_in (p x) (p y) (keep-insert-perm p x ys))
  ]
    where
      swap_in :
          (a b : Bool)
          → Perm (keep p (insert x ys)) (if a then x ∷ keep p ys else keep p ys)
          → Perm (if b then y ∷ keep p (insert x ys) else keep p (insert x ys)) (
              if a
              then x ∷ (if b then y ∷ keep p ys else keep p ys)
              else (if b then y ∷ keep p ys else keep p ys))
      swap_in true true h = Perm.trans (Perm.cons y h) (Perm.swap x y (keep p ys))
      swap_in true false h = h
      swap_in false true h = Perm.cons y h
      swap_in false false h = h

  pub keep-sorted-perm : (p : A → Bool) (xs : List A) → Perm (keep p (sorted xs)) (keep p xs)
  unfolding sorted
  keep-sorted-perm p [] = Perm.rfl
  keep-sorted-perm p (x ∷ xs) =
      Perm.trans (keep-insert-perm p x (sorted xs)) (keep_cons (p x) (keep-sorted-perm p xs))
    where
      keep_cons :
          (b : Bool)
          → Perm (keep p (sorted xs)) (keep p xs)
          → Perm
              (if b then x ∷ keep p (sorted xs) else keep p (sorted xs))
              (if b then x ∷ keep p xs else keep p xs)
      keep_cons true h = Perm.cons x h
      keep_cons false h = h

  length-insert : (x : A) (xs : List A) → length (insert x xs) ≡ suc (length xs)
  unfolding insert
  length-insert x [] = refl
  length-insert x (y ∷ ys) = ground (arith, length-insert x ys)

  pub length-sorted : (xs : List A) → length (sorted xs) ≡ length xs
  unfolding sorted
  length-sorted [] = refl
  length-sorted (x ∷ xs) = omega (arith, length-insert x (sorted xs), length-sorted xs)

  module _ {κ} (P : A → Type κ) where
    All-insert : (x : A) (xs : List A) → P x → All P xs → All P (insert x xs)
    unfolding insert
    All-insert x [] p h = (p, tt)
    All-insert x (y ∷ ys) p h = elim (Bool-cases (lt y x)) [
      | inl e ↦ rw e (h.0, All-insert x ys p h.1)
      | inr e ↦ rw e (p, h)
    ]

    insert-All : (x : A) (xs : List A) → All P (insert x xs) → P x × All P xs
    unfolding insert
    insert-All x [] h = h
    insert-All x (y ∷ ys) h = go (insert-All x ys) (lt y x) refl h
      where
        go :
            (All P (insert x ys) → P x × All P ys)
            → (b : Bool) → lt y x ≡ b
            → All P (if b then y ∷ insert x ys else x ∷ y ∷ ys)
            → P x × All P (y ∷ ys)
        go later true e h = let (p, q) = later h.1 in (p, (h.0, q))
        go later false e h = h

    pub All-sorted : (xs : List A) → All P xs → All P (sorted xs)
    unfolding sorted
    All-sorted [] h = tt
    All-sorted (x ∷ xs) h = All-insert x (sorted xs) h.0 (All-sorted xs h.1)

    pub sorted-All : (xs : List A) → All P (sorted xs) → All P xs
    unfolding sorted
    sorted-All [] h = tt
    sorted-All (x ∷ xs) h = let (p, q) = insert-All x (sorted xs) h in (p, sorted-All xs q)

  module _ {κ} (D : A → A → Type κ) (flip : (a b : A) → D a b → D b a) where
    insert-Pairwise :
        (x : A) (xs : List A) → All (D x) xs → Pairwise D xs → Pairwise D (insert x xs)
    unfolding insert
    insert-Pairwise x [] h p = (tt, tt)
    insert-Pairwise x (y ∷ ys) h p = elim (Bool-cases (lt y x)) [
      | inl e ↦ rw e (All-insert (D y) x ys (flip x y h.0) p.0, insert-Pairwise x ys h.1 p.1)
      | inr e ↦ rw e (h, p)
    ]

    pub sorted-Pairwise : (xs : List A) → Pairwise D xs → Pairwise D (sorted xs)
    unfolding sorted
    sorted-Pairwise [] p = tt
    sorted-Pairwise (x ∷ xs) p =
        insert-Pairwise x (sorted xs) (All-sorted (D x) xs p.0) (sorted-Pairwise xs p.1)

  module _ (order : IsStrictWeak lt) where
    NoneBefore-trans : (x y : A) (ys : List A) → lt y x ≡ false → NoneBefore y ys → NoneBefore x ys
    NoneBefore-trans x y [] h n = tt
    NoneBefore-trans x y (z ∷ zs) h n =
        (order.incomparable_trans x y z h n.0, NoneBefore-trans x y zs h n.1)

    NoneBefore-insert :
        (x y : A) (ys : List A) → lt x y ≡ false → NoneBefore y ys → NoneBefore y (insert x ys)
    unfolding insert
    NoneBefore-insert x y [] h n = (h, tt)
    NoneBefore-insert x y (z ∷ zs) h n = ground (arith, NoneBefore-insert x y zs h n.1)

    insert-IsSorted : (x : A) (xs : List A) → IsSorted xs → IsSorted (insert x xs)
    unfolding insert
    insert-IsSorted x [] s = (tt, tt)
    insert-IsSorted x (y ∷ ys) s = elim (Bool-cases (lt y x)) [
      | inl e ↦ rw e (NoneBefore-insert x y ys (order.asym y x e) s.0, insert-IsSorted x ys s.1)
      | inr e ↦ rw e ((e, NoneBefore-trans x y ys e s.0), (s.0, s.1))
    ]

    pub sorted-IsSorted : (xs : List A) → IsSorted (sorted xs)
    unfolding sorted
    sorted-IsSorted [] = tt
    sorted-IsSorted (x ∷ xs) = insert-IsSorted x (sorted xs) (sorted-IsSorted xs)

-- The comparison of tuples: by their first fields, and on a tie by the rest.
module _ {ℓ} {A : Type ℓ} (lt eq next : A → A → Bool) where
  abbrev pub lex : A → A → Bool
  lex a b = if not (eq a b) then lt a b else next a b

  pub lex-IsStrictWeak :
      ((a b : A) → eq a b ≡ (if lt a b then false else not (lt b a)))
      → IsStrictWeak lt
      → IsStrictWeak next
      → IsStrictWeak lex
  lex-IsStrictWeak tie p q = record {
    asym = λ x y h. ground (arith, tie x y, tie y x, p.asym x y, p.asym y x, q.asym x y);
    incomparable_trans = λ x y z h k. ground (
      arith,
      tie y x,
      tie z y,
      tie z x,
      p.asym x y,
      p.asym y z,
      p.asym x z,
      p.asym y x,
      p.asym z y,
      p.asym z x,
      p.incomparable_trans x y z,
      p.incomparable_trans x z y,
      p.incomparable_trans y x z,
      p.incomparable_trans y z x,
      p.incomparable_trans z x y,
      p.incomparable_trans z y x,
      q.incomparable_trans x y z,
    );
  }

module _ {ℓ} {A : Type ℓ} (lt : A → A → Bool) where
  NoneBefore-Picks :
      {xs ys : List A} (x : A) → Picks xs ys → NoneBefore lt x ys → NoneBefore lt x xs
  NoneBefore-Picks x done n = tt
  NoneBefore-Picks x (take y p) n = (n.0, NoneBefore-Picks x p n.1)
  NoneBefore-Picks x (skip y p) n = NoneBefore-Picks x p n.1

  pub IsSorted-Picks : {xs ys : List A} → Picks xs ys → IsSorted lt ys → IsSorted lt xs
  IsSorted-Picks done s = tt
  IsSorted-Picks (take x p) s = (NoneBefore-Picks x p s.0, IsSorted-Picks p s.1)
  IsSorted-Picks (skip y p) s = IsSorted-Picks p s.1

  -- The first of the sorted list is an element of the list.
  insert-In : (x : A) (xs : List A) {a : A} → In a (insert lt x xs) → In a (x ∷ xs)
  unfolding insert
  insert-In x [] i = i
  insert-In x (y ∷ ys) i = go (insert-In x ys) (lt y x) i
    where
      go :
          {a : A}
          → (In a (insert lt x ys) → In a (x ∷ ys))
          → (b : Bool) → In a (if b then y ∷ insert lt x ys else x ∷ y ∷ ys)
          → In a (x ∷ y ∷ ys)
      go later false i = i
      go later true (here e) = there (here e)
      go later true (there i) = behind (later i)
        where
          behind : {a : A} → In a (x ∷ ys) → In a (x ∷ y ∷ ys)
          behind (here e) = here e
          behind (there i) = there (there i)

  pub sorted-In : (xs : List A) {a : A} → In a (sorted lt xs) → In a xs
  unfolding sorted
  sorted-In [] i = i
  sorted-In (x ∷ xs) i = deeper (insert-In x (sorted lt xs) i) (sorted-In xs)
    where
      deeper : {a : A} → In a (x ∷ sorted lt xs) → (In a (sorted lt xs) → In a xs) → In a (x ∷ xs)
      deeper (here e) f = here e
      deeper (there i) f = there (f i)
