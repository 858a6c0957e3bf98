-- ===== src/Base/Perms.antt =====
-- Permutations of lists.
use mathlib.Core.List.{Perm, perm_middle, foldr, append_assoc}
use mathlib.Core.List.Perm
use cuebee_speaker_serving.Base.{
  ◌≡◌, refl, sym, ◌∙◌, ℕ, suc, ap, subst, List, [], ◌∷◌, ◌++◌, length,
}

module _ {ℓ} {A : Type ℓ} where
  abbrev count : A → ℕ → ℕ
  count x n = suc n

  length-foldr : (xs : List A) → length xs ≡ foldr count 0 xs
  length-foldr [] = refl
  length-foldr (x ∷ xs) = ap suc (length-foldr xs)

  pub Perm-length : {xs ys : List A} → Perm xs ys → length xs ≡ length ys
  Perm-length {xs} {ys} p =
      length-foldr xs ∙ Perm.foldr-eq (hlevel) count (λ x y n. refl) p 0 ∙ sym (length-foldr ys)

  snoc_nil : (xs : List A) → Perm xs (xs ++ [])
  snoc_nil [] = Perm.rfl
  snoc_nil (x ∷ xs) = Perm.cons x (snoc_nil xs)

  pub Perm-append_comm : (xs ys : List A) → Perm (xs ++ ys) (ys ++ xs)
  Perm-append_comm [] ys = snoc_nil ys
  Perm-append_comm (x ∷ xs) ys =
      Perm.trans (Perm.cons x (Perm-append_comm xs ys)) (Perm.symm (perm_middle ys xs))

  -- A part of the middle moves to the front.
  pub Perm-front :
      (front before rest middle after : List A)
      → Perm (front ++ rest) middle
      → Perm (front ++ (before ++ (rest ++ after))) (before ++ (middle ++ after))
  Perm-front front before rest middle after p =
      subst (λ l. Perm l (before ++ (middle ++ after))) (append_assoc front before (rest ++ after))
        (Perm.trans (Perm.append_right (rest ++ after) (Perm-append_comm front before)) (
          subst (λ l. Perm l (before ++ (middle ++ after)))
            (sym (append_assoc before front (rest ++ after)))
            (Perm.append_left before (
              subst (λ l. Perm l (middle ++ after)) (append_assoc front rest after)
                (Perm.append_right after p)))))
