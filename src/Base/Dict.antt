-- ===== src/Base/Dict.antt =====
-- Python's `dict`: the items in insertion order. An assignment to a key that is there keeps its
-- place, and a new key goes to the end.
use cuebee_speaker_serving.Base.{
  ◌≡◌, refl, ◌∙◌, subst, ap, Bool, true, false, not, ◌≢◌, ◌⊎◌, List, [], ◌∷◌, map, Option, none,
  some, arith, if◌then◌else◌,
}
use cuebee_speaker_serving.Base.Eq.{Eq}

abbrev pub Dict {ℓ} : Type ℓ → Type ℓ → Type ℓ
Dict K V = List (K × V)

module _ {ℓ} {K : Type ℓ} {V : Type ℓ} where
  abbrev pub values : Dict K V → List V
  values = map (λ e. e.1)

  abbrev pub keys : Dict K V → List K
  keys = map (λ e. e.0)

module _ {ℓ} {K : Type ℓ} {V : Type ℓ} ⦃e : Eq K⦄ where
  -- `d.get(k)`
  unfoldable pub get : K → Dict K V → Option V
  get k [] = none
  get k ((j, v) ∷ d) = if e.same j k then some v else get k d

  -- `d[k] = v`
  unfoldable pub set : K → V → Dict K V → Dict K V
  set k v [] = (k, v) ∷ []
  set k v ((j, w) ∷ d) = if e.same j k then (j, v) ∷ d else (j, w) ∷ set k v d

  -- `d.pop(k, None)`, without its result
  unfoldable pub pop : K → Dict K V → Dict K V
  pop k [] = []
  pop k ((j, w) ∷ d) = if e.same j k then pop k d else (j, w) ∷ pop k d

  pub get-set :
      (k j : K) (v : V) (d : Dict K V)
      → get j (set k v d) ≡ (if e.same k j then some v else get j d)
  unfolding get set
  get-set k j v [] = refl
  get-set k j v ((i, w) ∷ d) =
      ground (arith, e.same_iff k j, e.same_iff i k, e.same_iff i j, get-set k j v d)

  pub get-pop : (k j : K) (d : Dict K V) → get j (pop k d) ≡ (if e.same k j then none else get j d)
  unfolding get pop
  get-pop k j [] = ground arith
  get-pop k j ((i, w) ∷ d) =
      ground (arith, e.same_iff k j, e.same_iff i k, e.same_iff i j, get-pop k j d)

  pub get-set_self : (k : K) (v : V) (d : Dict K V) → get k (set k v d) ≡ some v
  get-set_self k v d = ground (arith, get-set k k v d, e.same_iff k k)

  pub get-set_ne : (k j : K) (v : V) (d : Dict K V) → k ≢ j → get j (set k v d) ≡ get j d
  get-set_ne k j v d h = ground (arith, get-set k j v d, e.same_iff k j)

  pub get-pop_self : (k : K) (d : Dict K V) → get k (pop k d) ≡ none
  get-pop_self k d = ground (arith, get-pop k k d, e.same_iff k k)

  pub get-pop_ne : (k j : K) (d : Dict K V) → k ≢ j → get j (pop k d) ≡ get j d
  get-pop_ne k j d h = ground (arith, get-pop k j d, e.same_iff k j)

  pub get-set-some :
      (k j : K) (v w : V) (d : Dict K V)
      → get j (set k v d) ≡ some w
      → ((k ≡ j) × (v ≡ w)) ⊎ (get j d ≡ some w)
  get-set-some k j v w d h = ground (arith, get-set k j v d, e.same_iff k j)

  pub get-set-none :
      (k j : K) (v : V) (d : Dict K V) → get j (set k v d) ≡ none → (k ≢ j) × (get j d ≡ none)
  get-set-none k j v d h = (
    (λ f. absurd (ground (arith, get-set k j v d, (e.same_iff k j).1 f))),
    ground (arith, get-set k j v d),
  )

  pub get-set_absent :
      (k j : K) (v w : V) (d : Dict K V)
      → get k d ≡ some w
      → get j d ≡ none
      → get j (set k v d) ≡ none
  get-set_absent k j v w d h a =
      get-set_ne k j v d
        (λ f. let b : get j d ≡ some w = subst (λ i. get i d ≡ some w) f h in absurd (ground arith))
      ∙ a

  -- No key stands twice.
  abbrev pub IsDict : Dict K V → Type ℓ
  IsDict [] = Unit
  IsDict ((k, v) ∷ d) = (get k d ≡ none) × IsDict d

  pub set-IsDict : (k : K) (v : V) (d : Dict K V) → IsDict d → IsDict (set k v d)
  unfolding set get
  set-IsDict k v [] h = (refl, tt)
  set-IsDict k v ((j, w) ∷ d) h =
      ground (arith, set-IsDict k v d h.1, get-set k j v d, e.same_iff j k, e.same_iff k j)

  pub pop-IsDict : (k : K) (d : Dict K V) → IsDict d → IsDict (pop k d)
  unfolding pop get
  pop-IsDict k [] h = tt
  pop-IsDict k ((j, w) ∷ d) h = ground (arith, pop-IsDict k d h.1, get-pop k j d, e.same_iff k j)

  -- `{k: v for k, v in d.items() if not p(k)}`
  unfoldable pub without : (K → Bool) → Dict K V → Dict K V
  without p [] = []
  without p ((j, w) ∷ d) = if p j then without p d else (j, w) ∷ without p d

  pub get-without :
      (p : K → Bool) (k : K) (d : Dict K V) → get k (without p d) ≡ (if p k then none else get k d)
  unfolding get without
  get-without p k [] = ground arith
  get-without p k ((j, w) ∷ d) =
      ground (arith, get-without p k d, e.same_iff j k, ap p {x = j} {y = k})

  pub without-IsDict : (p : K → Bool) (d : Dict K V) → IsDict d → IsDict (without p d)
  unfolding without get
  without-IsDict p [] h = tt
  without-IsDict p ((j, w) ∷ d) h = ground (arith, without-IsDict p d h.1, get-without p j d)

  pub pop-is-without : (k : K) (d : Dict K V) → pop k d ≡ without (λ j. e.same j k) d
  unfolding without pop
  pop-is-without k [] = refl
  pop-is-without k ((j, w) ∷ d) = ground (arith, pop-is-without k d)

  pub get-without-some :
      (p : K → Bool) (k : K) (v : V) (d : Dict K V)
      → get k (without p d) ≡ some v
      → (p k ≡ false) × (get k d ≡ some v)
  get-without-some p k v d h =
      (ground (arith, get-without p k d), ground (arith, get-without p k d))

  pub without-set :
      (p : K → Bool) (k : K) (v : V) (d : Dict K V)
      → without p (set k v d) ≡ (if p k then without p d else set k v (without p d))
  unfolding without set
  without-set p k v [] = ground arith
  without-set p k v ((j, w) ∷ d) =
      ground (arith, without-set p k v d, e.same_iff j k, ap p {x = j} {y = k})

  -- Dropping fewer keys first changes nothing.
  pub without-without :
      (p q : K → Bool) (d : Dict K V)
      → ((k : K) → q k ≡ true → p k ≡ true)
      → without p (without q d) ≡ without p d
  unfolding without
  without-without p q [] h = refl
  without-without p q ((j, w) ∷ d) h = ground (arith, without-without p q d h, h j)

  pub without-not : (p : K → Bool) (d : Dict K V) → without (λ k. not (p k)) (without p d) ≡ []
  unfolding without
  without-not p [] = refl
  without-not p ((j, w) ∷ d) = ground (arith, without-not p d)
