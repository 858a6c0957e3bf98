-- ===== src/Batcher/Collect.antt =====
-- The loop of `_take_batch`: its bounds, and what it leaves in place.
use cuebee_speaker_serving.Base.{
  ℕ, ◌+◌, ◌≡◌, refl, sym, ◌∙◌, inl, inr, Bool, true, false, String, List, [], ◌∷◌, ◌++◌, arith,
  length, length-append, Bool-cases,
}
use cuebee_speaker_serving.Base.Eq.{Eq, string_eq, pair_eq}
use cuebee_speaker_serving.Base.Int.{pos, ltb_ℤ, ◌≤ℤ◌}
use cuebee_speaker_serving.Base.Dict.{Dict, set, get-set}
use cuebee_speaker_serving.Base.Keep.{tally, tally-snoc, Picks, done, take, skip, Picks-nil}
use cuebee_speaker_serving.Base.Float.{Float}
use cuebee_speaker_serving.Config.{BatcherConfig}
use cuebee_speaker_serving.Batcher.{QueuedRequest, session_key, collect, count_of}
use mathlib.Core.List.{append_assoc, append-nil}

abbrev pub key_eq : Eq (String × String)
key_eq = pair_eq

module _ {R V : Type 0} where
  abbrev pub of_session : String × String → QueuedRequest R V → Bool
  of_session k item = key_eq.same (session_key item) k

  -- The dictionary `per_session` counts the selected requests of each session.
  abbrev pub Tracks : Dict (String × String) ℕ → List (QueuedRequest R V) → Type 0
  Tracks d selected = (k : String × String) → count_of k d ≡ tally (of_session k) selected

  pub Tracks-snoc :
      (d : Dict (String × String) ℕ) (selected : List (QueuedRequest R V))
      (item : QueuedRequest R V)
      → Tracks d selected
      → Tracks
          (set (session_key item) (count_of (session_key item) d + 1) d)
          (selected ++ item ∷ [])
  Tracks-snoc d selected item t k = ground (
    arith,
    get-set (session_key item) k (count_of (session_key item) d + 1) d,
    tally-snoc (of_session k) selected item,
    t k,
    t (session_key item),
    key_eq.same_iff (session_key item) k,
  )

module _ {R V : Type 0} ⦃float : Float R⦄ where
  abbrev pub room : BatcherConfig → List (QueuedRequest R V) → Bool
  room c selected = ltb_ℤ (pos (length selected)) c.max_batch_size

  abbrev pub share : BatcherConfig → Dict (String × String) ℕ → QueuedRequest R V → Bool
  share c d item = ltb_ℤ (pos (count_of (session_key item) d)) c.per_session_batch_limit

  -- The three ways of one round.
  pub collect_cases {ℓ} :
      (P : List (QueuedRequest R V) → Type ℓ) (c : BatcherConfig) (item : QueuedRequest R V)
      (rest selected : List (QueuedRequest R V)) (d : Dict (String × String) ℕ)
      → (share c d item ≡ false → P (collect c rest selected d))
      → (share c d item ≡ true → room c (selected ++ item ∷ []) ≡ false → P (selected ++ item ∷ []))
      → (share c d item ≡ true
          → room c (selected ++ item ∷ []) ≡ true
          → P (
              collect c rest
                (selected ++ item ∷ [])
                (set (session_key item) (count_of (session_key item) d + 1) d)))
      → P (collect c (item ∷ rest) selected d)
  unfolding collect
  collect_cases P c item rest selected d skipped full goes = elim (Bool-cases (share c d item)) [
    | inr e ↦ rw e (skipped e)
    | inl e ↦ elim (Bool-cases (room c (selected ++ item ∷ []))) [
      | inr e' ↦ rw (e, e') (full e e')
      | inl e' ↦ rw (e, e') (goes e e')
    ]
  ]

  pub collect-le :
      (c : BatcherConfig) (rest selected : List (QueuedRequest R V)) (d : Dict (String × String) ℕ)
      → room c selected ≡ true
      → pos (length (collect c rest selected d)) ≤ℤ c.max_batch_size
  unfolding collect
  collect-le c [] selected d h = ground arith
  collect-le c (item ∷ rest) selected d h =
      collect_cases (λ out. pos (length out) ≤ℤ c.max_batch_size) c item rest selected d
        (λ _. collect-le c rest selected d h)
        (λ _ _. ground (arith, length-append selected (item ∷ []))) (λ _ e. collect-le c rest _ _ e)

  pub collect-capped :
      (c : BatcherConfig) (rest selected : List (QueuedRequest R V)) (d : Dict (String × String) ℕ)
      → Tracks d selected
      → ((k : String × String) → pos (tally (of_session k) selected) ≤ℤ c.per_session_batch_limit)
      → (k : String × String)
      → pos (tally (of_session k) (collect c rest selected d)) ≤ℤ c.per_session_batch_limit
  unfolding collect
  collect-capped c [] selected d t h k = h k
  collect-capped c (item ∷ rest) selected d t h k =
      collect_cases (λ out. pos (tally (of_session k) out) ≤ℤ c.per_session_batch_limit) c item rest
        selected d (λ _. collect-capped c rest selected d t h k) (λ e _. more e k)
        (λ e _. collect-capped c rest _ _ (Tracks-snoc d selected item t) (more e) k)
    where
      more :
          share c d item ≡ true
          → (j : String × String)
          → pos (tally (of_session j) (selected ++ item ∷ [])) ≤ℤ c.per_session_batch_limit
      more e j = ground (
        arith,
        h j,
        t j,
        t (session_key item),
        tally-snoc (of_session j) selected item,
        key_eq.same_iff (session_key item) j,
      )

  abbrev pub Extends :
      List (QueuedRequest R V) → List (QueuedRequest R V) → List (QueuedRequest R V) → Type 0
  Extends selected rest out =
      (more : List (QueuedRequest R V)) × (out ≡ selected ++ more) × Picks more rest

  snoc-Extends :
      (selected rest out : List (QueuedRequest R V)) (item : QueuedRequest R V)
      → Extends (selected ++ item ∷ []) rest out
      → Extends selected (item ∷ rest) out
  snoc-Extends selected rest out item (more, e, p) =
      (item ∷ more, e ∙ append_assoc selected (item ∷ []) more, take item p)

  -- The loop adds some of the rest to what it has, in their order.
  pub collect-Extends :
      (c : BatcherConfig) (rest selected : List (QueuedRequest R V)) (d : Dict (String × String) ℕ)
      → Extends selected rest (collect c rest selected d)
  unfolding collect
  collect-Extends c [] selected d = ([], sym (append-nil selected), done)
  collect-Extends c (item ∷ rest) selected d =
      collect_cases (Extends selected (item ∷ rest)) c item rest selected d
        (λ _. let (more, e, p) = collect-Extends c rest selected d in (more, e, skip item p))
        (λ _ _. (item ∷ [], refl, take item (Picks-nil rest)))
        (λ _ _. snoc-Extends selected rest _ item (collect-Extends c rest _ _))
