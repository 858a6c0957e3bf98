-- ===== src/Batcher/Asked.antt =====
-- What futures that are settled answer, where it is known what was asked.
use cuebee_speaker_serving.Base.{
  ℕ, suc, ◌<◌, ◌≡◌, sym, ap, ◌∙◌, subst, ◌≢◌, inl, inr, false, List, [], ◌∷◌, Option, some, arith,
  Bool-cases, ◌==◌, ==_iff, if◌then◌else◌,
}
use cuebee_speaker_serving.Base.Eq.{nat_eq}
use cuebee_speaker_serving.Base.Keep.{All}
use cuebee_speaker_serving.Domain.{FeatureChunk}
use cuebee_speaker_serving.Batcher.{QueuedRequest}
use cuebee_speaker_serving.Batcher.Run.{Future, pending, cancelled, resolved, failed, put}
use cuebee_speaker_serving.Batcher.Futures.{IsSettled}

-- The chunks of the submissions, by their ordinals.
abbrev pub Asked : (R V : Type 0) → Type 0
Asked R V = ℕ → Option (FeatureChunk R V)

module _ {R V : Type 0} where
  abbrev pub asked_also : ℕ → FeatureChunk R V → Asked R V → Asked R V
  asked_also k chunk asked j = if k == j then some chunk else asked j

  -- A request that was submitted.
  abbrev pub IsAsked : Asked R V → ℕ → QueuedRequest R V → Type 0
  IsAsked asked n x = (x.ordinal < n) × (asked x.ordinal ≡ some x.chunk)

  abbrev pub IsAnswer : Asked R V → ℕ → Future R V → Type 0
  IsAnswer asked k (resolved r) = asked k ≡ some r.chunk
  IsAnswer asked k pending = Unit
  IsAnswer asked k cancelled = Unit
  IsAnswer asked k (failed e) = Unit

  done-IsAnswer :
      (asked : Asked R V) (n : ℕ) (f g : Future R V) (x : QueuedRequest R V)
      → IsAsked asked n x
      → IsAnswer asked x.ordinal f
      → IsSettled f g x
      → IsAnswer asked x.ordinal g
  done-IsAnswer asked n pending pending x a h s = tt
  done-IsAnswer asked n pending cancelled x a h s = tt
  done-IsAnswer asked n pending (failed e) x a h s = tt
  done-IsAnswer asked n pending (resolved r) x a h s = a.1 ∙ ap some (sym s)
  done-IsAnswer asked n cancelled g x a h s = subst (IsAnswer asked x.ordinal) (sym s) h
  done-IsAnswer asked n (resolved r) g x a h s = subst (IsAnswer asked x.ordinal) (sym s) h
  done-IsAnswer asked n (failed e) g x a h s = subst (IsAnswer asked x.ordinal) (sym s) h

  pub settled-IsAnswer :
      (asked : Asked R V) (n : ℕ) (f g : ℕ → Future R V) (k : ℕ) (batch : List (QueuedRequest R V))
      → All (IsAsked asked n) batch
      → All (λ x. IsSettled (f x.ordinal) (g x.ordinal) x) batch
      → (All (λ x. k ≢ x.ordinal) batch → g k ≡ f k)
      → IsAnswer asked k (f k)
      → IsAnswer asked k (g k)
  settled-IsAnswer asked n f g k [] a s u h = subst (IsAnswer asked k) (sym (u tt)) h
  settled-IsAnswer asked n f g k (x ∷ batch) a s u h = elim (Bool-cases (k == x.ordinal)) [
    | inl e ↦
        let same : x.ordinal ≡ k = sym ((==_iff k x.ordinal).0 e) in
        subst (λ j. IsAnswer asked j (g j)) same
          (done-IsAnswer asked n (f x.ordinal) (g x.ordinal) x a.0
            (subst (λ j. IsAnswer asked j (f j)) (sym same) h) s.0)
    | inr e ↦
        settled-IsAnswer asked n f g k batch a.1 s.1
          (λ d. u ((λ (same : k ≡ x.ordinal). ground (arith, (==_iff k x.ordinal).1 same)), d)) h
  ]

  pub asked_also-IsAsked :
      (asked : Asked R V) (k : ℕ) (chunk : FeatureChunk R V) (x : QueuedRequest R V)
      → IsAsked asked k x
      → IsAsked (asked_also k chunk asked) (suc k) x
  asked_also-IsAsked asked k chunk x h = (
    omega (arith, h.0),
    elim (Bool-cases (k == x.ordinal)) [
      | inl e ↦ absurd (omega (arith, h.0, (==_iff k x.ordinal).0 e))
      | inr e ↦ rw e h.1
    ],
  )

  pub put-IsAnswer :
      (asked : Asked R V) (k : ℕ) (future : Future R V) (f : ℕ → Future R V)
      → IsAnswer asked k future
      → ((j : ℕ) → IsAnswer asked j (f j))
      → (j : ℕ) → IsAnswer asked j (put k future f j)
  put-IsAnswer asked k future f h own j = elim (Bool-cases (k == j)) [
    | inl e ↦ rw e (subst (λ i. IsAnswer asked i future) ((==_iff k j).0 e) h)
    | inr e ↦ rw e (own j)
  ]

  pub asked_also-IsAnswer :
      (asked : Asked R V) (k : ℕ) (chunk : FeatureChunk R V) (f : ℕ → Future R V)
      → ((j : ℕ) → IsAnswer asked j (f j))
      → (j : ℕ) → IsAnswer (asked_also k chunk asked) j (put k pending f j)
  asked_also-IsAnswer asked k chunk f own j = elim (Bool-cases (k == j)) [
    | inl e ↦ rw e tt
    | inr e ↦ rw e (own_with j e)
  ]
    where
      kept :
          (j : ℕ) (t : Future R V)
          → (k == j) ≡ false
          → IsAnswer asked j t
          → IsAnswer (asked_also k chunk asked) j t
      kept j pending e h = tt
      kept j cancelled e h = tt
      kept j (failed d) e h = tt
      kept j (resolved r) e h = rw e h

      own_with : (j : ℕ) → (k == j) ≡ false → IsAnswer (asked_also k chunk asked) j (f j)
      own_with j e = kept j (f j) e (own j)
