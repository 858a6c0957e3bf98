-- ===== src/Batcher/Outcomes.antt =====
-- The futures of a batch, by the index of the request in it.
use cuebee_speaker_serving.Base.{ℕ, suc, ◌≡◌, refl, sym, ◌∙◌, subst, ◌≢◌, List, [], ◌∷◌}
use cuebee_speaker_serving.Base.Keep.{All, All-zip}
use cuebee_speaker_serving.Base.Float.{Float}
use cuebee_speaker_serving.Domain.{EmbeddingResult, Error, Result, ok, raised, invalid_state}
use cuebee_speaker_serving.Batcher.{QueuedRequest}
use cuebee_speaker_serving.Batcher.Batch.{IsDistinct}
use cuebee_speaker_serving.Batcher.Run.{
  Future, pending, cancelled, resolved, failed, put, fail_all, resolve_from,
}
use cuebee_speaker_serving.Batcher.Futures.{
  put_self, put_ne, fail_all-AreSettled, resolve_from-IsTried,
}

module _ {R V : Type 0} where
  -- A property of each request and its index.
  abbrev pub AtEach : (ℕ → QueuedRequest R V → Type 0) → ℕ → List (QueuedRequest R V) → Type 0
  AtEach P i [] = Unit
  AtEach P i (x ∷ xs) = P i x × AtEach P (suc i) xs

  AtEach-zip :
      (P : QueuedRequest R V → Type 0) (Q S : ℕ → QueuedRequest R V → Type 0)
      → ((i : ℕ) (x : QueuedRequest R V) → P x → Q i x → S i x)
      → (i : ℕ) (xs : List (QueuedRequest R V)) → All P xs
      → AtEach Q i xs
      → AtEach S i xs
  AtEach-zip P Q S f i [] h k = tt
  AtEach-zip P Q S f i (x ∷ xs) h k = (f i x h.0 k.0, AtEach-zip P Q S f (suc i) xs h.1 k.1)

  pub AtEach-map :
      (Q S : ℕ → QueuedRequest R V → Type 0)
      → ((i : ℕ) (x : QueuedRequest R V) → Q i x → S i x)
      → (i : ℕ) (xs : List (QueuedRequest R V)) → AtEach Q i xs
      → AtEach S i xs
  AtEach-map Q S f i [] k = tt
  AtEach-map Q S f i (x ∷ xs) k = (f i x k.0, AtEach-map Q S f (suc i) xs k.1)

  -- Neither a result nor an exception was set.
  abbrev pub IsOpen : Future R V → Type 0
  IsOpen pending = Unit
  IsOpen cancelled = Unit
  IsOpen (resolved r) = ⊥
  IsOpen (failed e) = ⊥

  -- An outcome is put where the future was pending; a cancelled one stays.
  abbrev IsPut : Future R V → Future R V → Future R V → Type 0
  IsPut pending outcome g = g ≡ outcome
  IsPut f outcome g = g ≡ f

  abbrev pub Outcomes :
      (ℕ → QueuedRequest R V → Future R V)
      → (ℕ → Future R V)
      → (ℕ → Future R V)
      → ℕ
      → QueuedRequest R V
      → Type 0
  Outcomes outcome f g i x = IsPut (f x.ordinal) (outcome i x) (g x.ordinal)

  -- The first request's future is put, or stays, and the rest follows.
  put-Outcomes :
      (outcome : ℕ → QueuedRequest R V → Future R V) (i : ℕ) (x : QueuedRequest R V)
      (rest : List (QueuedRequest R V)) (f g : ℕ → Future R V)
      → All (λ y. x.ordinal ≢ y.ordinal) rest
      → f x.ordinal ≡ pending
      → g x.ordinal ≡ put x.ordinal (outcome i x) f x.ordinal
      → AtEach (Outcomes outcome (put x.ordinal (outcome i x) f) g) (suc i) rest
      → AtEach (Outcomes outcome f g) i (x ∷ rest)
  put-Outcomes outcome i x rest f g d p e h = (
    subst (λ t. IsPut t (outcome i x) (g x.ordinal)) (sym p)
        (e ∙ put_self x.ordinal (outcome i x) f),
    AtEach-zip _ _ _
        (λ j y n t.
          subst (λ u. IsPut u (outcome j y) (g y.ordinal))
            (put_ne x.ordinal y.ordinal (outcome i x) f n) t)
        (suc i) rest d h,
  )

  pub fail_all-Outcomes :
      (e : Error) (i : ℕ) (batch : List (QueuedRequest R V)) (f : ℕ → Future R V)
      → IsDistinct batch
      → AtEach (Outcomes (λ j x. failed e) f (fail_all e batch f)) i batch
  unfolding fail_all
  fail_all-Outcomes e i [] f d = tt
  fail_all-Outcomes e i (x ∷ rest) f d =
      go (f x.ordinal) refl (λ g. fail_all-Outcomes e (suc i) rest g d.1)
    where
      stays : (g : ℕ → Future R V) → fail_all e rest g x.ordinal ≡ g x.ordinal
      stays g = (fail_all-AreSettled e rest g d.1).untouched x.ordinal d.0

      go :
          (t : Future R V)
          → f x.ordinal ≡ t
          → ((g : ℕ → Future R V)
              → AtEach (Outcomes (λ j x. failed e) g (fail_all e rest g)) (suc i) rest)
          → AtEach
              (Outcomes
                (λ j x. failed e)
                f
                (elim t as (λ _. ℕ → Future R V) [
                  | pending ↦ fail_all e rest (put x.ordinal (failed e) f)
                  | cancelled ↦ fail_all e rest f
                  | resolved r ↦ fail_all e rest f
                  | failed d ↦ fail_all e rest f
                ]))
              i
              (x ∷ rest)
      go pending h later = put-Outcomes (λ j x. failed e) i x rest f _ d.0 h (stays _) (later _)
      go cancelled h later = (
        subst (λ u. IsPut u (failed e) (fail_all e rest f x.ordinal)) (sym h) (stays f ∙ h),
        later f,
      )
      go (resolved r) h later = (
        subst (λ u. IsPut u (failed e) (fail_all e rest f x.ordinal)) (sym h) (stays f ∙ h),
        later f,
      )
      go (failed c) h later = (
        subst (λ u. IsPut u (failed e) (fail_all e rest f x.ordinal)) (sym h) (stays f ∙ h),
        later f,
      )

  -- What `IsPut` says of a pending and of a cancelled future.
  pub put_cases :
      (f outcome g : Future R V)
      → IsPut f outcome g
      → (f ≡ pending → g ≡ outcome) × (f ≡ cancelled → g ≡ cancelled)
  put_cases f outcome g h =
      ((λ e. subst (λ t. IsPut t outcome g) e h), (λ e. subst (λ t. IsPut t outcome g) e h))

module _ {R V : Type 0} ⦃float : Float R⦄ where
  -- The loop of `set_result` on open futures ends, with each result put.
  pub record IsResolved (outcome : ℕ → QueuedRequest R V → Future R V) (i : ℕ)
      (batch : List (QueuedRequest R V)) (f : ℕ → Future R V)
      (out : Result (Unit {0}) × (ℕ → Future R V)) : Type 0 where
    pub ends : out.0 ≡ ok tt
    pub each : AtEach (Outcomes outcome f out.1) i batch

  put-IsOpen :
      (k : ℕ) (future : Future R V) (rest : List (QueuedRequest R V)) (f : ℕ → Future R V)
      → All (λ y. k ≢ y.ordinal) rest
      → All (λ y. IsOpen (f y.ordinal)) rest
      → All (λ y. IsOpen (put k future f y.ordinal)) rest
  put-IsOpen k future rest f =
      All-zip (λ y n o. subst IsOpen (sym (put_ne k y.ordinal future f n)) o) rest

  pub resolve_from-IsResolved :
      (result : ℕ → QueuedRequest R V → EmbeddingResult R V) (i : ℕ)
      (batch : List (QueuedRequest R V)) (f : ℕ → Future R V)
      → ((j : ℕ) (x : QueuedRequest R V) → (result j x).chunk ≡ x.chunk)
      → IsDistinct batch
      → All (λ x. IsOpen (f x.ordinal)) batch
      → IsResolved (λ j x. resolved (result j x)) i batch f (resolve_from result i batch f)
  unfolding resolve_from
  resolve_from-IsResolved result i [] f c d o = record { ends = refl; each = tt }
  resolve_from-IsResolved result i (x ∷ rest) f c d o =
      go (f x.ordinal) refl (λ g. resolve_from-IsResolved result (suc i) rest g c d.1)
    where
      outcome : ℕ → QueuedRequest R V → Future R V
      outcome j y = resolved (result j y)

      stays : (g : ℕ → Future R V) → (resolve_from result (suc i) rest g).1 x.ordinal ≡ g x.ordinal
      stays g = (resolve_from-IsTried result (suc i) rest g c d.1).untouched x.ordinal d.0

      go :
          (t : Future R V)
          → f x.ordinal ≡ t
          → ((g : ℕ → Future R V)
              → All (λ y. IsOpen (g y.ordinal)) rest
              → IsResolved outcome (suc i) rest g (resolve_from result (suc i) rest g))
          → IsResolved outcome i
              (x ∷ rest)
              f
              (elim t as (λ _. Result (Unit {0}) × (ℕ → Future R V)) [
                | pending ↦ resolve_from result (suc i) rest (put x.ordinal (outcome i x) f)
                | cancelled ↦ resolve_from result (suc i) rest f
                | resolved r ↦ (raised (invalid_state "invalid state"), f)
                | failed e ↦ (raised (invalid_state "invalid state"), f)
              ])
      go pending h later =
          let next =
            later (put x.ordinal (outcome i x) f)
              (put-IsOpen x.ordinal (outcome i x) rest f d.0 o.1) in
          record {
            ends = next.ends;
            each = put-Outcomes outcome i x rest f _ d.0 h (stays _) next.each;
          }
      go cancelled h later =
          let next = later f o.1 in
          record {
            ends = next.ends;
            each = (
              subst (λ u. IsPut u (outcome i x) ((resolve_from result (suc i) rest f).1 x.ordinal))
                  (sym h) (stays f ∙ h),
              next.each,
            );
          }
      go (resolved r) h later = absurd (subst IsOpen h o.0)
      go (failed e) h later = absurd (subst IsOpen h o.0)
