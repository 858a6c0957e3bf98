-- ===== src/Batcher/Answers.antt =====
-- What the tasks of `_process_features` get from the batcher.
use cuebee_speaker_serving.Base.{ℕ, ◌≡◌, refl, sym, ap, ◌∙◌, subst, List, [], ◌∷◌, some, none, map}
use cuebee_speaker_serving.Base.Keep.{In}
use cuebee_speaker_serving.Base.Float.{Float}
use cuebee_speaker_serving.Config.{BatcherConfig, check_batcher}
use cuebee_speaker_serving.Domain.{FeatureChunk, EmbeddingResult, Error, Result, ok, raised}
use cuebee_speaker_serving.Batcher.{QueuedRequest}
use cuebee_speaker_serving.Batcher.Asked.{Asked, IsAnswer}
use cuebee_speaker_serving.Batcher.Run.{Future, resolved, failed, Runner}
use cuebee_speaker_serving.Batcher.Runs.{Runs, Runs-IsOrderly}

module _ {R V : Type 0} where
  -- What `asyncio.gather` gives over the futures of submissions: the results, in the order of the
  -- arguments, once each has one, or an exception that one of them has. A cancelled future, which
  -- raises `CancelledError`, gives neither.
  pub data Gathers (futures : ℕ → Future R V)
      : List ℕ → Result (List (EmbeddingResult R V)) → Type 0 where
    ends : Gathers futures [] (ok [])
    gets :
        {k : ℕ} {ordinals : List ℕ} {r : EmbeddingResult R V} {results : List (EmbeddingResult R V)}
        → futures k ≡ resolved r
        → Gathers futures ordinals (ok results)
        → Gathers futures (k ∷ ordinals) (ok (r ∷ results))
    raises :
        {k : ℕ} {ordinals : List ℕ} {e : Error}
        → In k ordinals
        → futures k ≡ failed e
        → Gathers futures ordinals (raised e)

  -- The submissions with these ordinals were of these chunks.
  abbrev pub AreAsked : Asked R V → List ℕ → List (FeatureChunk R V) → Type 0
  AreAsked asked [] [] = Unit
  AreAsked asked [] (f ∷ features) = ⊥
  AreAsked asked (k ∷ ordinals) [] = ⊥
  AreAsked asked (k ∷ ordinals) (f ∷ features) =
      (asked k ≡ some f) × AreAsked asked ordinals features

  own_chunks :
      (asked : Asked R V) (futures : ℕ → Future R V) (ordinals : List ℕ)
      (features : List (FeatureChunk R V)) (results : List (EmbeddingResult R V))
      → ((k : ℕ) → IsAnswer asked k (futures k))
      → AreAsked asked ordinals features
      → Gathers futures ordinals (ok results)
      → map (λ r. r.chunk) results ≡ features
  own_chunks asked futures _ [] _ own a ends = refl
  own_chunks asked futures _ (f ∷ features) _ own a ends = absurd a
  own_chunks asked futures _ [] _ own a (gets e g) = absurd a
  own_chunks asked futures _ (f ∷ features) _ own a (gets {k} {ordinals} {r} {results} e g) =
      let same : r.chunk ≡ f =
        ap (λ o. elim o [ none ↦ f | some chunk ↦ chunk ])
          (sym (subst (IsAnswer asked k) e (own k)) ∙ a.0) in
      let rest = own_chunks asked futures ordinals features results own a.1 g in
      λ i. same i ∷ rest i

module _ {R V : Type 0} ⦃float : Float R⦄ where
  -- Over any run of a batcher with a valid configuration, which takes and executes one batch at a time
  -- while submissions, cancellations and the start of `close` come at any point: when `gather` over
  -- some submissions returns, it returns one result for each of their chunks, in their order.
  pub gathered-chunks :
      (c : BatcherConfig) (asked : Asked R V) (s : Runner R V) (batch : List (QueuedRequest R V))
      (ordinals : List ℕ) (features : List (FeatureChunk R V))
      (results : List (EmbeddingResult R V))
      → check_batcher c ≡ ok tt
      → Runs c asked s batch
      → AreAsked asked ordinals features
      → Gathers s.futures ordinals (ok results)
      → map (λ r. r.chunk) results ≡ features
  gathered-chunks c asked s batch ordinals features results v r =
      own_chunks asked s.futures ordinals features results
        (Runs-IsOrderly c asked s batch v r).answers
