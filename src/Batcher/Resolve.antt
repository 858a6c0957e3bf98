-- ===== src/Batcher/Resolve.antt =====
-- Which future gets which row of the backend's answer.
use cuebee_speaker_serving.Base.{
  ℕ, ◌≡◌, refl, sym, subst, inl, inr, true, List, arith, length, map, if◌then◌else◌, Bool-cases,
}
use cuebee_speaker_serving.Base.Keep.{All}
use cuebee_speaker_serving.Base.Float.{Float}
use cuebee_speaker_serving.Domain.{EmbeddingResult, Error, Result, ok, raised, value_error}
use cuebee_speaker_serving.Batcher.{QueuedRequest}
use cuebee_speaker_serving.Batcher.Batch.{IsDistinct}
use cuebee_speaker_serving.Batcher.Run.{
  Future, pending, cancelled, resolved, failed, Inferred, Round, Runner, fail_all, recovered,
  result_at, valid_shapes, answered, execute, clip,
}
use cuebee_speaker_serving.Batcher.Futures.{}
use cuebee_speaker_serving.Batcher.Outcomes.{
  AtEach-map, fail_all-Outcomes, put_cases, IsResolved, resolve_from-IsResolved, AtEach, IsOpen,
}

module _ {R V : Type 0} ⦃float : Float R⦄ where
  -- The future has the result that is made of the answer's row at this index.
  pub record IsRow (s : Runner R V) (answer : Inferred R V) (size i : ℕ) (x : QueuedRequest R V)
      (g : Future R V) : Type 0 where
    pub result : EmbeddingResult R V
    pub is : g ≡ resolved result
    pub chunk : result.chunk ≡ x.chunk
    pub embedding : result.embedding ≡ answer.embedding i
    pub quality : result.quality ≡ clip (answer.quality i)
    pub batch_size : result.batch_size ≡ size
    pub worker_id : result.worker_id ≡ s.worker_id

  -- What the backend's answer means for a pending future.
  abbrev pub IsOutcome :
      Runner R V → ℕ → Result (Inferred R V) → ℕ → QueuedRequest R V → Future R V → Type 0
  IsOutcome s size (raised e) i x g = g ≡ failed e
  IsOutcome s size (ok answer) i x g =
      if valid_shapes size s.embedding_dimension answer
      then IsRow s answer size i x g
      else (g ≡ failed (value_error "backend returned invalid shapes"))

  -- The outcome of the request at this index of a batch.
  abbrev pub HasOutcome :
      Runner R V → ℕ → Result (Inferred R V) → (ℕ → Future R V) → ℕ → QueuedRequest R V → Type 0
  HasOutcome s size answer g i x =
      (s.futures x.ordinal ≡ pending → IsOutcome s size answer i x (g x.ordinal))
      × (s.futures x.ordinal ≡ cancelled → g x.ordinal ≡ cancelled)

  fail_all-HasOutcome :
      (s : Runner R V) (e : Error) (size : ℕ) (answer : Result (Inferred R V))
      (batch : List (QueuedRequest R V))
      → IsDistinct batch
      → ((i : ℕ) (x : QueuedRequest R V) (g : Future R V)
          → g ≡ failed e
          → IsOutcome s size answer i x g)
      → AtEach (HasOutcome s size answer (fail_all e batch s.futures)) 0 batch
  fail_all-HasOutcome s e size answer batch d f =
      AtEach-map _ _
        (λ i x h. let (p, c) = put_cases (s.futures x.ordinal) _ _ h in ((λ q. f i x _ (p q)), c)) 0
        batch (fail_all-Outcomes e 0 batch s.futures d)

  resolved-HasOutcome :
      (s : Runner R V) (round : Round R V) (answer : Inferred R V)
      (batch : List (QueuedRequest R V)) (out : Result (Unit {0}) × (ℕ → Future R V))
      → valid_shapes (length batch) s.embedding_dimension answer ≡ true
      → IsResolved
          (λ i x. resolved (result_at s round answer (length batch) i x))
          0
          batch
          s.futures
          out
      → AtEach (HasOutcome s (length batch) (ok answer) (recovered batch out)) 0 batch
  resolved-HasOutcome s round answer batch (raised e, g) v h =
      let no = h.ends in absurd (ground arith)
  resolved-HasOutcome s round answer batch (ok u, g) v h =
      AtEach-map _ _
        (λ i x o.
          let (p, c) = put_cases (s.futures x.ordinal) _ _ o in
          (
            (λ q.
                subst
                  (λ t.
                    if t
                    then IsRow s answer (length batch) i x (g x.ordinal)
                    else (g x.ordinal ≡ failed (value_error "backend returned invalid shapes")))
                  (sym v)
                  (record {
                    result = result_at s round answer (length batch) i x;
                    is = p q;
                    chunk = refl;
                    embedding = refl;
                    quality = refl;
                    batch_size = refl;
                    worker_id = refl;
                  })),
            c,
          ))
        0 batch h.each

  answered-HasOutcome :
      (s : Runner R V) (round : Round R V) (batch : List (QueuedRequest R V))
      (answer : Result (Inferred R V))
      → IsDistinct batch
      → All (λ x. IsOpen (s.futures x.ordinal)) batch
      → AtEach
          (HasOutcome s (length batch) answer (recovered batch (answered s round batch answer)))
          0
          batch
  answered-HasOutcome s round batch (raised e) d o =
      fail_all-HasOutcome s e (length batch) (raised e) batch d (λ i x g h. h)
  answered-HasOutcome s round batch (ok answer) d o =
      elim (Bool-cases (valid_shapes (length batch) s.embedding_dimension answer)) [
        | inl e ↦ rw e (
            resolved-HasOutcome s round answer batch _ e (
              resolve_from-IsResolved (result_at s round answer (length batch)) 0 batch s.futures
                (λ i x. refl) d o))
        | inr e ↦ rw e (
            fail_all-HasOutcome s (value_error "backend returned invalid shapes") (length batch)
              (ok answer) batch d (λ i x g h. rw e h))
      ]

  -- The batch of distinct requests whose futures are open: the pending future at each index gets the
  -- row of the backend's answer at that index, or the exception that the backend raised, or a
  -- `ValueError` when the answer's shapes are not those of the batch; a cancelled future stays.
  pub execute-HasOutcome :
      (s : Runner R V) (round : Round R V) (bucket : ℕ) (batch : List (QueuedRequest R V))
      → IsDistinct batch
      → All (λ x. IsOpen (s.futures x.ordinal)) batch
      → AtEach
          (HasOutcome s
            (length batch)
            (round.infer_batch (map (λ item. item.chunk.features) batch))
            (execute s round bucket batch).futures)
          0
          batch
  unfolding execute
  execute-HasOutcome s round bucket batch d o =
      answered-HasOutcome s round batch
        (round.infer_batch (map (λ item. item.chunk.features) batch)) d o
