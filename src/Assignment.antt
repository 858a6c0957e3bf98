-- ===== src/Assignment.antt =====
-- src/cuebee_speaker/assignment.py: the online assignment of embeddings to speakers. An assignment
-- holds the lock of its session, so among the calls of one session it is one step. Vectors are those
-- of numpy: their operations are a parameter, with the exceptions that they raise.
pub mod Nearest
pub mod Identity
pub mod Stores
pub mod Owner
use cuebee_speaker_serving.Base.{
  ℕ, zero, suc, ◌+◌, Bool, true, false, not, ◌||◌, ◌&&◌, String, List, [], ◌∷◌, Option, none, some,
  arith, if◌then◌else◌, get_elem?,
}
use cuebee_speaker_serving.Base.Int.{ℤ, pos}
use cuebee_speaker_serving.Base.Float.{Float, max_float, min_float}
use cuebee_speaker_serving.Config.{AssignmentConfig}
use cuebee_speaker_serving.Domain.{
  EmbeddingResult, FeatureChunk, SpeakerProfile, SpeakerSegment, Result, ok, raised, Error,
  value_error, index_error, ◌>>=◌, ◌>>◌, refuse_if,
}
use cuebee_speaker_serving.Store.{SessionKey}
use cuebee_speaker_serving.Alignment.{unknown}

-- The operations of numpy that the assigner uses. `dot` and `plus` raise on shapes that differ.
pub record Vectors (R V : Type 0) : Type 0 where
  -- `float(np.linalg.norm(v))`
  pub norm : V → R
  -- `np.isfinite`
  pub is_finite : R → Bool
  -- `v / x` and `v * x`
  pub over : V → R → V
  pub times : V → R → V
  pub dot : V → V → Result R
  pub plus : V → V → Result V
  pub argmax : List R → ℕ
  pub clip : R → R → R → R

-- The operations of the `SpeakerStore` protocol that an assigner calls, on stores of the type `S`.
pub record SpeakerStore (R V S : Type 0) : Type 0 where
  pub list_profiles : S → SessionKey → List (SpeakerProfile R V)
  pub create_profile : S → SessionKey → V → R → ℤ → Result (S × SpeakerProfile R V)
  pub update_profile : S → SpeakerProfile R V → Result S
  pub rename_speaker : S → SessionKey → List ℕ → Option String → S × Bool

module _ {R V : Type 0} ⦃float : Float R⦄ (np : Vectors R V) where
  open float use {lt, le, decimal, add, sub, mul, of_int}

  -- `_normalize`
  unfoldable pub normalize : V → Result V
  normalize v = do
    refuse_if (not (np.is_finite (np.norm v)) || le (np.norm v) (decimal 1 12))
        "embedding must have a finite non-zero norm"
    ok (np.over v (np.norm v))

  -- The score of one profile.
  unfoldable pub similarity : V → SpeakerProfile R V → Result R
  similarity embedding p = do centroid ← normalize p.centroid; np.dot centroid embedding

  unfoldable pub scores_of : V → List (SpeakerProfile R V) → Result (List R)
  scores_of embedding [] = ok []
  scores_of embedding (p ∷ profiles) = do
    score ← similarity embedding p
    rest ← scores_of embedding profiles
    ok (score ∷ rest)

  -- `profiles[index], scores[index]`
  abbrev pub chosen :
      Option (SpeakerProfile R V) → Option R → Result (Option (SpeakerProfile R V × R))
  chosen none score = raised (index_error "list index out of range")
  chosen (some p) none = raised (index_error "list index out of range")
  chosen (some p) (some score) = ok (some (p, score))

  -- `_nearest`; `none` is its result `None, -1.0`, of which the score is not read.
  unfoldable pub nearest : V → List (SpeakerProfile R V) → Result (Option (SpeakerProfile R V × R))
  nearest embedding [] = ok none
  nearest embedding (p ∷ profiles) = do
    scores ← scores_of embedding (p ∷ profiles)
    chosen (get_elem? (p ∷ profiles) (np.argmax scores)) (get_elem? scores (np.argmax scores))

  -- `_updated_profile`
  unfoldable pub updated_profile :
      AssignmentConfig R → SpeakerProfile R V → V → R → ℤ → Result (SpeakerProfile R V)
  updated_profile c p embedding quality last_active_ms =
      let existing_weight =
        mul (min_float (of_int (pos p.sample_count)) c.max_centroid_weight)
          (max_float p.quality_ema (decimal 5 2)) in
      let new_weight = max_float quality (decimal 5 2) in
      do
        sum ← np.plus (np.times p.centroid existing_weight) (np.times embedding new_weight)
        centroid ← normalize sum
        ok (record p {
          centroid = centroid;
          sample_count = p.sample_count + 1;
          quality_ema =
              add (mul (sub (decimal 1 0) c.quality_ema_alpha) p.quality_ema)
                (mul c.quality_ema_alpha quality);
          last_active_ms = last_active_ms;
        })

  abbrev pub session_of : EmbeddingResult R V → SessionKey
  session_of result = (result.chunk.tenant_id, result.chunk.session_id)

  -- The segment of a result.
  abbrev pub segment_of : EmbeddingResult R V → List ℕ → R → SpeakerSegment R
  segment_of result speaker_id confidence = record {
    tenant_id = result.chunk.tenant_id;
    session_id = result.chunk.session_id;
    start_ms = result.chunk.start_ms;
    end_ms = result.chunk.end_ms;
    speaker_id = speaker_id;
    confidence = confidence;
    revision = 1;
  }

  module _ {S : Type 0} (store : SpeakerStore R V S) (c : AssignmentConfig R) where
    -- The branch of `assign` on a speaker that is new.
    unfoldable pub enrolled : S → EmbeddingResult R V → V → Result (S × SpeakerSegment R)
    enrolled st result embedding = do
      created ←
          store.create_profile st (session_of result) embedding result.quality result.chunk.end_ms
      ok (
        created.0,
        segment_of result created.1.speaker_id (np.clip result.quality (decimal 0 0) (decimal 1 0)),
      )

    -- The branch of `assign` on a speaker that is known.
    unfoldable pub recognised :
        S → EmbeddingResult R V → V → SpeakerProfile R V → R → Result (S × SpeakerSegment R)
    recognised st result embedding p score = do
      q ← updated_profile c p embedding result.quality result.chunk.end_ms
      st' ← store.update_profile st q
      ok (st', segment_of result q.speaker_id (np.clip score (decimal 0 0) (decimal 1 0)))

    -- `selected is None or score < threshold`
    unfoldable pub placed :
        S
        → EmbeddingResult R V
        → V
        → Option (SpeakerProfile R V × R)
        → Result (S × SpeakerSegment R)
    placed st result embedding none = enrolled st result embedding
    placed st result embedding (some (p, score)) =
        if lt score c.cosine_threshold
        then enrolled st result embedding
        else recognised st result embedding p score

    -- `assign`, behind the test of the quality.
    unfoldable pub identified : S → EmbeddingResult R V → Result (S × SpeakerSegment R)
    identified st result = do
      embedding ← normalize result.embedding
      best ← nearest embedding (store.list_profiles st (session_of result))
      placed st result embedding best

    -- `assign`
    unfoldable pub assign : S → EmbeddingResult R V → Result (S × SpeakerSegment R)
    assign st result =
        if lt result.quality c.min_quality
        then ok (st, segment_of result unknown result.quality)
        else identified st result

module _ {R V S : Type 0} (store : SpeakerStore R V S) where
  -- `rename`, on the store; `profiles` returns the store's list.
  unfoldable pub rename : S → SessionKey → List ℕ → String → S × Bool
  rename st session speaker_id display_name =
      store.rename_speaker st session speaker_id (some display_name)

  unfoldable pub profiles : S → SessionKey → List (SpeakerProfile R V)
  profiles st session = store.list_profiles st session
