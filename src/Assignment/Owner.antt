-- ===== src/Assignment/Owner.antt =====
-- Whose segment an assignment returns.
use cuebee_speaker_serving.Base.{◌≡◌, refl, Option, none, some}
use cuebee_speaker_serving.Base.Float.{Float}
use cuebee_speaker_serving.Config.{AssignmentConfig}
use cuebee_speaker_serving.Domain.{
  EmbeddingResult, SpeakerProfile, SpeakerSegment, Result, ok, ◌>>=◌, Returning, Returning->>=,
  Returning-if,
}
use cuebee_speaker_serving.Assignment.{
  Vectors, SpeakerStore, assign, identified, placed, enrolled, recognised, normalize, nearest,
  updated_profile, segment_of, session_of,
}
use cuebee_speaker_serving.Alignment.{unknown}

-- The segment is of the tenant and session of the result's chunk.
abbrev pub IsOf : {R V S : Type 0} → EmbeddingResult R V → S × SpeakerSegment R → Type 0
IsOf result out =
    (out.1.tenant_id ≡ result.chunk.tenant_id) × (out.1.session_id ≡ result.chunk.session_id)

module _ {R V S : Type 0} ⦃float : Float R⦄ (np : Vectors R V) (store : SpeakerStore R V S)
    (c : AssignmentConfig R) where
  enrolled-IsOf :
      (st : S) (result : EmbeddingResult R V) (v : V)
      → Returning (IsOf result) (enrolled np store c st result v)
  unfolding enrolled
  enrolled-IsOf st result v =
      Returning->>= (IsOf result)
        (store.create_profile st (session_of np result) v result.quality result.chunk.end_ms)
        (λ created. ok (
          created.0,
          segment_of np result created.1.speaker_id
              (np.clip result.quality (float.decimal 0 0) (float.decimal 1 0)),
        ))
        (λ created. (refl, refl))

  recognised-IsOf :
      (st : S) (result : EmbeddingResult R V) (v : V) (p : SpeakerProfile R V) (score : R)
      → Returning (IsOf result) (recognised np store c st result v p score)
  unfolding recognised
  recognised-IsOf st result v p score =
      Returning->>= (IsOf result) (updated_profile np c p v result.quality result.chunk.end_ms)
        (λ q. store.update_profile st q >>= written q)
        (λ q.
          Returning->>= (IsOf result) (store.update_profile st q) (written q) (λ st'. (refl, refl)))
    where
      written : SpeakerProfile R V → S → Result (S × SpeakerSegment R)
      written q st' = ok (
        st',
        segment_of np result q.speaker_id (np.clip score (float.decimal 0 0) (float.decimal 1 0)),
      )

  placed-IsOf :
      (st : S) (result : EmbeddingResult R V) (v : V) (o : Option (SpeakerProfile R V × R))
      → Returning (IsOf result) (placed np store c st result v o)
  unfolding placed
  placed-IsOf st result v none = enrolled-IsOf st result v
  placed-IsOf st result v (some (p, score)) =
      Returning-if (IsOf result) (float.lt score c.cosine_threshold)
        (enrolled np store c st result v) (recognised np store c st result v p score)
        (enrolled-IsOf st result v) (recognised-IsOf st result v p score)

  identified-IsOf :
      (st : S) (result : EmbeddingResult R V)
      → Returning (IsOf result) (identified np store c st result)
  unfolding identified
  identified-IsOf st result =
      Returning->>= (IsOf result) (normalize np result.embedding)
        (λ v.
          nearest np v (store.list_profiles st (session_of np result))
          >>= placed np store c st result v)
        (λ v.
          Returning->>= (IsOf result) (nearest np v (store.list_profiles st (session_of np result)))
            (placed np store c st result v) (placed-IsOf st result v))

  -- An assignment that returns gives a segment of the result's tenant and session.
  pub assign-IsOf :
      (st : S) (result : EmbeddingResult R V)
      → Returning (IsOf result) (assign np store c st result)
  unfolding assign
  assign-IsOf st result =
      Returning-if (IsOf result) (float.lt result.quality c.min_quality)
        (ok (st, segment_of np result unknown result.quality)) (identified np store c st result)
        (refl, refl) (identified-IsOf st result)
