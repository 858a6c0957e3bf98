-- ===== src/Pipeline/Sessions.antt =====
-- Whose segments a call of the pipeline returns.
use cuebee_speaker_serving.Base.{
  ℕ, ◌≡◌, refl, sym, subst, map, length, ◌∙◌, Bool, true, false, String, List, [], ◌∷◌, ◌++◌,
  Option, none, some, if◌then◌else◌,
}
use cuebee_speaker_serving.Base.Float.{Float}
use cuebee_speaker_serving.Base.Keep.{All, All-append}
use cuebee_speaker_serving.Base.Sort.{sorted, All-sorted}
use cuebee_speaker_serving.Base.Text.{codes}
use cuebee_speaker_serving.Base.Int.{pos}
use cuebee_speaker_serving.Batcher.{seconds}
use cuebee_speaker_serving.Domain.{
  AudioChunk, SttSegment, AttributedTranscriptSpan, FeatureChunk, EmbeddingResult, SpeakerSegment,
  GatewayDecision, is_accepted, duration_ms, Result, ok, raised, Returning,
}
use cuebee_speaker_serving.Gateway.{accept}
use cuebee_speaker_serving.Frontend.{push, Streams}
use cuebee_speaker_serving.Frontend.Owner.{IsOwned, push-IsOwned, flush-IsOwned}
use cuebee_speaker_serving.Alignment.{align, query}
use cuebee_speaker_serving.Alignment.Owner.{IsSpanOf, align-IsSpanOf}
use cuebee_speaker_serving.Metrics.{observe}
use cuebee_speaker_serving.Assignment.{assign}
use cuebee_speaker_serving.Assignment.Owner.{IsOf, assign-IsOf}
use cuebee_speaker_serving.Pipeline.Effects.{Flow, return, continued, ◌>>=◌, ◌>>◌}
use cuebee_speaker_serving.Pipeline.{
  align_stt, metered, Parts, DiarizationPipeline, IngestResult, ingest_audio, ingest_accepted,
  ingest_refused, features_of, push_chunk, flush_stream, flush_session, into_frontend, into_store,
  assigned, assign_all, gathered, process_features, to_timeline, increased, starts_before, is_some,
  status_value,
}

-- What holds of the value of a call, if it returns one.
abbrev pub Yields : {P B : Type 0} → (B → Type 0) → Option (Result B × P) → Type 0
Yields Q none = Unit
Yields Q (some (raised e, p)) = Unit
Yields Q (some (ok b, p)) = Q b

module _ {P B C : Type 0} (Q : B → Type 0) (T : C → Type 0) where
  pub continued-Yields :
      (o : Option (Result B × P)) (next : B → Flow P C)
      → Yields Q o
      → ((b : B) (p : P) → Q b → Yields T (next b p))
      → Yields T (continued o next)
  continued-Yields none next h k = tt
  continued-Yields (some (raised e, p)) next h k = tt
  continued-Yields (some (ok b, p)) next h k = k b p h

module _ {P : Type 0} where
  all-Yields :
      {B : Type 0} (Q : B → Type 0) → ((b : B) → Q b) → (o : Option (Result B × P)) → Yields Q o
  all-Yields Q f none = tt
  all-Yields Q f (some (raised e, p)) = tt
  all-Yields Q f (some (ok b, p)) = f b

  -- A call that goes on after one whose value is nothing.
  later-Yields :
      {C : Type 0} (T : C → Type 0) (first : Flow P (Unit {0})) (next : Flow P C) (p : P)
      → ((q : P) → Yields T (next q))
      → Yields T ((first >> next) p)
  later-Yields T first next p h =
      continued-Yields (λ u. Unit {0}) T (first p) (λ u. next)
        (all-Yields (λ u. Unit {0}) (λ u. tt) (first p)) (λ u q j. h q)

-- The result is of a chunk of this session, and the segment is of it.
abbrev pub IsResultOf : {R V : Type 0} → String → String → EmbeddingResult R V → Type 0
IsResultOf t k r = IsOwned t k r.chunk

abbrev pub IsSegmentOf : {R : Type 0} → String → String → SpeakerSegment R → Type 0
IsSegmentOf t k s = (s.tenant_id ≡ t) × (s.session_id ≡ k)

-- What the batcher returns for features is one result for the chunk of each, in their order.
abbrev pub KeepsChunks : {R A V S : Type 0} → Parts R A V S → Type 0
KeepsChunks {R} {A} {V} {S} parts =
    (n : ℕ) (features : List (FeatureChunk R V))
    → Returning (λ results. map (λ r. r.chunk) results ≡ features) (parts.embed n features)

module _ {R A V S : Type 0} ⦃float : Float R⦄ (parts : Parts R A V S) (t k : String) where
  into_store-Yields :
      (p : DiarizationPipeline R A S) (result : EmbeddingResult R V)
      (r : Result (S × SpeakerSegment R))
      → IsResultOf t k result
      → Returning (IsOf result) r
      → Yields (IsSegmentOf t k) (into_store parts p r)
  into_store-Yields p result (raised e) h j = tt
  into_store-Yields p result (ok (store, segment)) h j = (j.0 ∙ h.0, j.1 ∙ h.1)

  assign_all-Yields :
      (results : List (EmbeddingResult R V)) (p : DiarizationPipeline R A S)
      → All (IsResultOf t k) results
      → Yields (All (IsSegmentOf t k)) (assign_all parts results p)
  unfolding assign_all assigned
  assign_all-Yields [] p h = tt
  assign_all-Yields (result ∷ results) p h =
      continued-Yields (IsSegmentOf t k) (All (IsSegmentOf t k)) (assigned parts result p)
        (λ segment. assign_all parts results >>= λ rest. return (segment ∷ rest))
        (into_store-Yields p result
          (assign parts.vectors parts.speakers parts.assignment p.store result) h.0
          (assign-IsOf parts.vectors parts.speakers parts.assignment p.store result))
        (λ segment q j.
          continued-Yields (All (IsSegmentOf t k)) (All (IsSegmentOf t k))
            (assign_all parts results q) (λ rest. return (segment ∷ rest))
            (assign_all-Yields results q h.1) (λ rest q' i. (j, i)))

  results-All :
      (results : List (EmbeddingResult R V)) (features : List (FeatureChunk R V))
      → map (λ r. r.chunk) results ≡ features
      → All (IsOwned t k) features
      → All (IsResultOf t k) results
  results-All [] features e h = tt
  results-All (r ∷ results) features e h =
      let h' = subst (All (IsOwned t k)) (sym e) h in
      (h'.0, results-All results (map (λ r. r.chunk) results) refl h'.1)

  gathered-Yields :
      (r : Result (List (EmbeddingResult R V))) (p : DiarizationPipeline R A S)
      (features : List (FeatureChunk R V))
      → Returning (λ results. map (λ r. r.chunk) results ≡ features) r
      → All (IsOwned t k) features
      → Yields (All (IsResultOf t k)) (some (r, p))
  gathered-Yields (raised e) p features e' h = tt
  gathered-Yields (ok results) p features e h = results-All results features e h

  pub process_features-Yields :
      (features : List (FeatureChunk R V)) (p : DiarizationPipeline R A S)
      → KeepsChunks parts
      → All (IsOwned t k) features
      → Yields (All (IsSegmentOf t k)) (process_features parts features p)
  unfolding process_features gathered
  process_features-Yields [] p m h = tt
  process_features-Yields (f ∷ features) p m h =
      continued-Yields (All (IsResultOf t k)) (All (IsSegmentOf t k))
        (gathered parts (f ∷ features) p)
        (λ results. assign_all parts (sorted starts_before results))
        (gathered-Yields (parts.embed p.submissions (f ∷ features)) _ (f ∷ features)
          (m p.submissions (f ∷ features)) h)
        (λ results q j.
          assign_all-Yields (sorted starts_before results) q
            (All-sorted starts_before (IsResultOf t k) results j))

  -- The segments that `flush_session` returns are of the session.
  pub flush_session-Yields :
      (p : DiarizationPipeline R A S)
      → KeepsChunks parts
      → Yields (All (IsSegmentOf t k)) (flush_session parts t k p)
  unfolding flush_session flush_stream
  flush_session-Yields p m =
      continued-Yields (All (IsOwned t k)) (All (IsSegmentOf t k)) (flush_stream parts t k p) _
        (flush-IsOwned parts.signal parts.audio p.frontend t k)
        (λ features q j.
          continued-Yields (All (IsSegmentOf t k)) (All (IsSegmentOf t k))
            (process_features parts features q)
            (λ segments. to_timeline parts segments >> return segments)
            (process_features-Yields features q m j)
            (λ segments q' i.
              later-Yields (All (IsSegmentOf t k)) (to_timeline parts segments) (return segments) q'
                (λ q''. i)))

module _ {R A V S : Type 0} ⦃float : Float R⦄ (parts : Parts R A V S) (chunk : AudioChunk) where
  abbrev pub Mine : List (FeatureChunk R V) → Type 0
  Mine = All (IsOwned chunk.tenant_id chunk.session_id)

  into_frontend-Yields :
      (p : DiarizationPipeline R A S) (r : Result (Option (Streams A × List (FeatureChunk R V))))
      → ((streams : Streams A) (features : List (FeatureChunk R V))
          → r ≡ ok (some (streams, features))
          → Mine features)
      → Yields Mine (into_frontend parts p r)
  into_frontend-Yields p (raised e) h = tt
  into_frontend-Yields p (ok none) h = tt
  into_frontend-Yields p (ok (some (streams, features))) h = h streams features refl

  with_last :
      (b : Bool) (features : List (FeatureChunk R V)) (p : DiarizationPipeline R A S)
      → Mine features
      → Yields Mine (
          (if b
              then (flush_stream parts chunk.tenant_id chunk.session_id >>= λ last.
                  return (features ++ last))
              else return features)
            p)
  unfolding flush_stream
  with_last true features p h =
      All-append _ features _ h
        (flush-IsOwned parts.signal parts.audio p.frontend chunk.tenant_id chunk.session_id)
  with_last false features p h = h

  pub features_of-Yields : (p : DiarizationPipeline R A S) → Yields Mine (features_of parts chunk p)
  unfolding features_of push_chunk
  features_of-Yields p =
      continued-Yields Mine Mine (push_chunk parts chunk p) _
        (into_frontend-Yields p (push parts.signal parts.audio p.frontend chunk)
          (λ streams features e.
            push-IsOwned parts.signal parts.audio p.frontend streams chunk features e))
        (with_last chunk.is_final)

  -- Every segment of the answer is of the chunk's session.
  abbrev pub IsAnswerOf : IngestResult R → Type 0
  IsAnswerOf r = All (IsSegmentOf chunk.tenant_id chunk.session_id) r.speaker_segments

  nothing_returned :
      (decision : GatewayDecision) (p : DiarizationPipeline R A S)
      → Yields IsAnswerOf (ingest_refused parts decision p)
  nothing_returned decision p =
      later-Yields IsAnswerOf
        (increased parts (codes "gateway_" ++ codes (status_value decision.status))
          (float.decimal 1 0))
        (return (record { gateway = decision; speaker_segments = [] })) p (λ q. tt)

  ingest_accepted-Yields :
      (decision : GatewayDecision) (p : DiarizationPipeline R A S)
      → KeepsChunks parts
      → Yields IsAnswerOf (ingest_accepted parts chunk decision p)
  unfolding ingest_accepted
  ingest_accepted-Yields decision p m =
      later-Yields IsAnswerOf
        (increased parts (codes "audio_chunks_accepted") (float.decimal 1 0)
          >> increased parts (codes "audio_seconds_received") (seconds (duration_ms chunk))
          >> (if is_some decision.missing_range
              then increased parts (codes "sequence_gaps") (float.decimal 1 0)
              else return tt))
        (features_of parts chunk >>= rest) p
        (λ q.
          continued-Yields Mine IsAnswerOf (features_of parts chunk q) rest (features_of-Yields q)
            (λ features q' j.
              continued-Yields Segments IsAnswerOf (process_features parts features q') recorded
                (process_features-Yields parts chunk.tenant_id chunk.session_id features q' m j)
                (λ segments q'' i.
                  later-Yields IsAnswerOf
                    (to_timeline parts segments
                      >> increased parts (codes "speaker_segments")
                          (float.of_int (pos (length segments))))
                    (return (record { gateway = decision; speaker_segments = segments })) q''
                    (λ q3. i))))
    where
      Segments : List (SpeakerSegment R) → Type 0
      Segments = All (IsSegmentOf chunk.tenant_id chunk.session_id)

      recorded : List (SpeakerSegment R) → Flow (DiarizationPipeline R A S) (IngestResult R)
      recorded segments =
          to_timeline parts segments
          >> increased parts (codes "speaker_segments") (float.of_int (pos (length segments)))
          >> return (record { gateway = decision; speaker_segments = segments })

      rest : List (FeatureChunk R V) → Flow (DiarizationPipeline R A S) (IngestResult R)
      rest features = process_features parts features >>= recorded

  either-Yields :
      (b : Bool) (m n : Flow (DiarizationPipeline R A S) (IngestResult R))
      (p : DiarizationPipeline R A S)
      → Yields IsAnswerOf (m p)
      → Yields IsAnswerOf (n p)
      → Yields IsAnswerOf ((if b then m else n) p)
  either-Yields true m n p h k = h
  either-Yields false m n p h k = k

  pub ingest_audio-Yields :
      (p : DiarizationPipeline R A S)
      → KeepsChunks parts
      → Yields IsAnswerOf (ingest_audio parts chunk p)
  unfolding ingest_audio
  ingest_audio-Yields p m =
      either-Yields (is_accepted (accept p.gateway chunk).1)
        (ingest_accepted parts chunk (accept p.gateway chunk).1)
        (ingest_refused parts (accept p.gateway chunk).1)
        (record p { gateway = (accept p.gateway chunk).0 })
        (ingest_accepted-Yields (accept p.gateway chunk).1 _ m)
        (nothing_returned (accept p.gateway chunk).1 _)

module _ {R A V S : Type 0} ⦃float : Float R⦄ (parts : Parts R A V S) (event : SttSegment) where
  -- The spans that `align_stt` returns are of the event's session.
  pub align_stt-Yields :
      (elapsed : R) (p : DiarizationPipeline R A S)
      → Yields (All (IsSpanOf event)) (align_stt parts event elapsed p)
  unfolding align_stt
  align_stt-Yields elapsed p =
      continued-Yields Q Q (some (r, p)) (λ spans. counted >> return spans)
        (aligned r (
          align-IsSpanOf parts.is_space event
            (query p.timeline event.tenant_id event.session_id event.start_ms event.end_ms)))
        (λ spans q h. later-Yields Q counted (return spans) q (λ q'. h))
    where
      Q : List AttributedTranscriptSpan → Type 0
      Q = All (IsSpanOf event)

      r : Result (List AttributedTranscriptSpan)
      r =
          align parts.is_space event
            (query p.timeline event.tenant_id event.session_id event.start_ms event.end_ms)

      counted : Flow (DiarizationPipeline R A S) (Unit {0})
      counted = increased parts (codes "stt_segments_aligned") (float.decimal 1 0) >> (λ q.
          metered parts q (observe parts.numeric (codes "alignment_compute_ms") elapsed) q.metrics)

      aligned :
          (r : Result (List AttributedTranscriptSpan)) → Returning Q r → Yields Q (some (r, p))
      aligned (raised e) h = tt
      aligned (ok spans) h = h
