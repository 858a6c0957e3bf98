-- ===== src/Pipeline.antt =====
-- src/cuebee_speaker/pipeline.py: the gateway, the frontend, the assigner, the timeline and the
-- metrics behind one another. A call holds the lock of its session, and here each call is one step.
pub mod Effects
pub mod Keeps
pub mod Retransmit
pub mod Sessions
pub mod Isolation
use cuebee_speaker_serving.Base.{
  ℕ, suc, ◌+◌, Bool, true, false, String, List, [], ◌∷◌, ◌++◌, Option, none, some, arith, length,
  if◌then◌else◌, ◌==◌, not,
}
use cuebee_speaker_serving.Base.Int.{ℤ, pos, ltb_ℤ}
use cuebee_speaker_serving.Base.Text.{codes}
use cuebee_speaker_serving.Base.Sort.{sorted}
use cuebee_speaker_serving.Base.Float.{Float}
use cuebee_speaker_serving.Config.{AudioConfig, AssignmentConfig}
use cuebee_speaker_serving.Domain.{
  GatewayStatus, accepted, gap_accepted, duplicate, stale_epoch, GatewayDecision, is_accepted,
  AudioChunk, duration_ms, FeatureChunk, EmbeddingResult, SpeakerSegment, SttSegment,
  AttributedTranscriptSpan, Error, Result, ok, raised,
}
use cuebee_speaker_serving.Gateway.{EventGateway, accept}
use cuebee_speaker_serving.Frontend.{Signal, Streams, push, flush}
use cuebee_speaker_serving.Batcher.{seconds}
use cuebee_speaker_serving.Assignment.{Vectors, SpeakerStore, assign, rename}
use cuebee_speaker_serving.Alignment.{Segments, add, query, align}
use Effects.{Flow, return, ◌>>=◌, ◌>>◌}
use cuebee_speaker_serving.Batcher.Run.{BatchObservation}
use cuebee_speaker_serving.Metrics.{MetricRegistry, Numeric, increment, observe, observe_batch}

-- The parts with no state here, and their settings. `embed` is what the batcher gives for the
-- features of a call, by the number of the call: the results, or the exception that `gather` raises;
-- `observed` is the batches that it executes meanwhile, each of which its observer is called with.
pub record Parts (R A V S : Type 0) : Type 0 where
  pub signal : Signal R A V
  pub audio : AudioConfig R
  pub embed : ℕ → List (FeatureChunk R V) → Result (List (EmbeddingResult R V))
  pub observed : ℕ → List (BatchObservation R)
  pub vectors : Vectors R V
  pub speakers : SpeakerStore R V S
  pub assignment : AssignmentConfig R
  pub retention_ms : ℤ
  pub numeric : Numeric R
  pub is_space : ℕ → Bool

-- `DiarizationPipeline`, with the state of its parts. `submissions` counts the calls of the batcher.
pub record DiarizationPipeline (R A S : Type 0) : Type 0 where
  pub gateway : EventGateway
  pub frontend : Streams A
  pub store : S
  pub timeline : Segments R
  pub metrics : Option (MetricRegistry R)
  pub submissions : ℕ

-- `IngestResult`
pub record IngestResult (R : Type 0) : Type 0 where
  pub gateway : GatewayDecision
  pub speaker_segments : List (SpeakerSegment R)

-- `status.value`
abbrev pub status_value : GatewayStatus → String
status_value accepted = "accepted"
status_value gap_accepted = "gap_accepted"
status_value duplicate = "duplicate"
status_value stale_epoch = "stale_epoch"

abbrev pub is_some {ℓ} : {A : Type ℓ} → Option A → Bool
is_some none = false
is_some (some a) = true

-- `sorted(results, key=lambda item: (item.chunk.start_ms, item.chunk.end_ms))`
abbrev pub starts_before : {R V : Type 0} → EmbeddingResult R V → EmbeddingResult R V → Bool
starts_before a b =
    if ltb_ℤ a.chunk.start_ms b.chunk.start_ms
    then true
    else if ltb_ℤ b.chunk.start_ms a.chunk.start_ms
    then false
    else ltb_ℤ a.chunk.end_ms b.chunk.end_ms

module _ {R A V S : Type 0} ⦃float : Float R⦄ (parts : Parts R A V S) where
  open float use {decimal, of_int}

  -- `if self.metrics is not None: self.metrics.increment(...)`
  abbrev pub metered :
      DiarizationPipeline R A S
      → (MetricRegistry R → Result (Unit {0}) × MetricRegistry R)
      → Option (MetricRegistry R)
      → Option (Result (Unit {0}) × DiarizationPipeline R A S)
  metered p method none = some (ok tt, p)
  metered p method (some m) = let (r, m') = method m in some (r, record p { metrics = some m' })

  unfoldable pub increased : List ℕ → R → Flow (DiarizationPipeline R A S) (Unit {0})
  increased name value p = metered p (increment parts.numeric name value) p.metrics

  abbrev pub into_frontend :
      DiarizationPipeline R A S
      → Result (Option (Streams A × List (FeatureChunk R V)))
      → Option (Result (List (FeatureChunk R V)) × DiarizationPipeline R A S)
  into_frontend p (raised e) = some (raised e, p)
  into_frontend p (ok none) = none
  into_frontend p (ok (some (streams, features))) =
      some (ok features, record p { frontend = streams })

  -- `self.frontend.push(chunk)`
  unfoldable pub push_chunk :
      AudioChunk → Flow (DiarizationPipeline R A S) (List (FeatureChunk R V))
  push_chunk chunk p = into_frontend p (push parts.signal parts.audio p.frontend chunk)

  -- `self.frontend.flush(...)`
  unfoldable pub flush_stream :
      String → String → Flow (DiarizationPipeline R A S) (List (FeatureChunk R V))
  flush_stream tenant_id session_id p =
      let (streams, features) = flush parts.signal parts.audio p.frontend tenant_id session_id in
      some (ok features, record p { frontend = streams })

  abbrev pub into_store :
      DiarizationPipeline R A S
      → Result (S × SpeakerSegment R)
      → Option (Result (SpeakerSegment R) × DiarizationPipeline R A S)
  into_store p (raised e) = some (raised e, p)
  into_store p (ok (store, segment)) = some (ok segment, record p { store = store })

  -- `await self.assigner.assign(result)`
  unfoldable pub assigned :
      EmbeddingResult R V → Flow (DiarizationPipeline R A S) (SpeakerSegment R)
  assigned result p =
      into_store p (assign parts.vectors parts.speakers parts.assignment p.store result)

  unfoldable pub assign_all :
      List (EmbeddingResult R V) → Flow (DiarizationPipeline R A S) (List (SpeakerSegment R))
  assign_all [] = return []
  assign_all (result ∷ results) =
      assigned result >>= λ segment. assign_all results >>= λ rest. return (segment ∷ rest)

  -- The observer of the batcher, `metrics.observe_batch`, on the batches; what it raises is dropped.
  unfoldable pub reported : List (BatchObservation R) → MetricRegistry R → MetricRegistry R
  reported [] m = m
  reported (o ∷ rest) m = reported rest (observe_batch parts.numeric o m).1

  abbrev pub reported_to :
      List (BatchObservation R) → Option (MetricRegistry R) → Option (MetricRegistry R)
  reported_to batches none = none
  reported_to batches (some m) = some (reported batches m)

  -- `asyncio.gather` over the submissions, with the batches that are executed until it ends.
  unfoldable pub gathered :
      List (FeatureChunk R V) → Flow (DiarizationPipeline R A S) (List (EmbeddingResult R V))
  gathered features p = some (
    parts.embed p.submissions features,
    record p {
      metrics = reported_to (parts.observed p.submissions) p.metrics;
      submissions = suc p.submissions;
    },
  )

  -- `_process_features`
  unfoldable pub process_features :
      List (FeatureChunk R V) → Flow (DiarizationPipeline R A S) (List (SpeakerSegment R))
  process_features [] = return []
  process_features (f ∷ features) =
      gathered (f ∷ features) >>= λ results. assign_all (sorted starts_before results)

  -- `self.timeline.add(segments)`
  unfoldable pub to_timeline : List (SpeakerSegment R) → Flow (DiarizationPipeline R A S) (Unit {0})
  to_timeline segments p =
      some (ok tt, record p { timeline = add parts.retention_ms p.timeline segments })

  -- The features of a chunk, and of the rest of the stream when it is the last one.
  unfoldable pub features_of :
      AudioChunk → Flow (DiarizationPipeline R A S) (List (FeatureChunk R V))
  features_of chunk = push_chunk chunk >>= λ features.
      if chunk.is_final
      then (flush_stream chunk.tenant_id chunk.session_id >>= λ last. return (features ++ last))
      else return features

  -- `ingest_audio` behind the gateway, for a chunk that is accepted.
  unfoldable pub ingest_accepted :
      AudioChunk → GatewayDecision → Flow (DiarizationPipeline R A S) (IngestResult R)
  ingest_accepted chunk decision =
      increased (codes "audio_chunks_accepted") (decimal 1 0)
      >> increased (codes "audio_seconds_received") (seconds (duration_ms chunk))
      >> (if is_some decision.missing_range
          then increased (codes "sequence_gaps") (decimal 1 0)
          else return tt)
      >> (features_of chunk >>= λ features. process_features features >>= λ segments.
          to_timeline segments
          >> increased (codes "speaker_segments") (of_int (pos (length segments)))
          >> return (record { gateway = decision; speaker_segments = segments }))

  abbrev pub ingest_refused : GatewayDecision → Flow (DiarizationPipeline R A S) (IngestResult R)
  ingest_refused decision =
      increased (codes "gateway_" ++ codes (status_value decision.status)) (decimal 1 0)
      >> return (record { gateway = decision; speaker_segments = [] })

  -- `ingest_audio`
  unfoldable pub ingest_audio : AudioChunk → Flow (DiarizationPipeline R A S) (IngestResult R)
  ingest_audio chunk p =
      let (gateway, decision) = accept p.gateway chunk in
      (if is_accepted decision then ingest_accepted chunk decision else ingest_refused decision)
        (record p { gateway = gateway })

  -- `flush_session`
  unfoldable pub flush_session :
      String → String → Flow (DiarizationPipeline R A S) (List (SpeakerSegment R))
  flush_session tenant_id session_id = flush_stream tenant_id session_id >>= λ features.
      process_features features >>= λ segments. to_timeline segments >> return segments

  -- The time that the alignment takes, in milliseconds, is `elapsed`.
  unfoldable pub align_stt :
      SttSegment → R → Flow (DiarizationPipeline R A S) (List AttributedTranscriptSpan)
  align_stt event elapsed =
      (λ p. some (
        align parts.is_space event
            (query p.timeline event.tenant_id event.session_id event.start_ms event.end_ms),
        p,
      ))
      >>= λ spans.
          increased (codes "stt_segments_aligned") (decimal 1 0)
          >> (λ p.
              metered p (observe parts.numeric (codes "alignment_compute_ms") elapsed) p.metrics)
          >> return spans

  -- `rename_speaker`
  unfoldable pub rename_speaker :
      String → String → List ℕ → String → Flow (DiarizationPipeline R A S) Bool
  rename_speaker tenant_id session_id speaker_id display_name p =
      let (store, found) =
        rename parts.speakers p.store (tenant_id, session_id) speaker_id display_name in
      some (ok found, record p { store = store })
