-- ===== src/Pipeline/Isolation.antt =====
-- A chunk of one session leaves the other sessions alone.
use cuebee_speaker_serving.Base.{
  ℕ, ◌≡◌, ◌≢◌, refl, sym, subst, ap, ◌∙◌, String, List, [], ◌∷◌, ◌++◌, Option, none, some, arith,
  length, Bool-cases, inl, inr,
}
use cuebee_speaker_serving.Base.Dict.{get, get-set_ne, get-pop_ne}
use cuebee_speaker_serving.Base.Eq.{string_eq, pair_eq}
use cuebee_speaker_serving.Base.Float.{Float}
use cuebee_speaker_serving.Base.Int.{pos}
use cuebee_speaker_serving.Base.Keep.{All, keep}
use cuebee_speaker_serving.Base.Text.{codes}
use cuebee_speaker_serving.Alignment.{add}
use cuebee_speaker_serving.Alignment.Timeline.{get-add, updated, of_key}
use cuebee_speaker_serving.Alignment.{key_of}
use cuebee_speaker_serving.Domain.{
  AudioChunk, FeatureChunk, SpeakerSegment, GatewayDecision, session_key, is_accepted, Result, ok,
  raised, ◌>>=◌ as ◌>>=ᵣ◌,
}
use cuebee_speaker_serving.Frontend.{
  Stream, Streams, pushed, kept_in, push, flush, received, joined, current,
}
use cuebee_speaker_serving.Gateway.{Cursor, accept}
use cuebee_speaker_serving.Gateway.Admission.{get-accept, key_eq}
use cuebee_speaker_serving.Metrics.{MetricRegistry, increment}
use cuebee_speaker_serving.Pipeline.Effects.{Flow, return, continued, ◌>>=◌, ◌>>◌}
use cuebee_speaker_serving.Pipeline.Keeps.{
  Ends, Keeps, then-Keeps, return-Keeps, if-Keeps, Ignores, process_features-Keeps,
}
use cuebee_speaker_serving.Pipeline.Sessions.{
  Yields, IsSegmentOf, KeepsChunks, Mine, features_of-Yields, process_features-Yields,
}
use cuebee_speaker_serving.Pipeline.{
  Parts, DiarizationPipeline, IngestResult, metered, increased, into_frontend, push_chunk,
  flush_stream, process_features, to_timeline, features_of, ingest_accepted, ingest_refused,
  ingest_audio, is_some,
}

-- A call that leaves a part, and what follows it on the values that it may return.
valued-Ends :
    {P X B C : Type 0} (view : P → X) (Q : B → Type 0) (x : X) (o : Option (Result B × P))
    (next : B → Flow P C)
    → Ends view x o
    → Yields Q o
    → ((b : B) → Q b → Keeps view (next b))
    → Ends view x (continued o next)
valued-Ends view Q x none next h q k = tt
valued-Ends view Q x (some (raised e, p)) next h q k = h
valued-Ends view Q x (some (ok b, p)) next h q k = subst (λ y. Ends view y (next b p)) h (k b q p)

-- Segments of one session are none of another.
none_of :
    {R : Type 0} (t k : String) (j : String × String) (segments : List (SpeakerSegment R))
    → ◌≢◌ {A = String × String} (t, k) j
    → All (IsSegmentOf t k) segments
    → keep (of_key j) segments ≡ []
none_of t k j [] h own = refl
none_of t k j (s ∷ segments) h own = elim (Bool-cases (of_key j s)) [
  | inl e ↦
      let same : ◌≡◌ {A = String × String} (t, k) (s.tenant_id, s.session_id) =
        λ i. (sym own.0.0 i, sym own.0.1 i) in
      absurd (h (same ∙ ((pair_eq {A = String} {B = String}).same_iff (key_of s) j).0 e))
  | inr e ↦ rw e (none_of t k j segments h own.1)
]

module _ {R A V S : Type 0} ⦃float : Float R⦄ (parts : Parts R A V S) (j : String × String) where
  -- What a session has in the gateway, the frontend and the timeline.
  abbrev pub elsewhere :
      DiarizationPipeline R A S
      → (Option Cursor × Option (Stream A)) × Option (List (SpeakerSegment R))
  elsewhere p = ((get j p.gateway, get j p.frontend), get j p.timeline)

  elsewhere-Ignores : Ignores elsewhere
  elsewhere-Ignores = record { store = λ p s. refl; embedding = λ p m n. refl }

  increased-Keeps : (name : List ℕ) (value : R) → Keeps elsewhere (increased parts name value)
  unfolding increased
  increased-Keeps name value p = go p.metrics
    where
      go :
          (o : Option (MetricRegistry R))
          → Ends elsewhere (elsewhere p) (metered parts p (increment parts.numeric name value) o)
      go none = refl
      go (some m) = refl

  -- A new part in the place of one.
  with_frontend :
      (p : DiarizationPipeline R A S) (streams : Streams A)
      → get j streams ≡ get j p.frontend
      → elsewhere (record p { frontend = streams }) ≡ elsewhere p
  with_frontend p streams h = λ i. ((get j p.gateway, h i), get j p.timeline)

  module _ (t k : String) (other : ◌≢◌ {A = String × String} (t, k) j) where
    flush_stream-Keeps : Keeps elsewhere (flush_stream parts t k)
    unfolding flush_stream flush
    flush_stream-Keeps p = with_frontend p _ (get-pop_ne (t, k) j p.frontend other)

    to_timeline-Keeps :
        (segments : List (SpeakerSegment R))
        → All (IsSegmentOf t k) segments
        → Keeps elsewhere (to_timeline parts segments)
    unfolding to_timeline
    to_timeline-Keeps segments own p = λ i. ((get j p.gateway, get j p.frontend), kept i)
      where
        kept : get j (add parts.retention_ms p.timeline segments) ≡ get j p.timeline
        kept =
            get-add parts.retention_ms p.timeline segments j
            ∙ ap (updated parts.retention_ms (get j p.timeline)) (none_of t k j segments other own)

module _ {R A V S : Type 0} ⦃float : Float R⦄ (parts : Parts R A V S) (j : String × String)
    (chunk : AudioChunk) (other : session_key chunk ≢ j) where
  -- The streams that a push returns.
  abbrev Pushed : Streams A → Option (Streams A × List (FeatureChunk R V)) → Type 0
  Pushed streams none = Unit
  Pushed streams (some (streams', features)) = get j streams' ≡ get j streams

  kept_in-Pushed :
      (streams : Streams A) (o : Option (Stream A × List (FeatureChunk R V)))
      → Pushed streams (kept_in parts.signal parts.audio streams chunk o)
  kept_in-Pushed streams none = tt
  kept_in-Pushed streams (some (s, features)) = get-set_ne (session_key chunk) j s streams other

  pushed-Pushed :
      (streams : Streams A) (o : Option (Stream A))
      → Pushed streams (pushed parts.signal parts.audio streams chunk o)
  pushed-Pushed streams none = refl
  pushed-Pushed streams (some s) = kept_in-Pushed streams _

  push_chunk-Keeps : Keeps (elsewhere parts j) (push_chunk parts chunk)
  unfolding push_chunk push
  push_chunk-Keeps p = go (received parts.signal parts.audio chunk)
    where
      into :
          (o : Option (Streams A × List (FeatureChunk R V)))
          → Pushed p.frontend o
          → Ends (elsewhere parts j) (elsewhere parts j p) (into_frontend parts p (ok o))
      into none h = tt
      into (some (streams, features)) h = with_frontend parts j p streams h

      go :
          (r : Result (List A))
          → Ends (elsewhere parts j) (elsewhere parts j p) (
              into_frontend parts p (
                r >>=ᵣ λ audio. ok (
                  pushed parts.signal parts.audio p.frontend chunk (
                    joined parts.signal parts.audio chunk audio (
                      current parts.signal parts.audio chunk
                        (get (session_key chunk) p.frontend))))))
      go (raised e) = refl
      go (ok audio) = into _ (pushed-Pushed p.frontend _)

  features_of-Keeps : Keeps (elsewhere parts j) (features_of parts chunk)
  unfolding features_of
  features_of-Keeps = then-Keeps (elsewhere parts j) _ _ push_chunk-Keeps (λ features.
      if-Keeps (elsewhere parts j) chunk.is_final _ _
        (then-Keeps (elsewhere parts j) _ _
          (flush_stream-Keeps parts j chunk.tenant_id chunk.session_id other)
          (λ last. return-Keeps (elsewhere parts j) (features ++ last)))
        (return-Keeps (elsewhere parts j) features))

  ingest_refused-Keeps :
      (decision : GatewayDecision) → Keeps (elsewhere parts j) (ingest_refused parts decision)
  ingest_refused-Keeps decision =
      then-Keeps (elsewhere parts j) _ _ (increased-Keeps parts j _ _) (λ u.
        return-Keeps (elsewhere parts j) {B = IngestResult R}
          (record { gateway = decision; speaker_segments = [] }))

  module _ (keeps : KeepsChunks parts) (decision : GatewayDecision) where
    answered : List (SpeakerSegment R) → Flow (DiarizationPipeline R A S) (IngestResult R)
    answered segments =
        to_timeline parts segments
        >> increased parts (codes "speaker_segments") (float.of_int (pos (length segments)))
        >> return (record { gateway = decision; speaker_segments = segments })

    answered-Keeps :
        (segments : List (SpeakerSegment R))
        → All (IsSegmentOf chunk.tenant_id chunk.session_id) segments
        → Keeps (elsewhere parts j) (answered segments)
    unfolding answered
    answered-Keeps segments own =
        then-Keeps (elsewhere parts j) _ _
          (then-Keeps (elsewhere parts j) _ _
            (to_timeline-Keeps parts j chunk.tenant_id chunk.session_id other segments own)
            (λ v. increased-Keeps parts j _ _))
          (λ v.
            return-Keeps (elsewhere parts j) {B = IngestResult R}
              (record { gateway = decision; speaker_segments = segments }))

    worked-Keeps :
        (features : List (FeatureChunk R V))
        → Mine parts chunk features
        → Keeps (elsewhere parts j) (process_features parts features >>= answered)
    worked-Keeps features mine p =
        valued-Ends (elsewhere parts j) (All (IsSegmentOf chunk.tenant_id chunk.session_id))
          (elsewhere parts j p) (process_features parts features p) answered
          (process_features-Keeps parts (elsewhere parts j) (elsewhere-Ignores parts j) features p)
          (process_features-Yields parts chunk.tenant_id chunk.session_id features p keeps mine)
          answered-Keeps

    ingest_accepted-Keeps : Keeps (elsewhere parts j) (ingest_accepted parts chunk decision)
    unfolding ingest_accepted answered
    ingest_accepted-Keeps =
        then-Keeps (elsewhere parts j) _ _
          (then-Keeps (elsewhere parts j) _ _
            (then-Keeps (elsewhere parts j) _ _ (increased-Keeps parts j _ _)
              (λ u. increased-Keeps parts j _ _))
            (λ u.
              if-Keeps (elsewhere parts j) (is_some decision.missing_range) _ _
                (increased-Keeps parts j _ _) (return-Keeps (elsewhere parts j) tt)))
          (λ u p.
            valued-Ends (elsewhere parts j) (Mine parts chunk) (elsewhere parts j p)
              (features_of parts chunk p) (λ features. process_features parts features >>= answered)
              (features_of-Keeps p) (features_of-Yields parts chunk p) worked-Keeps)

  -- Where the batcher returns one result for the chunk of each of the features, in their order:
  -- whether `ingest_audio` returns or raises, every other session keeps its cursor, its stream of
  -- audio and its timeline.
  pub elsewhere-ingest_audio :
      (p p' : DiarizationPipeline R A S) (r : Result (IngestResult R))
      → KeepsChunks parts
      → ingest_audio parts chunk p ≡ some (r, p')
      → elsewhere parts j p' ≡ elsewhere parts j p
  unfolding ingest_audio
  elsewhere-ingest_audio p p' r keeps h =
      subst (Ends (elsewhere parts j) (elsewhere parts j judged)) h (
        if-Keeps (elsewhere parts j) (is_accepted decision) _ _
          (ingest_accepted-Keeps keeps decision) (ingest_refused-Keeps decision) judged)
      ∙ (λ i. ((same_cursor i, get j p.frontend), get j p.timeline))
    where
      decision : GatewayDecision
      decision = (accept p.gateway chunk).1

      judged : DiarizationPipeline R A S
      judged = record p { gateway = (accept p.gateway chunk).0 }

      same_cursor : get j (accept p.gateway chunk).0 ≡ get j p.gateway
      same_cursor =
          ground (arith, get-accept p.gateway chunk j, key_eq.same_iff (session_key chunk) j, other)
