-- ===== src/Pipeline/Keeps.antt =====
-- Calls of the pipeline that leave a part of it as it was, whether they return or raise.
use cuebee_speaker_serving.Base.{
  ◌≡◌, refl, subst, Bool, true, false, String, List, [], ◌∷◌, Option, none, some, if◌then◌else◌, ℕ,
}
use cuebee_speaker_serving.Base.Float.{Float}
use cuebee_speaker_serving.Domain.{
  EmbeddingResult, FeatureChunk, SpeakerSegment, Result, ok, raised,
}
use cuebee_speaker_serving.Frontend.{Streams}
use cuebee_speaker_serving.Metrics.{MetricRegistry}
use cuebee_speaker_serving.Alignment.{Segments}
use cuebee_speaker_serving.Assignment.{assign}
use cuebee_speaker_serving.Pipeline.Effects.{Flow, return, continued, ◌>>=◌}
use cuebee_speaker_serving.Pipeline.{
  Parts, DiarizationPipeline, flush_stream, into_store, assigned, assign_all, gathered,
  process_features, to_timeline, flush_session,
}

module _ {P X : Type 0} (view : P → X) where
  -- The call ends with this part, if it ends.
  abbrev pub Ends : {B : Type 0} → X → Option (Result B × P) → Type 0
  Ends x none = Unit
  Ends x (some (r, p)) = view p ≡ x

  -- The call leaves the part as it is.
  abbrev pub Keeps : {B : Type 0} → Flow P B → Type 0
  Keeps f = (p : P) → Ends (view p) (f p)

  continued-Ends :
      {B C : Type 0} (x : X) (out : Option (Result B × P)) (next : B → Flow P C)
      → Ends x out
      → ((b : B) → Keeps (next b))
      → Ends x (continued out next)
  continued-Ends x none next h k = tt
  continued-Ends x (some (raised e, p)) next h k = h
  continued-Ends x (some (ok b, p)) next h k = subst (λ y. Ends y (next b p)) h (k b p)

  pub then-Keeps :
      {B C : Type 0} (first : Flow P B) (next : B → Flow P C)
      → Keeps first
      → ((b : B) → Keeps (next b))
      → Keeps (first >>= next)
  then-Keeps first next h k p = continued-Ends (view p) (first p) next (h p) k

  pub return-Keeps : {B : Type 0} (b : B) (p : P) → Ends (view p) (return b p)
  return-Keeps b p = refl

  pub if-Keeps :
      {B : Type 0} (c : Bool) (f g : Flow P B) → Keeps f → Keeps g → Keeps (if c then f else g)
  if-Keeps true f g h k = h
  if-Keeps false f g h k = k

-- The view does not look at what the embedding and the assignment of features change.
pub record Ignores {R A S X : Type 0} (view : DiarizationPipeline R A S → X) : Type 0 where
  pub store : (p : DiarizationPipeline R A S) (s : S) → view (record p { store = s }) ≡ view p
  pub embedding :
      (p : DiarizationPipeline R A S) (m : Option (MetricRegistry R)) (n : ℕ)
      → view (record p { metrics = m; submissions = n }) ≡ view p

-- Nor at the streams and the timeline.
pub record IgnoresFlush {R A S X : Type 0} (view : DiarizationPipeline R A S → X) : Type 0 where
  pub work : Ignores view
  pub frontend :
      (p : DiarizationPipeline R A S) (s : Streams A) → view (record p { frontend = s }) ≡ view p
  pub timeline :
      (p : DiarizationPipeline R A S) (s : Segments R) → view (record p { timeline = s }) ≡ view p

module _ {R A V S X : Type 0} ⦃float : Float R⦄ (parts : Parts R A V S)
    (view : DiarizationPipeline R A S → X) (ignores : Ignores view) where
  assigned-Keeps : (result : EmbeddingResult R V) → Keeps view (assigned parts result)
  unfolding assigned
  assigned-Keeps result p = go (assign parts.vectors parts.speakers parts.assignment p.store result)
    where
      go : (r : Result (S × SpeakerSegment R)) → Ends view (view p) (into_store parts p r)
      go (raised e) = refl
      go (ok (store, segment)) = ignores.store p store

  assign_all-Keeps : (results : List (EmbeddingResult R V)) → Keeps view (assign_all parts results)
  unfolding assign_all
  assign_all-Keeps [] = return-Keeps view {B = List (SpeakerSegment R)} []
  assign_all-Keeps (result ∷ results) = then-Keeps view _ _ (assigned-Keeps result) (λ segment.
      then-Keeps view _ _ (assign_all-Keeps results) (λ rest. return-Keeps view (segment ∷ rest)))

  gathered-Keeps : (features : List (FeatureChunk R V)) → Keeps view (gathered parts features)
  unfolding gathered
  gathered-Keeps features p = ignores.embedding p _ _

  pub process_features-Keeps :
      (features : List (FeatureChunk R V)) → Keeps view (process_features parts features)
  unfolding process_features
  process_features-Keeps [] = return-Keeps view {B = List (SpeakerSegment R)} []
  process_features-Keeps (f ∷ features) =
      then-Keeps view _ _ (gathered-Keeps (f ∷ features)) (λ results. assign_all-Keeps _)

module _ {R A V S X : Type 0} ⦃float : Float R⦄ (parts : Parts R A V S)
    (view : DiarizationPipeline R A S → X) (ignores : IgnoresFlush view) where
  pub to_timeline-Keeps :
      (segments : List (SpeakerSegment R)) → Keeps view (to_timeline parts segments)
  unfolding to_timeline
  to_timeline-Keeps segments p = ignores.timeline p _

  pub flush_stream-Keeps : (t k : String) → Keeps view (flush_stream parts t k)
  unfolding flush_stream
  flush_stream-Keeps t k p = ignores.frontend p _

  -- A flush leaves what the view shows as it is.
  pub flush_session-Keeps : (t k : String) → Keeps view (flush_session parts t k)
  unfolding flush_session
  flush_session-Keeps t k = then-Keeps view _ _ (flush_stream-Keeps t k) (λ features.
      then-Keeps view _ _ (process_features-Keeps parts view ignores.work features) (λ segments.
        then-Keeps view _ _ (to_timeline-Keeps segments) (λ u. return-Keeps view segments)))
