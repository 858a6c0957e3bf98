-- ===== src/Server.antt =====
-- src/cuebee_speaker/server.py: the dispatch of a message to the runtime of factory.py.
pub mod Json
pub mod Messages
pub mod Reads
pub mod Connection
pub mod Leaves
pub mod Branches
pub mod Frame
pub mod Tenants
pub mod Replies
use cuebee_speaker_serving.Base.{
  ℕ, Bool, true, false, not, String, List, [], ◌∷◌, Option, none, some, map, arith, ltb, length,
  if◌then◌else◌, ◌==◌,
}
use cuebee_speaker_serving.Base.Dict.{get}
use cuebee_speaker_serving.Base.Eq.{string_eq}
use cuebee_speaker_serving.Base.Float.{Float}
use cuebee_speaker_serving.Base.Int.{ℤ, pos, ltb_ℤ}
use cuebee_speaker_serving.Base.Text.{codes}
use cuebee_speaker_serving.Domain.{
  Error, value_error, type_error, attribute_error, key_error, Result, ok, raised,
  AttributedTranscriptSpan, SpeakerProfile, SpeakerSegment,
}
use cuebee_speaker_serving.Assignment.{profiles}
use cuebee_speaker_serving.Autoscaler.{Autoscaler, ScalingDecision, recommend}
use cuebee_speaker_serving.Metrics.{MetricRegistry, Snapshot, snapshot, increment}
use cuebee_speaker_serving.Pipeline.{
  Parts, DiarizationPipeline, IngestResult, ingest_audio, flush_session, align_stt, rename_speaker,
}
use cuebee_speaker_serving.Pipeline.Effects.{Flow, return, attempt, ◌>>=◌}
use Json.{Value, object, text, members}
use Messages.{Conversions, Fields, item, text_item, read_audio, read_stt, read_sample}

-- `ServiceRuntime`, as `build_runtime` makes it: the pipeline counts in the same registry, which
-- stands here once.
pub record ServiceRuntime (R A S : Type 0) : Type 0 where
  pub pipeline : DiarizationPipeline R A S
  pub metrics : MetricRegistry R
  pub autoscaler : Autoscaler R
  pub backend_name : String

-- An entry of the profiles of a reply.
pub record ProfileView (R : Type 0) : Type 0 where
  pub speaker_id : List ℕ
  pub display_name : Option String
  pub sample_count : ℕ
  pub quality_ema : R
  pub last_active_ms : ℤ
  pub embedding_dimension : ℕ

-- The responses, by the dicts that the server writes: their entries are the fields of these values.
pub data Response (R : Type 0) : Type 0 where
  healthy : String → Response R
  measured : Snapshot R → Response R
  ingested : IngestResult R → Response R
  attributed : List AttributedTranscriptSpan → Response R
  listed : List (ProfileView R) → Response R
  renamed : Bool → Response R
  flushed : List (SpeakerSegment R) → Response R
  decided : ScalingDecision → Response R
  refused : Error → Response R
  message_too_large : Response R

-- What the environment does: conversions, the clock, and the number of entries of a centroid.
pub record Surroundings (R A V S : Type 0) : Type 0 where
  pub parts : Parts R A V S
  pub python : Conversions R
  pub centroid_size : V → ℕ
  -- `time.monotonic()` for the autoscaler, and the time that an alignment takes.
  pub monotonic : R
  pub elapsed : R

-- The registry behind a call of the pipeline.
abbrev pub counted_in :
    {R : Type 0} → MetricRegistry R → Option (MetricRegistry R) → MetricRegistry R
counted_in before none = before
counted_in before (some m) = m

module _ {R A S : Type 0} where
  abbrev pub put_back :
      {B : Type 0}
      → ServiceRuntime R A S
      → Option (Result B × DiarizationPipeline R A S)
      → Option (Result B × ServiceRuntime R A S)
  put_back rt none = none
  put_back rt (some (r, p)) =
      some (r, record rt { pipeline = p; metrics = counted_in rt.metrics p.metrics })

  -- A call of the pipeline, on the shared registry.
  unfoldable pub in_pipeline :
      {B : Type 0} → Flow (DiarizationPipeline R A S) B → Flow (ServiceRuntime R A S) B
  in_pipeline call rt = put_back rt (call (record rt.pipeline { metrics = some rt.metrics }))

  abbrev pub into_autoscaler :
      ServiceRuntime R A S
      → Result (Autoscaler R × ScalingDecision)
      → Option (Result ScalingDecision × ServiceRuntime R A S)
  into_autoscaler rt (raised e) = some (raised e, rt)
  into_autoscaler rt (ok (a, decision)) = some (ok decision, record rt { autoscaler = a })

module _ {R : Type 0} where
  abbrev pub is_type : Option (Value R) → String → Bool
  is_type (some (text s)) name = string_eq.same s name
  is_type v name = false

module _ {R A V S : Type 0} ⦃float : Float R⦄ (env : Surroundings R A V S) where
  abbrev pub view : SpeakerProfile R V → ProfileView R
  view p = record {
    speaker_id = p.speaker_id;
    display_name = p.display_name;
    sample_count = p.sample_count;
    quality_ema = p.quality_ema;
    last_active_ms = p.last_active_ms;
    embedding_dimension = env.centroid_size p.centroid;
  }

  -- The branches of `dispatch`.
  unfoldable pub on_audio : Fields R → Flow (ServiceRuntime R A S) (Response R)
  on_audio fields = do
    chunk ← read_audio env.python fields
    result ← in_pipeline (ingest_audio env.parts chunk)
    return (ingested result)

  unfoldable pub on_stt : Fields R → Flow (ServiceRuntime R A S) (Response R)
  on_stt fields = do
    event ← read_stt env.python fields
    spans ← in_pipeline (align_stt env.parts event env.elapsed)
    return (attributed spans)

  unfoldable pub on_profiles : Fields R → Flow (ServiceRuntime R A S) (Response R)
  on_profiles fields = do
    tenant_id ← text_item fields "tenant_id"
    session_id ← text_item fields "session_id"
    (λ rt. some (
      ok (
          listed
            (map view (profiles env.parts.speakers rt.pipeline.store (tenant_id, session_id)))),
      rt,
    ))

  unfoldable pub on_rename : Fields R → Flow (ServiceRuntime R A S) (Response R)
  on_rename fields = do
    tenant_id ← text_item fields "tenant_id"
    session_id ← text_item fields "session_id"
    speaker_id ← text_item fields "speaker_id"
    display_name ← text_item fields "display_name"
    found ←
        in_pipeline (rename_speaker env.parts tenant_id session_id (codes speaker_id) display_name)
    return (renamed found)

  unfoldable pub on_flush : Fields R → Flow (ServiceRuntime R A S) (Response R)
  on_flush fields = do
    tenant_id ← text_item fields "tenant_id"
    session_id ← text_item fields "session_id"
    segments ← in_pipeline (flush_session env.parts tenant_id session_id)
    return (flushed segments)

  unfoldable pub on_autoscale : Fields R → Flow (ServiceRuntime R A S) (Response R)
  on_autoscale fields = do
    sample ← read_sample env.python fields
    decision ← (λ rt. into_autoscaler rt (recommend rt.autoscaler env.monotonic sample))
    return (decided decision)

  -- `dispatch` of a dict: the type of the event selects the branch.
  unfoldable pub dispatch_object : Fields R → Flow (ServiceRuntime R A S) (Response R)
  dispatch_object fields rt =
      let event_type = get "type" fields in
      if is_type event_type "health"
      then some (ok (healthy rt.backend_name), rt)
      else if is_type event_type "metrics"
      then some (ok (measured (snapshot env.parts.numeric rt.metrics)), rt)
      else if is_type event_type "audio"
      then on_audio fields rt
      else if is_type event_type "stt"
      then on_stt fields rt
      else if is_type event_type "profiles"
      then on_profiles fields rt
      else if is_type event_type "rename"
      then on_rename fields rt
      else if is_type event_type "flush"
      then on_flush fields rt
      else if is_type event_type "autoscale"
      then on_autoscale fields rt
      else some (raised (value_error "unsupported message type"), rt)

  -- `dispatch`: only a dict has the method `get`.
  unfoldable pub dispatch : Value R → Flow (ServiceRuntime R A S) (Response R)
  dispatch (object ms) = dispatch_object (members ms)
  dispatch v = attempt (raised (attribute_error "object has no attribute 'get'"))
