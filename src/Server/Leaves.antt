-- ===== src/Server/Leaves.antt =====
-- What a message may change in the runtime, and the calls that change nothing else.
use cuebee_speaker_serving.Base.{◌≡◌, refl, sym, subst, Option, none, some, false}
use cuebee_speaker_serving.Base.Dict.{get}
use cuebee_speaker_serving.Base.Eq.{string_eq}
use cuebee_speaker_serving.Domain.{Result, ok, raised}
use cuebee_speaker_serving.Pipeline.{DiarizationPipeline}
use cuebee_speaker_serving.Pipeline.Effects.{Flow, return, continued, ◌>>=◌}
use cuebee_speaker_serving.Pipeline.Keeps.{Ends, Keeps}
use cuebee_speaker_serving.Server.{ServiceRuntime, is_type, counted_in, put_back, in_pipeline}
use cuebee_speaker_serving.Server.Messages.{Fields}
use cuebee_speaker_serving.Server.Reads.{Gives, endless, raises, returns, Reads}

-- What holds of the state behind a call, if it ends.
abbrev pub After : {P B : Type 0} → (P → Type 0) → Option (Result B × P) → Type 0
After K none = Unit
After K (some (r, p)) = K p

module _ {P B C : Type 0} (K : P → Type 0) where
  -- A reader, and what follows it on the same state.
  pub Reads-After :
      {Q : B → Type 0} {m : Flow P B} (next : B → Flow P C) (p : P)
      → Reads Q m
      → K p
      → ((b : B) → After K (next b p))
      → After K ((m >>= next) p)
  Reads-After {Q} next p r k h = go (r.at p)
    where
      go :
          {o : Option (Result B × P)}
          → Gives (λ q. q ≡ p) (λ b q. (q ≡ p) × Q b) o
          → After K (continued o next)
      go endless = tt
      go (raises e) = subst K (sym e) k
      go (returns {b} e) = subst (λ q. After K (next b q)) (sym e.0) (h b)

  pub continued-After :
      (o : Option (Result B × P)) (f : B → C)
      → After K o
      → After K (continued o (λ b. return (f b)))
  continued-After none f h = tt
  continued-After (some (raised e, p)) f h = h
  continued-After (some (ok b, p)) f h = h

module _ {R A S : Type 0} where
  -- Between the two runtimes, only the parts have changed that a message of this type may change: the
  -- autoscaler by "autoscale", the cursors by "audio", the streams and the timeline by "audio" and
  -- "flush", the speakers by these and "rename", and the metrics by "audio", "stt" and "flush".
  pub record Leaves (fields : Fields R) (rt rt' : ServiceRuntime R A S) : Type 0 where
    pub backend_name : rt'.backend_name ≡ rt.backend_name
    pub autoscaler :
        is_type (get "type" fields) "autoscale" ≡ false → rt'.autoscaler ≡ rt.autoscaler
    pub gateway :
        is_type (get "type" fields) "audio" ≡ false → rt'.pipeline.gateway ≡ rt.pipeline.gateway
    pub frontend :
        is_type (get "type" fields) "audio" ≡ false
        → is_type (get "type" fields) "flush" ≡ false
        → rt'.pipeline.frontend ≡ rt.pipeline.frontend
    pub timeline :
        is_type (get "type" fields) "audio" ≡ false
        → is_type (get "type" fields) "flush" ≡ false
        → rt'.pipeline.timeline ≡ rt.pipeline.timeline
    pub store :
        is_type (get "type" fields) "audio" ≡ false
        → is_type (get "type" fields) "flush" ≡ false
        → is_type (get "type" fields) "rename" ≡ false
        → rt'.pipeline.store ≡ rt.pipeline.store
    pub metrics :
        is_type (get "type" fields) "audio" ≡ false
        → is_type (get "type" fields) "stt" ≡ false
        → is_type (get "type" fields) "flush" ≡ false
        → rt'.metrics ≡ rt.metrics

  pub unchanged : (fields : Fields R) (rt : ServiceRuntime R A S) → Leaves fields rt rt
  unchanged fields rt = record {
    backend_name = refl;
    autoscaler = λ h. refl;
    gateway = λ h. refl;
    frontend = λ h k. refl;
    timeline = λ h k. refl;
    store = λ h k j. refl;
    metrics = λ h k j. refl;
  }

module _ {R A S : Type 0} where
  -- The runtime behind a call of the pipeline that ended with `p`.
  abbrev pub behind : ServiceRuntime R A S → DiarizationPipeline R A S → ServiceRuntime R A S
  behind rt p = record rt { pipeline = p; metrics = counted_in rt.metrics p.metrics }

  pub in_pipeline-After :
      {B X : Type 0} (view : DiarizationPipeline R A S → X) (K : ServiceRuntime R A S → Type 0)
      (call : Flow (DiarizationPipeline R A S) B) (rt : ServiceRuntime R A S)
      → Keeps view call
      → ((p : DiarizationPipeline R A S)
          → view p ≡ view (record rt.pipeline { metrics = some rt.metrics })
          → K (behind rt p))
      → After K (in_pipeline call rt)
  unfolding in_pipeline
  in_pipeline-After {B} view K call rt keeps h = go (call started) (keeps started)
    where
      started : DiarizationPipeline R A S
      started = record rt.pipeline { metrics = some rt.metrics }

      go :
          (o : Option (Result B × DiarizationPipeline R A S))
          → Ends view (view started) o
          → After K (put_back rt o)
      go none e = tt
      go (some (r, p)) e = h p e

  pub any-Keeps :
      {B : Type 0} (call : Flow (DiarizationPipeline R A S) B) → Keeps (λ p. tt {0}) call
  any-Keeps {B} call p = go (call p)
    where
      go : (o : Option (Result B × DiarizationPipeline R A S)) → Ends (λ p. tt {0}) (tt {0}) o
      go none = tt
      go (some (r, q)) = refl
