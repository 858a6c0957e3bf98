-- ===== src/Server/Branches.antt =====
-- What each branch of `dispatch` leaves.
use cuebee_speaker_serving.Base.{◌≡◌, refl, ap, String, List, ℕ, Option, none, some, arith, true}
use cuebee_speaker_serving.Base.Dict.{get}
use cuebee_speaker_serving.Base.Eq.{string_eq}
use cuebee_speaker_serving.Base.Float.{Float}
use cuebee_speaker_serving.Base.Text.{codes}
use cuebee_speaker_serving.Domain.{Result, ok, raised, SttSegment, AttributedTranscriptSpan}
use cuebee_speaker_serving.Alignment.{Segments, align, query}
use cuebee_speaker_serving.Autoscaler.{Autoscaler, ScalingDecision, recommend}
use cuebee_speaker_serving.Frontend.{Streams}
use cuebee_speaker_serving.Gateway.{EventGateway}
use cuebee_speaker_serving.Metrics.{MetricRegistry, increment, observe}
use cuebee_speaker_serving.Pipeline.{
  DiarizationPipeline, metered, increased, ingest_audio, flush_session, align_stt, rename_speaker,
}
use cuebee_speaker_serving.Pipeline.Effects.{Flow, return, ◌>>◌}
use cuebee_speaker_serving.Pipeline.Keeps.{
  Ends, Keeps, IgnoresFlush, then-Keeps, return-Keeps, flush_session-Keeps,
}
use cuebee_speaker_serving.Server.{
  ServiceRuntime, Surroundings, is_type, counted_in, into_autoscaler, on_audio, on_stt, on_profiles,
  on_rename, on_flush, on_autoscale,
}
use cuebee_speaker_serving.Server.Messages.{Fields}
use cuebee_speaker_serving.Server.Reads.{
  text_item-Reads, read_audio-Reads, read_stt-Reads, read_sample-Reads,
}
use cuebee_speaker_serving.Server.Leaves.{
  After, Reads-After, continued-After, Leaves, unchanged, in_pipeline-After, any-Keeps,
}

module _ {R A V S : Type 0} ⦃float : Float R⦄ (env : Surroundings R A V S) where
  pub on_audio-After :
      (fields : Fields R) (rt : ServiceRuntime R A S)
      → is_type (get "type" fields) "audio" ≡ true
      → After (Leaves fields rt) (on_audio env fields rt)
  unfolding on_audio
  on_audio-After fields rt audio =
      Reads-After (Leaves fields rt) _ rt (read_audio-Reads env.python fields) (unchanged fields rt)
        (λ chunk. continued-After (Leaves fields rt) _ _ (
          in_pipeline-After (λ p. tt {0}) (Leaves fields rt) (ingest_audio env.parts chunk) rt
            (any-Keeps (ingest_audio env.parts chunk))
            (λ p e. record {
              backend_name = refl;
              autoscaler = λ h. refl;
              gateway = λ h. absurd (ground arith);
              frontend = λ h k. absurd (ground arith);
              timeline = λ h k. absurd (ground arith);
              store = λ h k j. absurd (ground arith);
              metrics = λ h k j. absurd (ground arith);
            })))

  -- The parts that an alignment leaves.
  abbrev unaligned : DiarizationPipeline R A S → ((EventGateway × Streams A) × Segments R) × S
  unaligned p = (((p.gateway, p.frontend), p.timeline), p.store)

  metered-unaligned :
      (p : DiarizationPipeline R A S)
      (method : MetricRegistry R → Result (Unit {0}) × MetricRegistry R)
      (o : Option (MetricRegistry R))
      → Ends unaligned (unaligned p) (metered env.parts p method o)
  metered-unaligned p method none = refl
  metered-unaligned p method (some m) = refl

  align_stt-Keeps : (event : SttSegment) → Keeps unaligned (align_stt env.parts event env.elapsed)
  unfolding align_stt increased
  align_stt-Keeps event =
      then-Keeps unaligned {C = List AttributedTranscriptSpan} aligned
        (λ spans. counted >> return spans) (λ p. refl)
        (λ spans.
          then-Keeps unaligned counted (λ u. return spans) counted-Keeps
            (λ u. return-Keeps unaligned spans))
    where
      aligned : Flow (DiarizationPipeline R A S) (List AttributedTranscriptSpan)
      aligned p =
          (some (
            align env.parts.is_space event
                (query p.timeline event.tenant_id event.session_id event.start_ms event.end_ms),
            p,
          ))

      observed : Flow (DiarizationPipeline R A S) (Unit {0})
      observed p =
          metered env.parts p (observe env.parts.numeric (codes "alignment_compute_ms") env.elapsed)
            p.metrics

      counted : Flow (DiarizationPipeline R A S) (Unit {0})
      counted = increased env.parts (codes "stt_segments_aligned") (float.decimal 1 0) >> observed

      counted-Keeps : Keeps unaligned counted
      counted-Keeps =
          then-Keeps unaligned
            (increased env.parts (codes "stt_segments_aligned") (float.decimal 1 0)) (λ u. observed)
            (λ p.
              metered-unaligned p
                (increment env.parts.numeric (codes "stt_segments_aligned") (float.decimal 1 0))
                p.metrics)
            (λ u p.
              metered-unaligned p
                (observe env.parts.numeric (codes "alignment_compute_ms") env.elapsed) p.metrics)

  pub on_stt-After :
      (fields : Fields R) (rt : ServiceRuntime R A S)
      → is_type (get "type" fields) "stt" ≡ true
      → After (Leaves fields rt) (on_stt env fields rt)
  unfolding on_stt
  on_stt-After fields rt stt =
      Reads-After (Leaves fields rt) _ rt (read_stt-Reads env.python fields) (unchanged fields rt)
        (λ event. continued-After (Leaves fields rt) _ _ (
          in_pipeline-After unaligned (Leaves fields rt) (align_stt env.parts event env.elapsed) rt
            (align_stt-Keeps event)
            (λ p e. record {
              backend_name = refl;
              autoscaler = λ h. refl;
              gateway = λ h. ap (λ x. x.0.0.0) e;
              frontend = λ h k. ap (λ x. x.0.0.1) e;
              timeline = λ h k. ap (λ x. x.0.1) e;
              store = λ h k j. ap (λ x. x.1) e;
              metrics = λ h k j. absurd (ground arith);
            })))

  -- The parts that a flush leaves.
  abbrev unflushed : DiarizationPipeline R A S → EventGateway
  unflushed p = p.gateway

  pub on_flush-After :
      (fields : Fields R) (rt : ServiceRuntime R A S)
      → is_type (get "type" fields) "flush" ≡ true
      → After (Leaves fields rt) (on_flush env fields rt)
  unfolding on_flush
  on_flush-After fields rt flush =
      Reads-After (Leaves fields rt) _ rt (text_item-Reads fields "tenant_id") (unchanged fields rt)
        (λ t.
          Reads-After (Leaves fields rt) _ rt (text_item-Reads fields "session_id")
            (unchanged fields rt)
            (λ k. continued-After (Leaves fields rt) _ _ (
              in_pipeline-After unflushed (Leaves fields rt) (flush_session env.parts t k) rt
                (flush_session-Keeps env.parts unflushed unflushed-Ignores t k)
                (λ p e. record {
                  backend_name = refl;
                  autoscaler = λ h. refl;
                  gateway = λ h. e;
                  frontend = λ h k. absurd (ground arith);
                  timeline = λ h k. absurd (ground arith);
                  store = λ h k j. absurd (ground arith);
                  metrics = λ h k j. absurd (ground arith);
                }))))
    where
      unflushed-Ignores : IgnoresFlush unflushed
      unflushed-Ignores = record {
        work = record { store = λ p s. refl; embedding = λ p m n. refl };
        frontend = λ p s. refl;
        timeline = λ p s. refl;
      }

  -- The parts that a renaming leaves.
  abbrev unnamed :
      DiarizationPipeline R A S
      → ((EventGateway × Streams A) × Segments R) × Option (MetricRegistry R)
  unnamed p = (((p.gateway, p.frontend), p.timeline), p.metrics)

  rename_speaker-Keeps :
      (t k : String) (id : List ℕ) (name : String)
      → Keeps unnamed (rename_speaker env.parts t k id name)
  unfolding rename_speaker
  rename_speaker-Keeps t k id name p = refl

  pub on_rename-After :
      (fields : Fields R) (rt : ServiceRuntime R A S)
      → is_type (get "type" fields) "rename" ≡ true
      → After (Leaves fields rt) (on_rename env fields rt)
  unfolding on_rename
  on_rename-After fields rt rename =
      Reads-After (Leaves fields rt) _ rt (text_item-Reads fields "tenant_id") (unchanged fields rt)
        (λ t.
          Reads-After (Leaves fields rt) _ rt (text_item-Reads fields "session_id")
            (unchanged fields rt)
            (λ k.
              Reads-After (Leaves fields rt) _ rt (text_item-Reads fields "speaker_id")
                (unchanged fields rt)
                (λ id.
                  Reads-After (Leaves fields rt) _ rt (text_item-Reads fields "display_name")
                    (unchanged fields rt)
                    (λ name. continued-After (Leaves fields rt) _ _ (
                      in_pipeline-After unnamed (Leaves fields rt)
                        (rename_speaker env.parts t k (codes id) name) rt
                        (rename_speaker-Keeps t k (codes id) name)
                        (λ p e. record {
                          backend_name = refl;
                          autoscaler = λ h. refl;
                          gateway = λ h. ap (λ x. x.0.0.0) e;
                          frontend = λ h k. ap (λ x. x.0.0.1) e;
                          timeline = λ h k. ap (λ x. x.0.1) e;
                          store = λ h k j. absurd (ground arith);
                          metrics = λ h k j. ap (λ x. counted_in rt.metrics x.1) e;
                        }))))))

  pub on_profiles-After :
      (fields : Fields R) (rt : ServiceRuntime R A S)
      → After (Leaves fields rt) (on_profiles env fields rt)
  unfolding on_profiles
  on_profiles-After fields rt =
      Reads-After (Leaves fields rt) _ rt (text_item-Reads fields "tenant_id") (unchanged fields rt)
        (λ t.
          Reads-After (Leaves fields rt) _ rt (text_item-Reads fields "session_id")
            (unchanged fields rt) (λ k. unchanged fields rt))

  pub on_autoscale-After :
      (fields : Fields R) (rt : ServiceRuntime R A S)
      → is_type (get "type" fields) "autoscale" ≡ true
      → After (Leaves fields rt) (on_autoscale env fields rt)
  unfolding on_autoscale
  on_autoscale-After fields rt autoscale =
      Reads-After (Leaves fields rt) _ rt (read_sample-Reads env.python fields)
        (unchanged fields rt)
        (λ sample.
          continued-After (Leaves fields rt) _ _
            (go (recommend rt.autoscaler env.monotonic sample)))
    where
      go :
          (r : Result (Autoscaler R × ScalingDecision))
          → After (Leaves fields rt) (into_autoscaler rt r)
      go (raised e) = unchanged fields rt
      go (ok (a, decision)) = record {
        backend_name = refl;
        autoscaler = λ h. absurd (ground arith);
        gateway = λ h. refl;
        frontend = λ h k. refl;
        timeline = λ h k. refl;
        store = λ h k j. refl;
        metrics = λ h k j. refl;
      }
