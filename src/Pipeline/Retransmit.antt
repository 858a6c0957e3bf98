-- ===== src/Pipeline/Retransmit.antt =====
-- A chunk that is sent again.
use cuebee_speaker_serving.Base.{
  ℕ, ◌≡◌, refl, sym, ap, ◌∙◌, subst, inl, inr, true, false, List, [], ◌++◌, Option, none, some,
  arith, if◌then◌else◌, Bool-cases,
}
use cuebee_speaker_serving.Base.Dict.{get, set}
use cuebee_speaker_serving.Base.Eq.{string_eq, pair_eq}
use cuebee_speaker_serving.Base.Float.{Float}
use cuebee_speaker_serving.Base.Text.{codes}
use cuebee_speaker_serving.Domain.{
  GatewayDecision, AudioChunk, FeatureChunk, session_key, is_accepted, Result, ok, raised,
}
use cuebee_speaker_serving.Gateway.{EventGateway, accept}
use cuebee_speaker_serving.Gateway.Admission.{
  accept_at-state, get-accept, accept-admits_iff, cursor_of, IsNewer, key_eq,
}
use cuebee_speaker_serving.Frontend.{Streams, push}
use cuebee_speaker_serving.Metrics.{MetricRegistry, increment}
use cuebee_speaker_serving.Pipeline.Effects.{Flow, return, continued}
use cuebee_speaker_serving.Pipeline.Keeps.{
  Ends, Keeps, then-Keeps, return-Keeps, if-Keeps, IgnoresFlush, process_features-Keeps,
  to_timeline-Keeps, flush_stream-Keeps,
}
use cuebee_speaker_serving.Pipeline.{
  is_some, Parts, DiarizationPipeline, IngestResult, metered, increased, into_frontend, push_chunk,
  features_of, ingest_accepted, ingest_refused, ingest_audio, status_value,
}

not_newer : (c : AudioChunk) → IsNewer (some (cursor_of c)) (cursor_of c) → false ≡ true
not_newer c (inl h) = absurd (omega arith)
not_newer c (inr (e, h)) = absurd (omega arith)

-- A chunk that was judged is not accepted when it comes again.
accept_again :
    (g : EventGateway) (c : AudioChunk)
    → is_accepted (accept (accept g c).0 c).1 ≡ true
    → false ≡ true
accept_again g c e =
    let newer = (accept-admits_iff (accept g c).0 c).0 e in
    let self : key_eq.same (session_key c) (session_key c) ≡ true =
      (key_eq.same_iff (session_key c) (session_key c)).1 refl in
    elim (Bool-cases (is_accepted (accept g c).1)) [
      | inl a ↦
          let moved : get (session_key c) (accept g c).0 ≡ some (cursor_of c) =
            ground (arith, get-accept g c (session_key c)) in
          not_newer c (subst (λ o. IsNewer o (cursor_of c)) moved newer)
      | inr a ↦
          let kept : get (session_key c) (accept g c).0 ≡ get (session_key c) g =
            ground (arith, get-accept g c (session_key c)) in
          let admitted =
            (accept-admits_iff g c).1 (subst (λ o. IsNewer o (cursor_of c)) kept newer) in
          sym a ∙ admitted
    ]

refused_again :
    (g : EventGateway) (c : AudioChunk) → is_accepted (accept (accept g c).0 c).1 ≡ false
refused_again g c = elim (Bool-cases (is_accepted (accept (accept g c).0 c).1)) [
  | inr e ↦ e
  | inl e ↦ e ∙ sym (accept_again g c e)
]

-- A refused chunk leaves the cursors.
refused-accept :
    (g : EventGateway) (c : AudioChunk) → is_accepted (accept g c).1 ≡ false → (accept g c).0 ≡ g
unfolding accept
refused-accept g c h =
    accept_at-state g c (get (session_key c) g)
    ∙ ap (λ b. if b then set (session_key c) (cursor_of c) g else g) h

abbrev gateway_of : {R A S : Type 0} → DiarizationPipeline R A S → EventGateway
gateway_of p = p.gateway

gateway_of-Ignores : {R A S : Type 0} → IgnoresFlush {R = R} {A = A} {S = S} gateway_of
gateway_of-Ignores = record {
  work = record { store = λ p s. refl; embedding = λ p m n. refl };
  frontend = λ p s. refl;
  timeline = λ p s. refl;
}

module _ {R A V S : Type 0} ⦃float : Float R⦄ (parts : Parts R A V S) where
  increased-Keeps :
      (name : List ℕ) (value : R)
      → Keeps {P = DiarizationPipeline R A S} gateway_of (increased parts name value)
  unfolding increased
  increased-Keeps name value p = go p.metrics
    where
      go :
          (o : Option (MetricRegistry R))
          → Ends gateway_of p.gateway (metered parts p (increment parts.numeric name value) o)
      go none = refl
      go (some m) = refl

  push_chunk-Keeps : (chunk : AudioChunk) → Keeps gateway_of (push_chunk parts chunk)
  unfolding push_chunk
  push_chunk-Keeps chunk p = go (push parts.signal parts.audio p.frontend chunk)
    where
      go :
          (r : Result (Option (Streams A × List (FeatureChunk R V))))
          → Ends gateway_of p.gateway (into_frontend parts p r)
      go (raised e) = refl
      go (ok none) = tt
      go (ok (some (streams, features))) = refl

  features_of-Keeps : (chunk : AudioChunk) → Keeps gateway_of (features_of parts chunk)
  unfolding features_of
  features_of-Keeps chunk = then-Keeps gateway_of _ _ (push_chunk-Keeps chunk) (λ features.
      if-Keeps gateway_of chunk.is_final _ _
        (then-Keeps gateway_of _ _
          (flush_stream-Keeps parts gateway_of gateway_of-Ignores chunk.tenant_id chunk.session_id)
          (λ last. return-Keeps gateway_of (features ++ last)))
        (return-Keeps gateway_of features))

  ingest_accepted-Keeps :
      (chunk : AudioChunk) (decision : GatewayDecision)
      → Keeps gateway_of (ingest_accepted parts chunk decision)
  unfolding ingest_accepted
  ingest_accepted-Keeps chunk decision =
      then-Keeps gateway_of _ _
        (then-Keeps gateway_of _ _
          (then-Keeps gateway_of _ _ (increased-Keeps _ _) (λ u. increased-Keeps _ _))
          (λ u.
            if-Keeps gateway_of (is_some decision.missing_range) _ _ (increased-Keeps _ _)
              (return-Keeps gateway_of tt)))
        (λ u. then-Keeps gateway_of _ _ (features_of-Keeps chunk) (λ features.
          then-Keeps gateway_of _ _
            (process_features-Keeps parts gateway_of gateway_of-Ignores.work features)
            (λ segments.
              then-Keeps gateway_of _ _
                (then-Keeps gateway_of _ _
                  (to_timeline-Keeps parts gateway_of gateway_of-Ignores segments)
                  (λ v. increased-Keeps _ _))
                (λ v.
                  return-Keeps gateway_of {B = IngestResult R}
                    (record { gateway = decision; speaker_segments = segments })))))

  ingest_refused-Keeps :
      (decision : GatewayDecision)
      → Keeps {P = DiarizationPipeline R A S} gateway_of (ingest_refused parts decision)
  ingest_refused-Keeps decision = then-Keeps gateway_of _ _ (increased-Keeps _ _) (λ u.
      return-Keeps gateway_of {B = IngestResult R}
        (record { gateway = decision; speaker_segments = [] }))

  -- A call leaves the gateway as its judgement did.
  ingest_audio-Ends :
      (chunk : AudioChunk) (p : DiarizationPipeline R A S)
      → Ends gateway_of (accept p.gateway chunk).0 (ingest_audio parts chunk p)
  unfolding ingest_audio
  ingest_audio-Ends chunk p =
      if-Keeps gateway_of (is_accepted (accept p.gateway chunk).1) _ _
        (ingest_accepted-Keeps chunk (accept p.gateway chunk).1)
        (ingest_refused-Keeps (accept p.gateway chunk).1)
        (record p { gateway = (accept p.gateway chunk).0 })

  -- The chunk is refused, and nothing but the metrics is changed.
  pub record IsRepeated (chunk : AudioChunk) (p : DiarizationPipeline R A S) : Type 0 where
    pub decision : GatewayDecision
    pub metrics : Option (MetricRegistry R)
    pub refused : is_accepted decision ≡ false
    pub result :
        ingest_audio parts chunk p
        ≡ some (
          ok (record { gateway = decision; speaker_segments = [] }),
          record p { metrics = metrics },
        )

  -- What the refusal of a chunk does.
  record HasReply (decision : GatewayDecision) (p : DiarizationPipeline R A S) : Type 0 where
    metrics : Option (MetricRegistry R)
    result :
        ingest_refused parts decision p
        ≡ some (
          ok (record { gateway = decision; speaker_segments = [] }),
          record p { metrics = metrics },
        )

  increment_one :
      (name : List ℕ) (m : MetricRegistry R)
      → float.lt (float.decimal 1 0) (float.decimal 0 0) ≡ false
      → (increment parts.numeric name (float.decimal 1 0) m).0 ≡ ok tt
  unfolding increment
  increment_one name m one = rw one refl

  ingest_refused-HasReply :
      (decision : GatewayDecision) (p : DiarizationPipeline R A S)
      → float.lt (float.decimal 1 0) (float.decimal 0 0) ≡ false
      → HasReply decision p
  unfolding increased
  ingest_refused-HasReply decision p one = go p.metrics refl
    where
      name : List ℕ
      name = codes "gateway_" ++ codes (status_value decision.status)

      reply : Flow (DiarizationPipeline R A S) (IngestResult R)
      reply = return (record { gateway = decision; speaker_segments = [] })

      go : (o : Option (MetricRegistry R)) → p.metrics ≡ o → HasReply decision p
      go none e = record {
        metrics = p.metrics;
        result =
            ap
              (λ o.
                continued (metered parts p (increment parts.numeric name (float.decimal 1 0)) o)
                  (λ u. reply))
              e;
      }
      go (some m) e = record {
        metrics = some (increment parts.numeric name (float.decimal 1 0) m).1;
        result =
            ap
              (λ o.
                continued (metered parts p (increment parts.numeric name (float.decimal 1 0)) o)
                  (λ u. reply))
              e
            ∙ ap
                (λ r.
                  continued
                    (some (
                      r,
                      record p {
                        metrics = some (increment parts.numeric name (float.decimal 1 0) m).1;
                      },
                    ))
                    (λ u. reply))
                (increment_one name m one);
      }

  refused-IsRepeated :
      (chunk : AudioChunk) (p : DiarizationPipeline R A S)
      → float.lt (float.decimal 1 0) (float.decimal 0 0) ≡ false
      → is_accepted (accept p.gateway chunk).1 ≡ false
      → IsRepeated chunk p
  unfolding ingest_audio
  refused-IsRepeated chunk p one h =
      let decision = (accept p.gateway chunk).1 in
      let refusal = ingest_refused-HasReply decision p one in
      record {
        decision = decision;
        metrics = refusal.metrics;
        refused = h;
        result =
            ap
              (λ b.
                (if b then ingest_accepted parts chunk decision else ingest_refused parts decision)
                  (record p { gateway = (accept p.gateway chunk).0 }))
              h
            ∙ ap (λ g. ingest_refused parts decision (record p { gateway = g }))
                (refused-accept p.gateway chunk h)
            ∙ refusal.result;
      }

  -- Where 1.0 is not below 0.0: after a call with a chunk, accepted or not, that gave a result or
  -- raised, the same chunk again is refused with no segments; nothing is sent to the batcher, and
  -- the frontend, the speakers, the timeline and the cursors stay as they are.
  pub ingest_audio-IsRepeated :
      (chunk : AudioChunk) (p p' : DiarizationPipeline R A S) (r : Result (IngestResult R))
      → float.lt (float.decimal 1 0) (float.decimal 0 0) ≡ false
      → ingest_audio parts chunk p ≡ some (r, p')
      → IsRepeated chunk p'
  ingest_audio-IsRepeated chunk p p' r one h =
      let same : p'.gateway ≡ (accept p.gateway chunk).0 =
        subst (Ends gateway_of (accept p.gateway chunk).0) h (ingest_audio-Ends chunk p) in
      refused-IsRepeated chunk p' one
        (ap (λ g. is_accepted (accept g chunk).1) same ∙ refused_again p.gateway chunk)
