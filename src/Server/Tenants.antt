-- ===== src/Server/Tenants.antt =====
-- Whose segments a response carries.
use cuebee_speaker_serving.Base.{
  ◌≡◌, sym, subst, String, List, Option, none, some, Bool, true, false, if◌then◌else◌,
}
use cuebee_speaker_serving.Base.Float.{Float}
use cuebee_speaker_serving.Base.Dict.{get}
use cuebee_speaker_serving.Base.Keep.{All}
use cuebee_speaker_serving.Base.Eq.{string_eq}
use cuebee_speaker_serving.Base.Text.{codes}
use cuebee_speaker_serving.Autoscaler.{recommend}
use cuebee_speaker_serving.Domain.{Result, ok, raised, AttributedTranscriptSpan}
use cuebee_speaker_serving.Alignment.Owner.{IsSpanOf}
use cuebee_speaker_serving.Pipeline.{
  DiarizationPipeline, ingest_audio, flush_session, align_stt, rename_speaker,
}
use cuebee_speaker_serving.Pipeline.Effects.{Flow, return, continued, ◌>>=◌}
use cuebee_speaker_serving.Pipeline.Sessions.{
  Yields, continued-Yields, IsSegmentOf, KeepsChunks, IsAnswerOf, ingest_audio-Yields,
  flush_session-Yields, align_stt-Yields,
}
use cuebee_speaker_serving.Server.{
  ServiceRuntime, Surroundings, Response, healthy, measured, ingested, attributed, listed, renamed,
  flushed, decided, refused, message_too_large, is_type, put_back, in_pipeline, into_autoscaler,
  on_audio, on_stt, on_profiles, on_rename, on_flush, on_autoscale, dispatch_object, dispatch,
}
use cuebee_speaker_serving.Server.Json.{Members, object, members}
use cuebee_speaker_serving.Server.Messages.{Fields}
use cuebee_speaker_serving.Server.Reads.{
  Gives, endless, raises, returns, Reads, HasText, text_item-Reads, read_audio-Reads,
  read_stt-Reads, read_sample-Reads,
}

-- The entries are of the tenant and the session that the message names.
pub record AreOfMessage {R B : Type 0} (IsOf : String → String → B → Type 0) (fields : Fields R)
    (entries : List B) : Type 0 where
  pub tenant_id : String
  pub session_id : String
  pub names_tenant : HasText fields "tenant_id" tenant_id
  pub names_session : HasText fields "session_id" session_id
  pub owned : All (IsOf tenant_id session_id) entries

abbrev pub IsSpanAt : String → String → AttributedTranscriptSpan → Type 0
IsSpanAt t k s = (s.tenant_id ≡ t) × (s.session_id ≡ k)

-- So are all speaker segments and attributed spans of a response.
abbrev pub IsPrivate : {R : Type 0} → Fields R → Response R → Type 0
IsPrivate fields (ingested result) = AreOfMessage IsSegmentOf fields result.speaker_segments
IsPrivate fields (flushed segments) = AreOfMessage IsSegmentOf fields segments
IsPrivate fields (healthy name) = Unit
IsPrivate fields (measured s) = Unit
IsPrivate fields (attributed spans) = AreOfMessage IsSpanAt fields spans
IsPrivate fields (listed views) = Unit
IsPrivate fields (renamed b) = Unit
IsPrivate fields (decided d) = Unit
IsPrivate fields (refused e) = Unit
IsPrivate fields message_too_large = Unit

module _ {P B C : Type 0} (T : C → Type 0) where
  Reads-Yields :
      {Q : B → Type 0} {m : Flow P B} (next : B → Flow P C) (p : P)
      → Reads Q m
      → ((b : B) → Q b → Yields T (next b p))
      → Yields T ((m >>= next) p)
  Reads-Yields {Q} next p r h = go (r.at p)
    where
      go :
          {o : Option (Result B × P)}
          → Gives (λ q. q ≡ p) (λ b q. (q ≡ p) × Q b) o
          → Yields T (continued o next)
      go endless = tt
      go (raises e) = tt
      go (returns {b} e) = subst (λ q. Yields T (next b q)) (sym e.0) (h b e.1)

  -- A response that holds whatever the call gave.
  mapped-Yields :
      (o : Option (Result B × P)) (f : B → C)
      → ((b : B) → T (f b))
      → Yields T (continued o (λ b. return (f b)))
  mapped-Yields none f h = tt
  mapped-Yields (some (raised e, p)) f h = tt
  mapped-Yields (some (ok b, p)) f h = h b

module _ {P C : Type 0} (T : C → Type 0) where
  if-Yields :
      (b : Bool) (x y : Option (Result C × P))
      → Yields T x
      → Yields T y
      → Yields T (if b then x else y)
  if-Yields true x y h k = h
  if-Yields false x y h k = k

module _ {R A S B : Type 0} where
  put_back-Yields :
      (Q : B → Type 0) (rt : ServiceRuntime R A S)
      (o : Option (Result B × DiarizationPipeline R A S))
      → Yields Q o
      → Yields Q (put_back rt o)
  put_back-Yields Q rt none h = tt
  put_back-Yields Q rt (some (raised e, p)) h = tt
  put_back-Yields Q rt (some (ok b, p)) h = h

module _ {R A V S : Type 0} ⦃float : Float R⦄ (env : Surroundings R A V S)
    (keeps : KeepsChunks env.parts) (fields : Fields R) (rt : ServiceRuntime R A S) where
  on_audio-Yields : Yields (IsPrivate fields) (on_audio env fields rt)
  unfolding on_audio in_pipeline
  on_audio-Yields =
      Reads-Yields (IsPrivate fields) _ rt (read_audio-Reads env.python fields) (λ chunk named.
        continued-Yields (IsAnswerOf env.parts chunk) (IsPrivate fields)
          (in_pipeline (ingest_audio env.parts chunk) rt) _
          (put_back-Yields (IsAnswerOf env.parts chunk) rt (ingest_audio env.parts chunk _)
            (ingest_audio-Yields env.parts chunk _ keeps))
          (λ result rt' owned. record {
            tenant_id = chunk.tenant_id;
            session_id = chunk.session_id;
            names_tenant = named.0;
            names_session = named.1;
            owned = owned;
          }))

  on_flush-Yields : Yields (IsPrivate fields) (on_flush env fields rt)
  unfolding on_flush in_pipeline
  on_flush-Yields =
      Reads-Yields (IsPrivate fields) _ rt (text_item-Reads fields "tenant_id") (λ t ht.
        Reads-Yields (IsPrivate fields) _ rt (text_item-Reads fields "session_id") (λ k hk.
          continued-Yields (All (IsSegmentOf t k)) (IsPrivate fields)
            (in_pipeline (flush_session env.parts t k) rt) _
            (put_back-Yields (All (IsSegmentOf t k)) rt (flush_session env.parts t k _)
              (flush_session-Yields env.parts t k _ keeps))
            (λ segments rt' owned. record {
              tenant_id = t;
              session_id = k;
              names_tenant = ht;
              names_session = hk;
              owned = owned;
            })))

  on_stt-Yields : Yields (IsPrivate fields) (on_stt env fields rt)
  unfolding on_stt in_pipeline
  on_stt-Yields =
      Reads-Yields (IsPrivate fields) _ rt (read_stt-Reads env.python fields) (λ event named.
        continued-Yields (All (IsSpanOf event)) (IsPrivate fields)
          (in_pipeline (align_stt env.parts event env.elapsed) rt) _
          (put_back-Yields (All (IsSpanOf event)) rt (align_stt env.parts event env.elapsed _)
            (align_stt-Yields env.parts event env.elapsed _))
          (λ spans rt' owned. record {
            tenant_id = event.tenant_id;
            session_id = event.session_id;
            names_tenant = named.0;
            names_session = named.1;
            owned = owned;
          }))

  on_profiles-Yields : Yields (IsPrivate fields) (on_profiles env fields rt)
  unfolding on_profiles
  on_profiles-Yields =
      Reads-Yields (IsPrivate fields) _ rt (text_item-Reads fields "tenant_id") (λ t ht.
        Reads-Yields (IsPrivate fields) _ rt (text_item-Reads fields "session_id") (λ k hk. tt))

  on_rename-Yields : Yields (IsPrivate fields) (on_rename env fields rt)
  unfolding on_rename
  on_rename-Yields =
      Reads-Yields (IsPrivate fields) _ rt (text_item-Reads fields "tenant_id") (λ t ht.
        Reads-Yields (IsPrivate fields) _ rt (text_item-Reads fields "session_id") (λ k hk.
          Reads-Yields (IsPrivate fields) _ rt (text_item-Reads fields "speaker_id") (λ id hi.
            Reads-Yields (IsPrivate fields) _ rt (text_item-Reads fields "display_name") (λ name hn.
              mapped-Yields (IsPrivate fields)
                (in_pipeline (rename_speaker env.parts t k (codes id) name) rt) renamed
                (λ b. tt)))))

  on_autoscale-Yields : Yields (IsPrivate fields) (on_autoscale env fields rt)
  unfolding on_autoscale
  on_autoscale-Yields =
      Reads-Yields (IsPrivate fields) _ rt (read_sample-Reads env.python fields) (λ sample h.
        mapped-Yields (IsPrivate fields)
          (into_autoscaler rt (recommend rt.autoscaler env.monotonic sample)) decided (λ d. tt))

  dispatch_object-Yields : Yields (IsPrivate fields) (dispatch_object env fields rt)
  unfolding dispatch_object
  dispatch_object-Yields = if-Yields T (named "health") _ _ tt (
      if-Yields T (named "metrics") _ _ tt (
        if-Yields T (named "audio") _ _ on_audio-Yields (
          if-Yields T (named "stt") _ _ on_stt-Yields (
            if-Yields T (named "profiles") _ _ on_profiles-Yields (
              if-Yields T (named "rename") _ _ on_rename-Yields (
                if-Yields T (named "flush") _ _ on_flush-Yields
                  (if-Yields T (named "autoscale") _ _ on_autoscale-Yields tt)))))))
    where
      T : Response R → Type 0
      T = IsPrivate fields

      named : String → Bool
      named = is_type (get "type" fields)

module _ {R A V S : Type 0} ⦃float : Float R⦄ (env : Surroundings R A V S) where
  -- Where the batcher returns one result for the chunk of each of the features, in their order: the
  -- speaker segments in the response to audio or to a flush, and the attributed spans in the response
  -- to an stt message, are all of the tenant and the session that the message itself names.
  pub dispatch-IsPrivate :
      (ms : Members R) (rt rt' : ServiceRuntime R A S) (response : Response R)
      → KeepsChunks env.parts
      → dispatch env (object ms) rt ≡ some (ok response, rt')
      → IsPrivate (members ms) response
  unfolding dispatch
  dispatch-IsPrivate ms rt rt' response keeps h =
      subst (Yields (IsPrivate (members ms))) h (dispatch_object-Yields env keeps (members ms) rt)
