-- ===== src/Tests/Pipelines.antt =====
-- Runs of src/cuebee_speaker/pipeline.py.
use cuebee_speaker_serving.Base.{
  List, arith, ap, ℕ, String, ◌≡◌, refl, false, [], ◌∷◌, map, some, none, Option,
}
use cuebee_speaker_serving.Base.Int.{ℤ, pos, abs, ◌-ℤ◌, ◌+ℤ◌, ◌*ℤ◌}
use cuebee_speaker_serving.Base.Dict.{get, set}
use cuebee_speaker_serving.Domain.{
  AudioChunk, FeatureChunk, EmbeddingResult, SpeakerSegment, accepted, Result, ok, raised,
  worker_unavailable,
}
use cuebee_speaker_serving.Gateway.{accept, accept_at}
use cuebee_speaker_serving.Frontend.{
  Signal, push, received, decoded, samples, joined, emit_complete_windows, windows, heard,
}
use cuebee_speaker_serving.Store.{Store, empty}
use cuebee_speaker_serving.Assignment.Stores.{memory_store}
use cuebee_speaker_serving.Store.Memory
use cuebee_speaker_serving.Assignment.{rename, assign}
use cuebee_speaker_serving.Metrics.{increment}
use cuebee_speaker_serving.Pipeline.{
  Parts, DiarizationPipeline, IngestResult, ingest_audio, ingest_accepted, increased, features_of,
  push_chunk, process_features, gathered, rename_speaker, assign_all, assigned, to_timeline,
}
use cuebee_speaker_serving.Base.Eq.{string_eq}
use cuebee_speaker_serving.Pipeline.Isolation.{elsewhere, elsewhere-ingest_audio}
use cuebee_speaker_serving.Pipeline.Retransmit.{IsRepeated, ingest_audio-IsRepeated}
use cuebee_speaker_serving.Pipeline.Sessions.{KeepsChunks}
use cuebee_speaker_serving.Alignment.{unknown}
use cuebee_speaker_serving.Base.Sort.{sorted, insert}
use cuebee_speaker_serving.Tests.Floats.{milli}
use cuebee_speaker_serving.Tests.Vectors.{numbers}
use cuebee_speaker_serving.Tests.Frontends.{usual}
use cuebee_speaker_serving.Tests.Assignments.{settings}
use cuebee_speaker_serving.Tests.Registries.{numpy, new_registry}

abbrev signal : Signal ℤ ℕ ℤ
signal = record {
  sample = λ low high. low;
  speech_ratio = λ l. pos 1000;
  extract = λ l. pos 7;
  frame_samples = 1;
  round_ratio = λ a b. pos 8;
  truncate = λ x. x;
}

-- The worker is lost.
abbrev parts : Parts ℤ ℕ ℤ (Store ℤ ℤ)
parts = record {
  signal = signal;
  audio = usual;
  embed = λ n features. raised (worker_unavailable "native worker is not running");
  observed = λ n. [];
  vectors = numbers;
  speakers = memory_store;
  assignment = settings;
  retention_ms = pos 10_000;
  numeric = numpy;
  is_space = λ c. false;
}

abbrev pub chunk : AudioChunk
chunk = record {
  tenant_id = "t";
  session_id = "s";
  client_epoch = 1;
  seq_no = 0;
  start_ms = pos 0;
  end_ms = pos 8;
  pcm = 1 ∷ 0 ∷ 2 ∷ 0 ∷ 3 ∷ 0 ∷ 4 ∷ 0 ∷ 5 ∷ 0 ∷ 6 ∷ 0 ∷ 7 ∷ 0 ∷ 8 ∷ 0 ∷ [];
  sample_rate = 1000;
  is_final = false;
}

abbrev pub idle : DiarizationPipeline ℤ ℕ (Store ℤ ℤ)
idle = record {
  gateway = [];
  frontend = [];
  store = empty;
  timeline = [];
  metrics = some new_registry;
  submissions = 0;
}

abbrev pub after :
    Option (Result (IngestResult ℤ) × DiarizationPipeline ℤ ℕ (Store ℤ ℤ))
    → DiarizationPipeline ℤ ℕ (Store ℤ ℤ)
after none = idle
after (some (r, p)) = p

-- The chunk is accepted, its features go to the batcher, and the call raises.
lost :
    ingest_audio parts chunk idle
    ≡ some (
      raised (worker_unavailable "native worker is not running"),
      after (ingest_audio parts chunk idle),
    )
unfolding ingest_audio accept accept_at get set ingest_accepted increased increment features_of
    push_chunk push received decoded samples joined emit_complete_windows windows heard
    process_features gathered ◌-ℤ◌ ◌+ℤ◌ ◌*ℤ◌ abs
lost = refl

ingest_audio-IsRepeated_example : IsRepeated parts chunk (after (ingest_audio parts chunk idle))
ingest_audio-IsRepeated_example =
    ingest_audio-IsRepeated parts chunk idle (after (ingest_audio parts chunk idle))
      (raised (worker_unavailable "native worker is not running")) refl lost

no_speaker : rename_speaker parts "t" "s" (49 ∷ []) "Ada" idle ≡ some (ok false, idle)
unfolding rename_speaker rename Memory.rename_speaker get empty
no_speaker = refl

abbrev answer : FeatureChunk ℤ ℤ → EmbeddingResult ℤ ℤ
answer f = record {
  chunk = f;
  embedding = pos 500;
  quality = pos 100;
  worker_id = "w";
  batch_size = 1;
  queue_delay_ms = pos 0;
  inference_ms = pos 0;
}

abbrev pub answering : Parts ℤ ℕ ℤ (Store ℤ ℤ)
answering = record parts { embed = λ n features. ok (map answer features) }

answers_chunks :
    (features : List (FeatureChunk ℤ ℤ)) → map (λ r. r.chunk) (map answer features) ≡ features
answers_chunks [] = refl
answers_chunks (f ∷ features) = λ i. f ∷ answers_chunks features i

pub answering-KeepsChunks : KeepsChunks answering
answering-KeepsChunks n = answers_chunks

abbrev segment : ℕ → ℕ → SpeakerSegment ℤ
segment start_ms end_ms = record {
  tenant_id = "t";
  session_id = "s";
  start_ms = pos start_ms;
  end_ms = pos end_ms;
  speaker_id = unknown;
  confidence = pos 100;
  revision = 1;
}

abbrev pub ingested : IngestResult ℤ
ingested = record {
  gateway = record { status = accepted; expected_next_seq = 1; missing_range = none };
  speaker_segments = segment 0 4 ∷ segment 2 6 ∷ segment 4 8 ∷ [];
}

ingested_run :
    ingest_audio answering chunk idle
    ≡ some (ok ingested, after (ingest_audio answering chunk idle))
unfolding ingest_audio accept accept_at get set ingest_accepted increased increment features_of
    push_chunk push received decoded samples joined emit_complete_windows windows heard
    process_features gathered ◌-ℤ◌ ◌+ℤ◌ ◌*ℤ◌ abs assign_all assigned assign to_timeline sorted
    insert
ingested_run = refl

elsewhere-ingest_audio_example :
    elsewhere answering ("u", "s") (after (ingest_audio answering chunk idle))
    ≡ elsewhere answering ("u", "s") idle
elsewhere-ingest_audio_example =
    elsewhere-ingest_audio answering ("u", "s") chunk
      (λ e. ground (arith, string_eq.same_iff "t" "u", ap (λ (p : String × String). p.0) e)) idle
      (after (ingest_audio answering chunk idle)) (ok ingested) answering-KeepsChunks ingested_run
