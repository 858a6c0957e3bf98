-- ===== src/Tests/Servers.antt =====
-- Runs of src/cuebee_speaker/server.py.
use cuebee_speaker_serving.Base.{
  ℕ, ◌≡◌, refl, List, [], ◌∷◌, Option, some, none, length, if◌then◌else◌, ◌==◌,
}
use cuebee_speaker_serving.Base.Dict.{get, set}
use cuebee_speaker_serving.Base.Int.{ℤ, pos, abs, ◌-ℤ◌, ◌+ℤ◌, ◌*ℤ◌}
use cuebee_speaker_serving.Base.Sort.{sorted, insert}
use cuebee_speaker_serving.Gateway.{accept, accept_at}
use cuebee_speaker_serving.Frontend.{
  push, received, decoded, samples, joined, emit_complete_windows, windows, heard,
}
use cuebee_speaker_serving.Assignment.{assign}
use cuebee_speaker_serving.Metrics.{increment}
use cuebee_speaker_serving.Domain.{
  attribute_error, overflow_error, value_error, Result, ok, raised, audio_chunk,
}
use cuebee_speaker_serving.Autoscaler.{init}
use cuebee_speaker_serving.Store.{Store}
use cuebee_speaker_serving.Pipeline.{
  ingest_audio, ingest_accepted, increased, features_of, push_chunk, process_features, gathered,
  assign_all, assigned, to_timeline,
}
use cuebee_speaker_serving.Server.{
  ServiceRuntime, Surroundings, Response, ingested, dispatch, dispatch_object, on_audio,
  in_pipeline,
}
use cuebee_speaker_serving.Server.Connection.{
  Turn, Codec, Served, serve, at_line, respond, answered_line, handle_client, finished,
}
use cuebee_speaker_serving.Server.Json.{
  Value, Members, integer, number, text, array, object, nil, end, member, members,
}
use cuebee_speaker_serving.Server.Messages.{
  Conversions, read_audio, item, text_item, as_text, int_item, int, b64decode, truth,
}
use cuebee_speaker_serving.Server.Leaves.{Leaves}
use cuebee_speaker_serving.Server.Frame.{dispatch-Leaves}
use cuebee_speaker_serving.Server.Tenants.{IsPrivate, dispatch-IsPrivate}
use cuebee_speaker_serving.Server.Replies.{IsAnswered, lines_taken, handle_client-IsAnswered}
use cuebee_speaker_serving.Tests.Floats.{milli}
use cuebee_speaker_serving.Tests.Pipelines.{answering, answering-KeepsChunks, chunk, idle}
use cuebee_speaker_serving.Tests.Pipelines.{ingested as result}
use cuebee_speaker_serving.Tests.Registries.{new_registry}
use cuebee_speaker_serving.Tests.Scaling.{settings}

-- A float of a message is out of range for `int`; a text is none.
abbrev python : Conversions ℤ
python = record {
  int_of_float = λ x. raised (overflow_error "cannot convert float infinity to integer");
  int_of_text = λ s. raised (value_error "invalid literal for int()");
  float_of_int = λ n. ok n;
  float_of_text = λ s. raised (value_error "could not convert string to float");
  b64decode = λ s. ok chunk.pcm;
}

abbrev env : Surroundings ℤ ℕ ℤ (Store ℤ ℤ)
env = record {
  parts = answering;
  python = python;
  centroid_size = λ v. 192;
  monotonic = pos 0;
  elapsed = pos 1;
}

abbrev idle_runtime : ServiceRuntime ℤ ℕ (Store ℤ ℤ)
idle_runtime = record {
  pipeline = idle;
  metrics = new_registry;
  autoscaler = init settings;
  backend_name = "native";
}

abbrev audio_message : Value ℤ → Members ℤ
audio_message epoch = member "type" (text "audio") (
    member "tenant_id" (text "t") (
      member "session_id" (text "s") (
        member "client_epoch" epoch (
          member "seq_no" (integer (pos 0)) (
            member "start_ms" (integer (pos 0)) (
              member "end_ms" (integer (pos 8)) (
                member "sample_rate" (integer (pos 1000))
                  (member "pcm_base64" (text "AQA=") end))))))))

read_back :
    read_audio python {P = ℕ} (members (audio_message (integer (pos 1)))) 0 ≡ some (ok chunk, 0)
unfolding read_audio item text_item as_text int_item int b64decode truth get audio_chunk
read_back = refl

-- Infinity as the epoch is an exception that `handle_client` does not answer.
infinite_epoch :
    dispatch env (object (audio_message (number (pos 0)))) idle_runtime
    ≡ some (raised (overflow_error "cannot convert float infinity to integer"), idle_runtime)
unfolding dispatch dispatch_object on_audio read_audio item text_item as_text int_item int b64decode
    get init
infinite_epoch = refl

-- The runtime behind a call, if it ends.
abbrev behind :
    Option (Result (Response ℤ) × ServiceRuntime ℤ ℕ (Store ℤ ℤ)) → ServiceRuntime ℤ ℕ (Store ℤ ℤ)
behind none = idle_runtime
behind (some (r, rt)) = rt

abbrev sent : Option (Result (Response ℤ) × ServiceRuntime ℤ ℕ (Store ℤ ℤ))
sent = dispatch env (object (audio_message (integer (pos 1)))) idle_runtime

sent_run : sent ≡ some (ok (ingested result), behind sent)
unfolding dispatch dispatch_object on_audio in_pipeline read_audio item text_item as_text int_item
    int b64decode truth init ingest_audio accept accept_at get set ingest_accepted increased
    increment features_of push_chunk push received decoded samples joined emit_complete_windows
    windows heard process_features gathered ◌-ℤ◌ ◌+ℤ◌ ◌*ℤ◌ abs assign_all assigned assign
    to_timeline sorted insert audio_chunk
sent_run = refl

dispatch-Leaves_example :
    Leaves (members (audio_message (integer (pos 1)))) idle_runtime (behind sent)
dispatch-Leaves_example =
    dispatch-Leaves env (audio_message (integer (pos 1))) idle_runtime (behind sent)
      (ok (ingested result)) sent_run

dispatch-IsPrivate_example : IsPrivate (members (audio_message (integer (pos 1)))) (ingested result)
dispatch-IsPrivate_example =
    dispatch-IsPrivate env (audio_message (integer (pos 1))) idle_runtime (behind sent)
      (ingested result) answering-KeepsChunks sent_run

-- The first line is an audio message, and every other a list.
abbrev codec : Codec ℤ
codec = record {
  loads = λ line.
      if length line == 1 then ok (object (audio_message (integer (pos 1)))) else ok (array nil);
  dumps = λ response. ok (123 ∷ 125 ∷ 10 ∷ []);
}

abbrev turn : List ℕ → Turn
turn line = record { line = ok line; drained = ok tt }

abbrev turns : List Turn
turns = turn (10 ∷ []) ∷ turn (11 ∷ 11 ∷ 10 ∷ []) ∷ turn (10 ∷ []) ∷ []

abbrev after_close : Option (Served ℤ ℕ (Store ℤ ℤ)) → ServiceRuntime ℤ ℕ (Store ℤ ℤ)
after_close none = idle_runtime
after_close (some s) = s.runtime

-- The second line is too long, so the third is not read.
abbrev served : Served ℤ ℕ (Store ℤ ℤ)
served = record {
  written = (123 ∷ 125 ∷ 10 ∷ []) ∷ (123 ∷ 125 ∷ 10 ∷ []) ∷ [];
  left = ok tt;
  runtime = after_close (handle_client env codec (pos 2) turns (ok tt) idle_runtime);
}

served_run : handle_client env codec (pos 2) turns (ok tt) idle_runtime ≡ some served
unfolding handle_client serve at_line respond answered_line finished dispatch dispatch_object
    on_audio in_pipeline read_audio item text_item as_text int_item int b64decode truth init
    ingest_audio accept accept_at get set ingest_accepted increased increment features_of push_chunk
    push received decoded samples joined emit_complete_windows windows heard process_features
    gathered ◌-ℤ◌ ◌+ℤ◌ ◌*ℤ◌ abs assign_all assigned assign to_timeline sorted insert audio_chunk
served_run = refl

handle_client-IsAnswered_example : IsAnswered (lines_taken (pos 2) turns) (some served)
handle_client-IsAnswered_example =
    handle_client-IsAnswered env codec (pos 2) turns (ok tt) idle_runtime served served_run

-- A list gets no response, and the line behind it is not read.
list_closes :
    serve env codec (pos 4) (turn (11 ∷ 10 ∷ []) ∷ turn (10 ∷ []) ∷ []) idle_runtime
    ≡ some (record {
      written = [];
      left = raised (attribute_error "object has no attribute 'get'");
      runtime = idle_runtime;
    })
unfolding serve at_line answered_line respond dispatch init
list_closes = refl
