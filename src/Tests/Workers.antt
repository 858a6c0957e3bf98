-- ===== src/Tests/Workers.antt =====
-- Runs of src/cuebee_speaker/inference/native_worker.py.
use cuebee_speaker_serving.Base.{
  ℕ, zero, ◌+◌, ◌*◌, ◌≡◌, ◌≢◌, refl, true, inl, inr, arith, [], ◌∷◌, ◌++◌, map, take, drop, none,
  replicate, suc,
}
use cuebee_speaker_serving.Base.Int.{pos}
use cuebee_speaker_serving.Base.Text.{codes}
use cuebee_speaker_serving.Domain.{worker_unavailable, ok}
use cuebee_speaker_serving.Worker.{
  World, Outcome, exited, delivers, initial, infer_batch, attempts, exchange, start_process,
}
use cuebee_speaker_serving.Worker.Wire.{
  Bytes, Pipe, response, failure, reader_loop, le_bytes, request_header,
}
use cuebee_speaker_serving.Worker.Request.{
  WorkerConfig, Arrays, validate_features, check_matrices, request, request_payload,
}
use cuebee_speaker_serving.Worker.Effects.{Backend, unavailable_text}
use cuebee_speaker_serving.Worker.Answer.{Row, Answer, IsAnswer, as_response, all_encoded}
use cuebee_speaker_serving.Worker.Codec.{reader_loop-encoded}
use cuebee_speaker_serving.Worker.Retry.{IsTried}
use cuebee_speaker_serving.Worker.Infer.{infer_batch-IsTried}

abbrev number32 : ℕ → ℕ → ℕ → ℕ → ℕ
number32 a b c d = a + b * 256 + c * 65536 + d * 16777216

abbrev one_row : Row
one_row = (((0, 0), (128, 63)), replicate 192 ((0, 0), (0, 62)))

abbrev rows_answer : Answer
rows_answer = record { request_id = 7; status = 0; error = []; rows = one_row ∷ [] }

abbrev error_answer : Answer
error_answer = record { request_id = 8; status = 2; error = codes "bad input"; rows = [] }

abbrev packets : Pipe
packets =
    take 5 (all_encoded (rows_answer ∷ error_answer ∷ []))
    ∷ (drop 5 (all_encoded (rows_answer ∷ error_answer ∷ [])) ++ 67 ∷ [])
    ∷ (66 ∷ [])
    ∷ []

cons_ne : {x : ℕ} {bytes : Bytes} → x ∷ bytes ≢ []
cons_ne h = ground arith

rows_answer-IsAnswer : IsAnswer rows_answer
rows_answer-IsAnswer = record {
  id_fits = omega arith;
  status_fits = omega arith;
  payload_fits = omega arith;
  wide = (refl, tt);
  empty_failure = inl refl;
}

error_answer-IsAnswer : IsAnswer error_answer
error_answer-IsAnswer = record {
  id_fits = omega arith;
  status_fits = omega arith;
  payload_fits = omega arith;
  wide = tt;
  empty_failure = inr refl;
}

reader_loop-encoded_example :
    reader_loop number32 3 packets
    ≡ map (λ a. response (as_response number32 a)) (rows_answer ∷ error_answer ∷ [])
      ++ failure (worker_unavailable "native worker closed its response stream") ∷ []
unfolding le_bytes
reader_loop-encoded_example =
    reader_loop-encoded number32 3 packets (rows_answer ∷ error_answer ∷ []) (67 ∷ 66 ∷ [])
      (omega arith) (cons_ne, (cons_ne, (cons_ne, tt)))
      (rows_answer-IsAnswer, (error_answer-IsAnswer, tt)) refl (omega arith)

-- The first process ends at once; the second one answers.
abbrev outcomes : ℕ → Outcome ℕ
outcomes zero = exited
outcomes (suc n) =
    delivers
      (response (record { request_id = n + 1; status = 0; error = []; rows = (5, 6 ∷ []) ∷ [] }))

abbrev world : World ℕ
world = record { outcome = outcomes; starts = λ n. true }

abbrev np : Arrays ℕ
np = record {
  ndim = λ v. 2;
  rows = λ v. v;
  columns = λ v. 80;
  is_finite = λ v. true;
  tobytes = λ v. v ∷ [];
}

abbrev config : ℕ → WorkerConfig ℕ
config restarts = record {
  worker_path = "worker";
  model_path = none;
  backend = "deterministic";
  timeout_seconds = 5;
  intra_op_threads = pos 0;
  max_batch_size = pos 64;
  max_frames = pos 2000;
  restart_attempts = pos restarts;
}

abbrev started : Backend
started = record initial { running = true }

restarted_run : (infer_batch world np (config 1) (3 ∷ []) started).0 ≡ ok ((5, 6 ∷ []) ∷ [])
unfolding infer_batch validate_features check_matrices attempts exchange start_process request
    request_payload request_header unavailable_text le_bytes
restarted_run = refl

infer_batch-IsTried_example :
    let out = infer_batch world np (config 1) (3 ∷ []) started in
    IsTried world 1 1 started out.1 out.0
infer_batch-IsTried_example = infer_batch-IsTried world np (config 1) 3 [] started refl
