-- ===== src/Tests/Runners.antt =====
-- Runs of the batcher's runner.
use cuebee_speaker_serving.Base.{
  String, ℕ, zero, suc, ◌≡◌, refl, true, false, arith, List, [], ◌∷◌, map, length, none,
}
use cuebee_speaker_serving.Base.Int.{ℤ, pos}
use cuebee_speaker_serving.Base.Eq.{nat_eq}
use cuebee_speaker_serving.Base.Dict.{get, set, pop}
use cuebee_speaker_serving.Domain.{FeatureChunk, EmbeddingResult, Result, ok, raised, os_error}
use cuebee_speaker_serving.Batcher.{
  QueuedRequest, Batcher, submit, bucket_from, take_batch, batch_of, collect, select_ready_bucket,
  ready_buckets, least, flush_at, minimum, has_pending, is_selected,
}
use cuebee_speaker_serving.Base.Sort.{sorted, insert}
use cuebee_speaker_serving.Batcher.Run.{
  Future, pending, cancelled, Round, Runner, Inferred, put, close, execute, run, run_step, fail_all,
  resolve_from,
}
use cuebee_speaker_serving.Batcher.Close.{IsClosed, close-IsClosed}
use cuebee_speaker_serving.Batcher.Outcomes.{AtEach}
use cuebee_speaker_serving.Batcher.Resolve.{HasOutcome, execute-HasOutcome}
use cuebee_speaker_serving.Batcher.Reach.{new_batcher, Reachable, moves}
use cuebee_speaker_serving.Batcher.Reach
use cuebee_speaker_serving.Batcher.Asked.{Asked, asked_also}
use cuebee_speaker_serving.Batcher.Runs.{Runs, starts, submits, takes, executes}
use cuebee_speaker_serving.Batcher.Answers.{Gathers, ends, gets, gathered-chunks}
use cuebee_speaker_serving.Tests.Floats.{milli}
use cuebee_speaker_serving.Tests.Batchers.{small, small_checked, request, busy, loaded}

abbrev rows : List ℕ → Result (Inferred ℤ ℕ)
rows features = ok (record {
  embedding_shape = length features ∷ 192 ∷ [];
  embedding = λ i. i;
  quality_shape = length features ∷ [];
  quality = λ i. pos 1500;
})

abbrev round : Round ℤ ℕ
round = record {
  now = pos 1000;
  woken_at = pos 1000;
  started_at = pos 1001;
  completed_at = pos 1011;
  infer_batch = rows;
}

-- The future of the second request was cancelled.
abbrev futures_of : ℕ → Future ℤ ℕ
futures_of (suc zero) = cancelled
futures_of n = pending

abbrev serving : Runner ℤ ℕ
serving = record {
  batcher = loaded;
  worker_id = "worker-local";
  embedding_dimension = 192;
  has_observer = true;
  started = true;
  futures = futures_of;
  executed = [];
  observed = [];
  has_close = true;
  backend_closed = false;
  backend_closes = 0;
}

execute-HasOutcome_example :
    AtEach
      (HasOutcome serving 5
        (rows (map (λ item. item.chunk.features) busy))
        (execute serving round 0 busy).futures)
      0
      busy
execute-HasOutcome_example =
    execute-HasOutcome serving round 0 busy (omega arith) (tt, (tt, (tt, (tt, (tt, tt)))))

closed_batches :
    map (map (λ item. item.ordinal)) (close 6 (λ n. round) (ok tt) serving).1.executed
    ≡ (0 ∷ 4 ∷ []) ∷ (1 ∷ 2 ∷ 3 ∷ []) ∷ []
unfolding close run run_step execute has_pending select_ready_bucket ready_buckets least flush_at
    minimum take_batch batch_of collect sorted get set pop is_selected resolve_from fail_all
closed_batches = refl

-- Two submissions.
abbrev twice : Batcher ℤ ℕ
twice = record {
  config = small;
  queues = (0, request "a" 350 100 0 ∷ request "b" 360 110 1 ∷ []) ∷ [];
  closing = false;
  ordinal = 2;
}

twice-Reachable : Reachable small twice
unfolding submit bucket_from get set
twice-Reachable =
    moves (moves Reach.starts (Reach.submits (pos 100) 150 (request "a" 350 100 0).chunk none refl))
      (Reach.submits (pos 110) 150 (request "b" 360 110 1).chunk none refl)

-- The backend's `close` raises.
abbrev lost_close : Result (Unit {0})
lost_close = raised (os_error "broken pipe")

close-IsClosed_example :
    IsClosed
      (record serving { batcher = twice })
      lost_close
      (close 3 (λ n. round) lost_close (record serving { batcher = twice }))
close-IsClosed_example =
    close-IsClosed 3 (λ n. round) lost_close (record serving { batcher = twice }) small
      small_checked twice-Reachable refl (omega arith)

abbrev chunk_of : String → FeatureChunk ℤ ℕ
chunk_of session = (request session 0 0 0).chunk

abbrev fresh : Runner ℤ ℕ
fresh = record serving { batcher = new_batcher small; futures = λ n. pending }

-- Two submissions, the batch that is taken, and the answer of the backend.
abbrev asked_twice : Asked ℤ ℕ
asked_twice = asked_also 1 (chunk_of "b") (asked_also 0 (chunk_of "a") (λ k. none))

abbrev submitted_twice : Runner ℤ ℕ
submitted_twice = record serving {
  batcher = twice;
  futures = put 1 pending (put 0 pending (λ n. pending));
}

abbrev waiting_twice : List (QueuedRequest ℤ ℕ)
waiting_twice = request "a" 350 100 0 ∷ request "b" 360 110 1 ∷ []

abbrev taken_twice : Runner ℤ ℕ
taken_twice = record submitted_twice { batcher = record twice { queues = [] } }

abbrev answered_twice : Runner ℤ ℕ
answered_twice = execute taken_twice round 0 waiting_twice

answered-Runs : Runs small asked_twice answered_twice []
unfolding submit bucket_from get set take_batch batch_of collect sorted insert is_selected pop
answered-Runs = executes round 0 (
    takes 0
      (submits (pos 110) 150 (chunk_of "b") none
        (submits (pos 100) 150 (chunk_of "a") none (starts {s = fresh} (refl, (λ k. refl))) refl)
        refl)
      refl)

abbrev result_of : ℕ → String → ℕ → EmbeddingResult ℤ ℕ
result_of index session queue_delay_ms = record {
  chunk = chunk_of session;
  embedding = index;
  quality = pos 1000;
  worker_id = "worker-local";
  batch_size = 2;
  queue_delay_ms = pos queue_delay_ms;
  inference_ms = pos 10_000;
}

answered-Gathers :
    Gathers answered_twice.futures
      (0 ∷ 1 ∷ [])
      (ok (result_of 0 "a" 901_000 ∷ result_of 1 "b" 891_000 ∷ []))
unfolding execute resolve_from
answered-Gathers = gets refl (gets refl ends)

gathered-chunks_example : chunk_of "a" ∷ chunk_of "b" ∷ [] ≡ chunk_of "a" ∷ chunk_of "b" ∷ []
gathered-chunks_example =
    gathered-chunks small asked_twice answered_twice [] (0 ∷ 1 ∷ [])
      (chunk_of "a" ∷ chunk_of "b" ∷ []) (result_of 0 "a" 901_000 ∷ result_of 1 "b" 891_000 ∷ [])
      small_checked answered-Runs (refl, (refl, tt)) answered-Gathers
