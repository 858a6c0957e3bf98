-- ===== src/Batcher/Run.antt =====
-- src/cuebee_speaker/inference/batcher.py: the runner, which takes batches and executes them, and
-- `close`. The clock, the backend and the cancelling of futures are the environment.
use cuebee_speaker_serving.Base.{
  ℕ, zero, suc, Bool, true, false, ◌&&◌, String, List, [], ◌∷◌, ◌++◌, Option, none, some, map,
  length, if◌then◌else◌, ◌==◌,
}
use cuebee_speaker_serving.Base.Eq.{nat_eq, text_same}
use cuebee_speaker_serving.Base.Int.{◌-ℤ◌}
use cuebee_speaker_serving.Base.Dict.{Dict}
use cuebee_speaker_serving.Base.Float.{Float, max_float}
use cuebee_speaker_serving.Domain.{
  FeatureChunk, EmbeddingResult, Error, Result, ok, raised, value_error, invalid_state, key_error,
}
use cuebee_speaker_serving.Batcher.{
  QueuedRequest, Batcher, seconds, has_pending, select_ready_bucket, next_wake_at, take_batch,
}

-- The state of an `asyncio.Future`.
pub data Future (R V : Type 0) : Type 0 where
  pending cancelled : Future R V
  resolved : EmbeddingResult R V → Future R V
  failed : Error → Future R V

-- `BatchObservation`
pub record BatchObservation (R : Type 0) : Type 0 where
  pub bucket : ℕ
  pub batch_size : ℕ
  pub audio_seconds : R
  pub oldest_queue_delay_ms : R
  pub inference_ms : R

-- The two arrays that a backend returns: their shapes and their elements.
pub record Inferred (R V : Type 0) : Type 0 where
  pub embedding_shape : List ℕ
  pub embedding : ℕ → V
  pub quality_shape : List ℕ
  pub quality : ℕ → R

-- What the environment gives in one round of the runner: the clock at each of its readings, and the
-- answer of the backend.
pub record Round (R V : Type 0) : Type 0 where
  pub now : R
  pub woken_at : R
  pub started_at : R
  pub completed_at : R
  pub infer_batch : List V → Result (Inferred R V)

-- The batcher with what its constructor was given, its futures by the ordinals of their requests, and
-- its other variables. `executed` holds the batches that the backend was given, `observed` the calls
-- of the observer, the last one first; `has_close` is whether the backend has a `close` that can be
-- called, and `backend_closes` counts the calls of it.
pub record Runner (R V : Type 0) : Type 0 where
  pub batcher : Batcher R V
  pub worker_id : String
  pub embedding_dimension : ℕ
  pub has_observer : Bool
  pub started : Bool
  pub futures : ℕ → Future R V
  pub executed : List (List (QueuedRequest R V))
  pub observed : List (BatchObservation R)
  pub has_close : Bool
  pub backend_closed : Bool
  pub backend_closes : ℕ

-- What `_run` does next, once it holds the lock.
pub data Step (R V : Type 0) : Type 0 where
  waits ends : Step R V
  sleeps : R → Step R V
  executes : Batcher R V → ℕ → List (QueuedRequest R V) → Step R V
  fails : Error → Step R V

module _ {R V : Type 0} where
  -- `[item for queue in queues.values() for item in queue]`
  abbrev pub items_of : Dict ℕ (List (QueuedRequest R V)) → List (QueuedRequest R V)
  items_of [] = []
  items_of ((bucket, queue) ∷ queues) = queue ++ items_of queues

  abbrev pub put : ℕ → Future R V → (ℕ → Future R V) → ℕ → Future R V
  put k future futures j = if k == j then future else futures j

  -- `set_exception` on the futures that are not done.
  unfoldable pub fail_all : Error → List (QueuedRequest R V) → (ℕ → Future R V) → ℕ → Future R V
  fail_all e [] futures = futures
  fail_all e (item ∷ rest) futures = elim (futures item.ordinal) [
    | pending ↦ fail_all e rest (put item.ordinal (failed e) futures)
    | cancelled ↦ fail_all e rest futures
    | resolved r ↦ fail_all e rest futures
    | failed d ↦ fail_all e rest futures
  ]

  -- The exception of a `try` goes to the futures.
  abbrev pub recovered :
      List (QueuedRequest R V) → Result (Unit {0}) × (ℕ → Future R V) → ℕ → Future R V
  recovered batch (raised e, futures) = fail_all e batch futures
  recovered batch (ok u, futures) = futures

module _ {R : Type 0} ⦃float : Float R⦄ where
  open float use {lt, sub, mul, decimal}

  -- `(end - start) * 1_000.0`
  abbrev pub milliseconds : R → R → R
  milliseconds start end = mul (sub end start) (decimal 1000 0)

  -- `np.clip(x, 0.0, 1.0)`
  abbrev pub clip : R → R
  clip x = if lt x (decimal 0 0) then decimal 0 0 else if lt (decimal 1 0) x then decimal 1 0 else x

module _ {R V : Type 0} ⦃float : Float R⦄ where
  open float use {add, sub, decimal}

  -- `audio_seconds` of a chunk
  abbrev pub audio_seconds : FeatureChunk R V → R
  audio_seconds chunk = max_float (decimal 0 0) (seconds (chunk.end_ms -ℤ chunk.start_ms))

  unfoldable pub sum_seconds : R → List (QueuedRequest R V) → R
  sum_seconds total [] = total
  sum_seconds total (item ∷ rest) = sum_seconds (add total (audio_seconds item.chunk)) rest

  -- `max` of the queue delays
  unfoldable pub oldest_delay : Round R V → R → List (QueuedRequest R V) → R
  oldest_delay round best [] = best
  oldest_delay round best (item ∷ rest) =
      oldest_delay round (max_float best (milliseconds item.enqueued_at round.started_at)) rest

  -- `backlog`
  unfoldable pub backlog : Batcher R V → ℕ × R
  backlog b = (length (items_of b.queues), sum_seconds (decimal 0 0) (items_of b.queues))

  -- The `EmbeddingResult` of the request at this index of the batch.
  abbrev pub result_at :
      Runner R V → Round R V → Inferred R V → ℕ → ℕ → QueuedRequest R V → EmbeddingResult R V
  result_at s round answer size index item = record {
    chunk = item.chunk;
    embedding = answer.embedding index;
    quality = clip (answer.quality index);
    worker_id = s.worker_id;
    batch_size = size;
    queue_delay_ms = milliseconds item.enqueued_at round.started_at;
    inference_ms = milliseconds round.started_at round.completed_at;
  }

  -- The loop of `set_result`, from an index on. On a future that is done, but not cancelled,
  -- `set_result` raises.
  unfoldable pub resolve_from :
      (ℕ → QueuedRequest R V → EmbeddingResult R V)
      → ℕ
      → List (QueuedRequest R V)
      → (ℕ → Future R V)
      → Result (Unit {0}) × (ℕ → Future R V)
  resolve_from result index [] futures = (ok tt, futures)
  resolve_from result index (item ∷ rest) futures = elim (futures item.ordinal) [
    | pending ↦
        resolve_from result (suc index) rest
          (put item.ordinal (resolved (result index item)) futures)
    | cancelled ↦ resolve_from result (suc index) rest futures
    | resolved r ↦ (raised (invalid_state "invalid state"), futures)
    | failed e ↦ (raised (invalid_state "invalid state"), futures)
  ]

  abbrev pub valid_shapes : ℕ → ℕ → Inferred R V → Bool
  valid_shapes size dimension answer =
      text_same answer.embedding_shape (size ∷ dimension ∷ [])
      && text_same answer.quality_shape (size ∷ [])

  -- The futures behind the backend's answer: the body of the `try`, without the observer.
  abbrev pub answered :
      Runner R V
      → Round R V
      → List (QueuedRequest R V)
      → Result (Inferred R V)
      → Result (Unit {0}) × (ℕ → Future R V)
  answered s round batch (raised e) = (raised e, s.futures)
  answered s round batch (ok answer) =
      if valid_shapes (length batch) s.embedding_dimension answer
      then resolve_from (result_at s round answer (length batch)) 0 batch s.futures
      else (raised (value_error "backend returned invalid shapes"), s.futures)

  -- `BatchObservation`, of a batch with a first request.
  abbrev pub observation :
      Round R V → ℕ → QueuedRequest R V → List (QueuedRequest R V) → BatchObservation R
  observation round bucket first rest = record {
    bucket = bucket;
    batch_size = length (first ∷ rest);
    audio_seconds = sum_seconds (decimal 0 0) (first ∷ rest);
    oldest_queue_delay_ms =
        oldest_delay round (milliseconds first.enqueued_at round.started_at) rest;
    inference_ms = milliseconds round.started_at round.completed_at;
  }

  -- The call of the observer; what it raises is dropped. The `max` of no delays raises before it.
  abbrev pub observe :
      Bool
      → Round R V
      → ℕ
      → List (QueuedRequest R V)
      → Result (Unit {0})
      → List (BatchObservation R)
      → List (BatchObservation R)
  observe false round bucket batch r observed = observed
  observe true round bucket [] r observed = observed
  observe true round bucket (first ∷ rest) (raised e) observed = observed
  observe true round bucket (first ∷ rest) (ok u) observed =
      observation round bucket first rest ∷ observed

  -- `_execute`
  unfoldable pub execute : Runner R V → Round R V → ℕ → List (QueuedRequest R V) → Runner R V
  execute s round bucket batch =
      let out =
        answered s round batch (round.infer_batch (map (λ item. item.chunk.features) batch)) in
      record s {
        futures = recovered batch out;
        executed = batch ∷ s.executed;
        observed = observe s.has_observer round bucket batch out.0 s.observed;
      }

  -- `None` where no bucket is ready: the wait until the time of the next wake-up.
  abbrev pub slept : R → Option R → Step R V
  slept woken_at none = fails (value_error "min() arg is an empty sequence")
  slept woken_at (some wake_at) = sleeps (max_float (decimal 0 0) (sub wake_at woken_at))

  abbrev pub taken : ℕ → Option (Batcher R V × List (QueuedRequest R V)) → Step R V
  taken bucket none = fails (key_error "bucket")
  taken bucket (some (b, batch)) = executes b bucket batch

  abbrev pub selected : Batcher R V → Round R V → Option ℕ → Step R V
  selected b round none = slept round.woken_at (next_wake_at b)
  selected b round (some bucket) = taken bucket (take_batch b bucket)

  -- The part of the loop of `_run` that holds the lock.
  unfoldable pub run_step : Batcher R V → Round R V → Step R V
  run_step b round =
      if has_pending b.queues
      then selected b round (select_ready_bucket b round.now)
      else if b.closing
      then ends
      else waits

  -- The rounds of the loop of `_run` while it has batches to execute; whether it has returned.
  unfoldable pub run : ℕ → (ℕ → Round R V) → Runner R V → Bool × Runner R V
  run zero rounds s = (false, s)
  run (suc n) rounds s = elim (run_step s.batcher (rounds n)) [
    | waits ↦ (false, s)
    | ends ↦ (true, s)
    | sleeps time ↦ (false, s)
    | executes b bucket batch ↦
        run n rounds (execute (record s { batcher = b }) (rounds n) bucket batch)
    | fails e ↦ (false, s)
  ]

  -- The backend's `close`, which gives or raises `told`.
  abbrev told_to_close : Result (Unit {0}) → Runner R V → Result (Unit {0}) × Runner R V
  told_to_close (raised e) s = (raised e, s)
  told_to_close (ok u) s = (ok tt, record s { backend_closed = true })

  -- The end of `close`: the backend is closed once, if it has a `close` to call.
  abbrev pub close_backend : Result (Unit {0}) → Runner R V → Result (Unit {0}) × Runner R V
  close_backend told s =
      if s.backend_closed
      then (ok tt, s)
      else if s.has_close
      then told_to_close told (record s { backend_closes = suc s.backend_closes })
      else (ok tt, record s { backend_closed = true })

  -- `await self._runner`, where there is one; whether the runner has returned.
  abbrev pub runner_awaited : ℕ → (ℕ → Round R V) → Runner R V → Bool × Runner R V
  runner_awaited n rounds s = if s.started then run n rounds s else (true, s)

  -- What `close` returns or raises, and `none` where the runner has not returned.
  abbrev pub close_after :
      Result (Unit {0}) → Bool × Runner R V → Option (Result (Unit {0})) × Runner R V
  close_after told (false, s) = (none, s)
  close_after told (true, s) =
      let (r, s') = close_backend told (record s { started = false }) in (some r, s')

  -- `close`: it sets the flag and waits for the runner, when there is one.
  unfoldable pub close :
      ℕ → (ℕ → Round R V) → Result (Unit {0}) → Runner R V → Option (Result (Unit {0})) × Runner R V
  close n rounds told s =
      close_after told
        (runner_awaited n rounds (record s { batcher = record s.batcher { closing = true } }))
