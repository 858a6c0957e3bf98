-- ===== src/Batcher.antt =====
-- src/cuebee_speaker/inference/batcher.py: the queues of the micro-batcher and the choice of a batch.
-- The condition's lock makes each of these steps one. An object's identity is its `ordinal`, which
-- `submit` never gives twice; the future of a request is not part of this state.
pub mod Collect
pub mod Batch
pub mod Left
pub mod Select
pub mod Run
pub mod Futures
mod Taken
mod Queues
pub mod Outcomes
pub mod Resolve
pub mod Drain
pub mod Close
mod Submitted
pub mod Reach
pub mod Asked
pub mod Runs
pub mod Answers
use cuebee_speaker_serving.Base.{
  ℕ, suc, ◌+◌, Bool, true, false, not, ◌&&◌, ◌||◌, String, List, [], ◌∷◌, ◌++◌, Option, none, some,
  map, arith, ltb, leb, length, if◌then◌else◌, ◌==◌,
}
use cuebee_speaker_serving.Base.Eq.{nat_eq, string_eq, pair_eq}
use cuebee_speaker_serving.Base.Int.{ℤ, pos, ltb_ℤ}
use cuebee_speaker_serving.Base.Dict.{Dict, get, set, pop, values}
use cuebee_speaker_serving.Base.Sort.{sorted}
use cuebee_speaker_serving.Base.Keep.{keep}
use cuebee_speaker_serving.Base.Float.{Float, min_float, max_float}
use cuebee_speaker_serving.Config.{BatcherConfig, not_positive}
use cuebee_speaker_serving.Domain.{
  FeatureChunk, Result, ok, raised, runtime_error, ◌>>=◌, ◌>>◌, refuse_if,
}

-- `_QueuedRequest`, with the fields of its `EmbeddingRequest`.
pub record QueuedRequest (R V : Type 0) : Type 0 where
  pub chunk : FeatureChunk R V
  pub deadline_at : R
  pub enqueued_at : R
  pub ordinal : ℕ

module _ {R V : Type 0} where
  abbrev pub or_empty : Option (List (QueuedRequest R V)) → List (QueuedRequest R V)
  or_empty none = []
  or_empty (some q) = q

  abbrev pub session_key : QueuedRequest R V → String × String
  session_key q = (q.chunk.tenant_id, q.chunk.session_id)

-- `CrossSessionMicroBatcher`
pub record Batcher (R V : Type 0) : Type 0 where
  pub config : BatcherConfig
  pub queues : Dict ℕ (List (QueuedRequest R V))
  pub closing : Bool
  pub ordinal : ℕ

-- `_bucket_for_frames`: the index of the first bound that the count does not exceed.
unfoldable pub bucket_from : ℕ → List ℤ → ℕ → ℕ
bucket_from index [] frame_count = index
bucket_from index (bound ∷ bounds) frame_count =
    if ltb_ℤ bound (pos frame_count) then bucket_from (suc index) bounds frame_count else index

abbrev pub bucket_for_frames : BatcherConfig → ℕ → ℕ
bucket_for_frames c frame_count = bucket_from 0 c.bucket_boundaries_frames frame_count

-- The delay, in milliseconds.
abbrev pub delay_ms : BatcherConfig → Option ℤ → ℤ
delay_ms c none = c.default_deadline_ms
delay_ms c (some n) = n

abbrev pub count_of : String × String → Dict (String × String) ℕ → ℕ
count_of k d = elim (get k d) [ none ↦ 0 | some n ↦ n ]

-- A tuple of the list `ready`: the earliest deadline, the flush time and the bucket.
pub record Ready (R : Type 0) : Type 0 where
  pub deadline : R
  pub flush : R
  pub bucket : ℕ

module _ {R : Type 0} ⦃float : Float R⦄ where
  open float use {lt, eq, div, decimal, of_int}

  abbrev or_zero : Option R → R
  or_zero none = decimal 0 0
  or_zero (some r) = r

  -- `n / 1_000.0`; the divisor is not zero.
  abbrev pub seconds : ℤ → R
  seconds n = or_zero (div (of_int n) (decimal 1000 0))

  -- The built-in `min` of numbers.
  unfoldable pub min_from : R → List R → R
  min_from t [] = t
  min_from t (u ∷ rest) = min_from (min_float t u) rest

  abbrev pub least_time : List R → Option R
  least_time [] = none
  least_time (t ∷ rest) = some (min_from t rest)

  -- `<` on such tuples.
  abbrev pub ready_lt : Ready R → Ready R → Bool
  ready_lt a b =
      if not (eq a.deadline b.deadline)
      then lt a.deadline b.deadline
      else if not (eq a.flush b.flush)
      then lt a.flush b.flush
      else ltb a.bucket b.bucket

  -- The built-in `min`: the first of the least.
  unfoldable pub least : Ready R → List (Ready R) → Ready R
  least best [] = best
  least best (r ∷ rest) = least (if ready_lt r best then r else best) rest

  abbrev choose : List (Ready R) → Option ℕ
  choose [] = none
  choose (r ∷ rest) = some (least r rest).bucket

module _ {R V : Type 0} ⦃float : Float R⦄ where
  open float use {lt, le, eq, add}

  -- `submit`, up to the wait for its future. `now` is the clock, `frames` the length of the features.
  unfoldable pub submit : Batcher R V → R → ℕ → FeatureChunk R V → Option ℤ → Result (Batcher R V)
  submit b now frames chunk deadline_ms = do
    refuse_closing b.closing
    refuse_if (not_positive (delay_ms b.config deadline_ms)) "deadline_ms must be positive"
    ok (record b {
      queues = set bucket (or_empty (get bucket b.queues) ++ request ∷ []) b.queues;
      ordinal = suc b.ordinal;
    })
    where
      refuse_closing : Bool → Result (Unit {0})
      refuse_closing true = raised (runtime_error "batcher is closing")
      refuse_closing false = ok tt

      bucket : ℕ
      bucket = bucket_for_frames b.config frames

      request : QueuedRequest R V
      request = record {
        chunk = chunk;
        deadline_at = add now (seconds (delay_ms b.config deadline_ms));
        enqueued_at = now;
        ordinal = b.ordinal;
      }

  -- `min(f(item) for item in queue)` over a queue with at least one item.
  unfoldable pub minimum :
      (QueuedRequest R V → R) → QueuedRequest R V → List (QueuedRequest R V) → R
  minimum f first [] = f first
  minimum f first (item ∷ rest) = min_float (f first) (minimum f item rest)

  abbrev pub earliest_deadline : QueuedRequest R V → List (QueuedRequest R V) → R
  earliest_deadline = minimum (λ item. item.deadline_at)

  -- `_flush_at`
  unfoldable pub flush_at : BatcherConfig → QueuedRequest R V → List (QueuedRequest R V) → R
  flush_at c first rest =
      min_float (add (minimum (λ item. item.enqueued_at) first rest) (seconds c.max_wait_ms))
        (earliest_deadline first rest)

  -- The guard of `_select_ready_bucket` for a queue that is not empty.
  abbrev pub is_ready : Batcher R V → R → QueuedRequest R V → List (QueuedRequest R V) → Bool
  is_ready b now first rest =
      b.closing
      || not (ltb_ℤ (pos (suc (length rest))) b.config.max_batch_size)
      || le (flush_at b.config first rest) now

  -- The loop that fills `ready`.
  unfoldable pub ready_buckets :
      Batcher R V → R → Dict ℕ (List (QueuedRequest R V)) → List (Ready R)
  ready_buckets b now [] = []
  ready_buckets b now ((bucket, []) ∷ rest) = ready_buckets b now rest
  ready_buckets b now ((bucket, first ∷ queue) ∷ rest) =
      if is_ready b now first queue
      then record {
        deadline = earliest_deadline first queue;
        flush = flush_at b.config first queue;
        bucket = bucket;
      }
        ∷ ready_buckets b now rest
      else ready_buckets b now rest

  -- `_select_ready_bucket`
  unfoldable pub select_ready_bucket : Batcher R V → R → Option ℕ
  select_ready_bucket b now = choose (ready_buckets b now b.queues)

  -- The values over which `_next_wake_at` takes its minimum.
  unfoldable pub flush_times : BatcherConfig → Dict ℕ (List (QueuedRequest R V)) → List R
  flush_times c [] = []
  flush_times c ((bucket, []) ∷ rest) = flush_times c rest
  flush_times c ((bucket, first ∷ queue) ∷ rest) = flush_at c first queue ∷ flush_times c rest

  -- `_next_wake_at`; `none` where `min` has no value and raises.
  unfoldable pub next_wake_at : Batcher R V → Option R
  next_wake_at b = least_time (flush_times b.config b.queues)

  -- `_has_pending`
  unfoldable pub has_pending : Dict ℕ (List (QueuedRequest R V)) → Bool
  has_pending [] = false
  has_pending ((bucket, []) ∷ rest) = has_pending rest
  has_pending ((bucket, item ∷ queue) ∷ rest) = true

  -- The key by which `_take_batch` sorts: deadline, time of arrival, ordinal.
  abbrev pub earlier : QueuedRequest R V → QueuedRequest R V → Bool
  earlier a b =
      if not (eq a.deadline_at b.deadline_at)
      then lt a.deadline_at b.deadline_at
      else if not (eq a.enqueued_at b.enqueued_at)
      then lt a.enqueued_at b.enqueued_at
      else ltb a.ordinal b.ordinal

  -- The loop of `_take_batch` over the sorted queue.
  unfoldable pub collect :
      BatcherConfig
      → List (QueuedRequest R V)
      → List (QueuedRequest R V)
      → Dict (String × String) ℕ
      → List (QueuedRequest R V)
  collect c [] selected per_session = selected
  collect c (item ∷ rest) selected per_session =
      let count = count_of (session_key item) per_session in
      let skipped = collect c rest selected per_session in
      let taken =
        collect c rest (selected ++ item ∷ []) (set (session_key item) (count + 1) per_session) in
      if not (ltb_ℤ (pos count) c.per_session_batch_limit)
      then skipped
      else if not (ltb_ℤ (pos (length (selected ++ item ∷ []))) c.max_batch_size)
      then selected ++ item ∷ []
      else taken

  -- `if not selected: selected.append(ordered[0])`
  abbrev or_first : List (QueuedRequest R V) → List (QueuedRequest R V) → List (QueuedRequest R V)
  or_first ordered (item ∷ selected) = item ∷ selected
  or_first [] [] = []
  or_first (first ∷ ordered) [] = first ∷ []

  -- The batch that `_take_batch` selects from a queue.
  unfoldable pub batch_of : BatcherConfig → List (QueuedRequest R V) → List (QueuedRequest R V)
  batch_of c queue = or_first (sorted earlier queue) (collect c (sorted earlier queue) [] [])

  -- `id(item) in selected_ids`
  unfoldable pub is_selected : List (QueuedRequest R V) → QueuedRequest R V → Bool
  is_selected [] item = false
  is_selected (s ∷ selected) item = (s.ordinal == item.ordinal) || is_selected selected item

  abbrev pub left_in :
      List (QueuedRequest R V) → List (QueuedRequest R V) → List (QueuedRequest R V)
  left_in selected queue = keep (λ item. not (is_selected selected item)) queue

  -- `self._queues[bucket] = queue`, and its deletion where it is empty.
  abbrev put_back :
      ℕ
      → List (QueuedRequest R V)
      → Dict ℕ (List (QueuedRequest R V))
      → Dict ℕ (List (QueuedRequest R V))
  put_back bucket [] queues = pop bucket queues
  put_back bucket (item ∷ rest) queues = set bucket (item ∷ rest) queues

  -- `_take_batch`; `none` where the bucket has no queue (KeyError).
  unfoldable pub take_batch : Batcher R V → ℕ → Option (Batcher R V × List (QueuedRequest R V))
  take_batch b bucket = elim (get bucket b.queues) [
    | none ↦ none
    | some queue ↦
        let selected = batch_of b.config queue in
        some (record b { queues = put_back bucket (left_in selected queue) b.queues }, selected)
  ]
