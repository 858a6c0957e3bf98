-- ===== src/Tests/Batchers.antt =====
-- Runs of src/cuebee_speaker/inference/batcher.py.
use mathlib.Core.List.{Perm}
use cuebee_speaker_serving.Base.{
  ℕ, ◌<◌, ◌≡◌, refl, ◌≢◌, false, String, List, [], ◌∷◌, ◌++◌, map, none, some, arith, length,
}
use cuebee_speaker_serving.Base.Text.{codes}
use cuebee_speaker_serving.Base.Int.{ℤ, pos, ◌≤ℤ◌}
use cuebee_speaker_serving.Base.Dict.{get, set}
use cuebee_speaker_serving.Base.Keep.{tally, All}
use cuebee_speaker_serving.Base.Sort.{IsSorted, sorted}
use cuebee_speaker_serving.Config.{BatcherConfig, check_batcher, ascending}
use cuebee_speaker_serving.Domain.{ok}
use cuebee_speaker_serving.Batcher.{
  QueuedRequest, Batcher, collect, batch_of, left_in, earlier, select_ready_bucket, ready_buckets,
  least, flush_at, flush_times, next_wake_at, minimum, min_from,
}
use cuebee_speaker_serving.Batcher.Collect.{of_session}
use cuebee_speaker_serving.Batcher.Batch.{batch_of_bounds, batch_of-partition}
use cuebee_speaker_serving.Batcher.Left.{StaysFairly, batch_of-StaysFairly}
use cuebee_speaker_serving.Batcher.Select.{next_wake_at-selects}
use cuebee_speaker_serving.Tests.Floats.{milli, milli-IsOrdered}

abbrev pub small : BatcherConfig
small = record {
  max_batch_size = pos 3;
  max_wait_ms = pos 80;
  per_session_batch_limit = pos 2;
  bucket_boundaries_frames = pos 200 ∷ pos 400 ∷ [];
  default_deadline_ms = pos 250;
}

pub small_checked : check_batcher small ≡ ok tt
unfolding check_batcher ascending
small_checked = refl

abbrev pub request : String → ℕ → ℕ → ℕ → QueuedRequest ℤ ℕ
request session deadline arrival n = record {
  chunk = record {
    tenant_id = "t";
    session_id = session;
    chunk_id = codes "c";
    start_ms = pos 0;
    end_ms = pos 1500;
    features = 150;
    speech_ratio = pos 1000;
  };
  deadline_at = pos deadline;
  enqueued_at = pos arrival;
  ordinal = n;
}

abbrev pub busy : List (QueuedRequest ℤ ℕ)
busy =
    request "a" 500 100 0
    ∷ request "a" 400 110 1
    ∷ request "a" 450 120 2
    ∷ request "b" 900 130 3
    ∷ request "c" 950 140 4
    ∷ []

abbrev pub loaded : Batcher ℤ ℕ
loaded = record { config = small; queues = (0, busy) ∷ []; closing = false; ordinal = 5 }

-- The third request of session "a" waits, and the batch is full before session "c".
busy_batch : map (λ q. q.ordinal) (batch_of small busy) ≡ 1 ∷ 2 ∷ 3 ∷ []
unfolding batch_of collect sorted get set
busy_batch = refl

loaded_selects : select_ready_bucket loaded (pos 0) ≡ some 0
unfolding select_ready_bucket ready_buckets least flush_at minimum
loaded_selects = refl

abbrev quiet : Batcher ℤ ℕ
quiet = record loaded { queues = (0, request "a" 500 100 0 ∷ []) ∷ [] }

batch_of_bounds_example :
    (0 < length (batch_of small busy))
    × (pos (length (batch_of small busy)) ≤ℤ small.max_batch_size)
    × (pos (tally (of_session ("t", "a")) (batch_of small busy)) ≤ℤ small.per_session_batch_limit)
batch_of_bounds_example = batch_of_bounds small busy ("t", "a") small_checked (omega arith)

batch_of-partition_example : Perm (batch_of small busy ++ left_in (batch_of small busy) busy) busy
batch_of-partition_example = batch_of-partition small busy small_checked (omega arith)

batch_of-StaysFairly_example :
    IsSorted earlier (batch_of small busy) × All (StaysFairly small (batch_of small busy)) busy
batch_of-StaysFairly_example = batch_of-StaysFairly small busy milli-IsOrdered small_checked

-- Arrival at 0.1 s and a wait of 80 ms: the runner wakes at 0.18 s.
next_wake_at-selects_example : select_ready_bucket quiet (pos 180) ≢ none
unfolding next_wake_at flush_times flush_at minimum min_from
next_wake_at-selects_example = next_wake_at-selects quiet (pos 180) {t = pos 180} refl refl
