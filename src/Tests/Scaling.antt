-- ===== src/Tests/Scaling.antt =====
-- Runs of src/cuebee_speaker/autoscaler.py.
use cuebee_speaker_serving.Base.{ℕ, ◌≡◌, refl, List, [], ◌∷◌, arith}
use cuebee_speaker_serving.Base.Int.{ℤ, pos, negsuc, ◌≤ℤ◌, ◌+ℤ◌, ◌-ℤ◌}
use cuebee_speaker_serving.Config.{AutoscalerConfig}
use cuebee_speaker_serving.Domain.{ok}
use cuebee_speaker_serving.Autoscaler.{
  ScalingSample, scale_up, scale_down, Autoscaler, ScalingDecision, init, validate, raw_capacity,
  with_backlog, with_queue, is_low_load, grow, shrink, decide, demand, recommend,
  sustained_low_load, audio_capacity, backlog_high, queue_p95_high,
}
use cuebee_speaker_serving.Autoscaler.Decision.{Moves, recommend-Moves}
use cuebee_speaker_serving.Autoscaler.History.{
  next, action_time, action_times, IsSpaced, action_times-IsSpaced,
}
use cuebee_speaker_serving.Autoscaler.Hysteresis.{start, low_run, scale_down-sustained}
use cuebee_speaker_serving.Tests.Floats.{milli}

abbrev pub settings : AutoscalerConfig ℤ
settings = record {
  min_replicas = pos 2;
  max_replicas = pos 32;
  target_utilization = pos 700;
  backlog_high_seconds = pos 8_000;
  backlog_low_seconds = pos 1_000;
  queue_high_ms = pos 120_000;
  cooldown_seconds = pos 30_000;
  scale_down_windows = pos 1;
}

abbrev idle : ℕ → ScalingSample ℤ
idle at = record {
  audio_arrival_seconds_per_second = pos 1_000;
  real_time_factor = pos 100;
  backlog_seconds = pos 0;
  queue_p95_ms = pos 5_000;
  worker_utilization = pos 100;
  current_replicas = pos 6;
  observed_at = pos at;
}

abbrev flooded : ℕ → ScalingSample ℤ
flooded at = record (idle at) { backlog_seconds = pos 20_000; queue_p95_ms = pos 300_000 }

program : Unit {0}
unfolding recommend demand validate raw_capacity with_backlog with_queue is_low_load grow shrink
    decide init ◌+ℤ◌ ◌-ℤ◌
program = tt

abbrev fresh : Autoscaler ℤ
unfolding program
fresh = init settings

abbrev shrunk : Autoscaler ℤ
shrunk = record { config = settings; last_action_at = pos 5_000; low_windows = 0 }

abbrev five : ScalingDecision
five = record {
  current_replicas = pos 6;
  desired_replicas = pos 5;
  raw_capacity_replicas = pos 2;
  action = scale_down;
  reasons = sustained_low_load ∷ [];
}

idle_shrinks : recommend (init settings) (pos 0) (idle 5_000) ≡ ok (shrunk, five)
unfolding program
idle_shrinks = refl

abbrev nine : ScalingDecision
nine = record {
  current_replicas = pos 6;
  desired_replicas = pos 9;
  raw_capacity_replicas = pos 2;
  action = scale_up;
  reasons = audio_capacity ∷ backlog_high ∷ queue_p95_high ∷ [];
}

flood_grows :
    recommend (init settings) (pos 0) (flooded 5_000) ≡ ok (record shrunk { low_windows = 0 }, nine)
unfolding program
flood_grows = refl

recommend-Moves_example : Moves settings nine scale_up
unfolding init
recommend-Moves_example =
    recommend-Moves (init settings) (pos 0) (flooded 5_000) (omega arith) flood_grows

abbrev calls : List (ℤ × ScalingSample ℤ)
calls = (pos 0, idle 5_000) ∷ (pos 0, flooded 10_000) ∷ (pos 0, flooded 36_000) ∷ []

-- The flood at 10 s falls into the cooldown.
calls_act : action_times (init settings) calls ≡ pos 5_000 ∷ pos 36_000 ∷ []
unfolding program action_times action_time next
calls_act = refl

action_times-IsSpaced_example :
    IsSpaced (pos 30_000) (negsuc 1_000_000_000) (action_times (init settings) calls)
unfolding init
action_times-IsSpaced_example = action_times-IsSpaced (init settings) calls

scale_down-sustained_example : pos 1 ≤ℤ pos (low_run settings (idle 5_000 ∷ []))
scale_down-sustained_example =
    scale_down-sustained settings [] (init settings) (pos 0) (idle 5_000) start idle_shrinks refl
