-- ===== src/Autoscaler.antt =====
-- src/cuebee_speaker/autoscaler.py: the recommendation of a replica count. All exceptions of
-- `recommend` come before its first assignment, so a failed call leaves the state as it was.
pub mod Decision
pub mod History
pub mod Hysteresis
use cuebee_speaker_serving.Base.{
  ℕ, suc, ◌+◌, Bool, true, false, not, ◌&&◌, ◌||◌, List, [], ◌∷◌, ◌++◌, Option, none, some, arith,
  ltb, leb, if◌then◌else◌,
}
use cuebee_speaker_serving.Base.Int.{ℤ, pos, ltb_ℤ, ◌+ℤ◌, ◌-ℤ◌, max_ℤ, min_ℤ}
use cuebee_speaker_serving.Base.Float.{Float}
use cuebee_speaker_serving.Config.{AutoscalerConfig, not_positive, outside}
use cuebee_speaker_serving.Domain.{
  Result, ok, raised, Error, value_error, overflow_error, zero_division, ◌>>=◌, ◌>>◌, refuse_if,
}

pub record ScalingSample (R : Type 0) : Type 0 where
  pub audio_arrival_seconds_per_second : R
  pub real_time_factor : R
  pub backlog_seconds : R
  pub queue_p95_ms : R
  pub worker_utilization : R
  pub current_replicas : ℤ
  pub observed_at : R

pub data Action : Type 0 where
  scale_up scale_down hold : Action

pub data Reason : Type 0 where
  audio_capacity backlog_high queue_p95_high cooldown sustained_low_load scale_down_hysteresis :
      Reason

pub record ScalingDecision : Type 0 where
  pub current_replicas : ℤ
  pub desired_replicas : ℤ
  pub raw_capacity_replicas : ℤ
  pub action : Action
  pub reasons : List Reason

-- `AudioBacklogAutoscaler`
pub record Autoscaler (R : Type 0) : Type 0 where
  pub config : AutoscalerConfig R
  pub last_action_at : R
  pub low_windows : ℕ

-- The value, or this exception where there is none.
abbrev or_raise {ℓ} : {A : Type ℓ} → Error → Option A → Result A
or_raise e none = raised e
or_raise e (some a) = ok a

module _ {R : Type 0} ⦃float : Float R⦄ where
  open float use {lt, le, eq, sub, mul, div, decimal, neg_inf, ceil}

  -- `AudioBacklogAutoscaler.__init__`
  unfoldable pub init : AutoscalerConfig R → Autoscaler R
  init config = record { config = config; last_action_at = neg_inf; low_windows = 0 }

  -- `_clamp`
  abbrev pub clamp : AutoscalerConfig R → ℤ → ℤ
  clamp c replicas = min_ℤ c.max_replicas (max_ℤ c.min_replicas replicas)

  -- `_validate`
  unfoldable pub validate : ScalingSample R → Result (Unit {0})
  validate s = do
    refuse_if (lt s.audio_arrival_seconds_per_second (decimal 0 0))
        "audio arrival rate cannot be negative"
    refuse_if (le s.real_time_factor (decimal 0 0)) "real_time_factor must be positive"
    refuse_if (lt s.backlog_seconds (decimal 0 0) || lt s.queue_p95_ms (decimal 0 0))
        "backlog and queue delay cannot be negative"
    refuse_if (outside (decimal 0 0) (decimal 1 0) s.worker_utilization)
        "worker_utilization must be in [0, 1]"
    refuse_if (not_positive s.current_replicas) "current_replicas must be positive"

  -- What `math.ceil` raises on NaN, which is not equal to itself, and on an infinity.
  abbrev no_integer : R → Error
  no_integer q =
      if eq q q
      then overflow_error "cannot convert float infinity to integer"
      else value_error "cannot convert float NaN to integer"

  -- `math.ceil(a / b)`
  abbrev ceil_div : R → R → Result ℤ
  ceil_div a b = do
    q ← or_raise (zero_division "float division by zero") (div a b)
    or_raise (no_integer q) (ceil q)

  -- The first assignment to `raw`, clamped.
  unfoldable pub raw_capacity : AutoscalerConfig R → ScalingSample R → Result ℤ
  raw_capacity c s = do
    n ← ceil_div (mul s.audio_arrival_seconds_per_second s.real_time_factor) c.target_utilization
    ok (clamp c n)

  -- The branch on the backlog: `desired` and `reasons` after it.
  unfoldable pub with_backlog : AutoscalerConfig R → ScalingSample R → ℤ → Result (ℤ × List Reason)
  with_backlog c s raw =
      if le c.backlog_high_seconds s.backlog_seconds
      then (do
        n ← ceil_div s.backlog_seconds c.backlog_high_seconds
        ok (max_ℤ raw (s.current_replicas +ℤ max_ℤ (pos 1) n), audio_capacity ∷ backlog_high ∷ []))
      else ok (raw, audio_capacity ∷ [])

  -- The branch on the queue, and the clamp behind it.
  unfoldable pub with_queue :
      AutoscalerConfig R → ScalingSample R → ℤ × List Reason → ℤ × List Reason
  with_queue c s (desired, reasons) =
      if le c.queue_high_ms s.queue_p95_ms
      then (clamp c (max_ℤ desired (s.current_replicas +ℤ pos 1)), reasons ++ queue_p95_high ∷ [])
      else (clamp c desired, reasons)

  unfoldable pub is_low_load : AutoscalerConfig R → ScalingSample R → ℤ → Bool
  is_low_load c s desired =
      ltb_ℤ desired s.current_replicas
      && le s.backlog_seconds c.backlog_low_seconds
      && lt s.queue_p95_ms (mul c.queue_high_ms (decimal 5 1))
      && lt s.worker_utilization (mul c.target_utilization (decimal 65 2))

  abbrev holding : ScalingSample R → ℤ → List Reason → ScalingDecision
  holding s raw reasons = record {
    current_replicas = s.current_replicas;
    desired_replicas = s.current_replicas;
    raw_capacity_replicas = raw;
    action = hold;
    reasons = reasons;
  }

  abbrev scaling : ScalingSample R → ℤ → ℤ → Action → List Reason → ScalingDecision
  scaling s raw target action reasons = record {
    current_replicas = s.current_replicas;
    desired_replicas = target;
    raw_capacity_replicas = raw;
    action = action;
    reasons = reasons;
  }

  -- `cooldown_elapsed`
  abbrev pub cooled : Autoscaler R → R → Bool
  cooled a now = le a.config.cooldown_seconds (sub now a.last_action_at)

  -- `desired > sample.current_replicas`
  unfoldable pub grow :
      Autoscaler R → R → ScalingSample R → ℤ → ℤ × List Reason → Autoscaler R × ScalingDecision
  grow a now s raw (desired, reasons) =
      if cooled a now
      then (
        record a { last_action_at = now; low_windows = 0 },
        scaling s raw desired scale_up reasons,
      )
      else (record a { low_windows = 0 }, holding s raw (reasons ++ cooldown ∷ []))

  -- The new value of `_low_windows`, before a scale-down resets it.
  abbrev pub counted : Autoscaler R → ScalingSample R → ℤ → ℕ
  counted a s desired = if is_low_load a.config s desired then suc a.low_windows else 0

  -- The guard of the scale-down.
  abbrev pub due : Autoscaler R → R → ScalingSample R → ℤ → Bool
  due a now s desired =
      is_low_load a.config s desired
      && not (ltb_ℤ (pos (counted a s desired)) a.config.scale_down_windows)
      && cooled a now

  -- The rest of `recommend`, where the count need not grow.
  unfoldable pub shrink :
      Autoscaler R → R → ScalingSample R → ℤ → ℤ × List Reason → Autoscaler R × ScalingDecision
  shrink a now s raw (desired, reasons) =
      let target = clamp a.config (max_ℤ desired (s.current_replicas -ℤ pos 1)) in
      if due a now s desired
      then (
        record a { last_action_at = now; low_windows = 0 },
        scaling s raw target scale_down (sustained_low_load ∷ []),
      )
      else (
        record a { low_windows = counted a s desired },
        holding s raw (
            if is_low_load a.config s desired
            then reasons ++ scale_down_hysteresis ∷ []
            else reasons),
      )

  unfoldable pub decide :
      Autoscaler R → R → ScalingSample R → ℤ → ℤ × List Reason → Autoscaler R × ScalingDecision
  decide a now s raw wanted =
      if ltb_ℤ s.current_replicas wanted.0
      then grow a now s raw wanted
      else shrink a now s raw wanted

  -- `sample.observed_at or time.monotonic()`
  abbrev pub observed : R → ScalingSample R → R
  observed monotonic s = if eq s.observed_at (decimal 0 0) then monotonic else s.observed_at

  -- The capacity, and the count with its reasons, that a sample asks for.
  unfoldable pub demand : AutoscalerConfig R → ScalingSample R → Result (ℤ × (ℤ × List Reason))
  demand c s = do
    validate s
    raw ← raw_capacity c s
    wanted ← with_backlog c s raw
    ok (raw, with_queue c s wanted)

  -- `recommend`, with the reading of `time.monotonic()`
  unfoldable pub recommend :
      Autoscaler R → R → ScalingSample R → Result (Autoscaler R × ScalingDecision)
  recommend a monotonic s = do
    (raw, wanted) ← demand a.config s
    ok (decide a (observed monotonic s) s raw wanted)
