-- ===== src/Config.antt =====
-- src/cuebee_speaker/config.py: the configurations and the checks of their `__post_init__`.
use cuebee_speaker_serving.Base.{Bool, true, not, ◌&&◌, ◌||◌, String, Option, List, [], ◌∷◌}
use cuebee_speaker_serving.Base.Eq.{string_eq}
use cuebee_speaker_serving.Base.Int.{ℤ, pos, ltb_ℤ}
use cuebee_speaker_serving.Base.Float.{Float}
use cuebee_speaker_serving.Domain.{Result, ◌>>◌, refuse_if}

pub record AudioConfig (R : Type 0) : Type 0 where
  pub sample_rate : ℤ
  pub frame_ms : ℤ
  pub vad_threshold_dbfs : R
  pub min_speech_ratio : R
  pub window_ms : ℤ
  pub hop_ms : ℤ
  pub fbank_bins : ℤ
  pub fbank_frame_ms : ℤ
  pub fbank_hop_ms : ℤ

pub record BatcherConfig : Type 0 where
  pub max_batch_size : ℤ
  pub max_wait_ms : ℤ
  pub per_session_batch_limit : ℤ
  pub bucket_boundaries_frames : List ℤ
  pub default_deadline_ms : ℤ

pub record AssignmentConfig (R : Type 0) : Type 0 where
  pub cosine_threshold : R
  pub min_quality : R
  pub quality_ema_alpha : R
  pub max_centroid_weight : R

pub record AutoscalerConfig (R : Type 0) : Type 0 where
  pub min_replicas : ℤ
  pub max_replicas : ℤ
  pub target_utilization : R
  pub backlog_high_seconds : R
  pub backlog_low_seconds : R
  pub queue_high_ms : R
  pub cooldown_seconds : R
  pub scale_down_windows : ℤ

-- The fields behind the four nested configurations keep the source's names.
pub record AppConfig (R : Type 0) : Type 0 where
  pub audio : AudioConfig R
  pub batcher : BatcherConfig
  pub assignment : AssignmentConfig R
  pub autoscaler : AutoscalerConfig R
  pub model_path : Option String
  pub native_worker_path : Option String
  pub native_worker_backend : String
  pub native_worker_timeout_seconds : R
  pub native_worker_intra_op_threads : ℤ
  pub native_worker_restart_attempts : ℤ
  pub state_db_path : String

-- `native_worker_backend in {"auto", "deterministic", "onnx"}`
abbrev pub is_backend_name : String → Bool
is_backend_name s =
    string_eq.same s "auto" || string_eq.same s "deterministic" || string_eq.same s "onnx"

-- `n <= 0`
abbrev pub not_positive : ℤ → Bool
not_positive n = not (ltb_ℤ (pos 0) n)

-- `tuple(sorted(b)) == b`: no bound is followed by a smaller one.
unfoldable pub ascending : List ℤ → Bool
ascending [] = true
ascending (a ∷ []) = true
ascending (a ∷ b ∷ rest) = not (ltb_ℤ b a) && ascending (b ∷ rest)

-- `BatcherConfig.__post_init__`
unfoldable pub check_batcher : BatcherConfig → Result (Unit {0})
check_batcher c = do
  refuse_if (not_positive c.max_batch_size) "max_batch_size must be positive"
  refuse_if (not_positive c.max_wait_ms || not_positive c.default_deadline_ms)
      "wait and deadline values must be positive"
  refuse_if (not_positive c.per_session_batch_limit) "per_session_batch_limit must be positive"
  refuse_if (not (ascending c.bucket_boundaries_frames)) "bucket boundaries must be sorted"

module _ {R : Type 0} ⦃float : Float R⦄ where
  open float use {lt, le, decimal}

  -- `not a <= x <= b`
  abbrev pub outside : R → R → R → Bool
  outside a b x = not (le a x && le x b)

  -- `AudioConfig.__post_init__`
  unfoldable pub check_audio : AudioConfig R → Result (Unit {0})
  check_audio c = do
    refuse_if (not_positive c.sample_rate) "sample_rate must be positive"
    refuse_if (outside (decimal 0 0) (decimal 1 0) c.min_speech_ratio)
        "min_speech_ratio must be in [0, 1]"
    refuse_if (not_positive c.window_ms || not_positive c.hop_ms)
        "window_ms and hop_ms must be positive"
    refuse_if (ltb_ℤ c.window_ms c.hop_ms) "hop_ms cannot exceed window_ms"
    refuse_if (not_positive c.fbank_bins) "fbank_bins must be positive"

  -- `AssignmentConfig.__post_init__`; `minus_one` is the literal -1.0.
  unfoldable pub check_assignment : R → AssignmentConfig R → Result (Unit {0})
  check_assignment minus_one c = do
    refuse_if (outside minus_one (decimal 1 0) c.cosine_threshold)
        "cosine_threshold must be in [-1, 1]"
    refuse_if (outside (decimal 0 0) (decimal 1 0) c.min_quality) "min_quality must be in [0, 1]"
    refuse_if (not (lt (decimal 0 0) c.quality_ema_alpha && le c.quality_ema_alpha (decimal 1 0)))
        "quality_ema_alpha must be in (0, 1]"

  -- `AutoscalerConfig.__post_init__`
  unfoldable pub check_autoscaler : AutoscalerConfig R → Result (Unit {0})
  check_autoscaler c = do
    refuse_if (not_positive c.min_replicas || ltb_ℤ c.max_replicas c.min_replicas)
        "invalid replica bounds"
    refuse_if (not (lt (decimal 0 0) c.target_utilization && lt c.target_utilization (decimal 1 0)))
        "target_utilization must be in (0, 1)"
    refuse_if (not_positive c.scale_down_windows) "scale_down_windows must be positive"

  -- `AppConfig.__post_init__`
  unfoldable pub check_app : AppConfig R → Result (Unit {0})
  check_app c = do
    refuse_if (not (is_backend_name c.native_worker_backend))
        "native_worker_backend must be auto, deterministic, or onnx"
    refuse_if (le c.native_worker_timeout_seconds (decimal 0 0))
        "native_worker_timeout_seconds must be positive"
    refuse_if (ltb_ℤ c.native_worker_intra_op_threads (pos 0))
        "native_worker_intra_op_threads cannot be negative"
    refuse_if (ltb_ℤ c.native_worker_restart_attempts (pos 0))
        "native_worker_restart_attempts cannot be negative"
