-- ===== src/Worker/Request.antt =====
-- The arguments of the client, and the request that it writes.
use cuebee_speaker_serving.Base.{
  ℕ, ◌+◌, Bool, true, not, ◌&&◌, ◌||◌, String, List, [], ◌∷◌, ◌++◌, Option, none, some, length,
  if◌then◌else◌, ◌==◌,
}
use cuebee_speaker_serving.Base.Eq.{string_eq}
use cuebee_speaker_serving.Base.Int.{ℤ, pos, pos_part, ltb_ℤ}
use cuebee_speaker_serving.Base.Text.{codes}
use cuebee_speaker_serving.Base.Float.{Float}
use cuebee_speaker_serving.Config.{not_positive}
use cuebee_speaker_serving.Domain.{os_error, Result, ok, raised, refuse_if, ◌>>=◌, ◌>>◌}
use cuebee_speaker_serving.Store.SpeakerId.{digits}
use cuebee_speaker_serving.Worker.Wire.{Bytes, pack_u32, request_header}

-- The keyword arguments of `NativeWorkerBackend`.
pub record WorkerConfig (R : Type 0) : Type 0 where
  pub worker_path : String
  pub model_path : Option String
  pub backend : String
  pub timeout_seconds : R
  pub intra_op_threads : ℤ
  pub max_batch_size : ℤ
  pub max_frames : ℤ
  pub restart_attempts : ℤ

-- What the client reads of a numpy array; `tobytes` is that of its little-endian floats.
pub record Arrays (V : Type 0) : Type 0 where
  pub ndim : V → ℕ
  pub rows : V → ℕ
  pub columns : V → ℕ
  pub is_finite : V → Bool
  pub tobytes : V → Bytes

-- `not model_path`
abbrev pub is_missing : Option String → Bool
is_missing none = true
is_missing (some path) = string_eq.same path ""

module _ {R : Type 0} ⦃float : Float R⦄ where
  -- The checks of `__init__`; what the file system says of the path is given.
  unfoldable pub check_worker : Bool → Bool → WorkerConfig R → Result (Unit {0})
  check_worker is_file is_executable c = do
    (if is_file then ok tt else raised (os_error "native worker not found"))
    (if is_executable then ok tt else raised (os_error "native worker is not executable"))
    refuse_if (not (string_eq.same c.backend "deterministic" || string_eq.same c.backend "onnx"))
        "native backend must be 'deterministic' or 'onnx'"
    refuse_if (string_eq.same c.backend "onnx" && is_missing c.model_path)
        "model_path is required for the native ONNX backend"
    refuse_if (float.le c.timeout_seconds (float.decimal 0 0)) "timeout_seconds must be positive"
    refuse_if (not_positive c.max_batch_size || not_positive c.max_frames)
        "worker limits must be positive"
    refuse_if (ltb_ℤ c.restart_attempts (pos 0)) "restart_attempts cannot be negative"

-- `str` of a number that is not negative.
abbrev decimal_text : ℤ → List ℕ
decimal_text n = digits (pos_part n + 1) (pos_part n)

-- `if model_path: command.extend(("--model", model_path))`
abbrev model_arguments : Option String → List (List ℕ)
model_arguments none = []
model_arguments (some path) =
    if string_eq.same path "" then [] else codes "--model" ∷ codes path ∷ []

-- `_command`, for the limits of a checked configuration. The paths are resolved already.
unfoldable pub command : {R : Type 0} → WorkerConfig R → List (List ℕ)
command c =
    codes c.worker_path
      ∷ codes "--backend"
      ∷ codes c.backend
      ∷ codes "--max-batch-size"
      ∷ decimal_text c.max_batch_size
      ∷ codes "--max-frames"
      ∷ decimal_text c.max_frames
      ∷ model_arguments c.model_path
    ++ (if ltb_ℤ (pos 0) c.intra_op_threads
        then codes "--intra-op-threads" ∷ decimal_text c.intra_op_threads ∷ []
        else [])

module _ {V : Type 0} (np : Arrays V) where
  -- The checks of one array.
  abbrev pub check_matrix : ℤ → V → Result (Unit {0})
  check_matrix max_frames v = do
    refuse_if (not (np.ndim v == 2) || np.rows v == 0 || not (np.columns v == 80))
        "native worker expects non-empty [time, 80] features"
    refuse_if (ltb_ℤ max_frames (pos (np.rows v)))
        "feature sequence exceeds native worker frame maximum"
    refuse_if (not (np.is_finite v)) "features must contain only finite values"

  unfoldable pub check_matrices : ℤ → List V → Result (Unit {0})
  check_matrices max_frames [] = ok tt
  check_matrices max_frames (v ∷ features) = do
    check_matrix max_frames v
    check_matrices max_frames features

  -- `_validate_features`; the arrays are returned as they are.
  unfoldable pub validate_features : {R : Type 0} → WorkerConfig R → List V → Result (List V)
  validate_features c features = do
    refuse_if (ltb_ℤ c.max_batch_size (pos (length features))) "batch exceeds native worker maximum"
    check_matrices c.max_frames features
    ok features

  -- `payload_parts`, joined.
  unfoldable pub request_payload : List V → Result Bytes
  request_payload [] = ok []
  request_payload (v ∷ features) = do
    frames ← pack_u32 (np.rows v)
    rest ← request_payload features
    ok (frames ++ np.tobytes v ++ rest)

  -- The bytes of a request.
  unfoldable pub request : ℕ → ℕ → List V → Result Bytes
  request operation request_id features = do
    payload ← request_payload features
    header ← request_header operation request_id (length features) (length payload)
    ok (header ++ payload)
