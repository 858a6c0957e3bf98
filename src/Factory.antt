-- ===== src/Factory.antt =====
-- src/cuebee_speaker/factory.py: which inference backend `build_runtime` builds, and from what.
use cuebee_speaker_serving.Base.{
  ◌≡◌, refl, subst, Bool, true, false, not, ◌&&◌, ◌||◌, String, Option, none, some, arith,
  if◌then◌else◌, Bool-cases, inl, inr,
}
use cuebee_speaker_serving.Base.Eq.{string_eq}
use cuebee_speaker_serving.Base.Float.{Float}
use cuebee_speaker_serving.Base.Int.{pos, ltb_ℤ}
use cuebee_speaker_serving.Config.{
  AppConfig, check_app, check_batcher, is_backend_name, not_positive, ascending,
}
use cuebee_speaker_serving.Domain.{ok, refuse_if, ◌>>◌}
use cuebee_speaker_serving.Worker.Request.{WorkerConfig, is_missing, check_worker}

-- What `build_runtime` makes its backend of: the three constructors that it may call.
pub data Choice (R : Type 0) : Type 0 where
  native_worker : WorkerConfig R → Choice R
  onnx : String → Choice R
  deterministic : Choice R

-- `native_backend`, behind the resolution of "auto".
unfoldable pub native_backend : {R : Type 0} → AppConfig R → String
native_backend c =
    if string_eq.same c.native_worker_backend "auto"
    then (if is_missing c.model_path then "deterministic" else "onnx")
    else c.native_worker_backend

-- The arguments of `NativeWorkerBackend`; `max_frames` is its default.
unfoldable pub worker_config : {R : Type 0} → AppConfig R → String → WorkerConfig R
worker_config c path = record {
  worker_path = path;
  model_path = c.model_path;
  backend = native_backend c;
  timeout_seconds = c.native_worker_timeout_seconds;
  intra_op_threads = c.native_worker_intra_op_threads;
  max_batch_size = c.batcher.max_batch_size;
  max_frames = pos 2000;
  restart_attempts = c.native_worker_restart_attempts;
}

-- The text of an optional path, "" for None: `if path` is false of both.
abbrev path_text : Option String → String
path_text none = ""
path_text (some path) = path

-- The tests of `build_runtime` on the two paths.
unfoldable pub backend_of : {R : Type 0} → AppConfig R → Choice R
backend_of c =
    if not (is_missing c.native_worker_path)
    then native_worker (worker_config c (path_text c.native_worker_path))
    else if not (is_missing c.model_path)
    then onnx (path_text c.model_path)
    else deterministic

-- `backend_name`
unfoldable pub backend_name : {R : Type 0} → Choice R → String
backend_name (native_worker w) =
    if string_eq.same w.backend "onnx"
    then "native-cpp-onnxruntime-eres2net"
    else "native-cpp-deterministic-development"
backend_name (onnx path) = "onnxruntime-eres2net"
backend_name deterministic = "deterministic-development-backend"

native_backend-known :
    {R : Type 0} (c : AppConfig R)
    → is_backend_name c.native_worker_backend ≡ true
    → (string_eq.same (native_backend c) "deterministic"
        || string_eq.same (native_backend c) "onnx")
      ≡ true
unfolding native_backend
native_backend-known c h = elim (Bool-cases (string_eq.same c.native_worker_backend "auto")) [
  | inl e ↦ elim (Bool-cases (is_missing c.model_path)) [
    | inl m ↦ rw e (rw m refl)
    | inr m ↦ rw e (rw m refl)
  ]
  | inr e ↦ rw e (
      subst
        (λ b.
          (b
            || string_eq.same c.native_worker_backend "deterministic"
            || string_eq.same c.native_worker_backend "onnx")
          ≡ true)
        e h)
]

-- A constructor with four checks that succeeds has passed each.
four_passed :
    (a b c d : Bool) (p q r s : String)
    → (refuse_if a p >> (refuse_if b q >> (refuse_if c r >> refuse_if d s))) ≡ ok tt
    → (a ≡ false) × (b ≡ false) × (c ≡ false) × (d ≡ false)
four_passed true b c d p q r s h = absurd (ground arith)
four_passed false true c d p q r s h = absurd (ground arith)
four_passed false false true d p q r s h = absurd (ground arith)
four_passed false false false true p q r s h = absurd (ground arith)
four_passed false false false false p q r s h = (refl, refl, refl, refl)

-- Of five checks, the second is the one that can fail.
second_left :
    (a b c d e : Bool) (p q r s t : String)
    → a ≡ false
    → c ≡ false
    → d ≡ false
    → e ≡ false
    → (refuse_if a p >> (refuse_if b q >> (refuse_if c r >> (refuse_if d s >> refuse_if e t))))
      ≡ refuse_if b q
second_left a true c d e p q r s t ha hc hd he = rw ha refl
second_left a false c d e p q r s t ha hc hd he = rw ha (rw hc (rw hd (rw he refl)))

not-true : (b : Bool) → b ≡ true → not b ≡ false
not-true b h = ground arith

not-false : (b : Bool) → not b ≡ false → b ≡ true
not-false b h = ground arith

first_false : (a b : Bool) → a ≡ false → b ≡ false → (a || b) ≡ false
first_false a b h k = ground arith

module _ {R : Type 0} ⦃float : Float R⦄ where
  -- With a configuration that passed its checks, and a worker that is an executable file: the checks
  -- of its arguments with which the constructor of the native worker begins, before it starts the
  -- process, raise exactly when the backend is "onnx" and no model is given, and then with the error
  -- that says so.
  pub check_worker-worker_config :
      (c : AppConfig R) (path : String)
      → check_app c ≡ ok tt
      → check_batcher c.batcher ≡ ok tt
      → check_worker true true (worker_config c path)
        ≡ refuse_if
            (string_eq.same (native_backend c) "onnx" && is_missing c.model_path)
            "model_path is required for the native ONNX backend"
  unfolding check_worker worker_config check_app check_batcher
  check_worker-worker_config c path h k =
      let (named, timed, threads, restarts) =
        four_passed (not (is_backend_name c.native_worker_backend))
          (float.le c.native_worker_timeout_seconds (float.decimal 0 0))
          (ltb_ℤ c.native_worker_intra_op_threads (pos 0))
          (ltb_ℤ c.native_worker_restart_attempts (pos 0)) _ _ _ _ h in
      let (size, wait, session, sorted) =
        four_passed (not_positive c.batcher.max_batch_size)
          (not_positive c.batcher.max_wait_ms || not_positive c.batcher.default_deadline_ms)
          (not_positive c.batcher.per_session_batch_limit)
          (not (ascending c.batcher.bucket_boundaries_frames)) _ _ _ _ k in
      second_left _ _ _ _ _ _ _ _ _ _ (not-true _ (native_backend-known c (not-false _ named)))
        timed (first_false _ (not_positive (pos 2000)) size refl) restarts
