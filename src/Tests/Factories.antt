-- ===== src/Tests/Factories.antt =====
-- Runs of src/cuebee_speaker/factory.py.
use cuebee_speaker_serving.Base.{◌≡◌, refl, true, String, Option, none, some}
use cuebee_speaker_serving.Base.Int.{ℤ, pos}
use cuebee_speaker_serving.Config.{AppConfig, check_app}
use cuebee_speaker_serving.Domain.{ok, refuse_if}
use cuebee_speaker_serving.Factory.{
  native_backend, worker_config, backend_of, backend_name, check_worker-worker_config,
}
use cuebee_speaker_serving.Worker.Request.{check_worker}
use cuebee_speaker_serving.Tests.Assignments.{settings as assignment_settings}
use cuebee_speaker_serving.Tests.Batchers.{small, small_checked}
use cuebee_speaker_serving.Tests.Floats.{milli}
use cuebee_speaker_serving.Tests.Frontends.{slow}
use cuebee_speaker_serving.Tests.Scaling.{settings as autoscaler_settings}

abbrev app : String → Option String → AppConfig ℤ
app backend model_path = record {
  audio = slow;
  batcher = small;
  assignment = assignment_settings;
  autoscaler = autoscaler_settings;
  model_path = model_path;
  native_worker_path = some "worker";
  native_worker_backend = backend;
  native_worker_timeout_seconds = pos 5_000;
  native_worker_intra_op_threads = pos 0;
  native_worker_restart_attempts = pos 1;
  state_db_path = "state.sqlite3";
}

app_checked : check_app (app "onnx" none) ≡ ok tt
unfolding check_app
app_checked = refl

check_worker-worker_config_example :
    check_worker true true (worker_config (app "onnx" none) "worker")
    ≡ refuse_if true "model_path is required for the native ONNX backend"
unfolding native_backend
check_worker-worker_config_example =
    check_worker-worker_config (app "onnx" none) "worker" app_checked small_checked

auto_named : backend_name (backend_of (app "auto" (some "m"))) ≡ "native-cpp-onnxruntime-eres2net"
unfolding backend_name backend_of worker_config native_backend
auto_named = refl
