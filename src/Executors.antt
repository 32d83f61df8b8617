-- ===== src/Executors.antt =====
-- backend/worker/executors: the outcome of an executor, the registry, and the retry policy.
pub mod Retry
pub mod Http
pub mod HttpAsync
pub mod Shell
use distributed_asynchronous.Prelude.{
  ◌≡◌, refl, Bool, true, false, String, Option, none, some, List, [], ◌∷◌, if◌then◌else◌, str_eq,
}
use distributed_asynchronous.Constants.{RunStatus, succeeded, failed, timed_out, status_eq}
use distributed_asynchronous.Constants.TaskType
use distributed_asynchronous.Models.Json.{ℤ, Fields}

-- base.py: ExecResult
pub record ExecResult : Type 0 where
  pub status : RunStatus
  pub exit_code : Option ℤ
  pub result : Option Fields
  pub error : Option String

-- The property `succeeded`.
unfoldable pub has_succeeded : ExecResult → Bool
has_succeeded r = status_eq r.status succeeded

-- The class methods ok, failed and timed_out. The executors build their results by these alone,
-- so the fields are the keyword arguments.
pub data Ending : Type 0 where
  ok : Option ℤ → Option Fields → Ending
  failure : String → Option ℤ → Option Fields → Ending
  timeout : String → Option ℤ → Option Fields → Ending

unfoldable pub exec_result : Ending → ExecResult
exec_result (ok code result) = record {
  status = succeeded;
  exit_code = code;
  result = result;
  error = none;
}
exec_result (failure error code result) = record {
  status = failed;
  exit_code = code;
  result = result;
  error = some error;
}
exec_result (timeout error code result) = record {
  status = timed_out;
  exit_code = code;
  result = result;
  error = some error;
}

-- __init__.py: the executors by task type. A task type that is not registered raises ValueError.
pub data Executor : Type 0 where
  http shell http_async : Executor

unfoldable pub get_executor : String → Option Executor
get_executor task_type =
    if str_eq task_type TaskType.http
    then some http
    else if str_eq task_type TaskType.shell
    then some shell
    else if str_eq task_type TaskType.http_async
    then some http_async
    else none
