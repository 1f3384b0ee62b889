-- ===== src/Agent/StatusHandler.antt =====
-- pkg/agent/handlers/status_handler.go. The checks of Handle are commented out in the source.
use wireguard_babeld_igp.Base.{
  ◌≡◌, ◌≢◌, ◌∙◌, sym, ap, arith, String, Bool, true, false, ite, ◌=?◌, string_key,
}
use wireguard_babeld_igp.Data.Text.{starts_with}
use wireguard_babeld_igp.Errors.{Result, ok, unknown_task_type}
use wireguard_babeld_igp.Types.{
  Time, Task, TaskType, TaskResult, zero_result, task_type_status, task_type_update,
  task_status_success, task_status_failed,
}
use wireguard_babeld_igp.Config.{AgentConfig}
use wireguard_babeld_igp.Agent.System.{System, Agent, handled}
use wireguard_babeld_igp.Agent.Tasks.{handle_task, report_status, unknown_task_fails}

unfoldable pub can_handle : TaskType → Bool
can_handle type = ite (type =? task_type_status) true false

unfoldable pub handle : Time → Task → Result TaskResult
handle now task = ok (record zero_result { status = task_status_success; timestamp = now })

is_status : (type : TaskType) → can_handle type ≡ true → type ≡ task_type_status
unfolding can_handle
is_status type h = ground (arith, h)

not_update : task_type_status ≢ task_type_update
unfolding starts_with
not_update e = let f : true ≡ false = ap (starts_with "s") e in cc

-- The tasks that StatusHandler is for never reach it: HandleTask, which the agent calls for every task,
-- runs and writes nothing for them and reports them as failed, of an unknown type.
pub handle_task-can_handle :
    (sys : System) (cfg : AgentConfig) (id type : String) (a : Agent)
    → can_handle type ≡ true
    → handle_task sys cfg id type a
      ≡ handled
          (report_status sys cfg id task_status_failed (sys.text_of (unknown_task_type type)) a)
handle_task-can_handle sys cfg id type a h =
    unknown_task_fails sys cfg id type a (λ e. not_update (sym (is_status type h) ∙ e))
