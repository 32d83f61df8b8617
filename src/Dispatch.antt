-- ===== src/Dispatch.antt =====
-- backend/common/dispatch.py: creating runs and putting them on the stream.
use distributed_asynchronous.Prelude.{ℕ, Option, none, List}
use distributed_asynchronous.Constants.{RunStatus, TriggerType, queued}
use distributed_asynchronous.Models.{Time, JobRun, Database, new_run, add_run}
use distributed_asynchronous.Queue.{Command, enqueue_run}

-- The keyword arguments of create_run; `session.flush` gives the run its id.
unfoldable pub create_run :
    ℕ → TriggerType → Option Time → ℕ → RunStatus → Time → Database → JobRun × Database
create_run job_id trigger_type scheduled_for attempt status now db =
    let run = new_run job_id trigger_type status attempt scheduled_for now db in
    (run, add_run run db)

unfoldable pub publish : JobRun → List Command
publish run = enqueue_run run.id

unfoldable pub create_and_publish :
    ℕ → TriggerType → ℕ → Time → Database → JobRun × List Command × Database
unfolding create_run publish
create_and_publish job_id trigger_type attempt now db =
    let (run, db') = create_run job_id trigger_type none attempt queued now db in
    (run, publish run, db')
