-- ===== src/Workflows/Phases.antt =====
-- internal/controller/workflow_controller.go: the phase of a workflow and what GitHub is told of it.
pub mod Reports
use terrakojo.Prelude.{String, Bool, not, ◌==◌, is_pos, if◌then◌else◌}
use terrakojo.Api.{Workflow, Job}

abbrev pub phase_pending : String
phase_pending = "Pending"

abbrev pub phase_running : String
phase_running = "Running"

abbrev pub phase_succeeded : String
phase_succeeded = "Succeeded"

abbrev pub phase_failed : String
phase_failed = "Failed"

abbrev pub phase_cancelled : String
phase_cancelled = "Cancelled"

abbrev pub status_completed : String
status_completed = "completed"

unfoldable pub phase_of : Job → String
phase_of job =
    if is_pos job.status.succeeded
    then phase_succeeded
    else if is_pos job.status.failed
    then phase_failed
    else if is_pos job.status.active
    then phase_running
    else phase_pending

-- the phase, and whether it differs from the one that the workflow has
unfoldable pub determine_workflow_phase : Workflow → Job → String × Bool
unfolding phase_of
determine_workflow_phase workflow job = (phase_of job, not (workflow.status.phase == phase_of job))

-- status and conclusion
unfoldable pub check_run_status : String → String × String
check_run_status phase =
    if phase == phase_pending
    then ("queued", "")
    else if phase == phase_running
    then ("in_progress", "")
    else if phase == phase_succeeded
    then (status_completed, "success")
    else if phase == phase_failed
    then (status_completed, "failure")
    else if phase == phase_cancelled
    then (status_completed, "cancelled")
    else ("queued", "")
