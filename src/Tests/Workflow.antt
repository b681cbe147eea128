-- ===== src/Tests/Workflow.antt =====
-- The theorems on Clients/Workflow at a workflow of one script.
use orbit_lab.Prelude.{◌≡◌, false, none, some, List, [], ◌∷◌}
use orbit_lab.Prelude.Exec.{err}
use orbit_lab.DataTypes.{CustomApplianceWorkflowStatus}
use orbit_lab.Exceptions.{pct_exec, timeout_error, unbound_local}
use orbit_lab.Clients.Workflow.{Run, Step, script_step, run_workflow}
use orbit_lab.Clients.Workflow.Outcome.{run_workflow_unbound}

abbrev steps : List Step
steps = script_step "setup" "exit 3" ∷ []

abbrev idle : Run
idle = record {
  status = CustomApplianceWorkflowStatus.pending;
  vmid = none;
  vm_running = false;
  requests = [];
  answers = [];
}

-- Seven calls return, and the script fails.
abbrev failing : Run
failing = record idle {
  answers = none ∷ none ∷ none ∷ none ∷ none ∷ none ∷ none ∷ some (pct_exec 3) ∷ [];
}

run_workflow_unbound_example :
    (run_workflow 105 steps (record idle { answers = some timeout_error ∷ [] })).0
    ≡ err unbound_local
run_workflow_unbound_example = run_workflow_unbound 105 steps idle timeout_error []
