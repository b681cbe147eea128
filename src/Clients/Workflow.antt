-- ===== src/Clients/Workflow.antt =====
-- `run_workflow` of orbitlab/clients/proxmox/appliances/client.py: an appliance is built in a container that is
-- destroyed again. Each call to the cluster is a request that returns or raises; the log texts are not kept.
pub mod Outcome
use orbit_lab.Prelude.{
  ℕ, Bool, true, false, Option, none, some, List, [], ◌∷◌, String, if◌then◌else◌,
}
use orbit_lab.Prelude.Exec.{Result, ok, err, Exec, pure, raise, modify, ◌>>=◌, ◌>>◌}
use orbit_lab.DataTypes.{CustomApplianceWorkflowStatus}
use orbit_lab.Exceptions.{Exception, pct_exec, unbound_local}

-- What is asked of the cluster: the API calls with the container's number, and the commands on the node.
pub data Request : Type 0 where
  next_vmid connect wait move_dump remove_log upload : Request
  params create_container start shutdown dump stop destroy : ℕ → Request
  push_file : ℕ → String → String → Request
  run_script : ℕ → String → Request

pub record File : Type 0 where
  pub source : String
  pub destination : String

pub data Step : Type 0 where
  file_step : String → List File → Step
  script_step : String → String → Step

-- The manifest's status, the local variables, the requests so far with the latest first, and the answers to
-- come: an exception, or none for a call that returns. Where the answers end, every call returns.
pub record Run : Type 0 where
  pub status : CustomApplianceWorkflowStatus
  pub vmid : Option ℕ
  pub vm_running : Bool
  pub requests : List Request
  pub answers : List (Option Exception)

unfoldable pub answer : List (Option Exception) → Run → Result Exception (Unit {0}) × Run
answer [] s = (ok tt, s)
answer (none ∷ more) s = (ok tt, record s { answers = more })
answer (some x ∷ more) s = (err x, record s { answers = more })

unfoldable pub request : Request → Exec Exception Run (Unit {0})
unfolding answer
request r s = answer s.answers (record s { requests = r ∷ s.requests })

unfoldable pub set_workflow_status : CustomApplianceWorkflowStatus → Exec Exception Run (Unit {0})
set_workflow_status status = modify (λ s. record s { status = status })

unfoldable pub set_running : Bool → Exec Exception Run (Unit {0})
set_running b = modify (λ s. record s { vm_running = b })

-- A request that starts a task, and `wait_for_task`
unfoldable pub task : Request → Exec Exception Run (Unit {0})
unfolding request
task r = request r >> request wait

unfoldable pub create_lxc : ℕ → Exec Exception Run (Unit {0})
unfolding task
create_lxc vmid = task (create_container vmid) >> task (start vmid)

unfoldable pub push_files : ℕ → List File → Exec Exception Run (Unit {0})
unfolding request
push_files vmid [] = pure tt
push_files vmid (f ∷ files) =
    request (push_file vmid f.source f.destination) >> push_files vmid files

unfoldable pub run_step : ℕ → Step → Exec Exception Run (Unit {0})
unfolding push_files request
run_step vmid (file_step name files) = push_files vmid files
run_step vmid (script_step name script) = request (run_script vmid script)

unfoldable pub run_steps : ℕ → List Step → Exec Exception Run (Unit {0})
unfolding run_step
run_steps vmid [] = pure tt
run_steps vmid (step ∷ steps) = run_step vmid step >> run_steps vmid steps

-- The `try` block, for the number that the cluster gives out.
unfoldable pub build : ℕ → List Step → Exec Exception Run (Unit {0})
unfolding request set_workflow_status set_running create_lxc run_steps task
build vmid steps = do
  request next_vmid
  modify (λ s. record s { vmid = some vmid })
  request (params vmid)
  set_workflow_status CustomApplianceWorkflowStatus.starting
  create_lxc vmid
  set_running true
  request connect
  set_workflow_status CustomApplianceWorkflowStatus.running
  run_steps vmid steps
  request (shutdown vmid)
  set_workflow_status CustomApplianceWorkflowStatus.finalizing
  request wait
  set_running false
  task (dump vmid)
  request move_dump
  request remove_log
  task upload

-- The `finally` block. Without a number, naming it raises UnboundLocalError.
unfoldable pub stop_running : ℕ → Exec Exception Run (Unit {0})
unfolding task
stop_running vmid s = if s.vm_running then task (stop vmid) s else (ok tt, s)

unfoldable pub clean_up_of : Option ℕ → Exec Exception Run (Unit {0})
unfolding task stop_running
clean_up_of none = raise unbound_local
clean_up_of (some vmid) = stop_running vmid >> task (destroy vmid)

unfoldable pub clean_up : Exec Exception Run (Unit {0})
unfolding clean_up_of
clean_up s = clean_up_of s.vmid s

-- The `finally` block after the rest, with the exception that is on its way: one that the block raises
-- itself takes its place.
unfoldable pub finish : Option Exception → Exec Exception Run CustomApplianceWorkflowStatus
unfolding clean_up
finish pending s =
    let (r, s') = clean_up s in
    elim r [
      | err y ↦ (err y, s')
      | ok _ ↦ elim pending [ none ↦ (ok s'.status, s') | some x ↦ (err x, s') ]
    ]

-- The `except` and `else` branches: only PctExecError is caught.
unfoldable pub settle :
    Result Exception (Unit {0}) → Exec Exception Run CustomApplianceWorkflowStatus
unfolding finish
settle (ok _) s = finish none (record s { status = CustomApplianceWorkflowStatus.succeeded })
settle (err (pct_exec code)) s =
    finish none (record s { status = CustomApplianceWorkflowStatus.failed })
settle (err x) s = finish (some x) s

unfoldable pub run_workflow : ℕ → List Step → Exec Exception Run CustomApplianceWorkflowStatus
unfolding build settle
run_workflow vmid steps s = let (r, s') = build vmid steps s in settle r s'
