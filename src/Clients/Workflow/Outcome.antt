-- ===== src/Clients/Workflow/Outcome.antt =====
-- How `run_workflow` of orbitlab/clients/proxmox/appliances/client.py ends.
use orbit_lab.Prelude.{ℕ, ◌≡◌, refl, true, Option, none, some, List, ◌∷◌}
use orbit_lab.Prelude.Exec.{Result, ok, err}
use orbit_lab.DataTypes.{CustomApplianceWorkflowStatus}
use orbit_lab.Exceptions.{Exception, pct_exec, unbound_local}
use orbit_lab.Clients.Workflow.{
  Run, Request, Step, answer, request, clean_up, clean_up_of, finish, settle, build, run_workflow,
  wait, destroy, stop, next_vmid,
}

-- The clean-up of a container: its number, and what had been asked for before its destruction.
pub record IsDestroyed (s s' : Run) : Type 0 where
  pub vmid : ℕ
  pub before : List Request
  pub bound : s.vmid ≡ some vmid
  pub requests : s'.requests ≡ wait ∷ destroy vmid ∷ before
  pub stopped : s.vm_running ≡ true → before ≡ wait ∷ stop vmid ∷ s.requests
  pub status : s'.status ≡ s.status

-- Why a workflow returned: the `try` block returned, or a script in the container failed.
pub data Ended (r : Result Exception (Unit {0})) (status : CustomApplianceWorkflowStatus)
    : Type 0 where
  all_done : r ≡ ok tt → status ≡ CustomApplianceWorkflowStatus.succeeded → Ended r status
  script_failed :
      (code : ℕ)
      → r ≡ err (pct_exec code)
      → status ≡ CustomApplianceWorkflowStatus.failed
      → Ended r status

finish_unbound :
    (pending : Option Exception) (s : Run)
    → (finish pending (record s { vmid = none })).0 ≡ err unbound_local
unfolding finish clean_up clean_up_of
finish_unbound pending s = refl

settle_unbound :
    (r : Result Exception (Unit {0})) (s : Run)
    → (settle r (record s { vmid = none })).0 ≡ err unbound_local
unfolding settle
settle_unbound (ok u) s =
    finish_unbound none (record s { status = CustomApplianceWorkflowStatus.succeeded })
settle_unbound (err (pct_exec code)) s =
    finish_unbound none (record s { status = CustomApplianceWorkflowStatus.failed })
settle_unbound (err x) s = finish_unbound (some x) s

-- Where the cluster gives out no number, its exception is lost: the clean-up raises UnboundLocalError.
pub run_workflow_unbound :
    (vmid : ℕ) (steps : List Step) (s : Run) (x : Exception) (more : List (Option Exception))
    → (run_workflow vmid steps (record s { vmid = none; answers = some x ∷ more })).0
      ≡ err unbound_local
unfolding run_workflow build request answer
run_workflow_unbound vmid steps s x more =
    settle_unbound (err x) (record s { requests = next_vmid ∷ s.requests; answers = more })
