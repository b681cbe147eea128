-- ===== src/Clients/Waiting.antt =====
-- `wait_for_task` of orbitlab/clients/proxmox/base/client.py: the wait for a task of the cluster. What the cluster
-- answers and what the clock shows are arguments, by how often they were asked; times are whole numbers of one unit.
pub mod Ends
use orbit_lab.Prelude.{ℕ, zero, suc, ◌+◌, ◌/◌, Option, none, some, ltb, if◌then◌else◌}
use orbit_lab.Prelude.Exec.{Result, ok, err}
use orbit_lab.Exceptions.{Exception, timeout_error}
use orbit_lab.DataTypes.{TaskStatus}

module _ (get_task_status : ℕ → Result Exception TaskStatus) (clock : ℕ → ℕ) (timeout : ℕ) where
  -- The loop once the status was asked `k` times before, with fuel for its rounds; none where it is not enough. A
  -- result comes with the number of times that the status was asked.
  unfoldable pub poll : ℕ → ℕ → Option (Result Exception (Unit {0}) × ℕ)
  poll zero k = none
  poll (suc fuel) k =
      let rest = poll fuel (suc k) in
      elim (get_task_status k) [
        | err x ↦ some (err x, suc k)
        | ok TaskStatus.stopped ↦ some (ok tt, suc k)
        | ok TaskStatus.running ↦
            if ltb (clock 0 + timeout) (clock (suc k))
            then some (err timeout_error, suc k)
            else rest
      ]

-- The clock is read once before the first sleep and once after each. `timeout / interval + 1` rounds are enough
-- where a sleep lasts for `interval`.
unfoldable pub wait_for_task :
    (ℕ → Result Exception TaskStatus) → (ℕ → ℕ) → ℕ → ℕ → Option (Result Exception (Unit {0}) × ℕ)
unfolding poll
wait_for_task get_task_status clock interval timeout =
    poll get_task_status clock timeout (suc (timeout / interval)) 0
