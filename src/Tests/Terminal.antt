-- ===== src/Tests/Terminal.antt =====
-- Runs of `__normalize_terminal_output__` and `wait_for_task` of orbitlab/clients/proxmox/base/client.py.
use orbit_lab.Prelude.{ℕ, suc, ◌+◌, ◌*◌, ◌/◌, ◌≡◌, refl, some, [], ◌∷◌, arith, ltb, if◌then◌else◌}
use orbit_lab.Prelude.Exec.{Result, ok, err}
use orbit_lab.Exceptions.{Exception, timeout_error}
use orbit_lab.DataTypes.{TaskStatus}
use orbit_lab.Manifest.Ref.{Text, codes}
use orbit_lab.Clients.Terminal.{normalize_terminal_output}
use orbit_lab.Clients.Waiting.{poll, wait_for_task}
use orbit_lab.Clients.Waiting.Ends.{Ends, wait_for_task-Ends}
use orbit_lab.Clients.Terminal.Lines.{screen_lines, normalize_terminal_output-screen_lines}

-- A download that counts on one line, an empty line, and a line with space at its end.
abbrev printed : Text
printed = codes "get 1%\rget 99%\r\n\r\n  done \nok\rend"

printed_lines :
    normalize_terminal_output printed ≡ some (codes "get 99%" ∷ codes "  done" ∷ codes "end" ∷ [])
unfolding normalize_terminal_output
printed_lines = refl

normalize_terminal_output-screen_lines_example :
    normalize_terminal_output printed ≡ some (screen_lines printed)
normalize_terminal_output-screen_lines_example = normalize_terminal_output-screen_lines printed

-- A task that never stops, on a clock that shows 100 at the start and 10 more after each sleep.
abbrev runs_on : ℕ → Result Exception TaskStatus
runs_on k = ok TaskStatus.running

abbrev clock : ℕ → ℕ
clock k = 100 + k * 10

-- A task that has stopped when it is asked for the third time.
abbrev stops : ℕ → Result Exception TaskStatus
stops k = ok (if ltb k 2 then TaskStatus.running else TaskStatus.stopped)

runs_on_late : wait_for_task runs_on clock 10 35 ≡ some (err timeout_error, 4)
unfolding wait_for_task poll
runs_on_late = refl

stops_well : wait_for_task stops clock 10 35 ≡ some (ok tt, 3)
unfolding wait_for_task poll
stops_well = refl

wait_for_task-Ends_example :
    Ends runs_on clock 35 (suc (35 / 10)) (wait_for_task runs_on clock 10 35)
wait_for_task-Ends_example = wait_for_task-Ends runs_on clock 10 35 (omega arith) λ k. omega arith
