-- ===== src/Clients/Waiting/Ends.antt =====
-- `wait_for_task` of orbitlab/clients/proxmox/base/client.py ends, and how.
use orbit_lab.Prelude.{
  ℕ, zero, suc, ◌+◌, ◌*◌, ◌/◌, ◌≤◌, ◌<◌, ◌≡◌, refl, Option, some, ◌⊎◌, ltb, arith, inl, inr,
  Bool-cases,
}
use native.Mathlib.Nat.{div-lt_iff_lt-mul}
use orbit_lab.Prelude.Exec.{Result, ok, err}
use orbit_lab.Exceptions.{Exception, timeout_error}
use orbit_lab.DataTypes.{TaskStatus}
use orbit_lab.Clients.Waiting.{poll, wait_for_task}

lt_or_eq : (j k : ℕ) → j < suc k → (j < k) ⊎ (j ≡ k)
lt_or_eq j k h = elim (Bool-cases (ltb j k)) [
  | inl y ↦ inl (ground arith)
  | inr n ↦ inr (ground arith)
]

module _ (get_task_status : ℕ → Result Exception TaskStatus) (clock : ℕ → ℕ) (timeout : ℕ) where
  -- The answers before the request `k` were `running`, and each round was within the time.
  pub WaitedFor : ℕ → Type 0
  WaitedFor k =
      (j : ℕ)
      → j < k
      → (get_task_status j ≡ ok TaskStatus.running) × (clock (suc j) ≤ clock 0 + timeout)

  -- How a wait ends with the request `k`.
  pub data Ended (k : ℕ) : Result Exception (Unit {0}) → Type 0 where
    stopped : get_task_status k ≡ ok TaskStatus.stopped → Ended k (ok tt)
    failed : (x : Exception) → get_task_status k ≡ err x → Ended k (err x)
    late :
        get_task_status k ≡ ok TaskStatus.running
        → clock 0 + timeout < clock (suc k)
        → Ended k (err timeout_error)

  pub Ends : ℕ → Option (Result Exception (Unit {0}) × ℕ) → Type 0
  Ends limit r =
      (k : ℕ) × (e : Result Exception (Unit {0})) × (r ≡ some (e, suc k))
      × (k < limit)
      × WaitedFor k
      × Ended k e

  WaitedFor-suc :
      (k : ℕ)
      → WaitedFor k
      → get_task_status k ≡ ok TaskStatus.running
      → clock (suc k) ≤ clock 0 + timeout
      → WaitedFor (suc k)
  unfolding WaitedFor
  WaitedFor-suc k w s c j h = elim (lt_or_eq j k (omega arith)) [
    | inl l ↦ w j l
    | inr e ↦ rw e (s, c)
  ]

  module _ (m : ℕ) (in_time : clock 0 + timeout < clock (suc m)) where
    round-Ends :
        (fuel k : ℕ) (r : Result Exception TaskStatus)
        → get_task_status k ≡ r
        → k < suc m
        → WaitedFor k
        → (WaitedFor (suc k) → Ends (suc m) (poll get_task_status clock timeout fuel (suc k)))
        → Ends (suc m) (poll get_task_status clock timeout (suc fuel) k)
    unfolding poll Ends
    round-Ends fuel k (err x) h l w rest = (k, err x, rw (poll, h) refl, l, w, failed x h)
    round-Ends fuel k (ok TaskStatus.stopped) h l w rest =
        (k, ok tt, rw (poll, h) refl, l, w, stopped h)
    round-Ends fuel k (ok TaskStatus.running) h l w rest =
        elim (Bool-cases (ltb (clock 0 + timeout) (clock (suc k)))) [
          | inl y ↦ (k, err timeout_error, rw (poll, h, y) refl, l, w, late h (ground arith))
          | inr n ↦ rw (poll, h, n) (rest (WaitedFor-suc k w h (ground arith)))
        ]

    no_fuel : (k : ℕ) → k + 0 ≡ suc m → WaitedFor k → ⊥
    unfolding WaitedFor
    no_fuel k e w = let (s, c) = w m (omega arith) in omega arith

    poll-Ends :
        (fuel k : ℕ)
        → k + fuel ≡ suc m
        → WaitedFor k
        → Ends (suc m) (poll get_task_status clock timeout fuel k)
    unfolding WaitedFor
    poll-Ends zero k e w = absurd (no_fuel k e w)
    poll-Ends (suc fuel) k e w =
        round-Ends fuel k (get_task_status k) refl (omega arith) w
          λ v. poll-Ends fuel (suc k) (omega arith) v

within :
    (start timeout slept now : ℕ) → start + slept ≤ now → timeout < slept → start + timeout < now
within start timeout slept now a b = omega arith

-- Where a sleep lasts for `interval` at least, the wait ends, after at most `timeout / interval + 1` requests: with
-- the first answer that is not `running`, or with TimeoutError where the clock shows more than `timeout` after the
-- sleep that follows a `running`. All answers before were `running`, each followed by a sleep that ended in time.
pub wait_for_task-Ends :
    (get_task_status : ℕ → Result Exception TaskStatus) (clock : ℕ → ℕ) (interval timeout : ℕ)
    → 0 < interval
    → ((k : ℕ) → clock 0 + k * interval ≤ clock k)
    → Ends get_task_status clock timeout
        (suc (timeout / interval))
        (wait_for_task get_task_status clock interval timeout)
unfolding wait_for_task WaitedFor
wait_for_task-Ends get_task_status clock interval timeout positive sleeps =
    let more =
      (div-lt_iff_lt-mul {k = interval} {x = timeout} {y = suc (timeout / interval)} positive).0
        (omega arith) in
    poll-Ends get_task_status clock timeout (timeout / interval)
      (within (clock 0) timeout _ (clock (suc (timeout / interval)))
        (sleeps (suc (timeout / interval))) more)
      (suc (timeout / interval)) 0 (omega arith) λ j h. absurd (omega arith)
