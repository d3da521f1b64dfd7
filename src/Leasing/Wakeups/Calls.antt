-- ===== src/Leasing/Wakeups/Calls.antt =====
-- leasing/manager.go: no wakeup is lost among the calls of a Manager.
use rogojin.Prelude.{ℕ, ◌<◌, ◌⊎◌, ◌≡◌, ◌≢◌, inl, inr, Bool, List, [], ◌∷◌, String, Option}
use rogojin.Leasing.Types.{Assignment, Env}
use rogojin.Leasing.State.{Manager}
use rogojin.Leasing.Outcomes.{IsBlocked, Outcome, acquire_pass-Outcome}
use rogojin.Leasing.Acquire.{Pass, failed, leased, waiting, acquire_pass}
use rogojin.Leasing.Invariant.LeaseCalls.{acquire_pass-IsValid}
use rogojin.Leasing.Invariant.{IsValid}
use rogojin.Leasing.Calls.{
  Call, step, run, step-IsValid, creates_group, updates_group, deletes_group, adds, updates,
  deletes, acquires, unlocks, releases_stale_lock, releases,
}
use rogojin.Leasing.Wakeups.{Unrelieved-IsBlocked}
use rogojin.Leasing.Wakeups.Steps.{
  Woken, release-Woken, unlock-Woken, release_stale_lock-Woken, add-Woken, update-Woken,
  create_group-Woken, update_group-Woken,
}
use rogojin.Leasing.Wakeups.Deletions.{delete_resource-Woken, delete_group-Woken}
use rogojin.Leasing.Wakeups.Rounds.{acquire-Unrelieved, acquire_pass-Unrelieved}

module _ {X C S : Type 0} (env : Env X C S) where
  step-Woken : (c : ℕ × Call X) (m : Manager X C S) → IsValid m → Woken m (step env c m)
  unfolding step
  step-Woken (now, creates_group g) m v = create_group-Woken env now g m
  step-Woken (now, updates_group id fn) m v = update_group-Woken env now id fn m
  step-Woken (now, deletes_group id) m v = delete_group-Woken env id m
  step-Woken (now, adds p) m v = add-Woken env now p m
  step-Woken (now, updates id fn) m v = update-Woken env now id fn m
  step-Woken (now, deletes id) m v = delete_resource-Woken env id m
  step-Woken (now, acquires done a lock) m v = inr (acquire-Unrelieved env now m done a lock v)
  step-Woken (now, unlocks t) m v = unlock-Woken env now t m v
  step-Woken (now, releases_stale_lock a) m v = release_stale_lock-Woken env now a m v
  step-Woken (now, releases id t) m v = release-Woken id t m

  step-wakes :
      (c : ℕ × Call X) (m : Manager X C S) (a : Assignment) (lock : Bool)
      → IsValid m
      → IsBlocked m a lock
      → (m.broadcasts < (step env c m).broadcasts) ⊎ IsBlocked (step env c m) a lock
  step-wakes c m a lock v blocked = elim (step-Woken c m v) [
    | inl up ↦ inl up
    | inr u ↦ inr (Unrelieved-IsBlocked m (step env c m) a lock u blocked)
  ]

  -- One of the calls broadcasts.
  abbrev pub Rings : List (ℕ × Call X) → Manager X C S → Type 0
  Rings [] m = ⊥
  Rings (c ∷ cs) m = (m.broadcasts < (step env c m).broadcasts) ⊎ Rings cs (step env c m)

  run-wakes :
      (cs : List (ℕ × Call X)) (m : Manager X C S) (a : Assignment) (lock : Bool)
      → IsValid m
      → IsBlocked m a lock
      → Rings cs m ⊎ IsBlocked (run env cs m) a lock
  unfolding run
  run-wakes [] m a lock v blocked = inr blocked
  run-wakes (c ∷ cs) m a lock v blocked = elim (step-wakes c m a lock v blocked) [
    | inl up ↦ inl (inl up)
    | inr still ↦ elim (run-wakes cs (step env c m) a lock (step-IsValid env c m v) still) [
      | inl later ↦ inl (inr later)
      | inr end ↦ inr end
    ]
  ]

  -- On a valid manager, once a round of the acquire loop for a task with a name ends waiting, then
  -- whatever calls follow in any order, one of them broadcasts, or after the last one the task's
  -- own resource still has live leases or no pooled record passes the tests of the round.
  pub acquire_pass-run_wakes :
      (now : ℕ) (done : Option String) (a : Assignment) (lock : Bool) (m : Manager X C S)
      (cs : List (ℕ × Call X))
      → IsValid m
      → a.task_id ≢ ""
      → (acquire_pass env now done a lock m).1 ≡ waiting
      → Rings cs (acquire_pass env now done a lock m).0
        ⊎ IsBlocked (run env cs (acquire_pass env now done a lock m).0) a lock
  acquire_pass-run_wakes now done a lock m cs v named waits =
      run-wakes cs (acquire_pass env now done a lock m).0 a lock
        (acquire_pass-IsValid env now m done a lock v named)
        (Unrelieved-IsBlocked m _ a lock (acquire_pass-Unrelieved env now m done a lock v named)
          (blocked _ waits (acquire_pass-Outcome env now m a done lock v)))
    where
      blocked :
          (r : Manager X C S × Pass X) → r.1 ≡ waiting → Outcome m a lock r → IsBlocked m a lock
      blocked (m', waiting) e (same, unfit) = unfit
      blocked (m', failed x) e o = absurd (cc e)
      blocked (m', leased l) e o = absurd (cc e)
