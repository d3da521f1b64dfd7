-- ===== src/Leasing/Calls.antt =====
-- leasing/manager.go: every call of a Manager as one step, in any order and by any goroutine. A
-- waiting Acquire or Lock takes part by further rounds.
use rogojin.Prelude.{ℕ, String, List, [], ◌∷◌, Option, Bool, ◌≡◌}
use rogojin.Leasing.Types.{Model, Group, Assignment, Env, Selection, ok}
use rogojin.Leasing.State.{Manager, release}
use rogojin.Leasing.Groups.{GroupEdit, create_group, update_group}
use rogojin.Leasing.Inventory.{ModelEdit, add, update, delete_resource, delete_group}
use rogojin.Leasing.Acquire.{acquire}
use rogojin.Leasing.Locks.{unlock, release_stale_lock}
use rogojin.Leasing.Load.{new_manager}
use rogojin.Leasing.Invariant.{IsValid}
use rogojin.Leasing.Invariant.Loading.{new_manager-IsValid}
use rogojin.Leasing.Invariant.GroupCalls.{create_group-IsValid, update_group-IsValid}
use rogojin.Leasing.Invariant.RecordCalls.{add-IsValid, update-IsValid, delete_resource-IsValid}
use rogojin.Leasing.Invariant.GroupDeletion.{delete_group-IsValid}
use rogojin.Leasing.Invariant.LeaseCalls.{
  acquire-IsValid, unlock-IsValid, release_stale_lock-IsValid,
}
use rogojin.Leasing.Invariant.Leases.{release-IsValid}

pub data Call (X : Type 0) : Type 0 where
  creates_group : Group → Call X
  updates_group : String → (Group → GroupEdit) → Call X
  deletes_group : String → Call X
  adds : Model X → Call X
  updates : String → (Model X → ModelEdit X) → Call X
  deletes : String → Call X
  acquires : Option String → Assignment → Bool → Call X
  unlocks : String → Call X
  releases_stale_lock : Assignment → Call X
  releases : String → String → Call X

module _ {X C S : Type 0} (env : Env X C S) where
  -- One call at the time `now`.
  unfoldable pub step : ℕ × Call X → Manager X C S → Manager X C S
  step (now, creates_group g) m = (create_group env now g m).0
  step (now, updates_group id fn) m = (update_group env now id fn m).0
  step (now, deletes_group id) m = (delete_group env id m).0
  step (now, adds p) m = (add env now p m).0
  step (now, updates id fn) m = (update env now id fn m).0
  step (now, deletes id) m = (delete_resource env id m).0
  step (now, acquires done a lock) m = (acquire env now done a lock m).0
  step (now, unlocks t) m = (unlock env now t m).0
  step (now, releases_stale_lock a) m = (release_stale_lock env now a m).0
  step (now, releases id t) m = release id t m

  unfoldable pub run : List (ℕ × Call X) → Manager X C S → Manager X C S
  run [] m = m
  run (c ∷ cs) m = run cs (step c m)

  -- Every call, with whatever answers of the store and of the strategies, keeps a manager valid.
  pub step-IsValid : (c : ℕ × Call X) (m : Manager X C S) → IsValid m → IsValid (step c m)
  unfolding step
  step-IsValid (now, creates_group g) m v = create_group-IsValid env now m v g
  step-IsValid (now, updates_group id fn) m v = update_group-IsValid env now m v id fn
  step-IsValid (now, deletes_group id) m v = delete_group-IsValid env id m v
  step-IsValid (now, adds p) m v = add-IsValid env now m v p
  step-IsValid (now, updates id fn) m v = update-IsValid env now m v id fn
  step-IsValid (now, deletes id) m v = delete_resource-IsValid env id m v
  step-IsValid (now, acquires done a lock) m v = acquire-IsValid env now m done a lock v
  step-IsValid (now, unlocks t) m v = unlock-IsValid env now m v t
  step-IsValid (now, releases_stale_lock a) m v = release_stale_lock-IsValid env now m v a
  step-IsValid (now, releases id t) m v = release-IsValid m v id t

  pub run-IsValid : (cs : List (ℕ × Call X)) (m : Manager X C S) → IsValid m → IsValid (run cs m)
  unfolding run
  run-IsValid [] m v = v
  run-IsValid (c ∷ cs) m v = run-IsValid cs (step c m) (step-IsValid c m v)

  -- A manager that NewManager has built is valid after any calls in any order: among the rest, no
  -- record has more live leases than its cap, and a locked one is leased to its owner alone, once.
  pub loaded_run-IsValid :
      (now : ℕ) (opts : List (String × Selection C)) (s : S) (m : Manager X C S)
      (cs : List (ℕ × Call X))
      → new_manager env now opts s ≡ ok m
      → IsValid (run cs m)
  loaded_run-IsValid now opts s m cs built =
      run-IsValid cs m (new_manager-IsValid env now opts s m built)
