-- ===== src/Leasing/Locks.antt =====
-- leasing/manager.go: unlock, Unlock, fits, ReleaseStaleLock.
use rogojin.Prelude.{ℕ, String, Option, none, some, ite, Bool, true, false, str_dec, if◌then◌else◌}
use rogojin.Prelude.Map.{lookup, insert, delete}
use rogojin.Leasing.Types.{Model, Assignment, Env, Resource, Error, store_failed}
use rogojin.Leasing.State.{Manager, broadcast}

-- Does the placement still describe the resource?
unfoldable pub fits : Assignment → Resource → Bool
fits a c =
    ite (str_dec a.resource_id "")
      (ite (str_dec a.group_id "") false (ite (str_dec a.group_id c.group_id) true false))
      (ite (str_dec a.resource_id c.id) true false)

abbrev pub unowned : {X : Type 0} → ℕ → Model X → Model X
unowned now p = record p { core = record (p.core) { owner_id = ""; updated_at = now } }

module _ {X C S : Type 0} where
  abbrev pub unbind : String → String → Model X → Manager X C S → Manager X C S
  unbind t id p m = record m { pool = insert id p m.pool; bindings = delete t m.bindings }

module _ {X C S : Type 0} (env : Env X C S) (now : ℕ) where
  -- The lock is cleared in the store first; a binding whose resource is gone is dropped.
  unfoldable pub unlock_bound : String → String → Manager X C S → Manager X C S × Option Error
  unfolding broadcast
  unlock_bound t id m = elim (lookup id m.pool) [
    | none ↦ (record m { bindings = delete t m.bindings }, none)
    | some p ↦
        let (failure, s) = env.save (unowned now p) m.store in
        elim failure [
          | some e ↦ (record m { store = s }, some (store_failed e))
          | none ↦ (broadcast (unbind t id (unowned now p) (record m { store = s })), none)
        ]
  ]

  unfoldable pub unlock : String → Manager X C S → Manager X C S × Option Error
  unfolding unlock_bound
  unlock t m = elim (lookup t m.bindings) [ none ↦ (m, none) | some id ↦ unlock_bound t id m ]

  unfoldable pub release_stale_lock : Assignment → Manager X C S → Manager X C S × Option Error
  unfolding unlock_bound fits
  release_stale_lock a m = elim (lookup a.task_id m.bindings) [
    | none ↦ (m, none)
    | some id ↦ elim (lookup id m.pool) [
      | none ↦ unlock_bound a.task_id id m
      | some p ↦ if fits a p.core then (m, none) else unlock_bound a.task_id id m
    ]
  ]
