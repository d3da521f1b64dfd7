-- ===== src/Leasing/Outcomes/Releasing.antt =====
-- leasing/manager.go: what Release and Unlock undo.
use rogojin.Prelude.{
  ℕ, ◌+◌, ◌≡◌, ◌≢◌, refl, String, Option, none, some, str_dec, arith, ◌⊎◌, inl, inr, Option-cases,
}
use rogojin.Prelude.Map.{lookup, lookup-insert, lookup-delete}
use rogojin.Leasing.Types.{Env, Model, Error, store_failed}
use rogojin.Leasing.State.{Manager, count_of, holders_of, hold, release, broadcast}
use rogojin.Leasing.State.Holds.{count-hold, count-unhold}
use rogojin.Leasing.Locks.{unlock, unlock_bound, unowned}
use rogojin.Leasing.Invariant.{IsValid}

module _ {X C S : Type 0} where
  -- A lease that is counted and then released leaves every task's count on every resource as it was,
  -- and wakes the waiting calls.
  pub release-hold :
      (m : Manager X C S) (id t j u : String)
      → (count_of u
            (holders_of j (release id t (record m { holders = hold id t m.holders })).holders)
          ≡ count_of u (holders_of j m.holders))
        × ((release id t (record m { holders = hold id t m.holders })).broadcasts
            ≡ m.broadcasts + 1)
  unfolding release broadcast
  release-hold m id t j u = (
    rw (count-unhold id t j u (hold id t m.holders))
        (ground (arith, count-hold id t j u m.holders)),
    refl,
  )

module _ {X C S : Type 0} (env : Env X C S) (now : ℕ) where
  -- Unlock by its result: the task has no binding left, and a resource that it was bound to has been
  -- saved and stands without an owner; or the store has refused that save, and neither has changed.
  -- Live leases stay in both.
  abbrev pub Unlocking : String → Manager X C S → Manager X C S × Option Error → Type 0
  Unlocking t m (m', none) =
      (lookup t m'.bindings ≡ none)
      × (m'.holders ≡ m.holders)
      × ((id : String)
          → (lookup t m.bindings ≢ some id)
            ⊎ ((p : Model X) × (lookup id m.pool ≡ some p)
                × ((env.save (unowned now p) m.store).0 ≡ none)
                × (m'.store ≡ (env.save (unowned now p) m.store).1)
                × (lookup id m'.pool ≡ some (unowned now p))
                × (m'.broadcasts ≡ m.broadcasts + 1)))
  Unlocking t m (m', some e) =
      (id : String) × (p : Model X) × (x : String) × (lookup t m.bindings ≡ some id)
      × (lookup id m.pool ≡ some p)
      × ((env.save (unowned now p) m.store).0 ≡ some x)
      × (e ≡ store_failed x)
      × (m' ≡ record m { store = (env.save (unowned now p) m.store).1 })

module _ {X C S : Type 0} (env : Env X C S) (now : ℕ) (m : Manager X C S) where
  -- Unlock on a valid manager: it fails only where the store refuses the save of the resource that
  -- the task is bound to, without its owner, and then only the store changes; else the task has no
  -- binding, a resource it was bound to has been saved and stands in the pool without its owner, and
  -- the waiting calls are woken if there was one. Live leases are never touched.
  pub unlock-Unlocking : (t : String) → IsValid m → Unlocking env now t m (unlock env now t m)
  unfolding unlock unlock_bound broadcast
  unlock-Unlocking t v = elim (Option-cases (lookup t m.bindings)) [
    | inl unbound ↦ rw (unbound, unlock) (unbound, refl, λ id. inl (λ e. cc (unbound, e)))
    | inr (id, e) ↦
        let (p, here, own, named) = v.bound t id e in
        elim (Option-cases (env.save (unowned now p) m.store).0) [
          | inr (x, refused) ↦
              rw (e, here, refused, unlock_bound, unlock) (id, p, x, e, here, refused, refl, refl)
          | inl saved ↦
              rw (e, here, saved, unlock_bound, unlock)
                (
                  ground (arith, lookup-delete t t m.bindings),
                  refl,
                  λ j. elim (str_dec id j) [
                    | yes same ↦ inr (
                      p,
                      rw (← same) here,
                      saved,
                      refl,
                      ground (arith, lookup-insert id j (unowned now p) m.pool),
                      refl,
                    )
                    | no ne ↦ inl (λ e'. ne (cc (e, e')))
                  ],
                )
        ]
  ]
