-- ===== src/Leasing/Wakeups/Steps.antt =====
-- leasing/manager.go: proofs about which calls broadcast, and what the others change.
use rogojin.Prelude.{
  ℕ, ◌<◌, ◌≡◌, ◌⊎◌, refl, sym, ap, subst, ◌∙◌, String, Option, none, some, ite, str_dec, arith, inl,
  inr, Option-cases, Bool-cases,
}
use rogojin.Prelude.Map.{lookup, insert, lookup-insert}
use rogojin.Leasing.Types.{Model, Group, Assignment, Env, Result-cases}
use rogojin.Leasing.State.{Manager, held_count, effective_cap, release, broadcast}
use rogojin.Leasing.Groups.{
  GroupEdit, validate_new_group, validate_group, create_group, update_group, update_found,
  kept_identity,
}
use rogojin.Leasing.Inventory.{ModelEdit, check_add, add, update, kept_core}
use rogojin.Leasing.Locks.{unlock, unlock_bound, release_stale_lock, fits, unowned}
use rogojin.Leasing.Invariant.{IsValid}
use rogojin.Leasing.Wakeups.{Unrelieved, SameLeases, SameLeases-Unrelieved, Alike, Alike-refl}

module _ {X C S : Type 0} where
  -- A call broadcasts, or leaves all that wait without relief.
  abbrev pub Woken : Manager X C S → Manager X C S → Type 0
  Woken m m' = (m.broadcasts < m'.broadcasts) ⊎ Unrelieved m m'

  pub unchanged : (m m' : Manager X C S) → SameLeases m m' → Woken m m'
  unchanged m m' v = inr (SameLeases-Unrelieved m m' v)

  pub same : (m : Manager X C S) → SameLeases m m
  same m = record { same_pool = refl; same_holders = refl; same_bindings = refl }

  pub release-Woken : (id t : String) (m : Manager X C S) → Woken m (release id t m)
  unfolding release broadcast
  release-Woken id t m = inl (omega arith)

module _ {X C S : Type 0} where
  pub stored : (s : S) (m : Manager X C S) → SameLeases m (record m { store = s })
  stored s m = record { same_pool = refl; same_holders = refl; same_bindings = refl }

  -- A record edited in fields that leasing does not read.
  edited :
      (m : Manager X C S) (id : String) (kept q : Model X) (s : S)
      → lookup id m.pool ≡ some kept
      → Alike kept q
      → Unrelieved m (record m { store = s; pool = insert id q m.pool })
  unfolding held_count
  edited m id kept q s here alike = record {
    bound = λ t j e. e;
    leases = λ j. omega arith;
    records = λ j r there. inr (pick j r (str_dec id j) (lookup-insert id j q m.pool) there);
  }
    where
      some-inj : {x y : Model X} → some x ≡ some y → x ≡ y
      some-inj {x} {y} e = ap (λ (o : Option (Model X)). elim o [ none ↦ x | some z ↦ z ]) e

      pick :
          (j : String) (r : Model X) (d : Dec (id ≡ j))
          → lookup j (insert id q m.pool) ≡ ite d (some q) (lookup j m.pool)
          → lookup j (insert id q m.pool) ≡ some r
          → (p : Model X) × (lookup j m.pool ≡ some p) × Alike p r
      pick j r (yes e) law there =
          (kept, rw (← e) here, subst (Alike kept) (some-inj (sym law ∙ there)) alike)
      pick j r (no apart) law there = (r, sym law ∙ there, Alike-refl r)

module _ {X C S : Type 0} (env : Env X C S) (now : ℕ) where
  pub unlock_bound-Woken :
      (t id : String) (m : Manager X C S)
      → IsValid m
      → lookup t m.bindings ≡ some id
      → Woken m (unlock_bound env now t id m).0
  unfolding unlock_bound broadcast
  unlock_bound-Woken t id m v bound =
      let (p, here, owner, some_task) = v.bound t id bound in
      elim (Option-cases (env.save (unowned now p) m.store).0) [
        | inl fine ↦ rw (here, fine, unlock_bound) (inl (omega arith))
        | inr (e, failed) ↦
            rw (here, failed, unlock_bound)
              (unchanged m _
                (record { same_pool = refl; same_holders = refl; same_bindings = refl }))
      ]

  pub unlock-Woken : (t : String) (m : Manager X C S) → IsValid m → Woken m (unlock env now t m).0
  unfolding unlock
  unlock-Woken t m v = elim (Option-cases (lookup t m.bindings)) [
    | inl free ↦ rw (free, unlock) (unchanged m m (same m))
    | inr (id, bound) ↦ rw (bound, unlock) (unlock_bound-Woken t id m v bound)
  ]

  pub release_stale_lock-Woken :
      (a : Assignment) (m : Manager X C S) → IsValid m → Woken m (release_stale_lock env now a m).0
  unfolding release_stale_lock
  release_stale_lock-Woken a m v = elim (Option-cases (lookup a.task_id m.bindings)) [
    | inl free ↦ rw (free, release_stale_lock) (unchanged m m (same m))
    | inr (id, bound) ↦
        let (p, here, owner, some_task) = v.bound a.task_id id bound in
        elim (Bool-cases (fits a p.core)) [
          | inl kept ↦ rw (bound, here, kept, release_stale_lock) (unchanged m m (same m))
          | inr stale ↦
              rw (bound, here, stale, release_stale_lock)
                (unlock_bound-Woken a.task_id id m v bound)
        ]
  ]

  pub add-Woken : (p : Model X) (m : Manager X C S) → Woken m (add env now p m).0
  unfolding add broadcast
  add-Woken p m = elim (Result-cases (check_add m p)) [
    | inl (e, refused) ↦ rw (refused, add) (unchanged m m (same m))
    | inr (q, fine) ↦
        elim (Option-cases
          (env.save (record q { core = record (q.core) { created_at = now; updated_at = now } })
            m.store).0) [
              | inl saved ↦ rw (fine, saved, add) (inl (omega arith))
              | inr (e, failed) ↦ rw (fine, failed, add) (unchanged m _ (stored _ m))
            ]
  ]

  pub update-Woken :
      (id : String) (fn : Model X → ModelEdit X) (m : Manager X C S)
      → Woken m (update env now id fn m).0
  unfolding update effective_cap
  update-Woken id fn m = elim (Option-cases (lookup id m.pool)) [
    | inl missing ↦ rw (missing, update) (unchanged m m (same m))
    | inr (kept, here) ↦
        elim (Option-cases (env.save (kept_core now kept (fn kept).edited) m.store).0) [
          | inl saved ↦
              rw (here, saved, update)
                (inr (
                  edited m id kept (kept_core now kept (fn kept).edited) _ here (record {
                    same_id = refl;
                    same_group = refl;
                    same_owner = refl;
                    same_cap = refl;
                  })))
          | inr (e, failed) ↦
              rw (here, failed, update)
                (inr (
                  edited m id kept (record kept { own = (fn kept).shared_own }) _ here
                    (record {
                      same_id = refl;
                      same_group = refl;
                      same_owner = refl;
                      same_cap = refl;
                    })))
        ]
  ]

  pub create_group-Woken : (g : Group) (m : Manager X C S) → Woken m (create_group env now g m).0
  unfolding create_group
  create_group-Woken g m = elim (Result-cases (validate_new_group m g)) [
    | inl (e, refused) ↦ rw (refused, create_group) (unchanged m m (same m))
    | inr (fresh, fine) ↦
        elim (Option-cases
          (env.save_group (record g { created_at = now; updated_at = now }) m.store).0) [
            | inl saved ↦
                rw (fine, saved, create_group)
                  (unchanged m _
                    (record { same_pool = refl; same_holders = refl; same_bindings = refl }))
            | inr (e, failed) ↦ rw (fine, failed, create_group) (unchanged m _ (stored _ m))
          ]
  ]

  pub update_group-Woken :
      (id : String) (fn : Group → GroupEdit) (m : Manager X C S)
      → Woken m (update_group env now id fn m).0
  unfolding update_group
  update_group-Woken id fn m = elim (Option-cases (lookup id m.groups)) [
    | inl missing ↦ rw (missing, update_group) (unchanged m m (same m))
    | inr (kept, here) ↦
        let g = kept_identity now kept (fn kept).edited in
        elim (Result-cases (validate_group m g)) [
          | inl (e, refused) ↦
              rw (here, refused, update_group, update_found)
                (unchanged m _
                  (record { same_pool = refl; same_holders = refl; same_bindings = refl }))
          | inr (fresh, fine) ↦ elim (Option-cases (env.save_group g m.store).0) [
            | inl saved ↦
                rw (here, fine, saved, update_group, update_found)
                  (unchanged m _
                    (record { same_pool = refl; same_holders = refl; same_bindings = refl }))
            | inr (e, failed) ↦
                rw (here, fine, failed, update_group, update_found)
                  (unchanged m _
                    (record { same_pool = refl; same_holders = refl; same_bindings = refl }))
          ]
        ]
  ]
