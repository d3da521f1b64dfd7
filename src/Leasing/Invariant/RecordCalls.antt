-- ===== src/Leasing/Invariant/RecordCalls.antt =====
-- leasing/manager.go: the invariant under Add, Update and Delete.
use rogojin.Prelude.{
  ℕ, ◌≡◌, ◌≢◌, refl, String, none, some, arith, ◌⊎◌, inl, inr, Option-cases, List-cases,
}
use rogojin.Prelude.Map.{lookup}
use rogojin.Leasing.Types.{ok, Error, Env, Model, Result-cases}
use rogojin.Leasing.State.{Manager, broadcast, holder_ids, pooled, validate_holder_policy}
use rogojin.Leasing.Inventory.{
  ModelEdit, add, update, check_add, kept_core, remove, delete_idle, delete_resource, drop_resource,
  drop_owner, default_group,
}
use rogojin.Leasing.Invariant.{IsValid, Defined}
use rogojin.Leasing.Invariant.Rows.{store-IsValid, broadcast-IsValid}
use rogojin.Leasing.Invariant.Records.{install-IsValid, drop-IsValid, drop_absent-IsValid}
use rogojin.Leasing.Invariant.Bindings.{own-IsValid}

module _ {X C S : Type 0} (m : Manager X C S) where
  check_add-guards :
      (p q : Model X)
      → check_add m p ≡ ok q
      → (q ≡ default_group p)
        × (p.id ≢ "")
        × (lookup p.id m.pool ≡ none)
        × (p.owner_id ≡ "")
        × (validate_holder_policy p.max_holders ≡ ok tt)
        × Defined (default_group p).group_id m.groups
  unfolding check_add
  check_add-guards p q e = ground arith

  -- What Add has checked when it goes on.
  pub check_add-ok :
      (p q : Model X)
      → check_add m p ≡ ok q
      → (q ≡ default_group p)
        × (q.id ≢ "")
        × (lookup q.id m.pool ≡ none)
        × (q.owner_id ≡ "")
        × (validate_holder_policy q.max_holders ≡ ok tt)
        × Defined q.group_id m.groups
  check_add-ok p q e =
      let g = check_add-guards p q e in
      (g.0, rw g.0 g.1, rw g.0 g.2, rw g.0 g.3, rw g.0 g.4, rw g.0 g.5)

module _ {X C S : Type 0} (env : Env X C S) (now : ℕ) (m : Manager X C S) (v : IsValid m) where
  pub add-IsValid : (p : Model X) → IsValid (add env now p m).0
  unfolding add
  add-IsValid p = elim (Result-cases (check_add m p)) [
    | inl (e, refused) ↦ rw (refused, add) v
    | inr (q, valid) ↦
        let stamped : Model X = record q {
          core = record (q.core) { created_at = now; updated_at = now };
        } in
        let stored = store-IsValid m v (env.save stamped m.store).1 in
        let checked = check_add-ok m p q valid in
        elim (Option-cases (env.save stamped m.store).0) [
          | inl saved ↦
              rw (valid, saved, add)
                (broadcast-IsValid _
                  (install-IsValid _ stored stamped checked.2 checked.5 checked.3 checked.4))
          | inr (x, refused) ↦ rw (valid, refused, add) stored
        ]
  ]

  pub update-IsValid :
      (id : String) (fn : Model X → ModelEdit X) → IsValid (update env now id fn m).0
  unfolding update
  update-IsValid id fn = elim (Option-cases (lookup id m.pool)) [
    | inl missing ↦ rw (missing, update) v
    | inr (kept, here) ↦
        let q : Model X = kept_core now kept (fn kept).edited in
        let stored = store-IsValid m v (env.save q m.store).1 in
        elim (Option-cases (env.save q m.store).0) [
          | inl saved ↦
              rw (here, saved, update) (own-IsValid _ stored id kept here q refl refl refl refl)
          | inr (x, refused) ↦
              rw (here, refused, update) (own-IsValid _ stored id kept here _ refl refl refl refl)
        ]
  ]

module _ {X C S : Type 0} (env : Env X C S) where
  -- A removed row takes the record, its leases and its owner's binding with it.
  pub remove_owned-IsValid :
      (id : String) (m : Manager X C S)
      → IsValid m
      → (remove env id m).1 ≡ none
      → IsValid (drop_owner (pooled env m id).owner_id (remove env id m).0)
  unfolding remove pooled broadcast
  remove_owned-IsValid id m v gone = elim (Option-cases (env.remove_row id m.store).0) [
    | inr (x, failed) ↦ absurd (cc (rw (failed, remove) at gone))
    | inl removed ↦ rw (removed, remove) (dropped (Option-cases (lookup id m.pool)))
  ]
    where
      m' : Manager X C S
      m' = broadcast (record m { store = (env.remove_row id m.store).1 })

      v' : IsValid m'
      v' = broadcast-IsValid _ (store-IsValid m v _)

      dropped :
          (lookup id m.pool ≡ none) ⊎ ((p : Model X) × (lookup id m.pool ≡ some p))
          → IsValid (drop_owner (pooled env m id).owner_id (drop_resource id m'))
      dropped (inl absent) = rw (absent, pooled) (drop_absent-IsValid m' v' id absent)
      dropped (inr (p, here)) = rw (here, pooled) (drop-IsValid m' v' id p here)

  pub remove_failed-IsValid :
      (id : String) (x : Error) (m : Manager X C S)
      → IsValid m
      → (remove env id m).1 ≡ some x
      → IsValid (remove env id m).0
  unfolding remove
  remove_failed-IsValid id x m v failed = elim (Option-cases (env.remove_row id m.store).0) [
    | inl removed ↦ absurd (cc (rw (removed, remove) at failed))
    | inr (y, e) ↦ rw (e, remove) (store-IsValid m v _)
  ]

  delete_idle-IsValid :
      (id : String) (p : Model X) (m : Manager X C S)
      → IsValid m
      → lookup id m.pool ≡ some p
      → IsValid (delete_idle env id p.owner_id m).0
  unfolding delete_idle pooled
  delete_idle-IsValid id p m v here = elim (Option-cases (remove env id m).1) [
    | inl gone ↦ rw (gone, delete_idle) (rw (here, pooled) at (remove_owned-IsValid id m v gone))
    | inr (x, failed) ↦ rw (failed, delete_idle) (remove_failed-IsValid id x m v failed)
  ]

  pub delete_resource-IsValid :
      (id : String) (m : Manager X C S) → IsValid m → IsValid (delete_resource env id m).0
  unfolding delete_resource
  delete_resource-IsValid id m v = elim (Option-cases (lookup id m.pool)) [
    | inl absent ↦ rw (absent, delete_resource) (store-IsValid m v _)
    | inr (p, here) ↦ elim (List-cases (holder_ids m id)) [
      | inl idle ↦ rw (here, idle, delete_resource) (delete_idle-IsValid id p m v here)
      | inr (h, hs, busy) ↦ rw (here, busy, delete_resource) v
    ]
  ]
