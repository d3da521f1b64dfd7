-- ===== src/Leasing/Invariant/GroupDeletion.antt =====
-- leasing/manager.go: the invariant under DeleteGroup's cascade over the members.
use rogojin.Prelude.{
  ◌≡◌, ◌≢◌, refl, sym, subst, String, List, [], ◌∷◌, ◌++◌, none, some, ite, if_pos, if_neg, true,
  false, str_dec, arith, inl, inr, Option-cases,
}
use rogojin.Prelude.Map.{lookup, lookup-delete}
use rogojin.Leasing.Types.{Env, Model, global_group}
use rogojin.Leasing.State.{Manager, broadcast, pooled, members}
use rogojin.Leasing.Inventory.{
  Deleted, remove, drop_owner, owner_list, delete_members, delete_group_row, delete_group,
  delete_named_group, first_held,
}
use rogojin.Leasing.Invariant.{IsValid, contains}
use rogojin.Leasing.Invariant.Rows.{store-IsValid, broadcast-IsValid, drop_group-IsValid}
use rogojin.Leasing.Invariant.RecordCalls.{remove_owned-IsValid, remove_failed-IsValid}

module _ {X C S : Type 0} (env : Env X C S) where
  delete_members-IsValid :
      (ids unbound : List String) (m : Manager X C S)
      → IsValid m
      → IsValid (delete_members env ids unbound m).0
  unfolding delete_members
  delete_members-IsValid [] unbound m v = v
  delete_members-IsValid (id ∷ ids) unbound m v = elim (Option-cases (remove env id m).1) [
    | inl gone ↦
        rw (gone, delete_members)
          (delete_members-IsValid ids _ _ (remove_owned-IsValid env id m v gone))
    | inr (x, failed) ↦ rw (failed, delete_members) (remove_failed-IsValid env id x m v failed)
  ]

  -- `remove` takes one record out of the pool, and no other.
  lookup-remove :
      (id j : String) (m : Manager X C S)
      → (remove env id m).1 ≡ none
      → lookup j (remove env id m).0.pool ≡ ite (str_dec id j) none (lookup j m.pool)
  unfolding remove broadcast
  lookup-remove id j m gone = ground (arith, lookup-delete id j m.pool)

  drop_owner-pool : (owner : String) (m : Manager X C S) → (drop_owner owner m).pool ≡ m.pool
  drop_owner-pool owner m = ground arith

  -- What is still pooled after the loop was pooled before, and is not on the list.
  delete_members-pool :
      (ids unbound : List String) (m : Manager X C S) (j : String) (p : Model X)
      → (delete_members env ids unbound m).1.error ≡ none
      → lookup j (delete_members env ids unbound m).0.pool ≡ some p
      → (contains j ids ≡ false) × (lookup j m.pool ≡ some p)
  unfolding delete_members contains
  delete_members-pool [] unbound m j p done here = (refl, here)
  delete_members-pool (id ∷ ids) unbound m j p done here = elim (Option-cases (remove env id m).1) [
    | inl gone ↦
        let owner = (pooled env m id).owner_id in
        let (unlisted, there) =
          delete_members-pool ids (unbound ++ owner_list owner)
            (drop_owner owner (remove env id m).0) j p (rw (gone, delete_members) at done)
            (rw (gone, delete_members) at here) in
        ground (arith, drop_owner-pool owner (remove env id m).0, lookup-remove id j m gone)
    | inr (x, failed) ↦ absurd (cc (rw (failed, delete_members) at done))
  ]

  -- Every pooled record of the group is on the list of its members.
  members_complete :
      (m : Manager X C S) (g j : String) (p : Model X) (order : List String)
      → lookup j m.pool ≡ some p
      → p.group_id ≡ g
      → contains j order ≡ true
      → contains j (members env m g order) ≡ true
  unfolding members pooled contains
  members_complete m g j p [] here grouped listed = listed
  members_complete m g j p (id ∷ ids) here grouped listed =
      ground (arith, members_complete m g j p ids here grouped)

  delete_group_row-IsValid :
      (id : String) (r : Manager X C S × Deleted)
      → id ≢ global_group
      → IsValid r.0
      → (r.1.error ≡ none
          → (j : String) (p : Model X) → lookup j r.0.pool ≡ some p
          → p.group_id ≢ id)
      → IsValid (delete_group_row env id r).0
  unfolding delete_group_row broadcast
  delete_group_row-IsValid id (m, d) other v empty = elim (Option-cases d.error) [
    | inr (x, failed) ↦ rw (failed, delete_group_row) v
    | inl done ↦ elim (Option-cases (env.remove_group id m.store).0) [
      | inr (x, failed) ↦ rw (done, failed, delete_group_row) (store-IsValid m v _)
      | inl gone ↦
          rw (done, gone, delete_group_row)
            (broadcast-IsValid _ (drop_group-IsValid _ (store-IsValid m v _) id other (empty done)))
    ]
  ]

  delete_named_group-IsValid :
      (id : String) (m : Manager X C S)
      → IsValid m
      → id ≢ global_group
      → IsValid (delete_named_group env id m).0
  unfolding delete_named_group
  delete_named_group-IsValid id m v other = elim (Option-cases (lookup id m.groups)) [
    | inl missing ↦ rw (missing, delete_named_group) v
    | inr (g, here) ↦ elim (Option-cases (first_held env m ids)) [
      | inr (held, busy) ↦ rw (here, busy, delete_named_group) v
      | inl idle ↦
          rw (here, idle, delete_named_group)
            (delete_group_row-IsValid id (delete_members env ids [] m) other
              (delete_members-IsValid ids [] m v) empty)
    ]
  ]
    where
      ids : List String
      ids = members env m id m.order

      empty :
          (delete_members env ids [] m).1.error ≡ none
          → (j : String) (p : Model X) → lookup j (delete_members env ids [] m).0.pool ≡ some p
          → p.group_id ≢ id
      empty done j p there grouped =
          let (unlisted, before) = delete_members-pool ids [] m j p done there in
          cc (unlisted, members_complete m id j p m.order before grouped (v.listed j p before))

  pub delete_group-IsValid :
      (id : String) (m : Manager X C S) → IsValid m → IsValid (delete_group env id m).0
  unfolding delete_group
  delete_group-IsValid id m v = elim (str_dec id global_group) [
    | yes global ↦
        subst {A = Manager X C S × Deleted} (λ r. IsValid r.0)
          (sym (if_pos (str_dec id global_group) global _ _)) v
    | no other ↦
        subst {A = Manager X C S × Deleted} (λ r. IsValid r.0)
          (sym (if_neg (str_dec id global_group) other _ _))
          (delete_named_group-IsValid id m v other)
  ]
