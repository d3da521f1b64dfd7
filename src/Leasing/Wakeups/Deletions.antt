-- ===== src/Leasing/Wakeups/Deletions.antt =====
-- leasing/manager.go: proofs about what Delete and DeleteGroup wake.
use rogojin.Prelude.{
  ◌+◌, ◌≤◌, ◌<◌, ◌≡◌, ◌⊎◌, refl, String, List, [], ◌∷◌, ◌++◌, none, some, ite-both, str_dec, arith,
  inl, inr, Option-cases, List-cases,
}
use rogojin.Prelude.Map.{lookup}
use rogojin.Leasing.Types.{Env, Error, store_failed, global_group}
use rogojin.Leasing.State.{Manager, broadcast, holder_ids, members, pooled}
use rogojin.Leasing.Inventory.{
  Deleted, remove, delete_idle, delete_resource, first_held, drop_owner, delete_members,
  delete_group_row, delete_named_group, delete_group, owner_list,
}
use rogojin.Leasing.Wakeups.{SameLeases}
use rogojin.Leasing.Wakeups.Steps.{Woken, unchanged, same, stored}

module _ {X C S : Type 0} where
  -- A call broadcasts, or changes nothing that leasing reads.
  abbrev Roused : Manager X C S → Manager X C S → Type 0
  Roused m m' = (m.broadcasts < m'.broadcasts) ⊎ SameLeases m m'

  Roused-Woken : (m m' : Manager X C S) → Roused m m' → Woken m m'
  Roused-Woken m m' (inl up) = inl up
  Roused-Woken m m' (inr v) = unchanged m m' v

  drop_owner-broadcasts :
      (owner : String) (m : Manager X C S) → (drop_owner owner m).broadcasts ≡ m.broadcasts
  drop_owner-broadcasts owner m =
      ite-both (λ (r : Manager X C S). r.broadcasts ≡ m.broadcasts) (str_dec owner "") _ _ refl refl

module _ {X C S : Type 0} (env : Env X C S) where
  -- A removal that succeeds broadcasts, and one that fails changes only the store.
  remove-Roused :
      (id : String) (m : Manager X C S)
      → (((remove env id m).1 ≡ none) × ((remove env id m).0.broadcasts ≡ m.broadcasts + 1))
        ⊎ ((e : Error) × ((remove env id m).1 ≡ some e)
            × SameLeases m (remove env id m).0
            × ((remove env id m).0.broadcasts ≡ m.broadcasts))
  unfolding remove broadcast
  remove-Roused id m = elim (Option-cases (env.remove_row id m.store).0) [
    | inl gone ↦ inl (rw (gone, remove) refl, rw (gone, remove) refl)
    | inr (e, failed) ↦ inr (
      store_failed e,
      rw (failed, remove) refl,
      rw (failed, remove) (stored _ m),
      rw (failed, remove) refl,
    )
  ]

  pub delete_resource-Woken :
      (id : String) (m : Manager X C S) → Woken m (delete_resource env id m).0
  unfolding delete_resource delete_idle
  delete_resource-Woken id m = elim (Option-cases (lookup id m.pool)) [
    | inl missing ↦ rw (missing, delete_resource) (unchanged m _ (stored _ m))
    | inr (p, here) ↦ elim (List-cases (holder_ids m id)) [
      | inr (h, hs, held) ↦ rw (here, held, delete_resource) (unchanged m m (same m))
      | inl idle ↦ elim (remove-Roused id m) [
        | inl (fine, up) ↦
            rw (here, idle, delete_resource, fine, delete_idle)
              (inl (omega (arith, drop_owner-broadcasts p.owner_id (remove env id m).0, up)))
        | inr (e, failed, v, level) ↦
            rw (here, idle, delete_resource, failed, delete_idle) (unchanged m _ v)
      ]
    ]
  ]

  delete_members-Roused :
      (ids unbound : List String) (m : Manager X C S)
      → Roused m (delete_members env ids unbound m).0
        × (m.broadcasts ≤ (delete_members env ids unbound m).0.broadcasts)
  unfolding delete_members
  delete_members-Roused [] unbound m = (inr (same m), omega arith)
  delete_members-Roused (id ∷ ids) unbound m = elim (remove-Roused id m) [
    | inr (e, failed, v, level) ↦ rw (failed, delete_members) (inr v, omega (arith, level))
    | inl (fine, up) ↦
        let owner = (pooled env m id).owner_id in
        let m' = drop_owner owner (remove env id m).0 in
        let (later, kept) = delete_members-Roused ids (unbound ++ owner_list owner) m' in
        rw (fine, delete_members)
          (
            inl (omega (arith, kept, up, drop_owner-broadcasts owner (remove env id m).0)),
            omega (arith, kept, up, drop_owner-broadcasts owner (remove env id m).0),
          )
  ]

  delete_group_row-Roused :
      (id : String) (m : Manager X C S) (r : Manager X C S × Deleted)
      → Roused m r.0
      → m.broadcasts ≤ r.0.broadcasts
      → Roused m (delete_group_row env id r).0
  unfolding delete_group_row broadcast
  delete_group_row-Roused id m (m', d) soft kept = elim (Option-cases d.error) [
    | inr (e, failed) ↦ rw (failed, delete_group_row) soft
    | inl fine ↦ elim (Option-cases (env.remove_group id m'.store).0) [
      | inl gone ↦ rw (fine, gone, delete_group_row) (inl (omega (arith, kept)))
      | inr (e, failed) ↦
          rw (fine, failed, delete_group_row)
            (elim soft [
              | inl up ↦ inl up
              | inr v ↦ inr (record {
                same_pool = v.same_pool;
                same_holders = v.same_holders;
                same_bindings = v.same_bindings;
              })
            ])
    ]
  ]

  delete_named_group-Roused :
      (id : String) (m : Manager X C S) → Roused m (delete_named_group env id m).0
  unfolding delete_named_group
  delete_named_group-Roused id m = elim (Option-cases (lookup id m.groups)) [
    | inl missing ↦ rw (missing, delete_named_group) (inr (same m))
    | inr (g, here) ↦ elim (Option-cases (first_held env m (members env m id m.order))) [
      | inr ((held, hs), busy) ↦ rw (here, busy, delete_named_group) (inr (same m))
      | inl idle ↦
          let (soft, kept) = delete_members-Roused (members env m id m.order) [] m in
          rw (here, idle, delete_named_group) (delete_group_row-Roused id m _ soft kept)
    ]
  ]

  pub delete_group-Woken : (id : String) (m : Manager X C S) → Woken m (delete_group env id m).0
  unfolding delete_group
  delete_group-Woken id m =
      ite-both (λ (r : Manager X C S × Deleted). Woken m r.0) (str_dec id global_group) _ _
        (unchanged m m (same m)) (Roused-Woken m _ (delete_named_group-Roused id m))
