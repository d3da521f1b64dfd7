-- ===== src/Leasing/Invariant/GroupCalls.antt =====
-- leasing/manager.go: the invariant under CreateGroup and UpdateGroup.
use rogojin.Prelude.{ℕ, ◌≡◌, refl, String, some, if_pos, if_neg, str_dec, inl, inr, Option-cases}
use rogojin.Prelude.Map.{lookup, insert}
use rogojin.Leasing.Types.{Env, Group, Selection, Result-cases}
use rogojin.Leasing.State.{Manager}
use rogojin.Leasing.Groups.{
  replace_group, strategy_name, GroupEdit, create_group, update_group, update_found, validate_group,
  validate_new_group, kept_identity,
}
use rogojin.Leasing.Invariant.{IsValid, Defined}
use rogojin.Leasing.Invariant.Rows.{
  Defined-insert, store-IsValid, install_group-IsValid, rewrite_group-IsValid,
}

module _ {X C S : Type 0} (env : Env X C S) (now : ℕ) (m : Manager X C S) (v : IsValid m) where
  pub create_group-IsValid : (g : Group) → IsValid (create_group env now g m).0
  unfolding create_group
  create_group-IsValid g = elim (Result-cases (validate_new_group m g)) [
    | inl (e, refused) ↦ rw (refused, create_group) v
    | inr (fresh, valid) ↦
        let stamped : Group = record g { created_at = now; updated_at = now } in
        let stored = store-IsValid m v (env.save_group stamped m.store).1 in
        elim (Option-cases (env.save_group stamped m.store).0) [
          | inl saved ↦
              rw (valid, saved, create_group) (install_group-IsValid _ stored stamped fresh)
          | inr (x, refused) ↦ rw (valid, refused, create_group) stored
        ]
  ]

  shared_refs-IsValid :
      (id : String) (kept : Group) (e : GroupEdit)
      → lookup id m.groups ≡ some kept
      → IsValid (record m { groups = insert id (record kept { refs = e.shared_refs }) m.groups })
  shared_refs-IsValid id kept e here =
      rewrite_group-IsValid m v id kept (record kept { refs = e.shared_refs }) m.strategies here
        refl (λ k d. d)

  restarted :
      (id k : String) (g kept : Group) (fresh : Selection C)
      → Defined k m.strategies
      → Defined k (replace_group id g kept fresh m).strategies
  restarted id k g kept fresh d = elim (str_dec (strategy_name g) (strategy_name kept)) [
    | yes same ↦ rw (if_pos _ same) d
    | no ne ↦ rw (if_neg _ ne) (Defined-insert id k fresh m.strategies d)
  ]

  update_found-IsValid :
      (id : String) (kept : Group) (e : GroupEdit)
      → lookup id m.groups ≡ some kept
      → IsValid (update_found env now id kept e m).0
  update_found-IsValid id kept e here =
      elim (Result-cases (validate_group m (kept_identity now kept e.edited))) [
        | inl (x, refused) ↦ rw (refused, update_found) (shared_refs-IsValid id kept e here)
        | inr (fresh, valid) ↦
            let g : Group = kept_identity now kept e.edited in
            elim (Option-cases (env.save_group g m.store).0) [
              | inl saved ↦
                  rw (valid, saved, update_found)
                    (rewrite_group-IsValid (record m { store = (env.save_group g m.store).1 })
                      (store-IsValid m v _) id kept g _ here refl
                      (λ k. restarted id k g kept fresh))
              | inr (x, refused) ↦
                  rw (valid, refused, update_found)
                    (store-IsValid _ (shared_refs-IsValid id kept e here) _)
            ]
      ]

  pub update_group-IsValid :
      (id : String) (fn : Group → GroupEdit) → IsValid (update_group env now id fn m).0
  unfolding update_group
  update_group-IsValid id fn = elim (Option-cases (lookup id m.groups)) [
    | inl missing ↦ rw (missing, update_group) v
    | inr (kept, here) ↦ rw (here, update_group) (update_found-IsValid id kept (fn kept) here)
  ]
