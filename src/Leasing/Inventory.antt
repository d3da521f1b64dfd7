-- ===== src/Leasing/Inventory.antt =====
-- leasing/manager.go: Add, Update, remove, Delete, DeleteGroup.
use rogojin.Prelude.{ℕ, String, List, [], ◌∷◌, ◌++◌, Option, none, some, ite, str_dec, sort_strings}
use rogojin.Prelude.Map.{lookup, insert, delete}
use rogojin.Leasing.Types.{
  Model, Env, Result, ok, err, Error, require, refuse, found, ◌>>=◌, ◌>>◌, global_group,
  id_required, already_exists, add_unlocked, group_not_found, not_in_pool, store_failed,
  resource_in_use, group_in_use, global_undeletable,
}
use rogojin.Leasing.State.{Manager, validate_holder_policy, holder_ids, broadcast, pooled, members}

-- What a callback that edits a record in place leaves: the struct it was handed, and what the
-- model's own fields of the pooled record read afterwards, where they share maps or slices with it.
pub record ModelEdit (X : Type 0) : Type 0 where
  pub edited : Model X
  pub shared_own : X

-- A deletion reports the tasks whose durable locks it released, also when it stops half way.
pub record Deleted : Type 0 where
  pub unbound : List String
  pub error : Option Error

abbrev pub nothing_deleted : Error → Deleted
nothing_deleted e = record { unbound = []; error = some e }

abbrev pub default_group : {X : Type 0} → Model X → Model X
default_group p = record p {
  core = record (p.core) { group_id = ite (str_dec p.group_id "") global_group p.group_id };
}

abbrev pub erase_first : String → List String → List String
erase_first id [] = []
erase_first id (i ∷ is) = ite (str_dec i id) is (i ∷ erase_first id is)

abbrev pub owner_list : String → List String
owner_list owner = ite (str_dec owner "") [] (owner ∷ [])

module _ {X C S : Type 0} where
  -- The guards of Add, in its order, and the record with its group settled.
  unfoldable pub check_add : Manager X C S → Model X → Result (Model X)
  unfolding validate_holder_policy
  check_add m p = do
    refuse (str_dec p.id "") id_required
    elim (lookup p.id m.pool) [ some _ ↦ err already_exists | none ↦ ok tt ]
    require (str_dec p.owner_id "") add_unlocked
    validate_holder_policy p.max_holders
    _ ← found (lookup (default_group p).group_id m.groups) group_not_found
    ok (default_group p)

  abbrev pub install_resource : Model X → Manager X C S → Manager X C S
  install_resource p m = record m { pool = insert p.id p m.pool; order = m.order ++ p.id ∷ [] }

  abbrev pub drop_resource : String → Manager X C S → Manager X C S
  drop_resource id m = record m {
    pool = delete id m.pool;
    holders = delete id m.holders;
    order = erase_first id m.order;
  }

  abbrev pub drop_binding : String → Manager X C S → Manager X C S
  drop_binding owner m = record m { bindings = delete owner m.bindings }

  abbrev pub drop_owner : String → Manager X C S → Manager X C S
  drop_owner owner m = ite (str_dec owner "") m (drop_binding owner m)

  abbrev pub drop_group : String → Manager X C S → Manager X C S
  drop_group id m = record m { groups = delete id m.groups; strategies = delete id m.strategies }

-- The record that Update saves: the edited one under the leasing fields as they were.
abbrev pub kept_core : {X : Type 0} → ℕ → Model X → Model X → Model X
kept_core now kept p = record p { core = record (kept.core) { updated_at = now } }

module _ {X C S : Type 0} (env : Env X C S) (now : ℕ) where
  unfoldable pub add : Model X → Manager X C S → Manager X C S × Result (Unit {0})
  unfolding check_add broadcast
  add p m = elim (check_add m p) [
    | err e ↦ (m, err e)
    | ok q ↦
        let stamped : Model X = record q {
          core = record (q.core) { created_at = now; updated_at = now };
        } in
        let (failure, s) = env.save stamped m.store in
        elim failure [
          | some e ↦ (record m { store = s }, err (store_failed e))
          | none ↦ (broadcast (install_resource stamped (record m { store = s })), ok tt)
        ]
  ]

  unfoldable pub update :
      String → (Model X → ModelEdit X) → Manager X C S → Manager X C S × Result (Unit {0})
  update id fn m = elim (lookup id m.pool) [
    | none ↦ (m, err not_in_pool)
    | some kept ↦
        let e = fn kept in
        let q = kept_core now kept e.edited in
        let (failure, s) = env.save q m.store in
        elim failure [
          | some x ↦
              let shared : Model X = record kept { own = e.shared_own } in
              (record m { store = s; pool = insert id shared m.pool }, err (store_failed x))
          | none ↦ (record m { store = s; pool = insert id q m.pool }, ok tt)
        ]
  ]

module _ {X C S : Type 0} (env : Env X C S) where
  -- The row goes first; the live resource and its leases only once the store has let go of it.
  unfoldable pub remove : String → Manager X C S → Manager X C S × Option Error
  unfolding broadcast
  remove id m =
      let (failure, s) = env.remove_row id m.store in
      elim failure [
        | some e ↦ (record m { store = s }, some (store_failed e))
        | none ↦ (broadcast (drop_resource id (record m { store = s })), none)
      ]

  -- Deletion of a pooled resource that nobody holds, and then of its binding.
  unfoldable pub delete_idle : String → String → Manager X C S → Manager X C S × Deleted
  unfolding remove
  delete_idle id owner m =
      let (m', failure) = remove id m in
      elim failure [
        | some e ↦ (m', nothing_deleted e)
        | none ↦ (drop_owner owner m', record { unbound = owner_list owner; error = none })
      ]

  unfoldable pub delete_resource : String → Manager X C S → Manager X C S × Deleted
  unfolding delete_idle holder_ids
  delete_resource id m = elim (lookup id m.pool) [
    | none ↦
        let (failure, s) = env.remove_row id m.store in
        let error : Option Error = elim failure [ none ↦ none | some e ↦ some (store_failed e) ] in
        (record m { store = s }, record { unbound = []; error = error })
    | some p ↦ elim (holder_ids m id) [
      | [] ↦ delete_idle id p.owner_id m
      | h ∷ hs ↦ (m, nothing_deleted (resource_in_use id (h ∷ hs)))
    ]
  ]

  -- The first member that somebody holds, with its holders.
  unfoldable pub first_held : Manager X C S → List String → Option (String × List String)
  unfolding holder_ids
  first_held m [] = none
  first_held m (id ∷ ids) = elim (holder_ids m id) [
    | [] ↦ first_held m ids
    | h ∷ hs ↦ some (id, h ∷ hs)
  ]

  -- The loop of DeleteGroup over the members; it stops at the first row that cannot be removed.
  unfoldable pub delete_members :
      List String → List String → Manager X C S → Manager X C S × Deleted
  unfolding remove pooled
  delete_members [] unbound m = (m, record { unbound = unbound; error = none })
  delete_members (id ∷ ids) unbound m =
      let owner = (pooled env m id).owner_id in
      let (m', failure) = remove id m in
      elim failure [
        | some e ↦ (m', record { unbound = unbound; error = some e })
        | none ↦ delete_members ids (unbound ++ owner_list owner) (drop_owner owner m')
      ]

  unfoldable pub delete_group_row : String → Manager X C S × Deleted → Manager X C S × Deleted
  unfolding broadcast
  delete_group_row id (m, d) = elim d.error [
    | some e ↦ (m, d)
    | none ↦
        let (failure, s) = env.remove_group id m.store in
        elim failure [
          | some e ↦ (record m { store = s }, record d { error = some (store_failed e) })
          | none ↦ (
            broadcast (drop_group id (record m { store = s })),
            record d { unbound = sort_strings d.unbound },
          )
        ]
  ]

  -- DeleteGroup behind its refusal of the global group.
  unfoldable pub delete_named_group : String → Manager X C S → Manager X C S × Deleted
  unfolding members first_held delete_members delete_group_row
  delete_named_group id m = elim (lookup id m.groups) [
    | none ↦ (m, nothing_deleted group_not_found)
    | some _ ↦ elim (first_held m (members env m id m.order)) [
      | some (held, hs) ↦ (m, nothing_deleted (group_in_use held hs))
      | none ↦ delete_group_row id (delete_members (members env m id m.order) [] m)
    ]
  ]

  unfoldable pub delete_group : String → Manager X C S → Manager X C S × Deleted
  unfolding delete_named_group
  delete_group id m =
      ite (str_dec id global_group) (m, nothing_deleted global_undeletable)
        (delete_named_group id m)
