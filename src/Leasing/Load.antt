-- ===== src/Leasing/Load.antt =====
-- leasing/manager.go: NewManager, which loads the groups and the pool from the repository.
use rogojin.Prelude.{ℕ, String, List, [], ◌∷◌, none, some, ite, str_dec}
use rogojin.Prelude.Map.{Map, lookup, insert}
use rogojin.Leasing.Types.{
  Model, Group, Env, Selection, round_robin, Result, ok, err, ◌>>=◌, ◌>>◌, found, global_group,
  strategy_round_robin, duplicate_id, group_not_found, locked_twice, store_failed,
}
use rogojin.Leasing.State.{Manager, validate_holder_policy}
use rogojin.Leasing.Groups.{adopt_group}
use rogojin.Leasing.Inventory.{default_group, install_resource}

module _ {X C S : Type 0} where
  -- The manager before anything is loaded: the options have registered their strategies, over the
  -- round robin that is always there.
  unfoldable pub fresh_manager : List (String × Selection C) → S → Manager X C S
  fresh_manager opts s = record {
    store = s;
    factories = register opts (insert strategy_round_robin (round_robin 0) []);
    groups = [];
    strategies = [];
    pool = [];
    order = [];
    holders = [];
    bindings = [];
    broadcasts = 0;
  }
    where
      register : List (String × Selection C) → Map (Selection C) → Map (Selection C)
      register [] fs = fs
      register ((name, fresh) ∷ rest) fs = register rest (insert name fresh fs)

  -- The loop over the listed groups.
  unfoldable pub load_groups : List Group → Manager X C S → Result (Manager X C S)
  unfolding adopt_group
  load_groups [] m = ok m
  load_groups (g ∷ gs) m = elim (lookup g.id m.groups) [
    | some _ ↦ err duplicate_id
    | none ↦ adopt_group g m >>= load_groups gs
  ]

  -- The owner of a loaded record gets its binding, and may have one only.
  unfoldable pub load_binding : Model X → Manager X C S → Result (Manager X C S)
  load_binding p m = ite (str_dec p.owner_id "") (ok m) (elim (lookup p.owner_id m.bindings) [
    | some _ ↦ err locked_twice
    | none ↦ ok (record m { bindings = insert p.owner_id p.id m.bindings })
  ])

  unfoldable pub load_record : Model X → Manager X C S → Result (Manager X C S)
  unfolding load_binding validate_holder_policy
  load_record p m = elim (lookup p.id m.pool) [
    | some _ ↦ err duplicate_id
    | none ↦ do
      _ ← found (lookup (default_group p).group_id m.groups) group_not_found
      validate_holder_policy p.max_holders
      load_binding (default_group p) (install_resource (default_group p) m)
  ]

  unfoldable pub load_records : List (Model X) → Manager X C S → Result (Manager X C S)
  unfolding load_record
  load_records [] m = ok m
  load_records (p ∷ ps) m = load_record p m >>= load_records ps

module _ {X C S : Type 0} (env : Env X C S) (now : ℕ) where
  -- The global group is there, or it is made and saved.
  unfoldable pub ensure_global : Manager X C S → Result (Manager X C S)
  unfolding adopt_group
  ensure_global m = elim (lookup global_group m.groups) [
    | some _ ↦ ok m
    | none ↦
        let g : Group = record {
          id = global_group;
          strategy = strategy_round_robin;
          refs = [];
          created_at = now;
          updated_at = now;
        } in
        let (failure, s) = env.save_group g m.store in
        elim failure [
          | some e ↦ err (store_failed e)
          | none ↦ adopt_group g (record m { store = s })
        ]
  ]

  unfoldable pub new_manager : List (String × Selection C) → S → Result (Manager X C S)
  unfolding fresh_manager load_groups ensure_global load_records
  new_manager opts s = do
    listed_groups ← found (env.list_groups s) (store_failed "load groups")
    m ← load_groups listed_groups (fresh_manager opts s)
    m' ← ensure_global m
    listed ← found (env.list m'.store) (store_failed "load pool")
    load_records listed m'
