-- ===== src/Leasing/Groups.antt =====
-- leasing/manager.go: validateGroup, adoptGroup, CreateGroup, UpdateGroup.
use rogojin.Prelude.{ℕ, String, none, some, ite, str_dec}
use rogojin.Prelude.Map.{Map, lookup, insert}
use rogojin.Leasing.Types.{
  Group, Env, Selection, Result, ok, err, refuse, found, ◌>>=◌, ◌>>◌, strategy_round_robin,
  id_required, already_exists, group_not_found, unknown_strategy, store_failed,
}
use rogojin.Leasing.State.{Manager}

-- The strategy a group runs: its own, or round robin when it names none.
unfoldable pub strategy_name : Group → String
strategy_name g = ite (str_dec g.strategy "") strategy_round_robin g.strategy

-- What a callback that edits a group in place leaves: the struct it was handed, and the contents
-- of the Refs map that this struct shared with the manager's copy.
pub record GroupEdit : Type 0 where
  pub edited : Group
  pub shared_refs : Map String

module _ {X C S : Type 0} where
  -- The fresh strategy instance of the group's factory.
  unfoldable pub validate_group : Manager X C S → Group → Result (Selection C)
  unfolding strategy_name
  validate_group m g = do
    refuse (str_dec g.id "") id_required
    found (lookup (strategy_name g) m.factories) unknown_strategy

  abbrev pub install_group : Group → Selection C → Manager X C S → Manager X C S
  install_group g fresh m = record m {
    groups = insert g.id g m.groups;
    strategies = insert g.id fresh m.strategies;
  }

  unfoldable pub adopt_group : Group → Manager X C S → Result (Manager X C S)
  unfolding validate_group
  adopt_group g m = do fresh ← validate_group m g; ok (install_group g fresh m)

  abbrev pub validate_new_group : Manager X C S → Group → Result (Selection C)
  validate_new_group m g = elim (lookup g.id m.groups) [
    | some _ ↦ err already_exists
    | none ↦ validate_group m g
  ]

  abbrev pub replace_group : String → Group → Group → Selection C → Manager X C S → Manager X C S
  replace_group id g kept fresh m = record m {
    groups = insert id g m.groups;
    strategies =
        ite (str_dec (strategy_name g) (strategy_name kept)) m.strategies
          (insert id fresh m.strategies);
  }

-- The group that UpdateGroup saves: the edited one under the kept identity.
abbrev pub kept_identity : ℕ → Group → Group → Group
kept_identity now kept g = record g { id = kept.id; created_at = kept.created_at; updated_at = now }

module _ {X C S : Type 0} (env : Env X C S) (now : ℕ) where
  unfoldable pub create_group : Group → Manager X C S → Manager X C S × Result (Unit {0})
  unfolding validate_group
  create_group g m = elim (validate_new_group m g) [
    | err e ↦ (m, err e)
    | ok fresh ↦
        let stamped : Group = record g { created_at = now; updated_at = now } in
        let (failure, s) = env.save_group stamped m.store in
        elim failure [
          | some e ↦ (record m { store = s }, err (store_failed e))
          | none ↦ (install_group stamped fresh (record m { store = s }), ok tt)
        ]
  ]

  abbrev pub update_found :
      String → Group → GroupEdit → Manager X C S → Manager X C S × Result (Unit {0})
  update_found id kept e m =
      let g = kept_identity now kept e.edited in
      let m' : Manager X C S = record m {
        groups = insert id (record kept { refs = e.shared_refs }) m.groups;
      } in
      elim (validate_group m g) [
        | err x ↦ (m', err x)
        | ok fresh ↦
            let (failure, s) = env.save_group g m.store in
            elim failure [
              | some x ↦ (record m' { store = s }, err (store_failed x))
              | none ↦ (replace_group id g kept fresh (record m { store = s }), ok tt)
            ]
      ]

  unfoldable pub update_group :
      String → (Group → GroupEdit) → Manager X C S → Manager X C S × Result (Unit {0})
  unfolding validate_group
  update_group id fn m = elim (lookup id m.groups) [
    | none ↦ (m, err group_not_found)
    | some kept ↦ update_found id kept (fn kept) m
  ]
