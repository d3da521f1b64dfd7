-- ===== src/Tasks/Cascade.antt =====
-- tasks/manager.go: DeleteGroup with the deletion of its tasks, ListGroups and TasksInGroup.
pub mod Sealing
pub mod Refusals
pub mod Outcome
mod Tests
use rogojin.Prelude.{
  String, List, [], ◌∷◌, Option, none, some, ite, str_dec, if◌then◌else◌, map, str_le,
}
use rogojin.Prelude.Map.{Map, lookup, insert, delete}
use rogojin.Leasing.Queries.{sort_by}
use rogojin.Tasks.Engine.{Engine, is_live, seal, unseal}
use rogojin.Tasks.Placement.{TaskGroup, implicit_group}
use rogojin.Tasks.Registry.{
  Wired, Rows, TaskError, TaskManager, Reply, release_task, task_running, group_missing,
  group_implicit, no_repository, rows_failed, not_released,
}

-- The sealing loop: the live tasks and those sealed so far, latest first, with the first task that
-- runs, where the loop stops.
unfoldable pub seal_each :
    List String → List String → Map Engine → Map Engine × List String × Option String
seal_each [] sealed live = (live, sealed, none)
seal_each (id ∷ ids) sealed live = elim (lookup id live) [
  | none ↦ seal_each ids sealed live
  | some e ↦
      if is_live e.state e.detach_done
      then (live, sealed, some id)
      else seal_each ids (id ∷ sealed) (insert id (seal e) live)
]

-- unsealAll
unfoldable pub unseal_each : List String → Map Engine → Map Engine
unseal_each [] live = live
unseal_each (id ∷ ids) live = elim (lookup id live) [
  | none ↦ unseal_each ids live
  | some e ↦ unseal_each ids (insert id (unseal e) live)
]

module _ {W : Type 0} where
  -- The releasing loop, up to the first task with a kind that fails.
  unfoldable pub release_each : List (Wired W) → List String → W → List String × W
  release_each resources [] w = ([], w)
  release_each resources (id ∷ ids) w =
      let (failures, w') = release_task resources id w in
      elim failures [ [] ↦ release_each resources ids w' | k ∷ ks ↦ (k ∷ ks, w') ]

  -- The deleting loop, up to the first row that fails, and then `finish`.
  unfoldable pub delete_each :
      Rows W → List String → (TaskManager W → Reply W) → TaskManager W → Reply W
  delete_each rows [] finish m = finish m
  delete_each rows (id ∷ ids) finish m =
      let (failure, w) = rows.delete_task_row id m.world in
      let m' : TaskManager W = record m { live = delete id m.live; world = w } in
      elim failure [ some e ↦ (m', some rows_failed) | none ↦ delete_each rows ids finish m' ]

  -- The group's own row, and its entry.
  abbrev pub delete_group_entry : Rows W → String → TaskManager W → Reply W
  delete_group_entry rows id m =
      let (failure, w) = rows.delete_group_row_of id m.world in
      elim failure [
        | some e ↦ (record m { world = w }, some rows_failed)
        | none ↦ (record m { world = w; groups = delete id m.groups }, none)
      ]

  -- The cascade over the group's tasks.
  unfoldable pub cascade : Rows W → List (Wired W) → String → List String → TaskManager W → Reply W
  unfolding seal_each unseal_each release_each delete_each
  cascade rows resources id ids m =
      let (live, sealed, runs) = seal_each ids [] m.live in
      elim runs [
        | some t ↦ (record m { live = unseal_each sealed live }, some task_running)
        | none ↦
            let (failures, w) = release_each resources ids m.world in
            elim failures [
              | k ∷ ks ↦ (
                record m { live = unseal_each sealed live; world = w },
                some (not_released (k ∷ ks)),
              )
              | [] ↦
                  delete_each rows ids (delete_group_entry rows id)
                    (record m { live = live; world = w })
            ]
      ]

  -- ListGroups: the groups in the order of their ids.
  unfoldable pub list_task_groups : TaskManager W → List TaskGroup
  list_task_groups m = sort_by (λ g h. str_le g.id h.id) (map (λ entry. entry.1) m.groups)

  -- DeleteGroup
  unfoldable pub delete_task_group :
      Option (Rows W) → List (Wired W) → String → TaskManager W → Reply W
  unfolding cascade
  delete_task_group repository resources id m =
      ite (str_dec id implicit_group) (m, some group_implicit)
        (elim repository [
          | none ↦ (m, some no_repository)
          | some rows ↦ elim (lookup id m.groups) [
            | none ↦ (m, some group_missing)
            | some g ↦ elim (rows.tasks_in_group id m.world) [
              | none ↦ (m, some rows_failed)
              | some ids ↦ cascade rows resources id ids m
            ]
          ]
        ])
