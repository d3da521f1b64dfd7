-- ===== src/Tasks/Lifecycle/Recovery.antt =====
-- tasks/manager.go: NewManager, RecoverTask, RecoverAll, AssignResource and TasksInGroup.
use rogojin.Prelude.{
  String, List, [], ◌∷◌, Option, none, some, ite, str_dec, Bool, true, false, if◌then◌else◌,
  sort_strings, ◌++◌,
}
use rogojin.Prelude.Map.{Map, lookup, insert}
use rogojin.Leasing.Kind.{is_valid_kind}
use rogojin.Workflows.Base.{Placement}
use rogojin.Tasks.Engine.{Engine, is_live}
use rogojin.Tasks.Placement.{
  TaskGroup, Stored, implicit_group, resolve, resolve_all, group_or_global,
}
use rogojin.Tasks.Lifecycle.{
  TaskRow, Task, Archive, TaskFault, Outcome, done, fault, Office, group_for, enroll, bare_group,
  in_world, workflow_missing, group_unknown, store_failed, store_missing, kind_invalid, lock_kept,
}

abbrev insert_groups : List TaskGroup → Map TaskGroup → Map TaskGroup
insert_groups [] groups = groups
insert_groups (g ∷ gs) groups = insert_groups gs (insert g.id g groups)

-- IsRunning of the task under the id.
unfoldable pub runs : String → Map Engine → Bool
runs id live = elim (lookup id live) [ none ↦ false | some e ↦ is_live e.state e.detach_done ]

module _ {A : Type 0} where
  -- rehydrateTask
  abbrev pub rehydrated : TaskRow → TaskGroup → Task A
  rehydrated row g = record {
    row = row;
    input = none;
    resolved = resolve_all row.assignments g;
    recovered = true;
  }

  -- The ids of the registered tasks of a group.
  abbrev in_group_of : String → Map Engine → Map (Task A) → List String
  in_group_of g live [] = []
  in_group_of g live ((id, t) ∷ rest) = elim (lookup id live) [
    | none ↦ in_group_of g live rest
    | some e ↦
        ite (str_dec (group_or_global t.row.group_id) g) (id ∷ in_group_of g live rest)
          (in_group_of g live rest)
  ]

module _ {A W : Type 0} where
  abbrev open_office : W → Map TaskGroup → Office A W
  open_office w groups = record {
    registry = record { world = w; live = []; groups = groups };
    workflows = [];
    tasks = [];
  }

  -- NewManager: the implicit group, and then the stored ones over it.
  unfoldable pub open_manager : Option (Archive W) → W → Outcome (Office A W)
  open_manager none w = done (open_office w ((implicit_group, bare_group implicit_group) ∷ []))
  open_manager (some archive) w = elim (archive.list_group_rows w) [
    | none ↦ fault store_failed
    | some gs ↦
        done (open_office w (insert_groups gs ((implicit_group, bare_group implicit_group) ∷ [])))
  ]

  -- rehydrate, and the registration under `id`.
  abbrev pub rebuild :
      String → TaskRow → Option TaskGroup → Office A W → Option TaskFault × Office A W
  rebuild id row none o = (some group_unknown, o)
  rebuild id row (some g) o = elim (lookup row.workflow_id o.workflows) [
    | none ↦ (some workflow_missing, o)
    | some wf ↦ (none, enroll id (rehydrated row g) o)
  ]

  -- RecoverTask; the task is then the one registered under the id.
  unfoldable pub recover_task :
      Option (Archive W) → String → Office A W → Option TaskFault × Office A W
  unfolding group_for runs
  recover_task repository id o = if runs id o.registry.live then (none, o) else elim repository [
    | none ↦ (some store_missing, o)
    | some archive ↦ elim (archive.recover_task_row id o.registry.world) [
      | none ↦ (some store_failed, o)
      | some row ↦
          rebuild id row (group_for (some archive) (group_or_global row.group_id) o.registry.groups)
            o
    ]
  ]

  -- The loop of RecoverAll, with the groups as of its start; the ids of the tasks, in order.
  unfoldable pub recover_each :
      Map TaskGroup → List TaskRow → List String → Office A W → Outcome (List String) × Office A W
  unfolding runs
  recover_each groups [] ids o = (done ids, o)
  recover_each groups (row ∷ rows) ids o =
      if runs row.id o.registry.live
      then recover_each groups rows (ids ++ row.id ∷ []) o
      else let (failure, o') =
          rebuild row.id row (lookup (group_or_global row.group_id) groups) o in
        elim failure [
          | some f ↦ (fault f, o')
          | none ↦ recover_each groups rows (ids ++ row.id ∷ []) o'
        ]

  -- RecoverAll
  unfoldable pub recover_all : Option (Archive W) → Office A W → Outcome (List String) × Office A W
  unfolding recover_each
  recover_all repository o = elim repository [
    | none ↦ (done [], o)
    | some archive ↦ elim (archive.recover_all_rows o.registry.world) [
      | none ↦ (fault store_failed, o)
      | some rows ↦ recover_each o.registry.groups rows [] o
    ]
  ]

  -- ReleaseStaleLock of the manager wired for the kind, if there is one.
  abbrev release_stale :
      Option (String → Placement → W → Option String × W)
      → String
      → String
      → Placement
      → Office A W
      → Option TaskFault × Office A W
  release_stale none kind id p o = (none, o)
  release_stale (some release) kind id p o =
      let (failure, w) = release id p o.registry.world in
      elim failure [ some e ↦ (some (lock_kept e), in_world w o) | none ↦ (none, in_world w o) ]

  -- AssignResource: the placement is stored first; `stale` are the wired managers' ReleaseStaleLock.
  unfoldable pub assign_resource :
      Option (Archive W)
      → Map (String → Placement → W → Option String × W)
      → String
      → String
      → Stored
      → Office A W
      → Option TaskFault × Office A W
  unfolding group_for
  assign_resource repository stale id kind own o =
      if is_valid_kind kind
      then (elim repository [
        | none ↦ (some store_missing, o)
        | some archive ↦ elim (archive.recover_task_row id o.registry.world) [
          | none ↦ (some store_failed, o)
          | some row ↦
              elim (group_for (some archive) (group_or_global row.group_id) o.registry.groups) [
                | none ↦ (some group_unknown, o)
                | some g ↦
                    let (failure, w) = archive.save_assignment_row id kind own o.registry.world in
                    elim failure [
                      | some e ↦ (some store_failed, in_world w o)
                      | none ↦
                          release_stale (lookup kind stale) kind id (resolve own g kind)
                            (in_world w o)
                    ]
              ]
        ]
      ])
      else (some kind_invalid, o)

  -- TasksInGroup
  unfoldable pub tasks_of_group : Option (Archive W) → String → Office A W → Outcome (List String)
  tasks_of_group none g o = done (sort_strings (in_group_of g o.registry.live o.tasks))
  tasks_of_group (some archive) g o = elim (archive.list_tasks_of g o.registry.world) [
    | none ↦ fault store_failed
    | some ids ↦ done (sort_strings ids)
  ]
