-- ===== src/Tasks/Lifecycle.antt =====
-- tasks/manager.go and tasks/tasks.go: registering workflows, creating, recovering, placing and
-- starting tasks. A task's record and input stand in `tasks`, its engine in the registry under the
-- same id. An input is a value of the type A, or nil. Each call holds taskRegistryMu.
pub mod Recovery
pub mod Outcomes
mod Tests
use rogojin.Prelude.{
  ℕ, String, List, [], ◌∷◌, Option, none, some, ite, str_dec, Bool, true, false, ◌&&◌,
  if◌then◌else◌, map, sort_strings,
}
use rogojin.Prelude.Map.{Map, lookup, insert}
use rogojin.Leasing.Kind.{is_valid_kind}
use rogojin.Workflows.Graph.{Status, not_started, suspended, terminal}
use rogojin.Workflows.Base.{Placement}
use rogojin.Tasks.Engine.{Engine, new_engine, is_live}
use rogojin.Tasks.Placement.{TaskGroup, Stored, CreateConfig, resolve, resolve_all, group_or_global}
use rogojin.Tasks.Registry.{TaskManager, kinds_valid}

-- The fields of a Task that are stored.
pub record TaskRow : Type 0 where
  pub id : String
  pub workflow_id : String
  pub group_id : String
  pub assignments : Map Stored
  pub state : String
  pub snapshot : String
  pub status : Status
  pub output : String
  pub created_at : ℕ
  pub updated_at : ℕ

pub record Task (A : Type 0) : Type 0 where
  pub row : TaskRow
  pub input : Option A
  pub resolved : Map Placement
  pub recovered : Bool

-- A workflow's ValidateInput, and its UseResources where it has one, on the wired kinds.
pub record Workflow (A : Type 0) : Type 0 where
  pub validate_input : Option A → Option String
  pub use_resources : Option (List String → Option String)

-- The other calls of the task repository.
pub record Archive (W : Type 0) : Type 0 where
  pub create_task_row : TaskRow → W → Option String × W
  pub recover_task_row : String → W → Option TaskRow
  pub recover_all_rows : W → Option (List TaskRow)
  pub save_assignment_row : String → String → Stored → W → Option String × W
  pub list_group_rows : W → Option (List TaskGroup)
  pub list_tasks_of : String → W → Option (List String)

pub data TaskFault : Type 0 where
  workflow_missing workflow_exists kind_invalid group_unknown store_failed store_missing : TaskFault
  wiring_failed input_refused lock_kept : String → TaskFault

pub data Outcome (B : Type 0) : Type 0 where
  done : B → Outcome B
  fault : TaskFault → Outcome B

pub record Office (A W : Type 0) : Type 0 where
  pub registry : TaskManager W
  pub workflows : Map (Workflow A)
  pub tasks : Map (Task A)

-- What a run needs: Execute with the input, or Rehydrate at a state, suspended or not.
pub data StartPlan (A : Type 0) : Type 0 where
  no_checkpoint : StartPlan A
  already_terminal : Status → StartPlan A
  execute : Option A → StartPlan A
  rehydrate : String → String → Bool → StartPlan A

module _ {A : Type 0} where
  abbrev plan_from : Status → TaskRow → StartPlan A
  plan_from not_started row = no_checkpoint
  plan_from suspended row = rehydrate row.snapshot row.state true
  plan_from status row =
      if terminal status then already_terminal status else rehydrate row.snapshot row.state false

  -- Start, up to the engine.
  unfoldable pub start_plan : Task A → StartPlan A
  start_plan t = if t.recovered then plan_from t.row.status t.row else execute t.input

abbrev status_after : Status → ℕ → TaskRow → TaskRow
status_after not_started now row = row
status_after status now row = record row { status = status; updated_at = now }

-- Start's epilogue, after the engine's run: the engine's status is kept once it is past not_started.
unfoldable pub after_run : Engine → String → ℕ → TaskRow → TaskRow
after_run e output now row = record (status_after e.state now row) { output = output }

abbrev status_or : Status → Status → Status
status_or not_started kept = kept
status_or live kept = live

-- LiveStatus
unfoldable pub live_status : Engine → TaskRow → Status
live_status e row = status_or e.state row.status

abbrev wiring : List String → Option (List String → Option String) → Option String
wiring kinds none = none
wiring kinds (some wire) = wire kinds

abbrev pub bare_group : String → TaskGroup
bare_group id = record { id = id; resource_groups = []; created_at = 0; updated_at = 0 }

module _ {W : Type 0} where
  -- getGroup; without a repository every group exists.
  unfoldable pub group_for : Option (Archive W) → String → Map TaskGroup → Option TaskGroup
  group_for none id groups = some (bare_group id)
  group_for (some archive) id groups = lookup id groups

module _ {A : Type 0} where
  -- The record of createTask.
  abbrev pub new_task : String → ℕ → String → Option A → CreateConfig → TaskGroup → Task A
  new_task id now wid input cfg g = record {
    row = record {
      id = id;
      workflow_id = wid;
      group_id = cfg.group_id;
      assignments = cfg.assignments;
      state = "";
      snapshot = "";
      status = not_started;
      output = "";
      created_at = now;
      updated_at = now;
    };
    input = input;
    resolved = resolve_all cfg.assignments g;
    recovered = false;
  }

module _ {A W : Type 0} where
  -- RegisterWorkflow; `kinds` are those of the wired resources.
  unfoldable pub register_workflow :
      List String → String → Workflow A → Office A W → Option TaskFault × Office A W
  register_workflow kinds id wf o = elim (lookup id o.workflows) [
    | some _ ↦ (some workflow_exists, o)
    | none ↦ elim (wiring kinds wf.use_resources) [
      | some e ↦ (some (wiring_failed e), o)
      | none ↦ (none, record o { workflows = insert id wf o.workflows })
    ]
  ]

  -- The registry's two entries of a task.
  abbrev pub enroll : String → Task A → Office A W → Office A W
  enroll id t o = record o {
    tasks = insert id t o.tasks;
    registry = record o.registry { live = insert id new_engine o.registry.live };
  }

  abbrev pub in_world : W → Office A W → Office A W
  in_world w o = record o { registry = record o.registry { world = w } }

  abbrev pub store_new : Option (Archive W) → Task A → Office A W → Outcome (Task A) × Office A W
  store_new none t o = (done t, enroll t.row.id t o)
  store_new (some archive) t o =
      let (failure, w) = archive.create_task_row t.row o.registry.world in
      elim failure [
        | some e ↦ (fault store_failed, in_world w o)
        | none ↦ (done t, enroll t.row.id t (in_world w o))
      ]

  -- CreateTask with its options applied; `fresh` is the UUID that it draws.
  unfoldable pub create_task :
      Option (Archive W)
      → String
      → ℕ
      → String
      → Option A
      → CreateConfig
      → Office A W
      → Outcome (Task A) × Office A W
  unfolding group_for
  create_task repository fresh now wid input cfg o = elim (lookup wid o.workflows) [
    | none ↦ (fault workflow_missing, o)
    | some wf ↦
        if kinds_valid cfg.assignments
        then (elim (group_for repository cfg.group_id o.registry.groups) [
          | none ↦ (fault group_unknown, o)
          | some g ↦ elim (wf.validate_input input) [
            | some e ↦ (fault (input_refused e), o)
            | none ↦ store_new repository (new_task fresh now wid input cfg g) o
          ]
        ])
        else (fault kind_invalid, o)
  ]
