-- ===== src/Tasks/Lifecycle/Tests.antt =====
-- A task that is created, and recovered by a later process.
use rogojin.Prelude.{ℕ, ◌≡◌, refl, str_dec, [], ◌∷◌, none, some, true, Option, ite, arith}
use rogojin.Prelude.Map.{lookup}
use rogojin.Tasks.Engine.{Engine, new_engine}
use rogojin.Workflows.Graph.{running}
use rogojin.Tasks.Placement.{TaskGroup, CreateConfig, implicit_group}
use rogojin.Tasks.Lifecycle.{
  TaskRow, Task, Workflow, Archive, Office, bare_group, new_task, create_task,
}
use rogojin.Tasks.Lifecycle.Recovery.{runs, recover_task, recover_all}
use rogojin.Tasks.Lifecycle.Outcomes.{recovery-keeps_running, create_task-recovers}

abbrev config : CreateConfig
config = record { group_id = implicit_group; assignments = [] }

abbrev any_input : Workflow ℕ
any_input = record { validate_input = λ a. none; use_resources = none }

abbrev global : TaskGroup
global = bare_group implicit_group

abbrev created : Task ℕ
created = new_task "t" 5 "order" (some 3) config global

-- An archive of one row, the latest created, which is its world.
abbrev last_row : Archive (Option TaskRow)
last_row = record {
  create_task_row = λ row w. (none, some row);
  recover_task_row =
      λ id w. elim w [ none ↦ none | some row ↦ ite (str_dec row.id id) (some row) none ];
  recover_all_rows = λ w. some [];
  save_assignment_row = λ id kind own w. (none, w);
  list_group_rows = λ w. some [];
  list_tasks_of = λ g w. some [];
}

abbrev first_office : Office ℕ (Option TaskRow)
first_office = record {
  registry = record { world = none; live = []; groups = (implicit_group, global) ∷ [] };
  workflows = ("order", any_input) ∷ [];
  tasks = [];
}

abbrev second_office : Office ℕ (Option TaskRow)
second_office = record {
  registry = record { world = some created.row; live = []; groups = (implicit_group, global) ∷ [] };
  workflows = ("order", any_input) ∷ [];
  tasks = [];
}

-- An archive that holds the row of the created task, in every world.
abbrev one_row : Archive Unit
one_row = record {
  create_task_row = λ row w. (none, w);
  recover_task_row = λ id w. some created.row;
  recover_all_rows = λ w. some (created.row ∷ []);
  save_assignment_row = λ id kind own w. (none, w);
  list_group_rows = λ w. some [];
  list_tasks_of = λ g w. some ("t" ∷ []);
}

abbrev office : Office ℕ Unit
office = record {
  registry = record { world = tt; live = []; groups = (implicit_group, global) ∷ [] };
  workflows = ("order", any_input) ∷ [];
  tasks = [];
}

create_task-recovers_example :
    ((recover_task (some last_row) "t" second_office).0 ≡ none)
    × (lookup "t" (recover_task (some last_row) "t" second_office).1.tasks
        ≡ some (record created { input = none; recovered = true }))
    × (lookup "t" (recover_task (some last_row) "t" second_office).1.registry.live
        ≡ some new_engine)
unfolding create_task lookup runs str_dec
create_task-recovers_example =
    create_task-recovers last_row "t" 5 "order" (some 3) config first_office second_office created
      (λ row w fine. ground arith) refl refl refl refl refl refl

abbrev busy : Engine
busy = record new_engine { state = running }

abbrev busy_office : Office ℕ Unit
busy_office = record office {
  registry = record { world = tt; live = ("t", busy) ∷ []; groups = (implicit_group, global) ∷ [] };
}

recovery-keeps_running_example :
    (lookup "t" (recover_task (some one_row) "t" busy_office).1.registry.live ≡ some busy)
    × (lookup "t" (recover_all (some one_row) busy_office).1.registry.live ≡ some busy)
unfolding lookup str_dec
recovery-keeps_running_example =
    recovery-keeps_running (some one_row) "t" busy_office "t" busy refl refl
