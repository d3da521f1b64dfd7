-- ===== src/Tasks/Cascade/Tests.antt =====
-- The deletion of a group with a task that runs.
use rogojin.Prelude.{ℕ, ◌+◌, [], ◌∷◌, none, some}
use rogojin.Workflows.Graph.{running}
use rogojin.Tasks.Engine.{new_engine}
use rogojin.Tasks.Registry.{Wired, Rows, TaskManager}

abbrev sound : Wired ℕ
sound = record { kind = "accounts"; unlock_task = λ id w. (none, w + 1) }

abbrev rows : Rows ℕ
rows = record {
  delete_task_row = λ id w. (none, w);
  save_group_row = λ g w. (none, w);
  delete_group_row_of = λ id w. (none, w);
  tasks_in_group = λ id w. some ("t" ∷ "u" ∷ []);
}

abbrev two_tasks : TaskManager ℕ
two_tasks = record {
  world = 0;
  live = ("t", new_engine) ∷ ("u", record new_engine { state = running }) ∷ [];
  groups = [];
}
