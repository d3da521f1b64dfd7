-- ===== src/Tasks/Registry/Tests.antt =====
-- A deletion that one of two resource managers abandons.
use rogojin.Prelude.{ℕ, ◌+◌, ◌≡◌, [], ◌∷◌, none, some, map, filter}
use rogojin.Tasks.Engine.{new_engine}
use rogojin.Tasks.Registry.{Wired, Rows, TaskManager, release_task, delete_task}
use rogojin.Tasks.Registry.Releases.{unlock_all, answers, has_failed, release_task-unlock_all}
use rogojin.Tasks.Registry.Deletions.{DeletionOf, delete_task-DeletionOf}

abbrev sound : Wired ℕ
sound = record { kind = "accounts"; unlock_task = λ id w. (none, w + 1) }

abbrev stuck : Wired ℕ
stuck = record { kind = "proxies"; unlock_task = λ id w. (some "store is down", w + 1) }

abbrev rows : Rows ℕ
rows = record {
  delete_task_row = λ id w. (none, w);
  save_group_row = λ g w. (none, w);
  delete_group_row_of = λ id w. (none, w);
  tasks_in_group = λ id w. some [];
}

abbrev one_task : TaskManager ℕ
one_task = record { world = 0; live = ("t", new_engine) ∷ []; groups = [] }

delete_task-DeletionOf_example :
    DeletionOf
      (some rows)
      (stuck ∷ sound ∷ [])
      "t"
      one_task
      (delete_task (some rows) (stuck ∷ sound ∷ []) "t" one_task)
delete_task-DeletionOf_example =
    delete_task-DeletionOf (some rows) (stuck ∷ sound ∷ []) "t" one_task

release_task-unlock_all_example :
    ((release_task (stuck ∷ sound ∷ []) "t" 0).1 ≡ unlock_all (stuck ∷ sound ∷ []) "t" 0)
    × ((release_task (stuck ∷ sound ∷ []) "t" 0).0
        ≡ map (λ a. a.0) (filter has_failed (answers (stuck ∷ sound ∷ []) "t" 0)))
release_task-unlock_all_example = release_task-unlock_all (stuck ∷ sound ∷ []) "t" 0
