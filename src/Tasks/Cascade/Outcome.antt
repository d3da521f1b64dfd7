-- ===== src/Tasks/Cascade/Outcome.antt =====
-- tasks/manager.go: proofs about DeleteGroup.
use rogojin.Prelude.{◌≡◌, ◌⊎◌, String, List, [], ◌∷◌, none, some, true, if◌then◌else◌, is_one_of}
use rogojin.Prelude.Map.{Map, lookup, delete}
use rogojin.Tasks.Engine.{Engine}
use rogojin.Tasks.Registry.{
  Wired, Rows, TaskManager, Reply, task_running, rows_failed, not_released,
}
use rogojin.Tasks.Cascade.{release_each}
use rogojin.Tasks.Registry.Deletions.{IsRunning, IsResting}

module _ {W : Type 0} (rows : Rows W) where
  -- From a world on, the store deletes every row of the tasks and then the group's; or it refuses one
  -- of them.
  abbrev pub AllDeleted : String → List String → W → Type 0
  AllDeleted id [] w = (rows.delete_group_row_of id w).0 ≡ none
  AllDeleted id (k ∷ ks) w =
      ((rows.delete_task_row k w).0 ≡ none) × AllDeleted id ks (rows.delete_task_row k w).1

  abbrev pub SomeRefused : String → List String → W → Type 0
  SomeRefused id [] w = (x : String) × ((rows.delete_group_row_of id w).0 ≡ some x)
  SomeRefused id (k ∷ ks) w =
      ((x : String) × ((rows.delete_task_row k w).0 ≡ some x))
      ⊎ (((rows.delete_task_row k w).0 ≡ none) × SomeRefused id ks (rows.delete_task_row k w).1)

  -- The deletion of rows from the world `w` on stopped at one that failed, or all members and the
  -- group are gone.
  pub data Swept (id : String) (ids : List String) (w : W) (m : TaskManager W)
      : Reply W → Type 0 where
    torn :
        {m' : TaskManager W}
        → SomeRefused id ids w
        → m'.groups ≡ m.groups
        → ((j : String) → (is_one_of j ids ≡ true) ⊎ (lookup j m'.live ≡ lookup j m.live))
        → Swept id ids w m (m', some rows_failed)
    gone :
        {m' : TaskManager W}
        → AllDeleted id ids w
        → m'.groups ≡ delete id m.groups
        → ((j : String) → lookup j m'.live ≡ (if is_one_of j ids then none else lookup j m.live))
        → Swept id ids w m (m', none)

module _ {W : Type 0} where
  -- What deleting a group does to its tasks `ids`: abandoned, no task changed; or the resources are
  -- free and rows are deleted.
  pub data CascadeOf (rows : Rows W) (resources : List (Wired W)) (id : String) (ids : List String)
      (m : TaskManager W) : Reply W → Type 0 where
    running :
        {live : Map Engine} (t : String)
        → is_one_of t ids ≡ true
        → IsRunning t m.live
        → ((j : String) → lookup j live ≡ lookup j m.live)
        → CascadeOf rows resources id ids m (record m { live = live }, some task_running)
    unreleased :
        {live : Map Engine} {w : W} {k : String} {ks : List String}
        → ((t : String) → is_one_of t ids ≡ true → IsResting t m.live)
        → (release_each resources ids m.world).0 ≡ k ∷ ks
        → ((j : String) → lookup j live ≡ lookup j m.live)
        → CascadeOf rows resources id ids m
            (record m { live = live; world = w }, some (not_released (k ∷ ks)))
    swept :
        {r : Reply W}
        → ((t : String) → is_one_of t ids ≡ true → IsResting t m.live)
        → (release_each resources ids m.world).0 ≡ []
        → Swept rows id ids (release_each resources ids m.world).1 m r
        → CascadeOf rows resources id ids m r
