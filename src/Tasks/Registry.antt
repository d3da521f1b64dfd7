-- ===== src/Tasks/Registry.antt =====
-- tasks/manager.go: the task registry with its groups, and the calls that delete tasks and edit
-- groups. Each call holds taskRegistryMu or groupsMu throughout and is one step; a Start between two
-- of them reaches the engine directly. A live task is its engine. W holds the repository and the
-- resource managers; their calls fail with a message.
pub mod Releases
pub mod Deletions
mod Tests
use rogojin.Prelude.{
  ℕ, zero, suc, String, List, [], ◌∷◌, ◌++◌, Option, none, some, ite, Bool, true, false, ◌&&◌,
  if◌then◌else◌, str_dec,
}
use rogojin.Prelude.Map.{Map, lookup, insert, delete}
use rogojin.Leasing.Kind.{is_valid_kind}
use rogojin.Tasks.Engine.{Engine, is_live, seal, unseal}
use rogojin.Tasks.Placement.{TaskGroup, implicit_group}

-- One registered kind with its manager's Unlock.
pub record Wired (W : Type 0) : Type 0 where
  pub kind : String
  pub unlock_task : String → W → Option String × W

-- The calls of the task repository.
pub record Rows (W : Type 0) : Type 0 where
  pub delete_task_row : String → W → Option String × W
  pub save_group_row : TaskGroup → W → Option String × W
  pub delete_group_row_of : String → W → Option String × W
  pub tasks_in_group : String → W → Option (List String)

pub data TaskError : Type 0 where
  task_running group_missing group_exists group_implicit group_id_missing no_repository : TaskError
  bad_kind rows_failed : TaskError
  not_released : List String → TaskError

pub record TaskManager (W : Type 0) : Type 0 where
  pub world : W
  pub live : Map Engine
  pub groups : Map TaskGroup

-- What a callback that edits a task group in place leaves, and its map of resource groups where the
-- cached group shares it.
pub record TaskGroupEdit : Type 0 where
  pub edited : TaskGroup
  pub shared_groups : Map String

abbrev pub Reply : Type 0 → Type 0
Reply W = TaskManager W × Option TaskError

abbrev pub note_failure : String → Option String → List String → List String
note_failure kind none failures = failures
note_failure kind (some e) failures = kind ∷ failures

module _ {W : Type 0} where
  -- releaseTask: every kind is unlocked, and the kinds that failed are listed.
  unfoldable pub release_task : List (Wired W) → String → W → List String × W
  release_task [] id w = ([], w)
  release_task (r ∷ rs) id w =
      let (failure, w₁) = r.unlock_task id w in
      let (failures, w₂) = release_task rs id w₁ in (note_failure r.kind failure failures, w₂)

  abbrev pub put_live : String → Engine → TaskManager W → TaskManager W
  put_live id e m = record m { live = insert id e m.live }

-- validKinds
abbrev pub kinds_valid : {V : Type 0} → Map V → Bool
kinds_valid [] = true
kinds_valid ((kind, v) ∷ rest) = is_valid_kind kind && kinds_valid rest

-- `repository` is none for a manager without one.
module _ {W : Type 0} (repository : Option (Rows W)) (resources : List (Wired W)) where
  -- The end of deleteTaskLocked, once its resources are free.
  abbrev pub delete_row : String → TaskManager W → Reply W
  delete_row id m =
      let m' : TaskManager W = record m { live = delete id m.live } in
      elim repository [
        | none ↦ (m', none)
        | some rows ↦
            let (failure, w) = rows.delete_task_row id m.world in
            (record m' { world = w }, elim failure [ none ↦ none | some e ↦ some rows_failed ])
      ]

  -- Release, and then `reopen` on a failure.
  abbrev pub release_and_delete : String → (TaskManager W → TaskManager W) → TaskManager W → Reply W
  release_and_delete id reopen m =
      let (failures, w) = release_task resources id m.world in
      elim failures [
        | [] ↦ delete_row id (record m { world = w })
        | k ∷ ks ↦ (reopen (record m { world = w }), some (not_released (k ∷ ks)))
      ]

  -- DeleteTask
  unfoldable pub delete_task : String → TaskManager W → Reply W
  unfolding release_task
  delete_task id m = elim (lookup id m.live) [
    | none ↦ release_and_delete id (λ m'. m') m
    | some e ↦
        if is_live e.state e.detach_done
        then (m, some task_running)
        else release_and_delete id (put_live id (unseal (seal e))) (put_live id (seal e) m)
  ]

  -- GetGroup; without a repository every group exists.
  unfoldable pub get_task_group : String → TaskManager W → Option TaskGroup
  get_task_group id m = elim repository [
    | none ↦ some (record { id = id; resource_groups = []; created_at = 0; updated_at = 0 })
    | some rows ↦ lookup id m.groups
  ]

  -- CreateGroup's guards, in its order.
  abbrev pub check_new : Map TaskGroup → TaskGroup → Option TaskError
  check_new groups g = ite (str_dec g.id "") (some group_id_missing) (
      if kinds_valid g.resource_groups
      then ite (str_dec g.id implicit_group) (some group_implicit) (elim repository [
        | none ↦ some no_repository
        | some rows ↦ elim (lookup g.id groups) [ none ↦ none | some _ ↦ some group_exists ]
      ])
      else some bad_kind)

  -- SaveGroup, and the cache once it has succeeded.
  abbrev pub save_and_cache : String → TaskGroup → TaskManager W → TaskManager W → Reply W
  save_and_cache id g m lost = elim repository [
    | none ↦ (lost, some no_repository)
    | some rows ↦
        let (failure, w) = rows.save_group_row g m.world in
        elim failure [
          | some e ↦ (record lost { world = w }, some rows_failed)
          | none ↦ (record m { world = w; groups = insert id g m.groups }, none)
        ]
  ]

  unfoldable pub create_task_group : ℕ → TaskGroup → TaskManager W → Reply W
  create_task_group now g m = elim (check_new m.groups g) [
    | some e ↦ (m, some e)
    | none ↦ save_and_cache g.id (record g { created_at = now; updated_at = now }) m m
  ]

  abbrev pub first_time : ℕ → ℕ → ℕ
  first_time zero now = now
  first_time (suc t) now = suc t

  -- The group that UpdateGroup saves.
  abbrev pub kept_group : ℕ → TaskGroup → TaskGroup → TaskGroup
  kept_group now kept g = record g {
    id = kept.id;
    created_at = first_time kept.created_at now;
    updated_at = now;
  }

  abbrev pub save_edit : ℕ → String → TaskGroup → TaskGroupEdit → TaskManager W → Reply W
  save_edit now id kept e m =
      let lost : TaskManager W = record m {
        groups = insert id (record kept { resource_groups = e.shared_groups }) m.groups;
      } in
      if kinds_valid e.edited.resource_groups
      then save_and_cache id (kept_group now kept e.edited) m lost
      else (lost, some bad_kind)

  -- UpdateGroup
  unfoldable pub update_task_group :
      ℕ → String → (TaskGroup → TaskGroupEdit) → TaskManager W → Reply W
  update_task_group now id fn m = elim repository [
    | none ↦ (m, some no_repository)
    | some rows ↦ elim (lookup id m.groups) [
      | none ↦ (m, some group_missing)
      | some kept ↦ save_edit now id kept (fn kept) m
    ]
  ]
