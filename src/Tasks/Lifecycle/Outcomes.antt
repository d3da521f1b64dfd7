-- ===== src/Tasks/Lifecycle/Outcomes.antt =====
-- tasks/manager.go: proofs about creating and recovering tasks.
use rogojin.Prelude.{
  ℕ, ◌≡◌, ◌∙◌, refl, ap, String, List, [], ◌∷◌, Option, none, some, true, false, Bool-cases,
  Option-cases, inl, inr, arith,
}
use rogojin.Prelude.Map.{Map, lookup, insert, lookup-insert, lookup-insert_self}
use rogojin.Tasks.Engine.{Engine, new_engine, is_live}
use rogojin.Tasks.Placement.{TaskGroup, CreateConfig, group_or_global}
use rogojin.Tasks.Registry.{kinds_valid}
use rogojin.Tasks.Lifecycle.{
  TaskRow, Task, Workflow, Archive, Outcome, done, fault, Office, group_for, enroll, new_task,
  store_new, create_task,
}
use rogojin.Tasks.Lifecycle.Recovery.{
  rehydrated, runs, rebuild, recover_task, recover_each, recover_all,
}

not-runs :
    (id j : String) (live : Map Engine) (e : Engine)
    → runs id live ≡ false
    → lookup j live ≡ some e
    → is_live e.state e.detach_done ≡ true
    → lookup j (insert id new_engine live) ≡ some e
unfolding runs
not-runs id j live e idle known alive =
    ground (arith, idle, known, alive, lookup-insert id j new_engine live)

group_or_global-found :
    (id : String) (groups : Map TaskGroup) (g : TaskGroup)
    → lookup id groups ≡ some g
    → lookup "" groups ≡ none
    → group_or_global id ≡ id
unfolding group_or_global
group_or_global-found id groups g found named = ground (arith, found, named)

done-inj : {B : Type 0} {x y : B} → done x ≡ done y → x ≡ y
done-inj {B} {x} e = ap (λ (r : Outcome B). elim r [ done a ↦ a | fault f ↦ x ]) e

-- The archive reads a row back under its id in the world that its creation has left.
abbrev ReadsBack : {W : Type 0} → Archive W → Type 0
ReadsBack {W} archive =
    (row : TaskRow) (w : W)
    → (archive.create_task_row row w).0 ≡ none
    → archive.recover_task_row row.id (archive.create_task_row row w).1 ≡ some row

module _ {A W : Type 0} where
  -- The tasks that run keep their engines.
  abbrev KeepsRunning : Office A W → Office A W → Type 0
  KeepsRunning o o' =
      (j : String) (e : Engine)
      → lookup j o.registry.live ≡ some e
      → is_live e.state e.detach_done ≡ true
      → lookup j o'.registry.live ≡ some e

  rebuild-KeepsRunning :
      (id : String) (row : TaskRow) (g : Option TaskGroup) (o : Office A W)
      → runs id o.registry.live ≡ false
      → KeepsRunning o (rebuild id row g o).1
  rebuild-KeepsRunning id row none o idle j e known alive = known
  rebuild-KeepsRunning id row (some g) o idle j e known alive =
      elim (Option-cases (lookup row.workflow_id o.workflows)) [
        | inl missing ↦ rw (missing, rebuild) known
        | inr (wf, found) ↦ rw (found, rebuild) (not-runs id j o.registry.live e idle known alive)
      ]

  recover_task-KeepsRunning :
      (repository : Option (Archive W)) (id : String) (o : Office A W)
      → KeepsRunning o (recover_task repository id o).1
  unfolding recover_task
  recover_task-KeepsRunning none id o j e known alive =
      elim (Bool-cases (runs id o.registry.live)) [
        | inl busy ↦ rw (busy, recover_task) known
        | inr idle ↦ rw (idle, recover_task) known
      ]
  recover_task-KeepsRunning (some archive) id o j e known alive =
      elim (Bool-cases (runs id o.registry.live)) [
        | inl busy ↦ rw (busy, recover_task) known
        | inr idle ↦ elim (Option-cases (archive.recover_task_row id o.registry.world)) [
          | inl failed ↦ rw (idle, failed, recover_task) known
          | inr (row, found) ↦
              rw (idle, found, recover_task) (rebuild-KeepsRunning id row _ o idle j e known alive)
        ]
      ]

  recover_each-KeepsRunning :
      (groups : Map TaskGroup) (rows : List TaskRow) (ids : List String) (o : Office A W)
      → KeepsRunning o (recover_each groups rows ids o).1
  unfolding recover_each
  recover_each-KeepsRunning groups [] ids o j e known alive = known
  recover_each-KeepsRunning groups (row ∷ rows) ids o j e known alive =
      elim (Bool-cases (runs row.id o.registry.live)) [
        | inl busy ↦
            rw (busy, recover_each) (recover_each-KeepsRunning groups rows _ o j e known alive)
        | inr idle ↦
            let g = lookup (group_or_global row.group_id) groups in
            let kept = rebuild-KeepsRunning row.id row g o idle j e known alive in
            elim (Option-cases (rebuild row.id row g o).0) [
              | inr (f, failed) ↦ rw (idle, failed, recover_each) kept
              | inl fine ↦
                  rw (idle, fine, recover_each)
                    (recover_each-KeepsRunning groups rows _ (rebuild row.id row g o).1 j e kept
                      alive)
            ]
      ]

  -- Neither RecoverTask, of any task, nor RecoverAll replaces the engine of a task that runs,
  -- whether the recovery succeeds or fails.
  pub recovery-keeps_running :
      (repository : Option (Archive W)) (id : String) (o : Office A W) (j : String) (e : Engine)
      → lookup j o.registry.live ≡ some e
      → is_live e.state e.detach_done ≡ true
      → (lookup j (recover_task repository id o).1.registry.live ≡ some e)
        × (lookup j (recover_all repository o).1.registry.live ≡ some e)
  unfolding recover_all
  recovery-keeps_running none id o j e known alive =
      (recover_task-KeepsRunning none id o j e known alive, known)
  recovery-keeps_running (some archive) id o j e known alive = (
    recover_task-KeepsRunning (some archive) id o j e known alive,
    elim (Option-cases (archive.recover_all_rows o.registry.world)) [
      | inl failed ↦ rw (failed, recover_all) known
      | inr (rows, found) ↦
          rw (found, recover_all)
            (recover_each-KeepsRunning o.registry.groups rows [] o j e known alive)
    ],
  )

  -- What a success of CreateTask shows.
  abbrev Made :
      Archive W → String → ℕ → String → Option A → CreateConfig → Office A W → Task A → Type 0
  Made archive fresh now wid input cfg o t =
      (wf : Workflow A) × (g : TaskGroup) × (lookup wid o.workflows ≡ some wf)
      × (kinds_valid cfg.assignments ≡ true)
      × (lookup cfg.group_id o.registry.groups ≡ some g)
      × (wf.validate_input input ≡ none)
      × (new_task fresh now wid input cfg g ≡ t)
      × ((archive.create_task_row (new_task fresh now wid input cfg g).row o.registry.world).0
          ≡ none)
      × ((create_task (some archive) fresh now wid input cfg o).1.registry.world
          ≡ (archive.create_task_row (new_task fresh now wid input cfg g).row o.registry.world).1)

  store_new-same :
      (archive : Archive W) (t' : Task A) (o : Office A W) (t : Task A)
      → (store_new (some archive) t' o).0 ≡ done t
      → (t' ≡ t)
        × ((archive.create_task_row t'.row o.registry.world).0 ≡ none)
        × ((store_new (some archive) t' o).1.registry.world
            ≡ (archive.create_task_row t'.row o.registry.world).1)
  store_new-same archive t' o t e =
      elim (Option-cases (archive.create_task_row t'.row o.registry.world).0) [
        | inr (x, failed) ↦ absurd (cc (rw (failed, store_new) at e))
        | inl fine ↦ (done-inj (rw (fine, store_new) at e), fine, rw (fine, store_new) refl)
      ]

  create_task-Made :
      (archive : Archive W) (fresh : String) (now : ℕ) (wid : String) (input : Option A)
      (cfg : CreateConfig) (o : Office A W) (t : Task A)
      → (create_task (some archive) fresh now wid input cfg o).0 ≡ done t
      → Made archive fresh now wid input cfg o t
  unfolding create_task group_for
  create_task-Made archive fresh now wid input cfg o t made =
      elim (Option-cases (lookup wid o.workflows)) [
        | inl missing ↦ absurd (cc (rw (missing, create_task) at made))
        | inr (wf, found) ↦ elim (Bool-cases (kinds_valid cfg.assignments)) [
          | inr bad ↦ absurd (cc (rw (found, bad, create_task) at made))
          | inl valid ↦ elim (Option-cases (lookup cfg.group_id o.registry.groups)) [
            | inl unknown ↦ absurd (cc (rw (found, valid, unknown, create_task) at made))
            | inr (g, grouped) ↦ elim (Option-cases (wf.validate_input input)) [
              | inr (x, refused) ↦
                  absurd (cc (rw (found, valid, grouped, refused, create_task) at made))
              | inl fine ↦
                  let stored = rw (found, valid, grouped, fine, create_task) at made in
                  let (same, saved, world) =
                    store_new-same archive (new_task fresh now wid input cfg g) o t stored in
                  (
                    wf,
                    g,
                    found,
                    valid,
                    grouped,
                    fine,
                    same,
                    saved,
                    rw (found, valid, grouped, fine, create_task) world,
                  )
            ]
          ]
        ]
      ]

  recover_stored :
      (archive : Archive W) (id : String) (o : Office A W) (row : TaskRow) (g : TaskGroup)
      (wf : Workflow A)
      → runs id o.registry.live ≡ false
      → archive.recover_task_row id o.registry.world ≡ some row
      → lookup (group_or_global row.group_id) o.registry.groups ≡ some g
      → lookup row.workflow_id o.workflows ≡ some wf
      → recover_task (some archive) id o ≡ (none, enroll id (rehydrated row g) o)
  unfolding recover_task group_for
  recover_stored archive id o row g wf idle found grouped flow =
      rw (idle, found, recover_task, grouped, rebuild, flow) refl

  -- Let the archive read a new row back once its creation has succeeded. A task that CreateTask
  -- stored then comes back from RecoverTask in another process with the record that was created, the
  -- same placement, a new engine and no input, if that process has the same groups and workflows and
  -- no such task running, the archive answers for the task's row as it did right after the creation,
  -- and no group has an empty id.
  pub create_task-recovers :
      (archive : Archive W) (fresh : String) (now : ℕ) (wid : String) (input : Option A)
      (cfg : CreateConfig) (o later : Office A W) (t : Task A)
      → ReadsBack archive
      → (create_task (some archive) fresh now wid input cfg o).0 ≡ done t
      → later.registry.groups ≡ o.registry.groups
      → later.workflows ≡ o.workflows
      → runs fresh later.registry.live ≡ false
      → lookup "" o.registry.groups ≡ none
      → archive.recover_task_row fresh later.registry.world
        ≡ archive.recover_task_row fresh
            (create_task (some archive) fresh now wid input cfg o).1.registry.world
      → ((recover_task (some archive) fresh later).0 ≡ none)
        × (lookup fresh (recover_task (some archive) fresh later).1.tasks
            ≡ some (record t { input = none; recovered = true }))
        × (lookup fresh (recover_task (some archive) fresh later).1.registry.live ≡ some new_engine)
  create_task-recovers archive fresh now wid input cfg o later t reads made groups flows idle named
        unchanged =
      let (wf, g, found, valid, grouped, fine, same, saved, world) =
        create_task-Made archive fresh now wid input cfg o t made in
      let row =
        unchanged
        ∙ ap (archive.recover_task_row fresh) world
        ∙ reads (new_task fresh now wid input cfg g).row o.registry.world saved in
      let back =
        recover_stored archive fresh later (new_task fresh now wid input cfg g).row g wf idle row
          (rw (group_or_global-found cfg.group_id o.registry.groups g grouped named, groups)
            grouped)
          (rw flows found) in
      rw (back, ← same)
        (
          refl,
          lookup-insert_self fresh _ later.tasks,
          lookup-insert_self fresh _ later.registry.live,
        )
