-- ===== src/Tasks/Registry/Deletions.antt =====
-- tasks/manager.go: proofs about DeleteTask.
use rogojin.Prelude.{
  ◌≡◌, ◌≢◌, refl, ap, subst, true, false, [], String, List, Option, none, some, ite, str_dec, arith,
  inl, inr, Option-cases, List-cases, Bool-cases,
}
use rogojin.Prelude.Map.{Map, lookup, insert, delete, lookup-insert, lookup-delete}
use rogojin.Tasks.Engine.{Engine, is_live, seal, unseal}
use rogojin.Tasks.Registry.{
  Wired, Rows, task_running, rows_failed, not_released, TaskManager, Reply, release_task, put_live,
  delete_row, release_and_delete, delete_task,
}

abbrev pub reopened : Option Engine → Option Engine
reopened none = none
reopened (some e) = some (unseal e)

-- The task is registered and its engine is live; or it is not.
abbrev pub IsRunning : String → Map Engine → Type 0
IsRunning id live =
    (e : Engine) × (lookup id live ≡ some e) × (is_live e.state e.detach_done ≡ true)

abbrev pub IsResting : String → Map Engine → Type 0
IsResting id live = (e : Engine) → lookup id live ≡ some e → is_live e.state e.detach_done ≡ false

module _ {W : Type 0} (repository : Option (Rows W)) (resources : List (Wired W)) where
  abbrev Left : String → Map Engine → Map Engine → Type 0
  Left id live live' = (j : String) → lookup j live' ≡ ite (str_dec id j) none (lookup j live)

  -- What the store answers to the deletion of the task's row, once its resources are free.
  abbrev RowAnswer : String → TaskManager W → Option String → Type 0
  RowAnswer id m answer = elim repository [
    | none ↦ answer ≡ none
    | some rows ↦ (rows.delete_task_row id (release_task resources id m.world).1).0 ≡ answer
  ]

  -- A deletion by its result: gone from the registry; refused, with nothing changed, because the task
  -- runs; or abandoned, because managers did not release, with the task reopened. Other tasks are
  -- never touched.
  abbrev pub DeletionOf : String → TaskManager W → Reply W → Type 0
  DeletionOf id m (m', none) =
      IsResting id m.live
      × ((release_task resources id m.world).0 ≡ [])
      × RowAnswer id m none
      × Left id m.live m'.live
  DeletionOf id m (m', some rows_failed) =
      IsResting id m.live
      × ((release_task resources id m.world).0 ≡ [])
      × ((e : String) × RowAnswer id m (some e))
      × Left id m.live m'.live
  DeletionOf id m (m', some task_running) = IsRunning id m.live × (m' ≡ m)
  DeletionOf id m (m', some (not_released ks)) =
      IsResting id m.live
      × ((release_task resources id m.world).0 ≡ ks)
      × (ks ≢ [])
      × ((j : String)
          → lookup j m'.live ≡ ite (str_dec id j) (reopened (lookup id m.live)) (lookup j m.live))
  DeletionOf id m (m', some _) = ⊥

module _ {W : Type 0} (repository : Option (Rows W)) (resources : List (Wired W))
    (id : String) where
  delete_row-DeletionOf :
      (m : TaskManager W) (live : Map Engine)
      → IsResting id m.live
      → (release_task resources id m.world).0 ≡ []
      → ((j : String) → lookup j (delete id live) ≡ ite (str_dec id j) none (lookup j m.live))
      → DeletionOf repository resources id m (
          delete_row repository resources id
            (record m { world = (release_task resources id m.world).1; live = live }))
  delete_row-DeletionOf m live rests free gone = answered repository
    where
      answered :
          (repo : Option (Rows W))
          → DeletionOf repo resources id m (
              delete_row repo resources id
                (record m { world = (release_task resources id m.world).1; live = live }))
      answered none = (rests, free, refl, gone)
      answered (some rows) =
          elim (Option-cases (rows.delete_task_row id (release_task resources id m.world).1).0) [
            | inl fine ↦ rw (fine, delete_row) (rests, free, fine, gone)
            | inr (x, failed) ↦ rw (failed, delete_row) (rests, free, (x, failed), gone)
          ]

  release_and_delete-DeletionOf :
      (m : TaskManager W) (live : Map Engine) (reopen : TaskManager W → TaskManager W)
      → IsResting id m.live
      → ((j : String) → lookup j (delete id live) ≡ ite (str_dec id j) none (lookup j m.live))
      → ((w : W) (j : String)
          → lookup j (reopen (record m { world = w; live = live })).live
            ≡ ite (str_dec id j) (reopened (lookup id m.live)) (lookup j m.live))
      → DeletionOf repository resources id m
          (release_and_delete repository resources id reopen (record m { live = live }))
  release_and_delete-DeletionOf m live reopen rests gone back =
      elim (List-cases (release_task resources id m.world).0) [
        | inl free ↦ rw (free, release_and_delete) (delete_row-DeletionOf m live rests free gone)
        | inr (k, ks, stuck) ↦
            rw (stuck, release_and_delete)
              (rests, stuck, (λ e. cc e), back (release_task resources id m.world).1)
      ]

  unseal-seal : (e : Engine) → unseal (seal e) ≡ unseal e
  unfolding seal unseal
  unseal-seal e = refl

  reopening :
      (live : Map Engine) (e : Engine) (j : String)
      → lookup id live ≡ some e
      → lookup j (insert id (unseal (seal e)) (insert id (seal e) live))
        ≡ ite (str_dec id j) (reopened (lookup id live)) (lookup j live)
  reopening live e j known =
      let here : reopened (lookup id live) ≡ some (unseal e) = ap reopened known in
      ground (
        arith,
        lookup-insert id j (unseal (seal e)) (insert id (seal e) live),
        lookup-insert id j (seal e) live,
        unseal-seal e,
        here,
      )

  -- DeleteTask, in each of its results. It refuses exactly where the task runs, and then nothing has
  -- changed. Where the task does not run and some manager fails to release, it reports the kinds that
  -- failed, and the task stays registered, open to a later Start. Where all release, the task has left
  -- the registry, and the result tells whether the store deleted its row. Other tasks are never
  -- touched.
  pub delete_task-DeletionOf :
      (m : TaskManager W)
      → DeletionOf repository resources id m (delete_task repository resources id m)
  unfolding delete_task
  delete_task-DeletionOf m = elim (Option-cases (lookup id m.live)) [
    | inl unknown ↦
        rw (unknown, delete_task)
          (release_and_delete-DeletionOf m m.live (λ m'. m')
            (λ e known. absurd (cc (unknown, known))) (λ j. lookup-delete id j m.live)
            (λ w j. ground (arith, ap (λ k. lookup k m.live))))
    | inr (e, known) ↦ elim (Bool-cases (is_live e.state e.detach_done)) [
      | inl running ↦ rw (known, running, delete_task) ((e, known, running), refl)
      | inr resting ↦
          rw (known, resting, delete_task)
            (release_and_delete-DeletionOf m (insert id (seal e) m.live)
              (put_live id (unseal (seal e))) (λ e' known'. rests e e' known known' resting)
              (λ j. ground (
                arith,
                lookup-delete id j (insert id (seal e) m.live),
                lookup-insert id j (seal e) m.live,
              ))
              (λ w j. reopening m.live e j known))
    ]
  ]
    where
      rests :
          (e e' : Engine)
          → lookup id m.live ≡ some e
          → lookup id m.live ≡ some e'
          → is_live e.state e.detach_done ≡ false
          → is_live e'.state e'.detach_done ≡ false
      rests e e' known known' resting =
          let same : e ≡ e' = cc (known, known') in
          subst (λ (x : Engine). is_live x.state x.detach_done ≡ false) same resting
