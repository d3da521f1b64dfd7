-- ===== src/Tasks/Registry/Releases.antt =====
-- tasks/manager.go: proofs about releaseTask.
use rogojin.Prelude.{
  ◌≡◌, refl, String, List, [], ◌∷◌, none, some, Option, Option-cases, inl, inr, map, filter, ap,
  Bool, true, false,
}
use rogojin.Tasks.Registry.{Wired, release_task, note_failure}

abbrev pub has_failed : String × Option String → Bool
has_failed (kind, none) = false
has_failed (kind, some e) = true

module _ {W : Type 0} where
  -- The worlds after each Unlock in registration order, whatever the calls answer.
  abbrev pub unlock_all : List (Wired W) → String → W → W
  unlock_all [] id w = w
  unlock_all (r ∷ rs) id w = unlock_all rs id (r.unlock_task id w).1

  -- What each manager answers when its turn comes, under its kind.
  abbrev pub answers : List (Wired W) → String → W → List (String × Option String)
  answers [] id w = []
  answers (r ∷ rs) id w = (r.kind, (r.unlock_task id w).0) ∷ answers rs id (r.unlock_task id w).1

  release_task-world :
      (rs : List (Wired W)) (id : String) (w : W) → (release_task rs id w).1 ≡ unlock_all rs id w
  unfolding release_task
  release_task-world [] id w = refl
  release_task-world (r ∷ rs) id w = release_task-world rs id (r.unlock_task id w).1

  release_task-failures :
      (rs : List (Wired W)) (id : String) (w : W)
      → (release_task rs id w).0 ≡ map (λ a. a.0) (filter has_failed (answers rs id w))
  unfolding release_task
  release_task-failures [] id w = refl
  release_task-failures (r ∷ rs) id w = elim (Option-cases (r.unlock_task id w).0) [
    | inl fine ↦ rw (fine, note_failure) (release_task-failures rs id (r.unlock_task id w).1)
    | inr (x, failed) ↦
        rw (failed, note_failure)
          (ap (◌∷◌ r.kind) (release_task-failures rs id (r.unlock_task id w).1))
  ]

  -- Releasing a task calls every manager's Unlock once, in registration order, also after a failure,
  -- and reports the kinds of those that failed, in that order, and no other.
  pub release_task-unlock_all :
      (rs : List (Wired W)) (id : String) (w : W)
      → ((release_task rs id w).1 ≡ unlock_all rs id w)
        × ((release_task rs id w).0 ≡ map (λ a. a.0) (filter has_failed (answers rs id w)))
  release_task-unlock_all rs id w = (release_task-world rs id w, release_task-failures rs id w)
