-- ===== src/Tasks/Engine/Runs.antt =====
-- tasks/engine.go: soundness in every segment of a run.
use rogojin.Prelude.{
  ◌≡◌, refl, String, List, [], ◌∷◌, Option, none, some, Bool, true, false, not, ◌&&◌, inl, inr, ℕ,
  Option-cases,
}
use rogojin.Workflows.Graph.{running, suspended}
use rogojin.Tasks.Engine.{
  Engine, Event, Answer, clean, broke, Place, idle, boundary, parking, parked, entered, handling,
  entering, leaving, stamping, exited, Write, checkpointed, new_engine, saved_at, enter, or_broke,
  stamp, advance_at, advance, mid_checkpoint, save_mid, take_nth, handle, handle_all, starts, runs,
  checkpoints, saves, suspends, resumes, detaches, kills, seals, unseals,
}
use rogojin.Tasks.Engine.Soundness.{IsSound, Fits, Going, one_more}
use rogojin.Tasks.Engine.Signals.{
  suspend-IsSound, resume-IsSound, detach-IsSound, kill-IsSound, seal-IsSound, unseal-IsSound,
}
use rogojin.Tasks.Engine.Boundaries.{
  Shut, start-IsSound, at_boundary-IsSound, look-IsSound, finish-IsSound,
}

module _ (can_snapshot has_repo : Bool) (handles : String → Bool) where
  abbrev persists : Bool
  persists = can_snapshot && has_repo

  saved_at-IsSound :
      (b fails : Bool) (w : Write) (good bad : Place) (e : Engine)
      → persists ≡ b
      → Shut e.sealed e.state e.detach_done
      → Fits persists bad e.state e.detach_done e.current e.writes
      → (persists ≡ false → Fits persists good e.state e.detach_done e.current e.writes)
      → Fits persists good e.state e.detach_done e.current (w ∷ e.writes)
      → IsSound persists (saved_at can_snapshot has_repo handles b fails w good bad e)
  saved_at-IsSound false fails w good bad e same shut worse unsaved better = (unsaved same, shut)
  saved_at-IsSound true true w good bad e same shut worse unsaved better = (worse, shut)
  saved_at-IsSound true false w good bad e same shut worse unsaved better = (better, shut)

  enter-IsSound :
      (known fails : Bool) (s : String) (e : Engine)
      → Going e.state e.detach_done e.writes
      → Shut e.sealed e.state e.detach_done
      → IsSound persists (enter can_snapshot has_repo handles known fails s e)
  enter-IsSound false fails s e going shut = (going, shut)
  enter-IsSound true fails s e going shut =
      saved_at-IsSound persists fails (checkpointed running s) (entered s) (leaving broke) e refl
        shut going (λ off. (going, inl off)) (going, inr (running, s, e.writes, refl))

  advance_at-IsSound :
      (at : Place) (a : Answer) (e : Engine)
      → IsSound persists e
      → Fits persists at e.state e.detach_done e.current e.writes
      → IsSound persists (advance_at can_snapshot has_repo handles at a e)
  advance_at-IsSound idle a e sound fits = sound
  advance_at-IsSound (boundary next) a e sound fits =
      at_boundary-IsSound persists e.state next e fits refl sound.1
  advance_at-IsSound (parking s) a e sound (going, blank) =
      saved_at-IsSound persists a.fails (checkpointed suspended s) (parked s) (leaving broke) e refl
        sound.1 going (λ off. (going, blank, inl off))
        (going, blank, inr (suspended, s, e.writes, refl))
  advance_at-IsSound (parked s) a e sound fits =
      look-IsSound persists e.state e.detach_wanted s e sound fits refl
  advance_at-IsSound (entering none) a e sound going = (harvested a.fails, sound.1)
    where
      harvested :
          (fails : Bool)
          → Fits persists
              (or_broke can_snapshot has_repo handles fails (leaving clean))
              e.state
              e.detach_done
              e.current
              e.writes
      harvested true = going
      harvested false = going
  advance_at-IsSound (entering (some s)) a e sound going =
      enter-IsSound (handles s) a.fails s e going sound.1
  advance_at-IsSound (entered s) a e sound fits = (fits, sound.1)
  advance_at-IsSound (handling s) a e sound (going, saved) = (handled a.fails a.next, sound.1)
    where
      handled :
          (fails : Bool) (next : Option String)
          → Fits persists
              (or_broke can_snapshot has_repo handles fails (boundary next))
              e.state
              e.detach_done
              e.current
              e.writes
      handled true next = going
      handled false none = (going, saved)
      handled false (some s') = going
  advance_at-IsSound (leaving exit) a e sound fits =
      finish-IsSound persists e.detach_done e.state exit e fits refl refl sound.1
  advance_at-IsSound stamping a e sound (d, over, u) = stamped_once (has_repo && not a.fails)
    where
      stamped_once : (b : Bool) → IsSound persists (stamp can_snapshot has_repo handles b e)
      stamped_once false = (inl (d, over, inl u), sound.1)
      stamped_once true = (inl (d, over, inr ([], e.writes, refl, tt, u)), sound.1)
  advance_at-IsSound exited a e sound fits = sound

  save_mid-IsSound :
      (n : ℕ) (a : Answer) (e : Engine)
      → IsSound persists e
      → IsSound persists (save_mid can_snapshot has_repo handles n a e)
  unfolding save_mid
  save_mid-IsSound n a e sound = elim (Option-cases (take_nth n e.pending)) [
    | inl absent ↦ rw (absent, save_mid) sound
    | inr ((s, rest), found) ↦
        rw (found, save_mid)
          (saved_at-IsSound persists a.fails (checkpointed running s) e.place e.place
            (record e { pending = rest }) refl sound.1 sound.0 (λ off. sound.0)
            (one_more persists e.place e.state e.detach_done e.current s e.writes sound.0))
  ]

  handle-IsSound :
      (v : Event) (e : Engine)
      → IsSound persists e
      → IsSound persists (handle can_snapshot has_repo handles v e)
  unfolding handle advance mid_checkpoint
  handle-IsSound (starts paused first) e sound = start-IsSound persists paused first e sound
  handle-IsSound (runs a) e sound = advance_at-IsSound e.place a e sound sound.0
  handle-IsSound checkpoints e sound = sound
  handle-IsSound (saves n a) e sound = save_mid-IsSound n a e sound
  handle-IsSound suspends e sound = suspend-IsSound persists e sound
  handle-IsSound resumes e sound = resume-IsSound persists e sound
  handle-IsSound detaches e sound = detach-IsSound persists e sound
  handle-IsSound kills e sound = kill-IsSound persists e sound
  handle-IsSound seals e sound = seal-IsSound persists e sound
  handle-IsSound unseals e sound = unseal-IsSound persists e sound

  handle_all-IsSound :
      (vs : List Event) (e : Engine)
      → IsSound persists e
      → IsSound persists (handle_all can_snapshot has_repo handles vs e)
  unfolding handle_all
  handle_all-IsSound [] e sound = sound
  handle_all-IsSound (v ∷ vs) e sound = handle_all-IsSound vs _ (handle-IsSound v e sound)

  -- A new engine is sound after any events in any order, whatever the repository and the handlers
  -- answer: while it is sealed it is not live; a run stamps at most one outcome, and after it only
  -- saves of midCheckpoint calls, stamped running, may follow; and a run that has left detached is
  -- still suspended, has stamped nothing and, if it writes checkpoints at all, has a checkpoint as
  -- its newest write.
  pub engine-IsSound :
      (vs : List Event)
      → IsSound (can_snapshot && has_repo) (handle_all can_snapshot has_repo handles vs new_engine)
  engine-IsSound vs = handle_all-IsSound vs new_engine ((refl, inl refl, refl), inl refl)
