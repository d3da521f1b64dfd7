-- ===== src/Tasks/Engine/Signals.antt =====
-- tasks/engine.go: soundness under Suspend, Resume, Detach, Kill, seal and unseal.
use rogojin.Prelude.{refl, String, List, Bool, true, false, not, ◌||◌, arith, inl, inr}
use rogojin.Workflows.Graph.{Status, not_started, running, suspended, killed, failed, done}
use rogojin.Tasks.Engine.{
  Engine, Place, Write, is_live, suspend, resume, detach, kill, seal, unseal, paused_from,
  resumed_from, killed_from,
}
use rogojin.Tasks.Engine.Soundness.{IsSound, SoundAt, restatus, latch}

module _ (p : Bool) (at : Place) (sealed : Bool) (c : String) (ws : List Write) where
  paused-SoundAt :
      (w d : Bool) (st : Status)
      → SoundAt p at st sealed d c ws
      → SoundAt p at (paused_from (w || d) st) sealed d c ws
  paused-SoundAt true d st h = h
  paused-SoundAt false true st h = h
  paused-SoundAt false false running (fits, shut) =
      (restatus p at running suspended c ws refl refl fits, shut)
  paused-SoundAt false false not_started h = h
  paused-SoundAt false false suspended h = h
  paused-SoundAt false false killed h = h
  paused-SoundAt false false failed h = h
  paused-SoundAt false false done h = h

  resumed-SoundAt :
      (w d : Bool) (st : Status)
      → SoundAt p at st sealed d c ws
      → SoundAt p at (resumed_from (w || d) st) sealed d c ws
  resumed-SoundAt true d st h = h
  resumed-SoundAt false true st h = h
  resumed-SoundAt false false suspended (fits, shut) =
      (restatus p at suspended running c ws refl refl fits, shut)
  resumed-SoundAt false false not_started h = h
  resumed-SoundAt false false running h = h
  resumed-SoundAt false false killed h = h
  resumed-SoundAt false false failed h = h
  resumed-SoundAt false false done h = h

  killed-SoundAt :
      (d : Bool) (st : Status)
      → SoundAt p at st sealed d c ws
      → SoundAt p at (killed_from d st) sealed d c ws
  killed-SoundAt true st h = h
  killed-SoundAt false running (fits, shut) =
      (restatus p at running killed c ws refl refl fits, inr refl)
  killed-SoundAt false suspended (fits, shut) =
      (restatus p at suspended killed c ws refl refl fits, inr refl)
  killed-SoundAt false not_started (fits, shut) = (latch p at c ws fits, inr refl)
  killed-SoundAt false killed h = h
  killed-SoundAt false failed h = h
  killed-SoundAt false done h = h

  seal-SoundAt :
      (d : Bool) (st : Status)
      → SoundAt p at st sealed d c ws
      → SoundAt p at st (sealed || not (is_live st d)) d c ws
  seal-SoundAt d st (fits, shut) = (fits, ground arith)

module _ (p : Bool) (e : Engine) (sound : IsSound p e) where
  pub suspend-IsSound : IsSound p (suspend e)
  unfolding suspend
  suspend-IsSound =
      paused-SoundAt p e.place e.sealed e.current e.writes e.detach_wanted e.detach_done e.state
        sound

  pub resume-IsSound : IsSound p (resume e)
  unfolding resume
  resume-IsSound =
      resumed-SoundAt p e.place e.sealed e.current e.writes e.detach_wanted e.detach_done e.state
        sound

  pub detach-IsSound : IsSound p (detach e)
  unfolding detach
  detach-IsSound = sound

  pub kill-IsSound : IsSound p (kill e)
  unfolding kill
  kill-IsSound = killed-SoundAt p e.place e.sealed e.current e.writes e.detach_done e.state sound

  pub seal-IsSound : IsSound p (seal e)
  unfolding seal
  seal-IsSound = seal-SoundAt p e.place e.sealed e.current e.writes e.detach_done e.state sound

  pub unseal-IsSound : IsSound p (unseal e)
  unfolding unseal
  unseal-IsSound = (sound.0, inl refl)
