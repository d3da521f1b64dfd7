-- ===== src/Tasks/Engine.antt =====
-- tasks/engine.go. The engine's mutex is held for short segments, so its run loop is cut into the
-- segments between two releases of the mutex, and into the calls of the repository and of handlers;
-- `place` says which comes next. The calls of other goroutines come between them. `writes` are the
-- repository's successful writes, newest first. A midCheckpoint reads under the mutex and saves after
-- its release: `pending` are the states that calls have read and not saved yet. Snapshot blobs are
-- left out.
pub mod Soundness
pub mod Signals
pub mod Boundaries
pub mod Runs
pub mod Killing
pub mod Ended
mod Tests
use rogojin.Prelude.{
  ℕ, zero, suc, String, List, [], ◌∷◌, Option, none, some, ite, Bool, true, false, not, ◌&&◌, ◌||◌,
  if◌then◌else◌, str_dec,
}
use rogojin.Workflows.Graph.{Status, not_started, running, suspended, killed, failed, done}

-- How a run ends: cleanly, with an error, or detached.
pub data Exit : Type 0 where
  clean broke detached : Exit

pub data Place : Type 0 where
  idle : Place
  boundary : Option String → Place
  parking parked entered handling : String → Place
  entering : Option String → Place
  leaving : Exit → Place
  stamping exited : Place

pub data Write : Type 0 where
  checkpointed : Status → String → Write
  stamped : Status → Write

-- `pending` holds the locals of midCheckpoint calls.
pub record Engine : Type 0 where
  pub state : Status
  pub sealed : Bool
  pub detach_wanted : Bool
  pub detach_done : Bool
  pub current : String
  pub pending : List String
  pub place : Place
  pub writes : List Write

-- What the world answers to the segment that runs: the repository or the Outputter succeeds or
-- fails, and a handler returns the next state or fails.
pub record Answer : Type 0 where
  pub fails : Bool
  pub next : Option String

pub data Event : Type 0 where
  starts : Bool → String → Event
  runs : Answer → Event
  saves : ℕ → Answer → Event
  checkpoints suspends resumes detaches kills seals unseals : Event

abbrev pub new_engine : Engine
new_engine = record {
  state = not_started;
  sealed = false;
  detach_wanted = false;
  detach_done = false;
  current = "";
  pending = [];
  place = idle;
  writes = [];
}

abbrev pub is_active : Status → Bool
is_active running = true
is_active suspended = true
is_active _ = false

-- IsRunning
abbrev pub is_live : Status → Bool → Bool
is_live state detach_done = is_active state && not detach_done

abbrev pub first_status : Bool → Status
first_status paused = if paused then suspended else running

abbrev pub start_from : Bool → Status → Bool → String → Engine → Engine
start_from false not_started paused first e = record e {
  state = first_status paused;
  place = boundary (some first);
}
start_from _ _ paused first e = e

-- The first segment of run; a refused start changes nothing. Execute passes the graph's initial
-- state, Rehydrate the recovered one.
unfoldable pub start : Bool → String → Engine → Engine
start paused first e = start_from e.sealed e.state paused first e

-- The end of a boundary, where kill and detach are observed: `dead`, then `detached`.
abbrev pub decide : Status → Bool → Option String → Engine → Engine
decide killed wanted next e = record e { place = leaving broke }
decide suspended true next e = record e { detach_done = true; place = leaving detached }
decide _ _ next e = record e { place = entering next }

-- The boundary up to the release of the mutex before a suspended checkpoint, or to its end.
abbrev pub at_boundary : Status → Bool → Option String → Engine → Engine
at_boundary suspended wanted (some s) e = record e { current = ""; place = parking s }
at_boundary state wanted next e = decide state wanted next (record e { current = "" })

-- One look at the loop around cond.Wait.
abbrev pub look : Status → Bool → String → Engine → Engine
look suspended false s e = e
look state wanted s e = decide state wanted (some s) e

abbrev pub outcome : Exit → Status
outcome clean = done
outcome _ = failed

-- The first locked segment of finish; a detached exit stamps nothing.
abbrev pub finish : Bool → Status → Exit → Engine → Engine
finish true state exit e = record e { place = exited }
finish false killed exit e = record e { place = stamping }
finish false _ exit e = record e { state = outcome exit; place = stamping }

abbrev pub paused_from : Bool → Status → Status
paused_from false running = suspended
paused_from _ state = state

unfoldable pub suspend : Engine → Engine
suspend e = record e { state = paused_from (e.detach_wanted || e.detach_done) e.state }

abbrev pub resumed_from : Bool → Status → Status
resumed_from false suspended = running
resumed_from _ state = state

unfoldable pub resume : Engine → Engine
resume e = record e { state = resumed_from (e.detach_wanted || e.detach_done) e.state }

abbrev pub is_suspended : Status → Bool
is_suspended suspended = true
is_suspended _ = false

-- Detach, which fails unless the engine is suspended.
unfoldable pub detach : Engine → Engine
detach e = record e {
  detach_wanted = e.detach_wanted || (not e.detach_done && is_suspended e.state);
}

abbrev pub killed_from : Bool → Status → Status
killed_from false not_started = killed
killed_from false running = killed
killed_from false suspended = killed
killed_from _ state = state

unfoldable pub kill : Engine → Engine
kill e = record e { state = killed_from e.detach_done e.state }

unfoldable pub seal : Engine → Engine
seal e = record e { sealed = e.sealed || not (is_live e.state e.detach_done) }

unfoldable pub unseal : Engine → Engine
unseal e = record e { sealed = false }

abbrev pub noted : Bool → String → List String → List String
noted false state pending = pending
noted true state pending = ite (str_dec state "") pending (state ∷ pending)

-- midCheckpoint up to the release of the mutex; without a state that executes it refuses.
unfoldable pub mid_checkpoint : Engine → Engine
mid_checkpoint e = record e { pending = noted (is_live e.state e.detach_done) e.current e.pending }

-- An entry of a list, by its place, and the others.
unfoldable pub take_nth : {A : Type 0} → ℕ → List A → Option (A × List A)
take_nth n [] = none
take_nth zero (x ∷ xs) = some (x, xs)
take_nth (suc n) (x ∷ xs) = elim (take_nth n xs) [
  | none ↦ none
  | some found ↦ some (found.0, x ∷ found.1)
]

-- `can_snapshot`: the instance is a Snapshotter; `has_repo`: a repository is wired; `handles`: the
-- graph has a handler for the state.
module _ (can_snapshot has_repo : Bool) (handles : String → Bool) where
  abbrev pub saved_at : Bool → Bool → Write → Place → Place → Engine → Engine
  saved_at false fails w good bad e = record e { place = good }
  saved_at true true w good bad e = record e { place = bad }
  saved_at true false w good bad e = record e { place = good; writes = w ∷ e.writes }

  -- engine.checkpoint, a no-op without a Snapshotter or a repository, and where the run goes on.
  abbrev pub checkpoint : Bool → Status → String → Place → Place → Engine → Engine
  checkpoint fails status s good bad e =
      saved_at (can_snapshot && has_repo) fails (checkpointed status s) good bad e

  abbrev pub enter : Bool → Bool → String → Engine → Engine
  enter false fails s e = record e { place = leaving broke }
  enter true fails s e = checkpoint fails running s (entered s) (leaving broke) e

  -- Harvest, or a handler: an error, or what comes next.
  abbrev pub or_broke : Bool → Place → Place
  or_broke true good = leaving broke
  or_broke false good = good

  abbrev pub stamp : Bool → Engine → Engine
  stamp false e = record e { place = exited }
  stamp true e = record e { place = exited; writes = stamped e.state ∷ e.writes }

  abbrev pub advance_at : Place → Answer → Engine → Engine
  advance_at idle a e = e
  advance_at (boundary next) a e = at_boundary e.state e.detach_wanted next e
  advance_at (parking s) a e = checkpoint a.fails suspended s (parked s) (leaving broke) e
  advance_at (parked s) a e = look e.state e.detach_wanted s e
  advance_at (entering none) a e = record e { place = or_broke a.fails (leaving clean) }
  advance_at (entering (some s)) a e = enter (handles s) a.fails s e
  advance_at (entered s) a e = record e { current = s; place = handling s }
  advance_at (handling s) a e = record e { place = or_broke a.fails (boundary a.next) }
  advance_at (leaving exit) a e = finish e.detach_done e.state exit e
  advance_at stamping a e = stamp (has_repo && not a.fails) e
  advance_at exited a e = e

  -- The next segment of the run.
  unfoldable pub advance : Answer → Engine → Engine
  advance a e = advance_at e.place a e

  -- midCheckpoint after its read: `n` counts the calls in flight, the latest is 0.
  unfoldable pub save_mid : ℕ → Answer → Engine → Engine
  unfolding take_nth
  save_mid n a e = elim (take_nth n e.pending) [
    | none ↦ e
    | some read ↦ checkpoint a.fails running read.0 e.place e.place (record e { pending = read.1 })
  ]

  unfoldable pub handle : Event → Engine → Engine
  unfolding start advance mid_checkpoint save_mid suspend resume detach kill seal unseal
  handle (starts paused first) e = start paused first e
  handle (runs a) e = advance a e
  handle checkpoints e = mid_checkpoint e
  handle (saves n a) e = save_mid n a e
  handle suspends e = suspend e
  handle resumes e = resume e
  handle detaches e = detach e
  handle kills e = kill e
  handle seals e = seal e
  handle unseals e = unseal e

  unfoldable pub handle_all : List Event → Engine → Engine
  unfolding handle
  handle_all [] e = e
  handle_all (v ∷ vs) e = handle_all vs (handle v e)
