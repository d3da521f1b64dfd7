-- ===== src/Tasks/Engine/Tests.antt =====
-- Runs of the engine on a graph of two states.
use rogojin.Prelude.{str_dec, ◌≡◌, refl, String, List, [], ◌∷◌, none, some, Bool, true, false, ◌&&◌}
use rogojin.Workflows.Graph.{running, suspended, killed, done}
use rogojin.Tasks.Engine.{
  Engine, Event, Answer, starts, runs, checkpoints, saves, suspends, detaches, checkpointed,
  stamped, new_engine, handle_all, exited,
}
use rogojin.Tasks.Engine.Soundness.{IsSound}
use rogojin.Tasks.Engine.Runs.{engine-IsSound}
use rogojin.Tasks.Engine.Killing.{kill-final}
use rogojin.Tasks.Engine.Ended.{ended-final}

abbrev fine : Answer
fine = record { fails = false; next = none }

abbrev on_to : String → Answer
on_to s = record { fails = false; next = some s }

abbrev every : String → Bool
every s = true

-- Two states one after the other, and then the end.
abbrev whole_run : List Event
whole_run =
    starts false "pay"
    ∷ runs fine
    ∷ runs fine
    ∷ runs fine
    ∷ runs (on_to "ship")
    ∷ runs fine
    ∷ runs fine
    ∷ runs fine
    ∷ runs fine
    ∷ runs fine
    ∷ runs fine
    ∷ runs fine
    ∷ runs fine
    ∷ []

whole_run_lem : handle_all true true every whole_run new_engine ≡ record new_engine {
  state = done;
  place = exited;
  writes = stamped done ∷ checkpointed running "ship" ∷ checkpointed running "pay" ∷ [];
}
unfolding handle_all
whole_run_lem = refl

-- Suspend and Detach while the handler of the last state runs.
abbrev detached_at_end : List Event
detached_at_end =
    starts false "pay"
    ∷ runs fine
    ∷ runs fine
    ∷ runs fine
    ∷ suspends
    ∷ detaches
    ∷ runs fine
    ∷ runs fine
    ∷ runs fine
    ∷ []

-- The run leaves suspended, and its only checkpoint is the one before the finished state.
detached_at_end_lem : handle_all true true every detached_at_end new_engine ≡ record new_engine {
  state = suspended;
  detach_wanted = true;
  detach_done = true;
  place = exited;
  writes = checkpointed running "pay" ∷ [];
}
unfolding handle_all
detached_at_end_lem = refl

kill-final_example :
    (handle_all true true every whole_run (record new_engine { state = killed })).state ≡ killed
kill-final_example =
    kill-final true true every whole_run (record new_engine { state = killed }) refl

-- A midCheckpoint reads while the handler of the last state runs, and saves after the outcome.
abbrev late_save : List Event
late_save =
    starts false "pay"
    ∷ runs fine
    ∷ runs fine
    ∷ runs fine
    ∷ checkpoints
    ∷ runs fine
    ∷ runs fine
    ∷ runs fine
    ∷ runs fine
    ∷ runs fine
    ∷ saves 0 fine
    ∷ []

-- The stamp "running" overwrites the outcome.
late_save_lem : handle_all true true every late_save new_engine ≡ record new_engine {
  state = done;
  place = exited;
  writes = checkpointed running "pay" ∷ stamped done ∷ checkpointed running "pay" ∷ [];
}
unfolding handle_all str_dec
late_save_lem = refl

engine-IsSound_example : IsSound (true && true) (handle_all true true every late_save new_engine)
engine-IsSound_example = engine-IsSound true true every late_save

abbrev ended : Engine
ended = record new_engine {
  state = done;
  place = exited;
  writes = stamped done ∷ checkpointed running "pay" ∷ [];
}

ended-final_example :
    ((handle_all true true every whole_run ended).state ≡ done)
    × ((handle_all true true every whole_run ended).writes ≡ ended.writes)
ended-final_example = ended-final true true every whole_run ended refl refl refl
