-- ===== src/Tasks/Engine/Killing.antt =====
-- tasks/engine.go: proofs about a killed engine.
use rogojin.Prelude.{
  ◌≡◌, refl, ap, ◌∙◌, String, List, [], ◌∷◌, Option, none, some, Option-cases, inl, inr, Bool, true,
  false, not, ◌&&◌, ◌||◌,
}
use rogojin.Workflows.Graph.{Status, not_started, running, suspended, killed, failed, done}
use rogojin.Tasks.Engine.{
  Engine, Event, Answer, Exit, Place, idle, boundary, parking, parked, entered, handling, entering,
  leaving, stamping, exited, Write, start, start_from, at_boundary, look, finish, saved_at, enter,
  stamp, advance_at, advance, mid_checkpoint, save_mid, take_nth, suspend, resume, detach, kill,
  seal, unseal, paused_from, resumed_from, killed_from, handle, handle_all, starts, runs,
  checkpoints, saves, suspends, resumes, detaches, kills, seals, unseals,
}

abbrev IsKilled : Engine → Type 0
IsKilled e = e.state ≡ killed

boundary-IsKilled :
    (st : Status) (wanted : Bool) (next : Option String) (e : Engine)
    → st ≡ killed
    → IsKilled e
    → IsKilled (at_boundary st wanted next e)
boundary-IsKilled killed wanted none e same h = h
boundary-IsKilled killed wanted (some s) e same h = h
boundary-IsKilled suspended wanted next e same h = absurd (cc same)
boundary-IsKilled running wanted next e same h = absurd (cc same)
boundary-IsKilled not_started wanted next e same h = absurd (cc same)
boundary-IsKilled failed wanted next e same h = absurd (cc same)
boundary-IsKilled done wanted next e same h = absurd (cc same)

look-IsKilled :
    (st : Status) (wanted : Bool) (s : String) (e : Engine)
    → st ≡ killed
    → IsKilled e
    → IsKilled (look st wanted s e)
look-IsKilled killed wanted s e same h = h
look-IsKilled suspended wanted s e same h = absurd (cc same)
look-IsKilled running wanted s e same h = absurd (cc same)
look-IsKilled not_started wanted s e same h = absurd (cc same)
look-IsKilled failed wanted s e same h = absurd (cc same)
look-IsKilled done wanted s e same h = absurd (cc same)

finish-IsKilled :
    (d : Bool) (st : Status) (exit : Exit) (e : Engine)
    → st ≡ killed
    → IsKilled e
    → IsKilled (finish d st exit e)
finish-IsKilled true st exit e same h = h
finish-IsKilled false killed exit e same h = h
finish-IsKilled false suspended exit e same h = absurd (cc same)
finish-IsKilled false running exit e same h = absurd (cc same)
finish-IsKilled false not_started exit e same h = absurd (cc same)
finish-IsKilled false failed exit e same h = absurd (cc same)
finish-IsKilled false done exit e same h = absurd (cc same)

start-IsKilled :
    (sealed : Bool) (st : Status) (paused : Bool) (first : String) (e : Engine)
    → st ≡ killed
    → IsKilled e
    → IsKilled (start_from sealed st paused first e)
start-IsKilled true st paused first e same h = h
start-IsKilled false killed paused first e same h = h
start-IsKilled false suspended paused first e same h = h
start-IsKilled false running paused first e same h = h
start-IsKilled false not_started paused first e same h = absurd (cc same)
start-IsKilled false failed paused first e same h = h
start-IsKilled false done paused first e same h = h

module _ (can_snapshot has_repo : Bool) (handles : String → Bool) where
  saved-IsKilled :
      (b fails : Bool) (w : Write) (good bad : Place) (e : Engine)
      → IsKilled e
      → IsKilled (saved_at can_snapshot has_repo handles b fails w good bad e)
  saved-IsKilled false fails w good bad e h = h
  saved-IsKilled true true w good bad e h = h
  saved-IsKilled true false w good bad e h = h

  advance-IsKilled :
      (at : Place) (a : Answer) (e : Engine)
      → IsKilled e
      → IsKilled (advance_at can_snapshot has_repo handles at a e)
  advance-IsKilled idle a e h = h
  advance-IsKilled (boundary next) a e h = boundary-IsKilled e.state e.detach_wanted next e h h
  advance-IsKilled (parking s) a e h = saved-IsKilled (can_snapshot && has_repo) a.fails _ _ _ e h
  advance-IsKilled (parked s) a e h = look-IsKilled e.state e.detach_wanted s e h h
  advance-IsKilled (entering none) a e h = h
  advance-IsKilled (entering (some s)) a e h = known (handles s)
    where
      known : (b : Bool) → IsKilled (enter can_snapshot has_repo handles b a.fails s e)
      known false = h
      known true = saved-IsKilled (can_snapshot && has_repo) a.fails _ _ _ e h
  advance-IsKilled (entered s) a e h = h
  advance-IsKilled (handling s) a e h = h
  advance-IsKilled (leaving exit) a e h = finish-IsKilled e.detach_done e.state exit e h h
  advance-IsKilled stamping a e h = answered (has_repo && not a.fails)
    where
      answered : (b : Bool) → IsKilled (stamp can_snapshot has_repo handles b e)
      answered false = h
      answered true = h
  advance-IsKilled exited a e h = h

  handle-IsKilled :
      (v : Event) (e : Engine) → IsKilled e → IsKilled (handle can_snapshot has_repo handles v e)
  unfolding handle start advance mid_checkpoint save_mid suspend resume detach kill seal unseal
  handle-IsKilled (starts paused first) e h = start-IsKilled e.sealed e.state paused first e h h
  handle-IsKilled (runs a) e h = advance-IsKilled e.place a e h
  handle-IsKilled checkpoints e h = h
  handle-IsKilled (saves n a) e h = elim (Option-cases (take_nth n e.pending)) [
    | inl absent ↦ rw (absent, save_mid) h
    | inr ((s, rest), found) ↦
        rw (found, save_mid)
          (saved-IsKilled (can_snapshot && has_repo) a.fails _ e.place e.place
            (record e { pending = rest }) h)
  ]
  handle-IsKilled suspends e h =
      ap (paused_from (e.detach_wanted || e.detach_done)) h
      ∙ stays (e.detach_wanted || e.detach_done)
    where
      stays : (b : Bool) → paused_from b killed ≡ killed
      stays true = refl
      stays false = refl
  handle-IsKilled resumes e h =
      ap (resumed_from (e.detach_wanted || e.detach_done)) h
      ∙ stays (e.detach_wanted || e.detach_done)
    where
      stays : (b : Bool) → resumed_from b killed ≡ killed
      stays true = refl
      stays false = refl
  handle-IsKilled detaches e h = h
  handle-IsKilled kills e h = ap (killed_from e.detach_done) h ∙ stays e.detach_done
    where
      stays : (b : Bool) → killed_from b killed ≡ killed
      stays true = refl
      stays false = refl
  handle-IsKilled seals e h = h
  handle-IsKilled unseals e h = h

  -- An engine that has been killed stays killed, whatever happens later: no start, resume or detach
  -- revives it, and a run that ends after the kill, even cleanly, is not counted as done.
  pub kill-final :
      (vs : List Event) (e : Engine)
      → e.state ≡ killed
      → (handle_all can_snapshot has_repo handles vs e).state ≡ killed
  unfolding handle_all
  kill-final [] e h = h
  kill-final (v ∷ vs) e h = kill-final vs _ (handle-IsKilled v e h)
