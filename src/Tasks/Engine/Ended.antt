-- ===== src/Tasks/Engine/Ended.antt =====
-- tasks/engine.go: proofs about an engine whose run has ended with an outcome.
use rogojin.Prelude.{◌≡◌, refl, ap, sym, ◌∙◌, subst, String, List, [], ◌∷◌, Bool, true, false, ◌||◌}
use rogojin.Workflows.Graph.{Status, not_started, running, suspended, killed, failed, done}
use rogojin.Tasks.Engine.{
  Engine, Event, exited, Write, is_live, start_from, start, advance_at, advance, noted,
  mid_checkpoint, take_nth, save_mid, suspend, resume, detach, kill, seal, unseal, paused_from,
  resumed_from, killed_from, handle, handle_all, starts, runs, checkpoints, saves, suspends,
  resumes, detaches, kills, seals, unseals,
}
use rogojin.Tasks.Engine.Soundness.{is_over, over_inactive}

-- A run that has ended with an outcome and these writes, and no midCheckpoint between its read and
-- its save.
record IsEnded (st : Status) (ws : List Write) (e : Engine) : Type 0 where
  at : e.place ≡ exited
  with_status : e.state ≡ st
  none_pending : e.pending ≡ []
  wrote : e.writes ≡ ws

over-paused_from : (st : Status) (b : Bool) → is_over st ≡ true → paused_from b st ≡ st
over-paused_from killed true over = refl
over-paused_from killed false over = refl
over-paused_from failed true over = refl
over-paused_from failed false over = refl
over-paused_from done true over = refl
over-paused_from done false over = refl
over-paused_from not_started b over = absurd (cc over)
over-paused_from running b over = absurd (cc over)
over-paused_from suspended b over = absurd (cc over)

over-resumed_from : (st : Status) (b : Bool) → is_over st ≡ true → resumed_from b st ≡ st
over-resumed_from killed true over = refl
over-resumed_from killed false over = refl
over-resumed_from failed true over = refl
over-resumed_from failed false over = refl
over-resumed_from done true over = refl
over-resumed_from done false over = refl
over-resumed_from not_started b over = absurd (cc over)
over-resumed_from running b over = absurd (cc over)
over-resumed_from suspended b over = absurd (cc over)

over-killed_from : (st : Status) (b : Bool) → is_over st ≡ true → killed_from b st ≡ st
over-killed_from killed true over = refl
over-killed_from killed false over = refl
over-killed_from failed true over = refl
over-killed_from failed false over = refl
over-killed_from done true over = refl
over-killed_from done false over = refl
over-killed_from not_started b over = absurd (cc over)
over-killed_from running b over = absurd (cc over)
over-killed_from suspended b over = absurd (cc over)

over-start_from :
    (st : Status) (b paused : Bool) (first : String) (e : Engine)
    → is_over st ≡ true
    → start_from b st paused first e ≡ e
over-start_from st true paused first e over = refl
over-start_from killed false paused first e over = refl
over-start_from failed false paused first e over = refl
over-start_from done false paused first e over = refl
over-start_from not_started false paused first e over = absurd (cc over)
over-start_from running false paused first e over = absurd (cc over)
over-start_from suspended false paused first e over = absurd (cc over)

over-noted :
    (st : Status) (d : Bool) (s : String) (ps : List String)
    → is_over st ≡ true
    → noted (is_live st d) s ps ≡ ps
over-noted st d s ps over = rw (over_inactive st over) refl

module _ (can_snapshot has_repo : Bool) (handles : String → Bool) (st : Status)
    (over : is_over st ≡ true) (ws : List Write) where
  restate :
      (e : Engine) (st' : Status)
      → st' ≡ st
      → IsEnded st ws e
      → IsEnded st ws (record e { state = st' })
  restate e st' same v = record {
    at = v.at;
    with_status = same;
    none_pending = v.none_pending;
    wrote = v.wrote;
  }

  handle-IsEnded :
      (v : Event) (e : Engine)
      → IsEnded st ws e
      → IsEnded st ws (handle can_snapshot has_repo handles v e)
  unfolding handle start advance mid_checkpoint save_mid suspend resume detach kill seal unseal
      take_nth
  handle-IsEnded (starts paused first) e v =
      subst (IsEnded st ws)
        (sym (over-start_from e.state e.sealed paused first e (ap is_over v.with_status ∙ over))) v
  handle-IsEnded (runs a) e v =
      subst (λ at. IsEnded st ws (advance_at can_snapshot has_repo handles at a e)) (sym v.at) v
  handle-IsEnded checkpoints e v = record {
    at = v.at;
    with_status = v.with_status;
    none_pending =
        over-noted e.state e.detach_done e.current e.pending (ap is_over v.with_status ∙ over)
        ∙ v.none_pending;
    wrote = v.wrote;
  }
  handle-IsEnded (saves n a) e v = rw (v.none_pending, save_mid) v
  handle-IsEnded suspends e v =
      restate e _
        (ap (paused_from (e.detach_wanted || e.detach_done)) v.with_status
          ∙ over-paused_from st (e.detach_wanted || e.detach_done) over)
        v
  handle-IsEnded resumes e v =
      restate e _
        (ap (resumed_from (e.detach_wanted || e.detach_done)) v.with_status
          ∙ over-resumed_from st (e.detach_wanted || e.detach_done) over)
        v
  handle-IsEnded detaches e v = record {
    at = v.at;
    with_status = v.with_status;
    none_pending = v.none_pending;
    wrote = v.wrote;
  }
  handle-IsEnded kills e v =
      restate e _
        (ap (killed_from e.detach_done) v.with_status ∙ over-killed_from st e.detach_done over) v
  handle-IsEnded seals e v = record {
    at = v.at;
    with_status = v.with_status;
    none_pending = v.none_pending;
    wrote = v.wrote;
  }
  handle-IsEnded unseals e v = record {
    at = v.at;
    with_status = v.with_status;
    none_pending = v.none_pending;
    wrote = v.wrote;
  }

  handle_all-IsEnded :
      (vs : List Event) (e : Engine)
      → IsEnded st ws e
      → IsEnded st ws (handle_all can_snapshot has_repo handles vs e)
  unfolding handle_all
  handle_all-IsEnded [] e v = v
  handle_all-IsEnded (x ∷ vs) e v = handle_all-IsEnded vs _ (handle-IsEnded x e v)

-- Once a run has ended with an outcome (killed, failed or done), and no midCheckpoint is between its
-- read and its save, whatever events follow change neither the status nor what has been written.
pub ended-final :
    (can_snapshot has_repo : Bool) (handles : String → Bool) (vs : List Event) (e : Engine)
    → e.place ≡ exited
    → is_over e.state ≡ true
    → e.pending ≡ []
    → ((handle_all can_snapshot has_repo handles vs e).state ≡ e.state)
      × ((handle_all can_snapshot has_repo handles vs e).writes ≡ e.writes)
ended-final can_snapshot has_repo handles vs e at over quiet =
    let v =
      handle_all-IsEnded can_snapshot has_repo handles e.state over e.writes vs e
        (record { at = at; with_status = refl; none_pending = quiet; wrote = refl }) in
    (v.with_status, v.wrote)
