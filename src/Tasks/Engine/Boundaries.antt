-- ===== src/Tasks/Engine/Boundaries.antt =====
-- tasks/engine.go: soundness at the start of a run, at its boundaries and at its end.
use rogojin.Prelude.{
  ◌≡◌, refl, ap, subst, String, Option, none, some, Bool, true, false, arith, ◌⊎◌, inl, inr,
}
use rogojin.Workflows.Graph.{Status, not_started, running, suspended, killed, failed, done}
use rogojin.Tasks.Engine.{
  Engine, is_suspended, Exit, clean, broke, detached, boundary, parked, leaving, is_live, start,
  start_from, decide, at_boundary, look, finish,
}
use rogojin.Tasks.Engine.Soundness.{IsSound, Fits, Going, Saved, not_run, is_begun, is_over}

-- A sealed engine that is not live stays so.
abbrev pub Shut : Bool → Status → Bool → Type 0
Shut sealed st d = (sealed ≡ false) ⊎ (is_live st d ≡ false)

module _ (p : Bool) where
  pub start-IsSound :
      (paused : Bool) (first : String) (e : Engine) → IsSound p e → IsSound p (start paused first e)
  unfolding start
  start-IsSound paused first e sound = started e.sealed e.state paused refl refl
    where
      fresh_going :
          (st : Status)
          → is_begun st ≡ true
          → e.state ≡ not_started
          → Going st e.detach_done e.writes
      fresh_going st begun fresh =
          let (d, none_yet) =
            not_run p e.place e.detach_done e.current e.writes
              (subst (λ s. Fits p e.place s e.detach_done e.current e.writes) fresh sound.0) in
          (d, begun, none_yet)

      started :
          (sealed : Bool) (st : Status) (paused : Bool)
          → e.sealed ≡ sealed
          → e.state ≡ st
          → IsSound p (start_from sealed st paused first e)
      started false not_started true unsealed fresh =
          (fresh_going suspended refl fresh, inl unsealed)
      started false not_started false unsealed fresh =
          (fresh_going running refl fresh, inl unsealed)
      started false running paused unsealed fresh = sound
      started false suspended paused unsealed fresh = sound
      started false killed paused unsealed fresh = sound
      started false failed paused unsealed fresh = sound
      started false done paused unsealed fresh = sound
      started true st paused unsealed fresh = sound

  -- A boundary's end, from what holds of a run that goes on.
  decide-IsSound :
      (st : Status) (wanted : Bool) (next : Option String) (e : Engine)
      → Going e.state e.detach_done e.writes
      → Saved p e.writes ⊎ (is_suspended st ≡ false)
      → e.state ≡ st
      → Shut e.sealed e.state e.detach_done
      → IsSound p (decide st wanted next e)
  decide-IsSound killed wanted next e going saved same shut = (going, shut)
  decide-IsSound suspended true next e (d, b, u) (inl saved) same shut =
      ((refl, same, saved, u), inr (ground arith))
  decide-IsSound suspended true next e (d, b, u) (inr never) same shut = absurd (cc never)
  decide-IsSound suspended false next e going saved same shut = (going, shut)
  decide-IsSound running wanted next e going saved same shut = (going, shut)
  decide-IsSound not_started wanted next e going saved same shut = (going, shut)
  decide-IsSound failed wanted next e going saved same shut = (going, shut)
  decide-IsSound done wanted next e going saved same shut = (going, shut)

  pub at_boundary-IsSound :
      (st : Status) (next : Option String) (e : Engine)
      → Fits p (boundary next) e.state e.detach_done e.current e.writes
      → e.state ≡ st
      → Shut e.sealed e.state e.detach_done
      → IsSound p (at_boundary st e.detach_wanted next e)
  at_boundary-IsSound suspended (some s) e going same shut = ((going, refl), shut)
  at_boundary-IsSound suspended none e (going, saved) same shut =
      decide-IsSound suspended e.detach_wanted none (record e { current = "" }) going (inl saved)
        same shut
  at_boundary-IsSound killed (some s) e going same shut =
      decide-IsSound killed e.detach_wanted (some s) (record e { current = "" }) going (inr refl)
        same shut
  at_boundary-IsSound killed none e (going, saved) same shut =
      decide-IsSound killed e.detach_wanted none (record e { current = "" }) going (inl saved) same
        shut
  at_boundary-IsSound running (some s) e going same shut =
      decide-IsSound running e.detach_wanted (some s) (record e { current = "" }) going (inr refl)
        same shut
  at_boundary-IsSound running none e (going, saved) same shut =
      decide-IsSound running e.detach_wanted none (record e { current = "" }) going (inl saved) same
        shut
  at_boundary-IsSound not_started (some s) e (d, b, u) same shut = absurd (cc (ap is_begun same, b))
  at_boundary-IsSound not_started none e ((d, b, u), saved) same shut =
      absurd (cc (ap is_begun same, b))
  at_boundary-IsSound failed (some s) e (d, b, u) same shut = absurd (cc (ap is_begun same, b))
  at_boundary-IsSound failed none e ((d, b, u), saved) same shut = absurd (cc (ap is_begun same, b))
  at_boundary-IsSound done (some s) e (d, b, u) same shut = absurd (cc (ap is_begun same, b))
  at_boundary-IsSound done none e ((d, b, u), saved) same shut = absurd (cc (ap is_begun same, b))

  pub look-IsSound :
      (st : Status) (wanted : Bool) (s : String) (e : Engine)
      → IsSound p e
      → Fits p (parked s) e.state e.detach_done e.current e.writes
      → e.state ≡ st
      → IsSound p (look st wanted s e)
  look-IsSound suspended false s e sound (going, blank, saved) same = sound
  look-IsSound suspended true s e sound (going, blank, saved) same =
      decide-IsSound suspended true (some s) e going (inl saved) same sound.1
  look-IsSound running wanted s e sound (going, blank, saved) same =
      decide-IsSound running wanted (some s) e going (inl saved) same sound.1
  look-IsSound killed wanted s e sound (going, blank, saved) same =
      decide-IsSound killed wanted (some s) e going (inl saved) same sound.1
  look-IsSound not_started wanted s e sound (going, blank, saved) same =
      decide-IsSound not_started wanted (some s) e going (inl saved) same sound.1
  look-IsSound failed wanted s e sound (going, blank, saved) same =
      decide-IsSound failed wanted (some s) e going (inl saved) same sound.1
  look-IsSound done wanted s e sound (going, blank, saved) same =
      decide-IsSound done wanted (some s) e going (inl saved) same sound.1

  pub finish-IsSound :
      (d : Bool) (st : Status) (exit : Exit) (e : Engine)
      → Fits p (leaving exit) e.state e.detach_done e.current e.writes
      → e.detach_done ≡ d
      → e.state ≡ st
      → Shut e.sealed e.state e.detach_done
      → IsSound p (finish d st exit e)
  finish-IsSound true st clean e (d, b, u) gone same shut = absurd (cc (d, gone))
  finish-IsSound true st broke e (d, b, u) gone same shut = absurd (cc (d, gone))
  finish-IsSound true st detached e left gone same shut = (inr left, shut)
  finish-IsSound false st detached e (d, still, saved, u) gone same shut = absurd (cc (d, gone))
  finish-IsSound false killed clean e (d, b, u) gone same shut = ((d, ap is_over same, u), shut)
  finish-IsSound false killed broke e (d, b, u) gone same shut = ((d, ap is_over same, u), shut)
  finish-IsSound false running clean e (d, b, u) gone same shut = ((d, refl, u), inr refl)
  finish-IsSound false running broke e (d, b, u) gone same shut = ((d, refl, u), inr refl)
  finish-IsSound false suspended clean e (d, b, u) gone same shut = ((d, refl, u), inr refl)
  finish-IsSound false suspended broke e (d, b, u) gone same shut = ((d, refl, u), inr refl)
  finish-IsSound false not_started clean e (d, b, u) gone same shut = ((d, refl, u), inr refl)
  finish-IsSound false not_started broke e (d, b, u) gone same shut = ((d, refl, u), inr refl)
  finish-IsSound false failed clean e (d, b, u) gone same shut = ((d, refl, u), inr refl)
  finish-IsSound false failed broke e (d, b, u) gone same shut = ((d, refl, u), inr refl)
  finish-IsSound false done clean e (d, b, u) gone same shut = ((d, refl, u), inr refl)
  finish-IsSound false done broke e (d, b, u) gone same shut = ((d, refl, u), inr refl)
