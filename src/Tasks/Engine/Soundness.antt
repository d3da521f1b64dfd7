-- ===== src/Tasks/Engine/Soundness.antt =====
-- What holds of an engine between two segments, under any calls in any order.
use rogojin.Prelude.{
  ◌≡◌, refl, ap, ◌++◌, String, List, [], ◌∷◌, none, some, Bool, true, false, arith, ◌⊎◌, inl, inr,
}
use rogojin.Workflows.Graph.{Status, not_started, running, suspended, killed, failed, done}
use rogojin.Tasks.Engine.{
  Engine, clean, broke, detached, Place, idle, boundary, parking, parked, entered, handling,
  entering, leaving, stamping, exited, Write, checkpointed, stamped, is_active, is_live,
}

abbrev pub is_begun : Status → Bool
is_begun running = true
is_begun suspended = true
is_begun killed = true
is_begun _ = false

abbrev pub is_over : Status → Bool
is_over killed = true
is_over failed = true
is_over done = true
is_over _ = false

abbrev pub unstamped : List Write → Bool
unstamped [] = true
unstamped (checkpointed st s ∷ ws) = unstamped ws
unstamped (stamped st ∷ ws) = false

-- The newest write is a checkpoint, where the engine writes any.
abbrev pub Saved : Bool → List Write → Type 0
Saved persists ws =
    (persists ≡ false)
    ⊎ ((st : Status) × (s : String) × (rest : List Write) × (ws ≡ checkpointed st s ∷ rest))

-- The run goes on: started, perhaps killed, not detached, and no outcome stamped.
abbrev pub Going : Status → Bool → List Write → Type 0
Going st d ws = (d ≡ false) × (is_begun st ≡ true) × (unstamped ws ≡ true)

-- Saves of midCheckpoint.
abbrev pub AllRunning : List Write → Type 0
AllRunning [] = Unit {0}
AllRunning (checkpointed running s ∷ ws) = AllRunning ws
AllRunning (_ ∷ ws) = ⊥

-- A run stamps its outcome once, and after that it saves nothing: only a midCheckpoint that has
-- read before may still do.
abbrev pub StampedOnce : Status → List Write → Type 0
StampedOnce st ws =
    (unstamped ws ≡ true)
    ⊎ ((late : List Write) × (rest : List Write) × (ws ≡ late ++ stamped st ∷ rest)
        × AllRunning late
        × (unstamped rest ≡ true))

-- A detached run: still suspended, nothing stamped, a checkpoint to recover from.
abbrev pub LeftSuspended : Bool → Status → Bool → List Write → Type 0
LeftSuspended persists st d ws =
    (d ≡ true) × (st ≡ suspended) × Saved persists ws × (unstamped ws ≡ true)

-- What holds at each place of the run loop.
abbrev pub Fits : Bool → Place → Status → Bool → String → List Write → Type 0
Fits p idle st d c ws = (d ≡ false) × ((st ≡ not_started) ⊎ (st ≡ killed)) × (unstamped ws ≡ true)
Fits p (boundary none) st d c ws = Going st d ws × Saved p ws
Fits p (boundary (some s)) st d c ws = Going st d ws
Fits p (parking s) st d c ws = Going st d ws × (c ≡ "")
Fits p (parked s) st d c ws = Going st d ws × (c ≡ "") × Saved p ws
Fits p (entering next) st d c ws = Going st d ws
Fits p (entered s) st d c ws = Going st d ws × Saved p ws
Fits p (handling s) st d c ws = Going st d ws × Saved p ws
Fits p (leaving clean) st d c ws = Going st d ws
Fits p (leaving broke) st d c ws = Going st d ws
Fits p (leaving detached) st d c ws = LeftSuspended p st d ws
Fits p stamping st d c ws = (d ≡ false) × (is_over st ≡ true) × (unstamped ws ≡ true)
Fits p exited st d c ws =
    ((d ≡ false) × (is_over st ≡ true) × StampedOnce st ws) ⊎ LeftSuspended p st d ws

-- The engine fits its place, and one that is sealed is not live.
abbrev pub SoundAt : Bool → Place → Status → Bool → Bool → String → List Write → Type 0
SoundAt p at st sealed d c ws = Fits p at st d c ws × ((sealed ≡ false) ⊎ (is_live st d ≡ false))

abbrev pub IsSound : Bool → Engine → Type 0
IsSound p e = SoundAt p e.place e.state e.sealed e.detach_done e.current e.writes

pub begun_active : (st : Status) → is_active st ≡ true → is_begun st ≡ true
begun_active running a = refl
begun_active suspended a = refl
begun_active not_started a = absurd (cc a)
begun_active killed a = absurd (cc a)
begun_active failed a = absurd (cc a)
begun_active done a = absurd (cc a)

pub over_inactive : (st : Status) → is_over st ≡ true → is_active st ≡ false
over_inactive killed a = refl
over_inactive failed a = refl
over_inactive done a = refl
over_inactive not_started a = absurd (cc a)
over_inactive running a = absurd (cc a)
over_inactive suspended a = absurd (cc a)

-- A live engine may change to any begun status.
pub restatus :
    (p : Bool) (at : Place) (st st' : Status) (c : String) (ws : List Write)
    → is_active st ≡ true
    → is_begun st' ≡ true
    → Fits p at st false c ws
    → Fits p at st' false c ws
restatus p idle st st' c ws a b (d, still, none_yet) = absurd (ground arith)
restatus p (boundary none) st st' c ws a b ((d, _, u), saved) = ((d, b, u), saved)
restatus p (boundary (some s)) st st' c ws a b (d, _, u) = (d, b, u)
restatus p (parking s) st st' c ws a b ((d, _, u), blank) = ((d, b, u), blank)
restatus p (parked s) st st' c ws a b ((d, _, u), blank, saved) = ((d, b, u), blank, saved)
restatus p (entering next) st st' c ws a b (d, _, u) = (d, b, u)
restatus p (entered s) st st' c ws a b ((d, _, u), saved) = ((d, b, u), saved)
restatus p (handling s) st st' c ws a b ((d, _, u), saved) = ((d, b, u), saved)
restatus p (leaving clean) st st' c ws a b (d, _, u) = (d, b, u)
restatus p (leaving broke) st st' c ws a b (d, _, u) = (d, b, u)
restatus p (leaving detached) st st' c ws a b (d, _, _, _) = absurd (cc d)
restatus p stamping st st' c ws a b (d, over, u) = absurd (cc (over_inactive st over))
restatus p exited st st' c ws a b (inl (d, over, u)) = absurd (cc (over_inactive st over))
restatus p exited st st' c ws a b (inr (d, _, _, _)) = absurd (cc d)

-- A kill before the first start.
pub latch :
    (p : Bool) (at : Place) (c : String) (ws : List Write)
    → Fits p at not_started false c ws
    → Fits p at killed false c ws
latch p idle c ws (d, still, none_yet) = (d, inr refl, none_yet)
latch p (boundary none) c ws ((d, b, u), saved) = absurd (cc b)
latch p (boundary (some s)) c ws (d, b, u) = absurd (cc b)
latch p (parking s) c ws ((d, b, u), blank) = absurd (cc b)
latch p (parked s) c ws ((d, b, u), blank, saved) = absurd (cc b)
latch p (entering next) c ws (d, b, u) = absurd (cc b)
latch p (entered s) c ws ((d, b, u), saved) = absurd (cc b)
latch p (handling s) c ws ((d, b, u), saved) = absurd (cc b)
latch p (leaving clean) c ws (d, b, u) = absurd (cc b)
latch p (leaving broke) c ws (d, b, u) = absurd (cc b)
latch p (leaving detached) c ws (d, _, _, _) = absurd (cc d)
latch p stamping c ws (d, over, u) = absurd (cc over)
latch p exited c ws (inl (d, over, u)) = absurd (cc over)
latch p exited c ws (inr (d, _, _, _)) = absurd (cc d)

-- An engine whose status is the zero one has not run.
pub not_run :
    (p : Bool) (at : Place) (d : Bool) (c : String) (ws : List Write)
    → Fits p at not_started d c ws
    → (d ≡ false) × (unstamped ws ≡ true)
not_run p idle d c ws (gone, still, none_yet) = (gone, none_yet)
not_run p (boundary none) d c ws ((gone, b, u), saved) = absurd (cc b)
not_run p (boundary (some s)) d c ws (gone, b, u) = absurd (cc b)
not_run p (parking s) d c ws ((gone, b, u), blank) = absurd (cc b)
not_run p (parked s) d c ws ((gone, b, u), blank, saved) = absurd (cc b)
not_run p (entering next) d c ws (gone, b, u) = absurd (cc b)
not_run p (entered s) d c ws ((gone, b, u), saved) = absurd (cc b)
not_run p (handling s) d c ws ((gone, b, u), saved) = absurd (cc b)
not_run p (leaving clean) d c ws (gone, b, u) = absurd (cc b)
not_run p (leaving broke) d c ws (gone, b, u) = absurd (cc b)
not_run p (leaving detached) d c ws (gone, still, saved, u) = absurd (cc still)
not_run p stamping d c ws (gone, over, u) = absurd (cc over)
not_run p exited d c ws (inl (gone, over, u)) = absurd (cc over)
not_run p exited d c ws (inr (gone, still, saved, u)) = absurd (cc still)

-- A checkpoint of a running state, whoever saves it.
pub one_more :
    (p : Bool) (at : Place) (st : Status) (d : Bool) (c s : String) (ws : List Write)
    → Fits p at st d c ws
    → Fits p at st d c (checkpointed running s ∷ ws)
one_more p idle st d c s ws fits = fits
one_more p (boundary none) st d c s ws (going, saved) = (going, inr (running, s, ws, refl))
one_more p (boundary (some j)) st d c s ws going = going
one_more p (parking j) st d c s ws fits = fits
one_more p (parked j) st d c s ws (going, blank, saved) = (going, blank, inr (running, s, ws, refl))
one_more p (entering next) st d c s ws going = going
one_more p (entered j) st d c s ws (going, saved) = (going, inr (running, s, ws, refl))
one_more p (handling j) st d c s ws (going, saved) = (going, inr (running, s, ws, refl))
one_more p (leaving clean) st d c s ws going = going
one_more p (leaving broke) st d c s ws going = going
one_more p (leaving detached) st d c s ws (gone, still, saved, u) =
    (gone, still, inr (running, s, ws, refl), u)
one_more p stamping st d c s ws fits = fits
one_more p exited st d c s ws (inl (gone, over, inl u)) = inl (gone, over, inl u)
one_more p exited st d c s ws (inl (gone, over, inr (late, rest, e, all, u))) = inl (
  gone,
  over,
  inr (checkpointed running s ∷ late, rest, ap (◌∷◌ (checkpointed running s)) e, all, u),
)
one_more p exited st d c s ws (inr (gone, still, saved, u)) =
    inr (gone, still, inr (running, s, ws, refl), u)
