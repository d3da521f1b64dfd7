-- ===== src/Email/Serving.antt =====
-- email/listener.go: the goroutine of a listener. Its session with the server is not under the
-- manager's lock, so the goroutine is a state machine: `Pc` is where it stands, an `Answer` is
-- what the session, the timer or the stop channel gives it, and each step is one section under
-- the lock or one such answer.
use rogojin.Prelude.{
  ℕ, ◌*◌, String, List, [], ◌∷◌, Option, none, some, ite, ℕ_discrete, Bool, true, false,
  if◌then◌else◌, ltb,
}
use rogojin.Prelude.Map.{lookup, insert}
use rogojin.Email.Types.{Inbox, Email, Message, Error, Env, service}
use rogojin.Email.State.{Manager, owns}
use rogojin.Email.Delivery.{fanout}

-- Milliseconds.
abbrev pub backoff_floor : ℕ
backoff_floor = 1000

abbrev pub backoff_ceil : ℕ
backoff_ceil = 120000

abbrev pub healthy_after : ℕ
healthy_after = 30000

-- The next wait: `elapsed` is the time since the start of the serve, the wait behind it included.
unfoldable pub next_backoff : ℕ → ℕ → ℕ
next_backoff elapsed backoff =
    if ltb healthy_after elapsed
    then backoff_floor
    else if ltb backoff_ceil (backoff * 2)
    then backoff_ceil
    else backoff * 2

-- The email's inbox, where the listener is still its own.
abbrev pub owned_inbox : Option Email → Bool → Option (Email × Inbox)
owned_inbox none own = none
owned_inbox (some e) false = none
owned_inbox (some e) true = elim e.inbox [ none ↦ none | some i ↦ some (e, i) ]

-- The inbox with the cursor moved: back only for a reset.
unfoldable pub moved : ℕ → ℕ → Bool → Inbox → Inbox
moved validity uid true i = record i { uid_validity = validity; last_uid = uid }
moved validity uid false i = record i {
  uid_validity = validity;
  last_uid = if ltb i.last_uid uid then uid else i.last_uid;
}

module _ {W : Type 0} where
  -- cursor
  unfoldable pub cursor : ℕ → Manager W → Option Inbox
  cursor l m = elim (owned_inbox (lookup (m.lines l).email_id m.inventory) (owns l m)) [
    | none ↦ none
    | some held ↦ some held.1
  ]

module _ {W E : Type 0} where
  abbrev pub store_cursor :
      String → Email → Manager W → Option E × W → Option (Error E) × Manager W × W
  store_cursor id e m (some x, w) = (some (service "persist cursor" x), m, w)
  store_cursor id e m (none, w) = (none, record m { inventory = insert id e m.inventory }, w)

module _ {W E : Type 0} (env : Env W E) where
  -- advanceCursor: store first, and nothing for a listener that lost its inbox.
  unfoldable pub advance_cursor :
      ℕ → ℕ → ℕ → Bool → Manager W → W → Option (Error E) × Manager W × W
  unfolding moved
  advance_cursor l validity uid reset m w =
      elim (owned_inbox (lookup (m.lines l).email_id m.inventory) (owns l m)) [
        | none ↦ (none, m, w)
        | some held ↦
            let e = record held.0 {
              inbox = some (moved validity uid reset held.1);
              updated_at = env.now w;
            } in
            store_cursor (m.lines l).email_id e m (env.repo.save e w)
      ]

-- `dialing` opens the session, `reconciling` compares the mailbox's validity with the cursor's and
-- `resetting` moves the cursor there, `reading` starts the loop, `storing` advances the cursor.
pub data Pc : Type 0 where
  starting : Pc
  dialing : Pc
  selecting : Pc
  reconciling : ℕ → ℕ → Pc
  resetting : ℕ → ℕ → Pc
  reading : ℕ → Pc
  fetching : ℕ → ℕ → Pc
  fanning : ℕ → ℕ → List Message → Pc
  storing : ℕ → ℕ → Pc
  idling : ℕ → Pc
  waiting : Pc
  ended : Pc

-- `stopped` is a receive from the stop channel, `failed` an error of the session, with whether the
-- context is done by then, and `waited` the timer, with the time since the start.
pub data Answer (E : Type 0) : Type 0 where
  go_on : Answer E
  stopped : Answer E
  failed : Bool → E → Answer E
  dialed : Answer E
  selected : ℕ → ℕ → Answer E
  fetched : List Message → Answer E
  idled : Answer E
  waited : ℕ → Answer E

-- `reports` are the errors reported, the newest first.
pub record Run (E : Type 0) : Type 0 where
  pub pc : Pc
  pub backoff : ℕ
  pub reports : List (Error E)

module _ {E : Type 0} where
  abbrev pub new_run : Run E
  new_run = record { pc = starting; backoff = backoff_floor; reports = [] }

  abbrev pub at : Pc → Run E → Run E
  at pc r = record r { pc = pc }

  -- serveOnce returned an error: run reports it and waits.
  abbrev pub break_off : String → E → Run E → Run E
  break_off what x r = record r { pc = waiting; reports = service what x ∷ r.reports }

  abbrev pub after_store : Pc → Option (Error E) → Run E → Run E
  after_store pc none r = at pc r
  after_store pc (some x) r = record r { pc = waiting; reports = x ∷ r.reports }

module _ {W E : Type 0} (env : Env W E) where
  -- After the first read of the cursor: a renumbered mailbox resets it.
  abbrev reconcile : ℕ → ℕ → Option Inbox → Run E → Run E
  reconcile validity last none r = at waiting r
  reconcile validity last (some i) r =
      ite (ℕ_discrete validity i.uid_validity) (at (reading validity) r)
        (at (resetting validity last) r)

  abbrev read_cursor : ℕ → Option Inbox → Run E → Run E
  read_cursor validity none r = at waiting r
  read_cursor validity (some i) r = at (fetching validity i.last_uid) r

  abbrev after_fan : ℕ → ℕ → Option ℕ → Run E → Run E
  after_fan validity last none r = at waiting r
  after_fan validity last (some max_uid) r =
      if ltb last max_uid then at (storing validity max_uid) r else at (idling validity) r

  abbrev stored_then : Pc → Run E → Option (Error E) × Manager W × W → Run E × Manager W × W
  stored_then pc r (x, m, w) = (after_store pc x r, m, w)

  -- What the session, the timer or the stop channel answers, and what the goroutine does with it.
  unfoldable pub answer : Pc → Answer E → Run E → Run E
  unfolding next_backoff
  answer starting stopped r = at ended r
  answer dialing dialed r = at selecting r
  answer dialing (failed done x) r = if done then at waiting r else break_off "dial inbox" x r
  answer selecting (selected validity last) r = at (reconciling validity last) r
  answer selecting (failed done x) r = break_off "select inbox" x r
  answer (fetching validity last) (fetched msgs) r = at (fanning validity last msgs) r
  answer (fetching validity last) (failed done x) r = break_off "fetch inbox" x r
  answer (idling validity) idled r = at (reading validity) r
  answer (idling validity) (failed done x) r =
      if done then at waiting r else break_off "idle inbox" x r
  answer waiting stopped r = at ended r
  answer waiting (waited elapsed) r = record r {
    pc = starting;
    backoff = next_backoff elapsed r.backoff;
  }
  answer _ _ r = r

  -- The steps that wait for no answer: those under the manager's lock, and the start.
  unfoldable pub proceed : ℕ → Pc → Run E → Manager W → W → Run E × Manager W × W
  unfolding cursor advance_cursor
  proceed l starting r m w = (at dialing r, m, w)
  proceed l (reconciling validity last) r m w = (reconcile validity last (cursor l m) r, m, w)
  proceed l (resetting validity last) r m w =
      stored_then (reading validity) r (advance_cursor env l validity last true m w)
  proceed l (reading validity) r m w = (read_cursor validity (cursor l m) r, m, w)
  proceed l (fanning validity last msgs) r m w =
      let (max_uid, drops, m') = fanout env l msgs m in (after_fan validity last max_uid r, m', w)
  proceed l (storing validity max_uid) r m w =
      stored_then (idling validity) r (advance_cursor env l validity max_uid false m w)
  proceed l _ r m w = (r, m, w)

  -- One step of the goroutine.
  unfoldable pub serve : ℕ → Pc → Answer E → Run E → Manager W → W → Run E × Manager W × W
  unfolding proceed answer
  serve l pc go_on r m w = proceed l pc r m w
  serve l pc a r m w = (answer pc a r, m, w)
