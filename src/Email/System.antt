-- ===== src/Email/System.antt =====
-- email: the manager with its listeners' goroutines, as one system. A call of the manager, a
-- receive of a subscriber, a backfill's delivery and a step of a goroutine are its steps, in any
-- order.
use rogojin.Prelude.{ℕ, String, List, [], ◌∷◌, if◌then◌else◌, ltb}
use rogojin.Prelude.Channels.{update, take_chan}
use rogojin.Email.Types.{Email, Message, Env, Result}
use rogojin.Email.State.{Manager, guard_deletes}
use rogojin.Email.Inventory.{add, delete_email}
use rogojin.Email.Listening.{ListenConfig, listen, close, close_manager}
use rogojin.Email.Delivery.{backfill}
use rogojin.Email.Serving.{Answer, Run, serve}

pub record System (W E : Type 0) : Type 0 where
  pub manager : Manager W
  pub world : W
  pub runs : ℕ → Run E

pub data Call (W E : Type 0) : Type 0 where
  adding : Email → Call W E
  deleting : String → Call W E
  listening_to : String → String → ListenConfig → Call W E
  closing_feed : ℕ → Call W E
  closing_all : Call W E
  guarding : (String → W → List String × List String) → Call W E
  receiving : ℕ → Call W E
  backfilling : ℕ → List Message → Call W E
  serving : ℕ → Answer E → Call W E

module _ {W : Type 0} where
  -- A receive from the channel `C()` of a subscription.
  unfoldable pub receive : ℕ → Manager W → Manager W
  receive i m = record m {
    feeds = update m.feeds i (record (m.feeds i) { ch = take_chan (m.feeds i).ch });
  }

module _ {W E : Type 0} (env : Env W E) where
  abbrev pub on_manager : System W E → Manager W → System W E
  on_manager s m = record s { manager = m }

  abbrev pub served : ℕ → System W E → Run E × Manager W × W → System W E
  served l s (r, m, w) = record { manager = m; world = w; runs = update s.runs l r }

  abbrev pub replied : {A : Type 0} → System W E → Result E A × Manager W × W → System W E
  replied s (reply, m, w) = record s { manager = m; world = w }

  -- One step: a listener's goroutine runs from the listener's start on.
  unfoldable pub step : Call W E → System W E → System W E
  unfolding receive
  step (adding e) s = replied s (add env e s.manager s.world)
  step (deleting id) s = replied s (delete_email env id s.manager s.world)
  step (listening_to task id cfg) s = on_manager s (listen {E = E} task id cfg s.manager).1
  step (closing_feed i) s = on_manager s (close i s.manager)
  step closing_all s = on_manager s (close_manager s.manager)
  step (guarding g) s = on_manager s (guard_deletes g s.manager)
  step (receiving i) s = on_manager s (receive i s.manager)
  step (backfilling i msgs) s =
      on_manager s (backfill env (s.manager.feeds i).email_id i msgs s.manager).1
  step (serving l a) s =
      if ltb l s.manager.next_line
      then served l s (serve env l (s.runs l).pc a (s.runs l) s.manager s.world)
      else s

  unfoldable pub run : List (Call W E) → System W E → System W E
  unfolding step
  run [] s = s
  run (c ∷ cs) s = run cs (step c s)
