-- ===== src/Email/State.antt =====
-- email/manager.go and email/listener.go: the state of the manager. A listener and a
-- subscription are handles into the stores `lines` and `feeds`.
use rogojin.Prelude.{
  ℕ, String, List, [], ◌∷◌, Option, none, some, Bool, true, false, ite, ℕ_discrete, if◌then◌else◌,
}
use rogojin.Prelude.Map.{Map, lookup}
use rogojin.Prelude.Channels.{Chan, update, close_chan}
use rogojin.Email.Types.{Email, Message}

-- `close` is the field closed.
pub record Subscription : Type 0 where
  pub email_id : String
  pub task_id : String
  pub from : String
  pub ch : Chan Message
  pub dropped : ℕ
  pub is_closed : Bool

-- The set `subs` holds handles of subscriptions, `stop` is the channel that ends the goroutine.
pub record Listener : Type 0 where
  pub email_id : String
  pub email : Email
  pub subs : List ℕ
  pub stop : Chan Unit

pub record Manager (W : Type 0) : Type 0 where
  pub guard : Option (String → W → List String × List String)
  pub inventory : Map Email
  pub listeners : Map ℕ
  pub is_closed : Bool
  pub closing : Chan Unit
  pub lines : ℕ → Listener
  pub feeds : ℕ → Subscription
  pub next_line : ℕ
  pub next_feed : ℕ

-- What a handle that was never given out points to.
abbrev pub no_feed : Subscription
no_feed = record {
  email_id = "";
  task_id = "";
  from = "";
  ch = record { cap = 0; queue = []; taken = []; closed = true; panicked = false };
  dropped = 0;
  is_closed = true;
}

abbrev pub no_line : Listener
no_line = record {
  email_id = "";
  email = record { id = ""; address = ""; inbox = none; created_at = 0; updated_at = 0 };
  subs = [];
  stop = record { cap = 0; queue = []; taken = []; closed = true; panicked = false };
}

abbrev pub is_line : Option ℕ → ℕ → Bool
is_line none l = false
is_line (some k) l = ite (ℕ_discrete k l) true false

module _ {W : Type 0} where
  -- owns: whether the listener is still the inbox's registered one.
  unfoldable pub owns : ℕ → Manager W → Bool
  owns l m = is_line (lookup (m.lines l).email_id m.listeners) l

  -- GuardDeletes
  unfoldable pub guard_deletes : (String → W → List String × List String) → Manager W → Manager W
  guard_deletes g m = record m { guard = some g }

-- retire: the one place where a subscription's channel is closed.
unfoldable pub retire : Subscription → Subscription
retire s = if s.is_closed then s else record s { is_closed = true; ch = close_chan s.ch }

unfoldable pub retire_each : List ℕ → (ℕ → Subscription) → ℕ → Subscription
retire_each [] feeds = feeds
retire_each (i ∷ is) feeds = retire_each is (update feeds i (retire (feeds i)))
